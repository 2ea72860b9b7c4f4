-- ===== src/Predicate/Atoms.antt =====
-- The connectives of the three-valued logic, for a form of the kernel beside what it stands for
-- (python/deltaswamp/predicate.py: _skip).
use deltaswamp.Prelude.{Bool, false, refl, true, ◌∙◌, ◌≡◌}
use deltaswamp.Predicate.Meaning.{Truth, fails, holds, t_and, t_or, unsure}

-- Under a NOT the form has to say the same; elsewhere it holds where the predicate does.
abbrev pub IsAsStrong : Bool → Truth → Truth → Type 0
IsAsStrong true said_of seen_of = seen_of ≡ said_of
IsAsStrong false said_of seen_of = said_of ≡ holds → seen_of ≡ holds

pub IsAsStrong-eq : (exact : Bool) (s t : Truth) → t ≡ s → IsAsStrong exact s t
IsAsStrong-eq true s t e = e
IsAsStrong-eq false s t e = λ h. e ∙ h

t_or-right : (c : Truth) → t_or c holds ≡ holds
t_or-right holds = refl
t_or-right fails = refl
t_or-right unsure = refl

or_holds :
    (a b c d : Truth)
    → IsAsStrong false a c
    → IsAsStrong false b d
    → t_or a b ≡ holds
    → t_or c d ≡ holds
or_holds holds b c d f g e = rw (f refl) refl
or_holds fails b c d f g e = rw (g e) (t_or-right c)
or_holds unsure holds c d f g e = rw (g refl) (t_or-right c)
or_holds unsure fails c d f g e = cc
or_holds unsure unsure c d f g e = cc

and_holds :
    (a b c d : Truth)
    → IsAsStrong false a c
    → IsAsStrong false b d
    → t_and a b ≡ holds
    → t_and c d ≡ holds
and_holds holds b c d f g e = rw (f refl) (g e)
and_holds fails b c d f g e = cc
and_holds unsure holds c d f g e = cc
and_holds unsure fails c d f g e = cc
and_holds unsure unsure c d f g e = cc

pub t_or-IsAsStrong :
    (exact : Bool) (a b c d : Truth)
    → IsAsStrong exact a c
    → IsAsStrong exact b d
    → IsAsStrong exact (t_or a b) (t_or c d)
t_or-IsAsStrong true a b c d f g = rw f (rw g refl)
t_or-IsAsStrong false a b c d f g = or_holds a b c d f g

pub t_and-IsAsStrong :
    (exact : Bool) (a b c d : Truth)
    → IsAsStrong exact a c
    → IsAsStrong exact b d
    → IsAsStrong exact (t_and a b) (t_and c d)
t_and-IsAsStrong true a b c d f g = rw f (rw g refl)
t_and-IsAsStrong false a b c d f g = and_holds a b c d f g

-- What is exact may be weakened.
pub IsAsStrong-weaken : (exact : Bool) (s t : Truth) → IsAsStrong true s t → IsAsStrong exact s t
IsAsStrong-weaken exact s t e = IsAsStrong-eq exact s t e

-- A conjunct that is left out weakens a conjunction.
pub t_and-left : (a b : Truth) → t_and a b ≡ holds → a ≡ holds
t_and-left holds b e = refl
t_and-left fails b e = cc
t_and-left unsure holds e = cc
t_and-left unsure fails e = cc
t_and-left unsure unsure e = cc

pub t_and-dropped : (a b : Truth) → t_and a b ≡ holds → b ≡ holds
t_and-dropped holds b e = e
t_and-dropped fails b e = cc
t_and-dropped unsure holds e = refl
t_and-dropped unsure fails e = cc
t_and-dropped unsure unsure e = cc
