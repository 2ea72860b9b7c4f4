-- ===== src/Predicate/Prefix.antt =====
-- The end of the range that a text with a prefix lies in (python/deltaswamp/predicate.py:
-- _after_prefix), for a LIKE with a prefix.
use mathlib.Core.Option
use deltaswamp.Prelude.{
  Bool, Option, [], arith, false, if◌then◌else◌, leb, none, refl, some, sym, true, ℕ, ◌&&◌, ◌+◌,
  ◌<◌, ◌==◌, ◌∷◌, ◌≡◌,
}
use deltaswamp.Distributed.Balance.{text_lt}
use deltaswamp.Prelude.Guards.{when-some}
use deltaswamp.Prelude.Text.{has_prefix}
use deltaswamp.Reference.Split.{Text}

-- The next character, past the surrogates, if there is one.
unfoldable pub bumped : ℕ → Option ℕ
bumped c = if c + 1 == 55296 then some 57344 else if leb (c + 1) 1114111 then some (c + 1) else none

abbrev pub put_first : ℕ → Option Text → Option Text
put_first c (some rest) = some (c ∷ rest)
put_first c none = Option.map (λ d. d ∷ []) (bumped c)

-- `_after_prefix`: the last character that has a next one is bumped, and what is behind it dropped.
unfoldable pub after_prefix : Text → Option Text
after_prefix [] = none
after_prefix (c ∷ cs) = put_first c (after_prefix cs)

bumped-above : (c d : ℕ) → bumped c ≡ some d → c < d
unfolding bumped
bumped-above c d e = ground arith

smaller_by_head : (c d : ℕ) (s q : Text) → c < d → text_lt (c ∷ s) (d ∷ q) ≡ true
unfolding text_lt
smaller_by_head c d s q h = ground arith

smaller_by_rest : (c : ℕ) (s q : Text) → text_lt s q ≡ true → text_lt (c ∷ s) (c ∷ q) ≡ true
unfolding text_lt
smaller_by_rest c s q h = ground arith

no_smaller : (c : ℕ) (s q : Text) → text_lt s q ≡ false → text_lt (c ∷ s) (c ∷ q) ≡ false
unfolding text_lt
no_smaller c s q h = ground arith

same_head : (c d : ℕ) (b : Bool) → ((c == d) && b) ≡ true → (c ≡ d) × (b ≡ true)
same_head c d b h = ground arith

bumped_text-above :
    (c : ℕ) (next : Option ℕ) (s q : Text)
    → ((d : ℕ) → next ≡ some d → c < d)
    → Option.map (λ d. d ∷ []) next ≡ some q
    → text_lt (c ∷ s) q ≡ true
bumped_text-above c none s q above e = cc
bumped_text-above c (some d) s q above e =
    rw (sym (when-some true _ _ e).1) (smaller_by_head c d s [] (above d refl))

put_first-above :
    (c : ℕ) (upper : Option Text) (s q : Text)
    → put_first c upper ≡ some q
    → ((r : Text) → upper ≡ some r → text_lt s r ≡ true)
    → text_lt (c ∷ s) q ≡ true
put_first-above c (some r) s q e inner =
    rw (sym (when-some true _ _ e).1) (smaller_by_rest c s r (inner r refl))
put_first-above c none s q e inner = bumped_text-above c (bumped c) s q (bumped-above c) e

prefix_not_above : (prefix s : Text) → has_prefix prefix s ≡ true → text_lt s prefix ≡ false
unfolding has_prefix text_lt
prefix_not_above [] [] h = refl
prefix_not_above [] (c ∷ cs) h = refl
prefix_not_above (p ∷ ps) [] h = cc
prefix_not_above (p ∷ ps) (c ∷ cs) h =
    let (p_is, rest) = same_head p c (has_prefix ps cs) h in
    rw p_is (no_smaller c cs ps (prefix_not_above ps cs rest))

prefix_below_end :
    (prefix s upper : Text)
    → after_prefix prefix ≡ some upper
    → has_prefix prefix s ≡ true
    → text_lt s upper ≡ true
unfolding after_prefix has_prefix
prefix_below_end [] s upper e h = cc
prefix_below_end (p ∷ ps) [] upper e h = cc
prefix_below_end (p ∷ ps) (c ∷ cs) upper e h =
    let (p_is, rest) = same_head p c (has_prefix ps cs) h in
    rw (sym p_is)
      (put_first-above p (after_prefix ps) cs upper e (λ r x. prefix_below_end ps cs r x rest))

-- Where `_after_prefix` gives an end of the range for a prefix, a text that starts with the prefix
-- is not below the prefix, and below that end, in the order of code points.
pub after_prefix-bounds :
    (prefix s upper : Text)
    → after_prefix prefix ≡ some upper
    → has_prefix prefix s ≡ true
    → (text_lt s prefix ≡ false) × (text_lt s upper ≡ true)
after_prefix-bounds prefix s upper e h =
    (prefix_not_above prefix s h, prefix_below_end prefix s upper e h)
