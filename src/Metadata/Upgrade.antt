-- ===== src/Metadata/Upgrade.antt =====
-- What an upgrade of the protocol grants and keeps.
use text.Mathlib.TextEquality.{eq_iff}
use deltaswamp.Prelude.{
  Bool, Bool-cases, List, Option, String, [], ap, arith, false, if◌then◌else◌, inl, inr, is_empty,
  none, not, refl, select, some, sym, true, ◌&&◌, ◌++◌, ◌||◌, ◌∙◌, ◌∷◌, ◌≡◌, ◌≢◌, ◌⊎◌,
}
use deltaswamp.Metadata.Protocol.{
  Protocol, effective, has_preview, listed, preview_of, supported_features, upgrade,
  wanted_features, with_features,
}
use deltaswamp.Prelude.Text.{mem, mem-append, mem-minus, minus}

ap_test : (test : String → Bool) (s x : String) → s ≡ x → test s ≡ test x
ap_test test s x e = ap test e

pub mem-select :
    (test : String → Bool) (s : String) (xs : List String)
    → mem s (select test xs) ≡ (mem s xs && test s)
unfolding mem select
mem-select test s [] = refl
mem-select test s (x ∷ xs) = elim (Bool-cases (test x)) [
  | inl e ↦ rw e (ground (arith, mem-select test s xs, eq_iff s x, e, ap_test test s x))
  | inr e ↦ rw e (ground (arith, mem-select test s xs, eq_iff s x, e, ap_test test s x))
]

empty-mem : (xs : List String) (s : String) → is_empty xs ≡ true → mem s xs ≢ true
unfolding mem
empty-mem [] s e i = cc
empty-mem (x ∷ xs) s e i = cc

minus-nil :
    (xs ys : List String)
    → ((s : String) → mem s xs ≡ true → mem s ys ≡ true)
    → is_empty (minus xs ys) ≡ true
unfolding minus mem
minus-nil [] ys h = refl
minus-nil (x ∷ xs) ys h =
    rw (h x (ground (arith, eq_iff x x))) (minus-nil xs ys (λ s i. h s (ground (arith, i))))

pub nil-minus :
    (xs ys : List String) (s : String)
    → is_empty (minus xs ys) ≡ true
    → mem s xs ≡ true
    → mem s ys ≡ true
nil-minus xs ys s e i = elim (Bool-cases (mem s ys)) [
  | inl h ↦ h
  | inr h ↦ (absurd (empty-mem (minus xs ys) s e (ground (arith, mem-minus s xs ys, i, h))))
]

unless-some :
    (b : Bool) (x q : Protocol) → (if b then none else some x) ≡ some q → (b ≡ false) × (q ≡ x)
unless-some true x q e = cc
unless-some false x q e = (refl, cc)

unless-none : (b : Bool) (x : Protocol) → (if b then none else some x) ≡ none → b ≡ true
unless-none true x e = refl
unless-none false x e = cc

pub with_features-some :
    (p q : Protocol) (names : List String)
    → with_features p names ≡ some q
    → (is_empty (minus (effective p names) (supported_features p)) ≡ false)
      × (q ≡ upgrade p (effective p names))
unfolding with_features
with_features-some p q names e = unless-some _ _ q e

upgrade-writers :
    (p : Protocol) (wanted : List String)
    → supported_features (upgrade p wanted) ≡ supported_features p ++ wanted
unfolding supported_features upgrade
upgrade-writers p wanted = refl

-- A name that the protocol provides: it is supported, or a preview of it is.
abbrev pub Provides : Protocol → String → Type 0
Provides p n = (mem n (supported_features p) ≡ true) ⊎ (has_preview (supported_features p) n ≡ true)

effective-mem :
    (p : Protocol) (names : List String) (n : String)
    → mem n (wanted_features names) ≡ true
    → (mem n (effective p names) ≡ true) ⊎ (has_preview (supported_features p) n ≡ true)
unfolding effective
effective-mem p names n i = ground (
  arith,
  mem-select (λ n. not (has_preview (supported_features p) n)) n (wanted_features names),
  i,
)

listed-append :
    (have wanted : List String) (o : Option String)
    → listed have o ≡ true
    → listed (have ++ wanted) o ≡ true
listed-append have wanted none h = h
listed-append have wanted (some v) h = ground (arith, mem-append v have wanted, h)

upgrade-preview :
    (p : Protocol) (wanted : List String) (n : String)
    → has_preview (supported_features p) n ≡ true
    → has_preview (supported_features (upgrade p wanted)) n ≡ true
unfolding has_preview
upgrade-preview p wanted n h =
    rw (upgrade-writers p wanted) (listed-append (supported_features p) wanted (preview_of n) h)

settled :
    (wanted after before kept : Bool)
    → (wanted && not after) ≡ true
    → (wanted ≡ true → (kept ≡ true) ⊎ (before ≡ true))
    → (before ≡ true → after ≡ true)
    → kept ≡ true
settled true false true kept h e g = cc (g refl)
settled true false false kept h e g = ground (arith, e refl)
settled true true before kept h e g = cc
settled false after before kept h e g = cc

pub or_left : (a b : Bool) → a ≡ true → (a || b) ≡ true
or_left true b h = refl
or_left false b h = cc

pub or_true : (a b : Bool) → b ≡ true → (a || b) ≡ true
or_true true b h = refl
or_true false b h = h

upgraded_again :
    (p : Protocol) (names : List String) (s : String)
    → mem s (effective (upgrade p (effective p names)) names) ≡ true
    → mem s (supported_features (upgrade p (effective p names))) ≡ true
unfolding effective
upgraded_again p names s i =
    let wanted = effective p names in
    let q = upgrade p wanted in
    let again : (mem s (wanted_features names) && not (has_preview (supported_features q) s))
        ≡ true =
      sym (mem-select (λ n. not (has_preview (supported_features q) n)) s (wanted_features names))
      ∙ i in
    let held : (mem s wanted ≡ true) → mem s (supported_features q) ≡ true = λ h.
      ap (λ l. mem s l) (upgrade-writers p wanted)
      ∙ mem-append s (supported_features p) wanted
      ∙ or_true (mem s (supported_features p)) (mem s wanted) h in
    held (settled _ _ _ _ again (effective-mem p names s) (upgrade-preview p wanted s))

none-again : (b : Bool) (x : Protocol) → b ≡ true → (if b then none else some x) ≡ none
none-again b x e = rw e refl

-- A protocol is upgraded for good: asked for the same names again, the upgraded protocol is left
-- as it is.
pub with_features_idem :
    (p q : Protocol) (names : List String)
    → with_features p names ≡ some q
    → with_features q names ≡ none
unfolding with_features
with_features_idem p q names e =
    let (_, same) = with_features-some p q names e in
    rw same (none-again _ _ (minus-nil _ _ (upgraded_again p names)))
