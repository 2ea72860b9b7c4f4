-- ===== src/Metadata/Wanted.antt =====
-- The work list of `with_features` ends, with every dependency of what is asked for.
use mathlib.Core.List.{append-nil}
use text.Mathlib.Text.{◌==◌ as str_eq}
use text.Mathlib.TextEquality.{eq_iff}
use deltaswamp.Prelude.{
  Bool, Bool-cases, List, Option-cases, String, [], ap, arith, false, inl, inr, length,
  length-append, refl, suc, sym, true, zero, ℕ, ◌++◌, ◌+◌, ◌∙◌, ◌∷◌, ◌≡◌, ◌≤◌, ◌⊎◌,
}
use deltaswamp.Capability.Names.{TableFeature, append_only, wire}
use deltaswamp.Capability.RoundTrip.{feature_from_wire_iff}
use deltaswamp.Capability.Wire.{all_features, feature_from_wire}
use deltaswamp.Metadata.Protocol.{want, wanted_features, weight}
use deltaswamp.Prelude.Text.{mem, mem-append}
use deltaswamp.Router.Closure.{IsClosed, universe}
use deltaswamp.Router.Features.{dependencies, dependencies_of}

dependencies-wire : (f : TableFeature) → mem (wire f) universe ≡ true
unfolding mem wire all_features
dependencies-wire append_only = refl
dependencies-wire _ = refl

-- A name with dependencies is the wire name of a feature.
known-dependencies : (n : String) → (length (dependencies n) ≡ 0) ⊎ (mem n universe ≡ true)
unfolding dependencies dependencies_of
known-dependencies n = elim (Option-cases (feature_from_wire n)) [
  | inl e ↦ inl (rw e refl)
  | inr r ↦ elim ((feature_from_wire_iff n r.0).0 r.1) [
    | inl e ↦ inr (rw e (dependencies-wire r.0))
    | inr e ↦ inl (rw (r.1, e.1) refl)
  ]
]

weight-add : (n : String) (xs wanted : List String) → weight xs (n ∷ wanted) ≤ weight xs wanted
unfolding weight mem
weight-add n [] wanted = omega arith
weight-add n (x ∷ xs) wanted = ground (arith, weight-add n xs wanted)

weight-take :
    (n : String) (xs wanted : List String)
    → mem n xs ≡ true
    → mem n wanted ≡ false
    → weight xs (n ∷ wanted) + length (dependencies n) ≤ weight xs wanted
unfolding weight mem
weight-take n [] wanted h g = cc
weight-take n (x ∷ xs) wanted h g = elim (Bool-cases (str_eq n x)) [
  | inl e ↦
      (let same : n ≡ x = (eq_iff n x).0 e in
        let also : mem x wanted ≡ false = ap (λ k. mem k wanted) (sym same) ∙ g in
        ground (
          arith,
          eq_iff x n,
          sym same,
          also,
          ap (λ k. length (dependencies k)) same,
          weight-add n xs wanted,
        ))
  | inr e ↦ ground (arith, eq_iff x n, eq_iff n x, weight-take n xs wanted)
]

-- A new name costs its place on the list; its dependencies were counted before.
weight-new :
    (n : String) (wanted : List String)
    → mem n wanted ≡ false
    → weight universe (n ∷ wanted) + length (dependencies n) ≤ weight universe wanted
weight-new n wanted g = elim (known-dependencies n) [
  | inl e ↦ omega (arith, e, weight-add n universe wanted)
  | inr h ↦ weight-take n universe wanted h g
]

-- What is left to do: a name of the list, or a dependency that is not counted yet.
abbrev pub left : List String → List String → ℕ
left wanted pending = length pending + weight universe wanted

left-old :
    (n : String) (wanted pending : List String) (fuel : ℕ)
    → left wanted (n ∷ pending) ≤ suc fuel
    → left wanted pending ≤ fuel
left-old n wanted pending fuel h = omega (arith, h)

left-new :
    (n : String) (wanted pending : List String) (fuel : ℕ)
    → mem n wanted ≡ false
    → left wanted (n ∷ pending) ≤ suc fuel
    → left (n ∷ wanted) (dependencies n ++ pending) ≤ fuel
left-new n wanted pending fuel g h =
    omega (arith, h, weight-new n wanted g, length-append (dependencies n) pending)

want-kept :
    (fuel : ℕ) (wanted pending : List String) (s : String)
    → mem s wanted ≡ true
    → mem s (want fuel wanted pending) ≡ true
unfolding want mem
want-kept zero wanted pending s h = h
want-kept (suc fuel) wanted [] s h = h
want-kept (suc fuel) wanted (n ∷ pending) s h = elim (Bool-cases (mem n wanted)) [
  | inl old ↦ rw old (want-kept fuel wanted pending s h)
  | inr new ↦ rw new (want-kept fuel (n ∷ wanted) (dependencies n ++ pending) s (ground (arith, h)))
]

-- Each dependency of a wanted name is wanted, or waits on the list.
abbrev IsOpen : List String → List String → Type 0
IsOpen wanted pending =
    (s d : String)
    → mem s wanted ≡ true
    → mem d (dependencies s) ≡ true
    → mem d (wanted ++ pending) ≡ true

IsOpen-new :
    (n : String) (wanted pending : List String)
    → IsOpen wanted (n ∷ pending)
    → IsOpen (n ∷ wanted) (dependencies n ++ pending)
unfolding mem
IsOpen-new n wanted pending open_before s d i needs = elim (Bool-cases (str_eq s n)) [
  | inl e ↦
      (let own : mem d (dependencies n) ≡ true =
          ap (λ k. mem d (dependencies k)) (sym ((eq_iff s n).0 e)) ∙ needs in
        ground (
          arith,
          own,
          mem-append d wanted (dependencies n ++ pending),
          mem-append d (dependencies n) pending,
        ))
  | inr e ↦
      (let before : mem s wanted ≡ true = ground (arith, i, e) in
        ground (
          arith,
          open_before s d before needs,
          mem-append d wanted (n ∷ pending),
          mem-append d wanted (dependencies n ++ pending),
          mem-append d (dependencies n) pending,
        ))
]

ap_mem : (d n : String) (wanted : List String) → d ≡ n → mem d wanted ≡ mem n wanted
ap_mem d n wanted e = ap (λ k. mem k wanted) e

IsOpen-old :
    (n : String) (wanted pending : List String)
    → mem n wanted ≡ true
    → IsOpen wanted (n ∷ pending)
    → IsOpen wanted pending
unfolding mem
IsOpen-old n wanted pending old open_before s d i needs = ground (
  arith,
  open_before s d i needs,
  old,
  eq_iff d n,
  ap_mem d n wanted,
  mem-append d wanted (n ∷ pending),
  mem-append d wanted pending,
)

want-IsClosed :
    (fuel : ℕ) (wanted pending : List String)
    → left wanted pending ≤ fuel
    → IsOpen wanted pending
    → IsClosed (want fuel wanted pending)
unfolding want
want-IsClosed zero wanted [] h o = λ s d i needs. ground (arith, o s d i needs, append-nil wanted)
want-IsClosed zero wanted (n ∷ pending) h o = absurd (omega (arith, h))
want-IsClosed (suc fuel) wanted [] h o =
    λ s d i needs. ground (arith, o s d i needs, append-nil wanted)
want-IsClosed (suc fuel) wanted (n ∷ pending) h o = elim (Bool-cases (mem n wanted)) [
  | inl old ↦ rw old (
      want-IsClosed fuel wanted pending (left-old n wanted pending fuel h)
        (IsOpen-old n wanted pending old o))
  | inr new ↦ rw new (
      want-IsClosed fuel (n ∷ wanted) (dependencies n ++ pending)
        (left-new n wanted pending fuel new h) (IsOpen-new n wanted pending o))
]

want-taken :
    (fuel : ℕ) (wanted pending : List String) (s : String)
    → left wanted pending ≤ fuel
    → mem s pending ≡ true
    → mem s (want fuel wanted pending) ≡ true
unfolding want mem
want-taken zero wanted [] s h i = cc
want-taken zero wanted (n ∷ pending) s h i = absurd (omega (arith, h))
want-taken (suc fuel) wanted [] s h i = cc
want-taken (suc fuel) wanted (n ∷ pending) s h i = elim (Bool-cases (mem n wanted)) [
  | inl old ↦ rw old (elim (Bool-cases (str_eq s n)) [
    | inl e ↦ want-kept fuel wanted pending s (ap_mem s n wanted ((eq_iff s n).0 e) ∙ old)
    | inr e ↦
        want-taken fuel wanted pending s (left-old n wanted pending fuel h) (ground (arith, i, e))
  ])
  | inr new ↦ rw new (elim (Bool-cases (str_eq s n)) [
    | inl e ↦ want-kept fuel (n ∷ wanted) (dependencies n ++ pending) s (ground (arith, e))
    | inr e ↦
        want-taken fuel (n ∷ wanted) (dependencies n ++ pending) s
          (left-new n wanted pending fuel new h)
          (ground (arith, i, e, mem-append s (dependencies n) pending))
  ])
]

-- A set that is closed under dependency and has the names contains what the loop wants.
module _ (inside : String → Bool)
    (closed : (s d : String)
      → inside s ≡ true
      → mem d (dependencies s) ≡ true
      → inside d ≡ true) where
  abbrev Inside : List String → Type 0
  Inside xs = (s : String) → mem s xs ≡ true → inside s ≡ true

  Inside-new :
      (n : String) (wanted pending : List String)
      → Inside wanted
      → Inside (n ∷ pending)
      → Inside (n ∷ wanted) × Inside (dependencies n ++ pending)
  unfolding mem
  Inside-new n wanted pending w p = (
    λ s i. ground (arith, i, w s, p s, eq_iff s n),
    λ s i. ground (
      arith,
      i,
      mem-append s (dependencies n) pending,
      p s,
      closed n s (p n (ground (arith, eq_iff n n))),
    ),
  )

  want-Inside :
      (fuel : ℕ) (wanted pending : List String)
      → Inside wanted
      → Inside pending
      → Inside (want fuel wanted pending)
  unfolding want mem
  want-Inside zero wanted pending w p = w
  want-Inside (suc fuel) wanted [] w p = w
  want-Inside (suc fuel) wanted (n ∷ pending) w p = elim (Bool-cases (mem n wanted)) [
    | inl old ↦ rw old (want-Inside fuel wanted pending w (λ s i. p s (ground (arith, i))))
    | inr new ↦
        (let (w', p') = Inside-new n wanted pending w p in
          rw new (want-Inside fuel (n ∷ wanted) (dependencies n ++ pending) w' p'))
  ]

-- The features that `with_features` works with are the least set that has the names asked for and,
-- with each feature, the features it depends on; the loop that finds them ends within its fuel.
pub wanted_features-least :
    (names : List String)
    → ((s : String) → mem s names ≡ true → mem s (wanted_features names) ≡ true)
      × IsClosed (wanted_features names)
      × ((inside : String → Bool)
          → ((s d : String) → inside s ≡ true → mem d (dependencies s) ≡ true → inside d ≡ true)
          → ((s : String) → mem s names ≡ true → inside s ≡ true)
          → (s : String) → mem s (wanted_features names) ≡ true
          → inside s ≡ true)
unfolding wanted_features mem
wanted_features-least names =
    let fuel = length names + weight universe [] in
    (
      λ s i. want-taken fuel [] names s (omega arith) i,
      want-IsClosed fuel [] names (omega arith) (λ s d i needs. cc),
      λ inside closed named. want-Inside inside closed fuel [] names (λ s i. cc) named,
    )
