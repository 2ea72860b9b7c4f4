-- ===== src/Router/Closure.antt =====
-- The work list of `_features_added` ends, with a set of features that is closed under dependency.
use text.Mathlib.TextEquality.{eq_iff}
use deltaswamp.Prelude.{
  All, Bool, Bool-cases, List, Option, String, [], arith, false, if◌then◌else◌, inl, inr, length,
  length-map, map, none, refl, some, suc, true, zero, ℕ, ◌+◌, ◌<◌, ◌∷◌, ◌≡◌, ◌≤◌, ◌⊎◌,
}
use deltaswamp.Capability.Matrix.{feature_dependencies}
use deltaswamp.Capability.Names.{Operation, TableFeature, append_only, wire}
use deltaswamp.Capability.Wire.{all_features, feature_from_wire}
use deltaswamp.Prelude.Text.{mem}
use deltaswamp.Router.Features.{
  add_dependencies, close_features, dependencies, dependencies_of, features_added, named_features,
}
use deltaswamp.Router.Types.{Shape}

-- Whether each of the names is in the set.
abbrev pub Within : List String → List String → Type 0
Within xs names = All (λ x. mem x names ≡ true) xs

-- How many of the names are not in the set yet.
abbrev pub outside : List String → List String → ℕ
outside [] names = 0
outside (x ∷ xs) names = (if mem x names then 0 else 1) + outside xs names

-- Every wire name that a dependency can have.
abbrev pub universe : List String
universe = map wire all_features

outside-add : (d : String) (xs names : List String) → outside xs (d ∷ names) ≤ outside xs names
unfolding mem
outside-add d [] names = omega arith
outside-add d (x ∷ xs) names = ground (arith, outside-add d xs names)

outside-add_lt :
    (d : String) (xs names : List String)
    → mem d xs ≡ true
    → mem d names ≡ false
    → outside xs (d ∷ names) < outside xs names
unfolding mem
outside-add_lt d [] names h n = cc
outside-add_lt d (x ∷ xs) names h n =
    ground (arith, eq_iff d x, outside-add d xs names, outside-add_lt d xs names)

add_dependencies-kept :
    (ds names pending : List String) (s : String)
    → mem s names ≡ true
    → mem s (add_dependencies ds names pending).0 ≡ true
unfolding add_dependencies mem
add_dependencies-kept [] names pending s h = h
add_dependencies-kept (d ∷ ds) names pending s h = elim (Bool-cases (mem d names)) [
  | inl old ↦ rw old (add_dependencies-kept ds names pending s h)
  | inr new ↦ rw new (add_dependencies-kept ds (d ∷ names) (d ∷ pending) s (ground (arith, h)))
]

add_dependencies-taken :
    (ds names pending : List String) (s : String)
    → mem s ds ≡ true
    → mem s (add_dependencies ds names pending).0 ≡ true
unfolding add_dependencies mem
add_dependencies-taken [] names pending s h = cc
add_dependencies-taken (d ∷ ds) names pending s h = elim (Bool-cases (mem d names)) [
  | inl old ↦ rw old (
      ground (
        arith,
        eq_iff s d,
        add_dependencies-kept ds names pending s,
        add_dependencies-taken ds names pending s,
      ))
  | inr new ↦ rw new (
      ground (
        arith,
        eq_iff s d,
        add_dependencies-kept ds (d ∷ names) (d ∷ pending) s,
        add_dependencies-taken ds (d ∷ names) (d ∷ pending) s,
      ))
]

add_dependencies-pending :
    (ds names pending : List String) (s : String)
    → mem s pending ≡ true
    → mem s (add_dependencies ds names pending).1 ≡ true
unfolding add_dependencies mem
add_dependencies-pending [] names pending s h = h
add_dependencies-pending (d ∷ ds) names pending s h = elim (Bool-cases (mem d names)) [
  | inl old ↦ rw old (add_dependencies-pending ds names pending s h)
  | inr new ↦ rw new (add_dependencies-pending ds (d ∷ names) (d ∷ pending) s (ground (arith, h)))
]

-- A name that came in is on the list.
add_dependencies-new :
    (ds names pending : List String) (s : String)
    → mem s (add_dependencies ds names pending).0 ≡ true
    → (mem s names ≡ true) ⊎ (mem s (add_dependencies ds names pending).1 ≡ true)
unfolding add_dependencies mem
add_dependencies-new [] names pending s h = inl h
add_dependencies-new (d ∷ ds) names pending s h = elim (Bool-cases (mem d names)) [
  | inl old ↦ rw old (add_dependencies-new ds names pending s (rw old at h))
  | inr new ↦ rw new (
      ground (
        arith,
        eq_iff s d,
        add_dependencies-new ds (d ∷ names) (d ∷ pending) s (rw new at h),
        add_dependencies-pending ds (d ∷ names) (d ∷ pending) s,
      ))
]

add_dependencies-measured :
    (ds names pending : List String)
    → Within ds universe
    → length (add_dependencies ds names pending).1
        + outside universe (add_dependencies ds names pending).0
      ≤ length pending + outside universe names
unfolding add_dependencies
add_dependencies-measured [] names pending u = omega arith
add_dependencies-measured (d ∷ ds) names pending u = elim (Bool-cases (mem d names)) [
  | inl old ↦ rw old (add_dependencies-measured ds names pending u.1)
  | inr new ↦ rw new (
      omega (
        arith,
        add_dependencies-measured ds (d ∷ names) (d ∷ pending) u.1,
        outside-add_lt d universe names u.0 new,
      ))
]

wire-universe : (f : TableFeature) → mem (wire f) universe ≡ true
unfolding mem wire all_features
wire-universe append_only = refl
wire-universe _ = refl

map-wire-Within : (fs : List TableFeature) → Within (map wire fs) universe
map-wire-Within [] = tt
map-wire-Within (f ∷ fs) = (wire-universe f, map-wire-Within fs)

dependencies_of-Within : (o : Option TableFeature) → Within (dependencies_of o) universe
unfolding dependencies_of
dependencies_of-Within none = tt
dependencies_of-Within (some f) = map-wire-Within (feature_dependencies f)

dependencies-Within : (name : String) → Within (dependencies name) universe
unfolding dependencies
dependencies-Within name = dependencies_of-Within (feature_from_wire name)

-- Each name of the set waits on the list, or has its dependencies in the set.
abbrev IsSettled : List String → List String → Type 0
IsSettled names pending =
    (s d : String)
    → mem s names ≡ true
    → mem d (dependencies s) ≡ true
    → (mem s pending ≡ true) ⊎ (mem d names ≡ true)

IsSettled-step :
    (n : String) (names pending : List String)
    → IsSettled names (n ∷ pending)
    → let (names', pending') = add_dependencies (dependencies n) names pending in
      IsSettled names' pending'
unfolding mem
IsSettled-step n names pending h s d in_set needs =
    elim (add_dependencies-new (dependencies n) names pending s in_set) [
      | inr waits ↦ inl waits
      | inl old ↦ ground (
        arith,
        eq_iff s n,
        h s d old needs,
        add_dependencies-kept (dependencies n) names pending d,
        add_dependencies-taken (dependencies n) names pending d,
        add_dependencies-pending (dependencies n) names pending s,
      )
    ]

-- The set with its dependencies: each name's are in it.
abbrev pub IsClosed : List String → Type 0
IsClosed names =
    (s d : String) → mem s names ≡ true → mem d (dependencies s) ≡ true → mem d names ≡ true

nil-IsClosed :
    (names pending : List String) → pending ≡ [] → IsSettled names pending → IsClosed names
unfolding mem
nil-IsClosed names pending e h s d i n = ground (arith, h s d i n, e)

close_features-IsClosed :
    (fuel : ℕ) (names pending : List String)
    → length pending + outside universe names ≤ fuel
    → IsSettled names pending
    → IsClosed (close_features fuel names pending)
unfolding close_features
close_features-IsClosed zero names [] m h = nil-IsClosed names [] refl h
close_features-IsClosed zero names (n ∷ pending) m h = absurd (omega arith)
close_features-IsClosed (suc fuel) names [] m h = nil-IsClosed names [] refl h
close_features-IsClosed (suc fuel) names (n ∷ pending) m h =
    close_features-IsClosed fuel _ _
      (omega
        (arith, add_dependencies-measured (dependencies n) names pending (dependencies-Within n)))
      (IsSettled-step n names pending h)

close_features-kept :
    (fuel : ℕ) (names pending : List String) (s : String)
    → mem s names ≡ true
    → mem s (close_features fuel names pending) ≡ true
unfolding close_features
close_features-kept zero names pending s h = h
close_features-kept (suc fuel) names [] s h = h
close_features-kept (suc fuel) names (n ∷ pending) s h =
    close_features-kept fuel _ _ s (add_dependencies-kept (dependencies n) names pending s h)

-- A set that contains the names and their dependencies contains what the loop adds.
module _ (inside : String → Bool)
    (closed : (s d : String)
      → inside s ≡ true
      → mem d (dependencies s) ≡ true
      → inside d ≡ true) where
  abbrev Inside : List String → Type 0
  Inside xs = (s : String) → mem s xs ≡ true → inside s ≡ true

  add_dependencies-Inside :
      (ds names pending : List String)
      → Inside ds
      → Inside names
      → Inside pending
      → Inside (add_dependencies ds names pending).0 × Inside (add_dependencies ds names pending).1
  unfolding add_dependencies mem
  add_dependencies-Inside [] names pending d n p = (n, p)
  add_dependencies-Inside (x ∷ ds) names pending d n p = elim (Bool-cases (mem x names)) [
    | inl old ↦
        rw old (add_dependencies-Inside ds names pending (λ s h. d s (ground (arith, h))) n p)
    | inr new ↦ rw new (
        add_dependencies-Inside ds (x ∷ names) (x ∷ pending) (λ s h. d s (ground (arith, h)))
          (λ s h. ground (arith, eq_iff s x, eq_iff x x, d x, n s, h))
          (λ s h. ground (arith, eq_iff s x, eq_iff x x, d x, p s, h)))
  ]

  close_features-Inside :
      (fuel : ℕ) (names pending : List String)
      → Inside names
      → Inside pending
      → Inside (close_features fuel names pending)
  unfolding close_features mem
  close_features-Inside zero names pending n p = n
  close_features-Inside (suc fuel) names [] n p = n
  close_features-Inside (suc fuel) names (x ∷ pending) n p =
      let (n', p') =
        add_dependencies-Inside (dependencies x) names pending
          (λ s h. closed x s (p x (ground (arith, eq_iff x x))) h) n
          (λ s h. p s (ground (arith, h))) in
      close_features-Inside fuel _ _ n' p'

outside-le : (xs names : List String) → outside xs names ≤ length xs
outside-le [] names = omega arith
outside-le (x ∷ xs) names = ground (arith, outside-le xs names)

named-IsSettled : (names : List String) → IsSettled names names
named-IsSettled names s d i n = inl i

-- The features that a metadata change turns on are the least set that has those it names and, with
-- each feature, the features it depends on; the loop that finds them ends within its fuel.
pub features_added-least :
    (operation : Operation) (shape : Shape)
    → ((s : String)
        → mem s (named_features operation shape) ≡ true
        → mem s (features_added operation shape) ≡ true)
      × IsClosed (features_added operation shape)
      × ((inside : String → Bool)
          → ((s d : String) → inside s ≡ true → mem d (dependencies s) ≡ true → inside d ≡ true)
          → ((s : String) → mem s (named_features operation shape) ≡ true → inside s ≡ true)
          → (s : String) → mem s (features_added operation shape) ≡ true
          → inside s ≡ true)
unfolding features_added
features_added-least operation shape =
    let names = named_features operation shape in
    (
      λ s h. close_features-kept _ names names s h,
      close_features-IsClosed _ names names
          (omega (arith, outside-le universe names, length-map wire all_features))
          (named-IsSettled names),
      λ inside closed start s h. close_features-Inside inside closed _ names names start start s h,
    )
