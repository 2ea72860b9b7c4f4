-- ===== src/Metadata/Kept.antt =====
-- What a drop of a column leaves in a schema: a field in every struct, and the columns that others
-- know by name or by their physical path.
use mathlib.Core.Path.{subst}
use deltaswamp.Prelude.{
  Bool, List, Option-cases, [], ap, arith, false, inl, inr, is_empty, refl, some, suc, sym, true,
  zero, ℕ, ◌&&◌, ◌∷◌, ◌≡◌, ◌≢◌, ◌||◌,
}
use deltaswamp.Metadata.Columns.{is_prefix}
use deltaswamp.Metadata.Distinct.{place_inj}
use deltaswamp.Metadata.Edits.{some_inj}
use deltaswamp.Metadata.Schema.{
  DataType, Fields, array, child_at, count_fields, done, field, find, index_of, map_of, modify,
  no_fields, physical_at, physical_name, physical_path, primitive, remove_at, set_child, struct,
}
use deltaswamp.Prelude.Text.{codes_eq}
use deltaswamp.Reference.Split.{Text}

abbrev pub has_field : Fields → Bool
has_field no_fields = false
has_field (field f t n m fs) = true

-- Every struct inside a type or a list of fields has a field.
unfoldable mutual
  pub filled_type : DataType → Bool
  filled_type (primitive p) = true
  filled_type (struct fs) = has_field fs && filled_within fs
  filled_type (array t) = filled_type t
  filled_type (map_of k v) = filled_type k && filled_type v

  pub filled_within : Fields → Bool
  filled_within no_fields = true
  filled_within (field f t n m fs) = filled_type t && filled_within fs

-- A table's schema has a column, and so has every struct in it.
abbrev pub filled : Fields → Bool
filled fs = has_field fs && filled_within fs

remove_at-filled_within :
    (fs : Fields) (i : ℕ) → filled_within fs ≡ true → filled_within (remove_at fs i) ≡ true
unfolding filled_within remove_at
remove_at-filled_within no_fields i h = h
remove_at-filled_within (field f t n m fs) zero h = ground arith
remove_at-filled_within (field f t n m fs) (suc i) h = ground (arith, remove_at-filled_within fs i)

remove_at-has_field :
    (fs : Fields) (i : ℕ)
    → has_field fs ≡ true
    → count_fields fs ≢ 1
    → has_field (remove_at fs i) ≡ true
unfolding remove_at count_fields
remove_at-has_field no_fields i h c = h
remove_at-has_field (field f t n m no_fields) i h c = absurd (c refl)
remove_at-has_field (field f t n m (field g u o l fs)) zero h c = refl
remove_at-has_field (field f t n m (field g u o l fs)) (suc i) h c = refl

set_child-filled :
    (fs changed : Fields) (i : ℕ)
    → filled fs ≡ true
    → filled changed ≡ true
    → filled (set_child fs i changed) ≡ true
unfolding filled_within set_child
set_child-filled no_fields changed i h g = cc
set_child-filled (field f t n m fs) changed zero h g = ground arith
set_child-filled (field f t n m no_fields) changed (suc i) h g = h
set_child-filled (field f t n m (field a u o l fs)) changed (suc i) h g =
    ground (arith, set_child-filled (field a u o l fs) changed i)

child_at-filled :
    (fs inner : Fields) (i : ℕ)
    → child_at fs i ≡ some inner
    → filled_within fs ≡ true
    → filled inner ≡ true
unfolding filled_within child_at
child_at-filled no_fields inner i e h = cc
child_at-filled (field f (struct gs) n m fs) inner zero e h =
    subst (λ x. filled x ≡ true) (some_inj gs inner e) (ground arith)
child_at-filled (field f (primitive p) n m fs) inner zero e h = cc
child_at-filled (field f (array t) n m fs) inner zero e h = cc
child_at-filled (field f (map_of k v) n m fs) inner zero e h = cc
child_at-filled (field f t n m fs) inner (suc i) e h = child_at-filled fs inner i e (ground arith)

pub drop-filled :
    (path : List Text) (fs : Fields) (place : Fields × ℕ)
    → find path fs ≡ done place
    → count_fields place.0 ≢ 1
    → filled fs ≡ true
    → filled (modify remove_at path fs) ≡ true
unfolding find modify
drop-filled [] fs place e c h = h
drop-filled (p ∷ []) fs place e c h = elim (Option-cases (index_of p fs)) [
  | inl n ↦ rw (modify, n) h
  | inr (i, k) ↦
      (let same : (fs, i) ≡ place = place_inj (fs, i) place (rw (find, k) at e) in
        let many : count_fields fs ≢ 1 =
          subst (λ (x : Fields × ℕ). count_fields x.0 ≢ 1) (sym same) c in
        rw (modify, k)
          (ground (arith, remove_at-filled_within fs i, remove_at-has_field fs i, many)))
]
drop-filled (p ∷ q ∷ path) fs place e c h = elim (Option-cases (index_of p fs)) [
  | inl n ↦ rw (modify, n) h
  | inr (i, k) ↦ elim (Option-cases (child_at fs i)) [
    | inl n ↦ rw (modify, k, n) h
    | inr (inner, at) ↦
        rw (modify, k, at)
          (set_child-filled fs (modify remove_at (q ∷ path) inner) i h (
            drop-filled (q ∷ path) inner place (rw (find, k, at) at e) c
              (child_at-filled fs inner i at (ground arith))))
  ]
]

-- Whether a schema has a column of a physical path, in nested structs.
unfoldable mutual
  unfolding physical_name codes_eq

  pub type_has : DataType → List Text → Bool
  type_has (struct fs) [] = true
  type_has (struct fs) (p ∷ path) = has_physical fs (p ∷ path)
  type_has (primitive t) path = is_empty path
  type_has (array t) path = is_empty path
  type_has (map_of k v) path = is_empty path

  pub has_physical : Fields → List Text → Bool
  has_physical no_fields path = false
  has_physical (field f t n m fs) [] = false
  has_physical (field f t n m fs) (p ∷ path) =
      (codes_eq (physical_name f m) p && type_has t path) || has_physical fs (p ∷ path)

remove_at-has_physical :
    (fs : Fields) (i : ℕ) (p : Text) (path : List Text)
    → codes_eq (physical_at fs i) p ≡ false
    → has_physical fs (p ∷ path) ≡ true
    → has_physical (remove_at fs i) (p ∷ path) ≡ true
unfolding has_physical remove_at physical_at
remove_at-has_physical no_fields i p path e h = h
remove_at-has_physical (field f t n m fs) zero p path e h = ground arith
remove_at-has_physical (field f t n m fs) (suc i) p path e h =
    ground (arith, remove_at-has_physical fs i p path)

set_child-has_physical :
    (fs inner changed : Fields) (i : ℕ) (p : Text) (path : List Text)
    → child_at fs i ≡ some inner
    → (codes_eq (physical_at fs i) p ≡ true
        → type_has (struct inner) path ≡ true
        → type_has (struct changed) path ≡ true)
    → has_physical fs (p ∷ path) ≡ true
    → has_physical (set_child fs i changed) (p ∷ path) ≡ true
unfolding has_physical set_child physical_at child_at
set_child-has_physical no_fields inner changed i p path c k h = h
set_child-has_physical (field f (struct gs) n m fs) inner changed zero p path c k h =
    ground (arith, k, ap (λ x. type_has (struct x) path) (some_inj gs inner c))
set_child-has_physical (field f (primitive t) n m fs) inner changed zero p path c k h = cc
set_child-has_physical (field f (array t) n m fs) inner changed zero p path c k h = cc
set_child-has_physical (field f (map_of a b) n m fs) inner changed zero p path c k h = cc
set_child-has_physical (field f t n m fs) inner changed (suc i) p path c k h =
    ground (arith, set_child-has_physical fs inner changed i p path c k)

no_empty_path : (fs : Fields) → has_physical fs [] ≡ true → ⊥
unfolding has_physical
no_empty_path no_fields h = cc
no_empty_path (field f t n m fs) h = cc

-- What a drop may not lead to, from the physical path of the column that is dropped.
leaf-kept :
    (part : Text) (fs : Fields) (i : ℕ) (c : Text) (path : List Text)
    → index_of part fs ≡ some i
    → is_prefix (physical_path (part ∷ []) fs) (c ∷ path) ≡ false
    → codes_eq (physical_at fs i) c ≡ false
unfolding physical_path is_prefix
leaf-kept part fs i c path k e = elim (Option-cases (child_at fs i)) [
  | inl leaf ↦ ground (arith, rw (physical_path, k, leaf) at e)
  | inr (inner, at) ↦ ground (arith, rw (physical_path, k, at) at e)
]

pub drop-has_physical :
    (path : List Text) (fs : Fields) (place : Fields × ℕ) (column : List Text)
    → find path fs ≡ done place
    → is_prefix (physical_path path fs) column ≡ false
    → has_physical fs column ≡ true
    → has_physical (modify remove_at path fs) column ≡ true
unfolding find modify physical_path is_prefix type_has
drop-has_physical path fs place [] e free h = absurd (no_empty_path fs h)
drop-has_physical [] fs place (c ∷ column) e free h = cc
drop-has_physical (p ∷ []) fs place (c ∷ column) e free h = elim (Option-cases (index_of p fs)) [
  | inl n ↦ rw (modify, n) h
  | inr (i, k) ↦
      rw (modify, k) (remove_at-has_physical fs i c column (leaf-kept p fs i c column k free) h)
]
drop-has_physical (p ∷ q ∷ path) fs place (c ∷ column) e free h =
    elim (Option-cases (index_of p fs)) [
      | inl n ↦ rw (modify, n) h
      | inr (i, k) ↦ elim (Option-cases (child_at fs i)) [
        | inl n ↦ rw (modify, k, n) h
        | inr (inner, at) ↦
            rw (modify, k, at)
              (set_child-has_physical fs inner (modify remove_at (q ∷ path) inner) i c column at
                (deeper q path inner place column (codes_eq (physical_at fs i) c)
                  (rw (find, k, at) at e) (rw (physical_path, k, at) at free)
                  (drop-has_physical (q ∷ path) inner place column (rw (find, k, at) at e)))
                h)
      ]
    ]
  where
    deeper :
        (q : Text) (path : List Text) (inner : Fields) (place : Fields × ℕ) (column : List Text)
        (same : Bool)
        → find (q ∷ path) inner ≡ done place
        → (same && is_prefix (physical_path (q ∷ path) inner) column) ≡ false
        → (is_prefix (physical_path (q ∷ path) inner) column ≡ false
            → has_physical inner column ≡ true
            → has_physical (modify remove_at (q ∷ path) inner) column ≡ true)
        → same ≡ true
        → type_has (struct inner) column ≡ true
        → type_has (struct (modify remove_at (q ∷ path) inner)) column ≡ true
    deeper q path inner place [] same e free ih s h = refl
    deeper q path inner place (d ∷ column) same e free ih s h = ih (rw s at free) h
