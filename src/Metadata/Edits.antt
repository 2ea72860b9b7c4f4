-- ===== src/Metadata/Edits.antt =====
-- What an edit of a column does to the rest of a schema.
use mathlib.Core.Path.{subst}
use deltaswamp.Prelude.{
  Bool, Bool-cases, List, Option-cases, [], arith, false, inl, inr, refl, some, suc, sym, true,
  zero, ℕ, ◌∷◌, ◌≡◌,
}
use deltaswamp.IdentityColumn.Slots.{part}
use deltaswamp.Metadata.Schema.{
  DataType, Fields, Notes, array, child_at, done, field, fields_of, find, index_of, map_of, modify,
  no_fields, primitive, remove_at, same_name, set_child, set_name, struct,
}
use deltaswamp.Reference.Split.{Text}

-- Two schemas that differ only in what a path leads to: from the field of its last part on, they
-- are related as given; every field in front of it, and every field on the way to its struct and
-- beside that one, is the same in all its parts.
pub data EditedAt (Edit : Fields → Fields → Type 0) : List Text → Fields → Fields → Type 0 where
  here :
      (part f : Text) (t : DataType) (n : Bool) (m : Notes) (fs gs : Fields)
      → same_name f part ≡ true
      → Edit (field f t n m fs) gs
      → EditedAt Edit (part ∷ []) (field f t n m fs) gs
  inside :
      (part next : Text) (path : List Text) (f : Text) (n : Bool) (m : Notes)
      (fs inner changed : Fields)
      → same_name f part ≡ true
      → EditedAt Edit (next ∷ path) inner changed
      → EditedAt Edit
          (part ∷ next ∷ path)
          (field f (struct inner) n m fs)
          (field f (struct changed) n m fs)
  behind :
      (part : Text) (path : List Text) (f : Text) (t : DataType) (n : Bool) (m : Notes)
      (fs gs : Fields)
      → same_name f part ≡ false
      → EditedAt Edit (part ∷ path) fs gs
      → EditedAt Edit (part ∷ path) (field f t n m fs) (field f t n m gs)

-- The first field has a new name, and its type, nullability and metadata are the same.
abbrev pub Renamed : Text → Fields → Fields → Type 0
Renamed new no_fields gs = ⊥
Renamed new (field f t n m fs) gs = gs ≡ field new t n m fs

-- The first field is gone.
abbrev pub Dropped : Fields → Fields → Type 0
Dropped no_fields gs = ⊥
Dropped (field f t n m fs) gs = gs ≡ fs

-- An edit at an index that leaves the fields in front of it as they are.
pub record IsLocal (Edit : Fields → Fields → Type 0) (edit : Fields → ℕ → Fields) : Type 0 where
  pub first :
      (f : Text) (t : DataType) (n : Bool) (m : Notes) (fs : Fields)
      → Edit (field f t n m fs) (edit (field f t n m fs) zero)
  pub later :
      (f : Text) (t : DataType) (n : Bool) (m : Notes) (fs : Fields) (i : ℕ)
      → edit (field f t n m fs) (suc i) ≡ field f t n m (edit fs i)

pub set_name-IsLocal : (new : Text) → IsLocal (Renamed new) (set_name new)
unfolding set_name
set_name-IsLocal new = record { first = λ f t n m fs. refl; later = λ f t n m fs i. refl }

pub remove_at-IsLocal : IsLocal Dropped remove_at
unfolding remove_at
remove_at-IsLocal = record { first = λ f t n m fs. refl; later = λ f t n m fs i. refl }

-- Where the first field of a name is.
pub index_of-here :
    (part f : Text) (t : DataType) (n : Bool) (m : Notes) (fs : Fields) (i : ℕ)
    → same_name f part ≡ true
    → index_of part (field f t n m fs) ≡ some i
    → i ≡ zero
unfolding index_of
index_of-here part f t n m fs i same e = ground (arith, e, same)

pub index_of-later :
    (part f : Text) (t : DataType) (n : Bool) (m : Notes) (fs : Fields) (i : ℕ)
    → same_name f part ≡ false
    → index_of part (field f t n m fs) ≡ some i
    → (j : ℕ) × (i ≡ suc j) × (index_of part fs ≡ some j)
unfolding index_of
index_of-later part f t n m fs i other e = elim (Option-cases (index_of part fs)) [
  | inl absent ↦ absurd (cc (rw (other, absent) at e))
  | inr (j, found) ↦ (j, ground (arith, rw (other, found) at e), found)
]

-- The struct that a lookup gives is determined.
pub some_inj : (a b : Fields) → some a ≡ some b → a ≡ b
some_inj a b e = cc

module _ (Edit : Fields → Fields → Type 0) (edit : Fields → ℕ → Fields)
    (l : IsLocal Edit edit) where
  edit-EditedAt :
      (part : Text) (fs : Fields) (i : ℕ)
      → index_of part fs ≡ some i
      → EditedAt Edit (part ∷ []) fs (edit fs i)
  unfolding index_of
  edit-EditedAt part no_fields i e = cc
  edit-EditedAt part (field f t n m fs) i e = elim (Bool-cases (same_name f part)) [
    | inl same ↦
        rw (index_of-here part f t n m fs i same e)
          (here part f t n m fs (edit (field f t n m fs) zero) same (l.first f t n m fs))
    | inr other ↦
        (let (j, next, found) = index_of-later part f t n m fs i other e in
          rw (next, l.later f t n m fs j)
            (behind part [] f t n m fs (edit fs j) other (edit-EditedAt part fs j found)))
  ]

  head-EditedAt :
      (part next : Text) (path : List Text) (f : Text) (t : DataType) (n : Bool) (m : Notes)
      (fs inner changed : Fields)
      → same_name f part ≡ true
      → fields_of t ≡ some inner
      → EditedAt Edit (next ∷ path) inner changed
      → EditedAt Edit (part ∷ next ∷ path) (field f t n m fs) (field f (struct changed) n m fs)
  head-EditedAt part next path f (struct gs) n m fs inner changed same c h =
      inside part next path f n m fs gs changed same
        (subst (λ x. EditedAt Edit (next ∷ path) x changed) (sym (some_inj gs inner c)) h)
  head-EditedAt part next path f (primitive p) n m fs inner changed same c h = cc
  head-EditedAt part next path f (array t) n m fs inner changed same c h = cc
  head-EditedAt part next path f (map_of k v) n m fs inner changed same c h = cc

  child-EditedAt :
      (part next : Text) (path : List Text) (fs : Fields) (i : ℕ) (inner changed : Fields)
      → index_of part fs ≡ some i
      → child_at fs i ≡ some inner
      → EditedAt Edit (next ∷ path) inner changed
      → EditedAt Edit (part ∷ next ∷ path) fs (set_child fs i changed)
  unfolding index_of child_at set_child
  child-EditedAt part next path no_fields i inner changed e c h = cc
  child-EditedAt part next path (field f t n m fs) i inner changed e c h =
      elim (Bool-cases (same_name f part)) [
        | inl same ↦
            (let z = index_of-here part f t n m fs i same e in
              rw z (
                head-EditedAt part next path f t n m fs inner changed same
                  (subst (λ k. child_at (field f t n m fs) k ≡ some inner) z c) h))
        | inr other ↦
            (let (j, z, found) = index_of-later part f t n m fs i other e in
              rw z (
                behind part (next ∷ path) f t n m fs (set_child fs j changed) other (
                  child-EditedAt part next path fs j inner changed found
                    (subst (λ k. child_at (field f t n m fs) k ≡ some inner) z c) h)))
      ]

  -- A change at the place that a path leads to.
  pub modify-EditedAt :
      (path : List Text) (fs : Fields) (place : Fields × ℕ)
      → find path fs ≡ done place
      → EditedAt Edit path fs (modify edit path fs)
  unfolding find modify
  modify-EditedAt [] fs place e = cc
  modify-EditedAt (p ∷ []) fs place e = elim (Option-cases (index_of p fs)) [
    | inl absent ↦ absurd (cc (rw (find, absent) at e))
    | inr (i, k) ↦ rw (modify, k) (edit-EditedAt p fs i k)
  ]
  modify-EditedAt (p ∷ q ∷ path) fs place e = elim (Option-cases (index_of p fs)) [
    | inl absent ↦ absurd (cc (rw (find, absent) at e))
    | inr (i, k) ↦ elim (Option-cases (child_at fs i)) [
      | inl leaf ↦ absurd (cc (rw (find, k, leaf) at e))
      | inr (inner, c) ↦
          rw (modify, k, c)
            (child-EditedAt p q path fs i inner (modify edit (q ∷ path) inner) k c
              (modify-EditedAt (q ∷ path) inner place (rw (find, k, c) at e)))
    ]
  ]
