-- ===== src/Metadata/Distinct.antt =====
-- Changes of columns keep the names of each struct apart, in any case.
use mathlib.Core.Path.{subst}
use deltaswamp.Prelude.{
  Bool, List, Option-cases, [], any, ap, arith, false, inl, inr, none, not, refl, some, suc, sym,
  true, zero, ℕ, ◌&&◌, ◌∙◌, ◌∷◌, ◌≡◌,
}
use deltaswamp.Metadata.Accepted.{rename_column-Renaming}
use deltaswamp.Metadata.Columns.{
  Change, Metadata, TableState, has_name, last_part, rename_column, rename_refusal,
}
use deltaswamp.Metadata.Edits.{some_inj}
use deltaswamp.Metadata.Rename.{renamed-schema}
use deltaswamp.Metadata.Schema.{
  DataType, Fields, array, child_at, done, field, find, index_of, map_of, modify, names_beside,
  names_of, no_fields, primitive, remove_at, same_name, set_child, set_name, struct,
}
use deltaswamp.Prelude.Text.{codes_eq}
use deltaswamp.Reference.Parse.{lower_text}
use deltaswamp.Reference.Split.{Text}

-- No two fields of one struct have the same name, nested structs too.
unfoldable mutual
  pub distinct_type : DataType → Bool
  distinct_type (primitive p) = true
  distinct_type (struct fs) = distinct_fields fs
  distinct_type (array t) = distinct_type t
  distinct_type (map_of k v) = distinct_type k && distinct_type v

  pub distinct_fields : Fields → Bool
  distinct_fields no_fields = true
  distinct_fields (field f t n m fs) =
      not (has_name f (names_of fs)) && distinct_type t && distinct_fields fs

codes_eq_sym : (a b : Text) → codes_eq a b ≡ codes_eq b a
unfolding codes_eq
codes_eq_sym [] [] = refl
codes_eq_sym [] (y ∷ b) = refl
codes_eq_sym (x ∷ a) [] = refl
codes_eq_sym (x ∷ a) (y ∷ b) = ground (arith, codes_eq_sym a b)

codes_eq_refl : (a : Text) → codes_eq a a ≡ true
unfolding codes_eq
codes_eq_refl [] = refl
codes_eq_refl (x ∷ a) = ground (arith, codes_eq_refl a)

pub same_name_refl : (a : Text) → same_name a a ≡ true
unfolding same_name
same_name_refl a = codes_eq_refl (lower_text a)

pub same_name_sym : (a b : Text) → same_name a b ≡ same_name b a
unfolding same_name
same_name_sym a b = codes_eq_sym (lower_text a) (lower_text b)

has_name-set_name :
    (f new : Text) (fs : Fields) (i : ℕ)
    → has_name f (names_of fs) ≡ false
    → same_name new f ≡ false
    → has_name f (names_of (set_name new fs i)) ≡ false
unfolding has_name set_name names_of any
has_name-set_name f new no_fields i h g = refl
has_name-set_name f new (field a t n m fs) zero h g = ground arith
has_name-set_name f new (field a t n m fs) (suc i) h g =
    ground (arith, has_name-set_name f new fs i)

distinct-set_name :
    (new : Text) (fs : Fields) (i : ℕ)
    → any (λ f. same_name f new) (names_beside fs i) ≡ false
    → distinct_fields fs ≡ true
    → distinct_fields (set_name new fs i) ≡ true
unfolding distinct_fields set_name names_beside has_name any
distinct-set_name new no_fields i h d = refl
distinct-set_name new (field f t n m fs) zero h d = ground (arith, h)
distinct-set_name new (field f t n m fs) (suc i) h d =
    ground (arith, distinct-set_name new fs i, has_name-set_name f new fs i, same_name_sym f new)

has_name-remove_at :
    (f : Text) (fs : Fields) (i : ℕ)
    → has_name f (names_of fs) ≡ false
    → has_name f (names_of (remove_at fs i)) ≡ false
unfolding has_name remove_at names_of any
has_name-remove_at f no_fields i h = refl
has_name-remove_at f (field a t n m fs) zero h = ground arith
has_name-remove_at f (field a t n m fs) (suc i) h = ground (arith, has_name-remove_at f fs i)

pub distinct-remove_at :
    (fs : Fields) (i : ℕ) → distinct_fields fs ≡ true → distinct_fields (remove_at fs i) ≡ true
unfolding distinct_fields remove_at
distinct-remove_at no_fields i d = refl
distinct-remove_at (field f t n m fs) zero d = ground arith
distinct-remove_at (field f t n m fs) (suc i) d =
    ground (arith, distinct-remove_at fs i, has_name-remove_at f fs i)

pub names_of-set_child : (fs inner : Fields) (i : ℕ) → names_of (set_child fs i inner) ≡ names_of fs
unfolding names_of set_child
names_of-set_child no_fields inner i = refl
names_of-set_child (field f t n m fs) inner zero = refl
names_of-set_child (field f t n m fs) inner (suc i) =
    ap (λ l. f ∷ l) (names_of-set_child fs inner i)

distinct-set_child :
    (fs inner : Fields) (i : ℕ)
    → distinct_fields fs ≡ true
    → distinct_fields inner ≡ true
    → distinct_fields (set_child fs i inner) ≡ true
unfolding distinct_fields set_child
distinct-set_child no_fields inner i d e = refl
distinct-set_child (field f t n m fs) inner zero d e = ground arith
distinct-set_child (field f t n m fs) inner (suc i) d e =
    ground
      (arith, distinct-set_child fs inner i, ap (λ l. has_name f l) (names_of-set_child fs inner i))

distinct-child_at :
    (fs inner : Fields) (i : ℕ)
    → child_at fs i ≡ some inner
    → distinct_fields fs ≡ true
    → distinct_fields inner ≡ true
unfolding distinct_fields child_at
distinct-child_at no_fields inner i e d = cc
distinct-child_at (field f (struct gs) n m fs) inner zero e d =
    ground (arith, ap distinct_fields (some_inj gs inner e))
distinct-child_at (field f (primitive p) n m fs) inner zero e d = cc
distinct-child_at (field f (array t) n m fs) inner zero e d = cc
distinct-child_at (field f (map_of k v) n m fs) inner zero e d = cc
distinct-child_at (field f t n m fs) inner (suc i) e d =
    ground (arith, distinct-child_at fs inner i e)

rename_refusal-free :
    (state : TableState) (path new_path : List Text) (container : Fields) (index : ℕ)
    → rename_refusal state path new_path container index ≡ none
    → any (λ f. same_name f (last_part new_path)) (names_beside container index) ≡ false
unfolding rename_refusal
rename_refusal-free state path new_path container index e = ground arith

pub place_inj : (a b : Fields × ℕ) → done a ≡ done b → a ≡ b
place_inj a b e = cc

-- What an edit keeps, at the place where it is made.
abbrev pub Keeps : (Fields → ℕ → Fields) → Fields × ℕ → Type 0
Keeps edit (fs, i) = distinct_fields fs ≡ true → distinct_fields (edit fs i) ≡ true

found-Keeps :
    (edit : Fields → ℕ → Fields) (a b : Fields × ℕ) → done a ≡ done b → Keeps edit b → Keeps edit a
found-Keeps edit a b e h = subst (λ x. Keeps edit x) (sym (place_inj a b e)) h

-- A change of the list of fields that holds a column.
pub distinct-modify :
    (edit : Fields → ℕ → Fields) (path : List Text) (fs : Fields) (place : Fields × ℕ)
    → find path fs ≡ done place
    → Keeps edit place
    → distinct_fields fs ≡ true
    → distinct_fields (modify edit path fs) ≡ true
unfolding find modify
distinct-modify edit [] fs place e h d = d
distinct-modify edit (p ∷ []) fs place e h d = elim (Option-cases (index_of p fs)) [
  | inl n ↦ rw (modify, n) d
  | inr (i, k) ↦ rw (modify, k) (found-Keeps edit (fs, i) place (rw (find, k) at e) h d)
]
distinct-modify edit (p ∷ q ∷ path) fs place e h d = elim (Option-cases (index_of p fs)) [
  | inl n ↦ rw (modify, n) d
  | inr (i, k) ↦ elim (Option-cases (child_at fs i)) [
    | inl n ↦ rw (modify, k, n) d
    | inr (inner, c) ↦
        rw (modify, k, c)
          (distinct-set_child fs (modify edit (q ∷ path) inner) i d (
            distinct-modify edit (q ∷ path) inner place (rw (find, k, c) at e) h
              (distinct-child_at fs inner i c d)))
  ]
]

-- After a rename that goes through, no two columns of one struct have the same
-- name, in any case, if no two had before.
pub rename_column-distinct_fields :
    (state : TableState) (old new : Text) (change : Change) (m : Metadata)
    → distinct_fields state.metadata.schema ≡ true
    → rename_column state old new ≡ done change
    → change.new_metadata ≡ some m
    → distinct_fields m.schema ≡ true
rename_column-distinct_fields state old new change m apart e given =
    let r = rename_column-Renaming state old new change e in
    let leaf = last_part r.new_path in
    ap distinct_fields
      (renamed-schema state r.path leaf r.container r.index m (sym r.made ∙ given)).0
    ∙ distinct-modify (set_name leaf) r.path state.metadata.schema (r.container, r.index) r.located
        (distinct-set_name leaf r.container r.index
          (rename_refusal-free state r.path r.new_path r.container r.index r.free))
        apart
