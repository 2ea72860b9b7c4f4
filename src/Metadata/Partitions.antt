-- ===== src/Metadata/Partitions.antt =====
-- A rename keeps the partition columns of a table in step with its schema.
use deltaswamp.Prelude.{
  Bool, Bool-cases, List, Option, Option-cases, [], all, any, ap, arith, false, if◌then◌else◌, inl,
  inr, length, none, refl, some, suc, sym, true, zero, ℕ, ◌==◌, ◌∙◌, ◌∷◌, ◌≡◌,
}
use deltaswamp.Metadata.Accepted.{rename_column-Renaming}
use deltaswamp.Metadata.Columns.{
  Change, Metadata, TableState, has_name, last_part, rename_column, rename_partitions, renamed,
}
use deltaswamp.Metadata.Distinct.{same_name_refl, same_name_sym, names_of-set_child, place_inj}
use deltaswamp.Metadata.Edits.{index_of-here, index_of-later}
use deltaswamp.Metadata.Rename.{renamed-schema}
use deltaswamp.Metadata.Schema.{
  Fields, child_at, done, field, find, index_of, modify, name_at, names_of, no_fields, same_name,
  set_name,
}
use deltaswamp.Prelude.Text.{codes_eq}
use deltaswamp.Reference.Split.{Text}

-- The new name is among the names.
has_name-new :
    (new part : Text) (fs : Fields) (i : ℕ)
    → index_of part fs ≡ some i
    → has_name new (names_of (set_name new fs i)) ≡ true
unfolding has_name names_of set_name any index_of
has_name-new new part no_fields i e = cc
has_name-new new part (field f t n m fs) i e = elim (Bool-cases (same_name f part)) [
  | inl same ↦ rw (index_of-here part f t n m fs i same e) (ground (arith, same_name_refl new))
  | inr other ↦
      (let (j, next, found) = index_of-later part f t n m fs i other e in
        rw next (ground (arith, has_name-new new part fs j found)))
]

has_name-others :
    (name new : Text) (fs : Fields) (i : ℕ)
    → same_name (name_at fs i) name ≡ false
    → has_name name (names_of fs) ≡ true
    → has_name name (names_of (set_name new fs i)) ≡ true
unfolding has_name name_at names_of set_name any
has_name-others name new no_fields i e h = h
has_name-others name new (field f t n m fs) zero e h = ground arith
has_name-others name new (field f t n m fs) (suc i) e h =
    ground (arith, has_name-others name new fs i)

partitions-renamed :
    (new part : Text) (fs : Fields) (i : ℕ) (partitions : List Text)
    → index_of part fs ≡ some i
    → all (λ p. has_name p (names_of fs)) partitions ≡ true
    → all
        (λ p. has_name p (names_of (set_name new fs i)))
        (rename_partitions (name_at fs i) new partitions)
      ≡ true
unfolding all rename_partitions
partitions-renamed new part fs i [] e h = refl
partitions-renamed new part fs i (p ∷ partitions) e h = ground (
  arith,
  partitions-renamed new part fs i partitions e,
  has_name-new new part fs i e,
  has_name-others p new fs i,
  same_name_sym p (name_at fs i),
)

-- The partition columns as a rename leaves them.
abbrev after_rename : List Text → Text → Text → List Text → List Text
after_rename path current new partitions =
    if length path == 1 then rename_partitions current new partitions else partitions

nested_alike : (n : ℕ) (a b : List Text) → (if suc (suc n) == 1 then a else b) ≡ b
nested_alike n a b = ground arith

partitions-modify :
    (new : Text) (path : List Text) (fs : Fields) (place : Fields × ℕ) (partitions : List Text)
    → find path fs ≡ done place
    → all (λ p. has_name p (names_of fs)) partitions ≡ true
    → all
        (λ p. has_name p (names_of (modify (set_name new) path fs)))
        (after_rename path (name_at place.0 place.1) new partitions)
      ≡ true
unfolding find modify
partitions-modify new [] fs place partitions e h = cc
partitions-modify new (p ∷ []) fs place partitions e h = elim (Option-cases (index_of p fs)) [
  | inl n ↦ absurd (cc (rw (find, n) at e))
  | inr (i, k) ↦
      (let same : place ≡ (fs, i) = sym (place_inj (fs, i) place (rw (find, k) at e)) in
        rw (modify, k, same) (partitions-renamed new p fs i partitions k h))
]
partitions-modify new (p ∷ q ∷ path) fs place partitions e h = elim (Option-cases (index_of p fs)) [
  | inl n ↦ absurd (cc (rw (find, n) at e))
  | inr (i, k) ↦ elim (Option-cases (child_at fs i)) [
    | inl n ↦ absurd (cc (rw (find, k, n) at e))
    | inr (inner, c) ↦
        rw (modify, k, c, names_of-set_child fs (modify (set_name new) (q ∷ path) inner) i)
          (rw
            (nested_alike (length path) (rename_partitions (name_at place.0 place.1) new partitions)
              partitions)
            h)
  ]
]

renamed-partitions :
    (state : TableState) (path : List Text) (leaf : Text) (container : Fields) (index : ℕ)
    (m : Metadata)
    → renamed state path leaf container index ≡ some m
    → m.partition_columns
      ≡ after_rename path (name_at container index) leaf state.metadata.partition_columns
unfolding renamed
renamed-partitions state path leaf container index m e =
    unless-made (codes_eq leaf (name_at container index)) _ m e
  where
    unless-made :
        (b : Bool) (n m : Metadata)
        → (if b then none else some n) ≡ some m
        → m.partition_columns ≡ n.partition_columns
    unless-made true n m e = cc
    unless-made false n m e = cc (ap (λ (o : Option Metadata). o) e)

-- After a rename that goes through, each partition column of the table is still one of its
-- columns, in any case, if each was before: the partition column that is renamed has its new name
-- in both places, and a nested column of the same name changes none of them.
pub rename_column-partition_columns :
    (state : TableState) (old new : Text) (change : Change) (m : Metadata)
    → all (λ p. has_name p (names_of state.metadata.schema)) state.metadata.partition_columns ≡ true
    → rename_column state old new ≡ done change
    → change.new_metadata ≡ some m
    → all (λ p. has_name p (names_of m.schema)) m.partition_columns ≡ true
rename_column-partition_columns state old new change m known e given =
    let r = rename_column-Renaming state old new change e in
    let leaf = last_part r.new_path in
    let made = sym r.made ∙ given in
    let (schema, _) = renamed-schema state r.path leaf r.container r.index m made in
    rw (schema, renamed-partitions state r.path leaf r.container r.index m made)
      (partitions-modify leaf r.path state.metadata.schema (r.container, r.index)
        state.metadata.partition_columns r.located known)
