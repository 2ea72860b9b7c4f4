-- ===== src/Metadata/Rename.antt =====
-- A rename leaves all of a schema but one name, and what the data files know a column by.
use mathlib.Core.Path.{subst}
use deltaswamp.Prelude.{
  All, Bool, List, Option, Option-cases, [], ap, false, if◌then◌else◌, inl, inr, none, refl, some,
  suc, sym, true, zero, ℕ, ◌++◌, ◌∙◌, ◌∷◌, ◌≡◌,
}
use deltaswamp.IdentityColumn.Slots.{part}
use deltaswamp.Metadata.Accepted.{rename_column-Renaming}
use deltaswamp.Metadata.Columns.{
  Change, Metadata, TableState, last_part, new_path_of, rename_column, renamed,
}
use deltaswamp.Metadata.Edits.{EditedAt, Renamed, modify-EditedAt, set_name-IsLocal}
use deltaswamp.Metadata.Schema.{
  DataType, Fields, Notes, array, child_at, done, field, index_of, map_of, modify, name_at,
  no_fields, notes_in, notes_in_type, physical_name, primitive, set_child, set_name, str, struct,
  walk_fields, walk_type,
}
use deltaswamp.Prelude.Text.{codes_eq, lookup}
use deltaswamp.Reference.Split.{Text, parsed, split_identifier}

-- A field that column mapping gave a physical name.
abbrev pub IsMapped : Notes → Type 0
IsMapped notes = (t : Text) × (lookup "delta.columnMapping.physicalName" notes ≡ some (str t))

-- Every field of a schema has one, nested fields too.
abbrev pub AllMapped : Fields → Type 0
AllMapped fs = All (λ e. IsMapped e.1) (notes_in fs)

physical_name-mapped :
    (a b : Text) (notes : Notes) → IsMapped notes → physical_name a notes ≡ physical_name b notes
unfolding physical_name
physical_name-mapped a b notes (t, e) = rw e refl

All-split {ℓ κ} :
    {A : Type ℓ} (P : A → Type κ) (xs ys : List A) → All P (xs ++ ys) → All P xs × All P ys
All-split P [] ys h = (tt, h)
All-split P (x ∷ xs) ys h = let (a, b) = All-split P xs ys h.1 in ((h.0, a), b)

-- The parts of a schema whose fields are all mapped.
AllMapped-field :
    (f : Text) (t : DataType) (n : Bool) (m : Notes) (fs : Fields)
    → AllMapped (field f t n m fs)
    → IsMapped m × All (λ e. IsMapped e.1) (notes_in_type t) × AllMapped fs
unfolding notes_in
AllMapped-field f t n m fs h =
    let (a, b) = All-split (λ e. IsMapped e.1) (notes_in_type t) (notes_in fs) h.1 in (h.0, a, b)

walk-set_name :
    (new : Text) (fs : Fields) (i : ℕ)
    → AllMapped fs
    → walk_fields (set_name new fs i) ≡ walk_fields fs
unfolding set_name walk_fields
walk-set_name new no_fields i h = refl
walk-set_name new (field f t n m fs) zero h =
    ap (λ p. (p, m) ∷ walk_type t ++ walk_fields fs)
      (physical_name-mapped new f m (AllMapped-field f t n m fs h).0)
walk-set_name new (field f t n m fs) (suc i) h =
    ap (λ w. (physical_name f m, m) ∷ walk_type t ++ w)
      (walk-set_name new fs i (AllMapped-field f t n m fs h).2)

-- A struct in the place of another one that is walked alike.
walk-set_child :
    (fs inner changed : Fields) (i : ℕ)
    → child_at fs i ≡ some inner
    → walk_fields changed ≡ walk_fields inner
    → walk_fields (set_child fs i changed) ≡ walk_fields fs
unfolding set_child child_at walk_fields
walk-set_child no_fields inner changed i e h = refl
walk-set_child (field f (struct gs) n m fs) inner changed zero e h =
    let same : gs ≡ inner = cc in
    ap (λ w. (physical_name f m, m) ∷ w ++ walk_fields fs) (h ∙ ap walk_fields (sym same))
walk-set_child (field f (primitive p) n m fs) inner changed zero e h = cc
walk-set_child (field f (array t) n m fs) inner changed zero e h = cc
walk-set_child (field f (map_of k v) n m fs) inner changed zero e h = cc
walk-set_child (field f t n m fs) inner changed (suc i) e h =
    ap (λ w. (physical_name f m, m) ∷ walk_type t ++ w) (walk-set_child fs inner changed i e h)

child_at-AllMapped :
    (fs inner : Fields) (i : ℕ) → child_at fs i ≡ some inner → AllMapped fs → AllMapped inner
unfolding child_at notes_in
child_at-AllMapped no_fields inner i e h = cc
child_at-AllMapped (field f (struct gs) n m fs) inner zero e h =
    let same : gs ≡ inner = cc in
    subst (λ x. AllMapped x) same (AllMapped-field f (struct gs) n m fs h).1
child_at-AllMapped (field f (primitive p) n m fs) inner zero e h = cc
child_at-AllMapped (field f (array t) n m fs) inner zero e h = cc
child_at-AllMapped (field f (map_of k v) n m fs) inner zero e h = cc
child_at-AllMapped (field f t n m fs) inner (suc i) e h =
    child_at-AllMapped fs inner i e (AllMapped-field f t n m fs h).2

walk-modify :
    (new : Text) (path : List Text) (fs : Fields)
    → AllMapped fs
    → walk_fields (modify (set_name new) path fs) ≡ walk_fields fs
unfolding modify
walk-modify new [] fs h = refl
walk-modify new (part ∷ []) fs h = elim (Option-cases (index_of part fs)) [
  | inl e ↦ rw (modify, e) refl
  | inr (i, e) ↦ rw (modify, e) (walk-set_name new fs i h)
]
walk-modify new (part ∷ next ∷ path) fs h = elim (Option-cases (index_of part fs)) [
  | inl e ↦ rw (modify, e) refl
  | inr (i, e) ↦ elim (Option-cases (child_at fs i)) [
    | inl c ↦ rw (modify, e, c) refl
    | inr (inner, c) ↦
        rw (modify, e, c)
          (walk-set_child fs inner (modify (set_name new) (next ∷ path) inner) i c
            (walk-modify new (next ∷ path) inner (child_at-AllMapped fs inner i c h)))
  ]
]

-- The metadata of a rename is that of the new name put in place, and the properties of the table
-- are kept.
pub renamed-schema :
    (state : TableState) (path : List Text) (leaf : Text) (container : Fields) (index : ℕ)
    (m : Metadata)
    → renamed state path leaf container index ≡ some m
    → (m.schema ≡ modify (set_name leaf) path state.metadata.schema)
      × (m.configuration ≡ state.metadata.configuration)
unfolding renamed
renamed-schema state path leaf container index m e =
    unless-made (codes_eq leaf (name_at container index)) _ m e
  where
    unless-made :
        (b : Bool) (n m : Metadata)
        → (if b then none else some n) ≡ some m
        → (m.schema ≡ n.schema) × (m.configuration ≡ n.configuration)
    unless-made true n m e = absurd (cc)
    unless-made false n m e =
        (cc (ap (λ (o : Option Metadata). o) e), cc (ap (λ (o : Option Metadata). o) e))

-- A rename changes one name only. The column that the old name leads to gets the last part of the
-- new name and keeps its type, nullability and metadata; every other field, in its struct, on the
-- way there and elsewhere, is the same in all its parts, and so are the table's properties. So each
-- field, nested in structs, arrays and maps too, keeps the physical name that the data files know
-- it by. Every field has a physical name before.
pub rename_column-walk_fields :
    (state : TableState) (old new : Text) (change : Change) (m : Metadata)
    → AllMapped state.metadata.schema
    → rename_column state old new ≡ done change
    → change.new_metadata ≡ some m
    → (path : List Text) × (new_path : List Text) × (split_identifier old ≡ parsed path)
      × (new_path_of new ≡ parsed new_path)
      × EditedAt (Renamed (last_part new_path)) path state.metadata.schema m.schema
      × (m.configuration ≡ state.metadata.configuration)
      × (walk_fields m.schema ≡ walk_fields state.metadata.schema)
rename_column-walk_fields state old new change m mapped e given =
    let r = rename_column-Renaming state old new change e in
    let leaf = last_part r.new_path in
    let schema = state.metadata.schema in
    let (made, kept) =
      renamed-schema state r.path leaf r.container r.index m (sym r.made ∙ given) in
    (
      r.path,
      r.new_path,
      r.asked,
      r.named,
      subst (λ s. EditedAt (Renamed leaf) r.path schema s) (sym made)
          (modify-EditedAt (Renamed leaf) (set_name leaf) (set_name-IsLocal leaf) r.path schema
            (r.container, r.index) r.located),
      kept,
      ap walk_fields made ∙ walk-modify leaf r.path schema mapped,
    )
