-- ===== src/Metadata/Dropped.antt =====
-- What a drop of a column takes from a table, and what it leaves.
use mathlib.Core.Path.{subst}
use deltaswamp.Prelude.{
  List, Option-cases, [], all, any, ap, arith, false, inl, inr, is_empty, length, none, refl, some,
  suc, sym, true, zero, ℕ, ◌∙◌, ◌∷◌, ◌≡◌, ◌≢◌, ◌⊎◌,
}
use deltaswamp.Metadata.Accepted.{drop_column-Dropping}
use deltaswamp.Metadata.Columns.{
  Change, Metadata, TableState, drop_column, drop_refusal, has_name, is_prefix,
}
use deltaswamp.Metadata.Distinct.{
  distinct-modify, distinct-remove_at, distinct_fields, names_of-set_child, place_inj,
  same_name_sym,
}
use deltaswamp.Metadata.Edits.{Dropped, EditedAt, modify-EditedAt, remove_at-IsLocal}
use deltaswamp.Metadata.Kept.{drop-filled, drop-has_physical, filled, has_field, has_physical}
use deltaswamp.Metadata.Schema.{
  Fields, child_at, count_fields, done, field, find, index_of, modify, name_at, names_beside,
  names_of, no_fields, physical_path, remove_at, same_name,
}
use deltaswamp.Reference.Split.{Text, parsed, split_identifier}

has_name-beside :
    (name : Text) (fs : Fields) (i : ℕ)
    → same_name (name_at fs i) name ≡ false
    → has_name name (names_of fs) ≡ true
    → has_name name (names_of (remove_at fs i)) ≡ true
unfolding has_name name_at names_of remove_at any
has_name-beside name no_fields i e h = h
has_name-beside name (field f t n m fs) zero e h = ground arith
has_name-beside name (field f t n m fs) (suc i) e h = ground (arith, has_name-beside name fs i)

names_of-remove_at : (fs : Fields) (i : ℕ) → names_of (remove_at fs i) ≡ names_beside fs i
unfolding names_of remove_at names_beside
names_of-remove_at no_fields i = refl
names_of-remove_at (field f t n m fs) zero = refl
names_of-remove_at (field f t n m fs) (suc i) = ap (λ l. f ∷ l) (names_of-remove_at fs i)

-- The names of a table's columns after a drop: those beside the column, or all of them where the
-- column is nested.
top_names :
    (path : List Text) (fs : Fields) (place : Fields × ℕ)
    → find path fs ≡ done place
    → ((length path ≡ 1)
        × (place.0 ≡ fs)
        × (names_of (modify remove_at path fs) ≡ names_beside fs place.1))
      ⊎ ((length path ≢ 1) × (names_of (modify remove_at path fs) ≡ names_of fs))
unfolding find modify
top_names [] fs place e = cc
top_names (p ∷ []) fs place e = elim (Option-cases (index_of p fs)) [
  | inl n ↦ absurd (cc (rw (find, n) at e))
  | inr (i, k) ↦
      (let same : place ≡ (fs, i) = sym (place_inj (fs, i) place (rw (find, k) at e)) in
        inl (
          refl,
          ap (λ (x : Fields × ℕ). x.0) same,
          rw (modify, k) (rw same (names_of-remove_at fs i)),
        ))
]
top_names (p ∷ q ∷ path) fs place e = elim (Option-cases (index_of p fs)) [
  | inl n ↦ absurd (cc (rw (find, n) at e))
  | inr (i, k) ↦ elim (Option-cases (child_at fs i)) [
    | inl n ↦ absurd (cc (rw (find, k, n) at e))
    | inr (inner, c) ↦ inr (
      omega arith,
      rw (modify, k, c) (names_of-set_child fs (modify remove_at (q ∷ path) inner) i),
    )
  ]
]

drop_refusal-free :
    (state : TableState) (path : List Text) (container : Fields) (index : ℕ)
    → drop_refusal state path container index ≡ none
    → (count_fields container ≢ 1)
      × ((length path ≢ 1)
          ⊎ (has_name (name_at container index) state.metadata.partition_columns ≡ false))
      × ((length path ≢ 1)
          ⊎ (is_empty state.metadata.partition_columns ≡ true)
          ⊎ (all (λ f. has_name f state.metadata.partition_columns) (names_beside container index)
              ≡ false))
      × (any (is_prefix (physical_path path state.metadata.schema)) state.clustering_columns
          ≡ false)
unfolding drop_refusal
drop_refusal-free state path container index e = ground arith

-- What a schema is to its table: no two names of one struct are the same in any case, every struct
-- has a field, each partition column is a column, some column is none, and each clustering column
-- is there under its physical path.
pub record IsSound (m : Metadata) (clustering : List (List Text)) : Type 0 where
  pub named_apart : distinct_fields m.schema ≡ true
  pub structs_filled : filled m.schema ≡ true
  pub partitioned : all (λ p. has_name p (names_of m.schema)) m.partition_columns ≡ true
  pub data_column : all (λ f. has_name f m.partition_columns) (names_of m.schema) ≡ false
  pub clustered : all (has_physical m.schema) clustering ≡ true

partitions-beside :
    (fs : Fields) (i : ℕ) (partitions : List Text)
    → has_name (name_at fs i) partitions ≡ false
    → all (λ p. has_name p (names_of fs)) partitions ≡ true
    → all (λ p. has_name p (names_beside fs i)) partitions ≡ true
unfolding all has_name any
partitions-beside fs i [] free h = refl
partitions-beside fs i (p ∷ partitions) free h = ground (
  arith,
  partitions-beside fs i partitions,
  same_name_sym p (name_at fs i),
  ap (λ l. has_name p l) (names_of-remove_at fs i),
  has_name-beside p fs i,
)

no_partition : (names : List Text) → names ≢ [] → all (λ f. has_name f []) names ≡ false
unfolding all has_name any
no_partition [] h = absurd (h refl)
no_partition (n ∷ names) h = refl

beside-filled :
    (fs : Fields) (i : ℕ) → has_field fs ≡ true → count_fields fs ≢ 1 → names_beside fs i ≢ []
unfolding names_beside names_of count_fields
beside-filled no_fields i h c = cc
beside-filled (field f t n m no_fields) i h c = absurd (c refl)
beside-filled (field f t n m (field g u o l fs)) zero h c = λ e. cc
beside-filled (field f t n m (field g u o l fs)) (suc i) h c = λ e. cc

data-beside :
    (fs : Fields) (i : ℕ) (partitions : List Text)
    → has_field fs ≡ true
    → count_fields fs ≢ 1
    → (is_empty partitions ≡ true) ⊎ (all (λ f. has_name f partitions) (names_beside fs i) ≡ false)
    → all (λ f. has_name f partitions) (names_beside fs i) ≡ false
data-beside fs i partitions h c (inr free) = free
data-beside fs i [] h c (inl e) = no_partition (names_beside fs i) (beside-filled fs i h c)
data-beside fs i (p ∷ partitions) h c (inl e) = cc

clustering-kept :
    (path : List Text) (fs : Fields) (place : Fields × ℕ) (clustering : List (List Text))
    → find path fs ≡ done place
    → any (is_prefix (physical_path path fs)) clustering ≡ false
    → all (has_physical fs) clustering ≡ true
    → all (has_physical (modify remove_at path fs)) clustering ≡ true
unfolding any all
clustering-kept path fs place [] e free h = refl
clustering-kept path fs place (c ∷ clustering) e free h =
    ground (arith, drop-has_physical path fs place c e, clustering-kept path fs place clustering e)

has_field-filled : (fs : Fields) → filled fs ≡ true → has_field fs ≡ true
has_field-filled fs h = ground arith

module _ (state : TableState) (path : List Text) (container : Fields) (index : ℕ)
    (located : find path state.metadata.schema ≡ done (container, index))
    (free : drop_refusal state path container index ≡ none)
    (sound : IsSound state.metadata state.clustering_columns) where
  dropped-partitioned :
      all
        (λ p. has_name p (names_of (modify remove_at path state.metadata.schema)))
        state.metadata.partition_columns
      ≡ true
  dropped-partitioned = elim (top_names path state.metadata.schema (container, index) located) [
    | inr (nested, same) ↦ rw same sound.partitioned
    | inl (top, whole, names) ↦ elim (drop_refusal-free state path container index free).1 [
      | inl nested ↦ absurd (nested top)
      | inr apart ↦ rw names (
          partitions-beside state.metadata.schema index state.metadata.partition_columns
            (ap (λ c. has_name (name_at c index) state.metadata.partition_columns) (sym whole)
              ∙ apart)
            sound.partitioned)
    ]
  ]

  dropped-data_column :
      all
        (λ f. has_name f state.metadata.partition_columns)
        (names_of (modify remove_at path state.metadata.schema))
      ≡ false
  dropped-data_column =
      let refusal = drop_refusal-free state path container index free in
      elim (top_names path state.metadata.schema (container, index) located) [
        | inr (nested, same) ↦ rw same sound.data_column
        | inl (top, whole, names) ↦ rw names (
            data-beside state.metadata.schema index state.metadata.partition_columns
              (has_field-filled state.metadata.schema sound.structs_filled)
              (subst (λ c. count_fields c ≢ 1) whole refusal.0)
              (elim refusal.2 [
                | inl nested ↦ absurd (nested top)
                | inr (inl e) ↦ inl e
                | inr (inr e) ↦ inr (
                    ap
                      (λ c.
                        all (λ f. has_name f state.metadata.partition_columns)
                          (names_beside c index))
                      (sym whole)
                    ∙ e)
              ]))
      ]

-- A drop that goes through takes the column that was asked for and nothing else: every field
-- beside it, on the way to it and elsewhere is the same in all its parts. The metadata stays
-- sound: the names of each struct are apart, the table and every struct have a field left, each
-- partition column is a column and some column is none, and each clustering column is there under
-- its physical path. The metadata was sound before.
pub drop_column_checked :
    (state : TableState) (column : Text) (change : Change)
    → IsSound state.metadata state.clustering_columns
    → drop_column state column ≡ done change
    → (path : List Text) × (m : Metadata) × (split_identifier column ≡ parsed path)
      × (change.new_metadata ≡ some m)
      × EditedAt Dropped path state.metadata.schema m.schema
      × IsSound m state.clustering_columns
drop_column_checked state column change sound e =
    let r = drop_column-Dropping state column change e in
    let (m, given, edited, same) = r.made in
    let refusal = drop_refusal-free state r.path r.container r.index r.free in
    let schema = state.metadata.schema in
    (
      r.path,
      m,
      r.asked,
      given,
      subst (λ s. EditedAt Dropped r.path schema s) (sym edited)
          (modify-EditedAt Dropped remove_at remove_at-IsLocal r.path schema (r.container, r.index)
            r.located),
      record {
        named_apart =
            ap distinct_fields edited
            ∙ distinct-modify remove_at r.path schema (r.container, r.index) r.located
                (distinct-remove_at r.container r.index) sound.named_apart;
        structs_filled =
            ap filled edited
            ∙ drop-filled r.path schema (r.container, r.index) r.located refusal.0
                sound.structs_filled;
        partitioned =
            rw (edited, same)
              (dropped-partitioned state r.path r.container r.index r.located r.free sound);
        data_column =
            rw (edited, same)
              (dropped-data_column state r.path r.container r.index r.located r.free sound);
        clustered =
            ap (λ s. all (has_physical s) state.clustering_columns) edited
            ∙ clustering-kept r.path schema (r.container, r.index) state.clustering_columns
                r.located refusal.3 sound.clustered;
      },
    )
