-- ===== src/Metadata/Accepted.antt =====
-- What a change that is accepted was checked for.
use deltaswamp.Prelude.{List, Option, ap, none, refl, some, sym, ℕ, ◌≡◌}
use deltaswamp.Metadata.Columns.{
  Change, Metadata, TableState, drop_column, drop_refusal, from_parsed, last_part, mapping_refusal,
  new_path_of, rename_column, rename_refusal, renamed, unless_refused,
}
use deltaswamp.Metadata.Schema.{
  Fields, Outcome, Refused, done, find, modify, refused, remove_at, ◌>>=◌,
}
use deltaswamp.Reference.Split.{Parsed, Text, invalid, parsed, split_identifier}

pub bind-done {ℓ κ} :
    {A : Type ℓ} {B : Type κ} (o : Outcome A) (f : A → Outcome B) (b : B)
    → (o >>= f) ≡ done b
    → (a : A) × (o ≡ done a) × (f a ≡ done b)
bind-done (refused r) f b e = cc
bind-done (done a) f b e = (a, refl, e)

pub unless_refused-done {ℓ} :
    {A : Type ℓ} (r : Option Refused) (o : Outcome A) (a : A)
    → unless_refused r o ≡ done a
    → (r ≡ none) × (o ≡ done a)
unless_refused-done none o a e = (refl, e)
unless_refused-done (some x) o a e = cc

done_inj : (a b : Change) → done a ≡ done b → a ≡ b
done_inj a b e = cc

from_parsed-done {ℓ} : {A : Type ℓ} (p : Parsed A) (a : A) → from_parsed p ≡ done a → p ≡ parsed a
from_parsed-done (parsed b) a e = cc
from_parsed-done (invalid x) a e = cc

-- A rename that went through: the column was found and nothing refused the new name.
pub record Renaming (state : TableState) (old new : Text) (change : Change) : Type 0 where
  pub path : List Text
  pub new_path : List Text
  pub container : Fields
  pub index : ℕ
  pub mapping : mapping_refusal state ≡ none
  pub asked : split_identifier old ≡ parsed path
  pub named : new_path_of new ≡ parsed new_path
  pub located : find path state.metadata.schema ≡ done (container, index)
  pub free : rename_refusal state path new_path container index ≡ none
  pub made : change.new_metadata ≡ renamed state path (last_part new_path) container index

pub rename_column-Renaming :
    (state : TableState) (old new : Text) (change : Change)
    → rename_column state old new ≡ done change
    → Renaming state old new change
unfolding rename_column
rename_column-Renaming state old new change e =
    let (mapping, rest) = unless_refused-done (mapping_refusal state) _ change e in
    let (path, asked, after_path) = bind-done (from_parsed (split_identifier old)) _ change rest in
    let (at, located, after_find) =
      bind-done (find path state.metadata.schema) _ change after_path in
    let (new_path, named, after_new) =
      bind-done (from_parsed (new_path_of new)) _ change after_find in
    let (free, result) =
      unless_refused-done (rename_refusal state path new_path at.0 at.1) _ change after_new in
    record {
      path = path;
      new_path = new_path;
      container = at.0;
      index = at.1;
      mapping = mapping;
      asked = from_parsed-done (split_identifier old) path asked;
      named = from_parsed-done (new_path_of new) new_path named;
      located = located;
      free = free;
      made = ap (λ (c : Change). c.new_metadata) (sym (done_inj _ change result));
    }

-- A drop that went through.
pub record Dropping (state : TableState) (column : Text) (change : Change) : Type 0 where
  pub path : List Text
  pub container : Fields
  pub index : ℕ
  pub located : find path state.metadata.schema ≡ done (container, index)
  pub free : drop_refusal state path container index ≡ none
  pub made :
      (m : Metadata) × (change.new_metadata ≡ some m)
      × (m.schema ≡ modify remove_at path state.metadata.schema)
      × (m.partition_columns ≡ state.metadata.partition_columns)
  pub asked : split_identifier column ≡ parsed path

pub drop_column-Dropping :
    (state : TableState) (column : Text) (change : Change)
    → drop_column state column ≡ done change
    → Dropping state column change
unfolding drop_column
drop_column-Dropping state column change e =
    let (mapping, rest) = unless_refused-done (mapping_refusal state) _ change e in
    let (path, asked, after_path) =
      bind-done (from_parsed (split_identifier column)) _ change rest in
    let (at, located, after_find) =
      bind-done (find path state.metadata.schema) _ change after_path in
    let (free, result) =
      unless_refused-done (drop_refusal state path at.0 at.1) _ change after_find in
    record {
      path = path;
      container = at.0;
      index = at.1;
      located = located;
      free = free;
      made = (_, ap (λ (c : Change). c.new_metadata) (sym (done_inj _ change result)), refl, refl);
      asked = from_parsed-done (split_identifier column) path asked;
    }
