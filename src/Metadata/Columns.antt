-- ===== src/Metadata/Columns.antt =====
-- Renaming and dropping columns (python/deltaswamp/engine/metadata.py: rename_column, drop_column
-- and what they check).
use text.Mathlib.Text.{◌==◌ as str_eq}
use deltaswamp.Prelude.{
  Bool, List, Option, String, [], all, any, false, if◌then◌else◌, is_empty, length, ltb, map, none,
  not, some, true, ℕ, ◌&&◌, ◌++◌, ◌==◌, ◌||◌, ◌∷◌,
}
use deltaswamp.Metadata.Protocol.{Protocol, supported_features}
use deltaswamp.Metadata.Schema.{
  Fields, Notes, Outcome, Refused, Value, clustering_column, count_fields, differs_in_case, done,
  empty_name, find, last_column, last_data_column, last_field, leaves_struct, modify, name_at,
  names_beside, no_column_mapping, not_a_path, notes_in, partition_column, physical_path,
  referenced, refused, remove_at, reserved_name, same_name, set_name, str, taken_name,
  unsupported_mapping, ◌>>=◌,
}
use deltaswamp.Prelude.Text.{codes, codes_eq, has_prefix, lookup, mem}
use deltaswamp.Reference.Parse.{contains, drop_codes, is_one_of, lower_text}
use deltaswamp.Reference.Split.{Parsed, Text, invalid, is_word, parsed, split_identifier}

-- The `metaData` action and the `TableState` that a change is computed against.
pub record Metadata : Type 0 where
  pub schema : Fields
  pub configuration : List (String × Text)
  pub partition_columns : List Text

pub record TableState : Type 0 where
  pub protocol : Protocol
  pub metadata : Metadata
  pub clustering_columns : List (List Text)

-- `Change`; the commit's parameters are left out. `none` is a part that is not replaced.
pub record Change : Type 0 where
  pub new_protocol : Option Protocol
  pub new_metadata : Option Metadata

-- `configuration.get(key, default).lower()`
unfoldable pub setting : String → Text → Metadata → Text
unfolding lookup lower_text
setting key default m =
    lower_text (elim (lookup key m.configuration) [ none ↦ default | some v ↦ v ])

-- `_require_column_mapping`
unfoldable pub mapping_refusal : TableState → Option Refused
unfolding setting is_one_of supported_features mem
mapping_refusal state =
    if not (
      is_one_of (setting "delta.columnMapping.mode" (codes "none") state.metadata)
        (codes "name" ∷ codes "id" ∷ []))
    then some no_column_mapping
    else if not (mem "columnMapping" (supported_features state.protocol))
    then some unsupported_mapping
    else none

-- `_cdf_enabled` and `_CDF_RESERVED`
unfoldable pub cdf_enabled : Metadata → Bool
unfolding setting codes_eq
cdf_enabled m = codes_eq (setting "delta.enableChangeDataFeed" (codes "false") m) (codes "true")

unfoldable pub cdf_reserved : Text → Bool
unfolding is_one_of lower_text
cdf_reserved name =
    is_one_of (lower_text name)
      (codes "_change_type" ∷ codes "_commit_version" ∷ codes "_commit_timestamp" ∷ [])

-- `_references`: the name stands in the expression, in backticks or bare, and no word character or
-- backtick touches it in front, no word character behind.
abbrev pub starts_word : Text → Bool
starts_word [] = false
starts_word (c ∷ cs) = is_word c

unfoldable pub bare_here : Text → Text → Bool
unfolding has_prefix drop_codes
bare_here name s = has_prefix name s && not (starts_word (drop_codes (length name) s))

unfoldable pub named_here : Text → Text → Bool
unfolding bare_here
named_here name [] = bare_here name []
named_here name (c ∷ s) = bare_here name (c ∷ s) || ((c == b'`') && bare_here name s)

unfoldable pub named_after : Bool → Text → Text → Bool
unfolding named_here
named_after touched name [] = not touched && named_here name []
named_after touched name (c ∷ s) =
    (not touched && named_here name (c ∷ s)) || named_after (is_word c || (c == b'`')) name s

unfoldable pub references : Text → Text → Bool
unfolding named_after lower_text
references expression name = named_after false (lower_text name) (lower_text expression)

-- `_dependents`: what mentions a column.
pub data Dependent : Type 0 where
  constraint : String → Dependent
  stats_columns : Dependent
  generated : Text → Dependent

unfoldable pub setting_dependents : Text → List (String × Text) → List Dependent
unfolding references has_prefix
setting_dependents name [] = []
setting_dependents name ((key, v) ∷ entries) =
    (if has_prefix (codes "delta.constraints.") (codes key) && references v name
      then constraint key ∷ []
      else [])
    ++ (if str_eq key "delta.dataSkippingStatsColumns" && references v name
        then stats_columns ∷ []
        else [])
    ++ setting_dependents name entries

abbrev pub mentions : Text → Option Value → Bool
mentions name (some (str t)) = references t name
mentions name _ = false

unfoldable pub field_dependents : Text → List (Text × Notes) → List Dependent
unfolding lookup references
field_dependents name [] = []
field_dependents name ((f, notes) ∷ fields) =
    let rest = field_dependents name fields in
    if mentions name (lookup "delta.generationExpression" notes) then generated f ∷ rest else rest

unfoldable pub dependents : Metadata → Text → List Dependent
unfolding setting_dependents field_dependents notes_in
dependents m name =
    setting_dependents name m.configuration ++ field_dependents name (notes_in m.schema)

abbrev pub from_parsed {ℓ} : {A : Type ℓ} → Parsed A → Outcome A
from_parsed (invalid e) = refused (not_a_path e)
from_parsed (parsed a) = done a

abbrev pub unless_refused {ℓ} : {A : Type ℓ} → Option Refused → Outcome A → Outcome A
unless_refused (some r) o = refused r
unless_refused none o = o

-- Whether a text has a backtick or a dot, and so may be a path.
unfoldable pub may_be_path : Text → Bool
unfolding contains
may_be_path name = contains b'`' name || contains b'.' name

-- `_split(new) if "`" in new or "." in new else [new]`
unfoldable pub new_path_of : Text → Parsed (List Text)
unfolding may_be_path split_identifier
new_path_of new = if may_be_path new then split_identifier new else parsed (new ∷ [])

-- The last part of a path, and the parts before it.
unfoldable pub last_part : List Text → Text
last_part [] = []
last_part (p ∷ []) = p
last_part (p ∷ q ∷ path) = last_part (q ∷ path)

unfoldable pub init_parts : List Text → List Text
init_parts [] = []
init_parts (p ∷ []) = []
init_parts (p ∷ q ∷ path) = p ∷ init_parts (q ∷ path)

unfoldable pub same_path : List Text → List Text → Bool
unfolding same_name
same_path [] [] = true
same_path (p ∷ ps) (q ∷ qs) = same_name p q && same_path ps qs
same_path _ _ = false

-- Whether a rename would move the column to another struct.
unfoldable pub moves_column : List Text → List Text → Bool
unfolding same_path init_parts
moves_column path new_path =
    ltb 1 (length new_path)
    && (not (length new_path == length path)
        || not (same_path (init_parts new_path) (init_parts path)))

-- What keeps a column from its new name.
unfoldable pub rename_refusal : TableState → List Text → List Text → Fields → ℕ → Option Refused
unfolding moves_column any same_name cdf_enabled cdf_reserved codes_eq dependents
rename_refusal state path new_path container index =
    let current = name_at container index in
    let leaf = last_part new_path in
    if moves_column path new_path
    then some leaves_struct
    else if is_empty leaf
    then some empty_name
    else if any (λ f. same_name f leaf) (names_beside container index)
    then some taken_name
    else if (length path == 1) && cdf_enabled state.metadata && cdf_reserved leaf
    then some reserved_name
    else if codes_eq leaf current
    then none
    else if same_name leaf current
    then some differs_in_case
    else if not (is_empty (dependents state.metadata current))
    then some referenced
    else none

-- `[leaf if p.lower() == current.lower() else p for p in partitionColumns]`
unfoldable pub rename_partitions : Text → Text → List Text → List Text
unfolding same_name
rename_partitions current leaf partitions =
    map (λ p. if same_name p current then leaf else p) partitions

-- The metadata of a column that gets a new name; the same name is no change.
unfoldable pub renamed : TableState → List Text → Text → Fields → ℕ → Option Metadata
unfolding codes_eq modify set_name rename_partitions
renamed state path leaf container index =
    let current = name_at container index in
    let m = state.metadata in
    if codes_eq leaf current
    then none
    else some (record {
      schema = modify (set_name leaf) path m.schema;
      configuration = m.configuration;
      partition_columns =
          if length path == 1
          then rename_partitions current leaf m.partition_columns
          else m.partition_columns;
    })

-- `rename_column`
unfoldable pub rename_column : TableState → Text → Text → Outcome Change
unfolding mapping_refusal split_identifier find new_path_of rename_refusal renamed last_part
rename_column state old new = unless_refused (mapping_refusal state) do
  path ← from_parsed (split_identifier old)
  (container, index) ← find path state.metadata.schema
  new_path ← from_parsed (new_path_of new)
  unless_refused (rename_refusal state path new_path container index) (
      done (record {
        new_protocol = none;
        new_metadata = renamed state path (last_part new_path) container index;
      }))

-- `p in partitions`, in lower case.
unfoldable pub has_name : Text → List Text → Bool
unfolding any same_name
has_name name names = any (λ p. same_name p name) names

-- Whether one path leads to another or to something inside it.
unfoldable pub is_prefix : List Text → List Text → Bool
unfolding codes_eq
is_prefix [] path = true
is_prefix (p ∷ ps) [] = false
is_prefix (p ∷ ps) (q ∷ qs) = codes_eq p q && is_prefix ps qs

unfoldable pub drop_refusal : TableState → List Text → Fields → ℕ → Option Refused
unfolding has_name all any is_prefix physical_path dependents names_beside count_fields
drop_refusal state path container index =
    let name = name_at container index in
    let m = state.metadata in
    let top = length path == 1 in
    let physical = physical_path path m.schema in
    if top && has_name name m.partition_columns
    then some partition_column
    else if count_fields container == 1
    then some (if top then last_column else last_field)
    else if top
        && not (is_empty m.partition_columns)
        && all (λ f. has_name f m.partition_columns) (names_beside container index)
    then some last_data_column
    else if any (is_prefix physical) state.clustering_columns
    then some clustering_column
    else if not (is_empty (dependents m name))
    then some referenced
    else none

-- `drop_column`
unfoldable pub drop_column : TableState → Text → Outcome Change
unfolding mapping_refusal split_identifier find drop_refusal modify remove_at
drop_column state column = unless_refused (mapping_refusal state) do
  path ← from_parsed (split_identifier column)
  (container, index) ← find path state.metadata.schema
  unless_refused (drop_refusal state path container index) (
      done (record {
        new_protocol = none;
        new_metadata = some (record {
          schema = modify remove_at path state.metadata.schema;
          configuration = state.metadata.configuration;
          partition_columns = state.metadata.partition_columns;
        });
      }))
