-- ===== src/Tests/Changes.antt =====
-- Tests of metadata changes.
use deltaswamp.Prelude.{
  All, Bool, List, String, [], all, any, arith, false, length, none, refl, select, some, true, ℕ,
  ◌++◌, ◌+◌, ◌∷◌, ◌≡◌,
}
use deltaswamp.Capability.Matrix.{feature_dependencies, feature_support}
use deltaswamp.Capability.Names.{same_engine, wire}
use deltaswamp.Capability.Wire.{
  all_features, feature_from_wire, find_feature, implied_features, implied_reader_features,
  implied_writer_features, legacy_reader_features, legacy_writer_features, or_alias, same_feature,
}
use deltaswamp.Metadata.Columns.{
  Change, Metadata, TableState, bare_here, cdf_enabled, cdf_reserved, dependents, drop_column,
  drop_refusal, field_dependents, has_name, init_parts, is_prefix, last_part, mapping_refusal,
  may_be_path, moves_column, named_after, named_here, new_path_of, references, rename_column,
  rename_partitions, rename_refusal, renamed, same_path, setting, setting_dependents,
}
use deltaswamp.Metadata.Distinct.{distinct_fields, distinct_type, rename_column-distinct_fields}
use deltaswamp.Metadata.Dropped.{IsSound, drop_column_checked}
use deltaswamp.Metadata.Edits.{Dropped, EditedAt, Renamed}
use deltaswamp.Metadata.Ids.{
  NotAbove, assign_ids, assign_ids-max_column_id, ids_from, ids_of, max_column_id,
}
use deltaswamp.Metadata.Partitions.{rename_column-partition_columns}
use deltaswamp.Metadata.Protocol.{
  Protocol, effective, has_preview, legacy_reader, needs_reader, preview_of, reader_side,
  supported_features, upgrade, want, wanted_features, weight, with_features,
}
use deltaswamp.Metadata.Kept.{filled_type, filled_within, has_physical, type_has}
use deltaswamp.Metadata.Rename.{AllMapped, rename_column-walk_fields}
use deltaswamp.Metadata.Schema.{
  Fields, Notes, child_at, clustering_column, count_fields, done, last_data_column,
  partition_column, field, find, index_of, modify, name_at, names_beside, names_of, no_fields,
  notes_in, notes_in_type, physical_at, physical_name, physical_path, primitive, refused, remove_at,
  same_name, set_child, set_name, str, struct, taken_name, walk_fields, walk_type,
}
use deltaswamp.Metadata.Upgrade.{with_features_idem}
use deltaswamp.Metadata.Values.{widening_allowed-Fits}
use deltaswamp.Metadata.Wanted.{wanted_features-least}
use deltaswamp.Metadata.Widening.{
  Datum, Fits, decimal, decimal_widening, double, integer, integral_digits, integral_rank, long,
  nan, other_widening, ratio, widening_allowed,
}
use deltaswamp.Prelude.Text.{
  codes, codes_eq, drop_text, folds_to, has_prefix, is_space, lookup, lower, lower_is, lstrip, mem,
  minus, occurs, strip, to_lower,
}
use deltaswamp.Reference.Parse.{
  catalog_schemes, contains, drop_codes, full_name, is_alpha, is_drive, is_one_of, is_scheme_char,
  local_path, looks_like_path, lower_text, lstrip_char, name_of, parse_name, partition, rstrip_char,
  scheme_of, scheme_rest, split_from, split_unquoted, starts_with_any, storage_schemes, unquoted,
  unquoted_from, unreachable_prefixes,
}
use deltaswamp.Reference.Split.{
  Text, check_parts, escape, finish, in_backticks, is_plain, join_dots, parsed, quote, scan,
  split_identifier, trim_left, trim_right,
}
use deltaswamp.Router.Closure.{IsClosed}
use deltaswamp.Router.Features.{dependencies, dependencies_of, metadata_legacy_writer}

abbrev legacy : Protocol
legacy = record { min_reader = 1; min_writer = 2; reader_names = none; writer_names = none }

abbrev asked_for : List String
asked_for = "deletionVectors" ∷ "rowTracking" ∷ []

abbrev granted : Protocol
granted = upgrade legacy (effective legacy asked_for)

granting :
    (with_features legacy asked_for ≡ some granted)
    × (mem "domainMetadata" (supported_features granted) ≡ true)
    × (granted.min_reader ≡ 3)
    × (needs_reader "deletionVectors" ≡ true)
    × (mem "deletionVectors" (effective legacy asked_for) ≡ true)
unfolding any all select drop_text codes_eq to_lower is_space lstrip strip lower lower_is folds_to
    has_prefix occurs mem minus lookup wire same_engine feature_support feature_dependencies
    all_features find_feature or_alias feature_from_wire legacy_reader_features
    legacy_writer_features implied_reader_features implied_writer_features implied_features
    same_feature supported_features legacy_reader preview_of has_preview want weight wanted_features
    needs_reader effective reader_side upgrade with_features metadata_legacy_writer dependencies
    dependencies_of
granting = (refl, refl, refl, refl, refl)

wanted_features-least_example :
    ((s : String) → mem s asked_for ≡ true → mem s (wanted_features asked_for) ≡ true)
    × IsClosed (wanted_features asked_for)
    × ((inside : String → Bool)
        → ((s d : String) → inside s ≡ true → mem d (dependencies s) ≡ true → inside d ≡ true)
        → ((s : String) → mem s asked_for ≡ true → inside s ≡ true)
        → (s : String) → mem s (wanted_features asked_for) ≡ true
        → inside s ≡ true)
wanted_features-least_example = wanted_features-least asked_for

with_features_idem_example : with_features granted asked_for ≡ none
with_features_idem_example = with_features_idem legacy granted asked_for granting.0

abbrev mapped_as : String → Notes
mapped_as physical = ("delta.columnMapping.physicalName", str (codes physical)) ∷ []

-- id, and address with a city.
abbrev people : Fields
people = field (codes "id") (primitive (codes "long")) true (mapped_as "c1") (
    field (codes "address")
      (struct (
        field (codes "city") (primitive (codes "string")) true (mapped_as "c3")
          (field (codes "zip") (primitive (codes "string")) true (mapped_as "c4") no_fields)))
      true (mapped_as "c2") no_fields)

abbrev table_of : Fields → TableState
table_of schema = record {
  protocol = record { min_reader = 2; min_writer = 5; reader_names = none; writer_names = none };
  metadata = record {
    schema = schema;
    configuration = ("delta.columnMapping.mode", codes "name") ∷ [];
    partition_columns = [];
  };
  clustering_columns = [];
}

abbrev with_schema : Fields → Metadata
with_schema schema = record {
  schema = schema;
  configuration = ("delta.columnMapping.mode", codes "name") ∷ [];
  partition_columns = [];
}

abbrev replacing : Metadata → Change
replacing m = record { new_protocol = none; new_metadata = some m }

abbrev after_rename : Metadata
after_rename =
    with_schema (modify (set_name (codes "town")) (codes "address" ∷ codes "CITY" ∷ []) people)

abbrev after_drop : Metadata
after_drop = with_schema (modify remove_at (codes "address" ∷ codes "zip" ∷ []) people)

changes :
    (rename_column (table_of people) (codes "address.CITY") (codes "town")
      ≡ done (replacing after_rename))
    × (drop_column (table_of people) (codes "address.zip") ≡ done (replacing after_drop))
    × (rename_column (table_of people) (codes "id") (codes "ADDRESS") ≡ refused taken_name)
    × (distinct_fields people ≡ true)
unfolding any all select drop_text codes_eq to_lower is_space lstrip strip lower lower_is folds_to
    has_prefix occurs mem minus lookup trim_left trim_right finish scan check_parts split_identifier
    is_plain escape in_backticks quote join_dots full_name name_of parse_name unquoted_from unquoted
    contains split_from split_unquoted lower_text drop_codes lstrip_char rstrip_char partition
    is_alpha is_scheme_char scheme_rest scheme_of is_drive starts_with_any is_one_of looks_like_path
    local_path storage_schemes catalog_schemes unreachable_prefixes same_name names_of count_fields
    index_of child_at set_child find modify name_at set_name remove_at names_beside physical_name
    physical_at walk_type walk_fields notes_in_type notes_in physical_path setting mapping_refusal
    cdf_enabled cdf_reserved bare_here named_here named_after references setting_dependents
    field_dependents dependents may_be_path new_path_of last_part init_parts same_path moves_column
    rename_refusal rename_partitions renamed rename_column has_name is_prefix drop_refusal
    drop_column distinct_type distinct_fields supported_features
changes = (refl, refl, refl, refl)

people-AllMapped : AllMapped people
unfolding notes_in lookup
people-AllMapped =
    ((codes "c1", refl), ((codes "c2", refl), ((codes "c3", refl), ((codes "c4", refl), tt))))

rename_column-walk_fields_example :
    (path : List Text) × (new_path : List Text) × (split_identifier (codes "address.CITY")
      ≡ parsed path)
    × (new_path_of (codes "town") ≡ parsed new_path)
    × EditedAt (Renamed (last_part new_path)) path people after_rename.schema
    × (after_rename.configuration ≡ (table_of people).metadata.configuration)
    × (walk_fields after_rename.schema ≡ walk_fields people)
rename_column-walk_fields_example =
    rename_column-walk_fields (table_of people) (codes "address.CITY") (codes "town")
      (replacing after_rename) after_rename people-AllMapped changes.0 refl

rename_column-distinct_fields_example : distinct_fields after_rename.schema ≡ true
rename_column-distinct_fields_example =
    rename_column-distinct_fields (table_of people) (codes "address.CITY") (codes "town")
      (replacing after_rename) after_rename changes.3 changes.0 refl

-- The same columns, partitioned by id and clustered by the city.
abbrev parted : Fields → Metadata
parted schema = record {
  schema = schema;
  configuration = ("delta.columnMapping.mode", codes "name") ∷ [];
  partition_columns = codes "id" ∷ [];
}

abbrev city : List Text
city = codes "c2" ∷ codes "c3" ∷ []

abbrev clustered_table : TableState
clustered_table = record {
  protocol = record { min_reader = 2; min_writer = 5; reader_names = none; writer_names = none };
  metadata = parted people;
  clustering_columns = city ∷ [];
}

abbrev without_zip : Metadata
without_zip = parted (modify remove_at (codes "address" ∷ codes "zip" ∷ []) people)

drops :
    (drop_column clustered_table (codes "address.zip") ≡ done (replacing without_zip))
    × (drop_column clustered_table (codes "id") ≡ refused partition_column)
    × (drop_column clustered_table (codes "address") ≡ refused last_data_column)
    × (drop_column clustered_table (codes "address.city") ≡ refused clustering_column)
unfolding any all select drop_text codes_eq to_lower is_space lstrip strip lower lower_is folds_to
    has_prefix occurs mem minus lookup trim_left trim_right finish scan check_parts split_identifier
    is_plain escape in_backticks quote join_dots full_name name_of parse_name unquoted_from unquoted
    contains split_from split_unquoted lower_text drop_codes lstrip_char rstrip_char partition
    is_alpha is_scheme_char scheme_rest scheme_of is_drive starts_with_any is_one_of looks_like_path
    local_path storage_schemes catalog_schemes unreachable_prefixes same_name names_of count_fields
    index_of child_at set_child find modify name_at set_name remove_at names_beside physical_name
    physical_at walk_type walk_fields notes_in_type notes_in physical_path setting mapping_refusal
    cdf_enabled cdf_reserved bare_here named_here named_after references setting_dependents
    field_dependents dependents may_be_path new_path_of last_part init_parts same_path moves_column
    rename_refusal rename_partitions renamed rename_column has_name is_prefix drop_refusal
    drop_column distinct_type distinct_fields supported_features
drops = (refl, refl, refl, refl)

clustered_table-IsSound : IsSound (parted people) (city ∷ [])
unfolding any all select drop_text codes_eq to_lower is_space lstrip strip lower lower_is folds_to
    has_prefix occurs mem minus lookup trim_left trim_right finish scan check_parts split_identifier
    is_plain escape in_backticks quote join_dots full_name name_of parse_name unquoted_from unquoted
    contains split_from split_unquoted lower_text drop_codes lstrip_char rstrip_char partition
    is_alpha is_scheme_char scheme_rest scheme_of is_drive starts_with_any is_one_of looks_like_path
    local_path storage_schemes catalog_schemes unreachable_prefixes same_name names_of count_fields
    index_of child_at set_child find modify name_at set_name remove_at names_beside physical_name
    physical_at walk_type walk_fields notes_in_type notes_in physical_path setting mapping_refusal
    cdf_enabled cdf_reserved bare_here named_here named_after references setting_dependents
    field_dependents dependents may_be_path new_path_of last_part init_parts same_path moves_column
    rename_refusal rename_partitions renamed rename_column has_name is_prefix drop_refusal
    drop_column distinct_type distinct_fields supported_features filled_within filled_type
    has_physical type_has
clustered_table-IsSound = record {
  named_apart = refl;
  structs_filled = refl;
  partitioned = refl;
  data_column = refl;
  clustered = refl;
}

drop_column_checked_example :
    (path : List Text) × (m : Metadata) × (split_identifier (codes "address.zip") ≡ parsed path)
    × (some without_zip ≡ some m)
    × EditedAt Dropped path people m.schema
    × IsSound m (city ∷ [])
drop_column_checked_example =
    drop_column_checked clustered_table (codes "address.zip") (replacing without_zip)
      clustered_table-IsSound drops.0

-- The partition column with a new name.
abbrev with_key : Metadata
with_key = record {
  schema = modify (set_name (codes "key")) (codes "id" ∷ []) people;
  configuration = ("delta.columnMapping.mode", codes "name") ∷ [];
  partition_columns = codes "key" ∷ [];
}

keyed : rename_column clustered_table (codes "id") (codes "key") ≡ done (replacing with_key)
unfolding any all select drop_text codes_eq to_lower is_space lstrip strip lower lower_is folds_to
    has_prefix occurs mem minus lookup trim_left trim_right finish scan check_parts split_identifier
    is_plain escape in_backticks quote join_dots full_name name_of parse_name unquoted_from unquoted
    contains split_from split_unquoted lower_text drop_codes lstrip_char rstrip_char partition
    is_alpha is_scheme_char scheme_rest scheme_of is_drive starts_with_any is_one_of looks_like_path
    local_path storage_schemes catalog_schemes unreachable_prefixes same_name names_of count_fields
    index_of child_at set_child find modify name_at set_name remove_at names_beside physical_name
    physical_at walk_type walk_fields notes_in_type notes_in physical_path setting mapping_refusal
    cdf_enabled cdf_reserved bare_here named_here named_after references setting_dependents
    field_dependents dependents may_be_path new_path_of last_part init_parts same_path moves_column
    rename_refusal rename_partitions renamed rename_column has_name is_prefix drop_refusal
    drop_column distinct_type distinct_fields supported_features
keyed = refl

rename_column-partition_columns_example :
    all (λ p. has_name p (names_of with_key.schema)) with_key.partition_columns ≡ true
rename_column-partition_columns_example =
    rename_column-partition_columns clustered_table (codes "id") (codes "key") (replacing with_key)
      with_key clustered_table-IsSound.partitioned keyed refl

abbrev seven : Datum
seven = ratio true 7 0

widened : widening_allowed integer (decimal 12 2) ≡ true
unfolding widening_allowed integral_rank other_widening decimal_widening integral_digits
widened = refl

widening_allowed-Fits_example : Fits (decimal 12 2) seven
widening_allowed-Fits_example =
    widening_allowed-Fits integer (decimal 12 2) seven widened (7, refl, omega arith)

-- A half, which a double holds and no integer type does; and NaN, which no decimal holds.
half : Fits double (ratio false 1 1) × ¬ Fits long (ratio false 1 1) × ¬ Fits (decimal 38 6) nan
half = ((1, 1, 0, refl, omega arith, omega arith, omega arith), (λ h. omega (arith, h)), λ h. h)

-- New columns like those of the table, under a supply of one name for each id.
abbrev col_name : ℕ → Text
col_name id = codes "col-" ++ (b'0' + id) ∷ []

abbrev added : Fields × ℕ
added = assign_ids col_name (max_column_id (table_of people).metadata + 1) people

assign_ids-max_column_id_example :
    (ids_of (walk_fields added.0)
      ≡ ids_from (max_column_id (table_of people).metadata + 1) (length (walk_fields people)))
    × (added.1 ≡ max_column_id (table_of people).metadata + 1 + length (walk_fields people))
    × All
        (NotAbove (max_column_id (table_of people).metadata))
        (ids_of (walk_fields (table_of people).metadata.schema))
assign_ids-max_column_id_example =
    assign_ids-max_column_id (table_of people).metadata col_name people
