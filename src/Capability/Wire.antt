-- ===== src/Capability/Wire.antt =====
-- Wire names and protocol versions of python/deltaswamp/capability.py: `feature_from_wire`, the
-- features a legacy protocol version implies, and `implied_features`.
use text.Mathlib.Text.{◌==◌ as str_eq}
use deltaswamp.Prelude.{
  Bool, List, Option, String, [], if◌then◌else◌, ltb, map, none, some, suc, zero, ℕ, ◌∷◌,
}
use deltaswamp.Capability.Names.{
  TableFeature, adaptive_metadata_preview, allow_column_defaults, append_only, catalog_managed,
  catalog_owned_preview, change_data_feed, check_constraints, checkpoint_protection, clustering,
  collations, collations_preview, column_mapping, deletion_vectors, domain_metadata,
  generated_columns, geospatial, iceberg_compat_v1, iceberg_compat_v2, iceberg_compat_v3,
  iceberg_writer_compat_v1, iceberg_writer_compat_v3, identity_columns, in_commit_timestamp,
  invariants, materialize_partition_columns, row_tracking, timestamp_nanos, timestamp_ntz,
  type_widening, type_widening_preview, v2_checkpoint, vacuum_protocol_check, variant_shredding,
  variant_shredding_preview, variant_type, variant_type_preview, wire,
}

-- The members of `TableFeature`, in order.
unfoldable pub all_features : List TableFeature
all_features =
    append_only ∷ invariants ∷ check_constraints ∷ change_data_feed ∷ generated_columns
    ∷ identity_columns ∷ in_commit_timestamp ∷ row_tracking ∷ domain_metadata ∷ iceberg_compat_v1
    ∷ iceberg_compat_v2 ∷ iceberg_compat_v3 ∷ iceberg_writer_compat_v1 ∷ iceberg_writer_compat_v3
    ∷ clustering ∷ materialize_partition_columns ∷ allow_column_defaults ∷ catalog_managed
    ∷ catalog_owned_preview ∷ column_mapping ∷ deletion_vectors ∷ timestamp_ntz ∷ type_widening
    ∷ type_widening_preview ∷ v2_checkpoint ∷ vacuum_protocol_check ∷ variant_type
    ∷ variant_type_preview ∷ variant_shredding ∷ variant_shredding_preview
    ∷ adaptive_metadata_preview ∷ geospatial ∷ collations ∷ collations_preview
    ∷ checkpoint_protection ∷ timestamp_nanos ∷ []

-- `TableFeature(name)`: the member whose value is `name`.
unfoldable pub find_feature : String → List TableFeature → Option TableFeature
unfolding wire
find_feature name [] = none
find_feature name (f ∷ fs) = if str_eq (wire f) name then some f else find_feature name fs

-- `_WIRE_ALIASES.get(name)`
wire_alias : String → Option TableFeature
wire_alias name = if str_eq "timestampWithoutTimezone" name then some timestamp_ntz else none

-- The `except ValueError` of `feature_from_wire`.
unfoldable pub or_alias : String → Option TableFeature → Option TableFeature
unfolding wire_alias
or_alias name none = wire_alias name
or_alias name (some f) = some f

-- The feature a wire name means, aliases included; `none` for one this release does not know.
unfoldable pub feature_from_wire : String → Option TableFeature
unfolding find_feature all_features or_alias
feature_from_wire name = or_alias name (find_feature name all_features)

-- LEGACY_READER_FEATURES, with the entry that `.get(v, entry[2])` takes for any other version.
unfoldable pub legacy_reader_features : ℕ → List TableFeature
legacy_reader_features (suc zero) = []
legacy_reader_features _ = column_mapping ∷ []

-- LEGACY_WRITER_FEATURES, with the entry that `.get(v, entry[6])` takes for any other version.
unfoldable pub legacy_writer_features : ℕ → List TableFeature
legacy_writer_features (suc zero) = []
legacy_writer_features (suc (suc zero)) = append_only ∷ invariants ∷ []
legacy_writer_features (suc (suc (suc zero))) = append_only ∷ invariants ∷ check_constraints ∷ []
legacy_writer_features (suc (suc (suc (suc zero)))) =
    append_only ∷ invariants ∷ check_constraints ∷ change_data_feed ∷ generated_columns ∷ []
legacy_writer_features (suc (suc (suc (suc (suc zero))))) =
    append_only ∷ invariants ∷ check_constraints ∷ change_data_feed ∷ generated_columns
    ∷ column_mapping ∷ []
legacy_writer_features _ =
    append_only ∷ invariants ∷ check_constraints ∷ change_data_feed ∷ generated_columns
    ∷ column_mapping ∷ identity_columns ∷ []

-- The (reader, writer) features a legacy protocol version implies; nothing from reader version 3
-- and writer version 7 on, where the named lists are authoritative.
unfoldable pub implied_reader_features : Option ℕ → List TableFeature
unfolding legacy_reader_features
implied_reader_features none = []
implied_reader_features (some v) = if ltb v 3 then legacy_reader_features v else []

unfoldable pub implied_writer_features : Option ℕ → List TableFeature
implied_writer_features none = []
implied_writer_features (some v) = if ltb v 7 then legacy_writer_features v else []

unfoldable pub implied_features : Option ℕ → Option ℕ → List String × List String
unfolding implied_reader_features implied_writer_features
implied_features min_reader min_writer =
    (map wire (implied_reader_features min_reader), map wire (implied_writer_features min_writer))

-- `TableFeature.X is TableFeature.Y`: members differ exactly when their values do.
unfoldable pub same_feature : TableFeature → TableFeature → Bool
unfolding wire
same_feature f g = str_eq (wire f) (wire g)
