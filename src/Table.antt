-- ===== src/Table.antt =====
-- What the catalog knows of a table before its log is read: `ResolvedTable` and `TableType` of
-- python/deltaswamp/catalog/base.py, with the `TableRef` fields of python/deltaswamp/identity.py
-- that routing reads.
use deltaswamp.Prelude.{
  Bool, List, Option, String, [], false, is_some, none, some, true, ℕ, ◌&&◌, ◌++◌, ◌||◌, ◌∷◌,
}
use deltaswamp.Capability.Names.{TableFeature}
use deltaswamp.Capability.Wire.{feature_from_wire, implied_features, same_feature}
use deltaswamp.Prelude.Text.{folds_to, lookup, lower_is, mem}

pub data RefKind : Type 0 where
  catalog path : RefKind

pub data TableType : Type 0 where
  managed external view materialized_view streaming_table : TableType
  managed_shallow_clone external_shallow_clone foreign metric_view : TableType

-- A frozenset of names is a list of them, and a dict its entries in order.
pub record ResolvedTable : Type 0 where
  pub ref_kind : RefKind
  pub ref_catalog : Option String
  pub ref_scheme : Option String
  pub location : Option String
  pub table_type : Option TableType
  pub data_source_format : Option String
  pub min_reader_version : Option ℕ
  pub min_writer_version : Option ℕ
  pub reader_features : List String
  pub writer_features : List String
  pub properties : List (String × String)
  pub has_generated_columns : Bool
  pub has_datetime_columns : Bool
  pub open_error : Option String
  pub external_read_supported : Option Bool
  pub external_write_supported : Option Bool
  pub access_policy : Option String
  pub iceberg_rest_uri : Option String
  pub sharing_profile : Option String

-- `properties.get(key, default)`
unfoldable pub property : String → String → ResolvedTable → String
unfolding lookup
property key default table = elim (lookup key table.properties) [ none ↦ default | some v ↦ v ]

unfoldable pub features : ResolvedTable → List String
features table = table.reader_features ++ table.writer_features

unfoldable pub effective_reader_features : ResolvedTable → List String
unfolding implied_features
effective_reader_features table =
    table.reader_features ++ (implied_features table.min_reader_version table.min_writer_version).0

unfoldable pub effective_writer_features : ResolvedTable → List String
unfolding implied_features
effective_writer_features table =
    table.writer_features ++ (implied_features table.min_reader_version table.min_writer_version).1

-- `known_features`, as the test `feature in table.known_features`.
unfoldable pub known_feature : TableFeature → List String → Bool
unfolding feature_from_wire same_feature
known_feature f [] = false
known_feature f (name ∷ names) =
    elim (feature_from_wire name) [ none ↦ false | some g ↦ same_feature f g ]
    || known_feature f names

-- Whether a property is one of the spellings Databricks gives an enabled feature.
enabled_text : String → Bool
unfolding lower_is
enabled_text v = lower_is v "supported" || lower_is v "enabled"

unfoldable pub is_catalog_managed : ResolvedTable → Bool
unfolding features mem property enabled_text
is_catalog_managed table =
    mem "catalogManaged" (features table)
    || mem "catalogOwned-preview" (features table)
    || enabled_text (property "delta.feature.catalogManaged" "" table)
    || enabled_text (property "delta.feature.catalogOwned-preview" "" table)

-- The catalog's format is one of these in any case; a catalog that does not say means Delta.
unfoldable pub is_delta : ResolvedTable → Bool
unfolding lower_is
is_delta table = elim table.data_source_format [
  | none ↦ true
  | some fmt ↦
      lower_is fmt ""
      || lower_is fmt "delta"
      || lower_is fmt "delta_uniform_iceberg"
      || lower_is fmt "delta_uniform_hudi"
]

unfoldable pub is_shared : ResolvedTable → Bool
is_shared table = is_some table.sharing_profile

unfoldable pub is_iceberg : ResolvedTable → Bool
unfolding lower_is
is_iceberg table = elim table.data_source_format [
  | none ↦ false
  | some fmt ↦ lower_is fmt "iceberg"
]

unfoldable pub is_managed_iceberg : ResolvedTable → Bool
unfolding is_iceberg is_catalog_managed folds_to property
is_managed_iceberg table =
    is_iceberg table
    || (is_catalog_managed table
        && (folds_to (property "delta.enableIcebergWriterCompatV1" "" table) "true"
            || folds_to (property "delta.enableIcebergWriterCompatV3" "" table) "true"))

unfoldable pub view_type : Option TableType → Bool
view_type (some view) = true
view_type (some materialized_view) = true
view_type (some metric_view) = true
view_type (some streaming_table) = true
view_type _ = false

unfoldable pub is_view_like : ResolvedTable → Bool
unfolding view_type
is_view_like table = view_type table.table_type

-- `str(properties.get(key, "")).strip().lower() == "true"`
unfoldable pub is_true : String → ResolvedTable → Bool
unfolding folds_to property
is_true key table = folds_to (property key "" table) "true"
