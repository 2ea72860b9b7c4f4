-- ===== src/Capability/Matrix.antt =====
-- The feature matrix of python/deltaswamp/capability.py: how far each engine reads and writes a
-- table that lists a feature (FEATURE_SUPPORT), and which features a feature needs
-- (FEATURE_DEPENDENCIES). The notes and issue links of a row are prose, and are left out.
use deltaswamp.Prelude.{List, [], ◌∷◌}
use deltaswamp.Capability.Names.{
  FeatureKind, Support, TableFeature, adaptive_metadata_preview, allow_column_defaults, append_only,
  catalog_managed, catalog_owned_preview, change_data_feed, check_constraints,
  checkpoint_protection, clustering, collations, collations_preview, column_mapping,
  deletion_vectors, domain_metadata, full, generated_columns, geospatial, iceberg_compat_v1,
  iceberg_compat_v2, iceberg_compat_v3, iceberg_writer_compat_v1, iceberg_writer_compat_v3,
  identity_columns, in_commit_timestamp, invariants, materialize_partition_columns, partial,
  reader_writer, row_tracking, timestamp_nanos, timestamp_ntz, type_widening, type_widening_preview,
  unsupported, v2_checkpoint, vacuum_protocol_check, variant_shredding, variant_shredding_preview,
  variant_type, variant_type_preview, writer,
}

pub record FeatureSupport : Type 0 where
  pub kind : FeatureKind
  pub kernel_read : Support
  pub kernel_write : Support
  pub deltars_read : Support
  pub deltars_write : Support

-- `_row`
abbrev pub row : FeatureKind → Support → Support → Support → Support → FeatureSupport
row k kr kw dr dw = record {
  kind = k;
  kernel_read = kr;
  kernel_write = kw;
  deltars_read = dr;
  deltars_write = dw;
}

unfoldable pub feature_support : TableFeature → FeatureSupport
feature_support append_only = row writer full full full full
feature_support invariants = row writer full partial full full
feature_support check_constraints = row writer full partial full full
feature_support change_data_feed = row writer full full full full
feature_support generated_columns = row writer full partial full full
feature_support identity_columns = row writer full partial full unsupported
feature_support in_commit_timestamp = row writer full full full unsupported
feature_support row_tracking = row writer full partial full unsupported
feature_support domain_metadata = row writer full full full unsupported
feature_support iceberg_compat_v1 = row writer full unsupported full unsupported
feature_support iceberg_compat_v2 = row writer full unsupported full unsupported
feature_support iceberg_writer_compat_v1 = row writer full unsupported full unsupported
feature_support iceberg_writer_compat_v3 = row writer full unsupported full unsupported
feature_support iceberg_compat_v3 = row writer full full full unsupported
feature_support clustering = row writer full full full unsupported
feature_support materialize_partition_columns = row writer full full full unsupported
feature_support allow_column_defaults = row writer full full full unsupported
feature_support catalog_managed = row reader_writer full full unsupported unsupported
feature_support catalog_owned_preview = row reader_writer full full unsupported unsupported
feature_support column_mapping = row reader_writer full full full full
feature_support deletion_vectors = row reader_writer full full full partial
feature_support timestamp_ntz = row reader_writer full full full full
feature_support type_widening = row reader_writer full full unsupported unsupported
feature_support type_widening_preview = row reader_writer full full unsupported unsupported
feature_support v2_checkpoint = row reader_writer full full full full
feature_support vacuum_protocol_check = row reader_writer full full unsupported unsupported
feature_support variant_type = row reader_writer full full full full
feature_support variant_type_preview = row reader_writer full full full full
feature_support variant_shredding = row reader_writer partial full unsupported unsupported
feature_support variant_shredding_preview = row reader_writer partial full unsupported unsupported
feature_support adaptive_metadata_preview =
    row reader_writer unsupported unsupported unsupported unsupported
feature_support geospatial = row reader_writer unsupported unsupported unsupported unsupported
feature_support collations = row writer partial unsupported partial unsupported
feature_support collations_preview = row writer partial unsupported partial unsupported
feature_support checkpoint_protection = row writer full partial full unsupported
feature_support timestamp_nanos = row reader_writer unsupported unsupported full full

unfoldable pub feature_dependencies : TableFeature → List TableFeature
feature_dependencies row_tracking = domain_metadata ∷ []
feature_dependencies clustering = domain_metadata ∷ []
feature_dependencies catalog_managed = in_commit_timestamp ∷ []
feature_dependencies catalog_owned_preview = in_commit_timestamp ∷ []
feature_dependencies variant_shredding = variant_type ∷ []
feature_dependencies iceberg_compat_v1 = column_mapping ∷ []
feature_dependencies iceberg_compat_v2 = column_mapping ∷ []
feature_dependencies iceberg_compat_v3 = column_mapping ∷ row_tracking ∷ []
feature_dependencies adaptive_metadata_preview =
    column_mapping ∷ row_tracking ∷ domain_metadata ∷ deletion_vectors ∷ in_commit_timestamp ∷ []
feature_dependencies _ = []
