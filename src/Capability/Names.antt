-- ===== src/Capability/Names.antt =====
-- The enumerations of python/deltaswamp/capability.py: Engine, Support, FeatureKind, Operation and
-- TableFeature.
use deltaswamp.Prelude.{Bool, String, false, true}

pub data Engine : Type 0 where
  kernel deltars sql sharing iceberg : Engine

-- YES, NO and PARTIAL of `Support`.
pub data Support : Type 0 where
  full unsupported partial : Support

pub data FeatureKind : Type 0 where
  reader writer reader_writer : FeatureKind

pub data Operation : Type 0 where
  scan time_travel cdf incremental history detail files append overwrite replace_where : Operation
  create merge_schema delete update merge add_column drop_column rename_column : Operation
  set_properties add_feature drop_feature add_constraint drop_constraint : Operation
  unset_properties set_comment set_column_comment alter_column_type set_not_null : Operation
  drop_not_null cluster_by optimize zorder vacuum restore repair checkpoint : Operation
  log_compaction publish reorg clone convert generate cleanup_metadata analyze : Operation
  sync_iceberg refresh : Operation

pub data TableFeature : Type 0 where
  append_only invariants check_constraints change_data_feed generated_columns : TableFeature
  identity_columns in_commit_timestamp row_tracking domain_metadata : TableFeature
  iceberg_compat_v1 iceberg_compat_v2 iceberg_compat_v3 iceberg_writer_compat_v1 : TableFeature
  iceberg_writer_compat_v3 clustering materialize_partition_columns : TableFeature
  allow_column_defaults catalog_managed catalog_owned_preview column_mapping : TableFeature
  deletion_vectors timestamp_ntz type_widening type_widening_preview v2_checkpoint : TableFeature
  vacuum_protocol_check variant_type variant_type_preview variant_shredding : TableFeature
  variant_shredding_preview adaptive_metadata_preview geospatial collations : TableFeature
  collations_preview checkpoint_protection timestamp_nanos : TableFeature

-- The value of the string enumeration.
unfoldable pub wire : TableFeature → String
wire append_only = "appendOnly"
wire invariants = "invariants"
wire check_constraints = "checkConstraints"
wire change_data_feed = "changeDataFeed"
wire generated_columns = "generatedColumns"
wire identity_columns = "identityColumns"
wire in_commit_timestamp = "inCommitTimestamp"
wire row_tracking = "rowTracking"
wire domain_metadata = "domainMetadata"
wire iceberg_compat_v1 = "icebergCompatV1"
wire iceberg_compat_v2 = "icebergCompatV2"
wire iceberg_compat_v3 = "icebergCompatV3"
wire iceberg_writer_compat_v1 = "icebergWriterCompatV1"
wire iceberg_writer_compat_v3 = "icebergWriterCompatV3"
wire clustering = "clustering"
wire materialize_partition_columns = "materializePartitionColumns"
wire allow_column_defaults = "allowColumnDefaults"
wire catalog_managed = "catalogManaged"
wire catalog_owned_preview = "catalogOwned-preview"
wire column_mapping = "columnMapping"
wire deletion_vectors = "deletionVectors"
wire timestamp_ntz = "timestampNtz"
wire type_widening = "typeWidening"
wire type_widening_preview = "typeWidening-preview"
wire v2_checkpoint = "v2Checkpoint"
wire vacuum_protocol_check = "vacuumProtocolCheck"
wire variant_type = "variantType"
wire variant_type_preview = "variantType-preview"
wire variant_shredding = "variantShredding"
wire variant_shredding_preview = "variantShredding-preview"
wire adaptive_metadata_preview = "adaptiveMetadata-preview"
wire geospatial = "geospatial"
wire collations = "collations"
wire collations_preview = "collations-preview"
wire checkpoint_protection = "checkpointProtection"
wire timestamp_nanos = "timestampNanos"

-- `Engine.X is Engine.Y`
unfoldable pub same_engine : Engine → Engine → Bool
same_engine kernel kernel = true
same_engine deltars deltars = true
same_engine sql sql = true
same_engine sharing sharing = true
same_engine iceberg iceberg = true
same_engine _ _ = false
