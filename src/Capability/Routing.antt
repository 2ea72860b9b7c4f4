-- ===== src/Capability/Routing.antt =====
-- The routing tables of python/deltaswamp/capability.py: which engines serve an operation and in
-- which order (OPERATION_ENGINES), and the sets of operations that share a rule.
use deltaswamp.Prelude.{Bool, List, [], false, true, ◌∷◌}
use deltaswamp.Capability.Names.{
  Engine, Operation, TableFeature, add_column, add_constraint, add_feature, allow_column_defaults,
  alter_column_type, analyze, append, cdf, check_constraints, checkpoint, cleanup_metadata, clone,
  cluster_by, clustering, column_mapping, convert, create, delete, deletion_vectors, deltars,
  detail, domain_metadata, drop_column, drop_constraint, drop_feature, drop_not_null, files,
  generate, generated_columns, history, iceberg, identity_columns, in_commit_timestamp, incremental,
  invariants, kernel, log_compaction, materialize_partition_columns, merge, merge_schema, optimize,
  overwrite, publish, refresh, rename_column, reorg, repair, replace_where, restore, row_tracking,
  scan, set_column_comment, set_comment, set_not_null, set_properties, sharing, sql, sync_iceberg,
  time_travel, type_widening, type_widening_preview, unset_properties, update, vacuum,
  vacuum_protocol_check, variant_shredding, variant_shredding_preview, zorder,
}

-- The engines of an operation, preferred first. The rationale of an entry is prose.
unfoldable pub operation_engines : Operation → List Engine
operation_engines scan = kernel ∷ deltars ∷ sharing ∷ iceberg ∷ sql ∷ []
operation_engines time_travel = kernel ∷ deltars ∷ sharing ∷ iceberg ∷ sql ∷ []
operation_engines cdf = kernel ∷ deltars ∷ sharing ∷ sql ∷ []
operation_engines incremental = []
operation_engines history = deltars ∷ iceberg ∷ sql ∷ []
operation_engines detail = kernel ∷ deltars ∷ sharing ∷ iceberg ∷ sql ∷ []
operation_engines files = deltars ∷ kernel ∷ []
operation_engines append = deltars ∷ kernel ∷ iceberg ∷ sql ∷ []
operation_engines create = deltars ∷ kernel ∷ []
operation_engines overwrite = deltars ∷ kernel ∷ iceberg ∷ sql ∷ []
operation_engines replace_where = deltars ∷ iceberg ∷ sql ∷ kernel ∷ []
operation_engines merge_schema = deltars ∷ kernel ∷ sql ∷ []
operation_engines delete = deltars ∷ sql ∷ kernel ∷ []
operation_engines update = deltars ∷ sql ∷ kernel ∷ []
operation_engines merge = deltars ∷ sql ∷ kernel ∷ []
operation_engines add_column = deltars ∷ kernel ∷ sql ∷ []
operation_engines set_properties = deltars ∷ kernel ∷ sql ∷ []
operation_engines unset_properties = kernel ∷ sql ∷ []
operation_engines add_feature = deltars ∷ kernel ∷ sql ∷ []
operation_engines add_constraint = deltars ∷ kernel ∷ sql ∷ []
operation_engines drop_constraint = deltars ∷ kernel ∷ sql ∷ []
operation_engines set_comment = deltars ∷ kernel ∷ sql ∷ []
operation_engines set_column_comment = deltars ∷ kernel ∷ sql ∷ []
operation_engines alter_column_type = kernel ∷ sql ∷ []
operation_engines set_not_null = kernel ∷ sql ∷ []
operation_engines drop_not_null = deltars ∷ kernel ∷ sql ∷ []
operation_engines cluster_by = kernel ∷ sql ∷ []
operation_engines drop_column = kernel ∷ sql ∷ []
operation_engines rename_column = kernel ∷ sql ∷ []
operation_engines drop_feature = sql ∷ []
operation_engines optimize = kernel ∷ deltars ∷ sql ∷ []
operation_engines zorder = kernel ∷ deltars ∷ sql ∷ []
operation_engines vacuum = deltars ∷ kernel ∷ sql ∷ []
operation_engines restore = deltars ∷ kernel ∷ sql ∷ []
operation_engines repair = deltars ∷ kernel ∷ sql ∷ []
operation_engines convert = deltars ∷ []
operation_engines generate = deltars ∷ kernel ∷ []
operation_engines checkpoint = deltars ∷ kernel ∷ []
operation_engines log_compaction = deltars ∷ []
operation_engines cleanup_metadata = kernel ∷ deltars ∷ []
operation_engines publish = kernel ∷ []
operation_engines reorg = sql ∷ []
operation_engines clone = kernel ∷ sql ∷ []
operation_engines analyze = sql ∷ []
operation_engines sync_iceberg = sql ∷ []
operation_engines refresh = sql ∷ []

-- `sup.engines == (Engine.SQL,)`
only_sql : List Engine → Bool
only_sql (sql ∷ []) = true
only_sql _ = false

-- DATABRICKS_ONLY_OPERATIONS
unfoldable pub databricks_only : Operation → Bool
unfolding only_sql operation_engines
databricks_only operation = only_sql (operation_engines operation)

-- OPERATION_FEATURE_BLOCKERS
unfoldable pub operation_feature_blockers : Engine → Operation → List TableFeature
operation_feature_blockers deltars optimize = column_mapping ∷ []
operation_feature_blockers deltars zorder = column_mapping ∷ []
operation_feature_blockers deltars add_column = column_mapping ∷ []
operation_feature_blockers deltars generate = deletion_vectors ∷ column_mapping ∷ []
operation_feature_blockers kernel generate = deletion_vectors ∷ column_mapping ∷ []
operation_feature_blockers _ _ = []

-- APPEND_ONLY_FORBIDDEN
unfoldable pub append_only_forbidden : Operation → Bool
append_only_forbidden overwrite = true
append_only_forbidden replace_where = true
append_only_forbidden delete = true
append_only_forbidden update = true
append_only_forbidden restore = true
append_only_forbidden _ = false

-- COLUMN_MAPPING_REQUIRED
unfoldable pub column_mapping_required : Operation → Bool
column_mapping_required rename_column = true
column_mapping_required drop_column = true
column_mapping_required _ = false

-- UNIFORM_STALE_WRITES
unfoldable pub uniform_stale_writes : Operation → Bool
uniform_stale_writes append = true
uniform_stale_writes overwrite = true
uniform_stale_writes replace_where = true
uniform_stale_writes delete = true
uniform_stale_writes update = true
uniform_stale_writes merge = true
uniform_stale_writes merge_schema = true
uniform_stale_writes _ = false

-- KERNEL_LOG_WRITE_OPERATIONS
unfoldable pub kernel_log_write_operations : Operation → Bool
kernel_log_write_operations checkpoint = true
kernel_log_write_operations _ = false

-- DELTARS_DRY_RUN_OPERATIONS
unfoldable pub deltars_dry_run_operations : Operation → Bool
deltars_dry_run_operations vacuum = true
deltars_dry_run_operations repair = true
deltars_dry_run_operations _ = false

-- READ_OPERATIONS
unfoldable pub read_operations : Operation → Bool
read_operations scan = true
read_operations time_travel = true
read_operations cdf = true
read_operations incremental = true
read_operations history = true
read_operations detail = true
read_operations files = true
read_operations _ = false

-- METADATA_OPERATIONS
unfoldable pub metadata_operations : Operation → Bool
metadata_operations add_column = true
metadata_operations drop_column = true
metadata_operations rename_column = true
metadata_operations set_properties = true
metadata_operations unset_properties = true
metadata_operations add_feature = true
metadata_operations add_constraint = true
metadata_operations drop_constraint = true
metadata_operations set_comment = true
metadata_operations set_column_comment = true
metadata_operations alter_column_type = true
metadata_operations set_not_null = true
metadata_operations drop_not_null = true
metadata_operations cluster_by = true
metadata_operations _ = false

-- VALUE_CONSTRAINT_FEATURES
unfoldable pub value_constraint_features : TableFeature → Bool
value_constraint_features check_constraints = true
value_constraint_features generated_columns = true
value_constraint_features identity_columns = true
value_constraint_features invariants = true
value_constraint_features _ = false

-- _LOG_ONLY_EXEMPT
unfoldable pub log_only_exempt : TableFeature → Bool
log_only_exempt domain_metadata = true
log_only_exempt clustering = true
log_only_exempt row_tracking = true
log_only_exempt type_widening = true
log_only_exempt type_widening_preview = true
log_only_exempt variant_shredding = true
log_only_exempt variant_shredding_preview = true
log_only_exempt identity_columns = true
log_only_exempt generated_columns = true
log_only_exempt check_constraints = true
log_only_exempt invariants = true
log_only_exempt allow_column_defaults = true
log_only_exempt materialize_partition_columns = true
log_only_exempt _ = false

unfoldable pub history_exempt : TableFeature → Bool
history_exempt type_widening = true
history_exempt type_widening_preview = true
history_exempt vacuum_protocol_check = true
history_exempt variant_shredding = true
history_exempt variant_shredding_preview = true
history_exempt _ = false

-- DELTARS_OPERATION_EXEMPTIONS
unfoldable pub deltars_operation_exemptions : Operation → TableFeature → Bool
unfolding history_exempt log_only_exempt
deltars_operation_exemptions history f = history_exempt f
deltars_operation_exemptions cleanup_metadata f = log_only_exempt f
deltars_operation_exemptions log_compaction in_commit_timestamp = true
deltars_operation_exemptions log_compaction f = log_only_exempt f
deltars_operation_exemptions _ f = false

-- DELTARS_VACUUM_DRY_RUN_EXEMPT
unfoldable pub deltars_vacuum_dry_run_exempt : TableFeature → Bool
unfolding log_only_exempt
deltars_vacuum_dry_run_exempt in_commit_timestamp = true
deltars_vacuum_dry_run_exempt vacuum_protocol_check = true
deltars_vacuum_dry_run_exempt f = log_only_exempt f
