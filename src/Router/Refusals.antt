-- ===== src/Router/Refusals.antt =====
-- Why an engine may not run an operation on a table, from the table alone (python/deltaswamp/
-- router.py: _operation_blocker, _exempted, _direct_refusal, _warehouse_only, _vendable and
-- _unvendable_reason).
use deltaswamp.Prelude.{
  Bool, Option, String, false, if◌then◌else◌, is_empty, leb, map, none, not, or_else, select, some,
  true, ◌&&◌, ◌==◌, ◌||◌,
}
use deltaswamp.Capability.Matrix.{feature_support}
use deltaswamp.Capability.Names.{
  Engine, Operation, TableFeature, alter_column_type, check_constraints, column_mapping, convert,
  create, deltars, drop_feature, kernel, merge_schema, same_engine, wire,
}
use deltaswamp.Capability.Routing.{
  append_only_forbidden, column_mapping_required, deltars_dry_run_operations,
  deltars_operation_exemptions, deltars_vacuum_dry_run_exempt, kernel_log_write_operations,
  metadata_operations, operation_feature_blockers, read_operations, uniform_stale_writes,
  value_constraint_features,
}
use deltaswamp.Capability.Wire.{all_features, feature_from_wire, same_feature}
use deltaswamp.Prelude.Text.{codes, codes_eq, lower, lower_is, mem, minus, occurs}
use deltaswamp.Router.Features.{active_feature, is_no}
use deltaswamp.Router.Types.{
  EngineImpl, Refusal, Shape, append_only_table, catalog_commits, declares_invariants,
  feature_blocked, foreign_table, has_text, hive_catalog, iceberg_of_record, is_direct, legacy_log,
  log_unread, needs_column_mapping, needs_type_widening, no_external_read, no_external_write,
  not_delta, policy_unvended, refuse_if, text_or, uniform_stale, unwritable_log, version_or_zero,
  view_object,
}
use deltaswamp.Table.{
  RefKind, ResolvedTable, TableType, catalog, foreign, is_catalog_managed, is_delta,
  is_managed_iceberg, is_shared, is_true, is_view_like, path, property,
}

-- `_is_uc_hive_metastore`
unfoldable pub is_uc_hive_metastore : ResolvedTable → Bool
unfolding lower_is
is_uc_hive_metastore table =
    lower_is (text_or "" table.ref_catalog) "hive_metastore"
    && not (elim table.ref_scheme [ none ↦ false | some s ↦ codes_eq (codes s) (codes "hms") ])

abbrev pub is_catalog_ref : RefKind → Bool
is_catalog_ref catalog = true
is_catalog_ref path = false

-- `_warehouse_can_name`
unfoldable pub warehouse_can_name : ResolvedTable → Bool
unfolding lower_is
warehouse_can_name table =
    let scheme = text_or "" table.ref_scheme in
    is_catalog_ref table.ref_kind
    && not (lower_is scheme "hms" || lower_is scheme "hive" || lower_is scheme "glue")

-- `table.ref.kind is RefKind.CATALOG`
unfoldable pub names_catalog : ResolvedTable → Bool
names_catalog table = is_catalog_ref table.ref_kind

-- `_NO_LOG_YET`
unfoldable pub no_log_yet : Operation → Bool
no_log_yet create = true
no_log_yet convert = true
no_log_yet _ = false

-- `_CATALOG_MANAGED_ALTER_OPS`
unfoldable pub catalog_managed_alter_ops : Operation → Bool
unfolding metadata_operations
catalog_managed_alter_ops drop_feature = true
catalog_managed_alter_ops merge_schema = true
catalog_managed_alter_ops operation = metadata_operations operation

abbrev pub is_foreign : Option TableType → Bool
is_foreign (some foreign) = true
is_foreign _ = false

-- `external_read_supported is True`, `... is False`
abbrev pub says_yes : Option Bool → Bool
says_yes (some true) = true
says_yes _ = false

abbrev pub says_no : Option Bool → Bool
says_no (some false) = true
says_no _ = false

-- A view-like table whose manifest does not say that it can be read, or that has no location.
unfoldable pub is_closed_view : ResolvedTable → Bool
unfolding is_view_like has_text
is_closed_view table =
    is_view_like table && not (says_yes table.external_read_supported && has_text table.location)

-- Why only the warehouse can serve this.
unfoldable pub warehouse_only : Operation → ResolvedTable → Option Refusal
warehouse_only operation table =
    if is_foreign table.table_type
    then some foreign_table
    else if is_uc_hive_metastore table
    then some hive_catalog
    else if is_catalog_managed table && catalog_managed_alter_ops operation
    then some catalog_commits
    else none

-- A log that could not be read, where the operation needs one.
unfoldable pub unread_log : Operation → ResolvedTable → Option Refusal
unread_log operation table = elim table.open_error [
  | none ↦ none
  | some error ↦ refuse_if (not (no_log_yet operation)) (log_unread error)
]

-- Why no direct engine may touch this table, whatever the fallback says.
unfoldable pub direct_refusal : Operation → ResolvedTable → Option Refusal
direct_refusal operation table =
    if is_shared table
    then none
    else if not (is_delta table)
    then some not_delta
    else if is_closed_view table
    then some view_object
    else or_else (warehouse_only operation table) (unread_log operation table)

-- Whether credential vending will serve the operation; `none` in the manifest is no refusal.
unfoldable pub vendable : Operation → ResolvedTable → Bool
vendable operation table =
    if says_no table.external_read_supported
    then false
    else not (not (read_operations operation) && says_no table.external_write_supported)

-- The policy that withdraws a table from vending, or the flag that does.
unfoldable pub read_refusal : ResolvedTable → Refusal
unfolding has_text
read_refusal table =
    if has_text table.access_policy
    then policy_unvended (text_or "" table.access_policy)
    else no_external_read

unfoldable pub unvendable_reason : Operation → ResolvedTable → Refusal
unvendable_reason operation table =
    if says_no table.external_read_supported
    then read_refusal table
    else no_external_write operation

-- `"iceberg" in str(properties.get("delta.universalFormat.enabledFormats", "")).lower()`
unfoldable pub has_iceberg_format : ResolvedTable → Bool
unfolding occurs lower property
has_iceberg_format table =
    occurs (codes "iceberg") (lower (property "delta.universalFormat.enabledFormats" "" table))

abbrev pub is_alter_type : Operation → Bool
is_alter_type alter_column_type = true
is_alter_type _ = false

-- The four refusals of `_operation_blocker` that bind each direct engine.
unfoldable pub direct_blocker : Operation → ResolvedTable → Option Refusal
direct_blocker operation table =
    if append_only_forbidden operation && is_true "delta.appendOnly" table
    then some (append_only_table operation)
    else if uniform_stale_writes operation && has_iceberg_format table
    then some (if is_managed_iceberg table then iceberg_of_record else uniform_stale)
    else if column_mapping_required operation && not (active_feature column_mapping table)
    then some (needs_column_mapping operation)
    else if is_alter_type operation && not (is_true "delta.enableTypeWidening" table)
    then some needs_type_widening
    else none

-- The names of `writer_features` that keep the kernel from writing the log, with the features of
-- `exempt` set aside.
unfoldable pub log_blocking : Bool → String → Bool
unfolding feature_from_wire value_constraint_features feature_support same_feature
log_blocking exempt name = elim (feature_from_wire name) [
  | none ↦ true
  | some f ↦
      not (exempt && value_constraint_features f)
      && (is_no (feature_support f).kernel_write || same_feature f check_constraints)
]

-- The refusals of a kernel operation that writes the log without a data commit.
unfoldable pub log_write_blocker : ResolvedTable → EngineImpl → Option Refusal
log_write_blocker table engine =
    let exempt = engine.checkpoints_past in
    let writer_version = version_or_zero table.min_writer_version in
    let unwritable = select (log_blocking exempt) table.writer_features in
    if leb 3 writer_version && leb writer_version 6 && not exempt
    then some (legacy_log writer_version)
    else if not (is_empty unwritable)
    then some (unwritable_log unwritable)
    else refuse_if
        (not exempt
          && (writer_version == 2 || mem "invariants" table.writer_features)
          && engine.has_invariants table)
        declares_invariants

-- `_operation_blocker`
unfoldable pub operation_blocker : Engine → Operation → ResolvedTable → EngineImpl → Option Refusal
operation_blocker kind operation table engine =
    let hit = select (λ f. active_feature f table) (operation_feature_blockers kind operation) in
    let direct = if is_direct kind then direct_blocker operation table else none in
    let log =
      if same_engine kind kernel && kernel_log_write_operations operation
      then log_write_blocker table engine
      else none in
    or_else direct (if is_empty hit then log else some (feature_blocked operation (map wire hit)))

-- The features that delta-rs is not judged on for an operation.
unfoldable pub exempt_features : Operation → Shape → TableFeature → Bool
exempt_features operation shape f =
    deltars_operation_exemptions operation f
    || (deltars_dry_run_operations operation && shape.dry_run && deltars_vacuum_dry_run_exempt f)

-- `_exempted`: the table as an engine should judge it. Without a name to hide the table is the
-- same, since taking nothing away leaves its lists.
unfoldable pub exempted : Engine → Operation → ResolvedTable → Shape → ResolvedTable
exempted kind operation table shape =
    let names = map wire (select (exempt_features operation shape) all_features) in
    if same_engine kind deltars
    then record table {
      reader_features = minus table.reader_features names;
      writer_features = minus table.writer_features names;
    }
    else table
