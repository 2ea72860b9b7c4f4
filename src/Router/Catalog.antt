-- ===== src/Router/Catalog.antt =====
-- Refusals decidable from catalog metadata alone, before any log is read (python/deltaswamp/
-- router.py: Router._catalog_level_block, and the helpers it calls).
use deltaswamp.Prelude.{
  Bool, List, Option, String, [], false, if◌then◌else◌, is_some, none, not, or_else, some, true, ℕ,
  ◌&&◌, ◌||◌, ◌∷◌,
}
use deltaswamp.Capability.Names.{
  Operation, append, cdf, delete, iceberg, merge, merge_schema, overwrite, replace_where, restore,
  sharing, sql, time_travel, update,
}
use deltaswamp.Capability.Routing.{databricks_only, read_operations}
use deltaswamp.Prelude.Text.{codes, lookup, lower, mem, occurs}
use deltaswamp.Router.Refusals.{
  is_closed_view, names_catalog, no_log_yet, read_refusal, says_no, says_yes, warehouse_can_name,
  warehouse_only,
}
use deltaswamp.Router.Types.{
  Blocked, Refusal, Remedy, Router, append_only_rows, blocked, check_location, databricks_elsewhere,
  databricks_operation, databricks_unnamed, fix_authentication, geospatial_column, has_text,
  iceberg_format, install_iceberg, install_sharing, no_external_write, no_file_surface,
  no_sharing_engine, nothing, other_format, policy_history, query_defined, query_fallback,
  refuse_if, register, sql_fallback, text_or, unreadable, unset_append_only, unvendable,
  warehouse_required, write_sources,
}
use deltaswamp.Table.{
  ResolvedTable, TableType, features, is_delta, is_iceberg, is_shared, is_true, materialized_view,
  metric_view, view,
}

-- `_QUERY_DEFINED`
unfoldable pub query_defined_type : Option TableType → Bool
query_defined_type (some view) = true
query_defined_type (some materialized_view) = true
query_defined_type (some metric_view) = true
query_defined_type _ = false

abbrev pub is_materialized : Option TableType → Bool
is_materialized (some materialized_view) = true
is_materialized _ = false

-- `_DATA_WRITES`
unfoldable pub data_writes : Operation → Bool
data_writes append = true
data_writes overwrite = true
data_writes replace_where = true
data_writes delete = true
data_writes update = true
data_writes merge = true
data_writes merge_schema = true
data_writes restore = true
data_writes _ = false

-- `_APPEND_ONLY_FORBIDS`
unfoldable pub append_only_forbids : Operation → Bool
append_only_forbids delete = true
append_only_forbids update = true
append_only_forbids overwrite = true
append_only_forbids replace_where = true
append_only_forbids _ = false

-- `_ACCESS_POLICY_FORBIDS`
unfoldable pub access_policy_forbids : Operation → Bool
access_policy_forbids time_travel = true
access_policy_forbids cdf = true
access_policy_forbids restore = true
access_policy_forbids _ = false

-- `_geospatial`
unfoldable pub geospatial_table : ResolvedTable → Bool
unfolding mem features lookup occurs
geospatial_table table =
    let error = codes (text_or "" table.open_error) in
    mem "geospatial" (features table)
    || is_some (lookup "delta.feature.geospatial" table.properties)
    || occurs (codes "type: 'geometry(") error
    || occurs (codes "type: 'geography(") error

unfoldable pub any_occurs : List String → List ℕ → Bool
unfolding occurs
any_occurs [] error = false
any_occurs (m ∷ ms) error = occurs (codes m) error || any_occurs ms error

-- `_AUTH_OPEN_ERRORS`
unfoldable pub auth_open_errors : List String
auth_open_errors =
    "could not configure databricks authentication" ∷ "the databricks credentials were rejected"
    ∷ "cannot reach the databricks host" ∷ []

-- `_UNFIXABLE_OPEN_ERRORS`
unfoldable pub unfixable_open_errors : List String
unfixable_open_errors =
    "tablenotfound" ∷ "not a delta table" ∷ "no such file or directory" ∷ "does not exist"
    ∷ "no files in log segment" ∷ "corrupt" ∷ "invalid json" ∷ "failed to parse"
    ∷ "has no such version" ∷ "expected contiguous commit files" ∷ "no table metadata found"
    ∷ "no protocol found" ∷ "invalid protocol action" ∷ "unmasked nulls" ∷ []

-- `_open_error_remedy`
unfoldable pub open_error_remedy : ResolvedTable → Bool → Remedy
unfolding any_occurs auth_open_errors unfixable_open_errors lower warehouse_can_name
open_error_remedy table warehouse =
    let error = lower (text_or "" table.open_error) in
    if any_occurs auth_open_errors error
    then fix_authentication
    else if any_occurs unfixable_open_errors error
    then check_location (text_or "" table.location)
    else if warehouse && warehouse_can_name table
    then sql_fallback
    else nothing

-- `Router._warehouse_names` and `Router._fallback_remedy`
unfoldable pub warehouse_names : Router → ResolvedTable → Bool
unfolding warehouse_can_name
warehouse_names router table = router.warehouse_catalog && warehouse_can_name table

abbrev pub fallback_remedy : Router → ResolvedTable → Remedy
fallback_remedy router table = if warehouse_names router table then sql_fallback else nothing

-- Whether a SQL warehouse is actually reachable for this connection.
unfoldable pub sql_reachable : Router → Bool
sql_reachable router =
    router.allow_sql_fallback && router.warehouse_catalog && is_some (router.engines sql)

-- A table that is not Delta.
unfoldable pub format_block : Router → Operation → ResolvedTable → Option Blocked
format_block router operation table =
    let fmt = text_or "unknown" table.data_source_format in
    if is_iceberg table && is_some (router.engines iceberg) && has_text table.iceberg_rest_uri
    then none
    else if sql_reachable router
    then none
    else if is_iceberg table
    then some (blocked (iceberg_format fmt (has_text table.iceberg_rest_uri)) install_iceberg)
    else some (
        blocked (other_format fmt)
          (if warehouse_names router table then query_fallback else nothing))

-- A view-like table with nothing to read from outside.
unfoldable pub view_block : Router → Operation → ResolvedTable → Option Blocked
view_block router operation table =
    if sql_reachable router
    then none
    else some (
        blocked (no_file_surface table.table_type (says_yes table.external_read_supported))
          (fallback_remedy router table))

-- What the table itself forbids, whatever the engine.
unfoldable pub rule_block : Operation → ResolvedTable → Option Blocked
rule_block operation table =
    if append_only_forbids operation && is_true "delta.appendOnly" table
    then some (blocked append_only_rows unset_append_only)
    else refuse_if (has_text table.access_policy && access_policy_forbids operation)
        (blocked (policy_history (text_or "" table.access_policy)) nothing)

-- A refusal that holds unless the warehouse is reachable.
unfoldable pub unless_sql : Router → Operation → ResolvedTable → Option Refusal → Option Blocked
unless_sql router operation table none = none
unless_sql router operation table (some r) =
    refuse_if (not (sql_reachable router))
      (blocked (warehouse_required r) (fallback_remedy router table))

-- The two flags of the capability manifest.
unfoldable pub manifest_block : Router → Operation → ResolvedTable → Option Blocked
manifest_block router operation table =
    if says_no table.external_read_supported && not (sql_reachable router)
    then some (blocked (unvendable (read_refusal table)) (fallback_remedy router table))
    else refuse_if
        (not (read_operations operation)
          && says_no table.external_write_supported
          && not (sql_reachable router))
        (blocked (unvendable (no_external_write operation)) (fallback_remedy router table))

-- A log that could not be opened.
unfoldable pub log_block : Router → Operation → ResolvedTable → Option Blocked
log_block router operation table = elim table.open_error [
  | none ↦ none
  | some error ↦ refuse_if (not (no_log_yet operation) && not (sql_reachable router)) (
      blocked (if geospatial_table table then geospatial_column else unreadable error)
        (open_error_remedy table router.warehouse_catalog))
]

-- An operation that only Databricks implements.
unfoldable pub databricks_block : Router → Operation → ResolvedTable → Option Blocked
databricks_block router operation table =
    if not (databricks_only operation)
    then none
    else if not router.warehouse_catalog && names_catalog table
    then some (blocked (databricks_elsewhere operation) nothing)
    else if not (warehouse_can_name table)
    then some (blocked (databricks_unnamed operation) register)
    else refuse_if (not router.allow_sql_fallback)
        (blocked (databricks_operation operation) (fallback_remedy router table))

-- `_catalog_level_block`
unfoldable pub catalog_level_block : Router → Operation → ResolvedTable → Option Blocked
catalog_level_block router operation table =
    if is_shared table
    then refuse_if (not (is_some (router.engines sharing)))
        (blocked no_sharing_engine install_sharing)
    else if not (is_delta table)
    then format_block router operation table
    else if query_defined_type table.table_type && data_writes operation
    then some (
        blocked (query_defined table.table_type operation)
          (write_sources (is_materialized table.table_type)))
    else if is_closed_view table
    then view_block router operation table
    else or_else (rule_block operation table) (
        or_else (unless_sql router operation table (warehouse_only operation table)) (
          or_else (manifest_block router operation table)
            (or_else (log_block router operation table) (databricks_block router operation table))))
