-- ===== src/Router/Calendar.antt =====
-- The data files that delta-rs must not read or rewrite (python/deltaswamp/router.py:
-- Router._calendar_refusal, Router._footerless_rewrite and Router._kernel_filters_sql).
use deltaswamp.Prelude.{
  Bool, List, Option, String, [], false, if◌then◌else◌, is_some, none, not, some, true, ℕ, ◌&&◌,
  ◌||◌, ◌∷◌,
}
use deltaswamp.Capability.Names.{
  Engine, Operation, cdf, delete, incremental, kernel, merge, optimize, replace_where, same_engine,
  scan, time_travel, update, zorder,
}
use deltaswamp.Prelude.Text.{mem}
use deltaswamp.Router.Types.{
  EngineImpl, Probe, Refusal, Router, Shape, calendar_unchecked, early_rewrite, footer_unchecked,
  found, raised, shifted_read, shifted_rewrite,
}
use deltaswamp.Table.{ResolvedTable}

-- `_FILE_REWRITES`
unfoldable pub file_rewrites : Operation → Bool
file_rewrites delete = true
file_rewrites update = true
file_rewrites merge = true
file_rewrites replace_where = true
file_rewrites optimize = true
file_rewrites zorder = true
file_rewrites _ = false

-- `_DATA_READS`
unfoldable pub data_reads : Operation → Bool
data_reads scan = true
data_reads time_travel = true
data_reads cdf = true
data_reads incremental = true
data_reads _ = false

-- `_CALENDAR_BOUND`
unfoldable pub calendar_bound : Operation → Bool
calendar_bound operation = file_rewrites operation || data_reads operation

-- What the found files mean for a read and for a rewrite.
unfoldable pub calendar_verdict : Bool → Probe → Option Refusal
calendar_verdict true (raised error) = none
calendar_verdict false (raised error) = some (calendar_unchecked error)
calendar_verdict reading (found []) = none
calendar_verdict true (found (f ∷ fs)) = some (shifted_read (f ∷ fs))
calendar_verdict false (found (f ∷ fs)) = some (shifted_rewrite (f ∷ fs))

-- The check of the kernel engine, where there is one.
abbrev pub calendar_check :
    Option EngineImpl → Option (ResolvedTable → Option ℕ → Option String → Probe)
calendar_check none = none
calendar_check (some engine) = engine.legacy_calendar_files

-- Why delta-rs must not read or rewrite this table's files. The version and timestamp of the call
-- are passed on for a read only.
unfoldable pub calendar_refusal : Router → ResolvedTable → Operation → Shape → Option Refusal
calendar_refusal router table operation shape =
    let reading = not (file_rewrites operation) in
    if not table.has_datetime_columns then none else elim (calendar_check (router.engines kernel)) [
      | none ↦ none
      | some check ↦
          calendar_verdict reading
            (if reading then check table shape.version shape.timestamp else check table none none)
    ]

unfoldable pub footer_verdict : Probe → Option Refusal
footer_verdict (raised error) = some (footer_unchecked error)
footer_verdict (found []) = none
footer_verdict (found (f ∷ fs)) = some (early_rewrite (f ∷ fs))

abbrev pub early_check : Option EngineImpl → Option (ResolvedTable → Probe)
early_check none = none
early_check (some engine) = engine.early_files

-- Why delta-rs must not rewrite this table's files, if the footer is why.
unfoldable pub footerless_rewrite :
    Router → ResolvedTable → Operation → Shape → EngineImpl → Option Refusal
footerless_rewrite router table operation shape engine =
    if not table.has_datetime_columns then none else elim (early_check (router.engines kernel)) [
      | none ↦ none
      | some check ↦
          if not (engine.writes_files operation table shape)
          then none
          else footer_verdict (check table)
    ]

abbrev pub is_snapshot_read : Operation → Bool
is_snapshot_read scan = true
is_snapshot_read time_travel = true
is_snapshot_read _ = false

-- Whether the kernel reads this table and filters by SQL outside its grammar.
unfoldable pub kernel_filters_sql :
    Router → Engine → Operation → ResolvedTable → List String → EngineImpl → Shape → Bool
kernel_filters_sql router kind operation table needs engine shape =
    same_engine kind kernel
    && is_snapshot_read operation
    && not (mem "distributed_scan" needs)
    && engine.read_sql
    && is_some (calendar_refusal router table operation shape)

-- `_DUCKDB_DML`
unfoldable pub duckdb_dml : Operation → Bool
duckdb_dml delete = true
duckdb_dml update = true
duckdb_dml replace_where = true
duckdb_dml _ = false

-- `_kernel_evaluates_sql`
unfoldable pub kernel_evaluates_sql : Engine → Operation → List String → EngineImpl → Bool
kernel_evaluates_sql kind operation needs engine =
    same_engine kind kernel
    && duckdb_dml operation
    && mem "duckdb_sql" needs
    && not (mem "spark_sql" needs)
    && engine.dml_sql
