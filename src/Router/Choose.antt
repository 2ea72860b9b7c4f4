-- ===== src/Router/Choose.antt =====
-- Choosing an engine (python/deltaswamp/router.py: Router.capability, Router._capability,
-- Router.engine_for and Router.capabilities).
use mathlib.Core.Option
use text.Mathlib.Text.{◌==◌ as str_eq}
use deltaswamp.Prelude.{
  Bool, List, Option, String, [], false, if◌then◌else◌, is_empty, none, not, or_else, select, some,
  true, ◌&&◌, ◌||◌, ◌∷◌,
}
use deltaswamp.Capability.Names.{Engine, Operation, deltars, same_engine, sharing, sql}
use deltaswamp.Capability.Routing.{operation_engines}
use deltaswamp.Prelude.Text.{codes, lower_is, mem, occurs}
use deltaswamp.Router.Calendar.{
  calendar_bound, calendar_refusal, data_reads, file_rewrites, footerless_rewrite,
  kernel_evaluates_sql, kernel_filters_sql,
}
use deltaswamp.Router.Catalog.{catalog_level_block}
use deltaswamp.Router.Features.{strands_legacy_table}
use deltaswamp.Router.Preference.{preference}
use deltaswamp.Router.Refusals.{
  direct_refusal, exempted, names_catalog, operation_blocker, unvendable_reason, vendable,
  warehouse_can_name,
}
use deltaswamp.Router.Types.{
  Blocked, Capability, EngineImpl, Refusal, Remedy, Router, Shape, Verdict, advised, blocked,
  check_location, collated, drop_identity, engine_said, fallback_disabled, foreign_catalog,
  has_engine, identity_given, identity_updated, insert_only, is_direct, lacks, merge_removes_rows,
  name_columns, need_refused, no_warehouse_name, not_configured, nothing, query_fallback, refusals,
  refuse, refuse_if, register, route_fallback, said, sharing_lacks, shreds, sql_fallback, tried,
}
use deltaswamp.Table.{ResolvedTable, features, is_shared, is_true, property}

-- `_ROUTER_HINTS`
unfoldable pub router_hints : List String
router_hints =
    "collation_free" ∷ "variant_free" ∷ "removes_rows" ∷ "conditional_insert_with_feed"
    ∷ "early_datetimes" ∷ "duckdb_sql" ∷ []

-- The needs that an engine has no `supports_...` attribute for, router hints aside.
unfoldable pub missing_needs : List String → EngineImpl → List String
unfolding select mem router_hints
missing_needs needs engine =
    select (λ need. not (mem need router_hints) && not (engine.has_need need)) needs

-- `missing == ["sql_expressions"]`
unfoldable pub only_sql_expressions : List String → Bool
only_sql_expressions (need ∷ []) = str_eq need "sql_expressions"
only_sql_expressions _ = false

-- `if needs and need_refusal: need_refusal(needs, table)`
unfoldable pub need_refusal_of : List String → ResolvedTable → EngineImpl → Option String
need_refusal_of [] table engine = none
need_refusal_of (n ∷ ns) table engine = engine.need_refusal (n ∷ ns) table

-- `shreds_variants`
unfoldable pub shreds_variants : ResolvedTable → Bool
unfolding property lower_is
shreds_variants table = lower_is (property "delta.enableVariantShredding" "" table) "true"

-- What one call asks of the router.
pub record Request : Type 0 where
  pub operation : Operation
  pub table : ResolvedTable
  pub needs : List String
  pub exclude : List Engine
  pub shape : Shape

module _ (router : Router) (q : Request) where
  open q use {operation, table, needs, exclude, shape}

  -- What keeps the loop from looking at an engine at all: the caller left it out, or it is the
  -- warehouse and cannot be used.
  unfoldable pub closed_to : Engine → Option Refusal
  closed_to kind =
      if has_engine kind exclude
      then some tried
      else if same_engine kind sql && not router.warehouse_catalog
      then some foreign_catalog
      else if same_engine kind sql && not (warehouse_can_name table)
      then some no_warehouse_name
      else refuse_if (same_engine kind sql && not router.allow_sql_fallback) fallback_disabled

  -- `direct_refusal` of the loop.
  unfoldable pub direct_stop : Option Refusal
  direct_stop =
      or_else (direct_refusal operation table) (strands_legacy_table router operation table shape)

  -- The refusals that bind a direct engine.
  unfoldable pub direct_gate : Engine → Option Refusal
  direct_gate kind =
      if is_direct kind
      then or_else direct_stop
          (refuse_if (not (vendable operation table)) (unvendable_reason operation table))
      else none

  -- The needs of the request, in general and for this table.
  unfoldable pub needs_gate : Engine → EngineImpl → Option Refusal
  needs_gate kind engine =
      let missing = missing_needs needs engine in
      let waived =
        only_sql_expressions missing
        && (kernel_filters_sql router kind operation table needs engine shape
            || kernel_evaluates_sql kind operation needs engine) in
      if not (is_empty missing) && not waived
      then some (lacks missing)
      else Option.map need_refused (need_refusal_of needs table engine)

  -- Values that a direct engine would compare or decode wrongly.
  unfoldable pub values_gate : Engine → Option Refusal
  values_gate kind =
      if mem "predicates" needs
        && not (mem "collation_free" needs)
        && is_direct kind
        && (mem "collations" (features table) || mem "collations-preview" (features table))
      then some collated
      else refuse_if
          (is_direct kind
            && data_reads operation
            && not (mem "variant_free" needs)
            && shreds_variants table)
          shreds

  -- Everything that is settled before the engine itself is asked.
  unfoldable pub gate : Engine → EngineImpl → Option Refusal
  gate kind engine = or_else (direct_gate kind) (
      or_else (needs_gate kind engine)
        (or_else (values_gate kind) (operation_blocker kind operation table engine)))

  -- What delta-rs would misread, checked once it would serve.
  unfoldable pub calendar_gate : Engine → Option Refusal
  calendar_gate kind =
      if same_engine kind deltars && calendar_bound operation
      then calendar_refusal router table operation shape
      else none

  -- What delta-rs would copy into files that Databricks reads shifted.
  unfoldable pub footer_gate : Engine → EngineImpl → Option Refusal
  footer_gate kind engine =
      if same_engine kind deltars && file_rewrites operation
      then footerless_rewrite router table operation shape engine
      else none

  unfoldable pub file_gate : Engine → EngineImpl → Option Refusal
  file_gate kind engine = or_else (calendar_gate kind) (footer_gate kind engine)

  -- The engine's own verdict on the table as it should judge it.
  unfoldable pub verdict_of : Engine → EngineImpl → Verdict
  verdict_of kind engine = engine.supports operation (exempted kind operation table shape) shape

-- One turn of the loop: the engine serves, or it is passed over, with the remedy that the
-- warehouse named, if it did.
pub data Turn : Type 0 where
  serves : Verdict → Turn
  passed : Refusal → String → Turn

-- Text that is worth keeping as the warehouse's remedy.
abbrev sql_advice : Engine → Verdict → String
sql_advice sql v = v.remedy
sql_advice _ v = ""

-- `continue` on a refusal.
abbrev pub after_gate : Option Refusal → Turn → Turn
after_gate (some r) turn = passed r ""
after_gate none turn = turn

-- The engine has been asked.
unfoldable pub answered : Engine → Verdict → Option Refusal → Turn
answered kind v file_stop =
    if v.ok then after_gate file_stop (serves v) else passed (said v.reason) (sql_advice kind v)

-- The turn of an engine that the connection has, or lacks.
unfoldable pub ask : Router → Request → Engine → Option EngineImpl → Turn
ask router q kind none = passed not_configured ""
ask router q kind (some engine) =
    after_gate (gate router q kind engine)
      (answered kind (verdict_of router q kind engine) (file_gate router q kind engine))

unfoldable pub consider : Router → Request → Engine → Turn
consider router q kind =
    after_gate (closed_to router q kind) (ask router q kind (router.engines kind))

-- How the loop ends.
pub data Walk : Type 0 where
  reached : Verdict → Walk
  exhausted : List (Engine × Refusal) → String → Walk

-- `reasons.append(...)`, with the remedy kept if a later turn names none.
abbrev pub after_pass : Engine → Refusal → String → Walk → Walk
after_pass kind r advice (reached v) = reached v
after_pass kind r advice (exhausted lines later) =
    exhausted ((kind, r) ∷ lines) (if str_eq later "" then advice else later)

-- `return result`, or `continue`.
abbrev pub after_turn : Engine → Turn → Walk → Walk
after_turn kind (serves v) rest = reached v
after_turn kind (passed r advice) rest = after_pass kind r advice rest

unfoldable pub walk : (Engine → Turn) → List Engine → Walk
walk turn [] = exhausted [] ""
walk turn (kind ∷ kinds) = after_turn kind (turn kind) (walk turn kinds)

-- The remedy of a request that no engine serves.
unfoldable pub final_remedy : Router → Request → List Engine → String → Remedy
unfolding has_engine is_shared names_catalog warehouse_can_name
final_remedy router q chain advice =
    if not (has_engine sql chain) || is_shared q.table
    then advised advice
    else if not router.warehouse_catalog && names_catalog q.table
    then nothing
    else if not (warehouse_can_name q.table)
    then register
    else if not router.allow_sql_fallback
    then route_fallback
    else advised advice

-- An engine's verdict as the router hands it on.
abbrev pub of_verdict : Operation → Verdict → Capability
of_verdict operation v = record {
  operation = operation;
  ok = v.ok;
  engine = v.engine;
  reason = engine_said v.reason;
  remedy = advised v.remedy;
}

unfoldable pub conclude : Router → Request → List Engine → Walk → Capability
conclude router q chain (reached v) = of_verdict q.operation v
conclude router q chain (exhausted lines advice) =
    refuse q.operation (refusals lines) (final_remedy router q chain advice)

-- The refusals that follow the catalog's: what the data or the clauses of the request break.
unfoldable pub request_block : Request → Option Blocked
request_block q =
    if mem "identity_insert" q.needs
    then some (blocked identity_given drop_identity)
    else if mem "identity_update" q.needs
    then some (blocked identity_updated name_columns)
    else refuse_if (mem "removes_rows" q.needs && is_true "delta.appendOnly" q.table)
        (blocked merge_removes_rows insert_only)

-- The verdict of the sharing engine is the whole answer for a shared table.
unfoldable pub shared_verdict : Request → EngineImpl → Capability
shared_verdict q engine =
    let unmet = missing_needs q.needs engine in
    if is_empty unmet
    then of_verdict q.operation (engine.supports q.operation q.table q.shape)
    else refuse q.operation (sharing_lacks unmet) nothing

abbrev pub sharing_engine : Router → ResolvedTable → Option EngineImpl
sharing_engine router table = if is_shared table then router.engines sharing else none

-- The engines of the operation in the order they are asked.
unfoldable pub chain_of : Router → Request → List Engine
chain_of router q = preference router q.operation q.table (operation_engines q.operation)

-- What the catalog's metadata, or the request itself, rules out.
unfoldable pub blocks : Router → Request → Option Blocked
blocks router q = or_else (catalog_level_block router q.operation q.table) (request_block q)

-- The answer of the sharing engine, or of the loop.
unfoldable pub routed : Router → Request → Option EngineImpl → Capability
routed router q (some engine) = shared_verdict q engine
routed router q none =
    conclude router q (operation_engines q.operation) (walk (consider router q) (chain_of router q))

abbrev pub unless_blocked : Operation → Option Blocked → Capability → Capability
unless_blocked operation (some b) c = refuse operation b.reason b.remedy
unless_blocked operation none c = c

-- `_capability`
unfoldable pub raw_capability : Router → Request → Capability
raw_capability router q =
    unless_blocked q.operation (blocks router q) (routed router q (sharing_engine router q.table))

-- `"allow_sql_fallback" in remedy`
unfoldable pub names_fallback : Remedy → Bool
unfolding occurs
names_fallback sql_fallback = true
names_fallback query_fallback = true
names_fallback route_fallback = true
names_fallback register = true
names_fallback (check_location place) = occurs (codes "allow_sql_fallback") (codes place)
names_fallback (advised text) = occurs (codes "allow_sql_fallback") (codes text)
names_fallback _ = false

-- `_scrubbed`
unfoldable pub scrubbed : Router → Capability → Capability
scrubbed router c =
    if router.warehouse_catalog || not (names_fallback c.remedy)
    then c
    else record c { remedy = nothing }

-- `Router.capability`
unfoldable pub capability : Router → Request → Capability
capability router q = scrubbed router (raw_capability router q)
