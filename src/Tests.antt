-- ===== src/Tests.antt =====
-- The theorems at concrete requests, and test data.
mod Predicates
mod References
mod Changes
mod Workers
use deltaswamp.Prelude.{
  All, Bool, List, Option, String, [], all, any, ap, arith, false, none, refl, select, some, sym,
  true, ℕ, ◌*◌, ◌+◌, ◌<◌, ◌↔◌, ◌∷◌, ◌≡◌, ◌≢◌, ◌⊎◌,
}
use deltaswamp.Capability.Consistency.{ReadsWhatItWrites, feature_support_consistent}
use deltaswamp.Capability.Matrix.{feature_dependencies, feature_support}
use deltaswamp.Capability.Names.{
  Engine, Operation, add_feature, append, column_mapping, delete, deltars, iceberg,
  iceberg_compat_v3, kernel, row_tracking, same_engine, sharing, sql, timestamp_ntz, unsupported,
  wire, writer,
}
use deltaswamp.Capability.RoundTrip.{Spells, feature_from_wire_iff}
use deltaswamp.Capability.Routing.{
  append_only_forbidden, column_mapping_required, databricks_only, deltars_dry_run_operations,
  deltars_operation_exemptions, deltars_vacuum_dry_run_exempt, history_exempt,
  kernel_log_write_operations, log_only_exempt, metadata_operations, operation_engines,
  operation_feature_blockers, read_operations, uniform_stale_writes, value_constraint_features,
}
use deltaswamp.Capability.Versions.{implied_features_mono}
use deltaswamp.Capability.Wire.{
  all_features, feature_from_wire, find_feature, implied_features, implied_reader_features,
  implied_writer_features, legacy_reader_features, legacy_writer_features, or_alias, same_feature,
}
use deltaswamp.IdentityColumn.{
  IdentityBlock, IdentityCursor, SchemaField, first_free, identity_spec, in_int64, last_value, mark,
  next_block, reserve_field, slot, slot_block, take, value,
}
use deltaswamp.IdentityColumn.Draws.{Later, now, take-fresh}
use deltaswamp.IdentityColumn.Reserve.{reserve_field-disjoint}
use deltaswamp.IdentityColumn.Slots.{part, slot_disjoint}
use deltaswamp.Prelude.Int.{negsuc, pos, ℤ, ◌*ℤ◌, ◌+ℤ◌}
use deltaswamp.Prelude.Text.{
  codes_eq, drop_text, folds_to, has_prefix, is_space, lookup, lower, lower_is, lstrip, mem, minus,
  occurs, strip, to_lower,
}
use deltaswamp.Router.Calendar.{
  calendar_bound, calendar_refusal, calendar_verdict, data_reads, duckdb_dml, file_rewrites,
  footer_verdict, footerless_rewrite, kernel_evaluates_sql, kernel_filters_sql,
}
use deltaswamp.Router.Catalog.{
  access_policy_forbids, any_occurs, append_only_forbids, auth_open_errors, catalog_level_block,
  data_writes, databricks_block, format_block, geospatial_table, log_block, manifest_block,
  open_error_remedy, query_defined_type, rule_block, sql_reachable, unfixable_open_errors,
  unless_sql, view_block, warehouse_names,
}
use deltaswamp.Router.Choose.{
  Request, answered, ask, blocks, calendar_gate, capability, chain_of, closed_to, conclude,
  consider, direct_gate, direct_stop, file_gate, final_remedy, footer_gate, gate, missing_needs,
  names_fallback, need_refusal_of, needs_gate, only_sql_expressions, raw_capability, request_block,
  routed, router_hints, scrubbed, shared_verdict, shreds_variants, values_gate, verdict_of, walk,
}
use deltaswamp.Router.Closure.{IsClosed, features_added-least}
use deltaswamp.Router.EngineFor.{
  engine_for, engine_for-handed, fallback_required, handed, unreachable,
}
use deltaswamp.Router.Features.{
  active_feature, add_dependencies, close_features, dependencies, dependencies_of, features_added,
  metadata_legacy_writer, named_features, strands_feature_table, strands_legacy_table, writes,
  writes_feature,
}
use deltaswamp.Router.Guarantees.{NamesItself}
use deltaswamp.Router.Order.{count, preference-count}
use deltaswamp.Router.Preference.{
  deletion_vectors_writable, deltars_drops_stats, dv_dml, kernel_first, preference, prefers_kernel,
}
use deltaswamp.Router.Promises.{
  MayTouch, capability_direct_access, capability_engine_known, capability_sql_opt_in,
  capability_table_rules,
}
use deltaswamp.Router.Refusals.{
  catalog_managed_alter_ops, direct_blocker, direct_refusal, exempt_features, exempted,
  has_iceberg_format, is_alter_type, is_closed_view, is_uc_hive_metastore, log_blocking,
  log_write_blocker, names_catalog, no_log_yet, operation_blocker, read_refusal, unread_log,
  unvendable_reason, vendable, warehouse_can_name, warehouse_only,
}
use deltaswamp.Router.Refused.{
  capability-Explains, direct_refusal-catalog_level_block, iceberg_serves,
}
use deltaswamp.Router.Requests.{capability_needs_met, capability_rewrite_checked}
use deltaswamp.Router.Stranding.{
  capability_stays_writable, features_after, locally_writable, metadata_legacy_writer-implied,
}
use deltaswamp.Router.Types.{
  EngineImpl, Probe, Refusal, Router, Shape, foreign_table, has_engine, has_text, is_direct,
  refusals,
}
use deltaswamp.Router.Walk.{Explains}
use deltaswamp.Router.Writable.{WritesName}
use deltaswamp.Table.{
  RefKind, ResolvedTable, TableType, effective_reader_features, effective_writer_features, external,
  features, foreign, is_catalog_managed, is_delta, is_iceberg, is_managed_iceberg, is_shared,
  is_true, is_view_like, known_feature, property, view_type,
}

-- An engine that agrees to everything and has every need.
abbrev willing : Engine → EngineImpl
willing kind = record {
  supports = λ o t s. record { ok = true; engine = some kind; reason = ""; remedy = "" };
  has_need = λ n. true;
  need_refusal = λ ns t. none;
  checkpoints_past = true;
  has_invariants = λ t. false;
  dml_sql = true;
  read_sql = true;
  legacy_calendar_files = some (λ t v s. Probe.found []);
  early_files = some (λ t. Probe.found []);
  writes_files = λ o t s. true;
}

-- A connection with the kernel, delta-rs and the warehouse.
abbrev connection : Bool → Router
connection fallback = record {
  engines = λ kind. some (willing kind);
  allow_sql_fallback = fallback;
  warehouse_catalog = true;
  native_constraints = true;
}

connection-NamesItself : (fallback : Bool) → NamesItself (connection fallback)
connection-NamesItself fallback = record {
  own = λ kind engine o t s e ok.
      ap (λ m. elim m [ none ↦ some kind | some x ↦ (x.supports o t s).engine ]) (sym e);
}

abbrev table_with :
    Option TableType → Option ℕ → List String → List (String × String) → Bool → ResolvedTable
table_with table_type version names entries dated = record {
  ref_kind = RefKind.catalog;
  ref_catalog = some "main";
  ref_scheme = none;
  location = some "s3://bucket/orders";
  table_type = table_type;
  data_source_format = some "DELTA";
  min_reader_version = some 1;
  min_writer_version = version;
  reader_features = [];
  writer_features = names;
  properties = entries;
  has_generated_columns = false;
  has_datetime_columns = dated;
  open_error = none;
  external_read_supported = none;
  external_write_supported = none;
  access_policy = none;
  iceberg_rest_uri = none;
  sharing_profile = none;
}

abbrev orders : ResolvedTable
orders = table_with (some external) (some 2) [] [] true

-- A table on table features.
abbrev featured : ResolvedTable
featured = table_with (some external) (some 7) ("appendOnly" ∷ []) [] false

-- A table of another system, under federation.
abbrev federated : ResolvedTable
federated = table_with (some foreign) (some 2) [] [] false

abbrev plain : List String → List (String × String) → Shape
plain names changes = record {
  feature_names = names;
  property_changes = changes;
  dry_run = false;
  version = none;
  timestamp = none;
}

abbrev request : Operation → ResolvedTable → List String → List Engine → Request
request operation table needs exclude = record {
  operation = operation;
  table = table;
  needs = needs;
  exclude = exclude;
  shape = plain ("deletionVectors" ∷ []) [];
}

abbrev on : Router
on = connection true

abbrev off : Router
off = connection false

abbrev append_orders : Request
append_orders = request append orders ("predicates" ∷ []) []

abbrev delete_orders : Request
delete_orders = request delete orders [] []

abbrev append_by_warehouse : Request
append_by_warehouse = request append orders [] (kernel ∷ deltars ∷ iceberg ∷ [])

abbrev append_by_none : Request
append_by_none = request append orders [] (kernel ∷ deltars ∷ iceberg ∷ sql ∷ [])

abbrev feature_change : Request
feature_change = request add_feature featured [] []

-- That an answer is ok and names the engine.
abbrev Names : Router → Request → Engine → Type 0
Names router q kind = ((capability router q).ok ≡ true) × ((capability router q).engine ≡ some kind)

answers :
    Names on append_orders deltars
    × Names on delete_orders deltars
    × Names on append_by_warehouse sql
    × Names on feature_change deltars
    × ((capability on append_by_none).ok ≡ false)
unfolding any all select drop_text codes_eq to_lower is_space lstrip strip lower lower_is folds_to
    has_prefix occurs mem minus lookup wire same_engine feature_support feature_dependencies
    operation_engines databricks_only operation_feature_blockers append_only_forbidden
    column_mapping_required uniform_stale_writes kernel_log_write_operations
    deltars_dry_run_operations read_operations metadata_operations value_constraint_features
    log_only_exempt history_exempt deltars_operation_exemptions deltars_vacuum_dry_run_exempt
    all_features find_feature or_alias feature_from_wire legacy_reader_features
    legacy_writer_features implied_reader_features implied_writer_features implied_features
    same_feature property features effective_reader_features effective_writer_features known_feature
    is_catalog_managed is_delta is_shared is_iceberg is_managed_iceberg view_type is_view_like
    is_true is_direct has_engine has_text active_feature named_features dependencies_of dependencies
    add_dependencies close_features features_added metadata_legacy_writer writes_feature writes
    strands_feature_table strands_legacy_table is_uc_hive_metastore warehouse_can_name names_catalog
    no_log_yet catalog_managed_alter_ops is_closed_view warehouse_only unread_log direct_refusal
    vendable read_refusal unvendable_reason has_iceberg_format direct_blocker log_blocking
    log_write_blocker operation_blocker exempt_features exempted dv_dml deletion_vectors_writable
    deltars_drops_stats prefers_kernel kernel_first preference file_rewrites data_reads
    calendar_bound calendar_verdict calendar_refusal footer_verdict footerless_rewrite
    kernel_filters_sql duckdb_dml kernel_evaluates_sql query_defined_type data_writes
    append_only_forbids access_policy_forbids geospatial_table any_occurs auth_open_errors
    unfixable_open_errors open_error_remedy warehouse_names sql_reachable format_block view_block
    rule_block unless_sql manifest_block log_block databricks_block catalog_level_block router_hints
    missing_needs only_sql_expressions need_refusal_of shreds_variants closed_to direct_stop
    direct_gate needs_gate values_gate gate calendar_gate footer_gate file_gate verdict_of answered
    ask consider walk final_remedy conclude request_block shared_verdict chain_of blocks routed
    raw_capability names_fallback scrubbed capability
answers = ((refl, refl), (refl, refl), (refl, refl), (refl, refl), refl)

on-NamesItself : NamesItself on
on-NamesItself = connection-NamesItself true

-- What the theorems suppose of the tables.
tables :
    (is_shared orders ≡ false)
    × (is_shared featured ≡ false)
    × (is_shared federated ≡ false)
    × (blocks on append_by_none ≡ none)
    × (sql_reachable off ≡ false)
    × (direct_refusal append federated ≡ some foreign_table)
    × (locally_writable on featured (effective_writer_features featured) ≡ true)
unfolding any all select drop_text codes_eq to_lower is_space lstrip strip lower lower_is folds_to
    has_prefix occurs mem minus lookup wire same_engine feature_support feature_dependencies
    operation_engines databricks_only operation_feature_blockers append_only_forbidden
    column_mapping_required uniform_stale_writes kernel_log_write_operations
    deltars_dry_run_operations read_operations metadata_operations value_constraint_features
    log_only_exempt history_exempt deltars_operation_exemptions deltars_vacuum_dry_run_exempt
    all_features find_feature or_alias feature_from_wire legacy_reader_features
    legacy_writer_features implied_reader_features implied_writer_features implied_features
    same_feature property features effective_reader_features effective_writer_features known_feature
    is_catalog_managed is_delta is_shared is_iceberg is_managed_iceberg view_type is_view_like
    is_true is_direct has_engine has_text active_feature named_features dependencies_of dependencies
    add_dependencies close_features features_added metadata_legacy_writer writes_feature writes
    strands_feature_table strands_legacy_table is_uc_hive_metastore warehouse_can_name names_catalog
    no_log_yet catalog_managed_alter_ops is_closed_view warehouse_only unread_log direct_refusal
    vendable read_refusal unvendable_reason has_iceberg_format direct_blocker log_blocking
    log_write_blocker operation_blocker exempt_features exempted dv_dml deletion_vectors_writable
    deltars_drops_stats prefers_kernel kernel_first preference file_rewrites data_reads
    calendar_bound calendar_verdict calendar_refusal footer_verdict footerless_rewrite
    kernel_filters_sql duckdb_dml kernel_evaluates_sql query_defined_type data_writes
    append_only_forbids access_policy_forbids geospatial_table any_occurs auth_open_errors
    unfixable_open_errors open_error_remedy warehouse_names sql_reachable format_block view_block
    rule_block unless_sql manifest_block log_block databricks_block catalog_level_block router_hints
    missing_needs only_sql_expressions need_refusal_of shreds_variants closed_to direct_stop
    direct_gate needs_gate values_gate gate calendar_gate footer_gate file_gate verdict_of answered
    ask consider walk final_remedy conclude request_block shared_verdict chain_of blocks routed
    raw_capability names_fallback scrubbed capability
tables = (refl, refl, refl, refl, refl, refl, refl)

refused : direct_refusal append federated ≢ none
refused e = cc (tables.5)

capability_direct_access_example : MayTouch append orders
unfolding is_direct
capability_direct_access_example =
    capability_direct_access on append_orders deltars on-NamesItself refl answers.0.0 answers.0.1

capability_sql_opt_in_example :
    (on.allow_sql_fallback ≡ true)
    × (on.warehouse_catalog ≡ true)
    × (warehouse_can_name orders ≡ true)
capability_sql_opt_in_example =
    capability_sql_opt_in on append_by_warehouse on-NamesItself answers.2.0 answers.2.1

capability_table_rules_example :
    ((append_only_forbidden delete ≡ false) ⊎ (is_true "delta.appendOnly" orders ≡ false))
    × ((uniform_stale_writes delete ≡ false) ⊎ (has_iceberg_format orders ≡ false))
    × ((column_mapping_required delete ≡ false) ⊎ (active_feature column_mapping orders ≡ true))
    × ((is_alter_type delete ≡ false) ⊎ (is_true "delta.enableTypeWidening" orders ≡ true))
    × All (λ f. active_feature f orders ≡ false) (operation_feature_blockers deltars delete)
unfolding is_direct
capability_table_rules_example =
    capability_table_rules on delete_orders deltars on-NamesItself refl answers.1.0 answers.1.1

capability_rewrite_checked_example :
    (engine : EngineImpl) × (on.engines deltars ≡ some engine)
    × (Probe.found [] ≡ Probe.found [])
    × ((engine.writes_files delete orders delete_orders.shape ≡ false)
        ⊎ (Probe.found [] ≡ Probe.found []))
unfolding file_rewrites
capability_rewrite_checked_example =
    capability_rewrite_checked on delete_orders (willing kernel) (λ t v s. Probe.found [])
      (λ t. Probe.found []) on-NamesItself answers.1.0 answers.1.1 refl refl refl refl refl

direct_refusal-catalog_level_block_example :
    (catalog_level_block off append federated ≢ none)
    ⊎ ((is_delta federated ≡ false) × (iceberg_serves off federated ≡ true))
direct_refusal-catalog_level_block_example =
    direct_refusal-catalog_level_block off append federated tables.4 tables.2 refused

capability-Explains_example :
    (lines : List (Engine × Refusal)) × ((capability on append_by_none).reason ≡ refusals lines)
    × Explains (consider on append_by_none) (chain_of on append_by_none) lines
capability-Explains_example = capability-Explains on append_by_none tables.0 tables.3 answers.4

engine_for-handed_example :
    (((capability on delete_orders).ok ≡ true)
      × (kind : Engine) × (engine : EngineImpl) × ((capability on delete_orders).engine ≡ some kind)
      × (on.engines kind ≡ some engine)
      × (engine_for on delete_orders ≡ handed kind engine))
    ⊎ (((capability on delete_orders).ok ≡ false)
        × ((engine_for on delete_orders
              ≡ fallback_required
                  (capability on delete_orders).reason
                  (capability on delete_orders).remedy)
            ⊎ (engine_for on delete_orders
                ≡ unreachable
                    (capability on delete_orders).reason
                    (capability on delete_orders).remedy)))
engine_for-handed_example = engine_for-handed on delete_orders on-NamesItself

capability_stays_writable_example :
    (locally_writable on featured (features_after feature_change) ≡ true)
    × (writer : Engine) × (is_direct writer ≡ true)
    × All (WritesName on featured writer) (features_after feature_change)
unfolding is_direct metadata_operations
capability_stays_writable_example =
    capability_stays_writable on feature_change deltars on-NamesItself refl answers.3.0 answers.3.1
      refl (omega arith) tables.6

capability_needs_met_example :
    (engine : EngineImpl) × (on.engines deltars ≡ some engine)
    × ((engine.has_need "predicates" ≡ true)
        ⊎ ((deltars ≡ kernel)
            × (missing_needs append_orders.needs engine ≡ "sql_expressions" ∷ [])))
unfolding mem router_hints
capability_needs_met_example =
    capability_needs_met on append_orders deltars "predicates" on-NamesItself answers.0.0
      answers.0.1 refl refl

capability_engine_known_example :
    (on.engines sql ≢ none)
    × (((has_engine sql append_by_warehouse.exclude ≡ false)
          × (has_engine sql (chain_of on append_by_warehouse) ≡ true))
        ⊎ ((sql ≡ sharing) × (is_shared orders ≡ true)))
capability_engine_known_example =
    capability_engine_known on append_by_warehouse sql on-NamesItself answers.2.0 answers.2.1

features_added-least_example :
    ((s : String)
      → mem s (named_features add_feature (plain ("rowTracking" ∷ []) [])) ≡ true
      → mem s (features_added add_feature (plain ("rowTracking" ∷ []) [])) ≡ true)
    × IsClosed (features_added add_feature (plain ("rowTracking" ∷ []) []))
    × ((inside : String → Bool)
        → ((s d : String) → inside s ≡ true → mem d (dependencies s) ≡ true → inside d ≡ true)
        → ((s : String)
            → mem s (named_features add_feature (plain ("rowTracking" ∷ []) [])) ≡ true
            → inside s ≡ true)
        → (s : String) → mem s (features_added add_feature (plain ("rowTracking" ∷ []) [])) ≡ true
        → inside s ≡ true)
features_added-least_example = features_added-least add_feature (plain ("rowTracking" ∷ []) [])

preference-count_example :
    ((k : Engine)
      → count k (preference on delete orders (operation_engines delete))
        ≡ count k (operation_engines delete))
    × ((has_engine kernel (operation_engines delete) ≡ false)
        ⊎ (prefers_kernel on delete orders ≡ false)
        ⊎ ((rest : List Engine) × (preference on delete orders (operation_engines delete)
              ≡ kernel ∷ rest)))
preference-count_example = preference-count on delete orders

feature_from_wire_iff_example :
    (feature_from_wire "timestampWithoutTimezone" ≡ some timestamp_ntz)
    ↔ Spells "timestampWithoutTimezone" timestamp_ntz
feature_from_wire_iff_example = feature_from_wire_iff "timestampWithoutTimezone" timestamp_ntz

-- Ten values, 5, 3, 1, ..., in slots of three.
abbrev ten : IdentityBlock
ten = record { first = pos 5; step = negsuc 1; count = 10 }

abbrev three : ℤ → IdentityBlock
three start = record { first = start; step = negsuc 1; count = 3 }

slots :
    (slot ten (pos 0) (pos 3) ≡ some (three (pos 5)))
    × (slot ten (pos 2) (pos 3) ≡ some (three (negsuc 6)))
unfolding slot slot_block value ◌+ℤ◌ ◌*ℤ◌
slots = (refl, refl)

moving : ten.step ≢ pos 0
moving e = cc

slot_disjoint_example :
    (0 * 3 + 1 < 10)
    × (value (three (pos 5)) 1 ≡ value ten (0 * 3 + 1))
    × (value (three (pos 5)) 1 ≢ value (three (negsuc 6)) 2)
slot_disjoint_example =
    slot_disjoint ten 0 2 3 1 2 (three (pos 5)) (three (negsuc 6)) slots.0 slots.1 moving
      (omega arith) (omega arith) (omega arith)

abbrev drawn_to : ℕ → IdentityCursor
drawn_to used = record { block = ten; used = used }

draws :
    (take (drawn_to 0) 2 ≡ some (pos 5, drawn_to 2))
    × (take (drawn_to 2) 1 ≡ some (pos 1, drawn_to 3))
    × (take (drawn_to 3) 4 ≡ some (negsuc 0, drawn_to 7))
unfolding take value ◌+ℤ◌ ◌*ℤ◌
draws = (refl, refl, refl)

take-fresh_example :
    (0 + 1 < 10)
    × (value (record { first = pos 5; step = negsuc 1; count = 2 }) 1 ≡ value ten (0 + 1))
    × ((j : ℕ)
        → value (record { first = pos 5; step = negsuc 1; count = 2 }) 1
          ≢ value (record { first = negsuc 0; step = negsuc 1; count = 4 }) j)
take-fresh_example =
    take-fresh (drawn_to 0) (drawn_to 2) (drawn_to 3) (drawn_to 7) 2 4 (pos 5) (negsuc 0) draws.0
      (Later.drawn 1 (pos 1) now draws.1) draws.2 moving 1 (omega arith)

abbrev ident : Option ℤ → SchemaField
ident mark = record {
  field_name = "id";
  field_meta = record {
    meta_start = some (pos 1);
    meta_step = some (pos 2);
    meta_high_water_mark = mark;
    meta_explicit = false;
  };
}

abbrev odd : ℤ → ℕ → IdentityBlock
odd start count = record { first = start; step = pos 2; count = count }

reservations :
    (reserve_field (ident none) 3 ≡ some (ident (some (pos 5)), some (odd (pos 1) 3)))
    × (reserve_field (ident (some (pos 5))) 2 ≡ some (ident (some (pos 9)), some (odd (pos 7) 2)))
unfolding reserve_field next_block last_value mark in_int64 first_free identity_spec value ◌+ℤ◌ ◌*ℤ◌
reservations = (refl, refl)

two_moves : pos 2 ≢ pos 0
two_moves e = cc

reserve_field-disjoint_example :
    (in_int64 (pos 1) ≡ true)
    × (in_int64 (last_value (odd (pos 1) 3)) ≡ true)
    × (ident (some (pos 5)) ≡ mark (ident none) (last_value (odd (pos 1) 3)))
    × (odd (pos 7) 2 ≡ part (odd (pos 1) 3) 3 2)
    × (value (odd (pos 1) 3) 2 ≢ value (odd (pos 7) 2) 0)
reserve_field-disjoint_example =
    reserve_field-disjoint (ident none) (ident (some (pos 5))) (ident (some (pos 9))) 3 2 2 0
      (odd (pos 1) 3) (odd (pos 7) 2) reservations.0 reservations.1 two_moves (omega arith)
