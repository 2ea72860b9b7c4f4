-- ===== src/Router/Promises.antt =====
-- Promises of the router to its caller: consent to the warehouse, exclusion, access, needs.
use deltaswamp.Prelude.{
  All, Bool, Bool-cases, List, Option, [], arith, false, if◌then◌else◌, inl, inr, is_empty, map,
  none, refl, select, some, true, ◌∷◌, ◌≡◌, ◌≢◌, ◌⊎◌,
}
use deltaswamp.Capability.Names.{Engine, Operation, column_mapping, sharing, sql, wire}
use deltaswamp.Capability.Routing.{
  append_only_forbidden, column_mapping_required, operation_feature_blockers, read_operations,
  uniform_stale_writes,
}
use deltaswamp.Router.Answers.{answered-Served, capability-Answered, direct-ne-sharing}
use deltaswamp.Router.Choose.{Request, capability, chain_of, direct_gate, direct_stop}
use deltaswamp.Router.Features.{active_feature, strands_legacy_table}
use deltaswamp.Router.Guarantees.{
  NamesItself, closed_to-exclude, closed_to-sql, gates, or_else-none,
}
use deltaswamp.Router.Refusals.{
  catalog_managed_alter_ops, direct_blocker, direct_refusal, has_iceberg_format, is_alter_type,
  is_closed_view, is_uc_hive_metastore, no_log_yet, operation_blocker, unread_log, vendable,
  warehouse_can_name, warehouse_only,
}
use deltaswamp.Router.Types.{EngineImpl, Refusal, Router, feature_blocked, has_engine, is_direct}
use deltaswamp.Table.{ResolvedTable, foreign, is_catalog_managed, is_delta, is_shared, is_true}

-- If an answer names the SQL warehouse, then the connection opted into the fallback, its catalog
-- is the warehouse's, and the warehouse can address the table. Each engine that agrees
-- names itself.
pub capability_sql_opt_in :
    (router : Router) (q : Request)
    → NamesItself router
    → (capability router q).ok ≡ true
    → (capability router q).engine ≡ some sql
    → (router.allow_sql_fallback ≡ true)
      × (router.warehouse_catalog ≡ true)
      × (warehouse_can_name q.table ≡ true)
capability_sql_opt_in router q names ok e =
    let (_, s) = answered-Served router q sql names (λ own. cc) ok e in
    closed_to-sql router q s.facts.open_to

-- If an answer names an engine, then the connection has it; and either the caller did not exclude
-- it and it stands in the chain of the operation, or it is the sharing engine and the table is
-- shared. Each engine that agrees names itself.
pub capability_engine_known :
    (router : Router) (q : Request) (kind : Engine)
    → NamesItself router
    → (capability router q).ok ≡ true
    → (capability router q).engine ≡ some kind
    → (router.engines kind ≢ none)
      × (((has_engine kind q.exclude ≡ false) × (has_engine kind (chain_of router q) ≡ true))
          ⊎ ((kind ≡ sharing) × (is_shared q.table ≡ true)))
capability_engine_known router q kind names ok e =
    elim (capability-Answered router q kind names ok e) [
      | inl (_, s) ↦ (
        λ absent. cc (s.facts.configured),
        inl (closed_to-exclude router q kind s.facts.open_to, s.in_chain),
      )
      | inr s ↦ (λ absent. cc (s.configured), inr (s.own, s.shared))
    ]

-- What the catalog must say before an engine may touch the files of a table itself.
pub record MayTouch (operation : Operation) (table : ResolvedTable) : Type 0 where
  pub delta : is_delta table ≡ true
  pub open_view : is_closed_view table ≡ false
  pub own : table.table_type ≢ some foreign
  pub in_unity : is_uc_hive_metastore table ≡ false
  pub alterable : (is_catalog_managed table ≡ false) ⊎ (catalog_managed_alter_ops operation ≡ false)
  pub log : (table.open_error ≡ none) ⊎ (no_log_yet operation ≡ true)
  pub readable : table.external_read_supported ≢ some false
  pub writable : (read_operations operation ≡ true) ⊎ (table.external_write_supported ≢ some false)

warehouse_only-none :
    (operation : Operation) (table : ResolvedTable)
    → warehouse_only operation table ≡ none
    → (table.table_type ≢ some foreign)
      × (is_uc_hive_metastore table ≡ false)
      × ((is_catalog_managed table ≡ false) ⊎ (catalog_managed_alter_ops operation ≡ false))
unfolding warehouse_only
warehouse_only-none operation table e = ground arith

unread_log-none :
    (operation : Operation) (table : ResolvedTable)
    → unread_log operation table ≡ none
    → (table.open_error ≡ none) ⊎ (no_log_yet operation ≡ true)
unfolding unread_log
unread_log-none operation table e = ground arith

vendable-true :
    (operation : Operation) (table : ResolvedTable)
    → vendable operation table ≡ true
    → (table.external_read_supported ≢ some false)
      × ((read_operations operation ≡ true) ⊎ (table.external_write_supported ≢ some false))
unfolding vendable
vendable-true operation table e = ground arith

direct_refusal-none :
    (operation : Operation) (table : ResolvedTable)
    → is_shared table ≡ false
    → direct_refusal operation table ≡ none
    → (is_delta table ≡ true)
      × (is_closed_view table ≡ false)
      × (warehouse_only operation table ≡ none)
      × (unread_log operation table ≡ none)
unfolding direct_refusal
direct_refusal-none operation table alone e =
    ground (arith, or_else-none (warehouse_only operation table) (unread_log operation table))

direct_gate-none :
    (router : Router) (q : Request) (kind : Engine)
    → is_direct kind ≡ true
    → direct_gate router q kind ≡ none
    → (direct_refusal q.operation q.table ≡ none)
      × (strands_legacy_table router q.operation q.table q.shape ≡ none)
      × (vendable q.operation q.table ≡ true)
unfolding direct_gate direct_stop
direct_gate-none router q kind direct e = ground (
  arith,
  or_else-none (direct_refusal q.operation q.table)
      (strands_legacy_table router q.operation q.table q.shape),
)

-- What the loop checked of a direct engine that serves.
pub direct_served :
    (router : Router) (q : Request) (kind : Engine)
    → NamesItself router
    → is_direct kind ≡ true
    → (capability router q).ok ≡ true
    → (capability router q).engine ≡ some kind
    → (is_shared q.table ≡ false)
      × (direct_refusal q.operation q.table ≡ none)
      × (strands_legacy_table router q.operation q.table q.shape ≡ none)
      × (vendable q.operation q.table ≡ true)
direct_served router q kind names direct ok e =
    let (alone, s) = answered-Served router q kind names (direct-ne-sharing kind direct) ok e in
    let (refusal, kept, vend) =
      direct_gate-none router q kind direct
        (gates router q kind s.facts.engine s.facts.through).0 in
    (alone, refusal, kept, vend)

-- If an answer names the kernel or delta-rs, then the catalog's metadata lets an engine from
-- outside touch the files: the table is Delta, no view without readable files, not foreign and not
-- in the legacy hive_metastore catalog; the operation is no metadata change of a catalog-managed
-- table; the log could be read or is not needed yet; and the manifest withholds neither reads nor,
-- for an operation that is no read, writes. Each engine that agrees names itself.
pub capability_direct_access :
    (router : Router) (q : Request) (kind : Engine)
    → NamesItself router
    → is_direct kind ≡ true
    → (capability router q).ok ≡ true
    → (capability router q).engine ≡ some kind
    → MayTouch q.operation q.table
capability_direct_access router q kind names direct ok e =
    let (alone, refusal, _, vend) = direct_served router q kind names direct ok e in
    let (delta, open_view, only, log) = direct_refusal-none q.operation q.table alone refusal in
    let (own, in_unity, alterable) = warehouse_only-none q.operation q.table only in
    let (readable, writable) = vendable-true q.operation q.table vend in
    record {
      delta = delta;
      open_view = open_view;
      own = own;
      in_unity = in_unity;
      alterable = alterable;
      log = unread_log-none q.operation q.table log;
      readable = readable;
      writable = writable;
    }

nil_of_none :
    {A : Type 0} (r : List A → Refusal) (o : Option Refusal) (hit : List A)
    → (if is_empty hit then o else some (r hit)) ≡ none
    → hit ≡ []
nil_of_none r o [] e = refl
nil_of_none r o (x ∷ hit) e = cc

select-nil :
    {A : Type 0} (p : A → Bool) (xs : List A) → select p xs ≡ [] → All (λ x. p x ≡ false) xs
unfolding select
select-nil p [] e = tt
select-nil p (x ∷ xs) e = elim (Bool-cases (p x)) [
  | inl yea ↦ absurd (cc (rw yea at e))
  | inr nay ↦ (nay, select-nil p xs (rw nay at e))
]

operation_blocker-none :
    (kind : Engine) (operation : Operation) (table : ResolvedTable) (engine : EngineImpl)
    → is_direct kind ≡ true
    → operation_blocker kind operation table engine ≡ none
    → (direct_blocker operation table ≡ none)
      × All (λ f. active_feature f table ≡ false) (operation_feature_blockers kind operation)
unfolding operation_blocker
operation_blocker-none kind operation table engine direct e =
    let (d, rest) = or_else-none _ _ (rw direct at e) in
    (
      d,
      select-nil (λ f. active_feature f table) (operation_feature_blockers kind operation)
          (nil_of_none (λ hit. feature_blocked operation (map wire hit)) _ _ rest),
    )

direct_blocker-none :
    (operation : Operation) (table : ResolvedTable)
    → direct_blocker operation table ≡ none
    → ((append_only_forbidden operation ≡ false) ⊎ (is_true "delta.appendOnly" table ≡ false))
      × ((uniform_stale_writes operation ≡ false) ⊎ (has_iceberg_format table ≡ false))
      × ((column_mapping_required operation ≡ false) ⊎ (active_feature column_mapping table ≡ true))
      × ((is_alter_type operation ≡ false) ⊎ (is_true "delta.enableTypeWidening" table ≡ true))
unfolding direct_blocker
direct_blocker-none operation table e = ground arith

-- If an answer names the kernel or delta-rs, then no rule of the table forbids the operation to
-- it: an append-only table keeps its rows (no OVERWRITE, replaceWhere, DELETE, UPDATE or RESTORE),
-- a table with Iceberg metadata takes no data write, a column is renamed or dropped only under
-- column mapping, a column type is changed only where type widening is enabled, and no feature that
-- blocks the operation on that engine is active. Each engine that agrees names itself.
pub capability_table_rules :
    (router : Router) (q : Request) (kind : Engine)
    → NamesItself router
    → is_direct kind ≡ true
    → (capability router q).ok ≡ true
    → (capability router q).engine ≡ some kind
    → ((append_only_forbidden q.operation ≡ false) ⊎ (is_true "delta.appendOnly" q.table ≡ false))
      × ((uniform_stale_writes q.operation ≡ false) ⊎ (has_iceberg_format q.table ≡ false))
      × ((column_mapping_required q.operation ≡ false)
          ⊎ (active_feature column_mapping q.table ≡ true))
      × ((is_alter_type q.operation ≡ false) ⊎ (is_true "delta.enableTypeWidening" q.table ≡ true))
      × All (λ f. active_feature f q.table ≡ false) (operation_feature_blockers kind q.operation)
capability_table_rules router q kind names direct ok e =
    let (_, s) = answered-Served router q kind names (direct-ne-sharing kind direct) ok e in
    let (_, _, _, blocker) = gates router q kind s.facts.engine s.facts.through in
    let (rules, inactive) =
      operation_blocker-none kind q.operation q.table s.facts.engine direct blocker in
    let (kept, fresh, mapped, widened) = direct_blocker-none q.operation q.table rules in
    (kept, fresh, mapped, widened, inactive)
