-- ===== src/Router/Refused.antt =====
-- A refusal explains every engine, and the catalog's refusals cover those of the direct engines.
use deltaswamp.Prelude.{
  Bool, List, ap, arith, false, is_some, none, refl, sym, true, ◌&&◌, ◌∙◌, ◌≡◌, ◌≢◌, ◌⊎◌,
}
use deltaswamp.Capability.Names.{Engine, Operation, iceberg}
use deltaswamp.Capability.Routing.{operation_engines}
use deltaswamp.Router.Catalog.{
  catalog_level_block, format_block, log_block, sql_reachable, unless_sql, view_block,
}
use deltaswamp.Router.Choice.{raw_capability-loop, scrubbed-engine, sharing_engine-none}
use deltaswamp.Router.Choose.{
  Request, Walk, blocks, capability, chain_of, conclude, consider, exhausted, raw_capability,
  reached, walk,
}
use deltaswamp.Router.Refusals.{direct_refusal, unread_log}
use deltaswamp.Router.Serving.{consider-Agreed}
use deltaswamp.Router.Types.{Capability, Refusal, Router, Verdict, has_text, refusals}
use deltaswamp.Router.Walk.{Explains, WalkExplains, walk-WalkExplains, walk-reached}
use deltaswamp.Table.{ResolvedTable, is_delta, is_iceberg, is_shared}

refused_lines :
    (router : Router) (q : Request) (chain : List Engine) (w : Walk) (c : Capability)
    → WalkExplains (consider router q) (chain_of router q) w
    → c ≡ conclude router q chain w
    → c.ok ≡ false
    → ((v : Verdict) → w ≡ reached v → v.ok ≡ true)
    → (lines : List (Engine × Refusal)) × (c.reason ≡ refusals lines)
      × Explains (consider router q) (chain_of router q) lines
unfolding conclude
refused_lines router q chain (reached v) c x e ok agreed =
    absurd (cc (agreed v refl, ap (λ (d : Capability). d.ok) e))
refused_lines router q chain (exhausted lines a) c x e ok agreed =
    (lines, ap (λ (d : Capability). d.reason) e, x)

reached-ok :
    (router : Router) (q : Request) (v : Verdict)
    → walk (consider router q) (chain_of router q) ≡ reached v
    → v.ok ≡ true
reached-ok router q v e =
    let f = walk-reached (consider router q) (chain_of router q) v e in
    (consider-Agreed router q f.kind v f.serving).agreed

-- If no engine serves a request that is neither blocked by the catalog nor by itself, on a table
-- that is not shared, then the reason has exactly one message for each engine of the chain, in the
-- order they were asked, and each is the message with which that engine was passed over.
pub capability-Explains :
    (router : Router) (q : Request)
    → is_shared q.table ≡ false
    → blocks router q ≡ none
    → (capability router q).ok ≡ false
    → (lines : List (Engine × Refusal)) × ((capability router q).reason ≡ refusals lines)
      × Explains (consider router q) (chain_of router q) lines
unfolding capability
capability-Explains router q alone free ok =
    let c = raw_capability router q in
    let (same_ok, _, same_reason) = scrubbed-engine router c in
    let made = raw_capability-loop router q (sharing_engine-none router q.table alone) in
    let (lines, told, each) =
      refused_lines router q (operation_engines q.operation)
        (walk (consider router q) (chain_of router q)) c
        (walk-WalkExplains (consider router q) (chain_of router q)) (rw free at made)
        (sym same_ok ∙ ok) (reached-ok router q) in
    (lines, same_reason ∙ told, each)

-- `is not Delta` is left to an Iceberg engine by the catalog's refusals.
abbrev pub iceberg_serves : Router → ResolvedTable → Bool
iceberg_serves router table =
    is_iceberg table && is_some (router.engines iceberg) && has_text table.iceberg_rest_uri

-- Where the warehouse is out of reach, every table that no direct engine may touch is refused from
-- the catalog's metadata alone, before any engine is asked, except an Iceberg table that the
-- Iceberg engine reaches through the catalog. The table is not shared.
pub direct_refusal-catalog_level_block :
    (router : Router) (operation : Operation) (table : ResolvedTable)
    → sql_reachable router ≡ false
    → is_shared table ≡ false
    → direct_refusal operation table ≢ none
    → (catalog_level_block router operation table ≢ none)
      ⊎ ((is_delta table ≡ false) × (iceberg_serves router table ≡ true))
unfolding direct_refusal catalog_level_block format_block view_block unless_sql log_block unread_log
direct_refusal-catalog_level_block router operation table off alone refusal = ground arith
