-- ===== src/Router/Choice.antt =====
-- The router refines its specification: the first engine in the order of preference that serves.
use deltaswamp.Prelude.{List, Option, ap, arith, false, none, refl, some, sym, true, ◌∙◌, ◌≡◌}
use deltaswamp.Capability.Names.{Engine, same_engine}
use deltaswamp.Capability.Routing.{operation_engines}
use deltaswamp.Router.Choose.{
  Request, Walk, blocks, capability, chain_of, conclude, consider, exhausted, of_verdict,
  raw_capability, reached, routed, scrubbed, sharing_engine, unless_blocked, walk,
}
use deltaswamp.Router.Types.{Blocked, Capability, Router, Verdict}
use deltaswamp.Router.Walk.{FirstServing, walk-reached}
use deltaswamp.Table.{ResolvedTable, is_shared}

-- What an answer that is ok comes from.
decided :
    (router : Router) (q : Request) (o : Option Blocked) (chain : List Engine) (w : Walk)
    (c : Capability)
    → c ≡ unless_blocked q.operation o (conclude router q chain w)
    → c.ok ≡ true
    → (o ≡ none) × (v : Verdict) × (w ≡ reached v) × (c ≡ of_verdict q.operation v)
unfolding conclude
decided router q (some b) chain w c e ok = absurd (cc (ap (λ x. x.ok) e))
decided router q none chain (reached v) c e ok = (refl, v, refl, e)
decided router q none chain (exhausted lines a) c e ok = absurd (cc (ap (λ x. x.ok) e))

pub scrubbed-engine :
    (router : Router) (c : Capability)
    → ((scrubbed router c).ok ≡ c.ok)
      × ((scrubbed router c).engine ≡ c.engine)
      × ((scrubbed router c).reason ≡ c.reason)
unfolding scrubbed
scrubbed-engine router c = ground arith

pub sharing_engine-none :
    (router : Router) (table : ResolvedTable)
    → is_shared table ≡ false
    → sharing_engine router table ≡ none
sharing_engine-none router table e = rw e

-- A request that no sharing engine answers, which the loop decides.
pub raw_capability-loop :
    (router : Router) (q : Request)
    → sharing_engine router q.table ≡ none
    → raw_capability router q
      ≡ unless_blocked q.operation (blocks router q) (
          conclude router q
            (operation_engines q.operation)
            (walk (consider router q) (chain_of router q)))
unfolding raw_capability routed
raw_capability-loop router q e = rw e

-- An engine is chosen by the loop: nothing blocks the request, and the verdict is that of the
-- first engine of the chain that serves.
pub record Chosen (router : Router) (q : Request) (v : Verdict) : Type 0 where
  pub unblocked : blocks router q ≡ none
  pub first : FirstServing (consider router q) (chain_of router q) v
  pub engine : (capability router q).engine ≡ v.engine

pub capability-Chosen :
    (router : Router) (q : Request)
    → sharing_engine router q.table ≡ none
    → (capability router q).ok ≡ true
    → (v : Verdict) × Chosen router q v
unfolding capability
capability-Chosen router q alone ok =
    let (same_ok, same_engine, _) = scrubbed-engine router (raw_capability router q) in
    let (unblocked, v, w, made) =
      decided router q (blocks router q) _ _ (raw_capability router q)
        (raw_capability-loop router q alone) (sym same_ok ∙ ok) in
    (
      v,
      record {
        unblocked = unblocked;
        first = walk-reached (consider router q) (chain_of router q) v w;
        engine = same_engine ∙ ap (λ x. x.engine) made;
      },
    )
