-- ===== src/Router/Guarantees.antt =====
-- What the choice of an engine guarantees to the caller, whichever request and table.
use mathlib.Core.Path.{subst}
use deltaswamp.Prelude.{
  List, Option, [], ap, arith, false, none, or_else, refl, some, sym, true, ◌++◌, ◌∙◌, ◌∷◌, ◌≡◌,
}
use deltaswamp.Capability.Names.{
  Engine, Operation, deltars, iceberg, kernel, same_engine, sharing, sql,
}
use deltaswamp.Router.Choice.{capability-Chosen}
use deltaswamp.Router.Choose.{
  Request, capability, chain_of, closed_to, direct_gate, gate, needs_gate, sharing_engine,
  values_gate, verdict_of,
}
use deltaswamp.Router.Refusals.{exempted, operation_blocker, warehouse_can_name}
use deltaswamp.Router.Serving.{Agreed, consider-Agreed}
use deltaswamp.Router.Types.{EngineImpl, Router, Shape, Verdict, has_engine}
use deltaswamp.Table.{ResolvedTable}

-- The law of an engine that the router relies on: an engine that agrees to serve names itself.
pub record NamesItself (router : Router) : Type 0 where
  pub own :
      (kind : Engine) (engine : EngineImpl) (operation : Operation) (table : ResolvedTable)
      (shape : Shape)
      → router.engines kind ≡ some engine
      → (engine.supports operation table shape).ok ≡ true
      → (engine.supports operation table shape).engine ≡ some kind

verdict_of-names :
    (router : Router) (q : Request) (kind : Engine) (engine : EngineImpl)
    → NamesItself router
    → router.engines kind ≡ some engine
    → (verdict_of router q kind engine).ok ≡ true
    → (verdict_of router q kind engine).engine ≡ some kind
unfolding verdict_of
verdict_of-names router q kind engine names have ok =
    names.own kind engine q.operation (exempted kind q.operation q.table q.shape) q.shape have ok

has_engine-append :
    (k : Engine) (before after : List Engine) → has_engine k (before ++ k ∷ after) ≡ true
unfolding has_engine same_engine
has_engine-append kernel [] after = refl
has_engine-append deltars [] after = refl
has_engine-append sql [] after = refl
has_engine-append sharing [] after = refl
has_engine-append iceberg [] after = refl
has_engine-append k (j ∷ before) after = ground (arith, has_engine-append k before after)

-- What is known of the engine that an answer names.
pub record Served (router : Router) (q : Request) (kind : Engine) : Type 0 where
  pub verdict : Verdict
  pub in_chain : has_engine kind (chain_of router q) ≡ true
  pub facts : Agreed router q kind verdict

Agreed-engine :
    (router : Router) (q : Request) (kind : Engine) (v : Verdict)
    → NamesItself router
    → Agreed router q kind v
    → v.engine ≡ some kind
Agreed-engine router q kind v names a =
    ap (λ (u : Verdict). u.engine) (sym a.verdict)
    ∙ verdict_of-names router q kind a.engine names a.configured
        (ap (λ (u : Verdict). u.ok) a.verdict ∙ a.agreed)

some_inj : {a b : Engine} → some a ≡ some b → a ≡ b
some_inj e = cc

-- The engine of an answer, with what is known of it.
pub capability-names :
    (router : Router) (q : Request)
    → NamesItself router
    → sharing_engine router q.table ≡ none
    → (capability router q).ok ≡ true
    → (kind : Engine) × ((capability router q).engine ≡ some kind) × Served router q kind
capability-names router q names alone ok =
    let (v, c) = capability-Chosen router q alone ok in
    let f = c.first in
    let a = consider-Agreed router q f.kind v f.serving in
    (
      f.kind,
      c.engine ∙ Agreed-engine router q f.kind v names a,
      record {
        verdict = v;
        in_chain = rw f.split (has_engine-append f.kind f.before f.after);
        facts = a;
      },
    )

pub capability-Served :
    (router : Router) (q : Request) (kind : Engine)
    → NamesItself router
    → sharing_engine router q.table ≡ none
    → (capability router q).ok ≡ true
    → (capability router q).engine ≡ some kind
    → Served router q kind
capability-Served router q kind names alone ok e =
    let (j, named, s) = capability-names router q names alone ok in
    subst (λ k. Served router q k) (some_inj (sym named ∙ e)) s

pub or_else-none {ℓ} : {A : Type ℓ} (a b : Option A) → or_else a b ≡ none → (a ≡ none) × (b ≡ none)
or_else-none none b e = (refl, e)
or_else-none (some x) b e = cc

-- The four gates of an engine that serves.
pub gates :
    (router : Router) (q : Request) (kind : Engine) (engine : EngineImpl)
    → gate router q kind engine ≡ none
    → (direct_gate router q kind ≡ none)
      × (needs_gate router q kind engine ≡ none)
      × (values_gate router q kind ≡ none)
      × (operation_blocker kind q.operation q.table engine ≡ none)
unfolding gate
gates router q kind engine e =
    let (d, r) = or_else-none _ _ e in
    let (n, s) = or_else-none _ _ r in let (v, b) = or_else-none _ _ s in (d, n, v, b)

pub closed_to-sql :
    (router : Router) (q : Request)
    → closed_to router q sql ≡ none
    → (router.allow_sql_fallback ≡ true)
      × (router.warehouse_catalog ≡ true)
      × (warehouse_can_name q.table ≡ true)
unfolding closed_to same_engine
closed_to-sql router q e = ground arith

pub closed_to-exclude :
    (router : Router) (q : Request) (kind : Engine)
    → closed_to router q kind ≡ none
    → has_engine kind q.exclude ≡ false
unfolding closed_to
closed_to-exclude router q kind e = ground arith
