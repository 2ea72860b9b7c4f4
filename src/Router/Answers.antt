-- ===== src/Router/Answers.antt =====
-- Both ways to an answer that names an engine: the loop of `Router._capability`, or its answer for
-- a shared table, which is the verdict of the sharing engine alone.
use mathlib.Core.Path.{subst}
use deltaswamp.Prelude.{
  Bool-cases, List, Option, Option-cases, String, [], ap, arith, inl, inr, none, refl, some, sym,
  false, true, ◌∙◌, ◌∷◌, ◌≡◌, ◌≢◌, ◌⊎◌,
}
use deltaswamp.Capability.Names.{Engine, sharing}
use deltaswamp.Router.Catalog.{catalog_level_block}
use deltaswamp.Router.Choice.{scrubbed-engine, sharing_engine-none}
use deltaswamp.Router.Choose.{
  Request, blocks, capability, missing_needs, raw_capability, routed, shared_verdict,
  sharing_engine, unless_blocked,
}
use deltaswamp.Router.Guarantees.{NamesItself, Served, capability-Served, capability-names}
use deltaswamp.Router.Types.{Blocked, Capability, EngineImpl, Router, is_direct}
use deltaswamp.Table.{is_shared}

-- What is known where the sharing engine answers.
pub record Shared (router : Router) (q : Request) (kind : Engine) : Type 0 where
  pub engine : EngineImpl
  pub shared : is_shared q.table ≡ true
  pub own : kind ≡ sharing
  pub configured : router.engines kind ≡ some engine
  pub met : missing_needs q.needs engine ≡ []

shared_verdict-ok :
    (q : Request) (engine : EngineImpl) (missing : List String)
    → missing_needs q.needs engine ≡ missing
    → (shared_verdict q engine).ok ≡ true
    → (missing ≡ [])
      × ((engine.supports q.operation q.table q.shape).ok ≡ true)
      × ((shared_verdict q engine).engine ≡ (engine.supports q.operation q.table q.shape).engine)
unfolding shared_verdict
shared_verdict-ok q engine [] m ok = ground (arith, m)
shared_verdict-ok q engine (n ∷ ns) m ok = ground (arith, m)

unless_blocked-ok :
    (q : Request) (o : Option Blocked) (c : Capability)
    → (unless_blocked q.operation o c).ok ≡ true
    → unless_blocked q.operation o c ≡ c
unless_blocked-ok q none c ok = refl
unless_blocked-ok q (some b) c ok = cc

some_inj : {a b : Engine} → some a ≡ some b → a ≡ b
some_inj e = cc

sharing_engine-shared :
    (router : Router) (q : Request)
    → is_shared q.table ≡ true
    → sharing_engine router q.table ≡ router.engines sharing
sharing_engine-shared router q shared = rw shared

-- A shared table without a sharing engine is refused by the catalog's metadata.
unshared-refused :
    (router : Router) (q : Request)
    → is_shared q.table ≡ true
    → router.engines sharing ≡ none
    → (capability router q).ok ≡ false
unfolding capability raw_capability blocks catalog_level_block
unshared-refused router q shared absent =
    (scrubbed-engine router (raw_capability router q)).0 ∙ rw (shared, absent) refl

-- An answer of the sharing engine names it, and it has every need of the request.
shared-answer :
    (router : Router) (q : Request) (engine : EngineImpl)
    → NamesItself router
    → is_shared q.table ≡ true
    → router.engines sharing ≡ some engine
    → (capability router q).ok ≡ true
    → ((capability router q).engine ≡ some sharing) × (missing_needs q.needs engine ≡ [])
unfolding capability raw_capability routed
shared-answer router q engine names shared have ok =
    let raw = raw_capability router q in
    let (same_ok, same_engine, _) = scrubbed-engine router raw in
    let made : raw ≡ unless_blocked q.operation (blocks router q) (shared_verdict q engine) =
      rw (sharing_engine-shared router q shared, have) refl in
    let open_ok = ap (λ (c : Capability). c.ok) (sym made) ∙ sym same_ok ∙ ok in
    let whole = made ∙ unless_blocked-ok q (blocks router q) (shared_verdict q engine) open_ok in
    let (met, agreed, named) =
      shared_verdict-ok q engine (missing_needs q.needs engine) refl
        (ap (λ (c : Capability). c.ok) (sym whole) ∙ sym same_ok ∙ ok) in
    (
      same_engine
          ∙ ap (λ (c : Capability). c.engine) whole
          ∙ named
          ∙ names.own sharing engine q.operation q.table q.shape have agreed,
      met,
    )

-- An answer that is ok is one of the loop, on a table that is not shared, or one of the sharing
-- engine, which the connection has.
pub data Way (router : Router) (q : Request) : Type 0 where
  by_loop : is_shared q.table ≡ false → Way router q
  by_sharing :
      (engine : EngineImpl)
      → is_shared q.table ≡ true
      → router.engines sharing ≡ some engine
      → Way router q

pub capability-Way :
    (router : Router) (q : Request) → (capability router q).ok ≡ true → Way router q
capability-Way router q ok = elim (Bool-cases (is_shared q.table)) [
  | inr alone ↦ by_loop alone
  | inl shared ↦ elim (Option-cases (router.engines sharing)) [
    | inl absent ↦ absurd (cc (unshared-refused router q shared absent))
    | inr (engine, have) ↦ by_sharing engine shared have
  ]
]

-- An answer that names an engine comes from the loop or from the sharing engine.
pub capability-Answered :
    (router : Router) (q : Request) (kind : Engine)
    → NamesItself router
    → (capability router q).ok ≡ true
    → (capability router q).engine ≡ some kind
    → ((is_shared q.table ≡ false) × Served router q kind) ⊎ Shared router q kind
capability-Answered router q kind names ok e = elim (capability-Way router q ok) [
  | by_loop alone ↦
      inl (
        alone,
        capability-Served router q kind names (sharing_engine-none router q.table alone) ok e,
      )
  | by_sharing engine shared have ↦
      (let (named, met) = shared-answer router q engine names shared have ok in
        let own : kind ≡ sharing = some_inj (sym e ∙ named) in
        inr (record {
          engine = engine;
          shared = shared;
          own = own;
          configured = subst (λ k. router.engines k ≡ some engine) (sym own) have;
          met = met;
        }))
]

-- The loop gives every answer that names another engine.
pub answered-Served :
    (router : Router) (q : Request) (kind : Engine)
    → NamesItself router
    → kind ≢ sharing
    → (capability router q).ok ≡ true
    → (capability router q).engine ≡ some kind
    → (is_shared q.table ≡ false) × Served router q kind
answered-Served router q kind names other ok e =
    elim (capability-Answered router q kind names ok e) [
      | inl served ↦ served
      | inr s ↦ absurd (other s.own)
    ]

pub direct-ne-sharing : (kind : Engine) → is_direct kind ≡ true → kind ≢ sharing
unfolding is_direct
direct-ne-sharing kind direct own = cc (rw own at direct)

-- The engine of an answer, which the connection has.
pub capability-configured :
    (router : Router) (q : Request)
    → NamesItself router
    → (capability router q).ok ≡ true
    → (kind : Engine) × (engine : EngineImpl) × ((capability router q).engine ≡ some kind)
      × (router.engines kind ≡ some engine)
capability-configured router q names ok = elim (capability-Way router q ok) [
  | by_loop alone ↦
      (let (kind, named, s) =
          capability-names router q names (sharing_engine-none router q.table alone) ok in
        (kind, s.facts.engine, named, s.facts.configured))
  | by_sharing engine shared have ↦
      (sharing, engine, (shared-answer router q engine names shared have ok).0, have)
]
