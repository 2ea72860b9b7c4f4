-- ===== src/Router/Requests.antt =====
-- Promises of the router about the shape of a request and the files behind a table.
use text.Mathlib.TextEquality.{eq_iff}
use deltaswamp.Prelude.{
  Bool, Bool-cases, List, Option, String, [], ap, arith, false, inl, inr, none, not, select, some,
  true, ℕ, ◌&&◌, ◌∷◌, ◌≡◌, ◌⊎◌,
}
use deltaswamp.Capability.Names.{Engine, deltars, kernel, same_engine}
use deltaswamp.Prelude.Text.{mem}
use deltaswamp.Router.Calendar.{
  calendar_bound, calendar_refusal, calendar_verdict, file_rewrites, footer_verdict,
  footerless_rewrite, kernel_evaluates_sql, kernel_filters_sql,
}
use deltaswamp.Router.Answers.{answered-Served, capability-Answered}
use deltaswamp.Router.Choose.{
  Request, calendar_gate, capability, file_gate, footer_gate, missing_needs, needs_gate,
  only_sql_expressions, router_hints,
}
use deltaswamp.Router.Guarantees.{NamesItself, Served, gates, or_else-none}
use deltaswamp.Router.Types.{EngineImpl, Probe, Router, found}
use deltaswamp.Table.{ResolvedTable}

select-nil_mem :
    (p : String → Bool) (xs : List String) (s : String)
    → select p xs ≡ []
    → mem s xs ≡ true
    → p s ≡ false
unfolding select mem
select-nil_mem p [] s e m = cc
select-nil_mem p (x ∷ xs) s e m = elim (Bool-cases (p x)) [
  | inl yea ↦ absurd (cc (rw yea at e))
  | inr nay ↦ ground (arith, eq_iff s x, select-nil_mem p xs s (rw nay at e))
]

-- A need that is asked of the engines and that this one lacks is missing.
missing_needs-nil :
    (needs : List String) (engine : EngineImpl) (need : String)
    → missing_needs needs engine ≡ []
    → mem need needs ≡ true
    → mem need router_hints ≡ false
    → engine.has_need need ≡ true
unfolding missing_needs
missing_needs-nil needs engine need e m h = ground (
  arith,
  select-nil_mem (λ n. not (mem n router_hints) && not (engine.has_need n)) needs need e m,
)

only_sql_expressions-eq :
    (names : List String) → only_sql_expressions names ≡ true → names ≡ "sql_expressions" ∷ []
unfolding only_sql_expressions
only_sql_expressions-eq [] e = cc
only_sql_expressions-eq (n ∷ []) e = ap (λ s. s ∷ []) ((eq_iff n "sql_expressions").0 e)
only_sql_expressions-eq (n ∷ m ∷ names) e = cc

needs_gate-none :
    (router : Router) (q : Request) (kind : Engine) (engine : EngineImpl)
    → needs_gate router q kind engine ≡ none
    → (missing_needs q.needs engine ≡ [])
      ⊎ ((kind ≡ kernel) × (only_sql_expressions (missing_needs q.needs engine) ≡ true))
unfolding needs_gate kernel_filters_sql kernel_evaluates_sql same_engine
needs_gate-none router q kind engine e = ground arith

calendar_gate-found :
    (router : Router) (q : Request) (k : EngineImpl)
    (check : ResolvedTable → Option ℕ → Option String → Probe)
    → calendar_gate router q deltars ≡ none
    → file_rewrites q.operation ≡ true
    → q.table.has_datetime_columns ≡ true
    → router.engines kernel ≡ some k
    → k.legacy_calendar_files ≡ some check
    → check q.table none none ≡ found []
unfolding calendar_gate same_engine calendar_bound calendar_refusal calendar_verdict
calendar_gate-found router q k check e rewrites dated have checks = ground arith

footer_gate-found :
    (router : Router) (q : Request) (engine k : EngineImpl) (check : ResolvedTable → Probe)
    → footer_gate router q deltars engine ≡ none
    → file_rewrites q.operation ≡ true
    → q.table.has_datetime_columns ≡ true
    → router.engines kernel ≡ some k
    → k.early_files ≡ some check
    → (engine.writes_files q.operation q.table q.shape ≡ false) ⊎ (check q.table ≡ found [])
unfolding footer_gate same_engine footerless_rewrite footer_verdict
footer_gate-found router q engine k check e rewrites dated have checks = ground arith

-- If an answer names delta-rs for an operation that rewrites data files, on a table with dates or
-- timestamps, then the kernel's look at the files succeeded and found none that delta-rs would
-- misread; and where delta-rs writes the files itself, none with values that it would write
-- unreadable. The connection has a kernel with both checks, and each engine that agrees
-- names itself.
pub capability_rewrite_checked :
    (router : Router) (q : Request) (k : EngineImpl)
    (calendar : ResolvedTable → Option ℕ → Option String → Probe) (early : ResolvedTable → Probe)
    → NamesItself router
    → (capability router q).ok ≡ true
    → (capability router q).engine ≡ some deltars
    → file_rewrites q.operation ≡ true
    → q.table.has_datetime_columns ≡ true
    → router.engines kernel ≡ some k
    → k.legacy_calendar_files ≡ some calendar
    → k.early_files ≡ some early
    → (engine : EngineImpl) × (router.engines deltars ≡ some engine)
      × (calendar q.table none none ≡ found [])
      × ((engine.writes_files q.operation q.table q.shape ≡ false) ⊎ (early q.table ≡ found []))
unfolding file_gate
capability_rewrite_checked router q k calendar early names ok e rewrites dated have shifts earlies =
    let (_, s) = answered-Served router q deltars names (λ own. cc) ok e in
    let engine = s.facts.engine in
    let (calendar_free, footer_free) =
      or_else-none (calendar_gate router q deltars) (footer_gate router q deltars engine)
        s.facts.readable in
    (
      engine,
      s.facts.configured,
      calendar_gate-found router q k calendar calendar_free rewrites dated have shifts,
      footer_gate-found router q engine k early footer_free rewrites dated have earlies,
    )

Served-met :
    (router : Router) (q : Request) (kind : Engine) (need : String)
    → Served router q kind
    → mem need q.needs ≡ true
    → mem need router_hints ≡ false
    → (engine : EngineImpl) × (router.engines kind ≡ some engine)
      × ((engine.has_need need ≡ true)
          ⊎ ((kind ≡ kernel) × (missing_needs q.needs engine ≡ "sql_expressions" ∷ [])))
Served-met router q kind need s asked real =
    let engine = s.facts.engine in
    let (_, open_needs, _, _) = gates router q kind engine s.facts.through in
    (
      engine,
      s.facts.configured,
      elim (needs_gate-none router q kind engine open_needs) [
        | inl met ↦ inl (missing_needs-nil q.needs engine need met asked real)
        | inr (own, only) ↦ inr (own, only_sql_expressions-eq (missing_needs q.needs engine) only)
      ],
    )

-- If an answer names an engine, for a shared table too, then each need of the request that is no
-- hint to the router is one that the engine has an attribute for; or the engine is the kernel and
-- `sql_expressions` is all that it lacks. Each engine that agrees names itself.
pub capability_needs_met :
    (router : Router) (q : Request) (kind : Engine) (need : String)
    → NamesItself router
    → (capability router q).ok ≡ true
    → (capability router q).engine ≡ some kind
    → mem need q.needs ≡ true
    → mem need router_hints ≡ false
    → (engine : EngineImpl) × (router.engines kind ≡ some engine)
      × ((engine.has_need need ≡ true)
          ⊎ ((kind ≡ kernel) × (missing_needs q.needs engine ≡ "sql_expressions" ∷ [])))
capability_needs_met router q kind need names ok e asked real =
    elim (capability-Answered router q kind names ok e) [
      | inl (_, s) ↦ Served-met router q kind need s asked real
      | inr s ↦
          (s.engine, s.configured, inl (missing_needs-nil q.needs s.engine need s.met asked real))
    ]
