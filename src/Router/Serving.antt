-- ===== src/Router/Serving.antt =====
-- What is known of an engine that the router returns: the facts that each turn of the loop checks.
use deltaswamp.Prelude.{Option, arith, none, refl, some, true, ◌≡◌}
use deltaswamp.Capability.Names.{Engine}
use deltaswamp.Router.Choose.{
  Request, Turn, after_gate, answered, ask, closed_to, consider, file_gate, gate, serves,
  verdict_of,
}
use deltaswamp.Router.Types.{EngineImpl, Refusal, Router, Verdict}

after_gate-serves :
    (o : Option Refusal) (t : Turn) (v : Verdict)
    → after_gate o t ≡ serves v
    → (o ≡ none) × (t ≡ serves v)
after_gate-serves none t v e = (refl, e)
after_gate-serves (some r) t v e = cc

answered-serves :
    (kind : Engine) (u v : Verdict) (stop : Option Refusal)
    → answered kind u stop ≡ serves v
    → (stop ≡ none) × (u ≡ v) × (v.ok ≡ true)
unfolding answered
answered-serves kind u v stop e = ground arith

-- The facts that one turn checks.
pub record Agreed (router : Router) (q : Request) (kind : Engine) (v : Verdict) : Type 0 where
  pub engine : EngineImpl
  pub configured : router.engines kind ≡ some engine
  pub open_to : closed_to router q kind ≡ none
  pub through : gate router q kind engine ≡ none
  pub readable : file_gate router q kind engine ≡ none
  pub verdict : verdict_of router q kind engine ≡ v
  pub agreed : v.ok ≡ true

ask-Agreed :
    (router : Router) (q : Request) (kind : Engine) (v : Verdict) (o : Option EngineImpl)
    → router.engines kind ≡ o
    → closed_to router q kind ≡ none
    → ask router q kind o ≡ serves v
    → Agreed router q kind v
unfolding ask
ask-Agreed router q kind v none have open_to e = cc
ask-Agreed router q kind v (some engine) have open_to e =
    let (through, answer) = after_gate-serves (gate router q kind engine) _ v e in
    let (readable, verdict, agreed) = answered-serves kind _ v _ answer in
    record {
      engine = engine;
      configured = have;
      open_to = open_to;
      through = through;
      readable = readable;
      verdict = verdict;
      agreed = agreed;
    }

pub consider-Agreed :
    (router : Router) (q : Request) (kind : Engine) (v : Verdict)
    → consider router q kind ≡ serves v
    → Agreed router q kind v
unfolding consider
consider-Agreed router q kind v e =
    let (open_to, asked) = after_gate-serves (closed_to router q kind) _ v e in
    ask-Agreed router q kind v (router.engines kind) refl open_to asked
