-- ===== src/Router/EngineFor.antt =====
-- Handing out the engine, or the error to raise (python/deltaswamp/router.py: Router.engine_for and
-- Router.capabilities).
use deltaswamp.Prelude.{
  Bool, Bool-cases, List, Option, String, [], arith, false, if◌then◌else◌, inl, inr, none, not,
  some, true, ◌&&◌, ◌||◌, ◌∷◌, ◌≡◌, ◌⊎◌,
}
use deltaswamp.Capability.Names.{Engine, Operation}
use deltaswamp.Prelude.Text.{codes, occurs}
use deltaswamp.Router.Answers.{capability-configured}
use deltaswamp.Router.Choose.{Request, capability, names_fallback}
use deltaswamp.Router.Guarantees.{NamesItself}
use deltaswamp.Router.Types.{
  Capability, EngineImpl, Reason, Refusal, Remedy, Router, calendar_unchecked, early_rewrite,
  engine_said, fallback_disabled, feature_blocked, footer_unchecked, iceberg_format, lacks,
  log_unread, need_refused, other_format, policy_history, policy_unvended, refusals, register, said,
  sharing_lacks, shifted_read, shifted_rewrite, strands_features, strands_legacy, unreadable,
  unvendable, unwritable_log, warehouse_required,
}
use deltaswamp.Table.{ResolvedTable}

-- The texts that a message takes from elsewhere.
refusal_texts : Refusal → List String
refusal_texts (lacks names) = names
refusal_texts (need_refused text) = text ∷ []
refusal_texts (said text) = text ∷ []
refusal_texts (log_unread text) = text ∷ []
refusal_texts (strands_legacy v names) = names
refusal_texts (strands_features names) = names
refusal_texts (policy_unvended text) = text ∷ []
refusal_texts (feature_blocked operation names) = names
refusal_texts (unwritable_log names) = names
refusal_texts (calendar_unchecked text) = text ∷ []
refusal_texts (shifted_read names) = names
refusal_texts (shifted_rewrite names) = names
refusal_texts (footer_unchecked text) = text ∷ []
refusal_texts (early_rewrite names) = names
refusal_texts _ = []

disabled_text : List String → Bool
unfolding occurs
disabled_text [] = false
disabled_text (t ∷ ts) = occurs (codes "fallback is disabled") (codes t) || disabled_text ts

line_disabled : Refusal → Bool
unfolding disabled_text refusal_texts
line_disabled fallback_disabled = true
line_disabled r = disabled_text (refusal_texts r)

lines_disabled : List (Engine × Refusal) → Bool
unfolding line_disabled
lines_disabled [] = false
lines_disabled ((kind, r) ∷ lines) = line_disabled r || lines_disabled lines

-- `"fallback is disabled" in capability.reason`
unfoldable pub says_disabled : Reason → Bool
unfolding lines_disabled disabled_text line_disabled
says_disabled (refusals lines) = lines_disabled lines
says_disabled (engine_said text) = disabled_text (text ∷ [])
says_disabled (sharing_lacks names) = disabled_text names
says_disabled (iceberg_format fmt rest) = disabled_text (fmt ∷ [])
says_disabled (other_format fmt) = disabled_text (fmt ∷ [])
says_disabled (policy_history text) = disabled_text (text ∷ [])
says_disabled (warehouse_required r) = line_disabled r
says_disabled (unvendable r) = line_disabled r
says_disabled (unreadable text) = disabled_text (text ∷ [])
says_disabled _ = false

abbrev pub is_register : Remedy → Bool
is_register register = true
is_register _ = false

-- What a call of `engine_for` ends with: the engine, or the error that it raises.
pub data Outcome : Type 0 where
  handed : Engine → EngineImpl → Outcome
  unconfigured : Option Engine → Outcome
  fallback_required : Reason → Remedy → Outcome
  unreachable : Reason → Remedy → Outcome

-- `fallback_would_help`
unfoldable pub fallback_would_help : Router → Capability → Bool
fallback_would_help router c =
    says_disabled c.reason
    || (not router.allow_sql_fallback && names_fallback c.remedy && not (is_register c.remedy))

-- The engine that an accepted capability names.
unfoldable pub hand_out : Router → Option Engine → Outcome
hand_out router none = unconfigured none
hand_out router (some kind) = elim (router.engines kind) [
  | none ↦ unconfigured (some kind)
  | some engine ↦ handed kind engine
]

unfoldable pub outcome_of : Router → Capability → Outcome
outcome_of router c =
    if c.ok
    then hand_out router c.engine
    else if fallback_would_help router c
    then fallback_required c.reason c.remedy
    else unreachable c.reason c.remedy

-- `Router.engine_for`
unfoldable pub engine_for : Router → Request → Outcome
engine_for router q = outcome_of router (capability router q)

-- `Router.capabilities`: every operation's verdict, with no needs, exclusions or arguments.
unfoldable pub plain_request : ResolvedTable → Operation → Request
plain_request t o = record {
  operation = o;
  table = t;
  needs = [];
  exclude = [];
  shape = record {
    feature_names = [];
    property_changes = [];
    dry_run = false;
    version = none;
    timestamp = none;
  };
}

unfoldable pub capabilities :
    Router → ResolvedTable → List Operation → List (Operation × Capability)
capabilities router t [] = []
capabilities router t (o ∷ os) =
    (o, capability router (plain_request t o)) ∷ capabilities router t os

hand_out-configured :
    (router : Router) {e : Option Engine} {k : Engine} {engine : EngineImpl}
    → e ≡ some k
    → router.engines k ≡ some engine
    → hand_out router e ≡ handed k engine
unfolding hand_out
hand_out-configured router named have = rw named (ground arith)

accepted :
    (router : Router) (q : Request)
    → NamesItself router
    → (capability router q).ok ≡ true
    → (kind : Engine) × (engine : EngineImpl) × ((capability router q).engine ≡ some kind)
      × (router.engines kind ≡ some engine)
      × (engine_for router q ≡ handed kind engine)
unfolding engine_for outcome_of
accepted router q names ok =
    let (kind, engine, named, have) = capability-configured router q names ok in
    (kind, engine, named, have, rw ok (hand_out-configured router named have))

rejected :
    (router : Router) (q : Request)
    → (capability router q).ok ≡ false
    → (engine_for router q
        ≡ fallback_required (capability router q).reason (capability router q).remedy)
      ⊎ (engine_for router q
          ≡ unreachable (capability router q).reason (capability router q).remedy)
unfolding engine_for outcome_of
rejected router q refused = ground arith

-- A call for an engine hands one out exactly when the capability is
-- ok, and it is the engine that the capability names, which the connection has: an accepted
-- request never ends in the error for an engine that is not configured. Each engine that agrees
-- names itself.
pub engine_for-handed :
    (router : Router) (q : Request)
    → NamesItself router
    → (((capability router q).ok ≡ true)
        × (kind : Engine) × (engine : EngineImpl) × ((capability router q).engine ≡ some kind)
        × (router.engines kind ≡ some engine)
        × (engine_for router q ≡ handed kind engine))
      ⊎ (((capability router q).ok ≡ false)
          × ((engine_for router q
                ≡ fallback_required (capability router q).reason (capability router q).remedy)
              ⊎ (engine_for router q
                  ≡ unreachable (capability router q).reason (capability router q).remedy)))
engine_for-handed router q names = elim (Bool-cases (capability router q).ok) [
  | inl ok ↦
      (let (kind, engine, named, have, out) = accepted router q names ok in
        inl (ok, kind, engine, named, have, out))
  | inr refused ↦ inr (refused, rejected router q refused)
]
