-- ===== src/Router/Walk.antt =====
-- How the loop over the engines ends: with the first that serves, or with one message for each.
use deltaswamp.Prelude.{All, List, String, [], ap, map, refl, ◌++◌, ◌∷◌, ◌≡◌}
use deltaswamp.Capability.Names.{Engine}
use deltaswamp.Router.Choose.{
  Turn, Walk, after_pass, after_turn, exhausted, passed, reached, serves, walk,
}
use deltaswamp.Router.Types.{Refusal, Verdict}

-- A turn that passes the engine over.
abbrev pub Passes : Turn → Type 0
Passes (serves v) = ⊥
Passes (passed r advice) = Unit

-- The list is these engines, then one that serves, then the rest; all before it are passed over.
pub record FirstServing (turn : Engine → Turn) (kinds : List Engine) (v : Verdict) : Type 0 where
  pub before : List Engine
  pub kind : Engine
  pub after : List Engine
  pub split : kinds ≡ before ++ kind ∷ after
  pub skipped : All (λ k. Passes (turn k)) before
  pub serving : turn kind ≡ serves v

abbrev consed :
    (turn : Engine → Turn) (k : Engine) {kinds : List Engine} {v : Verdict}
    → Passes (turn k)
    → FirstServing turn kinds v
    → FirstServing turn (k ∷ kinds) v
consed turn k p f = record {
  before = k ∷ f.before;
  kind = f.kind;
  after = f.after;
  split = ap (λ l. k ∷ l) f.split;
  skipped = (p, f.skipped);
  serving = f.serving;
}

abbrev headed :
    (turn : Engine → Turn) (k : Engine) (kinds : List Engine) {v : Verdict}
    → turn k ≡ serves v
    → FirstServing turn (k ∷ kinds) v
headed turn k kinds e = record {
  before = [];
  kind = k;
  after = kinds;
  split = refl;
  skipped = tt;
  serving = e;
}

after_pass-reached :
    (k : Engine) (r : Refusal) (a : String) (w : Walk) {v : Verdict}
    → after_pass k r a w ≡ reached v
    → w ≡ reached v
after_pass-reached k r a (reached v) e = e
after_pass-reached k r a (exhausted lines later) e = cc

after_turn-reached :
    (turn : Engine → Turn) (k : Engine) (kinds : List Engine) (v : Verdict) (t : Turn)
    → turn k ≡ t
    → (walk turn kinds ≡ reached v → FirstServing turn kinds v)
    → after_turn k t (walk turn kinds) ≡ reached v
    → FirstServing turn (k ∷ kinds) v
after_turn-reached turn k kinds v (serves u) s later e = headed turn k kinds (cc)
after_turn-reached turn k kinds v (passed r a) p later e =
    consed turn k (rw p tt) (later (after_pass-reached k r a (walk turn kinds) e))

-- If the loop returns a verdict, it is that of the first engine that serves.
pub walk-reached :
    (turn : Engine → Turn) (kinds : List Engine) (v : Verdict)
    → walk turn kinds ≡ reached v
    → FirstServing turn kinds v
unfolding walk
walk-reached turn [] v e = cc
walk-reached turn (k ∷ kinds) v e =
    after_turn-reached turn k kinds v (turn k) refl (walk-reached turn kinds v) e

-- The message of a line is the one that its engine was passed over with.
abbrev pub IsLineOf : (Engine → Turn) → Engine × Refusal → Type 0
IsLineOf turn (k, r) = (a : String) × (turn k ≡ passed r a)

-- The lines are one for each engine, in order, each with the message of its turn.
abbrev pub Explains : (Engine → Turn) → List Engine → List (Engine × Refusal) → Type 0
Explains turn kinds lines = (map (λ l. l.0) lines ≡ kinds) × All (IsLineOf turn) lines

-- A walk that returns nothing explains every engine.
abbrev pub WalkExplains : (Engine → Turn) → List Engine → Walk → Type 0
WalkExplains turn kinds (reached v) = Unit
WalkExplains turn kinds (exhausted lines advice) = Explains turn kinds lines

after_turn-WalkExplains :
    (turn : Engine → Turn) (k : Engine) (kinds : List Engine) (t : Turn) (w : Walk)
    → turn k ≡ t
    → WalkExplains turn kinds w
    → WalkExplains turn (k ∷ kinds) (after_turn k t w)
after_turn-WalkExplains turn k kinds (serves u) w s later = tt
after_turn-WalkExplains turn k kinds (passed r a) (reached v) p later = tt
after_turn-WalkExplains turn k kinds (passed r a) (exhausted ls b) p later =
    (ap (λ l. k ∷ l) later.0, ((a, p), later.1))

-- If the loop returns none, it has one message for each engine, in the order of the engines.
pub walk-WalkExplains :
    (turn : Engine → Turn) (kinds : List Engine) → WalkExplains turn kinds (walk turn kinds)
unfolding walk
walk-WalkExplains turn [] = (refl, tt)
walk-WalkExplains turn (k ∷ kinds) =
    after_turn-WalkExplains turn k kinds (turn k) (walk turn kinds) refl
      (walk-WalkExplains turn kinds)

walk-append :
    (turn : Engine → Turn) (before : List Engine) (kind : Engine) (after : List Engine)
    (v : Verdict)
    → All (λ k. Passes (turn k)) before
    → turn kind ≡ serves v
    → walk turn (before ++ kind ∷ after) ≡ reached v
unfolding walk
walk-append turn [] kind after v p e = rw e
walk-append turn (k ∷ before) kind after v p e =
    after_turn-passes turn k before kind after v (turn k) p.0
      (walk-append turn before kind after v p.1 e)
  where
    after_turn-passes :
        (turn : Engine → Turn) (k : Engine) (before : List Engine) (kind : Engine)
        (after : List Engine) (v : Verdict) (t : Turn)
        → Passes t
        → walk turn (before ++ kind ∷ after) ≡ reached v
        → after_turn k t (walk turn (before ++ kind ∷ after)) ≡ reached v
    after_turn-passes turn k before kind after v (serves u) p e = absurd p
    after_turn-passes turn k before kind after v (passed r a) p e = rw e

-- The loop returns the verdict of the first engine that serves.
pub FirstServing-walk :
    (turn : Engine → Turn) (kinds : List Engine) (v : Verdict)
    → FirstServing turn kinds v
    → walk turn kinds ≡ reached v
FirstServing-walk turn kinds v f =
    rw f.split (walk-append turn f.before f.kind f.after v f.skipped f.serving)
