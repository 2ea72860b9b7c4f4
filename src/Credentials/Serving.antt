-- ===== src/Credentials/Serving.antt =====
-- What a worker is served: a credential that may do what is asked and is not about to expire.
use mathlib.Core.Path.{subst}
use deltaswamp.Prelude.{
  All, Bool, Bool-cases, Option, Option-cases, String, [], ap, arith, false, inl, inr, ltb, none,
  not, refl, some, true, ℕ, ◌&&◌, ◌+◌, ◌||◌, ◌∷◌, ◌≡◌,
}
use deltaswamp.Credentials.Shipped.{
  Outcome, Shipped, Source, Sourced, checked, deadline_or_zero, fresher, known_at, maybe_sourced,
  record_at, same_key, same_operation, served, shipped_credentials, shipped_margin,
  source_min_interval, sourced,
}
use deltaswamp.Credentials.Vended.{
  Answer, Credentials, Operation, default_refresh_margin, denied, expires_within, is_expired,
  is_read_only, is_write, near_expiry, read_only, read_write, source_failed, vended,
  vended_read_only,
}

-- A credential may serve an operation unless it was vended for reading and the operation writes.
abbrev pub may_serve : Operation → Credentials → Bool
may_serve wanted c = not (is_write wanted && is_read_only c.operation)

-- Each credential that the process keeps may serve the operation it is kept for.
abbrev pub KeepsServing : Sourced → Type 0
KeepsServing store =
    All (λ (e : (String × Operation) × (Credentials × ℕ)). may_serve e.0.1 e.1.0 ≡ true) store

-- A source answers with credentials for the operation it is asked for.
abbrev pub IsHonest : Option Source → Type 0
IsHonest none = Unit {0}
IsHonest (some ask) =
    (id : Option String) (wanted : Operation) (c : Credentials)
    → ask id wanted ≡ some c
    → may_serve wanted c ≡ true

-- Which answers there are: one that may serve and is not within a minute of its expiry; or a
-- refusal, and then the plan's own credential is for reading only, or the one that the call ends
-- with is within a minute of expiry, or the plan has a source, which failed.
abbrev pub AnswersWell : Operation → ℕ → Shipped → Outcome → Type 0
AnswersWell wanted later before (vended c, after, store) =
    (may_serve wanted c ≡ true) × (expires_within later shipped_margin c ≡ false) × (after.held ≡ c)
AnswersWell wanted later before (denied vended_read_only, after, store) =
    may_serve wanted before.held ≡ false
AnswersWell wanted later before (denied near_expiry, after, store) =
    expires_within later shipped_margin after.held ≡ true
AnswersWell wanted later before (denied source_failed, after, store) =
    (ask : Source) × (before.source ≡ some ask) × (ask before.shipped_table wanted ≡ none)
AnswersWell wanted later before (denied _, after, store) = ⊥

abbrev AnswersSome : Operation → Shipped → Answer Credentials × Sourced → Type 0
AnswersSome wanted before (vended c, store) = (may_serve wanted c ≡ true) × KeepsServing store
AnswersSome wanted before (denied source_failed, store) =
    ((ask : Source) × (before.source ≡ some ask) × (ask before.shipped_table wanted ≡ none))
    × KeepsServing store
AnswersSome wanted before (denied _, store) = ⊥

operations_eq : (o p : Operation) → same_operation o p ≡ true → o ≡ p
operations_eq read_only read_only h = refl
operations_eq read_only read_write h = cc
operations_eq read_write read_only h = cc
operations_eq read_write read_write h = refl

same_key-operation : (k l : String × Operation) → same_key k l ≡ true → k.1 ≡ l.1
same_key-operation (i, o) (j, p) h = operations_eq o p (ground arith)

some_inj : (c d : Credentials) → some c ≡ some d → c ≡ d
some_inj c d e = cc

known_at-may_serve :
    (key : String × Operation) (store : Sourced) (c : Credentials)
    → KeepsServing store
    → (known_at key store).0 ≡ some c
    → may_serve key.1 c ≡ true
unfolding known_at
known_at-may_serve key [] c h e = cc
known_at-may_serve key ((k, (d, asked)) ∷ rest) c h e = elim (Bool-cases (same_key k key)) [
  | inl same ↦
      (let found : d ≡ c = some_inj d c (rw same at e) in
        subst (λ x. may_serve key.1 x ≡ true) found
          (subst (λ o. may_serve o d ≡ true) (same_key-operation k key same) h.0))
  | inr miss ↦ known_at-may_serve key rest c h.1 (rw miss at e)
]

record_at-KeepsServing :
    (key : String × Operation) (c : Credentials) (asked : ℕ) (store : Sourced)
    → may_serve key.1 c ≡ true
    → KeepsServing store
    → KeepsServing (record_at key c asked store)
unfolding record_at
record_at-KeepsServing key c asked [] m h = (m, tt)
record_at-KeepsServing key c asked ((k, e) ∷ rest) m h = elim (Bool-cases (same_key k key)) [
  | inl same ↦ rw same (m, h.1)
  | inr miss ↦ rw miss (h.0, record_at-KeepsServing key c asked rest m h.1)
]

fresher-may_serve :
    (wanted : Operation) (known : Option Credentials) (current : Credentials)
    → ((c : Credentials) → known ≡ some c → may_serve wanted c ≡ true)
    → may_serve wanted current ≡ true
    → may_serve wanted (fresher known current) ≡ true
fresher-may_serve wanted none current k m = m
fresher-may_serve wanted (some c) current k m =
    elim (Bool-cases (ltb (deadline_or_zero current.expires_at) (deadline_or_zero c.expires_at))) [
      | inl e ↦ rw e (k c refl)
      | inr e ↦ rw e m
    ]

served-AnswersSome :
    (key : String × Operation) (current : Credentials) (now later : ℕ) (store : Sourced)
    (before : Shipped) (ask : Source)
    → before.source ≡ some ask
    → IsHonest (some ask)
    → may_serve key.1 current ≡ true
    → KeepsServing store
    → AnswersSome key.1 before (served key current now later store (ask before.shipped_table key.1))
unfolding served
served-AnswersSome key current now later store before ask from honest m h =
    elim (Option-cases (ask before.shipped_table key.1)) [
      | inl failed ↦ rw failed (elim (Bool-cases (is_expired later current)) [
        | inl e ↦ rw e ((ask, from, failed), record_at-KeepsServing key current now store m h)
        | inr e ↦ rw e (m, record_at-KeepsServing key current now store m h)
      ])
      | inr (c, answered) ↦
          (let m' = honest before.shipped_table key.1 c answered in
            rw answered (
              m',
              record_at-KeepsServing key c now (record_at key current now store) m'
                  (record_at-KeepsServing key current now store m h),
            ))
    ]

sourced-AnswersSome :
    (ask : Source) (before : Shipped) (wanted : Operation) (now later : ℕ) (store : Sourced)
    → before.source ≡ some ask
    → IsHonest (some ask)
    → may_serve wanted before.held ≡ true
    → KeepsServing store
    → AnswersSome wanted before (sourced ask before wanted now later store)
unfolding sourced
sourced-AnswersSome ask before wanted now later store from honest m h =
    let key : String × Operation = (before.identity, wanted) in
    let current = fresher (known_at key store).0 before.held in
    let fresh =
      fresher-may_serve wanted (known_at key store).0 before.held
        (λ c e. known_at-may_serve key store c h e) m in
    elim (Bool-cases (
      not (expires_within now default_refresh_margin current)
      || (not (is_expired now current)
          && ltb now ((known_at key store).1 + source_min_interval)))) [
            | inl e ↦ rw e (fresh, h)
            | inr e ↦
                rw e (served-AnswersSome key current now later store before ask from honest fresh h)
          ]

maybe_sourced-AnswersSome :
    (ask : Option Source) (before : Shipped) (wanted : Operation) (now later : ℕ) (store : Sourced)
    → before.source ≡ ask
    → IsHonest ask
    → may_serve wanted before.held ≡ true
    → KeepsServing store
    → AnswersSome wanted before (maybe_sourced ask before wanted now later store)
unfolding maybe_sourced
maybe_sourced-AnswersSome none before wanted now later store from honest m h = (m, h)
maybe_sourced-AnswersSome (some ask) before wanted now later store from honest m h =
    sourced-AnswersSome ask before wanted now later store from honest m h

checked-AnswersWell :
    (before : Shipped) (wanted : Operation) (later : ℕ) (r : Answer Credentials × Sourced)
    → AnswersSome wanted before r
    → AnswersWell wanted later before (checked before later r)
      × KeepsServing (checked before later r).2
unfolding checked
checked-AnswersWell before wanted later (vended c, store) a =
    elim (Bool-cases (expires_within later shipped_margin c)) [
      | inl e ↦ rw e (e, a.1)
      | inr e ↦ rw e ((a.0, e, refl), a.1)
    ]
checked-AnswersWell before wanted later (denied source_failed, store) a = (a.0, a.1)
checked-AnswersWell before wanted later (denied _, store) a = absurd a

-- A worker is served a credential that may do what is asked and is more than a minute from its
-- expiry, or the refusal names what kept it from one. What the process keeps may always serve the
-- operation that it is kept for, if the plan's source answers for the operation it is asked for.
pub shipped_credentials-AnswersWell :
    (before : Shipped) (wanted : Operation) (start later : ℕ) (store : Sourced)
    → IsHonest before.source
    → KeepsServing store
    → AnswersWell wanted later before (shipped_credentials before wanted start later store)
      × KeepsServing (shipped_credentials before wanted start later store).2
unfolding shipped_credentials
shipped_credentials-AnswersWell before wanted start later store honest h =
    elim (Bool-cases (is_write wanted && is_read_only before.held.operation)) [
      | inl e ↦ rw e (ap not e, h)
      | inr e ↦ rw e (
          checked-AnswersWell before wanted later
            (maybe_sourced before.source before wanted start later store)
            (maybe_sourced-AnswersSome before.source before wanted start later store refl honest
              (ap not e) h))
    ]
