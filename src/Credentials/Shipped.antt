-- ===== src/Credentials/Shipped.antt =====
-- The credential that a plan carries to its workers (python/deltaswamp/distributed.py:
-- ShippedCredentials.credentials and _sourced). The source may take its time, so a call has the
-- time at which it starts and that at which the source has answered.
use text.Mathlib.Text.{◌==◌ as str_eq}
use deltaswamp.Prelude.{
  Bool, List, Option, String, [], false, if◌then◌else◌, ltb, none, not, some, true, ℕ, ◌&&◌, ◌*◌,
  ◌+◌, ◌||◌, ◌∷◌,
}
use deltaswamp.Credentials.Vended.{
  Answer, Credentials, Operation, default_refresh_margin, denied, expires_within, is_expired,
  is_read_only, is_write, near_expiry, read_only, read_write, second, source_failed, vended,
  vended_read_only,
}

-- `_SOURCED`: by identity and operation, the credential served and when the source was last asked.
abbrev pub Sourced : Type 0
Sourced = List ((String × Operation) × (Credentials × ℕ))

-- `credential_source`; `none` where it raises.
abbrev pub Source : Type 0
Source = Option String → Operation → Option Credentials

pub record Shipped : Type 0 where
  pub held : Credentials
  pub shipped_table : Option String
  pub source : Option Source
  pub identity : String

-- SHIPPED_CREDENTIAL_MARGIN_SECONDS and SOURCE_MIN_INTERVAL_SECONDS
abbrev pub shipped_margin : ℕ
shipped_margin = 60 * second

abbrev pub source_min_interval : ℕ
source_min_interval = 30 * second

abbrev pub same_operation : Operation → Operation → Bool
same_operation read_only read_only = true
same_operation read_write read_write = true
same_operation _ _ = false

abbrev pub same_key : String × Operation → String × Operation → Bool
same_key (i, o) (j, p) = str_eq i j && same_operation o p

-- `_SOURCED.get(key, (None, 0.0))`
unfoldable pub known_at : String × Operation → Sourced → Option Credentials × ℕ
known_at key [] = (none, 0)
known_at key ((k, (c, asked)) ∷ rest) =
    if same_key k key then (some c, asked) else known_at key rest

-- `_SOURCED[key] = ...`
unfoldable pub record_at : String × Operation → Credentials → ℕ → Sourced → Sourced
record_at key c asked [] = (key, (c, asked)) ∷ []
record_at key c asked ((k, e) ∷ rest) =
    if same_key k key then (key, (c, asked)) ∷ rest else (k, e) ∷ record_at key c asked rest

-- `expires_at or 0`
abbrev pub deadline_or_zero : Option ℕ → ℕ
deadline_or_zero none = 0
deadline_or_zero (some deadline) = deadline

-- The credential that is known, where it lives longer than the one at hand.
abbrev pub fresher : Option Credentials → Credentials → Credentials
fresher none current = current
fresher (some known) current =
    if ltb (deadline_or_zero current.expires_at) (deadline_or_zero known.expires_at)
    then known
    else current

-- What is done with the source's answer, given at the time `later`.
unfoldable pub served :
    String × Operation
    → Credentials
    → ℕ
    → ℕ
    → Sourced
    → Option Credentials
    → Answer Credentials × Sourced
unfolding is_expired record_at
served key current now later store none = (
  if is_expired later current then denied source_failed else vended current,
  record_at key current now store,
)
served key current now later store (some c) =
    (vended c, record_at key c now (record_at key current now store))

-- `_sourced`
unfoldable pub sourced :
    Source → Shipped → Operation → ℕ → ℕ → Sourced → Answer Credentials × Sourced
unfolding known_at expires_within is_expired served
sourced ask shipped wanted now later store =
    let key : String × Operation = (shipped.identity, wanted) in
    let (known, asked) = known_at key store in
    let current = fresher known shipped.held in
    if not (expires_within now default_refresh_margin current)
      || (not (is_expired now current) && ltb now (asked + source_min_interval))
    then (vended current, store)
    else served key current now later store (ask shipped.shipped_table wanted)

abbrev pub Outcome : Type 0
Outcome = Answer Credentials × Shipped × Sourced

-- The credential that the call ends with is kept, and refused close to its expiry.
unfoldable pub checked : Shipped → ℕ → Answer Credentials × Sourced → Outcome
unfolding expires_within
checked shipped later (denied e, store) = (denied e, shipped, store)
checked shipped later (vended c, store) = (
  if expires_within later shipped_margin c then denied near_expiry else vended c,
  record shipped { held = c },
  store,
)

-- The credential with no source, or what the source makes of it.
unfoldable pub maybe_sourced :
    Option Source → Shipped → Operation → ℕ → ℕ → Sourced → Answer Credentials × Sourced
unfolding sourced
maybe_sourced none shipped wanted now later store = (vended shipped.held, store)
maybe_sourced (some ask) shipped wanted now later store = sourced ask shipped wanted now later store

-- ShippedCredentials.credentials
unfoldable pub shipped_credentials : Shipped → Operation → ℕ → ℕ → Sourced → Outcome
unfolding maybe_sourced checked
shipped_credentials shipped wanted now later store =
    if is_write wanted && is_read_only shipped.held.operation
    then (denied vended_read_only, shipped, store)
    else checked shipped later (maybe_sourced shipped.source shipped wanted now later store)
