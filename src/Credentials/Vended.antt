-- ===== src/Credentials/Vended.antt =====
-- Vended credentials (python/deltaswamp/credentials/base.py) and the broker that serves them
-- (python/deltaswamp/credentials/broker.py). A time is a number of milliseconds since the epoch.
use text.Mathlib.Text.{◌==◌ as str_eq}
use deltaswamp.Prelude.{
  Bool, List, Option, String, [], any, false, if◌then◌else◌, is_empty, leb, none, not, some, true,
  ℕ, ◌&&◌, ◌*◌, ◌+◌, ◌||◌, ◌∷◌,
}
use deltaswamp.Prelude.Text.{codes, folds_to, lookup, lower_is, put, strip}

pub data Cloud : Type 0 where
  aws azure gcp r2 local : Cloud

pub data Operation : Type 0 where
  read_only read_write : Operation

pub record Credentials : Type 0 where
  pub cloud : Cloud
  pub url : String
  pub expires_at : Option ℕ
  pub secrets : List (String × String)
  pub scope_prefix : Option String
  pub credential_table : Option String
  pub operation : Option Operation

-- CredentialError, by what its message says.
pub data CredentialError : Type 0 where
  no_azure_endpoint vended_read_only credential_expired near_expiry source_failed : CredentialError
  nothing_to_broker unknown_table vend_failed : CredentialError

pub data Answer {ℓ} (A : Type ℓ) : Type ℓ where
  denied : CredentialError → Answer A
  vended : A → Answer A

abbrev pub second : ℕ
second = 1000

-- DEFAULT_REFRESH_MARGIN_SECONDS
abbrev pub default_refresh_margin : ℕ
default_refresh_margin = 300 * second

-- `expires_within`, at a time.
unfoldable pub expires_within : ℕ → ℕ → Credentials → Bool
expires_within now margin c = elim c.expires_at [
  | none ↦ false
  | some deadline ↦ leb deadline (now + margin)
]

unfoldable pub is_expired : ℕ → Credentials → Bool
unfolding expires_within
is_expired now c = expires_within now 0 c

abbrev pub text_or : Option String → String → String
text_or none default = default
text_or (some s) default = if str_eq s "" then default else s

-- `registry_key`
unfoldable pub registry_key : Credentials → String × String
registry_key c = (text_or c.credential_table "", text_or c.scope_prefix c.url)

-- `_has_azure_endpoint`, for one option.
unfoldable pub names_endpoint : String × String → Bool
unfolding any lower_is folds_to strip
names_endpoint (key, v) =
    ((lower_is key "azure_endpoint"
        || lower_is key "azure_storage_endpoint"
        || lower_is key "endpoint")
      && not (is_empty (strip (codes v))))
    || ((lower_is key "azure_storage_use_emulator" || lower_is key "use_emulator")
        && any (folds_to v) ("1" ∷ "true" ∷ "yes" ∷ "on" ∷ []))

abbrev pub is_azure : Cloud → Bool
is_azure azure = true
is_azure _ = false

unfoldable pub as_storage_options : Credentials → Answer (List (String × String))
unfolding any names_endpoint
as_storage_options c =
    if is_azure c.cloud && not (any names_endpoint c.secrets)
    then denied no_azure_endpoint
    else vended c.secrets

-- Whether a write is refused the credential: it was vended for reading.
abbrev pub is_read_only : Option Operation → Bool
is_read_only (some read_only) = true
is_read_only _ = false

abbrev pub is_write : Operation → Bool
is_write read_write = true
is_write read_only = false

-- StaticCredentialProvider.credentials
unfoldable pub static_credentials : Credentials → ℕ → Operation → Answer Credentials
unfolding is_expired
static_credentials held now wanted =
    if is_read_only held.operation && is_write wanted
    then denied vended_read_only
    else if is_expired now held
    then denied credential_expired
    else vended held

-- A CredentialProvider, as its callers see it: the table it vends for and its answer at a time,
-- `none` where it raises.
pub record Provider : Type 0 where
  pub provided_table : Option String
  pub vend_at : ℕ → Operation → Option Credentials

-- CredentialBroker: its providers by table id.
abbrev pub Broker : Type 0
Broker = List (String × Provider)

unfoldable pub add_provider : Provider → Broker → Answer (String × Broker)
unfolding put
add_provider provider broker =
    let key = text_or provider.provided_table "" in
    if str_eq key "" then denied nothing_to_broker else vended (key, put key provider broker)

abbrev pub answer_of : Option Credentials → Answer Credentials
answer_of none = denied vend_failed
answer_of (some c) = vended c

-- CredentialBroker.vend
unfoldable pub vend : Broker → ℕ → String → Operation → Answer Credentials
unfolding lookup
vend broker now asked_for wanted = elim (lookup asked_for broker) [
  | none ↦ denied unknown_table
  | some provider ↦ answer_of (provider.vend_at now wanted)
]
