-- ===== src/Credentials/Slots.antt =====
-- The credential slots that a process keeps fresh (python/deltaswamp/credentials/refresh.py:
-- _Entry and _Refresher). The slots of the native extension are a dictionary that
-- set_credential_slot and remove_credential_slot change. What the environment decides is an
-- argument: the time, the process, whether a provider still lives, and what it vends.
use text.Mathlib.Text.{◌==◌ as str_eq}
use deltaswamp.Prelude.{
  Bool, List, Option, String, [], all, false, if◌then◌else◌, leb, length, ltb, none, not, select,
  some, ℕ, ◌&&◌, ◌*◌, ◌+◌, ◌-◌, ◌/◌, ◌==◌, ◌||◌, ◌∷◌,
}
use deltaswamp.Credentials.Vended.{second}
use deltaswamp.IdentityColumn.{slot}
use deltaswamp.Prelude.Text.{lookup, put}

abbrev pub Options : Type 0
Options = List (String × String)

-- A due time of `none` is infinite.
pub record Entry : Type 0 where
  pub entry_expires : Option ℕ
  pub published_at : ℕ
  pub last_used : ℕ
  pub due : Option ℕ
  pub options : Options

-- The tracked entries and the extension's slots, the slots that `_drop` has taken out of the
-- entries and not yet out of the extension, and the process.
pub record Refresher : Type 0 where
  pub entries : List (String × Entry)
  pub native : List (String × (Options × Option ℕ))
  pub dropping : List String
  pub process : ℕ

-- REFRESH_AHEAD_SECONDS, IDLE_SECONDS and RETRY_SECONDS
abbrev pub refresh_ahead : ℕ
refresh_ahead = 300 * second

abbrev pub idle_time : ℕ
idle_time = 43200 * second

abbrev pub retry_time : ℕ
retry_time = 30 * second

abbrev pub max_of : ℕ → ℕ → ℕ
max_of a b = if ltb a b then b else a

abbrev pub min_of : ℕ → ℕ → ℕ
min_of a b = if ltb b a then b else a

-- `_due`
unfoldable pub due_time : Option ℕ → ℕ → ℕ → Option ℕ
due_time none published t = none
due_time (some deadline) published t =
    some (max_of (t + second) (deadline - min_of refresh_ahead ((deadline - published) / 2)))

-- `now + min(RETRY_SECONDS, max(1.0, left / 4.0))`
unfoldable pub retry_at : Option ℕ → ℕ → ℕ
retry_at none t = t + second
retry_at (some deadline) t = t + min_of retry_time (max_of second ((deadline - t) / 4))

-- `==` on dictionaries.
abbrev pub holds_text : Option String → String → Bool
holds_text none v = false
holds_text (some w) v = str_eq w v

unfoldable pub same_options : Options → Options → Bool
unfolding all lookup
same_options a b = (length a == length b) && all (λ e. holds_text (lookup e.0 b) e.1) a

unfoldable pub drop_key {ℓ} : {V : Type ℓ} → String → List (String × V) → List (String × V)
unfolding select
drop_key slot entries = select (λ e. not (str_eq e.0 slot)) entries

-- `_publish`
unfoldable pub publish : String → Entry → Options → Option ℕ → ℕ → Refresher → Refresher
unfolding due_time put
publish slot entry options expires t r = record r {
  entries =
      put slot
        (record entry {
          entry_expires = expires;
          published_at = t;
          due = due_time expires t t;
          options = options;
        })
        r.entries;
  native = put slot (options, expires) r.native;
}

abbrev pub new_entry : ℕ → Entry
new_entry t = record {
  entry_expires = none;
  published_at = t;
  last_used = t;
  due = some t;
  options = [];
}

-- The entry of a slot, a new one where there is none or its provider is gone.
unfoldable pub entry_for : Option Entry → Bool → ℕ → Entry
entry_for none alive t = new_entry t
entry_for (some e) alive t = if alive then record e { last_used = t } else new_entry t

-- A forked child starts with no entries.
unfoldable pub after_fork : ℕ → Refresher → Refresher
after_fork pid r = if r.process == pid then r else record r { entries = []; process = pid }

-- `track`
unfoldable pub track : String → ℕ → ℕ → Bool → Options → Option ℕ → Refresher → Refresher
unfolding after_fork entry_for lookup same_options publish put
track slot t pid alive options expires r =
    let here = after_fork pid r in
    let e = entry_for (lookup slot here.entries) alive t in
    if same_options options e.options
    then record here { entries = put slot e here.entries }
    else publish slot e options expires t here

-- `_drop`, in its two parts: the first under the lock, the second after it.
unfoldable pub drop_entry : String → Refresher → Refresher
unfolding drop_key
drop_entry slot r = record r { entries = drop_key slot r.entries; dropping = slot ∷ r.dropping }

unfoldable pub remove_slot : String → Refresher → Refresher
unfolding drop_key select
remove_slot slot r = record r {
  native = drop_key slot r.native;
  dropping = select (λ s. not (str_eq s slot)) r.dropping;
}

unfoldable pub retry : String → Entry → ℕ → Refresher → Refresher
unfolding retry_at put
retry slot e t r = record r {
  entries = put slot (record e { due = some (retry_at e.entry_expires t) }) r.entries;
}

-- What the provider's answer does to an entry; `none` where vending failed.
unfoldable pub renew : String → Entry → ℕ → Option (Options × Option ℕ) → Refresher → Refresher
unfolding retry publish same_options
renew slot e t none r = retry slot e t r
renew slot e t (some (options, expires)) r =
    if same_options options e.options then retry slot e t r else publish slot e options expires t r

-- `_refresh`, for a slot that is tracked.
unfoldable pub refresh :
    String → Entry → ℕ → Bool → Option (Options × Option ℕ) → Refresher → Refresher
unfolding drop_entry renew
refresh slot e t alive answer r =
    if not alive || ltb (e.last_used + idle_time) t
    then drop_entry slot r
    else renew slot e t answer r

-- `e.due <= now`, by which `_run` chooses whom to refresh.
unfoldable pub is_due : ℕ → Entry → Bool
is_due t e = elim e.due [ none ↦ false | some d ↦ leb d t ]
