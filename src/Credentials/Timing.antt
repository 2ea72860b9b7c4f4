-- ===== src/Credentials/Timing.antt =====
-- When a slot's credential is asked for again: while the one that it holds still lives.
use text.Mathlib.TextEquality.{eq_iff}
use mathlib.Core.Path.{subst}
use deltaswamp.Prelude.{
  Bool-cases, List, Option, String, arith, inl, inr, none, refl, some, sym, ℕ, ◌*◌, ◌+◌, ◌<◌, ◌∙◌,
  ◌≡◌, ◌≤◌, ◌⊎◌,
}
use deltaswamp.Credentials.Refresh.{some_inj}
use deltaswamp.Credentials.Slots.{
  Entry, Options, Refresher, due_time, publish, refresh_ahead, renew, retry, retry_at, retry_time,
  same_options,
}
use deltaswamp.Credentials.Vended.{second}
use deltaswamp.IdentityColumn.{slot}
use deltaswamp.Metadata.Wanted.{left}
use deltaswamp.Prelude.Text.{lookup, lookup-put, put}

-- A due time after `t` and before the expiry, soon after `t` or not long before the expiry.
abbrev pub InTime : ℕ → ℕ → Option ℕ → Type 0
InTime t deadline none = ⊥
InTime t deadline (some d) =
    (t < d) × (d < deadline) × ((d ≤ t + retry_time) ⊎ (deadline ≤ d + refresh_ahead))

due_time-InTime :
    (t deadline : ℕ) → t + 2 * second ≤ deadline → InTime t deadline (due_time (some deadline) t t)
unfolding due_time
due_time-InTime t deadline h = (ground arith, ground arith, inr (ground arith))

retry_at-InTime :
    (t deadline : ℕ)
    → t + 2 * second ≤ deadline
    → InTime t deadline (some (retry_at (some deadline) t))
unfolding retry_at
retry_at-InTime t deadline h = (ground arith, ground arith, inl (ground arith))

-- What holds of the entry that is put at a slot holds of the one found there.
at_slot :
    (P : Entry → Type 0) (slot : String) (e f : Entry) (d : List (String × Entry))
    → lookup slot (put slot e d) ≡ some f
    → P e
    → P f
at_slot P slot e f d h p =
    subst P
      (some_inj e f (sym (lookup-put slot slot e d ∙ rw ((eq_iff slot slot).1 refl) refl) ∙ h)) p

abbrev IsInTime : ℕ → Entry → Type 0
IsInTime t e =
    (deadline : ℕ)
    → e.entry_expires ≡ some deadline
    → t + 2 * second ≤ deadline
    → InTime t deadline e.due

publish-IsInTime :
    (slot : String) (e f : Entry) (options : Options) (expires : Option ℕ) (t : ℕ) (r : Refresher)
    → lookup slot (publish slot e options expires t r).entries ≡ some f
    → IsInTime t f
unfolding publish
publish-IsInTime slot e f options expires t r h =
    at_slot (IsInTime t) slot _ f r.entries h λ deadline same left.
      subst (λ x. InTime t deadline (due_time x t t)) (sym same) (due_time-InTime t deadline left)

retry-IsInTime :
    (slot : String) (e f : Entry) (t : ℕ) (r : Refresher)
    → lookup slot (retry slot e t r).entries ≡ some f
    → IsInTime t f
unfolding retry
retry-IsInTime slot e f t r h = at_slot (IsInTime t) slot _ f r.entries h λ deadline same left.
    subst (λ x. InTime t deadline (some (retry_at x t))) (sym same)
      (retry_at-InTime t deadline left)

-- Whatever the provider answers, a slot whose credential then has two seconds or more to live is
-- asked for again before it expires: within the retry time, or in the last five minutes.
pub renew-InTime :
    (slot : String) (e f : Entry) (t : ℕ) (answer : Option (Options × Option ℕ)) (r : Refresher)
    (deadline : ℕ)
    → lookup slot (renew slot e t answer r).entries ≡ some f
    → f.entry_expires ≡ some deadline
    → t + 2 * second ≤ deadline
    → InTime t deadline f.due
unfolding renew
renew-InTime slot e f t none r deadline h same left =
    retry-IsInTime slot e f t r h deadline same left
renew-InTime slot e f t (some (options, expires)) r deadline h same left =
    elim (Bool-cases (same_options options e.options)) [
      | inl old ↦ retry-IsInTime slot e f t r (rw old at h) deadline same left
      | inr new ↦ publish-IsInTime slot e f options expires t r (rw new at h) deadline same left
    ]
