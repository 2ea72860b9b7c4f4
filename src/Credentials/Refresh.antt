-- ===== src/Credentials/Refresh.antt =====
-- What the extension's slots hold, after any history of steps: the stores read the credential that
-- was published last.
use mathlib.Core.Path.{subst}
use text.Mathlib.Text.{◌==◌ as str_eq}
use text.Mathlib.TextEquality.{eq_iff}
use deltaswamp.Prelude.{
  Bool, Bool-cases, List, Option, Option-cases, String, [], ap, arith, false, if◌then◌else◌, inl,
  inr, is_empty, ltb, none, not, refl, select, some, sym, true, ℕ, ◌&&◌, ◌+◌, ◌==◌, ◌||◌, ◌∙◌, ◌∷◌,
  ◌≡◌, ◌⊎◌,
}
use deltaswamp.Credentials.Slots.{
  Entry, Options, Refresher, after_fork, drop_entry, drop_key, entry_for, idle_time, is_due,
  publish, refresh, remove_slot, renew, retry, same_options, track,
}
use deltaswamp.IdentityColumn.{slot}
use deltaswamp.Prelude.Text.{lookup, lookup-put, mem, put}

-- The steps of threads that track a slot and of the one that refreshes. A slot is not tracked
-- between the two parts of its removal.
pub data Step (r : Refresher) : Refresher → Type 0 where
  tracks :
      (slot : String) (t pid : ℕ) (alive : Bool) (options : Options) (expires : Option ℕ)
      → mem slot r.dropping ≡ false
      → Step r (track slot t pid alive options expires r)
  refreshes :
      (slot : String) (e : Entry) (t : ℕ) (alive : Bool) (answer : Option (Options × Option ℕ))
      → lookup slot r.entries ≡ some e
      → is_due t e ≡ true
      → Step r (refresh slot e t alive answer r)
  removes : (slot : String) → mem slot r.dropping ≡ true → Step r (remove_slot slot r)

-- The states that a process comes to from one with nothing tracked.
pub data Reached (start : ℕ) : Refresher → Type 0 where
  started : Reached start (record { entries = []; native = []; dropping = []; process = start })
  stepped : {r s : Refresher} → Reached start r → Step r s → Reached start s

-- A tracked slot is not being dropped, and if its entry has options, the extension has these and
-- their expiry.
abbrev pub Agrees : Refresher → String → Entry → Type 0
Agrees r slot e =
    (mem slot r.dropping ≡ false)
    × ((is_empty e.options ≡ true) ⊎ (lookup slot r.native ≡ some (e.options, e.entry_expires)))

-- This holds of every slot that is tracked.
abbrev IsPublished : Refresher → Type 0
IsPublished r = (slot : String) (e : Entry) → lookup slot r.entries ≡ some e → Agrees r slot e

lookup-drop_key {ℓ} :
    {V : Type ℓ} (k j : String) (d : List (String × V))
    → lookup j (drop_key k d) ≡ (if str_eq k j then none else lookup j d)
unfolding lookup drop_key select
lookup-drop_key k j [] = ground arith
lookup-drop_key k j ((i, w) ∷ d) =
    ground (arith, eq_iff k j, eq_iff i k, eq_iff i j, lookup-drop_key k j d)

mem-drop :
    (k j : String) (names : List String)
    → mem j (select (λ s. not (str_eq s k)) names) ≡ (mem j names && not (str_eq k j))
unfolding mem select
mem-drop k j [] = refl
mem-drop k j (i ∷ names) = ground (arith, eq_iff k j, eq_iff i k, eq_iff j i, mem-drop k j names)

module _ {ℓ} {V : Type ℓ} (k j : String) (v : V) (d : List (String × V)) where
  lookup-put_eq : str_eq k j ≡ true → lookup j (put k v d) ≡ some v
  lookup-put_eq same = lookup-put k j v d ∙ rw same refl

  lookup-put_ne : str_eq k j ≡ false → lookup j (put k v d) ≡ lookup j d
  lookup-put_ne other = lookup-put k j v d ∙ rw other refl

none-ne-some : (f : Entry) → ¬ (none ≡ some f)
none-ne-some f h = cc

false-ne-true : ¬ (false ≡ true)
false-ne-true h = cc

pub some_inj : (e f : Entry) → some e ≡ some f → e ≡ f
some_inj e f h = cc

-- An entry put at a slot, where the slot agrees with it and the other slots are left alone.
put-IsPublished :
    (r : Refresher) (slot : String) (e : Entry)
    → IsPublished r
    → Agrees r slot e
    → IsPublished (record r { entries = put slot e r.entries })
put-IsPublished r slot e p a j f h = elim (Bool-cases (str_eq slot j)) [
  | inl same ↦
      (let now_f : e ≡ f = some_inj e f (sym (lookup-put_eq slot j e r.entries same) ∙ h) in
        subst (λ x. Agrees r x f) ((eq_iff slot j).0 same) (subst (λ x. Agrees r slot x) now_f a))
  | inr other ↦ p j f (sym (lookup-put_ne slot j e r.entries other) ∙ h)
]

-- The extension's slots are set first, so that the entry agrees.
native-IsPublished :
    (r : Refresher) (slot : String) (options : Options) (expires : Option ℕ) (e : Entry)
    → IsPublished r
    → mem slot r.dropping ≡ false
    → e.options ≡ options
    → e.entry_expires ≡ expires
    → IsPublished
        (record r { entries = put slot e r.entries; native = put slot (options, expires) r.native })
native-IsPublished r slot options expires e p m same_o same_x j f h =
    elim (Bool-cases (str_eq slot j)) [
      | inl same ↦
          (let now_f : e ≡ f = some_inj e f (sym (lookup-put_eq slot j e r.entries same) ∙ h) in
            let at_j : slot ≡ j = (eq_iff slot j).0 same in
            let holds : lookup j (put slot (options, expires) r.native) ≡ some (options, expires) =
              lookup-put_eq slot j (options, expires) r.native same in
            (
              subst (λ x. mem x r.dropping ≡ false) at_j m,
              inr (
                  subst
                    (λ x.
                      lookup j (put slot (options, expires) r.native)
                      ≡ some (x.options, x.entry_expires))
                    now_f (rw (same_o, same_x) holds)),
            ))
      | inr other ↦
          (let (kept, agrees) = p j f (sym (lookup-put_ne slot j e r.entries other) ∙ h) in
            (
              kept,
              elim agrees [
                | inl none_yet ↦ inl none_yet
                | inr holds ↦ inr (lookup-put_ne slot j (options, expires) r.native other ∙ holds)
              ],
            ))
    ]

publish-IsPublished :
    (slot : String) (e : Entry) (options : Options) (expires : Option ℕ) (t : ℕ) (r : Refresher)
    → IsPublished r
    → mem slot r.dropping ≡ false
    → IsPublished (publish slot e options expires t r)
unfolding publish
publish-IsPublished slot e options expires t r p m =
    native-IsPublished r slot options expires _ p m refl refl

retry-IsPublished :
    (slot : String) (e : Entry) (t : ℕ) (r : Refresher)
    → IsPublished r
    → Agrees r slot e
    → IsPublished (retry slot e t r)
unfolding retry
retry-IsPublished slot e t r p a = put-IsPublished r slot _ p a

renew-IsPublished :
    (slot : String) (e : Entry) (t : ℕ) (answer : Option (Options × Option ℕ)) (r : Refresher)
    → IsPublished r
    → Agrees r slot e
    → IsPublished (renew slot e t answer r)
unfolding renew
renew-IsPublished slot e t none r p a = retry-IsPublished slot e t r p a
renew-IsPublished slot e t (some (options, expires)) r p a =
    elim (Bool-cases (same_options options e.options)) [
      | inl same ↦ rw same (retry-IsPublished slot e t r p a)
      | inr other ↦ rw other (publish-IsPublished slot e options expires t r p a.0)
    ]

drop_entry-IsPublished :
    (slot : String) (r : Refresher) → IsPublished r → IsPublished (drop_entry slot r)
unfolding drop_entry mem
drop_entry-IsPublished slot r p j f h = elim (Bool-cases (str_eq slot j)) [
  | inl same ↦ absurd (none-ne-some f (sym (lookup-drop_key slot j r.entries ∙ rw same refl) ∙ h))
  | inr other ↦
      (let (kept, agrees) = p j f (sym (lookup-drop_key slot j r.entries ∙ rw other refl) ∙ h) in
        (ground (arith, eq_iff slot j, eq_iff j slot, kept), agrees))
]

remove_slot-IsPublished :
    (slot : String) (r : Refresher)
    → mem slot r.dropping ≡ true
    → IsPublished r
    → IsPublished (remove_slot slot r)
unfolding remove_slot
remove_slot-IsPublished slot r m p j f h = elim (Bool-cases (str_eq slot j)) [
  | inl same ↦ absurd (
      false-ne-true
        (sym (p j f h).0 ∙ subst (λ x. mem x r.dropping ≡ true) ((eq_iff slot j).0 same) m))
  | inr other ↦
      (let (kept, agrees) = p j f h in
        (
          mem-drop slot j r.dropping ∙ rw kept refl,
          elim agrees [
            | inl none_yet ↦ inl none_yet
            | inr holds ↦ inr ((lookup-drop_key slot j r.native ∙ rw other refl) ∙ holds)
          ],
        ))
]

refresh-IsPublished :
    (slot : String) (e : Entry) (t : ℕ) (alive : Bool) (answer : Option (Options × Option ℕ))
    (r : Refresher)
    → lookup slot r.entries ≡ some e
    → IsPublished r
    → IsPublished (refresh slot e t alive answer r)
unfolding refresh
refresh-IsPublished slot e t alive answer r h p =
    elim (Bool-cases (not alive || ltb (e.last_used + idle_time) t)) [
      | inl over ↦ rw over (drop_entry-IsPublished slot r p)
      | inr live ↦ rw live (renew-IsPublished slot e t answer r p (p slot e h))
    ]

after_fork-IsPublished : (pid : ℕ) (r : Refresher) → IsPublished r → IsPublished (after_fork pid r)
unfolding after_fork lookup
after_fork-IsPublished pid r p = elim (Bool-cases (r.process == pid)) [
  | inl same ↦ rw same p
  | inr other ↦ rw other (λ j f h. absurd (none-ne-some f h))
]

after_fork-dropping : (pid : ℕ) (r : Refresher) → (after_fork pid r).dropping ≡ r.dropping
unfolding after_fork
after_fork-dropping pid r = ground arith

-- An entry that `track` finds or makes agrees with the extension.
entry_for-Agrees :
    (r : Refresher) (slot : String) (alive : Bool) (t : ℕ)
    → IsPublished r
    → mem slot r.dropping ≡ false
    → Agrees r slot (entry_for (lookup slot r.entries) alive t)
unfolding entry_for
entry_for-Agrees r slot alive t p m = elim (Option-cases (lookup slot r.entries)) [
  | inl absent ↦ rw absent (m, inl refl)
  | inr (e, found) ↦
      rw found
        (elim (Bool-cases alive) [ inl a ↦ rw a (p slot e found) | inr a ↦ rw a (m, inl refl) ])
]

track-IsPublished :
    (slot : String) (t pid : ℕ) (alive : Bool) (options : Options) (expires : Option ℕ)
    (r : Refresher)
    → mem slot r.dropping ≡ false
    → IsPublished r
    → IsPublished (track slot t pid alive options expires r)
unfolding track
track-IsPublished slot t pid alive options expires r m p =
    let here = after_fork pid r in
    let ok = after_fork-IsPublished pid r p in
    let free : mem slot here.dropping ≡ false = ap (mem slot) (after_fork-dropping pid r) ∙ m in
    let e = entry_for (lookup slot here.entries) alive t in
    elim (Bool-cases (same_options options e.options)) [
      | inl same ↦
          rw same (put-IsPublished here slot e ok (entry_for-Agrees here slot alive t ok free))
      | inr other ↦ rw other (publish-IsPublished slot e options expires t here ok free)
    ]

Reached-IsPublished : {start : ℕ} {r : Refresher} → Reached start r → IsPublished r
unfolding lookup
Reached-IsPublished started = λ j f h. absurd (none-ne-some f h)
Reached-IsPublished (stepped h (tracks slot t pid alive options expires m)) =
    track-IsPublished slot t pid alive options expires _ m (Reached-IsPublished h)
Reached-IsPublished (stepped h (refreshes slot e t alive answer found now)) =
    refresh-IsPublished slot e t alive answer _ found (Reached-IsPublished h)
Reached-IsPublished (stepped h (removes slot m)) =
    remove_slot-IsPublished slot _ m (Reached-IsPublished h)

-- In every state that a process comes to, a tracked slot that was given options stands in the
-- extension with the options and the expiry that its entry records, and is not being removed, if no
-- slot is tracked between the two parts of its removal.
pub Reached-Agrees :
    {start : ℕ} {r : Refresher} (slot : String) (e : Entry)
    → Reached start r
    → lookup slot r.entries ≡ some e
    → Agrees r slot e
Reached-Agrees slot e h tracked = Reached-IsPublished h slot e tracked
