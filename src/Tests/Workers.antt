-- ===== src/Tests/Workers.antt =====
-- Tests of what workers are given: splits, credentials, and the files that are looked into.
use mathlib.Core.List.{Perm, flatten}
use mathlib.Core.Path.{subst}
use deltaswamp.Prelude.{
  All, Bool-cases, List, Option, String, [], any, arith, false, inl, inr, is_empty, length, none,
  not, refl, some, sym, true, ℕ, ◌+◌, ◌∙◌, ◌∷◌, ◌≡◌, ◌≤◌,
}
use deltaswamp.Credentials.Refresh.{Agrees, Reached, Reached-Agrees, started, stepped, tracks}
use deltaswamp.Credentials.Serving.{
  AnswersWell, KeepsServing, may_serve, shipped_credentials-AnswersWell,
}
use deltaswamp.Credentials.Shipped.{Shipped, Source, shipped_credentials}
use deltaswamp.Credentials.Slots.{Entry, Options, Refresher, due_time, renew, track}
use deltaswamp.Credentials.Timing.{InTime, renew-InTime}
use deltaswamp.Credentials.Vended.{
  Credentials, Operation, aws, denied, read_only, read_write, vended_read_only,
}
use deltaswamp.Datetimes.Cleared.{
  AtLeast, HasLeaf, TellsTruth, Unmoved, at_field, legacy_suspects-Unmoved, listed,
}
use deltaswamp.Datetimes.Stats.{
  DataFile, Kind, Leaf, Stat, datetime_of, days, ended, file_fields, get_stat, instants,
  legacy_suspects, member, member_of, null, object, parse_stat, stat_name, text, whole,
}
use deltaswamp.Distributed.Balance.{balance, partitions, total}
use deltaswamp.Distributed.Loads.{balance-loads}
use deltaswamp.Distributed.Parts.{balance-parts}
use deltaswamp.IdentityColumn.Slots.{part}
use deltaswamp.Metadata.Schema.{Fields, field, no_fields, primitive}
use deltaswamp.Prelude.Int.{negsuc, pos, ℤ}
use deltaswamp.Prelude.Text.{codes, codes_eq, lookup, mem, put}
use deltaswamp.Reference.Split.{Text}

-- Five splits for two workers.
abbrev Split : Type 0
Split = ℕ × Text

abbrev splits : List Split
splits = (3, codes "a") ∷ (9, codes "b") ∷ (5, codes "c") ∷ (4, codes "d") ∷ (5, codes "b2") ∷ []

abbrev size_of : Split → ℕ
size_of s = s.0

abbrev path_of : Split → Text
path_of s = s.1

two_groups :
    balance size_of path_of splits 2
    ≡ ((9, codes "b") ∷ (4, codes "d") ∷ [])
      ∷ ((5, codes "b2") ∷ (5, codes "c") ∷ (3, codes "a") ∷ [])
      ∷ []
unfolding balance
two_groups = refl

no_groups : partitions size_of path_of splits (negsuc 4) ≡ none
unfolding partitions
no_groups = refl

balance-parts_example :
    Perm (flatten (balance size_of path_of splits 2)) splits
    × All (λ b. not (is_empty b) ≡ true) (balance size_of path_of splits 2)
    × (length (balance size_of path_of splits 2) ≤ 2)
balance-parts_example = balance-parts size_of path_of splits 2 (omega arith)

balance-loads_example :
    All
      (λ b. All (λ c. total size_of b ≤ total size_of c + 9) (balance size_of path_of splits 2))
      (balance size_of path_of splits 2)
balance-loads_example = balance-loads size_of path_of splits 2 9 (omega arith)

-- A plan whose credential is about to expire, and a source with a fresh one.
credential : ℕ → Operation → Credentials
credential deadline wanted = record {
  cloud = aws;
  url = "s3://b/t";
  expires_at = some deadline;
  secrets = ("aws_session_token", "x") ∷ [];
  scope_prefix = none;
  credential_table = some "t";
  operation = some wanted;
}

abbrev fresh_source : Source
fresh_source id wanted = some (credential 4000000 wanted)

plan : Shipped
plan = record {
  held = credential 400000 read_write;
  shipped_table = some "t";
  source = some fresh_source;
  identity = "p";
}

credential_inj : (c d : Credentials) → some c ≡ some d → c ≡ d
credential_inj c d e = cc

fresh_source-IsHonest :
    (id : Option String) (wanted : Operation) (c : Credentials)
    → fresh_source id wanted ≡ some c
    → may_serve wanted c ≡ true
unfolding credential
fresh_source-IsHonest id read_only c e = refl
fresh_source-IsHonest id read_write c e =
    subst (λ x. may_serve read_write x ≡ true) (credential_inj _ c e) refl

shipped_credentials-AnswersWell_example :
    AnswersWell read_write 390100 plan (shipped_credentials plan read_write 390000 390100 [])
    × KeepsServing (shipped_credentials plan read_write 390000 390100 []).2
unfolding plan
shipped_credentials-AnswersWell_example =
    shipped_credentials-AnswersWell plan read_write 390000 390100 [] fresh_source-IsHonest tt

-- A plan for writing is refused a credential to write after it was served one to read.
write_after_read :
    (shipped_credentials
      (shipped_credentials plan read_only 390000 390100 []).1
      read_write
      390200
      390300
      []).0
    ≡ denied vended_read_only
unfolding shipped_credentials plan credential
write_after_read = refl

-- A process with one slot.
abbrev token : Options
token = ("aws_session_token", "x") ∷ []

abbrev nothing_tracked : Refresher
nothing_tracked = record { entries = []; native = []; dropping = []; process = 1 }

one_slot : Refresher
one_slot = track "p" 1000 1 true token (some 4000000) nothing_tracked

one_slot-Reached : Reached 1 one_slot
unfolding one_slot mem
one_slot-Reached = stepped started (tracks "p" 1000 1 true token (some 4000000) refl)

tracked_entry : Entry
tracked_entry = record {
  entry_expires = some 4000000;
  published_at = 1000;
  last_used = 1000;
  due = some 3700000;
  options = token;
}

one_slot-tracked : lookup "p" one_slot.entries ≡ some tracked_entry
unfolding one_slot tracked_entry track lookup put due_time
one_slot-tracked = refl

Reached-Agrees_example : Agrees one_slot "p" tracked_entry
Reached-Agrees_example = Reached-Agrees "p" tracked_entry one_slot-Reached one_slot-tracked

-- Vending fails six minutes before the expiry.
retried_entry : Entry
unfolding tracked_entry
retried_entry = record tracked_entry { due = some 3670000 }

retried : lookup "p" (renew "p" tracked_entry 3640000 none one_slot).entries ≡ some retried_entry
unfolding renew retried_entry one_slot track lookup put
retried = refl

renew-InTime_example : InTime 3640000 4000000 retried_entry.due
unfolding retried_entry
renew-InTime_example =
    renew-InTime "p" tracked_entry retried_entry 3640000 none one_slot 4000000 retried refl
      (omega arith)

-- Two files of a table with a date; the second one's statistics clear it.
dated : Fields
dated =
    field (codes "region") (primitive (codes "string")) true []
      (field (codes "day") (primitive (codes "date")) true [] no_fields)

bounds_of : ℤ → Stat
bounds_of d = object (
    member (codes "numRecords") (whole 2)
      (member (codes "minValues") (object (member (codes "day") (text (some d) none) ended)) ended))

abbrev old_file : DataFile
old_file = record { file_path = codes "f1"; file_size = 10; stats = null }

new_file : DataFile
new_file = record { file_path = codes "f2"; file_size = 20; stats = bounds_of (pos 18262) }

abbrev rows : Leaf → List (Option ℤ)
rows leaf = some (pos 18262) ∷ some (pos 19000) ∷ []

only_old :
    legacy_suspects dated (codes "region" ∷ []) false (old_file ∷ new_file ∷ [])
    ≡ (codes "f1", 10) ∷ []
unfolding legacy_suspects dated new_file bounds_of
only_old = refl

not_listed :
    listed
      (codes "f2")
      (legacy_suspects dated (codes "region" ∷ []) false (old_file ∷ new_file ∷ []))
    ≡ false
unfolding listed any
not_listed = rw only_old refl

day_inj : (v w : ℤ) → some v ≡ some w → v ≡ w
day_inj v w e = cc

no_value : (v : ℤ) → ¬ (none ≡ some v)
no_value v e = cc

get_stat-null : (path : List Text) → get_stat null path ≡ null
unfolding get_stat
get_stat-null [] = refl
get_stat-null (part ∷ path) = refl

no_stat :
    (kind : Kind) (path : List Text) (v : ℤ) → ¬ (parse_stat kind (get_stat null path) ≡ some v)
no_stat days path v e = no_value v (rw (get_stat-null path) at e)
no_stat instants path v e = no_value v (rw (get_stat-null path) at e)

abbrev day_stats : Stat
day_stats = object (member (codes "day") (text (some (pos 18262)) none) ended)

get_day :
    (kind : Kind) (path : List Text) (v : ℤ)
    → parse_stat kind (get_stat day_stats path) ≡ some v
    → pos 18262 ≡ v
unfolding get_stat member_of
get_day days [] v e = absurd (no_value v e)
get_day instants [] v e = absurd (no_value v e)
get_day days (part ∷ []) v e = elim (Bool-cases (codes_eq (codes "day") part)) [
  | inl day ↦ day_inj _ v (rw day at e)
  | inr other ↦ absurd (no_value v (rw other at e))
]
get_day instants (part ∷ []) v e = elim (Bool-cases (codes_eq (codes "day") part)) [
  | inl day ↦ absurd (no_value v (rw day at e))
  | inr other ↦ absurd (no_value v (rw other at e))
]
get_day days (part ∷ next ∷ path) v e = elim (Bool-cases (codes_eq (codes "day") part)) [
  | inl day ↦ absurd (no_value v (rw day at e))
  | inr other ↦ absurd (no_value v (rw other at e))
]
get_day instants (part ∷ next ∷ path) v e = elim (Bool-cases (codes_eq (codes "day") part)) [
  | inl day ↦ absurd (no_value v (rw day at e))
  | inr other ↦ absurd (no_value v (rw other at e))
]

null-ne-whole : (n : ℕ) → ¬ (null ≡ whole n)
null-ne-whole n e = cc

new_file-IsTrue : TellsTruth new_file.stats rows
unfolding new_file bounds_of member_of codes_eq
new_file-IsTrue = record {
  nulls = λ path kind n e g. absurd (null-ne-whole n (sym (get_stat-null path) ∙ e));
  least = λ path kind v e.
      subst (λ b. All (AtLeast b) (rows (path, kind))) (get_day kind path v e) (omega arith);
  most = λ path kind v e. absurd (no_stat kind path v e);
}

day_leaf : HasLeaf false (file_fields (codes "region" ∷ []) dated) (codes "day" ∷ []) days
unfolding dated file_fields stat_name datetime_of any
day_leaf = at_field refl

legacy_suspects-Unmoved_example : All (Unmoved days) (rows (codes "day" ∷ [], days))
unfolding legacy_suspects dated new_file bounds_of
legacy_suspects-Unmoved_example =
    legacy_suspects-Unmoved dated (codes "region" ∷ []) false (old_file ∷ []) [] new_file rows
      (codes "day" ∷ []) days not_listed new_file-IsTrue day_leaf
