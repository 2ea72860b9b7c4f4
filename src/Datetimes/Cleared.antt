-- ===== src/Datetimes/Cleared.antt =====
-- A file that is not chosen holds no value outside the limits.
use mathlib.Core.List.{append_assoc}
use mathlib.Core.Path.{subst}
use deltaswamp.Prelude.{
  ==_iff, All, Bool, Bool-cases, List, Option, [], any, ap, arith, false, inl, inr, is_empty, none,
  not, refl, some, sym, true, ℕ, ◌&&◌, ◌++◌, ◌||◌, ◌∙◌, ◌∷◌, ◌≡◌,
}
use deltaswamp.Datetimes.Stats.{
  DataFile, Kind, Leaf, Members, Stat, after_limit, all_null, before_limit, chosen, contains_in,
  date_limit, datetime_of, days, file_fields, get_stat, instants, int96_limit, leaf_at,
  leaf_suspect, leaves, legacy_suspects, limit_of, member_of, null, object, other_value, parse_stat,
  same_count, stat_name, suspects, text, timestamp_limit, too_early, too_late, unstatted, whole,
}
use deltaswamp.Distributed.Balance.{partitions}
use deltaswamp.Metadata.Schema.{
  DataType, Fields, Notes, array, field, map_of, no_fields, primitive, struct,
}
use deltaswamp.Prelude.Guards.{or_false}
use deltaswamp.Prelude.Int.{leb_ℤ, ℤ, ◌≤ℤ◌}
use deltaswamp.Prelude.Text.{codes, codes_eq}
use deltaswamp.Reference.Split.{Text}

-- The dates and timestamps that stand in the rows of a file by themselves or in structs, with the
-- names that statistics know them by.
pub data HasLeaf (mapped : Bool) : Fields → List Text → Kind → Type 0 where
  at_field :
      {f t : Text} {n : Bool} {m : Notes} {fs : Fields} {kind : Kind}
      → datetime_of t ≡ some kind
      → HasLeaf mapped (field f (primitive t) n m fs) (stat_name mapped f m ∷ []) kind
  in_struct :
      {f : Text} {inner : Fields} {n : Bool} {m : Notes} {fs : Fields} {path : List Text}
      {kind : Kind}
      → HasLeaf mapped inner path kind
      → HasLeaf mapped (field f (struct inner) n m fs) (stat_name mapped f m ∷ path) kind
  behind :
      {f : Text} {t : DataType} {n : Bool} {m : Notes} {fs : Fields} {path : List Text}
      {kind : Kind}
      → HasLeaf mapped fs path kind
      → HasLeaf mapped (field f t n m fs) path kind

-- Bounds on a value that may be null.
abbrev pub AtLeast : ℤ → Option ℤ → Type 0
AtLeast bound none = Unit {0}
AtLeast bound (some v) = bound ≤ℤ v

abbrev pub AtMost : ℤ → Option ℤ → Type 0
AtMost bound none = Unit {0}
AtMost bound (some v) = v ≤ℤ bound

-- The statistics tell the truth of the values of a file, by leaf.
pub record IsTrue (members : Members) (values : Leaf → List (Option ℤ)) : Type 0 where
  pub nulls :
      (path : List Text) (kind : Kind) (rows : ℕ)
      → get_stat (member_of (codes "nullCount") members) path ≡ whole rows
      → member_of (codes "numRecords") members ≡ whole rows
      → All (λ v. v ≡ none) (values (path, kind))
  pub least :
      (path : List Text) (kind : Kind) (bound : ℤ)
      → parse_stat kind (get_stat (member_of (codes "minValues") members) path) ≡ some bound
      → All (AtLeast bound) (values (path, kind))
  pub most :
      (path : List Text) (kind : Kind) (bound : ℤ)
      → parse_stat kind (get_stat (member_of (codes "maxValues") members) path) ≡ some bound
      → All (AtMost bound) (values (path, kind))

abbrev pub TellsTruth : Stat → (Leaf → List (Option ℤ)) → Type 0
TellsTruth (object members) values = IsTrue members values
TellsTruth _ values = Unit {0}

-- A value that no reader moves: not before the kind's limit, and an instant before the INT96 one.
abbrev pub Unmoved : Kind → Option ℤ → Type 0
Unmoved kind none = Unit {0}
Unmoved days (some v) = date_limit ≤ℤ v
Unmoved instants (some v) = (timestamp_limit ≤ℤ v) × (leb_ℤ int96_limit v ≡ false)

any-append : (p : Leaf → Bool) (xs ys : List Leaf) → any p (xs ++ ys) ≡ (any p xs || any p ys)
unfolding any
any-append p [] ys = refl
any-append p (x ∷ xs) ys = ground (arith, any-append p xs ys)

any-behind :
    (mapped : Bool) (test : Leaf → Bool) (prefix : List Text) (f : Text) (t : DataType) (n : Bool)
    (m : Notes) (fs : Fields)
    → any test (leaves mapped prefix (field f t n m fs)) ≡ false
    → any test (leaves mapped prefix fs) ≡ false
unfolding leaves
any-behind mapped test prefix f (primitive t) n m fs h =
    (or_false _ _ (sym (any-append test (leaf_at _ (datetime_of t)) _) ∙ h)).1
any-behind mapped test prefix f (struct inner) n m fs h =
    (or_false _ _ (sym (any-append test (leaves mapped _ inner) _) ∙ h)).1
any-behind mapped test prefix f (array t) n m fs h = h
any-behind mapped test prefix f (map_of k v) n m fs h = h

any-leaf :
    {mapped : Bool} {fs : Fields} {path : List Text} {kind : Kind} (test : Leaf → Bool)
    (prefix : List Text)
    → HasLeaf mapped fs path kind
    → any test (leaves mapped prefix fs) ≡ false
    → test (prefix ++ path, kind) ≡ false
unfolding leaves any
any-leaf {mapped} test prefix (at_field {f} {t} {n} {m} {fs} {kind} e) h =
    let at = prefix ++ stat_name mapped f m ∷ [] in
    let split =
      or_false (any test (leaf_at at (datetime_of t))) (any test (leaves mapped prefix fs))
        (sym (any-append test (leaf_at at (datetime_of t)) (leaves mapped prefix fs)) ∙ h) in
    (or_false (test (at, kind)) false (subst (λ o. any test (leaf_at at o) ≡ false) e split.0)).0
any-leaf {mapped} test prefix (in_struct {f} {inner} {n} {m} {fs} {path} {kind} l) h =
    let deeper = prefix ++ stat_name mapped f m ∷ [] in
    let split =
      or_false (any test (leaves mapped deeper inner)) (any test (leaves mapped prefix fs))
        (sym (any-append test (leaves mapped deeper inner) (leaves mapped prefix fs)) ∙ h) in
    subst (λ p. test (p, kind) ≡ false) (append_assoc prefix (stat_name mapped f m ∷ []) path)
      (any-leaf test deeper l split.0)
any-leaf {mapped} test prefix (behind {f} {t} {n} {m} {fs} l) h =
    any-leaf test prefix l (any-behind mapped test prefix f t n m fs h)

nulls-Unmoved :
    (kind : Kind) (values : List (Option ℤ))
    → All (λ v. v ≡ none) values
    → All (Unmoved kind) values
nulls-Unmoved kind [] h = tt
nulls-Unmoved kind (v ∷ values) h =
    (subst (Unmoved kind) (sym h.0) tt, nulls-Unmoved kind values h.1)

bounded-days :
    (low : ℤ) (values : List (Option ℤ))
    → date_limit ≤ℤ low
    → All (AtLeast low) values
    → All (Unmoved days) values
bounded-days low [] h a = tt
bounded-days low (none ∷ values) h a = (tt, bounded-days low values h a.1)
bounded-days low (some v ∷ values) h a = (omega (arith, h, a.0), bounded-days low values h a.1)

bounded-instants :
    (low high : ℤ) (values : List (Option ℤ))
    → timestamp_limit ≤ℤ low
    → leb_ℤ int96_limit high ≡ false
    → All (AtLeast low) values
    → All (AtMost high) values
    → All (Unmoved instants) values
bounded-instants low high [] h g a b = tt
bounded-instants low high (none ∷ values) h g a b =
    (tt, bounded-instants low high values h g a.1 b.1)
bounded-instants low high (some v ∷ values) h g a b =
    ((omega (arith, h, a.0), ground (arith, g, b.0)), bounded-instants low high values h g a.1 b.1)

same_count-whole :
    (a b : Stat) → same_count a b ≡ true → (rows : ℕ) × (a ≡ whole rows) × (b ≡ whole rows)
same_count-whole (whole a) (whole b) h = (a, refl, ap whole (sym ((==_iff a b).0 h)))
same_count-whole null b h = cc
same_count-whole (text d i) b h = cc
same_count-whole (object ms) b h = cc
same_count-whole other_value b h = cc
same_count-whole (whole a) null h = cc
same_count-whole (whole a) (text d i) h = cc
same_count-whole (whole a) (object ms) h = cc
same_count-whole (whole a) other_value h = cc

all_null-whole :
    (members : Members) (path : List Text)
    → all_null members path ≡ true
    → (rows : ℕ) × (get_stat (member_of (codes "nullCount") members) path ≡ whole rows)
      × (member_of (codes "numRecords") members ≡ whole rows)
unfolding all_null
all_null-whole members path h = same_count-whole _ _ h

early_enough :
    (kind : Kind) (bound : Option ℤ)
    → too_early kind bound ≡ false
    → (v : ℤ) × (bound ≡ some v) × (limit_of kind ≤ℤ v)
early_enough kind none h = cc
early_enough kind (some v) h = (v, refl, ground (arith, h))

late_enough :
    (bound : Option ℤ)
    → too_late bound ≡ false
    → (v : ℤ) × (bound ≡ some v) × (leb_ℤ int96_limit v ≡ false)
late_enough none h = cc
late_enough (some v) h = (v, refl, h)

bounds-Unmoved :
    (members : Members) (values : Leaf → List (Option ℤ)) (path : List Text) (kind : Kind)
    → IsTrue members values
    → before_limit kind (get_stat (member_of (codes "minValues") members) path) ≡ false
    → after_limit kind (get_stat (member_of (codes "maxValues") members) path) ≡ false
    → All (Unmoved kind) (values (path, kind))
unfolding before_limit after_limit
bounds-Unmoved members values path days truth before after =
    let (low, e, h) = early_enough days _ before in
    bounded-days low (values (path, days)) h (truth.least path days low e)
bounds-Unmoved members values path instants truth before after =
    let (low, e, h) = early_enough instants _ before in
    let (high, g, k) = late_enough _ after in
    bounded-instants low high (values (path, instants)) h k (truth.least path instants low e)
      (truth.most path instants high g)

leaf_suspect-Unmoved :
    (members : Members) (values : Leaf → List (Option ℤ)) (path : List Text) (kind : Kind)
    → IsTrue members values
    → leaf_suspect members (path, kind) ≡ false
    → All (Unmoved kind) (values (path, kind))
unfolding leaf_suspect
leaf_suspect-Unmoved members values path kind truth h = elim (Bool-cases (all_null members path)) [
  | inl e ↦
      (let (rows, nulls, records) = all_null-whole members path e in
        nulls-Unmoved kind (values (path, kind)) (truth.nulls path kind rows nulls records))
  | inr e ↦
      (let split = or_false _ _ (rw e at h) in
        bounds-Unmoved members values path kind truth split.0 split.1)
]

chosen-Unmoved :
    (mapped : Bool) (fs : Fields) (s : Stat) (values : Leaf → List (Option ℤ)) (blind : Bool)
    {path : List Text} {kind : Kind}
    → HasLeaf mapped fs path kind
    → TellsTruth s values
    → chosen leaf_suspect (leaves mapped [] fs) blind s ≡ false
    → All (Unmoved kind) (values (path, kind))
unfolding chosen
chosen-Unmoved mapped fs s values true l truth h = cc
chosen-Unmoved mapped fs (object members) values false {path} {kind} l truth h =
    leaf_suspect-Unmoved members values path kind truth (any-leaf (leaf_suspect members) [] l h)
chosen-Unmoved mapped fs null values false l truth h = cc
chosen-Unmoved mapped fs (whole n) values false l truth h = cc
chosen-Unmoved mapped fs (text d i) values false l truth h = cc
chosen-Unmoved mapped fs other_value values false l truth h = cc

-- Whether a file is among those of a list.
unfoldable pub listed : Text → List (Text × ℕ) → Bool
unfolding any codes_eq
listed name files = any (λ f. codes_eq f.0 name) files

codes_eq_self : (t : Text) → codes_eq t t ≡ true
unfolding codes_eq
codes_eq_self [] = refl
codes_eq_self (c ∷ cs) = ground (arith, codes_eq_self cs)

suspects-chosen :
    (before after : List DataFile) (f : DataFile) (wanted : List Leaf) (blind : Bool)
    → listed f.file_path (suspects (before ++ f ∷ after) wanted blind) ≡ false
    → chosen leaf_suspect wanted blind f.stats ≡ false
unfolding suspects listed any
suspects-chosen [] after f wanted blind h = ground (arith, h, codes_eq_self f.file_path)
suspects-chosen (g ∷ before) after f wanted blind h =
    elim (Bool-cases (chosen leaf_suspect wanted blind g.stats)) [
      | inl e ↦ suspects-chosen before after f wanted blind (or_false _ _ (rw e at h)).1
      | inr e ↦ suspects-chosen before after f wanted blind (rw e at h)
    ]

-- A schema with a leaf has a date or a timestamp, also before its partition columns are taken out.
contains_in-HasLeaf :
    {mapped : Bool} {fs : Fields} {path : List Text} {kind : Kind}
    → HasLeaf mapped fs path kind
    → contains_in fs ≡ true
unfolding contains_in
contains_in-HasLeaf (at_field e) = rw e refl
contains_in-HasLeaf (in_struct l) = ground (arith, contains_in-HasLeaf l)
contains_in-HasLeaf (behind l) = ground (arith, contains_in-HasLeaf l)

contains_in-file_fields :
    (partitions : List Text) (fs : Fields)
    → contains_in (file_fields partitions fs) ≡ true
    → contains_in fs ≡ true
unfolding contains_in file_fields
contains_in-file_fields partitions no_fields h = h
contains_in-file_fields partitions (field f t n m fs) h =
    ground (arith, h, contains_in-file_fields partitions fs)

true-ne-false : ¬ (true ≡ false)
true-ne-false h = cc

any-empty : (xs : List Leaf) → is_empty xs ≡ true → any (λ x. true) xs ≡ false
unfolding any
any-empty [] h = refl
any-empty (x ∷ xs) h = cc

leaves-HasLeaf :
    {mapped : Bool} {fs : Fields} {path : List Text} {kind : Kind}
    → HasLeaf mapped fs path kind
    → is_empty (leaves mapped [] fs) ≡ false
leaves-HasLeaf {mapped} {fs} l = elim (Bool-cases (is_empty (leaves mapped [] fs))) [
  | inl none_there ↦
      absurd
        (true-ne-false (any-leaf (λ x. true) [] l (any-empty (leaves mapped [] fs) none_there)))
  | inr some_there ↦ some_there
]

gate-open :
    (some_date no_leaf blind : Bool)
    → some_date ≡ true
    → no_leaf ≡ false
    → (some_date && (not no_leaf || blind)) ≡ true
gate-open some_date no_leaf blind h g = ground (arith, h, g)

-- The rows of a file that is not handed to the reader of footers hold no date or timestamp that a
-- legacy calendar or an INT96 moves, if its statistics are true: not in a column of the file, nor
-- in a struct.
pub legacy_suspects-Unmoved :
    (schema : Fields) (partitions : List Text) (mapped : Bool) (before after : List DataFile)
    (f : DataFile) (values : Leaf → List (Option ℤ)) (path : List Text) (kind : Kind)
    → listed f.file_path (legacy_suspects schema partitions mapped (before ++ f ∷ after)) ≡ false
    → TellsTruth f.stats values
    → HasLeaf mapped (file_fields partitions schema) path kind
    → All (Unmoved kind) (values (path, kind))
unfolding legacy_suspects
legacy_suspects-Unmoved schema partitions mapped before after f values path kind h truth l =
    let fs = file_fields partitions schema in
    let wanted = leaves mapped [] fs in
    let looked =
      gate-open (contains_in schema) (is_empty wanted) (unstatted fs)
        (contains_in-file_fields partitions schema (contains_in-HasLeaf l)) (leaves-HasLeaf l) in
    chosen-Unmoved mapped fs f.stats values (unstatted fs) l truth
      (suspects-chosen before after f wanted (unstatted fs) (rw looked at h))
