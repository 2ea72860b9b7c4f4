-- ===== src/Datetimes/Stats.antt =====
-- Which data files may hold a date or a timestamp that a legacy calendar moves, by their statistics
-- (python/deltaswamp/engine/calendar.py: _leaves, _suspects, _early and what they call). A schema
-- is one that is well-formed.
use deltaswamp.Prelude.{
  Bool, List, Option, [], any, false, if◌then◌else◌, is_empty, is_some, none, not, some, true, ℕ,
  ◌&&◌, ◌++◌, ◌==◌, ◌||◌, ◌∷◌,
}
use deltaswamp.Distributed.Balance.{partitions}
use deltaswamp.IdentityColumn.Slots.{part}
use deltaswamp.Metadata.Schema.{
  DataType, Fields, Notes, Value, array, field, map_of, no_fields, primitive, str, struct,
}
use deltaswamp.Prelude.Int.{leb_ℤ, negsuc, pos, ℤ}
use deltaswamp.Prelude.Text.{codes, codes_eq, lookup}
use deltaswamp.Reference.Split.{Text}

-- A column of days or of instants.
pub data Kind : Type 0 where
  days instants : Kind

-- A JSON value of a file's statistics. Of a text only the day and the instant are kept that
-- `fromisoformat` reads in it, in days and in milliseconds since the epoch.
mutual
  pub data Stat : Type 0 where
    null : Stat
    whole : ℕ → Stat
    text : Option ℤ → Option ℤ → Stat
    object : Members → Stat
    other_value : Stat

  pub data Members : Type 0 where
    ended : Members
    member : Text → Stat → Members → Members

-- A row of the table of files; `null` where its statistics are missing or no JSON.
pub record DataFile : Type 0 where
  pub file_path : Text
  pub file_size : ℕ
  pub stats : Stat

-- _DATE_LIMIT (1582-10-15), _TIMESTAMP_LIMIT (1900-01-01) and _INT96_LIMIT (2262-04-10)
abbrev pub date_limit : ℤ
date_limit = negsuc 141426

abbrev pub timestamp_limit : ℤ
timestamp_limit = negsuc 2208988799999

abbrev pub int96_limit : ℤ
int96_limit = pos 9223200000000

-- `_is_datetime`, with the kind.
unfoldable pub datetime_of : Text → Option Kind
unfolding codes_eq
datetime_of t =
    if codes_eq t (codes "date")
    then some days
    else if codes_eq t (codes "timestamp")
    then some instants
    else none

-- `_contains_datetime`
unfoldable mutual
  pub contains_datetime : DataType → Bool
  contains_datetime (primitive t) = is_some (datetime_of t)
  contains_datetime (struct fs) = contains_in fs
  contains_datetime (array t) = contains_datetime t
  contains_datetime (map_of k v) = contains_datetime k || contains_datetime v

  pub contains_in : Fields → Bool
  contains_in no_fields = false
  contains_in (field f t n m fs) = contains_datetime t || contains_in fs

-- The name that statistics know a field by.
abbrev pub name_or : Text → Option Value → Text
name_or name (some (str [])) = name
name_or name (some (str (c ∷ cs))) = c ∷ cs
name_or name _ = name

unfoldable pub stat_name : Bool → Text → Notes → Text
unfolding lookup
stat_name mapped name m =
    if mapped then name_or name (lookup "delta.columnMapping.physicalName" m) else name

-- A leaf: its path and its kind.
abbrev pub Leaf : Type 0
Leaf = List Text × Kind

-- What a field with a primitive type adds to the leaves.
abbrev pub leaf_at : List Text → Option Kind → List Leaf
leaf_at path none = []
leaf_at path (some kind) = (path, kind) ∷ []

-- `_leaves`
unfoldable pub leaves : Bool → List Text → Fields → List Leaf
unfolding stat_name datetime_of
leaves mapped prefix no_fields = []
leaves mapped prefix (field f (primitive t) n m fs) =
    leaf_at (prefix ++ stat_name mapped f m ∷ []) (datetime_of t) ++ leaves mapped prefix fs
leaves mapped prefix (field f (struct inner) n m fs) =
    leaves mapped (prefix ++ stat_name mapped f m ∷ []) inner ++ leaves mapped prefix fs
leaves mapped prefix (field f (array t) n m fs) = leaves mapped prefix fs
leaves mapped prefix (field f (map_of k v) n m fs) = leaves mapped prefix fs

-- Whether statistics cannot describe some date or timestamp.
unfoldable pub unstatted : Fields → Bool
unfolding contains_datetime
unstatted no_fields = false
unstatted (field f (primitive t) n m fs) = unstatted fs
unstatted (field f (struct inner) n m fs) = unstatted inner || unstatted fs
unstatted (field f (array t) n m fs) = contains_datetime t || unstatted fs
unstatted (field f (map_of k v) n m fs) = contains_datetime (map_of k v) || unstatted fs

-- `stats.get(part)`
unfoldable pub member_of : Text → Members → Stat
unfolding codes_eq
member_of part ended = null
member_of part (member name v rest) = if codes_eq name part then v else member_of part rest

-- `_get`
unfoldable pub get_stat : Stat → List Text → Stat
unfolding member_of
get_stat s [] = s
get_stat (object members) (part ∷ path) = get_stat (member_of part members) path
get_stat _ (part ∷ path) = null

-- `_parse_stat`
abbrev pub parse_stat : Kind → Stat → Option ℤ
parse_stat days (text day instant) = day
parse_stat instants (text day instant) = instant
parse_stat kind _ = none

abbrev pub limit_of : Kind → ℤ
limit_of days = date_limit
limit_of instants = timestamp_limit

-- A bound that is missing or cannot be read tells nothing.
abbrev pub too_early : Kind → Option ℤ → Bool
too_early kind none = true
too_early kind (some v) = not (leb_ℤ (limit_of kind) v)

abbrev pub too_late : Option ℤ → Bool
too_late none = true
too_late (some v) = leb_ℤ int96_limit v

-- `_before_limit`
unfoldable pub before_limit : Kind → Stat → Bool
before_limit kind s = too_early kind (parse_stat kind s)

-- `_after_limit`
unfoldable pub after_limit : Kind → Stat → Bool
after_limit days s = false
after_limit instants s = too_late (parse_stat instants s)

-- `records is not None and nulls == records`, for counts that are whole numbers.
abbrev pub same_count : Stat → Stat → Bool
same_count (whole a) (whole b) = a == b
same_count _ _ = false

unfoldable pub all_null : Members → List Text → Bool
unfolding get_stat member_of
all_null members path =
    same_count (get_stat (member_of (codes "nullCount") members) path)
      (member_of (codes "numRecords") members)

-- Whether a leaf makes a file a suspect of `_suspects`, and of `_early`.
unfoldable pub leaf_early : Members → Leaf → Bool
unfolding all_null before_limit get_stat member_of
leaf_early members (path, kind) =
    not (all_null members path)
    && before_limit kind (get_stat (member_of (codes "minValues") members) path)

unfoldable pub leaf_suspect : Members → Leaf → Bool
unfolding all_null before_limit after_limit get_stat member_of
leaf_suspect members (path, kind) =
    not (all_null members path)
    && (before_limit kind (get_stat (member_of (codes "minValues") members) path)
        || after_limit kind (get_stat (member_of (codes "maxValues") members) path))

-- A file with no statistics to go by is chosen, and one with a leaf that the test chooses.
unfoldable pub chosen : (Members → Leaf → Bool) → List Leaf → Bool → Stat → Bool
unfolding any
chosen test wanted true s = true
chosen test wanted false (object members) = any (test members) wanted
chosen test wanted false _ = true

-- `_suspects`
unfoldable pub suspects : List DataFile → List Leaf → Bool → List (Text × ℕ)
unfolding chosen leaf_suspect
suspects [] wanted blind = []
suspects (f ∷ rest) wanted blind =
    let more = suspects rest wanted blind in
    if chosen leaf_suspect wanted blind f.stats then (f.file_path, f.file_size) ∷ more else more

-- `_early`
unfoldable pub early : List DataFile → List Leaf → Bool → List Text
unfolding chosen leaf_early
early [] wanted blind = []
early (f ∷ rest) wanted blind =
    let more = early rest wanted blind in
    if chosen leaf_early wanted blind f.stats then f.file_path ∷ more else more

-- The columns of a table that its files hold: a partition column stands in the log alone.
unfoldable pub file_fields : List Text → Fields → Fields
unfolding any codes_eq
file_fields partitions no_fields = no_fields
file_fields partitions (field f t n m fs) =
    let rest = file_fields partitions fs in
    if any (codes_eq f) partitions then rest else field f t n m rest

-- What `early_datetime_files` computes of a version, and what `legacy_calendar_files` hands to the
-- native reader of footers; the caches are left out.
unfoldable pub early_datetime_files : Fields → List Text → Bool → List DataFile → List Text
unfolding contains_in file_fields leaves unstatted early
early_datetime_files schema partitions mapped files =
    let fs = file_fields partitions schema in
    let wanted = leaves mapped [] fs in
    if contains_in schema && (not (is_empty wanted) || unstatted fs)
    then early files wanted (unstatted fs)
    else []

unfoldable pub legacy_suspects : Fields → List Text → Bool → List DataFile → List (Text × ℕ)
unfolding contains_in file_fields leaves unstatted suspects
legacy_suspects schema partitions mapped files =
    let fs = file_fields partitions schema in
    let wanted = leaves mapped [] fs in
    if contains_in schema && (not (is_empty wanted) || unstatted fs)
    then suspects files wanted (unstatted fs)
    else []
