-- ===== src/Metadata/Ids.antt =====
-- Column-mapping ids of new columns (python/deltaswamp/engine/metadata.py: _max_column_id and
-- _assign_ids). Physical names come from a supply, by the id of the field; the ids in a
-- configuration are texts of digits.
use deltaswamp.Prelude.{
  All, List, Option, [], ap, arith, if◌then◌else◌, length, length-append, ltb, none, refl, some,
  suc, sym, zero, ℕ, ◌*◌, ◌++◌, ◌+◌, ◌-◌, ◌∙◌, ◌∷◌, ◌≡◌, ◌≤◌,
}
use deltaswamp.Metadata.Columns.{Metadata}
use deltaswamp.Metadata.Schema.{
  DataType, Fields, Notes, Value, array, field, map_of, no_fields, num, primitive, str, struct,
  walk_fields, walk_type,
}
use deltaswamp.Prelude.Text.{lookup, lookup-put, put}
use deltaswamp.Reference.Split.{Text}

-- `int(text)`, behind what is read already.
unfoldable pub int_of : ℕ → Text → ℕ
int_of read_so_far [] = read_so_far
int_of read_so_far (c ∷ cs) = int_of (10 * read_so_far + (c - b'0')) cs

-- The id among a field's metadata.
abbrev pub number_of : Option Value → Option ℕ
number_of (some (num n)) = some n
number_of _ = none

unfoldable pub id_of : Notes → Option ℕ
unfolding lookup
id_of notes = number_of (lookup "delta.columnMapping.id" notes)

unfoldable pub ids_of : List (Text × Notes) → List (Option ℕ)
unfolding id_of
ids_of [] = []
ids_of ((name, notes) ∷ fields) = id_of notes ∷ ids_of fields

abbrev pub higher : ℕ → Option ℕ → ℕ
higher highest none = highest
higher highest (some n) = if ltb highest n then n else highest

unfoldable pub highest_of : ℕ → List (Option ℕ) → ℕ
highest_of highest [] = highest
highest_of highest (id ∷ ids) = highest_of (higher highest id) ids

abbrev pub recorded_or_zero : Option Text → ℕ
recorded_or_zero none = 0
recorded_or_zero (some digits) = int_of 0 digits

-- `_max_column_id`
unfoldable pub max_column_id : Metadata → ℕ
unfolding lookup int_of highest_of ids_of walk_fields
max_column_id m =
    highest_of (recorded_or_zero (lookup "delta.columnMapping.maxColumnId" m.configuration))
      (ids_of (walk_fields m.schema))

-- A field's metadata with its id and its physical name.
unfoldable pub identified : (ℕ → Text) → ℕ → Notes → Notes
unfolding put
identified physical id notes =
    put "delta.columnMapping.physicalName" (str (physical id))
      (put "delta.columnMapping.id" (num id) notes)

-- `_assign_ids`, with the id that is next after it.
unfoldable mutual
  unfolding identified

  pub assign_type : (ℕ → Text) → ℕ → DataType → DataType × ℕ
  assign_type physical next (primitive t) = (primitive t, next)
  assign_type physical next (struct fs) =
      let (fs', after) = assign_ids physical next fs in (struct fs', after)
  assign_type physical next (array t) =
      let (t', after) = assign_type physical next t in (array t', after)
  assign_type physical next (map_of k v) =
      let (k', middle) = assign_type physical next k in
      let (v', after) = assign_type physical middle v in (map_of k' v', after)

  pub assign_ids : (ℕ → Text) → ℕ → Fields → Fields × ℕ
  assign_ids physical next no_fields = (no_fields, next)
  assign_ids physical next (field f t n m fs) =
      let (t', middle) = assign_type physical (next + 1) t in
      let (fs', after) = assign_ids physical middle fs in
      (field f t' n (identified physical next m) fs', after)

-- `count` ids from one on.
unfoldable pub ids_from : ℕ → ℕ → List (Option ℕ)
ids_from start zero = []
ids_from start (suc count) = some start ∷ ids_from (start + 1) count

id_of-identified :
    (physical : ℕ → Text) (id : ℕ) (notes : Notes) → id_of (identified physical id notes) ≡ some id
unfolding id_of identified
id_of-identified physical id notes =
    rw
      (lookup-put "delta.columnMapping.physicalName" "delta.columnMapping.id" (str (physical id))
        (put "delta.columnMapping.id" (num id) notes))
      (rw (lookup-put "delta.columnMapping.id" "delta.columnMapping.id" (num id) notes) refl)

ids_of-append : (xs ys : List (Text × Notes)) → ids_of (xs ++ ys) ≡ ids_of xs ++ ids_of ys
unfolding ids_of
ids_of-append [] ys = refl
ids_of-append ((f, m) ∷ xs) ys = ap (λ l. id_of m ∷ l) (ids_of-append xs ys)

ids_from-append :
    (start a middle b : ℕ)
    → middle ≡ start + a
    → ids_from start a ++ ids_from middle b ≡ ids_from start (a + b)
unfolding ids_from
ids_from-append start zero middle b h =
    let same : middle ≡ start = omega arith in
    let all_b : b ≡ 0 + b = omega arith in ap (λ x. ids_from x b) same ∙ ap (ids_from start) all_b
ids_from-append start (suc a) middle b h =
    let sum : suc (a + b) ≡ suc a + b = omega arith in
    ap (λ l. some start ∷ l) (ids_from-append (start + 1) a middle b (omega (arith, h)))
    ∙ ap (ids_from start) sum

ids_of-nil : (start : ℕ) → ids_of [] ≡ ids_from start 0
unfolding ids_of ids_from
ids_of-nil start = refl

ids_of-cons :
    (f : Text) (notes : Notes) (fields : List (Text × Notes)) (start count : ℕ)
    → id_of notes ≡ some start
    → ids_of fields ≡ ids_from (start + 1) count
    → ids_of ((f, notes) ∷ fields) ≡ ids_from start (suc count)
unfolding ids_of ids_from
ids_of-cons f notes fields start count e g =
    ap (λ x. x ∷ ids_of fields) e ∙ ap (λ l. some start ∷ l) g

-- The ids of two lists of fields, the second list's going on after the first's.
ids_of-join :
    (xs ys : List (Text × Notes)) (start a middle b : ℕ)
    → middle ≡ start + a
    → ids_of xs ≡ ids_from start a
    → ids_of ys ≡ ids_from middle b
    → ids_of (xs ++ ys) ≡ ids_from start (a + b)
ids_of-join xs ys start a middle b h e g =
    ids_of-append xs ys
    ∙ ap (λ l. l ++ ids_of ys) e
    ∙ ap (λ l. ids_from start a ++ l) g
    ∙ ids_from-append start a middle b h

mutual
  unfolding assign_type assign_ids walk_type walk_fields

  assign_type-ids :
      (physical : ℕ → Text) (next : ℕ) (t : DataType)
      → ((assign_type physical next t).1 ≡ next + length (walk_type t))
        × (ids_of (walk_type (assign_type physical next t).0)
            ≡ ids_from next (length (walk_type t)))
  assign_type-ids physical next (primitive t) = (omega arith, ids_of-nil next)
  assign_type-ids physical next (struct fs) = assign_ids-ids physical next fs
  assign_type-ids physical next (array t) = assign_type-ids physical next t
  assign_type-ids physical next (map_of k v) =
      let (end_k, ids_k) = assign_type-ids physical next k in
      let (end_v, ids_v) = assign_type-ids physical (assign_type physical next k).1 v in
      let both : length (walk_type k ++ walk_type v) ≡ length (walk_type k) + length (walk_type v) =
        length-append (walk_type k) (walk_type v) in
      (
        omega (arith, end_k, end_v, both),
        ids_of-join _ _ next (length (walk_type k)) (assign_type physical next k).1
              (length (walk_type v)) end_k ids_k ids_v
            ∙ ap (ids_from next) (sym both),
      )

  assign_ids-ids :
      (physical : ℕ → Text) (next : ℕ) (fs : Fields)
      → ((assign_ids physical next fs).1 ≡ next + length (walk_fields fs))
        × (ids_of (walk_fields (assign_ids physical next fs).0)
            ≡ ids_from next (length (walk_fields fs)))
  assign_ids-ids physical next no_fields = (omega arith, ids_of-nil next)
  assign_ids-ids physical next (field f t n m fs) =
      let middle = (assign_type physical (next + 1) t).1 in
      let (end_t, ids_t) = assign_type-ids physical (next + 1) t in
      let (end_fs, ids_fs) = assign_ids-ids physical middle fs in
      let both : length (walk_type t ++ walk_fields fs)
          ≡ length (walk_type t) + length (walk_fields fs) =
        length-append (walk_type t) (walk_fields fs) in
      (
        omega (arith, end_t, end_fs, both),
        ids_of-cons _ (identified physical next m) _ next _ (id_of-identified physical next m) (
            ids_of-join _ _ (next + 1) (length (walk_type t)) middle (length (walk_fields fs)) end_t
              ids_t ids_fs
            ∙ ap (ids_from (next + 1)) (sym both)),
      )

-- An id that is there is no higher than a bound.
abbrev pub NotAbove : ℕ → Option ℕ → Type 0
NotAbove highest none = Unit {0}
NotAbove highest (some n) = n ≤ highest

highest_of-le : (highest : ℕ) (ids : List (Option ℕ)) → highest ≤ highest_of highest ids
unfolding highest_of
highest_of-le highest [] = omega arith
highest_of-le highest (none ∷ ids) = highest_of-le highest ids
highest_of-le highest (some n ∷ ids) = ground (arith, highest_of-le (higher highest (some n)) ids)

highest_of-NotAbove :
    (highest : ℕ) (ids : List (Option ℕ)) → All (NotAbove (highest_of highest ids)) ids
unfolding highest_of
highest_of-NotAbove highest [] = tt
highest_of-NotAbove highest (none ∷ ids) = (tt, highest_of-NotAbove highest ids)
highest_of-NotAbove highest (some n ∷ ids) = (
  ground (arith, highest_of-le (higher highest (some n)) ids),
  highest_of-NotAbove (higher highest (some n)) ids,
)

-- New columns get consecutive ids, nested fields included, and the first is higher than every id in
-- the schema; the id that comes next is the one after the last.
pub assign_ids-max_column_id :
    (m : Metadata) (physical : ℕ → Text) (added : Fields)
    → let first = max_column_id m + 1 in
      let (identified_fields, next) = assign_ids physical first added in
      (ids_of (walk_fields identified_fields) ≡ ids_from first (length (walk_fields added)))
      × (next ≡ first + length (walk_fields added))
      × All (NotAbove (max_column_id m)) (ids_of (walk_fields m.schema))
unfolding max_column_id
assign_ids-max_column_id m physical added =
    let (last, ids) = assign_ids-ids physical (max_column_id m + 1) added in
    (ids, last, highest_of-NotAbove _ (ids_of (walk_fields m.schema)))
