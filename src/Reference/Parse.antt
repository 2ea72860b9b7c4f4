-- ===== src/Reference/Parse.antt =====
-- Parsing references (python/deltaswamp/identity.py: parse_ref and its helpers).
use mathlib.Core.List.{reverse}
use mathlib.Core.Option
use deltaswamp.Prelude.{
  Bool, List, Option, [], any, false, if◌then◌else◌, leb, length, map, none, not, some, suc, true,
  zero, ℕ, ◌&&◌, ◌++◌, ◌==◌, ◌||◌, ◌∷◌,
}
use deltaswamp.Prelude.Text.{codes, codes_eq, has_prefix, to_lower}
use deltaswamp.Reference.Split.{
  Parsed, Text, invalid, is_digit, join_dots, no_default_catalog, no_default_schema, not_a_name,
  parsed, quote, split_identifier, too_many_parts, ◌>>=◌,
}
use deltaswamp.Table.{RefKind}

-- `TableRef`; the field `path` of the source is `location`, and `schema` is `schema_name`.
pub record TableRef : Type 0 where
  pub kind : RefKind
  pub catalog_name : Option Text
  pub schema_name : Option Text
  pub table_name : Option Text
  pub location : Option Text
  pub scheme : Option Text
  pub endpoint : Option Text
  pub raw : Text

-- A catalog reference, and a reference to a location.
abbrev pub named : Text → Text → Text → Text → Option Text → Text → TableRef
named c s t scheme endpoint raw = record {
  kind = RefKind.catalog;
  catalog_name = some c;
  schema_name = some s;
  table_name = some t;
  location = none;
  scheme = some scheme;
  endpoint = endpoint;
  raw = raw;
}

abbrev pub located : Text → Text → Text → TableRef
located place scheme raw = record {
  kind = RefKind.path;
  catalog_name = none;
  schema_name = none;
  table_name = none;
  location = some place;
  scheme = some scheme;
  endpoint = none;
  raw = raw;
}

-- What the file system of the caller answers: whether a path is there (`_exists_locally`), and
-- what `~` stands for (`os.path.expanduser`).
pub record Host : Type 0 where
  pub exists_locally : Text → Bool
  pub expanduser : Text → Text

-- The defaults that the connection gives.
pub record Defaults : Type 0 where
  pub default_catalog : Option Text
  pub default_schema : Option Text

-- `TableRef.full_name`
abbrev pub present : Option Text → List Text
present none = []
present (some t) = t ∷ []

unfoldable pub full_name : TableRef → Parsed Text
full_name ref = elim ref.kind [
  | RefKind.path ↦ invalid not_a_name
  | RefKind.catalog ↦ parsed (
      join_dots
        (map quote (present ref.catalog_name ++ present ref.schema_name ++ present ref.table_name)))
]

-- `_parse_name`
unfoldable pub name_of : Defaults → List Text → Parsed (Text × Text × Text)
name_of d (c ∷ s ∷ t ∷ []) = parsed (c, s, t)
name_of d (s ∷ t ∷ []) = elim d.default_catalog [
  | none ↦ invalid no_default_catalog
  | some c ↦ parsed (c, s, t)
]
name_of d (t ∷ []) = elim d.default_catalog [
  | none ↦ invalid no_default_schema
  | some c ↦ elim d.default_schema [ none ↦ invalid no_default_schema | some s ↦ parsed (c, s, t) ]
]
name_of d parts = invalid (too_many_parts (length parts))

unfoldable pub parse_name : Defaults → Text → Text → Parsed TableRef
unfolding split_identifier name_of
parse_name d name raw = do
  parts ← split_identifier name
  (c, s, t) ← name_of d parts
  parsed (named c s t (codes "uc") none raw)

abbrev pub keep_unless : Bool → ℕ → Text → Text
keep_unless true c cs = cs
keep_unless false c cs = c ∷ cs

-- `_unquoted`, inside or outside backticks.
unfoldable pub unquoted_from : Bool → Text → Text
unquoted_from q [] = []
unquoted_from q (c ∷ cs) = elim (c == b'`') [
  | true ↦ unquoted_from (not q) cs
  | false ↦ keep_unless q c (unquoted_from q cs)
]

unfoldable pub unquoted : Text → Text
unfolding unquoted_from
unquoted = unquoted_from false

unfoldable pub contains : ℕ → Text → Bool
unfolding any
contains c cs = any (λ d. d == c) cs

-- A character that ends a piece, or is put in front of it.
abbrev pub cut : Bool → ℕ → List Text → List Text
cut true c pieces = [] ∷ pieces
cut false c [] = (c ∷ []) ∷ []
cut false c (p ∷ pieces) = (c ∷ p) ∷ pieces

-- `_split_unquoted`: the pieces, the one at hand first.
unfoldable pub split_from : Bool → ℕ → Text → List Text
split_from q sep [] = [] ∷ []
split_from q sep (c ∷ cs) =
    let inside = if c == b'`' then not q else q in
    cut (not inside && (c == sep)) c (split_from inside sep cs)

unfoldable pub split_unquoted : Text → ℕ → List Text
unfolding split_from
split_unquoted text sep = split_from false sep text

-- `str.lower`, `text[n:]`, `text.rstrip(c)` and `text.lstrip(c)` on code points.
unfoldable pub lower_text : Text → Text
unfolding to_lower
lower_text s = map to_lower s

unfoldable pub drop_codes : ℕ → Text → Text
drop_codes zero s = s
drop_codes (suc n) [] = []
drop_codes (suc n) (c ∷ cs) = drop_codes n cs

unfoldable pub lstrip_char : ℕ → Text → Text
lstrip_char x [] = []
lstrip_char x (c ∷ cs) = elim (c == x) [ true ↦ lstrip_char x cs | false ↦ c ∷ cs ]

unfoldable pub rstrip_char : ℕ → Text → Text
unfolding lstrip_char
rstrip_char x cs = reverse (lstrip_char x (reverse cs))

abbrev pub first_to : ℕ → Text × Text → Text × Text
first_to c (before, after) = (c ∷ before, after)

-- `text.partition(sep)`, without the separator.
unfoldable pub partition : ℕ → Text → Text × Text
partition sep [] = ([], [])
partition sep (c ∷ cs) = elim (c == sep) [ true ↦ ([], cs) | false ↦ first_to c (partition sep cs) ]

-- `text or None`
abbrev pub or_none : Text → Option Text
or_none [] = none
or_none (c ∷ cs) = some (c ∷ cs)

unfoldable pub is_alpha : ℕ → Bool
is_alpha c = (leb b'a' c && leb c b'z') || (leb b'A' c && leb c b'Z')

-- The characters of a scheme after its first.
unfoldable pub is_scheme_char : ℕ → Bool
unfolding is_alpha
is_scheme_char c = is_alpha c || is_digit c || (c == b'+') || (c == b'.') || (c == b'-')

-- The scheme characters at the front, where `://` follows them.
unfoldable pub scheme_rest : Text → Option Text
unfolding has_prefix is_scheme_char
scheme_rest [] = none
scheme_rest (c ∷ cs) = elim (is_scheme_char c) [
  | true ↦ Option.map (λ s. c ∷ s) (scheme_rest cs)
  | false ↦ if has_prefix (codes "://") (c ∷ cs) then some [] else none
]

-- `_scheme_of`
unfoldable pub scheme_of : Text → Option Text
unfolding is_alpha scheme_rest lower_text
scheme_of [] = none
scheme_of (c ∷ cs) =
    if is_alpha c then Option.map (λ s. lower_text (c ∷ s)) (scheme_rest cs) else none

-- `_DRIVE`
unfoldable pub is_drive : Text → Bool
unfolding is_alpha
is_drive (c ∷ d ∷ []) = is_alpha c && (d == b':')
is_drive (c ∷ d ∷ e ∷ _) = is_alpha c && (d == b':') && ((e == b'/') || (e == b'\\'))
is_drive _ = false

unfoldable pub starts_with_any : List Text → Text → Bool
unfolding has_prefix any
starts_with_any ps s = any (λ p. has_prefix p s) ps

unfoldable pub is_one_of : Text → List Text → Bool
unfolding codes_eq any
is_one_of s ts = any (λ t. codes_eq s t) ts

-- `_looks_like_path`
unfoldable pub looks_like_path : Text → Bool
unfolding is_one_of starts_with_any is_drive contains unquoted
looks_like_path ref =
    is_one_of ref (codes "." ∷ codes ".." ∷ [])
    || starts_with_any (codes "~" ∷ codes "/" ∷ codes "./" ∷ codes "../" ∷ codes "\\" ∷ []) ref
    || is_drive ref
    || contains b'/' (unquoted ref)
    || contains b'\\' (unquoted ref)

-- `_local_path`
unfoldable pub local_path : Host → Text → Text
unfolding has_prefix
local_path host place = if has_prefix (codes "~") place then host.expanduser place else place

-- `_STORAGE_SCHEMES`, `_CATALOG_SCHEMES` and `_UNREACHABLE_PREFIXES`
unfoldable pub storage_schemes : List Text
storage_schemes =
    codes "s3"
    ∷ codes "s3a"
    ∷ codes "s3n"
    ∷ codes "gs"
    ∷ codes "gcs"
    ∷ codes "abfs"
    ∷ codes "abfss"
    ∷ codes "az"
    ∷ codes "adl"
    ∷ codes "file"
    ∷ codes "memory"
    ∷ []

unfoldable pub catalog_schemes : List Text
catalog_schemes =
    codes "uc"
    ∷ codes "unity"
    ∷ codes "hms"
    ∷ codes "hive"
    ∷ codes "glue"
    ∷ codes "deltasharing"
    ∷ []

unfoldable pub unreachable_prefixes : List Text
unreachable_prefixes = codes "dbfs:/" ∷ codes "/dbfs/" ∷ codes "/mnt/" ∷ []
