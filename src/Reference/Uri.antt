-- ===== src/Reference/Uri.antt =====
-- References as URIs (python/deltaswamp/identity.py: _parse_catalog_uri and parse_ref).
use deltaswamp.Prelude.{
  Bool, List, Option, [], if◌then◌else◌, is_empty, length, none, not, some, ◌&&◌, ◌++◌, ◌+◌, ◌||◌,
  ◌∷◌,
}
use deltaswamp.Prelude.Text.{codes, has_prefix, strip}
use deltaswamp.Reference.Parse.{
  Defaults, Host, TableRef, catalog_schemes, contains, drop_codes, is_one_of, local_path, located,
  looks_like_path, lower_text, lstrip_char, named, or_none, parse_name, partition, rstrip_char,
  scheme_of, split_unquoted, starts_with_any, storage_schemes, unquoted, unreachable_prefixes,
}
use deltaswamp.Reference.Split.{
  Parsed, Text, dotted_expected, empty_reference, invalid, legacy_wasb, no_body, no_table, parsed,
  parts_expected, split_identifier, too_many_segments, unreachable_dbfs, unsupported_scheme, ◌>>=◌,
}

-- `uc://catalog.schema.table`, and the same under `unity` and `deltasharing`.
unfoldable pub parse_dotted : Defaults → Text → Text → Text → Parsed TableRef
unfolding contains unquoted parse_name
parse_dotted d scheme body raw =
    if contains b'/' (unquoted body)
    then invalid dotted_expected
    else parse_name d body raw >>= λ ref. parsed (record ref { scheme = some scheme })

-- Each piece of a metastore path, split on dots.
unfoldable pub split_all : List Text → Parsed (List Text)
unfolding split_identifier
split_all [] = parsed []
split_all (piece ∷ pieces) = do
  parts ← split_identifier piece
  more ← split_all pieces
  parsed (parts ++ more)

-- Exactly a schema and a table.
abbrev pub two_parts : List Text → Parsed (Text × Text)
two_parts (s ∷ t ∷ []) = parsed (s, t)
two_parts parts = invalid (parts_expected (length parts))

-- The table that follows the endpoint of a metastore.
unfoldable pub metastore_name : Text → Text → Text → Parsed TableRef
unfolding split_unquoted split_all
metastore_name endpoint rest raw = do
  parts ← split_all (split_unquoted rest b'/')
  (s, t) ← two_parts parts
  parsed (named (codes "hive_metastore") s t (codes "hms") (or_none endpoint) raw)

-- `hms://host:port/db/table`
unfoldable pub parse_metastore : Text → Text → Parsed TableRef
unfolding has_prefix lower_text drop_codes partition rstrip_char metastore_name
parse_metastore body raw =
    let bare =
      if has_prefix (codes "thrift://") (lower_text body) then drop_codes 9 body else body in
    let (endpoint, after) = partition b'/' bare in
    let rest = rstrip_char b'/' after in
    if is_empty rest then invalid no_table else metastore_name endpoint rest raw

-- `glue://[catalog_id/]database.table`: the catalog's id, and what names the table.
unfoldable pub glue_pieces : List Text → Parsed (Option Text × Text)
unfolding strip
glue_pieces (rest ∷ []) = parsed (none, rest)
glue_pieces (id ∷ rest ∷ []) = parsed (or_none (strip id), rest)
glue_pieces _ = invalid too_many_segments

-- The reference that `_parse_catalog_uri` builds; without an id, the catalog is `glue`.
unfoldable pub glue_entry : Option Text → Text → Text × Text → Parsed TableRef
glue_entry none raw (s, t) = parsed (named (codes "glue") s t (codes "glue") none raw)
glue_entry (some id) raw (s, t) = parsed (named id s t (codes "glue") (some id) raw)

unfoldable pub glue_name : Option Text → Text → Text → Parsed TableRef
unfolding split_identifier glue_entry
glue_name id rest raw = do parts ← split_identifier rest; p ← two_parts parts; glue_entry id raw p

unfoldable pub parse_glue : Text → Text → Parsed TableRef
unfolding split_unquoted rstrip_char glue_pieces glue_name
parse_glue body raw = do
  (id, rest) ← glue_pieces (split_unquoted (rstrip_char b'/' body) b'/')
  glue_name id rest raw

-- `_parse_catalog_uri`, for a scheme of `catalog_schemes`.
unfoldable pub parse_catalog_uri : Defaults → Text → Text → Parsed TableRef
unfolding drop_codes is_one_of parse_dotted parse_metastore parse_glue
parse_catalog_uri d ref scheme =
    let body = drop_codes (length scheme + 3) ref in
    if is_empty body
    then invalid no_body
    else if is_one_of scheme (codes "uc" ∷ codes "unity" ∷ codes "deltasharing" ∷ [])
    then parse_dotted d scheme body ref
    else if is_one_of scheme (codes "hms" ∷ codes "hive" ∷ [])
    then parse_metastore body ref
    else parse_glue body ref

-- A reference with a scheme.
unfoldable pub parse_uri : Defaults → Text → Text → Parsed TableRef
unfolding is_one_of parse_catalog_uri catalog_schemes storage_schemes
parse_uri d ref scheme =
    if is_one_of scheme catalog_schemes
    then parse_catalog_uri d ref scheme
    else if is_one_of scheme (codes "wasb" ∷ codes "wasbs" ∷ [])
    then invalid legacy_wasb
    else if is_one_of scheme storage_schemes
    then parsed (located ref scheme ref)
    else invalid (unsupported_scheme scheme)

-- A reference without one; `force_path` is set for a path object.
unfoldable pub parse_plain : Host → Defaults → Bool → Text → Parsed TableRef
unfolding looks_like_path local_path parse_name
parse_plain host d force_path ref =
    if force_path || looks_like_path ref
    then parsed (located (local_path host ref) (codes "file") ref)
    else parse_name d ref ref

-- Whether a reference is a DBFS path that is not there locally.
unfoldable pub is_unreachable : Host → Text → Bool
unfolding starts_with_any unreachable_prefixes lower_text has_prefix
is_unreachable host ref =
    starts_with_any unreachable_prefixes (lower_text ref)
    && not (has_prefix (codes "/") ref && host.exists_locally ref)

-- `file:/tmp/t`, which an object store wants with three slashes.
unfoldable pub is_short_file : Text → Bool
unfolding has_prefix lower_text
is_short_file ref =
    has_prefix (codes "file:") (lower_text ref)
    && not (has_prefix (codes "file://") (lower_text ref))

unfoldable pub parse_stripped : Host → Defaults → Bool → Text → Parsed TableRef
unfolding is_unreachable is_short_file lstrip_char drop_codes scheme_of parse_uri parse_plain
parse_stripped host d force_path ref =
    if is_unreachable host ref
    then invalid unreachable_dbfs
    else if is_short_file ref
    then parsed
        (located (codes "file:///" ++ lstrip_char b'/' (drop_codes 5 ref)) (codes "file") ref)
    else elim (scheme_of ref) [
      | none ↦ parse_plain host d force_path ref
      | some scheme ↦ parse_uri d ref scheme
    ]

-- `parse_ref`
unfoldable pub parse_ref : Host → Defaults → Bool → Text → Parsed TableRef
unfolding strip parse_stripped
parse_ref host d force_path ref =
    if is_empty (strip ref)
    then invalid empty_reference
    else parse_stripped host d force_path (strip ref)
