-- ===== src/Reference/Whole.antt =====
-- What a parsed reference is: three names, or a location.
use deltaswamp.Prelude.{
  All, Bool, Bool-cases, List, Option, [], any, false, if◌then◌else◌, inl, inr, is_empty, length,
  none, refl, some, true, ◌++◌, ◌+◌, ◌||◌, ◌∷◌, ◌≡◌, ◌≢◌, ◌⊎◌,
}
use deltaswamp.Prelude.Text.{codes, has_prefix, strip}
use deltaswamp.Reference.Parse.{
  Defaults, Host, TableRef, catalog_schemes, contains, drop_codes, is_one_of, local_path, located,
  looks_like_path, lower_text, lstrip_char, name_of, named, or_none, parse_name, partition,
  rstrip_char, scheme_of, split_unquoted, storage_schemes, unquoted,
}
use deltaswamp.Reference.Split.{
  Parsed, Text, check_parts, empty_reference, invalid, legacy_wasb, no_body, no_table, parsed, scan,
  split_identifier, unreachable_dbfs, unsupported_scheme, ◌>>=◌,
}
use deltaswamp.Reference.Uri.{
  glue_entry, glue_name, glue_pieces, is_short_file, is_unreachable, metastore_name,
  parse_catalog_uri, parse_dotted, parse_glue, parse_metastore, parse_plain, parse_ref,
  parse_stripped, parse_uri, split_all, two_parts,
}
use deltaswamp.Table.{RefKind}

-- A text with something in it.
abbrev pub IsNamed : Option Text → Type 0
IsNamed none = ⊥
IsNamed (some []) = ⊥
IsNamed (some (c ∷ cs)) = Unit

-- The names of a catalog entry and no location, or a location and no names.
abbrev pub IsWhole : TableRef → Type 0
IsWhole r =
    ((r.kind ≡ RefKind.catalog)
      × IsNamed r.catalog_name
      × IsNamed r.schema_name
      × IsNamed r.table_name
      × (r.location ≡ none))
    ⊎ ((r.kind ≡ RefKind.path)
        × (r.catalog_name ≡ none)
        × (r.schema_name ≡ none)
        × (r.table_name ≡ none)
        × (r.location ≢ none))

-- A default that is given is not empty.
abbrev pub IsDefault : Option Text → Type 0
IsDefault none = Unit
IsDefault (some t) = IsNamed (some t)

-- A postcondition of a result: it holds of what is parsed.
abbrev pub Ensures {ℓ κ} : {A : Type ℓ} → (A → Type κ) → Parsed A → Type κ
Ensures P (invalid e) = Unit
Ensures P (parsed a) = P a

pub Ensures-bind {ℓ κ ι} :
    {A : Type ℓ} {B : Type κ} (P : A → Type ι) (Q : B → Type ι) (p : Parsed A) (f : A → Parsed B)
    → Ensures P p
    → ((a : A) → P a → Ensures Q (f a))
    → Ensures Q (p >>= f)
Ensures-bind P Q (invalid e) f h g = tt
Ensures-bind P Q (parsed a) f h g = g a h

-- Every part of a dotted name has something in it.
abbrev pub AllNamed : List Text → Type 0
AllNamed parts = All (λ p. IsNamed (some p)) parts

AllNamed-any : (parts : List Text) → any is_empty parts ≡ false → AllNamed parts
unfolding any
AllNamed-any [] h = tt
AllNamed-any ([] ∷ parts) h = cc
AllNamed-any ((c ∷ cs) ∷ parts) h = (tt, AllNamed-any parts h)

check_parts-Ensures : (parts : List Text) → Ensures AllNamed (check_parts parts)
unfolding check_parts
check_parts-Ensures parts = elim (Bool-cases (any is_empty parts)) [
  | inl e ↦ rw e tt
  | inr e ↦ rw e (AllNamed-any parts e)
]

Ensures-any {ℓ} : {A : Type ℓ} (p : Parsed A) → Ensures (λ (a : A). Unit {0}) p
Ensures-any (invalid e) = tt
Ensures-any (parsed a) = tt

Ensures-if {ℓ κ} :
    {A : Type ℓ} (P : A → Type κ) (b : Bool) (p q : Parsed A)
    → Ensures P p
    → Ensures P q
    → Ensures P (if b then p else q)
Ensures-if P true p q h g = h
Ensures-if P false p q h g = g

pub split_identifier-Ensures : (name : Text) → Ensures AllNamed (split_identifier name)
unfolding split_identifier
split_identifier-Ensures name =
    Ensures-bind (λ p. Unit {0}) AllNamed (scan false [] name) check_parts
      (Ensures-any (scan false [] name)) (λ parts h. check_parts-Ensures parts)

-- Three texts with something in each.
abbrev pub ThreeNamed : Text × Text × Text → Type 0
ThreeNamed (c, s, t) = IsNamed (some c) × IsNamed (some s) × IsNamed (some t)

name_of-at :
    (c s : Option Text) (parts : List Text)
    → IsDefault c
    → IsDefault s
    → AllNamed parts
    → Ensures ThreeNamed (name_of (record { default_catalog = c; default_schema = s }) parts)
unfolding name_of
name_of-at c s [] d e h = tt
name_of-at none s (x ∷ []) d e h = tt
name_of-at (some c) none (x ∷ []) d e h = tt
name_of-at (some c) (some s) (x ∷ []) d e h = (d, e, h.0)
name_of-at none s (x ∷ y ∷ []) d e h = tt
name_of-at (some c) s (x ∷ y ∷ []) d e h = (d, h.0, h.1.0)
name_of-at c s (x ∷ y ∷ z ∷ []) d e h = (h.0, h.1.0, h.1.1.0)
name_of-at c s (x ∷ y ∷ z ∷ w ∷ parts) d e h = tt

-- The defaults of the connection are not empty.
abbrev pub AreNamed : Defaults → Type 0
AreNamed d = IsDefault d.default_catalog × IsDefault d.default_schema

parse_name-Ensures :
    (d : Defaults) (name raw : Text) → AreNamed d → Ensures IsWhole (parse_name d name raw)
unfolding parse_name
parse_name-Ensures d name raw (c, s) =
    Ensures-bind AllNamed IsWhole (split_identifier name) _ (split_identifier-Ensures name)
      λ parts h.
        Ensures-bind ThreeNamed IsWhole (name_of d parts) _
          (name_of-at d.default_catalog d.default_schema parts c s h)
          λ (x, y, z) n. inl (refl, n.0, n.1, n.2, refl)

parse_dotted-Ensures :
    (d : Defaults) (scheme body raw : Text)
    → AreNamed d
    → Ensures IsWhole (parse_dotted d scheme body raw)
unfolding parse_dotted
parse_dotted-Ensures d scheme body raw h =
    Ensures-if IsWhole (contains b'/' (unquoted body)) _ _ tt (
      Ensures-bind IsWhole IsWhole (parse_name d body raw) _ (parse_name-Ensures d body raw h)
        (λ r w. w))

All-append : (xs ys : List Text) → AllNamed xs → AllNamed ys → AllNamed (xs ++ ys)
All-append [] ys h g = g
All-append (x ∷ xs) ys h g = (h.0, All-append xs ys h.1 g)

split_all-Ensures : (pieces : List Text) → Ensures AllNamed (split_all pieces)
unfolding split_all
split_all-Ensures [] = tt
split_all-Ensures (piece ∷ pieces) =
    Ensures-bind AllNamed AllNamed (split_identifier piece) _ (split_identifier-Ensures piece)
      λ parts h.
        Ensures-bind AllNamed AllNamed (split_all pieces) _ (split_all-Ensures pieces)
          λ more g. All-append parts more h g

IsDefault-or_none : (t : Text) → IsDefault (or_none t)
IsDefault-or_none [] = tt
IsDefault-or_none (c ∷ cs) = tt

abbrev TwoNamed : Text × Text → Type 0
TwoNamed (s, t) = IsNamed (some s) × IsNamed (some t)

two_parts-Ensures : (parts : List Text) → AllNamed parts → Ensures TwoNamed (two_parts parts)
two_parts-Ensures [] h = tt
two_parts-Ensures (s ∷ []) h = tt
two_parts-Ensures (s ∷ t ∷ []) h = (h.0, h.1.0)
two_parts-Ensures (s ∷ t ∷ u ∷ parts) h = tt

metastore_name-Ensures :
    (endpoint rest raw : Text) → Ensures IsWhole (metastore_name endpoint rest raw)
unfolding metastore_name
metastore_name-Ensures endpoint rest raw =
    let made = λ (p : Text × Text).
      parsed (named (codes "hive_metastore") p.0 p.1 (codes "hms") (or_none endpoint) raw) in
    Ensures-bind AllNamed IsWhole (split_all (split_unquoted rest b'/'))
      (λ parts. two_parts parts >>= made) (split_all-Ensures (split_unquoted rest b'/'))
      λ parts h.
        Ensures-bind TwoNamed IsWhole (two_parts parts) made (two_parts-Ensures parts h)
          λ p n. inl (refl, tt, n.0, n.1, refl)

parse_metastore-Ensures : (body raw : Text) → Ensures IsWhole (parse_metastore body raw)
unfolding parse_metastore
parse_metastore-Ensures body raw =
    let bare =
      if has_prefix (codes "thrift://") (lower_text body) then drop_codes 9 body else body in
    let rest = rstrip_char b'/' ((partition b'/' bare).1) in
    Ensures-if IsWhole (is_empty rest) (invalid no_table)
      (metastore_name (partition b'/' bare).0 rest raw) tt
      (metastore_name-Ensures (partition b'/' bare).0 rest raw)

abbrev IdDefault : Option Text × Text → Type 0
IdDefault (id, rest) = IsDefault id

glue_pieces-Ensures : (pieces : List Text) → Ensures IdDefault (glue_pieces pieces)
unfolding glue_pieces
glue_pieces-Ensures [] = tt
glue_pieces-Ensures (rest ∷ []) = tt
glue_pieces-Ensures (id ∷ rest ∷ []) = IsDefault-or_none (strip id)
glue_pieces-Ensures (id ∷ rest ∷ more ∷ pieces) = tt

-- The table of a Glue reference whose catalog is known.
glue_entry-Ensures :
    (id : Option Text) (raw : Text) (p : Text × Text)
    → IsDefault id
    → TwoNamed p
    → Ensures IsWhole (glue_entry id raw p)
unfolding glue_entry
glue_entry-Ensures none raw (s, t) i n = inl (refl, tt, n.0, n.1, refl)
glue_entry-Ensures (some c) raw (s, t) i n = inl (refl, i, n.0, n.1, refl)

glue_name-Ensures :
    (id : Option Text) (rest raw : Text) → IsDefault id → Ensures IsWhole (glue_name id rest raw)
unfolding glue_name
glue_name-Ensures id rest raw i =
    Ensures-bind AllNamed IsWhole (split_identifier rest)
      (λ parts. two_parts parts >>= glue_entry id raw) (split_identifier-Ensures rest)
      λ parts h.
        Ensures-bind TwoNamed IsWhole (two_parts parts) (glue_entry id raw)
          (two_parts-Ensures parts h) (λ p n. glue_entry-Ensures id raw p i n)

parse_glue-Ensures : (body raw : Text) → Ensures IsWhole (parse_glue body raw)
unfolding parse_glue
parse_glue-Ensures body raw =
    let pieces = split_unquoted (rstrip_char b'/' body) b'/' in
    Ensures-bind IdDefault IsWhole (glue_pieces pieces) (λ p. glue_name p.0 p.1 raw)
      (glue_pieces-Ensures pieces) (λ p i. glue_name-Ensures p.0 p.1 raw i)

located-IsWhole : (place scheme raw : Text) → IsWhole (located place scheme raw)
located-IsWhole place scheme raw = inr (refl, refl, refl, refl, λ e. cc)

parse_catalog_uri-Ensures :
    (d : Defaults) (ref scheme : Text)
    → AreNamed d
    → Ensures IsWhole (parse_catalog_uri d ref scheme)
unfolding parse_catalog_uri
parse_catalog_uri-Ensures d ref scheme h =
    let body = drop_codes (length scheme + 3) ref in
    let locator =
      if is_one_of scheme (codes "hms" ∷ codes "hive" ∷ [])
      then parse_metastore body ref
      else parse_glue body ref in
    let entry =
      if is_one_of scheme (codes "uc" ∷ codes "unity" ∷ codes "deltasharing" ∷ [])
      then parse_dotted d scheme body ref
      else locator in
    Ensures-if IsWhole (is_empty body) (invalid no_body) entry tt (
      Ensures-if IsWhole (is_one_of scheme (codes "uc" ∷ codes "unity" ∷ codes "deltasharing" ∷ []))
        (parse_dotted d scheme body ref) locator (parse_dotted-Ensures d scheme body ref h)
        (Ensures-if IsWhole (is_one_of scheme (codes "hms" ∷ codes "hive" ∷ []))
          (parse_metastore body ref) (parse_glue body ref) (parse_metastore-Ensures body ref)
          (parse_glue-Ensures body ref)))

parse_uri-Ensures :
    (d : Defaults) (ref scheme : Text) → AreNamed d → Ensures IsWhole (parse_uri d ref scheme)
unfolding parse_uri
parse_uri-Ensures d ref scheme h =
    let store =
      if is_one_of scheme storage_schemes
      then parsed (located ref scheme ref)
      else invalid (unsupported_scheme scheme) in
    let other =
      if is_one_of scheme (codes "wasb" ∷ codes "wasbs" ∷ []) then invalid legacy_wasb else store in
    Ensures-if IsWhole (is_one_of scheme catalog_schemes) (parse_catalog_uri d ref scheme) other
      (parse_catalog_uri-Ensures d ref scheme h)
      (Ensures-if IsWhole (is_one_of scheme (codes "wasb" ∷ codes "wasbs" ∷ []))
        (invalid legacy_wasb) store tt
        (Ensures-if IsWhole (is_one_of scheme storage_schemes) (parsed (located ref scheme ref))
          (invalid (unsupported_scheme scheme)) (located-IsWhole ref scheme ref) tt))

parse_plain-Ensures :
    (host : Host) (d : Defaults) (force_path : Bool) (ref : Text)
    → AreNamed d
    → Ensures IsWhole (parse_plain host d force_path ref)
unfolding parse_plain
parse_plain-Ensures host d force_path ref h =
    Ensures-if IsWhole (force_path || looks_like_path ref)
      (parsed (located (local_path host ref) (codes "file") ref)) (parse_name d ref ref)
      (located-IsWhole (local_path host ref) (codes "file") ref) (parse_name-Ensures d ref ref h)

schemed-Ensures :
    (host : Host) (d : Defaults) (force_path : Bool) (ref : Text) (scheme : Option Text)
    → AreNamed d
    → Ensures IsWhole
        (elim scheme [ none ↦ parse_plain host d force_path ref | some s ↦ parse_uri d ref s ])
schemed-Ensures host d force_path ref none h = parse_plain-Ensures host d force_path ref h
schemed-Ensures host d force_path ref (some s) h = parse_uri-Ensures d ref s h

parse_stripped-Ensures :
    (host : Host) (d : Defaults) (force_path : Bool) (ref : Text)
    → AreNamed d
    → Ensures IsWhole (parse_stripped host d force_path ref)
unfolding parse_stripped
parse_stripped-Ensures host d force_path ref h =
    let place = codes "file:///" ++ lstrip_char b'/' (drop_codes 5 ref) in
    let schemed : Parsed TableRef = elim (scheme_of ref) [
      | none ↦ parse_plain host d force_path ref
      | some s ↦ parse_uri d ref s
    ] in
    let filed = if is_short_file ref then parsed (located place (codes "file") ref) else schemed in
    Ensures-if IsWhole (is_unreachable host ref) (invalid unreachable_dbfs) filed tt (
      Ensures-if IsWhole (is_short_file ref) (parsed (located place (codes "file") ref)) schemed
        (located-IsWhole place (codes "file") ref)
        (schemed-Ensures host d force_path ref (scheme_of ref) h))

-- Every reference that is parsed is either a catalog entry with three names, none of them empty,
-- and no location, or a location and no names; the defaults of the connection are not empty.
pub parse_ref-Ensures :
    (host : Host) (d : Defaults) (force_path : Bool) (ref : Text)
    → AreNamed d
    → Ensures IsWhole (parse_ref host d force_path ref)
unfolding parse_ref
parse_ref-Ensures host d force_path ref h =
    Ensures-if IsWhole (is_empty (strip ref)) (invalid empty_reference)
      (parse_stripped host d force_path (strip ref)) tt
      (parse_stripped-Ensures host d force_path (strip ref) h)
