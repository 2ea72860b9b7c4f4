-- ===== src/Metadata/Protocol.antt =====
-- Protocol upgrades (python/deltaswamp/engine/metadata.py: supported_features and with_features).
-- A set of names is a list without regard to order, so sorting is left out.
use text.Mathlib.Text.{◌==◌ as str_eq}
use deltaswamp.Prelude.{
  Bool, List, Option, String, [], false, if◌then◌else◌, is_empty, leb, length, map, none, not,
  select, some, suc, true, zero, ℕ, ◌++◌, ◌+◌, ◌∷◌,
}
use deltaswamp.Capability.Matrix.{feature_support}
use deltaswamp.Capability.Names.{FeatureKind, reader_writer, wire}
use deltaswamp.Capability.Wire.{all_features, feature_from_wire}
use deltaswamp.Prelude.Text.{mem, minus}
use deltaswamp.Router.Features.{dependencies, metadata_legacy_writer}

-- The `protocol` action; a list that is absent is `none`.
pub record Protocol : Type 0 where
  pub min_reader : ℕ
  pub min_writer : ℕ
  pub reader_names : Option (List String)
  pub writer_names : Option (List String)

-- `protocol.get(key) or []`
abbrev pub names_or_none : Option (List String) → List String
names_or_none none = []
names_or_none (some names) = names

-- Every feature the protocol supports, explicit or implied by version.
unfoldable pub supported_features : Protocol → List String
unfolding metadata_legacy_writer
supported_features p =
    if leb 7 p.min_writer then names_or_none p.writer_names else metadata_legacy_writer p.min_writer

-- `_LEGACY_READER`, with `.get(reader, ())`
unfoldable pub legacy_reader : ℕ → List String
legacy_reader (suc (suc zero)) = "columnMapping" ∷ []
legacy_reader _ = []

-- `_PREVIEW_OF`
unfoldable pub preview_of : String → Option String
preview_of name =
    if str_eq name "typeWidening"
    then some "typeWidening-preview"
    else if str_eq name "variantType"
    then some "variantType-preview"
    else if str_eq name "variantShredding"
    then some "variantShredding-preview"
    else if str_eq name "collations"
    then some "collations-preview"
    else none

abbrev pub listed : List String → Option String → Bool
listed have none = false
listed have (some name) = mem name have

-- `_PREVIEW_OF.get(n) in have`
unfoldable pub has_preview : List String → String → Bool
unfolding preview_of mem
has_preview have name = listed have (preview_of name)

-- The loop over `pending`, whose end is the head of the list. One round takes one name off.
unfoldable pub want : ℕ → List String → List String → List String
unfolding mem dependencies
want zero wanted pending = wanted
want (suc fuel) wanted [] = wanted
want (suc fuel) wanted (name ∷ pending) =
    let old = mem name wanted in
    want fuel (if old then wanted else name ∷ wanted)
      (if old then pending else dependencies name ++ pending)

-- How many dependencies the features outside a set have.
unfoldable pub weight : List String → List String → ℕ
weight [] wanted = 0
weight (x ∷ xs) wanted = (if mem x wanted then 0 else length (dependencies x)) + weight xs wanted

-- The names asked for, with their dependencies. Each feature puts its dependencies on `pending`
-- once at most, so the fuel is enough.
unfoldable pub wanted_features : List String → List String
unfolding want weight
wanted_features names = want (length names + weight (map wire all_features) []) [] names

abbrev pub is_reader_writer : FeatureKind → Bool
is_reader_writer reader_writer = true
is_reader_writer _ = false

-- Whether readers must know a feature.
unfoldable pub needs_reader : String → Bool
unfolding feature_from_wire feature_support
needs_reader name = elim (feature_from_wire name) [
  | none ↦ false
  | some f ↦ is_reader_writer (feature_support f).kind
]

-- The names of `wanted` that the protocol does not provide under a preview name.
unfoldable pub effective : Protocol → List String → List String
unfolding select has_preview supported_features wanted_features
effective p names = select (λ n. not (has_preview (supported_features p) n)) (wanted_features names)

-- The reader's side of the new protocol: its version and its list.
unfoldable pub reader_side : Protocol → List String → List String → ℕ × Option (List String)
unfolding select mem legacy_reader needs_reader
reader_side p wanted writers =
    let needed = select needs_reader writers in
    let new = select (λ n. mem n wanted) needed in
    if leb 3 p.min_reader
    then (p.min_reader, some (names_or_none p.reader_names ++ needed))
    else if is_empty (minus new (legacy_reader p.min_reader))
    then (p.min_reader, none)
    else (3, some needed)

-- The protocol that supports the names of `wanted` too, on table features.
unfoldable pub upgrade : Protocol → List String → Protocol
unfolding supported_features reader_side
upgrade p wanted =
    let writers = supported_features p ++ wanted in
    record {
      min_reader = (reader_side p wanted writers).0;
      min_writer = 7;
      reader_names = (reader_side p wanted writers).1;
      writer_names = some writers;
    }

-- `with_features`; `none` where the protocol supports the names already.
unfoldable pub with_features : Protocol → List String → Option Protocol
unfolding effective minus supported_features upgrade
with_features p names =
    let wanted = effective p names in
    if is_empty (minus wanted (supported_features p)) then none else some (upgrade p wanted)

-- What readers must know: the list of table features, or what the version implies.
abbrev pub reader_list : ℕ × Option (List String) → List String
reader_list (version, names) = if leb 3 version then names_or_none names else legacy_reader version

abbrev pub reader_features_of : Protocol → List String
reader_features_of p = reader_list (p.min_reader, p.reader_names)
