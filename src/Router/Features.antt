-- ===== src/Router/Features.antt =====
-- The features that bind a commit, and those that a metadata change turns on
-- (python/deltaswamp/router.py: _active_features, _features_added, _writes, _strands_legacy_table
-- and _strands_feature_table).
use deltaswamp.Prelude.{
  Bool, List, Option, String, [], all, false, if◌then◌else◌, is_empty, leb, length, map, none, not,
  select, some, suc, true, zero, ℕ, ◌&&◌, ◌++◌, ◌+◌, ◌||◌, ◌∷◌,
}
use deltaswamp.Capability.Matrix.{feature_dependencies, feature_support}
use deltaswamp.Capability.Names.{
  Engine, Operation, Support, TableFeature, add_constraint, add_feature, cluster_by, column_mapping,
  deltars, kernel, row_tracking, same_engine, set_properties, unsupported, wire,
}
use deltaswamp.Capability.Routing.{metadata_operations}
use deltaswamp.Capability.Wire.{all_features, feature_from_wire}
use deltaswamp.Prelude.Text.{codes, drop_text, folds_to, has_prefix, lower, lower_is, mem, minus}
use deltaswamp.Router.Types.{
  Refusal, Router, Shape, strands_features, strands_legacy, version_or_zero,
}
use deltaswamp.Table.{
  ResolvedTable, effective_writer_features, features, is_true, known_feature, property,
}

-- `feature in _active_features(table)`
unfoldable pub active_feature : TableFeature → ResolvedTable → Bool
unfolding known_feature features folds_to property is_true
active_feature column_mapping table =
    let mode = property "delta.columnMapping.mode" "none" table in
    folds_to mode "name" || folds_to mode "id"
active_feature row_tracking table =
    if is_true "delta.rowTrackingSuspended" table
    then false
    else known_feature row_tracking (features table)
active_feature f table = known_feature f (features table)

-- `_ENABLING_PROPERTIES`
enabling_properties : List (String × String)
enabling_properties =
    ("delta.enablechangedatafeed", "changeDataFeed")
    ∷ ("delta.enabledeletionvectors", "deletionVectors")
    ∷ ("delta.enabletypewidening", "typeWidening")
    ∷ ("delta.enableincommittimestamps", "inCommitTimestamp")
    ∷ ("delta.enablerowtracking", "rowTracking")
    ∷ []

-- `_ENABLING_PROPERTIES.get(key.lower())`
enabling : String → List (String × String) → Option String
unfolding lower_is
enabling key [] = none
enabling key ((k, f) ∷ rest) = if lower_is key k then some f else enabling key rest

-- The `else` of the chain on one property: `delta.checkpointPolicy` and column mapping.
property_mode : String → String → List String
unfolding lower_is
property_mode key value =
    if lower_is key "delta.checkpointpolicy" && lower_is value "v2"
    then "v2Checkpoint" ∷ []
    else if lower_is key "delta.columnmapping.mode"
        && (lower_is value "name" || lower_is value "id")
    then "columnMapping" ∷ []
    else []

-- The features that setting one property turns on.
property_features : String → String → List String
unfolding lower_is property_mode enabling enabling_properties drop_text lower has_prefix
property_features key value =
    if has_prefix (codes "delta.feature.") (lower key)
      && (lower_is value "supported" || lower_is value "enabled")
    then drop_text 14 key ∷ []
    else elim (enabling key enabling_properties) [
      | none ↦ property_mode key value
      | some f ↦ if lower_is value "true" then f ∷ [] else property_mode key value
    ]

properties_features : List (String × String) → List String
unfolding property_features
properties_features [] = []
properties_features ((key, value) ∷ rest) = property_features key value ++ properties_features rest

-- The features that a change names itself, before their dependencies.
unfoldable pub named_features : Operation → Shape → List String
unfolding properties_features
named_features cluster_by shape = "clustering" ∷ []
named_features add_constraint shape = "checkConstraints" ∷ []
named_features add_feature shape = shape.feature_names
named_features set_properties shape = properties_features shape.property_changes
named_features _ shape = []

-- `FEATURE_DEPENDENCIES.get(feature, ()) if feature is not None else ()`, as wire names.
unfoldable pub dependencies_of : Option TableFeature → List String
unfolding feature_dependencies
dependencies_of none = []
dependencies_of (some f) = map wire (feature_dependencies f)

-- The dependencies of a name.
unfoldable pub dependencies : String → List String
dependencies name = dependencies_of (feature_from_wire name)

-- `for dep in ...: if dep.value not in names: names.add(dep.value); pending.append(dep.value)`
unfoldable pub add_dependencies :
    List String → List String → List String → List String × List String
unfolding mem
add_dependencies [] names pending = (names, pending)
add_dependencies (d ∷ ds) names pending =
    if mem d names
    then add_dependencies ds names pending
    else add_dependencies ds (d ∷ names) (d ∷ pending)

-- `while pending: ...`, with `pending.pop()` at the head of the list. One round takes one name, and
-- a name is put on `pending` once at most, so the fuel of `features_added` is enough.
unfoldable pub close_features : ℕ → List String → List String → List String
close_features zero names pending = names
close_features (suc fuel) names [] = names
close_features (suc fuel) names (name ∷ pending) =
    let (names', pending') = add_dependencies (dependencies name) names pending in
    close_features fuel names' pending'

-- The table features a metadata change of this shape turns on, with dependencies.
unfoldable pub features_added : Operation → Shape → List String
unfolding named_features close_features
features_added operation shape =
    let names = named_features operation shape in
    close_features (length names + length all_features) names names

-- `_LEGACY_WRITER` of python/deltaswamp/engine/metadata.py, `.get(writer, ())`.
unfoldable pub metadata_legacy_writer : ℕ → List String
metadata_legacy_writer (suc (suc zero)) = "appendOnly" ∷ "invariants" ∷ []
metadata_legacy_writer (suc (suc (suc zero))) =
    "appendOnly" ∷ "invariants" ∷ "checkConstraints" ∷ []
metadata_legacy_writer (suc (suc (suc (suc zero)))) =
    "appendOnly" ∷ "invariants" ∷ "checkConstraints" ∷ "changeDataFeed" ∷ "generatedColumns" ∷ []
metadata_legacy_writer (suc (suc (suc (suc (suc zero))))) =
    "appendOnly" ∷ "invariants" ∷ "checkConstraints" ∷ "changeDataFeed" ∷ "generatedColumns"
    ∷ "columnMapping" ∷ []
metadata_legacy_writer (suc (suc (suc (suc (suc (suc zero)))))) =
    "appendOnly" ∷ "invariants" ∷ "checkConstraints" ∷ "changeDataFeed" ∷ "generatedColumns"
    ∷ "columnMapping" ∷ "identityColumns" ∷ []
metadata_legacy_writer _ = []

-- `support is Support.NO`
abbrev pub is_no : Support → Bool
is_no unsupported = true
is_no _ = false

-- What the matrix says of writes through one of the two engines.
abbrev pub write_support : Engine → TableFeature → Support
unfolding feature_support
write_support kernel f = (feature_support f).kernel_write
write_support _ f = (feature_support f).deltars_write

-- Whether an engine writes a table that lists one feature.
unfoldable pub writes_feature : Engine → String → Bool
unfolding feature_from_wire write_support
writes_feature engine name = elim (feature_from_wire name) [
  | none ↦ false
  | some f ↦ not (is_no (write_support engine f))
]

-- `_writes(features, engine, table)`; the features set aside are those of the kernel on a table
-- with no generated column, where the build checks constraints.
unfoldable pub writes : Router → Engine → ResolvedTable → List String → Bool
unfolding writes_feature same_engine minus all
writes router engine table names =
    let unused =
      if same_engine engine kernel && not table.has_generated_columns && router.native_constraints
      then "generatedColumns" ∷ []
      else [] in
    all (writes_feature engine) (minus names unused)

-- `_strands_feature_table`
unfoldable pub strands_feature_table : Router → Operation → ResolvedTable → Shape → Option Refusal
strands_feature_table router operation table shape =
    let current = effective_writer_features table in
    let added = minus (features_added operation shape) current in
    let after = current ++ added in
    if is_empty added
    then none
    else if not (writes router kernel table current || writes router deltars table current)
    then none
    else if writes router kernel table after || writes router deltars table after
    then none
    else some (strands_features added)

-- `_strands_legacy_table`
unfoldable pub strands_legacy_table : Router → Operation → ResolvedTable → Shape → Option Refusal
strands_legacy_table router operation table shape =
    let writer_version = version_or_zero table.min_writer_version in
    let implied = metadata_legacy_writer writer_version in
    let added = minus (features_added operation shape) implied in
    let unwritable = select (λ name. not (writes_feature deltars name)) added in
    if not (metadata_operations operation)
    then none
    else if leb 7 writer_version
    then strands_feature_table router operation table shape
    else if not (leb 3 writer_version && leb writer_version 6)
    then none
    else if not (is_empty added) && writes router kernel table (implied ++ added)
    then none
    else if is_empty unwritable
    then none
    else some (strands_legacy writer_version unwritable)
