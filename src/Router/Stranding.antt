-- ===== src/Router/Stranding.antt =====
-- A metadata change through a direct engine leaves a table that some local engine can write.
use mathlib.Core.List.{append-nil}
use deltaswamp.Prelude.{
  All, Bool, Bool-cases, List, String, [], arith, if◌then◌else◌, inl, inr, is_empty, none, not,
  refl, some, suc, true, zero, ℕ, ◌++◌, ◌<◌, ◌||◌, ◌∷◌, ◌≡◌, ◌≤◌,
}
use deltaswamp.Capability.Names.{Engine, deltars, kernel, wire}
use deltaswamp.Capability.Routing.{metadata_operations}
use deltaswamp.Capability.Wire.{implied_features, implied_writer_features, legacy_writer_features}
use deltaswamp.Prelude.Text.{minus}
use deltaswamp.Router.Choose.{Request, capability}
use deltaswamp.Router.Features.{
  features_added, metadata_legacy_writer, strands_feature_table, strands_legacy_table, writes,
}
use deltaswamp.Router.Guarantees.{NamesItself}
use deltaswamp.Router.Promises.{direct_served}
use deltaswamp.Router.Writable.{WritesName, writes-WritesName}
use deltaswamp.Router.Types.{Router, is_direct, strands_features, version_or_zero}
use deltaswamp.Table.{ResolvedTable, effective_writer_features}

-- `_LEGACY_WRITER` of python/deltaswamp/engine/metadata.py holds, for the versions that have an
-- entry, the same features as LEGACY_WRITER_FEATURES of python/deltaswamp/capability.py.
pub metadata_legacy_writer-implied :
    (v : ℕ) → 1 ≤ v → v < 7 → metadata_legacy_writer v ≡ (implied_features none (some v)).1
unfolding metadata_legacy_writer implied_features implied_writer_features legacy_writer_features
    wire
metadata_legacy_writer-implied zero p h = absurd (omega arith)
metadata_legacy_writer-implied (suc zero) p h = refl
metadata_legacy_writer-implied (suc (suc zero)) p h = refl
metadata_legacy_writer-implied (suc (suc (suc zero))) p h = refl
metadata_legacy_writer-implied (suc (suc (suc (suc zero)))) p h = refl
metadata_legacy_writer-implied (suc (suc (suc (suc (suc zero))))) p h = refl
metadata_legacy_writer-implied (suc (suc (suc (suc (suc (suc zero)))))) p h = refl
metadata_legacy_writer-implied (suc (suc (suc (suc (suc (suc (suc v))))))) p h =
    absurd (omega arith)

-- Whether the kernel or delta-rs writes a table that lists these features.
abbrev pub locally_writable : Router → ResolvedTable → List String → Bool
locally_writable router table names =
    writes router kernel table names || writes router deltars table names

-- What the table lists after the change.
abbrev pub features_after : Request → List String
features_after q =
    effective_writer_features q.table
    ++ minus (features_added q.operation q.shape) (effective_writer_features q.table)

writable_after :
    (router : Router) (table : ResolvedTable) (current added : List String)
    → (if is_empty added
        then none
        else if not (locally_writable router table current)
        then none
        else if locally_writable router table (current ++ added)
        then none
        else some (strands_features added))
      ≡ none
    → locally_writable router table current ≡ true
    → locally_writable router table (current ++ added) ≡ true
writable_after router table current [] e before = rw append-nil before
writable_after router table current (a ∷ added) e before = ground arith

strands-locally_writable :
    (router : Router) (q : Request)
    → strands_feature_table router q.operation q.table q.shape ≡ none
    → locally_writable router q.table (effective_writer_features q.table) ≡ true
    → locally_writable router q.table (features_after q) ≡ true
unfolding strands_feature_table
strands-locally_writable router q e before =
    writable_after router q.table (effective_writer_features q.table) _ e before

strands_legacy_table-feature :
    (router : Router) (q : Request)
    → metadata_operations q.operation ≡ true
    → 7 ≤ version_or_zero q.table.min_writer_version
    → strands_legacy_table router q.operation q.table q.shape ≡ none
    → strands_feature_table router q.operation q.table q.shape ≡ none
unfolding strands_legacy_table
strands_legacy_table-feature router q metadata version e = ground arith

writer-found :
    (router : Router) (table : ResolvedTable) (names : List String)
    → locally_writable router table names ≡ true
    → (writer : Engine) × (is_direct writer ≡ true) × All (WritesName router table writer) names
unfolding is_direct
writer-found router table names e = elim (Bool-cases (writes router kernel table names)) [
  | inl able ↦ (kernel, refl, writes-WritesName router table kernel names able)
  | inr unable ↦
      (deltars, refl, writes-WritesName router table deltars names (ground (arith, e, unable)))
]

-- If an answer names the kernel or delta-rs for a metadata change of a table on table features,
-- and the kernel or delta-rs could write the table before, then one of them can write it with the
-- features that the change adds: the matrix says of each name that the table then lists that this
-- engine writes it, `generatedColumns` aside where a kernel may pass over it. Each engine that
-- agrees names itself.
pub capability_stays_writable :
    (router : Router) (q : Request) (kind : Engine)
    → NamesItself router
    → is_direct kind ≡ true
    → (capability router q).ok ≡ true
    → (capability router q).engine ≡ some kind
    → metadata_operations q.operation ≡ true
    → 7 ≤ version_or_zero q.table.min_writer_version
    → locally_writable router q.table (effective_writer_features q.table) ≡ true
    → (locally_writable router q.table (features_after q) ≡ true)
      × (writer : Engine) × (is_direct writer ≡ true)
      × All (WritesName router q.table writer) (features_after q)
capability_stays_writable router q kind names direct ok e metadata version before =
    let (_, _, kept, _) = direct_served router q kind names direct ok e in
    let after =
      strands-locally_writable router q
        (strands_legacy_table-feature router q metadata version kept) before in
    let (writer, direct_writer, names_written) =
      writer-found router q.table (features_after q) after in
    (after, writer, direct_writer, names_written)
