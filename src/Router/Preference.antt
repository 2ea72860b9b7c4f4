-- ===== src/Router/Preference.antt =====
-- The order in which the engines of an operation are asked (python/deltaswamp/router.py:
-- _preference, with deletion_vectors_writable of python/deltaswamp/engine/kernel.py).
use text.Mathlib.Text.{◌==◌ as str_eq}
use deltaswamp.Prelude.{Bool, List, false, if◌then◌else◌, not, select, true, ◌&&◌, ◌++◌, ◌||◌, ◌∷◌}
use deltaswamp.Capability.Names.{
  Engine, Operation, append, delete, deltars, kernel, merge, overwrite, replace_where, restore,
  same_engine, update, vacuum,
}
use deltaswamp.Prelude.Text.{lower_is, mem}
use deltaswamp.Router.Features.{writes}
use deltaswamp.Router.Types.{Router, has_engine}
use deltaswamp.Table.{ResolvedTable, effective_reader_features, effective_writer_features, property}

-- `_DV_DML`
unfoldable pub dv_dml : Operation → Bool
dv_dml delete = true
dv_dml update = true
dv_dml replace_where = true
dv_dml merge = true
dv_dml _ = false

-- `_STATS_WRITES`
stats_writes : Operation → Bool
stats_writes append = true
stats_writes overwrite = true
stats_writes _ = false

abbrev is_vacuum : Operation → Bool
is_vacuum vacuum = true
is_vacuum _ = false

abbrev is_restore : Operation → Bool
is_restore restore = true
is_restore _ = false

-- DML may be written as deletion vectors: the feature is listed on both sides and switched on.
unfoldable pub deletion_vectors_writable : ResolvedTable → Bool
unfolding mem lower_is property
deletion_vectors_writable table =
    mem "deletionVectors" table.reader_features
    && mem "deletionVectors" table.writer_features
    && lower_is (property "delta.enableDeletionVectors" "false" table) "true"

-- `_deltars_drops_stats`
unfoldable pub deltars_drops_stats : ResolvedTable → Bool
unfolding property
deltars_drops_stats table = not (str_eq (property "delta.dataSkippingStatsColumns" "" table) "")

-- A table whose VACUUM the kernel plans first.
vacuums_by_kernel : Router → ResolvedTable → Bool
unfolding effective_reader_features effective_writer_features mem writes
vacuums_by_kernel router table =
    mem "deletionVectors" (effective_reader_features table)
    || not (
        writes router deltars table
          (effective_reader_features table ++ effective_writer_features table))

-- A table whose RESTORE the kernel makes first: it is column-mapped.
restores_by_kernel : ResolvedTable → Bool
unfolding property lower_is
restores_by_kernel table =
    let mode = property "delta.columnMapping.mode" "none" table in
    not (lower_is mode "" || lower_is mode "none")

-- Whether one of the four conditions puts the kernel first.
unfoldable pub prefers_kernel : Router → Operation → ResolvedTable → Bool
unfolding dv_dml deletion_vectors_writable vacuums_by_kernel restores_by_kernel stats_writes
    deltars_drops_stats
prefers_kernel router operation table =
    (dv_dml operation && deletion_vectors_writable table)
    || (is_vacuum operation && vacuums_by_kernel router table)
    || (is_restore operation && restores_by_kernel table)
    || (stats_writes operation && deltars_drops_stats table)

-- `(EngineKind.KERNEL, *(k for k in engines if k is not EngineKind.KERNEL))`
unfoldable pub kernel_first : List Engine → List Engine
unfolding select same_engine
kernel_first engines = kernel ∷ select (λ k. not (same_engine k kernel)) engines

-- `_preference`
unfoldable pub preference : Router → Operation → ResolvedTable → List Engine → List Engine
preference router operation table engines =
    if has_engine kernel engines && prefers_kernel router operation table
    then kernel_first engines
    else engines
