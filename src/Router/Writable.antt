-- ===== src/Router/Writable.antt =====
-- What it takes for the kernel or delta-rs to write a table by its features, from the matrix
-- (python/deltaswamp/router.py: _writes).
use text.Mathlib.TextEquality.{eq_iff}
use deltaswamp.Prelude.{
  All, Bool, Bool-cases, List, Option-cases, String, [], all, arith, false, if◌then◌else◌, inl, inr,
  not, refl, select, some, true, ◌&&◌, ◌∷◌, ◌≡◌, ◌≢◌, ◌⊎◌,
}
use deltaswamp.Capability.Names.{Engine, TableFeature, kernel, same_engine, unsupported}
use deltaswamp.Capability.Wire.{feature_from_wire}
use deltaswamp.Prelude.Text.{mem, minus}
use deltaswamp.Router.Features.{write_support, writes, writes_feature}
use deltaswamp.Router.Types.{Router}
use deltaswamp.Table.{ResolvedTable}

-- Why an engine writes a table that lists a name: it is that of a feature which the matrix says the
-- engine writes; or it is `generatedColumns`, on a table without such a column, for a kernel whose
-- build checks constraints.
abbrev pub WritesName : Router → ResolvedTable → Engine → String → Type 0
WritesName router table kind name =
    ((f : TableFeature) × (feature_from_wire name ≡ some f) × (write_support kind f ≢ unsupported))
    ⊎ ((kind ≡ kernel)
        × (table.has_generated_columns ≡ false)
        × (router.native_constraints ≡ true)
        × (name ≡ "generatedColumns"))

writes_feature-some :
    (kind : Engine) (name : String)
    → writes_feature kind name ≡ true
    → (f : TableFeature) × (feature_from_wire name ≡ some f) × (write_support kind f ≢ unsupported)
unfolding writes_feature
writes_feature-some kind name e = elim (Option-cases (feature_from_wire name)) [
  | inl unknown ↦ absurd (cc (rw (writes_feature, unknown) at e))
  | inr (f, known) ↦ (f, known, λ never. cc (rw (writes_feature, known, never) at e))
]

module _ (router : Router) (table : ResolvedTable) (kind : Engine) where
  abbrev waives : Bool
  waives = same_engine kind kernel && not table.has_generated_columns && router.native_constraints

  waives-facts :
      waives ≡ true
      → (kind ≡ kernel) × (table.has_generated_columns ≡ false) × (router.native_constraints ≡ true)
  unfolding same_engine
  waives-facts e = ground arith

  names-WritesName :
      (waived : Bool) (names : List String)
      → waives ≡ waived
      → all (writes_feature kind) (minus names (if waived then "generatedColumns" ∷ [] else []))
        ≡ true
      → All (WritesName router table kind) names
  unfolding all minus select mem
  names-WritesName waived [] w e = tt
  names-WritesName false (n ∷ names) w e = (
    inl (writes_feature-some kind n (ground arith)),
    names-WritesName false names w (ground arith),
  )
  names-WritesName true (n ∷ names) w e = elim (Bool-cases (mem n ("generatedColumns" ∷ []))) [
    | inl listed ↦
        (let (own, absent, checks) = waives-facts w in
          let same : n ≡ "generatedColumns" =
            (eq_iff n "generatedColumns").0 (ground (arith, listed)) in
          (
            inr (own, absent, checks, same),
            names-WritesName true names w (ground (arith, e, listed)),
          ))
    | inr other ↦ (
      inl (writes_feature-some kind n (ground (arith, e, other))),
      names-WritesName true names w (ground (arith, e, other)),
    )
  ]

  -- Every name that the table lists is one that the engine writes.
  pub writes-WritesName :
      (names : List String)
      → writes router kind table names ≡ true
      → All (WritesName router table kind) names
  unfolding writes
  writes-WritesName names e = names-WritesName waives names refl e
