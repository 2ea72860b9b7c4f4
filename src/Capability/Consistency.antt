-- ===== src/Capability/Consistency.antt =====
-- The rows of the feature matrix agree with one another, in each engine and across kinds.
use deltaswamp.Prelude.{arith, ◌≡◌, ◌≢◌, ◌⊎◌}
use deltaswamp.Capability.Matrix.{FeatureSupport, feature_support}
use deltaswamp.Capability.Names.{TableFeature, append_only, unsupported, writer}

-- Whether a row claims less for reading than for writing, with either engine.
abbrev pub ReadsWhatItWrites : FeatureSupport → Type 0
ReadsWhatItWrites r =
    ((r.kernel_read ≢ unsupported) ⊎ (r.kernel_write ≡ unsupported))
    × ((r.deltars_read ≢ unsupported) ⊎ (r.deltars_write ≡ unsupported))

-- An engine that cannot read a table with a feature is never said to write it, for the kernel and
-- for delta-rs, and a feature of kind WRITER blocks reads with neither engine.
pub feature_support_consistent :
    (f : TableFeature)
    → ReadsWhatItWrites (feature_support f)
      × (((feature_support f).kind ≢ writer)
          ⊎ (((feature_support f).kernel_read ≢ unsupported)
              × ((feature_support f).deltars_read ≢ unsupported)))
unfolding feature_support
feature_support_consistent append_only = ground arith
feature_support_consistent _ = ground arith
