-- ===== src/Capability/RoundTrip.antt =====
-- `feature_from_wire` reads back the wire name of every feature, and one alias.
use text.Mathlib.TextEquality.{eq_iff}
use deltaswamp.Prelude.{
  List, Option, String, [], arith, inl, inr, none, refl, some, ◌↔◌, ◌∷◌, ◌≡◌, ◌⊎◌,
}
use deltaswamp.Capability.Names.{TableFeature, append_only, timestamp_ntz, wire}
use deltaswamp.Capability.Wire.{all_features, feature_from_wire, find_feature, or_alias}

feature_from_wire-wire : (f : TableFeature) → feature_from_wire (wire f) ≡ some f
unfolding feature_from_wire
feature_from_wire-wire append_only = refl
feature_from_wire-wire _ = refl

wire-find_feature :
    (s : String) (fs : List TableFeature) {f : TableFeature}
    → find_feature s fs ≡ some f
    → s ≡ wire f
unfolding find_feature
wire-find_feature s [] h = cc
wire-find_feature s (g ∷ fs) {f} h =
    ground (arith, eq_iff (wire g) s, wire-find_feature s fs {f = f})

-- The names a feature is read from: its own, and for `timestampNtz` the older spelling.
abbrev pub Spells : String → TableFeature → Type 0
Spells s f = (s ≡ wire f) ⊎ ((s ≡ "timestampWithoutTimezone") × (f ≡ timestamp_ntz))

or_alias-Spells :
    (s : String) (f : TableFeature) (o : Option TableFeature)
    → (o ≡ some f → s ≡ wire f)
    → or_alias s o ≡ some f
    → Spells s f
unfolding or_alias
or_alias-Spells s f none own h = ground (arith, eq_iff "timestampWithoutTimezone" s)
or_alias-Spells s f (some g) own h = inl (own h)

feature_from_wire-Spells :
    (s : String) (f : TableFeature) → feature_from_wire s ≡ some f → Spells s f
unfolding feature_from_wire
feature_from_wire-Spells s f h = or_alias-Spells s f _ (λ e. wire-find_feature s all_features e) h

Spells-feature_from_wire :
    (s : String) (f : TableFeature) → Spells s f → feature_from_wire s ≡ some f
Spells-feature_from_wire s f (inl own) = rw own (feature_from_wire-wire f)
Spells-feature_from_wire s f (inr (old, e)) = rw (old, e) (unfold feature_from_wire in refl)

-- A text is read as a feature exactly when it is the feature's wire name, or the older spelling
-- `timestampWithoutTimezone` read as `timestampNtz`.
pub feature_from_wire_iff :
    (s : String) (f : TableFeature) → (feature_from_wire s ≡ some f) ↔ Spells s f
feature_from_wire_iff s f = (feature_from_wire-Spells s f, Spells-feature_from_wire s f)
