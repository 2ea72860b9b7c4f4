-- ===== src/Capability/Versions.antt =====
-- The features that legacy protocol versions imply grow with the version.
use deltaswamp.Prelude.{
  List, Option, String, [], ap, arith, map, refl, some, suc, true, zero, ℕ, ◌<◌, ◌∷◌, ◌≡◌, ◌≤◌,
}
use deltaswamp.Capability.Names.{TableFeature, wire}
use deltaswamp.Capability.Wire.{implied_features, implied_writer_features, legacy_writer_features}
use deltaswamp.Prelude.Text.{mem}

-- How many entries of the list of version 6 a writer version takes.
abbrev count : ℕ → ℕ
count (suc zero) = 0
count (suc (suc zero)) = 2
count (suc (suc (suc zero))) = 3
count (suc (suc (suc (suc zero)))) = 5
count (suc (suc (suc (suc (suc zero))))) = 6
count _ = 7

abbrev take : ℕ → List TableFeature → List TableFeature
take zero fs = []
take (suc n) [] = []
take (suc n) (f ∷ fs) = f ∷ take n fs

legacy_writer_features-take :
    (v : ℕ) → legacy_writer_features v ≡ take (count v) (legacy_writer_features 6)
unfolding legacy_writer_features
legacy_writer_features-take (suc zero) = refl
legacy_writer_features-take (suc (suc zero)) = refl
legacy_writer_features-take (suc (suc (suc zero))) = refl
legacy_writer_features-take (suc (suc (suc (suc zero)))) = refl
legacy_writer_features-take (suc (suc (suc (suc (suc zero))))) = refl
legacy_writer_features-take _ = refl

mem-take_mono :
    (s : String) (m n : ℕ) (fs : List TableFeature)
    → m ≤ n
    → mem s (map wire (take m fs)) ≡ true
    → mem s (map wire (take n fs)) ≡ true
unfolding mem
mem-take_mono s zero n fs h e = cc
mem-take_mono s (suc m) zero fs h e = absurd (omega arith)
mem-take_mono s (suc m) (suc n) [] h e = e
mem-take_mono s (suc m) (suc n) (f ∷ fs) h e = ground (arith, mem-take_mono s m n fs (omega arith))

count_mono : (v w : ℕ) → 1 ≤ v → v ≤ w → count v ≤ count w
count_mono zero w p h = absurd (omega arith)
count_mono (suc zero) w p h = omega arith
count_mono (suc v) zero p h = absurd (omega arith)
count_mono (suc (suc v)) (suc zero) p h = absurd (omega arith)
count_mono (suc (suc zero)) (suc (suc w)) p h = ground arith
count_mono (suc (suc (suc zero))) (suc (suc w)) p h = ground arith
count_mono (suc (suc (suc (suc zero)))) (suc (suc w)) p h = ground arith
count_mono (suc (suc (suc (suc (suc zero))))) (suc (suc w)) p h = ground arith
count_mono (suc (suc (suc (suc (suc (suc v)))))) (suc (suc w)) p h = ground arith

implied_writer_features-take :
    (v : ℕ) → v < 7 → implied_writer_features (some v) ≡ take (count v) (legacy_writer_features 6)
unfolding implied_writer_features
implied_writer_features-take v h = ground (arith, legacy_writer_features-take v)

implied_small :
    (v w : ℕ) (s : String)
    → 1 ≤ v
    → v ≤ w
    → w < 7
    → mem s (map wire (implied_writer_features (some v))) ≡ true
    → mem s (map wire (implied_writer_features (some w))) ≡ true
implied_small v w s p h small e = rw (implied_writer_features-take w small) (
    mem-take_mono s (count v) (count w) (legacy_writer_features 6) (count_mono v w p h)
      (rw (implied_writer_features-take v (omega arith)) at e))

implied_large : (w : ℕ) → 7 ≤ w → implied_writer_features (some w) ≡ []
unfolding implied_writer_features
implied_large w h = ground arith

-- What a writer version from 1 on implies, a later one up to 6 implies too, whatever the reader
-- versions; and a version from 7 on implies nothing.
pub implied_features_mono :
    (r r' : Option ℕ) (v w large : ℕ) (s : String)
    → 1 ≤ v
    → v ≤ w
    → w < 7
    → 7 ≤ large
    → mem s (implied_features r (some v)).1 ≡ true
    → (mem s (implied_features r' (some w)).1 ≡ true) × ((implied_features r' (some large)).1 ≡ [])
unfolding implied_features
implied_features_mono r r' v w large s p h small more e =
    (implied_small v w s p h small e, ap (map wire) (implied_large large more))
