-- ===== src/Prelude/Guards.antt =====
-- What the Boolean guards of a definition leave of an equation on its result.
use mathlib.Core.Bool.{Bool, true, false, ◌&&◌, ◌||◌, not}
use mathlib.Core.Option.{Option, none, some}
use mathlib.Core.Path.{◌≡◌, refl}
use deltaswamp.Prelude.Tests.{if◌then◌else◌}

pub and_true : (a b : Bool) → (a && b) ≡ true → (a ≡ true) × (b ≡ true)
and_true true b e = (refl, e)
and_true false b e = cc

pub or_false : (a b : Bool) → (a || b) ≡ false → (a ≡ false) × (b ≡ false)
or_false false b e = (refl, e)
or_false true b e = cc

pub true_of_unless : (a : Bool) → not a ≡ false → a ≡ true
true_of_unless true e = refl
true_of_unless false e = cc

module _ {ℓ} {A : Type ℓ} where
  pub when-some :
      (b : Bool) (x y : A) → (if b then some x else none) ≡ some y → (b ≡ true) × (x ≡ y)
  when-some true x y e = (refl, cc)
  when-some false x y e = cc

  pub unless-some :
      (b : Bool) (x : Option A) (y : A)
      → (if b then none else x) ≡ some y
      → (b ≡ false) × (x ≡ some y)
  unless-some false x y e = (refl, e)
  unless-some true x y e = cc
