-- ===== src/Predicate/Pairs.antt =====
-- One comparison of a predicate, with what statistics make of it (python/deltaswamp/predicate.py:
-- _stats_can_decide).
use deltaswamp.Prelude.{
  Bool, List, Option, [], false, inl, inr, none, refl, some, true, ◌||◌, ◌∙◌, ◌∷◌, ◌≡◌, ◌⊎◌,
}
use deltaswamp.Metadata.Wanted.{left}
use deltaswamp.Predicate.Meaning.{
  IsTold, Order, Row, Truth, Value, compare, compare_maybe, holds, is_nan, nan, plain, said,
  truth_of,
}
use deltaswamp.Predicate.Skip.{
  Unsafe, Unsafes, any_kind, both_ways, floating, is_kind, is_nan_free, kind_of, renderable,
  wide_decimal,
}
use deltaswamp.Predicate.Tree.{Comparison, Operand, col, eq, ge, gt, le, literal, lt, ne}

-- Whether an operand is a column of a kind.
abbrev pub is_of : Unsafe → Unsafes → Operand → Bool
is_of k unsafe (col path) = is_kind k (kind_of unsafe path)
is_of k unsafe (literal v t) = false

pub any_kind-∷ :
    (k : Unsafe) (u : Unsafes) (o : Operand) (os : List Operand)
    → any_kind k u (o ∷ os) ≡ (is_of k u o || any_kind k u os)
unfolding any_kind
any_kind-∷ k u (col path) os = refl
any_kind-∷ k u (literal v t) os = refl

pub any_kind-pair :
    (k : Unsafe) (u : Unsafes) (a b : Operand)
    → is_of k u a ≡ false
    → is_of k u b ≡ false
    → any_kind k u (a ∷ b ∷ []) ≡ false
unfolding any_kind
any_kind-pair k u a b f g =
    rw (any_kind-∷ k u a (b ∷ [])) (rw f (rw (any_kind-∷ k u b []) (rw g refl)))

-- The comparisons that NaN, the largest value, fails on the left of a number, or on the right.
abbrev pub fails_left : Comparison → Bool
fails_left eq = true
fails_left lt = true
fails_left le = true
fails_left _ = false

abbrev pub fails_right : Comparison → Bool
fails_right eq = true
fails_right gt = true
fails_right ge = true
fails_right _ = false

both_ways-sides :
    (op : Comparison) (a b : Operand)
    → both_ways op a b ≡ true
    → ((fails_left op ≡ true) × (is_nan_free b ≡ true))
      ⊎ ((fails_right op ≡ true) × (is_nan_free a ≡ true))
both_ways-sides eq (col p) b e = inl (refl, e)
both_ways-sides eq (literal v t) (col p) e = inr (refl, e)
both_ways-sides eq (literal v t) (literal w s) e = cc
both_ways-sides lt (col p) b e = inl (refl, e)
both_ways-sides le (col p) b e = inl (refl, e)
both_ways-sides gt a (col p) e = inr (refl, e)
both_ways-sides ge a (col p) e = inr (refl, e)
both_ways-sides ne a b e = cc
both_ways-sides lt (literal v t) b e = cc
both_ways-sides le (literal v t) b e = cc
both_ways-sides gt a (literal v t) e = cc
both_ways-sides ge a (literal v t) e = cc

truth_of-holds : (b : Bool) → truth_of b ≡ holds → b ≡ true
truth_of-holds true h = refl
truth_of-holds false h = cc

module _ {P : Type 0} (order : Order P) where
  nan_left :
      (op : Comparison) (p : P) → fails_left op ≡ true → compare order op nan (plain p) ≡ false
  nan_left eq p i = refl
  nan_left lt p i = refl
  nan_left le p i = refl
  nan_left ne p i = cc
  nan_left gt p i = cc
  nan_left ge p i = cc

  nan_right :
      (op : Comparison) (p : P) → fails_right op ≡ true → compare order op (plain p) nan ≡ false
  nan_right eq p i = refl
  nan_right gt p i = refl
  nan_right ge p i = refl
  nan_right ne p i = cc
  nan_right lt p i = cc
  nan_right le p i = cc

  pub left_number :
      (op : Comparison) (x y : Option (Value P))
      → fails_left op ≡ true
      → is_nan y ≡ false
      → compare_maybe order op x y ≡ holds
      → is_nan x ≡ false
  left_number op none y i f h = refl
  left_number op (some (plain p)) y i f h = refl
  left_number op (some nan) none i f h = cc
  left_number op (some nan) (some nan) i f h = f
  left_number op (some nan) (some (plain p)) i f h =
      let n = nan_left op p i in let t = truth_of-holds (compare order op nan (plain p)) h in cc

  right_number :
      (op : Comparison) (x y : Option (Value P))
      → fails_right op ≡ true
      → is_nan x ≡ false
      → compare_maybe order op x y ≡ holds
      → is_nan y ≡ false
  right_number op none y i f h = cc
  right_number op (some x) none i f h = refl
  right_number op (some x) (some (plain p)) i f h = refl
  right_number op (some nan) (some nan) i f h = f
  right_number op (some (plain p)) (some nan) i f h =
      let n = nan_right op p i in let t = truth_of-holds (compare order op (plain p) nan) h in cc

module _ {P : Type 0} {order : Order P} {row : Row P} {unsafe : Unsafes}
    {seen : Comparison → Operand → Operand → Truth}
    (statistics : IsTold order row unsafe seen) where
  open statistics use {told, no_nan, number}

  -- Without a column of either kind, a comparison is decided as it is.
  pub compared_exact :
      (op : Comparison) (a b : Operand)
      → is_of floating unsafe a ≡ false
      → is_of floating unsafe b ≡ false
      → is_of wide_decimal unsafe a ≡ false
      → is_of wide_decimal unsafe b ≡ false
      → renderable a ≡ true
      → renderable b ≡ true
      → seen op a b ≡ said order row op a b
  compared_exact op a b fa fb wa wb ra rb =
      told op a b (no_nan a b (any_kind-pair floating unsafe a b fa fb) ra)
        (no_nan b a (any_kind-pair floating unsafe b a fb fa) rb)
        (any_kind-pair wide_decimal unsafe a b wa wb)

  -- With a floating column, one that is true of the row is seen to be true.
  pub compared_holds :
      (op : Comparison) (a b : Operand)
      → is_of wide_decimal unsafe a ≡ false
      → is_of wide_decimal unsafe b ≡ false
      → both_ways op a b ≡ true
      → said order row op a b ≡ holds
      → seen op a b ≡ holds
  unfolding said
  compared_holds op a b wa wb sides h = elim (both_ways-sides op a b sides) [
    | inl (left, free) ↦
        let right_one = number b a free in
        let left_one = left_number order op (row.value a b) (row.value b a) left right_one h in
        told op a b left_one right_one (any_kind-pair wide_decimal unsafe a b wa wb) ∙ h
    | inr (right, free) ↦
        let left_one = number a b free in
        let right_one = right_number order op (row.value a b) (row.value b a) right left_one h in
        told op a b left_one right_one (any_kind-pair wide_decimal unsafe a b wa wb) ∙ h
  ]
