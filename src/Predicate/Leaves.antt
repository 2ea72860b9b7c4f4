-- ===== src/Predicate/Leaves.antt =====
-- The nodes with no nodes below them: what `_stats_can_decide` lets through, and the forms that
-- `_skip_leaf` makes of comparisons, IN and BETWEEN (python/deltaswamp/predicate.py).
use deltaswamp.Prelude.{
  Bool, List, [], all, ap, false, if◌then◌else◌, inl, inr, not, refl, sym, true, ◌&&◌, ◌||◌, ◌∙◌,
  ◌∷◌, ◌≡◌, ◌⊎◌,
}
use deltaswamp.Predicate.Atoms.{
  IsAsStrong, IsAsStrong-eq, t_and-dropped, t_and-left, t_or-IsAsStrong,
}
use deltaswamp.Predicate.Meaning.{
  IsTold, Order, Row, Truth, decided, decided_any, fails, holds, said, said_in, t_and, t_not,
  t_not_if, unsure,
}
use deltaswamp.Predicate.Pairs.{
  any_kind-pair, any_kind-∷, compared_exact, compared_holds, is_of, left_number,
}
use deltaswamp.Predicate.Skip.{
  Unsafe, Unsafes, any_kind, both, done_all, either, float_can_decide, floating, inverse_if,
  is_column, is_nan_free, is_null_test, item_tests, kind_at, kind_of, renderable, stats_can_decide,
  test, then_also, wide_decimal,
}
use deltaswamp.Predicate.Tree.{
  Comparison, Leaf, Operand, PathOf, between, col, compared, eq, ge, in_list, le, literal,
  operands_of,
}
use deltaswamp.Prelude.Guards.{and_true, or_false}

-- No column of a kind that statistics do not decide.
abbrev pub IsClean : Unsafes → List Operand → Type 0
IsClean u operands =
    (any_kind floating u operands ≡ false) × (any_kind wide_decimal u operands ≡ false)

abbrev pub IsFit : Bool → Unsafes → Leaf → Type 0
IsFit exact u l =
    IsClean u (operands_of l)
    ⊎ ((is_null_test l ≡ true)
        ⊎ ((exact ≡ false)
            × ((any_kind wide_decimal u (operands_of l) ≡ false) × (float_can_decide l ≡ true))))

pub clean_without : (operands : List Operand) → (k : Unsafe) → any_kind k [] operands ≡ false
unfolding any_kind kind_of kind_at
clean_without [] k = refl
clean_without (col path ∷ os) floating = clean_without os floating
clean_without (col path ∷ os) wide_decimal = clean_without os wide_decimal
clean_without (literal v t ∷ os) k = clean_without os k

fit_of :
    (exact floats wide nulls can_decide : Bool)
    → (if not (floats || wide) || nulls then true else if wide || exact then false else can_decide)
      ≡ true
    → ((floats ≡ false) × (wide ≡ false))
      ⊎ ((nulls ≡ true) ⊎ ((exact ≡ false) × ((wide ≡ false) × (can_decide ≡ true))))
fit_of exact floats wide true can_decide e = inr (inl refl)
fit_of exact false false false can_decide e = inl (refl, refl)
fit_of false true false false can_decide e = inr (inr (refl, (refl, e)))
fit_of true true false false can_decide e = cc
fit_of exact true true false can_decide e = cc
fit_of exact false true false can_decide e = cc

pub stats_can_decide-IsFit :
    (exact : Bool) (u : Unsafes) (l : Leaf) → stats_can_decide l exact u ≡ true → IsFit exact u l
unfolding stats_can_decide
stats_can_decide-IsFit exact u l e = fit_of exact _ _ (is_null_test l) (float_can_decide l) e

-- An operand of a list of them is of no kind that none of them is of.
kind-∷ :
    (k : Unsafe) (u : Unsafes) (o : Operand) (os : List Operand)
    → any_kind k u (o ∷ os) ≡ false
    → (is_of k u o ≡ false) × (any_kind k u os ≡ false)
kind-∷ k u o os h = or_false _ _ (sym (any_kind-∷ k u o os) ∙ h)

pub t_and-end : (t : Truth) → t_and t holds ≡ t
t_and-end holds = refl
t_and-end fails = refl
t_and-end unsure = refl

module _ {P : Type 0} {order : Order P} {row : Row P} {unsafe : Unsafes}
    {seen : Comparison → Operand → Operand → Truth}
    (statistics : IsTold order row unsafe seen) where
  -- `in`, an item at a time.
  items_exact :
      (a : Operand) (items : List Operand)
      → is_of floating unsafe a ≡ false
      → is_of wide_decimal unsafe a ≡ false
      → renderable a ≡ true
      → IsClean unsafe items
      → all renderable items ≡ true
      → decided_any seen row.missing (item_tests a items) ≡ said_in order row a items
  unfolding all item_tests decided said_in
  items_exact a [] fa wa ra clean r = refl
  items_exact a (item ∷ items) fa wa ra (floats, wide) r =
      let (fi, fs) = kind-∷ floating unsafe item items floats in
      let (wi, ws) = kind-∷ wide_decimal unsafe item items wide in
      let (ri, rs) = and_true (renderable item) (all renderable items) r in
      rw (compared_exact statistics eq a item fa fi wa wi ra ri)
        (rw (items_exact a items fa wa ra (fs, ws) rs) refl)

  items_hold :
      (path : PathOf) (items : List Operand)
      → is_of wide_decimal unsafe (col path) ≡ false
      → any_kind wide_decimal unsafe items ≡ false
      → all is_nan_free items ≡ true
      → IsAsStrong false
          (said_in order row (col path) items)
          (decided_any seen row.missing (item_tests (col path) items))
  unfolding all item_tests decided said_in
  items_hold path [] wa wide free = λ h. h
  items_hold path (item ∷ items) wa wide free =
      let (wi, ws) = kind-∷ wide_decimal unsafe item items wide in
      let (here, rest) = and_true (is_nan_free item) (all is_nan_free items) free in
      t_or-IsAsStrong false _ _ _ _ (compared_holds statistics eq (col path) item wa wi here)
        (items_hold path items wa ws rest)

  -- A range, by its two ends.
  range_exact :
      (a low high : Operand)
      → IsClean unsafe (a ∷ low ∷ high ∷ [])
      → (renderable a && (renderable low && renderable high)) ≡ true
      → t_and (seen ge a low) (t_and (seen le a high) holds)
        ≡ t_and (said order row ge a low) (said order row le a high)
  range_exact a low high (floats, wide) r =
      let (fa, fs) = kind-∷ floating unsafe a (low ∷ high ∷ []) floats in
      let (wa, ws) = kind-∷ wide_decimal unsafe a (low ∷ high ∷ []) wide in
      let (fl, fh) = kind-∷ floating unsafe low (high ∷ []) fs in
      let (wl, wh) = kind-∷ wide_decimal unsafe low (high ∷ []) ws in
      let (ra, rs) = and_true (renderable a) (renderable low && renderable high) r in
      let (rl, rh) = and_true (renderable low) (renderable high) rs in
      rw (compared_exact statistics ge a low fa fl wa wl ra rl) (
        rw
          (compared_exact statistics le a high fa (kind-∷ floating unsafe high [] fh).0 wa
            (kind-∷ wide_decimal unsafe high [] wh).0 ra rh)
          (rw (t_and-end (said order row le a high)) refl))

  range_hold :
      (path : PathOf) (low high : Operand)
      → any_kind wide_decimal unsafe (col path ∷ low ∷ high ∷ []) ≡ false
      → (is_nan_free low && is_nan_free high) ≡ true
      → t_and (said order row ge (col path) low) (said order row le (col path) high) ≡ holds
      → t_and (seen ge (col path) low) (t_and (seen le (col path) high) holds) ≡ holds
  unfolding said
  range_hold path low high wide free h =
      let (wa, ws) = kind-∷ wide_decimal unsafe (col path) (low ∷ high ∷ []) wide in
      let (wl, wh) = kind-∷ wide_decimal unsafe low (high ∷ []) ws in
      let (fl, fh) = and_true (is_nan_free low) (is_nan_free high) free in
      let above = t_and-left _ (said order row le (col path) high) h in
      let below = t_and-dropped (said order row ge (col path) low) _ h in
      let number_high =
        left_number order le (row.value (col path) high) (row.value high (col path)) refl
          (statistics.number high (col path) fh) below in
      let number_low = statistics.nan_stays (col path) low high fl fh ∙ number_high in
      rw
        (statistics.told ge (col path) low number_low (statistics.number low (col path) fl)
          (any_kind-pair wide_decimal unsafe (col path) low wa wl))
        (rw above (
          rw
            (compared_holds statistics le (col path) high wa
              (kind-∷ wide_decimal unsafe high [] wh).0 fh below)
            refl))

  pair_kinds :
      (k : Unsafe) (a b : Operand)
      → any_kind k unsafe (a ∷ b ∷ []) ≡ false
      → (is_of k unsafe a ≡ false) × (is_of k unsafe b ≡ false)
  pair_kinds k a b h =
      let (one, rest) = kind-∷ k unsafe a (b ∷ []) h in (one, (kind-∷ k unsafe b [] rest).0)

  pub compared_leaf :
      (exact : Bool) (op : Comparison) (a b : Operand)
      → IsFit exact unsafe (compared op a b)
      → (renderable a && renderable b) ≡ true
      → IsAsStrong exact (said order row op a b) (seen op a b)
  unfolding float_can_decide
  compared_leaf exact op a b (inl (floats, wide)) r =
      let (ra, rb) = and_true (renderable a) (renderable b) r in
      let (fa, fb) = pair_kinds floating a b floats in
      let (wa, wb) = pair_kinds wide_decimal a b wide in
      IsAsStrong-eq exact _ _ (compared_exact statistics op a b fa fb wa wb ra rb)
  compared_leaf exact op a b (inr (inl nulls)) r = cc
  compared_leaf exact op a b (inr (inr (one_way, (wide, sides)))) r =
      let (wa, wb) = pair_kinds wide_decimal a b wide in
      rw one_way (compared_holds statistics op a b wa wb sides)

  column_items :
      (path : PathOf) (items : List Operand)
      → IsClean unsafe (col path ∷ items)
      → all renderable items ≡ true
      → decided_any seen row.missing (item_tests (col path) items)
        ≡ said_in order row (col path) items
  column_items path items (floats, wide) r =
      let (fa, fs) = kind-∷ floating unsafe (col path) items floats in
      let (wa, ws) = kind-∷ wide_decimal unsafe (col path) items wide in
      items_exact (col path) items fa wa refl (fs, ws) r

  pub in_leaf :
      (exact : Bool) (a : Operand) (items : List Operand) (negated : Bool)
      → IsFit exact unsafe (in_list a items negated)
      → is_column a ≡ true
      → all renderable items ≡ true
      → IsAsStrong exact
          (t_not_if negated (said_in order row a items))
          (decided seen row.missing (inverse_if negated (either (item_tests a items))))
  unfolding float_can_decide decided
  in_leaf exact (col path) items true (inl clean) c r =
      IsAsStrong-eq exact _ _ (ap t_not (column_items path items clean r))
  in_leaf exact (col path) items false (inl clean) c r =
      IsAsStrong-eq exact _ _ (column_items path items clean r)
  in_leaf exact (col path) items negated (inr (inl nulls)) c r = cc
  in_leaf exact (col path) items true (inr (inr (one_way, (wide, sides)))) c r = cc
  in_leaf exact (col path) items false (inr (inr (one_way, (wide, sides)))) c r =
      let (wa, ws) = kind-∷ wide_decimal unsafe (col path) items wide in
      rw one_way (items_hold path items wa ws sides)
  in_leaf exact (literal v t) items negated fit c r = cc

  pub between_leaf :
      (exact : Bool) (a low high : Operand) (negated : Bool)
      → IsFit exact unsafe (between a low high negated)
      → (renderable a && (renderable low && renderable high)) ≡ true
      → IsAsStrong exact
          (t_not_if negated (t_and (said order row ge a low) (said order row le a high)))
          (decided seen row.missing (
            inverse_if negated
              (both (then_also (test ge a low) (then_also (test le a high) done_all)))))
  unfolding float_can_decide decided
  between_leaf exact a low high true (inl clean) r =
      IsAsStrong-eq exact _ _ (ap t_not (range_exact a low high clean r))
  between_leaf exact a low high false (inl clean) r =
      IsAsStrong-eq exact _ _ (range_exact a low high clean r)
  between_leaf exact a low high negated (inr (inl nulls)) r = cc
  between_leaf exact a low high true (inr (inr (one_way, (wide, sides)))) r = cc
  between_leaf exact (col path) low high false (inr (inr (one_way, (wide, sides)))) r =
      rw one_way (range_hold path low high wide sides)
  between_leaf exact (literal v t) low high false (inr (inr (one_way, (wide, sides)))) r = cc
