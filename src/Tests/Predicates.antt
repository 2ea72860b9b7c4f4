-- ===== src/Tests/Predicates.antt =====
-- Witnesses for the predicates: a row with a NaN in a floating column, and what its file is skipped
-- by (python/deltaswamp/predicate.py).
use mathlib.Core.Path.{subst}
use deltaswamp.Prelude.{
  Option, [], all, any, false, if◌then◌else◌, ltb, none, refl, some, sym, true, ℕ, ◌==◌, ◌||◌, ◌∷◌,
  ◌≡◌,
}
use deltaswamp.Distributed.Balance.{text_lt}
use deltaswamp.Predicate.Meaning.{
  IsTold, Order, Row, Truth, Value, decided, fails, holds, is_nan, leaf_meaning, meaning, nan,
  plain, said, unsure,
}
use deltaswamp.Predicate.Prefix.{after_prefix, after_prefix-bounds, bumped}
use deltaswamp.Predicate.Skip.{
  ArrowFields, Kernel, Unsafes, a_column, any_kind, both, done_all, either, float_can_decide,
  float_type, floating, inverse, is_kind, is_nan_free, kind_at, kind_of, nan_free_value, no_columns,
  null_test, other_type, renderable, same_text_path, skip, skip_leaf, stats_can_decide, test,
  then_also, unsafe_columns, unsafe_type,
}
use deltaswamp.Predicate.Sound.{skip-exact, skip-holds}
use deltaswamp.Predicate.Tree.{
  Comparison, Node, Operand, PathOf, Scalar, all_of, any_of, boolean, col, compared, date_value,
  datetime_value, eq, exact_decimal, finite_float, gt, infinite_float, is_null, leaf, literal, lt,
  nan_value, ne, negation, no_nodes, node, none_value, whole, words,
}
use deltaswamp.Prelude.Guards.{or_false}
use deltaswamp.Prelude.Int.{negsuc, pos}
use deltaswamp.Prelude.Text.{codes, codes_eq, has_prefix, to_lower}
use deltaswamp.Reference.Parse.{lower_text}
use deltaswamp.Reference.Split.{Text}

-- `ratio DOUBLE, n BIGINT`
abbrev columns : ArrowFields
columns = a_column (codes "ratio") float_type (a_column (codes "n") other_type no_columns)

abbrev ratio : Operand
ratio = col (codes "ratio" ∷ [])

abbrev count_of : Operand
count_of = col (codes "n" ∷ [])

abbrev long : ℕ → Operand
long n = literal (whole (pos n)) (codes "long")

abbrev by_size : Order ℕ
by_size = record { same = ◌==◌; less = ltb }

abbrev floats : Unsafes
floats = (codes "ratio" ∷ [], floating) ∷ []

-- The value of an operand in the row: a NaN in `ratio`, 5 in every other column.
abbrev own_value : Operand → Option (Value ℕ)
own_value (col path) = if is_kind floating (kind_of floats path) then some nan else some (plain 5)
own_value (literal (whole (pos n)) t) = some (plain n)
own_value (literal none_value t) = none
own_value (literal nan_value t) = some nan
own_value (literal v t) = some (plain 0)

abbrev nan_row : Row ℕ
nan_row = record {
  value = λ a b. own_value a;
  missing = λ a. false;
  likes = λ fold a pattern. unsure;
  column_truth = λ path. unsure;
}

-- Statistics that take every comparison with a NaN for false.
unfoldable by_statistics : Comparison → Operand → Operand → Truth
by_statistics op a b =
    if is_nan (own_value a) || is_nan (own_value b) then fails else said by_size nan_row op a b

literal_number :
    (v : Scalar) (t : Text) → nan_free_value v ≡ true → is_nan (own_value (literal v t)) ≡ false
literal_number none_value t e = refl
literal_number nan_value t e = cc
literal_number (whole (pos n)) t e = refl
literal_number (whole (negsuc n)) t e = refl
literal_number (exact_decimal n s) t e = refl
literal_number (finite_float n s) t e = refl
literal_number (infinite_float b) t e = refl
literal_number (boolean b) t e = cc
literal_number (words w) t e = cc
literal_number (date_value n) t e = cc
literal_number (datetime_value n) t e = cc

literal_rendered :
    (v : Scalar) (t : Text)
    → renderable (literal v t) ≡ true
    → is_nan (own_value (literal v t)) ≡ false
literal_rendered none_value t e = refl
literal_rendered nan_value t e = cc
literal_rendered (whole (pos n)) t e = refl
literal_rendered (whole (negsuc n)) t e = refl
literal_rendered (exact_decimal n s) t e = refl
literal_rendered (finite_float n s) t e = refl
literal_rendered (infinite_float b) t e = cc
literal_rendered (boolean b) t e = refl
literal_rendered (words w) t e = refl
literal_rendered (date_value n) t e = refl
literal_rendered (datetime_value n) t e = refl

column_number :
    (path : PathOf) (b : Operand)
    → any_kind floating floats (col path ∷ b ∷ []) ≡ false
    → is_nan (own_value (col path)) ≡ false
unfolding any_kind
column_number path b e =
    let other_kind : is_kind floating (kind_of floats path) ≡ false = (or_false _ _ e).0 in
    rw other_kind refl

own_no_nan :
    (a b : Operand)
    → any_kind floating floats (a ∷ b ∷ []) ≡ false
    → renderable a ≡ true
    → is_nan (own_value a) ≡ false
own_no_nan (col path) b e r = column_number path b e
own_no_nan (literal v t) b e r = literal_rendered v t r

own_number : (a : Operand) → is_nan_free a ≡ true → is_nan (own_value a) ≡ false
own_number (col path) e = cc
own_number (literal v t) e = literal_number v t e

statistics_told :
    (op : Comparison) (a b : Operand)
    → is_nan (own_value a) ≡ false
    → is_nan (own_value b) ≡ false
    → by_statistics op a b ≡ said by_size nan_row op a b
unfolding by_statistics
statistics_told op a b x y = rw x (rw y refl)

statistics_IsTold : IsTold by_size nan_row floats by_statistics
statistics_IsTold = record {
  told = λ op a b x y w. statistics_told op a b x y;
  no_nan = own_no_nan;
  number = λ a b. own_number a;
  nan_stays = λ a b c x y. refl;
}

-- `ratio > 2 AND n <> 7 AND NOT n < 3`: the first part is left out.
abbrev asked : Node
asked = all_of (
    node (leaf (compared gt ratio (long 2))) (
      node (leaf (compared ne count_of (long 7)))
        (node (negation (leaf (compared lt count_of (long 3)))) no_nodes)))

abbrev handed_on : Kernel
handed_on = both (
    then_also (test ne count_of (long 7))
      (then_also (inverse (test lt count_of (long 3))) done_all))

skipped_by :
    (skip false (unsafe_columns [] columns) asked ≡ some handed_on)
    × (meaning by_size nan_row asked ≡ holds)
    × (unsafe_columns [] columns ≡ floats)
unfolding unsafe_columns unsafe_type lower_text to_lower skip skip_leaf stats_can_decide any_kind
    float_can_decide kind_of kind_at same_text_path codes_eq meaning leaf_meaning said all any
skipped_by = (refl, refl, refl)

skip-holds_example : decided by_statistics nan_row.missing handed_on ≡ holds
skip-holds_example =
    skip-holds by_size nan_row columns by_statistics asked handed_on
      (subst (λ u. IsTold by_size nan_row u by_statistics) (sym skipped_by.2) statistics_IsTold)
      skipped_by.0 skipped_by.1

-- `n = 5 OR n IS NULL`, as it stands below a NOT.
abbrev below_not : Node
below_not =
    any_of (node (leaf (compared eq count_of (long 5))) (node (leaf (is_null count_of)) no_nodes))

abbrev below_not_form : Kernel
below_not_form =
    either
      (then_also (test eq count_of (long 5)) (then_also (null_test true (codes "n" ∷ [])) done_all))

rendered_below : skip true floats below_not ≡ some below_not_form
unfolding lower_text to_lower skip skip_leaf stats_can_decide any_kind float_can_decide kind_of
    kind_at same_text_path codes_eq all any
rendered_below = refl

skip-exact_example :
    decided by_statistics nan_row.missing below_not_form ≡ meaning by_size nan_row below_not
skip-exact_example =
    skip-exact by_size nan_row floats by_statistics below_not below_not_form statistics_IsTold
      rendered_below

-- `ab` and the last character of all, so that the `b` is bumped.
abbrev last_of_all : Text
last_of_all = 97 ∷ 98 ∷ 1114111 ∷ []

abbrev starting_so : Text
starting_so = 97 ∷ 98 ∷ 1114111 ∷ 120 ∷ []

end_of_range :
    (after_prefix last_of_all ≡ some (codes "ac")) × (has_prefix last_of_all starting_so ≡ true)
unfolding after_prefix bumped has_prefix
end_of_range = (refl, refl)

after_prefix-bounds_example :
    (text_lt starting_so last_of_all ≡ false) × (text_lt starting_so (codes "ac") ≡ true)
after_prefix-bounds_example =
    after_prefix-bounds last_of_all starting_so (codes "ac") end_of_range.0 end_of_range.1
