-- ===== src/Predicate/Skip.antt =====
-- The predicate that files are skipped by (python/deltaswamp/predicate.py: _skip, _skip_leaf,
-- _unsafe_columns and _stats_can_decide).
use mathlib.Core.Option
use deltaswamp.Prelude.{
  Bool, List, Option, [], all, any, false, if◌then◌else◌, is_empty, ltb, map, none, not, or_else,
  some, true, ℕ, ◌&&◌, ◌++◌, ◌||◌, ◌∷◌,
}
use deltaswamp.Predicate.Tree.{
  Comparison, Leaf, Node, Nodes, Operand, PathOf, Scalar, all_of, any_of, between, col, compared,
  eq, exact_decimal, finite_float, ge, gt, in_list, infinite_float, is_not_null, is_null, le, leaf,
  literal, lt, nan_value, negation, no_nodes, node, none_value, operands_of, whole,
}
use deltaswamp.Prelude.Text.{codes_eq}
use deltaswamp.Reference.Parse.{lower_text}
use deltaswamp.Reference.Split.{Text}

-- What the kernel is handed.
mutual
  pub data Kernel : Type 0 where
    both either : Kernels → Kernel
    inverse : Kernel → Kernel
    test : Comparison → Operand → Operand → Kernel
    null_test : Bool → PathOf → Kernel

  pub data Kernels : Type 0 where
    done_all : Kernels
    then_also : Kernel → Kernels → Kernels

-- The columns whose statistics cannot decide every comparison, by their path in lower case.
pub data Unsafe : Type 0 where
  floating wide_decimal : Unsafe

abbrev pub Unsafes : Type 0
Unsafes = List (PathOf × Unsafe)

-- Types of Arrow, as far as `_unsafe_columns` tells them apart.
mutual
  pub data ArrowType : Type 0 where
    float_type other_type : ArrowType
    decimal_type : ℕ → ArrowType
    struct_type : ArrowFields → ArrowType

  pub data ArrowFields : Type 0 where
    no_columns : ArrowFields
    a_column : Text → ArrowType → ArrowFields → ArrowFields

-- `_unsafe_columns`, below a prefix.
unfoldable mutual
  unfolding lower_text

  pub unsafe_type : PathOf → ArrowType → Unsafes
  unsafe_type path float_type = (path, floating) ∷ []
  unsafe_type path other_type = []
  unsafe_type path (decimal_type p) = if ltb 15 p then (path, wide_decimal) ∷ [] else []
  unsafe_type path (struct_type fs) = unsafe_columns path fs

  pub unsafe_columns : PathOf → ArrowFields → Unsafes
  unsafe_columns prefix no_columns = []
  unsafe_columns prefix (a_column name t fs) =
      unsafe_type (prefix ++ lower_text name ∷ []) t ++ unsafe_columns prefix fs

unfoldable pub same_text_path : PathOf → PathOf → Bool
unfolding codes_eq
same_text_path [] [] = true
same_text_path (p ∷ ps) (q ∷ qs) = codes_eq p q && same_text_path ps qs
same_text_path _ _ = false

-- `unsafe.get(path)`, where a later entry of a path wins.
unfoldable pub kind_at : PathOf → Unsafes → Option Unsafe
unfolding same_text_path
kind_at path [] = none
kind_at path ((p, k) ∷ rest) =
    or_else (kind_at path rest) (if same_text_path p path then some k else none)

unfoldable pub kind_of : Unsafes → PathOf → Option Unsafe
unfolding kind_at lower_text
kind_of unsafe path = kind_at (map lower_text path) unsafe

abbrev pub is_kind : Unsafe → Option Unsafe → Bool
is_kind floating (some floating) = true
is_kind wide_decimal (some wide_decimal) = true
is_kind _ _ = false

-- Whether some column is of a kind.
unfoldable pub any_kind : Unsafe → Unsafes → List Operand → Bool
unfolding kind_of
any_kind k unsafe [] = false
any_kind k unsafe (col path ∷ rest) = is_kind k (kind_of unsafe path) || any_kind k unsafe rest
any_kind k unsafe (literal v t ∷ rest) = any_kind k unsafe rest

-- `_is_nan_free`
abbrev pub nan_free_value : Scalar → Bool
nan_free_value none_value = true
nan_free_value (whole n) = true
nan_free_value (exact_decimal n s) = true
nan_free_value (finite_float n s) = true
nan_free_value (infinite_float b) = true
nan_free_value _ = false

abbrev pub is_nan_free : Operand → Bool
is_nan_free (literal v t) = nan_free_value v
is_nan_free (col path) = false

abbrev pub is_column : Operand → Bool
is_column (col path) = true
is_column (literal v t) = false

abbrev pub both_ways : Comparison → Operand → Operand → Bool
both_ways eq (col p) b = is_nan_free b
both_ways eq (literal v t) b = is_column b && nan_free_value v
both_ways lt (col p) b = is_nan_free b
both_ways le (col p) b = is_nan_free b
both_ways gt a (col p) = is_nan_free a
both_ways ge a (col p) = is_nan_free a
both_ways _ a b = false

-- What floating columns allow, outside a NOT.
unfoldable pub float_can_decide : Leaf → Bool
unfolding all
float_can_decide (compared op a b) = both_ways op a b
float_can_decide (in_list a items false) = is_column a && all is_nan_free items
float_can_decide (between a low high false) = is_column a && (is_nan_free low && is_nan_free high)
float_can_decide _ = false

abbrev pub is_null_test : Leaf → Bool
is_null_test (is_null a) = true
is_null_test (is_not_null a) = true
is_null_test _ = false

-- `_stats_can_decide`
unfoldable pub stats_can_decide : Leaf → Bool → Unsafes → Bool
unfolding any_kind float_can_decide
stats_can_decide l exact unsafe =
    let floats = any_kind floating unsafe (operands_of l) in
    let wide = any_kind wide_decimal unsafe (operands_of l) in
    if not (floats || wide) || is_null_test l
    then true
    else if wide || exact
    then false
    else float_can_decide l

-- Whether `_literal_json` has a form for an operand.
abbrev pub renderable : Operand → Bool
renderable (literal nan_value t) = false
renderable (literal (infinite_float b) t) = false
renderable _ = true

abbrev pub is_null_literal : Operand → Bool
is_null_literal (literal none_value t) = true
is_null_literal _ = false

-- `{"op": "eq", "args": [target, item]}` for every item.
unfoldable pub item_tests : Operand → List Operand → Kernels
item_tests a [] = done_all
item_tests a (item ∷ items) = then_also (test eq a item) (item_tests a items)

abbrev pub inverse_if : Bool → Kernel → Kernel
inverse_if true k = inverse k
inverse_if false k = k

abbrev pub is_item : Operand → Bool
is_item o = not (is_column o) && not (is_null_literal o)

-- `_skip_leaf`
unfoldable pub skip_leaf : Leaf → Option Kernel
unfolding all any item_tests
skip_leaf (compared op a b) =
    if is_null_literal a || is_null_literal b
    then none
    else if renderable a && renderable b
    then some (test op a b)
    else none
skip_leaf (is_null (col path)) = some (null_test true path)
skip_leaf (is_not_null (col path)) = some (null_test false path)
skip_leaf (in_list a items negated) =
    if not (is_column a) || not (all is_item items)
    then none
    else if all renderable items
    then some (inverse_if negated (either (item_tests a items)))
    else none
skip_leaf (between a low high negated) =
    if renderable a && (renderable low && renderable high)
    then some (
        inverse_if negated (both (then_also (test ge a low) (then_also (test le a high) done_all))))
    else none
skip_leaf _ = none

-- The children that have a form, and whether one has none.
abbrev pub Rendered : Type 0
Rendered = Kernels × Bool

abbrev pub add_rendered : Option Kernel → Rendered → Rendered
add_rendered none (parts, missing) = (parts, true)
add_rendered (some k) (parts, missing) = (then_also k parts, missing)

abbrev pub joined : Kernels → Option Kernel
joined done_all = none
joined (then_also k done_all) = some k
joined (then_also k (then_also l rest)) = some (both (then_also k (then_also l rest)))

abbrev pub conjunction : Bool → Rendered → Option Kernel
conjunction exact (parts, missing) = if exact && missing then none else joined parts

abbrev pub disjunction : Rendered → Option Kernel
disjunction (parts, missing) = if missing then none else some (either parts)

-- `_skip`
unfoldable mutual
  unfolding stats_can_decide skip_leaf

  pub skip : Bool → Unsafes → Node → Option Kernel
  skip exact unsafe (all_of ns) = conjunction exact (skip_each exact unsafe ns)
  skip exact unsafe (any_of ns) = disjunction (skip_each exact unsafe ns)
  skip exact unsafe (negation n) = Option.map inverse (skip true unsafe n)
  skip exact unsafe (leaf l) =
      if not (is_empty unsafe) && not (stats_can_decide l exact unsafe) then none else skip_leaf l

  pub skip_each : Bool → Unsafes → Nodes → Rendered
  skip_each exact unsafe no_nodes = (done_all, false)
  skip_each exact unsafe (node n ns) =
      add_rendered (skip exact unsafe n) (skip_each exact unsafe ns)
