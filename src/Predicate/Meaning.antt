-- ===== src/Predicate/Meaning.antt =====
-- What a predicate says of a row, in the three-valued logic of SQL, and what the kernel makes of
-- the predicate that it is handed (python/deltaswamp/predicate.py: _ArrowBuilder.compare is
-- `compare`). Plain values and their order are Arrow's; a NaN is kept apart.
use deltaswamp.Prelude.{Bool, List, Option, [], false, none, not, some, true, ◌||◌, ◌∷◌, ◌≡◌}
use deltaswamp.Predicate.Skip.{
  Kernel, Kernels, Unsafes, any_kind, both, done_all, either, floating, inverse, is_nan_free,
  null_test, renderable, test, then_also, wide_decimal,
}
use deltaswamp.Predicate.Tree.{
  Comparison, Leaf, Node, Nodes, Operand, PathOf, all_of, alone, any_of, between, col, compared,
  constant, eq, ge, gt, in_list, is_not_null, is_null, le, leaf, like, lt, ne, negation, no_nodes,
  node, null_safe,
}
use deltaswamp.Reference.Split.{Text}

pub data Truth : Type 0 where
  holds fails unsure : Truth

abbrev pub t_and : Truth → Truth → Truth
t_and holds t = t
t_and fails t = fails
t_and unsure fails = fails
t_and unsure t = unsure

abbrev pub t_or : Truth → Truth → Truth
t_or holds t = holds
t_or fails t = t
t_or unsure holds = holds
t_or unsure t = unsure

abbrev pub t_not : Truth → Truth
t_not holds = fails
t_not fails = holds
t_not unsure = unsure

abbrev pub t_not_if : Bool → Truth → Truth
t_not_if true t = t_not t
t_not_if false t = t

abbrev pub truth_of : Bool → Truth
truth_of true = holds
truth_of false = fails

-- A value that is not NULL.
pub data Value {ℓ} (P : Type ℓ) : Type ℓ where
  nan : Value P
  plain : P → Value P

-- The tests of Arrow on plain values.
pub record Order (P : Type 0) : Type 0 where
  pub same : P → P → Bool
  pub less : P → P → Bool

module _ {P : Type 0} (order : Order P) where
  open order use {same, less}

  -- NaN is equal to itself and above every other value.
  abbrev pub equal_values : Value P → Value P → Bool
  equal_values nan nan = true
  equal_values (plain a) (plain b) = same a b
  equal_values _ _ = false

  abbrev pub less_values : Value P → Value P → Bool
  less_values (plain a) nan = true
  less_values (plain a) (plain b) = less a b
  less_values nan b = false

  -- `_ArrowBuilder.compare`
  abbrev pub compare : Comparison → Value P → Value P → Bool
  compare eq a b = equal_values a b
  compare ne a b = not (equal_values a b)
  compare lt a b = less_values a b
  compare le a b = less_values a b || equal_values a b
  compare gt a b = less_values b a
  compare ge a b = less_values b a || equal_values a b

  -- NULL on either side makes a comparison NULL.
  abbrev pub compare_maybe : Comparison → Option (Value P) → Option (Value P) → Truth
  compare_maybe op none b = unsure
  compare_maybe op (some a) none = unsure
  compare_maybe op (some a) (some b) = truth_of (compare op a b)

-- A row, as a predicate looks at it: the value of an operand when it is compared with another one,
-- to which a literal is cast (`_ArrowBuilder.pair`), `none` for NULL; which operands are NULL; the
-- result of LIKE and ILIKE; and the truth of a boolean column.
pub record Row (P : Type 0) : Type 0 where
  pub value : Operand → Operand → Option (Value P)
  pub missing : Operand → Bool
  pub likes : Bool → Operand → Text → Truth
  pub column_truth : PathOf → Truth

module _ {P : Type 0} (order : Order P) (row : Row P) where
  unfoldable pub said : Comparison → Operand → Operand → Truth
  said op a b = compare_maybe order op (row.value a b) (row.value b a)

  unfoldable pub said_in : Operand → List Operand → Truth
  unfolding said
  said_in a [] = fails
  said_in a (item ∷ items) = t_or (said eq a item) (said_in a items)

  abbrev pub said_null_safe : Bool → Bool → Truth → Truth
  said_null_safe true true t = holds
  said_null_safe true false t = fails
  said_null_safe false true t = fails
  said_null_safe false false t = t

  unfoldable pub leaf_meaning : Leaf → Truth
  unfolding said said_in
  leaf_meaning (compared op a b) = said op a b
  leaf_meaning (null_safe a b) = said_null_safe (row.missing a) (row.missing b) (said eq a b)
  leaf_meaning (is_null a) = truth_of (row.missing a)
  leaf_meaning (is_not_null a) = truth_of (not (row.missing a))
  leaf_meaning (in_list a items negated) = t_not_if negated (said_in a items)
  leaf_meaning (between a low high negated) =
      t_not_if negated (t_and (said ge a low) (said le a high))
  leaf_meaning (like fold a pattern negated) = t_not_if negated (row.likes fold a pattern)
  leaf_meaning (alone path) = row.column_truth path
  leaf_meaning (constant b) = truth_of b

  unfoldable mutual
    unfolding leaf_meaning

    pub meaning : Node → Truth
    meaning (all_of ns) = meaning_all ns
    meaning (any_of ns) = meaning_any ns
    meaning (negation n) = t_not (meaning n)
    meaning (leaf l) = leaf_meaning l

    pub meaning_all : Nodes → Truth
    meaning_all no_nodes = holds
    meaning_all (node n ns) = t_and (meaning n) (meaning_all ns)

    pub meaning_any : Nodes → Truth
    meaning_any no_nodes = fails
    meaning_any (node n ns) = t_or (meaning n) (meaning_any ns)

-- The kernel's side: what it takes a comparison for, by the statistics, and the null tests.
module _ (seen : Comparison → Operand → Operand → Truth) (missing : Operand → Bool) where
  unfoldable mutual
    pub decided : Kernel → Truth
    decided (both ks) = decided_all ks
    decided (either ks) = decided_any ks
    decided (inverse k) = t_not (decided k)
    decided (test op a b) = seen op a b
    decided (null_test true path) = truth_of (missing (col path))
    decided (null_test false path) = truth_of (not (missing (col path)))

    pub decided_all : Kernels → Truth
    decided_all done_all = holds
    decided_all (then_also k ks) = t_and (decided k) (decided_all ks)

    pub decided_any : Kernels → Truth
    decided_any done_all = fails
    decided_any (then_also k ks) = t_or (decided k) (decided_any ks)

abbrev pub is_nan {ℓ} : {P : Type ℓ} → Option (Value P) → Bool
is_nan (some nan) = true
is_nan _ = false

-- What statistics are good for: they decide a comparison as it is where neither side is NaN and no
-- column is a wide decimal. Anything else they may take for whatever they like.
pub record IsTold {P : Type 0} (order : Order P) (row : Row P) (unsafe : Unsafes)
    (seen : Comparison → Operand → Operand → Truth) : Type 0 where
  pub told :
      (op : Comparison) (a b : Operand)
      → is_nan (row.value a b) ≡ false
      → is_nan (row.value b a) ≡ false
      → any_kind wide_decimal unsafe (a ∷ b ∷ []) ≡ false
      → seen op a b ≡ said order row op a b
  -- NaN stands in floating columns and in literals with no JSON form only, and not in a number.
  pub no_nan :
      (a b : Operand)
      → any_kind floating unsafe (a ∷ b ∷ []) ≡ false
      → renderable a ≡ true
      → is_nan (row.value a b) ≡ false
  pub number : (a b : Operand) → is_nan_free a ≡ true → is_nan (row.value a b) ≡ false
  -- Next to a number, a NaN is a NaN whichever number it is.
  pub nan_stays :
      (a b c : Operand)
      → is_nan_free b ≡ true
      → is_nan_free c ≡ true
      → is_nan (row.value a b) ≡ is_nan (row.value a c)
