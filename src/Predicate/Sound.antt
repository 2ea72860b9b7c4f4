-- ===== src/Predicate/Sound.antt =====
-- `_skip` of python/deltaswamp/predicate.py, against what its node means (Meaning).
use mathlib.Core.Option
use deltaswamp.Prelude.{
  Bool, Option, [], ap, false, if◌then◌else◌, inl, is_empty, none, not, refl, some, sym, true, ◌&&◌,
  ◌∷◌, ◌≡◌,
}
use deltaswamp.Predicate.Atoms.{
  IsAsStrong, IsAsStrong-eq, t_and-IsAsStrong, t_and-dropped, t_or-IsAsStrong,
}
use deltaswamp.Predicate.Leaves.{
  IsFit, between_leaf, clean_without, compared_leaf, in_leaf, stats_can_decide-IsFit, t_and-end,
}
use deltaswamp.Predicate.Meaning.{
  IsTold, Order, Row, Truth, decided, decided_all, decided_any, holds, leaf_meaning, meaning,
  meaning_all, meaning_any, t_and, t_not, t_or,
}
use deltaswamp.Predicate.Skip.{
  ArrowFields, Kernel, Kernels, Rendered, Unsafes, add_rendered, conjunction, disjunction, done_all,
  either, floating, inverse, is_column, joined, skip, skip_each, skip_leaf, stats_can_decide,
  then_also, unsafe_columns, wide_decimal,
}
use deltaswamp.Predicate.Tree.{
  Comparison, Leaf, Node, Nodes, Operand, all_of, alone, any_of, between, col, compared, constant,
  in_list, is_not_null, is_null, leaf, like, literal, negation, no_nodes, node, null_safe,
  operands_of,
}
use deltaswamp.Prelude.Guards.{true_of_unless, or_false, unless-some, when-some}

leaf_fits :
    (exact : Bool) (u : Unsafes) (l : Leaf) (k : Kernel)
    → (if not (is_empty u) && not (stats_can_decide l exact u) then none else skip_leaf l) ≡ some k
    → IsFit exact u l
leaf_fits exact [] l k e =
    inl (clean_without (operands_of l) floating, clean_without (operands_of l) wide_decimal)
leaf_fits exact (column ∷ columns) l k e =
    stats_can_decide-IsFit exact (column ∷ columns) l (true_of_unless _ (unless-some _ _ _ e).0)

conjunction-some :
    (exact : Bool) (r : Rendered) (k : Kernel)
    → conjunction exact r ≡ some k
    → (exact ≡ true → r.1 ≡ false) × (joined r.0 ≡ some k)
conjunction-some true (parts, true) k e = cc
conjunction-some true (parts, false) k e = (λ x. refl, e)
conjunction-some false (parts, missing) k e = (λ x. cc, e)

disjunction-some :
    (r : Rendered) (k : Kernel) → disjunction r ≡ some k → (r.1 ≡ false) × (either r.0 ≡ k)
disjunction-some (parts, true) k e = cc
disjunction-some (parts, false) k e = (refl, cc)

module _ {P : Type 0} {order : Order P} {row : Row P} {unsafe : Unsafes}
    {seen : Comparison → Operand → Operand → Truth}
    (statistics : IsTold order row unsafe seen) where
  skip_leaf-IsAsStrong :
      (exact : Bool) (l : Leaf) (k : Kernel)
      → IsFit exact unsafe l
      → skip_leaf l ≡ some k
      → IsAsStrong exact (leaf_meaning order row l) (decided seen row.missing k)
  unfolding skip_leaf leaf_meaning decided
  skip_leaf-IsAsStrong exact (compared op a b) k fit e =
      let (r, k_is) = when-some _ _ _ (unless-some _ _ _ e).1 in
      rw (sym k_is) (compared_leaf statistics exact op a b fit r)
  skip_leaf-IsAsStrong exact (is_null (col path)) k fit e =
      rw (sym (when-some true _ _ e).1) (IsAsStrong-eq exact _ _ refl)
  skip_leaf-IsAsStrong exact (is_not_null (col path)) k fit e =
      rw (sym (when-some true _ _ e).1) (IsAsStrong-eq exact _ _ refl)
  skip_leaf-IsAsStrong exact (in_list a items negated) k fit e =
      let (c, rest) = unless-some _ _ _ e in
      let (r, k_is) = when-some _ _ _ rest in
      rw (sym k_is) (
        in_leaf statistics exact a items negated fit
          (true_of_unless (is_column a) (or_false _ _ c).0) r)
  skip_leaf-IsAsStrong exact (between a low high negated) k fit e =
      let (r, k_is) = when-some _ _ _ e in
      rw (sym k_is) (between_leaf statistics exact a low high negated fit r)
  skip_leaf-IsAsStrong exact (is_null (literal v t)) k fit e = cc
  skip_leaf-IsAsStrong exact (is_not_null (literal v t)) k fit e = cc
  skip_leaf-IsAsStrong exact (null_safe a b) k fit e = cc
  skip_leaf-IsAsStrong exact (like i a pattern negated) k fit e = cc
  skip_leaf-IsAsStrong exact (alone path) k fit e = cc
  skip_leaf-IsAsStrong exact (constant b) k fit e = cc

  -- The forms of the children, put together.
  joined-decided :
      (ks : Kernels) (k : Kernel)
      → joined ks ≡ some k
      → decided seen row.missing k ≡ decided_all seen row.missing ks
  unfolding decided
  joined-decided done_all k e = cc
  joined-decided (then_also l done_all) k e =
      rw (sym (when-some true _ _ e).1) (sym (t_and-end (decided seen row.missing l)))
  joined-decided (then_also l (then_also m ks)) k e = rw (sym (when-some true _ _ e).1) refl

  rest_complete :
      (r : Option Kernel) (rest : Rendered) → (add_rendered r rest).1 ≡ false → rest.1 ≡ false
  rest_complete none rest e = cc
  rest_complete (some k) rest e = e

  added_all :
      (exact : Bool) (r : Option Kernel) (rest : Rendered) (s ss : Truth)
      → ((k : Kernel) → r ≡ some k → IsAsStrong exact s (decided seen row.missing k))
      → (exact ≡ true → (add_rendered r rest).1 ≡ false)
      → IsAsStrong exact ss (decided_all seen row.missing rest.0)
      → IsAsStrong exact (t_and s ss) (decided_all seen row.missing (add_rendered r rest).0)
  unfolding decided
  added_all true none rest s ss one complete others = let none_missing = complete refl in cc
  added_all false none rest s ss one complete others = λ h. others (t_and-dropped s ss h)
  added_all exact (some k) rest s ss one complete others =
      t_and-IsAsStrong exact s ss _ _ (one k refl) others

  added_any :
      (exact : Bool) (r : Option Kernel) (rest : Rendered) (s ss : Truth)
      → ((k : Kernel) → r ≡ some k → IsAsStrong exact s (decided seen row.missing k))
      → (add_rendered r rest).1 ≡ false
      → IsAsStrong exact ss (decided_any seen row.missing rest.0)
      → IsAsStrong exact (t_or s ss) (decided_any seen row.missing (add_rendered r rest).0)
  unfolding decided
  added_any exact none rest s ss one complete others = cc
  added_any exact (some k) rest s ss one complete others =
      t_or-IsAsStrong exact s ss _ _ (one k refl) others

  negated :
      (exact : Bool) (r : Option Kernel) (s : Truth) (k : Kernel)
      → ((j : Kernel) → r ≡ some j → IsAsStrong true s (decided seen row.missing j))
      → Option.map inverse r ≡ some k
      → IsAsStrong exact (t_not s) (decided seen row.missing k)
  unfolding decided
  negated exact none s k inner e = cc
  negated exact (some j) s k inner e =
      rw (sym (when-some true _ _ e).1) (IsAsStrong-eq exact _ _ (ap t_not (inner j refl)))

  -- `_skip` is no stronger than the node, and says the same as the node where it has to.
  mutual
    unfolding skip meaning decided

    pub skip-IsAsStrong :
        (exact : Bool) (n : Node) (k : Kernel)
        → skip exact unsafe n ≡ some k
        → IsAsStrong exact (meaning order row n) (decided seen row.missing k)
    skip-IsAsStrong exact (all_of ns) k e =
        let (complete, parts) = conjunction-some exact (skip_each exact unsafe ns) k e in
        rw (joined-decided _ k parts) (each_all exact ns complete)
    skip-IsAsStrong exact (any_of ns) k e =
        let (complete, k_is) = disjunction-some (skip_each exact unsafe ns) k e in
        rw (sym k_is) (each_any exact ns complete)
    skip-IsAsStrong exact (negation n) k e =
        negated exact (skip true unsafe n) (meaning order row n) k (skip-IsAsStrong true n) e
    skip-IsAsStrong exact (leaf l) k e =
        skip_leaf-IsAsStrong exact l k (leaf_fits exact unsafe l k e) (unless-some _ _ _ e).1

    each_all :
        (exact : Bool) (ns : Nodes)
        → (exact ≡ true → (skip_each exact unsafe ns).1 ≡ false)
        → IsAsStrong exact
            (meaning_all order row ns)
            (decided_all seen row.missing (skip_each exact unsafe ns).0)
    each_all exact no_nodes complete = IsAsStrong-eq exact _ _ refl
    each_all exact (node n ns) complete =
        added_all exact (skip exact unsafe n) (skip_each exact unsafe ns) _ _
          (skip-IsAsStrong exact n) complete
          (each_all exact ns (λ x. rest_complete (skip exact unsafe n) _ (complete x)))

    each_any :
        (exact : Bool) (ns : Nodes)
        → (skip_each exact unsafe ns).1 ≡ false
        → IsAsStrong exact
            (meaning_any order row ns)
            (decided_any seen row.missing (skip_each exact unsafe ns).0)
    each_any exact no_nodes complete = IsAsStrong-eq exact _ _ refl
    each_any exact (node n ns) complete =
        added_any exact (skip exact unsafe n) (skip_each exact unsafe ns) _ _
          (skip-IsAsStrong exact n) complete
          (each_any exact ns (rest_complete (skip exact unsafe n) _ complete))

-- Where `_skip` has a form for the kernel, with the unsafe columns of the table's schema, and the
-- statistics of a file are told right (IsTold), the form holds for every row that makes the
-- predicate true: no such row is skipped.
pub skip-holds :
    {P : Type 0} (order : Order P) (row : Row P) (schema : ArrowFields)
    (seen : Comparison → Operand → Operand → Truth) (n : Node) (k : Kernel)
    → IsTold order row (unsafe_columns [] schema) seen
    → skip false (unsafe_columns [] schema) n ≡ some k
    → meaning order row n ≡ holds
    → decided seen row.missing k ≡ holds
skip-holds order row schema seen n k statistics e h = skip-IsAsStrong statistics false n k e h

-- Where `_skip` has a form that is asked to be exact, as below a NOT, and the statistics are told
-- right (IsTold), the form says of a row what the predicate says of it, NULL included.
pub skip-exact :
    {P : Type 0} (order : Order P) (row : Row P) (unsafe : Unsafes)
    (seen : Comparison → Operand → Operand → Truth) (n : Node) (k : Kernel)
    → IsTold order row unsafe seen
    → skip true unsafe n ≡ some k
    → decided seen row.missing k ≡ meaning order row n
skip-exact order row unsafe seen n k statistics e = skip-IsAsStrong statistics true n k e
