-- ===== src/Predicate/Tree.antt =====
-- Parsed predicates (python/deltaswamp/predicate.py: Column, Literal and Node).
use deltaswamp.Prelude.{Bool, List, [], ℕ, ◌∷◌}
use deltaswamp.Prelude.Int.{ℤ}
use deltaswamp.Reference.Split.{Text}

-- A literal's Python value: a decimal or a float is its digits, as an integer, and how many of them
-- stand behind the point.
pub data Scalar : Type 0 where
  none_value nan_value : Scalar
  whole : ℤ → Scalar
  exact_decimal : ℤ → ℕ → Scalar
  finite_float : ℤ → ℕ → Scalar
  infinite_float : Bool → Scalar
  boolean : Bool → Scalar
  words : Text → Scalar
  date_value : ℤ → Scalar
  datetime_value : ℤ → Scalar

abbrev pub PathOf : Type 0
PathOf = List Text

-- `Column` and `Literal`, with the literal's SQL type.
pub data Operand : Type 0 where
  col : PathOf → Operand
  literal : Scalar → Text → Operand

pub data Comparison : Type 0 where
  eq ne lt le gt ge : Comparison

-- The nodes with no nodes below them. A flag of `in_list`, `between` and `like` says that the node
-- is negated.
pub data Leaf : Type 0 where
  compared : Comparison → Operand → Operand → Leaf
  null_safe : Operand → Operand → Leaf
  is_null is_not_null : Operand → Leaf
  in_list : Operand → List Operand → Bool → Leaf
  between : Operand → Operand → Operand → Bool → Leaf
  like : Bool → Operand → Text → Bool → Leaf
  alone : PathOf → Leaf
  constant : Bool → Leaf

mutual
  pub data Node : Type 0 where
    all_of any_of : Nodes → Node
    negation : Node → Node
    leaf : Leaf → Node

  pub data Nodes : Type 0 where
    no_nodes : Nodes
    node : Node → Nodes → Nodes

-- The operands of a node with no nodes below it.
abbrev pub operands_of : Leaf → List Operand
operands_of (compared op a b) = a ∷ b ∷ []
operands_of (null_safe a b) = a ∷ b ∷ []
operands_of (is_null a) = a ∷ []
operands_of (is_not_null a) = a ∷ []
operands_of (in_list a items n) = a ∷ items
operands_of (between a low high n) = a ∷ low ∷ high ∷ []
operands_of (like i a pattern n) = a ∷ []
operands_of (alone path) = col path ∷ []
operands_of (constant b) = []
