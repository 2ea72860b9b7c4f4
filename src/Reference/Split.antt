-- ===== src/Reference/Split.antt =====
-- Dotted names with backtick quotes (python/deltaswamp/identity.py: _quote, split_identifier and
-- TableRef.full_name). A text is the list of its code points; letters, digits and white space are
-- those of ASCII.
use deltaswamp.Prelude.{
  Bool, List, [], all, any, false, if◌then◌else◌, is_empty, leb, map, not, true, ℕ, ◌&&◌, ◌++◌,
  ◌==◌, ◌||◌, ◌∷◌,
}
use deltaswamp.IdentityColumn.Slots.{part}
use deltaswamp.Prelude.Text.{is_space}

abbrev pub Text : Type 0
Text = List ℕ

-- InvalidReferenceError, by what its message says.
pub data Invalid : Type 0 where
  unterminated empty_part : Invalid
  empty_reference unreachable_dbfs legacy_wasb : Invalid
  unsupported_scheme : Text → Invalid
  no_body dotted_expected no_table too_many_segments : Invalid
  parts_expected : ℕ → Invalid
  no_default_catalog no_default_schema : Invalid
  too_many_parts : ℕ → Invalid
  not_a_name : Invalid

pub data Parsed {ℓ} (A : Type ℓ) : Type ℓ where
  invalid : Invalid → Parsed A
  parsed : A → Parsed A

infixl 5 ◌>>=◌
abbrev pub ◌>>=◌ {ℓ κ} : {A : Type ℓ} {B : Type κ} → Parsed A → (A → Parsed B) → Parsed B
invalid e >>= f = invalid e
parsed a >>= f = f a

-- A character of `buf`, and whether it came from inside backticks.
abbrev pub Marked : Type 0
Marked = ℕ × Bool

-- Unquoted white space.
abbrev pub is_margin : Marked → Bool
is_margin (c, quoted) = not quoted && is_space c

unfoldable pub trim_left : List Marked → List Marked
trim_left [] = []
trim_left (m ∷ ms) = elim (is_margin m) [ true ↦ trim_left ms | false ↦ m ∷ ms ]

-- The white space at the end goes: what follows it was all dropped.
abbrev pub drop_margin : Marked → List Marked → List Marked
drop_margin m [] = if is_margin m then [] else m ∷ []
drop_margin m (n ∷ ns) = m ∷ n ∷ ns

unfoldable pub trim_right : List Marked → List Marked
trim_right [] = []
trim_right (m ∷ ms) = drop_margin m (trim_right ms)

-- The part that `buf` holds.
unfoldable pub finish : List Marked → Text
unfolding trim_left trim_right
finish buf = map (λ m. m.0) (trim_right (trim_left buf))

abbrev pub add_part : Text → Parsed (List Text) → Parsed (List Text)
add_part part (invalid e) = invalid e
add_part part (parsed parts) = parsed (part ∷ parts)

-- The loop over the characters: `in_quotes` and `buf`, with the parts still to come as its value.
unfoldable pub scan : Bool → List Marked → Text → Parsed (List Text)
unfolding finish
scan false buf [] = parsed (finish buf ∷ [])
scan true buf [] = invalid unterminated
scan true buf (c ∷ []) = if c == b'`' then parsed (finish buf ∷ []) else invalid unterminated
scan true buf (c ∷ d ∷ rest) = elim (c == b'`') [
  | true ↦ elim (d == b'`') [
    | true ↦ scan true (buf ++ (c, true) ∷ []) rest
    | false ↦ scan false buf (d ∷ rest)
  ]
  | false ↦ scan true (buf ++ (c, true) ∷ []) (d ∷ rest)
]
scan false buf (c ∷ rest) = elim (c == b'`') [
  | true ↦ scan true buf rest
  | false ↦ elim (c == b'.') [
    | true ↦ add_part (finish buf) (scan false [] rest)
    | false ↦ scan false (buf ++ (c, false) ∷ []) rest
  ]
]

-- `any(p == "" for p in parts)`
unfoldable pub check_parts : List Text → Parsed (List Text)
unfolding any
check_parts parts = if any is_empty parts then invalid empty_part else parsed parts

unfoldable pub split_identifier : Text → Parsed (List Text)
unfolding scan check_parts
split_identifier name = do parts ← scan false [] name; check_parts parts

-- `_quote`: bare where the name is a plain identifier, in backticks otherwise.
abbrev pub is_digit : ℕ → Bool
is_digit c = leb b'0' c && leb c b'9'

abbrev pub is_word : ℕ → Bool
is_word c = (leb b'a' c && leb c b'z') || (leb b'A' c && leb c b'Z') || is_digit c || (c == b'_')

unfoldable pub is_plain : Text → Bool
unfolding all
is_plain [] = false
is_plain (c ∷ cs) = not (is_digit c) && all is_word (c ∷ cs)

-- `part.replace("`", "``")`
unfoldable pub escape : Text → Text
escape [] = []
escape (c ∷ cs) = if c == b'`' then c ∷ c ∷ escape cs else c ∷ escape cs

-- The name in backticks, as `quote` of python/deltaswamp/engine/sql_text.py always has it.
unfoldable pub in_backticks : Text → Text
unfolding escape
in_backticks part = b'`' ∷ escape part ++ b'`' ∷ []

unfoldable pub quote : Text → Text
unfolding is_plain in_backticks
quote part = if is_plain part then part else in_backticks part

-- `".".join(parts)`
unfoldable pub join_dots : List Text → Text
join_dots [] = []
join_dots (p ∷ []) = p
join_dots (p ∷ q ∷ ps) = p ++ b'.' ∷ join_dots (q ∷ ps)
