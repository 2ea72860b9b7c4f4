-- ===== src/Reference/Quoting.antt =====
-- A dotted name made of quoted parts is split into these parts.
use mathlib.Core.List.{append-nil, append_assoc}
use deltaswamp.Prelude.{
  Bool, Bool-cases, List, [], all, any, ap, arith, false, inl, inr, is_empty, map, refl, sym, true,
  ℕ, ◌++◌, ◌==◌, ◌∙◌, ◌∷◌, ◌≡◌, ◌≢◌,
}
use deltaswamp.Prelude.Text.{is_space}
use deltaswamp.Reference.Split.{
  Marked, Text, add_part, check_parts, escape, finish, in_backticks, is_plain, is_word, join_dots,
  parsed, quote, scan, split_identifier, trim_left, trim_right,
}

-- What may follow a name: the end, or the next name behind a dot.
abbrev pub Follows : Text → Type 0
Follows [] = Unit
Follows (c ∷ rest) = c ≡ b'.'

-- The characters of a name, as the loop marks them.
abbrev pub marked : Bool → Text → List Marked
marked quoted name = map (λ c. (c, quoted)) name

push : (buf : List Marked) (m : Marked) (ms : List Marked) → (buf ++ m ∷ []) ++ ms ≡ buf ++ m ∷ ms
push [] m ms = refl
push (n ∷ buf) m ms = ap (λ l. n ∷ l) (push buf m ms)

-- Inside the quotes, a character that is no backtick stands for itself.
scan-quoted :
    (buf : List Marked) (c d : ℕ) (rest : Text)
    → c ≢ b'`'
    → scan true buf (c ∷ d ∷ rest) ≡ scan true (buf ++ (c, true) ∷ []) (d ∷ rest)
unfolding scan
scan-quoted buf c d rest h = ground arith

scan-doubled :
    (buf : List Marked) (rest : Text)
    → scan true buf (b'`' ∷ b'`' ∷ rest) ≡ scan true (buf ++ (b'`', true) ∷ []) rest
unfolding scan
scan-doubled buf rest = ground arith

scan-closed :
    (buf : List Marked) (rest : Text)
    → Follows rest
    → scan true buf (b'`' ∷ rest) ≡ scan false buf rest
unfolding scan
scan-closed buf [] h = refl
scan-closed buf (c ∷ rest) h = ground arith

-- A text and a backtick is never empty.
split_first : (s rest : Text) → (d : ℕ) × (t : Text) × (s ++ b'`' ∷ rest ≡ d ∷ t)
split_first [] rest = (b'`', rest, refl)
split_first (d ∷ s) rest = (d, s ++ b'`' ∷ rest, refl)

scan-char :
    (buf : List Marked) (c : ℕ) (s rest : Text)
    → c ≢ b'`'
    → scan true buf (c ∷ s ++ b'`' ∷ rest) ≡ scan true (buf ++ (c, true) ∷ []) (s ++ b'`' ∷ rest)
scan-char buf c s rest h = let (d, t, e) = split_first s rest in rw e (scan-quoted buf c d t h)

pub scan-escape :
    (name : Text) (buf : List Marked) (rest : Text)
    → Follows rest
    → scan true buf (escape name ++ b'`' ∷ rest) ≡ scan false (buf ++ marked true name) rest
unfolding escape
scan-escape [] buf rest h = rw append-nil (scan-closed buf rest h)
scan-escape (c ∷ name) buf rest h = elim (Bool-cases (c == b'`')) [
  | inl e ↦
      (let tick : c ≡ b'`' = ground (arith, e) in
        rw (e, tick)
          (scan-doubled buf (escape name ++ b'`' ∷ rest)
            ∙ scan-escape name (buf ++ (b'`', true) ∷ []) rest h
            ∙ ap (λ b. scan false b rest) (push buf (b'`', true) (marked true name))))
  | inr e ↦ rw e (
      scan-char buf c (escape name) rest (ground (arith, e))
      ∙ scan-escape name (buf ++ (c, true) ∷ []) rest h
      ∙ ap (λ b. scan false b rest) (push buf (c, true) (marked true name)))
]

word-apart :
    (c : ℕ) (name : Text)
    → all is_word (c ∷ name) ≡ true
    → ((c == b'`') ≡ false) × ((c == b'.') ≡ false) × (all is_word name ≡ true)
unfolding all
word-apart c name h = ground arith

-- Outside the quotes, the characters of a plain name stand for themselves.
scan-plain :
    (buf : List Marked) (c : ℕ) (rest : Text)
    → (c == b'`') ≡ false
    → (c == b'.') ≡ false
    → scan false buf (c ∷ rest) ≡ scan false (buf ++ (c, false) ∷ []) rest
unfolding scan
scan-plain buf c rest h g = ground arith

scan-word :
    (name : Text) (buf : List Marked) (rest : Text)
    → all is_word name ≡ true
    → scan false buf (name ++ rest) ≡ scan false (buf ++ marked false name) rest
scan-word [] buf rest h = rw append-nil refl
scan-word (c ∷ name) buf rest h =
    let (no_tick, no_dot, later) = word-apart c name h in
    scan-plain buf c (name ++ rest) no_tick no_dot
    ∙ scan-word name (buf ++ (c, false) ∷ []) rest later
    ∙ ap (λ b. scan false b rest) (push buf (c, false) (marked false name))

trim_left-quoted : (name : Text) → trim_left (marked true name) ≡ marked true name
unfolding trim_left
trim_left-quoted [] = refl
trim_left-quoted (c ∷ name) = refl

trim_right-quoted : (name : Text) → trim_right (marked true name) ≡ marked true name
unfolding trim_right
trim_right-quoted [] = refl
trim_right-quoted (c ∷ []) = refl
trim_right-quoted (c ∷ d ∷ name) = rw (trim_right-quoted (d ∷ name)) refl

trim_left-word :
    (name : Text) → all is_word name ≡ true → trim_left (marked false name) ≡ marked false name
unfolding trim_left all is_space
trim_left-word [] h = refl
trim_left-word (c ∷ name) h = ground arith

trim_right-word :
    (name : Text) → all is_word name ≡ true → trim_right (marked false name) ≡ marked false name
unfolding trim_right all is_space
trim_right-word [] h = refl
trim_right-word (c ∷ []) h = ground arith
trim_right-word (c ∷ d ∷ name) h =
    rw (trim_right-word (d ∷ name) (word-apart c (d ∷ name) h).2) refl

unmarked : (quoted : Bool) (name : Text) → map (λ (m : Marked). m.0) (marked quoted name) ≡ name
unmarked quoted [] = refl
unmarked quoted (c ∷ name) = ap (λ l. c ∷ l) (unmarked quoted name)

finish-quoted : (name : Text) → finish (marked true name) ≡ name
unfolding finish
finish-quoted name = rw (trim_left-quoted name, trim_right-quoted name) (unmarked true name)

finish-word : (name : Text) → all is_word name ≡ true → finish (marked false name) ≡ name
unfolding finish
finish-word name h = rw (trim_left-word name h, trim_right-word name h) (unmarked false name)

is_plain-word : (name : Text) → is_plain name ≡ true → all is_word name ≡ true
unfolding is_plain
is_plain-word [] h = cc
is_plain-word (c ∷ name) h = ground arith

scan-in_backticks :
    (name rest : Text)
    → Follows rest
    → scan false [] (in_backticks name ++ rest) ≡ scan false (marked true name) rest
unfolding in_backticks scan
scan-in_backticks name rest h =
    ap (λ t. scan true [] t) (append_assoc (escape name) (b'`' ∷ []) rest)
    ∙ scan-escape name [] rest h

-- A way of quoting whose result is read as the part that was quoted.
abbrev pub IsReadBack : (Text → Text) → Type 0
IsReadBack style =
    (name rest : Text)
    → Follows rest
    → (buf : List Marked) × (scan false [] (style name ++ rest) ≡ scan false buf rest)
      × (finish buf ≡ name)

in_backticks-IsReadBack : IsReadBack in_backticks
in_backticks-IsReadBack name rest h =
    (marked true name, scan-in_backticks name rest h, finish-quoted name)

quote-IsReadBack : IsReadBack quote
unfolding quote
quote-IsReadBack name rest h = elim (Bool-cases (is_plain name)) [
  | inl e ↦ (
    marked false name,
    rw e (scan-word name [] rest (is_plain-word name e)),
    finish-word name (is_plain-word name e),
  )
  | inr e ↦ rw e (in_backticks-IsReadBack name rest h)
]

module _ (style : Text → Text) (reads : IsReadBack style) where
  scan-last : (name : Text) → scan false [] (style name) ≡ parsed (name ∷ [])
  unfolding scan
  scan-last name =
      let (buf, e, f) = reads name [] tt in
      ap (λ t. scan false [] t) (sym (append-nil (style name))) ∙ e ∙ ap (λ p. parsed (p ∷ [])) f

  scan-part :
      (name rest : Text)
      → scan false [] (style name ++ b'.' ∷ rest) ≡ add_part name (scan false [] rest)
  unfolding scan
  scan-part name rest =
      let (buf, e, f) = reads name (b'.' ∷ rest) refl in
      e ∙ ap (λ p. add_part p (scan false [] rest)) f

  scan-join :
      (name : Text) (names : List Text)
      → scan false [] (join_dots (map style (name ∷ names))) ≡ parsed (name ∷ names)
  unfolding join_dots
  scan-join name [] = scan-last name
  scan-join name (next ∷ names) =
      scan-part name (join_dots (map style (next ∷ names)))
      ∙ ap (λ r. add_part name r) (scan-join next names)

  split_identifier-style :
      (name : Text) (names : List Text)
      → any is_empty (name ∷ names) ≡ false
      → split_identifier (join_dots (map style (name ∷ names))) ≡ parsed (name ∷ names)
  unfolding split_identifier check_parts
  split_identifier-style name names kept = rw (scan-join name names) (rw kept refl)

-- A dotted name whose parts are quoted, each where it needs it or each in any case, is split into
-- exactly these parts, whatever characters they hold; no part is empty.
pub split_identifier-join_dots :
    (name : Text) (names : List Text)
    → any is_empty (name ∷ names) ≡ false
    → (split_identifier (join_dots (map quote (name ∷ names))) ≡ parsed (name ∷ names))
      × (split_identifier (join_dots (map in_backticks (name ∷ names))) ≡ parsed (name ∷ names))
split_identifier-join_dots name names kept = (
  split_identifier-style quote quote-IsReadBack name names kept,
  split_identifier-style in_backticks in_backticks-IsReadBack name names kept,
)
