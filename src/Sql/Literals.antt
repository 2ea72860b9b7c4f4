-- ===== src/Sql/Literals.antt =====
-- String literals (python/deltaswamp/engine/sql_text.py: literal), and a reader of them that knows
-- nothing of how they are written: a literal ends at its first quote that is not escaped.
use mathlib.Core.List.{append_assoc}
use deltaswamp.Prelude.{
  Bool-cases, Option, [], ap, arith, false, if◌then◌else◌, inl, inr, none, refl, some, sym, true, ℕ,
  ◌++◌, ◌==◌, ◌||◌, ◌∙◌, ◌∷◌, ◌≡◌,
}
use deltaswamp.Prelude.Text.{codes}
use deltaswamp.Reference.Split.{Text}

-- A backslash and a single quote.
abbrev pub backslash : ℕ
backslash = 92

abbrev pub apostrophe : ℕ
apostrophe = 39

-- `text.replace(c, by)`, for one character `c`.
unfoldable pub replace : ℕ → Text → Text → Text
replace c by [] = []
replace c by (d ∷ ds) = if d == c then by ++ replace c by ds else d ∷ replace c by ds

-- `str(value)` with the backslashes and then the quotes escaped.
unfoldable pub escape_literal : Text → Text
unfolding replace
escape_literal value =
    let slashes = replace backslash (backslash ∷ backslash ∷ []) value in
    replace apostrophe (backslash ∷ apostrophe ∷ []) slashes

unfoldable pub literal : Option Text → Text
unfolding escape_literal
literal none = codes "NULL"
literal (some value) = apostrophe ∷ escape_literal value ++ apostrophe ∷ []

abbrev pub add_char : ℕ → Option (Text × Text) → Option (Text × Text)
add_char c none = none
add_char c (some (value, rest)) = some (c ∷ value, rest)

-- The value of the text behind an opening quote, and what follows the closing one. An escaped
-- backslash or quote stands for itself; the other escapes are left out.
unfoldable pub read_body : Text → Option (Text × Text)
read_body [] = none
read_body (c ∷ []) = if c == apostrophe then some ([], []) else none
read_body (c ∷ d ∷ ds) =
    let after = read_body ds in
    let next = read_body (d ∷ ds) in
    if c == apostrophe
    then some ([], d ∷ ds)
    else if c == backslash
    then if (d == backslash) || (d == apostrophe) then add_char d after else none
    else add_char c next

unfoldable pub read_literal : Text → Option (Text × Text)
unfolding read_body
read_literal [] = none
read_literal (c ∷ cs) = if c == apostrophe then read_body cs else none

read_body-closed : (rest : Text) → read_body (apostrophe ∷ rest) ≡ some ([], rest)
unfolding read_body
read_body-closed [] = refl
read_body-closed (c ∷ rest) = refl

-- A character that is neither stands for itself.
read_body-plain :
    (c d : ℕ) (ds : Text)
    → (c == apostrophe) ≡ false
    → (c == backslash) ≡ false
    → read_body (c ∷ d ∷ ds) ≡ add_char c (read_body (d ∷ ds))
unfolding read_body
read_body-plain c d ds no_quote no_slash = rw (no_quote, no_slash) refl

read_body-escaped :
    (d : ℕ) (ds : Text)
    → ((d == backslash) || (d == apostrophe)) ≡ true
    → read_body (backslash ∷ d ∷ ds) ≡ add_char d (read_body ds)
unfolding read_body
read_body-escaped d ds h = rw h refl

-- A text with a character behind it is not empty.
split_first : (s rest : Text) (c : ℕ) → (d : ℕ) × (t : Text) × (s ++ c ∷ rest ≡ d ∷ t)
split_first [] rest c = (c, rest, refl)
split_first (d ∷ s) rest c = (d, s ++ c ∷ rest, refl)

-- The three ways in which a character is written.
escape_literal-nil : escape_literal [] ≡ []
unfolding escape_literal replace
escape_literal-nil = refl

escape_literal-backslash :
    (cs : Text) → escape_literal (backslash ∷ cs) ≡ backslash ∷ backslash ∷ escape_literal cs
unfolding escape_literal replace
escape_literal-backslash cs = refl

escape_literal-apostrophe :
    (cs : Text) → escape_literal (apostrophe ∷ cs) ≡ backslash ∷ apostrophe ∷ escape_literal cs
unfolding escape_literal replace
escape_literal-apostrophe cs = refl

escape_literal-plain :
    (c : ℕ) (cs : Text)
    → (c == apostrophe) ≡ false
    → (c == backslash) ≡ false
    → escape_literal (c ∷ cs) ≡ c ∷ escape_literal cs
unfolding escape_literal replace
escape_literal-plain c cs no_quote no_slash = rw no_slash (rw no_quote refl)

read_body-escape_literal :
    (value rest : Text) → read_body (escape_literal value ++ apostrophe ∷ rest) ≡ some (value, rest)
read_body-escape_literal [] rest = rw escape_literal-nil (read_body-closed rest)
read_body-escape_literal (c ∷ value) rest =
    let later = read_body-escape_literal value rest in
    elim (Bool-cases (c == backslash)) [
      | inl e ↦
          (let slash : c ≡ backslash = ground (arith, e) in
            rw (slash, escape_literal-backslash value)
              (read_body-escaped backslash (escape_literal value ++ apostrophe ∷ rest) refl
                ∙ ap (add_char backslash) later))
      | inr no_slash ↦ elim (Bool-cases (c == apostrophe)) [
        | inl e ↦
            (let tick : c ≡ apostrophe = ground (arith, e) in
              rw (tick, escape_literal-apostrophe value)
                (read_body-escaped apostrophe (escape_literal value ++ apostrophe ∷ rest) refl
                  ∙ ap (add_char apostrophe) later))
        | inr no_quote ↦
            (let (d, t, e) = split_first (escape_literal value) rest apostrophe in
              rw (escape_literal-plain c value no_quote no_slash) (
                rw e (
                  read_body-plain c d t no_quote no_slash
                  ∙ ap (λ s. add_char c (read_body s)) (sym e)
                  ∙ ap (add_char c) later)))
      ]
    ]

-- A string literal is read back as its value, whatever characters the value holds, and it ends
-- where it was meant to: what follows it in the statement is left as it is.
pub read_literal-literal :
    (value rest : Text) → read_literal (literal (some value) ++ rest) ≡ some (value, rest)
unfolding read_literal literal
read_literal-literal value rest =
    ap read_body (append_assoc (escape_literal value) (apostrophe ∷ []) rest)
    ∙ read_body-escape_literal value rest
