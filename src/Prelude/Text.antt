-- ===== src/Prelude/Text.antt =====
-- Texts. A whole text (a feature or property name) is a native `String`; code that folds case,
-- strips or searches a text goes through its code points.
use Prim.Native.Char.{code}
use Prim.Native.String.{String}
use Prim.Native.Nat.{ℕ, zero, suc, ◌+◌}
use mathlib.Core.Bool.{Bool, true, false, ◌&&◌, ◌||◌, not}
use mathlib.Core.Path.{◌≡◌, refl}
use mathlib.Core.Option.{Option, none, some}
use mathlib.Core.List.{List, [], ◌∷◌, ◌++◌, map, reverse}
use native.Mathlib.Omega.{arith}
use text.Mathlib.Text.{◌==◌ as str_eq}
use text.Mathlib.TextEquality.{eq_iff}
use deltaswamp.Prelude.Tests.{leb, ◌==◌, if◌then◌else◌}
use deltaswamp.Prelude.Lists.{select}

-- The code points of a text.
abbrev pub codes : String → List ℕ
codes String.[] = []
codes (String.◌∷◌ c s) = code c ∷ codes s

-- `s[n:]` on characters.
unfoldable pub drop_text : ℕ → String → String
drop_text zero s = s
drop_text (suc n) String.[] = String.[]
drop_text (suc n) (String.◌∷◌ c s) = drop_text n s

unfoldable pub codes_eq : List ℕ → List ℕ → Bool
codes_eq [] [] = true
codes_eq (x ∷ xs) (y ∷ ys) = (x == y) && codes_eq xs ys
codes_eq _ _ = false

-- `str.lower` at one ASCII character; the texts compared with the result are ASCII.
unfoldable pub to_lower : ℕ → ℕ
to_lower c = if leb b'A' c && leb c b'Z' then c + 32 else c

-- `str.isspace` at one ASCII character.
unfoldable pub is_space : ℕ → Bool
is_space c = (leb 9 c && leb c 13) || (leb 28 c && leb c 32)

unfoldable pub lstrip : List ℕ → List ℕ
unfolding is_space
lstrip [] = []
lstrip (c ∷ cs) = elim (is_space c) [ true ↦ lstrip cs | false ↦ c ∷ cs ]

-- `str.strip`
unfoldable pub strip : List ℕ → List ℕ
unfolding lstrip
strip cs = reverse (lstrip (reverse (lstrip cs)))

unfoldable pub lower : String → List ℕ
unfolding to_lower
lower s = map to_lower (codes s)

-- `s.lower() == t`
unfoldable pub lower_is : String → String → Bool
unfolding codes_eq lower
lower_is s t = codes_eq (lower s) (codes t)

-- `s.strip().lower() == t`
unfoldable pub folds_to : String → String → Bool
unfolding codes_eq strip lower
folds_to s t = codes_eq (strip (lower s)) (codes t)

unfoldable pub has_prefix : List ℕ → List ℕ → Bool
has_prefix [] s = true
has_prefix (p ∷ ps) [] = false
has_prefix (p ∷ ps) (c ∷ cs) = (p == c) && has_prefix ps cs

-- `p in s`
unfoldable pub occurs : List ℕ → List ℕ → Bool
unfolding has_prefix
occurs p [] = has_prefix p []
occurs p (c ∷ cs) = has_prefix p (c ∷ cs) || occurs p cs

-- `name in names`, for a frozenset of texts kept as a list.
unfoldable pub mem : String → List String → Bool
mem s [] = false
mem s (t ∷ ts) = str_eq s t || mem s ts

-- `xs - ys` on sets of texts.
unfoldable pub minus : List String → List String → List String
unfolding mem select
minus xs ys = select (λ x. not (mem x ys)) xs

-- `d.get(k)` for a dict of texts.
unfoldable pub lookup {ℓ} : {V : Type ℓ} → String → List (String × V) → Option V
lookup k [] = none
lookup k ((j, v) ∷ d) = if str_eq j k then some v else lookup k d

pub mem-append : (s : String) (xs ys : List String) → mem s (xs ++ ys) ≡ (mem s xs || mem s ys)
unfolding mem
mem-append s [] ys = refl
mem-append s (x ∷ xs) ys = ground (arith, mem-append s xs ys)

pub mem-minus :
    (s : String) (xs ys : List String) → mem s (minus xs ys) ≡ (mem s xs && not (mem s ys))
unfolding minus
mem-minus s [] ys = refl
mem-minus s (x ∷ xs) ys = ground (arith, mem-minus s xs ys, eq_iff s x)

-- `d[k] = v`
unfoldable pub put {ℓ} : {V : Type ℓ} → String → V → List (String × V) → List (String × V)
put k v [] = (k, v) ∷ []
put k v ((j, w) ∷ d) = if str_eq j k then (k, v) ∷ d else (j, w) ∷ put k v d

pub lookup-put {ℓ} :
    {V : Type ℓ} (k j : String) (v : V) (d : List (String × V))
    → lookup j (put k v d) ≡ (if str_eq k j then some v else lookup j d)
unfolding lookup put
lookup-put k j v [] = refl
lookup-put k j v ((i, w) ∷ d) =
    ground (arith, eq_iff k j, eq_iff i k, eq_iff i j, lookup-put k j v d)
