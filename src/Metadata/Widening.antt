-- ===== src/Metadata/Widening.antt =====
-- Type widening (python/deltaswamp/engine/metadata.py: _widening_allowed). A type is what its
-- canonical spelling says; reading the spelling is left out.
use deltaswamp.Prelude.{
  Bool, Option, false, if◌then◌else◌, leb, ltb, none, not, some, suc, true, zero, ℕ, ◌&&◌, ◌*◌, ◌+◌,
  ◌<◌, ◌==◌, ◌^◌, ◌≡◌, ◌≤◌,
}
use deltaswamp.Reference.Split.{Text}

-- The primitive types that the rules name; every other name is `named`.
pub data Primitive : Type 0 where
  byte short integer long float double date timestamp_ntz : Primitive
  decimal : ℕ → ℕ → Primitive
  named : Text → Primitive

-- `_INTEGRAL.index(t)`, for an integral type.
unfoldable pub integral_rank : Primitive → Option ℕ
integral_rank byte = some 0
integral_rank short = some 1
integral_rank integer = some 2
integral_rank long = some 3
integral_rank _ = none

-- `_INTEGRAL_DIGITS`
unfoldable pub integral_digits : Primitive → Option ℕ
integral_digits byte = some 10
integral_digits short = some 10
integral_digits integer = some 10
integral_digits long = some 20
integral_digits _ = none

-- The rules whose new type is no decimal.
unfoldable pub plain_widening : Primitive → Primitive → Bool
plain_widening float double = true
plain_widening byte double = true
plain_widening short double = true
plain_widening integer double = true
plain_widening date timestamp_ntz = true
plain_widening _ _ = false

-- The rules whose new type is a decimal of a precision and a scale. A difference of precision and
-- scale is compared with the terms moved over, since the source's may be negative.
unfoldable pub decimal_widening : Primitive → ℕ → ℕ → Bool
unfolding integral_digits
decimal_widening (decimal p₀ s₀) p s =
    leb 1 p && leb p 38 && leb s p && leb p₀ p && leb s₀ s && leb (p₀ + s) (p + s₀)
decimal_widening old p s =
    leb 1 p
    && leb p 38
    && leb s p
    && elim (integral_digits old) [ none ↦ false | some digits ↦ leb (digits + s) p ]

-- `new` is a decimal, or not.
unfoldable pub other_widening : Primitive → Primitive → Bool
unfolding decimal_widening plain_widening
other_widening old (decimal p s) = decimal_widening old p s
other_widening old new = plain_widening old new

-- `old == new`, for two decimals.
unfoldable pub same_decimal : Primitive → Primitive → Bool
same_decimal (decimal p₀ s₀) (decimal p s) = (p₀ == p) && (s₀ == s)
same_decimal _ _ = false

-- `_widening_allowed`
unfoldable pub widening_allowed : Primitive → Primitive → Bool
unfolding integral_rank other_widening same_decimal
widening_allowed old new = elim (integral_rank old) [
  | none ↦ not (same_decimal old new) && other_widening old new
  | some r ↦ elim (integral_rank new) [ none ↦ other_widening old new | some q ↦ ltb r q ]
]

unfoldable pub pow10 : ℕ → ℕ
pow10 zero = 1
pow10 (suc n) = 10 * pow10 n

-- What a column holds, apart from how its type stores it: a number as its sign and the fraction of
-- a numerator and a denominator, which is one more than the second number; an infinity with its
-- sign; what is no number; a moment without a zone, as microseconds before or after 1970; or a
-- value of a type that the rules do not name.
pub data Datum : Type 0 where
  ratio : Bool → ℕ → ℕ → Datum
  infinite : Bool → Datum
  nan : Datum
  moment : Bool → ℕ → Datum
  value_of : Text → Datum

-- An integer of two's complement, below a bound.
abbrev pub IsWhole : ℕ → Datum → Type 0
IsWhole limit (ratio negative num d) =
    (n : ℕ) × (num ≡ suc d * n) × (n + (if negative then 0 else 1) ≤ limit)
IsWhole limit _ = ⊥

-- A decimal of so many digits in all and behind the point.
abbrev pub IsDecimal : ℕ → ℕ → Datum → Type 0
IsDecimal p s (ratio negative num d) = (n : ℕ) × (num * pow10 s ≡ suc d * n) × (n < pow10 p)
IsDecimal p s _ = ⊥

-- A binary floating-point value: a mantissa below a bound, with an exponent of two between bounds
-- on either side.
abbrev pub IsBinary : ℕ → ℕ → ℕ → Datum → Type 0
IsBinary bound low high (ratio negative num d) =
    (m : ℕ) × (k : ℕ) × (j : ℕ) × (num * 2 ^ k ≡ suc d * (m * 2 ^ j))
    × (m < bound)
    × (k ≤ low)
    × (j ≤ high)
IsBinary bound low high (infinite negative) = Unit {0}
IsBinary bound low high nan = Unit {0}
IsBinary bound low high _ = ⊥

-- Midnight of a day from 0001-01-01 to 9999-12-31.
abbrev pub IsDay : Datum → Type 0
IsDay (moment before micros) =
    (day : ℕ) × (micros ≡ 86400000000 * day) × (day ≤ (if before then 719162 else 2932896))
IsDay _ = ⊥

-- A count of microseconds of two's complement in 64 bits.
abbrev pub IsMoment : Datum → Type 0
IsMoment (moment before micros) = micros + (if before then 0 else 1) ≤ 9223372036854775808
IsMoment _ = ⊥

abbrev pub IsNamed : Text → Datum → Type 0
IsNamed name (value_of other) = name ≡ other
IsNamed name _ = ⊥

-- The values that a type holds exactly, floats and doubles as those of IEEE 754 with 32 and 64
-- bits.
abbrev pub Fits : Primitive → Datum → Type 0
Fits byte v = IsWhole 128 v
Fits short v = IsWhole 32768 v
Fits integer v = IsWhole 2147483648 v
Fits long v = IsWhole 9223372036854775808 v
Fits float v = IsBinary 16777216 149 104 v
Fits double v = IsBinary 9007199254740992 1074 971 v
Fits (decimal p s) v = IsDecimal p s v
Fits date v = IsDay v
Fits timestamp_ntz v = IsMoment v
Fits (named name) v = IsNamed name v
