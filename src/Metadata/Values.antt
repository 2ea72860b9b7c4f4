-- ===== src/Metadata/Values.antt =====
-- A type that is widened loses no value.
use native.Mathlib.Nat.{mul_assoc, mul-lt-mul_of_pos_right}
use deltaswamp.Prelude.{
  Option, ap, arith, false, ltb, none, refl, some, suc, sym, true, zero, ℕ, ◌*◌, ◌+◌, ◌-◌, ◌<◌, ◌∙◌,
  ◌≡◌, ◌≤◌,
}
use deltaswamp.Metadata.Widening.{
  Datum, Fits, IsBinary, IsDay, IsDecimal, IsMoment, IsWhole, Primitive, byte, date, decimal,
  decimal_widening, double, float, infinite, integer, integral_digits, integral_rank, long, moment,
  named, nan, other_widening, plain_widening, pow10, ratio, short, timestamp_ntz, value_of,
  widening_allowed,
}

pow10-positive : (n : ℕ) → 0 < pow10 n
unfolding pow10
pow10-positive zero = omega arith
pow10-positive (suc n) = omega (arith, pow10-positive n)

pow10-add : (a b : ℕ) → pow10 (a + b) ≡ pow10 a * pow10 b
unfolding pow10
pow10-add zero b = grind arith
pow10-add (suc a) b =
    let e : suc a + b ≡ suc (a + b) = omega arith in
    rw e (ap (λ k. 10 * k) (pow10-add a b) ∙ sym (mul_assoc 10 (pow10 a) (pow10 b)))

pow10_mono : (a b : ℕ) → a ≤ b → pow10 a ≤ pow10 b
unfolding pow10
pow10_mono zero b h = omega (arith, pow10-positive b)
pow10_mono (suc a) zero h = absurd (omega arith)
pow10_mono (suc a) (suc b) h = omega (arith, pow10_mono a b (omega arith))

-- A number below one power of ten, with more digits behind the point, is below a greater one.
scaled-below : (m a b d : ℕ) → m < pow10 a → a + d ≤ b → m * pow10 d < pow10 b
scaled-below m a b d h g =
    omega
      (arith, mul-lt-mul_of_pos_right h (pow10-positive d), pow10-add a d, pow10_mono (a + d) b g)

-- A fraction brought to more digits behind the point.
scaled : (num d n a b : ℕ) → num * a ≡ d * n → num * (a * b) ≡ d * (n * b)
scaled num d n a b e = sym (mul_assoc num a b) ∙ ap (λ t. t * b) e ∙ mul_assoc d n b

pow10-split : (s₀ s : ℕ) → s₀ ≤ s → pow10 s ≡ pow10 s₀ * pow10 (s - s₀)
pow10-split s₀ s h = let e : s ≡ s₀ + (s - s₀) = omega arith in ap pow10 e ∙ pow10-add s₀ (s - s₀)

decimal-Fits :
    (p₀ s₀ p s : ℕ) (v : Datum)
    → decimal_widening (decimal p₀ s₀) p s ≡ true
    → IsDecimal p₀ s₀ v
    → IsDecimal p s v
unfolding decimal_widening
decimal-Fits p₀ s₀ p s (ratio negative num d) h (n, e, below) =
    let wider : (s₀ ≤ s) × (p₀ + s ≤ p + s₀) = ground (arith, h) in
    (
      n * pow10 (s - s₀),
      ap (λ t. num * t) (pow10-split s₀ s wider.0)
          ∙ scaled num (suc d) n (pow10 s₀) (pow10 (s - s₀)) e,
      scaled-below n p₀ p (s - s₀) below (omega (arith, wider.0, wider.1)),
    )
decimal-Fits p₀ s₀ p s _ h f = absurd f

-- An integer that is in range is a decimal of as many digits in front of the point as its type
-- asks for.
IsWhole-IsDecimal :
    (limit digits p s : ℕ) (v : Datum)
    → limit < pow10 digits
    → digits + s ≤ p
    → IsWhole limit v
    → IsDecimal p s v
IsWhole-IsDecimal limit digits p s (ratio negative num d) small h (n, e, range) = (
  n * pow10 s,
  ap (λ t. t * pow10 s) e ∙ mul_assoc (suc d) n (pow10 s),
  scaled-below n digits p s (omega (arith, range, small)) h,
)
IsWhole-IsDecimal limit digits p s _ small h f = absurd f

-- A small integer is its own mantissa.
IsWhole-IsBinary :
    (limit bound low high : ℕ) (v : Datum)
    → limit < bound
    → IsWhole limit v
    → IsBinary bound low high v
IsWhole-IsBinary limit bound low high (ratio negative num d) small (n, e, range) =
    let one : n * 1 ≡ n = omega arith in
    let same : num * 1 ≡ num = omega arith in
    (
      n,
      0,
      0,
      same ∙ e ∙ ap (λ t. suc d * t) (sym one),
      omega (arith, range, small),
      omega arith,
      omega arith,
    )
IsWhole-IsBinary limit bound low high _ small f = absurd f

IsBinary-mono :
    (a b l₀ l h₀ h : ℕ) (v : Datum)
    → a ≤ b
    → l₀ ≤ l
    → h₀ ≤ h
    → IsBinary a l₀ h₀ v
    → IsBinary b l h v
IsBinary-mono a b l₀ l h₀ h (ratio negative num d) p q r (m, k, j, e, x, y, z) =
    (m, k, j, e, omega (arith, p, x), omega (arith, q, y), omega (arith, r, z))
IsBinary-mono a b l₀ l h₀ h (infinite negative) p q r f = tt
IsBinary-mono a b l₀ l h₀ h nan p q r f = tt
IsBinary-mono a b l₀ l h₀ h (moment before micros) p q r f = absurd f
IsBinary-mono a b l₀ l h₀ h (value_of name) p q r f = absurd f

IsDay-IsMoment : (v : Datum) → IsDay v → IsMoment v
IsDay-IsMoment (moment true micros) (day, e, range) = omega (arith, e, range)
IsDay-IsMoment (moment false micros) (day, e, range) = omega (arith, e, range)
IsDay-IsMoment (ratio negative num d) f = absurd f
IsDay-IsMoment _ f = absurd f

ten-digits : 2147483648 < pow10 10
unfolding pow10
ten-digits = omega arith

twenty-digits : 9223372036854775808 < pow10 20
unfolding pow10
twenty-digits = omega arith

to_decimal-Fits :
    (old : Primitive) (p s : ℕ) (v : Datum)
    → decimal_widening old p s ≡ true
    → Fits old v
    → Fits (decimal p s) v
unfolding decimal_widening integral_digits
to_decimal-Fits (decimal p₀ s₀) p s v h f = decimal-Fits p₀ s₀ p s v h f
to_decimal-Fits byte p s v h f =
    IsWhole-IsDecimal 128 10 p s v (omega (arith, ten-digits)) (ground (arith, h)) f
to_decimal-Fits short p s v h f =
    IsWhole-IsDecimal 32768 10 p s v (omega (arith, ten-digits)) (ground (arith, h)) f
to_decimal-Fits integer p s v h f =
    IsWhole-IsDecimal 2147483648 10 p s v ten-digits (ground (arith, h)) f
to_decimal-Fits long p s v h f =
    IsWhole-IsDecimal 9223372036854775808 20 p s v twenty-digits (ground (arith, h)) f
to_decimal-Fits float p s v h f = ground (arith, h)
to_decimal-Fits double p s v h f = ground (arith, h)
to_decimal-Fits date p s v h f = ground (arith, h)
to_decimal-Fits timestamp_ntz p s v h f = ground (arith, h)
to_decimal-Fits (named n) p s v h f = ground (arith, h)

IsWhole-mono : (a b : ℕ) (v : Datum) → a ≤ b → IsWhole a v → IsWhole b v
IsWhole-mono a b (ratio negative num d) h (n, e, range) = (n, e, omega (arith, h, range))
IsWhole-mono a b _ h f = absurd f

-- The rules between types that are no decimals.
to_plain-Fits :
    (old new : Primitive) (v : Datum) → plain_widening old new ≡ true → Fits old v → Fits new v
unfolding plain_widening
to_plain-Fits float double v h f =
    IsBinary-mono 16777216 9007199254740992 149 1074 104 971 v (omega arith) (omega arith)
      (omega arith) f
to_plain-Fits byte double v h f = IsWhole-IsBinary 128 9007199254740992 1074 971 v (omega arith) f
to_plain-Fits short double v h f =
    IsWhole-IsBinary 32768 9007199254740992 1074 971 v (omega arith) f
to_plain-Fits integer double v h f =
    IsWhole-IsBinary 2147483648 9007199254740992 1074 971 v (omega arith) f
to_plain-Fits date timestamp_ntz v h f = IsDay-IsMoment v f
to_plain-Fits _ _ v h f = cc

other_widening-Fits :
    (old new : Primitive) (v : Datum) → other_widening old new ≡ true → Fits old v → Fits new v
unfolding other_widening
other_widening-Fits old (decimal p s) v h f = to_decimal-Fits old p s v h f
other_widening-Fits old byte v h f = to_plain-Fits old byte v h f
other_widening-Fits old new v h f = to_plain-Fits old new v h f

integral-Fits :
    (old new : Primitive) (r q : ℕ) (v : Datum)
    → integral_rank old ≡ some r
    → integral_rank new ≡ some q
    → ltb r q ≡ true
    → Fits old v
    → Fits new v
unfolding integral_rank
integral-Fits byte short r q v d e h f = IsWhole-mono 128 32768 v (omega arith) f
integral-Fits byte integer r q v d e h f = IsWhole-mono 128 2147483648 v (omega arith) f
integral-Fits byte long r q v d e h f = IsWhole-mono 128 9223372036854775808 v (omega arith) f
integral-Fits short integer r q v d e h f = IsWhole-mono 32768 2147483648 v (omega arith) f
integral-Fits short long r q v d e h f = IsWhole-mono 32768 9223372036854775808 v (omega arith) f
integral-Fits integer long r q v d e h f =
    IsWhole-mono 2147483648 9223372036854775808 v (omega arith) f
integral-Fits _ _ r q v d e h f = ground arith

widening-Fits :
    (old new : Primitive) (o n : Option ℕ) (v : Datum)
    → integral_rank old ≡ o
    → integral_rank new ≡ n
    → widening_allowed old new ≡ true
    → Fits old v
    → Fits new v
unfolding widening_allowed
widening-Fits old new none n v d e h f = other_widening-Fits old new v (ground (arith, h, d)) f
widening-Fits old new (some r) none v d e h f =
    other_widening-Fits old new v (ground (arith, h, d, e)) f
widening-Fits old new (some r) (some q) v d e h f =
    integral-Fits old new r q v d e (ground (arith, h, d, e)) f

-- Where the widening of a type is allowed, every value that the old type holds the new one holds
-- exactly too, so that none is lost or rounded: numbers as fractions, infinities and NaN, days as
-- their midnight, and values of other types as nothing but themselves.
pub widening_allowed-Fits :
    (old new : Primitive) (v : Datum) → widening_allowed old new ≡ true → Fits old v → Fits new v
widening_allowed-Fits old new v h f =
    widening-Fits old new (integral_rank old) (integral_rank new) v refl refl h f
