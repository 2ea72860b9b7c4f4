-- ===== src/IdentityColumn/Slots.antt =====
-- The slots of a block are disjoint parts of it.
use native.Mathlib.Nat.{eq_of_mul-eq-mul_right, mul-le-mul_right, mul-div-le}
use deltaswamp.Prelude.{ap, arith, refl, some, suc, sym, zero, ℕ, ◌*◌, ◌+◌, ◌/◌, ◌<◌, ◌∙◌, ◌≡◌, ◌≢◌}
use deltaswamp.IdentityColumn.{IdentityBlock, slot, slot_block, value}
use deltaswamp.Prelude.Int.{+ℤ_parts, eq_of_parts, neg_part, negsuc, pos, pos_part, ℤ, ◌*ℤ◌}

pub *ℤ_parts :
    (k : ℕ) (s : ℤ)
    → pos_part (pos k *ℤ s) + k * neg_part s ≡ neg_part (pos k *ℤ s) + k * pos_part s
unfolding ◌*ℤ◌
*ℤ_parts k s = ground arith

pub value_parts :
    (b : IdentityBlock) (k : ℕ)
    → pos_part (value b k) + neg_part b.first + k * neg_part b.step
      ≡ neg_part (value b k) + pos_part b.first + k * pos_part b.step
unfolding value
value_parts b k = omega (arith, +ℤ_parts b.first (pos k *ℤ b.step), *ℤ_parts k b.step)

value-times :
    (b : IdentityBlock) (k l : ℕ)
    → value b k ≡ value b l
    → k * pos_part b.step + l * neg_part b.step ≡ l * pos_part b.step + k * neg_part b.step
value-times b k l e = omega (arith, value_parts b k, value_parts b l, ap pos_part e, ap neg_part e)

step-injective :
    (s : ℤ) (k l : ℕ)
    → s ≢ pos 0
    → k * pos_part s + l * neg_part s ≡ l * pos_part s + k * neg_part s
    → k ≡ l
step-injective (pos zero) k l moving e = absurd (moving refl)
step-injective (pos (suc n)) k l moving e =
    eq_of_mul-eq-mul_right (suc n) (omega arith) k l (omega (arith, e))
step-injective (negsuc n) k l moving e =
    eq_of_mul-eq-mul_right (suc n) (omega arith) k l (omega (arith, e))

-- Different indices have different values, unless the step is zero.
pub value-injective : (b : IdentityBlock) (k l : ℕ) → b.step ≢ pos 0 → value b k ≡ value b l → k ≡ l
value-injective b k l moving e = step-injective b.step k l moving (value-times b k l e)

-- The part of a block that starts at one of its indices.
abbrev pub part : IdentityBlock → ℕ → ℕ → IdentityBlock
part b offset size = record { first = value b offset; step = b.step; count = size }

part-parts :
    (b : IdentityBlock) (m size k : ℕ)
    → pos_part (value (part b m size) k) + neg_part (value b m) + k * neg_part b.step
      ≡ neg_part (value (part b m size) k) + pos_part (value b m) + k * pos_part b.step
part-parts b m size k = value_parts (part b m size) k

pub part-value : (b : IdentityBlock) (m size k : ℕ) → value (part b m size) k ≡ value b (m + k)
part-value b m size k =
    eq_of_parts _ _ (grind (arith, part-parts b m size k, value_parts b (m + k), value_parts b m))

slot_block-value :
    (b : IdentityBlock) (i size k : ℕ) → value (slot_block b i size) k ≡ value b (i * size + k)
unfolding slot_block value
slot_block-value b i size k = part-value b (i * size) size k

-- What a slot that is given out is.
slot-some :
    (b : IdentityBlock) (i n : ℕ) (s : IdentityBlock)
    → slot b (pos i) (pos n) ≡ some s
    → (i < n) × (s ≡ slot_block b i (b.count / n))
unfolding slot
slot-some b i n s e = ground arith

part-below : (c i n k : ℕ) → i < n → k < c / n → i * (c / n) + k < c
part-below c i n k p h = omega (arith, mul-le-mul_right (c / n) p, mul-div-le c n)

slots-apart : (i j size k l : ℕ) → i ≢ j → k < size → l < size → i * size + k ≢ j * size + l
slots-apart zero zero size k l differ h g e = differ refl
slots-apart zero (suc j) size k l differ h g e = omega (arith, e, h)
slots-apart (suc i) zero size k l differ h g e = omega (arith, e, g)
slots-apart (suc i) (suc j) size k l differ h g e =
    slots-apart i j size k l (λ p. differ (ap suc p)) h g (omega (arith, e))

slot_blocks :
    (b : IdentityBlock) (i j n k l : ℕ) (s t : IdentityBlock)
    → i < n
    → s ≡ slot_block b i (b.count / n)
    → t ≡ slot_block b j (b.count / n)
    → b.step ≢ pos 0
    → i ≢ j
    → k < s.count
    → l < t.count
    → (i * s.count + k < b.count)
      × (value s k ≡ value b (i * s.count + k))
      × (value s k ≢ value t l)
unfolding slot_block
slot_blocks b i j n k l s t p is it moving differ =
    let size = b.count / n in
    rw (is, it)
      (λ h g. (
        part-below b.count i n k p h,
        slot_block-value b i size k,
        λ same. slots-apart i j size k l differ h g (
            value-injective b _ _ moving
              (sym (slot_block-value b i size k) ∙ same ∙ slot_block-value b j size l)),
      ))

-- Two different slots of a block share no value, and each value of a slot is one of the block's,
-- unless the step is zero: value `k` of slot `i` is the block's at the index `i` times the size of
-- a slot plus `k`, which is below its count.
pub slot_disjoint :
    (b : IdentityBlock) (i j n k l : ℕ) (s t : IdentityBlock)
    → slot b (pos i) (pos n) ≡ some s
    → slot b (pos j) (pos n) ≡ some t
    → b.step ≢ pos 0
    → i ≢ j
    → k < s.count
    → l < t.count
    → (i * s.count + k < b.count)
      × (value s k ≡ value b (i * s.count + k))
      × (value s k ≢ value t l)
slot_disjoint b i j n k l s t es et moving differ h g =
    let (p, is) = slot-some b i n s es in
    let (q, it) = slot-some b j n t et in slot_blocks b i j n k l s t p is it moving differ h g
