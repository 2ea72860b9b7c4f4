-- ===== src/IdentityColumn/Reserve.antt =====
-- Reservations of one identity column follow each other without overlap.
use native.Mathlib.Nat.{suc-mul}
use deltaswamp.Prelude.{ap, arith, some, suc, sym, true, ℕ, ◌+◌, ◌-◌, ◌<◌, ◌∙◌, ◌≡◌, ◌≢◌}
use deltaswamp.IdentityColumn.{
  IdentityBlock, SchemaField, first_free, identity_spec, in_int64, last_value, mark, next_block,
  reserve_field, value,
}
use deltaswamp.IdentityColumn.Slots.{part, part-value, value-injective, value_parts}
use deltaswamp.Prelude.Int.{+ℤ_parts, eq_of_parts, neg_part, pos, pos_part, ◌+ℤ◌}

reserve_field-some :
    (f g : SchemaField) (n : ℕ) (a : IdentityBlock)
    → reserve_field f n ≡ some (g, some a)
    → (a ≡ next_block f n)
      × (n ≢ 0)
      × (g ≡ mark f (last_value a))
      × (in_int64 a.first ≡ true)
      × (in_int64 (last_value a) ≡ true)
unfolding reserve_field
reserve_field-some f g n a e = ground arith

value-suc : (b : IdentityBlock) (n : ℕ) → value b n +ℤ b.step ≡ value b (suc n)
value-suc b n = eq_of_parts _ _ (
    omega (
      arith,
      +ℤ_parts (value b n) b.step,
      value_parts b n,
      value_parts b (suc n),
      suc-mul n (pos_part b.step),
      suc-mul n (neg_part b.step),
    ))

value-next : (b : IdentityBlock) (n : ℕ) → n ≢ 0 → value b (n - 1) +ℤ b.step ≡ value b n
value-next b n h =
    let next : suc (n - 1) ≡ n = omega (arith, h) in value-suc b (n - 1) ∙ ap (λ k. value b k) next

-- The block after a reservation goes on where the reserved one ends.
next_block-mark :
    (f : SchemaField) (n m : ℕ)
    → n ≢ 0
    → next_block (mark f (last_value (next_block f n))) m ≡ part (next_block f n) n m
unfolding next_block mark last_value first_free identity_spec
next_block-mark f n m h =
    ap (λ x. record { first = x; step = (next_block f n).step; count = m })
      (value-next (next_block f n) n h)

-- The high-water mark after a reservation is its last value, and the first and the last value that
-- it reserves are integers of 64 bits. The next reservation of the column goes on where this one
-- ends, so that the two share no value, unless the step is zero.
pub reserve_field-disjoint :
    (f g h : SchemaField) (n m i j : ℕ) (a b : IdentityBlock)
    → reserve_field f n ≡ some (g, some a)
    → reserve_field g m ≡ some (h, some b)
    → a.step ≢ pos 0
    → i < n
    → (in_int64 a.first ≡ true)
      × (in_int64 (last_value a) ≡ true)
      × (g ≡ mark f (last_value a))
      × (b ≡ part a n m)
      × (value a i ≢ value b j)
reserve_field-disjoint f g h n m i j a b e d moving p =
    let (made, some_rows, marked, low, high) = reserve_field-some f g n a e in
    let (next, _, _, _, _) = reserve_field-some g h m b d in
    let after =
      next
      ∙ ap (λ x. next_block x m) (marked ∙ ap (λ x. mark f (last_value x)) made)
      ∙ next_block-mark f n m some_rows
      ∙ ap (λ x. part x n m) (sym made) in
    (
      low,
      high,
      marked,
      after,
      λ same. apart i (n + j) (omega (arith, p)) (
          value-injective a i (n + j) moving
            (same ∙ ap (λ x. value x j) after ∙ part-value a n m j)),
    )
  where
    apart : (i k : ℕ) → i < k → i ≢ k
    apart i k p e = omega (arith, p, e)
