-- ===== src/IdentityColumn/Draws.antt =====
-- A cursor never gives a value twice, whatever is drawn in between.
use deltaswamp.Prelude.{ap, arith, refl, some, sym, ℕ, ◌+◌, ◌<◌, ◌∙◌, ◌≡◌, ◌≢◌, ◌≤◌}
use deltaswamp.IdentityColumn.{IdentityCursor, take, value}
use deltaswamp.IdentityColumn.Slots.{part-value, value-injective}
use deltaswamp.Prelude.Int.{pos, ℤ}

-- The cursors that draws lead to.
pub data Later (c : IdentityCursor) : IdentityCursor → Type 0 where
  now : Later c c
  drawn :
      {d e : IdentityCursor} (rows : ℕ) (v : ℤ) → Later c d → take d rows ≡ some (v, e) → Later c e

take-some :
    (c d : IdentityCursor) (rows : ℕ) (v : ℤ)
    → take c rows ≡ some (v, d)
    → (v ≡ value c.block c.used)
      × (d.block ≡ c.block)
      × (d.used ≡ c.used + rows)
      × (c.used + rows ≤ c.block.count)
unfolding take
take-some c d rows v e = ground arith

Later-used : (c d : IdentityCursor) → Later c d → (d.block ≡ c.block) × (c.used ≤ d.used)
Later-used c d now = (refl, omega arith)
Later-used c e (drawn {d} rows v l t) =
    let (same, least) = Later-used c d l in
    let (_, kept, used, _) = take-some d e rows v t in (kept ∙ same, omega (arith, least, used))

-- The value of row `i` of a draw is the block's at its index.
row-value :
    (c d : IdentityCursor) (rows i : ℕ) (v : ℤ)
    → take c rows ≡ some (v, d)
    → value (record { first = v; step = c.block.step; count = rows }) i ≡ value c.block (c.used + i)
row-value c d rows i v t =
    let (first, _, _, _) = take-some c d rows v t in rw first (part-value c.block c.used rows i)

-- The values that a draw gives are the block's at indices below its and no later draw from
-- the same cursor gives one of them again, whatever draws lie between, unless the step is zero.
pub take-fresh :
    (c d e f : IdentityCursor) (rows more : ℕ) (v w : ℤ)
    → take c rows ≡ some (v, d)
    → Later d e
    → take e more ≡ some (w, f)
    → c.block.step ≢ pos 0
    → (i : ℕ) → i < rows
    → (c.used + i < c.block.count)
      × (value (record { first = v; step = c.block.step; count = rows }) i
          ≡ value c.block (c.used + i))
      × ((j : ℕ)
          → value (record { first = v; step = c.block.step; count = rows }) i
            ≢ value (record { first = w; step = e.block.step; count = more }) j)
take-fresh c d e f rows more v w t l u moving i h =
    let (_, kept, used, room) = take-some c d rows v t in
    let (same, least) = Later-used d e l in
    (
      omega (arith, room, h),
      row-value c d rows i v t,
      λ j clash. absurd (
          apart (c.used + i) (e.used + j) (omega (arith, least, used, h)) (
            value-injective c.block (c.used + i) (e.used + j) moving (
              sym (row-value c d rows i v t)
              ∙ clash
              ∙ row-value e f more j w u
              ∙ ap (λ b. value b (e.used + j)) (same ∙ kept)))),
    )
  where
    apart : (m n : ℕ) → m < n → m ≢ n
    apart m n p q = omega (arith, p, q)
