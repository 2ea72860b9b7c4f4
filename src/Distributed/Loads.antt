-- ===== src/Distributed/Loads.antt =====
-- The groups of `balance` are of roughly equal size: the loads of two bins are never further apart
-- than the largest split.
use mathlib.Core.Path.{subst}
use deltaswamp.Prelude.{
  ==_iff, All, Bool, Bool-cases, List, [], arith, false, inl, inr, is_empty, leb, length, ltb, not,
  refl, select, suc, sym, true, zero, ℕ, ◌&&◌, ◌++◌, ◌+◌, ◌<◌, ◌==◌, ◌||◌, ◌∙◌, ◌∷◌, ◌≡◌, ◌≤◌,
}
use deltaswamp.Distributed.Balance.{
  Heap, append_at, balance, bin_count, comes_before, empty_bins, idle, insert_split, place_all,
  push, sort_splits, total,
}
use deltaswamp.Distributed.Parts.{All-push, Inside, idle-below, length-append_at, length-empty_bins}
use deltaswamp.Reference.Split.{Text}

-- The heap's entries are in order, and no bin has two.
abbrev IsSorted : Heap → Type 0
IsSorted [] = Unit {0}
IsSorted ((l, i) ∷ heap) = All (λ (e : ℕ × ℕ). l ≤ e.0) heap × IsSorted heap

abbrev Apart : Heap → Type 0
Apart [] = Unit {0}
Apart ((l, i) ∷ heap) = All (λ (e : ℕ × ℕ). (e.1 == i) ≡ false) heap × Apart heap

unfoldable pub covers : ℕ → Heap → Bool
covers j [] = false
covers j ((l, i) ∷ heap) = (i == j) || covers j heap

All-le :
    (k l : ℕ) (heap : Heap)
    → k ≤ l
    → All (λ (e : ℕ × ℕ). l ≤ e.0) heap
    → All (λ (e : ℕ × ℕ). k ≤ e.0) heap
All-le k l [] h a = tt
All-le k l (e ∷ heap) h a = (omega (arith, a.0), All-le k l heap h a.1)

push-IsSorted : (load bin : ℕ) (heap : Heap) → IsSorted heap → IsSorted (push load bin heap)
unfolding push
push-IsSorted load bin [] s = (tt, tt)
push-IsSorted load bin ((l, i) ∷ heap) s =
    elim (Bool-cases (ltb load l || ((load == l) && leb bin i))) [
      | inl e ↦
          (let below : load ≤ l = ground (arith, e) in
            rw e ((below, All-le load l heap below s.0), s))
      | inr e ↦
          (let above : l ≤ load = ground (arith, e) in
            rw e (All-push (λ e. l ≤ e.0) load bin heap above s.0, push-IsSorted load bin heap s.1))
    ]

push-Apart :
    (load bin : ℕ) (heap : Heap)
    → All (λ (e : ℕ × ℕ). (e.1 == bin) ≡ false) heap
    → Apart heap
    → Apart (push load bin heap)
unfolding push
push-Apart load bin [] h a = (tt, tt)
push-Apart load bin ((l, i) ∷ heap) h a =
    elim (Bool-cases (ltb load l || ((load == l) && leb bin i))) [
      | inl e ↦ rw e (h, a)
      | inr e ↦
          (let other : (bin == i) ≡ false = ground (arith, h.0) in
            rw e (
              All-push (λ e. (e.1 == i) ≡ false) load bin heap other a.0,
              push-Apart load bin heap h.1 a.1,
            ))
    ]

covers-push :
    (j load bin : ℕ) (heap : Heap) → covers j (push load bin heap) ≡ ((bin == j) || covers j heap)
unfolding covers push
covers-push j load bin [] = refl
covers-push j load bin ((l, i) ∷ heap) = ground (arith, covers-push j load bin heap)

All-both {ℓ κ μ} :
    {A : Type ℓ} (P : A → Type κ) (Q : A → Type μ) (xs : List A)
    → All P xs
    → All Q xs
    → All (λ x. P x × Q x) xs
All-both P Q [] h g = tt
All-both P Q (x ∷ xs) h g = ((h.0, g.0), All-both P Q xs h.1 g.1)

All-kept {ℓ κ} :
    {A : Type ℓ} (P : A → Type κ) (p : A → Bool) (xs : List A) → All P xs → All P (select p xs)
unfolding select
All-kept P p [] h = tt
All-kept P p (x ∷ xs) h = elim (Bool-cases (p x)) [
  | inl e ↦ rw e (h.0, All-kept P p xs h.1)
  | inr e ↦ rw e (All-kept P p xs h.1)
]

-- What holds of every entry holds of the entry of a covered bin.
covered_entry {κ} :
    (P : ℕ × ℕ → Type κ) (j : ℕ) (heap : Heap)
    → covers j heap ≡ true
    → All P heap
    → (load : ℕ) × P (load, j)
unfolding covers
covered_entry P j [] c a = cc
covered_entry P j ((l, i) ∷ heap) c a = elim (Bool-cases (i == j)) [
  | inl e ↦ (l, subst (λ k. P (l, k)) ((==_iff i j).0 e) a.0)
  | inr e ↦ covered_entry P j heap (ground (arith, e)) a.1
]

idle-All {κ} :
    (P : ℕ × ℕ → Type κ) (start count : ℕ)
    → ((i : ℕ) → start ≤ i → P (0, i))
    → All P (idle start count)
unfolding idle
idle-All P start zero h = tt
idle-All P start (suc count) h =
    (h start (omega arith), idle-All P (start + 1) count (λ i g. h i (omega arith)))

idle-IsSorted : (start count : ℕ) → IsSorted (idle start count)
unfolding idle
idle-IsSorted start zero = tt
idle-IsSorted start (suc count) = (
  idle-All (λ e. 0 ≤ e.0) (start + 1) count (λ i g. omega arith),
  idle-IsSorted (start + 1) count,
)

idle-Apart : (start count : ℕ) → Apart (idle start count)
unfolding idle
idle-Apart start zero = tt
idle-Apart start (suc count) = (
  idle-All (λ e. (e.1 == start) ≡ false) (start + 1) count (λ i g. ground arith),
  idle-Apart (start + 1) count,
)

idle-covers :
    (start count j : ℕ) → start ≤ j → j < start + count → covers j (idle start count) ≡ true
unfolding idle covers
idle-covers start zero j h g = absurd (omega arith)
idle-covers start (suc count) j h g = ground (arith, idle-covers (start + 1) count j)

module _ {ℓ} {A : Type ℓ} (size : A → ℕ) where
  -- The load of a bin by its index.
  unfoldable pub total_at : List (List A) → ℕ → ℕ
  unfolding total
  total_at [] i = 0
  total_at (b ∷ bins) zero = total size b
  total_at (b ∷ bins) (suc i) = total_at bins i

  total-append : (xs ys : List A) → total size (xs ++ ys) ≡ total size xs + total size ys
  unfolding total
  total-append [] ys = omega arith
  total-append (a ∷ rest) ys = omega (arith, total-append rest ys)

  total_at-append_at :
      (i : ℕ) (split : A) (bins : List (List A))
      → i < length bins
      → total_at (append_at i split bins) i ≡ total_at bins i + size split
  unfolding total_at append_at total
  total_at-append_at i split [] h = absurd (omega arith)
  total_at-append_at zero split (b ∷ bins) h = omega (arith, total-append b (split ∷ []))
  total_at-append_at (suc i) split (b ∷ bins) h = total_at-append_at i split bins (omega arith)

  total_at-append_at_ne :
      (i j : ℕ) (split : A) (bins : List (List A))
      → (j == i) ≡ false
      → total_at (append_at i split bins) j ≡ total_at bins j
  unfolding total_at append_at
  total_at-append_at_ne i j split [] h = refl
  total_at-append_at_ne zero zero split (b ∷ bins) h = absurd (ground (arith, h))
  total_at-append_at_ne zero (suc j) split (b ∷ bins) h = refl
  total_at-append_at_ne (suc i) zero split (b ∷ bins) h = refl
  total_at-append_at_ne (suc i) (suc j) split (b ∷ bins) h =
      total_at-append_at_ne i j split bins (ground (arith, h))

  -- The heap tells the load of every bin, and no two loads are more than `most` apart.
  record Balanced (most : ℕ) (bins : List (List A)) (heap : Heap) : Type 0 where
    sorted : IsSorted heap
    distinct : Apart heap
    right : All (λ (e : ℕ × ℕ). total_at bins e.1 ≡ e.0) heap
    inside : Inside bins heap
    covered : (j : ℕ) → j < length bins → covers j heap ≡ true
    least : ℕ
    within : All (λ (e : ℕ × ℕ). (least ≤ e.0) × (e.0 ≤ least + most)) heap

  right-append_at :
      (target : ℕ) (split : A) (bins : List (List A)) (heap : Heap)
      → All (λ (e : ℕ × ℕ). (e.1 == target) ≡ false) heap
      → All (λ (e : ℕ × ℕ). total_at bins e.1 ≡ e.0) heap
      → All (λ (e : ℕ × ℕ). total_at (append_at target split bins) e.1 ≡ e.0) heap
  right-append_at target split bins [] a r = tt
  right-append_at target split bins ((l, i) ∷ heap) a r = (
    total_at-append_at_ne target i split bins a.0 ∙ r.0,
    right-append_at target split bins heap a.1 r.1,
  )

  within-head :
      (load least most : ℕ) (heap : Heap)
      → least ≤ load
      → All (λ (e : ℕ × ℕ). load ≤ e.0) heap
      → All (λ (e : ℕ × ℕ). (least ≤ e.0) × (e.0 ≤ least + most)) heap
      → All (λ (e : ℕ × ℕ). (load ≤ e.0) × (e.0 ≤ load + most)) heap
  within-head load least most [] h s w = tt
  within-head load least most (e ∷ heap) h s w =
      ((s.0, omega (arith, w.0.1)), within-head load least most heap h s.1 w.1)

  append_at-Balanced :
      (most load target : ℕ) (split : A) (bins : List (List A)) (heap : Heap)
      → size split ≤ most
      → Balanced most bins ((load, target) ∷ heap)
      → Balanced most (append_at target split bins) (push (load + size split) target heap)
  unfolding covers
  append_at-Balanced most load target split bins heap h b =
      let added = load + size split in
      let bins' = append_at target split bins in
      let same = length-append_at target split bins in
      record {
        sorted = push-IsSorted added target heap b.sorted.1;
        distinct = push-Apart added target heap b.distinct.0 b.distinct.1;
        right =
            All-push (λ e. total_at bins' e.1 ≡ e.0) added target heap
              (omega (arith, total_at-append_at target split bins b.inside.0, b.right.0))
              (right-append_at target split bins heap b.distinct.0 b.right.1);
        inside =
            All-push (λ e. e.1 < length bins') added target heap (omega (arith, b.inside.0, same))
              (subst (λ k. All (λ (e : ℕ × ℕ). e.1 < k) heap) (sym same) b.inside.1);
        covered = λ j g. covers-push j added target heap ∙ b.covered j (omega (arith, same));
        least = load;
        within =
            All-push (λ e. (load ≤ e.0) × (e.0 ≤ load + most)) added target heap
              (omega arith, omega arith)
              (within-head load b.least most heap b.within.0.0 b.sorted.0 b.within.1);
      }

  -- Every bin's load is within `most` of a least one.
  abbrev IsLevel : ℕ → ℕ → List (List A) → Type 0
  IsLevel least most bins =
      (j : ℕ) → j < length bins → (least ≤ total_at bins j) × (total_at bins j ≤ least + most)

  IsLevel-All :
      (least most : ℕ) (bins : List (List A))
      → IsLevel least most bins
      → All (λ (b : List A). (least ≤ total size b) × (total size b ≤ least + most)) bins
  unfolding total_at
  IsLevel-All least most [] h = tt
  IsLevel-All least most (b ∷ bins) h =
      (h 0 (omega arith), IsLevel-All least most bins (λ j g. h (suc j) (omega arith)))

  Balanced-IsLevel :
      (most : ℕ) (bins : List (List A)) (heap : Heap) (b : Balanced most bins heap)
      → IsLevel b.least most bins
  Balanced-IsLevel most bins heap b j g =
      let both =
        All-both (λ e. total_at bins e.1 ≡ e.0) (λ e. (b.least ≤ e.0) × (e.0 ≤ b.least + most)) heap
          b.right b.within in
      let (load, both_here) =
        covered_entry (λ e. (total_at bins e.1 ≡ e.0) × ((b.least ≤ e.0) × (e.0 ≤ b.least + most)))
          j heap (b.covered j g) both in
      omega (arith, both_here.0, both_here.1.0, both_here.1.1)

  total_at-empty_bins : (count j : ℕ) → total_at (empty_bins count) j ≡ 0
  unfolding total_at empty_bins total
  total_at-empty_bins zero j = refl
  total_at-empty_bins (suc count) zero = refl
  total_at-empty_bins (suc count) (suc j) = total_at-empty_bins count j

  idle-Balanced : (most count : ℕ) → Balanced most (empty_bins count) (idle 0 count)
  idle-Balanced most count =
      let same = length-empty_bins A count in
      record {
        sorted = idle-IsSorted 0 count;
        distinct = idle-Apart 0 count;
        right =
            idle-All (λ e. total_at (empty_bins count) e.1 ≡ e.0) 0 count
              (λ i g. total_at-empty_bins count i);
        inside =
            subst (λ k. All (λ (e : ℕ × ℕ). e.1 < k) (idle 0 count)) (sym same)
              (idle-below 0 count count (omega arith));
        covered = λ j g. idle-covers 0 count j (omega arith) (omega (arith, same));
        least = 0;
        within =
            idle-All (λ e. (0 ≤ e.0) × (e.0 ≤ 0 + most)) 0 count
              (λ i g. (omega arith, omega arith));
      }

  place_all-IsLevel :
      (path : A → Text) (most : ℕ) (splits : List A) (bins : List (List A)) (heap : Heap)
      → All (λ s. size s ≤ most) splits
      → Balanced most bins heap
      → (least : ℕ) × IsLevel least most (place_all size path splits bins heap)
  unfolding place_all
  place_all-IsLevel path most [] bins heap h b = (b.least, Balanced-IsLevel most bins heap b)
  place_all-IsLevel path most (split ∷ splits) bins [] h b =
      (b.least, Balanced-IsLevel most bins [] b)
  place_all-IsLevel path most (split ∷ splits) bins ((load, target) ∷ heap) h b =
      place_all-IsLevel path most splits (append_at target split bins)
        (push (load + size split) target heap) h.1
        (append_at-Balanced most load target split bins heap h.0 b)

  All-insert_split :
      (path : A → Text) (most : ℕ) (a : A) (bs : List A)
      → size a ≤ most
      → All (λ s. size s ≤ most) bs
      → All (λ s. size s ≤ most) (insert_split size path a bs)
  unfolding insert_split
  All-insert_split path most a [] h g = (h, tt)
  All-insert_split path most a (b ∷ bs) h g = elim (Bool-cases (comes_before size path b a)) [
    | inl e ↦ rw e (g.0, All-insert_split path most a bs h g.1)
    | inr e ↦ rw e (h, g)
  ]

  All-sort_splits :
      (path : A → Text) (most : ℕ) (splits : List A)
      → All (λ s. size s ≤ most) splits
      → All (λ s. size s ≤ most) (sort_splits size path splits)
  unfolding sort_splits
  All-sort_splits path most [] h = tt
  All-sort_splits path most (a ∷ rest) h =
      All-insert_split path most a (sort_splits size path rest) h.0
        (All-sort_splits path most rest h.1)

  abbrev IsNear : ℕ → ℕ → List A → Type 0
  IsNear least most b = (least ≤ total size b) × (total size b ≤ least + most)

  near-pairs :
      (least most : ℕ) (b : List A) (bins : List (List A))
      → IsNear least most b
      → All (IsNear least most) bins
      → All (λ c. total size b ≤ total size c + most) bins
  near-pairs least most b [] h a = tt
  near-pairs least most b (c ∷ bins) h a =
      (omega (arith, h.1, a.0.0), near-pairs least most b bins h a.1)

  near-bins :
      (least most : ℕ) (bins others : List (List A))
      → All (IsNear least most) bins
      → All (IsNear least most) others
      → All (λ b. All (λ c. total size b ≤ total size c + most) others) bins
  near-bins least most [] others h a = tt
  near-bins least most (b ∷ bins) others h a =
      (near-pairs least most b others h.0 a, near-bins least most bins others h.1 a)

  -- The bytes of any two groups that `balance` makes differ by no more than the largest split has:
  -- no group has more than another's bytes and `most`, where no split has more than `most`.
  pub balance-loads :
      (path : A → Text) (splits : List A) (n most : ℕ)
      → All (λ s. size s ≤ most) splits
      → All
          (λ b. All (λ c. total size b ≤ total size c + most) (balance size path splits n))
          (balance size path splits n)
  unfolding balance
  balance-loads path splits n most h =
      let items = sort_splits size path splits in
      let count = bin_count n (length items) in
      let bins = place_all size path items (empty_bins count) (idle 0 count) in
      elim (Bool-cases (is_empty items)) [
        | inl e ↦ rw e tt
        | inr e ↦
            (let (least, level) =
                place_all-IsLevel path most items (empty_bins count) (idle 0 count)
                  (All-sort_splits path most splits h) (idle-Balanced most count) in
              let kept =
                All-kept (IsNear least most) (λ b. not (is_empty b)) bins
                  (IsLevel-All least most bins level) in
              rw e (
                near-bins least most (select (λ b. not (is_empty b)) bins)
                  (select (λ b. not (is_empty b)) bins) kept kept))
      ]
