-- ===== src/Distributed/Parts.antt =====
-- `balance` hands every split to exactly one worker.
use mathlib.Core.List.{Perm, append-nil, append_assoc, flatten, perm_middle}
use mathlib.Core.List.Perm
use mathlib.Core.Path.{subst}
use deltaswamp.Prelude.{
  All, Bool, Bool-cases, List, [], ap, arith, false, inl, inr, is_empty, leb, length, ltb, not,
  refl, select, suc, sym, true, zero, ℕ, ◌&&◌, ◌++◌, ◌+◌, ◌<◌, ◌==◌, ◌||◌, ◌∙◌, ◌∷◌, ◌≡◌, ◌≤◌,
}
use deltaswamp.Distributed.Balance.{
  Heap, append_at, balance, bin_count, comes_before, empty_bins, idle, insert_split, place_all,
  push, sort_splits,
}
use deltaswamp.Reference.Split.{Text}

-- The entries of a heap name bins that there are.
abbrev pub Inside {ℓ} : {A : Type ℓ} → List (List A) → Heap → Type 0
Inside bins heap = All (λ (e : ℕ × ℕ). e.1 < length bins) heap

pub All-push {κ} :
    (P : ℕ × ℕ → Type κ) (load bin : ℕ) (heap : Heap)
    → P (load, bin)
    → All P heap
    → All P (push load bin heap)
unfolding push
All-push P load bin [] p h = (p, tt)
All-push P load bin ((l, i) ∷ heap) p h =
    elim (Bool-cases (ltb load l || ((load == l) && leb bin i))) [
      | inl e ↦ rw e (p, h)
      | inr e ↦ rw e (h.0, All-push P load bin heap p h.1)
    ]

pub length-append_at {ℓ} :
    {A : Type ℓ} (i : ℕ) (split : A) (bins : List (List A))
    → length (append_at i split bins) ≡ length bins
unfolding append_at
length-append_at i split [] = refl
length-append_at zero split (b ∷ bins) = refl
length-append_at (suc i) split (b ∷ bins) = ap suc (length-append_at i split bins)

-- The heap is never empty, so each split finds a bin.
push-IsFull : (load bin : ℕ) (heap : Heap) → is_empty (push load bin heap) ≡ false
unfolding push
push-IsFull load bin [] = refl
push-IsFull load bin ((l, i) ∷ heap) = ground arith

append_at-perm {ℓ} :
    {A : Type ℓ} (i : ℕ) (split : A) (bins : List (List A))
    → i < length bins
    → Perm (flatten (append_at i split bins)) (split ∷ flatten bins)
unfolding append_at flatten
append_at-perm i split [] h = absurd (omega arith)
append_at-perm zero split (b ∷ bins) h = rw append_assoc (perm_middle b (flatten bins))
append_at-perm (suc i) split (b ∷ bins) h =
    Perm.trans (Perm.append_left b (append_at-perm i split bins (omega arith)))
      (perm_middle b (flatten bins))

module _ {ℓ} {A : Type ℓ} (size : A → ℕ) (path : A → Text) where
  insert_split-perm : (a : A) (bs : List A) → Perm (insert_split size path a bs) (a ∷ bs)
  unfolding insert_split
  insert_split-perm a [] = Perm.rfl
  insert_split-perm a (b ∷ bs) = elim (Bool-cases (comes_before size path b a)) [
    | inl e ↦ rw e (Perm.trans (Perm.cons b (insert_split-perm a bs)) (Perm.swap a b bs))
    | inr e ↦ rw e Perm.rfl
  ]

  pub sort_splits-perm : (splits : List A) → Perm (sort_splits size path splits) splits
  unfolding sort_splits
  sort_splits-perm [] = Perm.rfl
  sort_splits-perm (a ∷ rest) =
      Perm.trans (insert_split-perm a (sort_splits size path rest))
        (Perm.cons a (sort_splits-perm rest))

  place_all-perm :
      (splits : List A) (bins : List (List A)) (heap : Heap)
      → is_empty heap ≡ false
      → Inside bins heap
      → Perm (flatten (place_all size path splits bins heap)) (splits ++ flatten bins)
  unfolding place_all
  place_all-perm [] bins heap busy h = Perm.rfl
  place_all-perm (split ∷ splits) bins [] busy h = cc
  place_all-perm (split ∷ splits) bins ((load, target) ∷ heap) busy h =
      let bins' = append_at target split bins in
      let same = length-append_at target split bins in
      let inside =
        All-push (λ e. e.1 < length bins') (load + size split) target heap
          (omega (arith, h.0, same))
          (subst (λ k. All (λ (e : ℕ × ℕ). e.1 < k) heap) (sym same) h.1) in
      let rest =
        place_all-perm splits bins' (push (load + size split) target heap)
          (push-IsFull (load + size split) target heap) inside in
      Perm.trans rest (
        Perm.trans (Perm.append_left splits (append_at-perm target split bins h.0))
          (perm_middle splits (flatten bins)))

  place_all-length :
      (splits : List A) (bins : List (List A)) (heap : Heap)
      → length (place_all size path splits bins heap) ≡ length bins
  unfolding place_all
  place_all-length [] bins heap = refl
  place_all-length (split ∷ splits) bins [] = refl
  place_all-length (split ∷ splits) bins ((load, target) ∷ heap) =
      place_all-length splits (append_at target split bins) (push (load + size split) target heap)
      ∙ length-append_at target split bins

empty_bins-flatten {ℓ} : {A : Type ℓ} (count : ℕ) → flatten (empty_bins {A = A} count) ≡ []
unfolding empty_bins flatten
empty_bins-flatten zero = refl
empty_bins-flatten {A} (suc count) = empty_bins-flatten {A = A} count

pub length-empty_bins {ℓ} : (A : Type ℓ) (count : ℕ) → length (empty_bins {A = A} count) ≡ count
unfolding empty_bins
length-empty_bins A zero = refl
length-empty_bins A (suc count) = ap suc (length-empty_bins A count)

pub idle-below :
    (start count n : ℕ) → start + count ≤ n → All (λ (e : ℕ × ℕ). e.1 < n) (idle start count)
unfolding idle
idle-below start zero n h = tt
idle-below start (suc count) n h = (omega arith, idle-below (start + 1) count n (omega arith))

pub idle-IsFull : (count : ℕ) → 0 < count → is_empty (idle 0 count) ≡ false
unfolding idle
idle-IsFull zero h = absurd (omega arith)
idle-IsFull (suc count) h = refl

flatten-select {ℓ} :
    {A : Type ℓ} (bins : List (List A))
    → flatten (select (λ b. not (is_empty b)) bins) ≡ flatten bins
unfolding flatten select
flatten-select [] = refl
flatten-select ([] ∷ bins) = flatten-select bins
flatten-select ((a ∷ b) ∷ bins) = ap (λ l. (a ∷ b) ++ l) (flatten-select bins)

length-select-le {ℓ} : {A : Type ℓ} (p : A → Bool) (xs : List A) → length (select p xs) ≤ length xs
unfolding select
length-select-le p [] = omega arith
length-select-le p (x ∷ xs) = ground (arith, length-select-le p xs)

pub All-select {ℓ} : {A : Type ℓ} (p : A → Bool) (xs : List A) → All (λ x. p x ≡ true) (select p xs)
unfolding select
All-select p [] = tt
All-select p (x ∷ xs) = elim (Bool-cases (p x)) [
  | inl e ↦ rw e (e, All-select p xs)
  | inr e ↦ rw e (All-select p xs)
]

nil_of_is_empty {ℓ} : {A : Type ℓ} (xs : List A) → is_empty xs ≡ true → xs ≡ []
nil_of_is_empty [] e = refl
nil_of_is_empty (x ∷ xs) e = cc

pub bin_count_bounds : (n items : ℕ) → (0 < bin_count n items) × (0 < n → bin_count n items ≤ n)
unfolding bin_count
bin_count_bounds n items = (ground arith, λ h. ground arith)

module _ {ℓ} {A : Type ℓ} (size : A → ℕ) (path : A → Text) where
  all_placed :
      (items : List A) (count : ℕ)
      → 0 < count
      → Perm (flatten (place_all size path items (empty_bins count) (idle 0 count))) items
  all_placed items count h =
      let inside =
        subst (λ k. All (λ (e : ℕ × ℕ). e.1 < k) (idle 0 count)) (sym (length-empty_bins A count))
          (idle-below 0 count count (omega arith)) in
      subst (Perm (flatten (place_all size path items (empty_bins count) (idle 0 count))))
        (ap (λ l. items ++ l) (empty_bins-flatten {A = A} count) ∙ append-nil items)
        (place_all-perm size path items (empty_bins count) (idle 0 count) (idle-IsFull count h)
          inside)

  -- The groups that `balance` makes hold each split exactly once, no group is empty, and there are
  -- at most `n` of them, where `n` is positive.
  pub balance-parts :
      (splits : List A) (n : ℕ)
      → 0 < n
      → Perm (flatten (balance size path splits n)) splits
        × All (λ b. not (is_empty b) ≡ true) (balance size path splits n)
        × (length (balance size path splits n) ≤ n)
  unfolding balance flatten
  balance-parts splits n h =
      let items = sort_splits size path splits in
      let count = bin_count n (length items) in
      let bins = place_all size path items (empty_bins count) (idle 0 count) in
      let bounds = bin_count_bounds n (length items) in
      elim (Bool-cases (is_empty items)) [
        | inl e ↦ rw e (
          subst (λ l. Perm l splits) (nil_of_is_empty items e) (sort_splits-perm size path splits),
          tt,
          omega arith,
        )
        | inr e ↦ rw e (
          subst (λ l. Perm l splits) (sym (flatten-select bins))
              (Perm.trans (all_placed items count bounds.0) (sort_splits-perm size path splits)),
          All-select (λ b. not (is_empty b)) bins,
          omega (
            arith,
            length-select-le (λ b. not (is_empty b)) bins,
            place_all-length size path items (empty_bins count) (idle 0 count),
            length-empty_bins A count,
            bounds.1 h,
          ),
        )
      ]
