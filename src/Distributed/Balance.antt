-- ===== src/Distributed/Balance.antt =====
-- Splits of a scan grouped for its workers (python/deltaswamp/distributed.py: balance and
-- ScanPlan.partitions). Of a split only its size and path are read.
use deltaswamp.Prelude.{
  Bool, List, Option, [], false, if◌then◌else◌, is_empty, leb, length, ltb, none, not, select, some,
  suc, true, zero, ℕ, ◌&&◌, ◌++◌, ◌+◌, ◌==◌, ◌||◌, ◌∷◌,
}
use deltaswamp.Prelude.Int.{negsuc, pos, ℤ}
use deltaswamp.Reference.Split.{Text}
use deltaswamp.Router.Order.{count}

-- `a < b` on texts, by their code points.
unfoldable pub text_lt : Text → Text → Bool
text_lt [] [] = false
text_lt [] (d ∷ ds) = true
text_lt (c ∷ cs) [] = false
text_lt (c ∷ cs) (d ∷ ds) = ltb c d || ((c == d) && text_lt cs ds)

-- An entry of the heap: a bin's load and its index. The heap is the list of its entries in order,
-- so the least, which `heappop` gives, is the head.
abbrev pub Heap : Type 0
Heap = List (ℕ × ℕ)

-- `heappush`
unfoldable pub push : ℕ → ℕ → Heap → Heap
push load bin [] = (load, bin) ∷ []
push load bin ((l, i) ∷ heap) =
    if ltb load l || ((load == l) && leb bin i)
    then (load, bin) ∷ (l, i) ∷ heap
    else (l, i) ∷ push load bin heap

-- `[(0, i) for i in range(count)]`, from an index on.
unfoldable pub idle : ℕ → ℕ → Heap
idle start zero = []
idle start (suc count) = (0, start) ∷ idle (start + 1) count

-- `bins[target].append(split)`
unfoldable pub append_at {ℓ} : {A : Type ℓ} → ℕ → A → List (List A) → List (List A)
append_at i split [] = []
append_at zero split (b ∷ bins) = (b ++ split ∷ []) ∷ bins
append_at (suc i) split (b ∷ bins) = b ∷ append_at i split bins

-- `[[] for _ in range(count)]`
unfoldable pub empty_bins {ℓ} : {A : Type ℓ} → ℕ → List (List A)
empty_bins zero = []
empty_bins (suc count) = [] ∷ empty_bins count

-- `max(1, min(n, len(items)))`
unfoldable pub bin_count : ℕ → ℕ → ℕ
bin_count n items = let least = if ltb items n then items else n in if ltb least 1 then 1 else least

-- `sum(s.size for s in splits)`, as in ScanPlan.total_bytes.
unfoldable pub total {ℓ} : {A : Type ℓ} → (A → ℕ) → List A → ℕ
total size [] = 0
total size (a ∷ rest) = size a + total size rest

module _ {ℓ} {A : Type ℓ} (size : A → ℕ) (path : A → Text) where
  -- `(-a.size, a.path) < (-b.size, b.path)`
  unfoldable pub comes_before : A → A → Bool
  unfolding text_lt
  comes_before a b = ltb (size b) (size a) || ((size a == size b) && text_lt (path a) (path b))

  -- `sorted`, which keeps the order of equals: an item goes in front of the first that is not less.
  unfoldable pub insert_split : A → List A → List A
  unfolding comes_before
  insert_split a [] = a ∷ []
  insert_split a (b ∷ bs) = if comes_before b a then b ∷ insert_split a bs else a ∷ b ∷ bs

  unfoldable pub sort_splits : List A → List A
  unfolding insert_split
  sort_splits [] = []
  sort_splits (a ∷ rest) = insert_split a (sort_splits rest)

  -- The loop over the splits: each goes to the bin of the least load.
  unfoldable pub place_all : List A → List (List A) → Heap → List (List A)
  unfolding append_at push
  place_all [] bins heap = bins
  place_all (split ∷ splits) bins [] = bins
  place_all (split ∷ splits) bins ((load, target) ∷ heap) =
      place_all splits (append_at target split bins) (push (load + size split) target heap)

  unfoldable pub balance : List A → ℕ → List (List A)
  unfolding sort_splits bin_count empty_bins idle place_all select
  balance splits n =
      let items = sort_splits splits in
      let count = bin_count n (length items) in
      if is_empty items
      then []
      else select (λ b. not (is_empty b)) (place_all items (empty_bins count) (idle 0 count))

  -- `ScanPlan.partitions`; `none` refuses a number that is not positive.
  unfoldable pub partitions : List A → ℤ → Option (List (List A))
  unfolding balance
  partitions splits (pos zero) = none
  partitions splits (pos (suc n)) = some (balance splits (suc n))
  partitions splits (negsuc n) = none
