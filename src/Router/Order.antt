-- ===== src/Router/Order.antt =====
-- The order of preference asks the engines of the operation, each as often as its chain has it.
use deltaswamp.Prelude.{
  Bool-cases, List, [], arith, false, if◌then◌else◌, inl, inr, not, select, true, ℕ, ◌+◌, ◌<◌, ◌∷◌,
  ◌≡◌, ◌≤◌, ◌⊎◌,
}
use deltaswamp.Capability.Names.{
  Engine, Operation, deltars, iceberg, kernel, same_engine, scan, sharing, sql,
}
use deltaswamp.Capability.Routing.{operation_engines}
use deltaswamp.Router.Preference.{kernel_first, preference, prefers_kernel}
use deltaswamp.Router.Types.{Router, has_engine}
use deltaswamp.Table.{ResolvedTable}

abbrev pub count : Engine → List Engine → ℕ
count k [] = 0
count k (j ∷ js) = (if same_engine k j then 1 else 0) + count k js

count-select :
    (k : Engine) (engines : List Engine)
    → count k (select (λ j. not (same_engine j kernel)) engines)
      ≡ (if same_engine k kernel then 0 else count k engines)
unfolding select same_engine
count-select k [] = ground arith
count-select kernel (kernel ∷ js) = ground (arith, count-select kernel js)
count-select k (j ∷ js) = ground (arith, count-select k js)

-- In the chain of every operation the kernel stands at most once.
count-operation_engines : (operation : Operation) → count kernel (operation_engines operation) ≤ 1
unfolding operation_engines same_engine
count-operation_engines scan = omega arith
count-operation_engines _ = omega arith

has_engine-count :
    (engines : List Engine) → has_engine kernel engines ≡ true → 0 < count kernel engines
unfolding has_engine same_engine
has_engine-count [] h = cc
has_engine-count (kernel ∷ js) h = omega arith
has_engine-count (deltars ∷ js) h = omega (arith, has_engine-count js h)
has_engine-count (sql ∷ js) h = omega (arith, has_engine-count js h)
has_engine-count (sharing ∷ js) h = omega (arith, has_engine-count js h)
has_engine-count (iceberg ∷ js) h = omega (arith, has_engine-count js h)

count-kernel_first :
    (k : Engine) (engines : List Engine)
    → has_engine kernel engines ≡ true
    → count kernel engines ≤ 1
    → count k (kernel_first engines) ≡ count k engines
unfolding kernel_first same_engine
count-kernel_first kernel engines h one =
    omega (arith, count-select kernel engines, has_engine-count engines h)
count-kernel_first deltars engines h one = omega (arith, count-select deltars engines)
count-kernel_first sql engines h one = omega (arith, count-select sql engines)
count-kernel_first sharing engines h one = omega (arith, count-select sharing engines)
count-kernel_first iceberg engines h one = omega (arith, count-select iceberg engines)

preference-count_at :
    (router : Router) (operation : Operation) (table : ResolvedTable) (k : Engine)
    → count k (preference router operation table (operation_engines operation))
      ≡ count k (operation_engines operation)
unfolding preference
preference-count_at router operation table k =
    ground
      (arith, count-kernel_first k (operation_engines operation), count-operation_engines operation)

kernel_leads :
    (router : Router) (operation : Operation) (table : ResolvedTable)
    → (has_engine kernel (operation_engines operation) ≡ false)
      ⊎ (prefers_kernel router operation table ≡ false)
      ⊎ ((rest : List Engine) × (preference router operation table (operation_engines operation)
            ≡ kernel ∷ rest))
unfolding preference kernel_first
kernel_leads router operation table =
    elim (Bool-cases (has_engine kernel (operation_engines operation))) [
      | inr h ↦ inl h
      | inl h ↦ elim (Bool-cases (prefers_kernel router operation table)) [
        | inr p ↦ inr (inl p)
        | inl p ↦ inr (
            inr (select (λ k. not (same_engine k kernel)) (operation_engines operation), rw (h, p)))
      ]
    ]

-- The engines that a request asks are those of the operation's chain, each as often, whatever the
-- table; and where the kernel is in the chain and the table prefers it, it is asked first.
pub preference-count :
    (router : Router) (operation : Operation) (table : ResolvedTable)
    → ((k : Engine)
        → count k (preference router operation table (operation_engines operation))
          ≡ count k (operation_engines operation))
      × ((has_engine kernel (operation_engines operation) ≡ false)
          ⊎ (prefers_kernel router operation table ≡ false)
          ⊎ ((rest : List Engine) × (preference router operation table (operation_engines operation)
                ≡ kernel ∷ rest)))
preference-count router operation table =
    (λ k. preference-count_at router operation table k, kernel_leads router operation table)
