-- ===== src/Util/Budget.antt =====
-- The disruption budgets: how many pods must stay available.
pub mod Documents
use atomix_operator.Base.{
  ℕ, zero, suc, ◌/◌, ◌+◌, ◌≤◌, ◌<◌, ◌^◌, ◌≡◌, refl, ap, ◌∙◌, some, arith, ℤ, pos,
}
use atomix_operator.Kube.Meta.{Foreign}
use atomix_operator.Kube.Pod.{int_type}
use atomix_operator.Kube.Platform.{Platform, FromIntKeeps}
use atomix_operator.V1alpha1.Types.{AtomixCluster, PartitionGroup}
use atomix_operator.V1alpha1.Defaults.{or_int, set_defaults_cluster, set_defaults_partition_group}
use atomix_operator.V1alpha1.Defaults.Laws.{defaults-size}
use atomix_operator.Util.Cluster.{majority, new_management_disruption_budget}
use atomix_operator.Util.PartitionGroup.{new_partition_group_disruption_budget}

-- `m` of `n` pods are a majority, and no more than is needed for one.
abbrev pub IsLeastMajority : ℕ → ℕ → Type 0
IsLeastMajority m n = (n < m + m) × (m + m ≤ n + 2) × (m ≤ n)

-- A size of 0 counts as 1.
abbrev pub or_one : ℕ → ℕ
or_one zero = 1
or_one (suc n) = suc n

or_int-pos : (n : ℕ) → or_int (pos n) (pos 1) ≡ pos (or_one n)
or_int-pos zero = refl
or_int-pos (suc n) = refl

or_one_bounds : (n : ℕ) → n < 2 ^ 31 → (0 < or_one n) × (or_one n < 2 ^ 31)
or_one_bounds zero h = (omega arith, omega arith)
or_one_bounds (suc n) h = (omega arith, h)

majority_lem :
    (n : ℕ) → (majority (pos n) ≡ pos (n / 2 + 1)) × (0 < n → IsLeastMajority (n / 2 + 1) n)
majority_lem n = (refl, λ h. (omega arith, omega arith, omega arith))

module _ {F : Foreign} (P : Platform F) (keeps : FromIntKeeps P) where
  -- The budget that `min_available` states for a given size.
  min_available_lem :
      (size : ℤ) (n : ℕ)
      → size ≡ pos n
      → n < 2 ^ 31
      → P.from_int (majority (or_int size (pos 1)))
        ≡ record { type = int_type; int_val = pos (or_one n / 2 + 1); str_val = "" }
  min_available_lem size n e h =
      let b = or_one_bounds n h in
      ap (λ s. P.from_int (majority (or_int s (pos 1)))) e
      ∙ ap (λ s. P.from_int (majority s)) (or_int-pos n)
      ∙ keeps.from_int_lem (pos (or_one n / 2 + 1)) (omega arith)

  -- For a cluster of a size from 0 to 2^31 - 1 the budget, after the defaults, asks for the least
  -- majority of the replicas, which are as many as the size says, and one for the size 0.
  pub management_budget_majority :
      (cluster : AtomixCluster F) (n : ℕ)
      → cluster.spec.size ≡ pos n
      → n < 2 ^ 31
      → (m : ℕ) × ((set_defaults_cluster cluster).spec.size ≡ pos (or_one n))
        × ((new_management_disruption_budget P (set_defaults_cluster cluster)).spec.min_available
            ≡ some (record { type = int_type; int_val = pos m; str_val = "" }))
        × IsLeastMajority m (or_one n)
  unfolding set_defaults_cluster new_management_disruption_budget
  management_budget_majority cluster n e h = (
    or_one n / 2 + 1,
    ap (λ s. or_int s (pos 1)) e ∙ or_int-pos n,
    ap some (min_available_lem _ n e h),
    (majority_lem (or_one n)).1 (or_one_bounds n h).0,
  )

  -- For a partition group of a size from 0 to 2^31 - 1 the budget, after the defaults, asks for the
  -- least majority of the replicas, which are as many as the size says, and one for the size 0.
  pub group_budget_majority :
      (group : PartitionGroup F) (n : ℕ)
      → group.spec.size ≡ pos n
      → n < 2 ^ 31
      → (m : ℕ) × ((set_defaults_partition_group group).spec.size ≡ pos (or_one n))
        × ((new_partition_group_disruption_budget P
              (set_defaults_partition_group group)).spec.min_available
            ≡ some (record { type = int_type; int_val = pos m; str_val = "" }))
        × IsLeastMajority m (or_one n)
  unfolding set_defaults_partition_group new_partition_group_disruption_budget
  group_budget_majority group n e h =
      let size = defaults-size group in
      (
        or_one n / 2 + 1,
        size ∙ ap (λ s. or_int s (pos 1)) e ∙ or_int-pos n,
        ap (λ s. some (P.from_int (majority s))) size ∙ ap some (min_available_lem _ n e h),
        (majority_lem (or_one n)).1 (or_one_bounds n h).0,
      )
