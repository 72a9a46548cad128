-- ===== src/V1alpha1/DeepCopy/Heap.antt =====
-- The memory: cells at addresses, each with the value of one Go type, and commands that may fail at
-- an address without such a value, which a Go pointer that is not nil never is.
use atomix_operator.Base.{ℕ, suc, String, Option, none, some, List, nat_eq, ◌≡◌, if◌then◌else◌}
use atomix_operator.V1alpha1.Types.{Compaction, PrimaryBackupPartitionGroup}
use atomix_operator.V1alpha1.DeepCopy.Structs.{
  StorageOf, PersistentPartitionGroupOf, RaftPartitionGroupOf, LogPartitionGroupOf, ClusterSpecOf,
  PartitionGroupSpecOf, BenchmarkSpecOf, Status, ResourceOf, ResourceListOf,
}

-- The structs of the vendored packages in memory, and what these packages keep behind pointers.
pub record Vendored : Type 1 where
  pub EnvVar : Type 0
  pub ResourceRequirements : Type 0
  pub ObjectMeta : Type 0
  pub Kept : Type 0

abbrev pub Addr : Type 0
Addr = ℕ

abbrev pub AtomixClusterList : Type 0
AtomixClusterList = ResourceListOf Addr

abbrev pub PartitionGroupList : Type 0
PartitionGroupList = ResourceListOf Addr

abbrev pub AtomixBenchmarkList : Type 0
AtomixBenchmarkList = ResourceListOf Addr

module _ (V : Vendored) where
  abbrev pub ClusterSpec : Type 0
  ClusterSpec = ClusterSpecOf Addr Addr V.ResourceRequirements

  abbrev pub PartitionGroupSpec : Type 0
  PartitionGroupSpec = PartitionGroupSpecOf Addr V.ResourceRequirements Addr Addr Addr

  abbrev pub BenchmarkSpec : Type 0
  BenchmarkSpec = BenchmarkSpecOf Addr V.ResourceRequirements

  abbrev pub AtomixCluster : Type 0
  AtomixCluster = ResourceOf V.ObjectMeta ClusterSpec

  abbrev pub PartitionGroup : Type 0
  PartitionGroup = ResourceOf V.ObjectMeta PartitionGroupSpec

  abbrev pub AtomixBenchmark : Type 0
  AtomixBenchmark = ResourceOf V.ObjectMeta BenchmarkSpec

  -- A slice is the address of its array, which holds the elements.
  pub data Cell : Type 0 where
    string_cell : String → Cell
    env_cell : List V.EnvVar → Cell
    storage_cell : StorageOf Addr → Cell
    compaction_cell : Compaction → Cell
    persistent_cell : PersistentPartitionGroupOf Addr → Cell
    raft_cell : RaftPartitionGroupOf Addr → Cell
    backup_cell : PrimaryBackupPartitionGroup → Cell
    log_cell : LogPartitionGroupOf Addr → Cell
    status_cell : Status → Cell
    cluster_spec_cell : ClusterSpec → Cell
    cluster_cell : AtomixCluster → Cell
    clusters_cell : List AtomixCluster → Cell
    group_spec_cell : PartitionGroupSpec → Cell
    group_cell : PartitionGroup → Cell
    groups_cell : List PartitionGroup → Cell
    benchmark_spec_cell : BenchmarkSpec → Cell
    benchmark_cell : AtomixBenchmark → Cell
    benchmarks_cell : List AtomixBenchmark → Cell
    list_cell : ResourceListOf Addr → Cell
    kept_cell : V.Kept → Cell

  -- How a type stands in a cell.
  pub record CellType (T : Type 0) : Type 0 where
    pub inject : T → Cell
    pub project : Cell → Option T
    pub project-inject : (x : T) → project (inject x) ≡ some x

  pub record Heap : Type 0 where
    -- No address from here on is in use.
    pub next : Addr
    pub cell : Addr → Option Cell

  abbrev pub M : Type 0 → Type 0
  M A = Heap → Option (Heap × A)

module _ {V : Vendored} where
  abbrev pub pure : {A : Type 0} → A → M V A
  pure a h = some (h, a)

  abbrev pub and_then : {A B : Type 0} → Option (Heap V × A) → (A → M V B) → Option (Heap V × B)
  and_then none k = none
  and_then (some (h, a)) k = k a h

  infixl 5 ◌>>=◌ ◌>>◌
  abbrev pub ◌>>=◌ : {A B : Type 0} → M V A → (A → M V B) → M V B
  ◌>>=◌ m k h = and_then (m h) k

  abbrev pub ◌>>◌ : {B : Type 0} → M V (Unit {0}) → M V B → M V B
  m >> k = m >>= λ _. k

  -- `new` and `make`: the next address, not yet written.
  abbrev pub new : M V Addr
  new h = some (record h { next = suc h.next }, h.next)

  abbrev pub write : Heap V → Addr → Cell V → Heap V
  write h p c = record h { cell = λ a. if nat_eq a p then some c else h.cell a }

  abbrev pub store : {T : Type 0} → CellType V T → Addr → T → M V (Unit {0})
  store t p x h = some (write h p (t.inject x), tt)

  -- What a cell holds, at a type.
  abbrev pub contents : {T : Type 0} → CellType V T → Option (Cell V) → Option T
  contents t none = none
  contents t (some c) = t.project c

  abbrev pub loaded : {T : Type 0} → Heap V → Option T → Option (Heap V × T)
  loaded h none = none
  loaded h (some x) = some (h, x)

  abbrev pub load : {T : Type 0} → CellType V T → Addr → M V T
  load t p h = loaded h (contents t (h.cell p))
