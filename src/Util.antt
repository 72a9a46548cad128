-- ===== src/Util.antt =====
-- pkg/controller/util: the objects that belong to a custom resource.
pub mod Resources
pub mod Cluster
pub mod PartitionGroup
pub mod Benchmark
pub mod Collisions
pub mod Discovery
pub mod Budget
pub mod Selection
pub mod Wiring
