-- ===== src/Controller.antt =====
-- pkg/controller: the reconcilers of the three custom resources over the API client.
pub mod Client
pub mod Steps
pub mod Store
pub mod Registration
pub mod Ensures
pub mod Cluster
pub mod PartitionGroup
pub mod Benchmark
pub mod Cached
pub mod Runs
