-- ===== src/Tests.antt =====
-- An in-memory client, and the theorems at concrete inputs.
mod Memory
mod Samples
mod Resources
mod Owners
mod Clusters
mod Groups
mod Benchmarks
mod Discovery
mod Registration
mod Scheme
mod Main
mod Runs
mod Histories
mod ReadBack
mod Collisions
mod HeapSamples
mod DeepCopy
mod Literals
mod Documents
mod Json
mod Handlers
mod Events
