-- ===== src/Util/Benchmark.antt =====
-- pkg/controller/util/benchmark.go: the coordinator pod and the worker set of a benchmark.
pub mod Controller
pub mod Worker
