-- ===== src/Controller/Benchmark/Cached/Runs.antt =====
-- When `Reconcile` of an AtomixBenchmark succeeds with a client that reads from a cache. The init
-- script, the configuration and the service of the workers have the names of the controller's, so
-- that a Create of one fails where the cache does not show yet what was created under its name.
use atomix_operator.Kube.Platform.{Platform}
use atomix_operator.Controller.Client.{Client}
