-- ===== src/Lib.antt =====
-- atomix-operator: a Kubernetes operator for Atomix clusters.
--
-- The operator watches three resources, AtomixCluster, PartitionGroup and AtomixBenchmark
-- (pkg/apis/agent/v1alpha1). For each there is a reconciler (pkg/controller/<resource>): it gets the
-- resource, sets its defaults, and for each object that belongs to it asks the API server for the
-- object's name and creates the object where there is none. The objects are built by
-- pkg/controller/util.
--
-- - V1alpha1.Types: the specifications of the three resources (cluster.go, partitiongroup.go,
--   benchmark.go) and GetPartitionGroupType.
-- - V1alpha1.Defaults: SetDefaults_* (defaults.go). A function that writes through its pointer is
--   one that gives back the changed value.
-- - Util.Resources: pkg/controller/util/resources.go; Util.Cluster, Util.PartitionGroup and
--   Util.Benchmark: cluster.go, partitiongroup.go and benchmark.go beside it. NewManagementService is
--   new_management_service, and so on: names are the source's, in snake case.
-- - Util.Budget, Util.Collisions, Util.Discovery, Util.Selection and Util.Wiring: what the objects
--   are meant to agree on, across the files of pkg/controller/util.
-- - Controller.Cluster, Controller.PartitionGroup, Controller.Benchmark: reconciler.go of each
--   package, Reconcile as reconcile, with one definition per method. Controller.Steps has the shape
--   that the methods share: a Get, a Create where the error says "not found", an early return.
-- - Controller.Registration: Add of each package, and pkg/controller/manager.go, over a manager of
--   controller-runtime that is a parameter. Controller.Registration.Events says which requests an
--   event leads to, and Controller.Runs.Recovery what Reconcile then does.
-- - Base.Reader: a reader of lines of keys and values, which stands for what a node does with its
--   configuration; Util.PartitionGroup.ReadBack uses it.
-- - Controller.Runs: the three reconcilers behind one manager, which calls them in an order of its own.
--   Controller.Runs.Histories has others change the stored objects between the calls.
-- - Main: cmd/manager/main.go, over the packages that it calls. Main.Calls has the list of its calls.
-- - V1alpha1.Scheme: register.go, the init functions of the types, and pkg/apis, over the builders of
--   schemes, which are parameters.
-- - V1alpha1.DeepCopy: zz_generated.deepcopy.go, on a heap of typed cells (Heap, Cells), with the
--   structs as they lie in memory (Structs): Into has DeepCopyInto, Objects has DeepCopy and
--   DeepCopyObject. Represents says which value a pointer stands for and which cells it may reach;
--   Pointers, Protocols, Specs, SpecCopies, Resources and Values go through the types.
-- - V1alpha1.Json: documents and the struct tags of cluster.go, partitiongroup.go and benchmark.go.
--   Codecs and Fields read a tag as encoding/json documents it, Tags and Resources have the tags of
--   each struct; a `json:",inline"` gives the fields of the embedded struct. Values turns what was
--   read into the terms of V1alpha1.Types. Controller.PartitionGroup.Documents and
--   Util.Budget.Documents follow a document to the reconciler and to the budgets.
-- - Base: Go's integers, error results and formatting. An error result is a Result, with a case for
--   a panic of the run time, which following a nil pointer leads to.
-- - Kube: the data types of Kubernetes with the fields that the operator fills, and what a label
--   selector selects.
--
-- The API server is a parameter. Controller.Client.Client has its state, Get, Create and
-- SetControllerReference; Controller.Store.Store says what the reconcilers rely on: a view of the
-- stored objects that a Get leaves alone and a Create extends by one object or not at all. Every call
-- may fail, unless the client IsReliable. ParseQuantity, FromInt, Errorf and IsNotFound are
-- parameters too (Kube.Platform). Controller.Ensures is the abstract specification of a reconciler, a
-- list of objects each of which is created if it is missing; Reconciles is that of a whole run.
-- SetControllerReference may refuse an object that has a controller; that it accepts one without
-- owner references is a hypothesis where success is stated (Ensures.Owned.IsOwner). The Store's Get
-- reads what was written. The operator's own client reads from a cache that may be late:
-- Controller.Cached has such a client, and Controller.Benchmark.Cached uses it, since a benchmark has
-- objects of one name. Tests.Memory has a client in memory that fulfils all this.
--
-- The handlers of controller-runtime that make requests of an object's metadata are a parameter too
-- (Registration.Events.Handlers), which is relied on to follow the reference to the controller that
-- SetControllerReference sets.
--
-- On the heap a slice is the address of an array with exactly its elements, so a slice of a part of
-- an array has no counterpart. `new` is followed by one write, of the copied struct. DeepCopyInto of
-- ObjectMeta, ResourceRequirements and EnvVar are parameters, lawful in the sense of
-- V1alpha1.DeepCopy.Vendored: they copy what a vendored struct stands for into new cells. A load
-- through an address without a cell of its type is a fault, which the model shows as none.
--
-- A document is a tree. Its keys are matched as they are written, as the decoder of Kubernetes
-- matches them, and no object has a key twice. How a number is written as a literal is a parameter,
-- V1alpha1.Json.Numbers, and so are the codecs of the vendored structs, Tags.VendoredJson; Specs says
-- what of these is relied on.
--
-- `int32` and `int` are integers without a bound: the code adds 1 to half of one, and bounds stand
-- where a property needs them. `%d` and Sprint are written with fuel, one more than the number, and
-- decimal_from_fuel says that this is enough. The other loops, that of AddToManager and those of the
-- deep copies, are over a list.
--
-- Not modelled: logging; the values of flags, since flag.Parse ends the process itself where it
-- refuses one; the vendored packages, apart from the parameters above.
pub mod Base
pub mod Kube
pub mod V1alpha1
pub mod Util
pub mod Controller
pub mod Main
mod Tests
