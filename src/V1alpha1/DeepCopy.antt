-- ===== src/V1alpha1/DeepCopy.antt =====
-- pkg/apis/agent/v1alpha1/zz_generated.deepcopy.go: the deep copies of the custom resources, in a
-- memory with pointers.
pub mod Structs
pub mod Heap
pub mod Cells
pub mod Into
pub mod Objects
pub mod Represents
pub mod Pointers
pub mod Fields
pub mod Protocols
pub mod Vendored
pub mod Specs
pub mod Resources
pub mod SpecCopies
pub mod Values
pub mod Laws
