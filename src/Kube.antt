-- ===== src/Kube.antt =====
-- The Kubernetes API types of which pkg/ builds values. They are vendored, so they are records of
-- the fields that the operator sets or reads; every other field keeps Go's zero value.
pub mod Meta
pub mod Pod
pub mod Objects
pub mod Selector
pub mod Platform
