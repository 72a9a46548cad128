-- ===== src/V1alpha1.antt =====
-- pkg/apis/agent/v1alpha1: the custom resources.
pub mod Types
pub mod Defaults
pub mod DeepCopy
pub mod Scheme
pub mod Json
