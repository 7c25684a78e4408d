-- ===== src/ImageRegistry.antt =====
-- pkg/controller/imageregistry: the controller of ImageRegistry resources.
pub mod Names
pub mod Upsert
pub mod Pod
pub mod StatefulSet
pub mod Service
pub mod Rbac
pub mod Certificates
pub mod Reconcile
pub mod Readiness
pub mod Claim
pub mod Mounts
pub mod Status
pub mod Reports
pub mod Tasks
pub mod Passes
pub mod Keyed
