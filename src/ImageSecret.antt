-- ===== src/ImageSecret.antt =====
-- pkg/controller/imagesecret/secretreconciler.go: the reconciler of ImagePullSecret and
-- ImagePushSecret resources. Deps has what it calls, Names the names that it makes up, Rotate the
-- rotation of the password, Checks the tests that the handler makes, Reconcile the handler.
pub mod Names
pub mod Deps
pub mod Rotate
pub mod Checks
pub mod Reconcile
pub mod Laws
pub mod Steps
pub mod Consistency
pub mod Stability
pub mod Order
pub mod Schedule
pub mod Handover
pub mod Orphans
pub mod Config
