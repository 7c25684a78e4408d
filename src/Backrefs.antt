-- ===== src/Backrefs.antt =====
-- pkg/backrefs: map values that name a resource, owner references as back references, and the
-- handler that keeps back references and the owner's status together.
pub mod Keys
pub mod OwnerRefs
pub mod Handler
