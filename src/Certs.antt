-- ===== src/Certs.antt =====
-- pkg/certs: key pairs, and the secrets they are kept and renewed in.
pub mod KeyPair
pub mod Manager
pub mod Renewal
pub mod Pem
pub mod Secrets
pub mod Root
