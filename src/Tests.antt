-- ===== src/Tests.antt =====
-- Concrete inputs: the theorems at inputs at which their hypotheses hold.
mod World
mod Secrets
mod Clocks
mod Texts
mod References
mod Backrefs
mod Crypto
mod Certificates
mod Login
mod Merged
mod Conditions
mod Cluster
mod Registries
mod BuildCluster
mod Builds
mod Managers
mod Events
mod Objects
