-- ===== src/Kube.antt =====
-- What the operator sees of the Kubernetes API: object metadata, the client calls and their laws,
-- conditions, and the helper functions of controller-runtime. Nothing of it is under this
-- repository: the calls are parameters.
pub mod Meta
pub mod Api
pub mod Memory
pub mod Pod
pub mod Controller
