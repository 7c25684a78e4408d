-- ===== src/Lib.antt =====
-- Verification of image-registry-operator, a Kubernetes operator that runs container image registries
-- and gives out credentials for them.
--
-- The program's parts. Users create ImagePullSecret and ImagePushSecret resources (CRs). For each of
-- them the image secret reconciler (pkg/controller/imagesecret) rotates an ImageRegistryAccount, with
-- the hash of a new password, and a Secret with the password. The authenticator (pkg/auth) lets a
-- registry check logins against the accounts. The account controller deletes accounts whose TTL is
-- over. The registry controller (pkg/controller/imageregistry) keeps the certificates, the pods, the
-- service, the volume claim and the status of an ImageRegistry; the build environment controller
-- (pkg/controller/imagebuildenv) merges pull secrets into one secret for a build, with a redis server
-- as its cache. pkg/certs keeps and renews the certificates of the registries, the root CA controller that of
-- the operator. pkg/backrefs, pkg/merge, pkg/passwordgen and pkg/registriesconf are helpers. The
-- controllers run apart from one another and meet in the objects of the API only: cmd/manager adds them
-- to a manager (pkg/controller), which passes each the requests that the events of the objects make.
--
-- The files.
--   Prelude, Go, Kube: what the parts share. Texts are lists of bytes; integers are signed, int64 with
--     its wrap-around, and a time is its nanoseconds; an error is a value, and so is a panic.
--     A client of the API is a record `Api` of functions over a store; Kube/Api says what a successful
--     write does, and Kube/Memory is an implementation in memory.
--   V1alpha1: the types of pkg/apis/registry/v1alpha1 and their constants.
--   ImageSecret: pkg/controller/imagesecret/secretreconciler.go. Deps lists what it calls (Deps), its
--     configuration (Settings) and the readings of the clock (Readings); Rotate is `rotatePassword`
--     with `deleteOrphanAccounts`, one function for each write and what follows it; Reconcile is
--     `Reconcile` with its helpers, Checks what it asks of an account and a secret; Names has `accountNameForCR` and `secretNameForCR`, and Config
--     the settings that `NewReconciler` takes from the environment. The other proofs are
--     in Laws, Steps, Consistency, Stability, Order, Schedule, Handover (with the account controller) and Orphans.
--   Account: pkg/controller/imageregistryaccount/imageregistryaccount_controller.go, `Reconcile`. Account/Lifetime
--     has the runs for one account.
--   Auth: pkg/auth/auth.go, `NewAuthenticator`, `Authenticate`, `findAccount` and `addToCache`, with the proofs in Genuine
--     (the cache), Freshness and Completeness. Auth/Plugin is
--     docker-authn-plugin/kdauthnplugin.go, Auth/Client is cmd/authn-client/main.go.
--   Certs: pkg/certs. KeyPair is keypair.go, Manager and Root are certmanager.go, where `renew_in` is the function
--     that `renewCertSecret` hands to `CreateOrUpdate`. Pem, Renewal and Secrets have the proofs.
--   CaRoot: pkg/controller/caroot/caroot_controller.go, `Reconcile` and `secretNameFilter.Map`.
--   Backrefs: pkg/backrefs. Keys is keytorequest.go, OwnerRefs is ownerrefs.go, Handler is refhandler.go,
--     with the proofs in Quiet, Steps and Written.
--   Merge: pkg/merge. PasswordGen: pkg/passwordgen. RegistriesConf: pkg/registriesconf.
--   ImageRegistry: pkg/controller/imageregistry. Upsert is `upsert`, Reconcile is `Reconcile` with the
--     loop over `reconcileTasks`; the tasks are in StatefulSet and Pod (`reconcileStatefulSet`), Service
--     (the service and the volume claim), Rbac and Certificates; Names has the names. The proofs are
--     in Status, Reports, Tasks, Passes, Keyed, Readiness, Claim and Mounts. A task returns the error, the conditions
--     that it set and the cluster.
--   ImageBuildEnv: pkg/controller/imagebuildenv/imagebuildenv_controller.go, the loading and the merge
--     of the input secrets; ImageBuildEnv/Redis is `configureRedis`, ImageBuildEnv/Reconcile is `Reconcile`
--     with inputstatusrefs.go, on the CR in memory and the cluster. RedisPassword, References and
--     Outcomes have the proofs.
--   Controllers: pkg/controller/controller.go and the `Add` functions of the packages below it. Watches has the
--     arguments of their calls of `Watch`; Adding, Registration and Order have what `AddToManager` leaves,
--     Children the objects that the registry controller writes, Objects, Present and Synced what of them a registry
--     has once its tasks went through, Events, Routes and Followed which events make requests for a
--     registry, an image secret and a build environment. Kube/Controller says what the manager and the event
--     handlers of controller-runtime are documented to do.
--   Operator: cmd/manager/main.go, `main` and `serveCRMetrics`, with the proof in Startup. A step that exits is
--     `none`.
--   Tests: concrete inputs.
--
-- Bounds. Loops run over lists by structural recursion and need no fuel; only the runs for one account,
-- which controller-runtime repeats, take fuel, and two are enough. Numbers of a Go type with a
-- width (rotation counts, durations) are integers with `wrap64` where the code adds. Go compares and
-- adds times beyond any bound that matters here, so times do not wrap around; `Sub` saturates.
--
-- Not modelled: the Kubernetes API, controller-runtime, operator-sdk, crypto, bcrypt, JSON and YAML,
-- which are parameters; logging and flags; interleavings of two handlers on one object, which the API server turns into conflicts.
pub mod Prelude
pub mod Go
pub mod Kube
pub mod V1alpha1
pub mod RegistriesConf
pub mod Merge
pub mod PasswordGen
pub mod Backrefs
pub mod ImageRegistry
pub mod ImageSecret
pub mod Account
pub mod Auth
pub mod Certs
pub mod CaRoot
pub mod ImageBuildEnv
pub mod Controllers
pub mod Operator
pub mod Tests
