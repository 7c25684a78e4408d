-- ===== src/Operator.antt =====
-- cmd/manager/main.go: the operator's `main`. What it calls of operator-sdk and controller-runtime is
-- a parameter, `AddToManager` is that of pkg/controller. The logger and the flags are left out.
use image_registry_operator.Prelude.{ℕ, Option, none, some, List, [], ◌∷◌, ◌++◌}
use image_registry_operator.Go.Text.{Text, text, format_int}
use image_registry_operator.Prelude.Int.{ℤ, pos}
use image_registry_operator.Go.Error.{Error, Result, ok, err, error_of}
use image_registry_operator.Go.Panic.{Panics, done, panic}
use image_registry_operator.Controllers.{Setup, add_to_manager_funcs, add_to_manager}
pub mod Startup

abbrev pub metrics_host : Text
metrics_host = text "0.0.0.0"

abbrev pub metrics_port : ℕ
metrics_port = 8383

abbrev pub operator_metrics_port : ℕ
operator_metrics_port = 8686

-- `manager.Options`
pub record Options : Type 0 where
  pub namespace : Text
  pub metrics_bind_address : Text

-- The ports of the metrics service: number, name and target.
pub record MetricsPort : Type 0 where
  pub port : ℕ
  pub name : Text
  pub target_port : ℕ

-- What `main` calls, on the state of the manager and the cluster; `F` is the client configuration, `G`
-- the kinds of the operator's own resources, and `V` a service.
pub record Process (F G V W : Type 0) : Type 0 where
  pub get_watch_namespace : Result Text
  pub get_config : Result F
  pub become_leader : Text → W → Option Error × W
  pub new_manager : F → Options → W → Option Error × W
  pub add_apis_to_scheme : W → Option Error × W
  pub add_certmgr_to_scheme : W → Option Error × W
  pub get_gvks : Result G
  pub get_operator_namespace : Result Text
  pub generate_and_serve_cr_metrics : F → List Text → G → Text → ℕ → W → Option Error × W
  pub operator_port_name : Text
  pub cr_port_name : Text
  pub create_metrics_service : F → List MetricsPort → W → Result (Option V) × W
  pub create_service_monitors : F → Text → List (Option V) → W → Option Error × W
  pub start : W → Option Error × W

-- A step of `main`: `none` where the process has exited with code 1.
abbrev pub Run : Type 0 → Type 0 → Type 0
Run W A = W → Panics (Option A × W)

abbrev resume : {W A B : Type 0} → (A → Run W B) → Option A × W → Panics (Option B × W)
resume f (none, w) = done (none, w)
resume f (some a, w) = f a w

infixl 5 ◌>>=◌ ◌>>◌
abbrev pub ◌>>=◌ : {W A B : Type 0} → Run W A → (A → Run W B) → Run W B
◌>>=◌ m f w = elim (m w) [ panic t ↦ panic t | done r ↦ resume f r ]

abbrev pub ◌>>◌ : {W B : Type 0} → Run W (Unit {0}) → Run W B → Run W B
m >> k = m >>= λ _. k

-- `if err != nil { os.Exit(1) }`, behind a call.
abbrev pub exit_on : {W : Type 0} → Option Error × W → Panics (Option (Unit {0}) × W)
exit_on (none, w) = done (some tt, w)
exit_on (some e, w) = done (none, w)

abbrev pub or_exit : {W A : Type 0} → Result A → Run W A
or_exit (ok a) w = done (some a, w)
or_exit (err e) w = done (none, w)

abbrev pub call : {W : Type 0} → (W → Option Error × W) → Run W (Unit {0})
call f w = exit_on (f w)

abbrev pub call_panics : {W : Type 0} → (W → Panics (Option Error × W)) → Run W (Unit {0})
call_panics f w = elim (f w) [ panic t ↦ panic t | done r ↦ exit_on r ]

module _ {F G V W : Type 0} (process : Process F G V W) where
  -- `serveCRMetrics`
  unfoldable pub serve_cr_metrics : F → W → Option Error × W
  serve_cr_metrics cfg w = elim process.get_gvks [
    | err e ↦ (some e, w)
    | ok gvks ↦ elim process.get_operator_namespace [
      | err e ↦ (some e, w)
      | ok ns ↦
          process.generate_and_serve_cr_metrics cfg (ns ∷ []) gvks metrics_host
            operator_metrics_port w
    ]
  ]

  abbrev service_ports : List MetricsPort
  service_ports =
      record { port = metrics_port; name = process.operator_port_name; target_port = metrics_port }
      ∷ record {
        port = operator_metrics_port;
        name = process.cr_port_name;
        target_port = operator_metrics_port;
      }
      ∷ []

  -- A service that could not be created is nil.
  abbrev service_of : Result (Option V) → Option V
  service_of (ok v) = v
  service_of (err e) = none

  -- The metrics: their errors are logged.
  unfoldable pub serve_metrics : F → Text → W → W
  serve_metrics cfg namespace w =
      let (e, w') = serve_cr_metrics cfg w in
      let (service, t) = process.create_metrics_service cfg service_ports w' in
      let (x, u) = process.create_service_monitors cfg namespace (service_of service ∷ []) t in u

abbrev pub lock_name : Text
lock_name = text "image-registry-operator-lock"

-- The options of the manager, which watches one namespace.
abbrev pub options_in : Text → Options
options_in namespace = record {
  namespace = namespace;
  metrics_bind_address = metrics_host ++ b':' ∷ format_int (pos metrics_port);
}

unfoldable pub main :
    {F G V M C S K : Type 0} → Process F G V (M × S) → Setup M C S K → Run (M × S) (Unit {0})
main process setup = do
  namespace ← or_exit process.get_watch_namespace
  cfg ← or_exit process.get_config
  call (process.become_leader lock_name)
  call (process.new_manager cfg (options_in namespace))
  call process.add_apis_to_scheme
  call process.add_certmgr_to_scheme
  call_panics (add_to_manager (add_to_manager_funcs setup))
  call (λ w. process.start (serve_metrics process cfg namespace w))
