-- ===== src/Tests/Managers.antt =====
-- A manager that keeps its watches in a list, and the set-up of all controllers in it.
use image_registry_operator.Prelude.{◌≡◌, refl, ℕ, none, some, List, [], ◌∷◌, ◌++◌, arith}
use image_registry_operator.Go.Text.{Text, text, is_empty}
use image_registry_operator.Go.Error.{ok, err, failure}
use image_registry_operator.Go.Panic.{done}
use image_registry_operator.Go.Time.{seconds}
use image_registry_operator.Kube.Meta.{Secret}
use image_registry_operator.Kube.Controller.{Kind, EventHandler, ManagerApi, Watch, Registers}
use image_registry_operator.Certs.Root.{root_ca_secret_name}
use image_registry_operator.ImageSecret.Config.{new_settings, account_ttl, default_namespace}
use image_registry_operator.ImageRegistry.Names.{dns_zone}
use image_registry_operator.ImageRegistry.Upsert.{new_reconciler}
use image_registry_operator.Controllers.Watches.{pull_config, push_config}
use image_registry_operator.Controllers.{
  Reconciler, Setup, watch_all, add_controller, add_ca_root_with, add_ca_root, add_image_build_env,
  add_image_pull_secret, add_image_push_secret, add_image_registry, add_image_registry_account,
  add_to_manager, add_to_manager_funcs,
}
use image_registry_operator.Controllers.Registration.{Registered, all_watches}
use image_registry_operator.Operator.{Process, main, serve_metrics, serve_cr_metrics}
use image_registry_operator.Operator.Startup.{Started, main-Started}
use image_registry_operator.Tests.World.{settings}
use image_registry_operator.Tests.Clocks.{environment}
use image_registry_operator.Tests.Crypto.{crypto}
use image_registry_operator.Tests.Certificates.{create_or_update, foreign, now, taken}

abbrev pub Watches : Type 0
Watches = List (Watch Reconciler)

-- A controller is its reconciler.
abbrev pub manager_api : ManagerApi Watches Reconciler Reconciler
manager_api = record {
  new_controller = λ name r m. (ok r, m);
  watch = λ r k h m. (none, m ++ record { reconciler = r; kind = k; handler = h } ∷ []);
}

abbrev pub setup : Setup Watches Reconciler Secret ℕ
setup = record {
  env = environment;
  api = manager_api;
  crypto = crypto;
  new_client = ok create_or_update;
  now = now;
}

pub made :
    (name : Text) (r : Reconciler) (m m' : Watches) (c : Reconciler)
    → manager_api.new_controller name r m ≡ (ok c, m')
    → (m' ≡ m) × (c ≡ r)
made name r m m' c e = ground (arith, e)

pub added :
    (c : Reconciler) (k : Kind) (h : EventHandler) (m m' : Watches)
    → manager_api.watch c k h m ≡ (none, m')
    → m' ≡ m ++ record { reconciler = c; kind = k; handler = h } ∷ []
added c k h m m' e = cc

abbrev pub registers : Registers manager_api
registers = record { watches = λ m. m; reconciler_of = λ c. c; made = made; added = added }

abbrev pub registered : Registered
registered = record {
  root_ca_name = record { namespace = text "infra"; name = text "image-registry-root-ca" };
  pull = record settings {
    account_label = pull_config.account_label;
    rotation_interval = seconds 43200;
    account_ttl = seconds 86400;
  };
  push = record settings {
    account_label = push_config.account_label;
    rotation_interval = seconds 43200;
    account_ttl = seconds 86400;
  };
  registry = new_reconciler environment.getenv;
}

pub all_added :
    add_to_manager (add_to_manager_funcs setup) ([], foreign)
    ≡ done (none, (all_watches registered, foreign))
unfolding add_to_manager add_ca_root add_ca_root_with add_controller watch_all add_image_build_env
    add_image_pull_secret add_image_push_secret add_image_registry add_image_registry_account
    root_ca_secret_name new_settings account_ttl default_namespace dns_zone is_empty
all_added = rw taken refl

-- A process of which every call succeeds and changes nothing; the metrics cannot be served.
abbrev process : Process Text Text Text (Watches × Secret)
process = record {
  get_watch_namespace = ok (text "infra");
  get_config = ok (text "in-cluster");
  become_leader = λ name w. (none, w);
  new_manager = λ cfg o w. (none, w);
  add_apis_to_scheme = λ w. (none, w);
  add_certmgr_to_scheme = λ w. (none, w);
  get_gvks = err (failure (text "no kinds"));
  get_operator_namespace = ok (text "infra");
  generate_and_serve_cr_metrics = λ cfg ns gvks host port w. (none, w);
  operator_port_name = text "http-metrics";
  cr_port_name = text "cr-metrics";
  create_metrics_service = λ cfg ports w. (err (failure (text "denied")), w);
  create_service_monitors = λ cfg ns services w. (some (failure (text "denied")), w);
  start = λ w. (none, w);
}

returned : main process setup ([], foreign) ≡ done (some tt, (all_watches registered, foreign))
unfolding main serve_metrics serve_cr_metrics
returned = ground (arith, all_added)

main-Started_example :
    Started process setup registers ([], foreign) (all_watches registered, foreign)
main-Started_example =
    main-Started process setup registers ([], foreign) (all_watches registered, foreign) returned
