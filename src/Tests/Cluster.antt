-- ===== src/Tests/Cluster.antt =====
-- A cluster that stores ImageRegistries and counts the writes of other objects, and a registry in it.
use image_registry_operator.Prelude.{ℕ, suc, ap, false, inl, inr, none, some, List, []}
use image_registry_operator.Prelude.Int.{pos}
use image_registry_operator.Go.Text.{text}
use image_registry_operator.Go.Error.{Error, Result, failure, not_found, ok, err, Result-cases}
use image_registry_operator.Go.Panic.{done}
use image_registry_operator.Go.Time.{seconds}
use image_registry_operator.Kube.Meta.{NamespacedName, Resource, new_meta, key_of}
use image_registry_operator.Kube.Memory.{find, put}
use image_registry_operator.V1alpha1.{ImageRegistry}
use image_registry_operator.ImageRegistry.Upsert.{
  ReconcileImageRegistry, CreateOrUpdate, Conditions, Upserted,
}
use image_registry_operator.ImageRegistry.Reconcile.{Deps, Readings}
use image_registry_operator.ImageRegistry.Passes.{Passes}
use image_registry_operator.Tests.Conditions.{set_condition}
use image_registry_operator.Tests.Crypto.{crypto}

-- The registries, and the number of other writes.
abbrev pub Store : Type 0
Store = List ImageRegistry × ℕ

-- An upsert that always starts from the new object, and counts a write.
abbrev upserted :
    {A : Type 0}
    → Resource A
    → Conditions
    → Store
    → Result (Resource A × Conditions)
    → Upserted Store A
upserted o conditions (registries, n) (ok (o', c)) = record {
  object = o';
  error = none;
  conditions = c;
  cluster = (registries, suc n);
}
upserted o conditions (registries, n) (err e) = record {
  object = o;
  error = some e;
  conditions = conditions;
  cluster = (registries, n);
}

abbrev upsert_new : {A : Type 0} → CreateOrUpdate Store A
upsert_new o f conditions s = upserted o conditions s (f o conditions)

pub upsert_new-Passes : {A : Type 0} → Passes (upsert_new {A = A})
upsert_new-Passes o f conditions s = elim (Result-cases (f o conditions)) [
  | inl (p, called) ↦ inr (o, p, called, ap (λ r. (upserted o conditions s r).conditions) called)
  | inr (e, failed) ↦ inl (ap (λ r. (upserted o conditions s r).conditions) failed)
]

abbrev pub registry_key : ImageRegistry → NamespacedName
registry_key cr = key_of cr.meta

abbrev pub no_ca : Error
no_ca = not_found (text "root CA")

abbrev pub deps : Deps Store ℕ
deps = record {
  certs = record {
    crypto = crypto;
    certificates = upsert_new;
    secrets = λ new f s. done (none, some (failure (text "forbidden")), s);
    get_secret = λ k s. err no_ca;
    set_controller_reference = λ cr m. ok m;
  };
  registry_api = record {
    get = λ k s. find registry_key k s.0;
    create = λ cr s. (ok cr, (put registry_key cr s.0, s.1));
    update = λ cr s. (ok cr, (put registry_key cr s.0, s.1));
    update_status = λ cr s. (ok cr, (put registry_key cr s.0, s.1));
    delete = λ cr s. (none, s);
  };
  service_accounts = upsert_new;
  roles = upsert_new;
  role_bindings = upsert_new;
  services = upsert_new;
  stateful_sets = upsert_new;
  claims = upsert_new;
  set_condition = set_condition;
}

abbrev pub operator : ReconcileImageRegistry
operator = record {
  dns_zone = text "svc.cluster.local";
  image_auth = text "auth";
  image_nginx = text "nginx";
  image_registry = text "registry:2";
}

-- A registry with a token CA of its own, and no certificate.
abbrev pub registry : ImageRegistry
registry = record {
  meta = record (new_meta (text "infra") (text "registry")) { generation = pos 2 };
  spec = record {
    replicas = none;
    persistent_volume_claim = record {
      storage_class_name = none;
      access_modes = [];
      resources = [];
      delete_claim = false;
    };
    tls = record { issuer_ref = none; secret_name = none };
    auth = record {
      config_map_name = some (text "users");
      ca = record { issuer_ref = none; secret_name = some (text "token-ca") };
    };
  };
  status = record {
    observed_generation = pos 1;
    conditions = [];
    hostname = [];
    tls_secret_name = [];
  };
}

abbrev pub root : NamespacedName
root = record { namespace = text "operators"; name = text "image-registry-root-ca" }

abbrev pub readings : Readings
readings = record { token = seconds 10; tls = seconds 11 }
