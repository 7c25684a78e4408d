-- ===== src/Tests/Registries.antt =====
-- The theorems on the registry controller, at a registry in a small cluster.
use image_registry_operator.Prelude.{◌≡◌, ◌≢◌, ◌⊎◌, ◌↔◌, refl, true, none, some, List, [], ◌∷◌}
use image_registry_operator.Prelude.Int.{pos}
use image_registry_operator.Go.Text.{text, text_eq}
use image_registry_operator.Go.Error.{failure, ok, err}
use image_registry_operator.Go.Panic.{done}
use image_registry_operator.Go.Time.{seconds}
use image_registry_operator.Kube.Meta.{Condition, Resource, new_meta}
use image_registry_operator.Kube.Memory.{find, put}
use image_registry_operator.V1alpha1.{ImageRegistry, ImageRegistryStatus, condition_ready}
use image_registry_operator.Certs.Root.{key_pair}
use image_registry_operator.ImageRegistry.Upsert.{Task, upsert, change, set_owner}
use image_registry_operator.ImageRegistry.Certificates.{reconcile_token_cert}
use image_registry_operator.ImageRegistry.Service.{modify_service, reconcile_service}
use image_registry_operator.ImageRegistry.StatefulSet.{
  StatefulSet, annotation_image_registry_generation, new_stateful_set, modify_stateful_set,
}
use image_registry_operator.Go.Map.{lookup}
use image_registry_operator.ImageRegistry.Reconcile.{
  run_tasks, reconcile_found, new_status, reconcile,
}
use image_registry_operator.ImageRegistry.Readiness.{RolledOut, ready_iff_RolledOut}
use image_registry_operator.ImageRegistry.Mounts.{IsWellFormed, pod-IsWellFormed}
use image_registry_operator.ImageRegistry.Tasks.{
  Fails, run_tasks-Fails_iff, nothing_without_root_ca,
}
use image_registry_operator.ImageRegistry.Keyed.{PassesAll, reconcile-Reports}
use image_registry_operator.ImageRegistry.Reports.{Reports, merged, second_run_is_quiet}
use image_registry_operator.Tests.Conditions.{condition_laws, set_condition}
use image_registry_operator.Tests.Crypto.{crypto}
use image_registry_operator.Tests.Cluster.{
  Store, upsert_new-Passes, registry_key, no_ca, deps, operator, registry, root, readings,
}

token_ca_given :
    reconcile_token_cert deps.certs (seconds 10) registry [] (registry ∷ [], 0)
    ≡ done (none, [], (registry ∷ [], 0))
unfolding reconcile_token_cert
token_ca_given = refl

no_root_ca : key_pair crypto deps.certs.get_secret root (registry ∷ [], 0) ≡ done (err no_ca)
unfolding key_pair
no_root_ca = refl

-- The service, and a task that fails behind it.
abbrev denied : Task Store
denied cr conditions s = done (some (failure (text "denied")), conditions, s)

abbrev tasks : List (Task Store)
tasks = reconcile_service deps.services deps.certs.set_controller_reference operator ∷ denied ∷ []

abbrev left : Store
left = ([], 1)

ran : run_tasks tasks registry [] ([], 0) ≡ done (some (failure (text "denied")), [], left)
unfolding run_tasks reconcile_service upsert change set_owner modify_service
ran = refl

run_tasks-Fails_iff_example :
    (run_tasks tasks registry [] ([], 0) ≡ done (some (failure (text "denied")), [], left))
    ↔ Fails registry tasks [] ([], 0) (failure (text "denied")) [] left
run_tasks-Fails_iff_example =
    run_tasks-Fails_iff registry tasks [] [] ([], 0) left (failure (text "denied"))

passes : PassesAll deps
passes = record {
  certificates = upsert_new-Passes;
  service_accounts = upsert_new-Passes;
  roles = upsert_new-Passes;
  role_bindings = upsert_new-Passes;
  services = upsert_new-Passes;
  stateful_sets = upsert_new-Passes;
  claims = upsert_new-Passes;
}

registry_found : deps.registry_api.get (registry_key registry) (registry ∷ [], 0) ≡ ok registry
unfolding find text_eq
registry_found = refl

reconcile-Reports_example :
    (Reports registry operator (some no_ca) [] registry.status
      × (reconcile deps operator root readings (registry_key registry) (registry ∷ [], 0)
          ≡ done (some no_ca, (registry ∷ [], 0))))
    ⊎ ((status : ImageRegistryStatus) × Reports registry operator (some no_ca) [] status
        × (status ≢ registry.status)
        × (reconcile deps operator root readings (registry_key registry) (registry ∷ [], 0)
            ≡ done (
              some no_ca,
              (put registry_key (record registry { status = status }) (registry ∷ []), 0),
            )))
reconcile-Reports_example =
    reconcile-Reports deps condition_laws passes operator root (registry_key registry) readings
      registry (some no_ca) [] (registry ∷ [], 0) (registry ∷ [], 0) registry_found
      (nothing_without_root_ca deps operator root readings registry [] [] (registry ∷ [], 0)
        (registry ∷ [], 0) no_ca token_ca_given refl refl no_root_ca)

-- The status that it saves, and a second run from there.
abbrev saved : ImageRegistry
saved = record registry {
  status =
      new_status operator registry
        (merged deps condition_laws operator registry (some (failure (text "denied"))) []).0;
}

ran_again :
    run_tasks tasks
      (record registry { status = record saved.status { conditions = [] } })
      []
      ([], 0)
    ≡ done (some (failure (text "denied")), [], left)
unfolding run_tasks reconcile_service upsert change set_owner modify_service
ran_again = refl

second_run_is_quiet_example :
    reconcile_found deps operator tasks saved ([], 0) ≡ done (some (failure (text "denied")), left)
second_run_is_quiet_example =
    second_run_is_quiet deps condition_laws operator tasks registry (some (failure (text "denied")))
      [] ([], 0) left tt ran_again

-- A stateful set with one pod that is up to date.
abbrev rolled_out : Resource StatefulSet
rolled_out = record {
  kind = [];
  meta = record (new_meta (text "infra") (text "registry")) {
    annotations = (annotation_image_registry_generation, text "2") ∷ [];
  };
  body = record new_stateful_set {
    status = record {
      observed_generation = pos 0;
      replicas = pos 1;
      ready_replicas = pos 1;
      updated_replicas = pos 1;
    };
  };
}

ready_iff_RolledOut_example :
    (c : Condition) × (lookup condition_ready
        (modify_stateful_set set_condition operator registry rolled_out []).1
      ≡ some c)
    × ((c.is_true ≡ true) ↔ RolledOut registry rolled_out)
ready_iff_RolledOut_example =
    ready_iff_RolledOut set_condition condition_laws operator registry rolled_out []

pod-IsWellFormed_example :
    IsWellFormed
      (modify_stateful_set set_condition operator registry rolled_out []).0.body.spec.pod.volumes
      (modify_stateful_set set_condition operator registry rolled_out []).0.body.spec.pod.containers
pod-IsWellFormed_example = pod-IsWellFormed set_condition operator registry rolled_out []
