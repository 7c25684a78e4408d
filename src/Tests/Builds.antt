-- ===== src/Tests/Builds.antt =====
-- The theorems on the build environment controller, in a cluster that stores one secret.
use image_registry_operator.Prelude.{
  ◌≡◌, ◌⊎◌, refl, true, false, if◌then◌else◌, none, some, [], ◌∷◌, arith,
}
use image_registry_operator.Prelude.Int.{pos}
use image_registry_operator.Go.Text.{text, text_eq, is_empty}
use image_registry_operator.Go.Map.{insert, lookup}
use image_registry_operator.Go.Error.{Error, Result, failure, not_found, ok, err}
use image_registry_operator.Go.Panic.{done}
use image_registry_operator.Go.Time.{seconds}
use image_registry_operator.Kube.Meta.{NamespacedName, OwnerReference, Secret, key_of, new_meta}
use image_registry_operator.Kube.Memory.{key_eq, key_eq_iff}
use image_registry_operator.Backrefs.OwnerRefs.{has_uid}
use image_registry_operator.Backrefs.Handler.{
  update_references, delete_old_refs, diff_refs, add_new_refs,
}
use image_registry_operator.V1alpha1.{ImageBuildEnv, condition_ready}
use image_registry_operator.ImageBuildEnv.{
  load_input_secrets, load_input_secrets_for_cr, merge_secret_data, add_secrets,
}
use image_registry_operator.ImageBuildEnv.Redis.{
  upsert_redis_secret_for_cr, fill_redis_secret, redis_password, configure_redis,
}
use image_registry_operator.ImageBuildEnv.RedisPassword.{redis_password_is_kept}
use image_registry_operator.ImageBuildEnv.Reconcile.{
  Deps, reconcile_live, secrets_to_objects, set_status_references, update_secret_references,
  update_status, reconcile_secrets, get_status_references, save_merged, upsert_merged_secret_for_cr,
}
use image_registry_operator.ImageBuildEnv.References.{Gets, references_settle}
use image_registry_operator.ImageBuildEnv.Outcomes.{Failed, Ended, reconcile_live_ends}
use image_registry_operator.Tests.BuildCluster.{
  Store, upsert_secret, stored, redis_deps, build_env, draws, others, upserts,
}

abbrev redis_secret : Secret
redis_secret = record {
  meta = new_meta (text "apps") (text "imagebuildenv-env-redis-conf");
  type = text "Opaque";
  contents = some ((text "redis_password", text "pw") ∷ []);
}

abbrev filled_secret : Secret
filled_secret = record redis_secret {
  contents =
      some ((text "redis_password", text "pw") ∷ (text "redis.conf", text "requirepass pw") ∷ []);
}

first :
    upsert_redis_secret_for_cr redis_deps draws draws build_env (some redis_secret)
    ≡ (ok (text "pw"), some filled_secret)
unfolding upsert_redis_secret_for_cr fill_redis_secret redis_password lookup text_eq is_empty
first = refl

second :
    upsert_redis_secret_for_cr redis_deps others others build_env (some filled_secret)
    ≡ (ok (text "pw"), some filled_secret)
unfolding upsert_redis_secret_for_cr fill_redis_secret redis_password lookup text_eq is_empty
second = refl

redis_password_is_kept_example : text "pw" ≡ text "pw"
redis_password_is_kept_example =
    redis_password_is_kept redis_deps stored upserts draws draws others others build_env
      (some redis_secret) (some filled_secret) (some filled_secret) (some filled_secret) (text "pw")
      (text "pw") first (λ k. refl) second

abbrev get_secret : NamespacedName → Store → Result Secret
get_secret k none = err (not_found (text "secret"))
get_secret k (some o) = if key_eq (key_of o.meta) k then ok o else err (not_found (text "secret"))

abbrev deps : Deps Store
deps = record {
  redis = redis_deps;
  build_env_api = record {
    get = λ k s. ok build_env;
    create = λ o s. (ok o, s);
    update = λ o s. (ok o, s);
    update_status = λ o s. (ok o, s);
    delete = λ o s. (none, s);
  };
  secret_api = record {
    get = get_secret;
    create = λ o s. (ok o, some o);
    update = λ o s. (ok o, some o);
    update_status = λ o s. (ok o, some o);
    delete = λ o s. (none, none);
  };
  merged_secrets = upsert_secret;
  get_ref = λ ref s. err (not_found (text "secret"));
  update_ref = λ ref s. (ok ref, s);
  type_meta = λ cr. (text "registry.mgoltzsche.github.com/v1alpha1", text "ImageBuildEnv");
  add_finalizer = λ f m. record m { finalizers = f ∷ m.finalizers };
  remove_finalizer = λ f m. record m { finalizers = [] };
  set_condition = λ c conditions. (insert c.type c conditions, true);
  docker_json = record { parse_docker_config = λ s. err (failure s); json = λ c. text "{}" };
  yaml = λ r. text "registries";
}

gets : Gets deps.secret_api
gets k none o e = absurd (ground (arith, e))
gets k (some p) o e =
    ground (arith, e, key_eq_iff (λ (x : Secret). key_of x.meta) (key_of p.meta) k)

abbrev back_reference : OwnerReference
back_reference = record {
  api_version = text "registry.mgoltzsche.github.com/v1alpha1";
  kind = text "ImageBuildEnv";
  name = text "env";
  uid = text "u1";
  controller = false;
  block_owner_deletion = false;
}

abbrev input : Secret
input = record {
  meta = record (new_meta (text "apps") (text "pull")) { owner_references = back_reference ∷ [] };
  type = [];
  contents = none;
}

load : load_input_secrets_for_cr deps.secret_api build_env (some input) ≡ ok (input ∷ [])
unfolding load_input_secrets_for_cr load_input_secrets text_eq
load = refl

refers_back : has_uid (text "u1") (back_reference ∷ []) ≡ true
unfolding has_uid text_eq
refers_back = refl

references_settle_example :
    ((set_status_references (secrets_to_objects (input ∷ [])) build_env).status.secret_refs
      ≡ text "pull" ∷ [])
    × (update_secret_references deps
          (secrets_to_objects (input ∷ []))
          (set_status_references (secrets_to_objects (input ∷ [])) build_env, some input)
        ≡ done
            (none, (set_status_references (secrets_to_objects (input ∷ [])) build_env, some input)))
references_settle_example =
    references_settle deps build_env (some input) (some input) (input ∷ []) gets load
      (refers_back, tt)

-- Without input secrets and redis, all steps go through.
abbrev plain : ImageBuildEnv
plain = record build_env { spec = record { redis = false; secrets = [] } }

abbrev ready : ImageBuildEnv
ready = record plain {
  status = record plain.status {
    conditions =
        (
          condition_ready,
          record { type = condition_ready; is_true = true; reason = []; message = [] },
        )
        ∷ [];
  };
}

abbrev conf_secret : Secret
conf_secret = record {
  meta = new_meta (text "apps") (text "imagebuildenv-env-conf");
  type = text "Opaque";
  contents =
      some ((text ".dockerconfigjson", text "{}") ∷ (text "makisu.yaml", text "registries") ∷ []);
}

all_went_through :
    reconcile_live deps draws draws (plain, none)
    ≡ done (record { requeue_after = pos 0; error = none }, (ready, some conf_secret))
unfolding reconcile_live load_input_secrets_for_cr load_input_secrets reconcile_secrets
    update_secret_references update_references delete_old_refs diff_refs get_status_references
    add_new_refs merge_secret_data add_secrets save_merged configure_redis
    upsert_merged_secret_for_cr update_status insert text_eq
all_went_through = refl

reconcile_live_ends_example :
    Ended deps draws draws plain none
      (record { requeue_after = pos 0; error = none })
      (ready, some conf_secret)
    ⊎ (Failed deps draws draws
          (record { requeue_after = pos 0; error = none })
          (ready, some conf_secret)
        × (pos 0 ≡ seconds 30)
        × ((x : Error) × (load_input_secrets_for_cr deps.secret_api plain none ≡ err x)))
reconcile_live_ends_example =
    reconcile_live_ends deps draws draws plain none (record { requeue_after = pos 0; error = none })
      (ready, some conf_secret) all_went_through
