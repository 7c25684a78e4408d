-- ===== src/ImageBuildEnv/Redis.antt =====
-- pkg/controller/imagebuildenv/imagebuildenv_controller.go: the redis server of a build environment
-- with its password.
use image_registry_operator.Prelude.{
  ℕ, Bool, true, false, ◌&&◌, Option, none, some, List, [], ◌∷◌, ◌++◌, if◌then◌else◌, any,
}
use image_registry_operator.Go.Text.{Text, text, text_eq, is_empty, format_nat}
use image_registry_operator.Go.Map.{Map, lookup, insert, or_empty}
use image_registry_operator.Go.Error.{Error, Result, ok, err, ◌>>=◌, is_not_found}
use image_registry_operator.Kube.Meta.{
  NamespacedName, ObjectMeta, Secret, Resource, new_meta, new_resource,
}
use image_registry_operator.Kube.Api.{Api}
use image_registry_operator.Kube.Pod.{
  Volume, Container, Probe, PodSpec, ServiceSpec, new_service, secret_source, tcp_socket,
}
use image_registry_operator.Merge.{add_volume, add_container, add_service_port}
use image_registry_operator.PasswordGen.{Draws, generate_password}
use image_registry_operator.V1alpha1.{ImageBuildEnv, secret_key_redis, secret_key_redis_password}
use image_registry_operator.ImageBuildEnv.{type_opaque}

-- `CreateOrUpdate` of controller-runtime on a new object and a function that changes the object
-- found or made. What the function returns beside the object is passed on, `none` if it was not
-- called or failed.
abbrev pub CreateOrUpdate : Type 0 → Type 0 → Type 0 → Type 0
CreateOrUpdate S Obj Y = Obj → (Obj → Result (Obj × Y)) → S → Option Y × Option Error × S

abbrev pub redis_port : ℕ
redis_port = 6379

abbrev pub redis_port_name : Text
redis_port_name = text "redis"

abbrev pub key_redis_conf : Text
key_redis_conf = text "redis.conf"

unfoldable pub redis_name_for_cr : ImageBuildEnv → Text
redis_name_for_cr cr = text "imagebuildenv-" ++ (cr.meta.name ++ text "-redis")

unfoldable pub redis_labels_for_cr : ImageBuildEnv → Map Text
redis_labels_for_cr cr = (text "app", redis_name_for_cr cr) ∷ []

pub record PodCondition : Type 0 where
  pub type : Text
  pub status : Text

pub record Pod : Type 0 where
  pub spec : PodSpec
  pub conditions : List PodCondition

-- `corev1.PodReady` with `corev1.ConditionTrue`.
unfoldable pub is_pod_ready : Pod → Bool
is_pod_ready pod =
    any (λ c. text_eq c.type (text "Ready") && text_eq c.status (text "True")) pod.conditions

abbrev tcp_probe : ℕ → ℕ → Probe
tcp_probe delay period = record {
  handler = tcp_socket redis_port;
  initial_delay_seconds = delay;
  period_seconds = period;
}

abbrev pub redis_conf_volume : Text → Volume
redis_conf_volume pod = record {
  name = text "redis-conf";
  body = secret_source (pod ++ text "-conf");
}

abbrev pub redis_container : Container
redis_container = record {
  name = text "redis";
  body = record {
    image = text "redis:6-alpine";
    image_pull_policy = text "IfNotPresent";
    args = text "redis-server" ∷ text "/conf/redis.conf" ∷ [];
    ports =
        record { name = redis_port_name; container_port = redis_port; protocol = text "TCP" } ∷ [];
    env = record { name = text "MASTER"; value = text "true" } ∷ [];
    volume_mounts = record { name = text "redis-conf"; mount_path = text "/conf" } ∷ [];
    readiness_probe = tcp_probe 3 3;
    liveness_probe = tcp_probe 5 30;
    resources = record { limits = []; requests = [] };
  };
}

abbrev no_pod : PodSpec
no_pod = record { service_account_name = []; restart_policy = []; volumes = []; containers = [] }

-- The pod before it gets its owner.
unfoldable pub redis_pod_for_cr : ImageBuildEnv → Resource Pod
redis_pod_for_cr cr =
    let name = redis_name_for_cr cr in
    record {
      kind = [];
      meta = record (new_meta cr.meta.namespace name) { labels = redis_labels_for_cr cr };
      body = record {
        spec = record no_pod {
          volumes = add_volume [] (redis_conf_volume name);
          containers = add_container [] redis_container;
        };
        conditions = [];
      };
    }

-- What the controller calls for redis: the client on pods, the upserts of secrets and services, and
-- `SetControllerReference`.
pub record RedisDeps (S : Type 0) : Type 0 where
  pub pods : Api S (Resource Pod)
  pub secrets : CreateOrUpdate S Secret Text
  pub services : CreateOrUpdate S (Resource ServiceSpec) (Unit {0})
  pub set_controller_reference : ImageBuildEnv → ObjectMeta → Result ObjectMeta

-- `redisNameForCR(cr) + "-conf"`, the secret.
abbrev pub redis_secret_name : ImageBuildEnv → Text
redis_secret_name cr = redis_name_for_cr cr ++ text "-conf"

-- The password that is there, or a new one.
unfoldable pub redis_password : Draws → Draws → Secret → Text
redis_password rnd rand secret =
    let stored =
      or_empty
        (elim secret.contents [ none ↦ none | some m ↦ lookup secret_key_redis_password m ]) in
    if is_empty stored then generate_password rnd rand else stored

-- The function that `upsertRedisSecretForCR` hands to `CreateOrUpdate`; it hands out the password.
unfoldable pub fill_redis_secret : Draws → Draws → Secret → Result (Secret × Text)
fill_redis_secret rnd rand secret =
    let password = redis_password rnd rand secret in
    ok (
      record secret {
        contents = some (
            (secret_key_redis_password, password)
            ∷ (key_redis_conf, text "requirepass " ++ password)
            ∷ []);
      },
      password,
    )

-- The result of an upsert whose function hands out a text.
abbrev pub text_result : {S : Type 0} → Option Text × Option Error × S → Result Text × S
text_result (y, none, s) = (ok (or_empty y), s)
text_result (y, some e, s) = (err e, s)

abbrev service_body : ImageBuildEnv → Resource ServiceSpec → Resource ServiceSpec
service_body cr svc = record svc {
  body = record svc.body {
    selector = redis_labels_for_cr cr;
    type = text "ClusterIP";
    ports = add_service_port svc.body.ports (record {
      name = redis_port_name;
      port = redis_port;
      target_port = redis_port;
      protocol = text "TCP";
    });
  };
}

module _ {S : Type 0} (deps : RedisDeps S) where
  unfoldable pub upsert_redis_secret_for_cr : Draws → Draws → ImageBuildEnv → S → Result Text × S
  upsert_redis_secret_for_cr rnd rand cr s =
      elim (deps.set_controller_reference cr (new_meta cr.meta.namespace (redis_secret_name cr))) [
        | err e ↦ (err e, s)
        | ok meta ↦ text_result (
            deps.secrets (record { meta = meta; type = type_opaque; contents = none })
              (fill_redis_secret rnd rand) s)
      ]

  -- The pod is only made if it is missing, and is not ready then.
  unfoldable pub create_redis_pod_for_cr : ImageBuildEnv → S → Result Bool × S
  create_redis_pod_for_cr cr s =
      let key : NamespacedName = record {
        namespace = cr.meta.namespace;
        name = redis_name_for_cr cr;
      } in
      elim (deps.pods.get key s) [
        | ok pod ↦ (ok (is_pod_ready pod.body), s)
        | err e ↦
            if is_not_found e
            then elim (deps.set_controller_reference cr (redis_pod_for_cr cr).meta) [
              | err e' ↦ (err e', s)
              | ok meta ↦
                  let (result, s') =
                    deps.pods.create (record (redis_pod_for_cr cr) { meta = meta }) s in
                  (elim result [ ok pod ↦ ok false | err e' ↦ err e' ], s')
            ]
            else (err e, s)
      ]

  -- The function that `upsertRedisServiceForCR` hands to `CreateOrUpdate`.
  unfoldable pub fill_redis_service :
      ImageBuildEnv → Resource ServiceSpec → Result (Resource ServiceSpec × Unit {0})
  fill_redis_service cr svc = do
    meta ← deps.set_controller_reference cr svc.meta
    ok (record (service_body cr svc) { meta = meta }, tt)

  unfoldable pub upsert_redis_service_for_cr : ImageBuildEnv → S → Option Error × S
  upsert_redis_service_for_cr cr s =
      let (u, e, s') =
        deps.services (new_resource cr.meta.namespace (redis_name_for_cr cr) new_service)
          (fill_redis_service cr) s in
      (e, s')

  abbrev redis_data : ImageBuildEnv → Text → Map Text → Map Text
  redis_data cr password contents =
      insert secret_key_redis_password password
        (insert secret_key_redis (redis_name_for_cr cr ++ b':' ∷ format_nat redis_port) contents)

  -- Whether redis is ready, and the data with its address and password.
  unfoldable pub start_redis :
      ImageBuildEnv → Map Text → Result Text × S → Result (Bool × Map Text) × S
  start_redis cr contents (err e, s) = (err e, s)
  start_redis cr contents (ok password, s) =
      let (ready, s1) = create_redis_pod_for_cr cr s in
      elim ready [
        | err e ↦ (err e, s1)
        | ok b ↦
            let (failed, s2) = upsert_redis_service_for_cr cr s1 in
            (elim failed [ none ↦ ok (b, redis_data cr password contents) | some e ↦ err e ], s2)
      ]

  unfoldable pub configure_redis :
      Draws → Draws → ImageBuildEnv → Map Text → S → Result (Bool × Map Text) × S
  configure_redis rnd rand cr contents s =
      if cr.spec.redis
      then start_redis cr contents (upsert_redis_secret_for_cr rnd rand cr s)
      else (ok (true, contents), s)
