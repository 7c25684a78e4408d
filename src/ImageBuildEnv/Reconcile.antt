-- ===== src/ImageBuildEnv/Reconcile.antt =====
-- pkg/controller/imagebuildenv: `Reconcile` with `updateStatus` and `upsertMergedSecretForCR`, and the
-- owner of the references in inputstatusrefs.go. The state of the handler is the CR as it has it in
-- memory and the cluster.
use image_registry_operator.Prelude.{
  Bool, true, false, Option, none, some, List, [], ◌++◌, map, if◌then◌else◌,
}
use image_registry_operator.Prelude.Int.{pos}
use image_registry_operator.Go.Text.{Text, text}
use image_registry_operator.Go.Map.{Map}
use image_registry_operator.Go.Error.{Error, Result, ok, err, is_not_found, message}
use image_registry_operator.Go.Panic.{Panics, done, ◌>>=◌}
use image_registry_operator.Go.Time.{Duration, seconds}
use image_registry_operator.Kube.Meta.{NamespacedName, ObjectMeta, Secret, Condition, new_meta}
use image_registry_operator.Kube.Api.{Api}
use image_registry_operator.Merge.{has_finalizer}
use image_registry_operator.Backrefs.Handler.{
  Ref, Owner, Client, owner_references, update_references,
}
use image_registry_operator.RegistriesConf.Docker.{DockerJson}
use image_registry_operator.RegistriesConf.Makisu.{MakisuRegistries}
use image_registry_operator.PasswordGen.{Draws}
use image_registry_operator.V1alpha1.{
  ImageBuildEnv, condition_ready, reason_failed_update, reason_missing_secret,
  reason_invalid_secret, reason_pending,
}
use image_registry_operator.ImageBuildEnv.{
  load_input_secrets_for_cr, merge_secret_data, type_opaque,
}
use image_registry_operator.ImageBuildEnv.Redis.{CreateOrUpdate, RedisDeps, configure_redis}

abbrev pub finalizer : Text
finalizer = text "registry.mgoltzsche.github.com/inputrefs"

pub record Deps (S : Type 0) : Type 0 where
  pub redis : RedisDeps S
  pub build_env_api : Api S ImageBuildEnv
  pub secret_api : Api S Secret
  pub merged_secrets : CreateOrUpdate S Secret (Unit {0})
  -- the client's calls on the objects that are referred to
  pub get_ref : Ref → S → Result Ref
  pub update_ref : Ref → S → Result Ref × S
  -- the API version and the kind in a CR's `TypeMeta`
  pub type_meta : ImageBuildEnv → Text × Text
  pub add_finalizer : Text → ObjectMeta → ObjectMeta
  pub remove_finalizer : Text → ObjectMeta → ObjectMeta
  pub set_condition : Condition → Map Condition → Map Condition × Bool
  pub docker_json : DockerJson
  pub yaml : MakisuRegistries → Text

pub record Outcome : Type 0 where
  pub requeue_after : Duration
  pub error : Option Error

abbrev pub finished : Option Error → Outcome
finished e = record { requeue_after = pos 0; error = e }

-- The CR in memory and the cluster.
abbrev pub Handling : Type 0 → Type 0
Handling S = ImageBuildEnv × S

-- A secret as a reference, by its Go type.
abbrev pub secret_ref : ObjectMeta → Ref
secret_ref meta = record { go_type = text "*v1.Secret"; meta = meta }

abbrev pub secrets_to_objects : List Secret → List Ref
secrets_to_objects = map λ (secret : Secret). secret_ref secret.meta

unfoldable pub get_status_references : ImageBuildEnv → List Ref
get_status_references cr =
    map (λ name. secret_ref (new_meta cr.meta.namespace name)) cr.status.secret_refs

unfoldable pub set_status_references : List Ref → ImageBuildEnv → ImageBuildEnv
set_status_references refs cr = record cr {
  status = record cr.status { secret_refs = map (λ (ref : Ref). ref.meta.name) refs };
}

module _ {S : Type 0} (deps : Deps S) where
  -- A write of the CR: the server's answer replaces the CR in memory.
  abbrev pub answered : ImageBuildEnv → Result ImageBuildEnv × S → Option Error × Handling S
  answered cr (ok saved, s) = (none, (saved, s))
  answered cr (err e, s) = (some e, (cr, s))

  unfoldable pub update_status : Bool → Text → Text → Handling S → Option Error × Handling S
  update_status ready reason msg (cr, s) =
      let (conditions, changed) =
        deps.set_condition
          (record { type = condition_ready; is_true = ready; reason = reason; message = msg })
          cr.status.conditions in
      let cr' : ImageBuildEnv = record cr {
        status = record cr.status { conditions = conditions };
      } in
      if changed then answered cr' (deps.build_env_api.update_status cr' s) else (none, (cr', s))

  -- `referenceOwner`.
  abbrev pub owner_of : ImageBuildEnv → Owner
  owner_of cr = record {
    object = record {
      meta = cr.meta;
      api_version = (deps.type_meta cr).0;
      kind = (deps.type_meta cr).1;
    };
    status_references = get_status_references cr;
  }

  abbrev owner_answer : Option Error × Handling S → Result Owner × Handling S
  owner_answer (none, (cr, s)) = (ok (owner_of cr), (cr, s))
  owner_answer (some e, (cr, s)) = (err e, (cr, s))

  -- The client as the handler of references sees it: a status update goes by way of
  -- `SetStatusReferences` on the CR in memory.
  unfoldable pub reference_client : Client (Handling S)
  reference_client = record {
    get = λ ref (cr, s). deps.get_ref ref s;
    update = λ ref (cr, s). let (result, s') = deps.update_ref ref s in (result, (cr, s'));
    update_status = λ owner (cr, s).
        let cr' = set_status_references owner.status_references cr in
        owner_answer (answered cr' (deps.build_env_api.update_status cr' s));
  }

  unfoldable pub update_secret_references :
      List Ref → Handling S → Panics (Option Error × Handling S)
  update_secret_references refs (cr, s) =
      update_references reference_client owner_references (owner_of cr) refs (cr, s)

  unfoldable pub upsert_merged_secret_for_cr : ImageBuildEnv → Map Text → S → Option Error × S
  upsert_merged_secret_for_cr cr contents s =
      let meta =
        new_meta cr.meta.namespace (text "imagebuildenv-" ++ (cr.meta.name ++ text "-conf")) in
      elim (deps.redis.set_controller_reference cr meta) [
        | err e ↦ (some e, s)
        | ok owned ↦
            let (u, e, s') =
              deps.merged_secrets (record { meta = owned; type = type_opaque; contents = none })
                (λ secret. ok (record secret { contents = some contents }, tt)) s in
            (e, s')
      ]

  -- The status of a failure; the error is that of the status update alone.
  abbrev pub report : Duration → Text → Text → Handling S → Panics (Outcome × Handling S)
  report delay reason msg h =
      let (e, h') = update_status false reason msg h in
      done (record { requeue_after = delay; error = e }, h')

  unfoldable pub finalize : Handling S → Panics (Outcome × Handling S)
  finalize h = do
    (e, (cr, s)) ← update_secret_references [] h
    elim e [
      | some e ↦ done (finished (some e), (cr, s))
      | none ↦
          let released : ImageBuildEnv = record cr {
            meta = deps.remove_finalizer finalizer cr.meta;
          } in
          let (e', h') = answered released (deps.build_env_api.update released s) in
          done (finished e', h')
    ]

  unfoldable pub protect : Handling S → Outcome × Handling S
  protect (cr, s) =
      let guarded : ImageBuildEnv = record cr { meta = deps.add_finalizer finalizer cr.meta } in
      let (e, h) = answered guarded (deps.build_env_api.update guarded s) in
      elim e [
        | none ↦ (finished none, h)
        | some e' ↦
            (finished (some e'), (update_status false reason_failed_update (message e') h).1)
      ]

  abbrev finish : Option Error × S → ImageBuildEnv → Panics (Outcome × Handling S)
  finish (none, s) cr = let (e, h) = update_status true [] [] (cr, s) in done (finished e, h)
  finish (some e, s) cr = report (pos 0) reason_failed_update (message e) (cr, s)

  -- From `configureRedis` on.
  unfoldable pub save_merged : Draws → Draws → Map Text → Handling S → Panics (Outcome × Handling S)
  save_merged rnd rand contents (cr, s) =
      let (configured, s') = configure_redis deps.redis rnd rand cr contents s in
      elim configured [
        | err e ↦ report (pos 0) reason_failed_update (message e) (cr, s')
        | ok (ready, contents') ↦
            if ready
            then finish (upsert_merged_secret_for_cr cr contents' s') cr
            else report (pos 0) reason_pending (text "waiting for redis to become ready") (cr, s')
      ]

  abbrev pub after_merge :
      Draws → Draws → Result (Map Text) → Handling S → Panics (Outcome × Handling S)
  after_merge rnd rand (err e) h = report (pos 0) reason_invalid_secret (message e) h
  after_merge rnd rand (ok contents) h = save_merged rnd rand contents h

  -- The references are set before the secrets are merged.
  unfoldable pub reconcile_secrets :
      Draws → Draws → List Secret → Handling S → Panics (Outcome × Handling S)
  reconcile_secrets rnd rand secrets h = do
    (e, h1) ← update_secret_references (secrets_to_objects secrets) h
    elim e [
      | some e ↦ report (pos 0) reason_failed_update (message e) h1
      | none ↦ after_merge rnd rand (merge_secret_data deps.docker_json deps.yaml secrets) h1
    ]

  unfoldable pub reconcile_live : Draws → Draws → Handling S → Panics (Outcome × Handling S)
  reconcile_live rnd rand (cr, s) = elim (load_input_secrets_for_cr deps.secret_api cr s) [
    | err e ↦ report (seconds 30) reason_missing_secret (message e) (cr, s)
    | ok secrets ↦ reconcile_secrets rnd rand secrets (cr, s)
  ]

  unfoldable pub reconcile_found : Draws → Draws → Handling S → Panics (Outcome × Handling S)
  reconcile_found rnd rand (cr, s) = elim cr.meta.deletion_timestamp [
    | some deleted ↦
        if has_finalizer cr.meta finalizer then finalize (cr, s) else done (finished none, (cr, s))
    | none ↦
        if has_finalizer cr.meta finalizer
        then reconcile_live rnd rand (cr, s)
        else done (protect (cr, s))
  ]

  abbrev cluster_of : Panics (Outcome × Handling S) → Panics (Outcome × S)
  cluster_of m = m >>= λ r. done (r.0, r.1.1)

  unfoldable pub reconcile : Draws → Draws → NamespacedName → S → Panics (Outcome × S)
  reconcile rnd rand request s = elim (deps.build_env_api.get request s) [
    | err e ↦ if is_not_found e then done (finished none, s) else done (finished (some e), s)
    | ok cr ↦ cluster_of (reconcile_found rnd rand (cr, s))
  ]
