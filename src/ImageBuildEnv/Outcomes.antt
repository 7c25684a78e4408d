-- ===== src/ImageBuildEnv/Outcomes.antt =====
-- How a reconciliation of a build environment ends
-- (pkg/controller/imagebuildenv/imagebuildenv_controller.go, `Reconcile`).
use image_registry_operator.Prelude.{
  ◌≡◌, ◌⊎◌, sym, ◌∙◌, ap, subst, true, false, Bool-cases, Option-cases, inl, inr, Option, none,
  some, List, [], arith,
}
use image_registry_operator.Prelude.Int.{pos}
use image_registry_operator.Go.Text.{Text, text}
use image_registry_operator.Go.Map.{Map}
use image_registry_operator.Go.Error.{Error, Result-cases, ok, err, message}
use image_registry_operator.Go.Panic.{Panics-cases, done, panic}
use image_registry_operator.Go.Time.{Duration, seconds}
use image_registry_operator.Kube.Meta.{Secret}
use image_registry_operator.PasswordGen.{Draws}
use image_registry_operator.V1alpha1.{
  ImageBuildEnv, reason_failed_update, reason_missing_secret, reason_invalid_secret, reason_pending,
}
use image_registry_operator.ImageBuildEnv.{load_input_secrets_for_cr, merge_secret_data}
use image_registry_operator.ImageBuildEnv.Redis.{configure_redis}
use image_registry_operator.ImageBuildEnv.Reconcile.{
  Deps, Outcome, Handling, update_status, report, secrets_to_objects, update_secret_references,
  upsert_merged_secret_for_cr, save_merged, after_merge, reconcile_secrets, reconcile_live,
}

done_injective {ℓ} : {A : Type ℓ} (a b : A) → done a ≡ done b → a ≡ b
done_injective a b e = ap (λ m. elim m [ done x ↦ x | panic t ↦ a ]) e

module _ {S : Type 0} (deps : Deps S) (rnd rand : Draws) where
  -- The status is set to not ready, and the error is that of the status update alone.
  pub record Failed (o : Outcome) (h : Handling S) : Type 0 where
    pub reason : Text
    pub msg : Text
    pub before : Handling S
    pub reported : update_status deps false reason msg before ≡ (o.error, h)

  -- Every step went through, and then the status was set to ready.
  pub record Completed (cr : ImageBuildEnv) (s : S) (o : Outcome) (h : Handling S) : Type 0 where
    pub secrets : List Secret
    pub loaded : load_input_secrets_for_cr deps.secret_api cr s ≡ ok secrets
    pub referred : Handling S
    pub references :
        update_secret_references deps (secrets_to_objects secrets) (cr, s) ≡ done (none, referred)
    pub contents : Map Text
    pub merged : merge_secret_data deps.docker_json deps.yaml secrets ≡ ok contents
    pub completed : Map Text
    pub configured : S
    pub redis :
        configure_redis deps.redis rnd rand referred.0 contents referred.1
        ≡ (ok (true, completed), configured)
    pub written : S
    pub upserted :
        upsert_merged_secret_for_cr deps referred.0 completed configured ≡ (none, written)
    pub reported : update_status deps true [] [] (referred.0, written) ≡ (o.error, h)

  -- What a status update with an error and a delay makes of a reconciliation.
  abbrev outcome : Duration → Option Error × Handling S → Outcome × Handling S
  outcome delay (e, h) = (record { requeue_after = delay; error = e }, h)

  reported-eq :
      (delay : Duration) (u : Option Error × Handling S) (o : Outcome) (h : Handling S)
      → outcome delay u ≡ (o, h)
      → (u ≡ (o.error, h)) × (o.requeue_after ≡ delay)
  reported-eq delay (e, h') o h same = (
    ap (λ (r : Outcome × Handling S). (r.0.error, r.1)) same,
    sym (ap (λ (r : Outcome × Handling S). r.0.requeue_after) same),
  )

  report-Failed :
      (delay : Duration) (reason msg : Text) (before h : Handling S) (o : Outcome)
      → report deps delay reason msg before ≡ done (o, h)
      → Failed o h × (o.requeue_after ≡ delay)
  report-Failed delay reason msg before h o e =
      let (same, after) =
        reported-eq delay (update_status deps false reason msg before) o h
          (done_injective (outcome delay (update_status deps false reason msg before)) (o, h) e) in
      (record { reason = reason; msg = msg; before = before; reported = same }, after)

  -- Not ready, or ready, and no request for another run.
  abbrev pub Ended : ImageBuildEnv → S → Outcome → Handling S → Type 0
  Ended cr s o h = (Failed o h ⊎ Completed cr s o h) × (o.requeue_after ≡ pos 0)

  failed_end :
      (cr : ImageBuildEnv) (s : S) (reason msg : Text) (before h : Handling S) (o : Outcome)
      → report deps (pos 0) reason msg before ≡ done (o, h)
      → Ended cr s o h
  failed_end cr s reason msg before h o e =
      let (f, after) = report-Failed (pos 0) reason msg before h o e in (inl f, after)

  save_merged_lem :
      (cr : ImageBuildEnv) (s : S) (secrets : List Secret) (contents : Map Text)
      (referred h : Handling S) (o : Outcome)
      → load_input_secrets_for_cr deps.secret_api cr s ≡ ok secrets
      → update_secret_references deps (secrets_to_objects secrets) (cr, s) ≡ done (none, referred)
      → merge_secret_data deps.docker_json deps.yaml secrets ≡ ok contents
      → save_merged deps rnd rand contents referred ≡ done (o, h)
      → Ended cr s o h
  unfolding save_merged
  save_merged_lem cr s secrets contents (cr1, s1) h o loaded references merged e =
      let c = configure_redis deps.redis rnd rand cr1 contents s1 in
      elim (Result-cases c.0) [
        | inr (x, p) ↦
            failed_end cr s reason_failed_update (message x) (cr1, c.1) h o
              (rw (save_merged, p) at e)
        | inl ((ready, completed), p) ↦ elim (Bool-cases ready) [
          | inr q ↦
              failed_end cr s reason_pending (text "waiting for redis to become ready") (cr1, c.1) h
                o (rw (save_merged, p, q) at e)
          | inl q ↦
              let u = upsert_merged_secret_for_cr deps cr1 completed c.1 in
              elim (Option-cases u.0) [
                | inr (x, v) ↦
                    failed_end cr s reason_failed_update (message x) (cr1, u.1) h o
                      (rw (save_merged, p, q, v) at e)
                | inl v ↦
                    let saved = update_status deps true [] [] (cr1, u.1) in
                    let (same, after) = reported-eq (pos 0) saved o h (
                      done_injective (outcome (pos 0) saved) (o, h)
                        (rw (save_merged, p, q, v) at e)) in
                    (
                      inr (record {
                        secrets = secrets;
                        loaded = loaded;
                        referred = (cr1, s1);
                        references = references;
                        contents = contents;
                        merged = merged;
                        completed = completed;
                        configured = c.1;
                        redis = ap (λ x. (x, c.1)) (p ∙ ap (λ b. ok (b, completed)) q);
                        written = u.1;
                        upserted = ap (λ x. (x, u.1)) v;
                        reported = same;
                      }),
                      after,
                    )
              ]
        ]
      ]

  reconcile_secrets_lem :
      (cr : ImageBuildEnv) (s : S) (secrets : List Secret) (h : Handling S) (o : Outcome)
      → load_input_secrets_for_cr deps.secret_api cr s ≡ ok secrets
      → reconcile_secrets deps rnd rand secrets (cr, s) ≡ done (o, h)
      → Ended cr s o h
  unfolding reconcile_secrets
  reconcile_secrets_lem cr s secrets h o loaded e =
      elim (Panics-cases (update_secret_references deps (secrets_to_objects secrets) (cr, s))) [
        | inl (t, p) ↦ absurd (ground (arith, p, e))
        | inr ((some x, h1), p) ↦
            failed_end cr s reason_failed_update (message x) h1 h o (rw (reconcile_secrets, p) at e)
        | inr ((none, h1), p) ↦
            let e' = rw (reconcile_secrets, p) at e in
            elim (Result-cases (merge_secret_data deps.docker_json deps.yaml secrets)) [
              | inr (x, q) ↦
                  failed_end cr s reason_invalid_secret (message x) h1 h o
                    (subst (λ r. after_merge deps rnd rand r h1 ≡ done (o, h)) q e')
              | inl (contents, q) ↦
                  save_merged_lem cr s secrets contents h1 h o loaded p q
                    (subst (λ r. after_merge deps rnd rand r h1 ≡ done (o, h)) q e')
            ]
      ]

  -- A reconciliation of a build environment that is not deleted and has its finalizer ends in one
  -- of two ways. Either its status is set to not ready, and then it asks for another run only behind
  -- 30 s where an input secret could not be loaded; or all steps went through, in their order, and
  -- its status is set to ready. Its error is that of the status update alone.
  pub reconcile_live_ends :
      (cr : ImageBuildEnv) (s : S) (o : Outcome) (h : Handling S)
      → reconcile_live deps rnd rand (cr, s) ≡ done (o, h)
      → Ended cr s o h
        ⊎ (Failed o h
            × (o.requeue_after ≡ seconds 30)
            × ((x : Error) × (load_input_secrets_for_cr deps.secret_api cr s ≡ err x)))
  unfolding reconcile_live
  reconcile_live_ends cr s o h e =
      elim (Result-cases (load_input_secrets_for_cr deps.secret_api cr s)) [
        | inr (x, p) ↦
            let (f, after) =
              report-Failed (seconds 30) reason_missing_secret (message x) (cr, s) h o
                (rw (reconcile_live, p) at e) in
            inr (f, after, (x, p))
        | inl (secrets, p) ↦
            inl (reconcile_secrets_lem cr s secrets h o p (rw (reconcile_live, p) at e))
      ]
