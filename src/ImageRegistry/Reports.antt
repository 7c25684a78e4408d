-- ===== src/ImageRegistry/Reports.antt =====
-- What a reconciliation leaves in the status of a registry, and when it writes it
-- (pkg/controller/imageregistry/imageregistry_reconcile.go).
use image_registry_operator.Prelude.{
  ◌≡◌, ◌≢◌, ◌⊎◌, refl, sym, ◌∙◌, ap, Bool, true, false, not, ◌||◌, Option, some, List, [],
  Bool-cases, inl, inr, arith,
}
use image_registry_operator.Prelude.Int.{int_eq, int_eq_iff}
use image_registry_operator.Go.Text.{Text, text_eq, text_eq_iff, text_eq_refl}
use image_registry_operator.Go.Map.{lookup}
use image_registry_operator.Go.Error.{Error, error_of}
use image_registry_operator.Go.Panic.{done}
use image_registry_operator.V1alpha1.{
  ImageRegistry, ImageRegistryStatus, condition_ready, condition_synced,
}
use image_registry_operator.ImageRegistry.Upsert.{ReconcileImageRegistry, Conditions, Task}
use image_registry_operator.ImageRegistry.Names.{registry_hostname, tls_secret_name_for_cr}
use image_registry_operator.ImageRegistry.Reconcile.{
  Deps, sync_condition, set_sync_conditions, merge_conditions, new_status, status_changed,
  first_error, update_status, run_tasks, reconcile_found,
}
use image_registry_operator.ImageRegistry.Status.{
  IsKeyed, ConditionLaws, newer, ready_after, merge_conditions-lookup, merge_quiet, merge_unchanged,
  set_sync-IsKeyed, set_sync-synced, set_sync-ready,
}

-- A status reports the error `e` of tasks that set the conditions `set`, on top of the conditions
-- `old`: whether they went through, and the ready condition, which is false if they did not.
pub record Reports (cr : ImageRegistry) (r : ReconcileImageRegistry) (e : Option Error)
    (set : Conditions) (status : ImageRegistryStatus) : Type 0 where
  pub synced : lookup condition_synced status.conditions ≡ some (sync_condition e)
  pub ready :
      lookup condition_ready status.conditions
      ≡ newer
          (ready_after e (lookup condition_ready set))
          (lookup condition_ready cr.status.conditions)
  pub generation : status.observed_generation ≡ cr.meta.generation
  pub hostname : status.hostname ≡ registry_hostname cr r.dns_zone
  pub tls_secret_name : status.tls_secret_name ≡ tls_secret_name_for_cr cr

none_differs :
    (a b c d : Bool)
    → (a || not b || not c || not d) ≡ false
    → (a ≡ false) × (b ≡ true) × (c ≡ true) × (d ≡ true)
none_differs a b c d h = ground arith

module _ {S K : Type 0} (deps : Deps S K) (laws : ConditionLaws deps.set_condition)
    (r : ReconcileImageRegistry) where
  -- The conditions of the status after the tasks, and whether they differ.
  abbrev pub merged : ImageRegistry → Option Error → Conditions → Conditions × Bool
  merged cr e set =
      merge_conditions deps.set_condition (set_sync_conditions deps.set_condition e set)
        (cr.status.conditions, false)

  merged-Reports :
      (cr : ImageRegistry) (e : Option Error) (set : Conditions)
      → IsKeyed set
      → Reports cr r e set (new_status r cr (merged cr e set).0)
  unfolding new_status
  merged-Reports cr e set keyed =
      let found = λ (type : Text).
        merge_conditions-lookup deps.set_condition laws type
          (set_sync_conditions deps.set_condition e set) cr.status.conditions false
          (set_sync-IsKeyed deps.set_condition laws e set keyed) in
      record {
        synced =
            found condition_synced
            ∙ ap (λ c. newer c (lookup condition_synced cr.status.conditions))
                (set_sync-synced deps.set_condition laws e set);
        ready =
            found condition_ready
            ∙ ap (λ c. newer c (lookup condition_ready cr.status.conditions))
                (set_sync-ready deps.set_condition laws e set);
        generation = refl;
        hostname = refl;
        tls_secret_name = refl;
      }

  unchanged_means :
      (cr : ImageRegistry) (changed : Bool)
      → status_changed r cr changed ≡ false
      → (changed ≡ false)
        × (cr.status.observed_generation ≡ cr.meta.generation)
        × (cr.status.hostname ≡ registry_hostname cr r.dns_zone)
        × (cr.status.tls_secret_name ≡ tls_secret_name_for_cr cr)
  unfolding status_changed
  unchanged_means cr changed h =
      let (same, generation, hostname, secret) =
        none_differs changed (int_eq cr.status.observed_generation cr.meta.generation)
          (text_eq cr.status.hostname (registry_hostname cr r.dns_zone))
          (text_eq cr.status.tls_secret_name (tls_secret_name_for_cr cr)) h in
      (
        same,
        (int_eq_iff cr.status.observed_generation cr.meta.generation).0 generation,
        (text_eq_iff cr.status.hostname (registry_hostname cr r.dns_zone)).0 hostname,
        (text_eq_iff cr.status.tls_secret_name (tls_secret_name_for_cr cr)).0 secret,
      )

  unchanged-Reports :
      (cr : ImageRegistry) (e : Option Error) (set : Conditions)
      → IsKeyed set
      → status_changed r cr (merged cr e set).1 ≡ false
      → Reports cr r e set cr.status
  unfolding new_status
  unchanged-Reports cr e set keyed h =
      let new = set_sync_conditions deps.set_condition e set in
      let (same, generation, hostname, secret) = unchanged_means cr (merged cr e set).1 h in
      let kept = λ (type : Text).
        (merge_unchanged deps.set_condition laws new cr.status.conditions false type same).1 in
      let now = merged-Reports cr e set keyed in
      record {
        synced = sym (kept condition_synced) ∙ now.synced;
        ready = sym (kept condition_ready) ∙ now.ready;
        generation = generation;
        hostname = hostname;
        tls_secret_name = secret;
      }

  -- Where the code sees a change, the status that it saves is another one.
  changed-differs :
      (cr : ImageRegistry) (e : Option Error) (set : Conditions)
      → IsKeyed set
      → status_changed r cr (merged cr e set).1 ≡ true
      → new_status r cr (merged cr e set).0 ≢ cr.status
  unfolding new_status status_changed
  changed-differs cr e set keyed changed same =
      let new = set_sync_conditions deps.set_condition e set in
      let keyed' = set_sync-IsKeyed deps.set_condition laws e set keyed in
      let kept : (merged cr e set).0 ≡ cr.status.conditions = ap (λ x. x.conditions) same in
      let quiet =
        merge_quiet deps.set_condition laws new cr.status.conditions keyed' λ type c found.
          ap (lookup type) (sym kept)
          ∙ merge_conditions-lookup deps.set_condition laws type new cr.status.conditions false
              keyed'
          ∙ ap (λ o. newer o (lookup type cr.status.conditions)) found in
      let generation =
        (int_eq_iff cr.status.observed_generation cr.meta.generation).1
          (sym (ap (λ x. x.observed_generation) same)) in
      let hostname =
        (text_eq_iff cr.status.hostname (registry_hostname cr r.dns_zone)).1
          (sym (ap (λ x. x.hostname) same)) in
      let secret =
        (text_eq_iff cr.status.tls_secret_name (tls_secret_name_for_cr cr)).1
          (sym (ap (λ x. x.tls_secret_name) same)) in
      absurd (ground (arith, changed, quiet, generation, hostname, secret))

  -- After its tasks, a reconciliation either finds a status that reports their outcome and writes
  -- nothing, or saves another one that does; its error is that of the tasks, or else that of the write.
  -- `SetCondition` is as documented, and the tasks set no condition twice.
  pub status_is_reported :
      (tasks : List (Task S)) (cr : ImageRegistry) (e : Option Error) (set : Conditions) (s s' : S)
      → run_tasks tasks (record cr { status = record cr.status { conditions = [] } }) [] s
        ≡ done (e, set, s')
      → IsKeyed set
      → (Reports cr r e set cr.status × (reconcile_found deps r tasks cr s ≡ done (e, s')))
        ⊎ ((status : ImageRegistryStatus) × Reports cr r e set status
            × (status ≢ cr.status)
            × (reconcile_found deps r tasks cr s ≡ (
                let w = deps.registry_api.update_status (record cr { status = status }) s' in
                done (first_error e (error_of w.0), w.1))))
  unfolding reconcile_found update_status
  status_is_reported tasks cr e set s s' ran keyed =
      elim (Bool-cases (status_changed r cr (merged cr e set).1)) [
        | inl p ↦ inr (
          new_status r cr (merged cr e set).0,
          merged-Reports cr e set keyed,
          changed-differs cr e set keyed p,
          rw (ran, p) refl,
        )
        | inr p ↦ inl (unchanged-Reports cr e set keyed p, rw (ran, p) refl)
      ]

  saved_is_quiet :
      (cr : ImageRegistry) (e : Option Error) (set : Conditions)
      → IsKeyed set
      → (merged (record cr { status = new_status r cr (merged cr e set).0 }) e set).1 ≡ false
  unfolding new_status
  saved_is_quiet cr e set keyed =
      let new = set_sync_conditions deps.set_condition e set in
      let keyed' = set_sync-IsKeyed deps.set_condition laws e set keyed in
      merge_quiet deps.set_condition laws new (merged cr e set).0 keyed' λ type c found.
        merge_conditions-lookup deps.set_condition laws type new cr.status.conditions false keyed'
        ∙ ap (λ o. newer o (lookup type cr.status.conditions)) found

  -- Once the status that a reconciliation saves is stored, a second one whose tasks have the same
  -- outcome writes no status. `SetCondition` is as documented, and the tasks set no condition twice.
  pub second_run_is_quiet :
      (tasks : List (Task S)) (cr : ImageRegistry) (e : Option Error) (set : Conditions) (s s' : S)
      → IsKeyed set
      → run_tasks tasks
          (record cr { status = record (new_status r cr (merged cr e set).0) { conditions = [] } })
          []
          s
        ≡ done (e, set, s')
      → reconcile_found deps r tasks (record cr { status = new_status r cr (merged cr e set).0 }) s
        ≡ done (e, s')
  unfolding reconcile_found update_status status_changed new_status registry_hostname text_eq
      tls_secret_name_for_cr
  second_run_is_quiet tasks cr e set s s' keyed ran =
      let quiet = saved_is_quiet cr e set keyed in
      let generation = (int_eq_iff cr.meta.generation cr.meta.generation).1 refl in
      let hostname = text_eq_refl (registry_hostname cr r.dns_zone) in
      let secret = text_eq_refl (tls_secret_name_for_cr cr) in
      rw (ran, quiet, generation, hostname, secret) refl
