-- ===== src/ImageRegistry/Tasks.antt =====
-- The loop over the tasks, and what a missing root CA stops
-- (pkg/controller/imageregistry/imageregistry_reconcile.go and imageregistry_reconcile_certs.go).
use image_registry_operator.Prelude.{
  ◌≡◌, ◌↔◌, refl, sym, ◌∙◌, ap, subst, Option, none, some, List, [], ◌∷◌, ◌++◌, inl, inr, arith,
}
use image_registry_operator.Go.Error.{Error, err}
use image_registry_operator.Go.Panic.{Panics, Panics-cases, done, panic}
use image_registry_operator.Kube.Meta.{NamespacedName}
use image_registry_operator.Certs.Root.{key_pair}
use image_registry_operator.V1alpha1.{ImageRegistry}
use image_registry_operator.ImageRegistry.Upsert.{ReconcileImageRegistry, Conditions, Task}
use image_registry_operator.ImageRegistry.Certificates.{reconcile_token_cert, reconcile_tls_cert}
use image_registry_operator.ImageRegistry.Reconcile.{Deps, Readings, run_tasks, reconcile_tasks}

module _ {S : Type 0} (cr : ImageRegistry) where
  abbrev Passed : List (Task S) → Conditions × S → Conditions × S → Type 0
  Passed tasks (set, s) (set', s') = run_tasks tasks cr set s ≡ done (none, set', s')

  -- A task fails on what the tasks before it left; the tasks behind it are not looked at.
  pub record Fails (tasks : List (Task S)) (set : Conditions) (s : S) (e : Error)
      (set' : Conditions) (s' : S) : Type 0 where
    pub before : List (Task S)
    pub failing : Task S
    pub behind : List (Task S)
    pub at : Conditions × S
    pub split : tasks ≡ before ++ failing ∷ behind
    pub passed : Passed before (set, s) at
    pub failed : failing cr at.0 at.1 ≡ done (some e, set', s')

  run_next :
      (task : Task S) (tasks : List (Task S)) (set set1 : Conditions) (s s1 : S)
      → task cr set s ≡ done (none, set1, s1)
      → run_tasks (task ∷ tasks) cr set s ≡ run_tasks tasks cr set1 s1
  unfolding run_tasks
  run_next task tasks set set1 s s1 p = rw p refl

  run_last :
      (task : Task S) (tasks : List (Task S)) (set set1 : Conditions) (s s1 : S) (e : Error)
      → task cr set s ≡ done (some e, set1, s1)
      → run_tasks (task ∷ tasks) cr set s ≡ done (some e, set1, s1)
  unfolding run_tasks
  run_last task tasks set set1 s s1 e p = rw p refl

  -- What a run leaves that does not panic.
  abbrev left_by : Conditions × S → Panics (Option Error × Conditions × S) → Conditions × S
  left_by at (done (e, set, s)) = (set, s)
  left_by at (panic t) = at

  next-Fails :
      (task : Task S) (tasks : List (Task S)) (set set1 set' : Conditions) (s s1 s' : S) (e : Error)
      → task cr set s ≡ done (none, set1, s1)
      → Fails tasks set1 s1 e set' s'
      → Fails (task ∷ tasks) set s e set' s'
  unfolding run_tasks
  next-Fails task tasks set set1 set' s s1 s' e went f = record {
    before = task ∷ f.before;
    failing = f.failing;
    behind = f.behind;
    at = f.at;
    split = ap (λ l. task ∷ l) f.split;
    passed = rw went f.passed;
    failed = f.failed;
  }

  run_tasks-Fails :
      (tasks : List (Task S)) (set set' : Conditions) (s s' : S) (e : Error)
      → run_tasks tasks cr set s ≡ done (some e, set', s')
      → Fails tasks set s e set' s'
  unfolding run_tasks
  run_tasks-Fails [] set set' s s' e ran = absurd (ground (arith, ran))
  run_tasks-Fails (task ∷ tasks) set set' s s' e ran = elim (Panics-cases (task cr set s)) [
    | inl (t, p) ↦ absurd (ground (arith, p, ran))
    | inr ((none, set1, s1), p) ↦
        next-Fails task tasks set set1 set' s s1 s' e p (
          run_tasks-Fails tasks set1 set' s1 s' e (sym (run_next task tasks set set1 s s1 p) ∙ ran))
    | inr ((some e', set1, s1), p) ↦ record {
      before = [];
      failing = task;
      behind = tasks;
      at = (set, s);
      split = refl;
      passed = refl;
      failed = p ∙ sym (run_last task tasks set set1 s s1 e' p) ∙ ran;
    }
  ]

  run_stops :
      (before behind : List (Task S)) (failing : Task S) (set set1 set' : Conditions) (s s1 s' : S)
      (e : Error)
      → run_tasks before cr set s ≡ done (none, set1, s1)
      → failing cr set1 s1 ≡ done (some e, set', s')
      → run_tasks (before ++ failing ∷ behind) cr set s ≡ done (some e, set', s')
  unfolding run_tasks
  run_stops [] behind failing set set1 set' s s1 s' e ran failed =
      let same : (set1, s1) ≡ (set, s) = ap (left_by (set, s)) (sym ran) in
      run_last failing behind set set' s s' e (
        subst (λ (at : Conditions × S). failing cr at.0 at.1 ≡ done (some e, set', s')) same failed)
  run_stops (task ∷ before) behind failing set set1 set' s s1 s' e ran failed =
      elim (Panics-cases (task cr set s)) [
        | inl (t, p) ↦ absurd (ground (arith, p, ran))
        | inr ((none, set2, s2), p) ↦
            run_next task (before ++ failing ∷ behind) set set2 s s2 p
            ∙ run_stops before behind failing set2 set1 set' s2 s1 s' e
                (sym (run_next task before set set2 s s2 p) ∙ ran) failed
        | inr ((some e', set2, s2), p) ↦ absurd (ground (arith, p, ran))
      ]

  -- A run of tasks ends with an error exactly if one of them fails on what those before it left
  -- without an error, and it leaves what that task left: the tasks behind it do not run.
  pub run_tasks-Fails_iff :
      (tasks : List (Task S)) (set set' : Conditions) (s s' : S) (e : Error)
      → (run_tasks tasks cr set s ≡ done (some e, set', s')) ↔ Fails tasks set s e set' s'
  run_tasks-Fails_iff tasks set set' s s' e = (
    run_tasks-Fails tasks set set' s s' e,
    λ f.
        ap (λ l. run_tasks l cr set s) f.split
        ∙ run_stops f.before f.behind f.failing set f.at.0 set' s f.at.1 s' e f.passed f.failed,
  )

-- A registry whose certificate the operator makes gets nothing but its token CA while the root CA
-- cannot be read: the tasks end with that error, on the cluster that the first task left.
pub nothing_without_root_ca :
    {S K : Type 0} (deps : Deps S K) (r : ReconcileImageRegistry) (root : NamespacedName)
    (readings : Readings) (cr : ImageRegistry) (set set1 : Conditions) (s s1 : S) (e : Error)
    → reconcile_token_cert deps.certs readings.token cr set s ≡ done (none, set1, s1)
    → cr.spec.tls.issuer_ref ≡ none
    → cr.spec.tls.secret_name ≡ none
    → key_pair deps.certs.crypto deps.certs.get_secret root s1 ≡ done (err e)
    → run_tasks (reconcile_tasks deps r root readings) cr set s ≡ done (some e, set1, s1)
unfolding reconcile_tasks reconcile_tls_cert
nothing_without_root_ca deps r root readings cr set set1 s s1 e token no_issuer no_secret unread =
    run_next cr (reconcile_token_cert deps.certs readings.token) _ set set1 s s1 token
    ∙ run_last cr (reconcile_tls_cert deps.certs r root readings.tls) _ set1 set1 s1 s1 e
        (rw (no_issuer, no_secret, unread) refl)
