-- ===== src/Operator/Startup.antt =====
-- What has happened when `main` of cmd/manager/main.go starts the manager.
use image_registry_operator.Prelude.{◌≡◌, ◌∙◌, ap, inl, inr, none, some, Option, arith}
use image_registry_operator.Go.Text.{Text}
use image_registry_operator.Go.Error.{Error, Result, ok, err}
use image_registry_operator.Go.Panic.{Panics, Panics-cases, done}
use image_registry_operator.Kube.Controller.{Registers}
use image_registry_operator.Controllers.{Setup, add_to_manager, add_to_manager_funcs}
use image_registry_operator.Controllers.Registration.{Registered, SetUp, add_to_manager-SetUp}
use image_registry_operator.Operator.{
  Process, Run, or_exit, call, call_panics, exit_on, ◌>>=◌, serve_metrics, options_in, lock_name,
  main,
}

module _ {W : Type 0} where
  -- The parts of a step that does not exit.
  >>=-eq_done :
      {A B : Type 0} (m : Run W A) (f : A → Run W B) (w : W) {b : B} {w' : W}
      → (m >>= f) w ≡ done (some b, w')
      → (a : A) × (t : W) × (m w ≡ done (some a, t)) × (f a t ≡ done (some b, w'))
  >>=-eq_done m f w e = elim (Panics-cases (m w)) [
    | inl (x, p) ↦ absurd (ground (arith, p, e))
    | inr ((none, t), p) ↦ absurd (ground (arith, p, e))
    | inr ((some a, t), p) ↦ (a, t, p, ground (arith, p, e))
  ]

  or_exit-eq_done :
      {A : Type 0} (r : Result A) (w : W) {a : A} {t : W}
      → or_exit r w ≡ done (some a, t)
      → (r ≡ ok a) × (w ≡ t)
  or_exit-eq_done (ok b) w e = ground (arith, e)
  or_exit-eq_done (err x) w e = absurd (ground (arith, e))

  exit_on-eq_done :
      (r : Option Error × W) {a : Unit {0}} {t : W} → exit_on r ≡ done (some a, t) → r ≡ (none, t)
  exit_on-eq_done (none, w) e = ground (arith, e)
  exit_on-eq_done (some x, w) e = absurd (ground (arith, e))

  call_panics-eq_done :
      (f : W → Panics (Option Error × W)) (w : W) {a : Unit {0}} {t : W}
      → call_panics f w ≡ done (some a, t)
      → f w ≡ done (none, t)
  call_panics-eq_done f w e = elim (Panics-cases (f w)) [
    | inl (x, p) ↦ absurd (ground (arith, p, e))
    | inr ((some y, t), p) ↦ absurd (ground (arith, p, e))
    | inr ((none, t), p) ↦ ground (arith, p, e)
  ]

module _ {F G V M C S K : Type 0} (process : Process F G V (M × S)) (setup : Setup M C S K)
    (reg : Registers setup.api) where
  -- The calls of `main`, each without an error, on the state that the one before left.
  pub record Started (w w' : M × S) : Type 0 where
    pub namespace : Text
    pub cfg : F
    pub led : M × S
    pub made : M × S
    pub typed : M × S
    pub ready : M × S
    pub added : M × S
    pub registered : Registered
    pub watches_namespace : process.get_watch_namespace ≡ ok namespace
    pub has_config : process.get_config ≡ ok cfg
    pub leads : process.become_leader lock_name w ≡ (none, led)
    pub has_manager : process.new_manager cfg (options_in namespace) led ≡ (none, made)
    pub knows_apis : process.add_apis_to_scheme made ≡ (none, typed)
    pub knows_certmgr : process.add_certmgr_to_scheme typed ≡ (none, ready)
    pub set_up : SetUp setup reg ready.0 added.0 ready.1 added.1 registered
    pub starts : process.start (serve_metrics process cfg namespace added) ≡ (none, w')

  -- If `main` returns, each of its calls succeeded, in their order: the operator was the leader before
  -- it made the manager, then all controllers were added, so that the manager has exactly their
  -- watches and the root CA was renewed, and only then was the manager started, behind the metrics,
  -- whose errors do not matter.
  pub main-Started : (w w' : M × S) → main process setup w ≡ done (some tt, w') → Started w w'
  unfolding main
  main-Started w w' e =
      let (namespace, w1, e1, f1) = >>=-eq_done (or_exit process.get_watch_namespace) _ w e in
      let (cfg, w2, e2, f2) = >>=-eq_done (or_exit process.get_config) _ w1 f1 in
      let (_, led, e3, f3) = >>=-eq_done (call (process.become_leader lock_name)) _ w2 f2 in
      let (_, made, e4, f4) =
        >>=-eq_done (call (process.new_manager cfg (options_in namespace))) _ led f3 in
      let (_, typed, e5, f5) = >>=-eq_done (call process.add_apis_to_scheme) _ made f4 in
      let (_, ready, e6, f6) = >>=-eq_done (call process.add_certmgr_to_scheme) _ typed f5 in
      let (_, added, e7, f7) =
        >>=-eq_done (call_panics (add_to_manager (add_to_manager_funcs setup))) _ ready f6 in
      let (known, same1) = or_exit-eq_done process.get_watch_namespace w e1 in
      let (configured, same2) = or_exit-eq_done process.get_config w1 e2 in
      let all = call_panics-eq_done (add_to_manager (add_to_manager_funcs setup)) ready e7 in
      let (g, up) = add_to_manager-SetUp setup reg ready.0 added.0 ready.1 added.1 all in
      record {
        namespace = namespace;
        cfg = cfg;
        led = led;
        made = made;
        typed = typed;
        ready = ready;
        added = added;
        registered = g;
        watches_namespace = known;
        has_config = configured;
        leads =
            ap (process.become_leader lock_name) (same1 ∙ same2)
            ∙ exit_on-eq_done (process.become_leader lock_name w2) e3;
        has_manager = exit_on-eq_done (process.new_manager cfg (options_in namespace) led) e4;
        knows_apis = exit_on-eq_done (process.add_apis_to_scheme made) e5;
        knows_certmgr = exit_on-eq_done (process.add_certmgr_to_scheme typed) e6;
        set_up = up;
        starts = exit_on-eq_done (process.start (serve_metrics process cfg namespace added)) f7;
      }
