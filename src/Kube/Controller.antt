-- ===== src/Kube/Controller.antt =====
-- The manager and the controllers of controller-runtime, as far as the operator sets them up: what it
-- calls, what these calls are documented to do, and which requests an event makes.
use image_registry_operator.Prelude.{◌≡◌, Bool, true, false, Option, none, List, [], ◌∷◌, ◌++◌, Has}
use image_registry_operator.Go.Text.{Text}
use image_registry_operator.Go.Error.{Error, Result, ok}
use image_registry_operator.Kube.Meta.{NamespacedName, ObjectMeta, OwnerReference, key_of}

-- The type of the objects of a `source.Kind`.
pub data Kind : Type 0 where
  image_registry image_registry_account image_pull_secret image_push_secret image_build_env : Kind
  secret service pod stateful_set persistent_volume_claim service_account role role_binding : Kind

-- `EnqueueRequestForObject`, `EnqueueRequestForOwner` with `IsController` and the owner's type, and
-- `EnqueueRequestsFromMapFunc`.
pub data EventHandler : Type 0 where
  enqueue_request_for_object : EventHandler
  enqueue_request_for_owner : Bool → Kind → EventHandler
  enqueue_requests_from_map_func : (ObjectMeta → List NamespacedName) → EventHandler

-- `controller.New` for a reconciler, and `Watch` of a controller.
pub record ManagerApi (M C R : Type 0) : Type 0 where
  pub new_controller : Text → R → M → Result C × M
  pub watch : C → Kind → EventHandler → M → Option Error × M

-- An event of an object of the kind makes the requests of the handler for the reconciler.
pub record Watch (R : Type 0) : Type 0 where
  pub reconciler : R
  pub kind : Kind
  pub handler : EventHandler

-- A manager has its watches, in their order: a new controller has none, and a call of `Watch` without
-- an error adds one.
pub record Registers {M C R : Type 0} (api : ManagerApi M C R) : Type 0 where
  pub watches : M → List (Watch R)
  pub reconciler_of : C → R
  pub made :
      (name : Text) (r : R) (m m' : M) (c : C)
      → api.new_controller name r m ≡ (ok c, m')
      → (watches m' ≡ watches m) × (reconciler_of c ≡ r)
  pub added :
      (c : C) (k : Kind) (h : EventHandler) (m m' : M)
      → api.watch c k h m ≡ (none, m')
      → watches m'
        ≡ watches m ++ record { reconciler = reconciler_of c; kind = k; handler = h } ∷ []

-- What each handler enqueues for an object. `type_meta` has the API version and the kind that the
-- scheme knows for a Go type.
pub record Enqueues (type_meta : Kind → Text × Text)
    (requests : EventHandler → ObjectMeta → List NamespacedName) : Type 0 where
  pub for_object : (m : ObjectMeta) → requests enqueue_request_for_object m ≡ key_of m ∷ []
  pub for_map :
      (f : ObjectMeta → List NamespacedName) (m : ObjectMeta)
      → requests (enqueue_requests_from_map_func f) m ≡ f m
  -- The references count whose type is the owner's; with `IsController` only the one that has
  -- `controller` set, of which the API admits one.
  pub for_controller :
      (owner : Kind) (ref : OwnerReference) (m : ObjectMeta)
      → Has ref m.owner_references
      → type_meta owner ≡ (ref.api_version, ref.kind)
      → ref.controller ≡ true
      → Has
          (record { namespace = m.namespace; name = ref.name })
          (requests (enqueue_request_for_owner true owner) m)
  pub for_owner :
      (owner : Kind) (ref : OwnerReference) (m : ObjectMeta)
      → Has ref m.owner_references
      → type_meta owner ≡ (ref.api_version, ref.kind)
      → Has
          (record { namespace = m.namespace; name = ref.name })
          (requests (enqueue_request_for_owner false owner) m)

-- Among the watches is one that makes the request, for an event of the object, to the reconciler.
abbrev pub IsRequested :
    {R : Type 0}
    → (EventHandler → ObjectMeta → List NamespacedName)
    → List (Watch R)
    → R
    → Kind
    → ObjectMeta
    → NamespacedName
    → Type 0
IsRequested {R} requests watches r k m key =
    (w : Watch R) × Has w watches
    × (w.reconciler ≡ r)
    × (w.kind ≡ k)
    × Has key (requests w.handler m)
