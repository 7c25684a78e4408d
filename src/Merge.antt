-- ===== src/Merge.antt =====
-- pkg/merge: upserts into the lists of a service, a pod and the finalizers of an object.
pub mod Laws
use image_registry_operator.Prelude.{
  ℕ, ◌≡◌, Bool, true, false, ◌&&◌, List, [], ◌∷◌, if◌then◌else◌, ◌==◌,
}
use image_registry_operator.Prelude.Int.{ℤ}
use image_registry_operator.Go.Text.{Text, text_eq}
use image_registry_operator.Kube.Meta.{ObjectMeta}

pub record ServicePort : Type 0 where
  pub name : Text
  pub port : ℕ
  pub target_port : ℕ
  pub protocol : Text

-- A container and a volume, of which the functions here read the name only.
pub record Named (A : Type 0) : Type 0 where
  pub name : Text
  pub body : A

abbrev pub same_port : ServicePort → ServicePort → Bool
same_port p q =
    text_eq p.name q.name
    && (p.port == q.port)
    && (p.target_port == q.target_port)
    && text_eq p.protocol q.protocol

unfoldable pub has_port : ServicePort → List ServicePort → Bool
has_port q [] = false
has_port q (p ∷ ports) = if same_port p q then true else has_port q ports

-- The port is appended to no list: the list is the port alone, unless it is there already.
unfoldable pub add_service_port : List ServicePort → ServicePort → List ServicePort
add_service_port ports q = if has_port q ports then ports else q ∷ []

module _ {A : Type 0} where
  unfoldable pub add_container : List (Named A) → Named A → List (Named A)
  add_container [] c = c ∷ []
  add_container (existing ∷ containers) c =
      if text_eq existing.name c.name then c ∷ containers else existing ∷ add_container containers c

  unfoldable pub add_volume : List (Named A) → Named A → List (Named A)
  add_volume [] v = v ∷ []
  add_volume (existing ∷ volumes) v =
      if text_eq existing.name v.name then v ∷ volumes else existing ∷ add_volume volumes v

  unfoldable pub del_volume : List (Named A) → Text → List (Named A)
  del_volume [] name = []
  del_volume (existing ∷ volumes) name =
      if text_eq existing.name name then volumes else existing ∷ del_volume volumes name

unfoldable pub contains : Text → List Text → Bool
contains f [] = false
contains f (g ∷ finalizers) = if text_eq g f then true else contains f finalizers

unfoldable pub has_finalizer : ObjectMeta → Text → Bool
unfolding contains
has_finalizer o finalizer = contains finalizer o.finalizers
