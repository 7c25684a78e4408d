-- ===== src/Kube/Meta.antt =====
-- The metadata of API objects and the objects of other projects that the operator reads and writes,
-- with the fields that the operator uses.
use image_registry_operator.Prelude.{Bool, Option, none, List, []}
use image_registry_operator.Prelude.Int.{ℤ, pos}
use image_registry_operator.Go.Text.{Text}
use image_registry_operator.Go.Map.{Map}
use image_registry_operator.Go.Time.{Time}

pub record NamespacedName : Type 0 where
  pub namespace : Text
  pub name : Text

pub record OwnerReference : Type 0 where
  pub api_version : Text
  pub kind : Text
  pub name : Text
  pub uid : Text
  pub controller : Bool
  pub block_owner_deletion : Bool

pub record ObjectMeta : Type 0 where
  pub name : Text
  pub namespace : Text
  pub uid : Text
  pub generation : ℤ
  pub creation_timestamp : Time
  pub deletion_timestamp : Option Time
  pub labels : Map Text
  pub annotations : Map Text
  pub finalizers : List Text
  pub owner_references : List OwnerReference

abbrev pub key_of : ObjectMeta → NamespacedName
key_of m = record { namespace = m.namespace; name = m.name }

-- A condition as `status.Conditions.SetCondition` of operator-sdk takes it.
pub record Condition : Type 0 where
  pub type : Text
  pub is_true : Bool
  pub reason : Text
  pub message : Text

-- corev1.Secret; a nil `Data` is `none`.
pub record Secret : Type 0 where
  pub meta : ObjectMeta
  pub type : Text
  pub contents : Option (Map Text)

-- An object of one kind: what `TypeMeta` has for its kind, its metadata, and the rest of it. A nil
-- map of labels or annotations reads like an empty one.
pub record Resource (A : Type 0) : Type 0 where
  pub kind : Text
  pub meta : ObjectMeta
  pub body : A

-- The metadata of a new object.
abbrev pub new_meta : Text → Text → ObjectMeta
new_meta namespace name = record {
  name = name;
  namespace = namespace;
  uid = [];
  generation = pos 0;
  creation_timestamp = pos 0;
  deletion_timestamp = none;
  labels = [];
  annotations = [];
  finalizers = [];
  owner_references = [];
}

-- A new object before it is filled: Go leaves `TypeMeta` empty.
abbrev pub new_resource : {A : Type 0} → Text → Text → A → Resource A
new_resource namespace name body = record { kind = []; meta = new_meta namespace name; body = body }
