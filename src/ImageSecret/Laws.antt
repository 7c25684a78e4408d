-- ===== src/ImageSecret/Laws.antt =====
-- What the proofs about the reconciler assume of the calls in Deps: a successful write stores what it
-- was given, and setting the owner changes nothing else of a secret.
use image_registry_operator.Prelude.{◌≡◌, ◌∙◌, false}
use image_registry_operator.Go.Text.{text_eq}
use image_registry_operator.Go.Error.{ok}
use image_registry_operator.Kube.Meta.{NamespacedName, Secret, key_of}
use image_registry_operator.Kube.Api.{Writes}
use image_registry_operator.V1alpha1.{
  ImageSecret, ImageRegistryAccount, secret_key_username, secret_key_password, secret_key_registry,
  secret_key_ca_cert,
}
use image_registry_operator.ImageSecret.Deps.{Settings, Deps}

abbrev pub account_key : ImageRegistryAccount → NamespacedName
account_key a = key_of a.meta

abbrev pub secret_key : Secret → NamespacedName
secret_key s = key_of s.meta

-- The server keeps the name, the labels and the spec of an account, and sets the rest.
pub record SameAccount (a b : ImageRegistryAccount) : Type 0 where
  pub key : account_key a ≡ account_key b
  pub name : a.meta.name ≡ b.meta.name
  pub labels : a.meta.labels ≡ b.meta.labels
  pub spec : a.spec ≡ b.spec

pub record SameSecret (s t : Secret) : Type 0 where
  pub key : secret_key s ≡ secret_key t
  pub annotations : s.meta.annotations ≡ t.meta.annotations
  pub type : s.type ≡ t.type
  pub contents : s.contents ≡ t.contents

-- The identity and the status of a CR, which a status update keeps.
pub record SameCr (a b : ImageSecret) : Type 0 where
  pub mode : a.registry_access_mode ≡ b.registry_access_mode
  pub namespace : a.meta.namespace ≡ b.meta.namespace
  pub name : a.meta.name ≡ b.meta.name
  pub status : a.status ≡ b.status

pub record Laws {C A S R : Type 0} (deps : Deps C A S R) : Type 0 where
  pub account_writes : Writes deps.account_api account_key SameAccount
  pub secret_writes : Writes deps.secret_api secret_key SameSecret
  pub status_saved :
      (cr saved : ImageSecret) (s s' : C)
      → deps.cr_api.update_status cr s ≡ (ok saved, s')
      → SameCr cr saved
  pub owner_set :
      (cr : ImageSecret) (s s' : Secret)
      → deps.set_controller_reference cr s ≡ ok s'
      → SameSecret s s'

-- The docker config has a key of its own in the secret, as in both controllers of the operator.
pub record HasOwnKey (cfg : Settings) : Type 0 where
  pub username : text_eq cfg.docker_config_key secret_key_username ≡ false
  pub password : text_eq cfg.docker_config_key secret_key_password ≡ false
  pub registry : text_eq cfg.docker_config_key secret_key_registry ≡ false
  pub ca_cert : text_eq cfg.docker_config_key secret_key_ca_cert ≡ false

pub SameSecret-trans : {s t u : Secret} → SameSecret s t → SameSecret t u → SameSecret s u
SameSecret-trans a b = record {
  key = a.key ∙ b.key;
  annotations = a.annotations ∙ b.annotations;
  type = a.type ∙ b.type;
  contents = a.contents ∙ b.contents;
}

pub SameCr-trans : {a b c : ImageSecret} → SameCr a b → SameCr b c → SameCr a c
SameCr-trans p q = record {
  mode = p.mode ∙ q.mode;
  namespace = p.namespace ∙ q.namespace;
  name = p.name ∙ q.name;
  status = p.status ∙ q.status;
}
