-- ===== src/Tests/World.antt =====
-- A cluster in memory with one image pull secret and one registry, for the tests of the reconcilers.
use image_registry_operator.Prelude.{
  ◌≡◌, refl, true, false, Bool, ◌&&◌, ◌∙◌, ap, if◌then◌else◌, any, ltb, inl, inr, Bool-cases, not,
  none, some, [], ◌∷◌, ◌++◌, select, Option, List, arith, subst,
}
use image_registry_operator.Prelude.Int.{pos}
use image_registry_operator.Go.Text.{Text, text, text_eq}
use image_registry_operator.Go.Map.{lookup, insert, or_empty}
use image_registry_operator.Go.Error.{Error, failure, not_found, is_not_found, ok, err}
use image_registry_operator.Go.Time.{seconds}
use image_registry_operator.Kube.Meta.{new_meta, NamespacedName, Secret, key_of}
use image_registry_operator.Kube.Memory.{memory, memory_writes, find}
use image_registry_operator.V1alpha1.{ImageSecret, ImageRegistry, ImageRegistryAccount, pull}
use image_registry_operator.ImageSecret.Deps.{
  Cluster, Settings, Deps, Readings, Selector, everything, has_label,
}
use image_registry_operator.ImageSecret.Rotate.{TargetRegistry}
use image_registry_operator.ImageSecret.Checks.{finalizer}
use image_registry_operator.ImageSecret.Orphans.{DeletionLaws}
use image_registry_operator.ImageSecret.Laws.{
  Laws, SameAccount, SameSecret, SameCr, HasOwnKey, account_key, secret_key,
}

abbrev pub Accounts : Type 0
Accounts = List ImageRegistryAccount

abbrev pub World : Type 0
World = Cluster (List ImageSecret) Accounts (List Secret) (List ImageRegistry)

abbrev pub settings : Settings
settings = record {
  secret_type = text "kubernetes.io/dockerconfigjson";
  docker_config_key = text ".dockerconfigjson";
  account_label = text "pull";
  default_registry = record { name = text "registry"; namespace = text "infra" };
  rotation_interval = seconds 86400;
  account_ttl = seconds 172800;
  dns_zone = text "svc.cluster.local";
}

abbrev pub print_name : NamespacedName → Text
print_name n = n.namespace ++ b'/' ∷ n.name

abbrev has_slash : Text → Bool
has_slash value = any (λ c. if ltb c b'/' then false else not (ltb b'/' c)) value

abbrev selector_of : Text → Text → Selector
selector_of label value = if has_slash value then everything else has_label label value

abbrev pub selects : Selector → ImageRegistryAccount → Bool
selects everything a = true
selects (has_label label value) a = text_eq (or_empty (lookup label a.meta.labels)) value

abbrev pub delete_selected : Selector → Text → Accounts → Option Error × Accounts
delete_selected selector namespace accounts =
    (none, select (λ a. not (text_eq a.meta.namespace namespace && selects selector a)) accounts)

abbrev pub deps : Deps (List ImageSecret) Accounts (List Secret) (List ImageRegistry)
deps = record {
  cr_api = memory (λ cr. key_of cr.meta);
  account_api = memory account_key;
  secret_api = memory secret_key;
  registry_api = memory (λ r. key_of r.meta);
  cached_secret = find secret_key;
  selector_from_set = selector_of;
  delete_all_of = delete_selected;
  name_string = print_name;
  add_finalizer = λ f m. record m { finalizers = f ∷ m.finalizers };
  remove_finalizer = λ f m. record m { finalizers = [] };
  set_controller_reference = λ cr s. ok s;
  set_condition = λ c conditions. (insert c.type c conditions, true);
  is_true_for = λ type conditions. true;
  bcrypt_password = λ password. ok (b'$' ∷ password);
  docker_json = record { parse_docker_config = λ s. err (failure s); json = λ c. text "{}" };
}

pub laws : Laws deps
laws = record {
  account_writes =
      memory_writes account_key SameAccount
        λ a. record { key = refl; name = refl; labels = refl; spec = refl };
  secret_writes =
      memory_writes secret_key SameSecret
        λ s. record { key = refl; annotations = refl; type = refl; contents = refl };
  status_saved = λ cr saved s s' e.
      let w =
        memory_writes (λ (x : ImageSecret). key_of x.meta) SameCr
          (λ x. record { mode = refl; namespace = refl; name = refl; status = refl }) in
      (w.update_wrote cr saved s s' e).same;
  owner_set = λ cr s s' e.
      let same : s ≡ s' = ground (arith, e) in
      subst (SameSecret s) same
        (record { key = refl; annotations = refl; type = refl; contents = refl });
}

slash_found : (a b : Text) → has_slash (a ++ b'/' ∷ b) ≡ true
slash_found [] b = refl
slash_found (c ∷ a) b = ground (arith, slash_found a b)

-- What is deleted is not found any more.
nothing_left :
    (namespace : Text) (s : Accounts) (k : NamespacedName)
    → k.namespace ≡ namespace
    → (e : Error) × (find account_key k
          (select (λ a. not (text_eq a.meta.namespace namespace && true)) s)
        ≡ err e)
      × (is_not_found e ≡ true)
unfolding find
nothing_left namespace [] k here = (not_found (text "not found"), refl, refl)
nothing_left namespace (a ∷ s) k here = elim (Bool-cases (text_eq a.meta.namespace namespace)) [
  | inl p ↦ rw p (nothing_left namespace s k here)
  | inr p ↦
      let other : text_eq a.meta.namespace k.namespace ≡ false =
        ap (text_eq a.meta.namespace) here ∙ p in
      rw p (rw other (nothing_left namespace s k here))
]

pub deletion_laws : DeletionLaws deps
deletion_laws = record {
  prints = λ n. refl;
  no_value = λ label a b.
      ap (λ x. if x then everything else has_label label (a ++ b'/' ∷ b)) (slash_found a b);
  deletes = λ namespace s k e here. nothing_left namespace s k here;
}

pub own_key : HasOwnKey settings
unfolding text_eq
own_key = record { username = refl; password = refl; registry = refl; ca_cert = refl }

abbrev pub image_secret : ImageSecret
image_secret = record {
  meta = record (new_meta (text "apps") (text "web")) { finalizers = finalizer ∷ [] };
  registry_access_mode = pull;
  registry_ref = none;
  status = record {
    conditions = [];
    observed_generation = pos 0;
    rotation_date = none;
    rotation = pos 3;
    registry_namespace = text "infra";
  };
}

abbrev pub target : TargetRegistry
target = record {
  namespace = text "infra";
  hostname = text "registry.infra.svc.cluster.local";
  ca = text "CA";
}

abbrev pub empty_secret : Secret
empty_secret = record {
  meta = new_meta (text "apps") (text "imagepullsecret-web");
  type = [];
  contents = none;
}

abbrev pub cluster : World
cluster = record { crs = image_secret ∷ []; accounts = []; secrets = []; registries = [] }

abbrev pub readings : Readings
readings = record {
  now = seconds 100;
  later = seconds 101;
  rotated = seconds 102;
  rnd = λ i. i;
  rand = λ i. i;
}

abbrev pub account : ImageRegistryAccount
account = record {
  meta = new_meta (text "infra") (text "pull.apps.web.3");
  spec = record { password = text "$secret"; labels = []; ttl = some (seconds 50) };
}
