-- ===== src/Tests/BuildCluster.antt =====
-- A build environment, and a cluster that stores one secret.
use image_registry_operator.Prelude.{
  ◌≡◌, inl, inr, refl, false, Option, none, some, [], ◌∷◌, arith, sym, ◌∙◌, ap,
}
use image_registry_operator.Go.Text.{Text, text}
use image_registry_operator.Go.Error.{Error, Result, Result-cases, not_found, ok, err}
use image_registry_operator.Kube.Meta.{NamespacedName, Secret, new_meta}
use image_registry_operator.PasswordGen.{Draws}
use image_registry_operator.V1alpha1.{ImageBuildEnv}
use image_registry_operator.ImageBuildEnv.Redis.{CreateOrUpdate, RedisDeps}
use image_registry_operator.ImageBuildEnv.RedisPassword.{Upserts}

abbrev pub Store : Type 0
Store = Option Secret

abbrev start : Secret → Store → Secret
start new none = new
start new (some o) = o

abbrev wrote_back : {Y : Type 0} → Store → Result (Secret × Y) → Option Y × Option Error × Store
wrote_back s (ok (o, y)) = (some y, none, some o)
wrote_back s (err e) = (none, some e, s)

abbrev pub upsert_secret : {Y : Type 0} → CreateOrUpdate Store Secret Y
upsert_secret new f s = wrote_back s (f (start new s))

-- Every key reads the one secret.
abbrev pub stored : NamespacedName → Store → Option Secret
stored k s = s

found : (new p : Secret) (s : Store) → s ≡ some p → start new s ≡ p
found new p s e = ap (start new) e

wrote :
    (new : Secret) (f : Secret → Result (Secret × Text)) (s s' : Store) (y : Option Text)
    → upsert_secret new f s ≡ (y, none, s')
    → (o : Secret) × (o' : Secret) × (t : Secret) × (v : Text) × (f o ≡ ok (o', v))
      × (y ≡ some v)
      × (s' ≡ some t)
      × (t.contents ≡ o'.contents)
      × ((p : Secret) → s ≡ some p → o ≡ p)
wrote new f s s' y e = elim (Result-cases (f (start new s))) [
  | inr (x, p) ↦ absurd (ground (arith, p, e))
  | inl ((o', v), p) ↦
      let same = sym (ap (wrote_back s) p) ∙ e in
      (
        start new s,
        o',
        o',
        v,
        p,
        sym (ap (λ (r : Option Text × Option Error × Store). r.0) same),
        sym (ap (λ (r : Option Text × Option Error × Store). r.2) same),
        refl,
        λ q h. found new q s h,
      )
]

abbrev pub redis_deps : RedisDeps Store
redis_deps = record {
  pods = record {
    get = λ k s. err (not_found (text "pod"));
    create = λ o s. (ok o, s);
    update = λ o s. (ok o, s);
    update_status = λ o s. (ok o, s);
    delete = λ o s. (none, s);
  };
  secrets = upsert_secret;
  services = λ new f s. elim (f new) [ ok (o, y) ↦ (some y, none, s) | err e ↦ (none, some e, s) ];
  set_controller_reference = λ cr m. ok m;
}

abbrev pub build_env : ImageBuildEnv
build_env = record {
  meta = record (new_meta (text "apps") (text "env")) { uid = text "u1" };
  spec = record { redis = false; secrets = text "pull" ∷ [] };
  status = record { conditions = []; secret_refs = [] };
}

abbrev pub draws : Draws
draws i = i

abbrev pub others : Draws
others i = 7

pub upserts : Upserts stored redis_deps.secrets
upserts = record { wrote = wrote }
