-- ===== src/ImageBuildEnv/RedisPassword.antt =====
-- The password of a build environment's redis
-- (pkg/controller/imagebuildenv/imagebuildenv_controller.go, `upsertRedisSecretForCR`).
use image_registry_operator.Prelude.{
  ◌≡◌, refl, sym, ◌∙◌, ap, subst, false, Bool-cases, inl, inr, Option, none, some, [], ◌∷◌, length,
  arith,
}
use image_registry_operator.Go.Text.{Text, text_eq, is_empty}
use image_registry_operator.Go.Map.{Map, lookup, or_empty}
use image_registry_operator.Go.Error.{Error, Result, Result-cases, ok, err}
use image_registry_operator.Kube.Meta.{NamespacedName, ObjectMeta, Secret, key_of, new_meta}
use image_registry_operator.PasswordGen.{Draws, generate_password}
use image_registry_operator.PasswordGen.Content.{password_content}
use image_registry_operator.V1alpha1.{ImageBuildEnv, secret_key_redis_password}
use image_registry_operator.ImageBuildEnv.Redis.{
  CreateOrUpdate, RedisDeps, fill_redis_secret, redis_password, text_result, redis_secret_name,
  upsert_redis_secret_for_cr,
}

not_empty : (s : Text) → length s ≡ 16 → is_empty s ≡ false
unfolding is_empty
not_empty [] h = absurd (omega arith)
not_empty (b ∷ s) h = refl

password_not_empty : (rnd rand : Draws) → is_empty (generate_password rnd rand) ≡ false
password_not_empty rnd rand = not_empty (generate_password rnd rand) (password_content rnd rand).0

redis_password-filled :
    (rnd rand : Draws) (secret : Secret) → is_empty (redis_password rnd rand secret) ≡ false
unfolding redis_password
redis_password-filled rnd rand secret =
    let stored =
      or_empty
        (elim secret.contents [ none ↦ none | some m ↦ lookup secret_key_redis_password m ]) in
    elim (Bool-cases (is_empty stored)) [
      | inl p ↦ rw p (password_not_empty rnd rand)
      | inr p ↦ rw p p
    ]

redis_password-stored :
    (rnd rand : Draws) (s : Secret) (password : Text) (rest : Map Text)
    → s.contents ≡ some ((secret_key_redis_password, password) ∷ rest)
    → is_empty password ≡ false
    → redis_password rnd rand s ≡ password
unfolding redis_password lookup text_eq
redis_password-stored rnd rand s password rest h e = rw (h, e) refl

abbrev contents_of : Result (Secret × Text) → Option (Map Text)
contents_of (ok (s, password)) = s.contents
contents_of (err e) = none

abbrev handed_out : Result (Secret × Text) → Text
handed_out (ok (s, password)) = password
handed_out (err e) = []

-- A secret that was filled hands out its password from then on, whatever the generators draw.
redis_password-kept :
    (rnd rand rnd' rand' : Draws) (old filled stored : Secret) (password : Text)
    → fill_redis_secret rnd rand old ≡ ok (filled, password)
    → stored.contents ≡ filled.contents
    → redis_password rnd' rand' stored ≡ password
unfolding fill_redis_secret
redis_password-kept rnd rand rnd' rand' old filled stored password made same =
    redis_password-stored rnd' rand' stored (redis_password rnd rand old) _
      (same ∙ sym (ap contents_of made)) (redis_password-filled rnd rand old)
    ∙ ap handed_out made

-- What `CreateOrUpdate` of a secret does if it returns no error: the function was called, on the
-- secret under the key if there is one, what it handed out is passed on, and the contents that it
-- set are stored.
pub record Upserts {S : Type 0} (stored : NamespacedName → S → Option Secret)
    (create_or_update : CreateOrUpdate S Secret Text) : Type 0 where
  pub wrote :
      (new : Secret) (f : Secret → Result (Secret × Text)) (s s' : S) (y : Option Text)
      → create_or_update new f s ≡ (y, none, s')
      → (o : Secret) × (o' : Secret) × (t : Secret) × (v : Text) × (f o ≡ ok (o', v))
        × (y ≡ some v)
        × (stored (key_of new.meta) s' ≡ some t)
        × (t.contents ≡ o'.contents)
        × ((p : Secret) → stored (key_of new.meta) s ≡ some p → o ≡ p)

abbrev password_of : Result Text → Text
password_of (ok password) = password
password_of (err e) = []

text_result-ok :
    {S : Type 0} (r : Option Text × Option Error × S) (password : Text) (s : S)
    → text_result r ≡ (ok password, s)
    → (y : Option Text) × (r ≡ (y, none, s)) × (or_empty y ≡ password)
text_result-ok (y, none, t) password s h =
    (y, ap (λ u. (y, none, u)) (ap (λ (r : Result Text × _). r.1) h), ap (λ r. password_of r.0) h)
text_result-ok (y, some e, t) password s h = absurd (ground (arith, ap (λ r. r.0) h))

abbrev key_in : Result ObjectMeta → NamespacedName
key_in (ok meta) = key_of meta
key_in (err e) = record { namespace = []; name = [] }

module _ {S : Type 0} (deps : RedisDeps S) (stored : NamespacedName → S → Option Secret)
    (laws : Upserts stored deps.secrets) where
  -- What an upsert of the redis secret leaves, if it returns a password.
  pub record Kept (rnd rand : Draws) (cr : ImageBuildEnv) (s s' : S) (password : Text)
      : Type 0 where
    pub meta : ObjectMeta
    pub owned :
        deps.set_controller_reference cr (new_meta cr.meta.namespace (redis_secret_name cr))
        ≡ ok meta
    pub old : Secret
    pub filled : Secret
    pub now : Secret
    pub made : fill_redis_secret rnd rand old ≡ ok (filled, password)
    pub is_stored : stored (key_of meta) s' ≡ some now
    pub same : now.contents ≡ filled.contents
    pub found : (p : Secret) → stored (key_of meta) s ≡ some p → old ≡ p

  upsert-Kept :
      (rnd rand : Draws) (cr : ImageBuildEnv) (s s' : S) (password : Text)
      → upsert_redis_secret_for_cr deps rnd rand cr s ≡ (ok password, s')
      → Kept rnd rand cr s s' password
  unfolding upsert_redis_secret_for_cr
  upsert-Kept rnd rand cr s s' password h =
      elim (Result-cases
        (deps.set_controller_reference cr (new_meta cr.meta.namespace (redis_secret_name cr)))) [
          | inr (e, p) ↦ absurd (ground (arith, p, h))
          | inl (meta, p) ↦
              let (y, called, out) =
                text_result-ok _ password s' (rw (upsert_redis_secret_for_cr, p) at h) in
              let (o, o', t, v, made, handed, put, same, found) = laws.wrote _ _ s s' y called in
              record {
                meta = meta;
                owned = p;
                old = o;
                filled = o';
                now = t;
                made = made ∙ ap (λ x. ok (o', x)) (sym (ap or_empty handed) ∙ out);
                is_stored = put;
                same = same;
                found = found;
              }
        ]

  -- The password of redis stays: as long as the secret of the first upsert is stored, each further
  -- upsert that returns a password returns the same, whatever the generators draw. An upsert that
  -- succeeds stores what its function made of the secret that it found, or of the new one.
  pub redis_password_is_kept :
      (rnd rand rnd' rand' : Draws) (cr : ImageBuildEnv) (s s1 t t1 : S) (password password' : Text)
      → upsert_redis_secret_for_cr deps rnd rand cr s ≡ (ok password, s1)
      → ((k : NamespacedName) → stored k t ≡ stored k s1)
      → upsert_redis_secret_for_cr deps rnd' rand' cr t ≡ (ok password', t1)
      → password' ≡ password
  unfolding fill_redis_secret
  redis_password_is_kept rnd rand rnd' rand' cr s s1 t t1 password password' first same second =
      let a = upsert-Kept rnd rand cr s s1 password first in
      let b = upsert-Kept rnd' rand' cr t t1 password' second in
      let key = ap key_in (sym b.owned ∙ a.owned) in
      let there =
        subst (λ k. stored k t ≡ some a.now) (sym key) (same (key_of a.meta) ∙ a.is_stored) in
      sym (ap handed_out b.made)
      ∙ redis_password-kept rnd rand rnd' rand' a.old a.filled b.old password a.made
          (ap (λ (x : Secret). x.contents) (b.found a.now there) ∙ a.same)
