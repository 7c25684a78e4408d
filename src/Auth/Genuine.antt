-- ===== src/Auth/Genuine.antt =====
-- Caches that hold nothing but what the API returned, and the operations on a cache that keep it so.
use image_registry_operator.Prelude.{
  ◌≡◌, ◌∙◌, ap, subst, inl, inr, Bool, Bool-cases, some, [], ◌∷◌, select, All, arith,
}
use image_registry_operator.Prelude.Int.{◌≤ℤ◌}
use image_registry_operator.Go.Text.{Text, text_eq, text_eq_iff}
use image_registry_operator.Go.Map.{lookup, insert}
use image_registry_operator.Go.Error.{Result, ok}
use image_registry_operator.Go.Time.{Time}
use image_registry_operator.Kube.Meta.{NamespacedName}
use image_registry_operator.V1alpha1.{ImageRegistryAccount}
use image_registry_operator.Auth.{Cache, CachedAccount, add_to_cache, to_cached}

module _ (api : Time → NamespacedName → Result ImageRegistryAccount) (namespace : Text) where
  -- The entry is what the API returned for this user at some time until now.
  abbrev pub Came : Time → Text × CachedAccount → Type 0
  Came now (user, a) =
      (t : Time) × (acc : ImageRegistryAccount) × (t ≤ℤ now)
      × (api t (record { namespace = namespace; name = user }) ≡ ok acc)
      × (a ≡ to_cached t acc)

  abbrev pub IsGenuine : Time → Cache → Type 0
  IsGenuine now = All (Came now)

  Came-later : (t now : Time) (e : Text × CachedAccount) → t ≤ℤ now → Came t e → Came now e
  Came-later t now (user, a) h (s, acc, past, found, same) = (s, acc, omega arith, found, same)

  pub IsGenuine-later : (t now : Time) (c : Cache) → t ≤ℤ now → IsGenuine t c → IsGenuine now c
  IsGenuine-later t now [] h g = tt
  IsGenuine-later t now (e ∷ c) h g = (Came-later t now e h g.0, IsGenuine-later t now c h g.1)

  IsGenuine-select :
      (p : Text × CachedAccount → Bool) (now : Time) (c : Cache)
      → IsGenuine now c
      → IsGenuine now (select p c)
  IsGenuine-select p now [] g = tt
  IsGenuine-select p now (e ∷ c) g = elim (Bool-cases (p e)) [
    | inl h ↦ rw h (g.0, IsGenuine-select p now c g.1)
    | inr h ↦ rw h (IsGenuine-select p now c g.1)
  ]

  IsGenuine-insert :
      (user : Text) (a : CachedAccount) (now : Time) (c : Cache)
      → Came now (user, a)
      → IsGenuine now c
      → IsGenuine now (insert user a c)
  unfolding insert
  IsGenuine-insert user a now [] h g = (h, tt)
  IsGenuine-insert user a now ((u, b) ∷ c) h g = elim (Bool-cases (text_eq u user)) [
    | inl e ↦ rw e (h, g.1)
    | inr e ↦ rw e (g.0, IsGenuine-insert user a now c h g.1)
  ]

  pub Came-lookup :
      (user : Text) (a : CachedAccount) (now : Time) (c : Cache)
      → IsGenuine now c
      → lookup user c ≡ some a
      → Came now (user, a)
  unfolding lookup
  Came-lookup user a now [] g e = cc
  Came-lookup user a now ((u, b) ∷ c) g e = elim (Bool-cases (text_eq u user)) [
    | inl h ↦
        subst (λ (x : Text × CachedAccount). Came now x)
          (ap (λ w. (w, b)) ((text_eq_iff u user).0 h) ∙ ap (λ x. (user, x)) (ground (arith, h)))
          g.0
    | inr h ↦ Came-lookup user a now c g.1 (rw h at e)
  ]

  pub add_to_cache-IsGenuine :
      (now : Time) (user : Text) (a : CachedAccount) (c : Cache)
      → Came now (user, a)
      → IsGenuine now c
      → IsGenuine now (add_to_cache now user a c)
  unfolding add_to_cache
  add_to_cache-IsGenuine now user a c h g =
      IsGenuine-insert user a now _ h (IsGenuine-select _ now c g)
