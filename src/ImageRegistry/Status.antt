-- ===== src/ImageRegistry/Status.antt =====
-- The status of a registry after its tasks (pkg/controller/imageregistry/imageregistry_reconcile.go).
use image_registry_operator.Prelude.{
  ◌≡◌, refl, sym, ◌∙◌, ap, subst, Bool, false, ◌||◌, Option, none, some, [], ◌∷◌, if◌then◌else◌,
  Bool-cases, inl, inr, ◌↔◌, arith,
}
use image_registry_operator.Go.Text.{Text, text_eq, text_eq_iff, text_eq_refl}
use image_registry_operator.Go.Map.{lookup}
use image_registry_operator.Go.Error.{Error}
use image_registry_operator.Kube.Meta.{Condition}
use image_registry_operator.V1alpha1.{condition_ready, condition_synced}
use image_registry_operator.ImageRegistry.Upsert.{Conditions}
use image_registry_operator.ImageRegistry.Reconcile.{
  SetCondition, sync_condition, not_ready, set_sync_conditions, merge_conditions,
}

-- Every condition stands under its type, and no type twice.
abbrev pub IsKeyed : Conditions → Type 0
IsKeyed [] = Unit
IsKeyed ((k, c) ∷ conditions) = (c.type ≡ k) × (lookup k conditions ≡ none) × IsKeyed conditions

-- What `SetCondition` is documented to do: it puts the condition under its type, and says whether
-- that is new or differs from what was there.
pub record ConditionLaws (set_condition : SetCondition) : Type 0 where
  pub sets :
      (c : Condition) (conditions : Conditions) (type : Text)
      → lookup type (set_condition c conditions).0
        ≡ (if text_eq c.type type then some c else lookup type conditions)
  pub keyed :
      (c : Condition) (conditions : Conditions)
      → IsKeyed conditions
      → IsKeyed (set_condition c conditions).0
  pub unchanged :
      (c : Condition) (conditions : Conditions)
      → ((set_condition c conditions).1 ≡ false) ↔ (lookup c.type conditions ≡ some c)

-- The newer condition, if there is one.
abbrev pub newer : Option Condition → Option Condition → Option Condition
newer none old = old
newer (some c) old = some c

-- The condition that the error of the tasks leaves under "Ready".
abbrev pub ready_after : Option Error → Option Condition → Option Condition
ready_after none set = set
ready_after (some e) set = some not_ready

neither : (a b : Bool) → (a || b) ≡ false → (a ≡ false) × (b ≡ false)
neither a b h = ground arith

module _ (set_condition : SetCondition) (laws : ConditionLaws set_condition) where
  merge_step :
      (k type : Text) (c : Condition) (rest old : Conditions)
      → c.type ≡ k
      → lookup k rest ≡ none
      → newer (lookup type rest) (lookup type (set_condition c old).0)
        ≡ newer (if text_eq k type then some c else lookup type rest) (lookup type old)
  merge_step k type c rest old key fresh =
      let set =
        subst
          (λ x.
            lookup type (set_condition c old).0
            ≡ (if text_eq x type then some c else lookup type old))
          key (laws.sets c old type) in
      elim (Bool-cases (text_eq k type)) [
        | inl p ↦
            let none_left = subst (λ x. lookup x rest ≡ none) ((text_eq_iff k type).0 p) fresh in
            rw (set, p, none_left) refl
        | inr p ↦ rw (set, p) refl
      ]

  pub merge_conditions-lookup :
      (type : Text) (new old : Conditions) (b : Bool)
      → IsKeyed new
      → lookup type (merge_conditions set_condition new (old, b)).0
        ≡ newer (lookup type new) (lookup type old)
  unfolding merge_conditions lookup
  merge_conditions-lookup type [] old b keyed = refl
  merge_conditions-lookup type ((k, c) ∷ new) old b (key, fresh, keyed) =
      merge_conditions-lookup type new (set_condition c old).0 ((set_condition c old).1 || b) keyed
      ∙ merge_step k type c new old key fresh

  -- What the newer conditions say is there already.
  abbrev pub Has : Conditions → Conditions → Type 0
  Has old new = (type : Text) (c : Condition) → lookup type new ≡ some c → lookup type old ≡ some c

  sets_own :
      (c : Condition) (conditions : Conditions)
      → lookup c.type (set_condition c conditions).0 ≡ some c
  sets_own c conditions =
      laws.sets c conditions c.type
      ∙ ap (λ b. if b then some c else lookup c.type conditions) (text_eq_refl c.type)

  head_is_there :
      (k : Text) (c : Condition) (new old : Conditions)
      → c.type ≡ k
      → Has old ((k, c) ∷ new)
      → lookup c.type old ≡ some c
  unfolding lookup
  head_is_there k c new old key has =
      subst (λ x. lookup x old ≡ some c) (sym key) (has k c (rw (text_eq_refl k) refl))

  tail_is_there :
      (k : Text) (c : Condition) (new old : Conditions)
      → c.type ≡ k
      → lookup k new ≡ none
      → Has old ((k, c) ∷ new)
      → Has (set_condition c old).0 new
  unfolding lookup
  tail_is_there k c new old key fresh has type d found = elim (Bool-cases (text_eq c.type type)) [
    | inl p ↦
        let gone =
          subst (λ x. lookup x new ≡ none) (sym key ∙ (text_eq_iff c.type type).0 p) fresh in
        absurd (ground (arith, gone, found))
    | inr p ↦
        let other = subst (λ x. text_eq x type ≡ false) key p in
        let kept = ap (λ b. if b then some c else lookup type old) p in
        laws.sets c old type ∙ kept ∙ has type d (rw other found)
  ]

  unchanged_lookup :
      (c : Condition) (old : Conditions) (type : Text)
      → (set_condition c old).1 ≡ false
      → lookup type (set_condition c old).0 ≡ lookup type old
  unchanged_lookup c old type same = elim (Bool-cases (text_eq c.type type)) [
    | inl p ↦
        let there =
          subst (λ x. lookup x old ≡ some c) ((text_eq_iff c.type type).0 p)
            ((laws.unchanged c old).0 same) in
        laws.sets c old type ∙ ap (λ b. if b then some c else lookup type old) p ∙ sym there
    | inr p ↦ laws.sets c old type ∙ ap (λ b. if b then some c else lookup type old) p
  ]

  -- Where the loop reports no change, no condition has changed.
  pub merge_unchanged :
      (new old : Conditions) (b : Bool) (type : Text)
      → (merge_conditions set_condition new (old, b)).1 ≡ false
      → (b ≡ false)
        × (lookup type (merge_conditions set_condition new (old, b)).0 ≡ lookup type old)
  unfolding merge_conditions
  merge_unchanged [] old b type h = (h, refl)
  merge_unchanged ((k, c) ∷ new) old b type h =
      let (flags, same) =
        merge_unchanged new (set_condition c old).0 ((set_condition c old).1 || b) type h in
      let (own, before) = neither (set_condition c old).1 b flags in
      (before, same ∙ unchanged_lookup c old type own)

  pub merge_quiet :
      (new old : Conditions)
      → IsKeyed new
      → Has old new
      → (merge_conditions set_condition new (old, false)).1 ≡ false
  unfolding merge_conditions
  merge_quiet [] old keyed has = refl
  merge_quiet ((k, c) ∷ new) old (key, fresh, keyed) has =
      let same = (laws.unchanged c old).1 (head_is_there k c new old key has) in
      subst
        (λ b. (merge_conditions set_condition new ((set_condition c old).0, b || false)).1 ≡ false)
        (sym same)
        (merge_quiet new (set_condition c old).0 keyed (tail_is_there k c new old key fresh has))

  pub set_sync-IsKeyed :
      (e : Option Error) (set : Conditions)
      → IsKeyed set
      → IsKeyed (set_sync_conditions set_condition e set)
  unfolding set_sync_conditions
  set_sync-IsKeyed none set keyed = laws.keyed (sync_condition none) set keyed
  set_sync-IsKeyed (some e) set keyed =
      laws.keyed not_ready (set_condition (sync_condition (some e)) set).0
        (laws.keyed (sync_condition (some e)) set keyed)

  pub set_sync-synced :
      (e : Option Error) (set : Conditions)
      → lookup condition_synced (set_sync_conditions set_condition e set) ≡ some (sync_condition e)
  unfolding set_sync_conditions text_eq
  set_sync-synced none set = sets_own (sync_condition none) set
  set_sync-synced (some e) set =
      laws.sets not_ready (set_condition (sync_condition (some e)) set).0 condition_synced
      ∙ sets_own (sync_condition (some e)) set

  pub set_sync-ready :
      (e : Option Error) (set : Conditions)
      → lookup condition_ready (set_sync_conditions set_condition e set)
        ≡ ready_after e (lookup condition_ready set)
  unfolding set_sync_conditions text_eq
  set_sync-ready none set = laws.sets (sync_condition none) set condition_ready
  set_sync-ready (some e) set = sets_own not_ready (set_condition (sync_condition (some e)) set).0
