-- ===== src/Tests/Conditions.antt =====
-- `SetCondition` on an association list, which reports whether it changed something.
use image_registry_operator.Prelude.{
  ◌≡◌, ◌↔◌, refl, ◌∙◌, subst, Bool, true, false, not, ◌&&◌, Bool-cases, inl, inr, Option, none,
  some, [], ◌∷◌, arith,
}
use image_registry_operator.Go.Text.{Text, text_eq, text_eq_iff, text_eq_sym}
use image_registry_operator.Go.Map.{lookup, insert, lookup-insert}
use image_registry_operator.Kube.Meta.{Condition}
use image_registry_operator.ImageRegistry.Upsert.{Conditions}
use image_registry_operator.ImageRegistry.Reconcile.{SetCondition}
use image_registry_operator.ImageRegistry.Status.{IsKeyed, ConditionLaws}

abbrev pub bool_eq : Bool → Bool → Bool
bool_eq true b = b
bool_eq false b = not b

abbrev pub condition_eq : Condition → Condition → Bool
condition_eq c d =
    text_eq c.type d.type
    && bool_eq c.is_true d.is_true
    && text_eq c.reason d.reason
    && text_eq c.message d.message

bool_eq_iff : (a b : Bool) → (bool_eq a b ≡ true) ↔ (a ≡ b)
bool_eq_iff a b = ground arith

condition_eq_iff : (c d : Condition) → (condition_eq c d ≡ true) ↔ (c ≡ d)
condition_eq_iff c d = ground (
  arith,
  text_eq_iff c.type d.type,
  bool_eq_iff c.is_true d.is_true,
  text_eq_iff c.reason d.reason,
  text_eq_iff c.message d.message,
)

abbrev pub has_condition : Condition → Conditions → Bool
has_condition c conditions = elim (lookup c.type conditions) [
  | none ↦ false
  | some d ↦ condition_eq d c
]

abbrev pub set_condition : SetCondition
set_condition c conditions = (insert c.type c conditions, not (has_condition c conditions))

insert-fresh :
    (k j : Text) (c : Condition) (conditions : Conditions)
    → text_eq k j ≡ false
    → lookup j conditions ≡ none
    → lookup j (insert k c conditions) ≡ none
insert-fresh k j c conditions other fresh = rw (lookup-insert k j c conditions, other) fresh

insert-IsKeyed :
    (c : Condition) (conditions : Conditions)
    → IsKeyed conditions
    → IsKeyed (insert c.type c conditions)
unfolding insert lookup
insert-IsKeyed c [] keyed = (refl, refl, tt)
insert-IsKeyed c ((k, d) ∷ conditions) (own, fresh, keyed) = elim (Bool-cases (text_eq k c.type)) [
  | inl p ↦
      rw p (refl, subst (λ x. lookup x conditions ≡ none) ((text_eq_iff k c.type).0 p) fresh, keyed)
  | inr p ↦ rw p (
    own,
    insert-fresh c.type k c conditions (text_eq_sym c.type k ∙ p) fresh,
    insert-IsKeyed c conditions keyed,
  )
]

is_there :
    (o : Option Condition) (c : Condition)
    → (not (elim o [ none ↦ false | some d ↦ condition_eq d c ]) ≡ false) ↔ (o ≡ some c)
is_there none c = ground arith
is_there (some d) c = ground (arith, condition_eq_iff d c)

pub condition_laws : ConditionLaws set_condition
condition_laws = record {
  sets = λ c conditions type. lookup-insert c.type type c conditions;
  keyed = insert-IsKeyed;
  unchanged = λ c conditions. is_there (lookup c.type conditions) c;
}
