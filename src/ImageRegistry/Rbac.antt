-- ===== src/ImageRegistry/Rbac.antt =====
-- pkg/controller/imageregistry/imageregistry_reconcile_rbac.go: the service account of a registry's
-- pods, which may read accounts.
use image_registry_operator.Prelude.{some, List, [], ◌∷◌}
use image_registry_operator.Go.Text.{Text, text}
use image_registry_operator.Kube.Meta.{new_resource}
use image_registry_operator.ImageRegistry.Names.{service_account_name_for_cr}
use image_registry_operator.ImageRegistry.Upsert.{
  CreateOrUpdate, SetControllerReference, Task, Modify, upsert,
}

pub record PolicyRule : Type 0 where
  pub api_groups : List Text
  pub resources : List Text
  pub verbs : List Text

pub record Subject : Type 0 where
  pub api_group : Text
  pub kind : Text
  pub name : Text

-- rbac.RoleBinding: its subjects and `RoleRef`.
pub record Binding : Type 0 where
  pub subjects : List Subject
  pub role_ref : Subject

abbrev pub api_group : Text
api_group = text "registry.mgoltzsche.github.com"

-- The function that creates the service account changes nothing.
abbrev pub unchanged : Modify (Unit {0})
unchanged o conditions = (o, conditions)

unfoldable pub modify_role : Modify (List PolicyRule)
modify_role o conditions = (
  record o {
    body =
        record {
          api_groups = api_group ∷ [];
          resources = text "imageregistryaccounts" ∷ [];
          verbs = text "get" ∷ text "list" ∷ text "watch" ∷ [];
        }
        ∷ [];
  },
  conditions,
)

unfoldable pub modify_role_binding : Modify Binding
modify_role_binding o conditions = (
  record o {
    body = record {
      subjects = record { api_group = []; kind = text "ServiceAccount"; name = o.meta.name } ∷ [];
      role_ref = record {
        api_group = text "rbac.authorization.k8s.io";
        kind = text "Role";
        name = o.meta.name;
      };
    };
  },
  conditions,
)

abbrev no_binding : Binding
no_binding = record { subjects = []; role_ref = record { api_group = []; kind = []; name = [] } }

module _ {S : Type 0} (set_controller_reference : SetControllerReference) where
  unfoldable pub reconcile_service_account : CreateOrUpdate S (Unit {0}) → Task S
  reconcile_service_account create_or_update cr =
      upsert create_or_update set_controller_reference (some cr)
        (new_resource cr.meta.namespace (service_account_name_for_cr cr) tt) unchanged

  unfoldable pub reconcile_role : CreateOrUpdate S (List PolicyRule) → Task S
  reconcile_role create_or_update cr =
      upsert create_or_update set_controller_reference (some cr)
        (new_resource cr.meta.namespace (service_account_name_for_cr cr) []) modify_role

  unfoldable pub reconcile_role_binding : CreateOrUpdate S Binding → Task S
  reconcile_role_binding create_or_update cr =
      upsert create_or_update set_controller_reference (some cr)
        (new_resource cr.meta.namespace (service_account_name_for_cr cr) no_binding)
        modify_role_binding
