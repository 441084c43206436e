-- ===== src/Webhooks/Namespace/Access.antt =====
-- Who may change which namespace.
use managed_cluster_validati.Base.{
  String, ◌≡◌, ◌↔◌, ◌⊎◌, true, [], ◌∷◌, arith, Any, any_iff, contains, contains_iff, Member,
}
use managed_cluster_validati.Base.Text.{has_prefix}
use managed_cluster_validati.Regex.{alt, exactly, match}
use managed_cluster_validati.Regex.Shapes.{match-exactly, match-starting, match-alt}
use managed_cluster_validati.Admission.{Request, allows, ok, Decoder}
use managed_cluster_validati.Utils.Matching.{IsPrivilegedGroup, has_privileged_group_iff}
use managed_cluster_validati.Config.Namespaces.{IsPrivilegedNamespace, is_privileged_namespace_iff}
use managed_cluster_validati.Webhooks.Namespace.{
  bad_namespace, cluster_admin_users, sre_admin_groups, Namespace, render_namespace, am_i_admin,
  render_old_and_new_namespaces, authorized,
}
use managed_cluster_validati.Webhooks.Namespace.LabelGuard.{LabelsPass, label_changes_iff}

abbrev pub IsAdmin : Request → Type 0
IsAdmin request =
    Member request.username cluster_admin_users
    ⊎ Member "cluster-admins" request.groups
    ⊎ Any (λ group. Member group request.groups) sre_admin_groups

abbrev pub IsBadName : String → Type 0
IsBadName name = Member name ("com" ∷ "io" ∷ "in" ∷ [])

am_i_admin_iff : (request : Request) → (am_i_admin request ≡ true) ↔ IsAdmin request
unfolding am_i_admin
am_i_admin_iff request = ground (
  arith,
  contains_iff cluster_admin_users request.username,
  contains_iff request.groups "cluster-admins",
  any_iff (λ group. contains request.groups group) (contains_iff request.groups) sre_admin_groups,
)

pub bad_namespace_iff : (name : String) → (match bad_namespace name ≡ true) ↔ IsBadName name
unfolding Member
bad_namespace_iff name = ground (
  arith,
  match-alt (exactly "com") (alt (exactly "io") (exactly "in")) name,
  match-alt (exactly "io") (exactly "in") name,
  match-exactly "com" name,
  match-exactly "io" name,
  match-exactly "in" name,
)

-- A request whose namespace decodes is allowed exactly when it comes from an admin or a privileged
-- service account, or from a layered product's admin for a namespace that begins with `redhat-`,
-- or when the namespace is neither privileged nor badly named and its labels pass: a deletion and a
-- connection pass, a creation without protected labels, and an update after which as many protected
-- labels are set as before, with those set before unchanged in value (one that is gone counts as
-- empty); but for a deletion, the old object and the new one must decode where they are given. In all other cases it is refused or the handler panics.
pub namespace_authorized_iff :
    (decoder : Decoder Namespace) (request : Request) (ns : Namespace)
    → render_namespace decoder request ≡ ok ns
    → (allows (authorized decoder request) ≡ true) ↔ (
        IsAdmin request
        ⊎ Any IsPrivilegedGroup request.groups
        ⊎ (Member "layered-sre-cluster-admins" request.groups
            × (has_prefix ns.name "redhat-" ≡ true))
        ⊎ (¬ IsPrivilegedNamespace ns.name
            × ¬ IsBadName ns.name
            × LabelsPass request.operation (render_old_and_new_namespaces decoder request)))
unfolding authorized
namespace_authorized_iff decoder request ns e = ground (
  arith,
  am_i_admin_iff request,
  has_privileged_group_iff request,
  contains_iff request.groups "layered-sre-cluster-admins",
  match-starting "redhat-" ns.name,
  is_privileged_namespace_iff ns.name,
  bad_namespace_iff ns.name,
  label_changes_iff decoder request,
)
