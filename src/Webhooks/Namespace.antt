-- ===== src/Webhooks/Namespace.antt =====
-- pkg/webhooks/namespace/namespace.go: customers stay out of managed namespaces, do not create names
-- that break DNS, and do not touch the protected labels.
pub mod LabelGuard
pub mod Access
use managed_cluster_validati.Base.Maps.{Labels, lookup, value_of}
use managed_cluster_validati.Base.{
  ℕ, String, ◌≡◌, refl, ◌≢◌, ◌↔◌, ◌⊎◌, inl, inr, Bool, true, false, not, ◌&&◌, ◌||◌, Option, none,
  some, List, [], ◌∷◌, ◌++◌, arith, any, Any, any_iff, any-eq_iff, contains, contains_iff, Member,
  ◌==◌, eq_iff, if◌then◌else◌, Bool-cases, length, nat_eq, ltb, leb, or-true,
}
use managed_cluster_validati.Base.Text.{
  concat, print_list, has_prefix, has_substring, split, join, join_with, codes, strip_prefix,
}
use managed_cluster_validati.Regex.{
  Regex, begin, end, any_char, seq, alt, star, chars, exactly, starting, optional, match,
}
use managed_cluster_validati.Regex.Shapes.{
  match-exactly, match-exactly_eq, match-starting, match-alt, match-chars,
}
use managed_cluster_validati.Admission.{
  Operation, create, update, delete, connect, is_create, is_update, is_delete, Request, Response,
  Verdict, allow, deny, errored, validation, is_allowed, answer, bad_request, Outcome, returned,
  panicked, Result, ok, fail, Decoder,
}
use managed_cluster_validati.Utils.{
  request_matches_group_kind, regex_slice_contains, webhook_response,
  privileged_service_account_groups, has_privileged_group, is_protected_by_resource_name,
}
use managed_cluster_validati.Utils.Matching.{IsPrivilegedGroup, has_privileged_group_iff}
use managed_cluster_validati.Config.{is_privileged_namespace, privileged_namespace_texts}
use managed_cluster_validati.Config.Namespaces.{IsPrivilegedNamespace, is_privileged_namespace_iff}
use managed_cluster_validati.Webhook.{Rule, LabelSelector, Webhook, default_label_selector}

-- (^com$|^io$|^in$)
abbrev pub bad_namespace : Regex
bad_namespace = alt (exactly "com") (alt (exactly "io") (exactly "in"))

abbrev pub layered_product_namespace : Regex
layered_product_namespace = starting "redhat-"

abbrev pub cluster_admin_users : List String
cluster_admin_users = "kube:admin" ∷ "system:admin" ∷ "backplane-cluster-admin" ∷ []

abbrev pub sre_admin_groups : List String
sre_admin_groups = "system:serviceaccounts:openshift-backplane-srep" ∷ []

-- Labels that customers do not change.
abbrev pub protected_labels : List String
protected_labels =
    "managed.openshift.io/storage-pv-quota-exempt" ∷ "managed.openshift.io/service-lb-quota-exempt"
    ∷ []

abbrev rules : List Rule
rules =
    record {
      operations = "CREATE" ∷ "UPDATE" ∷ "DELETE" ∷ [];
      api_groups = "" ∷ [];
      api_versions = "*" ∷ [];
      resources = "namespaces" ∷ [];
      scope = "Cluster";
    }
    ∷ []

pub record Namespace : Type 0 where
  pub name : String
  pub labels : Labels

unfoldable pub validate : Request → Bool
validate request = not (request.username == "") && request.kind == "Namespace"

-- The old object, if there is one, and the new one if not.
unfoldable pub render_namespace : Decoder Namespace → Request → Result Namespace
render_namespace decoder request =
    if not (request.old_object == "")
    then decoder.decode_raw request.old_object
    else decoder.decode_raw request.object

-- `nil` for an object that the request does not have.
unfoldable pub render_present : Decoder Namespace → String → Result (Option Namespace)
render_present decoder raw =
    if raw == ""
    then ok none
    else elim (decoder.decode_raw raw) [ fail err ↦ fail err | ok ns ↦ ok (some ns) ]

unfoldable pub pair_with_new :
    Option Namespace → Result (Option Namespace) → Result (Option Namespace × Option Namespace)
pair_with_new old (fail err) = fail err
pair_with_new old (ok new) = ok (new, old)

-- The new namespace, then the old one; the old one is decoded first.
unfoldable pub render_old_and_new_namespaces :
    Decoder Namespace → Request → Result (Option Namespace × Option Namespace)
unfolding pair_with_new
render_old_and_new_namespaces decoder request = elim (render_present decoder request.old_object) [
  | fail err ↦ fail err
  | ok old ↦ pair_with_new old (render_present decoder request.object)
]

pub am_i_admin : Request → Bool
am_i_admin request =
    (contains cluster_admin_users request.username || contains request.groups "cluster-admins")
    || any (λ group. contains request.groups group) sre_admin_groups

is_found : Option String → Bool
is_found none = false
is_found (some _) = true

found_labels : Labels → List String → List String
unfolding is_found
found_labels labels [] = []
found_labels labels (label ∷ rest) =
    let more = found_labels labels rest in
    if is_found (lookup label labels) then label ∷ more else more

-- A read through a nil namespace panics: `none`.
does_namespace_contain_protected_labels : Option Namespace → Option (List String)
unfolding found_labels
does_namespace_contain_protected_labels none = none
does_namespace_contain_protected_labels (some ns) = some (found_labels ns.labels protected_labels)

-- The first key whose value differs.
first_changed : Labels → Labels → List String → Option String
first_changed old new [] = none
first_changed old new (key ∷ keys) =
    let rest = first_changed old new keys in
    if not (value_of key old == value_of key new) then some key else rest

-- What `unauthorizedLabelChanges` finds: nothing wrong, the reason for a denial, or a panic.
pub data LabelCheck : Type 0 where
  authorized_labels : LabelCheck
  unauthorized_labels : String → LabelCheck
  label_panic : LabelCheck

check_create : Option (List String) → LabelCheck
check_create none = label_panic
check_create (some []) = authorized_labels
check_create (some (_ ∷ _)) = unauthorized_labels (
    concat (
      "Managed OpenShift customers may not directly set certain protected labels ("
      ∷ print_list protected_labels
      ∷ ") on Namespaces"
      ∷ []))

check_values : Labels → Labels → Option String → LabelCheck
check_values old new none = authorized_labels
check_values old new (some key) = unauthorized_labels (
    concat (
      "Managed OpenShift customers may not change the value or certain protected labels ("
      ∷ print_list protected_labels
      ∷ ") on Namespaces. "
      ∷ key
      ∷ " changed from "
      ∷ value_of key old
      ∷ " to "
      ∷ value_of key new
      ∷ []))

check_found : Labels → Labels → List String → List String → LabelCheck
unfolding first_changed check_values
check_found old new in_old in_new =
    if not (nat_eq (length in_old) (length in_new))
    then unauthorized_labels (
        concat (
          "Managed OpenShift customers may not add or remove protected labels ("
          ∷ print_list protected_labels
          ∷ ") from Namespaces"
          ∷ []))
    else check_values old new (first_changed old new in_old)

-- A nil namespace panics, the old one first.
check_update : Option Namespace → Option Namespace → LabelCheck
unfolding check_found found_labels
check_update new none = label_panic
check_update none (some old) = label_panic
check_update (some new) (some old) =
    check_found old.labels new.labels (found_labels old.labels protected_labels)
      (found_labels new.labels protected_labels)

check_rendered : Operation → Result (Option Namespace × Option Namespace) → LabelCheck
unfolding check_create check_update does_namespace_contain_protected_labels
check_rendered op (fail err) = unauthorized_labels err
check_rendered create (ok (new, old)) = check_create (does_namespace_contain_protected_labels new)
check_rendered update (ok (new, old)) = check_update new old
check_rendered _ (ok _) = authorized_labels

pub unauthorized_label_changes : Decoder Namespace → Request → LabelCheck
unfolding check_rendered
unauthorized_label_changes decoder request =
    if is_delete request.operation
    then authorized_labels
    else check_rendered request.operation (render_old_and_new_namespaces decoder request)

authorize_labels : Request → LabelCheck → Outcome
authorize_labels request label_panic = panicked
authorize_labels request authorized_labels = returned (answer request (allow "RBAC allowed"))
authorize_labels request (unauthorized_labels err) =
    if not (am_i_admin request)
    then returned (answer request (deny (concat ("Denied. Err " ∷ err ∷ []))))
    else returned (answer request (allow "RBAC allowed"))

authorize_namespace : Request → Namespace → LabelCheck → Outcome
unfolding authorize_labels
authorize_namespace request ns labels =
    if contains request.groups "layered-sre-cluster-admins"
      && match layered_product_namespace ns.name
    then returned (answer request (allow "Layered product admins may access"))
    else if is_privileged_namespace ns.name
    then returned (
        answer request (
          deny (
            concat (
              "Prevented from accessing Red Hat managed namespaces. Customer workloads should be placed in customer namespaces, and should not match an entry in this list of regular expressions: "
              ∷ print_list privileged_namespace_texts
              ∷ []))))
    else if match bad_namespace ns.name
    then returned (
        answer request (
          deny
            "Prevented from creating a potentially harmful namespace. Customer namespaces should not match this regular expression, as this would impact DNS resolution: (^com$|^io$|^in$)"))
    else authorize_labels request labels

authorize_rendered : Decoder Namespace → Request → Result Namespace → Outcome
unfolding authorize_namespace
authorize_rendered decoder request (fail err) = returned (bad_request err)
authorize_rendered decoder request (ok ns) =
    authorize_namespace request ns (unauthorized_label_changes decoder request)

pub authorized : Decoder Namespace → Request → Outcome
unfolding authorize_rendered
authorized decoder request =
    if am_i_admin request
    then returned (answer request (allow "Cluster and SRE admins may access"))
    else if has_privileged_group request
    then returned (answer request (allow "Privileged service accounts may access"))
    else authorize_rendered decoder request (render_namespace decoder request)

abbrev pub hook : Decoder Namespace → Webhook
hook decoder = record {
  authorized = authorized decoder;
  uri = "/namespace-validation";
  validate = validate;
  name = "namespace-validation";
  failure_policy = "Ignore";
  match_policy = "Equivalent";
  rules = rules;
  object_selector = none;
  side_effects = "None";
  timeout_seconds = 2;
  sync_set_label_selector = default_label_selector;
  classic_enabled = true;
  hypershift_enabled = false;
}
