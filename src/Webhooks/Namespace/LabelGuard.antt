-- ===== src/Webhooks/Namespace/LabelGuard.antt =====
-- What the check of the protected labels ensures.
use Prim.Native.Nat.{◌+◌}
use managed_cluster_validati.Base.{
  ℕ, if◌then◌else◌, String, ◌≡◌, ◌≢◌, ◌↔◌, ◌⊎◌, Option, none, some, arith, eq_iff,
}
use managed_cluster_validati.Base.Maps.{Labels, lookup, value_of}
use managed_cluster_validati.Admission.{
  Operation, create, update, delete, connect, is_delete, Request, Result, ok, fail, Decoder,
}
use managed_cluster_validati.Webhooks.Namespace.{
  Namespace, render_old_and_new_namespaces, authorized_labels, label_panic,
  unauthorized_label_changes, check_update, check_rendered,
}

abbrev pub storage_label : String
storage_label = "managed.openshift.io/storage-pv-quota-exempt"

abbrev pub balancer_label : String
balancer_label = "managed.openshift.io/service-lb-quota-exempt"

-- Both maps hold the same protected labels with the same values.
abbrev pub SameProtected : Labels → Labels → Type 0
SameProtected old new =
    (lookup storage_label old ≡ lookup storage_label new)
    × (lookup balancer_label old ≡ lookup balancer_label new)

check_update-kept :
    (old new : Namespace)
    → lookup storage_label old.labels ≢ some ""
    → lookup balancer_label old.labels ≢ some ""
    → check_update (some new) (some old) ≡ authorized_labels
    → SameProtected old.labels new.labels
unfolding check_update value_of
check_update-kept old new h k e = ground (
  arith,
  eq_iff (value_of storage_label old.labels) (value_of storage_label new.labels),
  eq_iff (value_of balancer_label old.labels) (value_of balancer_label new.labels),
)

check_update-same :
    (old new : Namespace)
    → SameProtected old.labels new.labels
    → check_update (some new) (some old) ≡ authorized_labels
unfolding check_update value_of
check_update-same old new same = ground (
  arith,
  eq_iff (value_of storage_label old.labels) (value_of storage_label new.labels),
  eq_iff (value_of balancer_label old.labels) (value_of balancer_label new.labels),
)

-- An update whose two namespaces decode, and whose old namespace has no protected label with an
-- empty value, passes the check exactly when every protected label is on the new namespace as it
-- was on the old one.
pub update_iff :
    (decoder : Decoder Namespace) (request : Request) (old new : Namespace)
    → request.operation ≡ update
    → render_old_and_new_namespaces decoder request ≡ ok (some new, some old)
    → lookup storage_label old.labels ≢ some ""
    → lookup balancer_label old.labels ≢ some ""
    → (unauthorized_label_changes decoder request ≡ authorized_labels)
      ↔ SameProtected old.labels new.labels
unfolding unauthorized_label_changes check_update
update_iff decoder request old new op e h k =
    ground (arith, check_update-kept old new h k, check_update-same old new)

check_update-swap :
    (old new : Namespace) (v : String)
    → lookup storage_label old.labels ≡ some ""
    → lookup balancer_label old.labels ≡ none
    → lookup storage_label new.labels ≡ none
    → lookup balancer_label new.labels ≡ some v
    → check_update (some new) (some old) ≡ authorized_labels
unfolding check_update value_of
check_update-swap old new v a b c d =
    ground (arith, eq_iff (value_of storage_label old.labels) (value_of storage_label new.labels))

-- The check compares numbers of labels, and the values under the old keys only. So a protected
-- label with an empty value can be given up for the other one, with any value: the update passes.
pub swap_passes :
    (decoder : Decoder Namespace) (request : Request) (old new : Namespace) (v : String)
    → request.operation ≡ update
    → render_old_and_new_namespaces decoder request ≡ ok (some new, some old)
    → lookup storage_label old.labels ≡ some ""
    → lookup balancer_label old.labels ≡ none
    → lookup storage_label new.labels ≡ none
    → lookup balancer_label new.labels ≡ some v
    → unauthorized_label_changes decoder request ≡ authorized_labels
unfolding unauthorized_label_changes
swap_passes decoder request old new v op e a b c d = ground (arith, check_update-swap old new v)

-- A creation whose namespace decodes passes exactly when it sets no protected label.
pub create_iff :
    (decoder : Decoder Namespace) (request : Request) (new : Namespace) (old : Option Namespace)
    → request.operation ≡ create
    → render_old_and_new_namespaces decoder request ≡ ok (some new, old)
    → (unauthorized_label_changes decoder request ≡ authorized_labels)
      ↔ ((lookup storage_label new.labels ≡ none) × (lookup balancer_label new.labels ≡ none))
unfolding unauthorized_label_changes
create_iff decoder request new old op e = ground arith

-- A creation without an object, or an update without one of its objects, is not refused: the
-- check dereferences nil.
pub missing_object_panics :
    (decoder : Decoder Namespace) (request : Request) (new old : Option Namespace)
    → render_old_and_new_namespaces decoder request ≡ ok (new, old)
    → (((request.operation ≡ create) × (new ≡ none))
        ⊎ ((request.operation ≡ update) × ((new ≡ none) ⊎ (old ≡ none))))
    → unauthorized_label_changes decoder request ≡ label_panic
unfolding unauthorized_label_changes check_update
missing_object_panics decoder request new old e h = ground arith

-- How many of the protected labels are set.
abbrev set : Option String → ℕ
set none = 0
set (some _) = 1

abbrev pub protected_count : Labels → ℕ
protected_count labels = set (lookup storage_label labels) + set (lookup balancer_label labels)

-- If the label was set, its value is as it was; a label that is not set reads as the empty text.
abbrev pub KeepsValue : String → Labels → Labels → Type 0
KeepsValue label old new = lookup label old ≢ none → value_of label old ≡ value_of label new

-- Which changes of the labels pass: a deletion; with two namespaces that decode, a creation without
-- protected labels, and an update that keeps their number and, for those of the old namespace, their
-- values.
abbrev pub LabelsPass : Operation → Result (Option Namespace × Option Namespace) → Type 0
LabelsPass delete rendered = Unit
LabelsPass create (fail err) = ⊥
LabelsPass create (ok (none, old)) = ⊥
LabelsPass create (ok (some new, old)) =
    (lookup storage_label new.labels ≡ none) × (lookup balancer_label new.labels ≡ none)
LabelsPass update (fail err) = ⊥
LabelsPass update (ok (none, old)) = ⊥
LabelsPass update (ok (some new, none)) = ⊥
LabelsPass update (ok (some new, some old)) =
    (protected_count old.labels ≡ protected_count new.labels)
    × KeepsValue storage_label old.labels new.labels
    × KeepsValue balancer_label old.labels new.labels
LabelsPass connect (fail err) = ⊥
LabelsPass connect (ok rendered) = Unit

check_update_iff :
    (new old : Option Namespace)
    → (check_update new old ≡ authorized_labels) ↔ LabelsPass update (ok (new, old))
unfolding check_update value_of
check_update_iff none old = ground arith
check_update_iff (some new) none = ground arith
check_update_iff (some new) (some old) = ground (
  arith,
  eq_iff (value_of storage_label old.labels) (value_of storage_label new.labels),
  eq_iff (value_of balancer_label old.labels) (value_of balancer_label new.labels),
)

check_rendered_iff :
    (op : Operation) (rendered : Result (Option Namespace × Option Namespace))
    → (if is_delete op then authorized_labels else check_rendered op rendered) ≡ authorized_labels
      ↔ LabelsPass op rendered
unfolding check_rendered
check_rendered_iff delete rendered = ground arith
check_rendered_iff create (fail err) = ground arith
check_rendered_iff create (ok (none, old)) = ground arith
check_rendered_iff create (ok (some new, old)) = ground arith
check_rendered_iff update (fail err) = ground arith
check_rendered_iff update (ok (new, old)) = check_update_iff new old
check_rendered_iff connect (fail err) = ground arith
check_rendered_iff connect (ok rendered) = ground arith

pub label_changes_iff :
    (decoder : Decoder Namespace) (request : Request)
    → (unauthorized_label_changes decoder request ≡ authorized_labels)
      ↔ LabelsPass request.operation (render_old_and_new_namespaces decoder request)
unfolding unauthorized_label_changes
label_changes_iff decoder request =
    check_rendered_iff request.operation (render_old_and_new_namespaces decoder request)
