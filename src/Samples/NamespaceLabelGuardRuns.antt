-- ===== src/Samples/NamespaceLabelGuardRuns.antt =====
-- Runs of the theorems of Webhooks/Namespace/LabelGuard.antt on concrete inputs.
use managed_cluster_validati.Base.{◌≡◌, refl, ◌↔◌, inr, none, some, [], ◌∷◌, arith}
use managed_cluster_validati.Admission.{update}
use managed_cluster_validati.Webhooks.Namespace.{authorized_labels, label_panic}
use managed_cluster_validati.Admission.{Request}
use managed_cluster_validati.Base.Maps.{lookup}
use managed_cluster_validati.Samples.{customer, two_decoder}
use managed_cluster_validati.Webhooks.Namespace.{
  Namespace, pair_with_new, render_old_and_new_namespaces, render_present,
  unauthorized_label_changes,
}
use managed_cluster_validati.Webhooks.Namespace.LabelGuard.{
  SameProtected, balancer_label, missing_object_panics, storage_label, swap_passes, update_iff,
}

abbrev shop : Namespace
shop = record { name = "shop"; labels = (storage_label, "") ∷ [] }

abbrev swapped : Namespace
swapped = record { name = "shop"; labels = (balancer_label, "true") ∷ [] }

abbrev plain : Namespace
plain = record { name = "shop"; labels = [] }

abbrev update_of_namespace : Request
update_of_namespace = customer update "Namespace"

update_iff_example :
    (unauthorized_label_changes (two_decoder plain swapped) update_of_namespace ≡ authorized_labels)
    ↔ SameProtected plain.labels swapped.labels
unfolding render_old_and_new_namespaces render_present lookup pair_with_new
update_iff_example =
    update_iff ((two_decoder plain swapped)) update_of_namespace plain swapped refl refl
      (ground arith) (ground arith)

swap_passes_example :
    unauthorized_label_changes (two_decoder shop swapped) update_of_namespace ≡ authorized_labels
unfolding render_old_and_new_namespaces render_present lookup pair_with_new
swap_passes_example =
    swap_passes ((two_decoder shop swapped)) update_of_namespace shop swapped "true" refl refl refl
      refl refl refl

abbrev update_without_old : Request
update_without_old = record {
  uid = "1";
  kind = "Namespace";
  group = "";
  request_kind = "Namespace";
  name = "shop";
  namespace = "";
  operation = update;
  username = "alice";
  groups = [];
  object = "new";
  old_object = "";
}

missing_object_panics_example :
    unauthorized_label_changes (two_decoder plain plain) update_without_old ≡ label_panic
unfolding render_old_and_new_namespaces render_present pair_with_new
missing_object_panics_example =
    missing_object_panics ((two_decoder plain plain)) update_without_old ((some plain)) none refl
      (inr (refl, inr refl))
