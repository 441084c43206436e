-- ===== src/Samples/IngressControllerRuns.antt =====
-- Runs of the theorems of Webhooks/IngressController.antt on concrete inputs.
use managed_cluster_validati.Base.{
  String, ◌≡◌, refl, ◌≢◌, none, arith, contains, contains_iff, Member, eq_iff,
}
use managed_cluster_validati.Admission.{update, panicked}
use managed_cluster_validati.Admission.{Request}
use managed_cluster_validati.Base.Text.{has_prefix}
use managed_cluster_validati.Samples.{customer, two_decoder}
use managed_cluster_validati.Webhooks.IngressController.{
  IngressController, IsSystemUser, allowed_users, authorized, no_placement_panics,
  render_ingress_controller,
}

abbrev request_for_ic : Request
request_for_ic = customer update "IngressController"

abbrev unplaced : IngressController
unplaced = record { node_placement = none }

not_unauthenticated : ◌≢◌ {A = String} "alice" "system:unauthenticated"
not_unauthenticated e = ground (arith, (eq_iff "alice" "system:unauthenticated").1 e)

not_system : ¬ IsSystemUser "alice"
unfolding has_prefix
not_system h = ground (arith, h)

not_listed : ¬ Member "alice" allowed_users
unfolding contains
not_listed m = ground (arith, (contains_iff allowed_users "alice").1 m)

no_placement_panics_example : authorized (two_decoder unplaced unplaced) request_for_ic ≡ panicked
unfolding render_ingress_controller
no_placement_panics_example =
    no_placement_panics ((two_decoder unplaced unplaced)) request_for_ic unplaced refl refl
      not_unauthenticated not_system not_listed
