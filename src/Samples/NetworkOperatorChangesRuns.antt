-- ===== src/Samples/NetworkOperatorChangesRuns.antt =====
-- Runs of the theorems of Webhooks/NetworkOperator/Changes.antt on concrete inputs.
use managed_cluster_validati.Base.{
  ℕ, ◌≡◌, refl, ◌↔◌, ◌⊎◌, Bool, true, false, not, none, some, nat_eq,
}
use managed_cluster_validati.Admission.{update}
use managed_cluster_validati.Admission.{Request, is_allowed}
use managed_cluster_validati.Samples.{customer, two_decoder}
use managed_cluster_validati.Webhooks.NetworkOperator.{
  Network, authorized, render_network, render_old_network,
}
use managed_cluster_validati.Webhooks.NetworkOperator.Changes.{
  IsAllowed, IsSame, SameMigration, network_operator_authorized_iff,
}

abbrev same_flags : Bool → Bool → Bool
same_flags true b = b
same_flags false b = not b

abbrev same_mtu : ℕ → ℕ → Bool
same_mtu a b = nat_eq a b

abbrev idle : Network Bool ℕ
idle = record { migration = none }

abbrev migrating : Network Bool ℕ
migrating = record {
  migration = some (record {
    network_type = "OVNKubernetes";
    mode = "Live";
    features = some true;
    mtu = some (record { network = some 1400; machine = none });
  });
}

abbrev update_of_operator : Request
update_of_operator = customer update "Network"

network_operator_authorized_iff_example :
    (is_allowed
        (authorized same_flags same_mtu (two_decoder idle migrating) update_of_operator).verdict
      ≡ true)
    ↔ (IsAllowed same_flags same_mtu update_of_operator
        ⊎ IsSame (SameMigration same_flags same_mtu) idle.migration migrating.migration)
unfolding render_network render_old_network
network_operator_authorized_iff_example =
    network_operator_authorized_iff same_flags same_mtu ((two_decoder idle migrating))
      update_of_operator migrating idle refl refl refl
