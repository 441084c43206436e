-- ===== src/Samples/NodeRuns.antt =====
-- Runs of the theorems of Webhooks/Node.antt on concrete inputs.
use managed_cluster_validati.Base.{String, ◌≡◌, refl, ◌≢◌, ◌↔◌, ◌⊎◌, true, [], ◌∷◌, arith, eq_iff}
use managed_cluster_validati.Admission.{update, delete}
use mathlib.Core.Option.{some-ne-none}
use managed_cluster_validati.Admission.{Request, is_allowed}
use managed_cluster_validati.Base.Maps.{lookup}
use managed_cluster_validati.Samples.{customer, two_decoder}
use managed_cluster_validati.Webhooks.Node.{
  IsPrivilegedUser, IsWorker, Node, authorized, node_authorized_iff, render_node,
  update_ignores_old,
}

abbrev sample_node : Node
sample_node = record { name = "infra-0"; labels = ("node-role.kubernetes.io/infra", "") ∷ [] }

abbrev request_for_node : Request
request_for_node = customer update "Node"

node_authorized_iff_example :
    (is_allowed (authorized (two_decoder sample_node sample_node) request_for_node).verdict ≡ true)
    ↔ ((request_for_node.username ≢ "system:unauthenticated")
        × (IsPrivilegedUser request_for_node
            ⊎ ((request_for_node.kind ≡ "Node")
                × (request_for_node.operation ≢ delete)
                × IsWorker sample_node)))
unfolding render_node
node_authorized_iff_example =
    node_authorized_iff ((two_decoder sample_node sample_node)) request_for_node sample_node refl

abbrev infra : Node
infra = sample_node

abbrev worker : Node
worker = record { name = "infra-0"; labels = [] }

not_unauthenticated : ◌≢◌ {A = String} "alice" "system:unauthenticated"
not_unauthenticated e = ground (arith, (eq_iff "alice" "system:unauthenticated").1 e)

update_ignores_old_example :
    is_allowed (authorized (two_decoder infra worker) request_for_node).verdict ≡ true
unfolding lookup
update_ignores_old_example =
    update_ignores_old ((two_decoder infra worker)) request_for_node worker infra refl refl
      not_unauthenticated refl refl (refl, refl, refl) (λ is_worker. some-ne-none "" is_worker.0)
