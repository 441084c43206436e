-- ===== src/Samples/RegistryTablePropertiesRuns.antt =====
-- Runs of the theorems of Registry/Table/Properties.antt on concrete inputs.
use managed_cluster_validati.Base.{ℕ, String, ◌≡◌, refl, inl, inr, Bool, true, none, some, []}
use managed_cluster_validati.Admission.{update, ok, fail}
use managed_cluster_validati.Admission.{Request, Result}
use managed_cluster_validati.Registry.{insert}
use managed_cluster_validati.Registry.Table.{Decoders, register, registered}
use managed_cluster_validati.Registry.Table.Properties.{every_hook_answers}
use managed_cluster_validati.Samples.{request_by, two_decoder}
use managed_cluster_validati.Server.Dispatcher.{dispatch, handle_request, new_dispatcher}
use managed_cluster_validati.Server.Dispatcher.Routing.{IsRegistered}
use managed_cluster_validati.Server.Request.{
  Body, Deserializer, HttpRequest, parse_body, parse_http_request, reviewed,
}
use managed_cluster_validati.Webhooks.HiveOwnership

abbrev decoders : Decoders ℕ String Bool ℕ
decoders = record {
  cluster_logging =
      two_decoder (record { retention_policy = none }) (record { retention_policy = none });
  cluster_role = two_decoder (record { name = "" }) (record { name = "" });
  cluster_role_binding =
      two_decoder (record { name = ""; command = ""; subjects = [] })
        (record { name = ""; command = ""; subjects = [] });
  custom_resource_definition = two_decoder (record { name = "" }) (record { name = "" });
  ingress_controller =
      two_decoder (record { node_placement = none }) (record { node_placement = none });
  namespace = two_decoder (record { name = ""; labels = [] }) (record { name = ""; labels = [] });
  network_policy =
      two_decoder (record { namespace = ""; match_labels = [] })
        (record { namespace = ""; match_labels = [] });
  node = two_decoder (record { name = ""; labels = [] }) (record { name = ""; labels = [] });
  pod =
      two_decoder (record { namespace = ""; tolerations = [] })
        (record { namespace = ""; tolerations = [] });
  prometheus_rule =
      two_decoder (record { namespace = ""; labels = [] }) (record { namespace = ""; labels = [] });
  scc = two_decoder (record { name = "" }) (record { name = "" });
  sdn_migration =
      two_decoder (record { annotations = []; spec_network_type = ""; status_network_type = "" })
        (record { annotations = []; spec_network_type = ""; status_network_type = "" });
  service =
      two_decoder (record { name = ""; spec_type = ""; annotations = none })
        (record { name = ""; spec_type = ""; annotations = none });
  service_account = two_decoder (record { name = "" }) (record { name = "" });
  tech_preview_no_upgrade = two_decoder (record { feature_set = "" }) (record { feature_set = "" });
  image_content_policies = record {
    idms =
        two_decoder (record { image_digest_mirrors = [] }) (record { image_digest_mirrors = [] });
    itms = two_decoder (record { image_tag_mirrors = [] }) (record { image_tag_mirrors = [] });
    icsp =
        two_decoder (record { repository_digest_mirrors = [] })
          (record { repository_digest_mirrors = [] });
  };
  network_operator = two_decoder (record { migration = none }) (record { migration = none });
  same_features = λ a b. true;
  same_values = λ a b. true;
  net_namespace = two_decoder (record { name = "" }) (record { name = "" });
  config_map =
      two_decoder (record { name = ""; namespace = "" }) (record { name = ""; namespace = "" });
  platform = record {
    new_client = fail "no client";
    decoder =
        two_decoder (record { containers = []; init_containers = []; others = "" })
          (record { containers = []; init_containers = []; others = "" });
    marshal = λ pod. ok pod.others;
    complete = λ request response. ok response;
  };
}

hive_ownership-IsRegistered : IsRegistered HiveOwnership.hook (registered decoders)
unfolding registered register insert
hive_ownership-IsRegistered = inr (inr (inr (inr (inr (inl refl)))))

abbrev parse_as_path : String → Result String
parse_as_path uri = ok uri

abbrev admin_request : Request
admin_request = request_by update "ClusterResourceQuota" "system:admin" []

abbrev decode_any : Deserializer
decode_any body = ok (some admin_request)

abbrev admin_post : HttpRequest
admin_post = record {
  request_uri = "/hiveownership-validation";
  content_type = "application/json";
  body = Body.readable "{}";
}

every_hook_answers_example :
    handle_request parse_as_path decode_any (new_dispatcher (registered decoders)) admin_post
    ≡ dispatch (HiveOwnership.hook.authorized admin_request)
unfolding parse_http_request parse_body reviewed HiveOwnership.validate
every_hook_answers_example =
    every_hook_answers decoders parse_as_path decode_any HiveOwnership.hook admin_post admin_request
      hive_ownership-IsRegistered refl refl refl
