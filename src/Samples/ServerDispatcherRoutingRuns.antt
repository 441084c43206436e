-- ===== src/Samples/ServerDispatcherRoutingRuns.antt =====
-- Runs of the theorems of Server/Dispatcher/Routing.antt on concrete inputs.
use managed_cluster_validati.Base.{
  String, ◌≡◌, refl, inl, inr, true, false, some, [], ◌∷◌, contains,
}
use managed_cluster_validati.Admission.{update, ok, fail}
use managed_cluster_validati.Admission.{Request, Result, allows, bad_request}
use managed_cluster_validati.Registry.{find, insert}
use managed_cluster_validati.Registry.Keys.{IsDistinct, all_distinct, all_distinct-IsDistinct}
use managed_cluster_validati.Samples.{request_by}
use managed_cluster_validati.Server.Dispatcher.{
  Hooks, Reply, collect, dispatch, handle_hook, handle_parsed, handle_request, handle_url,
  new_dispatcher, send_response,
}
use managed_cluster_validati.Server.Dispatcher.Routing.{
  IsRegistered, allowed_comes_from_hook, registered_hook_answers, unfit_request_is_refused, uris,
}
use managed_cluster_validati.Server.Request.{
  Body, Deserializer, HttpRequest, parse_body, parse_http_request, reviewed,
}
use managed_cluster_validati.Webhook.{Webhook}
use managed_cluster_validati.Webhooks.HiveOwnership
use managed_cluster_validati.Webhooks.HostedCluster

abbrev hooks_of_two : Hooks
hooks_of_two =
    ("hostedcluster-validation", HostedCluster.hook)
    ∷ ("hiveownership-validation", HiveOwnership.hook)
    ∷ []

abbrev parse_as_path : String → Result String
parse_as_path uri = ok uri

abbrev admin_request : Request
admin_request = request_by update "ClusterResourceQuota" "system:admin" []

abbrev decode_any : Deserializer
decode_any body = ok (some admin_request)

abbrev admin_post : HttpRequest
admin_post = record {
  request_uri = "/hiveownership-validation";
  content_type = "application/json";
  body = Body.readable "{}";
}

IsDistinct-uris : IsDistinct (uris hooks_of_two)
unfolding all_distinct contains
IsDistinct-uris = all_distinct-IsDistinct (uris hooks_of_two) refl

registered_hook_answers_example :
    handle_request parse_as_path decode_any (new_dispatcher hooks_of_two) admin_post
    ≡ dispatch (HiveOwnership.hook.authorized admin_request)
unfolding parse_http_request parse_body reviewed HiveOwnership.validate
registered_hook_answers_example =
    registered_hook_answers parse_as_path decode_any hooks_of_two HiveOwnership.hook admin_post
      admin_request IsDistinct-uris (inr (inl refl)) refl refl refl

allowed_comes_from_hook_example :
    (hook : Webhook) × (request : Request) × (IsRegistered hook hooks_of_two
      × (parse_as_path admin_post.request_uri ≡ ok hook.uri)
      × (parse_http_request decode_any admin_post ≡ ok request)
      × (hook.validate request ≡ true)
      × (allows (hook.authorized request) ≡ true))
unfolding parse_http_request parse_body reviewed HiveOwnership.validate HiveOwnership.authorized
    handle_request handle_url handle_hook handle_parsed new_dispatcher collect insert find contains
allowed_comes_from_hook_example =
    allowed_comes_from_hook parse_as_path decode_any hooks_of_two admin_post refl

unfit_request_is_refused_example :
    ((err : String)
      → parse_http_request decode_any admin_post ≡ fail err
      → handle_request parse_as_path decode_any (new_dispatcher hooks_of_two) admin_post
        ≡ Reply.replied 400 (send_response (bad_request err)))
    × ((request : Request)
        → parse_http_request decode_any admin_post ≡ ok request
        → HiveOwnership.hook.validate request ≡ false
        → handle_request parse_as_path decode_any (new_dispatcher hooks_of_two) admin_post
          ≡ Reply.replied 200 (send_response (bad_request "not a valid webhook request")))
unfit_request_is_refused_example =
    unfit_request_is_refused parse_as_path decode_any hooks_of_two HiveOwnership.hook admin_post
      IsDistinct-uris (inr (inl refl)) refl
