-- ===== src/Server/Dispatcher.antt =====
-- pkg/dispatcher/dispatcher.go and pkg/helpers/response.go: an HTTP request is handed to the webhook
-- of its URI. `url.Parse` is a parameter, from a URI to its path. The mutex lets one request in at a
-- time, and a request changes no state of the dispatcher, so a run is one function call.
pub mod Routing
use managed_cluster_validati.Base.{
  ℕ, String, Bool, true, false, not, Option, none, some, List, [], ◌∷◌, if◌then◌else◌,
}
use managed_cluster_validati.Admission.{
  Request, Response, bad_request, Outcome, returned, panicked, Result, ok, fail,
}
use managed_cluster_validati.Webhook.{Webhook}
use managed_cluster_validati.Registry.{insert, find}
use managed_cluster_validati.Server.Request.{HttpRequest, Deserializer, parse_http_request}

-- The AdmissionReview that `SendResponse` encodes.
pub record Review : Type 0 where
  pub api_version : String
  pub kind : String
  pub response : Response
  pub audit_annotations : List (String × String)

abbrev pub send_response : Response → Review
send_response resp = record {
  api_version = "admission.k8s.io/v1";
  kind = "AdmissionReview";
  response = resp;
  audit_annotations = ("owner", "srep-managed-webhook") ∷ [];
}

-- The status code, which is 200 where no `WriteHeader` was called, with the review; or the panic of
-- a webhook, which net/http recovers from.
pub data Reply : Type 0 where
  replied : ℕ → Review → Reply
  crashed : Reply

abbrev pub Hooks : Type 0
Hooks = List (String × Webhook)

-- `hookMap[hook().GetURI()] = hook`, over the registered webhooks.
unfoldable pub collect : Hooks → Hooks → Hooks
collect hook_map [] = hook_map
collect hook_map ((_, hook) ∷ hooks) = collect (insert hook.uri hook hook_map) hooks

unfoldable pub new_dispatcher : Hooks → Hooks
new_dispatcher hooks = collect [] hooks

abbrev pub dispatch : Outcome → Reply
dispatch panicked = Reply.crashed
dispatch (returned response) = Reply.replied 200 (send_response response)

unfoldable pub handle_parsed : Webhook → Result Request → Reply
handle_parsed hook (fail err) = Reply.replied 400 (send_response (bad_request err))
handle_parsed hook (ok request) =
    if not (hook.validate request)
    then Reply.replied 200 (send_response (bad_request "not a valid webhook request"))
    else dispatch (hook.authorized request)

unfoldable pub handle_hook : Deserializer → HttpRequest → Option Webhook → Reply
unfolding handle_parsed
handle_hook decode r none =
    Reply.replied 404 (send_response (bad_request "request is not for a registered webhook"))
handle_hook decode r (some hook) = handle_parsed hook (parse_http_request decode r)

unfoldable pub handle_url : Deserializer → Hooks → HttpRequest → Result String → Reply
unfolding handle_hook
handle_url decode hooks r (fail err) = Reply.replied 400 (send_response (bad_request err))
handle_url decode hooks r (ok path) = handle_hook decode r (find path hooks)

unfoldable pub handle_request :
    (String → Result String) → Deserializer → Hooks → HttpRequest → Reply
unfolding handle_url
handle_request parse_url decode hooks r = handle_url decode hooks r (parse_url r.request_uri)
