-- ===== src/Registry/Table/Properties.antt =====
-- What holds of the table of webhooks of pkg/webhooks, whatever decodes their objects, and with it of
-- the dispatcher and of the build.
use Prim.Native.Nat.{◌≤◌}
use managed_cluster_validati.Base.{String, ◌≡◌, refl, true, [], some, arith, All, contains}
use managed_cluster_validati.Admission.{Request, Result, ok}
use managed_cluster_validati.Webhook.{Webhook}
use managed_cluster_validati.Registry.{insert}
use managed_cluster_validati.Registry.Keys.{IsDistinct, all_distinct, all_distinct-IsDistinct}
use managed_cluster_validati.Registry.Table.{Decoders, register, registered}
use managed_cluster_validati.Server.Request.{HttpRequest, Deserializer, parse_http_request}
use managed_cluster_validati.Server.Dispatcher.{dispatch, handle_request, new_dispatcher}
use managed_cluster_validati.Server.Dispatcher.Routing.{uris, IsRegistered, registered_hook_answers}
use managed_cluster_validati.Build.{Flags, add_hooks}
use managed_cluster_validati.Build.Selection.{resources_of, build_lem}

-- Each webhook is registered under its own name, has a timeout of 1 to 30 seconds, and has a rule.
abbrev IsWellFormed : String × Webhook → Type 0
IsWellFormed (name, hook) =
    (hook.name ≡ name) × ((1 ≤ hook.timeout_seconds) × (hook.timeout_seconds ≤ 30))

module _ {A B F V : Type 0} where
  -- No two registered webhooks share a URI.
  pub uris-IsDistinct : (decoders : Decoders A B F V) → IsDistinct (uris (registered decoders))
  unfolding all_distinct contains registered register insert
  uris-IsDistinct decoders = all_distinct-IsDistinct (uris (registered decoders)) refl

  pub registered-IsWellFormed :
      (decoders : Decoders A B F V) → All IsWellFormed (registered decoders)
  unfolding registered register insert
  registered-IsWellFormed decoders = ground arith

  -- Every registered webhook is reached: the reply to a request with its URI that parses and that it
  -- finds valid is what its outcome gives, its response with status 200 or a crash if it panics.
  pub every_hook_answers :
      (decoders : Decoders A B F V) (parse_url : String → Result String) (decode : Deserializer)
      (hook : Webhook) (r : HttpRequest) (request : Request)
      → IsRegistered hook (registered decoders)
      → parse_url r.request_uri ≡ ok hook.uri
      → parse_http_request decode r ≡ ok request
      → hook.validate request ≡ true
      → handle_request parse_url decode (new_dispatcher (registered decoders)) r
        ≡ dispatch (hook.authorized request)
  every_hook_answers decoders parse_url decode hook r request is_registered =
      registered_hook_answers parse_url decode (registered decoders) hook r request
        (uris-IsDistinct decoders) is_registered

  -- The build of the registered webhooks does not panic, and gives each what it adds.
  pub registered_build :
      (decoders : Decoders A B F V) (flags : Flags)
      → add_hooks flags [] (registered decoders) ≡ some (resources_of flags (registered decoders))
  registered_build decoders flags = build_lem flags (registered decoders) (uris-IsDistinct decoders)
