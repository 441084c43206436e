-- ===== src/Server/Dispatcher/Routing.antt =====
-- Which webhook of the dispatcher, in pkg/dispatcher/dispatcher.go, answers which request.
use mathlib.Core.Option.{some-injective}
use managed_cluster_validati.Base.{
  String, ◌≡◌, refl, sym, ap, ◌∙◌, ◌⊎◌, inl, inr, Bool, true, false, not, List, [], ◌∷◌, Option,
  none, some, arith, Any, Member, ◌==◌, eq_iff, if◌then◌else◌, Bool-cases,
}
use managed_cluster_validati.Admission.{
  Request, Outcome, returned, panicked, Result, ok, fail, is_allowed, allows, bad_request,
}
use managed_cluster_validati.Webhook.{Webhook}
use managed_cluster_validati.Registry.{insert, find}
use managed_cluster_validati.Registry.Keys.{IsDistinct, find-insert, find-insert_other}
use managed_cluster_validati.Server.Request.{HttpRequest, Deserializer, parse_http_request}
use managed_cluster_validati.Server.Dispatcher.{
  Reply, Hooks, send_response, collect, new_dispatcher, dispatch, handle_parsed, handle_hook,
  handle_url, handle_request,
}

abbrev pub uris : Hooks → List String
uris [] = []
uris ((_, hook) ∷ hooks) = hook.uri ∷ uris hooks

abbrev pub IsRegistered : Webhook → Hooks → Type 0
IsRegistered hook hooks = Any (λ entry. entry.1 ≡ hook) hooks

-- A URI that is none of the list's keeps what it had.
find-collect_other :
    (u : String) (m hooks : Hooks) → ¬ Member u (uris hooks) → find u (collect m hooks) ≡ find u m
unfolding collect Member
find-collect_other u m [] h = refl
find-collect_other u m ((_, hook) ∷ hooks) h =
    find-collect_other u (insert hook.uri hook m) hooks (λ k. h (inr k))
    ∙ find-insert_other u hook.uri hook m (λ e. h (inl e))

find-collect :
    (hook : Webhook) (m hooks : Hooks)
    → IsDistinct (uris hooks)
    → IsRegistered hook hooks
    → find hook.uri (collect m hooks) ≡ some hook
unfolding collect
find-collect hook m [] d reg = absurd reg
find-collect hook m ((_, first) ∷ hooks) (fresh, d) (inl e) = rw (sym e) (
    find-collect_other first.uri (insert first.uri first m) hooks fresh
    ∙ find-insert first.uri first m)
find-collect hook m ((_, first) ∷ hooks) (fresh, d) (inr r) =
    find-collect hook (insert first.uri first m) hooks d r

-- Where no two webhooks share a URI, the reply to a request with the URI of one of them that parses
-- and that this webhook finds valid is what its outcome gives, wherever it stands in the table: its
-- response with status 200, or a crash if it panics.
pub registered_hook_answers :
    (parse_url : String → Result String) (decode : Deserializer) (hooks : Hooks) (hook : Webhook)
    (r : HttpRequest) (request : Request)
    → IsDistinct (uris hooks)
    → IsRegistered hook hooks
    → parse_url r.request_uri ≡ ok hook.uri
    → parse_http_request decode r ≡ ok request
    → hook.validate request ≡ true
    → handle_request parse_url decode (new_dispatcher hooks) r ≡ dispatch (hook.authorized request)
unfolding handle_request handle_url handle_hook handle_parsed new_dispatcher
registered_hook_answers parse_url decode hooks hook r request d reg parsed body valid =
    rw parsed (rw (find-collect hook [] hooks d reg) (rw body (rw valid refl)))

stored :
    (u : String) (hook : Webhook) (m : Hooks) (found : Webhook)
    → u ≡ hook.uri
    → find u (insert hook.uri hook m) ≡ some found
    → ((found.uri ≡ u) × (hook ≡ found)) ⊎ (find u m ≡ some found)
stored u hook m found same e =
    let same_hook : hook ≡ found = some-injective hook found (
      sym (find-insert hook.uri hook m)
      ∙ (ap (λ v. find v (insert hook.uri hook m)) (sym same) ∙ e)) in
    inl (ap (λ h. h.uri) (sym same_hook) ∙ sym same, same_hook)

-- What a lookup in the dispatcher's map gives is a registered webhook of that URI.
find-insert_sound :
    (u : String) (hook : Webhook) (m : Hooks) (found : Webhook)
    → find u (insert hook.uri hook m) ≡ some found
    → ((found.uri ≡ u) × (hook ≡ found)) ⊎ (find u m ≡ some found)
find-insert_sound u hook m found e = elim (Bool-cases (u == hook.uri)) [
  | inl same ↦ stored u hook m found ((eq_iff u hook.uri).0 same) e
  | inr other ↦
      inr
        (sym (find-insert_other u hook.uri hook m (λ same. ground (arith, eq_iff u hook.uri))) ∙ e)
]

find-collect_sound :
    (u : String) (m hooks : Hooks) (found : Webhook)
    → find u (collect m hooks) ≡ some found
    → ((found.uri ≡ u) × IsRegistered found hooks) ⊎ (find u m ≡ some found)
unfolding collect
find-collect_sound u m [] found e = inr e
find-collect_sound u m ((_, hook) ∷ hooks) found e = ground (
  arith,
  find-collect_sound u (insert hook.uri hook m) hooks found e,
  find-insert_sound u hook m found,
)

-- The request that a reply lets through, if it does.
abbrev pub lets_through : Reply → Bool
lets_through (Reply.replied _ review) = is_allowed review.response.verdict
lets_through Reply.crashed = false

valid_allows :
    (valid : Bool) (outcome : Outcome)
    → lets_through (
        if not valid
        then Reply.replied 200 (send_response (bad_request "not a valid webhook request"))
        else dispatch outcome)
      ≡ true
    → (valid ≡ true) × (allows outcome ≡ true)
valid_allows true (returned response) e = (refl, e)
valid_allows true panicked e = cc
valid_allows false outcome e = cc

parsed_allows :
    (hook : Webhook) (parsed : Result Request)
    → lets_through (handle_parsed hook parsed) ≡ true
    → (request : Request) × ((parsed ≡ ok request)
        × ((hook.validate request ≡ true) × (allows (hook.authorized request) ≡ true)))
unfolding handle_parsed
parsed_allows hook (fail err) e = cc
parsed_allows hook (ok request) e =
    (request, (refl, valid_allows (hook.validate request) (hook.authorized request) e))

found_allows :
    (decode : Deserializer) (hooks : Hooks) (r : HttpRequest) (path : String)
    (found : Option Webhook)
    → find path (new_dispatcher hooks) ≡ found
    → lets_through (handle_hook decode r found) ≡ true
    → (hook : Webhook) × (request : Request) × (IsRegistered hook hooks
        × (hook.uri ≡ path)
        × (parse_http_request decode r ≡ ok request)
        × (hook.validate request ≡ true)
        × (allows (hook.authorized request) ≡ true))
unfolding handle_hook new_dispatcher find
found_allows decode hooks r path none e through = cc
found_allows decode hooks r path (some hook) e through =
    let (request, (parsed, (valid, allowed))) =
      parsed_allows hook (parse_http_request decode r) through in
    elim (find-collect_sound path [] hooks hook e) [
      | inl (same, registered) ↦ (hook, request, (registered, same, parsed, valid, allowed))
      | inr nothing ↦ cc
    ]

path_allows :
    (decode : Deserializer) (hooks : Hooks) (r : HttpRequest) (url : Result String)
    → lets_through (handle_url decode (new_dispatcher hooks) r url) ≡ true
    → (hook : Webhook) × (request : Request) × (IsRegistered hook hooks
        × (url ≡ ok hook.uri)
        × (parse_http_request decode r ≡ ok request)
        × (hook.validate request ≡ true)
        × (allows (hook.authorized request) ≡ true))
unfolding handle_url
path_allows decode hooks r (fail err) through = cc
path_allows decode hooks r (ok path) through =
    let (hook, request, (registered, same, parsed, valid, allowed)) =
      found_allows decode hooks r path (find path (new_dispatcher hooks)) refl through in
    (hook, request, (registered, ap (λ p. ok p) (sym same), parsed, valid, allowed))

-- A reply that lets a request through was given by a registered webhook whose URI the request
-- names, which found the request valid and authorized it; no error path lets anything through.
pub allowed_comes_from_hook :
    (parse_url : String → Result String) (decode : Deserializer) (hooks : Hooks) (r : HttpRequest)
    → lets_through (handle_request parse_url decode (new_dispatcher hooks) r) ≡ true
    → (hook : Webhook) × (request : Request) × (IsRegistered hook hooks
        × (parse_url r.request_uri ≡ ok hook.uri)
        × (parse_http_request decode r ≡ ok request)
        × (hook.validate request ≡ true)
        × (allows (hook.authorized request) ≡ true))
unfolding handle_request
allowed_comes_from_hook parse_url decode hooks r through =
    path_allows decode hooks r (parse_url r.request_uri) through

-- A request for a path that no webhook has is answered with status 404 and a refusal.
pub unregistered_is_404 :
    (parse_url : String → Result String) (decode : Deserializer) (hooks : Hooks) (r : HttpRequest)
    (path : String)
    → parse_url r.request_uri ≡ ok path
    → ¬ Member path (uris hooks)
    → handle_request parse_url decode (new_dispatcher hooks) r
      ≡ Reply.replied 404 (send_response (bad_request "request is not for a registered webhook"))
unfolding handle_request handle_url handle_hook new_dispatcher find
unregistered_is_404 parse_url decode hooks r path parsed unknown =
    rw parsed (rw (find-collect_other path [] hooks unknown) refl)

-- Where no two webhooks share a URI, a request for one of them whose body does not parse is answered
-- with status 400 and the parser's error, and one that parses and is not valid with status 200 and a
-- refusal; the webhook is not asked.
pub unfit_request_is_refused :
    (parse_url : String → Result String) (decode : Deserializer) (hooks : Hooks) (hook : Webhook)
    (r : HttpRequest)
    → IsDistinct (uris hooks)
    → IsRegistered hook hooks
    → parse_url r.request_uri ≡ ok hook.uri
    → ((err : String)
        → parse_http_request decode r ≡ fail err
        → handle_request parse_url decode (new_dispatcher hooks) r
          ≡ Reply.replied 400 (send_response (bad_request err)))
      × ((request : Request)
          → parse_http_request decode r ≡ ok request
          → hook.validate request ≡ false
          → handle_request parse_url decode (new_dispatcher hooks) r
            ≡ Reply.replied 200 (send_response (bad_request "not a valid webhook request")))
unfolding handle_request handle_url handle_hook handle_parsed new_dispatcher
unfit_request_is_refused parse_url decode hooks hook r d reg parsed = (
  λ err body. rw parsed (rw (find-collect hook [] hooks d reg) (rw body refl)),
  λ request body invalid.
      rw parsed (rw (find-collect hook [] hooks d reg) (rw body (rw invalid refl))),
)
