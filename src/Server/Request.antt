-- ===== src/Server/Request.antt =====
-- pkg/webhooks/utils/utils.go: the admission request in the body of an HTTP request. Reading the
-- body and decoding the review are net/http's and k8s.io/apimachinery's.
use managed_cluster_validati.Base.{String, not, [], ◌∷◌, Option, none, some, ◌==◌, if◌then◌else◌}
use managed_cluster_validati.Base.Text.{concat}
use managed_cluster_validati.Admission.{Request, Result, ok, fail}

-- `r.Body`: nil, or what `io.ReadAll` makes of it.
pub data Body : Type 0 where
  no_body : Body
  unreadable readable : String → Body

pub record HttpRequest : Type 0 where
  pub request_uri : String
  pub content_type : String
  pub body : Body

-- `UniversalDeserializer().Decode`: the field `Request` of the review, nil or not.
abbrev pub Deserializer : Type 0
Deserializer = String → Result (Option Request)

unfoldable pub reviewed : Result (Option Request) → Result Request
reviewed (fail err) = fail err
reviewed (ok none) = fail "No request in request body"
reviewed (ok (some request)) = ok request

unfoldable pub parse_body : Deserializer → HttpRequest → Body → Result Request
unfolding reviewed
parse_body decode r Body.no_body = fail "request body is nil"
parse_body decode r (Body.unreadable err) = fail err
parse_body decode r (Body.readable body) =
    if body == ""
    then fail "request body is empty"
    else if not (r.content_type == "application/json")
    then fail (concat ("contentType=" ∷ r.content_type ∷ ", expected application/json" ∷ []))
    else reviewed (decode body)

unfoldable pub parse_http_request : Deserializer → HttpRequest → Result Request
unfolding parse_body
parse_http_request decode r = parse_body decode r r.body
