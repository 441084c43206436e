-- ===== src/Admission.antt =====
-- What the webhooks share of k8s.io/api/admission and controller-runtime: a request, a response,
-- and the decoder, which is a parameter. A response records which of controller-runtime's
-- constructors built it, with the UID that the webhook put into it.
use managed_cluster_validati.Base.{ℕ, String, ◌≡◌, ◌≢◌, Bool, true, false, Option, none, some, List}

pub data Operation : Type 0 where
  create update delete connect : Operation

abbrev pub is_create : Operation → Bool
is_create create = true
is_create _ = false

abbrev pub is_update : Operation → Bool
is_update update = true
is_update _ = false

abbrev pub is_delete : Operation → Bool
is_delete delete = true
is_delete _ = false

-- `object` and `old_object` are the raw bytes, empty where the request has none.
pub record Request : Type 0 where
  pub uid : String
  pub kind : String
  pub group : String
  pub request_kind : String
  pub name : String
  pub namespace : String
  pub operation : Operation
  pub username : String
  pub groups : List String
  pub object : String
  pub old_object : String

-- The value of a JSON patch operation.
pub data PatchValue : Type 0 where
  text_value : String → PatchValue
  map_value : List (String × String) → PatchValue

pub record Patch : Type 0 where
  pub op : String
  pub path : String
  pub value : PatchValue

-- `admissionctl.Allowed`, `Denied`, `ValidationResponse`, `Errored`, `Patched` and
-- `PatchResponseFromRaw`.
pub data Verdict : Type 0 where
  allow deny : String → Verdict
  validation : Bool → String → Verdict
  errored : ℕ → String → Verdict
  patched : String → Patch → Verdict
  patched_from_raw : String → String → Verdict

pub record Response : Type 0 where
  pub verdict : Verdict
  pub uid : Option String

-- The field `Allowed` that each constructor documents. PatchResponseFromRaw allows where both of its
-- texts are JSON, and is an error else: it is called with an object that was decoded and with what
-- json.Marshal made of it.
abbrev pub is_allowed : Verdict → Bool
is_allowed (allow _) = true
is_allowed (deny _) = false
is_allowed (validation allowed _) = allowed
is_allowed (errored _ _) = false
is_allowed (patched _ _) = true
is_allowed (patched_from_raw _ _) = true

-- `ret = …; ret.UID = request.UID; return ret`
abbrev pub answer : Request → Verdict → Response
answer request v = record { verdict = v; uid = some request.uid }

-- A call of `Authorized` returns a response or panics.
pub data Outcome : Type 0 where
  returned : Response → Outcome
  panicked : Outcome

-- A response that lets the request through.
abbrev pub allows : Outcome → Bool
allows (returned response) = is_allowed response.verdict
allows panicked = false

-- `return admissionctl.Errored(http.StatusBadRequest, err)`, with the UID left empty.
abbrev pub bad_request : String → Response
bad_request err = record { verdict = errored 400 err; uid = none }

pub data Result (A : Type 0) : Type 0 where
  ok : A → Result A
  fail : String → Result A

-- A computation that returns a value or an error, or panics on a nil pointer or a failed assertion.
pub data Attempt (A : Type 0) : Type 0 where
  done : A → Attempt A
  failed : String → Attempt A
  crashed : Attempt A

-- The decoder of controller-runtime for objects of one type. `Decode` reads the request's object;
-- both refuse an empty input.
pub record Decoder (A : Type 0) : Type 0 where
  pub decode_raw : String → Result A
  pub decode_raw-empty : (a : A) → decode_raw "" ≢ ok a

pub ok-injective : {A : Type 0} {a b : A} → ok a ≡ ok b → a ≡ b
ok-injective e = cc
