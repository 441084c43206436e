-- ===== src/SyncSet/Encode.antt =====
-- pkg/syncset/syncsetbylabelselector.go: the encodings that mend a field of the JSON text. A text is
-- the tree that json.Unmarshal makes of it; json.Marshal of an object is a parameter, as its tree.
pub mod Fields
use managed_cluster_validati.Base.{
  ℕ, String, ◌≡◌, refl, sym, ◌≢◌, ◌↔◌, Bool, true, false, Option, none, some, List, [], ◌∷◌, arith,
  ◌==◌, eq_iff, if◌then◌else◌,
}
use managed_cluster_validati.Admission.{Attempt, Result, ok, fail}

mutual
  pub data Json : Type 0 where
    null : Json
    flag : Bool → Json
    number : ℕ → Json
    text : String → Json
    items : Array → Json
    fields : Object → Json

  pub data Array : Type 0 where
    no_item : Array
    item : Json → Array → Array

  pub data Object : Type 0 where
    no_field : Object
    field : String → Json → Object → Object

-- `m[key]`, which is nil for a missing key.
unfoldable pub get_field : String → Object → Json
get_field key no_field = Json.null
get_field key (field k v m) = let rest = get_field key m in if key == k then v else rest

-- `m[key] = value`
unfoldable pub put_field : String → Json → Object → Object
put_field key value no_field = field key value no_field
put_field key value (field k v m) =
    let rest = put_field key value m in if key == k then field key value m else field k v rest

abbrev set_in : String → Object → Option Json → Option Json
set_in key m none = none
set_in key m (some value) = some (fields (put_field key value m))

abbrev set_first : Array → Option Json → Option Json
set_first rest none = none
set_first rest (some value) = some (items (item value rest))

-- `decoded.(map[string]interface{})[key]`, with what happens to it; none is a panic.
abbrev pub under : String → (Json → Option Json) → Json → Option Json
under key change (fields m) = set_in key m (change (get_field key m))
under key change _ = none

-- `decoded.([]interface{})[0]`, likewise.
abbrev pub under_first : (Json → Option Json) → Json → Option Json
under_first change (items (item value rest)) = set_first rest (change value)
under_first change _ = none

-- `decoded.(map[string]interface{})[key] = value`
abbrev pub set_text : String → String → Json → Option Json
set_text key value (fields m) = some (fields (put_field key (text value) m))
set_text key value _ = none

unfoldable pub fix_ca : String → Json → Option Json
fix_ca ca_bundle =
    under "webhooks" (under_first (under "clientConfig" (set_text "caBundle" ca_bundle)))

abbrev pub or_crash : Option Json → Attempt Json
or_crash none = Attempt.crashed
or_crash (some json) = Attempt.done json

-- What the error of the first json.Marshal leaves is an empty text, whose tree is nil.
abbrev tree_of : Result Json → Json
tree_of (fail err) = Json.null
tree_of (ok json) = json

abbrev as_is : Result Json → Attempt Json
as_is (fail err) = Attempt.failed err
as_is (ok json) = Attempt.done json

-- `EncodeValidatingAndFixCA` and `EncodeMutatingAndFixCA`: for the number of webhooks, the CABundle of
-- the first, and the configuration as it is marshalled. The second json.Marshal has a tree to encode,
-- which does not fail.
unfoldable pub encode_and_fix_ca : List String → Result Json → Attempt Json
unfolding fix_ca
encode_and_fix_ca [] marshalled = Attempt.failed "Require at least one webhook"
encode_and_fix_ca (ca_bundle ∷ _) marshalled =
    if ca_bundle == "" then as_is marshalled else or_crash (fix_ca ca_bundle (tree_of marshalled))

abbrev chain : (Json → Option Json) → Option Json → Option Json
chain change none = none
chain change (some json) = change json

abbrev pub in_pod_spec : (Json → Option Json) → Json → Option Json
in_pod_spec change = under "spec" (under "template" (under "spec" change))

-- `EncodeAndFixDaemonset`, for the DaemonSet's serviceAccountName.
unfoldable pub encode_and_fix_daemonset : String → Result Json → Attempt Json
encode_and_fix_daemonset service_account_name marshalled = or_crash (
    chain (in_pod_spec (set_text "serviceAccount" "")) (
      if service_account_name == ""
      then in_pod_spec (set_text "serviceAccountName" "") (tree_of marshalled)
      else some (tree_of marshalled)))
