-- ===== src/Webhooks/ClusterLogging.antt =====
-- pkg/webhooks/clusterlogging/clusterlogging.go: the retention of logs stays between an hour and a
-- week. The pattern of a time unit is read by hand: digits, then one letter, then the end.
pub mod Retention
use Prim.Native.Char.{Char, code}
use Prim.Native.Nat.{◌%◌, ◌*◌, ◌+◌, ◌-◌}
use Prim.Native.String
use managed_cluster_validati.Base.{
  ℕ, String, ◌≡◌, refl, ◌≢◌, ◌↔◌, ◌⊎◌, inl, inr, Bool, true, false, not, ◌&&◌, ◌||◌, Option, none,
  some, List, [], ◌∷◌, ◌++◌, arith, any, Any, any_iff, any-eq_iff, contains, contains_iff, Member,
  ◌==◌, eq_iff, if◌then◌else◌, Bool-cases, length, nat_eq, ltb, leb, or-true,
}
use managed_cluster_validati.Base.Text.{
  concat, print_list, has_prefix, has_substring, split, join, join_with, codes, strip_prefix,
}
use managed_cluster_validati.Regex.{
  Regex, begin, end, any_char, seq, alt, star, chars, exactly, starting, optional, match,
}
use managed_cluster_validati.Regex.Shapes.{
  match-exactly, match-exactly_eq, match-starting, match-alt, match-chars,
}
use managed_cluster_validati.Admission.{
  Operation, create, update, delete, connect, is_create, is_update, is_delete, Request, Response,
  Verdict, allow, deny, errored, validation, is_allowed, answer, bad_request, Outcome, returned,
  panicked, allows, Result, ok, fail, Decoder,
}
use managed_cluster_validati.Utils.{
  request_matches_group_kind, regex_slice_contains, webhook_response,
  privileged_service_account_groups, has_privileged_group, protected_names,
  is_protected_by_resource_name,
}
use managed_cluster_validati.Utils.Matching.{
  IsPrivilegedGroup, has_privileged_group_iff, is_protected_by_resource_name_iff,
}
use managed_cluster_validati.Config.{is_privileged_namespace, privileged_namespace_texts}
use managed_cluster_validati.Config.Namespaces.{IsPrivilegedNamespace, is_privileged_namespace_iff}
use managed_cluster_validati.Webhook.{Rule, LabelSelector, Webhook, default_label_selector}

abbrev rules : List Rule
rules =
    record {
      operations = "CREATE" ∷ "UPDATE" ∷ [];
      api_groups = "logging.openshift.io" ∷ [];
      api_versions = "v1" ∷ [];
      resources = "clusterloggings" ∷ [];
      scope = "Namespaced";
    }
    ∷ []

-- MaxAge of a RetentionPolicySpec, `none` where its pointer is nil.
pub record RetentionPolicies : Type 0 where
  pub app : Option String
  pub infra : Option String
  pub audit : Option String

-- `Spec.LogStore.RetentionPolicy`, `none` where a pointer on the way to it is nil.
pub record ClusterLogging : Type 0 where
  pub retention_policy : Option RetentionPolicies

-- uint64
abbrev pub wrap : ℕ → ℕ
wrap n = n % 18446744073709551616

abbrev is_digit : ℕ → Bool
is_digit c = leb b'0' c && leb c b'9'

abbrev is_unit : ℕ → Bool
is_unit c =
    nat_eq c b'y'
    || nat_eq c b'M'
    || nat_eq c b'w'
    || nat_eq c b'd'
    || nat_eq c b'h'
    || nat_eq c b'H'
    || nat_eq c b'm'
    || nat_eq c b's'

unit_at_end : Bool → ℕ → ℕ → String → Option (ℕ × ℕ)
unit_at_end true n c String.[] = if is_unit c then some (n, c) else none
unit_at_end true n c (String.◌∷◌ _ _) = none
unit_at_end false n c s = none

-- The number read so far, and whether there was a digit.
scan : Bool → ℕ → String → Option (ℕ × ℕ)
unfolding unit_at_end
scan has_digit n String.[] = none
scan has_digit n (String.◌∷◌ c s) =
    let rest = scan true (n * 10 + (code c - b'0')) s in
    if is_digit (code c) then rest else unit_at_end has_digit n (code c) s

-- The digits at the start.
digits : String → String
digits String.[] = ""
digits (String.◌∷◌ c s) = let rest = digits s in if is_digit (code c) then String.◌∷◌ c rest else ""

-- strconv.ParseUint refuses what 64 bits do not hold.
in_range : String → Option (ℕ × ℕ) → Result (ℕ × ℕ)
unfolding digits
in_range value none =
    fail (concat ("unable to parse timeunit '" ∷ value ∷ "' for invalid timeunit" ∷ []))
in_range value (some (n, c)) =
    if ltb n 18446744073709551616
    then ok (n, c)
    else fail (concat ("unable to parse uint '" ∷ digits value ∷ "' " ∷ []))

unfoldable pub parse_time_unit : String → Result (ℕ × ℕ)
unfolding scan in_range
parse_time_unit value = in_range value (scan false 0 value)

-- The assignments to `number` and `unit`, one test after the other.
abbrev from_unit : ℕ → ℕ → ℕ → ℕ × ℕ → ℕ × ℕ
from_unit unit factor next (number, u) =
    if nat_eq u unit then (wrap (number * factor), next) else (number, u)

abbrev from_hours : ℕ × ℕ → ℕ × ℕ
from_hours (number, u) =
    if nat_eq u b'h' || nat_eq u b'H' then (wrap (number * 60), b'm') else (number, u)

abbrev from_minutes : ℕ × ℕ → ℕ
from_minutes (number, u) = if nat_eq u b'm' then wrap (number * 60) else number

unfoldable pub convert_to_seconds : ℕ → ℕ → ℕ
convert_to_seconds number unit = from_minutes (
    from_hours (
      from_unit b'd' 24 b'h'
        (from_unit b'w' 7 b'd' (from_unit b'M' 31 b'd' (from_unit b'y' 365 b'd' (number, unit))))))

le_parsed : Result (ℕ × ℕ) → Result (ℕ × ℕ) → Result Bool
le_parsed (fail err) _ = fail err
le_parsed (ok _) (fail err) = fail err
le_parsed (ok (n, u)) (ok (m, v)) = ok (leb (convert_to_seconds n u) (convert_to_seconds m v))

-- The error of the first of the two that is no time unit.
unfoldable pub le : String → String → Result Bool
unfolding le_parsed
le lhs rhs = le_parsed (parse_time_unit lhs) (parse_time_unit rhs)

-- retentionPolicyValidator
pub record Validator : Type 0 where
  pub name : String
  pub hint : String
  pub lower_bound : String
  pub upper_bound : String

bounds_verdict : Validator → Result Bool → Result Bool → Verdict
bounds_verdict r (fail err) _ = errored 400 err
bounds_verdict r (ok lower) (fail err) = errored 400 err
bounds_verdict r (ok lower) (ok upper) =
    if not lower || not upper
    then deny (concat ("The entered RetentionPolicy " ∷ r.name ∷ " is not allowed. " ∷ r.hint ∷ []))
    else allow "Allowed to create ClusterLogging"

-- The verdict of checkPolicy; its first result is whether that allows.
unfoldable pub check_policy : Validator → Option String → Verdict
unfolding bounds_verdict
check_policy r none = deny (
    concat (
      "The entered retention policy is not allowed. " ∷ r.name ∷ " must not be unset. Hint: "
      ∷ r.hint ∷ []))
check_policy r (some max_age) =
    bounds_verdict r (le r.lower_bound max_age) (le max_age r.upper_bound)

abbrev pub app_validator : Validator
app_validator = record {
  name = "app";
  hint = "Set MaxAge to a value <= 7d, >= 1h";
  lower_bound = "1h";
  upper_bound = "7d";
}

abbrev pub infra_validator : Validator
infra_validator = record {
  name = "infra";
  hint = "MaxAge must be 1h";
  lower_bound = "1h";
  upper_bound = "1h";
}

abbrev pub audit_validator : Validator
audit_validator = record {
  name = "audit";
  hint = "audit log must be 1h";
  lower_bound = "1h";
  upper_bound = "1h";
}

-- The old object is preferred, also on an update.
unfoldable pub render_cluster_logging : Decoder ClusterLogging → Request → Result ClusterLogging
render_cluster_logging decoder request =
    if not (request.old_object == "")
    then decoder.decode_raw request.old_object
    else decoder.decode_raw request.object

unfoldable check_policies : RetentionPolicies → Verdict
check_policies policies =
    if not (is_allowed (check_policy app_validator policies.app))
    then check_policy app_validator policies.app
    else if not (is_allowed (check_policy infra_validator policies.infra))
    then check_policy infra_validator policies.infra
    else check_policy audit_validator policies.audit

unfoldable authorize_policies : Request → Option RetentionPolicies → Outcome
unfolding check_policies
authorize_policies request none = panicked
authorize_policies request (some policies) = returned (answer request (check_policies policies))

unfoldable authorize_rendered : Request → Result ClusterLogging → Outcome
unfolding authorize_policies
authorize_rendered request (fail err) = returned (answer request (errored 400 err))
authorize_rendered request (ok cluster_logging) =
    authorize_policies request cluster_logging.retention_policy

unfoldable pub authorized : Decoder ClusterLogging → Request → Outcome
unfolding authorize_rendered
authorized decoder request = authorize_rendered request (render_cluster_logging decoder request)

unfoldable pub validate : Request → Bool
validate request = not (request.username == "") && request.kind == "ClusterLogging"

abbrev sync_set_label_selector : LabelSelector
sync_set_label_selector = record {
  match_labels = default_label_selector.match_labels;
  match_expressions =
      record {
        key = "hive.openshift.io/version-major-minor";
        operator = "In";
        values = "4.4" ∷ "4.5" ∷ "4.6" ∷ [];
      }
      ∷ [];
}

abbrev pub hook : Decoder ClusterLogging → Webhook
hook decoder = record {
  authorized = λ request. authorized decoder request;
  uri = "/clusterlogging-validation";
  validate = validate;
  name = "clusterlogging-validation";
  failure_policy = "Ignore";
  match_policy = "Equivalent";
  rules = rules;
  object_selector = none;
  side_effects = "None";
  timeout_seconds = 1;
  sync_set_label_selector = sync_set_label_selector;
  classic_enabled = true;
  hypershift_enabled = false;
}
