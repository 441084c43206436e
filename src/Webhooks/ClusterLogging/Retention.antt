-- ===== src/Webhooks/ClusterLogging/Retention.antt =====
-- The periods that pkg/webhooks/clusterlogging/clusterlogging.go lets through, in seconds.
use Prim.Native.Nat.{◌%◌, ◌*◌, ◌≤◌, ◌<◌}
use managed_cluster_validati.Base.{ℕ, String, ◌≡◌, refl, ◌↔◌, true, Option, none, some, arith}
use managed_cluster_validati.Admission.{
  Request, panicked, Result, ok, fail, Decoder, is_allowed, allows,
}
use managed_cluster_validati.Webhooks.ClusterLogging.{
  RetentionPolicies, ClusterLogging, parse_time_unit, convert_to_seconds, le, le_parsed, Validator,
  check_policy, bounds_verdict, app_validator, render_cluster_logging, authorized,
  authorize_rendered, authorize_policies, check_policies,
}

-- The length of each unit in seconds.
pub data HasSeconds : ℕ → ℕ → Type 0 where
  year : HasSeconds b'y' 31536000
  month : HasSeconds b'M' 2678400
  week : HasSeconds b'w' 604800
  day : HasSeconds b'd' 86400
  hour : HasSeconds b'h' 3600
  capital_hour : HasSeconds b'H' 3600
  minute : HasSeconds b'm' 60
  second : HasSeconds b's' 1

-- A number below 2^64 of a unit is converted to its seconds modulo 2^64, whatever wraps on the way.
pub convert_to_seconds_lem :
    (number unit seconds : ℕ)
    → HasSeconds unit seconds
    → number < 18446744073709551616
    → convert_to_seconds number unit ≡ (number * seconds) % 18446744073709551616
unfolding convert_to_seconds
convert_to_seconds_lem number _ _ year b = omega arith
convert_to_seconds_lem number _ _ month b = omega arith
convert_to_seconds_lem number _ _ week b = omega arith
convert_to_seconds_lem number _ _ day b = omega arith
convert_to_seconds_lem number _ _ hour b = omega arith
convert_to_seconds_lem number _ _ capital_hour b = omega arith
convert_to_seconds_lem number _ _ minute b = omega arith
convert_to_seconds_lem number _ _ second b = omega arith

-- The period that a text stands for, if it is a time unit, and whether it lies in a range.
abbrev seconds_of : Result (ℕ × ℕ) → Option ℕ
seconds_of (fail err) = none
seconds_of (ok (number, unit)) = some (convert_to_seconds number unit)

abbrev pub IsWithin : ℕ → ℕ → Option ℕ → Type 0
IsWithin lower upper none = ⊥
IsWithin lower upper (some seconds) = (lower ≤ seconds) × (seconds ≤ upper)

abbrev pub HasPeriod : ℕ → ℕ → Option String → Type 0
HasPeriod lower upper none = ⊥
HasPeriod lower upper (some max_age) = IsWithin lower upper (seconds_of (parse_time_unit max_age))

checked :
    (r : Validator) (lower upper : ℕ × ℕ) (parsed : Result (ℕ × ℕ))
    → (is_allowed (bounds_verdict r (le_parsed (ok lower) parsed) (le_parsed parsed (ok upper)))
        ≡ true)
      ↔ IsWithin
          (convert_to_seconds lower.0 lower.1)
          (convert_to_seconds upper.0 upper.1)
          (seconds_of parsed)
unfolding bounds_verdict le_parsed
checked r lower upper (fail err) = ground arith
checked r lower upper (ok (number, unit)) = ground arith

check_policy_app :
    (policy : Option String)
    → (is_allowed (check_policy app_validator policy) ≡ true) ↔ HasPeriod 3600 604800 policy
unfolding check_policy le convert_to_seconds parse_time_unit
check_policy_app none = ground arith
check_policy_app (some max_age) =
    checked app_validator (1, b'h') (7, b'd') (parse_time_unit max_age)

-- The validators of infra and audit have the same bounds.
check_policy_hour :
    (name hint : String) (policy : Option String)
    → (is_allowed (
          check_policy
            (record { name = name; hint = hint; lower_bound = "1h"; upper_bound = "1h" })
            policy)
        ≡ true)
      ↔ HasPeriod 3600 3600 policy
unfolding check_policy le convert_to_seconds parse_time_unit
check_policy_hour name hint none = ground arith
check_policy_hour name hint (some max_age) =
    checked (record { name = name; hint = hint; lower_bound = "1h"; upper_bound = "1h" }) (1, b'h')
      (1, b'h') (parse_time_unit max_age)

-- A request whose ClusterLogging decodes with retention policies is allowed exactly when app's MaxAge
-- is a time unit of an hour to seven days and infra's and audit's are time units of an hour, all in
-- seconds modulo 2^64.
pub retention_iff :
    (decoder : Decoder ClusterLogging) (request : Request) (policies : RetentionPolicies)
    → render_cluster_logging decoder request ≡ ok (record { retention_policy = some policies })
    → (allows (authorized decoder request) ≡ true) ↔ (
        HasPeriod 3600 604800 policies.app
        × HasPeriod 3600 3600 policies.infra
        × HasPeriod 3600 3600 policies.audit)
unfolding authorized authorize_rendered authorize_policies check_policies
retention_iff decoder request policies e = ground (
  arith,
  check_policy_app policies.app,
  check_policy_hour "infra" "MaxAge must be 1h" policies.infra,
  check_policy_hour "audit" "audit log must be 1h" policies.audit,
)

-- A ClusterLogging without retention policies makes the webhook panic.
pub no_policies_panics :
    (decoder : Decoder ClusterLogging) (request : Request)
    → render_cluster_logging decoder request ≡ ok (record { retention_policy = none })
    → authorized decoder request ≡ panicked
unfolding authorized authorize_rendered authorize_policies
no_policies_panics decoder request e = rw e refl
