-- ===== src/Samples/ClusterLoggingRetentionRuns.antt =====
-- Runs of the theorems of Webhooks/ClusterLogging/Retention.antt on concrete inputs.
use managed_cluster_validati.Base.{◌≡◌, refl, ◌↔◌, true, some, arith, ◌*◌, ◌%◌}
use managed_cluster_validati.Admission.{create}
use managed_cluster_validati.Admission.{Request, allows}
use managed_cluster_validati.Samples.{customer, two_decoder}
use managed_cluster_validati.Webhooks.ClusterLogging.{
  ClusterLogging, RetentionPolicies, authorized, convert_to_seconds, render_cluster_logging,
}
use managed_cluster_validati.Webhooks.ClusterLogging.Retention.{
  HasPeriod, HasSeconds, convert_to_seconds_lem, retention_iff,
}

abbrev policies_of_a_day : RetentionPolicies
policies_of_a_day = record { app = some "1d"; infra = some "1h"; audit = some "60m" }

abbrev logging : ClusterLogging
logging = record { retention_policy = some policies_of_a_day }

abbrev request_for_logging : Request
request_for_logging = customer create "ClusterLogging"

retention_iff_example :
    (allows (authorized (two_decoder logging logging) request_for_logging) ≡ true) ↔ (
      HasPeriod 3600 604800 policies_of_a_day.app
      × HasPeriod 3600 3600 policies_of_a_day.infra
      × HasPeriod 3600 3600 policies_of_a_day.audit)
unfolding render_cluster_logging
retention_iff_example =
    retention_iff ((two_decoder logging logging)) request_for_logging policies_of_a_day refl

convert_to_seconds_lem_example :
    convert_to_seconds 4611686018427387964 b'm' ≡ (4611686018427387964 * 60) % 18446744073709551616
convert_to_seconds_lem_example =
    convert_to_seconds_lem 4611686018427387964 (b'm') 60 HasSeconds.minute (ground arith)
