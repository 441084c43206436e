-- ===== src/Samples/ServerMainRuns.antt =====
-- Runs of the theorems of Server/Main.antt on concrete inputs.
use managed_cluster_validati.Base.{[], ◌∷◌}
use managed_cluster_validati.Server.Dispatcher.{Hooks}
use managed_cluster_validati.Webhooks.HiveOwnership

abbrev hooks_twice : Hooks
hooks_twice = ("first", HiveOwnership.hook) ∷ ("second", HiveOwnership.hook) ∷ []
