-- ===== src/Webhooks/NetworkOperator/Changes.antt =====
-- Which changes of a network's migration pkg/webhooks/networkoperator/networkoperator.go finds, and
-- which updates it lets through.
use managed_cluster_validati.Base.{
  ◌≡◌, ◌↔◌, ◌⊎◌, Bool, true, false, not, Option, none, some, arith, Any, any_iff, contains,
  contains_iff, Member, eq_iff,
}
use managed_cluster_validati.Admission.{update, Request, is_allowed, ok, Decoder}
use managed_cluster_validati.Utils.{webhook_response}
use managed_cluster_validati.Webhooks.NetworkOperator.{
  allowed_users, sre_admin_groups, MtuMigration, NetworkMigration, Network, differ, mtu_differs,
  migration_differs, has_critical_migration_field_changes, render_network, render_old_network,
  is_allowed_user_group, authorized,
}

-- Equality as the code's comparisons give it: of pointers, by what they point to.
abbrev pub IsSame : {A : Type 0} → (A → A → Type 0) → Option A → Option A → Type 0
IsSame R none none = Unit
IsSame R none (some _) = ⊥
IsSame R (some _) none = ⊥
IsSame R (some a) (some b) = R a b

differ_iff :
    {A : Type 0} (test : A → A → Bool) (R : A → A → Type 0)
    → ((a b : A) → (test a b ≡ false) ↔ R a b)
    → (old new : Option A) → (differ test old new ≡ false) ↔ IsSame R old new
unfolding differ
differ_iff test R h none none = ground arith
differ_iff test R h none (some b) = ground arith
differ_iff test R h (some a) none = ground arith
differ_iff test R h (some a) (some b) = h a b

module _ {F V : Type 0} (same_features : F → F → Bool) (same_values : V → V → Bool) where
  abbrev pub SameMtu : MtuMigration V → MtuMigration V → Type 0
  SameMtu old new =
      IsSame (λ a b. same_values a b ≡ true) old.network new.network
      × IsSame (λ a b. same_values a b ≡ true) old.machine new.machine

  abbrev pub SameMigration : NetworkMigration F V → NetworkMigration F V → Type 0
  SameMigration old new =
      (old.network_type ≡ new.network_type)
      × (old.mode ≡ new.mode)
      × IsSame (λ a b. same_features a b ≡ true) old.features new.features
      × IsSame SameMtu old.mtu new.mtu

  mtu_differs_iff :
      (old new : MtuMigration V)
      → (mtu_differs same_features same_values old new ≡ false) ↔ SameMtu old new
  unfolding mtu_differs
  mtu_differs_iff old new = ground (
    arith,
    differ_iff (λ a b. not (same_values a b)) (λ a b. same_values a b ≡ true) (λ a b. ground arith)
        old.network new.network,
    differ_iff (λ a b. not (same_values a b)) (λ a b. same_values a b ≡ true) (λ a b. ground arith)
        old.machine new.machine,
  )

  migration_differs_iff :
      (old new : NetworkMigration F V)
      → (migration_differs same_features same_values old new ≡ false) ↔ SameMigration old new
  unfolding migration_differs
  migration_differs_iff old new = ground (
    arith,
    eq_iff old.network_type new.network_type,
    eq_iff old.mode new.mode,
    differ_iff (λ a b. not (same_features a b)) (λ a b. same_features a b ≡ true)
        (λ a b. ground arith) old.features new.features,
    differ_iff (mtu_differs same_features same_values) SameMtu mtu_differs_iff old.mtu new.mtu,
  )

  -- No critical change is found exactly when the two migrations are both absent or agree in their
  -- network type, mode, features and MTU values, nil pointers being the same as nil pointers only and
  -- what others point to being compared by the parameters.
  pub critical_changes_iff :
      (old new : Network F V)
      → (has_critical_migration_field_changes same_features same_values old new ≡ false)
        ↔ IsSame SameMigration old.migration new.migration
  unfolding has_critical_migration_field_changes
  critical_changes_iff old new =
      differ_iff (migration_differs same_features same_values) SameMigration migration_differs_iff
        old.migration new.migration

  abbrev pub IsAllowed : Request → Type 0
  IsAllowed request =
      Member request.username allowed_users
      ⊎ Any (λ group. Member group request.groups) sre_admin_groups

  is_allowed_user_group_iff :
      (request : Request) → (is_allowed_user_group request ≡ true) ↔ IsAllowed request
  unfolding is_allowed_user_group
  is_allowed_user_group_iff request = ground (
    arith,
    contains_iff allowed_users request.username,
    any_iff (λ group. contains request.groups group) (contains_iff request.groups) sre_admin_groups,
  )

  -- An update between two networks that decode is allowed exactly when the user is listed or in the
  -- SRE group, or the migration stays the same in all its critical fields.
  pub network_operator_authorized_iff :
      (decoder : Decoder (Network F V)) (request : Request) (object old_object : Network F V)
      → request.operation ≡ update
      → render_network decoder request ≡ ok object
      → render_old_network decoder request ≡ ok old_object
      → (is_allowed (authorized same_features same_values decoder request).verdict ≡ true)
        ↔ (IsAllowed request ⊎ IsSame SameMigration old_object.migration object.migration)
  unfolding authorized webhook_response
  network_operator_authorized_iff decoder request object old_object o e f =
      ground (arith, is_allowed_user_group_iff request, critical_changes_iff old_object object)
