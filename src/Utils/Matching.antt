-- ===== src/Utils/Matching.antt =====
-- Which groups are those of privileged service accounts.
use managed_cluster_validati.Base.{
  ℕ, String, ◌≡◌, refl, ◌↔◌, ◌⊎◌, Bool, true, false, ◌||◌, Option, none, some, List, arith, any_iff,
  Any, contains_iff, Member,
}
use mathlib.Core.Path.{subst}
use managed_cluster_validati.Base.Text.Laws.{has_prefix-append}
use managed_cluster_validati.Base.Text.{codes, has_prefix, strip_prefix}
use managed_cluster_validati.Regex.{chars, seq, accepted, run, match}
use managed_cluster_validati.Regex.Shapes.{match-begin, run-chars, run_literals, run_prefix, after}
use managed_cluster_validati.Admission.{Request}
use managed_cluster_validati.Utils.{
  privileged_accounts, osde2e_account, privileged_service_account_groups, has_privileged_group,
  protected_names, is_protected_by_resource_name,
}

-- The account's namespace begins in one of the privileged ways. Nothing is asked of what follows.
abbrev pub IsPrivilegedAccount : String → Type 0
IsPrivilegedAccount account =
    (has_prefix account "kube-" ≡ true)
    ⊎ (has_prefix account "openshift" ≡ true)
    ⊎ (has_prefix account "default" ≡ true)
    ⊎ (has_prefix account "redhat-" ≡ true)
    ⊎ (run osde2e_account false (codes account) accepted ≡ true)

abbrev accounts_from : List ℕ → Bool
accounts_from s = run privileged_accounts false s accepted

abbrev accounts_match : String → Bool
accounts_match account = accounts_from (codes account)

ap₅ :
    {A : Type 0} (f : A → A → A → A → A → A) {a a' b b' c c' d d' e e' : A}
    → a ≡ a'
    → b ≡ b'
    → c ≡ c'
    → d ≡ d'
    → e ≡ e'
    → f a b c d e ≡ f a' b' c' d' e'
ap₅ f p q r s t = λ i. f (p i) (q i) (r i) (s i) (t i)

alternatives :
    (account : String)
    → accounts_match account ≡ (
        has_prefix account "kube-"
        || (has_prefix account "openshift"
            || (has_prefix account "openshift-"
                || (has_prefix account "default"
                    || (has_prefix account "redhat-"
                        || run osde2e_account false (codes account) accepted)))))
unfolding run
alternatives account =
    ap₅
      (λ a b c d e.
        a || (b || (c || (d || (e || run osde2e_account false (codes account) accepted)))))
      (run_prefix "kube-" account false) (run_literals "openshift" account false)
      (run_prefix "openshift-" account false) (run_literals "default" account false)
      (run_prefix "redhat-" account false)

accounts_iff : (account : String) → (accounts_match account ≡ true) ↔ IsPrivilegedAccount account
accounts_iff account =
    rw (alternatives account) (ground (arith, has_prefix-append account "openshift" "-"))

group_match :
    (group : String)
    → match privileged_service_account_groups group
      ≡ after accounts_from (strip_prefix group "system:serviceaccounts:")
unfolding run
group_match group =
    rw (match-begin (seq (chars "system:serviceaccounts:") privileged_accounts) group)
      (run-chars "system:serviceaccounts:" group true accounts_from)

-- The privileged groups: those of the service accounts of a namespace that begins so.
abbrev pub IsPrivilegedGroup : String → Type 0
IsPrivilegedGroup group =
    (account : String) × (strip_prefix group "system:serviceaccounts:" ≡ some account)
    × IsPrivilegedAccount account

group_iff :
    (group : String)
    → (match privileged_service_account_groups group ≡ true) ↔ IsPrivilegedGroup group
group_iff group = rw (group_match group) (go (strip_prefix group "system:serviceaccounts:"))
  where
    go :
        (o : Option String)
        → (after accounts_from o ≡ true)
          ↔ ((account : String) × (o ≡ some account) × IsPrivilegedAccount account)
    go none = (λ h. cc, λ (account, e, _). cc)
    go (some account) = (
      λ h. (account, refl, (accounts_iff account).0 h),
      λ (a, e, p). (accounts_iff account).1 (subst IsPrivilegedAccount (cc) p),
    )

-- A request is let through as a privileged service account's exactly when one of its groups is
-- that of a namespace which begins in one of the privileged ways.
pub has_privileged_group_iff :
    (request : Request)
    → (has_privileged_group request ≡ true) ↔ Any IsPrivilegedGroup request.groups
unfolding has_privileged_group
has_privileged_group_iff request =
    any_iff (λ group. match privileged_service_account_groups group) group_iff request.groups

pub is_protected_by_resource_name_iff :
    (name : String) → (is_protected_by_resource_name name ≡ true) ↔ Member name protected_names
unfolding is_protected_by_resource_name
is_protected_by_resource_name_iff name = contains_iff protected_names name
