-- ===== src/Config/Namespaces.antt =====
-- Which namespaces are privileged.
use managed_cluster_validati.Base.{
  String, ◌≡◌, ◌↔◌, ◌⊎◌, inl, inr, true, List, [], ◌∷◌, map, arith, any, Member, Bool-cases,
  or-true,
}
use managed_cluster_validati.Base.Text.{has_prefix}
use managed_cluster_validati.Regex.{exactly, match}
use managed_cluster_validati.Regex.Shapes.{match-exactly, match-starting}
use managed_cluster_validati.Utils.{regex_slice_contains}
use managed_cluster_validati.Config.{
  managed_namespaces, generate, privileged_namespaces, is_privileged_namespace,
}

exact_iff :
    (ns : String) (names : List String)
    → (regex_slice_contains ns (map exactly names) ≡ true) ↔ Member ns names
unfolding regex_slice_contains any Member
exact_iff ns [] = (λ h. cc, λ m. absurd m)
exact_iff ns (name ∷ names) = (
  λ h. elim (Bool-cases (match (exactly name) ns)) [
    | inl here ↦ inl ((match-exactly name ns).0 here)
    | inr there ↦ inr ((exact_iff ns names).0 (rw there at h))
  ],
  elim [
    | inl here ↦ rw ((match-exactly name ns).1 here)
    | inr there ↦ rw ((exact_iff ns names).1 there) (or-true (match (exactly name) ns))
  ],
)

-- The base list and the generated names, for any list of names.
pub generate_iff :
    (ns : String) (names : List String)
    → (regex_slice_contains ns (generate names) ≡ true) ↔ (
        Member ns ("default" ∷ "openshift" ∷ names)
        ⊎ (has_prefix ns "kube-" ≡ true)
        ⊎ (has_prefix ns "redhat-" ≡ true))
unfolding regex_slice_contains generate any Member
generate_iff ns names = ground (
  arith,
  match-exactly "default" ns,
  match-exactly "openshift" ns,
  match-starting "kube-" ns,
  match-starting "redhat-" ns,
  exact_iff ns names,
)

abbrev pub IsPrivilegedNamespace : String → Type 0
IsPrivilegedNamespace ns =
    Member ns ("default" ∷ "openshift" ∷ managed_namespaces)
    ⊎ (has_prefix ns "kube-" ≡ true)
    ⊎ (has_prefix ns "redhat-" ≡ true)

-- A namespace is privileged exactly when it is `default`, `openshift` or one of the managed
-- namespaces, or its name begins with `kube-` or `redhat-`.
pub is_privileged_namespace_iff :
    (ns : String) → (is_privileged_namespace ns ≡ true) ↔ IsPrivilegedNamespace ns
unfolding is_privileged_namespace privileged_namespaces
is_privileged_namespace_iff ns = generate_iff ns managed_namespaces
