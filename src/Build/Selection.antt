-- ===== src/Build/Selection.antt =====
-- The loop of build/resources.go against its description: when it panics, and which webhooks it
-- gives a configuration.
use Prim.Native.Nat.{◌<◌}
use mathlib.Core.Bool.{true≢false}
use mathlib.Core.Option.{none-ne-some}
use managed_cluster_validati.Base.{
  String, ◌≡◌, refl, sym, ◌∙◌, ◌≢◌, ◌⊎◌, inl, inr, ◌↔◌, true, false, List, [], ◌∷◌, Option, none,
  some, arith, any_iff, All, Member, contains, contains_iff, ◌==◌, eq_iff, Bool-cases, length,
}
use managed_cluster_validati.Base.Text.{split, codes}
use managed_cluster_validati.Webhook.{LabelSelector, Webhook}
use managed_cluster_validati.Registry.Keys.{IsDistinct}
use managed_cluster_validati.Server.Dispatcher.{Hooks}
use managed_cluster_validati.Server.Dispatcher.Routing.{uris}
use managed_cluster_validati.Build.{
  Flags, Configuration, Resources, slice_contains, explode, is_empty_rules, is_left_out,
  resource_of, add_resource, add_hooks,
}

-- What each hook of the list adds, one after the other, without any check of the URIs.
unfoldable pub resources_of : Flags → Hooks → Resources
resources_of flags [] = []
resources_of flags ((hook_name, hook) ∷ hooks) =
    let rest = resources_of flags hooks in
    elim (resource_of flags hook_name hook) [ none ↦ rest | some resource ↦ resource ∷ rest ]

-- None of the URIs was seen before.
abbrev pub AreFresh : List String → List String → Type 0
AreFresh [] seen = Unit
AreFresh (u ∷ us) seen = (¬ Member u seen) × AreFresh us (u ∷ seen)

All-fresh :
    (u : String) (seen us : List String)
    → All (λ x. ¬ Member x (u ∷ seen)) us ↔ ((¬ Member u us) × All (λ x. ¬ Member x seen) us)
unfolding Member
All-fresh u seen [] = ground arith
All-fresh u seen (x ∷ us) = ground (arith, All-fresh u seen us)

AreFresh-iff :
    (us seen : List String) → AreFresh us seen ↔ (IsDistinct us × All (λ x. ¬ Member x seen) us)
AreFresh-iff [] seen = ground arith
AreFresh-iff (u ∷ us) seen = ground (arith, AreFresh-iff us (u ∷ seen), All-fresh u seen us)

nothing_seen : (us : List String) → All (λ x. ¬ Member x []) us
unfolding Member
nothing_seen [] = tt
nothing_seen (u ∷ us) = (λ m. m, nothing_seen us)

not_met : (seen : List String) (u : String) → contains seen u ≡ false → ¬ Member u seen
not_met seen u unmet m = true≢false (sym ((contains_iff seen u).1 m) ∙ unmet)

pub AreFresh-start : (us : List String) → IsDistinct us ↔ AreFresh us []
AreFresh-start us = ground (arith, AreFresh-iff us [], nothing_seen us)

add_resource-some :
    (resource : Option (LabelSelector × Configuration)) (resources : Resources)
    → add_resource resource (some resources)
      ≡ some (elim resource [ none ↦ resources | some r ↦ r ∷ resources ])
unfolding add_resource
add_resource-some none resources = refl
add_resource-some (some r) resources = refl

add_resource-none :
    (resource : Option (LabelSelector × Configuration)) → add_resource resource none ≡ none
unfolding add_resource
add_resource-none none = refl
add_resource-none (some r) = refl

add_hooks-fresh :
    (flags : Flags) (seen : List String) (hooks : Hooks)
    → AreFresh (uris hooks) seen
    → add_hooks flags seen hooks ≡ some (resources_of flags hooks)
unfolding add_hooks resources_of
add_hooks-fresh flags seen [] fresh = refl
add_hooks-fresh flags seen ((hook_name, hook) ∷ hooks) (new, fresh) =
    elim (Bool-cases (contains seen hook.uri)) [
      | inl met ↦ absurd (new ((contains_iff seen hook.uri).0 met))
      | inr unmet ↦ rw unmet (
          rw (add_hooks-fresh flags (hook.uri ∷ seen) hooks fresh)
            (add_resource-some (resource_of flags hook_name hook) (resources_of flags hooks)))
    ]

add_hooks-stale :
    (flags : Flags) (seen : List String) (hooks : Hooks)
    → ¬ AreFresh (uris hooks) seen
    → add_hooks flags seen hooks ≡ none
unfolding add_hooks
add_hooks-stale flags seen [] stale = absurd (stale tt)
add_hooks-stale flags seen ((hook_name, hook) ∷ hooks) stale =
    elim (Bool-cases (contains seen hook.uri)) [
      | inl met ↦ rw met refl
      | inr unmet ↦ rw unmet (
          rw
            (add_hooks-stale flags (hook.uri ∷ seen) hooks
              (λ fresh. stale (not_met seen hook.uri unmet, fresh)))
            (add_resource-none (resource_of flags hook_name hook)))
    ]

-- The build panics exactly when two webhooks of the table share a URI.
pub build_panics_iff :
    (flags : Flags) (hooks : Hooks) → (add_hooks flags [] hooks ≡ none) ↔ ¬ IsDistinct (uris hooks)
build_panics_iff flags hooks = (
  λ panics distinct.
      none-ne-some (resources_of flags hooks)
        (sym panics ∙ add_hooks-fresh flags [] hooks ((AreFresh-start (uris hooks)).0 distinct)),
  λ repeated.
      add_hooks-stale flags [] hooks (λ fresh. repeated ((AreFresh-start (uris hooks)).1 fresh)),
)

-- Where no two webhooks share a URI, the template gets what each webhook adds, in the order of the
-- names: the check for repeated URIs skips none and changes none.
pub build_lem :
    (flags : Flags) (hooks : Hooks)
    → IsDistinct (uris hooks)
    → add_hooks flags [] hooks ≡ some (resources_of flags hooks)
build_lem flags hooks distinct =
    add_hooks-fresh flags [] hooks ((AreFresh-start (uris hooks)).0 distinct)

pub slice_contains_iff :
    (needle : String) (haystack : List String)
    → (slice_contains needle haystack ≡ true) ↔ Member needle haystack
unfolding slice_contains Member
slice_contains_iff needle haystack =
    any_iff (λ hay. hay == needle) (λ hay. ground (arith, eq_iff hay needle)) haystack

-- The webhook adds a resource.
abbrev pub AddsResource : Option (LabelSelector × Configuration) → Type 0
AddsResource none = ⊥
AddsResource (some _) = Unit

-- A webhook gets a configuration exactly when it is enabled on classic clusters, has rules, is not
-- named in the list of excludes, and either no `only` is given or its name is one of its characters.
pub selected_iff :
    (flags : Flags) (hook_name : String) (hook : Webhook)
    → AddsResource (resource_of flags hook_name hook) ↔ (
        (hook.classic_enabled ≡ true)
        × (is_empty_rules hook.rules ≡ false)
        × (¬ Member hook.name (split b',' flags.excludes))
        × ((explode flags.only ≡ []) ⊎ Member hook.name (explode flags.only)))
unfolding resource_of is_left_out
selected_iff flags hook_name hook = ground (
  arith,
  slice_contains_iff hook.name (split b',' flags.excludes),
  slice_contains_iff hook.name (explode flags.only),
)

explode-nil : (only : String) → explode only ≡ [] → only ≡ ""
unfolding explode
explode-nil String.[] e = refl
explode-nil (String.◌∷◌ c only) e = cc

explode-Member : (name only : String) → Member name (explode only) → length (codes name) ≡ 1
unfolding explode Member
explode-Member name String.[] m = absurd m
explode-Member name (String.◌∷◌ c only) (inl e) = rw e refl
explode-Member name (String.◌∷◌ c only) (inr m) = explode-Member name only m

-- With any text in `only`, even the webhook's own name, a webhook whose name is longer than one
-- character gets no configuration: `only` is split into characters, not at its commas.
pub only_excludes_all :
    (flags : Flags) (hook_name : String) (hook : Webhook)
    → flags.only ≢ ""
    → 1 < length (codes hook.name)
    → ¬ AddsResource (resource_of flags hook_name hook)
only_excludes_all flags hook_name hook given long adds = ground (
  arith,
  (selected_iff flags hook_name hook).0 adds,
  explode-Member hook.name flags.only,
  explode-nil flags.only,
)
