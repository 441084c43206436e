-- ===== src/Build/Order.antt =====
-- The start of the loops of build/resources.go: the names of the table, in the order in which Go walks
-- the map, are sorted and looked up again.
use mathlib.Core.Option.{some-injective}
use mathlib.Core.List.{Permᴰ}
use mathlib.Core.List.Permᴰ as Permᴰ
use managed_cluster_validati.Base.{
  String, ◌≡◌, refl, sym, ap, ◌∙◌, inl, inr, List, [], ◌∷◌, Option, none, some, arith, All, Member,
  eq_iff,
}
use managed_cluster_validati.Base.Text.Order.{
  sort_strings, sort_strings-perm, sort_strings-Permᴰ, sort_strings-IsSorted, IsSorted,
}
use managed_cluster_validati.Webhook.{Webhook}
use managed_cluster_validati.Registry.{find, keys}
use managed_cluster_validati.Registry.Keys.{IsDistinct, Member-eq}
use managed_cluster_validati.Server.Dispatcher.{Hooks}
use managed_cluster_validati.Server.Dispatcher.Routing.{uris}
use managed_cluster_validati.Build.{Flags, Resources, add_hooks}
use managed_cluster_validati.Build.Selection.{resources_of, build_lem}

abbrev put_found : String → Option Webhook → Option Hooks → Option Hooks
put_found name none hooks = none
put_found name (some hook) none = none
put_found name (some hook) (some hooks) = some ((name, hook) ∷ hooks)

-- `hook := webhooks.Webhooks[hookName]` for each name. Calling the factory of a missing name panics.
unfoldable pub lookup_all : Hooks → List String → Option Hooks
lookup_all table [] = some []
lookup_all table (name ∷ names) = put_found name (find name table) (lookup_all table names)

abbrev pub add_found : Flags → Option Hooks → Option Resources
add_found flags none = none
add_found flags (some hooks) = add_hooks flags [] hooks

-- The resources of the template. `walk` holds the names in the order of `range webhooks.Webhooks`.
unfoldable pub build_template : Flags → Hooks → List String → Option Resources
unfolding lookup_all
build_template flags table walk = add_found flags (lookup_all table (sort_strings walk))

put_found_inv :
    (name : String) (found : Option Webhook) (rest : Option Hooks) (hooks : Hooks)
    → put_found name found rest ≡ some hooks
    → (hook : Webhook) × (others : Hooks) × (found ≡ some hook)
      × (rest ≡ some others)
      × (hooks ≡ (name, hook) ∷ others)
put_found_inv name none rest hooks e = cc
put_found_inv name (some hook) none hooks e = cc
put_found_inv name (some hook) (some others) hooks e =
    (hook, others, refl, refl, sym (some-injective _ _ e))

lookup_all-keys :
    (table : Hooks) (names : List String) (hooks : Hooks)
    → lookup_all table names ≡ some hooks
    → keys hooks ≡ names
unfolding lookup_all
lookup_all-keys table [] hooks e = rw (sym (some-injective _ _ e)) refl
lookup_all-keys table (name ∷ names) hooks e =
    let (hook, others, _, f, g) =
      put_found_inv name (find name table) (lookup_all table names) hooks e in
    rw g (ap (λ ns. name ∷ ns) (lookup_all-keys table names others f))

abbrev Found : Hooks → List String → Hooks → Type 0
Found table names hooks =
    (hooks' : Hooks) × (lookup_all table names ≡ some hooks') × Permᴰ hooks hooks'

lookup_all-perm :
    (table : Hooks) {names names' : List String}
    → Permᴰ names names'
    → (hooks : Hooks) → lookup_all table names ≡ some hooks
    → Found table names' hooks
unfolding lookup_all
lookup_all-perm table Permᴰ.nil hooks e = (hooks, e, Permᴰ.refl hooks)
lookup_all-perm table (Permᴰ.cons {a = a} {b = b} {l₁ = l} {l₂ = m} same p) hooks e =
    let (hook, others, f, g, h) = put_found_inv a (find a table) (lookup_all table l) hooks e in
    let (others', g', q) = lookup_all-perm table p others g in
    rw (sym same, f, g') ((a, hook) ∷ others', refl, rw h (Permᴰ.cons refl q))
lookup_all-perm table (Permᴰ.swap {a = a} {b = b} {l = l} same same') hooks e =
    let (hook, others, f, g, h) =
      put_found_inv a (find a table) (lookup_all table (b ∷ l)) hooks e in
    let (hook', others', f', g', h') =
      put_found_inv b (find b table) (lookup_all table l) others g in
    rw (sym same, sym same', f, f', g')
      ((b, hook') ∷ (a, hook) ∷ others', refl, rw (h, h') (Permᴰ.swap refl refl))
lookup_all-perm table (Permᴰ.trans p q) hooks e =
    let (hooks', e', p') = lookup_all-perm table p hooks e in
    let (hooks'', e'', q') = lookup_all-perm table q hooks' e' in (hooks'', e'', Permᴰ.trans p' q')

Member-perm : (x : String) {xs ys : List String} → Permᴰ xs ys → Member x xs → Member x ys
unfolding Member
Member-perm x Permᴰ.nil m = m
Member-perm x (Permᴰ.cons same p) (inl e) = inl (e ∙ same)
Member-perm x (Permᴰ.cons same p) (inr m) = inr (Member-perm x p m)
Member-perm x (Permᴰ.swap same same') (inl e) = inr (inl (e ∙ same))
Member-perm x (Permᴰ.swap same same') (inr (inl e)) = inl (e ∙ same')
Member-perm x (Permᴰ.swap same same') (inr (inr m)) = inr (inr m)
Member-perm x (Permᴰ.trans p q) m = Member-perm x q (Member-perm x p m)

IsDistinct-perm : {xs ys : List String} → Permᴰ xs ys → IsDistinct xs → IsDistinct ys
unfolding Member
IsDistinct-perm Permᴰ.nil d = d
IsDistinct-perm (Permᴰ.cons same p) (fresh, d) =
    (λ m. fresh (Member-eq _ _ _ (sym same) (Member-perm _ (Permᴰ.symm p) m)), IsDistinct-perm p d)
IsDistinct-perm (Permᴰ.swap same same') (fresh, (fresh', d)) = (
  λ m. elim m [
    | inl e ↦ fresh (inl (same ∙ sym e ∙ sym same'))
    | inr m' ↦ fresh' (Member-eq _ _ _ (sym same') m')
  ],
  (λ m. fresh (inr (Member-eq _ _ _ (sym same) m)), d),
)
IsDistinct-perm (Permᴰ.trans p q) d = IsDistinct-perm q (IsDistinct-perm p d)

uris-perm : {hooks hooks' : Hooks} → Permᴰ hooks hooks' → Permᴰ (uris hooks) (uris hooks')
uris-perm Permᴰ.nil = Permᴰ.nil
uris-perm (Permᴰ.cons same p) = Permᴰ.cons (ap (λ entry. entry.1.uri) same) (uris-perm p)
uris-perm (Permᴰ.swap same same') =
    Permᴰ.swap (ap (λ entry. entry.1.uri) same) (ap (λ entry. entry.1.uri) same')
uris-perm (Permᴰ.trans p q) = Permᴰ.trans (uris-perm p) (uris-perm q)

-- The entries are found under their names in the table.
abbrev IsIn : Hooks → String × Webhook → Type 0
IsIn table (name, hook) = find name table ≡ some hook

IsIn-cons :
    (name : String) (hook : Webhook) (table hooks : Hooks)
    → ¬ Member name (keys hooks)
    → All (IsIn table) hooks
    → All (IsIn ((name, hook) ∷ table)) hooks
unfolding find Member
IsIn-cons name hook table [] fresh h = tt
IsIn-cons name hook table ((other, hook') ∷ hooks) fresh (e, h) =
    (ground (arith, eq_iff other name), IsIn-cons name hook table hooks (λ m. fresh (inr m)) h)

IsIn-All : (table : Hooks) → IsDistinct (keys table) → All (IsIn table) table
unfolding find
IsIn-All [] d = tt
IsIn-All ((name, hook) ∷ table) (fresh, d) =
    (ground (arith, eq_iff name name), IsIn-cons name hook table table fresh (IsIn-All table d))

lookup_all-found :
    (table hooks : Hooks) → All (IsIn table) hooks → lookup_all table (keys hooks) ≡ some hooks
unfolding lookup_all
lookup_all-found table [] h = refl
lookup_all-found table ((name, hook) ∷ hooks) (e, h) = rw (e, lookup_all-found table hooks h) refl

-- Where no two webhooks share a name or a URI, and whatever the order in which the map is walked, the
-- build does not panic: the template gets what each webhook of the table adds, each once and in the
-- order of their names.
pub build_template_lem :
    (flags : Flags) (table : Hooks) (walk : List String)
    → IsDistinct (keys table)
    → IsDistinct (uris table)
    → Permᴰ (keys table) walk
    → (hooks : Hooks) × (build_template flags table walk ≡ some (resources_of flags hooks))
      × Permᴰ table hooks
      × (keys hooks ≡ sort_strings walk)
      × IsSorted (keys hooks)
unfolding build_template
build_template_lem flags table walk names distinct p =
    let (hooks, found, q) =
      lookup_all-perm table (Permᴰ.trans p (Permᴰ.symm (sort_strings-Permᴰ walk))) table
        (lookup_all-found table table (IsIn-All table names)) in
    let named : keys hooks ≡ sort_strings walk =
      lookup_all-keys table (sort_strings walk) hooks found in
    (
      hooks,
      rw found (build_lem flags hooks (IsDistinct-perm (uris-perm q) distinct)),
      q,
      named,
      rw named (sort_strings-IsSorted walk),
    )

-- Two walks over the same names build the same template, or both panic.
pub build_template-walks :
    (flags : Flags) (table : Hooks) (walk other : List String)
    → Permᴰ walk other
    → build_template flags table walk ≡ build_template flags table other
unfolding build_template
build_template-walks flags table walk other p =
    ap (λ names. add_found flags (lookup_all table names)) (sort_strings-perm p)
