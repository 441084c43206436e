-- ===== src/SyncSet/Encode/Fields.antt =====
-- What the encodings of pkg/syncset/syncsetbylabelselector.go change in a tree, and what they leave.
use managed_cluster_validati.Base.{
  String, ◌≡◌, refl, ◌≢◌, false, some, List, ◌∷◌, arith, ◌==◌, eq_iff, if◌then◌else◌, Bool-cases,
  inl, inr, ◌∙◌,
}
use managed_cluster_validati.Admission.{Attempt, ok}
use managed_cluster_validati.SyncSet.Encode.{
  Json, fields, items, text, Array, no_item, item, Object, no_field, field, get_field, put_field,
  encode_and_fix_ca, encode_and_fix_daemonset, in_pod_spec, set_text,
}

get_field-put_field :
    (key : String) (value : Json) (m : Object) → get_field key (put_field key value m) ≡ value
unfolding get_field put_field
get_field-put_field key value no_field = ground (arith, eq_iff key key)
get_field-put_field key value (field k v m) =
    ground (arith, eq_iff key key, eq_iff key k, get_field-put_field key value m)

get_field-put_field_other :
    (other key : String) (value : Json) (m : Object)
    → other ≢ key
    → get_field other (put_field key value m) ≡ get_field other m
unfolding get_field put_field
get_field-put_field_other other key value no_field ne = ground (arith, eq_iff other key)
get_field-put_field_other other key value (field k v m) ne = ground (
  arith,
  eq_iff other key,
  eq_iff key k,
  eq_iff other k,
  get_field-put_field_other other key value m ne,
)

-- What stands under a key, and the first and the other items, where there are such.
abbrev pub child : String → Json → Json
child key (fields m) = get_field key m
child key _ = Json.null

abbrev pub first : Json → Json
first (items (item value rest)) = value
first _ = Json.null

abbrev pub others : Json → Array
others (items (item value rest)) = rest
others _ = no_item

abbrev pub client_config : Json → Json
client_config tree = child "clientConfig" (first (child "webhooks" tree))

-- The two trees have the same fields but the one that is named.
abbrev pub SameBut : String → Json → Json → Type 0
SameBut key tree tree' = (other : String) → other ≢ key → child other tree' ≡ child other tree

SameBut-put_field :
    (key : String) (value : Json) (m : Object)
    → SameBut key (fields m) (fields (put_field key value m))
SameBut-put_field key value m other ne = get_field-put_field_other other key value m ne

-- A configuration that marshals to a tree with a first webhook and its clientConfig is encoded with
-- the CABundle as plain text, if that is not empty; all other fields of the tree, of the webhook and
-- of its clientConfig, and all other webhooks, stay as they were.
pub encode_and_fix_ca_lem :
    (ca_bundle : String) (more : List String) (top hook client : Object) (rest : Array)
    → ca_bundle ≢ ""
    → get_field "webhooks" top ≡ items (item (fields hook) rest)
    → get_field "clientConfig" hook ≡ fields client
    → (tree' : Json) × (encode_and_fix_ca (ca_bundle ∷ more) (ok (fields top)) ≡ Attempt.done tree')
      × (child "caBundle" (client_config tree') ≡ text ca_bundle)
      × SameBut "webhooks" (fields top) tree'
      × SameBut "clientConfig" (fields hook) (first (child "webhooks" tree'))
      × SameBut "caBundle" (fields client) (client_config tree')
      × (others (child "webhooks" tree') ≡ rest)
unfolding encode_and_fix_ca
encode_and_fix_ca_lem ca_bundle more top hook client rest given webhooks config =
    let plain : (ca_bundle == "") ≡ false = ground (arith, eq_iff ca_bundle "") in
    let client' = put_field "caBundle" (text ca_bundle) client in
    let hook' = put_field "clientConfig" (fields client') hook in
    let top' = put_field "webhooks" (items (item (fields hook') rest)) top in
    let at_webhooks : get_field "webhooks" top' ≡ items (item (fields hook') rest) =
      get_field-put_field "webhooks" (items (item (fields hook') rest)) top in
    let at_config : get_field "clientConfig" hook' ≡ fields client' =
      get_field-put_field "clientConfig" (fields client') hook in
    let at_client : client_config (fields top') ≡ fields client' = rw at_webhooks at_config in
    (
      fields top',
      rw (plain, webhooks) (rw config refl),
      rw at_client (get_field-put_field "caBundle" (text ca_bundle) client),
      SameBut-put_field "webhooks" (items (item (fields hook') rest)) top,
      rw at_webhooks (SameBut-put_field "clientConfig" (fields client') hook),
      rw at_client (SameBut-put_field "caBundle" (text ca_bundle) client),
      rw at_webhooks refl,
    )

abbrev pub pod_spec : Json → Json
pod_spec tree = child "spec" (child "template" (child "spec" tree))

-- The tree has an object as the spec of its pods.
abbrev HasPods : Json → Object → Type 0
HasPods tree pods =
    (top : Object) × (spec : Object) × (template : Object) × (tree ≡ fields top)
    × (get_field "spec" top ≡ fields spec)
    × (get_field "template" spec ≡ fields template)
    × (get_field "spec" template ≡ fields pods)

pod_spec-HasPods : (tree : Json) (pods : Object) → HasPods tree pods → pod_spec tree ≡ fields pods
pod_spec-HasPods tree pods (top, spec, template, is_top, at_spec, at_template, at_pods) =
    rw (is_top) (rw at_spec (rw at_template at_pods))

-- The two trees differ in the spec of their pods at most.
abbrev pub SameOutsidePods : Json → Json → Type 0
SameOutsidePods tree tree' =
    SameBut "spec" tree tree'
    × SameBut "template" (child "spec" tree) (child "spec" tree')
    × SameBut "spec" (child "template" (child "spec" tree)) (child "template" (child "spec" tree'))

SameOutsidePods-trans :
    (a b c : Json) → SameOutsidePods a b → SameOutsidePods b c → SameOutsidePods a c
SameOutsidePods-trans a b c (h, k, l) (h', k', l') = (
  λ other ne. h' other ne ∙ h other ne,
  λ other ne. k' other ne ∙ k other ne,
  λ other ne. l' other ne ∙ l other ne,
)

in_pod_spec_lem :
    (key value : String) (tree : Json) (pods : Object)
    → HasPods tree pods
    → (tree' : Json) × (in_pod_spec (set_text key value) tree ≡ some tree')
      × HasPods tree' (put_field key (text value) pods)
      × SameOutsidePods tree tree'
in_pod_spec_lem key value tree pods (top, spec, template, is_top, at_spec, at_template, at_pods) =
    let template' = put_field "spec" (fields (put_field key (text value) pods)) template in
    let spec' = put_field "template" (fields template') spec in
    let top' = put_field "spec" (fields spec') top in
    let at_spec' : get_field "spec" top' ≡ fields spec' =
      get_field-put_field "spec" (fields spec') top in
    let at_template' : get_field "template" spec' ≡ fields template' =
      get_field-put_field "template" (fields template') spec in
    (
      fields top',
      rw is_top (rw at_spec (rw at_template (rw at_pods refl))),
      (
        top',
        spec',
        template',
        refl,
        at_spec',
        at_template',
        get_field-put_field "spec" (fields (put_field key (text value) pods)) template,
      ),
      (
        rw is_top (SameBut-put_field "spec" (fields spec') top),
        rw is_top (rw (at_spec, at_spec') (SameBut-put_field "template" (fields template') spec)),
        rw is_top (
            rw (at_spec, at_spec')
              (rw (at_template, at_template')
                (SameBut-put_field "spec" (fields (put_field key (text value) pods)) template))),
      ),
    )

names_differ : ◌≢◌ {A = String} "serviceAccountName" "serviceAccount"
names_differ e = ground (arith, (eq_iff "serviceAccountName" "serviceAccount").1 e)

-- A DaemonSet whose tree has the spec of its pods is encoded with an empty serviceAccount, and with
-- an empty serviceAccountName if it has none; all other fields of that spec stay as they were, and
-- so do all other fields of the tree, of its spec and of its template.
pub encode_and_fix_daemonset_lem :
    (name : String) (top spec template pods : Object)
    → get_field "spec" top ≡ fields spec
    → get_field "template" spec ≡ fields template
    → get_field "spec" template ≡ fields pods
    → (tree' : Json) × (encode_and_fix_daemonset name (ok (fields top)) ≡ Attempt.done tree')
      × (child "serviceAccount" (pod_spec tree') ≡ text "")
      × (child "serviceAccountName" (pod_spec tree')
          ≡ (if name == "" then text "" else get_field "serviceAccountName" pods))
      × ((other : String)
          → other ≢ "serviceAccount"
          → other ≢ "serviceAccountName"
          → child other (pod_spec tree') ≡ get_field other pods)
      × SameOutsidePods (fields top) tree'
unfolding encode_and_fix_daemonset
encode_and_fix_daemonset_lem name top spec template pods at_spec at_template at_pods =
    let start : HasPods (fields top) pods =
      (top, spec, template, refl, at_spec, at_template, at_pods) in
    elim (Bool-cases (name == "")) [
      | inl unnamed ↦
          let pods' = put_field "serviceAccountName" (text "") pods in
          let (middle, e, h, same) =
            in_pod_spec_lem "serviceAccountName" "" (fields top) pods start in
          let (tree', f, k, same') = in_pod_spec_lem "serviceAccount" "" middle pods' h in
          let at_end : pod_spec tree' ≡ fields (put_field "serviceAccount" (text "") pods') =
            pod_spec-HasPods tree' _ k in
          (
            tree',
            rw unnamed (rw e (rw f refl)),
            rw at_end (get_field-put_field "serviceAccount" (text "") pods'),
            rw (at_end, unnamed)
                (get_field-put_field_other "serviceAccountName" "serviceAccount" (text "") pods'
                    names_differ
                  ∙ get_field-put_field "serviceAccountName" (text "") pods),
            λ other ne ne'. rw at_end (
                get_field-put_field_other other "serviceAccount" (text "") pods' ne
                ∙ get_field-put_field_other other "serviceAccountName" (text "") pods ne'),
            SameOutsidePods-trans (fields top) middle tree' same same',
          )
      | inr named ↦
          let (tree', f, k, same) = in_pod_spec_lem "serviceAccount" "" (fields top) pods start in
          let at_end : pod_spec tree' ≡ fields (put_field "serviceAccount" (text "") pods) =
            pod_spec-HasPods tree' _ k in
          (
            tree',
            rw named (rw f refl),
            rw at_end (get_field-put_field "serviceAccount" (text "") pods),
            rw (at_end, named)
                (get_field-put_field_other "serviceAccountName" "serviceAccount" (text "") pods
                  names_differ),
            λ other ne ne'.
                rw at_end (get_field-put_field_other other "serviceAccount" (text "") pods ne),
            same,
          )
    ]
