-- ===== src/Samples/SyncSetEncodeFieldsRuns.antt =====
-- Runs of the theorems of SyncSet/Encode/Fields.antt on concrete inputs.
use managed_cluster_validati.Base.{
  String, ◌≡◌, refl, ◌≢◌, true, [], ◌∷◌, arith, ◌==◌, eq_iff, if◌then◌else◌,
}
use managed_cluster_validati.Admission.{ok}
use managed_cluster_validati.SyncSet.Encode.{
  Json, Object, field, no_field, fields, text, items, item, no_item, flag, get_field,
}
use managed_cluster_validati.Admission.{Attempt}
use managed_cluster_validati.Admission.{Attempt}
use managed_cluster_validati.SyncSet.Encode.{
  Json, Object, encode_and_fix_ca, encode_and_fix_daemonset, get_field,
}
use managed_cluster_validati.SyncSet.Encode.Fields.{
  SameBut, SameOutsidePods, child, client_config, encode_and_fix_ca_lem,
  encode_and_fix_daemonset_lem, first, others, pod_spec,
}

abbrev client_fields : Object
client_fields = field "caBundle" (text "e3suY29uZmlnLnNlcnZpY2VjYSB8IGI2NGVuYyB9fQ==") no_field

abbrev hook_fields : Object
hook_fields =
    field "name" (text "scc-validation") (field "clientConfig" (fields client_fields) no_field)

abbrev top_fields : Object
top_fields =
    field "kind" (text "ValidatingWebhookConfiguration")
      (field "webhooks" (items (item (fields hook_fields) no_item)) no_field)

bundle_given : ◌≢◌ {A = String} "{{.config.serviceca}}" ""
bundle_given e = ground (arith, (eq_iff "{{.config.serviceca}}" "").1 e)

encode_and_fix_ca_lem_example :
    (tree' : Json) × (encode_and_fix_ca ("{{.config.serviceca}}" ∷ []) (ok (fields top_fields))
      ≡ Attempt.done tree')
    × (child "caBundle" (client_config tree') ≡ text "{{.config.serviceca}}")
    × SameBut "webhooks" (fields top_fields) tree'
    × SameBut "clientConfig" (fields hook_fields) (first (child "webhooks" tree'))
    × SameBut "caBundle" (fields client_fields) (client_config tree')
    × (others (child "webhooks" tree') ≡ no_item)
unfolding get_field
encode_and_fix_ca_lem_example =
    encode_and_fix_ca_lem ("{{.config.serviceca}}") [] top_fields hook_fields client_fields no_item
      bundle_given refl refl

abbrev daemon_pods : Object
daemon_pods = field "hostNetwork" (flag true) no_field

abbrev daemon_template : Object
daemon_template = field "spec" (fields daemon_pods) no_field

abbrev daemon_spec : Object
daemon_spec = field "template" (fields daemon_template) no_field

abbrev daemon_set : Object
daemon_set = field "spec" (fields daemon_spec) no_field

encode_and_fix_daemonset_lem_example :
    (tree' : Json) × (encode_and_fix_daemonset "" (ok (fields daemon_set)) ≡ Attempt.done tree')
    × (child "serviceAccount" (pod_spec tree') ≡ text "")
    × (child "serviceAccountName" (pod_spec tree')
        ≡ (if "" == "" then text "" else get_field "serviceAccountName" daemon_pods))
    × ((other : String)
        → other ≢ "serviceAccount"
        → other ≢ "serviceAccountName"
        → child other (pod_spec tree') ≡ get_field other daemon_pods)
    × SameOutsidePods (fields daemon_set) tree'
unfolding get_field
encode_and_fix_daemonset_lem_example =
    encode_and_fix_daemonset_lem "" daemon_set daemon_spec daemon_template daemon_pods refl refl
      refl
