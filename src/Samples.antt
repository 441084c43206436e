-- ===== src/Samples.antt =====
-- Requests and decoders to run the webhooks and the server on.
mod BuildManifestsConsistencyRuns
mod BuildOrderRuns
mod BuildPackageContentsRuns
mod BuildSelectionRuns
mod BuildTemplateResourcesRuns
mod ClusterLoggingRetentionRuns
mod ClusterRoleBindingRuns
mod ConfigGenerateSourcesRuns
mod ConfigNamespacesRuns
mod ImageContentPoliciesMirrorsRuns
mod IngressControllerRuns
mod NamespaceAccessRuns
mod NamespaceLabelGuardRuns
mod NetworkOperatorChangesRuns
mod NetworkPoliciesRuns
mod NodeRuns
mod PodImageSpecMutationRuns
mod PodImageSpecPatchRuns
mod PodImageSpecRecognitionRuns
mod PodImageSpecReferenceRuns
mod PodRuns
mod RegistryTablePropertiesRuns
mod RegularUserAccessRuns
mod SdnMigrationRuns
mod ServerDispatcherRoutingRuns
mod ServerMainRuns
mod ServiceTagsRuns
mod SyncSetEncodeFieldsRuns
mod SyncSetGroupingRuns
mod UtilsMatchingRuns
use managed_cluster_validati.Base.{
  ◌≢◌, String, List, [], ◌∷◌, ◌==◌, if◌then◌else◌, Option, none, some,
}
use managed_cluster_validati.Admission.{
  Operation, create, update, delete, Request, Result, ok, fail, Decoder,
}

-- A decoder that knows one object for the text `old` and another one for all other texts.
abbrev pub decode_two : {A : Type 0} → A → A → String → Result A
decode_two old new text =
    if text == ""
    then fail "there is no content to decode"
    else if text == "old"
    then ok old
    else ok new

pub decode_two-empty : {A : Type 0} (old new a : A) → decode_two old new "" ≢ ok a
decode_two-empty old new a e = cc

abbrev pub two_decoder : {A : Type 0} → A → A → Decoder A
two_decoder old new = record {
  decode_raw = decode_two old new;
  decode_raw-empty = decode_two-empty old new;
}

abbrev pub request_by : Operation → String → String → List String → Request
request_by operation kind username groups = record {
  uid = "705ab4f5-6393-11e8-b7cc-42010a800002";
  kind = kind;
  group = "";
  request_kind = kind;
  name = "openshift-monitoring";
  namespace = "openshift-monitoring";
  operation = operation;
  username = username;
  groups = groups;
  object = "new";
  old_object = "old";
}

abbrev pub customer : Operation → String → Request
customer operation kind = request_by operation kind "alice" ("system:authenticated" ∷ [])

abbrev pub service_account : Operation → String → Request
service_account operation kind =
    request_by operation kind "system:serviceaccount:openshift-monitoring:prometheus-k8s"
      ("system:serviceaccounts:openshift-monitoring" ∷ "system:authenticated" ∷ [])
