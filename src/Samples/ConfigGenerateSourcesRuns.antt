-- ===== src/Samples/ConfigGenerateSourcesRuns.antt =====
-- Runs of the theorems of Config/Generate/Sources.antt on concrete inputs.
use managed_cluster_validati.Base.{String, ◌≡◌, ◌↔◌, none, List, [], ◌∷◌, ◌++◌, map}
use managed_cluster_validati.Admission.{ok}
use managed_cluster_validati.Config.{anchored}
use managed_cluster_validati.Config.Generate.{
  ConfigMap, Lists, Source, default_texts, generate_lists, source_name,
}
use managed_cluster_validati.Config.Generate.Sources.{Delivers, generate_lists_iff}

abbrev source_of_one : Source
source_of_one = record {
  get = λ url. ok ("data:" ∷ [], none);
  decode_config_map = λ file.
      ok (record { namespace = "openshift-monitoring"; name = "managed-namespaces"; data_of = [] });
  decode_config = λ config. ok ("dedicated-admin" ∷ []);
}

abbrev lists_of_one : Lists
lists_of_one = record { configmaps = []; namespaces = [] }

generate_lists_iff_example : (generate_lists source_of_one ≡ ok lists_of_one) ↔ (
    (managed : ConfigMap × List String) × (platform : ConfigMap × List String) × Delivers
      source_of_one "managed-namespaces.ConfigMap.yaml" managed
    × Delivers source_of_one "ocp-namespaces.ConfigMap.yaml" platform
    × (lists_of_one ≡ record {
      configmaps = source_name managed.0 ∷ source_name platform.0 ∷ [];
      namespaces = default_texts ++ map anchored (managed.1 ++ platform.1);
    }))
generate_lists_iff_example = generate_lists_iff source_of_one lists_of_one
