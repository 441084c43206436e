-- ===== src/Config/Generate.antt =====
-- pkg/config/generate/namespaces.go: the list of privileged namespaces is made of the files of
-- managed-cluster-config. http.Get with the scanner of the body, and yaml.Unmarshal, are parameters;
-- log.Fatalf ends the run with an error.
pub mod Sources
use managed_cluster_validati.Base.{String, List, [], ◌∷◌, ◌++◌, Option, none, some, map}
use managed_cluster_validati.Base.Text.{concat}
use managed_cluster_validati.Base.Maps.{Labels, value_of}
use managed_cluster_validati.Admission.{Result, ok, fail}
use managed_cluster_validati.Config.{anchored}

pub record ConfigMap : Type 0 where
  pub namespace : String
  pub name : String
  pub data_of : Labels

-- A body is its lines, and the error that the scanner ends with, if it ends with one.
pub record Source : Type 0 where
  pub get : String → Result (List String × Option String)
  pub decode_config_map : String → Result ConfigMap
  pub decode_config : String → Result (List String)

abbrev mcc_base_url : String
mcc_base_url =
    "https://raw.githubusercontent.com/openshift/managed-cluster-config/master/deploy/osd-managed-resources"

abbrev pub namespace_files : List String
namespace_files = "managed-namespaces.ConfigMap.yaml" ∷ "ocp-namespaces.ConfigMap.yaml" ∷ []

abbrev pub default_texts : List String
default_texts = "^default$" ∷ "^openshift$" ∷ "^kube-.*" ∷ "^redhat-.*" ∷ []

abbrev pub namespaces_key : String
namespaces_key = "managed_namespaces.yaml"

abbrev pub url_of : String → String
url_of file_name = concat (mcc_base_url ∷ "/" ∷ file_name ∷ [])

-- The lines, each with the newline that the scanner took off.
unfoldable pub raw_file : List String → String
raw_file [] = ""
raw_file (line ∷ lines) = concat (line ∷ "\n" ∷ raw_file lines ∷ [])

abbrev error_with : String → String → String
error_with message err = concat (message ∷ err ∷ [])

abbrev pub some_names : String → ConfigMap → Result (List String) → Result (ConfigMap × List String)
some_names file_name cm (fail err) = fail (error_with "Error decoding configMap: " err)
some_names file_name cm (ok []) = fail (error_with "No namespaces retrieved from " file_name)
some_names file_name cm (ok (name ∷ names)) = ok (cm, name ∷ names)

abbrev pub decoded : Source → String → Result ConfigMap → Result (ConfigMap × List String)
decoded source file_name (fail err) = fail (error_with "Error decoding response: " err)
decoded source file_name (ok cm) =
    some_names file_name cm (source.decode_config (value_of namespaces_key cm.data_of))

abbrev pub scanned :
    Source → String → Result (List String × Option String) → Result (ConfigMap × List String)
scanned source file_name (fail err) =
    fail (error_with "Error retrieving file from managed-cluster-config: " err)
scanned source file_name (ok (lines, some err)) =
    fail (error_with "Error reading response body: " err)
scanned source file_name (ok (lines, none)) =
    decoded source file_name (source.decode_config_map (raw_file lines))

-- One round of the loop, up to the appends.
unfoldable pub read_file : Source → String → Result (ConfigMap × List String)
unfolding raw_file
read_file source file_name = scanned source file_name (source.get (url_of file_name))

-- The variables `configmaps` and `namespaces`.
pub record Lists : Type 0 where
  pub configmaps : List String
  pub namespaces : List String

abbrev pub source_name : ConfigMap → String
source_name cm = concat (cm.namespace ∷ "/" ∷ cm.name ∷ [])

abbrev pub append_file : Lists → ConfigMap × List String → Lists
append_file lists (cm, names) = record {
  configmaps = lists.configmaps ++ (source_name cm ∷ []);
  namespaces = lists.namespaces ++ map anchored names;
}

abbrev pub append_read : Lists → Result (ConfigMap × List String) → Result Lists
append_read lists (fail err) = fail err
append_read lists (ok file) = ok (append_file lists file)

unfoldable pub read_all : Source → List String → Result Lists → Result Lists
unfolding read_file
read_all source files (fail err) = fail err
read_all source [] (ok lists) = ok lists
read_all source (file ∷ files) (ok lists) =
    read_all source files (append_read lists (read_file source file))

-- What `main` hands to the template.
unfoldable pub generate_lists : Source → Result Lists
unfolding read_all
generate_lists source =
    read_all source namespace_files (ok (record { configmaps = []; namespaces = default_texts }))
