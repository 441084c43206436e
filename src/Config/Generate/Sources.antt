-- ===== src/Config/Generate/Sources.antt =====
-- What pkg/config/generate makes of the files that it reads, and when it fails.
use mathlib.Core.Option.{some-ne-none}
use mathlib.Core.List.{cons-ne-nil}
use managed_cluster_validati.Base.{
  String, ◌≡◌, refl, sym, ap, ◌∙◌, ◌≢◌, ◌↔◌, List, [], ◌∷◌, ◌++◌, Option, none, some, map,
}
use managed_cluster_validati.Base.Maps.{value_of}
use managed_cluster_validati.Admission.{ok-injective, Result, ok, fail}
use managed_cluster_validati.Config.{anchored}
use managed_cluster_validati.Config.Generate.{
  ConfigMap, Source, namespaces_key, url_of, raw_file, some_names, decoded, scanned, read_file,
  Lists, source_name, append_file, append_read, read_all, generate_lists, default_texts,
  namespace_files,
}

-- A file is there, can be read and decoded, and names some namespaces.
abbrev pub Delivers : Source → String → ConfigMap × List String → Type 0
Delivers source file_name (cm, names) =
    (lines : List String) × (source.get (url_of file_name) ≡ ok (lines, none))
    × (source.decode_config_map (raw_file lines) ≡ ok cm)
    × (source.decode_config (value_of namespaces_key cm.data_of) ≡ ok names)
    × (names ≢ [])

some_names_iff :
    (file_name : String) (cm : ConfigMap) (result : Result (List String))
    (file : ConfigMap × List String)
    → (some_names file_name cm result ≡ ok file)
      ↔ ((result ≡ ok file.1) × (file.1 ≢ []) × (cm ≡ file.0))
some_names_iff file_name cm (fail err) file = (λ h. cc, λ (h, _, _). cc)
some_names_iff file_name cm (ok []) (cm', names) =
    (λ h. cc, λ (h, ne, _). absurd (ne (sym (ok-injective h))))
some_names_iff file_name cm (ok (name ∷ names)) (cm', names') = (
  λ h.
      let same : (cm, name ∷ names) ≡ (cm', names') = ok-injective h in
      let same_names : name ∷ names ≡ names' = ap (λ p. p.1) same in
      (
        ap (λ ns. ok ns) same_names,
        λ none_left. cons-ne-nil name names (same_names ∙ none_left),
        ap (λ p. p.0) same,
      ),
  λ (h, _, e). rw (e, sym (ok-injective h)) refl,
)

decoded_iff :
    (source : Source) (file_name : String) (result : Result ConfigMap)
    (file : ConfigMap × List String)
    → (decoded source file_name result ≡ ok file) ↔ (
        (result ≡ ok file.0)
        × (source.decode_config (value_of namespaces_key file.0.data_of) ≡ ok file.1)
        × (file.1 ≢ []))
decoded_iff source file_name (fail err) file = (λ h. cc, λ (h, _, _). cc)
decoded_iff source file_name (ok cm) file =
    let inner =
      some_names_iff file_name cm (source.decode_config (value_of namespaces_key cm.data_of))
        file in
    (
      λ h. let (a, b, c) = inner.0 h in (ap (λ m. ok m) c, rw (sym c) a, b),
      λ (a, b, c). inner.1 (rw (ok-injective a) b, c, ok-injective a),
    )

scanned_iff :
    (source : Source) (file_name : String) (result : Result (List String × Option String))
    (file : ConfigMap × List String)
    → (scanned source file_name result ≡ ok file) ↔ (
        (lines : List String) × (result ≡ ok (lines, none))
        × (source.decode_config_map (raw_file lines) ≡ ok file.0)
        × (source.decode_config (value_of namespaces_key file.0.data_of) ≡ ok file.1)
        × (file.1 ≢ []))
scanned_iff source file_name (fail err) file = (λ h. cc, λ (_, h, _, _, _). cc)
scanned_iff source file_name (ok (lines, some err)) file =
    (λ h. cc, λ (lines', h, _, _, _). absurd (some-ne-none err (ap (λ p. p.1) (ok-injective h))))
scanned_iff source file_name (ok (lines, none)) file =
    let inner = decoded_iff source file_name (source.decode_config_map (raw_file lines)) file in
    (
      λ h. let (a, b, c) = inner.0 h in (lines, refl, a, b, c),
      λ (lines', e, a, b, c).
          let same : lines ≡ lines' = ap (λ p. p.0) (ok-injective e) in inner.1 (rw same a, b, c),
    )

read_file_iff :
    (source : Source) (file_name : String) (file : ConfigMap × List String)
    → (read_file source file_name ≡ ok file) ↔ Delivers source file_name file
unfolding read_file
read_file_iff source file_name file =
    scanned_iff source file_name (source.get (url_of file_name)) file

append_read_iff :
    (start lists : Lists) (result : Result (ConfigMap × List String))
    → (append_read start result ≡ ok lists)
      ↔ ((file : ConfigMap × List String) × (result ≡ ok file) × (lists ≡ append_file start file))
append_read_iff start lists (fail err) = (λ h. cc, λ (_, h, _). cc)
append_read_iff start lists (ok file) =
    (λ h. (file, refl, sym (ok-injective h)), λ (file', e, h). rw (h, ok-injective e) refl)

-- The files deliver these, one for each.
abbrev pub AreDelivered : Source → List String → List (ConfigMap × List String) → Type 0
AreDelivered source [] [] = Unit
AreDelivered source [] (file ∷ found) = ⊥
AreDelivered source (name ∷ names) [] = ⊥
AreDelivered source (name ∷ names) (file ∷ found) =
    Delivers source name file × AreDelivered source names found

abbrev pub append_all : Lists → List (ConfigMap × List String) → Lists
append_all lists [] = lists
append_all lists (file ∷ found) = append_all (append_file lists file) found

read_next_iff :
    (source : Source) (names : List String) (start lists : Lists)
    (result : Result (ConfigMap × List String))
    → (read_all source names (append_read start result) ≡ ok lists) ↔ (
        (file : ConfigMap × List String) × (result ≡ ok file)
        × (read_all source names (ok (append_file start file)) ≡ ok lists))
unfolding read_all
read_next_iff source names start lists (fail err) = (λ h. cc, λ (_, h, _). cc)
read_next_iff source names start lists (ok file) =
    (λ h. (file, refl, h), λ (file', e, h). rw (sym (ok-injective e)) at h)

nothing_delivered :
    (source : Source) (start lists : Lists) (found : List (ConfigMap × List String))
    → AreDelivered source [] found
    → lists ≡ append_all start found
    → start ≡ lists
nothing_delivered source start lists [] d e = sym e
nothing_delivered source start lists (file ∷ found) d e = absurd d

-- The first of the files, and the others.
first_delivered :
    (source : Source) (name : String) (names : List String) (start lists : Lists)
    (found : List (ConfigMap × List String))
    → AreDelivered source (name ∷ names) found
    → lists ≡ append_all start found
    → (file : ConfigMap × List String) × (others : List (ConfigMap × List String)) × Delivers source
        name file
      × AreDelivered source names others
      × (lists ≡ append_all (append_file start file) others)
first_delivered source name names start lists [] d e = absurd d
first_delivered source name names start lists (file ∷ others) (d, ds) e = (file, others, d, ds, e)

read_all_iff :
    (source : Source) (files : List String) (start lists : Lists)
    → (read_all source files (ok start) ≡ ok lists) ↔ (
        (found : List (ConfigMap × List String)) × AreDelivered source files found
        × (lists ≡ append_all start found))
unfolding read_all read_file
read_all_iff source [] start lists = (
  λ h. ([], tt, sym (ok-injective h)),
  λ (found, d, e). ap (λ l. ok l) (nothing_delivered source start lists found d e),
)
read_all_iff source (name ∷ names) start lists =
    let next = read_next_iff source names start lists (read_file source name) in
    (
      λ h.
          let (file, read, h') = next.0 h in
          let (found, ds, e) = (read_all_iff source names (append_file start file) lists).0 h' in
          (file ∷ found, ((read_file_iff source name file).0 read, ds), e),
      λ (found, d, e).
          let (file, others, first, ds, e') =
            first_delivered source name names start lists found d e in
          next.1 (
            file,
            (read_file_iff source name file).1 first,
            (read_all_iff source names (append_file start file) lists).1 (others, ds, e'),
          ),
    )

append_texts :
    (a b c : List String) → (a ++ map anchored b) ++ map anchored c ≡ a ++ map anchored (b ++ c)
append_texts [] [] c = refl
append_texts [] (x ∷ b) c = ap (λ ts. anchored x ∷ ts) (append_texts [] b c)
append_texts (x ∷ a) b c = ap (λ ts. x ∷ ts) (append_texts a b c)

in_order :
    (managed platform : ConfigMap × List String)
    → append_file
        (append_file (record { configmaps = []; namespaces = default_texts }) managed)
        platform
      ≡ record {
        configmaps = source_name managed.0 ∷ source_name platform.0 ∷ [];
        namespaces = default_texts ++ map anchored (managed.1 ++ platform.1);
      }
in_order (cm, names) (cm', names') = rw (append_texts default_texts names names') refl

-- The generator succeeds exactly when both files are there, decode, and name some namespaces. It
-- then lists the two config maps, and the default patterns followed by one anchored pattern for
-- each name of the first file and then of the second, in order.
pub generate_lists_iff :
    (source : Source) (lists : Lists)
    → (generate_lists source ≡ ok lists) ↔ (
        (managed : ConfigMap × List String) × (platform : ConfigMap × List String) × Delivers source
          "managed-namespaces.ConfigMap.yaml" managed
        × Delivers source "ocp-namespaces.ConfigMap.yaml" platform
        × (lists ≡ record {
          configmaps = source_name managed.0 ∷ source_name platform.0 ∷ [];
          namespaces = default_texts ++ map anchored (managed.1 ++ platform.1);
        }))
unfolding generate_lists
generate_lists_iff source lists =
    let all =
      read_all_iff source namespace_files (record { configmaps = []; namespaces = default_texts })
        lists in
    (
      λ h.
          let (found, d, e) = all.0 h in
          let (managed, others, first, d', e') =
            first_delivered source "managed-namespaces.ConfigMap.yaml"
              ("ocp-namespaces.ConfigMap.yaml" ∷ []) _ lists found d e in
          let (platform, others', second, d'', e'') =
            first_delivered source "ocp-namespaces.ConfigMap.yaml" [] _ lists others d' e' in
          (
            managed,
            platform,
            first,
            second,
            sym (nothing_delivered source _ lists others' d'' e'') ∙ in_order managed platform,
          ),
      λ (managed, platform, first, second, e).
          all.1
            (managed ∷ platform ∷ [], (first, (second, tt)), e ∙ sym (in_order managed platform)),
    )
