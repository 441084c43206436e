-- ===== src/Webhooks/Service/Tags.antt =====
-- What the patch of pkg/webhooks/service/service.go leaves in a service's annotations.
use managed_cluster_validati.Base.{
  String, ◌≡◌, refl, inl, inr, Bool, true, false, Option, none, some, List, [], ◌∷◌, arith, All,
  Member, contains_iff, ◌==◌, if◌then◌else◌, Bool-cases,
}
use managed_cluster_validati.Base.Maps.{Labels, lookup}
use managed_cluster_validati.Base.Text.{split, join, has_prefix}
use managed_cluster_validati.Base.Text.Laws.{Lacks, split-Lacks, split-join}
use managed_cluster_validati.Admission.{Patch, PatchValue}
use managed_cluster_validati.Webhooks.Service.{
  annotation_key, annotation_value_prefix, managed_tag, annotation, has_red_hat_managed_tag,
  kept_tags, new_tags, value_to_add, patch_path, patch_for, build_patch, escape,
}

-- An independent account of JSON patch on a service's annotations: `add` and `replace` write the
-- member that the path names, and `replace` asks that it is there.
abbrev write : Option Labels → String → Option Labels
write none v = none
write (some annotations) v = some ((annotation_key, v) ∷ annotations)

abbrev has_value : Option String → Bool
has_value none = false
has_value (some _) = true

abbrev apply_value : Patch → PatchValue → Option Labels → Option Labels
unfolding annotation
apply_value patch (PatchValue.map_value new) annotations =
    if patch.path == "/metadata/annotations" then some new else annotations
apply_value patch (PatchValue.text_value v) annotations =
    if patch.path
      == "/metadata/annotations/service.beta.kubernetes.io~1aws-load-balancer-additional-resource-tags"
    then (if patch.op == "add"
        then write annotations v
        else if patch.op == "replace"
        then (if has_value (annotation annotations) then write annotations v else annotations)
        else annotations)
    else annotations

unfoldable pub apply_patch : Patch → Option Labels → Option Labels
unfolding apply_value
apply_patch patch annotations = apply_value patch patch.value annotations

kept_tags-Lacks : (ts : List String) → All (Lacks b',') ts → All (Lacks b',') (kept_tags ts)
unfolding kept_tags
kept_tags-Lacks [] h = h
kept_tags-Lacks (t ∷ ts) (h, hs) = elim (Bool-cases (has_prefix t annotation_value_prefix)) [
  | inl drops ↦ rw drops (kept_tags-Lacks ts hs)
  | inr keeps ↦ rw keeps (h, kept_tags-Lacks ts hs)
]

-- The tag that is written has no comma of its own.
managed_tag-Lacks : Lacks b',' managed_tag
managed_tag-Lacks = ground arith

-- The written annotation splits into the new tags again.
split-new_tags : (existing : String) → split b',' (join "," (new_tags existing)) ≡ new_tags existing
unfolding new_tags
split-new_tags existing =
    split-join "," managed_tag (kept_tags (split b',' existing))
      (managed_tag-Lacks, kept_tags-Lacks (split b',' existing) (split-Lacks b',' existing))

-- The annotation that a service has after its patch.
tag_value : Option String → String
tag_value none = managed_tag
tag_value (some existing) = join "," (new_tags existing)

patched_annotation :
    (annotations : Labels) (found : Option String)
    → lookup annotation_key annotations ≡ found
    → annotation (apply_patch (patch_for (some annotations) found) (some annotations))
      ≡ some (tag_value found)
unfolding annotation patch_for value_to_add patch_path escape lookup tag_value apply_patch
    apply_value
patched_annotation annotations none e = refl
patched_annotation annotations (some v) e = rw e refl

annotation-patched :
    (annotations : Option Labels)
    → annotation (apply_patch (build_patch annotations) annotations)
      ≡ some (tag_value (annotation annotations))
unfolding annotation build_patch patch_for value_to_add patch_path escape lookup tag_value
    apply_patch apply_value
annotation-patched none = refl
annotation-patched (some annotations) =
    patched_annotation annotations (lookup annotation_key annotations) refl

tags-value : (found : Option String) → Member managed_tag (split b',' (tag_value found))
unfolding tag_value Member new_tags split
tags-value none = inl refl
tags-value (some existing) = rw (split-new_tags existing) (inl refl)

-- The patched annotations have the required tag, whatever the annotations were: none at all, none
-- of the key, or a list of tags.
pub patched_has_tag :
    (annotations : Option Labels)
    → has_red_hat_managed_tag (apply_patch (build_patch annotations) annotations) ≡ true
unfolding has_red_hat_managed_tag
patched_has_tag annotations = rw (annotation-patched annotations) (
    (contains_iff (split b',' (tag_value (annotation annotations))) managed_tag).1
      (tags-value (annotation annotations)))
