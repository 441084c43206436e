-- ===== src/Samples/ServiceTagsRuns.antt =====
-- Runs of the theorems of Webhooks/Service/Tags.antt on concrete inputs.
use managed_cluster_validati.Base.{◌≡◌, true, Option, some, [], ◌∷◌}
use managed_cluster_validati.Base.Maps.{Labels}
use managed_cluster_validati.Webhooks.Service.{annotation_key, build_patch, has_red_hat_managed_tag}
use managed_cluster_validati.Webhooks.Service.Tags.{apply_patch, patched_has_tag}

abbrev tagged : Option Labels
tagged = some ((annotation_key, "team=a,red-hat-managed=false") ∷ [])

patched_has_tag_example : has_red_hat_managed_tag (apply_patch (build_patch tagged) tagged) ≡ true
patched_has_tag_example = patched_has_tag tagged
