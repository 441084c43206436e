-- ===== src/Webhooks/PodImageSpec/Mutation.antt =====
-- The containers of a pod behind the loop of pkg/webhooks/podimagespec that replaces their images.
use managed_cluster_validati.Base.{sym, ap}
use managed_cluster_validati.Admission.{Attempt}
use managed_cluster_validati.Webhooks.PodImageSpec.{
  ImageRef, check_container_image_spec_by_regex, Container, KubeClient, read_tag, lookup_ref,
  lookup_image_stream_tag_spec, set_image, mutate_containers,
}
use managed_cluster_validati.Base.{String, ◌≡◌, refl, ◌↔◌, Option, none, some, List, [], ◌∷◌}
use managed_cluster_validati.Base.Text.{concat}
use managed_cluster_validati.Admission.{Result, ok, fail}

-- What an image is replaced by: itself, or the name that the tag of the reference gives.
abbrev ResolvesTo : KubeClient → Option ImageRef → String → String → Type 0
ResolvesTo client none image image' = image' ≡ image
ResolvesTo client (some ref) image image' =
    client.image_stream_tag (concat (ref.image ∷ ":" ∷ ref.tag ∷ [])) ref.namespace
    ≡ ok (some (some image'))

pub done-injective : {A : Type 0} {a b : A} → Attempt.done a ≡ Attempt.done b → a ≡ b
done-injective e = cc

read_tag_iff :
    (result : Result (Option (Option String))) (image : String)
    → (read_tag result ≡ Attempt.done image) ↔ (result ≡ ok (some (some image)))
read_tag_iff (fail err) image = (λ h. cc, λ h. cc)
read_tag_iff (ok none) image = (λ h. cc, λ h. cc)
read_tag_iff (ok (some none)) image = (λ h. cc, λ h. cc)
read_tag_iff (ok (some (some name))) image = (λ h. cc, λ h. cc)

lookup_ref_iff :
    (client : KubeClient) (imagespec image : String) (ref : Option ImageRef)
    → (lookup_ref client imagespec ref ≡ Attempt.done image) ↔ ResolvesTo client ref imagespec image
lookup_ref_iff client imagespec image none =
    (λ h. sym (done-injective h), λ e. ap (λ name. Attempt.done name) (sym e))
lookup_ref_iff client imagespec image (some ref) =
    read_tag_iff (client.image_stream_tag (concat (ref.image ∷ ":" ∷ ref.tag ∷ [])) ref.namespace)
      image

lookup_iff :
    (client : KubeClient) (imagespec image : String)
    → (lookup_image_stream_tag_spec client imagespec ≡ Attempt.done image)
      ↔ ResolvesTo client (check_container_image_spec_by_regex imagespec) imagespec image
unfolding lookup_image_stream_tag_spec
lookup_iff client imagespec image =
    lookup_ref_iff client imagespec image (check_container_image_spec_by_regex imagespec)

module _ {A : Type 0} where
  -- The containers after the loop: each with its image replaced, in order, and nothing else changed.
  abbrev pub AreMutated : KubeClient → List (Container A) → List (Container A) → Type 0
  AreMutated client [] [] = Unit
  AreMutated client [] (y ∷ ys) = ⊥
  AreMutated client (x ∷ xs) [] = ⊥
  AreMutated client (x ∷ xs) (y ∷ ys) =
      ResolvesTo client (check_container_image_spec_by_regex x.image) x.image y.image
      × (y.others ≡ x.others)
      × AreMutated client xs ys

  set_image_iff :
      (x : Container A) (image : Attempt String) (rest : Attempt (List (Container A)))
      (ys : List (Container A))
      → (set_image x image rest ≡ Attempt.done ys) ↔ (
          (name : String) × (xs' : List (Container A)) × (image ≡ Attempt.done name)
          × (rest ≡ Attempt.done xs')
          × (ys ≡ record { image = name; others = x.others } ∷ xs'))
  set_image_iff x (Attempt.failed err) rest ys = (λ h. cc, λ (_, _, h, _, _). cc)
  set_image_iff x Attempt.crashed rest ys = (λ h. cc, λ (_, _, h, _, _). cc)
  set_image_iff x (Attempt.done name) (Attempt.failed err) ys = (λ h. cc, λ (_, _, _, h, _). cc)
  set_image_iff x (Attempt.done name) Attempt.crashed ys = (λ h. cc, λ (_, _, _, h, _). cc)
  set_image_iff x (Attempt.done name) (Attempt.done xs') ys = (
    λ h. (name, xs', refl, refl, sym (done-injective h)),
    λ (n, zs, e, f, g). rw (g, done-injective e, done-injective f) refl,
  )

  -- The loop over the containers succeeds with a list exactly when that is the list in which each
  -- image that refers to the internal registry is the one that its image stream tag names, and all
  -- else is as before.
  pub mutate_containers_iff :
      (client : KubeClient) (xs ys : List (Container A))
      → (mutate_containers client xs ≡ Attempt.done ys) ↔ AreMutated client xs ys
  unfolding mutate_containers
  mutate_containers_iff client [] [] = (λ h. tt, λ h. refl)
  mutate_containers_iff client [] (y ∷ ys) = (λ h. cc, λ h. absurd h)
  mutate_containers_iff client (x ∷ xs) [] =
      (λ h. let (name, zs, _, _, e) = (set_image_iff x _ _ []).0 h in cc, λ h. absurd h)
  mutate_containers_iff client (x ∷ xs) (y ∷ ys) = (
    λ h.
        let (name, zs, e, f, g) = (set_image_iff x _ _ (y ∷ ys)).0 h in
        let same : y ≡ record { image = name; others = x.others } = cc in
        let same_rest : ys ≡ zs = cc in
        (
          rw same ((lookup_iff client x.image name).0 e),
          ap (λ c. c.others) same,
          (mutate_containers_iff client xs ys).0 (rw same_rest f),
        ),
    λ (r, o, m). (set_image_iff x _ _ (y ∷ ys)).1 (
      y.image,
      ys,
      (lookup_iff client x.image y.image).1 r,
      (mutate_containers_iff client xs ys).1 m,
      rw (sym o) refl,
    ),
  )
