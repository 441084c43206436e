-- ===== src/Webhooks/PodImageSpec/Patch.antt =====
-- The pods that pkg/webhooks/podimagespec lets through with other images.
use mathlib.Core.Option.{some-injective}
use managed_cluster_validati.Base.{sym}
use managed_cluster_validati.Admission.{ok-injective, Attempt}
use managed_cluster_validati.Webhooks.PodImageSpec.{
  ImageRef, check_container_image_spec_by_regex, Container, Pod, KubeClient, Platform, check_state,
  check_image_registry_status, patch_with, has_openshift_image, is_openshift,
  pod_contains_container_regex_match, with_containers, marshalled, written, mutate_pod,
  after_status, after_pod, render_pod, after_client, kube_client, authorize,
}
use managed_cluster_validati.Base.{
  String, ◌≡◌, refl, ◌≢◌, ◌↔◌, ◌⊎◌, inl, inr, Bool, true, false, Option, none, some, List, arith,
  Any, any_iff, ◌==◌, eq_iff, Bool-cases,
}
use managed_cluster_validati.Admission.{
  Request, Verdict, answer, Outcome, returned, Result, ok, fail,
}
use managed_cluster_validati.Webhooks.PodImageSpec.Mutation.{
  AreMutated, mutate_containers_iff, done-injective,
}

RefersTo_iff :
    (found : Option ImageRef)
    → (is_openshift found ≡ true)
      ↔ ((ref : ImageRef) × (found ≡ some ref) × (ref.namespace ≡ "openshift"))
RefersTo_iff none = (λ h. cc, λ (ref, e, _). cc)
RefersTo_iff (some ref) = (
  λ h. (ref, refl, (eq_iff ref.namespace "openshift").0 h),
  λ (ref', e, h). rw (some-injective ref ref' e) ((eq_iff ref'.namespace "openshift").1 h),
)

check_state_iff :
    (result : Result String)
    → (check_state result ≡ ok false)
      ↔ ((state : String) × (result ≡ ok state) × (state ≢ "Managed"))
check_state_iff (fail err) = (λ h. cc, λ (_, e, _). cc)
check_state_iff (ok state) = (
  λ h.
      let stopped : (state == "Managed") ≡ false = cc in
      (state, refl, λ e. ground (arith, eq_iff state "Managed")),
  λ (state', e, h).
      let same : state ≡ state' = ok-injective e in
      let stopped : (state' == "Managed") ≡ false = ground (arith, eq_iff state' "Managed") in
      rw (same, stopped) refl,
)

module _ {A : Type 0} where
  -- A container whose image is one of the namespace openshift in the internal registry.
  abbrev pub IsOpenshift : Container A → Type 0
  IsOpenshift container =
      (ref : ImageRef) × (check_container_image_spec_by_regex container.image ≡ some ref)
      × (ref.namespace ≡ "openshift")

  has-IsOpenshift_iff :
      (container : Container A) → (has_openshift_image container ≡ true) ↔ IsOpenshift container
  unfolding has_openshift_image
  has-IsOpenshift_iff container = RefersTo_iff (check_container_image_spec_by_regex container.image)

written_iff :
    (result : Result String) (text : String)
    → (written result ≡ Attempt.done text) ↔ (result ≡ ok text)
written_iff (fail err) text = (λ h. cc, λ h. cc)
written_iff (ok text') text = (λ h. cc, λ h. cc)

module _ {A B : Type 0} where
  abbrev pub HasOpenshift : Pod A B → Type 0
  HasOpenshift pod = Any IsOpenshift pod.containers ⊎ Any IsOpenshift pod.init_containers

  pod_contains_iff :
      (pod : Pod A B) → (pod_contains_container_regex_match pod ≡ true) ↔ HasOpenshift pod
  unfolding pod_contains_container_regex_match
  pod_contains_iff pod =
      let inner =
        any_iff has_openshift_image {P = IsOpenshift} has-IsOpenshift_iff pod.containers in
      let inits =
        any_iff has_openshift_image {P = IsOpenshift} has-IsOpenshift_iff pod.init_containers in
      ground (arith, inner, inits)

  -- The text of a pod whose containers have been mutated.
  abbrev pub IsMutation : KubeClient → (Pod A B → Result String) → Pod A B → String → Type 0
  IsMutation client marshal pod text =
      (xs : List (Container A)) × (ys : List (Container A)) × AreMutated client pod.containers xs
      × AreMutated client pod.init_containers ys
      × (marshal (record { containers = xs; init_containers = ys; others = pod.others }) ≡ ok text)

  with_containers_iff :
      (pod mutated : Pod A B) (a b : Attempt (List (Container A)))
      → (with_containers pod a b ≡ Attempt.done mutated) ↔ (
          (xs : List (Container A)) × (ys : List (Container A)) × (a ≡ Attempt.done xs)
          × (b ≡ Attempt.done ys)
          × (mutated ≡ record { containers = xs; init_containers = ys; others = pod.others }))
  with_containers_iff pod mutated (Attempt.failed err) b = (λ h. cc, λ (_, _, h, _, _). cc)
  with_containers_iff pod mutated Attempt.crashed b = (λ h. cc, λ (_, _, h, _, _). cc)
  with_containers_iff pod mutated (Attempt.done xs) (Attempt.failed err) =
      (λ h. cc, λ (_, _, _, h, _). cc)
  with_containers_iff pod mutated (Attempt.done xs) Attempt.crashed =
      (λ h. cc, λ (_, _, _, h, _). cc)
  with_containers_iff pod mutated (Attempt.done xs) (Attempt.done ys) = (
    λ h. (xs, ys, refl, refl, sym (done-injective h)),
    λ (xs', ys', e, f, g). rw (g, done-injective e, done-injective f) refl,
  )

  marshalled_iff :
      (marshal : Pod A B → Result String) (a : Attempt (Pod A B)) (text : String)
      → (marshalled marshal a ≡ Attempt.done text)
        ↔ ((mutated : Pod A B) × (a ≡ Attempt.done mutated) × (marshal mutated ≡ ok text))
  marshalled_iff marshal (Attempt.failed err) text = (λ h. cc, λ (_, h, _). cc)
  marshalled_iff marshal Attempt.crashed text = (λ h. cc, λ (_, h, _). cc)
  marshalled_iff marshal (Attempt.done mutated) text = (
    λ h. (mutated, refl, (written_iff (marshal mutated) text).0 h),
    λ (m, e, f). rw (done-injective e) ((written_iff (marshal m) text).1 f),
  )

  mutate_pod_iff :
      (client : KubeClient) (marshal : Pod A B → Result String) (pod : Pod A B) (text : String)
      → (mutate_pod client marshal pod ≡ Attempt.done text) ↔ IsMutation client marshal pod text
  unfolding mutate_pod
  mutate_pod_iff client marshal pod text = (
    λ h.
        let (mutated, e, f) = (marshalled_iff marshal _ text).0 h in
        let (xs, ys, a, b, g) = (with_containers_iff pod mutated _ _).0 e in
        (
          xs,
          ys,
          (mutate_containers_iff client pod.containers xs).0 a,
          (mutate_containers_iff client pod.init_containers ys).0 b,
          rw g at f,
        ),
    λ (xs, ys, a, b, f). (marshalled_iff marshal _ text).1 (
      _,
      (with_containers_iff pod _ _ _).1 (
        xs,
        ys,
        (mutate_containers_iff client pod.containers xs).1 a,
        (mutate_containers_iff client pod.init_containers ys).1 b,
        refl,
      ),
      f,
    ),
  )

patch_with_iff :
    (request : Request) (a : Attempt String) (text : String)
    → (patch_with request a
        ≡ returned (answer request (Verdict.patched_from_raw request.object text)))
      ↔ (a ≡ Attempt.done text)
patch_with_iff request (Attempt.failed err) text = (λ h. cc, λ h. cc)
patch_with_iff request Attempt.crashed text = (λ h. cc, λ h. cc)
patch_with_iff request (Attempt.done mutated) text = (λ h. cc, λ h. rw (done-injective h) refl)

module _ {A B : Type 0} (platform : Platform A B) (request : Request) (text : String) where
  abbrev patch : Outcome
  patch = returned (answer request (Verdict.patched_from_raw request.object text))

  after_status_iff :
      (client : KubeClient) (pod : Pod A B) (available : Result Bool)
      → (after_status platform client request pod available ≡ patch)
        ↔ ((available ≡ ok false) × IsMutation client platform.marshal pod text)
  after_status_iff client pod (fail err) = (λ h. cc, λ (h, _). cc)
  after_status_iff client pod (ok true) = (λ h. cc, λ (h, _). cc)
  after_status_iff client pod (ok false) =
      let patched = patch_with_iff request (mutate_pod client platform.marshal pod) text in
      let mutated = mutate_pod_iff client platform.marshal pod text in
      (λ h. (refl, mutated.0 (patched.0 h)), λ (_, m). patched.1 (mutated.1 m))

  after_pod_iff :
      (client : KubeClient) (rendered : Result (Pod A B))
      → (after_pod platform client request rendered ≡ patch) ↔ (
          (pod : Pod A B) × (rendered ≡ ok pod)
          × HasOpenshift pod
          × (check_image_registry_status client ≡ ok false)
          × IsMutation client platform.marshal pod text)
  after_pod_iff client (fail err) = (λ h. cc, λ (_, h, _, _, _). cc)
  after_pod_iff client (ok pod) = elim (Bool-cases (pod_contains_container_regex_match pod)) [
    | inl found ↦
        let rest = after_status_iff client pod (check_image_registry_status client) in
        rw found (
          λ h. (pod, refl, (pod_contains_iff pod).0 found, (rest.0 h).0, (rest.0 h).1),
          λ (pod', e, h, c, m). rest.1 (c, rw (sym (ok-injective e)) at m),
        )
    | inr missing ↦ rw missing (
      λ h. cc,
      λ (pod', e, h, _, _).
          let same : pod ≡ pod' = ok-injective e in
          let found : pod_contains_container_regex_match pod ≡ true =
            rw same ((pod_contains_iff pod').1 h) in
          cc,
    )
  ]

  after_client_iff :
      (made : Result KubeClient)
      → (after_client platform request made ≡ patch) ↔ (
          (client : KubeClient) × (made ≡ ok client)
          × (after_pod platform client request (render_pod platform request) ≡ patch))
  after_client_iff (fail err) = (λ h. cc, λ (_, h, _). cc)
  after_client_iff (ok client) =
      (λ h. (client, refl, h), λ (client', e, h). rw (sym (ok-injective e)) at h)

module _ {A B : Type 0} where
  -- A request is answered with a pod that replaces its own exactly when a client can be had, the pod
  -- decodes, one of its containers has an image of the namespace openshift in the internal registry,
  -- the state of that registry can be read and is not Managed, and the new pod is the old one with each
  -- image that refers to the internal registry replaced by what its image stream tag names.
  pub authorize_patch_iff :
      (platform : Platform A B) (held : Option KubeClient) (request : Request) (text : String)
      → (authorize platform held request
          ≡ returned (answer request (Verdict.patched_from_raw request.object text)))
        ↔ ((client : KubeClient) × (pod : Pod A B) × (state : String) × (kube_client platform held
              ≡ ok client)
            × (platform.decoder.decode_raw request.object ≡ ok pod)
            × HasOpenshift pod
            × (client.registry_state ≡ ok state)
            × (state ≢ "Managed")
            × IsMutation client platform.marshal pod text)
  unfolding authorize check_image_registry_status render_pod
  authorize_patch_iff platform held request text = (
    λ h.
        let (client, made, rest) = (after_client_iff platform request text _).0 h in
        let (pod, decoded, found, stopped, mutated) =
          (after_pod_iff platform request text client _).0 rest in
        let (state, read, unmanaged) = (check_state_iff client.registry_state).0 stopped in
        (client, pod, state, made, decoded, found, read, unmanaged, mutated),
    λ (client, pod, state, made, decoded, found, read, unmanaged, mutated).
        (after_client_iff platform request text _).1 (
          client,
          made,
          (after_pod_iff platform request text client _).1 (
            pod,
            decoded,
            found,
            (check_state_iff client.registry_state).1 (state, read, unmanaged),
            mutated,
          ),
        ),
  )
