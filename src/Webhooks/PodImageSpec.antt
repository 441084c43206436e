-- ===== src/Webhooks/PodImageSpec.antt =====
-- pkg/webhooks/podimagespec/podimagespec.go: pods run with the images of the openshift namespace also
-- where the internal image registry is removed. Each request has a webhook of its own, so the hook
-- starts without a client.
pub mod Reference
pub mod Mutation
pub mod Patch
pub mod Recognition
use Prim.Native.Char.{Char, code}
use Prim.Native.String
use managed_cluster_validati.Admission.{Attempt}
use managed_cluster_validati.Base.{
  ℕ, String, ◌≡◌, refl, ◌≢◌, ◌↔◌, ◌⊎◌, inl, inr, Bool, true, false, not, ◌&&◌, ◌||◌, Option, none,
  some, List, [], ◌∷◌, ◌++◌, arith, any, Any, any_iff, any-eq_iff, contains, contains_iff, Member,
  ◌==◌, eq_iff, if◌then◌else◌, Bool-cases, length, nat_eq, ltb, leb, or-true,
}
use managed_cluster_validati.Base.Text.{
  concat, print_list, has_prefix, has_substring, split, join, join_with, codes, strip_prefix,
}
use managed_cluster_validati.Regex.{
  Regex, begin, end, any_char, seq, alt, star, chars, exactly, starting, optional, match,
}
use managed_cluster_validati.Regex.Shapes.{
  match-exactly, match-exactly_eq, match-starting, match-alt, match-chars,
}
use managed_cluster_validati.Admission.{
  Operation, create, update, delete, connect, is_create, is_update, is_delete, Request, Response,
  Verdict, allow, deny, errored, validation, is_allowed, answer, bad_request, Outcome, returned,
  panicked, allows, Result, ok, fail, Decoder,
}
use managed_cluster_validati.Utils.{
  request_matches_group_kind, regex_slice_contains, webhook_response,
  privileged_service_account_groups, has_privileged_group, protected_names,
  is_protected_by_resource_name,
}
use managed_cluster_validati.Utils.Matching.{
  IsPrivilegedGroup, has_privileged_group_iff, is_protected_by_resource_name_iff,
}
use managed_cluster_validati.Config.{is_privileged_namespace, privileged_namespace_texts}
use managed_cluster_validati.Config.Namespaces.{IsPrivilegedNamespace, is_privileged_namespace_iff}
use managed_cluster_validati.Webhook.{Rule, LabelSelector, Webhook, default_label_selector}

-- ^(image-registry\.openshift-image-registry\.svc:5000\/)(?P<namespace>\S*)(/)(?P<image>\w*)(:)(?P<tag>\S*)
-- Its captures are found from left to right, each as long as the rest of the pattern lets it be.
abbrev pub registry_prefix : String
registry_prefix = "image-registry.openshift-image-registry.svc:5000/"

-- `\S`: no tab, newline, form feed, carriage return or blank.
abbrev pub is_solid : ℕ → Bool
is_solid c = not (nat_eq c 9 || (nat_eq c 10 || (nat_eq c 12 || (nat_eq c 13 || nat_eq c 32))))

-- `\w`: a digit, a letter or an underscore.
abbrev pub is_word : ℕ → Bool
is_word c =
    (leb 48 c && leb c 57) || ((leb 65 c && leb c 90) || ((leb 97 c && leb c 122) || nat_eq c 95))

pub record ImageRef : Type 0 where
  pub namespace : String
  pub image : String
  pub tag : String

abbrev pub put_image : Char → Option (String × String) → Option (String × String)
put_image c none = none
put_image c (some (image, tag)) = some (String.◌∷◌ c image, tag)

abbrev pub put_namespace : Char → Option ImageRef → Option ImageRef
put_namespace c none = none
put_namespace c (some ref) =
    some (record { namespace = String.◌∷◌ c ref.namespace; image = ref.image; tag = ref.tag })

abbrev pub or_else : Option ImageRef → Option ImageRef → Option ImageRef
or_else none other = other
or_else (some ref) other = some ref

abbrev pub without_namespace : Option (String × String) → Option ImageRef
without_namespace none = none
without_namespace (some (image, tag)) = some (record { namespace = ""; image = image; tag = tag })

-- `(?P<tag>\S*)`
unfoldable pub tag_at : String → String
tag_at String.[] = ""
tag_at (String.◌∷◌ c s) = let rest = tag_at s in if is_solid (code c) then String.◌∷◌ c rest else ""

-- `(?P<image>\w*)(:)(?P<tag>\S*)`
unfoldable pub image_at : String → Option (String × String)
unfolding tag_at
image_at String.[] = none
image_at (String.◌∷◌ c s) =
    let rest = image_at s in
    if is_word (code c)
    then put_image c rest
    else if nat_eq (code c) 58
    then some ("", tag_at s)
    else none

-- `(?P<namespace>\S*)(/)…`
unfoldable pub namespace_at : String → Option ImageRef
unfolding image_at
namespace_at String.[] = none
namespace_at (String.◌∷◌ c s) =
    let longer = namespace_at s in
    or_else (if is_solid (code c) then put_namespace c longer else none)
      (if nat_eq (code c) 47 then without_namespace (image_at s) else none)

abbrev pub namespace_after : Option String → Option ImageRef
namespace_after none = none
namespace_after (some rest) = namespace_at rest

-- No match is `false` with three empty texts in the source.
unfoldable pub check_container_image_spec_by_regex : String → Option ImageRef
check_container_image_spec_by_regex imagespec =
    namespace_after (strip_prefix imagespec registry_prefix)

-- `A` is what else a container holds, `B` what else a pod holds.
pub record Container (A : Type 0) : Type 0 where
  pub image : String
  pub others : A

pub record Pod (A B : Type 0) : Type 0 where
  pub containers : List (Container A)
  pub init_containers : List (Container A)
  pub others : B

-- The reads of the cluster: the management state of the image registry's config, and the name that
-- `Tag.From.Name` of the ImageStreamTag has under two pointers. What the calls answer while one
-- request is served is a parameter.
pub record KubeClient : Type 0 where
  pub registry_state : Result String
  pub image_stream_tag : String → String → Result (Option (Option String))

pub record Platform (A B : Type 0) : Type 0 where
  pub new_client : Result KubeClient
  pub decoder : Decoder (Pod A B)
  pub marshal : Pod A B → Result String
  pub complete : Request → Response → Result Response

abbrev pub is_openshift : Option ImageRef → Bool
is_openshift none = false
is_openshift (some ref) = ref.namespace == "openshift"

abbrev pub read_tag : Result (Option (Option String)) → Attempt String
read_tag (fail err) = Attempt.failed (concat ("failed to get image spec: " ∷ err ∷ []))
read_tag (ok none) = Attempt.crashed
read_tag (ok (some none)) = Attempt.crashed
read_tag (ok (some (some name))) = Attempt.done name

abbrev pub lookup_ref : KubeClient → String → Option ImageRef → Attempt String
lookup_ref client imagespec none = Attempt.done imagespec
lookup_ref client imagespec (some ref) =
    read_tag (client.image_stream_tag (concat (ref.image ∷ ":" ∷ ref.tag ∷ [])) ref.namespace)

unfoldable pub lookup_image_stream_tag_spec : KubeClient → String → Attempt String
lookup_image_stream_tag_spec client imagespec =
    lookup_ref client imagespec (check_container_image_spec_by_regex imagespec)

abbrev pub check_state : Result String → Result Bool
check_state (fail err) = fail (concat ("failed to get image registry config: " ∷ err ∷ []))
check_state (ok state) = ok (state == "Managed")

unfoldable pub check_image_registry_status : KubeClient → Result Bool
check_image_registry_status client = check_state client.registry_state

abbrev pub patch_with : Request → Attempt String → Outcome
patch_with request (Attempt.failed err) = returned (answer request (errored 500 err))
patch_with request Attempt.crashed = panicked
patch_with request (Attempt.done mutated) =
    returned (answer request (Verdict.patched_from_raw request.object mutated))

abbrev pub completed : Request → Result Response → Response
completed request (ok response) = response
completed request (fail err) = answer request (errored 500 err)

abbrev pub written : Result String → Attempt String
written (fail err) = Attempt.failed err
written (ok text) = Attempt.done text

module _ {A : Type 0} where
  unfoldable pub has_openshift_image : Container A → Bool
  unfolding check_container_image_spec_by_regex
  has_openshift_image container = is_openshift (check_container_image_spec_by_regex container.image)

  abbrev pub set_image :
      Container A → Attempt String → Attempt (List (Container A)) → Attempt (List (Container A))
  set_image container (Attempt.failed err) rest = Attempt.failed err
  set_image container Attempt.crashed rest = Attempt.crashed
  set_image container (Attempt.done image) (Attempt.failed err) = Attempt.failed err
  set_image container (Attempt.done image) Attempt.crashed = Attempt.crashed
  set_image container (Attempt.done image) (Attempt.done containers) =
      Attempt.done (record { image = image; others = container.others } ∷ containers)

  -- The loop over one list of containers.
  unfoldable pub mutate_containers : KubeClient → List (Container A) → Attempt (List (Container A))
  unfolding lookup_image_stream_tag_spec
  mutate_containers client [] = Attempt.done []
  mutate_containers client (container ∷ containers) =
      set_image container (lookup_image_stream_tag_spec client container.image)
        (mutate_containers client containers)

module _ {A B : Type 0} where
  unfoldable pub pod_contains_container_regex_match : Pod A B → Bool
  unfolding has_openshift_image any
  pod_contains_container_regex_match pod =
      any has_openshift_image pod.containers || any has_openshift_image pod.init_containers

  abbrev pub with_containers :
      Pod A B → Attempt (List (Container A)) → Attempt (List (Container A)) → Attempt (Pod A B)
  with_containers pod (Attempt.failed err) inits = Attempt.failed err
  with_containers pod Attempt.crashed inits = Attempt.crashed
  with_containers pod (Attempt.done containers) (Attempt.failed err) = Attempt.failed err
  with_containers pod (Attempt.done containers) Attempt.crashed = Attempt.crashed
  with_containers pod (Attempt.done containers) (Attempt.done init_containers) =
      Attempt.done
        (record { containers = containers; init_containers = init_containers; others = pod.others })

  abbrev pub marshalled : (Pod A B → Result String) → Attempt (Pod A B) → Attempt String
  marshalled marshal (Attempt.failed err) = Attempt.failed err
  marshalled marshal Attempt.crashed = Attempt.crashed
  marshalled marshal (Attempt.done pod) = written (marshal pod)

  unfoldable pub mutate_pod : KubeClient → (Pod A B → Result String) → Pod A B → Attempt String
  unfolding mutate_containers
  mutate_pod client marshal pod = marshalled marshal (
      with_containers pod (mutate_containers client pod.containers)
        (mutate_containers client pod.init_containers))

  abbrev pub after_status : Platform A B → KubeClient → Request → Pod A B → Result Bool → Outcome
  after_status platform client request pod (fail err) = returned (answer request (errored 500 err))
  after_status platform client request pod (ok available) =
      if available
      then returned (answer request (allow "Image registry is available, no mutation required"))
      else patch_with request (mutate_pod client platform.marshal pod)

  abbrev pub after_pod : Platform A B → KubeClient → Request → Result (Pod A B) → Outcome
  after_pod platform client request (fail err) = returned (answer request (errored 400 err))
  after_pod platform client request (ok pod) =
      if not (pod_contains_container_regex_match pod)
      then returned (answer request (allow "Pod image spec is valid"))
      else after_status platform client request pod (check_image_registry_status client)

  -- `renderPod`
  unfoldable pub render_pod : Platform A B → Request → Result (Pod A B)
  render_pod platform request = platform.decoder.decode_raw request.object

  abbrev pub after_client : Platform A B → Request → Result KubeClient → Outcome
  after_client platform request (fail err) = returned (answer request (errored 400 err))
  after_client platform request (ok client) =
      after_pod platform client request (render_pod platform request)

  -- The client that the webhook holds is made when it has none.
  abbrev pub kube_client : Platform A B → Option KubeClient → Result KubeClient
  kube_client platform none = platform.new_client
  kube_client platform (some client) = ok client

  unfoldable pub authorize : Platform A B → Option KubeClient → Request → Outcome
  unfolding mutate_pod pod_contains_container_regex_match check_image_registry_status render_pod
  authorize platform held request = after_client platform request (kube_client platform held)

  abbrev pub complete_with : Platform A B → Request → Outcome → Outcome
  complete_with platform request panicked = panicked
  complete_with platform request (returned response) =
      returned (completed request (platform.complete request response))

  unfoldable pub authorized : Platform A B → Option KubeClient → Request → Outcome
  unfolding authorize
  authorized platform held request =
      complete_with platform request (authorize platform held request)

unfoldable pub validate : Request → Bool
validate request = not (request.username == "") && (request.kind == "Pod")

abbrev rules : List Rule
rules =
    record {
      operations = "CREATE" ∷ [];
      api_groups = "" ∷ [];
      api_versions = "v1" ∷ [];
      resources = "pods" ∷ [];
      scope = "Namespaced";
    }
    ∷ []

abbrev pub hook : {A B : Type 0} → Platform A B → Webhook
hook platform = record {
  authorized = authorized platform none;
  uri = "/podimagespec-mutation";
  validate = validate;
  name = "podimagespec-mutation";
  failure_policy = "Ignore";
  match_policy = "Equivalent";
  rules = rules;
  object_selector = none;
  side_effects = "None";
  timeout_seconds = 2;
  sync_set_label_selector = default_label_selector;
  classic_enabled = false;
  hypershift_enabled = true;
}
