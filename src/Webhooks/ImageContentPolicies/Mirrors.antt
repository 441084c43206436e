-- ===== src/Webhooks/ImageContentPolicies/Mirrors.antt =====
-- The sources that are refused as a mirror.
use Prim.Native.Char.{code}
use mathlib.Core.Option.{some-injective}
use managed_cluster_validati.Base.{sym, ◌∙◌}
use managed_cluster_validati.Regex.{run, repeat, accepted}
use managed_cluster_validati.Regex.Shapes.{match-begin, run-chars, after}
use managed_cluster_validati.Webhooks.ImageContentPolicies.{
  below, quay_pattern, access_pattern, Mirror, Decoders, is_unauthorized, authorized,
  authorize_image_digest_mirror_set, authorize_image_tag_mirror_set,
  authorize_image_content_source_policy, decide, webhook_doc,
}
use managed_cluster_validati.Base.{
  ℕ, String, ◌≡◌, refl, ◌≢◌, ◌↔◌, ◌⊎◌, inl, inr, Bool, true, false, not, ◌&&◌, Option, none, some,
  List, [], ◌∷◌, arith, any, Any, any_iff, ◌==◌, if◌then◌else◌, Bool-cases, nat_eq, or-true,
}
use managed_cluster_validati.Base.Text.{has_prefix, codes, strip_prefix}
use managed_cluster_validati.Regex.{end, any_char, seq, alt, star, chars, exactly, match}
use managed_cluster_validati.Regex.Shapes.{match-exactly, match-alt}
use managed_cluster_validati.Admission.{
  ok-injective, Request, Response, is_allowed, bad_request, Result, ok, fail,
}
use managed_cluster_validati.Utils.{webhook_response}

-- No newline, which `.` does not match.
abbrev pub is_line : List ℕ → Bool
is_line [] = true
is_line (c ∷ s) = not (nat_eq c 10) && is_line s

-- What `(/.*)?$` leaves: nothing, or a slash and the rest of a line.
abbrev pub IsPath : String → Type 0
IsPath String.[] = Unit
IsPath (String.◌∷◌ c s) = (code c ≡ 47) × (is_line (codes s) ≡ true)

run_line :
    (b : Bool) (s : List ℕ) → run (star any_char) b s (λ b' s'. run end b' s' accepted) ≡ is_line s
unfolding run repeat
run_line b [] = refl
run_line b (c ∷ s) = rw (run_line false s) (ground arith)

abbrev path_at : List ℕ → Bool
path_at s = run below true s (λ b' s'. run end b' s' accepted)

path_at-codes : (path : String) → (path_at (codes path) ≡ true) ↔ IsPath path
unfolding run
path_at-codes String.[] = (λ h. tt, λ h. refl)
path_at-codes (String.◌∷◌ c s) =
    let line : run (star any_char) false (codes s) (λ b' s'. run end b' s' accepted)
        ≡ is_line (codes s) =
      run_line false (codes s) in
    ground arith

after_iff :
    (k : List ℕ → Bool) (o : Option String)
    → (after k o ≡ true) ↔ ((rest : String) × (o ≡ some rest) × (k (codes rest) ≡ true))
after_iff k none = (λ h. cc, λ (rest, e, h). cc)
after_iff k (some rest) =
    (λ h. (rest, refl, h), λ (rest', e, h). rw (some-injective rest rest' e) h)

match-quay :
    (s : String)
    → (match quay_pattern s ≡ true)
      ↔ ((path : String) × (strip_prefix s "quay.io" ≡ some path) × IsPath path)
unfolding run
match-quay s = rw (match-begin (seq (chars "quay.io") (seq below end)) s) (
    rw (run-chars "quay.io" s true path_at) (
      λ h.
          let found = (after_iff path_at (strip_prefix s "quay.io")).0 h in
          (found.0, found.1, (path_at-codes found.0).0 found.2),
      λ (path, e, p).
          (after_iff path_at (strip_prefix s "quay.io")).1 (path, e, (path_at-codes path).1 p),
    ))

after-true :
    (k : List ℕ → Bool)
    → ((s : List ℕ) → k s ≡ true)
    → (p s : String) → after k (strip_prefix s p) ≡ has_prefix s p
unfolding strip_prefix has_prefix
after-true k h String.[] s = h (codes s)
after-true k h (String.◌∷◌ d p) String.[] = refl
after-true k h (String.◌∷◌ d p) (String.◌∷◌ c s) = rw (sym (after-true k h p s)) (ground arith)

abbrev below_at : List ℕ → Bool
below_at s = run below true s accepted

match-access : (s : String) → match access_pattern s ≡ has_prefix s "registry.access.redhat.com"
unfolding run
match-access s = rw (match-begin (seq (chars "registry.access.redhat.com") below) s) (
    run-chars "registry.access.redhat.com" s true below_at
    ∙ after-true below_at (λ s'. or-true (run (seq (chars "/") (star any_char)) true s' accepted))
        "registry.access.redhat.com" s)

-- The source of a mirror that must not be configured.
abbrev pub IsSystemSource : String → Type 0
IsSystemSource source =
    (source ≡ "registry.redhat.io")
    ⊎ ((path : String) × (strip_prefix source "quay.io" ≡ some path) × IsPath path)
    ⊎ (has_prefix source "registry.access.redhat.com" ≡ true)

pub is_unauthorized_iff :
    (mirror : Mirror) → (is_unauthorized mirror ≡ true) ↔ IsSystemSource mirror.source
is_unauthorized_iff mirror =
    rw
      (
        match-alt (exactly "registry.redhat.io") (alt quay_pattern access_pattern) mirror.source,
        match-alt quay_pattern access_pattern mirror.source,
        match-access mirror.source,
      )
      (ground (arith, match-exactly "registry.redhat.io" mirror.source, match-quay mirror.source))

-- The mirrors of the object that a request carries, for each kind of request.
abbrev of_object : {A : Type 0} → (A → List Mirror) → Result A → Result (List Mirror)
of_object mirrors (fail err) = fail err
of_object mirrors (ok object) = ok (mirrors object)

abbrev pub mirrors_of : Decoders → Request → Result (List Mirror)
mirrors_of decoders request =
    if request.request_kind == "ImageDigestMirrorSet"
    then of_object (λ object. object.image_digest_mirrors) (decoders.idms.decode_raw request.object)
    else if request.request_kind == "ImageTagMirrorSet"
    then of_object (λ object. object.image_tag_mirrors) (decoders.itms.decode_raw request.object)
    else if request.request_kind == "ImageContentSourcePolicy"
    then of_object (λ object. object.repository_digest_mirrors)
        (decoders.icsp.decode_raw request.object)
    else ok []

-- What is answered for the mirrors of a request.
abbrev verdict_on : Request → Result (List Mirror) → Response
verdict_on request (fail err) = bad_request err
verdict_on request (ok mirrors) =
    if any is_unauthorized mirrors
    then webhook_response request false webhook_doc
    else webhook_response request true ""

decide_lem :
    {A : Type 0} (mirrors : A → List Mirror) (request : Request) (result : Result A)
    → decide (λ object. not (any is_unauthorized (mirrors object))) request result
      ≡ verdict_on request (of_object mirrors result)
decide_lem mirrors request (fail err) = refl
decide_lem mirrors request (ok object) = ground arith

authorized-mirrors :
    (decoders : Decoders) (request : Request)
    → authorized decoders request ≡ verdict_on request (mirrors_of decoders request)
unfolding authorized authorize_image_digest_mirror_set authorize_image_tag_mirror_set
    authorize_image_content_source_policy any
authorized-mirrors decoders request = ground (
  arith,
  decide_lem (λ object. object.image_digest_mirrors) request
      (decoders.idms.decode_raw request.object),
  decide_lem (λ object. object.image_tag_mirrors) request (decoders.itms.decode_raw request.object),
  decide_lem (λ object. object.repository_digest_mirrors) request
      (decoders.icsp.decode_raw request.object),
)

false-ne-true : ◌≢◌ {A = Bool} false true
false-ne-true e = cc

verdict_iff :
    (request : Request) (result : Result (List Mirror))
    → (is_allowed (verdict_on request result).verdict ≡ true) ↔ (
        (mirrors : List Mirror) × (result ≡ ok mirrors)
        × ¬ Any (λ mirror. IsSystemSource mirror.source) mirrors)
unfolding webhook_response
verdict_iff request (fail err) = (λ h. cc, λ (mirrors, e, h). cc)
verdict_iff request (ok mirrors) =
    let found =
      any_iff is_unauthorized {P = λ mirror. IsSystemSource mirror.source} is_unauthorized_iff
        mirrors in
    elim (Bool-cases (any is_unauthorized mirrors)) [
      | inl bad ↦ rw bad (
        λ h. cc,
        λ (mirrors', e, none_bad). absurd (none_bad (rw (ok-injective e) at (found.0 bad))),
      )
      | inr fine ↦
          rw fine (λ h. (mirrors, refl, λ m. false-ne-true (sym fine ∙ found.1 m)), λ _. refl)
    ]

-- A request is allowed exactly when its object decodes as the kind of the original request, or this
-- is none of the three kinds, and no mirror it configures has a system registry as its source: the
-- text `registry.redhat.io`, `quay.io` alone or followed by a slash and one line, or any text that
-- begins with `registry.access.redhat.com`.
pub image_content_policies_authorized_iff :
    (decoders : Decoders) (request : Request)
    → (is_allowed (authorized decoders request).verdict ≡ true) ↔ (
        (mirrors : List Mirror) × (mirrors_of decoders request ≡ ok mirrors)
        × ¬ Any (λ mirror. IsSystemSource mirror.source) mirrors)
image_content_policies_authorized_iff decoders request =
    rw (authorized-mirrors decoders request) (verdict_iff request (mirrors_of decoders request))
