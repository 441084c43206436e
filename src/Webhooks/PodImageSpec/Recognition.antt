-- ===== src/Webhooks/PodImageSpec/Recognition.antt =====
-- What pkg/webhooks/podimagespec recognises as a reference to an image of the internal registry.
use Prim.Native.Char.{Char, code}
use Prim.Native.String
use mathlib.Core.Option.{some-injective}
use text.Mathlib.TextEquality.{Char-path}
use text.Mathlib.TextLemmas.{nil-append, cons-append}
use managed_cluster_validati.Base.{sym, ap, ◌∙◌}
use managed_cluster_validati.Webhooks.PodImageSpec.{
  registry_prefix, is_solid, is_word, ImageRef, tag_at, image_at, namespace_at,
  check_container_image_spec_by_regex, put_image, put_namespace, or_else, without_namespace,
  namespace_after,
}
use managed_cluster_validati.Base.{
  String, ◌≡◌, refl, inl, inr, Bool, true, false, Option, none, some, arith, if◌then◌else◌,
  Bool-cases, nat_eq,
}
use managed_cluster_validati.Base.Text.{strip_prefix}
use managed_cluster_validati.Webhooks.PodImageSpec.Reference.{IsSolid, IsWord, single-append}

-- One more character before a text that is split in two.
cons_append :
    (c : Char) (t rest s : String)
    → s ≡ String.◌++◌ t rest
    → String.◌∷◌ c s ≡ String.◌++◌ (String.◌∷◌ c t) rest
cons_append c t rest s e = ap (λ u. String.◌∷◌ c u) e ∙ sym (cons-append c t rest)

-- A separator after an empty text.
separator_append :
    (c d : Char) (s t : String)
    → code c ≡ code d
    → s ≡ t
    → String.◌∷◌ c s ≡ String.◌++◌ "" (String.◌++◌ (String.◌∷◌ d "") t)
separator_append c d s t h e =
    let same : c ≡ d = Char-path c d h in
    rw (same, e) (sym (nil-append (String.◌++◌ (String.◌∷◌ d "") t) ∙ single-append d t))

tag_at_lem : (s : String) → (rest : String) × (s ≡ String.◌++◌ (tag_at s) rest) × IsSolid (tag_at s)
unfolding tag_at
tag_at_lem String.[] = ("", sym (nil-append ""), tt)
tag_at_lem (String.◌∷◌ c s) = elim (Bool-cases (is_solid (code c))) [
  | inl solid ↦
      let (rest, e, h) = tag_at_lem s in
      rw solid (rest, cons_append c (tag_at s) rest s e, (solid, h))
  | inr other ↦ rw other (String.◌∷◌ c s, sym (nil-append (String.◌∷◌ c s)), tt)
]

-- What is left of a text after an image and a tag, and after a namespace too.
abbrev IsImageAt : String → Option (String × String) → Type 0
IsImageAt s none = Unit
IsImageAt s (some (image, tag)) =
    (rest : String) × (s ≡ String.◌++◌ image (String.◌++◌ ":" (String.◌++◌ tag rest)))
    × IsWord image
    × IsSolid tag

put_image_lem :
    (c : Char) (s : String) (found : Option (String × String))
    → is_word (code c) ≡ true
    → IsImageAt s found
    → IsImageAt (String.◌∷◌ c s) (put_image c found)
put_image_lem c s none h k = tt
put_image_lem c s (some (image, tag)) h (rest, e, i, t) =
    (rest, cons_append c image (String.◌++◌ ":" (String.◌++◌ tag rest)) s e, (h, i), t)

image_at_lem : (s : String) → IsImageAt s (image_at s)
unfolding image_at
image_at_lem String.[] = tt
image_at_lem (String.◌∷◌ c s) = elim (Bool-cases (is_word (code c))) [
  | inl word ↦ rw word (put_image_lem c s (image_at s) word (image_at_lem s))
  | inr no_word ↦ elim (Bool-cases (nat_eq (code c) 58)) [
    | inl colon ↦
        let (rest, e, h) = tag_at_lem s in
        rw (no_word, colon)
          (rest, separator_append c _ s (String.◌++◌ (tag_at s) rest) (ground arith) e, tt, h)
    | inr other ↦ rw (no_word, other) tt
  ]
]

abbrev pub IsPathAt : String → Option ImageRef → Type 0
IsPathAt s none = Unit
IsPathAt s (some ref) =
    (rest : String) × (s
      ≡ String.◌++◌ ref.namespace
          (String.◌++◌ "/" (String.◌++◌ ref.image (String.◌++◌ ":" (String.◌++◌ ref.tag rest)))))
    × IsSolid ref.namespace
    × IsWord ref.image
    × IsSolid ref.tag

put_namespace_lem :
    (c : Char) (s : String) (found : Option ImageRef)
    → is_solid (code c) ≡ true
    → IsPathAt s found
    → IsPathAt (String.◌∷◌ c s) (put_namespace c found)
put_namespace_lem c s none h k = tt
put_namespace_lem c s (some ref) h (rest, e, n, i, t) =
    (rest, cons_append c ref.namespace _ s e, (h, n), i, t)

without_namespace_lem :
    (c : Char) (s : String) (found : Option (String × String))
    → nat_eq (code c) 47 ≡ true
    → IsImageAt s found
    → IsPathAt (String.◌∷◌ c s) (without_namespace found)
without_namespace_lem c s none h k = tt
without_namespace_lem c s (some (image, tag)) h (rest, e, i, t) = (
  rest,
  separator_append c _ s (String.◌++◌ image (String.◌++◌ ":" (String.◌++◌ tag rest))) (ground arith)
      e,
  tt,
  i,
  t,
)

or_else_lem :
    (s : String) (first second : Option ImageRef)
    → IsPathAt s first
    → IsPathAt s second
    → IsPathAt s (or_else first second)
or_else_lem s none second h k = k
or_else_lem s (some ref) second h k = h

IsPathAt-if :
    (b : Bool) (s : String) (found : Option ImageRef)
    → (b ≡ true → IsPathAt s found)
    → IsPathAt s (if b then found else none)
IsPathAt-if true s found h = h refl
IsPathAt-if false s found h = tt

namespace_at_lem : (s : String) → IsPathAt s (namespace_at s)
unfolding namespace_at
namespace_at_lem String.[] = tt
namespace_at_lem (String.◌∷◌ c s) =
    or_else_lem (String.◌∷◌ c s) _ _
      (IsPathAt-if (is_solid (code c)) (String.◌∷◌ c s) (put_namespace c (namespace_at s))
        (λ h. put_namespace_lem c s (namespace_at s) h (namespace_at_lem s)))
      (IsPathAt-if (nat_eq (code c) 47) (String.◌∷◌ c s) (without_namespace (image_at s))
        (λ h. without_namespace_lem c s (image_at s) h (image_at_lem s)))

strip_prefix_lem : (p s rest : String) → strip_prefix s p ≡ some rest → s ≡ String.◌++◌ p rest
unfolding strip_prefix
strip_prefix_lem String.[] s rest e = some-injective s rest e ∙ sym (nil-append rest)
strip_prefix_lem (String.◌∷◌ d p) String.[] rest e = cc
strip_prefix_lem (String.◌∷◌ d p) (String.◌∷◌ c s) rest e =
    elim (Bool-cases (nat_eq (code c) (code d))) [
      | inl same ↦
          let c_is_d : c ≡ d = Char-path c d (ground arith) in
          rw c_is_d (cons_append d p rest s (strip_prefix_lem p s rest (rw same at e)))
      | inr other ↦ cc (rw other at e)
    ]

IsPathAt-of :
    (s : String) (found : Option ImageRef) (ref : ImageRef)
    → found ≡ some ref
    → IsPathAt s found
    → IsPathAt s (some ref)
IsPathAt-of s found ref e h = rw e at h

after_lem :
    (imagespec : String) (stripped : Option String) (ref : ImageRef)
    → strip_prefix imagespec registry_prefix ≡ stripped
    → namespace_after stripped ≡ some ref
    → (path : String) × (imagespec ≡ String.◌++◌ registry_prefix path) × IsPathAt path (some ref)
after_lem imagespec none ref e h = cc
after_lem imagespec (some path) ref e h = (
  path,
  strip_prefix_lem registry_prefix imagespec path e,
  IsPathAt-of path (namespace_at path) ref h (namespace_at_lem path),
)

-- What is recognised is there: the text begins with the registry, the namespace, a slash, the image,
-- a colon and the tag that are reported. The namespace and the tag hold no white space, and the image
-- holds letters, digits and underscores only.
pub check_lem :
    (imagespec : String) (ref : ImageRef)
    → check_container_image_spec_by_regex imagespec ≡ some ref
    → (path : String) × (imagespec ≡ String.◌++◌ registry_prefix path) × IsPathAt path (some ref)
unfolding check_container_image_spec_by_regex
check_lem imagespec ref h = after_lem imagespec (strip_prefix imagespec registry_prefix) ref refl h
