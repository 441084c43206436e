-- ===== src/Webhooks/PodImageSpec/Reference.antt =====
-- The references to images of the internal registry, printed and recognised.
use Prim.Native.Char.{Char, code}
use Prim.Native.String
use text.Mathlib.TextLemmas.{nil-append, cons-append}
use managed_cluster_validati.Base.{ap, ◌∙◌}
use managed_cluster_validati.Base.Text.Laws.{Lacks}
use managed_cluster_validati.Webhooks.PodImageSpec.{
  registry_prefix, is_solid, is_word, ImageRef, tag_at, image_at, namespace_at,
  check_container_image_spec_by_regex,
}
use managed_cluster_validati.Base.{ℕ, String, ◌≡◌, refl, true, none, some, arith}
use managed_cluster_validati.Base.Text.{strip_prefix}

abbrev pub IsSolid : String → Type 0
IsSolid String.[] = Unit
IsSolid (String.◌∷◌ c s) = (is_solid (code c) ≡ true) × IsSolid s

abbrev pub IsWord : String → Type 0
IsWord String.[] = Unit
IsWord (String.◌∷◌ c s) = (is_word (code c) ≡ true) × IsWord s

-- What follows the registry of a reference, and what follows its namespace.
abbrev print_image : String → String → String
print_image image tag = String.◌++◌ image (String.◌++◌ ":" tag)

abbrev print_path : String → String → String → String
print_path namespace image tag = String.◌++◌ namespace (String.◌++◌ "/" (print_image image tag))

abbrev pub print_ref : ImageRef → String
print_ref ref = String.◌++◌ registry_prefix (print_path ref.namespace ref.image ref.tag)

tag_of_IsSolid : (s : String) → IsSolid s → tag_at s ≡ s
unfolding tag_at
tag_of_IsSolid String.[] h = refl
tag_of_IsSolid (String.◌∷◌ c s) (h, k) = rw (h, tag_of_IsSolid s k) refl

-- A text of one character before another text.
pub single-append : (c : Char) (s : String) → String.◌++◌ (String.◌∷◌ c "") s ≡ String.◌∷◌ c s
single-append c s = cons-append c "" s ∙ ap (λ t. String.◌∷◌ c t) (nil-append s)

image_at-print :
    (image tag : String)
    → IsWord image
    → IsSolid tag
    → image_at (print_image image tag) ≡ some (image, tag)
unfolding image_at
image_at-print String.[] tag h k =
    rw nil-append (rw (single-append _ tag) (rw (tag_of_IsSolid tag k) refl))
image_at-print (String.◌∷◌ c s) tag (h, g) k =
    rw (cons-append) (rw (h, image_at-print s tag g k) refl)

namespace_at-none : (s : String) → Lacks 47 s → namespace_at s ≡ none
unfolding namespace_at
namespace_at-none String.[] h = refl
namespace_at-none (String.◌∷◌ c s) (h, k) = rw (namespace_at-none s k) (ground arith)

namespace_at-print :
    (namespace rest : String) (image tag : String)
    → IsSolid namespace
    → namespace_at rest ≡ none
    → image_at rest ≡ some (image, tag)
    → namespace_at (String.◌++◌ namespace (String.◌++◌ "/" rest))
      ≡ some (record { namespace = namespace; image = image; tag = tag })
unfolding namespace_at
namespace_at-print String.[] rest image tag s n i =
    rw nil-append (rw (single-append _ rest) (rw (n, i) refl))
namespace_at-print (String.◌∷◌ c s) rest image tag (h, k) n i =
    rw (cons-append) (rw (h, namespace_at-print s rest image tag k n i) refl)

Lacks-append : (sep : ℕ) (s t : String) → Lacks sep s → Lacks sep t → Lacks sep (String.◌++◌ s t)
Lacks-append sep String.[] t h k = rw nil-append k
Lacks-append sep (String.◌∷◌ c s) t (h, g) k = rw cons-append (h, Lacks-append sep s t g k)

Lacks-word : (s : String) → IsWord s → Lacks 47 s
Lacks-word String.[] h = tt
Lacks-word (String.◌∷◌ c s) (h, k) = (λ e. ground arith, Lacks-word s k)

Lacks-print_image :
    (image tag : String) → IsWord image → Lacks 47 tag → Lacks 47 (print_image image tag)
Lacks-print_image image tag h k =
    Lacks-append 47 image (String.◌++◌ ":" tag) (Lacks-word image h)
      (rw (single-append _ tag) (λ e. ground arith, k))

strip_prefix-append : (p s : String) → strip_prefix (String.◌++◌ p s) p ≡ some s
unfolding strip_prefix
strip_prefix-append String.[] s = rw nil-append refl
strip_prefix-append (String.◌∷◌ c p) s =
    rw cons-append (rw (strip_prefix-append p s) (ground arith))

-- A reference that is printed is recognised with the same namespace, image and tag: its namespace
-- and tag hold no white space, its image is made of letters, digits and underscores, and its tag
-- holds no slash.
pub check-print_ref :
    (ref : ImageRef)
    → IsSolid ref.namespace
    → IsWord ref.image
    → IsSolid ref.tag
    → Lacks 47 ref.tag
    → check_container_image_spec_by_regex (print_ref ref) ≡ some ref
unfolding check_container_image_spec_by_regex
check-print_ref ref h i k l =
    rw (strip_prefix-append registry_prefix (print_path ref.namespace ref.image ref.tag)) (
      namespace_at-print ref.namespace (print_image ref.image ref.tag) ref.image ref.tag h
        (namespace_at-none (print_image ref.image ref.tag)
          (Lacks-print_image ref.image ref.tag i l))
        (image_at-print ref.image ref.tag i k))
