-- ===== src/Registry.antt =====
-- pkg/webhooks/register.go and pkg/webhooks/add_*.go: the table of the webhooks, by name. `Register`
-- writes a key of a Go map; the map is an association list here, whose order stands for the order
-- in which Go walks it.
pub mod Keys
pub mod Table
use managed_cluster_validati.Base.{
  String, ◌≡◌, refl, Bool, true, false, List, [], ◌∷◌, map, Option, none, some, ◌==◌, if◌then◌else◌,
}

module _ {ℓ} {A : Type ℓ} where
  -- `m[key] = value`
  unfoldable pub insert : String → A → List (String × A) → List (String × A)
  insert key value [] = (key, value) ∷ []
  insert key value ((k, v) ∷ m) =
      let rest = insert key value m in if key == k then (key, value) ∷ m else (k, v) ∷ rest

  -- `value, ok := m[key]`
  unfoldable pub find : String → List (String × A) → Option A
  find key [] = none
  find key ((k, v) ∷ m) = let rest = find key m in if key == k then some v else rest

  abbrev pub keys : List (String × A) → List String
  keys [] = []
  keys ((k, _) ∷ m) = k ∷ keys m
