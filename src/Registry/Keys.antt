-- ===== src/Registry/Keys.antt =====
-- Writing and reading keys of a map: the laws of pkg/webhooks/register.go's table and of the
-- dispatcher's.
use managed_cluster_validati.Base.{
  String, ◌≡◌, ◌≢◌, ◌⊎◌, ◌↔◌, Bool, true, not, ◌&&◌, List, [], ◌∷◌, some, arith, Member, contains,
  contains_iff, eq_iff,
}
use managed_cluster_validati.Registry.{insert, find, keys}

-- No key twice.
abbrev pub IsDistinct : List String → Type 0
IsDistinct [] = Unit
IsDistinct (k ∷ ks) = (¬ Member k ks) × IsDistinct ks

pub Member-eq : (a b : String) (ks : List String) → a ≡ b → Member a ks → Member b ks
Member-eq a b ks e m = rw e at m

Member-none : (a : String) → ¬ Member a []
unfolding Member
Member-none a m = m

module _ {ℓ} {A : Type ℓ} where
  pub find-insert :
      (key : String) (value : A) (m : List (String × A))
      → find key (insert key value m) ≡ some value
  unfolding find insert
  find-insert key value [] = ground (arith, eq_iff key key)
  find-insert key value ((k, v) ∷ m) =
      ground (arith, eq_iff key key, eq_iff key k, find-insert key value m)

  pub find-insert_other :
      (other key : String) (value : A) (m : List (String × A))
      → other ≢ key
      → find other (insert key value m) ≡ find other m
  unfolding find insert
  find-insert_other other key value [] ne = ground (arith, eq_iff other key)
  find-insert_other other key value ((k, v) ∷ m) ne = ground (
    arith,
    eq_iff other key,
    eq_iff key k,
    eq_iff other k,
    find-insert_other other key value m ne,
  )

  pub insert-keys :
      (x key : String) (value : A) (m : List (String × A))
      → Member x (keys (insert key value m)) ↔ ((x ≡ key) ⊎ Member x (keys m))
  unfolding insert Member
  insert-keys x key value [] = ground arith
  insert-keys x key value ((k, v) ∷ m) = ground (arith, eq_iff key k, insert-keys x key value m)

  pub insert-IsDistinct :
      (key : String) (value : A) (m : List (String × A))
      → IsDistinct (keys m)
      → IsDistinct (keys (insert key value m))
  unfolding insert
  insert-IsDistinct key value [] d = (Member-none key, tt)
  insert-IsDistinct key value ((k, v) ∷ m) (fresh, d) = ground (
    arith,
    eq_iff key k,
    insert-keys k key value m,
    insert-IsDistinct key value m d,
    Member-eq key k (keys m),
    fresh,
  )

unfoldable pub all_distinct : List String → Bool
all_distinct [] = true
all_distinct (k ∷ ks) = not (contains ks k) && all_distinct ks

pub all_distinct-IsDistinct : (ks : List String) → all_distinct ks ≡ true → IsDistinct ks
unfolding all_distinct
all_distinct-IsDistinct [] e = tt
all_distinct-IsDistinct (k ∷ ks) e = ground (arith, contains_iff ks k, all_distinct-IsDistinct ks)
