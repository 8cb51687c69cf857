-- ===== src/Base/Seen.antt =====
-- Keys that a loop meets with the set of those that it has seen (`HashSet::insert` in a test).
use mathlib.Core.Path.{◌≡◌, refl}
use mathlib.Core.Bool.{Bool, true, false, not, ◌&&◌}
use mathlib.Core.List.{List, [], ◌∷◌}
use native.Mathlib.Omega.{arith}
use quackgis.Base.Tests.{Eq}
use quackgis.Base.Lists.{contains, IsDistinct}

module _ {ℓ} {K : Type ℓ} ⦃e : Eq K⦄ where
  -- Each key is new when the loop reaches it.
  abbrev pub unseen : List K → List K → Bool
  unseen seen [] = true
  unseen seen (k ∷ ks) = not (contains seen k) && unseen (k ∷ seen) ks

  unseen_new :
      (seen ks : List K) (k : K)
      → unseen seen ks ≡ true
      → contains seen k ≡ true
      → contains ks k ≡ false
  unseen_new seen [] k u h = refl
  unseen_new seen (j ∷ ks) k u h = ground (arith, unseen_new (j ∷ seen) ks k, e.beq_iff j k)

  pub unseen-IsDistinct : (seen ks : List K) → unseen seen ks ≡ true → IsDistinct ks
  unseen-IsDistinct seen [] u = tt
  unseen-IsDistinct seen (k ∷ ks) u = (
    unseen_new (k ∷ seen) ks k (ground arith) (ground (arith, e.beq_iff k k)),
    unseen-IsDistinct (k ∷ seen) ks (ground arith),
  )
