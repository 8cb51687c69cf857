-- ===== src/Base/Sorting.antt =====
-- The stable sort of a sequence by an order on its entries (`slice::sort_by`), what it keeps, and
-- the order it reaches. `less a b` tells that `a` comes before `b`.
use Prim.Native.Nat.{ℕ, ◌+◌}
use mathlib.Core.Path.{◌≡◌, refl}
use mathlib.Core.Bool.{Bool, true, false, ◌&&◌, ◌||◌}
use mathlib.Core.Logic.{inl, inr}
use mathlib.Core.Option.{Option, none, some}
use mathlib.Core.List.{List, [], ◌∷◌, map}
use native.Mathlib.Omega.{arith}
use quackgis.Base.Tests.{Eq, ltb, Bool-cases, if◌then◌else◌}
use quackgis.Base.Lists.{any, all, contains, IsDistinct}

module _ {ℓ} {A : Type ℓ} where
  abbrev pub count : (A → Bool) → List A → ℕ
  count p [] = 0
  count p (x ∷ xs) = (if p x then 1 else 0) + count p xs

  module _ (less : A → A → Bool) where
    abbrev pub insert_sorted : A → List A → List A
    insert_sorted x [] = x ∷ []
    insert_sorted x (y ∷ ys) =
        let rest = insert_sorted x ys in if less y x then y ∷ rest else x ∷ y ∷ ys

    abbrev pub sort_by : List A → List A
    sort_by [] = []
    sort_by (x ∷ xs) = insert_sorted x (sort_by xs)

    -- No entry comes before the one in front of it.
    abbrev pub follows_head : A → List A → Bool
    follows_head x [] = true
    follows_head x (y ∷ ys) = if less y x then false else true

    abbrev pub IsSorted : List A → Type 0
    IsSorted [] = Unit {0}
    IsSorted (x ∷ xs) = (follows_head x xs ≡ true) × IsSorted xs

    count-insert_sorted :
        (p : A → Bool) (x : A) (ys : List A)
        → count p (insert_sorted x ys) ≡ (if p x then 1 else 0) + count p ys
    count-insert_sorted p x [] = omega arith
    count-insert_sorted p x (y ∷ ys) = ground (arith, count-insert_sorted p x ys)

    pub count-sort_by : (p : A → Bool) (xs : List A) → count p (sort_by xs) ≡ count p xs
    count-sort_by p [] = refl
    count-sort_by p (x ∷ xs) =
        omega (arith, count-insert_sorted p x (sort_by xs), count-sort_by p xs)

    pub all-insert_sorted :
        (p : A → Bool) (x : A) (ys : List A) → all p (insert_sorted x ys) ≡ (p x && all p ys)
    all-insert_sorted p x [] = refl
    all-insert_sorted p x (y ∷ ys) = ground (arith, all-insert_sorted p x ys)

    pub all-sort_by : (p : A → Bool) (xs : List A) → all p (sort_by xs) ≡ all p xs
    all-sort_by p [] = refl
    all-sort_by p (x ∷ xs) = ground (arith, all-insert_sorted p x (sort_by xs), all-sort_by p xs)

    any-insert_sorted :
        (p : A → Bool) (x : A) (ys : List A) → any p (insert_sorted x ys) ≡ (p x || any p ys)
    any-insert_sorted p x [] = refl
    any-insert_sorted p x (y ∷ ys) = ground (arith, any-insert_sorted p x ys)

    pub any-sort_by : (p : A → Bool) (xs : List A) → any p (sort_by xs) ≡ any p xs
    any-sort_by p [] = refl
    any-sort_by p (x ∷ xs) = ground (arith, any-insert_sorted p x (sort_by xs), any-sort_by p xs)

    follows_head-insert_sorted :
        (z x : A) (ys : List A)
        → less x z ≡ false
        → follows_head z ys ≡ true
        → follows_head z (insert_sorted x ys) ≡ true
    follows_head-insert_sorted z x [] h f = ground arith
    follows_head-insert_sorted z x (y ∷ ys) h f = ground arith

    module _ (asymmetric : (a b : A) → less a b ≡ true → less b a ≡ false) where
      insert_sorted-IsSorted : (x : A) (ys : List A) → IsSorted ys → IsSorted (insert_sorted x ys)
      insert_sorted-IsSorted x [] s = (refl, tt)
      insert_sorted-IsSorted x (y ∷ ys) (f, s) = elim (Bool-cases (less y x)) [
        | inl before ↦ rw before (
          follows_head-insert_sorted y x ys (asymmetric y x before) f,
          insert_sorted-IsSorted x ys s,
        )
        | inr after ↦ rw after (rw after refl, (f, s))
      ]

      pub sort_by-IsSorted : (xs : List A) → IsSorted (sort_by xs)
      sort_by-IsSorted [] = tt
      sort_by-IsSorted (x ∷ xs) = insert_sorted-IsSorted x (sort_by xs) (sort_by-IsSorted xs)

module _ {ℓ κ} {A : Type ℓ} {K : Type κ} ⦃e : Eq K⦄ (key : A → K) (less : A → A → Bool) where
  contains-insert_sorted :
      (x : A) (ys : List A) (k : K)
      → contains (map key (insert_sorted less x ys)) k
        ≡ (e.beq (key x) k || contains (map key ys) k)
  contains-insert_sorted x [] k = refl
  contains-insert_sorted x (y ∷ ys) k = ground (arith, contains-insert_sorted x ys k)

  pub contains-sort_by :
      (xs : List A) (k : K) → contains (map key (sort_by less xs)) k ≡ contains (map key xs) k
  contains-sort_by [] k = refl
  contains-sort_by (x ∷ xs) k =
      ground (arith, contains-insert_sorted x (sort_by less xs) k, contains-sort_by xs k)

  beq_sym : (a b : K) → e.beq a b ≡ e.beq b a
  beq_sym a b = ground (arith, e.beq_iff a b, e.beq_iff b a)

  insert_sorted-IsDistinct :
      (x : A) (ys : List A)
      → contains (map key ys) (key x) ≡ false
      → IsDistinct (map key ys)
      → IsDistinct (map key (insert_sorted less x ys))
  insert_sorted-IsDistinct x [] new d = (refl, tt)
  insert_sorted-IsDistinct x (y ∷ ys) new (h, d) = elim (Bool-cases (less y x)) [
    | inr after ↦ rw after (new, (h, d))
    | inl before ↦ rw before (
      ground (arith, contains-insert_sorted x ys (key y), beq_sym (key x) (key y)),
      insert_sorted-IsDistinct x ys (ground arith) d,
    )
  ]

  -- Sorting keeps keys distinct.
  pub sort_by-IsDistinct :
      (xs : List A) → IsDistinct (map key xs) → IsDistinct (map key (sort_by less xs))
  sort_by-IsDistinct [] d = tt
  sort_by-IsDistinct (x ∷ xs) (h, d) =
      insert_sorted-IsDistinct x (sort_by less xs) (rw (contains-sort_by xs (key x)) h)
        (sort_by-IsDistinct xs d)

-- `Ord` on sequences and pairs: the first difference decides.
abbrev pub list_less : List ℕ → List ℕ → Bool
list_less [] [] = false
list_less [] (_ ∷ _) = true
list_less (_ ∷ _) [] = false
list_less (x ∷ xs) (y ∷ ys) =
    let rest = list_less xs ys in if ltb x y then true else if ltb y x then false else rest

pub list_less_asymmetric : (xs ys : List ℕ) → list_less xs ys ≡ true → list_less ys xs ≡ false
list_less_asymmetric [] [] h = cc
list_less_asymmetric [] (_ ∷ _) h = refl
list_less_asymmetric (_ ∷ _) [] h = cc
list_less_asymmetric (x ∷ xs) (y ∷ ys) h = ground (arith, list_less_asymmetric xs ys)

-- `None` comes before `Some`.
abbrev pub option_less : Option (List ℕ) → Option (List ℕ) → Bool
option_less none none = false
option_less none (some _) = true
option_less (some _) none = false
option_less (some a) (some b) = list_less a b

pub option_less_asymmetric :
    (a b : Option (List ℕ)) → option_less a b ≡ true → option_less b a ≡ false
option_less_asymmetric none none h = cc
option_less_asymmetric none (some _) h = refl
option_less_asymmetric (some _) none h = cc
option_less_asymmetric (some a) (some b) h = list_less_asymmetric a b h

-- The lexicographic order of two keys.
abbrev pub then_less : Bool → Bool → Bool → Bool
then_less before after later = if before then true else if after then false else later

-- `dedup`: each run of equal entries once.
module _ {ℓ} {A : Type ℓ} ⦃e : Eq A⦄ where
  abbrev pub starts_with : List A → A → Bool
  starts_with [] x = false
  starts_with (y ∷ ys) x = e.beq y x

  abbrev pub dedup : List A → List A
  dedup [] = []
  dedup (x ∷ xs) = let rest = dedup xs in if starts_with rest x then rest else x ∷ rest
