-- ===== src/Base/Results.antt =====
-- Rust's `Result`, with `?` as bind and an early `return Err(…)` as `reject`.
use mathlib.Core.Path.{◌≡◌, refl, subst}
use mathlib.Core.Bool.{Bool, true, false}
use mathlib.Core.Logic.{◌≢◌, ◌⊎◌, inl, inr}

pub data Result {ℓ} (E : Type 0) (A : Type ℓ) : Type ℓ where
  err : E → Result E A
  ok : A → Result E A

-- `if test { return Err(error); }`
abbrev pub reject : {E : Type 0} → Bool → E → Result E (Unit {0})
reject false error = ok tt
reject true error = err error

module _ {ℓ} {E : Type 0} {B : Type ℓ} where
  infixl 5 ◌>>=◌ ◌>>◌
  abbrev pub ◌>>=◌ {κ} : {A : Type κ} → Result E A → (A → Result E B) → Result E B
  err error >>= next = err error
  ok value >>= next = next value

  abbrev pub ◌>>◌ : Result E (Unit {0}) → Result E B → Result E B
  first >> second = first >>= λ _. second

  pub >>=-eq-ok {κ} :
      {A : Type κ} (action : Result E A) (next : A → Result E B) {result : B}
      → (action >>= next) ≡ ok result
      → (value : A) × (action ≡ ok value) × (next value ≡ ok result)
  >>=-eq-ok (err error) next h = cc
  >>=-eq-ok (ok value) next h = (value, refl, h)

-- `result.map_err(|_| error)`
abbrev pub map_err {ℓ} : {E F : Type 0} {A : Type ℓ} → (E → F) → Result E A → Result F A
map_err wrap (err error) = err (wrap error)
map_err wrap (ok value) = ok value

pub reject-eq-ok : {E : Type 0} (b : Bool) (e : E) (u : Unit {0}) → reject b e ≡ ok u → b ≡ false
reject-eq-ok true e u h = cc
reject-eq-ok false e u h = refl

pub Result-cases {ℓ} :
    {E : Type 0} {A : Type ℓ} (r : Result E A) → ((a : A) × (r ≡ ok a)) ⊎ ((e : E) × (r ≡ err e))
Result-cases (ok a) = inl (a, refl)
Result-cases (err e) = inr (e, refl)

-- An action inside a chain that succeeds has succeeded: `f` is the chain as a function of it.
pub succeeded {ℓ κ} :
    {E : Type 0} {A : Type ℓ} {B : Type κ} (r : Result E A) (f : Result E A → Result E B) {b : B}
    → ((e : E) → (b : B) → f (err e) ≢ ok b)
    → f r ≡ ok b
    → (a : A) × (r ≡ ok a)
succeeded (ok a) f fails h = (a, refl)
succeeded (err e) f fails h = absurd (fails e _ h)

-- What a chain that succeeds has passed, at an early return and at its end.
module _ {ℓ} {E : Type 0} {A : Type ℓ} where
  pub reject-then :
      (b : Bool) (error : E) (next : Result E A) {a : A}
      → (reject b error >> next) ≡ ok a
      → (b ≡ false) × (next ≡ ok a)
  reject-then true error next h = absurd (cc h)
  reject-then false error next h = (refl, h)

  pub returned {κ} :
      (P : A → Type κ) (a : A) {b : A} → (Path (Result E A) (ok a) (ok b)) → P a → P b
  returned P a {b} h p = let e : a ≡ b = cc h in subst P e p
