-- ===== src/Base/Results.antt =====
-- `Result<A, E>` with its sequencing by `?`.
use mathlib.Core.Path.{◌≡◌, refl}
use mathlib.Core.List.{List, [], ◌∷◌}
use overseerd.Base.Lists.{All}

pub data Result {ℓ κ} (E : Type ℓ) (A : Type κ) : Type (ℓ ⊔ κ) where
  ok : A → Result E A
  err : E → Result E A

module _ {ℓ κ μ} {E : Type ℓ} {A : Type κ} {B : Type μ} where
  infixl 5 ◌>>=◌
  abbrev pub ◌>>=◌ : Result E A → (A → Result E B) → Result E B
  (ok value) >>= next = next value
  (err why) >>= next = err why

  pub >>=-eq-ok :
      (first : Result E A) (next : A → Result E B) {last : B}
      → (first >>= next) ≡ ok last
      → (value : A) × (first ≡ ok value) × (next value ≡ ok last)
  >>=-eq-ok (ok value) next done = (value, refl, done)
  >>=-eq-ok (err why) next done = cc

pub ok-injective {ℓ κ} :
    {E : Type ℓ} {A : Type κ} {a b : A} → ◌≡◌ {A = Result E A} (ok a) (ok b) → a ≡ b
ok-injective h = cc

-- `for x in xs { check(x)?; }`
module _ {ℓ κ} {E : Type ℓ} {A : Type κ} (check : A → Result E (Unit {0})) where
  abbrev pub for_each : List A → Result E (Unit {0})
  for_each [] = ok tt
  for_each (x ∷ xs) = check x >>= λ _. for_each xs

  pub for_each-All : (xs : List A) → for_each xs ≡ ok tt → All (λ (x : A). check x ≡ ok tt) xs
  for_each-All [] done = tt
  for_each-All (x ∷ xs) done =
      let (_, first, rest) = >>=-eq-ok (check x) _ done in (first, for_each-All xs rest)
