-- ===== src/Common/Result.antt =====
-- The exceptions that the modelled code raises, with their messages, and results that carry them.
use Prim.Native.String.{String}
use mathlib.Core.Path.{◌≡◌, refl, subst}
use delta_agent.Common.Basics.{All}
use mathlib.Core.Bool.{Bool, true, false}
use mathlib.Core.List.{List, [], ◌∷◌}

-- One constructor for each class of exception.
pub data Error : Type 0 where
  delta_validation workflow_validation input_validation dependency_pending : String → Error
  approval_validation handoff_policy key_error value_error overflow_error : String → Error
  persistence_error scope_error execution_blocked type_error : String → Error
  -- An exception that code outside this package raised, by the name of its class.
  foreign : String → Error
  -- A model's loop that ran out of fuel: shown never to happen.
  out_of_fuel : Error

pub data Result {ℓ} (T : Type ℓ) : Type ℓ where
  ok : T → Result T
  err : Error → Result T

-- if not condition: raise error
abbrev pub require : Bool → Error → Result (Unit {0})
require true e = ok tt
require false e = err e

-- if condition: raise error
abbrev pub refuse : Bool → Error → Result (Unit {0})
refuse true e = err e
refuse false e = ok tt

module _ {ℓ κ} {T : Type ℓ} {U : Type κ} where
  infixl 5 ◌>>=◌
  -- The statements of a body, one after the other: an exception leaves it.
  abbrev pub ◌>>=◌ : Result T → (T → Result U) → Result U
  ok t >>= next = next t
  err raised >>= next = err raised

module _ {κ} {U : Type κ} where
  infixl 5 ◌>>◌
  abbrev pub ◌>>◌ : Result (Unit {0}) → Result U → Result U
  check >> next = check >>= λ passed. next

pub ok-injective {ℓ} : {A : Type ℓ} {a b : A} → ok a ≡ ok b → a ≡ b
ok-injective h = cc

-- A check that passed is forgotten.
pub >>-eq-ok {ℓ} :
    {B : Type ℓ} (m : Result (Unit {0})) (k : Result B) {b : B} → (m >> k) ≡ ok b → k ≡ ok b
>>-eq-ok (ok a) k h = h
>>-eq-ok (err e) k h = cc

module _ {ℓ κ} {A : Type ℓ} {B : Type κ} where
  -- A body that returned has come past its first statement.
  pub >>=-eq-ok :
      (first : Result A) (next : A → Result B) {end : B}
      → (first >>= next) ≡ ok end
      → (a : A) × (first ≡ ok a) × (next a ≡ ok end)
  >>=-eq-ok (ok a) next returned = (a, refl, returned)
  >>=-eq-ok (err raised) next returned = cc

  -- The loop `[f(x) for x in xs]` where `f` may raise.
  unfoldable pub map_result : (A → Result B) → List A → Result (List B)
  map_result f [] = ok []
  map_result f (x ∷ xs) = do y ← f x; ys ← map_result f xs; ok (y ∷ ys)

pub require-eq-ok : (b : Bool) (e : Error) → require b e ≡ ok tt → b ≡ true
require-eq-ok true e h = refl
require-eq-ok false e h = cc

pub refuse-eq-ok : (b : Bool) (e : Error) → refuse b e ≡ ok tt → b ≡ false
refuse-eq-ok true e h = cc
refuse-eq-ok false e h = refl

-- Elements that `f` gives have a property that it passes on from its arguments.
pub map_result-All {ℓ κ μ ν} :
    {A : Type ℓ} {B : Type κ} (P : A → Type μ) (Q : B → Type ν) (f : A → Result B)
    → ((a : A) (b : B) → f a ≡ ok b → P a → Q b)
    → (xs : List A) (ys : List B) → map_result f xs ≡ ok ys
    → All P xs
    → All Q ys
unfolding map_result
map_result-All P Q f each [] ys h p = subst (All Q) (ok-injective h) tt
map_result-All P Q f each (x ∷ xs) ys h p =
    let (y, hy, h1) = >>=-eq-ok (f x) _ h in
    let (zs, hz, h2) = >>=-eq-ok (map_result f xs) _ h1 in
    subst (All Q) (ok-injective h2) (each x y hy p.0, map_result-All P Q f each xs zs hz p.1)
