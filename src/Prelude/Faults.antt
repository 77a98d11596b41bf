-- ===== src/Prelude/Faults.antt =====
-- A call that may throw. A fault carries the message of the `Error` and its `statusCode`, if any.
use Prim.Native.Nat.{ℕ}
use Prim.Native.String.{String}
use mathlib.Core.Path.{◌≡◌, refl, ap₂}
use mathlib.Core.Bool.{Bool, true, false}
use mathlib.Core.List.{List, [], ◌∷◌, map}
use mathlib.Core.Option.{Option, none}

pub record Fault : Type 0 where
  pub message : String
  pub status_code : Option ℕ

pub data Outcome {ℓ} (A : Type ℓ) : Type ℓ where
  ok : A → Outcome A
  throw : Fault → Outcome A

-- `new Error(message)`, with no status code.
abbrev pub error : String → Fault
error message = record { message = message; status_code = none }

infixl 5 ◌>>=◌
-- The next call is made on the value of the first; a fault is passed on.
abbrev pub ◌>>=◌ {ℓ κ} : {A : Type ℓ} → {B : Type κ} → Outcome A → (A → Outcome B) → Outcome B
ok value >>= next = next value
throw fault >>= next = throw fault

infixl 5 ◌>>◌
abbrev pub ◌>>◌ {ℓ} : {B : Type ℓ} → Outcome (Unit {0}) → Outcome B → Outcome B
m >> k = m >>= λ _. k

-- `if (!test) throw`.
abbrev pub require : Bool → Fault → Outcome (Unit {0})
require true e = ok tt
require false e = throw e

-- A chain that ends well went well at its first call.
pub >>=-eq-ok {κ ℓ} :
    {B : Type κ} {A : Type ℓ} (first : Outcome A) (next : A → Outcome B) {last : B}
    → (first >>= next) ≡ ok last
    → (mid : A) × (first ≡ ok mid) × (next mid ≡ ok last)
>>=-eq-ok (throw fault) next same = cc
>>=-eq-ok (ok mid) next same = (mid, refl, same)

-- `map` with a function that may throw: the first fault is the result.
abbrev pub traverse {ℓ κ} : {A : Type ℓ} {B : Type κ} → (A → Outcome B) → List A → Outcome (List B)
traverse f [] = ok []
traverse f (x ∷ xs) = f x >>= λ y. traverse f xs >>= λ ys. ok (y ∷ ys)

-- What every result of a traversal shows, given what each single result shows.
pub map-traverse {ℓ κ} :
    {A : Type ℓ} {B : Type ℓ} {C : Type κ} (f : A → Outcome B) (g : B → C) (h : A → C)
    → ((x : A) (y : B) → f x ≡ ok y → g y ≡ h x)
    → (xs : List A) (ys : List B) → traverse f xs ≡ ok ys
    → map g ys ≡ map h xs
map-traverse f g h each [] [] e = refl
map-traverse f g h each [] (y ∷ ys) e = cc
map-traverse f g h each (x ∷ xs) ys e =
    let (y, fx, e') = >>=-eq-ok (f x) _ e in
    let (rest, fxs, e'') = >>=-eq-ok (traverse f xs) _ e' in
    let same : y ∷ rest ≡ ys = cc in
    rw (← same) (ap₂ ◌∷◌ (each x y fx) (map-traverse f g h each xs rest fxs))

pub require-eq-ok : (test : Bool) (e : Fault) (u : Unit {0}) → require test e ≡ ok u → test ≡ true
require-eq-ok true e u h = refl
require-eq-ok false e u h = cc
