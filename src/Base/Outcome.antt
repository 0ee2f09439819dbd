-- ===== src/Base/Outcome.antt =====
-- How a run of the program's code ends.
use Prim.Native.Nat.{ℕ}
use mathlib.Core.Path.{◌≡◌, refl, sym, subst}

-- `exit n` is err() or errx() with status n, `abort` a call of abort() or a failed assertion,
-- `undefined` an access outside an object or another undefined behaviour, `blocked` a wait for
-- input that has not come. `out_of_fuel` has no counterpart in the program.
pub data Stop : Type 0 where
  exit : ℕ → Stop
  abort undefined blocked out_of_fuel : Stop

pub data Result {ℓ} (A : Type ℓ) : Type ℓ where
  ok : A → Result A
  stop : Stop → Result A

-- A step, and what runs on its value.
module _ {ℓ κ} {A : Type ℓ} {B : Type κ} where
  infixl 5 ◌>>=◌
  abbrev pub ◌>>=◌ : Result A → (A → Result B) → Result B
  stop e >>= next = stop e
  ok value >>= next = next value

  -- A sequence that goes well, taken apart.
  pub >>=-ok :
      {b : B} (first : Result A) (next : A → Result B)
      → (first >>= next) ≡ ok b
      → (value : A) × (first ≡ ok value) × (next value ≡ ok b)
  >>=-ok (stop e) next h = cc
  >>=-ok (ok value) next h = (value, refl, h)

-- A run that ends well, with a property of its result.
pub data Yields {A : Type 0} (P : A → Type 0) : Result A → Type 0 where
  yields : {a : A} → P a → Yields P (ok a)

pub Yields-eq : {A : Type 0} (P : A → Type 0) {m n : Result A} → n ≡ m → Yields P m → Yields P n
Yields-eq P e y = subst (Yields P) (sym e) y

pub Yields-bind :
    {A B : Type 0} (P : A → Type 0) (Q : B → Type 0) {m : Result A} (f : A → Result B)
    → Yields P m
    → ((a : A) → P a → Yields Q (f a))
    → Yields Q (m >>= f)
Yields-bind P Q f (yields {a} p) step = step a p

pub Yields-weaken :
    {A : Type 0} (P Q : A → Type 0) {m : Result A} → ((a : A) → P a → Q a) → Yields P m → Yields Q m
Yields-weaken P Q f (yields {a} p) = yields (f a p)
