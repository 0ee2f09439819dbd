-- ===== src/Base/Bits.antt =====
-- Facts about the bit operations at variables, and a check of every byte by evaluation.
use Prim.Native.Nat.{
  ℕ, zero, suc, ◌+◌, ◌*◌, ◌/◌, ◌%◌, ◌^◌, ◌≤◌, ◌<◌, max, min, digits, bit_or, bit_or-bitwise,
  bit_and, bit_and-bitwise,
}
use mathlib.Core.Path.{◌≡◌, refl, sym, ap, ◌∙◌}
use mathlib.Core.Bool.{Bool, true, ◌&&◌}
use native.Mathlib.Nat.{pow-suc, div-div-eq-div-mul}
use native.Mathlib.Omega.{arith}

-- Every value below a bound, by evaluation.
unfoldable pub all_below : ℕ → (ℕ → Bool) → Bool
all_below zero test = true
all_below (suc bound) test = all_below bound test && test bound

pub all_below_sound :
    (test : ℕ → Bool) (bound : ℕ)
    → all_below bound test ≡ true
    → (x : ℕ) → x < bound
    → test x ≡ true
unfolding all_below
all_below_sound test zero checked x small = elim small [ ]
all_below_sound test (suc bound) checked x small =
    ground (arith, all_below_sound test bound (ground arith) x)

-- `digits` needs only as much fuel as its first number.
module _ (past : ℕ → ℕ) (meet : ℕ → ℕ → ℕ) where
  no_digits : (fuel b : ℕ) → digits past meet fuel zero b ≡ past b
  no_digits zero b = refl
  no_digits (suc fuel) b = refl

  enough_digits :
      (a b fuel₁ fuel₂ : ℕ)
      → a ≤ fuel₁
      → a ≤ fuel₂
      → digits past meet fuel₁ a b ≡ digits past meet fuel₂ a b
  enough_digits zero b fuel₁ fuel₂ h₁ h₂ = no_digits fuel₁ b ∙ sym (no_digits fuel₂ b)
  enough_digits (suc a) b zero fuel₂ h₁ h₂ = absurd (omega arith)
  enough_digits (suc a) b (suc fuel₁) zero h₁ h₂ = absurd (omega arith)
  enough_digits (suc a) b (suc fuel₁) (suc fuel₂) h₁ h₂ =
      ap (λ rest. rest * 2 + meet (suc a % 2) (b % 2))
        (enough_digits (suc a / 2) (b / 2) fuel₁ fuel₂ (omega arith) (omega arith))

  lowest_digit :
      (a b : ℕ)
      → past b ≡ past (b / 2) * 2 + meet 0 (b % 2)
      → digits past meet a a b ≡ digits past meet (a / 2) (a / 2) (b / 2) * 2 + meet (a % 2) (b % 2)
  lowest_digit zero b h = h
  lowest_digit (suc a) b h =
      ap (λ rest. rest * 2 + meet (suc a % 2) (b % 2))
        (enough_digits (suc a / 2) (b / 2) a (suc a / 2) (omega arith) (omega arith))

bit_or-lowest : (a b : ℕ) → bit_or a b ≡ bit_or (a / 2) (b / 2) * 2 + max (a % 2) (b % 2)
bit_or-lowest a b =
    bit_or-bitwise a b
    ∙ lowest_digit (λ y. y) max a b (omega arith)
    ∙ ap (λ rest. rest * 2 + max (a % 2) (b % 2)) (sym (bit_or-bitwise (a / 2) (b / 2)))

bit_and-lowest : (a b : ℕ) → bit_and a b ≡ bit_and (a / 2) (b / 2) * 2 + min (a % 2) (b % 2)
bit_and-lowest a b =
    bit_and-bitwise a b
    ∙ lowest_digit (λ y. 0) min a b (omega arith)
    ∙ ap (λ rest. rest * 2 + min (a % 2) (b % 2)) (sym (bit_and-bitwise (a / 2) (b / 2)))

-- `r | (q << k)` is a sum when `r` fits `k` bits.
pub bit_or_high : (k q r : ℕ) → r < 2 ^ k → bit_or r (q * 2 ^ k) ≡ r + q * 2 ^ k
bit_or_high zero q zero fits = omega (arith, bit_or-bitwise 0 (q * 2 ^ 0))
bit_or_high zero q (suc r) fits = absurd (omega arith)
bit_or_high (suc k) q r fits = ground (
  arith,
  bit_or-lowest r (q * 2 ^ suc k),
  pow-suc 2 k,
  ap (λ (t : ℕ). q * t) (pow-suc 2 k),
  bit_or_high k q (r / 2),
)

-- A mask whose low k bits are 0 works on the quotient.
pub bit_and_high : (k x m : ℕ) → bit_and x (m * 2 ^ k) ≡ bit_and (x / 2 ^ k) m * 2 ^ k
bit_and_high zero x m =
    omega (arith, ap (λ y. bit_and y (m * 2 ^ 0)) same_x, ap (bit_and (x / 2 ^ 0)) same_m)
  where
    same_x : x ≡ x / 2 ^ 0
    same_x = omega arith

    same_m : m * 2 ^ 0 ≡ m
    same_m = omega arith
bit_and_high (suc k) x m =
    let even : m * 2 ^ suc k / 2 ≡ m * 2 ^ k =
      omega (arith, pow-suc 2 k, ap (λ (t : ℕ). m * t) (pow-suc 2 k)) in
    let digit : m * 2 ^ suc k % 2 ≡ 0 =
      omega (arith, pow-suc 2 k, ap (λ (t : ℕ). m * t) (pow-suc 2 k)) in
    let halves : x / 2 / 2 ^ k ≡ x / 2 ^ suc k =
      div-div-eq-div-mul x 2 (2 ^ k) ∙ ap (λ t. x / t) (omega (arith, pow-suc 2 k)) in
    let less : bit_and (x / 2) (m * 2 ^ k) ≡ bit_and (x / 2 ^ suc k) m * 2 ^ k =
      bit_and_high k (x / 2) m ∙ ap (λ t. bit_and t m * 2 ^ k) halves in
    let lowest : bit_and x (m * 2 ^ suc k) ≡ bit_and (x / 2) (m * 2 ^ k) * 2 + min (x % 2) 0 =
      bit_and-lowest x (m * 2 ^ suc k)
      ∙ ap (λ t. bit_and (x / 2) t * 2 + min (x % 2) (m * 2 ^ suc k % 2)) even
      ∙ ap (λ t. bit_and (x / 2) (m * 2 ^ k) * 2 + min (x % 2) t) digit in
    omega (
      arith,
      lowest,
      less,
      pow-suc 2 k,
      ap (λ (t : ℕ). bit_and (x / 2 ^ suc k) m * t) (pow-suc 2 k),
    )
