-- ===== src/Mpack/Expect/Ext.antt =====
-- attempt_to_interpret_ext (mpack/mpack.c) on the handles of buffers, windows and tabpages, which are
-- extensions that hold an encoded integer.
use tag_highlight_nvim.Base.{
  ℕ, suc, reverse, ◌+◌, ◌*◌, ◌/◌, ◌%◌, ◌^◌, ◌-◌, ◌≤◌, ◌<◌, ◌≡◌, refl, ap, ◌∙◌, true, false, List,
  [], ◌∷◌, ◌++◌, ltb, leb, ◌==◌, ==_iff, ◌⊎◌, inl, inr, Bool-cases, bit_and, arith, length,
  replicate, Result, ok,
}
use tag_highlight_nvim.Base.Bits.{all_below, all_below_sound, bit_and_high}
use tag_highlight_nvim.Mpack.Wire.{
  of_le, le_bytes, bswap, be_bytes, length-be_bytes, be_bytes-big_endian,
}
use tag_highlight_nvim.Mpack.Encode.Header.{unsigned_bytes}
use tag_highlight_nvim.Mpack.Expect.{attempt_to_interpret_ext}

-- The bytes of the union, in an object that was allocated with zeros.
abbrev pub padded : List ℕ → List ℕ
padded bs = bs ++ replicate (8 - length bs) 0

low_byte : (b : ℕ) → b < 256 → bit_and (0xCC * 256 + b) 0x00FF ≡ b
unfolding all_below
low_byte b h =
    (==_iff _ b).0 (all_below_sound (λ x. bit_and (0xCC * 256 + x) 0x00FF == x) 256 refl b h)

high_mask : (b : ℕ) → b < 256 → bit_and b 0xFFFFFFFF ≡ b
unfolding all_below
high_mask b h = (==_iff _ b).0 (all_below_sound (λ x. bit_and x 0xFFFFFFFF == x) 256 refl b h)

one_byte : (n : ℕ) → attempt_to_interpret_ext 1 (padded (n ∷ [])) ≡ ok n
unfolding attempt_to_interpret_ext of_le
one_byte n = ap ok (omega arith)

two_bytes : (n : ℕ) → n < 256 → attempt_to_interpret_ext 2 (padded (0xCC ∷ n ∷ [])) ≡ ok n
unfolding attempt_to_interpret_ext of_le le_bytes bswap
two_bytes n h = ap ok (ap (λ x. bit_and x 255) (omega arith) ∙ low_byte n h)

three_bytes :
    (n : ℕ) → n < 2 ^ 16 → attempt_to_interpret_ext 3 (padded (0xCD ∷ be_bytes 2 n)) ≡ ok n
unfolding attempt_to_interpret_ext of_le le_bytes bswap
three_bytes n h = rw (be_bytes-big_endian 2 n) (ap ok (omega arith))

moved_byte : (b : ℕ) → b < 256 → bswap 8 (b * 2 ^ 32) ≡ b * 2 ^ 24
unfolding all_below of_le le_bytes bswap
moved_byte b h =
    (==_iff _ _).0 (all_below_sound (λ x. bswap 8 (x * 2 ^ 32) == x * 2 ^ 24) 256 refl b h)

fifth_byte :
    (b₁ b₂ b₃ b₄ : ℕ)
    → b₁ < 256
    → b₂ < 256
    → b₃ < 256
    → b₄ < 256
    → attempt_to_interpret_ext 5 (padded (0xCE ∷ b₁ ∷ b₂ ∷ b₃ ∷ b₄ ∷ [])) ≡ ok (b₄ * 2 ^ 24)
unfolding attempt_to_interpret_ext of_le
fifth_byte b₁ b₂ b₃ b₄ h₁ h₂ h₃ h₄ =
    let u = of_le (0xCE ∷ b₁ ∷ b₂ ∷ b₃ ∷ b₄ ∷ 0 ∷ 0 ∷ 0 ∷ []) in
    let masked : bit_and u 0xFFFFFFFF00000000 ≡ bit_and (u / 2 ^ 32) 0xFFFFFFFF * 2 ^ 32 =
      bit_and_high 32 u 0xFFFFFFFF in
    let fifth : u / 2 ^ 32 ≡ b₄ = omega arith in
    ap ok (
      ap (bswap 8) (
        masked
        ∙ ap (λ x. bit_and x 0xFFFFFFFF * 2 ^ 32) fifth
        ∙ ap (λ x. x * 2 ^ 32) (high_mask b₄ h₄))
      ∙ moved_byte b₄ h₄)

at_bytes :
    (n : ℕ) (bs : List ℕ) (r : Result ℕ)
    → unsigned_bytes n ≡ bs
    → attempt_to_interpret_ext (length bs) (padded bs) ≡ r
    → attempt_to_interpret_ext (length (unsigned_bytes n)) (padded (unsigned_bytes n)) ≡ r
at_bytes n bs r e h = ap (λ cs. attempt_to_interpret_ext (length cs) (padded cs)) e ∙ h

-- An integer below 2^16 that was encoded as mpack_encode_unsigned does, and sent as an extension, is
-- found again.
pub attempt_to_interpret_ext-unsigned_bytes :
    (n : ℕ)
    → n < 2 ^ 16
    → attempt_to_interpret_ext (length (unsigned_bytes n)) (padded (unsigned_bytes n)) ≡ ok n
attempt_to_interpret_ext-unsigned_bytes n h =
    by_size (Bool-cases (leb n 127)) (Bool-cases (ltb n 0xFF))
  where
    by_size :
        (leb n 127 ≡ true) ⊎ (leb n 127 ≡ false)
        → (ltb n 0xFF ≡ true) ⊎ (ltb n 0xFF ≡ false)
        → attempt_to_interpret_ext (length (unsigned_bytes n)) (padded (unsigned_bytes n)) ≡ ok n
    by_size (inl e) f = at_bytes n (n ∷ []) (ok n) (ground arith) (one_byte n)
    by_size (inr e) (inl f) =
        at_bytes n (0xCC ∷ n ∷ []) (ok n) (ground arith) (two_bytes n (ground arith))
    by_size (inr e) (inr f) = at_bytes n (0xCD ∷ be_bytes 2 n) (ok n) (ground arith) (
        ap (λ l. attempt_to_interpret_ext (suc l) (padded (0xCD ∷ be_bytes 2 n)))
          (length-be_bytes 2 n)
        ∙ three_bytes n h)

-- For an integer from 2^16 on, below 2^32, that was encoded as mpack_encode_unsigned does, and sent as
-- an extension, the result is its lowest byte times 2^24.
pub attempt_to_interpret_ext_four_bytes :
    (n : ℕ)
    → 2 ^ 16 ≤ n
    → n < 2 ^ 32
    → attempt_to_interpret_ext (length (unsigned_bytes n)) (padded (unsigned_bytes n))
      ≡ ok (n % 256 * 2 ^ 24)
unfolding attempt_to_interpret_ext of_le le_bytes bswap
attempt_to_interpret_ext_four_bytes n least most =
    at_bytes n (0xCE ∷ reverse (le_bytes 4 n)) (ok (n % 256 * 2 ^ 24))
      (marker ∙ ap (λ bs. 0xCE ∷ bs) (be_bytes-big_endian 4 n))
      (fifth_byte (n / 256 / 256 / 256 % 256) (n / 256 / 256 % 256) (n / 256 % 256) (n % 256)
        (omega arith) (omega arith) (omega arith) (omega arith))
  where
    marker : unsigned_bytes n ≡ 0xCE ∷ be_bytes 4 n
    marker = ground arith
