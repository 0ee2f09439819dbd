-- ===== src/Mpack/Wire.antt =====
-- Multi-byte integers on a little-endian host: memcpy of an integer, and MY_BSWAP_*.
use tag_highlight_nvim.Base.{
  ℕ, zero, suc, ◌+◌, ◌*◌, ◌/◌, ◌%◌, ◌<◌, ◌≡◌, refl, sym, ap, ◌∙◌, List, [], ◌∷◌, ◌++◌, reverse,
  arith, length, All, length-reverse, All-append, reverse-cons,
}
use mathlib.Core.List.{reverse-reverse}

abbrev pub IsByte : ℕ → Type 0
IsByte b = b < 256

-- 256 ^ n
abbrev pub span : ℕ → ℕ
span zero = 1
span (suc n) = 256 * span n

-- The bytes of an n-byte integer in memory.
unfoldable pub le_bytes : ℕ → ℕ → List ℕ
le_bytes zero v = []
le_bytes (suc n) v = v % 256 ∷ le_bytes n (v / 256)

-- The integer that bytes in memory stand for.
unfoldable pub of_le : List ℕ → ℕ
of_le [] = 0
of_le (b ∷ bs) = b + 256 * of_le bs

-- __builtin_bswap16/32/64: the bytes of the n-byte integer in the other order.
unfoldable pub bswap : ℕ → ℕ → ℕ
unfolding le_bytes of_le
bswap n v = of_le (reverse (le_bytes n v))

-- encode_uint16/32/64: `tmp = MY_BSWAP(VAL)`, then memcpy.
unfoldable pub encode_uint : ℕ → ℕ → List ℕ
unfolding le_bytes bswap
encode_uint n v = le_bytes n (bswap n v)

pub length-le_bytes : (n v : ℕ) → length (le_bytes n v) ≡ n
unfolding le_bytes
length-le_bytes zero v = refl
length-le_bytes (suc n) v = ap suc (length-le_bytes n (v / 256))

pub le_bytes-All : (n v : ℕ) → All IsByte (le_bytes n v)
unfolding le_bytes
le_bytes-All zero v = tt
le_bytes-All (suc n) v = (omega arith, le_bytes-All n (v / 256))

All-reverse : (bs : List ℕ) → All IsByte bs → All IsByte (reverse bs)
All-reverse [] h = tt
All-reverse (b ∷ bs) h =
    rw (reverse-cons b bs) (All-append IsByte (reverse bs) (b ∷ []) (All-reverse bs h.1) (h.0, tt))

of_le-le_bytes : (n v : ℕ) → v < span n → of_le (le_bytes n v) ≡ v
unfolding le_bytes of_le
of_le-le_bytes zero v h = omega arith
of_le-le_bytes (suc n) v h = omega (arith, of_le-le_bytes n (v / 256) (omega arith))

le_bytes-of_le : (bs : List ℕ) → All IsByte bs → le_bytes (length bs) (of_le bs) ≡ bs
unfolding le_bytes of_le
le_bytes-of_le [] h = refl
le_bytes-of_le (b ∷ bs) h =
    let low : (b + 256 * of_le bs) % 256 ≡ b = omega arith in
    let high : (b + 256 * of_le bs) / 256 ≡ of_le bs = omega arith in
    rw (low, high, le_bytes-of_le bs h.1)

-- What goes on the wire is big-endian.
pub encode_uint-big_endian : (n v : ℕ) → encode_uint n v ≡ reverse (le_bytes n v)
unfolding encode_uint bswap
encode_uint-big_endian n v =
    let size : length (reverse (le_bytes n v)) ≡ n =
      length-reverse (le_bytes n v) ∙ length-le_bytes n v in
    rw size at (le_bytes-of_le (reverse (le_bytes n v)) (All-reverse _ (le_bytes-All n v)))

-- The big-endian bytes of an n-byte integer: the least significant one stands last.
unfoldable pub be_bytes : ℕ → ℕ → List ℕ
be_bytes zero v = []
be_bytes (suc n) v = be_bytes n (v / 256) ++ (v % 256 ∷ [])

reverse-le_bytes : (n v : ℕ) → reverse (le_bytes n v) ≡ be_bytes n v
unfolding le_bytes be_bytes
reverse-le_bytes zero v = refl
reverse-le_bytes (suc n) v =
    reverse-cons (v % 256) (le_bytes n (v / 256))
    ∙ ap (λ bs. bs ++ (v % 256 ∷ [])) (reverse-le_bytes n (v / 256))

pub be_bytes-big_endian : (n v : ℕ) → be_bytes n v ≡ reverse (le_bytes n v)
be_bytes-big_endian n v = sym (reverse-le_bytes n v)

pub encode_uint-be_bytes : (n v : ℕ) → encode_uint n v ≡ be_bytes n v
encode_uint-be_bytes n v = encode_uint-big_endian n v ∙ reverse-le_bytes n v

pub length-encode_uint : (n v : ℕ) → length (encode_uint n v) ≡ n
unfolding encode_uint
length-encode_uint n v = length-le_bytes n _

-- Reading the integer back: memcpy into `tmp`, then MY_BSWAP.
pub bswap-encode_uint : (n v : ℕ) → v < span n → bswap n (of_le (encode_uint n v)) ≡ v
unfolding le_bytes encode_uint
bswap-encode_uint n v h = rw (encode_uint-big_endian n v) (
    ap (λ bs. of_le (reverse bs)) again
    ∙ ap of_le (reverse-reverse (le_bytes n v))
    ∙ of_le-le_bytes n v h)
  where
    again : le_bytes n (of_le (reverse (le_bytes n v))) ≡ reverse (le_bytes n v)
    again = encode_uint-big_endian n v

-- Only the low n bytes of a value are written.
le_bytes-high : (n x q : ℕ) → le_bytes n (x + q * span n) ≡ le_bytes n x
unfolding le_bytes
le_bytes-high zero x q = refl
le_bytes-high (suc n) x q =
    let low : (x + q * (256 * span n)) % 256 ≡ x % 256 = omega arith in
    let high : (x + q * (256 * span n)) / 256 ≡ x / 256 + q * span n = omega arith in
    rw (low, high) (ap (λ bs. x % 256 ∷ bs) (le_bytes-high n (x / 256) q))

pub encode_uint-high : (n x q : ℕ) → encode_uint n (x + q * span n) ≡ encode_uint n x
encode_uint-high n x q =
    encode_uint-big_endian n (x + q * span n)
    ∙ ap reverse (le_bytes-high n x q)
    ∙ sym (encode_uint-big_endian n x)

pub length-be_bytes : (n v : ℕ) → length (be_bytes n v) ≡ n
length-be_bytes n v = ap length (sym (encode_uint-be_bytes n v)) ∙ length-encode_uint n v

pub bswap-be_bytes : (n v : ℕ) → v < span n → bswap n (of_le (be_bytes n v)) ≡ v
bswap-be_bytes n v h =
    ap (λ bs. bswap n (of_le bs)) (sym (encode_uint-be_bytes n v)) ∙ bswap-encode_uint n v h

pub be_bytes-high : (n x q : ℕ) → be_bytes n (x + q * span n) ≡ be_bytes n x
be_bytes-high n x q =
    sym (encode_uint-be_bytes n (x + q * span n))
    ∙ encode_uint-high n x q
    ∙ encode_uint-be_bytes n x
