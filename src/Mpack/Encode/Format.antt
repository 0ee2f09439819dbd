-- ===== src/Mpack/Encode/Format.antt =====
-- What bytes stand for in the MessagePack format, apart from how mpack/encode.c writes them and
-- mpack/decode.c reads them.
use tag_highlight_nvim.Base.{
  ℕ, zero, suc, ◌+◌, ◌-◌, ◌*◌, ◌/◌, ◌%◌, ◌^◌, ◌<◌, ◌≤◌, ◌≡◌, refl, ap, ◌∙◌, true, List, [], ◌∷◌,
  ◌++◌, Option, none, some, ltb, leb, ◌==◌, if◌then◌else◌, length, arith,
}
use tag_highlight_nvim.Mpack.Wire.{span, be_bytes, length-be_bytes, be_bytes-high}
use tag_highlight_nvim.Mpack.Encode.Header.{array_header, map_header, integer_bytes, unsigned_bytes}

-- The number of big-endian bytes, behind others that make `a`.
abbrev be_value : ℕ → List ℕ → ℕ
be_value a [] = a
be_value a (b ∷ bs) = be_value (256 * a + b) bs

-- The number of n bytes, unsigned, and as the 64-bit pattern of a signed one.
abbrev unsigned_of : ℕ → List ℕ → Option ℕ
unsigned_of n bs = if length bs == n then some (be_value 0 bs) else none

abbrev sign_extended : ℕ → ℕ → ℕ
sign_extended n x = if ltb x (span n / 2) then x else x + (2 ^ 64 - span n)

abbrev signed_of : ℕ → List ℕ → Option ℕ
signed_of n bs = if length bs == n then some (sign_extended n (be_value 0 bs)) else none

abbrev fixint_of : ℕ → List ℕ → Option ℕ
fixint_of b [] =
    if ltb b 128 then some b else if leb 0xE0 b then some (2 ^ 64 - (256 - b)) else none
fixint_of b (c ∷ cs) = none

-- The integer, as a 64-bit pattern.
unfoldable pub integer_of : List ℕ → Option ℕ
integer_of [] = none
integer_of (b ∷ bs) =
    if b == 0xCC
    then unsigned_of 1 bs
    else if b == 0xCD
    then unsigned_of 2 bs
    else if b == 0xCE
    then unsigned_of 4 bs
    else if b == 0xCF
    then unsigned_of 8 bs
    else if b == 0xD0
    then signed_of 1 bs
    else if b == 0xD1
    then signed_of 2 bs
    else if b == 0xD2
    then signed_of 4 bs
    else if b == 0xD3
    then signed_of 8 bs
    else fixint_of b bs

-- The number of elements in a header: small ones in the byte, from a base on, or behind one of two
-- markers.
abbrev small_of : ℕ → ℕ → List ℕ → Option ℕ
small_of base b [] =
    if leb base b then (if ltb b (base + 16) then some (b - base) else none) else none
small_of base b (c ∷ cs) = none

abbrev count_of : ℕ → ℕ → List ℕ → Option ℕ
count_of base marker [] = none
count_of base marker (b ∷ bs) =
    if b == marker
    then unsigned_of 2 bs
    else if b == marker + 1
    then unsigned_of 4 bs
    else small_of base b bs

unfoldable pub array_count : List ℕ → Option ℕ
array_count bs = count_of 0x90 0xDC bs

unfoldable pub map_count : List ℕ → Option ℕ
map_count bs = count_of 0x80 0xDE bs

be_value-append : (a b : ℕ) (bs : List ℕ) → be_value a (bs ++ (b ∷ [])) ≡ 256 * be_value a bs + b
be_value-append a b [] = refl
be_value-append a b (c ∷ bs) = be_value-append (256 * a + c) b bs

be_value-be_bytes : (n v : ℕ) → v < span n → be_value 0 (be_bytes n v) ≡ v
unfolding be_bytes
be_value-be_bytes zero v h = omega arith
be_value-be_bytes (suc n) v h =
    be_value-append 0 (v % 256) (be_bytes n (v / 256))
    ∙ omega (arith, be_value-be_bytes n (v / 256) (omega arith))

unsigned_of-be_bytes : (n v : ℕ) → v < span n → unsigned_of n (be_bytes n v) ≡ some v
unsigned_of-be_bytes n v h =
    let size : (length (be_bytes n v) == n) ≡ true = ground (arith, length-be_bytes n v) in
    rw (size) (ap some (be_value-be_bytes n v h))

-- A negative number that n bytes hold.
signed_of-be_bytes :
    (n x q v : ℕ)
    → v ≡ x + q * span n
    → x < span n
    → sign_extended n x ≡ v
    → signed_of n (be_bytes n v) ≡ some v
signed_of-be_bytes n x q v cut low whole =
    let size : (length (be_bytes n v) == n) ≡ true = ground (arith, length-be_bytes n v) in
    let value : be_value 0 (be_bytes n v) ≡ x =
      ap (λ w. be_value 0 (be_bytes n w)) cut
      ∙ ap (be_value 0) (be_bytes-high n x q)
      ∙ be_value-be_bytes n x low in
    rw (size, value) (ap some whole)

pub integer_of-unsigned_bytes : (v : ℕ) → v < 2 ^ 64 → integer_of (unsigned_bytes v) ≡ some v
unfolding integer_of
integer_of-unsigned_bytes v h =
    ground (arith, unsigned_of-be_bytes 2 v, unsigned_of-be_bytes 4 v, unsigned_of-be_bytes 8 v)

signed_16 : (v : ℕ) → 2 ^ 64 - 2 ^ 15 ≤ v → v < 2 ^ 64 → signed_of 2 (be_bytes 2 v) ≡ some v
signed_16 v h k =
    signed_of-be_bytes 2 (v % 2 ^ 16) (2 ^ 48 - 1) v (omega arith) (omega arith) (ground arith)

signed_32 : (v : ℕ) → 2 ^ 64 - 2 ^ 31 ≤ v → v < 2 ^ 64 → signed_of 4 (be_bytes 4 v) ≡ some v
signed_32 v h k =
    signed_of-be_bytes 4 (v % 2 ^ 32) (2 ^ 32 - 1) v (omega arith) (omega arith) (ground arith)

signed_64 : (v : ℕ) → 2 ^ 63 ≤ v → v < 2 ^ 64 → signed_of 8 (be_bytes 8 v) ≡ some v
signed_64 v h k = signed_of-be_bytes 8 v 0 v (omega arith) (omega arith) (ground arith)

pub integer_of-integer_bytes : (v : ℕ) → v < 2 ^ 64 → integer_of (integer_bytes v) ≡ some v
unfolding integer_of
integer_of-integer_bytes v h =
    ground (arith, integer_of-unsigned_bytes v, signed_16 v, signed_32 v, signed_64 v)

pub array_count-array_header : (len : ℕ) → len < 2 ^ 32 → array_count (array_header len) ≡ some len
unfolding array_count
array_count-array_header len h =
    ground (arith, unsigned_of-be_bytes 2 len, unsigned_of-be_bytes 4 len)

pub map_count-map_header : (len : ℕ) → len < 2 ^ 32 → map_count (map_header len) ≡ some len
unfolding map_count
map_count-map_header len h = ground (arith, unsigned_of-be_bytes 2 len, unsigned_of-be_bytes 4 len)
