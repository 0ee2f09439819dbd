-- ===== src/Mpack/Encode/Header.antt =====
-- What the encoders of mpack/encode.c append, and the room that sanity_check makes.
use tag_highlight_nvim.Base.{
  ℕ, ◌+◌, ◌-◌, ◌%◌, ◌^◌, ◌<◌, ◌≤◌, ◌≡◌, refl, bit_or, Bool, true, List, [], ◌∷◌, arith, ltb, leb,
  ◌==◌, ==_iff, ap, ◌∙◌, lt→ltb, if◌then◌else◌, length, Option, ok, ◌>>=◌,
}
use mathlib.Core.Path.{fun_ext}
use tag_highlight_nvim.Base.Bits.{all_below, all_below_sound}
use tag_highlight_nvim.Mpack.Wire.{encode_uint, be_bytes, encode_uint-be_bytes}
use tag_highlight_nvim.Mpack.Bstring.{
  Bstring, Bstrings, write, write_all, write-write_all, write-eq-write_all,
}
use tag_highlight_nvim.Mpack.Encode.{
  sanity_check, mpack_encode_array, mpack_encode_dictionary, mpack_encode_integer,
  mpack_encode_unsigned, mpack_encode_string, mpack_encode_boolean, mpack_encode_nil, or_empty,
  put_string_header, put_uint,
}

-- The bytes that the format prescribes for a header, the shortest form first. The boundary values
-- 255 and 65535 take the next longer form where the program's tests are strict.
abbrev pub array_header : ℕ → List ℕ
array_header len =
    if ltb len 16
    then (0x90 + len) ∷ []
    else if ltb len 0xFFFF
    then 0xDC ∷ be_bytes 2 len
    else 0xDD ∷ be_bytes 4 len

abbrev pub map_header : ℕ → List ℕ
map_header len =
    if ltb len 16
    then (0x80 + len) ∷ []
    else if ltb len 0xFFFF
    then 0xDE ∷ be_bytes 2 len
    else 0xDF ∷ be_bytes 4 len

abbrev pub string_header : ℕ → List ℕ
string_header len =
    if ltb len 32
    then (0xA0 + len) ∷ []
    else if ltb len 0xFF
    then 0xD9 ∷ len ∷ []
    else if ltb len 0xFFFF
    then 0xDA ∷ be_bytes 2 len
    else 0xDB ∷ be_bytes 4 len

abbrev pub unsigned_bytes : ℕ → List ℕ
unsigned_bytes v =
    if leb v 127
    then v ∷ []
    else if ltb v 0xFF
    then 0xCC ∷ v ∷ []
    else if leb v 0xFFFF
    then 0xCD ∷ be_bytes 2 v
    else if leb v 0xFFFFFFFF
    then 0xCE ∷ be_bytes 4 v
    else 0xCF ∷ be_bytes 8 v

abbrev negative_bytes : ℕ → List ℕ
negative_bytes v =
    if leb (2 ^ 64 - 32) v
    then v % 256 ∷ []
    else if ltb (2 ^ 64 - 2 ^ 7) v
    then 0xD0 ∷ v % 256 ∷ []
    else if leb (2 ^ 64 - 2 ^ 15) v
    then 0xD1 ∷ be_bytes 2 v
    else if leb (2 ^ 64 - 2 ^ 31) v
    then 0xD2 ∷ be_bytes 4 v
    else 0xD3 ∷ be_bytes 8 v

abbrev pub integer_bytes : ℕ → List ℕ
integer_bytes v = if ltb v (2 ^ 63) then unsigned_bytes v else negative_bytes v

-- A marker and a small length.
or_table : (m n x : ℕ) → all_below n (λ r. bit_or m r == m + r) ≡ true → x < n → bit_or m x ≡ m + x
or_table m n x t h =
    (==_iff (bit_or m x) (m + x)).0 (all_below_sound (λ r. bit_or m r == m + r) n t x h)

array_mark : (len : ℕ) → len < 16 → bit_or 0x90 (len % 256) ≡ 0x90 + len
unfolding all_below
array_mark len h = let e : len % 256 ≡ len = omega arith in rw e (or_table 0x90 16 len refl h)

map_mark : (len : ℕ) → len < 16 → bit_or 0x80 (len % 256) ≡ 0x80 + len
unfolding all_below
map_mark len h = let e : len % 256 ≡ len = omega arith in rw e (or_table 0x80 16 len refl h)

string_mark : (len : ℕ) → len < 32 → bit_or 0xA0 (len % 256) ≡ 0xA0 + len
unfolding all_below
string_mark len h = let e : len % 256 ≡ len = omega arith in rw e (or_table 0xA0 32 len refl h)

put_uint_lem :
    (marker n v : ℕ) (p : Bstring) → put_uint marker n v p ≡ write_all (marker ∷ be_bytes n v) p
put_uint_lem marker n v p =
    write-write_all marker (encode_uint n v) p
    ∙ ap (λ bs. write_all (marker ∷ bs) p) (encode_uint-be_bytes n v)

two_bytes : (x y : ℕ) (p : Bstring) → (write x p >>= write y) ≡ write_all (x ∷ y ∷ []) p
two_bytes x y p =
    ap (λ k. write x p >>= k) (fun_ext (λ q. write-eq-write_all y q)) ∙ write-write_all x (y ∷ []) p

put_string_header_lem :
    (len : ℕ) (p : Bstring) → put_string_header len p ≡ write_all (string_header len) p
put_string_header_lem len p = ground (
  arith,
  string_mark len,
  write-eq-write_all (0xA0 + len) p,
  two_bytes 0xD9 (len % 256) p,
  put_uint_lem 0xDA 2 len p,
  put_uint_lem 0xDB 4 len p,
)

module _ (B : Bstrings) where
  pub encode_array-header :
      (len : ℕ) (p : Bstring)
      → len < 0xFFFFFFFF
      → mpack_encode_array B len p ≡ write_all (array_header len) (sanity_check B 64 p)
  unfolding mpack_encode_array
  encode_array-header len p h = ground (
    arith,
    array_mark len,
    write-eq-write_all (0x90 + len) (sanity_check B 64 p),
    put_uint_lem 0xDC 2 len (sanity_check B 64 p),
    put_uint_lem 0xDD 4 len (sanity_check B 64 p),
  )

  pub encode_dictionary-header :
      (len : ℕ) (p : Bstring)
      → len < 0xFFFFFFFF
      → mpack_encode_dictionary B len p ≡ write_all (map_header len) (sanity_check B 64 p)
  unfolding mpack_encode_dictionary
  encode_dictionary-header len p h = ground (
    arith,
    map_mark len,
    write-eq-write_all (0x80 + len) (sanity_check B 64 p),
    put_uint_lem 0xDE 2 len (sanity_check B 64 p),
    put_uint_lem 0xDF 4 len (sanity_check B 64 p),
  )

  pub encode_unsigned-bytes :
      (v : ℕ) (p : Bstring)
      → mpack_encode_unsigned B v p ≡ write_all (unsigned_bytes v) (sanity_check B 15 p)
  unfolding mpack_encode_unsigned
  encode_unsigned-bytes v p = ground (
    arith,
    write-eq-write_all (v % 256) (sanity_check B 15 p),
    two_bytes 0xCC (v % 256) (sanity_check B 15 p),
    put_uint_lem 0xCD 2 v (sanity_check B 15 p),
    put_uint_lem 0xCE 4 v (sanity_check B 15 p),
    put_uint_lem 0xCF 8 v (sanity_check B 15 p),
  )

  encode_negative-bytes :
      (v : ℕ) (p : Bstring)
      → 2 ^ 63 ≤ v
      → mpack_encode_integer B v p ≡ write_all (negative_bytes v) (sanity_check B 15 p)
  unfolding mpack_encode_integer
  encode_negative-bytes v p h = ground (
    arith,
    write-eq-write_all (v % 256) (sanity_check B 15 p),
    two_bytes 0xD0 (v % 256) (sanity_check B 15 p),
    put_uint_lem 0xD1 2 v (sanity_check B 15 p),
    put_uint_lem 0xD2 4 v (sanity_check B 15 p),
    put_uint_lem 0xD3 8 v (sanity_check B 15 p),
  )

  -- A value that is not negative takes the branches of the unsigned encoder.
  encode_integer-unsigned :
      (v : ℕ) (p : Bstring) → v < 2 ^ 63 → mpack_encode_integer B v p ≡ mpack_encode_unsigned B v p
  unfolding mpack_encode_integer mpack_encode_unsigned
  encode_integer-unsigned v p h = rw (lt→ltb v (2 ^ 63) h)

  pub encode_integer-bytes :
      (v : ℕ) (p : Bstring)
      → mpack_encode_integer B v p ≡ write_all (integer_bytes v) (sanity_check B 15 p)
  encode_integer-bytes v p =
      ground
        (arith, encode_integer-unsigned v p, encode_unsigned-bytes v p, encode_negative-bytes v p)

  pub encode_string-header :
      (string : Option (List ℕ)) (p : Bstring)
      → mpack_encode_string B string p ≡ (
          write_all
            (string_header (length (or_empty string)))
            (sanity_check B ((length (or_empty string) + 5) % 2 ^ 32) p)
          >>= λ q. ok (B.b_concat q (or_empty string)))
  unfolding mpack_encode_string
  encode_string-header string p =
      ap (λ r. r >>= λ q. ok (B.b_concat q (or_empty string)))
        (put_string_header_lem (length (or_empty string)) _)

  pub encode_boolean-bytes :
      (b : Bool) (p : Bstring)
      → mpack_encode_boolean B b p
        ≡ write_all ((if b then 0xC3 else 0xC2) ∷ []) (sanity_check B 2 p)
  unfolding mpack_encode_boolean
  encode_boolean-bytes b p = write-eq-write_all _ _

  pub encode_nil-bytes :
      (p : Bstring) → mpack_encode_nil B p ≡ write_all (0xC0 ∷ []) (sanity_check B 2 p)
  unfolding mpack_encode_nil
  encode_nil-bytes p = write-eq-write_all _ _
