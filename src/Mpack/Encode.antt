-- ===== src/Mpack/Encode.antt =====
-- mpack/encode.c, as a build without DEBUG runs it: the root has no MPACKFLG_ENCODE and `itemp` is
-- NULL, so that an encoder only appends bytes to the root's `packed` string.
pub mod Header
pub mod Format
pub mod Room
use tag_highlight_nvim.Base.{
  ℕ, ◌+◌, ◌-◌, ◌*◌, ◌%◌, ◌^◌, bit_or, Bool, true, false, List, Option, none, some, [], ltb, leb,
  if◌then◌else◌, length, Result, ok, stop, exit, ◌>>=◌,
}
use tag_highlight_nvim.Mpack.Wire.{encode_uint}
use tag_highlight_nvim.Mpack.Bstring.{Bstring, Bstrings, write, write_all}

-- `errx(1, …)` for a length that no header can hold; else the marker and the length.
abbrev pub put_uint : ℕ → ℕ → ℕ → Bstring → Result Bstring
put_uint marker n v p = write marker p >>= write_all (encode_uint n v)

-- A NULL string is the empty one.
abbrev pub or_empty : Option (List ℕ) → List ℕ
or_empty none = []
or_empty (some s) = s

abbrev pub put_string_header : ℕ → Bstring → Result Bstring
put_string_header slen p =
    if ltb slen 32
    then write (bit_or 0xA0 (slen % 256)) p
    else if ltb slen 0xFF
    then write 0xD9 p >>= write (slen % 256)
    else if ltb slen 0xFFFF
    then put_uint 0xDA 2 slen p
    else put_uint 0xDB 4 slen p

module _ (B : Bstrings) where
  open B use {b_alloc, b_concat, b_alloc_null}

  -- The subtraction is of 32-bit unsigned numbers, as is the product.
  unfoldable pub sanity_check : ℕ → Bstring → Bstring
  sanity_check check p =
      if ltb ((p.mlen + 2 ^ 32 - check) % 2 ^ 32) (length p.bytes)
      then b_alloc p (p.mlen * 2 % 2 ^ 32)
      else p

  unfoldable pub mpack_make_new : Bstring
  mpack_make_new = b_alloc_null 128

  unfoldable pub mpack_encode_array : ℕ → Bstring → Result Bstring
  unfolding sanity_check
  mpack_encode_array len root =
      let p = sanity_check 64 root in
      if ltb len 16
      then write (bit_or 0x90 (len % 256)) p
      else if ltb len 0xFFFF
      then put_uint 0xDC 2 len p
      else if ltb len 0xFFFFFFFF
      then put_uint 0xDD 4 len p
      else stop (exit 1)

  unfoldable pub mpack_encode_dictionary : ℕ → Bstring → Result Bstring
  unfolding sanity_check
  mpack_encode_dictionary len root =
      let p = sanity_check 64 root in
      if ltb len 16
      then write (bit_or 0x80 (len % 256)) p
      else if ltb len 0xFFFF
      then put_uint 0xDE 2 len p
      else if ltb len 0xFFFFFFFF
      then put_uint 0xDF 4 len p
      else stop (exit 1)

  -- The value is the 64-bit pattern of an int64_t: below 2^63 it is not negative, and -k is
  -- 2^64 - k. The last test of either half of the C function cannot fail.
  unfoldable pub mpack_encode_integer : ℕ → Bstring → Result Bstring
  unfolding sanity_check
  mpack_encode_integer value root =
      let p = sanity_check 15 root in
      if ltb value (2 ^ 63)
      then (if leb value 127
          then write (value % 256) p
          else if ltb value 0xFF
          then write 0xCC p >>= write (value % 256)
          else if leb value 0xFFFF
          then put_uint 0xCD 2 value p
          else if leb value 0xFFFFFFFF
          then put_uint 0xCE 4 value p
          else put_uint 0xCF 8 value p)
      else (if leb (2 ^ 64 - 32) value
          then write (value % 256) p
          else if ltb (2 ^ 64 - 2 ^ 7) value
          then write 0xD0 p >>= write (value % 256)
          else if leb (2 ^ 64 - 2 ^ 15) value
          then put_uint 0xD1 2 value p
          else if leb (2 ^ 64 - 2 ^ 31) value
          then put_uint 0xD2 4 value p
          else put_uint 0xD3 8 value p)

  unfoldable pub mpack_encode_unsigned : ℕ → Bstring → Result Bstring
  unfolding sanity_check
  mpack_encode_unsigned value root =
      let p = sanity_check 15 root in
      if leb value 127
      then write (value % 256) p
      else if ltb value 0xFF
      then write 0xCC p >>= write (value % 256)
      else if leb value 0xFFFF
      then put_uint 0xCD 2 value p
      else if leb value 0xFFFFFFFF
      then put_uint 0xCE 4 value p
      else put_uint 0xCF 8 value p

  unfoldable pub mpack_encode_string : Option (List ℕ) → Bstring → Result Bstring
  unfolding sanity_check
  mpack_encode_string string root =
      let s = or_empty string in
      let p = sanity_check ((length s + 5) % 2 ^ 32) root in
      put_string_header (length s) p >>= λ q. ok (b_concat q s)

  unfoldable pub mpack_encode_boolean : Bool → Bstring → Result Bstring
  unfolding sanity_check
  mpack_encode_boolean value root = write (if value then 0xC3 else 0xC2) (sanity_check 2 root)

  unfoldable pub mpack_encode_nil : Bstring → Result Bstring
  unfolding sanity_check
  mpack_encode_nil root = write 0xC0 (sanity_check 2 root)
