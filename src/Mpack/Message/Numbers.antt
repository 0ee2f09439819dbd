-- ===== src/Mpack/Message/Numbers.antt =====
-- The integers that mpack/decode.c makes of what mpack/encode.c writes.
use tag_highlight_nvim.Base.{
  ℕ, suc, ◌+◌, ◌-◌, ◌*◌, ◌%◌, ◌^◌, ◌<◌, ◌≤◌, ◌≡◌, refl, ap, ◌∙◌, true, false, List, ◌∷◌, ◌++◌,
  arith, ltb, leb, if◌then◌else◌, ok,
}
use tag_highlight_nvim.Base.Bits.{all_below, bit_or_high}
use tag_highlight_nvim.Mpack.Object.{Obj, signed, unsigned}
use tag_highlight_nvim.Mpack.Wire.{span, be_bytes}
use tag_highlight_nvim.Mpack.Mask.{
  mask, id_pack_type, g_int, g_uint, g_plint, g_nlint, m_int_8, m_int_16, m_int_32, m_int_64,
  m_uint_8, m_uint_16, m_uint_32, m_uint_64, m_pos_int_f, m_neg_int_f,
}
use tag_highlight_nvim.Mpack.Mask.Class.{id_pack_type-format_of}
use tag_highlight_nvim.Mpack.Encode.Header.{integer_bytes, unsigned_bytes}
use tag_highlight_nvim.Mpack.Decode.{do_decode, decode_group, obj_read}
use tag_highlight_nvim.Mpack.Message.Front.{read_swapped-be_bytes, read_byte, decode_by, xor_table}
use tag_highlight_nvim.Mpack.Wire.{be_bytes-high}

-- The object that the decoder makes of an integer: one that is not negative comes back unsigned,
-- and those from -127 to -33 come back as -256.
abbrev pub decoded_integer : ℕ → Obj
decoded_integer n =
    if ltb n (2 ^ 63)
    then unsigned n
    else if leb (2 ^ 64 - 32) n
    then signed n
    else if ltb (2 ^ 64 - 128) n
    then signed (2 ^ 64 - 256)
    else signed n

module _ (f : ℕ) (rest : List ℕ) where
  decode_uint_fixed :
      (v : ℕ) → v < 128 → do_decode obj_read (suc f) (v ∷ rest) ≡ ok (unsigned v, rest)
  unfolding decode_group all_below
  decode_uint_fixed v h =
      let zero_add : 0 + v ≡ v = omega arith in
      decode_by f v (mask g_plint m_pos_int_f true 0x00 7) rest
        (id_pack_type-format_of v (omega arith) ∙ ground arith)
      ∙ rw (rw zero_add at (xor_table 0x00 128 v refl h))

  decode_uint_8 : (v : ℕ) → do_decode obj_read (suc f) (0xCC ∷ v ∷ rest) ≡ ok (unsigned v, rest)
  unfolding decode_group id_pack_type
  decode_uint_8 v =
      decode_by f 0xCC (mask g_uint m_uint_8 false 0xCC 0) (v ∷ rest) refl ∙ rw (read_byte v rest)

  decode_uint_16 :
      (v : ℕ)
      → v < 2 ^ 16
      → do_decode obj_read (suc f) (0xCD ∷ be_bytes 2 v ++ rest) ≡ ok (unsigned v, rest)
  unfolding decode_group id_pack_type
  decode_uint_16 v h =
      decode_by f 0xCD (mask g_uint m_uint_16 false 0xCD 0) (be_bytes 2 v ++ rest) refl
      ∙ rw (read_swapped-be_bytes 2 v rest (omega arith))

  decode_uint_32 :
      (v : ℕ)
      → v < 2 ^ 32
      → do_decode obj_read (suc f) (0xCE ∷ be_bytes 4 v ++ rest) ≡ ok (unsigned v, rest)
  unfolding decode_group id_pack_type
  decode_uint_32 v h =
      decode_by f 0xCE (mask g_uint m_uint_32 false 0xCE 0) (be_bytes 4 v ++ rest) refl
      ∙ rw (read_swapped-be_bytes 4 v rest (omega arith))

  decode_uint_64 :
      (v : ℕ)
      → v < 2 ^ 64
      → do_decode obj_read (suc f) (0xCF ∷ be_bytes 8 v ++ rest) ≡ ok (unsigned v, rest)
  unfolding decode_group id_pack_type
  decode_uint_64 v h =
      decode_by f 0xCF (mask g_uint m_uint_64 false 0xCF 0) (be_bytes 8 v ++ rest) refl
      ∙ rw (read_swapped-be_bytes 8 v rest (omega arith))

  pub decode_unsigned_bytes :
      (v : ℕ)
      → v < 2 ^ 64
      → do_decode obj_read (suc f) (unsigned_bytes v ++ rest) ≡ ok (unsigned v, rest)
  decode_unsigned_bytes v h = ground (
    arith,
    decode_uint_fixed v,
    decode_uint_8 v,
    decode_uint_16 v,
    decode_uint_32 v,
    decode_uint_64 v,
  )

  decode_int_fixed :
      (v : ℕ)
      → 2 ^ 64 - 32 ≤ v
      → v < 2 ^ 64
      → do_decode obj_read (suc f) (v % 256 ∷ rest) ≡ ok (signed v, rest)
  unfolding decode_group all_below
  decode_int_fixed v h k =
      let r = v % 256 - 0xE0 in
      let byte : v % 256 ≡ 0xE0 + r = omega arith in
      let whole : r + (2 ^ 59 - 1) * 2 ^ 5 ≡ v = omega arith in
      decode_by f (v % 256) (mask g_nlint m_neg_int_f true 0xE0 5) rest
        (id_pack_type-format_of (v % 256) (omega arith) ∙ ground arith)
      ∙ rw (
        byte,
        xor_table 0xE0 32 r refl (omega arith),
        bit_or_high 5 (2 ^ 59 - 1) r (omega arith),
        whole,
      )

  -- The byte of an INT_8 does not matter.
  decode_int_8 :
      (b : ℕ) → do_decode obj_read (suc f) (0xD0 ∷ b ∷ rest) ≡ ok (signed (2 ^ 64 - 256), rest)
  unfolding decode_group id_pack_type
  decode_int_8 b =
      decode_by f 0xD0 (mask g_int m_int_8 false 0xD0 0) (b ∷ rest) refl ∙ rw (read_byte b rest)

  -- A negative integer, cut to n bytes and read back.
  decode_int_16 :
      (v : ℕ)
      → 2 ^ 64 - 2 ^ 15 ≤ v
      → v < 2 ^ 64
      → do_decode obj_read (suc f) (0xD1 ∷ be_bytes 2 v ++ rest) ≡ ok (signed v, rest)
  unfolding decode_group id_pack_type
  decode_int_16 v h k =
      let x = v % 2 ^ 16 in
      let cut : v ≡ x + (2 ^ 48 - 1) * span 2 = omega arith in
      let written : be_bytes 2 v ≡ be_bytes 2 x =
        ap (be_bytes 2) cut ∙ be_bytes-high 2 x (2 ^ 48 - 1) in
      let whole : x + (2 ^ 48 - 1) * 2 ^ 16 ≡ v = omega arith in
      decode_by f 0xD1 (mask g_int m_int_16 false 0xD1 0) (be_bytes 2 v ++ rest) refl
      ∙ rw (written, read_swapped-be_bytes 2 x rest (omega arith))
          (rw (bit_or_high 16 (2 ^ 48 - 1) x (omega arith), whole))

  decode_int_32 :
      (v : ℕ)
      → 2 ^ 64 - 2 ^ 31 ≤ v
      → v < 2 ^ 64
      → do_decode obj_read (suc f) (0xD2 ∷ be_bytes 4 v ++ rest) ≡ ok (signed v, rest)
  unfolding decode_group id_pack_type
  decode_int_32 v h k =
      let x = v % 2 ^ 32 in
      let cut : v ≡ x + (2 ^ 32 - 1) * span 4 = omega arith in
      let written : be_bytes 4 v ≡ be_bytes 4 x =
        ap (be_bytes 4) cut ∙ be_bytes-high 4 x (2 ^ 32 - 1) in
      let whole : x + (2 ^ 32 - 1) * 2 ^ 32 ≡ v = omega arith in
      decode_by f 0xD2 (mask g_int m_int_32 false 0xD2 0) (be_bytes 4 v ++ rest) refl
      ∙ rw (written, read_swapped-be_bytes 4 x rest (omega arith))
          (rw (bit_or_high 32 (2 ^ 32 - 1) x (omega arith), whole))

  decode_int_64 :
      (v : ℕ)
      → v < 2 ^ 64
      → do_decode obj_read (suc f) (0xD3 ∷ be_bytes 8 v ++ rest) ≡ ok (signed v, rest)
  unfolding decode_group id_pack_type
  decode_int_64 v h =
      decode_by f 0xD3 (mask g_int m_int_64 false 0xD3 0) (be_bytes 8 v ++ rest) refl
      ∙ rw (read_swapped-be_bytes 8 v rest (omega arith))

  pub decode_integer_bytes :
      (v : ℕ)
      → v < 2 ^ 64
      → do_decode obj_read (suc f) (integer_bytes v ++ rest) ≡ ok (decoded_integer v, rest)
  decode_integer_bytes v h = ground (
    arith,
    decode_unsigned_bytes v,
    decode_int_fixed v,
    decode_int_8 (v % 256),
    decode_int_16 v,
    decode_int_32 v,
    decode_int_64 v,
  )
