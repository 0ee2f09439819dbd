-- ===== src/Mpack/Message/Sizes.antt =====
-- The sizes that mpack/decode.c reads from the headers of mpack/encode.c.
use tag_highlight_nvim.Base.{
  ℕ, suc, ◌+◌, ◌^◌, ◌<◌, ◌≡◌, refl, ◌∙◌, true, false, List, [], ◌∷◌, ◌++◌, append_assoc, arith, ltb,
  ◌==◌, if◌then◌else◌, length, ok, undefined, ◌%◌,
}
use tag_highlight_nvim.Base.Bits.{all_below}
use tag_highlight_nvim.Mpack.Object.{Obj, str, arr, dict}
use tag_highlight_nvim.Mpack.Wire.{be_bytes}
use tag_highlight_nvim.Mpack.Mask.{
  mask, id_pack_type, g_array, g_map, g_string, m_array_f, m_array_16, m_array_32, m_fixmap_f,
  m_map_16, m_map_32, m_fixstr_f, m_str_8, m_str_16, m_str_32,
}
use tag_highlight_nvim.Mpack.Mask.Class.{id_pack_type-format_of}
use tag_highlight_nvim.Mpack.Encode.Header.{array_header, map_header, string_header}
use tag_highlight_nvim.Mpack.Decode.{
  Reads, do_decode, decode_group, decode_items, decode_entries, obj_read, pure, halt, ◌>>=◌,
}
use tag_highlight_nvim.Mpack.Message.Front.{
  obj_read-front, read_swapped-be_bytes, read_byte, decode_by, xor_table,
}

module _ (f : ℕ) (rest : List ℕ) where
  -- Arrays: the size is the low bits of the byte, or follows it.
  decode_array_small :
      (len : ℕ)
      → len < 16
      → do_decode obj_read (suc f) ((0x90 + len) ∷ rest)
        ≡ (decode_items obj_read (do_decode obj_read f) len >>= λ xs. pure (arr xs)) rest
  unfolding decode_group all_below
  decode_array_small len h =
      decode_by f (0x90 + len) (mask g_array m_array_f true 0x90 4) rest
        (id_pack_type-format_of (0x90 + len) (omega arith) ∙ ground arith)
      ∙ rw (xor_table 0x90 16 len refl h)

  decode_array_16 :
      (len : ℕ)
      → len < 2 ^ 16
      → do_decode obj_read (suc f) (0xDC ∷ be_bytes 2 len ++ rest)
        ≡ (decode_items obj_read (do_decode obj_read f) len >>= λ xs. pure (arr xs)) rest
  unfolding decode_group id_pack_type
  decode_array_16 len h =
      decode_by f 0xDC (mask g_array m_array_16 false 0xDC 0) (be_bytes 2 len ++ rest) refl
      ∙ rw (read_swapped-be_bytes 2 len rest (omega arith))

  decode_array_32 :
      (len : ℕ)
      → len < 2 ^ 32
      → do_decode obj_read (suc f) (0xDD ∷ be_bytes 4 len ++ rest)
        ≡ (decode_items obj_read (do_decode obj_read f) len >>= λ xs. pure (arr xs)) rest
  unfolding decode_group id_pack_type
  decode_array_32 len h =
      decode_by f 0xDD (mask g_array m_array_32 false 0xDD 0) (be_bytes 4 len ++ rest) refl
      ∙ rw (read_swapped-be_bytes 4 len rest (omega arith))

  pub decode_array_header :
      (len : ℕ)
      → len < 0xFFFFFFFF
      → do_decode obj_read (suc f) (array_header len ++ rest)
        ≡ (decode_items obj_read (do_decode obj_read f) len >>= λ xs. pure (arr xs)) rest
  decode_array_header len h =
      ground (arith, decode_array_small len, decode_array_16 len, decode_array_32 len)

  -- Dictionaries.
  decode_map_small :
      (len : ℕ)
      → len < 16
      → do_decode obj_read (suc f) ((0x80 + len) ∷ rest)
        ≡ (decode_entries obj_read (do_decode obj_read f) len >>= λ es. pure (dict es)) rest
  unfolding decode_group all_below
  decode_map_small len h =
      decode_by f (0x80 + len) (mask g_map m_fixmap_f true 0x80 4) rest
        (id_pack_type-format_of (0x80 + len) (omega arith) ∙ ground arith)
      ∙ rw (xor_table 0x80 16 len refl h)

  decode_map_16 :
      (len : ℕ)
      → len < 2 ^ 16
      → do_decode obj_read (suc f) (0xDE ∷ be_bytes 2 len ++ rest)
        ≡ (decode_entries obj_read (do_decode obj_read f) len >>= λ es. pure (dict es)) rest
  unfolding decode_group id_pack_type
  decode_map_16 len h =
      decode_by f 0xDE (mask g_map m_map_16 false 0xDE 0) (be_bytes 2 len ++ rest) refl
      ∙ rw (read_swapped-be_bytes 2 len rest (omega arith))

  decode_map_32 :
      (len : ℕ)
      → len < 2 ^ 32
      → do_decode obj_read (suc f) (0xDF ∷ be_bytes 4 len ++ rest)
        ≡ (decode_entries obj_read (do_decode obj_read f) len >>= λ es. pure (dict es)) rest
  unfolding decode_group id_pack_type
  decode_map_32 len h =
      decode_by f 0xDF (mask g_map m_map_32 false 0xDF 0) (be_bytes 4 len ++ rest) refl
      ∙ rw (read_swapped-be_bytes 4 len rest (omega arith))

  pub decode_map_header :
      (len : ℕ)
      → len < 0xFFFFFFFF
      → do_decode obj_read (suc f) (map_header len ++ rest)
        ≡ (decode_entries obj_read (do_decode obj_read f) len >>= λ es. pure (dict es)) rest
  decode_map_header len h =
      ground (arith, decode_map_small len, decode_map_16 len, decode_map_32 len)

-- Strings: the size, and then the bytes.
abbrev take_string : ℕ → Reads (List ℕ) Obj
take_string size = do
  bs ← (if ltb 0 size then obj_read size else pure [])
  if (size + 1) % 2 ^ 32 == 0 then halt undefined else pure (str bs)

take_string-front :
    (s rest : List ℕ)
    → length s < 0xFFFFFFFF
    → take_string (length s) (s ++ rest) ≡ ok (str s, rest)
take_string-front [] rest h = refl
take_string-front (x ∷ s) rest h =
    let fits : ((suc (length s) + 1) % 2 ^ 32 == 0) ≡ false = ground arith in
    let some_bytes : ltb 0 (suc (length s)) ≡ true = ground arith in
    rw (some_bytes, obj_read-front (x ∷ s) rest, fits)

module _ (f : ℕ) (rest : List ℕ) where
  decode_string_small :
      (len : ℕ) → len < 32 → do_decode obj_read (suc f) ((0xA0 + len) ∷ rest) ≡ take_string len rest
  unfolding decode_group all_below
  decode_string_small len h =
      decode_by f (0xA0 + len) (mask g_string m_fixstr_f true 0xA0 5) rest
        (id_pack_type-format_of (0xA0 + len) (omega arith) ∙ ground arith)
      ∙ rw (xor_table 0xA0 32 len refl h)

  decode_string_8 :
      (len : ℕ) → do_decode obj_read (suc f) (0xD9 ∷ len ∷ rest) ≡ take_string len rest
  unfolding decode_group id_pack_type
  decode_string_8 len =
      decode_by f 0xD9 (mask g_string m_str_8 false 0xD9 0) (len ∷ rest) refl
      ∙ rw (read_byte len rest)

  decode_string_16 :
      (len : ℕ)
      → len < 2 ^ 16
      → do_decode obj_read (suc f) (0xDA ∷ be_bytes 2 len ++ rest) ≡ take_string len rest
  unfolding decode_group id_pack_type
  decode_string_16 len h =
      decode_by f 0xDA (mask g_string m_str_16 false 0xDA 0) (be_bytes 2 len ++ rest) refl
      ∙ rw (read_swapped-be_bytes 2 len rest (omega arith))

  decode_string_32 :
      (len : ℕ)
      → len < 2 ^ 32
      → do_decode obj_read (suc f) (0xDB ∷ be_bytes 4 len ++ rest) ≡ take_string len rest
  unfolding decode_group id_pack_type
  decode_string_32 len h =
      decode_by f 0xDB (mask g_string m_str_32 false 0xDB 0) (be_bytes 4 len ++ rest) refl
      ∙ rw (read_swapped-be_bytes 4 len rest (omega arith))

  decode_string_header :
      (len : ℕ)
      → len < 0xFFFFFFFF
      → do_decode obj_read (suc f) (string_header len ++ rest) ≡ take_string len rest
  decode_string_header len h = ground (
    arith,
    decode_string_small len,
    decode_string_8 len,
    decode_string_16 len,
    decode_string_32 len,
  )

pub decode_string_bytes :
    (f : ℕ) (s rest : List ℕ)
    → length s < 0xFFFFFFFF
    → do_decode obj_read (suc f) ((string_header (length s) ++ s) ++ rest) ≡ ok (str s, rest)
decode_string_bytes f s rest h =
    rw (append_assoc (string_header (length s)) s rest)
      (decode_string_header f (s ++ rest) (length s) h ∙ take_string-front s rest h)
