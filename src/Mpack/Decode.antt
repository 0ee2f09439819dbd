-- ===== src/Mpack/Decode.antt =====
-- mpack/decode.c: the decoder over any reader, and the reader of a buffer.
pub mod Fuel
use tag_highlight_nvim.Base.{
  ℕ, zero, suc, ◌+◌, ◌*◌, ◌-◌, ◌%◌, ◌^◌, bit_or, bit_xor, Bool, true, false, List, [], ◌∷◌, ◌++◌,
  ltb, ◌==◌, if◌then◌else◌, length, take, drop, replicate, Stop, Result, ok, stop, exit, undefined,
  ◌≡◌, refl, out_of_fuel,
}
use tag_highlight_nvim.Mpack.Object.{
  Obj, Objs, Entries, nil, boolean, signed, unsigned, ext, str, arr, dict, no_objs, obj_cons,
  no_entries, entry,
}
use tag_highlight_nvim.Mpack.Wire.{of_le, bswap}
use tag_highlight_nvim.Mpack.Mask.{
  Group, g_nil, g_bool, g_array, g_map, g_string, g_bin, g_int, g_uint, g_plint, g_nlint, g_ext,
  MaskType, m_true, m_false, m_array_16, m_array_32, m_map_16, m_map_32, m_str_8, m_str_16,
  m_str_32, m_int_8, m_int_16, m_int_32, m_int_64, m_uint_8, m_uint_16, m_uint_32, m_uint_64,
  m_fixext_1, m_fixext_2, m_fixext_4, m_fixext_8, m_ext_8, Mask, id_pack_type,
}

-- Code that reads from a source with state S.
abbrev pub Reads : Type 0 → Type 0 → Type 0
Reads S A = S → Result (A × S)

abbrev pub pure : {S A : Type 0} → A → Reads S A
pure a s = ok (a, s)

abbrev pub halt : {S A : Type 0} → Stop → Reads S A
halt e s = stop e

-- A call that does not read.
abbrev pub lift : {S A : Type 0} → Result A → Reads S A
lift (ok a) = λ s. ok (a, s)
lift (stop e) = λ s. stop e

abbrev pub and_then : {S A B : Type 0} → Result (A × S) → (A → Reads S B) → Result (B × S)
and_then (ok (a, s)) f = f a s
and_then (stop e) f = stop e

infixl 5 ◌>>=◌
abbrev pub ◌>>=◌ : {S A B : Type 0} → Reads S A → (A → Reads S B) → Reads S B
m >>= f = λ s. and_then (m s) f

-- read_fn: the given number of bytes.
abbrev pub Reader : Type 0 → Type 0
Reader S = ℕ → Reads S (List ℕ)

module _ {S : Type 0} (READ : Reader S) where
  -- `READ(src, &tmp, n)` into an unsigned integer of n bytes.
  abbrev pub read_uint : ℕ → Reads S ℕ
  read_uint n = do bs ← READ n; pure (of_le bs)

  -- The same, and the bytes swapped.
  abbrev pub read_swapped : ℕ → Reads S ℕ
  read_swapped n = do tmp ← read_uint n; pure (bswap n tmp)

  unfoldable pub array_size_field : MaskType → Reads S ℕ
  array_size_field m_array_16 = read_swapped 2
  array_size_field m_array_32 = read_swapped 4
  array_size_field _ = halt (exit 1)

  unfoldable pub array_size : ℕ → Mask → Reads S ℕ
  unfolding array_size_field
  array_size ch mask = if mask.fixed then pure (bit_xor ch mask.val) else array_size_field mask.type

  unfoldable pub map_size_field : MaskType → Reads S ℕ
  map_size_field m_map_16 = read_swapped 2
  map_size_field m_map_32 = read_swapped 4
  map_size_field _ = halt (exit 1)

  unfoldable pub map_size : ℕ → Mask → Reads S ℕ
  unfolding map_size_field
  map_size ch mask = if mask.fixed then pure (bit_xor ch mask.val) else map_size_field mask.type

  unfoldable pub string_size_field : MaskType → Reads S ℕ
  string_size_field m_str_8 = read_uint 1
  string_size_field m_str_16 = read_swapped 2
  string_size_field m_str_32 = read_swapped 4
  string_size_field _ = halt (exit 1)

  unfoldable pub string_size : ℕ → Mask → Reads S ℕ
  unfolding string_size_field
  string_size ch mask =
      if mask.fixed then pure (bit_xor ch mask.val) else string_size_field mask.type

  -- The string has room for `size + 1` bytes, in 32 bits: for the largest size it has none, and what is
  -- read is written outside it.
  unfoldable pub decode_string : ℕ → Mask → Reads S Obj
  unfolding string_size
  decode_string ch mask = do
    size ← string_size ch mask
    bs ← (if ltb 0 size then READ size else pure [])
    if (size + 1) % 2 ^ 32 == 0 then halt undefined else pure (str bs)

  -- M_INT_8 reads the byte and does not use it.
  unfoldable pub integer_field : MaskType → Reads S Obj
  integer_field m_int_8 = do tmp ← read_uint 1; pure (signed (bit_or 0 0xFFFFFFFFFFFFFF00))
  integer_field m_int_16 = do v ← read_swapped 2; pure (signed (bit_or v 0xFFFFFFFFFFFF0000))
  integer_field m_int_32 = do v ← read_swapped 4; pure (signed (bit_or v 0xFFFFFFFF00000000))
  integer_field m_int_64 = do v ← read_swapped 8; pure (signed v)
  integer_field _ = halt (exit 1)

  unfoldable pub decode_integer : ℕ → Mask → Reads S Obj
  unfolding integer_field
  decode_integer ch mask =
      if mask.fixed
      then pure (signed (bit_or (bit_xor ch mask.val) 0xFFFFFFFFFFFFFFE0))
      else integer_field mask.type

  unfoldable pub unsigned_field : MaskType → Reads S Obj
  unsigned_field m_uint_8 = do v ← read_uint 1; pure (unsigned v)
  unsigned_field m_uint_16 = do v ← read_swapped 2; pure (unsigned v)
  unsigned_field m_uint_32 = do v ← read_swapped 4; pure (unsigned v)
  unsigned_field m_uint_64 = do v ← read_swapped 8; pure (unsigned v)
  unsigned_field _ = halt (exit 1)

  unfoldable pub decode_unsigned : ℕ → Mask → Reads S Obj
  unfolding unsigned_field
  decode_unsigned ch mask =
      if mask.fixed then pure (unsigned (bit_xor ch mask.val)) else unsigned_field mask.type

  -- The union is zeroed first; its first bytes are those of the message.
  abbrev pub read_ext : ℕ → ℕ → Reads S Obj
  read_ext type n = do bs ← READ n; pure (ext type n (bs ++ replicate (8 - n) 0))

  abbrev pub read_ext_8 : Reads S Obj
  read_ext_8 = do
    len ← read_uint 1
    type ← read_uint 1
    if ltb 8 len then halt (exit 1) else read_ext type len

  unfoldable pub ext_field : MaskType → Reads S Obj
  ext_field m_fixext_1 = do type ← read_uint 1; read_ext type 1
  ext_field m_fixext_2 = do type ← read_uint 1; read_ext type 2
  ext_field m_fixext_4 = do type ← read_uint 1; read_ext type 4
  ext_field m_fixext_8 = do type ← read_uint 1; read_ext type 8
  ext_field m_ext_8 = read_ext_8
  ext_field _ = halt (exit 1)

  unfoldable pub decode_ext : Mask → Reads S Obj
  unfolding ext_field
  decode_ext mask = ext_field mask.type

  unfoldable pub bool_field : MaskType → Reads S Obj
  bool_field m_true = pure (boolean true)
  bool_field m_false = pure (boolean false)
  bool_field _ = halt (exit 1)

  unfoldable pub decode_bool : Mask → Reads S Obj
  unfolding bool_field
  decode_bool mask = bool_field mask.type

  -- The loops of decode_array and decode_dictionary over `decode`, which is do_decode.
  unfoldable pub decode_items : Reads S Obj → ℕ → Reads S Objs
  decode_items decode zero = pure no_objs
  decode_items decode (suc n) = do x ← decode; xs ← decode_items decode n; pure (obj_cons x xs)

  unfoldable pub decode_entries : Reads S Obj → ℕ → Reads S Entries
  decode_entries decode zero = pure no_entries
  decode_entries decode (suc n) = do
    k ← decode
    v ← decode
    es ← decode_entries decode n
    pure (entry k v es)

  unfoldable pub decode_array : Reads S Obj → ℕ → Mask → Reads S Obj
  unfolding array_size decode_items
  decode_array decode ch mask = do
    size ← array_size ch mask
    xs ← decode_items decode size
    pure (arr xs)

  unfoldable pub decode_dictionary : Reads S Obj → ℕ → Mask → Reads S Obj
  unfolding map_size decode_entries
  decode_dictionary decode ch mask = do
    size ← map_size ch mask
    es ← decode_entries decode size
    pure (dict es)

  -- The switch of do_decode.
  unfoldable pub decode_group_of : Reads S Obj → ℕ → Mask → Group → Reads S Obj
  unfolding decode_bool decode_array decode_dictionary decode_string decode_ext decode_integer
      decode_unsigned
  decode_group_of decode ch mask g_nil = pure nil
  decode_group_of decode ch mask g_bool = decode_bool mask
  decode_group_of decode ch mask g_array = decode_array decode ch mask
  decode_group_of decode ch mask g_map = decode_dictionary decode ch mask
  decode_group_of decode ch mask g_string = decode_string ch mask
  decode_group_of decode ch mask g_ext = decode_ext mask
  decode_group_of decode ch mask g_nlint = decode_integer ch mask
  decode_group_of decode ch mask g_int = decode_integer ch mask
  decode_group_of decode ch mask g_plint = decode_unsigned ch mask
  decode_group_of decode ch mask g_uint = decode_unsigned ch mask
  decode_group_of decode ch mask g_bin = halt (exit 2)

  unfoldable pub decode_group : Reads S Obj → ℕ → Mask → Reads S Obj
  unfolding decode_group_of
  decode_group decode ch mask = decode_group_of decode ch mask mask.group

  -- Each level of nesting takes a unit of fuel.
  unfoldable pub do_decode : ℕ → Reads S Obj
  unfolding decode_group id_pack_type
  do_decode zero = halt out_of_fuel
  do_decode (suc f) = do
    ch ← read_uint 1
    mask ← lift (id_pack_type ch)
    decode_group (do_decode f) ch mask

-- obj_read: the first bytes of a buffer, which it must have.
unfoldable pub obj_read : Reader (List ℕ)
obj_read n buf = if ltb (length buf) n then stop (exit 1) else ok (take n buf, drop n buf)

-- mpack_decode_obj: the outermost object must be an array.
unfoldable pub expect_array : Obj → Result Obj
expect_array (arr xs) = ok (arr xs)
expect_array _ = stop (exit 1)

unfoldable pub mpack_decode_obj : List ℕ → Result (Obj × List ℕ)
unfolding do_decode obj_read expect_array
mpack_decode_obj buf = (do_decode obj_read (suc (length buf)) >>= λ o. lift (expect_array o)) buf
