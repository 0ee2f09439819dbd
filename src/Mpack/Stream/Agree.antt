-- ===== src/Mpack/Stream/Agree.antt =====
-- The decoder of mpack/decode.c on a socket and on a buffer: where the packets end does not matter.
use tag_highlight_nvim.Base.{
  ℕ, zero, suc, ◌+◌, ◌%◌, ◌^◌, bit_xor, Bool, true, false, List, ltb, ◌==◌, if◌then◌else◌,
  undefined, Stop, exit, out_of_fuel,
}
use tag_highlight_nvim.Mpack.Object.{Obj}
use tag_highlight_nvim.Mpack.Mask.{
  Group, g_nil, g_bool, g_array, g_map, g_string, g_bin, g_int, g_uint, g_plint, g_nlint, g_ext,
  MaskType, m_true, m_false, m_array_16, m_array_32, m_map_16, m_map_32, m_str_8, m_str_16,
  m_str_32, m_int_8, m_int_16, m_int_32, m_int_64, m_uint_8, m_uint_16, m_uint_32, m_uint_64,
  m_fixext_1, m_fixext_2, m_fixext_4, m_fixext_8, m_ext_8, Mask, id_pack_type,
}
use tag_highlight_nvim.Mpack.Decode.{
  Reads, pure, halt, ◌>>=◌, read_uint, read_swapped, array_size, array_size_field, map_size,
  map_size_field, string_size, string_size_field, integer_field, unsigned_field, read_ext,
  read_ext_8, ext_field, bool_field, decode_items, decode_entries, decode_group_of, decode_group,
  do_decode, decode_string,
}
use tag_highlight_nvim.Mpack.Stream.{Socket, stream_read}
use tag_highlight_nvim.Mpack.Stream.Recv.{
  IsOpen, arrived, buffer_read, Agree, Agrees, both, same, bind, lifted, stream_read-Agrees,
}

module _ (e : Stop) where
  read_uint-Agrees : (n : ℕ) → Agrees e (read_uint (buffer_read e) n) (read_uint stream_read n)
  read_uint-Agrees n sock live = bind _ _ (stream_read-Agrees e n sock live) λ bs s l. both s l

  read_swapped-Agrees :
      (n : ℕ) → Agrees e (read_swapped (buffer_read e) n) (read_swapped stream_read n)
  read_swapped-Agrees n sock live = bind _ _ (read_uint-Agrees n sock live) λ v s l. both s l

  -- A number that is read, and what is made of it.
  value-Agrees :
      {A : Type 0} (n : ℕ) (f : ℕ → A)
      → Agrees e
          (read_swapped (buffer_read e) n >>= λ v. pure (f v))
          (read_swapped stream_read n >>= λ v. pure (f v))
  value-Agrees n f sock live = bind _ _ (read_swapped-Agrees n sock live) λ v s l. both s l

  exits : {A : Type 0} (n : ℕ) → Agrees e {A = A} (halt (exit n)) (halt (exit n))
  exits n sock live = same (exit n)

  array_size-Agrees :
      (t : MaskType)
      → Agrees e (array_size_field (buffer_read e) t) (array_size_field stream_read t)
  unfolding array_size_field
  array_size-Agrees m_array_16 sock live = read_swapped-Agrees 2 sock live
  array_size-Agrees m_array_32 sock live = read_swapped-Agrees 4 sock live
  array_size-Agrees _ sock live = exits 1 sock live

  map_size-Agrees :
      (t : MaskType) → Agrees e (map_size_field (buffer_read e) t) (map_size_field stream_read t)
  unfolding map_size_field
  map_size-Agrees m_map_16 sock live = read_swapped-Agrees 2 sock live
  map_size-Agrees m_map_32 sock live = read_swapped-Agrees 4 sock live
  map_size-Agrees _ sock live = exits 1 sock live

  string_size-Agrees :
      (t : MaskType)
      → Agrees e (string_size_field (buffer_read e) t) (string_size_field stream_read t)
  unfolding string_size_field
  string_size-Agrees m_str_8 sock live = read_uint-Agrees 1 sock live
  string_size-Agrees m_str_16 sock live = read_swapped-Agrees 2 sock live
  string_size-Agrees m_str_32 sock live = read_swapped-Agrees 4 sock live
  string_size-Agrees _ sock live = exits 1 sock live

  integer-Agrees :
      (t : MaskType) → Agrees e (integer_field (buffer_read e) t) (integer_field stream_read t)
  unfolding integer_field
  integer-Agrees m_int_8 sock live = bind _ _ (read_uint-Agrees 1 sock live) λ v s l. both s l
  integer-Agrees m_int_16 sock live = value-Agrees 2 _ sock live
  integer-Agrees m_int_32 sock live = value-Agrees 4 _ sock live
  integer-Agrees m_int_64 sock live = value-Agrees 8 _ sock live
  integer-Agrees _ sock live = exits 1 sock live

  unsigned-Agrees :
      (t : MaskType) → Agrees e (unsigned_field (buffer_read e) t) (unsigned_field stream_read t)
  unfolding unsigned_field
  unsigned-Agrees m_uint_8 sock live = bind _ _ (read_uint-Agrees 1 sock live) λ v s l. both s l
  unsigned-Agrees m_uint_16 sock live = value-Agrees 2 _ sock live
  unsigned-Agrees m_uint_32 sock live = value-Agrees 4 _ sock live
  unsigned-Agrees m_uint_64 sock live = value-Agrees 8 _ sock live
  unsigned-Agrees _ sock live = exits 1 sock live

  read_ext-Agrees :
      (type n : ℕ) → Agrees e (read_ext (buffer_read e) type n) (read_ext stream_read type n)
  read_ext-Agrees type n sock live = bind _ _ (stream_read-Agrees e n sock live) λ bs s l. both s l

  -- A test that both make.
  either_way :
      {A : Type 0} (b : Bool) (m m' : Reads (List ℕ) A) (n n' : Reads Socket A)
      → Agrees e m n
      → Agrees e m' n'
      → Agrees e (if b then m else m') (if b then n else n')
  either_way true m m' n n' h k = h
  either_way false m m' n n' h k = k

  fixed :
      {A : Type 0} (b : Bool) (a : A) (m : Reads (List ℕ) A) (n : Reads Socket A)
      → Agrees e m n
      → Agrees e (if b then pure a else m) (if b then pure a else n)
  fixed b a m n h = either_way b (pure a) m (pure a) n both h

  fixext-Agrees :
      (n : ℕ)
      → Agrees e
          (read_uint (buffer_read e) 1 >>= λ type. read_ext (buffer_read e) type n)
          (read_uint stream_read 1 >>= λ type. read_ext stream_read type n)
  fixext-Agrees n sock live = bind _ _ (read_uint-Agrees 1 sock live) λ type. read_ext-Agrees type n

  ext_8-Agrees : Agrees e (read_ext_8 (buffer_read e)) (read_ext_8 stream_read)
  ext_8-Agrees sock live = bind _ _ (read_uint-Agrees 1 sock live) λ len s l.
      bind _ _ (read_uint-Agrees 1 s l)
        λ type. either_way (ltb 8 len) _ _ _ _ (exits 1) (read_ext-Agrees type len)

  ext-Agrees : (t : MaskType) → Agrees e (ext_field (buffer_read e) t) (ext_field stream_read t)
  unfolding ext_field
  ext-Agrees m_fixext_1 sock live = fixext-Agrees 1 sock live
  ext-Agrees m_fixext_2 sock live = fixext-Agrees 2 sock live
  ext-Agrees m_fixext_4 sock live = fixext-Agrees 4 sock live
  ext-Agrees m_fixext_8 sock live = fixext-Agrees 8 sock live
  ext-Agrees m_ext_8 sock live = ext_8-Agrees sock live
  ext-Agrees _ sock live = exits 1 sock live

  bool-Agrees : (t : MaskType) → Agrees e (bool_field (buffer_read e) t) (bool_field stream_read t)
  unfolding bool_field
  bool-Agrees m_true sock live = both sock live
  bool-Agrees m_false sock live = both sock live
  bool-Agrees _ sock live = exits 1 sock live

  module _ (d₁ : Reads (List ℕ) Obj) (d₂ : Reads Socket Obj) (decode : Agrees e d₁ d₂) where
    items-Agrees :
        (n : ℕ) → Agrees e (decode_items (buffer_read e) d₁ n) (decode_items stream_read d₂ n)
    unfolding decode_items
    items-Agrees zero sock live = both sock live
    items-Agrees (suc n) sock live =
        bind _ _ (decode sock live)
          λ x s₁ l₁. bind _ _ (items-Agrees n s₁ l₁) λ xs s₂ l₂. both s₂ l₂

    entries-Agrees :
        (n : ℕ) → Agrees e (decode_entries (buffer_read e) d₁ n) (decode_entries stream_read d₂ n)
    unfolding decode_entries
    entries-Agrees zero sock live = both sock live
    entries-Agrees (suc n) sock live = bind _ _ (decode sock live) λ x s₁ l₁.
        bind _ _ (decode s₁ l₁) λ y s₂ l₂. bind _ _ (entries-Agrees n s₂ l₂) λ es s₃ l₃. both s₃ l₃

    string-Agrees :
        (ch : ℕ) (m : Mask)
        → Agrees e (decode_string (buffer_read e) ch m) (decode_string stream_read ch m)
    unfolding decode_string string_size
    string-Agrees ch m sock live =
        bind _ _ (fixed m.fixed (bit_xor ch m.val) _ _ (string_size-Agrees m.type) sock live)
          λ size s₁ l₁.
            bind _ _ (either_way (ltb 0 size) _ _ _ _ (stream_read-Agrees e size) both s₁ l₁)
              λ bs. either_way ((size + 1) % 2 ^ 32 == 0) _ _ _ _ (λ s l. same undefined) both

    group-Agrees :
        (ch : ℕ) (m : Mask) (g : Group)
        → Agrees e
            (decode_group_of (buffer_read e) d₁ ch m g)
            (decode_group_of stream_read d₂ ch m g)
    unfolding decode_group_of array_size map_size
    group-Agrees ch m g_nil sock live = both sock live
    group-Agrees ch m g_bool sock live = bool-Agrees m.type sock live
    group-Agrees ch m g_array sock live =
        bind _ _ (fixed m.fixed (bit_xor ch m.val) _ _ (array_size-Agrees m.type) sock live)
          λ size s₁ l₁. bind _ _ (items-Agrees size s₁ l₁) λ xs s₂ l₂. both s₂ l₂
    group-Agrees ch m g_map sock live =
        bind _ _ (fixed m.fixed (bit_xor ch m.val) _ _ (map_size-Agrees m.type) sock live)
          λ size s₁ l₁. bind _ _ (entries-Agrees size s₁ l₁) λ es s₂ l₂. both s₂ l₂
    group-Agrees ch m g_string sock live = string-Agrees ch m sock live
    group-Agrees ch m g_ext sock live = ext-Agrees m.type sock live
    group-Agrees ch m g_nlint sock live = fixed m.fixed _ _ _ (integer-Agrees m.type) sock live
    group-Agrees ch m g_int sock live = fixed m.fixed _ _ _ (integer-Agrees m.type) sock live
    group-Agrees ch m g_plint sock live = fixed m.fixed _ _ _ (unsigned-Agrees m.type) sock live
    group-Agrees ch m g_uint sock live = fixed m.fixed _ _ _ (unsigned-Agrees m.type) sock live
    group-Agrees ch m g_bin sock live = exits 2 sock live

  -- On an open socket the decoder comes to the object that it finds in a buffer with the bytes of all
  -- packets, and the same bytes are left. However the reader of the buffer ends where the buffer is too
  -- short (obj_read exits with status 1), there the decoder on the socket waits, and for every other
  -- reason the two stop alike; with a buffer whose reader waits, too, they do the same in every case.
  pub do_decode-Agree :
      (fuel : ℕ) (sock : Socket)
      → IsOpen sock
      → Agree e (do_decode (buffer_read e) fuel (arrived sock)) (do_decode stream_read fuel sock)
  unfolding do_decode decode_group
  do_decode-Agree zero sock live = same out_of_fuel
  do_decode-Agree (suc fuel) sock live = bind _ _ (read_uint-Agrees 1 sock live) λ ch s₁ l₁.
      bind _ _ (lifted (id_pack_type ch) s₁ l₁)
        λ m. group-Agrees _ _ (do_decode-Agree fuel) ch m m.group
