-- ===== src/Mpack/Message/RoundTrip.antt =====
-- What mpack/encode.c writes for a message, mpack/decode.c reads back.
use tag_highlight_nvim.Base.{
  ℕ, zero, suc, ◌≤◌, ◌<◌, ◌≡◌, refl, ap, ◌∙◌, true, false, List, [], ◌∷◌, ◌++◌, append_assoc,
  append-nil, arith, length, length-append, if◌then◌else◌, Result, ok, sym, Bool,
}
use Prim.Native.Nat.{max}
use tag_highlight_nvim.Mpack.Object.{nil, boolean}
use tag_highlight_nvim.Mpack.Mask.{mask, id_pack_type, g_nil, g_bool, m_nil, m_true, m_false}
use tag_highlight_nvim.Mpack.Encode.{or_empty, mpack_make_new}
use tag_highlight_nvim.Mpack.Message.{
  Value, Values, Pairs, v_nil, v_bool, v_integer, v_unsigned, v_string, v_array, v_dict, v_end,
  v_cons, p_end, p_cons, count, count_pairs, IsSized, AreSized, ArePairsSized,
}
use tag_highlight_nvim.Mpack.Encode.Header.{
  array_header, map_header, string_header, integer_bytes, unsigned_bytes,
}
use tag_highlight_nvim.Mpack.Message.Bytes.{bytes_of, bytes_of_values, bytes_of_pairs}
use tag_highlight_nvim.Mpack.Decode.{
  do_decode, decode_group, decode_items, decode_entries, obj_read, mpack_decode_obj, expect_array,
  lift,
}
use tag_highlight_nvim.Mpack.Bstring.{Bstring, Bstrings}
use tag_highlight_nvim.Mpack.Message.{encode_value}
use tag_highlight_nvim.Mpack.Message.Total.{Fills, fills, HasRoom, encode_value_total}
use tag_highlight_nvim.Mpack.Message.Front.{decode_by}
use tag_highlight_nvim.Mpack.Message.Sizes.{
  decode_array_header, decode_map_header, decode_string_bytes,
}
use tag_highlight_nvim.Mpack.Message.Meaning.{
  object_by, object_of, decoded, decoded_values, decoded_pairs, IsExact, decoded-object_of,
}
use tag_highlight_nvim.Mpack.Message.Numbers.{decode_unsigned_bytes, decode_integer_bytes}

-- How deep the decoder recurs.
unfoldable mutual
  pub depth : Value → ℕ
  depth v_nil = 1
  depth (v_bool b) = 1
  depth (v_integer n) = 1
  depth (v_unsigned n) = 1
  depth (v_string s) = 1
  depth (v_array vs) = suc (depth_values vs)
  depth (v_dict ps) = suc (depth_pairs ps)

  pub depth_values : Values → ℕ
  depth_values v_end = 0
  depth_values (v_cons v vs) = max (depth v) (depth_values vs)

  pub depth_pairs : Pairs → ℕ
  depth_pairs p_end = 0
  depth_pairs (p_cons k v ps) = max (depth k) (max (depth v) (depth_pairs ps))

decode_nil_byte :
    (f : ℕ) (rest : List ℕ) → do_decode obj_read (suc f) (0xC0 ∷ rest) ≡ ok (nil, rest)
unfolding id_pack_type decode_group
decode_nil_byte f rest = decode_by f 0xC0 (mask g_nil m_nil false 0xC0 0) rest refl

decode_bool_byte :
    (f : ℕ) (b : Bool) (rest : List ℕ)
    → do_decode obj_read (suc f) ((if b then 0xC3 else 0xC2) ∷ rest) ≡ ok (boolean b, rest)
unfolding id_pack_type decode_group
decode_bool_byte f true rest = decode_by f 0xC3 (mask g_bool m_true false 0xC3 0) rest refl
decode_bool_byte f false rest = decode_by f 0xC2 (mask g_bool m_false false 0xC2 0) rest refl

mutual
  unfolding object_by bytes_of depth decode_items decode_entries

  decode-bytes_of :
      (v : Value) (f : ℕ) (rest : List ℕ)
      → IsSized v
      → depth v ≤ f
      → do_decode obj_read f (bytes_of v ++ rest) ≡ ok (decoded v, rest)
  decode-bytes_of v_nil zero rest h d = absurd (omega arith)
  decode-bytes_of v_nil (suc f) rest h d = decode_nil_byte f rest
  decode-bytes_of (v_bool b) zero rest h d = absurd (omega arith)
  decode-bytes_of (v_bool b) (suc f) rest h d = decode_bool_byte f b rest
  decode-bytes_of (v_integer n) zero rest h d = absurd (omega arith)
  decode-bytes_of (v_integer n) (suc f) rest h d = decode_integer_bytes f rest n h
  decode-bytes_of (v_unsigned n) zero rest h d = absurd (omega arith)
  decode-bytes_of (v_unsigned n) (suc f) rest h d = decode_unsigned_bytes f rest n h
  decode-bytes_of (v_string s) zero rest h d = absurd (omega arith)
  decode-bytes_of (v_string s) (suc f) rest h d = decode_string_bytes f (or_empty s) rest h
  decode-bytes_of (v_array vs) zero rest h d = absurd (omega arith)
  decode-bytes_of (v_array vs) (suc f) rest h d =
      rw (append_assoc (array_header (count vs)) (bytes_of_values vs) rest) (
        decode_array_header f (bytes_of_values vs ++ rest) (count vs) h.0
        ∙ rw (decode_items-bytes_of vs f rest h.1 (omega arith)))
  decode-bytes_of (v_dict ps) zero rest h d = absurd (omega arith)
  decode-bytes_of (v_dict ps) (suc f) rest h d =
      rw (append_assoc (map_header (count_pairs ps)) (bytes_of_pairs ps) rest) (
        decode_map_header f (bytes_of_pairs ps ++ rest) (count_pairs ps) h.0
        ∙ rw (decode_entries-bytes_of ps f rest h.1 (omega arith)))

  decode_items-bytes_of :
      (vs : Values) (f : ℕ) (rest : List ℕ)
      → AreSized vs
      → depth_values vs ≤ f
      → decode_items obj_read (do_decode obj_read f) (count vs) (bytes_of_values vs ++ rest)
        ≡ ok (decoded_values vs, rest)
  decode_items-bytes_of v_end f rest h d = refl
  decode_items-bytes_of (v_cons v vs) f rest h d = rw (
    append_assoc (bytes_of v) (bytes_of_values vs) rest,
    decode-bytes_of v f (bytes_of_values vs ++ rest) h.0 (omega arith),
    decode_items-bytes_of vs f rest h.1 (omega arith),
  )

  decode_entries-bytes_of :
      (ps : Pairs) (f : ℕ) (rest : List ℕ)
      → ArePairsSized ps
      → depth_pairs ps ≤ f
      → decode_entries obj_read (do_decode obj_read f) (count_pairs ps) (bytes_of_pairs ps ++ rest)
        ≡ ok (decoded_pairs ps, rest)
  decode_entries-bytes_of p_end f rest h d = refl
  decode_entries-bytes_of (p_cons k v ps) f rest h d = rw (
    append_assoc (bytes_of k) (bytes_of v ++ bytes_of_pairs ps) rest,
    append_assoc (bytes_of v) (bytes_of_pairs ps) rest,
    decode-bytes_of k f (bytes_of v ++ (bytes_of_pairs ps ++ rest)) h.0 (omega arith),
    decode-bytes_of v f (bytes_of_pairs ps ++ rest) h.1 (omega arith),
    decode_entries-bytes_of ps f rest h.2 (omega arith),
  )

-- The bytes of a message, whatever follows them, decode to the message's object, and what follows
-- is left.
pub do_decode-bytes_of :
    (v : Value) (f : ℕ) (rest : List ℕ)
    → IsSized v
    → depth v ≤ f
    → do_decode obj_read f (bytes_of v ++ rest) ≡ ok (decoded v, rest)
do_decode-bytes_of v f rest h d = decode-bytes_of v f rest h d

header_pos : (len : ℕ) → (0 < length (array_header len)) × (0 < length (map_header len))
header_pos len = ground arith

leaf_pos :
    (n : ℕ) (s : List ℕ)
    → (0 < length (integer_bytes n))
      × (0 < length (unsigned_bytes n))
      × (0 < length (string_header (length s) ++ s))
leaf_pos n s = ground (arith, length-append (string_header (length s)) s)

mutual
  unfolding bytes_of depth

  depth-le : (v : Value) → depth v ≤ length (bytes_of v)
  depth-le v_nil = omega arith
  depth-le (v_bool b) = omega arith
  depth-le (v_integer n) = omega (arith, leaf_pos n [])
  depth-le (v_unsigned n) = omega (arith, leaf_pos n [])
  depth-le (v_string s) = omega (arith, leaf_pos 0 (or_empty s))
  depth-le (v_array vs) = omega (
    arith,
    header_pos (count vs),
    depth_values-le vs,
    length-append (array_header (count vs)) (bytes_of_values vs),
  )
  depth-le (v_dict ps) = omega (
    arith,
    header_pos (count_pairs ps),
    depth_pairs-le ps,
    length-append (map_header (count_pairs ps)) (bytes_of_pairs ps),
  )

  depth_values-le : (vs : Values) → depth_values vs ≤ length (bytes_of_values vs)
  depth_values-le v_end = omega arith
  depth_values-le (v_cons v vs) =
      omega (arith, depth-le v, depth_values-le vs, length-append (bytes_of v) (bytes_of_values vs))

  depth_pairs-le : (ps : Pairs) → depth_pairs ps ≤ length (bytes_of_pairs ps)
  depth_pairs-le p_end = omega arith
  depth_pairs-le (p_cons k v ps) = omega (
    arith,
    depth-le k,
    depth-le v,
    depth_pairs-le ps,
    length-append (bytes_of k) (bytes_of v ++ bytes_of_pairs ps),
    length-append (bytes_of v) (bytes_of_pairs ps),
  )

-- On the bytes of a message whose numbers and lengths are within the format's, mpack_decode_obj
-- finds the message's object, with every integer from -127 to -33 replaced by -256: it gives the object
-- and leaves what follows the bytes if the message is an array, and exits if it is not.
pub mpack_decode_obj-bytes_of :
    (v : Value) (rest : List ℕ)
    → IsSized v
    → mpack_decode_obj (bytes_of v ++ rest) ≡ lift (expect_array (decoded v)) rest
unfolding mpack_decode_obj
mpack_decode_obj-bytes_of v rest h = rw (
    do_decode-bytes_of v (suc (length (bytes_of v ++ rest))) rest h
      (omega (arith, depth-le v, length-append (bytes_of v) rest)))

-- A message whose numbers and lengths are within the format's, in which no integer is from -127 to
-- -33, and whose bytes fit a new buffer, is encoded without an error, and what was encoded is decoded
-- to the object with the message's own values, with nothing left over; a message that is no array is
-- refused. An integer that is not negative comes back as an unsigned one, and a NULL string as the
-- empty one.
pub message_roundtrip :
    (B : Bstrings) (v : Value)
    → IsSized v
    → IsExact v
    → HasRoom (bytes_of v) (mpack_make_new B)
    → (q : Bstring) × (encode_value B v (mpack_make_new B) ≡ ok q)
      × (mpack_decode_obj q.bytes ≡ lift (expect_array (object_of v)) [])
unfolding mpack_make_new
message_roundtrip B v h exact room = from_fills (encode_value_total B v (mpack_make_new B) h room)
  where
    from_fills :
        {r : Result Bstring}
        → Fills (bytes_of v) (mpack_make_new B) r
        → (q : Bstring) × (r ≡ ok q)
          × (mpack_decode_obj q.bytes ≡ lift (expect_array (object_of v)) [])
    from_fills (fills {q} e grows small) = (
      q,
      refl,
      ap mpack_decode_obj (
            e ∙ ap (λ bs. bs ++ bytes_of v) (B.alloc_null_data 128) ∙ sym (append-nil (bytes_of v)))
          ∙ mpack_decode_obj-bytes_of v [] h
          ∙ ap (λ o. lift (expect_array o) []) (decoded-object_of v exact),
    )
