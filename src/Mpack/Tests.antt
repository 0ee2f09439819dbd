-- ===== src/Mpack/Tests.antt =====
-- Runs of the MessagePack code (mpack/encode.c, mpack/decode.c), and its theorems at inputs that
-- meet their hypotheses.
use Prim.{tt}
use Prim.Native.Nat.{max}
use tag_highlight_nvim.Base.{
  ◌-◌, ℕ, ◌^◌, ◌≤◌, ◌≡◌, refl, true, [], ◌∷◌, ◌++◌, arith, length, replicate, some, ok, ◌>>=◌, stop,
  exit, undefined,
}
use tag_highlight_nvim.Mpack.Object.{arr, str, signed, unsigned, obj_cons, no_objs}
use tag_highlight_nvim.Mpack.Wire.{of_le, bswap, be_bytes}
use tag_highlight_nvim.Mpack.Mask.{id_pack_type}
use tag_highlight_nvim.Mpack.Mask.Class.{format_of, id_pack_type-format_of}
use tag_highlight_nvim.Mpack.Bstring.{Bstring, Bstrings, write}
use tag_highlight_nvim.Mpack.Encode.{
  mpack_make_new, mpack_encode_array, mpack_encode_dictionary, mpack_encode_integer,
  mpack_encode_unsigned, mpack_encode_string, mpack_encode_nil,
}
use tag_highlight_nvim.Mpack.Encode.Format.{integer_of, array_count, map_count}
use tag_highlight_nvim.Mpack.Encode.Header.{
  array_header, map_header, string_header, integer_bytes, unsigned_bytes,
}
use tag_highlight_nvim.Mpack.Encode.Room.{
  Appends, IsRoot, headers-Appends, integers-Appends, encode_string-Appends,
  encode_string-undefined,
}
use tag_highlight_nvim.Mpack.Decode.{do_decode, obj_read, lift, expect_array, mpack_decode_obj}
use tag_highlight_nvim.Mpack.Decode.Fuel.{Leaves, mpack_decode_obj-Leaves}
use tag_highlight_nvim.Mpack.Message.{
  Value, v_array, v_cons, v_end, v_integer, v_string, v_bool, v_nil, v_dict, p_cons, p_end, IsSized,
  encode_value,
}
use tag_highlight_nvim.Mpack.Args.{a_bstring, a_cons, a_end}
use tag_highlight_nvim.Mpack.Fmt.{mpack_encode_fmt}
use tag_highlight_nvim.Mpack.Fmt.Count.{fmt_of, opened, nesting}
use tag_highlight_nvim.Mpack.Fmt.Chars.{args_of}
use tag_highlight_nvim.Mpack.Fmt.Message.{mpack_encode_fmt-fmt_of, mpack_encode_fmt_roundtrip}
use tag_highlight_nvim.Mpack.Message.Bytes.{bytes_of}
use tag_highlight_nvim.Mpack.Message.Total.{HasRoom, Fills, encode_value_total}
use tag_highlight_nvim.Mpack.Message.Meaning.{object_of, decoded}
use tag_highlight_nvim.Mpack.Message.RoundTrip.{
  depth, do_decode-bytes_of, mpack_decode_obj-bytes_of, message_roundtrip,
}

-- A string library that allocates just what it is asked for.
abbrev exact : Bstrings
exact = record {
  b_alloc_null = λ n. record { bytes = []; mlen = n };
  b_alloc = λ b n. record b { mlen = max b.mlen n };
  b_concat = λ b s. record { bytes = b.bytes ++ s; mlen = max b.mlen (length (b.bytes ++ s)) };
  alloc_null_data = λ n. refl;
  alloc_null_mlen = λ n. omega arith;
  alloc_data = λ b n. refl;
  alloc_mlen = λ b n. omega arith;
  alloc_grows = λ b n. omega arith;
  concat_data = λ b s. refl;
  concat_mlen = λ b s. omega arith;
  concat_grows = λ b s. omega arith;
  concat_mlen32 = λ b s h k. omega arith;
}

abbrev fresh : Bstring
fresh = record { bytes = []; mlen = 128 }

fresh-IsRoot : IsRoot fresh
fresh-IsRoot = record { used = omega arith; least = omega arith; most = omega arith }

-- [0, "hi", [true, -32, -40]]
abbrev sample : Value
sample = v_array (
    v_cons (v_integer 0) (
      v_cons (v_string (some (0x68 ∷ 0x69 ∷ []))) (
        v_cons
          (v_array (
            v_cons (v_bool true)
              (v_cons (v_integer (2 ^ 64 - 32)) (v_cons (v_integer (2 ^ 64 - 40)) v_end))))
          v_end)))

sample-IsSized : IsSized sample
sample-IsSized = omega arith

sample_bytes :
    bytes_of sample ≡ 0x93 ∷ 0x00 ∷ 0xA2 ∷ 0x68 ∷ 0x69 ∷ 0x93 ∷ 0xC3 ∷ 0xE0 ∷ 0xD0 ∷ 0xD8 ∷ []
unfolding bytes_of
sample_bytes = refl

sample-HasRoom : HasRoom (bytes_of sample) fresh
unfolding bytes_of
sample-HasRoom = record { fits = omega arith; small = omega arith; mlen32 = omega arith }

sample_run :
    mpack_decode_obj (0x93 ∷ 0x01 ∷ 0xA1 ∷ 0x61 ∷ 0xE0 ∷ 0xC0 ∷ [])
    ≡ ok (
      arr (
          obj_cons
            (unsigned 1)
            (obj_cons (str (0x61 ∷ [])) (obj_cons (signed 0xFFFFFFFFFFFFFFE0) no_objs))),
      0xC0 ∷ [],
    )
unfolding mpack_decode_obj of_le
sample_run = refl

truncated_run : mpack_decode_obj (0x92 ∷ 0x01 ∷ []) ≡ stop (exit 1)
unfolding mpack_decode_obj of_le
truncated_run = refl

binary_run : mpack_decode_obj (0x91 ∷ 0xC4 ∷ 0x00 ∷ []) ≡ stop (exit 2)
unfolding mpack_decode_obj of_le
binary_run = refl

id_pack_type-format_of_example : id_pack_type 0x95 ≡ format_of 0x95
id_pack_type-format_of_example = id_pack_type-format_of 0x95 (omega arith)

headers-Appends_example :
    (Appends (array_header 70_000) fresh (mpack_encode_array exact 70_000 fresh)
      × (array_count (array_header 70_000) ≡ some 70_000)
      × (length (array_header 70_000) ≤ 5))
    × Appends (map_header 70_000) fresh (mpack_encode_dictionary exact 70_000 fresh)
    × (map_count (map_header 70_000) ≡ some 70_000)
    × (length (map_header 70_000) ≤ 5)
headers-Appends_example = headers-Appends exact 70_000 fresh fresh-IsRoot (omega arith)

-- -300
abbrev minus_300 : ℕ
minus_300 = 2 ^ 64 - 300

integers-Appends_example :
    (Appends (integer_bytes minus_300) fresh (mpack_encode_integer exact minus_300 fresh)
      × (integer_of (integer_bytes minus_300) ≡ some minus_300)
      × (length (integer_bytes minus_300) ≤ 9))
    × Appends (unsigned_bytes minus_300) fresh (mpack_encode_unsigned exact minus_300 fresh)
    × (integer_of (unsigned_bytes minus_300) ≡ some minus_300)
    × (length (unsigned_bytes minus_300) ≤ 9)
integers-Appends_example = integers-Appends exact minus_300 fresh fresh-IsRoot (omega arith)

encode_string-Appends_example :
    Appends
      (string_header 2 ++ 0x68 ∷ 0x69 ∷ [])
      fresh
      (mpack_encode_string exact (some (0x68 ∷ 0x69 ∷ [])) fresh)
encode_string-Appends_example =
    encode_string-Appends exact (some (0x68 ∷ 0x69 ∷ [])) fresh fresh-IsRoot (omega arith)

-- 127 bytes in use of 128, and a string of 200.
abbrev nearly_full : Bstring
nearly_full = record { bytes = replicate 127 0; mlen = 128 }

nearly_full-IsRoot : IsRoot nearly_full
nearly_full-IsRoot = record { used = omega arith; least = omega arith; most = omega arith }

encode_string-undefined_example :
    mpack_encode_string exact (some (replicate 200 0x61)) nearly_full ≡ stop undefined
encode_string-undefined_example =
    encode_string-undefined exact (replicate 200 0x61) nearly_full nearly_full-IsRoot (omega arith)
      (omega arith) (omega arith)

encode_value_total_example : Fills (bytes_of sample) fresh (encode_value exact sample fresh)
encode_value_total_example = encode_value_total exact sample fresh sample-IsSized sample-HasRoom

mpack_decode_obj-Leaves_example : Leaves 2 (mpack_decode_obj (0x92 ∷ 0x01 ∷ []))
mpack_decode_obj-Leaves_example = mpack_decode_obj-Leaves (0x92 ∷ 0x01 ∷ [])

-- A string of 2^32 - 1 bytes that has not come.
long_run : mpack_decode_obj (0xDB ∷ 0xFF ∷ 0xFF ∷ 0xFF ∷ 0xFF ∷ []) ≡ stop (exit 1)
unfolding mpack_decode_obj of_le bswap
long_run = refl

do_decode-bytes_of_example :
    do_decode obj_read 3 (bytes_of sample ++ 0xC0 ∷ []) ≡ ok (decoded sample, 0xC0 ∷ [])
do_decode-bytes_of_example =
    do_decode-bytes_of sample 3 (0xC0 ∷ []) sample-IsSized (unfold depth in omega arith)

mpack_decode_obj-bytes_of_example :
    mpack_decode_obj (bytes_of sample ++ 0xC0 ∷ [])
    ≡ lift (expect_array (decoded sample)) (0xC0 ∷ [])
mpack_decode_obj-bytes_of_example = mpack_decode_obj-bytes_of sample (0xC0 ∷ []) sample-IsSized

-- [-32, "hi", [-300]]
abbrev numbers : Value
numbers = v_array (
    v_cons (v_integer (2 ^ 64 - 32)) (
      v_cons (v_string (some (0x68 ∷ 0x69 ∷ [])))
        (v_cons (v_array (v_cons (v_integer minus_300) v_end)) v_end)))

numbers-HasRoom : HasRoom (bytes_of numbers) (mpack_make_new exact)
unfolding bytes_of mpack_make_new be_bytes
numbers-HasRoom = record { fits = omega arith; small = omega arith; mlen32 = omega arith }

message_roundtrip_example :
    (q : Bstring) × (encode_value exact numbers (mpack_make_new exact) ≡ ok q)
    × (mpack_decode_obj q.bytes ≡ lift (expect_array (object_of numbers)) [])
message_roundtrip_example =
    message_roundtrip exact numbers (omega arith) (refl, (tt, ((refl, tt), tt))) numbers-HasRoom

-- {"a": [nil]}, by its format.
abbrev table : Value
table = v_dict (p_cons (v_string (some (0x61 ∷ []))) (v_array (v_cons v_nil v_end)) p_end)

table_fmt : fmt_of table [] ≡ b'{' ∷ b's' ∷ b'[' ∷ b'n' ∷ b']' ∷ b'}' ∷ []
unfolding fmt_of
table_fmt = refl

table_run :
    mpack_encode_fmt exact 0
      (b'{' ∷ b's' ∷ b':' ∷ b'[' ∷ b'n' ∷ b']' ∷ b'}' ∷ [])
      (a_cons (a_bstring (some (0x61 ∷ []))) a_end)
    ≡ ok (some (record { bytes = 0x81 ∷ 0xA1 ∷ 0x61 ∷ 0x91 ∷ 0xC0 ∷ []; mlen = 128 }))
unfolding mpack_encode_fmt mpack_encode_dictionary write mpack_make_new mpack_encode_string
    mpack_encode_array mpack_encode_nil
table_run = refl

unbalanced_run : mpack_encode_fmt exact 0 (b'[' ∷ b'n' ∷ []) a_end ≡ stop (exit 1)
unfolding mpack_encode_fmt
unbalanced_run = refl

mpack_encode_fmt-fmt_of_example :
    mpack_encode_fmt exact 0 (fmt_of table []) (args_of table a_end)
    ≡ (encode_value exact table (mpack_make_new exact) >>= λ q. ok (some q))
unfolding opened nesting
mpack_encode_fmt-fmt_of_example = mpack_encode_fmt-fmt_of exact 0 table (omega arith) (omega arith)

table-HasRoom : HasRoom (bytes_of table) (mpack_make_new exact)
unfolding bytes_of mpack_make_new
table-HasRoom = record { fits = omega arith; small = omega arith; mlen32 = omega arith }

mpack_encode_fmt_roundtrip_example :
    (q : Bstring) × (mpack_encode_fmt exact 0 (fmt_of table []) (args_of table a_end) ≡ ok (some q))
    × (mpack_decode_obj q.bytes ≡ lift (expect_array (object_of table)) [])
unfolding opened nesting
mpack_encode_fmt_roundtrip_example =
    mpack_encode_fmt_roundtrip exact 0 table (omega arith) (tt, (tt, tt), tt) table-HasRoom
      (omega arith) (omega arith)
