-- ===== src/Mpack/Fmt/Message.antt =====
-- mpack_encode_fmt (mpack/mpack.c) on the format and the arguments of a message.
use tag_highlight_nvim.Base.{
  ℕ, ◌+◌, ◌≤◌, ◌≡◌, refl, ap, ◌∙◌, sym, false, ◌==◌, [], ◌∷◌, append-nil, arith, length, none, some,
  ok, ◌>>=◌,
}
use tag_highlight_nvim.Mpack.Bstring.{Bstring, Bstrings}
use tag_highlight_nvim.Mpack.Message.Total.{HasRoom}
use tag_highlight_nvim.Mpack.Message.Bytes.{bytes_of}
use tag_highlight_nvim.Mpack.Encode.{mpack_make_new}
use tag_highlight_nvim.Mpack.Decode.{mpack_decode_obj, expect_array, lift}
use tag_highlight_nvim.Mpack.Message.{
  Value, v_nil, v_bool, v_integer, v_unsigned, v_string, v_array, v_dict, encode_value, IsSized,
}
use tag_highlight_nvim.Mpack.Message.RoundTrip.{message_roundtrip}
use tag_highlight_nvim.Mpack.Message.Meaning.{object_of, IsExact}
use tag_highlight_nvim.Mpack.Args.{a_end, r_end}
use tag_highlight_nvim.Mpack.Fmt.{
  encode_counted, emit_loop, fmt_arrsize, is_empty, mpack_encode_fmt,
}
use tag_highlight_nvim.Mpack.Fmt.Count.{fmt_of, opened, nesting, counts, count_loop-fmt_of}
use tag_highlight_nvim.Mpack.Fmt.Chars.{args_of, in_own, >>=-assoc}
use tag_highlight_nvim.Mpack.Fmt.Emit.{emit_value}

fmt_of_not_empty : (v : Value) → is_empty (fmt_of v []) ≡ false
unfolding fmt_of
fmt_of_not_empty v_nil = refl
fmt_of_not_empty (v_bool b) = refl
fmt_of_not_empty (v_integer n) = refl
fmt_of_not_empty (v_unsigned n) = refl
fmt_of_not_empty (v_string s) = refl
fmt_of_not_empty (v_array vs) = refl
fmt_of_not_empty (v_dict ps) = refl

-- The second loop, from the counters that the first leaves.
encode_counted-fmt_of :
    (B : Bstrings) (v : Value)
    → 1 + nesting v ≤ 128
    → encode_counted B (fmt_of v []) (args_of v a_end) (counts (1 ∷ opened v) 0 [])
      ≡ (encode_value B v (mpack_make_new B) >>= λ q. ok (some q))
unfolding encode_counted emit_loop
encode_counted-fmt_of B v h =
    ap (λ m. m >>= λ e. ok (some e.packed))
      (emit_value B (in_own none r_end) (1 ∷ opened v) v [] [] a_end 1 1 (mpack_make_new B)
        (sym (append-nil (opened v))) h)
    ∙ >>=-assoc (encode_value B v (mpack_make_new B)) _ _

-- The format of a message and its arguments make the encoders' calls for the message, on a new
-- string, when its containers nest at most 127 deep and their number and one are within 128 and
-- six times the size hint.
pub mpack_encode_fmt-fmt_of :
    (B : Bstrings) (size_hint : ℕ) (v : Value)
    → 1 + nesting v ≤ 128
    → 1 + length (opened v) ≤ fmt_arrsize size_hint
    → mpack_encode_fmt B size_hint (fmt_of v []) (args_of v a_end)
      ≡ (encode_value B v (mpack_make_new B) >>= λ q. ok (some q))
unfolding mpack_encode_fmt
mpack_encode_fmt-fmt_of B size_hint v h k =
    let some_room : (fmt_arrsize size_hint == 0) ≡ false = ground arith in
    rw (fmt_of_not_empty v, some_room, count_loop-fmt_of (fmt_arrsize size_hint) v k (omega arith))
      (encode_counted-fmt_of B v h)

-- A message whose numbers and lengths fit, in which no integer is from -127 to -33, and whose bytes
-- fit a new buffer, is encoded by its format and its arguments, within the bounds on its containers,
-- and what was encoded is decoded to the object with the message's own values, with nothing left over,
-- or refused if the message is no array. An integer that is not negative comes back as an unsigned
-- one, and a NULL string as the empty one.
pub mpack_encode_fmt_roundtrip :
    (B : Bstrings) (size_hint : ℕ) (v : Value)
    → IsSized v
    → IsExact v
    → HasRoom (bytes_of v) (mpack_make_new B)
    → 1 + nesting v ≤ 128
    → 1 + length (opened v) ≤ fmt_arrsize size_hint
    → (q : Bstring) × (mpack_encode_fmt B size_hint (fmt_of v []) (args_of v a_end) ≡ ok (some q))
      × (mpack_decode_obj q.bytes ≡ lift (expect_array (object_of v)) [])
mpack_encode_fmt_roundtrip B size_hint v sized exact room h k =
    let encoded = message_roundtrip B v sized exact room in
    (
      encoded.0,
      mpack_encode_fmt-fmt_of B size_hint v h k ∙ ap (λ m. m >>= λ q. ok (some q)) encoded.1,
      encoded.2,
    )
