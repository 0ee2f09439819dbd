-- ===== src/Mpack/Message/Total.antt =====
-- The encoders of mpack/encode.c end well on every message that the buffer has room for.
use tag_highlight_nvim.Base.{
  ℕ, ◌+◌, ◌-◌, ◌%◌, ◌^◌, ◌<◌, ◌≤◌, ◌≡◌, refl, ap, ◌∙◌, false, List, ◌++◌, append_assoc, append-nil,
  arith, ltb, length, length-append, Result, ok, ◌>>=◌, le→ltb,
}
use tag_highlight_nvim.Mpack.Bstring.{Bstring, Bstrings, write_all, write_all_room}
use tag_highlight_nvim.Mpack.Encode.{or_empty, sanity_check}
use tag_highlight_nvim.Mpack.Encode.Header.{
  array_header, map_header, string_header, integer_bytes, unsigned_bytes, encode_array-header,
  encode_dictionary-header, encode_integer-bytes, encode_unsigned-bytes, encode_string-header,
  encode_boolean-bytes, encode_nil-bytes,
}
use tag_highlight_nvim.Mpack.Message.{
  Value, Values, Pairs, v_nil, v_bool, v_integer, v_unsigned, v_string, v_array, v_dict, v_end,
  v_cons, p_end, p_cons, count, count_pairs, encode_value, encode_values, encode_pairs, IsSized,
  AreSized, ArePairsSized,
}
use tag_highlight_nvim.Mpack.Message.Bytes.{bytes_of, bytes_of_values, bytes_of_pairs}

-- The run goes well and appends `bs`, and the buffer has not shrunk.
pub data Fills (bs : List ℕ) (p : Bstring) : Result Bstring → Type 0 where
  fills :
      {q : Bstring}
      → q.bytes ≡ p.bytes ++ bs
      → p.mlen ≤ q.mlen
      → q.mlen < 2 ^ 32
      → Fills bs p (ok q)

-- Room for `bs` and for the largest fixed check of the encoders, in less than 2^31 bytes in all.
pub record HasRoom (bs : List ℕ) (p : Bstring) : Type 0 where
  pub fits : length p.bytes + length bs + 64 ≤ p.mlen
  pub small : length p.bytes + length bs < 2 ^ 31
  pub mlen32 : p.mlen < 2 ^ 32

-- The same run in two parts.
Fills-bind :
    (bs cs : List ℕ) (p : Bstring) {m : Result Bstring} (k : Bstring → Result Bstring)
    → HasRoom (bs ++ cs) p
    → Fills bs p m
    → ((q : Bstring) → HasRoom cs q → Fills cs q (k q))
    → Fills (bs ++ cs) p (m >>= k)
Fills-bind bs cs p k room (fills {q} e grows small) next =
    extend (next q (record { fits = fits'; small = small'; mlen32 = small }))
  where
    here : length q.bytes ≡ length p.bytes + length bs
    here = ap length e ∙ length-append p.bytes bs

    fits' : length q.bytes + length cs + 64 ≤ q.mlen
    fits' = omega (arith, here, room.fits, length-append bs cs)

    small' : length q.bytes + length cs < 2 ^ 31
    small' = omega (arith, here, room.small, length-append bs cs)

    extend : {r : Result Bstring} → Fills cs q r → Fills (bs ++ cs) p r
    extend (fills e' grows' small'') =
        fills (e' ∙ ap (λ xs. xs ++ cs) e ∙ append_assoc p.bytes bs cs) (omega arith) small''

prefix_room : (bs cs : List ℕ) (p : Bstring) → HasRoom (bs ++ cs) p → HasRoom bs p
prefix_room bs cs p room = record {
  fits = omega (arith, room.fits, length-append bs cs);
  small = omega (arith, room.small, length-append bs cs);
  mlen32 = room.mlen32;
}

module _ (B : Bstrings) where
  -- No growth is asked for.
  sanity_check_idle :
      (c : ℕ) (p : Bstring)
      → c ≤ p.mlen
      → p.mlen < 2 ^ 32
      → length p.bytes + c ≤ p.mlen
      → sanity_check B c p ≡ p
  unfolding sanity_check
  sanity_check_idle c p h s k =
      let off : ltb ((p.mlen + 2 ^ 32 - c) % 2 ^ 32) (length p.bytes) ≡ false =
        le→ltb _ _ (omega arith) in
      rw off

  write_all-Fills :
      (bs : List ℕ) (c : ℕ) (p : Bstring)
      → HasRoom bs p
      → length p.bytes + c ≤ p.mlen
      → Fills bs p (write_all bs (sanity_check B c p))
  write_all-Fills bs c p room h =
      rw
        (
          sanity_check_idle c p (omega arith) room.mlen32 h,
          write_all_room bs p (omega (arith, room.fits)),
        )
        (fills refl (omega arith) room.mlen32)

  mutual
    unfolding encode_value bytes_of

    encode_value-Fills :
        (v : Value) (p : Bstring)
        → IsSized v
        → HasRoom (bytes_of v) p
        → Fills (bytes_of v) p (encode_value B v p)
    encode_value-Fills v_nil p h room =
        rw (encode_nil-bytes B p) (write_all-Fills _ 2 p room (omega (arith, room.fits)))
    encode_value-Fills (v_bool b) p h room =
        rw (encode_boolean-bytes B b p) (write_all-Fills _ 2 p room (omega (arith, room.fits)))
    encode_value-Fills (v_integer n) p h room =
        rw (encode_integer-bytes B n p)
          (write_all-Fills (integer_bytes n) 15 p room (omega (arith, room.fits)))
    encode_value-Fills (v_unsigned n) p h room =
        rw (encode_unsigned-bytes B n p)
          (write_all-Fills (unsigned_bytes n) 15 p room (omega (arith, room.fits)))
    encode_value-Fills (v_string s) p h room =
        let n = length (or_empty s) in
        let short : (n + 5) % 2 ^ 32 ≡ n + 5 =
          omega (arith, room.small, length-append (string_header n) (or_empty s)) in
        rw (encode_string-header B s p, short)
          (Fills-bind (string_header n) (or_empty s) p _ room
            (write_all-Fills (string_header n) (n + 5) p (prefix_room _ (or_empty s) p room)
              (omega (arith, room.fits, length-append (string_header n) (or_empty s))))
            λ q r. fills (B.concat_data q (or_empty s)) (B.concat_grows q (or_empty s)) (
              B.concat_mlen32 q (or_empty s)
                (omega (arith, r.small, length-append q.bytes (or_empty s))) r.mlen32))
    encode_value-Fills (v_array vs) p h room =
        Fills-bind (array_header (count vs)) (bytes_of_values vs) p _ room
          (rw (encode_array-header B (count vs) p h.0) (
            write_all-Fills (array_header (count vs)) 64 p
              (prefix_room _ (bytes_of_values vs) p room) (omega (arith, room.fits))))
          λ q r. encode_values-Fills vs q h.1 r
    encode_value-Fills (v_dict ps) p h room =
        Fills-bind (map_header (count_pairs ps)) (bytes_of_pairs ps) p _ room
          (rw (encode_dictionary-header B (count_pairs ps) p h.0) (
            write_all-Fills (map_header (count_pairs ps)) 64 p
              (prefix_room _ (bytes_of_pairs ps) p room) (omega (arith, room.fits))))
          λ q r. encode_pairs-Fills ps q h.1 r

    encode_values-Fills :
        (vs : Values) (p : Bstring)
        → AreSized vs
        → HasRoom (bytes_of_values vs) p
        → Fills (bytes_of_values vs) p (encode_values B vs p)
    encode_values-Fills v_end p h room =
        fills (ground (arith, append-nil p.bytes)) (omega arith) room.mlen32
    encode_values-Fills (v_cons v vs) p h room =
        Fills-bind (bytes_of v) (bytes_of_values vs) p _ room
          (encode_value-Fills v p h.0 (prefix_room _ (bytes_of_values vs) p room))
          λ q r. encode_values-Fills vs q h.1 r

    encode_pairs-Fills :
        (ps : Pairs) (p : Bstring)
        → ArePairsSized ps
        → HasRoom (bytes_of_pairs ps) p
        → Fills (bytes_of_pairs ps) p (encode_pairs B ps p)
    encode_pairs-Fills p_end p h room =
        fills (ground (arith, append-nil p.bytes)) (omega arith) room.mlen32
    encode_pairs-Fills (p_cons k v ps) p h room =
        Fills-bind (bytes_of k) (bytes_of v ++ bytes_of_pairs ps) p _ room
          (encode_value-Fills k p h.0 (prefix_room _ (bytes_of v ++ bytes_of_pairs ps) p room))
          λ q r.
            Fills-bind (bytes_of v) (bytes_of_pairs ps) q _ r
              (encode_value-Fills v q h.1 (prefix_room _ (bytes_of_pairs ps) q r))
              λ q' r'. encode_pairs-Fills ps q' h.2 r'

  -- Into a buffer with room for it, the encoders write exactly the bytes of a message whose numbers
  -- and lengths are within the format's, and the run ends well.
  pub encode_value_total :
      (v : Value) (p : Bstring)
      → IsSized v
      → HasRoom (bytes_of v) p
      → Fills (bytes_of v) p (encode_value B v p)
  encode_value_total v p h room = encode_value-Fills v p h room
