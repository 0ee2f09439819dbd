-- ===== src/Mpack/Encode/Room.antt =====
-- The room that sanity_check (mpack/encode.c) makes, and what the encoders do in it.
use tag_highlight_nvim.Base.{
  ℕ, ◌+◌, ◌-◌, ◌*◌, ◌%◌, ◌^◌, ◌<◌, ◌≤◌, ◌≡◌, ap, ◌∙◌, Bool, false, List, [], ◌∷◌, ◌++◌, arith, ltb,
  if◌then◌else◌, length, length-append, append_assoc, Option, some, Result, ok, stop, exit,
  undefined, ◌>>=◌, lt→ltb, le→ltb,
}
use tag_highlight_nvim.Mpack.Wire.{length-be_bytes}
use tag_highlight_nvim.Mpack.Bstring.{Bstring, Bstrings, write_all, write_all_room}
use tag_highlight_nvim.Mpack.Encode.{
  sanity_check, mpack_encode_array, mpack_encode_dictionary, mpack_encode_integer,
  mpack_encode_unsigned, mpack_encode_string, mpack_encode_boolean, mpack_encode_nil, or_empty,
}
use tag_highlight_nvim.Mpack.Encode.Format.{
  integer_of, array_count, map_count, integer_of-integer_bytes, integer_of-unsigned_bytes,
  array_count-array_header, map_count-map_header,
}
use tag_highlight_nvim.Mpack.Encode.Header.{
  array_header, map_header, string_header, integer_bytes, unsigned_bytes, encode_array-header,
  encode_dictionary-header, encode_integer-bytes, encode_unsigned-bytes, encode_string-header,
  encode_boolean-bytes, encode_nil-bytes,
}

-- The root's string before a write: no more in use than allocated, at least half of what
-- mpack_make_new allocates, and short enough to be doubled in 32 bits.
pub record IsRoot (p : Bstring) : Type 0 where
  pub used : length p.bytes ≤ p.mlen
  pub least : 64 ≤ p.mlen
  pub most : p.mlen < 2 ^ 31

-- The run goes well, appends exactly `bs`, and stays within the allocated length.
pub data Appends (bs : List ℕ) (p : Bstring) : Result Bstring → Type 0 where
  appends :
      {q : Bstring}
      → q.bytes ≡ p.bytes ++ bs
      → length q.bytes ≤ q.mlen
      → p.mlen ≤ q.mlen
      → Appends bs p (ok q)

module _ (B : Bstrings) where
  pub sanity_check-bytes : (c : ℕ) (p : Bstring) → (sanity_check B c p).bytes ≡ p.bytes
  unfolding sanity_check
  sanity_check-bytes c p = ground (arith, B.alloc_data p (p.mlen * 2 % 2 ^ 32))

  pub sanity_check-grows : (c : ℕ) (p : Bstring) → p.mlen ≤ (sanity_check B c p).mlen
  unfolding sanity_check
  sanity_check-grows c p = ground (arith, B.alloc_grows p (p.mlen * 2 % 2 ^ 32))

  -- Where the check is no longer than the allocated string, there is room for it afterwards.
  pub sanity_check_room :
      (c : ℕ) (p : Bstring) → IsRoot p → c ≤ p.mlen → length p.bytes + c ≤ (sanity_check B c p).mlen
  unfolding sanity_check
  sanity_check_room c p r h = ground (arith, B.alloc_mlen p (p.mlen * 2 % 2 ^ 32))

  write_all-Appends :
      (bs : List ℕ) (c : ℕ) (p : Bstring)
      → IsRoot p
      → c ≤ p.mlen
      → length bs ≤ c
      → Appends bs p (write_all bs (sanity_check B c p))
  write_all-Appends bs c p r h k =
      let e = sanity_check-bytes c p in
      rw (write_all_room bs (sanity_check B c p) (rw e (omega (arith, sanity_check_room c p r h))))
        (appends (rw e) (rw e (omega (arith, sanity_check_room c p r h, length-append p.bytes bs)))
          (sanity_check-grows c p))

  pub header_short :
      (len : ℕ)
      → (length (array_header len) ≤ 5)
        × (length (map_header len) ≤ 5)
        × (length (string_header len) ≤ 5)
  header_short len = ground (arith, length-be_bytes 2 len, length-be_bytes 4 len)

  pub integer_short : (v : ℕ) → (length (integer_bytes v) ≤ 9) × (length (unsigned_bytes v) ≤ 9)
  integer_short v = ground (arith, length-be_bytes 2 v, length-be_bytes 4 v, length-be_bytes 8 v)

  pub encode_array-Appends :
      (len : ℕ) (p : Bstring)
      → IsRoot p
      → len < 0xFFFFFFFF
      → Appends (array_header len) p (mpack_encode_array B len p)
  encode_array-Appends len p r h =
      rw (encode_array-header B len p h)
        (write_all-Appends (array_header len) 64 p r r.least (omega (arith, header_short len)))

  pub encode_dictionary-Appends :
      (len : ℕ) (p : Bstring)
      → IsRoot p
      → len < 0xFFFFFFFF
      → Appends (map_header len) p (mpack_encode_dictionary B len p)
  encode_dictionary-Appends len p r h =
      rw (encode_dictionary-header B len p h)
        (write_all-Appends (map_header len) 64 p r r.least (omega (arith, header_short len)))

  -- For every length below 2^32 - 1 the encoders of an array's and a dictionary's header append at
  -- most five bytes, within the allocated buffer: the header in the byte for a length below 16, else
  -- behind a marker as two big-endian bytes below 65535 and as four from there on. Read by the
  -- MessagePack format, the header has this length.
  pub headers-Appends :
      (len : ℕ) (p : Bstring)
      → IsRoot p
      → len < 0xFFFFFFFF
      → (Appends (array_header len) p (mpack_encode_array B len p)
          × (array_count (array_header len) ≡ some len)
          × (length (array_header len) ≤ 5))
        × Appends (map_header len) p (mpack_encode_dictionary B len p)
        × (map_count (map_header len) ≡ some len)
        × (length (map_header len) ≤ 5)
  headers-Appends len p r h =
      let short = header_short len in
      (
        (encode_array-Appends len p r h, array_count-array_header len (omega arith), short.0),
        encode_dictionary-Appends len p r h,
        map_count-map_header len (omega arith),
        short.1,
      )

  -- A length from 2^32 - 1 on ends the program with status 1, for arrays and dictionaries.
  pub headers-exit :
      (len : ℕ) (p : Bstring)
      → 0xFFFFFFFF ≤ len
      → (mpack_encode_array B len p ≡ stop (exit 1))
        × (mpack_encode_dictionary B len p ≡ stop (exit 1))
  unfolding mpack_encode_array mpack_encode_dictionary
  headers-exit len p h = (ground arith, ground arith)

  encode_integers-Appends :
      (v : ℕ) (p : Bstring)
      → IsRoot p
      → Appends (integer_bytes v) p (mpack_encode_integer B v p)
        × Appends (unsigned_bytes v) p (mpack_encode_unsigned B v p)
  encode_integers-Appends v p r =
      let room : 15 ≤ p.mlen = omega (arith, r.least) in
      (
        rw (encode_integer-bytes B v p)
            (write_all-Appends (integer_bytes v) 15 p r room (omega (arith, integer_short v))),
        rw (encode_unsigned-bytes B v p)
            (write_all-Appends (unsigned_bytes v) 15 p r room (omega (arith, integer_short v))),
      )

  -- For every 64-bit pattern, the integer encoders append at most nine bytes, within the allocated
  -- buffer. Read by the MessagePack format, they are the integer with this pattern, signed for the one encoder and unsigned for the other.
  pub integers-Appends :
      (v : ℕ) (p : Bstring)
      → IsRoot p
      → v < 2 ^ 64
      → (Appends (integer_bytes v) p (mpack_encode_integer B v p)
          × (integer_of (integer_bytes v) ≡ some v)
          × (length (integer_bytes v) ≤ 9))
        × Appends (unsigned_bytes v) p (mpack_encode_unsigned B v p)
        × (integer_of (unsigned_bytes v) ≡ some v)
        × (length (unsigned_bytes v) ≤ 9)
  integers-Appends v p r h =
      let encoded = encode_integers-Appends v p r in
      let short = integer_short v in
      (
        (encoded.0, integer_of-integer_bytes v h, short.0),
        encoded.1,
        integer_of-unsigned_bytes v h,
        short.1,
      )

  -- Booleans and nil are one byte, within the allocated buffer.
  pub constants-Appends :
      (b : Bool) (p : Bstring)
      → IsRoot p
      → Appends ((if b then 0xC3 else 0xC2) ∷ []) p (mpack_encode_boolean B b p)
        × Appends (0xC0 ∷ []) p (mpack_encode_nil B p)
  constants-Appends b p r =
      let room : 2 ≤ p.mlen = omega (arith, r.least) in
      (
        rw (encode_boolean-bytes B b p)
            (write_all-Appends ((if b then 0xC3 else 0xC2) ∷ []) 2 p r room (omega arith)),
        rw (encode_nil-bytes B p) (write_all-Appends (0xC0 ∷ []) 2 p r room (omega arith)),
      )

  concat-Appends :
      (hs s : List ℕ) (p : Bstring) {m : Result Bstring}
      → Appends hs p m
      → Appends (hs ++ s) p (m >>= λ q. ok (B.b_concat q s))
  concat-Appends hs s p (appends {q} e used grows) =
      appends (B.concat_data q s ∙ ap (λ bs. bs ++ s) e ∙ append_assoc p.bytes hs s)
        (rw (B.concat_data q s) (B.concat_mlen q s)) (omega (arith, grows, B.concat_grows q s))

  -- A string whose length is at most five less than the allocated length is appended behind its
  -- header, within the allocated buffer. A NULL string is the empty one.
  pub encode_string-Appends :
      (string : Option (List ℕ)) (p : Bstring)
      → IsRoot p
      → length (or_empty string) + 5 ≤ p.mlen
      → Appends
          (string_header (length (or_empty string)) ++ or_empty string)
          p
          (mpack_encode_string B string p)
  encode_string-Appends string p r h =
      let n = length (or_empty string) in
      let e : (n + 5) % 2 ^ 32 ≡ n + 5 = omega (arith, r.most) in
      rw (encode_string-header B string p, e)
        (concat-Appends (string_header n) (or_empty string) p
          (write_all-Appends (string_header n) (n + 5) p r h (omega (arith, header_short n))))

  -- A longer string makes the 32-bit subtraction of sanity_check wrap, so that the buffer is not
  -- grown: with fewer bytes free than the string's header has, the header is written past the end.
  pub encode_string-undefined :
      (s : List ℕ) (p : Bstring)
      → IsRoot p
      → p.mlen < length s + 5
      → length s + 5 < 2 ^ 31
      → p.mlen < length p.bytes + length (string_header (length s))
      → mpack_encode_string B (some s) p ≡ stop undefined
  unfolding sanity_check write_all
  encode_string-undefined s p r h k few =
      let e : (length s + 5) % 2 ^ 32 ≡ length s + 5 = omega arith in
      let wraps : ltb ((p.mlen + 2 ^ 32 - (length s + 5)) % 2 ^ 32) (length p.bytes) ≡ false =
        le→ltb _ _ (omega (arith, r.used, r.most)) in
      rw (
        encode_string-header B (some s) p,
        e,
        wraps,
        lt→ltb p.mlen (length p.bytes + length (string_header (length s))) few,
      )
