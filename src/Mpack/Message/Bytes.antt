-- ===== src/Mpack/Message/Bytes.antt =====
-- The bytes of a message (mpack/encode.c), and that the encoders write them.
use tag_highlight_nvim.Base.{
  ℕ, ◌≡◌, ap, ◌∙◌, List, [], ◌∷◌, ◌++◌, append_assoc, append-nil, arith, if◌then◌else◌, length,
  Result, ok, ◌>>=◌, >>=-ok,
}
use tag_highlight_nvim.Mpack.Bstring.{Bstring, Bstrings, write_all, write_all-data}
use tag_highlight_nvim.Mpack.Encode.{or_empty, sanity_check}
use tag_highlight_nvim.Mpack.Encode.Header.{
  array_header, map_header, string_header, integer_bytes, unsigned_bytes, encode_array-header,
  encode_dictionary-header, encode_integer-bytes, encode_unsigned-bytes, encode_string-header,
  encode_boolean-bytes, encode_nil-bytes,
}
use tag_highlight_nvim.Mpack.Encode.Room.{sanity_check-bytes}
use tag_highlight_nvim.Mpack.Message.{
  Value, Values, Pairs, v_nil, v_bool, v_integer, v_unsigned, v_string, v_array, v_dict, v_end,
  v_cons, p_end, p_cons, count, count_pairs, encode_value, encode_values, encode_pairs, IsSized,
  AreSized, ArePairsSized,
}

unfoldable mutual
  pub bytes_of : Value → List ℕ
  bytes_of v_nil = 0xC0 ∷ []
  bytes_of (v_bool b) = (if b then 0xC3 else 0xC2) ∷ []
  bytes_of (v_integer n) = integer_bytes n
  bytes_of (v_unsigned n) = unsigned_bytes n
  bytes_of (v_string s) = string_header (length (or_empty s)) ++ or_empty s
  bytes_of (v_array vs) = array_header (count vs) ++ bytes_of_values vs
  bytes_of (v_dict ps) = map_header (count_pairs ps) ++ bytes_of_pairs ps

  pub bytes_of_values : Values → List ℕ
  bytes_of_values v_end = []
  bytes_of_values (v_cons v vs) = bytes_of v ++ bytes_of_values vs

  pub bytes_of_pairs : Pairs → List ℕ
  bytes_of_pairs p_end = []
  bytes_of_pairs (p_cons k v ps) = bytes_of k ++ (bytes_of v ++ bytes_of_pairs ps)

-- A run that ends well has appended `bs`.
abbrev Adds : List ℕ → Bstring → Result Bstring → Type 0
Adds bs p r = (q : Bstring) → r ≡ ok q → q.bytes ≡ p.bytes ++ bs

Adds-bind :
    (bs cs : List ℕ) (p : Bstring) (m : Result Bstring) (k : Bstring → Result Bstring)
    → Adds bs p m
    → ((q : Bstring) → Adds cs q (k q))
    → Adds (bs ++ cs) p (m >>= k)
Adds-bind bs cs p m k first next q e =
    let (r, er, ek) = >>=-ok m k e in
    next r q ek ∙ ap (λ xs. xs ++ cs) (first r er) ∙ append_assoc p.bytes bs cs

module _ (B : Bstrings) where
  write_all-Adds :
      (bs : List ℕ) (c : ℕ) (p : Bstring) → Adds bs p (write_all bs (sanity_check B c p))
  write_all-Adds bs c p q e =
      (write_all-data bs (sanity_check B c p) q e).0
      ∙ ap (λ xs. xs ++ bs) (sanity_check-bytes B c p)

  mutual
    unfolding encode_value bytes_of

    encode_value-Adds :
        (v : Value) (p : Bstring) → IsSized v → Adds (bytes_of v) p (encode_value B v p)
    encode_value-Adds v_nil p h = rw (encode_nil-bytes B p) (write_all-Adds _ 2 p)
    encode_value-Adds (v_bool b) p h = rw (encode_boolean-bytes B b p) (write_all-Adds _ 2 p)
    encode_value-Adds (v_integer n) p h =
        rw (encode_integer-bytes B n p) (write_all-Adds (integer_bytes n) 15 p)
    encode_value-Adds (v_unsigned n) p h =
        rw (encode_unsigned-bytes B n p) (write_all-Adds (unsigned_bytes n) 15 p)
    encode_value-Adds (v_string s) p h = rw (encode_string-header B s p) (
        Adds-bind (string_header (length (or_empty s))) (or_empty s) p _ _ (write_all-Adds _ _ p)
          λ q r e. ground (arith, B.concat_data q (or_empty s)))
    encode_value-Adds (v_array vs) p h =
        Adds-bind (array_header (count vs)) (bytes_of_values vs) p _ _
          (rw (encode_array-header B (count vs) p h.0)
            (write_all-Adds (array_header (count vs)) 64 p))
          λ q. encode_values-Adds vs q h.1
    encode_value-Adds (v_dict ps) p h =
        Adds-bind (map_header (count_pairs ps)) (bytes_of_pairs ps) p _ _
          (rw (encode_dictionary-header B (count_pairs ps) p h.0)
            (write_all-Adds (map_header (count_pairs ps)) 64 p))
          λ q. encode_pairs-Adds ps q h.1

    encode_values-Adds :
        (vs : Values) (p : Bstring)
        → AreSized vs
        → Adds (bytes_of_values vs) p (encode_values B vs p)
    encode_values-Adds v_end p h = λ q e. ground (arith, append-nil p.bytes)
    encode_values-Adds (v_cons v vs) p h =
        Adds-bind (bytes_of v) (bytes_of_values vs) p _ _ (encode_value-Adds v p h.0)
          λ q. encode_values-Adds vs q h.1

    encode_pairs-Adds :
        (ps : Pairs) (p : Bstring)
        → ArePairsSized ps
        → Adds (bytes_of_pairs ps) p (encode_pairs B ps p)
    encode_pairs-Adds p_end p h = λ q e. ground (arith, append-nil p.bytes)
    encode_pairs-Adds (p_cons k v ps) p h =
        Adds-bind (bytes_of k) (bytes_of v ++ bytes_of_pairs ps) p _ _ (encode_value-Adds k p h.0)
          λ q.
            Adds-bind (bytes_of v) (bytes_of_pairs ps) q _ _ (encode_value-Adds v q h.1)
              λ r. encode_pairs-Adds ps r h.2

  -- Whatever the encoders return for a message has exactly the message's bytes appended.
  pub encode_value-bytes :
      (v : Value) (p : Bstring) {q : Bstring}
      → IsSized v
      → encode_value B v p ≡ ok q
      → q.bytes ≡ p.bytes ++ bytes_of v
  encode_value-bytes v p {q} h e = encode_value-Adds v p h q e
