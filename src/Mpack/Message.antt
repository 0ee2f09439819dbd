-- ===== src/Mpack/Message.antt =====
-- A message as the encoders of mpack/encode.c are called for it: in pre-order, each container's
-- length before its elements.
pub mod Bytes
pub mod Total
pub mod Front
pub mod Sizes
pub mod Numbers
pub mod Meaning
pub mod RoundTrip
use tag_highlight_nvim.Base.{
  ℕ, zero, suc, ◌+◌, ◌<◌, ◌≡◌, Bool, true, false, List, Option, length, Result, ok, ◌>>=◌, ◌^◌,
}
use tag_highlight_nvim.Mpack.Object.{
  Obj, Objs, Entries, nil, boolean, signed, unsigned, str, arr, dict, no_objs, obj_cons, no_entries,
  entry,
}
use tag_highlight_nvim.Mpack.Bstring.{Bstring, Bstrings}
use tag_highlight_nvim.Mpack.Encode.{
  mpack_encode_array, mpack_encode_dictionary, mpack_encode_integer, mpack_encode_unsigned,
  mpack_encode_string, mpack_encode_boolean, mpack_encode_nil, or_empty,
}

-- The arguments of the encoders, nested.
mutual
  pub data Value : Type 0 where
    v_nil : Value
    v_bool : Bool → Value
    v_integer : ℕ → Value
    v_unsigned : ℕ → Value
    v_string : Option (List ℕ) → Value
    v_array : Values → Value
    v_dict : Pairs → Value

  pub data Values : Type 0 where
    v_end : Values
    v_cons : Value → Values → Values

  pub data Pairs : Type 0 where
    p_end : Pairs
    p_cons : Value → Value → Pairs → Pairs

abbrev pub count : Values → ℕ
count v_end = 0
count (v_cons v vs) = suc (count vs)

abbrev pub count_pairs : Pairs → ℕ
count_pairs p_end = 0
count_pairs (p_cons k v ps) = suc (count_pairs ps)

-- The calls, one after the other on the same string.
module _ (B : Bstrings) where
  unfoldable mutual
    pub encode_value : Value → Bstring → Result Bstring
    encode_value v_nil p = mpack_encode_nil B p
    encode_value (v_bool b) p = mpack_encode_boolean B b p
    encode_value (v_integer n) p = mpack_encode_integer B n p
    encode_value (v_unsigned n) p = mpack_encode_unsigned B n p
    encode_value (v_string s) p = mpack_encode_string B s p
    encode_value (v_array vs) p = mpack_encode_array B (count vs) p >>= λ q. encode_values vs q
    encode_value (v_dict ps) p =
        mpack_encode_dictionary B (count_pairs ps) p >>= λ q. encode_pairs ps q

    pub encode_values : Values → Bstring → Result Bstring
    encode_values v_end p = ok p
    encode_values (v_cons v vs) p = encode_value v p >>= λ q. encode_values vs q

    pub encode_pairs : Pairs → Bstring → Result Bstring
    encode_pairs p_end p = ok p
    encode_pairs (p_cons k v ps) p =
        encode_value k p >>= λ q. encode_value v q >>= λ r. encode_pairs ps r

-- What fits the format and the C types: 64-bit integers, lengths below the largest 32-bit one.
abbrev mutual
  pub IsSized : Value → Type 0
  IsSized v_nil = Unit {0}
  IsSized (v_bool b) = Unit {0}
  IsSized (v_integer n) = n < 2 ^ 64
  IsSized (v_unsigned n) = n < 2 ^ 64
  IsSized (v_string s) = length (or_empty s) < 0xFFFFFFFF
  IsSized (v_array vs) = (count vs < 0xFFFFFFFF) × AreSized vs
  IsSized (v_dict ps) = (count_pairs ps < 0xFFFFFFFF) × ArePairsSized ps

  pub AreSized : Values → Type 0
  AreSized v_end = Unit {0}
  AreSized (v_cons v vs) = IsSized v × AreSized vs

  pub ArePairsSized : Pairs → Type 0
  ArePairsSized p_end = Unit {0}
  ArePairsSized (p_cons k v ps) = IsSized k × IsSized v × ArePairsSized ps
