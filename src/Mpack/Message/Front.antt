-- ===== src/Mpack/Message/Front.antt =====
-- The reader of mpack/decode.c at the front of a buffer, and the byte that do_decode starts from.
use tag_highlight_nvim.Base.{
  ℕ, suc, ◌+◌, ◌*◌, ◌<◌, ◌≡◌, bit_xor, true, List, [], ◌∷◌, ◌++◌, arith, ◌==◌, ==_iff, length,
  length-append, take-length_append, drop-length_append, le→ltb, ok,
}
use tag_highlight_nvim.Base.Bits.{all_below, all_below_sound}
use tag_highlight_nvim.Mpack.Wire.{span, of_le, be_bytes, length-be_bytes, bswap-be_bytes}
use tag_highlight_nvim.Mpack.Mask.{Mask, id_pack_type}
use tag_highlight_nvim.Mpack.Decode.{do_decode, decode_group, obj_read, read_swapped, read_uint}

-- The reader takes the front of the buffer.
pub obj_read-front : (bs rest : List ℕ) → obj_read (length bs) (bs ++ rest) ≡ ok (bs, rest)
unfolding obj_read
obj_read-front bs rest = rw (
  le→ltb (length (bs ++ rest)) (length bs) (omega (arith, length-append bs rest)),
  take-length_append bs rest,
  drop-length_append bs rest,
)

pub read_swapped-be_bytes :
    (n v : ℕ) (rest : List ℕ)
    → v < span n
    → read_swapped obj_read n (be_bytes n v ++ rest) ≡ ok (v, rest)
read_swapped-be_bytes n v rest h =
    let front = rw (length-be_bytes n v) at (obj_read-front (be_bytes n v) rest) in
    rw (front, bswap-be_bytes n v h)

pub read_byte : (b : ℕ) (rest : List ℕ) → read_uint obj_read 1 (b ∷ rest) ≡ ok (b, rest)
unfolding of_le
read_byte b rest = let e : b + 256 * 0 ≡ b = omega arith in rw (obj_read-front (b ∷ []) rest, e)

-- A message starts with a byte, which chooses the rest of the run.
pub decode_by :
    (f ch : ℕ) (m : Mask) (rest : List ℕ)
    → id_pack_type ch ≡ ok m
    → do_decode obj_read (suc f) (ch ∷ rest)
      ≡ decode_group obj_read (do_decode obj_read f) ch m rest
unfolding do_decode
decode_by f ch m rest h = rw (read_byte ch rest, h)

pub xor_table :
    (m n x : ℕ) → all_below n (λ r. bit_xor (m + r) m == r) ≡ true → x < n → bit_xor (m + x) m ≡ x
xor_table m n x t h =
    (==_iff (bit_xor (m + x) m) x).0 (all_below_sound (λ r. bit_xor (m + r) m == r) n t x h)
