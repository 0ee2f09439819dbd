-- ===== src/Mpack/Bstring.antt =====
-- The string library that the program links (contrib/bstring, a submodule), as an interface, and
-- the writes `D[L++] = x` of mpack/encode.c into such a string.
use tag_highlight_nvim.Base.{
  ℕ, ◌+◌, ◌≤◌, ◌<◌, ◌^◌, ◌≡◌, List, [], ◌∷◌, ◌++◌, append_assoc, arith, ltb, if◌then◌else◌, length,
  length-append, Result, ok, stop, undefined, ◌>>=◌,
}

-- The bytes in use, whose number is `slen`, and the allocated length `mlen`.
pub record Bstring : Type 0 where
  pub bytes : List ℕ
  pub mlen : ℕ

-- b_alloc_null makes an empty string with room for a number of bytes, b_alloc makes room in a
-- string for a total number of bytes, b_concat appends and makes the room that it needs.
pub record Bstrings : Type 0 where
  pub b_alloc_null : ℕ → Bstring
  pub b_alloc : Bstring → ℕ → Bstring
  pub b_concat : Bstring → List ℕ → Bstring
  pub alloc_null_data : (n : ℕ) → (b_alloc_null n).bytes ≡ []
  pub alloc_null_mlen : (n : ℕ) → n ≤ (b_alloc_null n).mlen
  pub alloc_data : (b : Bstring) (n : ℕ) → (b_alloc b n).bytes ≡ b.bytes
  pub alloc_mlen : (b : Bstring) (n : ℕ) → n ≤ (b_alloc b n).mlen
  pub alloc_grows : (b : Bstring) (n : ℕ) → b.mlen ≤ (b_alloc b n).mlen
  pub concat_data : (b : Bstring) (s : List ℕ) → (b_concat b s).bytes ≡ b.bytes ++ s
  pub concat_mlen : (b : Bstring) (s : List ℕ) → length (b.bytes ++ s) ≤ (b_concat b s).mlen
  pub concat_grows : (b : Bstring) (s : List ℕ) → b.mlen ≤ (b_concat b s).mlen
  pub concat_mlen32 :
      (b : Bstring) (s : List ℕ)
      → length (b.bytes ++ s) < 2 ^ 31
      → b.mlen < 2 ^ 32
      → (b_concat b s).mlen < 2 ^ 32

-- `D[L++] = x`
unfoldable pub write : ℕ → Bstring → Result Bstring
write x b =
    if ltb (length b.bytes) b.mlen
    then ok (record b { bytes = b.bytes ++ x ∷ [] })
    else stop undefined

-- `memcpy(&D[L], bs, n); L += n`
unfoldable pub write_all : List ℕ → Bstring → Result Bstring
write_all bs b =
    if ltb b.mlen (length b.bytes + length bs)
    then stop undefined
    else ok (record b { bytes = b.bytes ++ bs })

-- Two writes in a row are one.
pub write-write_all :
    (x : ℕ) (bs : List ℕ) (b : Bstring) → (write x b >>= write_all bs) ≡ write_all (x ∷ bs) b
unfolding write write_all
write-write_all x bs b =
    ground (arith, length-append b.bytes (x ∷ []), append_assoc b.bytes (x ∷ []) bs)

pub write-eq-write_all : (x : ℕ) (b : Bstring) → write x b ≡ write_all (x ∷ []) b
unfolding write write_all
write-eq-write_all x b = ground arith

-- A write that goes well puts its bytes at the end, and nothing else changes.
pub write_all-data :
    (bs : List ℕ) (b q : Bstring)
    → write_all bs b ≡ ok q
    → (q.bytes ≡ b.bytes ++ bs) × (q.mlen ≡ b.mlen)
unfolding write_all
write_all-data bs b q h = ground arith

-- Enough room, and the write goes well.
pub write_all_room :
    (bs : List ℕ) (b : Bstring)
    → length b.bytes + length bs ≤ b.mlen
    → write_all bs b ≡ ok (record b { bytes = b.bytes ++ bs })
unfolding write_all
write_all_room bs b h = ground arith
