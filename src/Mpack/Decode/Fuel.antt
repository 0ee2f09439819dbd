-- ===== src/Mpack/Decode/Fuel.antt =====
-- The decoder of mpack/decode.c ends on every buffer: each level of nesting takes a byte.
use tag_highlight_nvim.Base.{
  Bool-cases, inl, inr, ℕ, zero, suc, ◌+◌, ◌%◌, ◌^◌, ◌≤◌, ◌<◌, ◌≡◌, bit_xor, Bool, true, false,
  List, [], ◌∷◌, arith, ltb, ◌==◌, if◌then◌else◌, length, length-drop, take, drop, Result, ok, stop,
  exit, undefined,
}
use tag_highlight_nvim.Mpack.Object.{Obj, arr}
use tag_highlight_nvim.Mpack.Mask.{
  Group, g_nil, g_bool, g_array, g_map, g_string, g_bin, g_int, g_uint, g_plint, g_nlint, g_ext,
  MaskType, m_true, m_false, m_array_16, m_array_32, m_map_16, m_map_32, m_str_8, m_str_16,
  m_str_32, m_int_8, m_int_16, m_int_32, m_int_64, m_uint_8, m_uint_16, m_uint_32, m_uint_64,
  m_fixext_1, m_fixext_2, m_fixext_4, m_fixext_8, m_ext_8, Mask, m_masks, find_mask, fits,
  id_pack_type,
}
use tag_highlight_nvim.Mpack.Decode.{
  Reads, and_then, lift, pure, halt, ◌>>=◌, read_uint, read_swapped, array_size, array_size_field,
  map_size, map_size_field, string_size, string_size_field, integer_field, unsigned_field, read_ext,
  read_ext_8, ext_field, bool_field, decode_items, decode_entries, decode_group_of, decode_group,
  do_decode, obj_read, expect_array, mpack_decode_obj,
}

-- The run leaves at most n bytes, or exits; or it writes outside a string, where the string's bytes are
-- 2^32 - 1 or more and n bytes hold them.
pub data Leaves {A : Type 0} (n : ℕ) : Result (A × List ℕ) → Type 0 where
  leaves : {a : A} {s : List ℕ} → length s ≤ n → Leaves n (ok (a, s))
  exits : (status : ℕ) → Leaves n (stop (exit status))
  overflows : 0xFFFFFFFF ≤ n → Leaves n (stop undefined)

-- From every buffer the code leaves no more than it found.
abbrev Shrinks : {A : Type 0} → Reads (List ℕ) A → Type 0
Shrinks m = (s : List ℕ) → Leaves (length s) (m s)

-- The same, for buffers of at most n bytes.
abbrev ShrinksTo : {A : Type 0} → ℕ → Reads (List ℕ) A → Type 0
ShrinksTo n m = (s : List ℕ) → length s ≤ n → Leaves (length s) (m s)

mono : {A : Type 0} {m n : ℕ} {r : Result (A × List ℕ)} → Leaves m r → m ≤ n → Leaves n r
mono (leaves h) k = leaves (omega arith)
mono (exits c) k = exits c
mono (overflows h) k = overflows (omega arith)

bind :
    {A B : Type 0} {n : ℕ} {r : Result (A × List ℕ)} (k : A → Reads (List ℕ) B)
    → Leaves n r
    → ((a : A) → ShrinksTo n (k a))
    → Leaves n (and_then r k)
bind k (leaves {a} {s} h) next = mono (next a s h) h
bind k (exits c) next = exits c
bind k (overflows h) next = overflows h

obj_read-Shrinks : (n : ℕ) → Shrinks (obj_read n)
unfolding obj_read
obj_read-Shrinks n s = elim (Bool-cases (ltb (length s) n)) [
  | inl short ↦ rw short (exits 1)
  | inr enough ↦ rw enough (leaves (omega (arith, length-drop n s)))
]

read_uint-Shrinks : (n : ℕ) → Shrinks (read_uint obj_read n)
read_uint-Shrinks n s = bind _ (obj_read-Shrinks n s) λ bs s' h. leaves (omega arith)

read_swapped-Shrinks : (n : ℕ) → Shrinks (read_swapped obj_read n)
read_swapped-Shrinks n s = bind _ (read_uint-Shrinks n s) λ v s' h. leaves (omega arith)

-- A byte is taken off, where there is one.
read_byte-Leaves : (n : ℕ) (s : List ℕ) → length s ≤ suc n → Leaves n (read_uint obj_read 1 s)
unfolding obj_read
read_byte-Leaves n [] h = exits 1
read_byte-Leaves n (b ∷ s) h =
    let enough : ltb (suc (length s)) 1 ≡ false = ground arith in rw enough (leaves (omega arith))

array_size-Shrinks : (t : MaskType) → Shrinks (array_size_field obj_read t)
unfolding array_size_field
array_size-Shrinks m_array_16 s = read_swapped-Shrinks 2 s
array_size-Shrinks m_array_32 s = read_swapped-Shrinks 4 s
array_size-Shrinks _ s = exits 1

map_size-Shrinks : (t : MaskType) → Shrinks (map_size_field obj_read t)
unfolding map_size_field
map_size-Shrinks m_map_16 s = read_swapped-Shrinks 2 s
map_size-Shrinks m_map_32 s = read_swapped-Shrinks 4 s
map_size-Shrinks _ s = exits 1

string_size-Shrinks : (t : MaskType) → Shrinks (string_size_field obj_read t)
unfolding string_size_field
string_size-Shrinks m_str_8 s = read_uint-Shrinks 1 s
string_size-Shrinks m_str_16 s = read_swapped-Shrinks 2 s
string_size-Shrinks m_str_32 s = read_swapped-Shrinks 4 s
string_size-Shrinks _ s = exits 1

integer-Shrinks : (t : MaskType) → Shrinks (integer_field obj_read t)
unfolding integer_field
integer-Shrinks m_int_8 s = bind _ (read_uint-Shrinks 1 s) λ v s' h. leaves (omega arith)
integer-Shrinks m_int_16 s = bind _ (read_swapped-Shrinks 2 s) λ v s' h. leaves (omega arith)
integer-Shrinks m_int_32 s = bind _ (read_swapped-Shrinks 4 s) λ v s' h. leaves (omega arith)
integer-Shrinks m_int_64 s = bind _ (read_swapped-Shrinks 8 s) λ v s' h. leaves (omega arith)
integer-Shrinks _ s = exits 1

unsigned-Shrinks : (t : MaskType) → Shrinks (unsigned_field obj_read t)
unfolding unsigned_field
unsigned-Shrinks m_uint_8 s = bind _ (read_uint-Shrinks 1 s) λ v s' h. leaves (omega arith)
unsigned-Shrinks m_uint_16 s = bind _ (read_swapped-Shrinks 2 s) λ v s' h. leaves (omega arith)
unsigned-Shrinks m_uint_32 s = bind _ (read_swapped-Shrinks 4 s) λ v s' h. leaves (omega arith)
unsigned-Shrinks m_uint_64 s = bind _ (read_swapped-Shrinks 8 s) λ v s' h. leaves (omega arith)
unsigned-Shrinks _ s = exits 1

read_ext-Shrinks : (type n : ℕ) → Shrinks (read_ext obj_read type n)
read_ext-Shrinks type n s = bind _ (obj_read-Shrinks n s) λ bs s' h. leaves (omega arith)

fixext-Shrinks : (n : ℕ) → Shrinks (read_uint obj_read 1 >>= λ type. read_ext obj_read type n)
fixext-Shrinks n s = bind _ (read_uint-Shrinks 1 s) λ type s' h. read_ext-Shrinks type n s'

ext_8-Shrinks : Shrinks (read_ext_8 obj_read)
ext_8-Shrinks s = bind _ (read_uint-Shrinks 1 s) λ len s₁ h.
    bind _ (read_uint-Shrinks 1 s₁) λ type s₂ k. elim (Bool-cases (ltb 8 len)) [
      | inl long ↦ rw long (exits 1)
      | inr fine ↦ rw fine (read_ext-Shrinks type len s₂)
    ]

ext-Shrinks : (t : MaskType) → Shrinks (ext_field obj_read t)
unfolding ext_field
ext-Shrinks m_fixext_1 s = fixext-Shrinks 1 s
ext-Shrinks m_fixext_2 s = fixext-Shrinks 2 s
ext-Shrinks m_fixext_4 s = fixext-Shrinks 4 s
ext-Shrinks m_fixext_8 s = fixext-Shrinks 8 s
ext-Shrinks m_ext_8 s = ext_8-Shrinks s
ext-Shrinks _ s = exits 1

bool-Shrinks : (t : MaskType) → Shrinks (bool_field obj_read t)
unfolding bool_field
bool-Shrinks m_true s = leaves (omega arith)
bool-Shrinks m_false s = leaves (omega arith)
bool-Shrinks _ s = exits 1

-- The choice between a size in the byte and a size behind it.
fixed-Shrinks :
    {A : Type 0} (b : Bool) (a : A) {m : Reads (List ℕ) A}
    → Shrinks m
    → Shrinks (if b then pure a else m)
fixed-Shrinks true a h s = leaves (omega arith)
fixed-Shrinks false a h s = h s

-- The end of a string whose bytes are among n.
ended-Leaves :
    (n size : ℕ) (bs s : List ℕ)
    → size ≤ n
    → length s ≤ n
    → Leaves n ((if (size + 1) % 2 ^ 32 == 0 then halt undefined else pure (Obj.str bs)) s)
ended-Leaves n size bs s h k = elim (Bool-cases ((size + 1) % 2 ^ 32 == 0)) [
  | inl wraps ↦ rw wraps (overflows (ground arith))
  | inr fine ↦ rw fine (leaves k)
]

string_bytes-Shrinks :
    (size : ℕ)
    → Shrinks (
        (if ltb 0 size then obj_read size else pure []) >>= λ bs.
        if (size + 1) % 2 ^ 32 == 0 then halt undefined else pure (Obj.str bs))
unfolding obj_read
string_bytes-Shrinks size s = elim (Bool-cases (ltb 0 size)) [
  | inl more ↦ rw more (elim (Bool-cases (ltb (length s) size)) [
    | inl short ↦ rw short (exits 1)
    | inr enough ↦ rw enough (
        ended-Leaves (length s) size (take size s) (drop size s) (ground arith)
          (omega (arith, length-drop size s)))
  ])
  | inr empty ↦ rw empty (ended-Leaves (length s) size [] s (ground arith) (omega arith))
]

module _ {n : ℕ} {decode : Reads (List ℕ) Obj} (dec : ShrinksTo n decode) where
  items-Shrinks : (k : ℕ) → ShrinksTo n (decode_items obj_read decode k)
  unfolding decode_items
  items-Shrinks zero s h = leaves (omega arith)
  items-Shrinks (suc k) s h =
      bind _ (dec s h)
        λ x s₁ h₁. bind _ (items-Shrinks k s₁ (omega arith)) λ xs s₂ h₂. leaves (omega arith)

  entries-Shrinks : (k : ℕ) → ShrinksTo n (decode_entries obj_read decode k)
  unfolding decode_entries
  entries-Shrinks zero s h = leaves (omega arith)
  entries-Shrinks (suc k) s h = bind _ (dec s h) λ x s₁ h₁.
      bind _ (dec s₁ (omega arith))
        λ y s₂ h₂. bind _ (entries-Shrinks k s₂ (omega arith)) λ es s₃ h₃. leaves (omega arith)

  group-Shrinks :
      (ch : ℕ) (m : Mask) (g : Group) → ShrinksTo n (decode_group_of obj_read decode ch m g)
  unfolding decode_group_of array_size map_size string_size
  group-Shrinks ch m g_nil s h = leaves (omega arith)
  group-Shrinks ch m g_bool s h = bool-Shrinks m.type s
  group-Shrinks ch m g_array s h =
      bind _ (fixed-Shrinks m.fixed (bit_xor ch m.val) (array_size-Shrinks m.type) s)
        λ size s₁ h₁. bind _ (items-Shrinks size s₁ (omega arith)) λ xs s₂ h₂. leaves (omega arith)
  group-Shrinks ch m g_map s h =
      bind _ (fixed-Shrinks m.fixed (bit_xor ch m.val) (map_size-Shrinks m.type) s) λ size s₁ h₁.
        bind _ (entries-Shrinks size s₁ (omega arith)) λ es s₂ h₂. leaves (omega arith)
  group-Shrinks ch m g_string s h =
      bind _ (fixed-Shrinks m.fixed (bit_xor ch m.val) (string_size-Shrinks m.type) s)
        λ size s₁ h₁. string_bytes-Shrinks size s₁
  group-Shrinks ch m g_ext s h = ext-Shrinks m.type s
  group-Shrinks ch m g_nlint s h = fixed-Shrinks m.fixed _ (integer-Shrinks m.type) s
  group-Shrinks ch m g_int s h = fixed-Shrinks m.fixed _ (integer-Shrinks m.type) s
  group-Shrinks ch m g_plint s h = fixed-Shrinks m.fixed _ (unsigned-Shrinks m.type) s
  group-Shrinks ch m g_uint s h = fixed-Shrinks m.fixed _ (unsigned-Shrinks m.type) s
  group-Shrinks ch m g_bin s h = exits 2

find_mask-Leaves :
    (ch : ℕ) (ms : List Mask) (s : List ℕ) → Leaves (length s) (lift (find_mask ch ms) s)
unfolding find_mask
find_mask-Leaves ch [] s = exits 1
find_mask-Leaves ch (m ∷ ms) s = elim (Bool-cases (fits ch m)) [
  | inl hit ↦ rw hit (leaves (omega arith))
  | inr miss ↦ rw miss (find_mask-Leaves ch ms s)
]

-- More fuel than bytes, and the decoder ends by itself.
pub do_decode-Leaves :
    (f : ℕ) (s : List ℕ) → length s < f → Leaves (length s) (do_decode obj_read f s)
unfolding do_decode decode_group id_pack_type obj_read
do_decode-Leaves zero s h = absurd (omega arith)
do_decode-Leaves (suc f) [] h = exits 1
do_decode-Leaves (suc f) (b ∷ s) h =
    mono
      (bind _ (read_byte-Leaves (length s) (b ∷ s) (omega arith)) λ ch s₁ h₁.
        mono
          (bind _ (find_mask-Leaves ch m_masks s₁)
            λ m s₂ h₂. group-Shrinks (λ t k. do_decode-Leaves f t (omega arith)) ch m m.group s₂ h₂)
          (omega arith))
      (omega arith)

expect_array-Leaves : (o : Obj) → Shrinks (λ s. lift (expect_array o) s)
unfolding expect_array
expect_array-Leaves (arr xs) s = leaves (omega arith)
expect_array-Leaves _ s = exits 1

-- On every buffer mpack_decode_obj returns an object and leaves no more than the buffer's bytes, or
-- exits, or writes outside a string, and this last only if the buffer has 2^32 - 1 bytes or more. The
-- fuel that it is given, one more than the bytes of the buffer, is always enough.
pub mpack_decode_obj-Leaves : (buf : List ℕ) → Leaves (length buf) (mpack_decode_obj buf)
unfolding mpack_decode_obj
mpack_decode_obj-Leaves buf =
    bind _ (do_decode-Leaves (suc (length buf)) buf (omega arith)) λ o s h. expect_array-Leaves o s
