-- ===== src/Mpack/Expect.antt =====
-- mpack_expect and the functions that it calls (mpack/mpack.c): an object taken apart by the type
-- that its user expects.
pub mod Ext
pub mod Retry
mod Tests
use tag_highlight_nvim.Base.{
  ℕ, zero, suc, ◌+◌, ◌*◌, ◌/◌, ◌%◌, ◌^◌, ◌-◌, bit_and, Bool, true, false, not, ◌||◌, List, [], ◌∷◌,
  ◌++◌, Option, none, some, ◌≡◌, ◌↔◌, ltb, leb, ◌==◌, if◌then◌else◌, length, take, Result, ok, stop,
  exit, abort, undefined, out_of_fuel, ◌>>=◌,
}
use tag_highlight_nvim.Mpack.Object.{
  Obj, Objs, Entries, nil, boolean, signed, unsigned, ext, str, arr, dict, no_objs, obj_cons,
  no_entries, entry,
}
use tag_highlight_nvim.Mpack.Wire.{of_le, bswap}

-- The lists of strings of contrib/bstring (a submodule), as an interface.
pub record StringLists : Type 1 where
  pub BList : Type 0
  pub b_list_create_alloc : ℕ → BList
  pub b_list_append : BList → List ℕ → BList
  pub strings : BList → List (List ℕ)
  pub create_strings : (n : ℕ) → strings (b_list_create_alloc n) ≡ []
  pub append_strings : (l : BList) (s : List ℕ) → strings (b_list_append l s) ≡ strings l ++ s ∷ []

-- union mpack_retval: a number, NULL, or a pointer to what it points at; `other_ptr` is the
-- object's union read as a pointer that it does not hold.
pub data Retval (L : Type 0) : Type 0 where
  null : Retval L
  number : ℕ → Retval L
  array_ptr : Objs → Retval L
  dict_ptr : Entries → Retval L
  ext_ptr : ℕ → ℕ → List ℕ → Retval L
  string_ptr : List ℕ → Retval L
  data_ptr : List ℕ → Retval L
  blist_ptr : L → Retval L
  other_ptr : Obj → Retval L

-- enum mpack_expect_t, in the order in which mpack_expect tests for its members.
pub data Expect : Type 0 where
  e_mpack_array e_mpack_dict e_mpack_ext e_bool e_num e_string e_wstring e_strlist : Expect
  e_dict2arr e_mpack_nil : Expect

abbrev pub flag : Expect → ℕ
flag e_mpack_ext = 0x0001
flag e_mpack_array = 0x0002
flag e_mpack_dict = 0x0004
flag e_mpack_nil = 0x0008
flag e_bool = 0x0010
flag e_num = 0x0020
flag e_string = 0x0040
flag e_strlist = 0x0080
flag e_dict2arr = 0x0100
flag e_wstring = 0x0200

-- enum mpack_types
abbrev pub mpack_type : Obj → ℕ
mpack_type (boolean b) = 1
mpack_type nil = 2
mpack_type (signed n) = 3
mpack_type (unsigned n) = 4
mpack_type (ext t n bs) = 5
mpack_type (str s) = 6
mpack_type (arr xs) = 7
mpack_type (dict es) = 8

-- The first member of a list whose flag is set.
abbrev pub first_flag : ℕ → List Expect → Option Expect
first_flag type [] = none
first_flag type (e ∷ es) =
    let rest = first_flag type es in if bit_and type (flag e) == 0 then rest else some e

unfoldable pub branch_of : ℕ → Option Expect
branch_of type = first_flag type (
    e_mpack_array ∷ e_mpack_dict ∷ e_mpack_ext ∷ e_bool ∷ e_num ∷ e_string ∷ e_wstring ∷ e_strlist
    ∷ e_dict2arr ∷ e_mpack_nil ∷ [])

-- `alternatives &= ~E_...`
abbrev pub clear : ℕ → Expect → ℕ
clear alternatives e = bit_and alternatives (0xFFFFFFFF - flag e)

-- The union's members u8, u16, u32 and u64.
abbrev pub member : ℕ → List ℕ → ℕ
member n bytes = of_le (take n bytes)

-- For a longer one handle_invalid_ext_length aborts.
unfoldable pub attempt_to_interpret_ext : ℕ → List ℕ → Result ℕ
unfolding of_le bswap
attempt_to_interpret_ext len bytes =
    if len == 0
    then ok (member 8 bytes)
    else if len == 1
    then ok (member 1 bytes)
    else if len == 2
    then ok (bit_and (bswap 2 (member 2 bytes)) 0x00FF)
    else if len == 3
    then ok (bswap 2 (member 4 bytes / 2 ^ 8 % 2 ^ 16))
    else if len == 4
    then ok (bswap 4 (bit_and (member 4 bytes) 0xFFFFFF00))
    else if len == 5
    then ok (bswap 8 (bit_and (member 8 bytes) 0xFFFFFFFF00000000))
    else if len == 6
    then ok (bswap 8 (bit_and (member 8 bytes) 0xFFFFFFFFFF000000))
    else if len == 7
    then ok (bswap 8 (bit_and (member 8 bytes) 0xFFFFFFFFFFFF0000))
    else if len == 8
    then ok (bswap 8 (bit_and (member 8 bytes) 0xFFFFFFFFFFFFFF00))
    else stop abort

-- What a branch of mpack_expect comes to: a result, or `goto error`.
pub data Got (L : Type 0) : Type 0 where
  got : Retval L → Got L
  unexpected : Got L

module _ (L : StringLists) where
  -- The loops of mpack_array_to_blist: each item's `str`, whatever the item is.
  unfoldable pub append_strs : Objs → L.BList → Result L.BList
  append_strs no_objs l = ok l
  append_strs (obj_cons (str s) xs) l = append_strs xs (L.b_list_append l s)
  append_strs (obj_cons _ xs) l = stop undefined

  abbrev pub qty : Objs → ℕ
  qty no_objs = 0
  qty (obj_cons x xs) = suc (qty xs)

  unfoldable pub mpack_array_to_blist : Objs → Result L.BList
  unfolding append_strs
  mpack_array_to_blist xs = append_strs xs (L.b_list_create_alloc (qty xs))

  -- obj->arr; talloc_steal needs a pointer.
  unfoldable pub expect_arr : Bool → Obj → Result (Got L.BList)
  expect_arr destroy (arr xs) = ok (got (array_ptr xs))
  expect_arr true obj = stop undefined
  expect_arr false obj = ok (got (other_ptr obj))

  unfoldable pub expect_num : Obj → Result (Got L.BList)
  unfolding attempt_to_interpret_ext
  expect_num (signed n) = ok (got (number n))
  expect_num (unsigned n) = ok (got (number n))
  expect_num (ext t n bs) = attempt_to_interpret_ext n bs >>= λ v. ok (got (number v))
  expect_num _ = ok unexpected

  unfoldable pub expect_bool : Obj → Got L.BList
  expect_bool (boolean b) = got (number (if b then 1 else 0))
  expect_bool (signed n) = got (number n)
  expect_bool (unsigned n) = got (number n)
  expect_bool _ = unexpected

  unfoldable pub expect_strlist : Obj → Result (Got L.BList)
  unfolding mpack_array_to_blist
  expect_strlist (arr xs) = mpack_array_to_blist xs >>= λ l. ok (got (blist_ptr l))
  expect_strlist _ = ok unexpected

  abbrev pub expect_dict : Obj → Got L.BList
  expect_dict (dict es) = got (dict_ptr es)
  expect_dict _ = unexpected

  abbrev pub expect_ext : Obj → Got L.BList
  expect_ext (ext t n bs) = got (ext_ptr t n bs)
  expect_ext _ = unexpected

  abbrev pub expect_string : (List ℕ → Retval L.BList) → Obj → Got L.BList
  expect_string ptr (str s) = got (ptr s)
  expect_string ptr _ = unexpected

  abbrev pub expect_nil : Obj → Got L.BList
  expect_nil nil = got null
  expect_nil _ = unexpected

  -- The branches.
  unfoldable pub expect_branch : Expect → Bool → Obj → Result (Got L.BList)
  unfolding expect_arr expect_num expect_bool expect_strlist
  expect_branch e_mpack_array destroy obj = expect_arr destroy obj
  expect_branch e_mpack_dict destroy obj = ok (expect_dict obj)
  expect_branch e_mpack_ext destroy obj = ok (expect_ext obj)
  expect_branch e_bool destroy obj = ok (expect_bool obj)
  expect_branch e_num destroy obj = expect_num obj
  expect_branch e_string destroy obj = ok (expect_string string_ptr obj)
  expect_branch e_wstring destroy obj = ok (expect_string data_ptr obj)
  expect_branch e_strlist destroy obj = expect_strlist obj
  expect_branch e_dict2arr destroy obj = stop abort
  expect_branch e_mpack_nil destroy obj = ok (expect_nil obj)

  -- With the result comes whether the object has been freed.
  abbrev pub Outcome : Type 0
  Outcome = Result (Retval L.BList × Bool)

  -- Behind the branches, and from `error` on.
  abbrev pub leave : Bool → Outcome → Got L.BList → Outcome
  leave destroy error (got ret) = ok (ret, destroy)
  leave destroy error unexpected = error

  abbrev pub try_branch : Bool → ℕ → Obj → (ℕ → Outcome) → Option Expect → Outcome
  try_branch destroy alternatives obj retry none = stop (exit 1)
  try_branch destroy alternatives obj retry (some e) =
      let others = clear alternatives e in
      expect_branch e destroy obj
      >>= leave destroy (if others == 0 then ok (null, true) else retry others)

  -- From `retry` on, on fuel.
  unfoldable pub expect_loop : ℕ → ℕ → Bool → ℕ → Obj → Outcome
  unfolding expect_branch branch_of
  expect_loop zero type destroy alternatives obj = stop out_of_fuel
  expect_loop (suc fuel) type destroy alternatives obj =
      try_branch destroy alternatives obj
        (λ others. expect_loop fuel (mpack_type obj) destroy others obj) (branch_of type)

  unfoldable pub mpack_expect : ℕ → Option Obj → ℕ → Bool → ℕ → Outcome
  unfolding expect_loop
  mpack_expect fuel none type destroy alternatives = ok (null, false)
  mpack_expect fuel (some obj) type destroy alternatives =
      expect_loop fuel type destroy alternatives obj

  -- find_key_value; b_iseq is contrib/bstring's test of two strings, and the keys are strings.
  unfoldable pub find_key_value : (List ℕ → List ℕ → Bool) → Entries → List ℕ → Result (Option Obj)
  find_key_value b_iseq no_entries key = ok none
  find_key_value b_iseq (entry (str s) v es) key =
      if b_iseq s key then ok (some v) else find_key_value b_iseq es key
  find_key_value b_iseq (entry _ v es) key = stop undefined

  unfoldable pub mpack_dict_get_key : (List ℕ → List ℕ → Bool) → ℕ → Entries → ℕ → List ℕ → Outcome
  unfolding find_key_value mpack_expect
  mpack_dict_get_key b_iseq fuel es expect key =
      find_key_value b_iseq es key >>= λ o. mpack_expect fuel o expect false 0
