-- ===== src/Mpack/Expect/Retry.antt =====
-- mpack_expect (mpack/mpack.c): the objects of the expected type, and the retry on another one.
use tag_highlight_nvim.Base.{
  ℕ, zero, suc, ◌≡◌, ◌↔◌, ◌≢◌, refl, ap, ◌∙◌, sym, Bool, true, false, List, [], ◌∷◌, ◌++◌,
  append_assoc, append-nil, some, All, if◌then◌else◌, ok, stop, out_of_fuel,
}
use tag_highlight_nvim.Mpack.Object.{
  Obj, Objs, Entries, nil, boolean, signed, unsigned, ext, str, arr, dict, no_objs, obj_cons, entry,
}
use tag_highlight_nvim.Mpack.Expect.{
  StringLists, Retval, null, number, array_ptr, dict_ptr, ext_ptr, string_ptr, data_ptr, blist_ptr,
  other_ptr, Expect, e_mpack_array, e_mpack_dict, e_mpack_ext, e_bool, e_num, e_string, e_wstring,
  e_strlist, e_mpack_nil, e_dict2arr, flag, branch_of, expect_branch, got, expect_loop,
  mpack_expect, mpack_dict_get_key, mpack_array_to_blist, append_strs, attempt_to_interpret_ext,
  expect_arr, expect_num, expect_bool, expect_strlist, qty,
}

-- Each member of the enumeration is tested by its own branch.
branch_of-flag : (e : Expect) → branch_of (flag e) ≡ some e
unfolding branch_of
branch_of-flag e_mpack_array = refl
branch_of-flag e_mpack_dict = refl
branch_of-flag e_mpack_ext = refl
branch_of-flag e_bool = refl
branch_of-flag e_num = refl
branch_of-flag e_string = refl
branch_of-flag e_wstring = refl
branch_of-flag e_strlist = refl
branch_of-flag e_dict2arr = refl
branch_of-flag e_mpack_nil = refl

-- An array of strings.
abbrev pub str_items : List (List ℕ) → Objs
str_items [] = no_objs
str_items (s ∷ ss) = obj_cons (str s) (str_items ss)

module _ (L : StringLists) where
  append_strs-strings :
      (ss : List (List ℕ)) (l : L.BList)
      → (l' : L.BList) × (append_strs L (str_items ss) l ≡ ok l')
        × (L.strings l' ≡ L.strings l ++ ss)
  unfolding append_strs
  append_strs-strings [] l = (l, refl, sym (append-nil (L.strings l)))
  append_strs-strings (s ∷ ss) l =
      let rest = append_strs-strings ss (L.b_list_append l s) in
      (
        rest.0,
        rest.1,
        rest.2
            ∙ ap (λ ts. ts ++ ss) (L.append_strings l s)
            ∙ append_assoc (L.strings l) (s ∷ []) ss,
      )

  -- The list that mpack_array_to_blist makes of an array of strings holds the strings in their order.
  pub mpack_array_to_blist-strings :
      (ss : List (List ℕ))
      → (l : L.BList) × (mpack_array_to_blist L (str_items ss) ≡ ok l) × (L.strings l ≡ ss)
  unfolding mpack_array_to_blist
  mpack_array_to_blist-strings ss =
      let made = append_strs-strings ss (L.b_list_create_alloc (qty L (str_items ss))) in
      (made.0, made.1, made.2 ∙ ap (λ ts. ts ++ ss) (L.create_strings (qty L (str_items ss))))

  -- The objects that have an expected type, and what the user is given of them.
  pub data Matches : Expect → Obj → Retval L.BList → Type 0 where
    array_matches : (xs : Objs) → Matches e_mpack_array (arr xs) (array_ptr xs)
    dict_matches : (es : Entries) → Matches e_mpack_dict (dict es) (dict_ptr es)
    ext_matches : (t n : ℕ) (bs : List ℕ) → Matches e_mpack_ext (ext t n bs) (ext_ptr t n bs)
    bool_matches : (b : Bool) → Matches e_bool (boolean b) (number (if b then 1 else 0))
    signed_bool_matches : (n : ℕ) → Matches e_bool (signed n) (number n)
    unsigned_bool_matches : (n : ℕ) → Matches e_bool (unsigned n) (number n)
    signed_matches : (n : ℕ) → Matches e_num (signed n) (number n)
    unsigned_matches : (n : ℕ) → Matches e_num (unsigned n) (number n)
    handle_matches :
        (t n v : ℕ) (bs : List ℕ)
        → attempt_to_interpret_ext n bs ≡ ok v
        → Matches e_num (ext t n bs) (number v)
    string_matches : (s : List ℕ) → Matches e_string (str s) (string_ptr s)
    wstring_matches : (s : List ℕ) → Matches e_wstring (str s) (data_ptr s)
    strlist_matches :
        (xs : Objs) (l : L.BList)
        → mpack_array_to_blist L xs ≡ ok l
        → Matches e_strlist (arr xs) (blist_ptr l)
    nil_matches : Matches e_mpack_nil nil null

  branch-Matches :
      (e : Expect) (destroy : Bool) (obj : Obj) (ret : Retval L.BList)
      → Matches e obj ret
      → expect_branch L e destroy obj ≡ ok (got ret)
  unfolding expect_branch expect_arr expect_num expect_bool expect_strlist
  branch-Matches _ destroy _ _ (array_matches xs) = refl
  branch-Matches _ destroy _ _ (dict_matches es) = refl
  branch-Matches _ destroy _ _ (ext_matches t n bs) = refl
  branch-Matches _ destroy _ _ (bool_matches b) = refl
  branch-Matches _ destroy _ _ (signed_bool_matches n) = refl
  branch-Matches _ destroy _ _ (unsigned_bool_matches n) = refl
  branch-Matches _ destroy _ _ (signed_matches n) = refl
  branch-Matches _ destroy _ _ (unsigned_matches n) = refl
  branch-Matches _ destroy _ _ (handle_matches t n v bs h) = rw h
  branch-Matches _ destroy _ _ (string_matches s) = refl
  branch-Matches _ destroy _ _ (wstring_matches s) = refl
  branch-Matches _ destroy _ _ (strlist_matches xs l h) = rw h
  branch-Matches _ destroy _ _ nil_matches = refl

  -- An object of the expected type is given to the user at the first try, whatever the alternatives,
  -- and freed if the user asks for it.
  pub mpack_expect-Matches :
      (e : Expect) (obj : Obj) (ret : Retval L.BList) (fuel alternatives : ℕ) (destroy : Bool)
      → Matches e obj ret
      → mpack_expect L (suc fuel) (some obj) (flag e) destroy alternatives ≡ ok (ret, destroy)
  unfolding mpack_expect
  mpack_expect-Matches e obj ret fuel alternatives destroy m =
      rw (branch_of-flag e, branch-Matches e destroy obj ret m)

  retry_bool :
      (b destroy : Bool) (fuel : ℕ)
      → expect_loop L fuel 1 destroy (flag e_mpack_nil) (boolean b) ≡ stop out_of_fuel
  unfolding expect_loop
  retry_bool b destroy zero = refl
  retry_bool b destroy (suc fuel) = retry_bool b destroy fuel

  -- The retry takes the object's type for the type to expect, though the two enumerations have
  -- different numbers. With the alternative nil for a number, as in handle_buffer_update, a Boolean is
  -- tried as an extension again and again, and nil is taken for an array.
  pub mpack_expect_retry :
      (b destroy : Bool) (fuel : ℕ)
      → (mpack_expect L fuel (some (boolean b)) (flag e_num) destroy (flag e_mpack_nil)
          ≡ stop out_of_fuel)
        × (mpack_expect L (suc (suc fuel)) (some nil) (flag e_num) false (flag e_mpack_nil)
            ≡ ok (other_ptr nil, false))
  unfolding mpack_expect expect_arr expect_num
  mpack_expect_retry b destroy zero = (refl, refl)
  mpack_expect_retry b destroy (suc fuel) = (retry_bool b destroy fuel, refl)

  -- Entries whose keys are strings.
  abbrev pub entries_of : List (List ℕ × Obj) → Entries → Entries
  entries_of [] es = es
  entries_of ((k, v) ∷ kvs) es = entry (str k) v (entries_of kvs es)

  -- In a dictionary that starts with entries for other strings, a key gives the value of its first
  -- entry, when the value has the expected type and b_iseq tests for equality; nothing is freed.
  pub mpack_dict_get_key-entries_of :
      (b_iseq : List ℕ → List ℕ → Bool) (kvs : List (List ℕ × Obj)) (key : List ℕ) (v : Obj)
      (es : Entries) (e : Expect) (ret : Retval L.BList) (fuel : ℕ)
      → ((s t : List ℕ) → (b_iseq s t ≡ true) ↔ (s ≡ t))
      → All (λ kv. kv.0 ≢ key) kvs
      → Matches e v ret
      → mpack_dict_get_key L b_iseq (suc fuel) (entries_of kvs (entry (str key) v es)) (flag e) key
        ≡ ok (ret, false)
  unfolding mpack_dict_get_key
  mpack_dict_get_key-entries_of b_iseq [] key v es e ret fuel same others m =
      rw ((same key key).1 refl) (mpack_expect-Matches e v ret fuel 0 false m)
  mpack_dict_get_key-entries_of b_iseq ((k, w) ∷ kvs) key v es e ret fuel same others m =
      rw (different (b_iseq k key) refl)
        (mpack_dict_get_key-entries_of b_iseq kvs key v es e ret fuel same others.1 m)
    where
      different : (x : Bool) → b_iseq k key ≡ x → b_iseq k key ≡ false
      different true h = absurd (others.0 ((same k key).0 h))
      different false h = h
