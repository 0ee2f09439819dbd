-- ===== src/Mpack/Expect/Tests.antt =====
-- Runs of mpack_expect (mpack/mpack.c) and its theorems at small inputs.
use Prim.{tt}
use tag_highlight_nvim.Base.{
  ◌*◌, ◌%◌, ◌^◌, ◌≡◌, true, false, [], ◌∷◌, some, arith, length, ok, stop, out_of_fuel,
}
use tag_highlight_nvim.Mpack.Object.{boolean, nil, signed, str, no_entries, entry}
use tag_highlight_nvim.Mpack.Samples.{lists, equal, equal_iff}
use tag_highlight_nvim.Mpack.Encode.Header.{unsigned_bytes}
use tag_highlight_nvim.Mpack.Expect.{
  number, other_ptr, string_ptr, e_num, e_string, e_mpack_nil, flag, mpack_expect,
  mpack_dict_get_key, attempt_to_interpret_ext,
}
use tag_highlight_nvim.Mpack.Expect.Ext.{
  padded, attempt_to_interpret_ext-unsigned_bytes, attempt_to_interpret_ext_four_bytes,
}
use tag_highlight_nvim.Mpack.Expect.Retry.{
  mpack_expect-Matches, mpack_expect_retry, mpack_dict_get_key-entries_of, signed_matches,
  string_matches,
}

attempt_to_interpret_ext-unsigned_bytes_example :
    attempt_to_interpret_ext (length (unsigned_bytes 300)) (padded (unsigned_bytes 300)) ≡ ok 300
attempt_to_interpret_ext-unsigned_bytes_example =
    attempt_to_interpret_ext-unsigned_bytes 300 (omega arith)

attempt_to_interpret_ext_four_bytes_example :
    attempt_to_interpret_ext (length (unsigned_bytes 65538)) (padded (unsigned_bytes 65538))
    ≡ ok (65538 % 256 * 2 ^ 24)
attempt_to_interpret_ext_four_bytes_example =
    attempt_to_interpret_ext_four_bytes 65538 (omega arith) (omega arith)

mpack_expect-Matches_example :
    mpack_expect lists 1 (some (signed 7)) (flag e_num) true 8 ≡ ok (number 7, true)
mpack_expect-Matches_example =
    mpack_expect-Matches lists e_num (signed 7) (number 7) 0 8 true (signed_matches 7)

mpack_expect_retry_example :
    (mpack_expect lists 5 (some (boolean true)) (flag e_num) false (flag e_mpack_nil)
      ≡ stop out_of_fuel)
    × (mpack_expect lists 7 (some nil) (flag e_num) false (flag e_mpack_nil)
        ≡ ok (other_ptr nil, false))
mpack_expect_retry_example = mpack_expect_retry lists true false 5

mpack_dict_get_key-entries_of_example :
    mpack_dict_get_key lists equal 1
      (entry (str (1 ∷ [])) nil (entry (str (2 ∷ [])) (str (9 ∷ [])) no_entries))
      (flag e_string)
      (2 ∷ [])
    ≡ ok (string_ptr (9 ∷ []), false)
mpack_dict_get_key-entries_of_example =
    mpack_dict_get_key-entries_of lists equal ((1 ∷ [], nil) ∷ []) (2 ∷ []) (str (9 ∷ []))
      no_entries e_string (string_ptr (9 ∷ [])) 0 equal_iff ((λ h. cc), tt)
      (string_matches (9 ∷ []))
