-- ===== src/Util/Tests.antt =====
-- Runs of util/ at small inputs.
use Prim.{tt}
use tag_highlight_nvim.Base.{true, ◌+◌, ◌≡◌, refl, [], ◌∷◌, none, some, arith, ok, Yields}
use tag_highlight_nvim.Util.Genlist.{
  Genlist, genlist_append, genlist_remove, genlist_remove_index, snap_up_size, store, realloc,
  move_down,
}
use tag_highlight_nvim.Util.Genlist.Items.{Holds}
use tag_highlight_nvim.Util.Genlist.Grow.{genlist_append-Holds}
use tag_highlight_nvim.Util.Genlist.Remove.{genlist_remove-Holds, genlist_remove_index_inner}
use tag_highlight_nvim.Util.Genlist.Argv.{IsArgv, argv_append, argv_append-IsArgv}

-- Three items in an array of four cells.
abbrev three : Genlist
three = record { lst = some 11 ∷ some 12 ∷ some 13 ∷ none ∷ []; qty = 3; mlen = 4 }

three-Holds : Holds three (11 ∷ 12 ∷ 13 ∷ [])
three-Holds = record {
  spare = none ∷ [];
  front = refl;
  qty_eq = refl;
  qty_le = omega arith;
  mlen_ge = omega arith;
  mlen_lt = omega arith;
  mlen_le = omega arith;
}

append_three :
    genlist_append 14 three
    ≡ ok (record {
      lst = some 11 ∷ some 12 ∷ some 13 ∷ some 14 ∷ none ∷ none ∷ none ∷ none ∷ [];
      qty = 4;
      mlen = 8;
    })
unfolding genlist_append store realloc
append_three = refl

snap_nine : snap_up_size 9 ≡ 16
unfolding snap_up_size
snap_nine = refl

remove_twelve :
    genlist_remove 12 three
    ≡ ok (true, record { lst = some 11 ∷ some 13 ∷ some 13 ∷ none ∷ []; qty = 2; mlen = 4 })
unfolding genlist_remove store move_down
remove_twelve = refl

genlist_append-Holds_example :
    Yields (λ l. Holds l (11 ∷ 12 ∷ 13 ∷ 14 ∷ [])) (genlist_append 14 three)
genlist_append-Holds_example =
    genlist_append-Holds 14 three (11 ∷ 12 ∷ 13 ∷ []) three-Holds (omega arith)

genlist_remove-Holds_example :
    Yields (λ r. (r.0 ≡ true) × Holds r.1 (11 ∷ 13 ∷ [])) (genlist_remove 12 three)
genlist_remove-Holds_example =
    genlist_remove-Holds 12 three (11 ∷ []) (13 ∷ []) three-Holds (omega arith) (omega arith, tt)

genlist_remove_index_inner_example :
    Yields (λ l. Holds l (11 ∷ 0 ∷ [])) (genlist_remove_index 1 three)
genlist_remove_index_inner_example = genlist_remove_index_inner three (11 ∷ []) [] 12 13 three-Holds

three-IsArgv : IsArgv three (11 ∷ 12 ∷ 13 ∷ [])
three-IsArgv = record { holds = three-Holds; qty_lt = omega arith }

argv_append-IsArgv_example :
    Yields (λ a. IsArgv a (11 ∷ 12 ∷ 13 ∷ 114 ∷ [])) (argv_append (λ s. s + 100) 14 true three)
argv_append-IsArgv_example =
    argv_append-IsArgv (λ s. s + 100) 14 true three (11 ∷ 12 ∷ 13 ∷ []) three-IsArgv (omega arith)
