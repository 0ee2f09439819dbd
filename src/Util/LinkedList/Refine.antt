-- ===== src/Util/LinkedList/Refine.antt =====
-- util/linked_list.c: operations of a list of lines as operations on the sequence of its nodes, which
-- stays well formed.
use tag_highlight_nvim.Base.{
  ℕ, suc, ◌+◌, ◌^◌, ◌≤◌, ◌<◌, ◌≡◌, Bool, true, false, List, [], ◌∷◌, ◌++◌, length, drop, All, arith,
  refl, Result, ok, ◌>>=◌, ◌==◌,
}
use tag_highlight_nvim.Base.Int.{ℤ, pos}
use tag_highlight_nvim.Util.LinkedList.{LinkedList}
use tag_highlight_nvim.Util.LinkedList.Remove.{ll_delete_range, ll_pop}
use tag_highlight_nvim.Util.LinkedList.At.{ll_verify_size}
use tag_highlight_nvim.Util.LinkedList.Blist.{
  resolve_negative_index, ll_insert_blist_after, ll_insert_blist_before,
}
use tag_highlight_nvim.Util.LinkedList.Cells.{Cells, first, last, Valid, list_of}
use tag_highlight_nvim.Util.LinkedList.Gap.{fresh_cells, Valid-insert, Valid-left}
use tag_highlight_nvim.Util.LinkedList.InsertBlist.{left_behind}
use tag_highlight_nvim.Util.LinkedList.InsertRange.{
  given_node, ll_insert_blist_after_lem, ll_insert_blist_before_lem,
}
use tag_highlight_nvim.Util.LinkedList.Delete.{Valid-drop}
use tag_highlight_nvim.Util.LinkedList.DeleteNode.{ll_delete_range_lem}
use tag_highlight_nvim.Util.LinkedList.Take.{ll_pop-counted, ll_verify_size_lem}

-- ll_insert_blist_after puts a range of strings, in their order, behind a node, when the list is well
-- formed, none of the strings is NULL, the count stays below 2^31, both indexes, the negative ones
-- resolved, bound a range that is not empty, and the node is not NULL unless the list is empty. The
-- links in both directions, both ends and the count are those of the new sequence, whose new nodes
-- have new addresses, and it is well formed. Of several strings the pointers are moved away; the
-- pointer of a single one stays in the list that it was taken from.
pub ll_insert_blist_after-list_of :
    (n v : ℕ) (vs pre post : List ℕ) (start end : ℤ) (xs ys : Cells)
    → 1 ≤ n
    → All (λ s. 1 ≤ s) (v ∷ vs)
    → resolve_negative_index start (pos (length (pre ++ (v ∷ (vs ++ post))))) ≡ pos (length pre)
    → resolve_negative_index end (pos (length (pre ++ (v ∷ (vs ++ post)))))
      ≡ pos (length pre + suc (length vs))
    → Valid n (xs ++ ys)
    → length (xs ++ ys) + suc (length vs) < 2 ^ 31
    → given_node xs ys ≡ true
    → (ll_insert_blist_after
          (last 0 xs)
          (pre ++ (v ∷ (vs ++ post)))
          start
          end
          (list_of n (xs ++ ys))
        ≡ ok (
          left_behind pre v vs post,
          list_of (n + suc (length vs)) (xs ++ (fresh_cells n (v ∷ vs) ++ ys)),
        ))
      × Valid (n + suc (length vs)) (xs ++ (fresh_cells n (v ∷ vs) ++ ys))
ll_insert_blist_after-list_of n v vs pre post start end xs ys ge given e₁ e₂ valid lt here = (
  ll_insert_blist_after_lem n v vs pre post start end xs ys ge given e₁ e₂ valid lt here,
  Valid-insert n (v ∷ vs) xs ys ge valid,
)

-- ll_insert_blist_before puts a range of strings, in their order, in front of a node, under the same
-- conditions: the list is well formed, none of the strings is NULL, the count stays below 2^31, the
-- indexes bound a range that is not empty, and the node is not NULL unless the list is empty. The
-- links in both directions, both ends and the count are those of the new sequence, which is well
-- formed.
pub ll_insert_blist_before-list_of :
    (n v : ℕ) (vs pre post : List ℕ) (start end : ℤ) (xs ys : Cells)
    → 1 ≤ n
    → All (λ s. 1 ≤ s) (v ∷ vs)
    → resolve_negative_index start (pos (length (pre ++ (v ∷ (vs ++ post))))) ≡ pos (length pre)
    → resolve_negative_index end (pos (length (pre ++ (v ∷ (vs ++ post)))))
      ≡ pos (length pre + suc (length vs))
    → Valid n (xs ++ ys)
    → length (xs ++ ys) + suc (length vs) < 2 ^ 31
    → given_node ys xs ≡ true
    → (ll_insert_blist_before
          (first 0 ys)
          (pre ++ (v ∷ (vs ++ post)))
          start
          end
          (list_of n (xs ++ ys))
        ≡ ok (
          left_behind pre v vs post,
          list_of (n + suc (length vs)) (xs ++ (fresh_cells n (v ∷ vs) ++ ys)),
        ))
      × Valid (n + suc (length vs)) (xs ++ (fresh_cells n (v ∷ vs) ++ ys))
ll_insert_blist_before-list_of n v vs pre post start end xs ys ge given e₁ e₂ valid lt here = (
  ll_insert_blist_before_lem n v vs pre post start end xs ys ge given e₁ e₂ valid lt here,
  Valid-insert n (v ∷ vs) xs ys ge valid,
)

-- ll_delete_range takes any number of nodes away, from a node of a well-formed list with fewer than
-- 2^31 nodes on: the nodes are freed, exactly the others are left, no freed node is read, and the
-- links, the ends and the count are those of the sequence without them, which is well formed. With
-- fewer nodes from there on than the number, all of them are taken away.
pub ll_delete_range-list_of :
    (n r p v : ℕ) (xs ys : Cells)
    → Valid n (xs ++ ((p, v) ∷ ys))
    → length (xs ++ ((p, v) ∷ ys)) < 2 ^ 31
    → (ll_delete_range p (pos r) (list_of n (xs ++ ((p, v) ∷ ys)))
        ≡ ok (list_of n (xs ++ drop r ((p, v) ∷ ys))))
      × Valid n (xs ++ drop r ((p, v) ∷ ys))
ll_delete_range-list_of n r p v xs ys valid lt =
    (ll_delete_range_lem n r p v xs ys valid lt, Valid-drop n r xs ((p, v) ∷ ys) valid)

-- The value that ll_pop gives, and then what ll_verify_size says and leaves.
abbrev pub verified : ℕ → Result (ℕ × LinkedList) → Result (ℕ × (Bool × LinkedList))
verified fuel popped = popped >>= λ r. ll_verify_size fuel r.1 >>= λ s. ok (r.0, s)

-- ll_pop gives back the value of the last node of a well-formed list and leaves the others, but not
-- their count: ll_verify_size, with fuel for every node, finds it wrong and puts it right.
pub ll_pop-ll_verify_size :
    (fuel n p v : ℕ) (xs : Cells)
    → Valid n (xs ++ ((p, v) ∷ []))
    → length xs ≤ fuel
    → verified fuel (ll_pop (list_of n (xs ++ ((p, v) ∷ [])))) ≡ ok (v, (false, list_of n xs))
ll_pop-ll_verify_size fuel n p v xs valid le =
    let left = Valid-left n xs ((p, v) ∷ []) valid in
    let short : (length xs == suc (length xs)) ≡ false = ground arith in
    rw
      (ll_pop-counted n p v xs valid, ll_verify_size_lem fuel n (suc (length xs)) xs left le, short)
      refl
