-- ===== src/Util/LinkedList/InsertMany.antt =====
-- Several strings moved into a linked list of util/linked_list.c.
use tag_highlight_nvim.Base.{
  ℕ, suc, ◌+◌, ◌-◌, ◌^◌, ◌≤◌, ◌<◌, ◌≡◌, refl, ap, ◌∙◌, sym, true, false, List, [], ◌∷◌, ◌++◌,
  append-nil, none, some, ◌==◌, length, All, arith, ok,
}
use tag_highlight_nvim.Base.Int.{ℤ, pos}
use tag_highlight_nvim.Util.LinkedList.{no_nodes}
use tag_highlight_nvim.Util.LinkedList.Blist.{
  resolve_negative_index, tie_after, tie_before, ll_insert_blist_after, ll_insert_blist_before,
}
use tag_highlight_nvim.Util.LinkedList.Cells.{
  Cells, last, over, Valid, list_of, last-append, set_prev-place,
}
use tag_highlight_nvim.Util.LinkedList.Gap.{fresh_cells, Valid-insert, Valid-left, set_next-last}
use tag_highlight_nvim.Util.LinkedList.Ends.{
  same_members, new_head, new_tail, first-append, tail_at-cut, head_at-cut,
}
use tag_highlight_nvim.Util.LinkedList.Tie.{tie_after-cut, tie_before-cut}
use tag_highlight_nvim.Util.LinkedList.InsertBlist.{
  left_behind, assertions-range, chain-to_last, last-between, next_address, new_count,
}

-- Several strings behind a node.
pub many_after :
    (n v w p u : ℕ) (vs pre post : List ℕ) (start end : ℤ) (xs ys : Cells)
    → 1 ≤ n
    → All (λ s. 1 ≤ s) (v ∷ w ∷ vs)
    → resolve_negative_index start (pos (length (pre ++ (v ∷ w ∷ (vs ++ post))))) ≡ pos (length pre)
    → resolve_negative_index end (pos (length (pre ++ (v ∷ w ∷ (vs ++ post)))))
      ≡ pos (length pre + suc (suc (length vs)))
    → Valid n (((p, u) ∷ xs) ++ ys)
    → length (((p, u) ∷ xs) ++ ys) + suc (suc (length vs)) < 2 ^ 31
    → ll_insert_blist_after
        (last p xs)
        (pre ++ (v ∷ w ∷ (vs ++ post)))
        start
        end
        (list_of n (((p, u) ∷ xs) ++ ys))
      ≡ ok (
        left_behind pre v (w ∷ vs) post,
        list_of (n + suc (suc (length vs))) (((p, u) ∷ xs) ++ (fresh_cells n (v ∷ w ∷ vs) ++ ys)),
      )
unfolding ll_insert_blist_after list_of
many_after n v w p u vs pre post start end xs ys ge given e₁ e₂ valid lt =
    let ws = (p, u) ∷ xs in
    let new = v ∷ w ∷ vs in
    let full = Valid-insert n new ws ys ge valid in
    let diff : (length pre + suc (suc (length vs))) - length pre ≡ suc (suc (length vs)) =
      omega arith in
    let several : (suc (suc (length vs)) == 1) ≡ false = ground arith in
    rw
      (
        e₁,
        e₂,
        assertions-range pre (w ∷ vs) post v,
        diff,
        several,
        chain-to_last n (length (ws ++ ys)) (last p xs) true (list_of n (ws ++ ys)) pre post v
            (w ∷ vs) ge given.1 refl refl lt,
        tie_after-cut n (n + suc (suc (length vs))) v p u (w ∷ vs) xs ys
            (pos (suc (length (ws ++ ys)) + suc (length vs))) (left_behind pre v (w ∷ vs) post)
            valid full,
      )
      (ap (λ l. ok (left_behind pre v (w ∷ vs) post, l))
        (same_members (next_address n w vs) (new_head n n (ws ++ ys) valid)
          (tail_at-cut n (last n (fresh_cells (suc n) (w ∷ vs))) ws ys valid
            ∙ sym (last-between n v (w ∷ vs) ws ys))
          (new_count n v w vs ws ys)))

-- Several strings in an empty list.
pub many_in_empty :
    (n v w : ℕ) (vs pre post : List ℕ) (start end : ℤ)
    → 1 ≤ n
    → All (λ s. 1 ≤ s) (v ∷ w ∷ vs)
    → resolve_negative_index start (pos (length (pre ++ (v ∷ w ∷ (vs ++ post))))) ≡ pos (length pre)
    → resolve_negative_index end (pos (length (pre ++ (v ∷ w ∷ (vs ++ post)))))
      ≡ pos (length pre + suc (suc (length vs)))
    → suc (suc (length vs)) < 2 ^ 31
    → ll_insert_blist_after 0 (pre ++ (v ∷ w ∷ (vs ++ post))) start end (list_of n [])
      ≡ ok (
        left_behind pre v (w ∷ vs) post,
        list_of (n + suc (suc (length vs))) (fresh_cells n (v ∷ w ∷ vs)),
      )
unfolding ll_insert_blist_after list_of tie_after over
many_in_empty n v w vs pre post start end ge given e₁ e₂ lt =
    let new = v ∷ w ∷ vs in
    let full = Valid-insert n new [] [] ge tt in
    let diff : (length pre + suc (suc (length vs))) - length pre ≡ suc (suc (length vs)) =
      omega arith in
    let several : (suc (suc (length vs)) == 1) ≡ false = ground arith in
    rw
      (
        e₁,
        e₂,
        assertions-range pre (w ∷ vs) post v,
        diff,
        several,
        chain-to_last n 0 0 true (list_of n []) pre post v (w ∷ vs) ge given.1 refl refl
            (omega (arith, lt)),
        set_next-last (n + suc (suc (length vs))) 0 n v (some 0) none (fresh_cells (suc n) (w ∷ vs))
            no_nodes (Valid-left (n + suc (suc (length vs))) (fresh_cells n new) [] full),
      )
      (ap (λ l. ok (left_behind pre v (w ∷ vs) post, l))
        (same_members (next_address n w vs) refl refl
          (new_count n v w vs [] [] ∙ ap (λ zs. pos (length zs)) (append-nil (fresh_cells n new)))))

-- Several strings in front of a node.
pub many_before :
    (n v w r u : ℕ) (vs pre post : List ℕ) (start end : ℤ) (xs ys : Cells)
    → 1 ≤ n
    → All (λ s. 1 ≤ s) (v ∷ w ∷ vs)
    → resolve_negative_index start (pos (length (pre ++ (v ∷ w ∷ (vs ++ post))))) ≡ pos (length pre)
    → resolve_negative_index end (pos (length (pre ++ (v ∷ w ∷ (vs ++ post)))))
      ≡ pos (length pre + suc (suc (length vs)))
    → Valid n (xs ++ ((r, u) ∷ ys))
    → length (xs ++ ((r, u) ∷ ys)) + suc (suc (length vs)) < 2 ^ 31
    → ll_insert_blist_before r
        (pre ++ (v ∷ w ∷ (vs ++ post)))
        start
        end
        (list_of n (xs ++ ((r, u) ∷ ys)))
      ≡ ok (
        left_behind pre v (w ∷ vs) post,
        list_of (n + suc (suc (length vs))) (xs ++ (fresh_cells n (v ∷ w ∷ vs) ++ ((r, u) ∷ ys))),
      )
unfolding ll_insert_blist_before list_of
many_before n v w r u vs pre post start end xs ys ge given e₁ e₂ valid lt =
    let zs = (r, u) ∷ ys in
    let new = v ∷ w ∷ vs in
    let full = Valid-insert n new xs zs ge valid in
    let diff : (length pre + suc (suc (length vs))) - length pre ≡ suc (suc (length vs)) =
      omega arith in
    let several : (suc (suc (length vs)) == 1) ≡ false = ground arith in
    rw
      (
        e₁,
        e₂,
        assertions-range pre (w ∷ vs) post v,
        diff,
        several,
        chain-to_last n (length (xs ++ zs)) r false (list_of n (xs ++ zs)) pre post v (w ∷ vs) ge
            given.1 refl refl lt,
        tie_before-cut n (n + suc (suc (length vs))) v r u (w ∷ vs) xs ys
            (pos (suc (length (xs ++ zs)) + suc (length vs))) (left_behind pre v (w ∷ vs) post)
            valid full,
      )
      (ap (λ l. ok (left_behind pre v (w ∷ vs) post, l))
        (same_members (next_address n w vs)
          (head_at-cut n n xs zs valid ∙ sym (first-append 0 xs (fresh_cells n new ++ zs)))
          (new_tail n (last n (fresh_cells (suc n) (w ∷ vs))) (xs ++ zs) valid
            ∙ last-append (last n (fresh_cells (suc n) (w ∷ vs))) xs zs
            ∙ sym (last-between n v (w ∷ vs) xs zs))
          (new_count n v w vs xs zs)))

-- Several strings in front of no node, in an empty list.
pub many_before_empty :
    (n v w : ℕ) (vs pre post : List ℕ) (start end : ℤ)
    → 1 ≤ n
    → All (λ s. 1 ≤ s) (v ∷ w ∷ vs)
    → resolve_negative_index start (pos (length (pre ++ (v ∷ w ∷ (vs ++ post))))) ≡ pos (length pre)
    → resolve_negative_index end (pos (length (pre ++ (v ∷ w ∷ (vs ++ post)))))
      ≡ pos (length pre + suc (suc (length vs)))
    → suc (suc (length vs)) < 2 ^ 31
    → ll_insert_blist_before 0 (pre ++ (v ∷ w ∷ (vs ++ post))) start end (list_of n [])
      ≡ ok (
        left_behind pre v (w ∷ vs) post,
        list_of (n + suc (suc (length vs))) (fresh_cells n (v ∷ w ∷ vs)),
      )
unfolding ll_insert_blist_before list_of tie_before over
many_before_empty n v w vs pre post start end ge given e₁ e₂ lt =
    let new = v ∷ w ∷ vs in
    let N = n + suc (suc (length vs)) in
    let news = Valid-left N (fresh_cells n new) [] (Valid-insert n new [] [] ge tt) in
    let diff : (length pre + suc (suc (length vs))) - length pre ≡ suc (suc (length vs)) =
      omega arith in
    let several : (suc (suc (length vs)) == 1) ≡ false = ground arith in
    rw
      (
        e₁,
        e₂,
        assertions-range pre (w ∷ vs) post v,
        diff,
        several,
        chain-to_last n 0 0 false (list_of n []) pre post v (w ∷ vs) ge given.1 refl refl
            (omega (arith, lt)),
        set_next-last N 0 n v none none (fresh_cells (suc n) (w ∷ vs)) no_nodes news,
        set_prev-place n v (over (some n) (fresh_cells (suc n) (w ∷ vs)) (some 0) no_nodes) ge 0
            none (some (suc n)),
      )
      (ap (λ l. ok (left_behind pre v (w ∷ vs) post, l))
        (same_members (next_address n w vs) refl refl
          (new_count n v w vs [] [] ∙ ap (λ zs. pos (length zs)) (append-nil (fresh_cells n new)))))
