-- ===== src/Util/LinkedList/InsertRange.antt =====
-- A range of a list of strings, of any length above 0, moved into a linked list of
-- util/linked_list.c.
use tag_highlight_nvim.Base.{
  ℕ, suc, ◌+◌, ◌-◌, ◌^◌, ◌≤◌, ◌<◌, ◌≡◌, ap, ◌∙◌, sym, Bool, true, false, List, [], ◌∷◌, ◌++◌,
  append-nil, length, All, arith, ok,
}
use tag_highlight_nvim.Base.Int.{ℤ, pos}
use tag_highlight_nvim.Util.LinkedList.{LinkedList, ll_insert_after, ll_insert_before}
use tag_highlight_nvim.Util.LinkedList.Blist.{
  resolve_negative_index, ll_insert_blist_after, ll_insert_blist_before,
}
use tag_highlight_nvim.Util.LinkedList.Cells.{Cells, first, last, Valid, list_of}
use tag_highlight_nvim.Util.LinkedList.Gap.{fresh_cells}
use tag_highlight_nvim.Util.LinkedList.InsertOne.{ll_insert_after_lem, ll_insert_before_lem}
use tag_highlight_nvim.Util.LinkedList.Chain.{string_at-append}
use tag_highlight_nvim.Util.LinkedList.InsertBlist.{left_behind, assertions-range}
use tag_highlight_nvim.Util.LinkedList.InsertMany.{
  many_after, many_in_empty, many_before, many_before_empty,
}

-- A pointer to the node at one side of a place is not NULL, or the list is empty.
abbrev pub given_node : Cells → Cells → Bool
given_node [] (y ∷ ys) = false
given_node _ _ = true

module _ (n v : ℕ) (pre post : List ℕ) (start end : ℤ)
    (e₁ : resolve_negative_index start (pos (length (pre ++ (v ∷ post)))) ≡ pos (length pre))
    (e₂ : resolve_negative_index end (pos (length (pre ++ (v ∷ post))))
      ≡ pos (length pre + 1)) where
  one_diff : (length pre + 1) - length pre ≡ 1
  one_diff = omega arith

  one_after :
      (at : ℕ) (l l' : LinkedList)
      → ll_insert_after at v l ≡ ok l'
      → ll_insert_blist_after at (pre ++ (v ∷ post)) start end l ≡ ok (pre ++ (v ∷ post), l')
  unfolding ll_insert_blist_after
  one_after at l l' e =
      rw (e₁, e₂, assertions-range pre [] post v, one_diff, string_at-append pre post v, e)

  one_before :
      (at : ℕ) (l l' : LinkedList)
      → ll_insert_before at v l ≡ ok l'
      → ll_insert_blist_before at (pre ++ (v ∷ post)) start end l ≡ ok (pre ++ (v ∷ post), l')
  unfolding ll_insert_blist_before
  one_before at l l' e =
      rw (e₁, e₂, assertions-range pre [] post v, one_diff, string_at-append pre post v, e)

pub ll_insert_blist_after_lem :
    (n v : ℕ) (vs pre post : List ℕ) (start end : ℤ) (xs ys : Cells)
    → 1 ≤ n
    → All (λ s. 1 ≤ s) (v ∷ vs)
    → resolve_negative_index start (pos (length (pre ++ (v ∷ (vs ++ post))))) ≡ pos (length pre)
    → resolve_negative_index end (pos (length (pre ++ (v ∷ (vs ++ post)))))
      ≡ pos (length pre + suc (length vs))
    → Valid n (xs ++ ys)
    → length (xs ++ ys) + suc (length vs) < 2 ^ 31
    → given_node xs ys ≡ true
    → ll_insert_blist_after (last 0 xs) (pre ++ (v ∷ (vs ++ post))) start end (list_of n (xs ++ ys))
      ≡ ok (
        left_behind pre v vs post,
        list_of (n + suc (length vs)) (xs ++ (fresh_cells n (v ∷ vs) ++ ys)),
      )
ll_insert_blist_after_lem n v [] pre post start end [] [] ge given e₁ e₂ valid lt here =
    one_after n v pre post start end e₁ e₂ 0 (list_of n []) (list_of (n + 1) ((n, v) ∷ [])) (
      ll_insert_after_lem v n [] [] ge valid (omega arith)
      ∙ ap (λ m. ok (list_of m ((n, v) ∷ []))) (omega arith))
ll_insert_blist_after_lem n v vs pre post start end [] (y ∷ ys) ge given e₁ e₂ valid lt here = cc
ll_insert_blist_after_lem n v [] pre post start end ((p, u) ∷ xs) ys ge given e₁ e₂ valid lt here =
    let ws = (p, u) ∷ xs in
    one_after n v pre post start end e₁ e₂ (last p xs) (list_of n (ws ++ ys))
      (list_of (n + 1) (ws ++ ((n, v) ∷ ys)))
      (ll_insert_after_lem v n ws ys ge valid (omega (arith, lt))
        ∙ ap (λ m. ok (list_of m (ws ++ ((n, v) ∷ ys)))) (omega arith))
ll_insert_blist_after_lem n v (w ∷ vs) pre post start end [] [] ge given e₁ e₂ valid lt here =
    many_in_empty n v w vs pre post start end ge given e₁ e₂ (omega (arith, lt))
    ∙ ap (λ zs. ok (left_behind pre v (w ∷ vs) post, list_of (n + suc (suc (length vs))) zs))
        (sym (append-nil (fresh_cells n (v ∷ w ∷ vs))))
ll_insert_blist_after_lem n v (w ∷ vs) pre post start end ((p, u) ∷ xs) ys ge given e₁ e₂ valid lt
      here =
    many_after n v w p u vs pre post start end xs ys ge given e₁ e₂ valid lt

pub ll_insert_blist_before_lem :
    (n v : ℕ) (vs pre post : List ℕ) (start end : ℤ) (xs ys : Cells)
    → 1 ≤ n
    → All (λ s. 1 ≤ s) (v ∷ vs)
    → resolve_negative_index start (pos (length (pre ++ (v ∷ (vs ++ post))))) ≡ pos (length pre)
    → resolve_negative_index end (pos (length (pre ++ (v ∷ (vs ++ post)))))
      ≡ pos (length pre + suc (length vs))
    → Valid n (xs ++ ys)
    → length (xs ++ ys) + suc (length vs) < 2 ^ 31
    → given_node ys xs ≡ true
    → ll_insert_blist_before
        (first 0 ys)
        (pre ++ (v ∷ (vs ++ post)))
        start
        end
        (list_of n (xs ++ ys))
      ≡ ok (
        left_behind pre v vs post,
        list_of (n + suc (length vs)) (xs ++ (fresh_cells n (v ∷ vs) ++ ys)),
      )
ll_insert_blist_before_lem n v [] pre post start end [] [] ge given e₁ e₂ valid lt here =
    one_before n v pre post start end e₁ e₂ 0 (list_of n []) (list_of (n + 1) ((n, v) ∷ [])) (
      ll_insert_before_lem v n [] [] ge valid (omega arith)
      ∙ ap (λ m. ok (list_of m ((n, v) ∷ []))) (omega arith))
ll_insert_blist_before_lem n v (w ∷ vs) pre post start end [] [] ge given e₁ e₂ valid lt here =
    many_before_empty n v w vs pre post start end ge given e₁ e₂ (omega (arith, lt))
    ∙ ap (λ zs. ok (left_behind pre v (w ∷ vs) post, list_of (n + suc (suc (length vs))) zs))
        (sym (append-nil (fresh_cells n (v ∷ w ∷ vs))))
ll_insert_blist_before_lem n v vs pre post start end (x ∷ xs) [] ge given e₁ e₂ valid lt here = cc
ll_insert_blist_before_lem n v [] pre post start end xs ((r, u) ∷ ys) ge given e₁ e₂ valid lt here =
    let zs = (r, u) ∷ ys in
    one_before n v pre post start end e₁ e₂ r (list_of n (xs ++ zs))
      (list_of (n + 1) (xs ++ ((n, v) ∷ zs)))
      (ll_insert_before_lem v n xs zs ge valid (omega (arith, lt))
        ∙ ap (λ m. ok (list_of m (xs ++ ((n, v) ∷ zs)))) (omega arith))
ll_insert_blist_before_lem n v (w ∷ vs) pre post start end xs ((r, u) ∷ ys) ge given e₁ e₂ valid lt
      here =
    many_before n v w r u vs pre post start end xs ys ge given e₁ e₂ valid lt
