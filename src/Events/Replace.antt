-- ===== src/Events/Replace.antt =====
-- line_event_multi_op of event_handlers.c replaces a range of lines.
use mathlib.Core.Path.{subst}
use tag_highlight_nvim.Base.{
  ℕ, suc, ◌+◌, ◌^◌, ◌≤◌, ◌<◌, ◌≡◌, refl, ap, ◌∙◌, sym, true, List, [], ◌∷◌, ◌++◌, append-nil,
  length, length-append, drop-length_append, All, arith, ok,
}
use tag_highlight_nvim.Base.Int.{pos, negsuc}
use tag_highlight_nvim.Util.LinkedList.At.{ll_at}
use tag_highlight_nvim.Util.LinkedList.Blist.{Pointers, resolve_negative_index}
use tag_highlight_nvim.Util.LinkedList.Cells.{Cells, Valid, list_of}
use tag_highlight_nvim.Util.LinkedList.Gap.{fresh_cells}
use tag_highlight_nvim.Util.LinkedList.Delete.{Valid-drop}
use tag_highlight_nvim.Util.LinkedList.DeleteNode.{ll_delete_range_lem}
use tag_highlight_nvim.Util.LinkedList.InsertRange.{
  given_node, ll_insert_blist_after_lem, ll_insert_blist_before_lem,
}
use tag_highlight_nvim.Util.LinkedList.Take.{values}
use tag_highlight_nvim.Events.{ll_delete_range_at, insert_before_at, insert_after_at}
use tag_highlight_nvim.Events.Lines.{
  Lines, values-append, values-fresh_cells, ll_at-length, ll_at-end, resolve_last,
}

pub list_of-Lines :
    (n : ℕ) (xs : Cells) (vs : List ℕ)
    → 1 ≤ n
    → Valid n xs
    → values xs ≡ vs
    → Lines (list_of n xs) vs
list_of-Lines n xs vs ge valid e = record {
  next = n;
  next_ge = ge;
  nodes = xs;
  valid = valid;
  is = refl;
  strings = e;
}

-- A list of nodes with a run in it that has these values.
pub values-between :
    (xs ys : Cells) (n : ℕ) (vs : List ℕ)
    → values (xs ++ (fresh_cells n vs ++ ys)) ≡ values xs ++ (vs ++ values ys)
values-between xs ys n vs = rw (
  values-append xs (fresh_cells n vs ++ ys),
  values-append (fresh_cells n vs) ys,
  values-fresh_cells n vs,
)

-- The strings from an index on are the rest of the list.
pub ends_at :
    (pre vs : Pointers) (v : ℕ)
    → resolve_negative_index (negsuc 0) (pos (length (pre ++ (v ∷ (vs ++ [])))))
      ≡ pos (length pre + suc (length vs))
ends_at pre vs v =
    let count : length (pre ++ (v ∷ (vs ++ []))) ≡ suc (length pre + length vs) =
      omega (arith, length-append pre (v ∷ (vs ++ [])), length-append vs []) in
    rw (count) (resolve_last (length pre + length vs) ∙ ap pos (omega arith))

module _ (n v : ℕ) (vs pre : Pointers) (ge : 1 ≤ n) (given : All (λ s. 1 ≤ s) (v ∷ vs)) where
  same_strings : pre ++ (v ∷ vs) ≡ pre ++ (v ∷ (vs ++ []))
  same_strings = ap (λ ws. pre ++ (v ∷ ws)) (sym (append-nil vs))

  pub insert_before_at-node :
      (xs ys : Cells) (c : ℕ × ℕ)
      → Valid n (xs ++ (c ∷ ys))
      → length (xs ++ (c ∷ ys)) + suc (length vs) < 2 ^ 31
      → insert_before_at
          (pos (length xs))
          (pre ++ (v ∷ vs))
          (length pre)
          (list_of n (xs ++ (c ∷ ys)))
        ≡ ok (list_of (n + suc (length vs)) (xs ++ (fresh_cells n (v ∷ vs) ++ (c ∷ ys))))
  unfolding insert_before_at
  insert_before_at-node xs ys (p, u) valid lt =
      ap
        (λ ws. insert_before_at (pos (length xs)) ws (length pre) (list_of n (xs ++ ((p, u) ∷ ys))))
        same_strings
      ∙ rw
          (
            ll_at-length n xs ys (p, u) valid,
            ll_insert_blist_before_lem n v vs pre [] (pos (length pre)) (negsuc 0) xs ((p, u) ∷ ys)
                ge given refl (ends_at pre vs v) valid lt refl,
          )
          refl

  pub insert_after_at-end :
      (xs : Cells)
      → Valid n (xs ++ [])
      → length (xs ++ []) + suc (length vs) < 2 ^ 31
      → insert_after_at (pos (length xs)) (pre ++ (v ∷ vs)) (length pre) (list_of n (xs ++ []))
        ≡ ok (list_of (n + suc (length vs)) (xs ++ (fresh_cells n (v ∷ vs) ++ [])))
  unfolding insert_after_at
  insert_after_at-end xs valid lt =
      ap (λ ws. insert_after_at (pos (length xs)) ws (length pre) (list_of n (xs ++ [])))
        same_strings
      ∙ rw
          (
            ap (λ zs. ll_at (pos (length xs)) (list_of n zs)) (append-nil xs)
                ∙ ll_at-end n xs (subst (Valid n) (append-nil xs) valid),
            ll_insert_blist_after_lem n v vs pre [] (pos (length pre)) (negsuc 0) xs [] ge given
                refl (ends_at pre vs v) valid lt (given_end xs),
          )
          refl
    where
      given_end : (zs : Cells) → given_node zs [] ≡ true
      given_end [] = refl
      given_end (z ∷ zs) = refl

pub list_of-qty : (n : ℕ) (xs : Cells) → (list_of n xs).qty ≡ pos (length xs)
unfolding list_of
list_of-qty n xs = refl

-- Lines from an index on are deleted.
pub ll_delete_range_at-nodes :
    (n : ℕ) (xs old ys : Cells) (c : ℕ × ℕ)
    → Valid n (xs ++ ((c ∷ old) ++ ys))
    → length (xs ++ ((c ∷ old) ++ ys)) < 2 ^ 31
    → ll_delete_range_at
        (pos (length xs))
        (pos (suc (length old)))
        (list_of n (xs ++ ((c ∷ old) ++ ys)))
      ≡ ok (list_of n (xs ++ ys))
unfolding ll_delete_range_at
ll_delete_range_at-nodes n xs old ys (p, u) valid lt =
    rw (ll_at-length n xs (old ++ ys) (p, u) valid) (
      ll_delete_range_lem n (suc (length old)) p u xs (old ++ ys) valid lt
      ∙ ap (λ zs. ok (list_of n (xs ++ zs))) (drop-length_append ((p, u) ∷ old) ys))

pub Valid-delete : (n : ℕ) (xs old ys : Cells) → Valid n (xs ++ (old ++ ys)) → Valid n (xs ++ ys)
Valid-delete n xs old ys valid =
    subst (λ zs. Valid n (xs ++ zs)) (drop-length_append old ys)
      (Valid-drop n (length old) xs (old ++ ys) valid)
