-- ===== src/Events/Lines.antt =====
-- The lines of a buffer as the sequence of its strings, and single changes of them.
use tag_highlight_nvim.Base.{
  ℕ, suc, ◌≤◌, ◌≡◌, refl, ap, ◌∙◌, sym, true, List, [], ◌∷◌, ◌++◌, some, ltb, length, length-append,
  arith, ok,
}
use tag_highlight_nvim.Base.Int.{pos, negsuc}
use tag_highlight_nvim.Util.LinkedList.{node, no_nodes, LinkedList, place}
use tag_highlight_nvim.Util.LinkedList.At.{ll_at}
use tag_highlight_nvim.Util.LinkedList.Blist.{Pointers, resolve_negative_index}
use tag_highlight_nvim.Util.LinkedList.Cells.{
  Cells, first, last, front, back, over, Valid, list_of, last-append, has-append, over-append,
  write-over, write-write, node_at-over, node_at-place,
}
use tag_highlight_nvim.Util.LinkedList.Gap.{Valid-right, has-first, fresh_cells}
use tag_highlight_nvim.Util.LinkedList.Ends.{same_members, first-append}
use tag_highlight_nvim.Util.LinkedList.Index.{address_at, ll_at-node_for}
use tag_highlight_nvim.Util.LinkedList.Chain.{move_out-append}
use tag_highlight_nvim.Util.LinkedList.Take.{values}
use tag_highlight_nvim.Events.{set_data, replace_line}

-- The list is one of the repository's lists, well formed, and its values are these.
pub record Lines (l : LinkedList) (vs : List ℕ) : Type 0 where
  pub next : ℕ
  pub next_ge : 1 ≤ next
  pub nodes : Cells
  pub valid : Valid next nodes
  pub is : l ≡ list_of next nodes
  pub strings : values nodes ≡ vs

pub values-append : (xs ys : Cells) → values (xs ++ ys) ≡ values xs ++ values ys
values-append [] ys = refl
values-append ((p, v) ∷ xs) ys = ap (λ vs. v ∷ vs) (values-append xs ys)

pub values-fresh_cells : (n : ℕ) (vs : List ℕ) → values (fresh_cells n vs) ≡ vs
values-fresh_cells n [] = refl
values-fresh_cells n (v ∷ vs) = ap (λ ws. v ∷ ws) (values-fresh_cells (suc n) vs)

pub length-values : (xs : Cells) → length (values xs) ≡ length xs
length-values [] = refl
length-values ((p, v) ∷ xs) = ap suc (length-values xs)

pub address_at-length : (xs ys : Cells) → address_at (length xs) (xs ++ ys) ≡ first 0 ys
address_at-length [] ys = refl
address_at-length ((p, v) ∷ xs) ys = address_at-length xs ys

-- The node behind a part of the list, found by the part's length.
pub ll_at-length :
    (n : ℕ) (xs ys : Cells) (c : ℕ × ℕ)
    → Valid n (xs ++ (c ∷ ys))
    → ll_at (pos (length xs)) (list_of n (xs ++ (c ∷ ys))) ≡ ok c.0
ll_at-length n xs ys (p, v) valid =
    let inside : ltb (length xs) (length (xs ++ ((p, v) ∷ ys))) ≡ true =
      ground (arith, length-append xs ((p, v) ∷ ys)) in
    ll_at-node_for n (xs ++ ((p, v) ∷ ys)) (pos (length xs)) valid
    ∙ rw (inside) (ap ok (address_at-length xs ((p, v) ∷ ys)))

-- At its length there is the list's last node.
pub ll_at-end :
    (n : ℕ) (xs : Cells) → Valid n xs → ll_at (pos (length xs)) (list_of n xs) ≡ ok (last 0 xs)
ll_at-end n xs valid = ll_at-node_for n xs (pos (length xs)) valid ∙ ground arith

set_data-cut :
    (n p u v : ℕ) (xs ys : Cells)
    → Valid n (xs ++ ((p, u) ∷ ys))
    → set_data p v (over (some 0) (xs ++ ((p, u) ∷ ys)) (some 0) no_nodes)
      ≡ ok (over (some 0) (xs ++ ((p, v) ∷ ys)) (some 0) no_nodes)
unfolding set_data over
set_data-cut n p u v xs ys valid =
    let out = has-first n xs ((p, u) ∷ ys) valid in
    let ge = (Valid-right n xs ((p, u) ∷ ys) valid).0 in
    let a = back (some 0) xs in
    let b = front (some 0) ys in
    let rest = over (some p) ys (some 0) no_nodes in
    rw
      (
        over-append (some 0) (some 0) xs ((p, u) ∷ ys) no_nodes,
        over-append (some 0) (some 0) xs ((p, v) ∷ ys) no_nodes,
        node_at-over p (some 0) (some p) xs (place p u a b rest) out,
        node_at-place p u rest ge a b,
        write-over p (some 0) (some p) xs (place p u a b rest) (some (node v a b)) out,
        write-write rest p (some (node u a b)) (some (node v a b)),
      )
      refl

pub replace_line-node :
    (n p u v : ℕ) (xs ys : Cells) (pre post : Pointers)
    → Valid n (xs ++ ((p, u) ∷ ys))
    → replace_line
        (pre ++ (v ∷ post))
        (pos (length xs))
        (length pre)
        (list_of n (xs ++ ((p, u) ∷ ys)))
      ≡ ok (pre ++ (0 ∷ post), list_of n (xs ++ ((p, v) ∷ ys)))
unfolding replace_line list_of
replace_line-node n p u v xs ys pre post valid =
    rw
      (
        ll_at-length n xs ys (p, u) valid,
        move_out-append pre post v,
        set_data-cut n p u v xs ys valid,
      )
      (ap (λ l. ok (pre ++ (0 ∷ post), l))
        (same_members refl (first-append 0 xs ((p, u) ∷ ys) ∙ sym (first-append 0 xs ((p, v) ∷ ys)))
          (last-append 0 xs ((p, u) ∷ ys) ∙ sym (last-append 0 xs ((p, v) ∷ ys)))
          (ap pos (omega (arith, length-append xs ((p, u) ∷ ys), length-append xs ((p, v) ∷ ys))))))

pub Valid-relabel :
    (n p u v : ℕ) (xs ys : Cells) → Valid n (xs ++ ((p, u) ∷ ys)) → Valid n (xs ++ ((p, v) ∷ ys))
Valid-relabel n p u v [] ys valid = valid
Valid-relabel n p u v ((q, w) ∷ xs) ys valid = (
  valid.0,
  valid.1,
  ground (arith, has-append q xs ((p, u) ∷ ys), has-append q xs ((p, v) ∷ ys), valid.2),
  Valid-relabel n p u v xs ys valid.3,
)

-- From an index to the last string.
pub resolve_last : (k : ℕ) → resolve_negative_index (negsuc 0) (pos (suc k)) ≡ pos (suc k)
resolve_last k = ground arith
