-- ===== src/Util/LinkedList/Tie.antt =====
-- New nodes tied into a list of util/linked_list.c, behind a node and in front of one.
use tag_highlight_nvim.Base.{
  ℕ, suc, ◌≡◌, ap, ◌∙◌, false, List, ◌∷◌, ◌++◌, Option, none, some, ◌==◌, arith, ok,
}
use tag_highlight_nvim.Base.Int.{ℤ}
use tag_highlight_nvim.Util.LinkedList.{no_nodes}
use tag_highlight_nvim.Util.LinkedList.Blist.{Pointers, tie_after, tie_before}
use tag_highlight_nvim.Util.LinkedList.Cells.{
  Cells, first, last, front, has, over, Valid, front-some, back-some, has-append, over-append,
  get_next-over, get_prev-over, set_next-over, set_prev-over, get_prev-place, set_prev-place,
}
use tag_highlight_nvim.Util.LinkedList.Gap.{
  fresh_cells, Valid-left, Valid-right, has-last, has-apart, has-first, link_prev-over,
  link_prev-first, link_next-last, set_next-last, get_next-last, last_ge, over-cut,
}
use tag_highlight_nvim.Util.LinkedList.Chain.{linked, over-swap}

-- The heap of a list with a run of nodes between its parts.
pub over-between :
    (n v : ℕ) (vs : List ℕ) (xs ys : Cells)
    → over (some 0) (xs ++ (fresh_cells n (v ∷ vs) ++ ys)) (some 0) no_nodes
      ≡ over (some 0) xs (some n) (
          over
            (some (last 0 xs))
            (fresh_cells n (v ∷ vs))
            (some (first 0 ys))
            (over (some (last n (fresh_cells (suc n) vs))) ys (some 0) no_nodes))
over-between n v vs xs ys =
    over-cut xs (fresh_cells n (v ∷ vs) ++ ys)
    ∙ ap (over (some 0) xs (some n)) (
        rw (
          over-append (some (last 0 xs)) (some 0) (fresh_cells n (v ∷ vs)) ys no_nodes,
          front-some 0 ys,
          back-some n (fresh_cells (suc n) vs),
        ))

module _ (n N v : ℕ) (vs : List ℕ) (xs ys : Cells) (valid : Valid n (xs ++ ys))
    (full : Valid N (xs ++ (fresh_cells n (v ∷ vs) ++ ys))) where
  right : Valid N (fresh_cells n (v ∷ vs) ++ ys)
  right = Valid-right N xs (fresh_cells n (v ∷ vs) ++ ys) full

  news : Valid N (fresh_cells n (v ∷ vs))
  news = Valid-left N (fresh_cells n (v ∷ vs)) ys right

  end_outside : has (last n (fresh_cells (suc n) vs)) xs ≡ false
  end_outside =
      has-apart N (last n (fresh_cells (suc n) vs)) xs (fresh_cells n (v ∷ vs) ++ ys) full (
        ground (
          arith,
          has-append (last n (fresh_cells (suc n) vs)) (fresh_cells n (v ∷ vs)) ys,
          has-last n v (fresh_cells (suc n) vs),
        ))

  -- The new nodes stand below the list's first part.
  sunk :
      (a : Option ℕ)
      → over a (fresh_cells n (v ∷ vs)) none (over (some 0) (xs ++ ys) (some 0) no_nodes)
        ≡ over
            (some 0)
            xs
            (some (first 0 ys))
            (over a (fresh_cells n (v ∷ vs)) none (over (some (last 0 xs)) ys (some 0) no_nodes))
  sunk a =
      ap (over a (fresh_cells n (v ∷ vs)) none) (over-cut xs ys)
      ∙ over-swap n n a none (some 0) (some (first 0 ys)) (v ∷ vs) xs
          (over (some (last 0 xs)) ys (some 0) no_nodes) (omega arith) (Valid-left n xs ys valid)

pub tie_after-cut :
    (n N v p u : ℕ) (vs : List ℕ) (xs ys : Cells) (k : ℤ) (b : Pointers)
    → Valid n (((p, u) ∷ xs) ++ ys)
    → Valid N (((p, u) ∷ xs) ++ (fresh_cells n (v ∷ vs) ++ ys))
    → tie_after (last p xs) n (
        linked
          (over
            (some (last p xs))
            (fresh_cells n (v ∷ vs))
            none
            (over (some 0) (((p, u) ∷ xs) ++ ys) (some 0) no_nodes))
          (last n (fresh_cells (suc n) vs))
          k
          b)
      ≡ ok (over (some 0) (((p, u) ∷ xs) ++ (fresh_cells n (v ∷ vs) ++ ys)) (some 0) no_nodes)
unfolding tie_after
tie_after-cut n N v p u vs xs ys k b valid full =
    let ws = (p, u) ∷ xs in
    let l = last p xs in
    let q = first 0 ys in
    let new = fresh_cells n (v ∷ vs) in
    let m = last n (fresh_cells (suc n) vs) in
    let left = Valid-left n ws ys valid in
    let left' = Valid-left N ws (new ++ ys) full in
    let news' = news n N v vs ws ys valid full in
    let null : (l == 0) ≡ false = ground (arith, last_ge n p u xs left) in
    let out = end_outside n N v vs ws ys valid full in
    let tail = over (some l) ys (some 0) no_nodes in
    let closed = over (some l) new (some q) tail in
    rw
      (
        null,
        sunk n N v vs ws ys valid full (some l),
        get_next-last n q p u (some 0) xs (over (some l) new none tail) left,
        set_next-over m q (some 0) (some q) ws (over (some l) new none tail) closed out
            (set_next-last N q n v (some l) none (fresh_cells (suc n) vs) tail news'),
        set_next-last N n p u (some 0) (some q) xs closed left',
        get_next-over m (some 0) (some n) ws closed out,
        get_next-last N q n v (some l) (fresh_cells (suc n) vs) tail news',
        over-between n v vs ws ys,
      )
      (link_prev-over q m (some 0) (some n) ws closed
        (over (some l) new (some q) (over (some m) ys (some 0) no_nodes)) (has-first n ws ys valid)
        (link_prev-over q m (some l) (some q) new tail (over (some m) ys (some 0) no_nodes)
          (has-first N new ys (right n N v vs ws ys valid full))
          (link_prev-first n m (some l) (some 0) ys no_nodes (Valid-right n ws ys valid))))

pub tie_before-cut :
    (n N v r w : ℕ) (vs : List ℕ) (xs ys : Cells) (k : ℤ) (b : Pointers)
    → Valid n (xs ++ ((r, w) ∷ ys))
    → Valid N (xs ++ (fresh_cells n (v ∷ vs) ++ ((r, w) ∷ ys)))
    → tie_before r n (
        linked
          (over none
            (fresh_cells n (v ∷ vs))
            none
            (over (some 0) (xs ++ ((r, w) ∷ ys)) (some 0) no_nodes))
          (last n (fresh_cells (suc n) vs))
          k
          b)
      ≡ ok (over (some 0) (xs ++ (fresh_cells n (v ∷ vs) ++ ((r, w) ∷ ys))) (some 0) no_nodes)
unfolding tie_before over
tie_before-cut n N v r w vs xs ys k b valid full =
    let zs = (r, w) ∷ ys in
    let l = last 0 xs in
    let later = fresh_cells (suc n) vs in
    let new = (n, v) ∷ later in
    let m = last n later in
    let left' = Valid-left N xs (new ++ zs) full in
    let news' = news n N v vs xs zs valid full in
    let right' = Valid-right n xs zs valid in
    let null : (r == 0) ≡ false = ground (arith, right'.0) in
    let out = end_outside n N v vs xs zs valid full in
    let r_out = has-first n xs zs valid in
    let r_new = has-first N new zs (right n N v vs xs zs valid full) in
    let n_out = has-first N xs (new ++ zs) full in
    let tail = over (some l) zs (some 0) no_nodes in
    let tail' = over (some m) zs (some 0) no_nodes in
    rw
      (
        sunk n N v vs xs zs valid full none,
        set_next-over m r (some 0) (some r) xs (over none new none tail)
            (over none new (some r) tail) out (set_next-last N r n v none none later tail news'),
        null,
        get_prev-over r (some 0) (some r) xs (over none new (some r) tail) r_out,
        get_prev-over r none (some r) new tail r_new,
        get_prev-place r w (over (some r) ys (some 0) no_nodes) right'.0 l (front (some 0) ys),
        set_prev-over n l (some 0) (some r) xs (over none new (some r) tail)
            (over (some l) new (some r) tail) n_out
            (set_prev-place n v (over (some n) later (some r) tail) news'.0 l none
              (front (some r) later)),
        set_prev-over r m (some 0) (some r) xs (over (some l) new (some r) tail)
            (over (some l) new (some r) tail') r_out
            (set_prev-over r m (some l) (some r) new tail tail' r_new (
              set_prev-place r w (over (some r) ys (some 0) no_nodes) right'.0 m (some l)
                (front (some 0) ys))),
        get_prev-over n (some 0) (some r) xs (over (some l) new (some r) tail') n_out,
        get_prev-place n v (over (some n) later (some r) tail') news'.0 l (front (some r) later),
        over-between n v vs xs zs,
      )
      (link_next-last N n (some r) xs (over (some l) new (some r) tail') left')
