-- ===== src/Util/LinkedList/Insert.antt =====
-- The operations of util/linked_list.c that add one node.
use tag_highlight_nvim.Util.LinkedList.Ends.{
  int-pos, made, new_tail, new_head, first-append, has-first_new,
}
use tag_highlight_nvim.Base.{
  ℕ, suc, ◌^◌, ◌≤◌, ◌<◌, ◌≡◌, ap, ◌∙◌, sym, false, [], ◌∷◌, ◌++◌, some, ◌==◌, length, length-append,
  arith, ok,
}
use tag_highlight_nvim.Base.Int.{pos}
use tag_highlight_nvim.Util.LinkedList.{
  node, no_nodes, place, link_prev, ll_prepend, ll_append, link_after, link_before,
}
use tag_highlight_nvim.Util.LinkedList.Cells.{
  Cells, first, last, front, over, Valid, list_of, front-some, last-append, write-over, has_fresh,
  get_prev-over, get_prev-place, set_prev-over, set_prev-place,
}
use tag_highlight_nvim.Util.LinkedList.Gap.{
  Valid-left, Valid-right, has-first, link_prev-over, link_prev-first, link_next-last,
  set_next-last, get_next-last, last_ge, over-cut,
}

pub ll_prepend_lem :
    (v n : ℕ) (xs : Cells)
    → Valid n xs
    → suc (length xs) < 2 ^ 31
    → ll_prepend v (list_of n xs) ≡ ok (list_of (suc n) ((n, v) ∷ xs))
unfolding ll_prepend list_of over
ll_prepend_lem v n xs valid lt = rw (
  link_prev-first n n (some 0) (some 0) xs no_nodes valid,
  int-pos (suc (length xs)) lt,
  new_tail n n xs valid,
  sym (front-some 0 xs),
)

pub ll_append_lem :
    (v n : ℕ) (xs : Cells)
    → Valid n xs
    → suc (length xs) < 2 ^ 31
    → ll_append v (list_of n xs) ≡ ok (list_of (suc n) (xs ++ (n, v) ∷ []))
unfolding ll_append list_of over
ll_append_lem v n xs valid lt =
    rw (link_next-last n n (some 0) xs no_nodes valid, int-pos (suc (length xs)) lt)
      (ap ok (
        made (suc n) (xs ++ (n, v) ∷ []) _ _ n (pos (suc (length xs)))
          (write-over n (some 0) (some n) xs no_nodes _ (has_fresh n n xs (omega arith) valid)
            ∙ sym (over-cut xs ((n, v) ∷ [])))
          (new_head n n xs valid ∙ sym (first-append 0 xs ((n, v) ∷ [])))
          (sym (last-append 0 xs ((n, v) ∷ [])))
          (ap pos (omega (arith, length-append xs ((n, v) ∷ []))))))

link_prev-new :
    (n w a : ℕ) (ys : Cells)
    → 1 ≤ n
    → Valid n ys
    → link_prev
        (first 0 ys)
        n
        (place n w (some a) (some (first 0 ys)) (over (some a) ys (some 0) no_nodes))
      ≡ ok (over (some a) ((n, w) ∷ ys) (some 0) no_nodes)
unfolding over
link_prev-new n w a ys ge valid =
    link_prev-over (first 0 ys) n (some a) (some (first 0 ys)) ((n, w) ∷ [])
      (over (some a) ys (some 0) no_nodes) (over (some n) ys (some 0) no_nodes)
      (has-first_new n w ys ge valid) (link_prev-first n n (some a) (some 0) ys no_nodes valid)
    ∙ rw (front-some 0 ys)

pub link_after-cut :
    (n w p v : ℕ) (xs ys : Cells)
    → 1 ≤ n
    → Valid n (((p, v) ∷ xs) ++ ys)
    → link_after n (last p xs) w (over (some 0) (((p, v) ∷ xs) ++ ys) (some 0) no_nodes)
      ≡ ok (over (some 0) (((p, v) ∷ xs) ++ ((n, w) ∷ ys)) (some 0) no_nodes)
unfolding link_after
link_after-cut n w p v xs ys ge valid =
    let left = Valid-left n ((p, v) ∷ xs) ys valid in
    let right = Valid-right n ((p, v) ∷ xs) ys valid in
    let null : (last p xs == 0) ≡ false = ground (arith, last_ge n p v xs left) in
    rw
      (
        null,
        over-cut ((p, v) ∷ xs) ys,
        over-cut ((p, v) ∷ xs) ((n, w) ∷ ys),
        get_next-last n (first 0 ys) p v (some 0) xs (over (some (last p xs)) ys (some 0) no_nodes)
            left,
        write-over n (some 0) (some (first 0 ys)) ((p, v) ∷ xs)
            (over (some (last p xs)) ys (some 0) no_nodes)
            (some (node w (some (last p xs)) (some (first 0 ys))))
            (has_fresh n n ((p, v) ∷ xs) (omega arith) left),
        set_next-last n n p v (some 0) (some (first 0 ys)) xs
            (place n w (some (last p xs)) (some (first 0 ys))
              (over (some (last p xs)) ys (some 0) no_nodes))
            left,
      )
      (link_prev-over (first 0 ys) n (some 0) (some n) ((p, v) ∷ xs)
        (place n w (some (last p xs)) (some (first 0 ys))
          (over (some (last p xs)) ys (some 0) no_nodes))
        (over (some (last p xs)) ((n, w) ∷ ys) (some 0) no_nodes)
        (has-first n ((p, v) ∷ xs) ys valid) (link_prev-new n w (last p xs) ys ge right))

pub link_before-cut :
    (n w r u : ℕ) (xs ys : Cells)
    → 1 ≤ n
    → Valid n (xs ++ ((r, u) ∷ ys))
    → link_before n r w (over (some 0) (xs ++ ((r, u) ∷ ys)) (some 0) no_nodes)
      ≡ ok (over (some 0) (xs ++ ((n, w) ∷ (r, u) ∷ ys)) (some 0) no_nodes)
unfolding link_before over
link_before-cut n w r u xs ys ge valid =
    let left = Valid-left n xs ((r, u) ∷ ys) valid in
    let right = Valid-right n xs ((r, u) ∷ ys) valid in
    let null : (r == 0) ≡ false = ground (arith, right.0) in
    let out = has-first n xs ((r, u) ∷ ys) valid in
    let behind = over (some (last 0 xs)) ((r, u) ∷ ys) (some 0) no_nodes in
    let new = place n w (some (last 0 xs)) (some r) in
    rw
      (
        null,
        over-cut xs ((r, u) ∷ ys),
        over-cut xs ((n, w) ∷ (r, u) ∷ ys),
        get_prev-over r (some 0) (some r) xs behind out,
        get_prev-place r u (over (some r) ys (some 0) no_nodes) right.0 (last 0 xs)
            (front (some 0) ys),
        write-over n (some 0) (some r) xs behind (some (node w (some (last 0 xs)) (some r)))
            (has_fresh n n xs (omega arith) left),
        set_prev-over r n (some 0) (some r) xs (new behind)
            (over (some (last 0 xs)) ((n, w) ∷ (r, u) ∷ ys) (some 0) no_nodes) out
            (set_prev-over r n (some (last 0 xs)) (some r) ((n, w) ∷ []) behind
              (over (some n) ((r, u) ∷ ys) (some 0) no_nodes)
              (has-first_new n w ((r, u) ∷ ys) ge right)
              (set_prev-place r u (over (some r) ys (some 0) no_nodes) right.0 n (some (last 0 xs))
                (front (some 0) ys))),
      )
      (link_next-last n n (some r) xs
        (over (some (last 0 xs)) ((n, w) ∷ (r, u) ∷ ys) (some 0) no_nodes) left)
