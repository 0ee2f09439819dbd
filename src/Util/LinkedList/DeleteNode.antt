-- ===== src/Util/LinkedList/DeleteNode.antt =====
-- ll_delete_node of util/linked_list.c on a list of a sequence of nodes, and ll_delete_range for any
-- number of nodes.
use tag_highlight_nvim.Base.{
  ℕ, zero, suc, ◌+◌, ◌^◌, ◌<◌, ◌≡◌, refl, ap, ◌∙◌, sym, false, [], ◌∷◌, ◌++◌, append-nil, none,
  some, ◌==◌, ==_refl, length, length-append, drop, arith, ok,
}
use tag_highlight_nvim.Base.Int.{pos}
use tag_highlight_nvim.Util.LinkedList.{no_nodes, place, set_prev}
use tag_highlight_nvim.Util.LinkedList.Remove.{unlink, ll_delete_node, ll_delete_range}
use tag_highlight_nvim.Util.LinkedList.Cells.{
  Cells, last, front, over, Valid, list_of, last-append, write-over, write-none, set_prev-over,
  free_node-over, get_next-place, set_prev-place, free_node-place,
}
use tag_highlight_nvim.Util.LinkedList.Gap.{
  Valid-left, Valid-right, has-first, link_next-last, set_next-last, over-cut, has-apart, has-last,
}
use tag_highlight_nvim.Util.LinkedList.Ends.{int-pos, same_ends}
use tag_highlight_nvim.Util.LinkedList.Delete.{
  free_node-cut, get_next-cut, get_prev-cut, Valid-skip, delete_many,
}

-- The first node of several.
unlink_first :
    (n p v q w : ℕ) (ys : Cells)
    → Valid n ((p, v) ∷ (q, w) ∷ ys)
    → length ((p, v) ∷ (q, w) ∷ ys) < 2 ^ 31
    → ll_delete_node p (list_of n ((p, v) ∷ (q, w) ∷ ys)) ≡ ok (list_of n ((q, w) ∷ ys))
unfolding ll_delete_node unlink list_of over
unlink_first n p v q w ys valid lt =
    let zs = (q, w) ∷ ys in
    let several : (suc (suc (length ys)) == 1) ≡ false = ground arith in
    let null : (q == 0) ≡ false = ground (arith, valid.3.0) in
    rw (
      several,
      ==_refl p,
      get_next-place p v (over (some p) zs (some 0) no_nodes) valid.0 (some 0) q,
      null,
      set_prev-over q 0 (some 0) (some q) ((p, v) ∷ []) (over (some p) zs (some 0) no_nodes)
          (over (some 0) zs (some 0) no_nodes) (has-first n ((p, v) ∷ []) zs valid)
          (set_prev-place q w (over (some q) ys (some 0) no_nodes) valid.3.0 0 (some p)
            (front (some 0) ys)),
      int-pos (suc (length ys)) (omega (arith, lt)),
      free_node-place p v (over (some 0) zs (some 0) no_nodes) valid.0 (some 0) (some q),
      write-over p (some 0) (some 0) zs no_nodes none valid.2,
      write-none p,
    )

unlink_last :
    (n p v r u : ℕ) (xs : Cells)
    → Valid n (((r, u) ∷ xs) ++ ((p, v) ∷ []))
    → length (((r, u) ∷ xs) ++ ((p, v) ∷ [])) < 2 ^ 31
    → ll_delete_node p (list_of n (((r, u) ∷ xs) ++ ((p, v) ∷ []))) ≡ ok (list_of n ((r, u) ∷ xs))
unfolding ll_delete_node unlink list_of
unlink_last n p v r u xs valid lt =
    let ws = (r, u) ∷ xs in
    let left = Valid-left n ws ((p, v) ∷ []) valid in
    let end = over (some (last r xs)) ((p, v) ∷ []) (some 0) no_nodes in
    let count : length (xs ++ ((p, v) ∷ [])) ≡ suc (length xs) =
      omega (arith, length-append xs ((p, v) ∷ [])) in
    let several : (suc (suc (length xs)) == 1) ≡ false = ground arith in
    let not_head : (p == r) ≡ false = ground (arith, has-first n ws ((p, v) ∷ []) valid) in
    rw
      (
        count,
        several,
        not_head,
        last-append r xs ((p, v) ∷ []),
        ==_refl p,
        over-cut ws ((p, v) ∷ []),
        get_prev-cut n p v (last r xs) (some p) ws [] valid,
        link_next-last n 0 (some p) ws end left,
        int-pos (suc (length xs)) (omega (arith, lt, count)),
        free_node-cut n p v (some (last r xs)) (some 0) ws [] valid,
      )
      refl

-- The link back of the node behind one.
set_prev-second :
    (n p v q w l : ℕ) (ys : Cells)
    → Valid n ((p, v) ∷ (q, w) ∷ ys)
    → set_prev q l (over (some l) ((p, v) ∷ (q, w) ∷ ys) (some 0) no_nodes)
      ≡ ok (place p v (some l) (some q) (over (some l) ((q, w) ∷ ys) (some 0) no_nodes))
unfolding over
set_prev-second n p v q w l ys valid =
    set_prev-over q l (some l) (some q) ((p, v) ∷ [])
      (over (some p) ((q, w) ∷ ys) (some 0) no_nodes)
      (over (some l) ((q, w) ∷ ys) (some 0) no_nodes)
      (has-first n ((p, v) ∷ []) ((q, w) ∷ ys) valid)
      (set_prev-place q w (over (some q) ys (some 0) no_nodes) valid.3.0 l (some p)
        (front (some 0) ys))

unlink_inner :
    (n p v r u q w : ℕ) (xs ys : Cells)
    → Valid n (((r, u) ∷ xs) ++ ((p, v) ∷ (q, w) ∷ ys))
    → length (((r, u) ∷ xs) ++ ((p, v) ∷ (q, w) ∷ ys)) < 2 ^ 31
    → ll_delete_node p (list_of n (((r, u) ∷ xs) ++ ((p, v) ∷ (q, w) ∷ ys)))
      ≡ ok (list_of n (((r, u) ∷ xs) ++ ((q, w) ∷ ys)))
unfolding ll_delete_node unlink list_of
unlink_inner n p v r u q w xs ys valid lt =
    let ws = (r, u) ∷ xs in
    let zs = (q, w) ∷ ys in
    let l = last r xs in
    let left = Valid-left n ws ((p, v) ∷ zs) valid in
    let right = Valid-right n ws ((p, v) ∷ zs) valid in
    let skip = Valid-skip n p v ws zs valid in
    let count : length (xs ++ ((p, v) ∷ zs)) ≡ suc (length xs + length zs) =
      omega (arith, length-append xs ((p, v) ∷ zs)) in
    let several : (suc (suc (length xs + length zs)) == 1) ≡ false = ground arith in
    let not_head : (p == r) ≡ false = ground (arith, has-first n ws ((p, v) ∷ zs) valid) in
    let not_tail : (p == last q ys) ≡ false =
      ground (arith, has-apart n (last q ys) ((p, v) ∷ []) zs right (has-last q w ys)) in
    rw
      (
        count,
        several,
        not_head,
        last-append r xs ((p, v) ∷ zs),
        not_tail,
        over-cut ws ((p, v) ∷ zs),
        get_prev-cut n p v l (some p) ws zs valid,
        get_next-cut n p v (some l) (some p) ws zs valid,
        set_next-last n q r u (some 0) (some p) xs (over (some l) ((p, v) ∷ zs) (some 0) no_nodes)
            left,
        get_next-cut n p v (some l) (some q) ws zs valid,
        get_prev-cut n p v l (some q) ws zs valid,
        set_prev-over q l (some 0) (some q) ws (over (some l) ((p, v) ∷ zs) (some 0) no_nodes)
            (place p v (some l) (some q) (over (some l) zs (some 0) no_nodes))
            (has-first n ws zs skip) (set_prev-second n p v q w l ys right),
        int-pos (suc (length xs + length zs)) (omega (arith, lt, count)),
        free_node-over p (some 0) (some q) ws
            (place p v (some l) (some q) (over (some l) zs (some 0) no_nodes))
            (over (some l) zs (some 0) no_nodes) (has-first n ws ((p, v) ∷ zs) valid)
            (free_node-place p v (over (some l) zs (some 0) no_nodes) right.0 (some l) (some q)
              ∙ ap ok (
                  write-over p (some l) (some 0) zs no_nodes none right.2
                  ∙ ap (over (some l) zs (some 0)) (write-none p))),
        over-cut ws zs,
      )
      (same_ends refl (sym (last-append r xs zs)) (ap pos (omega (arith, length-append xs zs))))

only_node :
    (n p v : ℕ)
    → Valid n ((p, v) ∷ [])
    → ll_delete_node p (list_of n ((p, v) ∷ [])) ≡ ok (list_of n [])
unfolding ll_delete_node unlink list_of over
only_node n p v valid = rw (free_node-place p v no_nodes valid.0 (some 0) (some 0), write-none p)

pub ll_delete_node_lem :
    (n p v : ℕ) (xs ys : Cells)
    → Valid n (xs ++ ((p, v) ∷ ys))
    → length (xs ++ ((p, v) ∷ ys)) < 2 ^ 31
    → ll_delete_node p (list_of n (xs ++ ((p, v) ∷ ys))) ≡ ok (list_of n (xs ++ ys))
ll_delete_node_lem n p v [] [] valid lt = only_node n p v valid
ll_delete_node_lem n p v [] ((q, w) ∷ ys) valid lt = unlink_first n p v q w ys valid lt
ll_delete_node_lem n p v ((r, u) ∷ xs) [] valid lt =
    unlink_last n p v r u xs valid lt
    ∙ ap (λ zs. ok (list_of n zs)) (sym (append-nil ((r, u) ∷ xs)))
ll_delete_node_lem n p v ((r, u) ∷ xs) ((q, w) ∷ ys) valid lt =
    unlink_inner n p v r u q w xs ys valid lt

pub ll_delete_range_lem :
    (n r p v : ℕ) (xs ys : Cells)
    → Valid n (xs ++ ((p, v) ∷ ys))
    → length (xs ++ ((p, v) ∷ ys)) < 2 ^ 31
    → ll_delete_range p (pos r) (list_of n (xs ++ ((p, v) ∷ ys)))
      ≡ ok (list_of n (xs ++ drop r ((p, v) ∷ ys)))
unfolding ll_delete_range
ll_delete_range_lem n zero p v xs ys valid lt = refl
ll_delete_range_lem n (suc zero) p v xs ys valid lt =
    let null : (p == 0) ≡ false = ground (arith, (Valid-right n xs ((p, v) ∷ ys) valid).0) in
    rw (null) (ll_delete_node_lem n p v xs ys valid lt)
ll_delete_range_lem n (suc (suc r)) p v xs ys valid lt = delete_many n r p v xs ys valid lt
