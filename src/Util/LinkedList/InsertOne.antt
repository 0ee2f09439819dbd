-- ===== src/Util/LinkedList/InsertOne.antt =====
-- ll_insert_after and ll_insert_before of util/linked_list.c on a list of a sequence of nodes.
use tag_highlight_nvim.Util.LinkedList.Ends.{
  int-pos, same_ends, new_tail, new_head, first-append, tail_at-cut, head_at-cut, has-first_new,
}
use tag_highlight_nvim.Base.{
  ℕ, suc, ◌^◌, ◌≤◌, ◌<◌, ◌≡◌, ap, ◌∙◌, sym, false, [], ◌∷◌, ◌++◌, some, ◌==◌, ==_refl, length,
  length-append, arith, Result, ok, stop, exit,
}
use tag_highlight_nvim.Base.Int.{pos, int}
use tag_highlight_nvim.Util.LinkedList.{
  no_nodes, LinkedList, link_after, link_before, ll_insert_after, ll_insert_before,
}
use tag_highlight_nvim.Util.LinkedList.Cells.{
  Cells, first, last, front, over, Valid, list_of, last-append, get_prev-over, get_prev-place,
}
use tag_highlight_nvim.Util.LinkedList.Gap.{
  Valid-left, Valid-right, has-first, get_next-last, last_ge, last_lt, over-cut,
}
use tag_highlight_nvim.Util.LinkedList.Insert.{link_after-cut, link_before-cut}

-- A value behind the nodes `xs`, in front of `ys`. NULL as the place is only valid for an empty list.
abbrev pub inserted_behind : ℕ → ℕ → Cells → Cells → Result LinkedList
inserted_behind n v [] [] = ok (list_of (suc n) ((n, v) ∷ []))
inserted_behind n v [] (y ∷ ys) = stop (exit 1)
inserted_behind n v (x ∷ xs) ys = ok (list_of (suc n) ((x ∷ xs) ++ ((n, v) ∷ ys)))

-- The same in front of `ys`.
abbrev pub inserted_before : ℕ → ℕ → Cells → Cells → Result LinkedList
inserted_before n v [] [] = ok (list_of (suc n) ((n, v) ∷ []))
inserted_before n v (x ∷ xs) [] = stop (exit 1)
inserted_before n v xs (y ∷ ys) = ok (list_of (suc n) (xs ++ ((n, v) ∷ y ∷ ys)))

length-insert : (xs ys : Cells) (c : ℕ × ℕ) → suc (length (xs ++ ys)) ≡ length (xs ++ (c ∷ ys))
length-insert xs ys c = omega (arith, length-append xs ys, length-append xs (c ∷ ys))

-- An address of the list is not the new one.
not_new : (n q u : ℕ) (ys : Cells) → Valid n ((q, u) ∷ ys) → (last q ys == n) ≡ false
not_new n q u ys valid = ground (arith, last_lt n q u ys valid)

-- ll_insert_after puts a new node behind the last of some nodes of a well-formed list, whose count
-- stays below 2^31: the links, the ends and the count are those of the new sequence. Without a node
-- to put it behind, the value becomes the only one of an empty list, and the program exits with
-- status 1 when the list is not empty.
pub ll_insert_after_lem :
    (v n : ℕ) (xs ys : Cells)
    → 1 ≤ n
    → Valid n (xs ++ ys)
    → suc (length (xs ++ ys)) < 2 ^ 31
    → ll_insert_after (last 0 xs) v (list_of n (xs ++ ys)) ≡ inserted_behind n v xs ys
unfolding ll_insert_after link_after int list_of over
ll_insert_after_lem v n [] [] ge valid lt = rw (==_refl n)
ll_insert_after_lem v n [] ((q, u) ∷ ys) ge valid lt =
    let null : (last q ys == 0) ≡ false = ground (arith, last_ge n q u ys valid) in
    let null' : (0 == last q ys) ≡ false = ground (arith, last_ge n q u ys valid) in
    rw (null, null', not_new n q u ys valid)
ll_insert_after_lem v n ((p, u) ∷ xs) ys ge valid lt =
    let left = Valid-left n ((p, u) ∷ xs) ys valid in
    let null : (last p xs == 0) ≡ false = ground (arith, last_ge n p u xs left) in
    let fits = int-pos (suc (length (((p, u) ∷ xs) ++ ys))) lt in
    rw
      (
        link_after-cut n v p u xs ys ge valid,
        null,
        over-cut ((p, u) ∷ xs) ((n, v) ∷ ys),
        get_next-last n n p u (some 0) xs (over (some (last p xs)) ((n, v) ∷ ys) (some 0) no_nodes)
            left,
        ==_refl n,
        fits,
      )
      (same_ends (new_head n n (((p, u) ∷ xs) ++ ys) valid)
        (tail_at-cut n n ((p, u) ∷ xs) ys valid ∙ sym (last-append p xs ((n, v) ∷ ys)))
        (ap pos (length-insert ((p, u) ∷ xs) ys (n, v))))

pub ll_insert_before_lem :
    (v n : ℕ) (xs ys : Cells)
    → 1 ≤ n
    → Valid n (xs ++ ys)
    → suc (length (xs ++ ys)) < 2 ^ 31
    → ll_insert_before (first 0 ys) v (list_of n (xs ++ ys)) ≡ inserted_before n v xs ys
unfolding ll_insert_before link_before int list_of over
ll_insert_before_lem v n [] [] ge valid lt = rw (==_refl n)
ll_insert_before_lem v n ((p, u) ∷ xs) [] ge valid lt =
    let null : (p == 0) ≡ false = ground (arith, valid.0) in
    let null' : (0 == p) ≡ false = ground (arith, valid.0) in
    let new : (p == n) ≡ false = ground (arith, valid.1) in rw (null, null', new)
ll_insert_before_lem v n xs ((r, u) ∷ ys) ge valid lt =
    let right = Valid-right n xs ((r, u) ∷ ys) valid in
    let null : (r == 0) ≡ false = ground (arith, right.0) in
    let fits = int-pos (suc (length (xs ++ ((r, u) ∷ ys)))) lt in
    let new = over (some (last 0 xs)) ((n, v) ∷ (r, u) ∷ ys) (some 0) no_nodes in
    rw
      (
        link_before-cut n v r u xs ys ge valid,
        null,
        over-cut xs ((n, v) ∷ (r, u) ∷ ys),
        get_prev-over r (some 0) (some n) xs new (has-first n xs ((r, u) ∷ ys) valid),
        get_prev-over r (some (last 0 xs)) (some r) ((n, v) ∷ [])
            (over (some n) ((r, u) ∷ ys) (some 0) no_nodes)
            (has-first_new n v ((r, u) ∷ ys) ge right),
        get_prev-place r u (over (some r) ys (some 0) no_nodes) right.0 n (front (some 0) ys),
        ==_refl n,
        fits,
      )
      (same_ends
        (head_at-cut n n xs ((r, u) ∷ ys) valid ∙ sym (first-append 0 xs ((n, v) ∷ (r, u) ∷ ys)))
        (new_tail n n (xs ++ ((r, u) ∷ ys)) valid
          ∙ last-append n xs ((r, u) ∷ ys)
          ∙ sym (last-append 0 xs ((n, v) ∷ (r, u) ∷ ys)))
        (ap pos (length-insert xs ((r, u) ∷ ys) (n, v))))
