-- ===== src/Util/LinkedList/Delete.antt =====
-- ll_delete_node and ll_delete_range of util/linked_list.c on a list of a sequence of nodes.
use tag_highlight_nvim.Base.{
  ℕ, zero, suc, ◌+◌, ◌^◌, ◌≤◌, ◌<◌, ◌≡◌, refl, ap, ◌∙◌, sym, true, false, ◌||◌, [], ◌∷◌, ◌++◌,
  Option, none, some, ◌==◌, if◌then◌else◌, length, length-append, take, drop, arith, ok, Bool-cases,
  inl, inr,
}
use tag_highlight_nvim.Base.Int.{ℤ, pos, pred, int}
use tag_highlight_nvim.Util.LinkedList.{Heap, no_nodes, get_next, get_prev, free_node}
use tag_highlight_nvim.Util.LinkedList.Remove.{Freed, free_loop, close_gap, ll_delete_range}
use tag_highlight_nvim.Util.LinkedList.Cells.{
  Cells, first, last, front, back, over, Valid, list_of, front-some, last-append, has-append,
  write-over, write-none, get_next-over, get_prev-over, free_node-over, get_next-place,
  get_prev-place, free_node-place,
}
use tag_highlight_nvim.Util.LinkedList.Gap.{
  Valid-left, Valid-right, has-first, link_prev-over, link_prev-first, link_next-last, over-cut,
}
use tag_highlight_nvim.Util.LinkedList.Ends.{int-pos, same_ends}

-- The first node of the second part is freed.
pub free_node-cut :
    (n p v : ℕ) (a b : Option ℕ) (xs ys : Cells)
    → Valid n (xs ++ ((p, v) ∷ ys))
    → free_node p (over (some 0) xs b (over a ((p, v) ∷ ys) (some 0) no_nodes))
      ≡ ok (over (some 0) xs b (over (some p) ys (some 0) no_nodes))
unfolding over
free_node-cut n p v a b xs ys valid =
    let right = Valid-right n xs ((p, v) ∷ ys) valid in
    free_node-over p (some 0) b xs (over a ((p, v) ∷ ys) (some 0) no_nodes)
      (over (some p) ys (some 0) no_nodes) (has-first n xs ((p, v) ∷ ys) valid)
      (free_node-place p v (over (some p) ys (some 0) no_nodes) right.0 a (front (some 0) ys)
        ∙ ap ok (
            write-over p (some p) (some 0) ys no_nodes none right.2
            ∙ ap (over (some p) ys (some 0)) (write-none p)))

pub get_next-cut :
    (n p v : ℕ) (a b : Option ℕ) (xs ys : Cells)
    → Valid n (xs ++ ((p, v) ∷ ys))
    → get_next p (over (some 0) xs b (over a ((p, v) ∷ ys) (some 0) no_nodes)) ≡ ok (first 0 ys)
unfolding over
get_next-cut n p v a b xs ys valid =
    let right = Valid-right n xs ((p, v) ∷ ys) valid in
    get_next-over p (some 0) b xs (over a ((p, v) ∷ ys) (some 0) no_nodes)
      (has-first n xs ((p, v) ∷ ys) valid)
    ∙ rw (front-some 0 ys)
        (get_next-place p v (over (some p) ys (some 0) no_nodes) right.0 a (first 0 ys))

pub get_prev-cut :
    (n p v a : ℕ) (b : Option ℕ) (xs ys : Cells)
    → Valid n (xs ++ ((p, v) ∷ ys))
    → get_prev p (over (some 0) xs b (over (some a) ((p, v) ∷ ys) (some 0) no_nodes)) ≡ ok a
unfolding over
get_prev-cut n p v a b xs ys valid =
    let right = Valid-right n xs ((p, v) ∷ ys) valid in
    get_prev-over p (some 0) b xs (over (some a) ((p, v) ∷ ys) (some 0) no_nodes)
      (has-first n xs ((p, v) ∷ ys) valid)
    ∙ get_prev-place p v (over (some p) ys (some 0) no_nodes) right.0 a (front (some 0) ys)

-- Without the first node of its second part the sequence is valid.
pub Valid-skip : (n p v : ℕ) (xs ys : Cells) → Valid n (xs ++ ((p, v) ∷ ys)) → Valid n (xs ++ ys)
Valid-skip n p v [] ys valid = valid.3
Valid-skip n p v ((q, w) ∷ xs) ys valid = (
  valid.0,
  valid.1,
  ground (arith, has-append q xs ((p, v) ∷ ys), has-append q xs ys, valid.2),
  Valid-skip n p v xs ys valid.3,
)

pub Valid-drop : (n r : ℕ) (xs ys : Cells) → Valid n (xs ++ ys) → Valid n (xs ++ drop r ys)
Valid-drop n zero xs ys valid = valid
Valid-drop n (suc r) xs [] valid = valid
Valid-drop n (suc r) xs ((p, v) ∷ ys) valid = Valid-drop n r xs ys (Valid-skip n p v xs ys valid)

abbrev freed : Heap → ℕ → ℤ → Freed
freed h f k = record { left = h; following = f; count = k }

-- A round of the loop.
free_loop-node :
    (r p q c : ℕ) (h h' : Heap) (f : ℕ) (k : ℤ)
    → 1 ≤ p
    → get_next p h ≡ ok q
    → free_node p h ≡ ok h'
    → int (pred k) ≡ ok (pos c)
    → free_loop (suc r) p (freed h f k) ≡ free_loop r q (freed h' q (pos c))
unfolding free_loop
free_loop-node r zero q c h h' f k ge e₁ e₂ e₃ = ground (arith, ge)
free_loop-node r (suc p) q c h h' f k ge e₁ e₂ e₃ = rw (e₁, e₂, e₃)

free_loop-drop :
    (n r c : ℕ) (a b : Option ℕ) (xs zs : Cells)
    → Valid n (xs ++ zs)
    → c ≡ length xs + length zs
    → c < 2 ^ 31
    → free_loop r
        (first 0 zs)
        (freed (over (some 0) xs b (over a zs (some 0) no_nodes)) (first 0 zs) (pos c))
      ≡ ok (
          freed
            (over (some 0) xs b (over (back a (take r zs)) (drop r zs) (some 0) no_nodes))
            (first 0 (drop r zs))
            (pos (length xs + length (drop r zs))))
unfolding free_loop
free_loop-drop n zero c a b xs zs valid e lt = rw (e)
free_loop-drop n (suc r) c a b xs [] valid e lt = rw (e)
free_loop-drop n (suc r) zero a b xs ((p, v) ∷ zs) valid e lt = ground (arith, e)
free_loop-drop n (suc r) (suc c) a b xs ((p, v) ∷ zs) valid e lt =
    free_loop-node r p (first 0 zs) c _ _ p (pos (suc c)) (Valid-right n xs ((p, v) ∷ zs) valid).0
      (get_next-cut n p v a b xs zs valid) (free_node-cut n p v a b xs zs valid)
      (int-pos c (omega (arith, lt)))
    ∙ free_loop-drop n r c (some p) b xs zs (Valid-skip n p v xs zs valid) (omega (arith, e))
        (omega (arith, lt))

-- The loop of ll_delete_range; `following` is not read before it is written.
free_loop_from :
    (n r p v c f : ℕ) (a b : Option ℕ) (xs ys : Cells)
    → Valid n (xs ++ ((p, v) ∷ ys))
    → c ≡ length xs + length ys
    → c < 2 ^ 31
    → free_loop
        (suc r)
        p
        (freed (over (some 0) xs b (over a ((p, v) ∷ ys) (some 0) no_nodes)) f (pos (suc c)))
      ≡ ok (
          freed
            (over (some 0) xs b (over (back (some p) (take r ys)) (drop r ys) (some 0) no_nodes))
            (first 0 (drop r ys))
            (pos (length xs + length (drop r ys))))
free_loop_from n r p v c f a b xs ys valid e lt =
    free_loop-node r p (first 0 ys) c _ _ f (pos (suc c)) (Valid-right n xs ((p, v) ∷ ys) valid).0
      (get_next-cut n p v a b xs ys valid) (free_node-cut n p v a b xs ys valid) (int-pos c lt)
    ∙ free_loop-drop n r c (some p) b xs ys (Valid-skip n p v xs ys valid) e lt

-- The last node of what is left of the second part.
last-drop :
    (r a b : ℕ) (zs : Cells) → (first 0 (drop r zs) == 0) ≡ false → last a zs ≡ last b (drop r zs)
last-drop zero a b [] e = ground (arith, e)
last-drop zero a b ((p, v) ∷ zs) e = refl
last-drop (suc r) a b [] e = ground (arith, e)
last-drop (suc r) a b ((p, v) ∷ zs) e = last-drop r p b zs e

pub tail_of-drop :
    (n r : ℕ) (xs zs : Cells)
    → Valid n (xs ++ zs)
    → (if first 0 (drop r zs) == 0 then last 0 xs else last 0 (xs ++ zs)) ≡ last 0 (xs ++ drop r zs)
tail_of-drop n r xs zs valid = elim (Bool-cases (first 0 (drop r zs) == 0)) [
  | inl none_left ↦ rw (none_left) (
      sym (
        last-append 0 xs (drop r zs)
        ∙ no_more (drop r zs) (Valid-right n xs (drop r zs) (Valid-drop n r xs zs valid))
            none_left))
  | inr some_left ↦
      rw (some_left, last-append 0 xs zs, last-append 0 xs (drop r zs))
        (last-drop r (last 0 xs) (last 0 xs) zs some_left)
]
  where
    no_more : (ys : Cells) → Valid n ys → (first 0 ys == 0) ≡ true → last (last 0 xs) ys ≡ last 0 xs
    no_more [] valid' e = refl
    no_more ((p, v) ∷ ys) valid' e = ground (arith, valid'.0, e)

pub head_of-drop :
    (n r p v : ℕ) (xs ys : Cells)
    → Valid n (xs ++ ((p, v) ∷ ys))
    → (if (p == first 0 (xs ++ ((p, v) ∷ ys))) || (first 0 (xs ++ ((p, v) ∷ ys)) == 0)
        then first 0 (drop r ((p, v) ∷ ys))
        else first 0 (xs ++ ((p, v) ∷ ys)))
      ≡ first 0 (xs ++ drop r ((p, v) ∷ ys))
head_of-drop n r p v [] ys valid = ground arith
head_of-drop n r p v ((q, w) ∷ xs) ys valid =
    ground (arith, valid.0, has-first n ((q, w) ∷ xs) ((p, v) ∷ ys) valid)

-- From two nodes on.
pub delete_many :
    (n r p v : ℕ) (xs ys : Cells)
    → Valid n (xs ++ ((p, v) ∷ ys))
    → length (xs ++ ((p, v) ∷ ys)) < 2 ^ 31
    → ll_delete_range p (pos (suc (suc r))) (list_of n (xs ++ ((p, v) ∷ ys)))
      ≡ ok (list_of n (xs ++ drop (suc (suc r)) ((p, v) ∷ ys)))
unfolding ll_delete_range close_gap list_of
delete_many n r p v xs ys valid lt =
    let zs = (p, v) ∷ ys in
    let left = Valid-left n xs zs valid in
    let right = Valid-right n xs zs valid in
    let after = Valid-drop n (suc (suc r)) xs zs valid in
    let rest = drop (suc r) ys in
    let l = last 0 xs in
    let none_before : (suc (suc r) == 0) ≡ false = ground arith in
    let not_one : (suc (suc r) == 1) ≡ false = ground arith in
    let null : (p == 0) ≡ false = ground (arith, right.0) in
    let count : length (xs ++ zs) ≡ suc (length xs + length ys) =
      omega (arith, length-append xs zs) in
    let behind = over (back (some p) (take (suc r) ys)) rest (some 0) no_nodes in
    rw
      (
        none_before,
        not_one,
        null,
        over-cut xs zs,
        get_prev-cut n p v l (some p) xs ys valid,
        count,
        free_loop_from n (suc r) p v (length xs + length ys) 0 (some l) (some p) xs ys valid refl
            (omega (arith, lt, count)),
        link_next-last n (first 0 rest) (some p) xs behind left,
        link_prev-over (first 0 rest) l (some 0) (some (first 0 rest)) xs behind
            (over (some l) rest (some 0) no_nodes) (has-first n xs rest after)
            (link_prev-first n l (back (some p) (take (suc r) ys)) (some 0) rest no_nodes
              (Valid-right n xs rest after)),
        over-cut xs rest,
      )
      (same_ends (head_of-drop n (suc (suc r)) p v xs ys valid)
        (tail_of-drop n (suc (suc r)) xs zs valid) (ap pos (sym (length-append xs rest))))
