-- ===== src/Util/Genlist/Remove.antt =====
-- genlist_remove and genlist_remove_index (util/generic_list.c).
use tag_highlight_nvim.Base.{
  ℕ, zero, suc, ◌+◌, ◌-◌, ◌<◌, ◌≡◌, ◌≢◌, refl, ap, ◌∙◌, sym, true, false, List, [], ◌∷◌, ◌++◌,
  append-nil, append_assoc, none, some, All, arith, ltb, leb, ◌==◌, ◌||◌, length, length-append, ok,
  Yields, yields, Yields-bind,
}
use tag_highlight_nvim.Util.Genlist.{
  Cell, Genlist, find_item, remove_found, genlist_remove, genlist_remove_index, move_down,
}
use tag_highlight_nvim.Util.Genlist.Items.{
  cells, last_item, cells-append, cells-snoc, Holds, rebuilt, load-cells, store-cells,
  move_down-cells, move_down_past, length-front,
}

differs : (p q : ℕ) → p ≢ q → (p == q) ≡ false
differs p q h = ground arith

-- The first index of an object.
find_item_first :
    (obj n i : ℕ) (ps : List ℕ) (more : List Cell)
    → All (λ p. p ≢ obj) ps
    → length ps < n
    → find_item obj n i (cells ps ++ some obj ∷ more) ≡ ok (some (i + length ps))
unfolding find_item
find_item_first obj zero i ps more h k = absurd (omega arith)
find_item_first obj (suc n) i [] more h k =
    let same : (obj == obj) ≡ true = ground arith in rw same (ap (λ m. ok (some m)) (omega arith))
find_item_first obj (suc n) i (p ∷ ps) more h k =
    rw (differs p obj h.0) (
      find_item_first obj n (suc i) ps more h.1 (omega arith) ∙ ap (λ m. ok (some m)) (omega arith))

find_item_absent :
    (obj i : ℕ) (ps : List ℕ) (more : List Cell)
    → All (λ p. p ≢ obj) ps
    → find_item obj (length ps) i (cells ps ++ more) ≡ ok none
unfolding find_item
find_item_absent obj i [] more h = refl
find_item_absent obj i (p ∷ ps) more h =
    rw (differs p obj h.0) (find_item_absent obj (suc i) ps more h.1)

middle :
    (ps : List ℕ) (p : ℕ) (qs : List ℕ) (more : List Cell)
    → cells (ps ++ p ∷ qs) ++ more ≡ cells ps ++ some p ∷ (cells qs ++ more)
middle ps p qs more =
    ap (λ cs. cs ++ more) (cells-append ps (p ∷ qs)) ∙ append_assoc (cells ps) (cells (p ∷ qs)) more

-- The found item goes, and those behind it move down.
remove_found-Holds :
    (l : Genlist) (ps qs : List ℕ) (p : ℕ)
    → Holds l (ps ++ p ∷ qs)
    → Yields (λ l'. Holds l' (ps ++ qs)) (remove_found (length ps) l)
unfolding remove_found
remove_found-Holds l ps [] p h =
    let front = h.front ∙ middle ps p [] h.spare in
    let less : l.qty - 1 ≡ length ps = omega (arith, h.qty_eq, length-append ps (p ∷ [])) in
    let same : (length ps == length ps) ≡ true = ground arith in
    rw (front, less, store-cells ps 0 (some p) h.spare, same, append-nil ps)
      (yields (
        rebuilt l (ps ++ p ∷ []) ps (some 0 ∷ h.spare) h
          (omega (
            arith,
            ap length front,
            length-front ps (some p ∷ h.spare),
            length-front ps (some 0 ∷ h.spare),
          ))
          (omega (arith, h.qty_le, less))))
remove_found-Holds l ps (q ∷ qs) p h =
    let front = h.front ∙ middle ps p (q ∷ qs) h.spare in
    let grown = length-append ps (p ∷ q ∷ qs) in
    let less : l.qty - 1 ≡ length (ps ++ q ∷ qs) =
      omega (arith, h.qty_eq, grown, length-append ps (q ∷ qs)) in
    let run : length (ps ++ q ∷ qs) - length ps ≡ length (q ∷ qs) =
      omega (arith, length-append ps (q ∷ qs)) in
    let inside : (length ps == length (ps ++ q ∷ qs)) ≡ false =
      ground (arith, length-append ps (q ∷ qs)) in
    let left : ltb 0 (length (ps ++ q ∷ qs)) ≡ true = ground (arith, length-append ps (q ∷ qs)) in
    let moved =
      move_down_past ps (length (q ∷ qs)) (some 0 ∷ (cells (q ∷ qs) ++ h.spare)) _
        (move_down-cells (some 0) q qs h.spare) in
    let spare = some (last_item q qs) ∷ h.spare in
    let back : cells (ps ++ q ∷ qs) ++ spare ≡ cells ps ++ (cells (q ∷ qs) ++ spare) =
      ap (λ cs. cs ++ spare) (cells-append ps (q ∷ qs))
      ∙ append_assoc (cells ps) (cells (q ∷ qs)) spare in
    rw
      (
        front,
        less,
        store-cells ps 0 (some p) (cells (q ∷ qs) ++ h.spare),
        inside,
        left,
        run,
        moved,
        sym back,
      )
      (yields (
        rebuilt l (ps ++ p ∷ q ∷ qs) (ps ++ q ∷ qs) spare h
          (omega (
            arith,
            ap length h.front,
            length-front (ps ++ p ∷ q ∷ qs) h.spare,
            length-front (ps ++ q ∷ qs) spare,
            grown,
            length-append ps (q ∷ qs),
          ))
          (omega (arith, h.qty_le, less))))

-- genlist_remove takes the first item that is the object, which is not NULL, and keeps the order of
-- the others; the result is 0.
pub genlist_remove-Holds :
    (obj : ℕ) (l : Genlist) (ps qs : List ℕ)
    → Holds l (ps ++ obj ∷ qs)
    → obj ≢ 0
    → All (λ p. p ≢ obj) ps
    → Yields (λ r. (r.0 ≡ true) × Holds r.1 (ps ++ qs)) (genlist_remove obj l)
unfolding genlist_remove
genlist_remove-Holds obj l ps qs h pointer first =
    let grown = length-append ps (obj ∷ qs) in
    let valid : ((obj == 0) || (l.qty == 0)) ≡ false = ground (arith, h.qty_eq, grown) in
    let found =
      find_item_first obj l.qty 0 ps (cells qs ++ h.spare) first (omega (arith, h.qty_eq, grown)) in
    let at : (0 + length ps) ≡ length ps = omega arith in
    rw (valid, ap (find_item obj l.qty 0) (h.front ∙ middle ps obj qs h.spare), found, at)
      (Yields-bind _ _ _ (remove_found-Holds l ps qs obj h) λ l' k. yields (refl, k))

-- genlist_remove leaves a list alone that is not empty and does not hold the object, which is not
-- NULL; the result is -1.
pub genlist_remove_absent :
    (obj : ℕ) (l : Genlist) (p : ℕ) (ps : List ℕ)
    → Holds l (p ∷ ps)
    → obj ≢ 0
    → All (λ q. q ≢ obj) (p ∷ ps)
    → genlist_remove obj l ≡ ok (false, l)
unfolding genlist_remove
genlist_remove_absent obj l p ps h pointer absent =
    let valid : ((obj == 0) || (l.qty == 0)) ≡ false = ground (arith, h.qty_eq) in
    rw (valid, h.qty_eq, h.front, find_item_absent obj 0 (p ∷ ps) h.spare absent)

-- genlist_remove_index at the last item takes it away and keeps the others.
pub genlist_remove_index_last :
    (l : Genlist) (ps : List ℕ) (p : ℕ)
    → Holds l (ps ++ p ∷ [])
    → Yields (λ l'. Holds l' ps) (genlist_remove_index (length ps) l)
unfolding genlist_remove_index
genlist_remove_index_last l ps p h =
    let front = h.front ∙ cells-snoc ps p h.spare in
    let valid : leb l.qty (length ps) ≡ false =
      ground (arith, h.qty_eq, length-append ps (p ∷ [])) in
    let less : l.qty - 1 ≡ length ps = omega (arith, h.qty_eq, length-append ps (p ∷ [])) in
    let same : (length ps == length ps) ≡ true = ground arith in
    let none_moved : length ps - length ps ≡ 0 = omega arith in
    rw
      (
        valid,
        front,
        load-cells ps p h.spare,
        store-cells ps 0 (some p) h.spare,
        less,
        same,
        none_moved,
        move_down_past ps 0 (some 0 ∷ h.spare) (some 0 ∷ h.spare) (unfold move_down in refl),
      )
      (yields (
        rebuilt l (ps ++ p ∷ []) ps (some 0 ∷ h.spare) h
          (omega (
            arith,
            ap length front,
            length-front ps (some p ∷ h.spare),
            length-front ps (some 0 ∷ h.spare),
          ))
          (omega (arith, h.qty_le, less))))

-- genlist_remove_index at an item that is not the last moves nothing: a NULL stays in the item's
-- place, and it is the last item that is no longer in the list.
pub genlist_remove_index_inner :
    (l : Genlist) (ps qs : List ℕ) (p q : ℕ)
    → Holds l (ps ++ p ∷ (qs ++ q ∷ []))
    → Yields (λ l'. Holds l' (ps ++ 0 ∷ qs)) (genlist_remove_index (length ps) l)
unfolding genlist_remove_index
genlist_remove_index_inner l ps qs p q h =
    let front = h.front ∙ middle ps p (qs ++ q ∷ []) h.spare in
    let grown = length-append ps (p ∷ (qs ++ q ∷ [])) in
    let grown' = length-append ps (0 ∷ qs) in
    let tail = length-append qs (q ∷ []) in
    let valid : leb l.qty (length ps) ≡ false = ground (arith, h.qty_eq, grown) in
    let less : l.qty - 1 ≡ length (ps ++ 0 ∷ qs) = omega (arith, h.qty_eq, grown, grown', tail) in
    let inside : (length ps == length (ps ++ 0 ∷ qs)) ≡ false = ground (arith, grown') in
    let back : cells (ps ++ 0 ∷ qs) ++ some q ∷ h.spare
        ≡ cells ps ++ some 0 ∷ (cells (qs ++ q ∷ []) ++ h.spare) =
      middle ps 0 qs (some q ∷ h.spare)
      ∙ ap (λ cs. cells ps ++ some 0 ∷ cs) (sym (cells-snoc qs q h.spare)) in
    rw
      (
        valid,
        front,
        load-cells ps p (cells (qs ++ q ∷ []) ++ h.spare),
        store-cells ps 0 (some p) (cells (qs ++ q ∷ []) ++ h.spare),
        less,
        inside,
        sym back,
      )
      (yields (
        rebuilt l (ps ++ p ∷ (qs ++ q ∷ [])) (ps ++ 0 ∷ qs) (some q ∷ h.spare) h
          (omega (
            arith,
            ap length h.front,
            length-front (ps ++ p ∷ (qs ++ q ∷ [])) h.spare,
            length-front (ps ++ 0 ∷ qs) (some q ∷ h.spare),
            grown,
            grown',
            tail,
          ))
          (omega (arith, h.qty_le, less))))
