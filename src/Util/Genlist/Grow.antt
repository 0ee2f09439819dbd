-- ===== src/Util/Genlist/Grow.antt =====
-- Room in the arrays of util/generic_list.c, and the items that are appended.
use tag_highlight_nvim.Base.{
  ℕ, zero, suc, ◌+◌, ◌*◌, ◌%◌, ◌^◌, ◌-◌, ◌≤◌, ◌<◌, ◌≡◌, refl, ap, ◌∙◌, true, false, List, [], ◌∷◌,
  ◌++◌, some, ◌⊎◌, inl, inr, Bool-cases, arith, ltb, leb, ◌==◌, ◌||◌, if◌then◌else◌, length, Yields,
  yields, Yields-weaken,
}
use tag_highlight_nvim.Util.Genlist.{
  Cell, Genlist, realloc, smear, snap_up_size, last_index, grow, put, genlist_alloc, genlist_append,
}
use tag_highlight_nvim.Util.Genlist.Items.{cells, Holds}
use tag_highlight_nvim.Util.Genlist.Ends.{put-Holds}

-- An array that grows keeps its cells.
length-realloc : (n : ℕ) (cs : List Cell) → length (realloc n cs) ≡ n
unfolding realloc
length-realloc zero cs = refl
length-realloc (suc n) [] = ap suc (length-realloc n [])
length-realloc (suc n) (c ∷ cs) = ap suc (length-realloc n cs)

realloc-front :
    (n : ℕ) (ps : List ℕ) (spare : List Cell)
    → length ps ≤ n
    → realloc n (cells ps ++ spare) ≡ cells ps ++ realloc (n - length ps) spare
unfolding realloc
realloc-front n [] spare h = ap (λ m. realloc m spare) (omega arith)
realloc-front zero (p ∷ ps) spare h = absurd (omega arith)
realloc-front (suc n) (p ∷ ps) spare h =
    ap (λ cs. some p ∷ cs)
      (realloc-front n ps spare (omega arith) ∙ ap (λ m. cells ps ++ realloc m spare) (omega arith))

-- An array of at least as many cells as the new length keeps the items.
pub resized :
    (l : Genlist) (ps : List ℕ) (size mlen : ℕ)
    → Holds l ps
    → length ps ≤ mlen
    → 1 ≤ mlen
    → mlen < 2 ^ 32
    → mlen ≤ size
    → Holds (record l { lst = realloc size l.lst; mlen = mlen }) ps
resized l ps size mlen h fits least most enough = record {
  spare = realloc (size - length ps) h.spare;
  front = ap (realloc size) h.front ∙ realloc-front size ps h.spare (omega arith);
  qty_eq = h.qty_eq;
  qty_le = omega (arith, h.qty_eq);
  mlen_ge = least;
  mlen_lt = most;
  mlen_le = omega (arith, length-realloc size l.lst);
}

-- The size that is snapped to is no smaller than the one asked for, and a 32-bit number.
pub snap_up_size_bounds : (i : ℕ) → i < 2 ^ 32 → (i ≤ snap_up_size i) × (snap_up_size i < 2 ^ 32)
unfolding snap_up_size
snap_up_size_bounds i h = from_rounded ((smear i + 1) % 2 ^ 32) (omega arith)
  where
    from_rounded :
        (j : ℕ)
        → j < 2 ^ 32
        → (i ≤ (if ltb i 8 then 8 else if ltb j i then i else j))
          × ((if ltb i 8 then 8 else if ltb j i then i else j) < 2 ^ 32)
    from_rounded j k = ground arith

-- genlist_alloc keeps the items and makes the length at least the one that is asked for, which is a
-- positive 32-bit number.
pub genlist_alloc-Holds :
    (msz : ℕ) (l : Genlist) (ps : List ℕ)
    → Holds l ps
    → 1 ≤ msz
    → msz < 2 ^ 32
    → Yields (λ l'. Holds l' ps × (msz ≤ l'.mlen)) (genlist_alloc msz l)
unfolding genlist_alloc
genlist_alloc-Holds msz l ps h least most = enough (Bool-cases (leb msz l.mlen))
  where
    valid : ((msz == 0) || ((l.mlen == 0) || ltb l.mlen l.qty)) ≡ false
    valid = ground (arith, h.mlen_ge, h.qty_le)

    enough :
        (leb msz l.mlen ≡ true) ⊎ (leb msz l.mlen ≡ false)
        → Yields (λ l'. Holds l' ps × (msz ≤ l'.mlen)) (genlist_alloc msz l)
    enough (inl e) = rw (valid, e) (yields (h, ground arith))
    enough (inr e) =
        let bounds = snap_up_size_bounds msz most in
        rw (valid, e)
          (yields (
            resized l ps (snap_up_size msz * 8) (snap_up_size msz) h
                (ground (arith, h.qty_eq, h.qty_le, bounds)) (omega (arith, bounds)) (bounds.1)
                (omega arith),
            bounds.0,
          ))

-- genlist_append stores the item behind the others, also when the array has to grow for it, as long
-- as its length is below 2^31.
pub genlist_append-Holds :
    (item : ℕ) (l : Genlist) (ps : List ℕ)
    → Holds l ps
    → l.mlen < 2 ^ 31
    → Yields (λ l'. Holds l' (ps ++ item ∷ [])) (genlist_append item l)
unfolding genlist_append grow
genlist_append-Holds item l ps h small = room (Bool-cases (leb (last_index l.mlen) l.qty))
  where
    last : last_index l.mlen ≡ l.mlen - 1
    last = omega (arith, h.mlen_ge)

    doubled : l.mlen * 2 % 2 ^ 32 ≡ l.mlen * 2
    doubled = omega arith

    positive : (l.mlen * 2 == 0) ≡ false
    positive = ground (arith, h.mlen_ge)

    stored :
        (l' : Genlist)
        → Holds l' ps × (l'.qty < l'.mlen)
        → Yields (λ l''. Holds l'' (ps ++ item ∷ [])) (put item l')
    stored l' k = Yields-weaken _ _ (λ l'' r. r.0) (put-Holds l' ps item k.0 k.1)

    room :
        (leb (last_index l.mlen) l.qty ≡ true) ⊎ (leb (last_index l.mlen) l.qty ≡ false)
        → Yields (λ l'. Holds l' (ps ++ item ∷ [])) (genlist_append item l)
    room (inl e) =
        rw (e, doubled, positive)
          (stored (record l { lst = realloc (l.mlen * 2) l.lst; mlen = l.mlen * 2 })
            (
              resized l ps (l.mlen * 2) (l.mlen * 2) h (omega (arith, h.qty_eq, h.qty_le))
                  (omega (arith, h.mlen_ge)) (omega arith) (omega arith),
              omega (arith, h.qty_le, h.mlen_ge),
            ))
    room (inr e) = rw e (stored l (h, ground (arith, last)))
