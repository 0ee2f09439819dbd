-- ===== src/Util/Genlist/Ends.antt =====
-- Both ends of a list of util/generic_list.c: what is stored, popped, dequeued and copied.
use mathlib.Core.Path.{subst}
use tag_highlight_nvim.Base.{
  ℕ, suc, ◌+◌, ◌%◌, ◌^◌, ◌-◌, ◌≤◌, ◌<◌, ◌≡◌, refl, ap, ◌∙◌, sym, true, false, List, [], ◌∷◌, ◌++◌,
  append_assoc, append-nil, map, none, some, arith, ltb, leb, ◌==◌, if◌then◌else◌, length,
  length-append, length-replicate, replicate, ok, Yields, yields, Yields-eq, Yields-bind,
}
use tag_highlight_nvim.Util.Genlist.{
  Cell, Genlist, load, store, put, genlist_create_alloc, copy_loop, genlist_copy, genlist_pop,
  genlist_dequeue,
}
use tag_highlight_nvim.Util.Genlist.Items.{
  cells, Holds, load-cells, store-cells, last_item, move_down-cells, rebuilt, length-front,
  cells-snoc,
}

-- The last item is popped, and the items in front of it stay.
pub genlist_pop-Holds :
    (l : Genlist) (ps : List ℕ) (p : ℕ)
    → Holds l (ps ++ p ∷ [])
    → Yields (λ r. (r.0 ≡ p) × Holds r.1 ps) (genlist_pop l)
unfolding genlist_pop
genlist_pop-Holds l ps p h =
    let grown = length-append ps (p ∷ []) in
    let full : (l.qty == 0) ≡ false = ground (arith, h.qty_eq) in
    let last : l.qty - 1 ≡ length ps = omega (arith, h.qty_eq) in
    let front = h.front ∙ cells-snoc ps p h.spare in
    let size = ap length front in
    Yields-eq (λ r. (r.0 ≡ p) × Holds r.1 ps)
      (rw (full, last, front, load-cells ps p h.spare, store-cells ps 0 (some p) h.spare))
      (yields {a = (p, record l { lst = cells ps ++ some 0 ∷ h.spare; qty = length ps })} (
        refl,
        rebuilt l (ps ++ p ∷ []) ps (some 0 ∷ h.spare) h
            (omega
              (arith, size, length-front ps (some p ∷ h.spare), length-front ps (some 0 ∷ h.spare)))
            (omega (arith, h.qty_eq, h.qty_le)),
      ))

-- The first item is dequeued, and the items behind it stay.
pub genlist_dequeue-Holds :
    (l : Genlist) (p : ℕ) (ps : List ℕ)
    → Holds l (p ∷ ps)
    → Yields (λ r. (r.0 ≡ p) × Holds r.1 ps) (genlist_dequeue l)
unfolding genlist_dequeue load store
genlist_dequeue-Holds l p [] h =
    Yields-eq (λ r. (r.0 ≡ p) × Holds r.1 []) (rw (h.qty_eq, h.front))
      (yields {a = (p, record l { lst = some 0 ∷ h.spare; qty = 0 })} (
        refl,
        rebuilt l (p ∷ []) [] (some 0 ∷ h.spare) h (omega (arith, ap length h.front)) (omega arith),
      ))
genlist_dequeue-Holds l p (q ∷ qs) h =
    let many : ltb 1 (suc (suc (length qs))) ≡ true = ground arith in
    let some_items : (suc (suc (length qs)) == 0) ≡ false = ground arith in
    let less : suc (suc (length qs)) - 1 ≡ suc (length qs) = omega arith in
    Yields-eq (λ r. (r.0 ≡ p) × Holds r.1 (q ∷ qs))
      (rw (h.qty_eq, some_items, many, less, h.front, move_down-cells (some 0) q qs h.spare))
      (yields
        {a = (
          p,
          record l {
            lst = cells (q ∷ qs) ++ some (last_item q qs) ∷ h.spare;
            qty = suc (length qs);
          },
        )}
        (
          refl,
          rebuilt l (p ∷ q ∷ qs) (q ∷ qs) (some (last_item q qs) ∷ h.spare) h
              (omega (
                arith,
                ap length h.front,
                length-front qs h.spare,
                length-front qs (some (last_item q qs) ∷ h.spare),
              ))
              (omega (arith, h.qty_eq, h.qty_le)),
        ))

-- A new list holds nothing.
pub genlist_create_alloc-Holds : (msz : ℕ) → msz < 2 ^ 32 → Holds (genlist_create_alloc msz) []
unfolding genlist_create_alloc
genlist_create_alloc-Holds msz h =
    let size = if leb msz 2 then 2 else msz in
    let filled = length-replicate {A = Cell} size none in
    let least : 2 ≤ size = ground arith in
    let most : size < 2 ^ 32 = ground arith in
    record {
      spare = replicate size none;
      front = refl;
      qty_eq = refl;
      qty_le = omega arith;
      mlen_ge = omega (arith, least);
      mlen_lt = most;
      mlen_le = omega (arith, filled);
    }

genlist_create_alloc_room : (msz : ℕ) → msz ≤ (genlist_create_alloc msz).mlen
unfolding genlist_create_alloc
genlist_create_alloc_room msz = ground arith

-- An item is stored behind the others.
put-front :
    (l : Genlist) (ps : List ℕ) (p : ℕ) (spare : List Cell)
    → Holds l ps
    → l.lst ≡ cells ps ++ spare
    → l.qty < l.mlen
    → Yields (λ l'. Holds l' (ps ++ p ∷ []) × (l'.mlen ≡ l.mlen)) (put p l)
put-front l ps p [] h front fits =
    absurd (omega (arith, ap length front, length-front ps [], h.qty_eq, h.mlen_le))
put-front l ps p (c ∷ more) h front fits =
    let grown = length-append ps (p ∷ []) in
    let next : (length ps + 1) % 2 ^ 32 ≡ length (ps ++ p ∷ []) =
      omega (arith, grown, h.qty_eq, h.mlen_lt) in
    let size = ap length front in
    let l' = record l { lst = cells ps ++ some p ∷ more; qty = length (ps ++ p ∷ []) } in
    Yields-eq (λ l'. Holds l' (ps ++ p ∷ []) × (l'.mlen ≡ l.mlen)) {m = ok l'}
      (unfold put in rw (h.qty_eq, front, store-cells ps p c more, next))
      (yields {a = l'} (
        record {
          spare = more;
          front = sym (cells-snoc ps p more);
          qty_eq = refl;
          qty_le = omega (arith, grown, h.qty_eq);
          mlen_ge = h.mlen_ge;
          mlen_lt = h.mlen_lt;
          mlen_le =
              omega (
                arith,
                size,
                length-front ps (c ∷ more),
                length-front ps (some p ∷ more),
                h.mlen_le,
              );
        },
        refl,
      ))

pub put-Holds :
    (l : Genlist) (ps : List ℕ) (p : ℕ)
    → Holds l ps
    → l.qty < l.mlen
    → Yields (λ l'. Holds l' (ps ++ p ∷ []) × (l'.mlen ≡ l.mlen)) (put p l)
put-Holds l ps p h fits = put-front l ps p h.spare h h.front fits

copy_loop-Holds :
    (cpy : ℕ → ℕ) (ps rs : List ℕ) (spare : List Cell) (ret : Genlist)
    → Holds ret rs
    → length rs + length ps ≤ ret.mlen
    → Yields (λ l'. Holds l' (rs ++ map cpy ps)) (copy_loop cpy (length ps) (cells ps ++ spare) ret)
unfolding copy_loop
copy_loop-Holds cpy [] rs spare ret h fits = yields (subst (Holds ret) (sym (append-nil rs)) h)
copy_loop-Holds cpy (p ∷ ps) rs spare ret h fits =
    Yields-bind _ _ _ (put-Holds ret rs (cpy p) h (omega (arith, h.qty_eq))) λ ret' k.
      subst (λ qs. Yields (λ l'. Holds l' qs) (copy_loop cpy (length ps) (cells ps ++ spare) ret'))
        (append_assoc rs (cpy p ∷ []) (map cpy ps))
        (copy_loop-Holds cpy ps (rs ++ cpy p ∷ []) spare ret' k.0
          (omega (arith, k.1, length-append rs (cpy p ∷ []))))

-- A copy holds the copies of the items, in their order.
pub genlist_copy-Holds :
    (cpy : ℕ → ℕ) (l : Genlist) (ps : List ℕ)
    → Holds l ps
    → Yields (λ l'. Holds l' (map cpy ps)) (genlist_copy cpy l)
unfolding genlist_copy
genlist_copy-Holds cpy l ps h =
    rw (h.qty_eq, h.front)
      (copy_loop-Holds cpy ps [] h.spare (genlist_create_alloc (length ps))
        (genlist_create_alloc-Holds (length ps) (omega (arith, h.qty_eq, h.qty_le, h.mlen_lt)))
        (omega (arith, genlist_create_alloc_room (length ps))))
