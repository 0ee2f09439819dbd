-- ===== src/Events/Rounds.antt =====
-- The loop of line_event_multi_op of event_handlers.c, round by round.
use mathlib.Core.Path.{subst}
use tag_highlight_nvim.Base.{
  ℕ, zero, suc, ◌+◌, ◌^◌, ◌≤◌, ◌<◌, ◌≡◌, refl, sym, true, false, [], ◌∷◌, ◌++◌, append_assoc, ltb,
  length, length-append, All, arith, ok, ◌⊎◌, inl, inr, Yields, yields, Yields-eq, Yields-weaken,
}
use tag_highlight_nvim.Base.Int.{pos}
use tag_highlight_nvim.Util.LinkedList.Blist.{Pointers}
use tag_highlight_nvim.Util.LinkedList.Cells.{Cells, Valid, list_of}
use tag_highlight_nvim.Util.LinkedList.Gap.{fresh_cells, Valid-insert}
use tag_highlight_nvim.Util.LinkedList.Ends.{int-pos}
use tag_highlight_nvim.Util.LinkedList.Take.{values}
use tag_highlight_nvim.Events.{multi_op_loop}
use tag_highlight_nvim.Events.Lines.{Lines, values-append, replace_line-node, Valid-relabel}
use tag_highlight_nvim.Events.Replace.{
  list_of-Lines, values-between, insert_before_at-node, insert_after_at-end, list_of-qty,
  ll_delete_range_at-nodes, Valid-delete,
}

module _ (f o k : ℕ) where
  -- The rounds of the loop.
  round-insert :
      (r n v : ℕ) (xs ys : Cells) (pre vs : Pointers)
      → 1 ≤ n
      → All (λ s. 1 ≤ s) (v ∷ vs)
      → Valid n (xs ++ ys)
      → f + length pre ≡ length xs
      → length (xs ++ ys) + suc (length vs) < 2 ^ 31
      → multi_op_loop
          (pos f)
          (pos o)
          k
          (suc r)
          (length pre)
          (pos 0)
          (pre ++ (v ∷ vs))
          (list_of n (xs ++ ys))
        ≡ ok (list_of (n + suc (length vs)) (xs ++ (fresh_cells n (v ∷ vs) ++ ys)))
  unfolding multi_op_loop list_of
  round-insert r n v xs [] pre vs ge given valid at lt =
      let fits = int-pos (length xs) (omega (arith, lt, length-append xs [])) in
      let at_end : ltb (length xs) (length (xs ++ [])) ≡ false =
        ground (arith, length-append xs []) in
      rw (at, fits, list_of-qty n (xs ++ []), at_end)
        (insert_after_at-end n v vs pre ge given xs valid lt)
  round-insert r n v xs (c ∷ ys) pre vs ge given valid at lt =
      let fits = int-pos (length xs) (omega (arith, lt, length-append xs (c ∷ ys))) in
      let inside : ltb (length xs) (length (xs ++ (c ∷ ys))) ≡ true =
        ground (arith, length-append xs (c ∷ ys)) in
      rw (at, fits, list_of-qty n (xs ++ (c ∷ ys)), inside)
        (insert_before_at-node n v vs pre ge given xs ys c valid lt)

  round-delete :
      (r n : ℕ) (xs old ys : Cells) (c : ℕ × ℕ) (pre : Pointers)
      → Valid n (xs ++ ((c ∷ old) ++ ys))
      → f + length pre ≡ length xs
      → length pre < o
      → length pre ≡ k
      → length (xs ++ ((c ∷ old) ++ ys)) < 2 ^ 31
      → multi_op_loop
          (pos f)
          (pos o)
          k
          (suc r)
          (length pre)
          (pos (suc (length old)))
          (pre ++ [])
          (list_of n (xs ++ ((c ∷ old) ++ ys)))
        ≡ ok (list_of n (xs ++ ys))
  unfolding multi_op_loop
  round-delete r n xs old ys c pre valid at room total lt =
      let fits = int-pos (length xs) (omega (arith, lt, length-append xs ((c ∷ old) ++ ys))) in
      let some_old : ltb 0 (suc (length old)) ≡ true = ground arith in
      let below : ltb (length pre) o ≡ true = ground (arith, room) in
      let used_up : ltb (length pre) k ≡ false = ground (arith, total) in
      rw (at, fits, some_old, below, used_up) (ll_delete_range_at-nodes n xs old ys c valid lt)

  round-replace :
      (r n p u v : ℕ) (xs ys : Cells) (m : ℕ) (pre vs : Pointers)
      → Valid n (xs ++ ((p, u) ∷ ys))
      → f + length pre ≡ length xs
      → length pre < o
      → length pre < k
      → length (xs ++ ((p, u) ∷ ys)) < 2 ^ 31
      → multi_op_loop
          (pos f)
          (pos o)
          k
          (suc r)
          (length pre)
          (pos (suc m))
          (pre ++ (v ∷ vs))
          (list_of n (xs ++ ((p, u) ∷ ys)))
        ≡ multi_op_loop
            (pos f)
            (pos o)
            k
            r
            (suc (length pre))
            (pos m)
            (pre ++ (0 ∷ vs))
            (list_of n (xs ++ ((p, v) ∷ ys)))
  unfolding multi_op_loop
  round-replace r n p u v xs ys m pre vs valid at room total lt =
      let fits = int-pos (length xs) (omega (arith, lt, length-append xs ((p, u) ∷ ys))) in
      let some_old : ltb 0 (suc m) ≡ true = ground arith in
      let below : ltb (length pre) o ≡ true = ground (arith, room) in
      let left : ltb (length pre) k ≡ true = ground (arith, total) in
      rw (at, fits, some_old, below, left, replace_line-node n p u v xs ys pre vs valid) refl

  next_round :
      (r n : ℕ) (xs zs : Cells) (c : ℕ × ℕ) (pre vs : Pointers) (m : ℕ)
      → multi_op_loop
          (pos f)
          (pos o)
          k
          r
          (suc (length pre))
          (pos m)
          (pre ++ (0 ∷ vs))
          (list_of n (xs ++ (c ∷ zs)))
        ≡ multi_op_loop
            (pos f)
            (pos o)
            k
            r
            (length (pre ++ (0 ∷ [])))
            (pos m)
            ((pre ++ (0 ∷ [])) ++ vs)
            (list_of n ((xs ++ (c ∷ [])) ++ zs))
  next_round r n xs zs c pre vs m =
      let count : length (pre ++ (0 ∷ [])) ≡ suc (length pre) =
        omega (arith, length-append pre (0 ∷ [])) in
      rw (append_assoc xs (c ∷ []) zs, append_assoc pre (0 ∷ []) vs, count) refl

  next_values :
      (xs : Cells) (p v : ℕ) (vs : Pointers) (ys : Cells)
      → values (xs ++ ((p, v) ∷ [])) ++ (vs ++ values ys) ≡ values xs ++ ((v ∷ vs) ++ values ys)
  next_values xs p v vs ys =
      rw (values-append xs ((p, v) ∷ [])) (append_assoc (values xs) (v ∷ []) (vs ++ values ys))

  shorter : (a b r : ℕ) → (suc a ≡ suc r) ⊎ (suc b ≡ suc r) → (a ≡ r) ⊎ (b ≡ r)
  shorter a b r (inl e) = inl (omega (arith, e))
  shorter a b r (inr e) = inr (omega (arith, e))

  -- The loop, from any round on: `pre` has been used, `old` is still to be replaced by `vs`.
  pub multi_op_loop-Lines :
      (r n : ℕ) (xs old ys : Cells) (pre vs : Pointers)
      → 1 ≤ n
      → Valid n (xs ++ (old ++ ys))
      → All (λ s. 1 ≤ s) vs
      → f + length pre ≡ length xs
      → length pre + length old ≤ o
      → length pre + length vs ≡ k
      → length old ≤ r
      → length vs ≤ r
      → length (xs ++ (old ++ ys)) + length vs < 2 ^ 31
      → (length old ≡ r) ⊎ (length vs ≡ r)
      → Yields
          (λ l. Lines l (values xs ++ (vs ++ values ys)))
          (multi_op_loop
            (pos f)
            (pos o)
            k
            r
            (length pre)
            (pos (length old))
            (pre ++ vs)
            (list_of n (xs ++ (old ++ ys))))
  unfolding multi_op_loop
  multi_op_loop-Lines zero n xs [] ys pre [] ge valid given at room total m₁ m₂ lt tight =
      yields (list_of-Lines n (xs ++ ys) _ ge valid (values-append xs ys))
  multi_op_loop-Lines zero n xs (c ∷ old) ys pre vs ge valid given at room total m₁ m₂ lt tight =
      ground (arith, m₁)
  multi_op_loop-Lines zero n xs old ys pre (v ∷ vs) ge valid given at room total m₁ m₂ lt tight =
      ground (arith, m₂)
  multi_op_loop-Lines (suc r) n xs [] ys pre [] ge valid given at room total m₁ m₂ lt tight =
      elim tight [ inl e ↦ ground (arith, e) | inr e ↦ ground (arith, e) ]
  multi_op_loop-Lines (suc r) n xs [] ys pre (v ∷ vs) ge valid given at room total m₁ m₂ lt tight =
      Yields-eq _ (round-insert r n v xs ys pre vs ge given valid at lt) (
        yields (
          list_of-Lines (n + suc (length vs)) (xs ++ (fresh_cells n (v ∷ vs) ++ ys)) _ (omega arith)
            (Valid-insert n (v ∷ vs) xs ys ge valid) (values-between xs ys n (v ∷ vs))))
  multi_op_loop-Lines (suc r) n xs (c ∷ old) ys pre [] ge valid given at room total m₁ m₂ lt tight =
      Yields-eq _
        (round-delete r n xs old ys c pre valid at (omega (arith, room)) (omega (arith, total))
          (omega (arith, lt)))
        (yields (
          list_of-Lines n (xs ++ ys) _ ge (Valid-delete n xs (c ∷ old) ys valid)
            (values-append xs ys)))
  multi_op_loop-Lines (suc r) n xs ((p, u) ∷ old) ys pre (v ∷ vs) ge valid given at room total m₁ m₂
        lt tight =
      Yields-eq _
        (round-replace r n p u v xs (old ++ ys) (length old) pre vs valid at (omega (arith, room))
          (omega (arith, total)) (omega (arith, lt)))
        (Yields-weaken _ _ (λ l h. subst (Lines l) (next_values xs p v vs ys) h)
          (Yields-eq _ (next_round r n xs (old ++ ys) (p, v) pre vs (length old)) (
            multi_op_loop-Lines r n (xs ++ ((p, v) ∷ [])) old ys (pre ++ (0 ∷ [])) vs ge
              (subst (Valid n) (sym (append_assoc xs ((p, v) ∷ []) (old ++ ys)))
                (Valid-relabel n p u v xs (old ++ ys) valid))
              given.1
              (omega (arith, at, length-append xs ((p, v) ∷ []), length-append pre (0 ∷ [])))
              (omega (arith, room, length-append pre (0 ∷ [])))
              (omega (arith, total, length-append pre (0 ∷ []))) (omega (arith, m₁))
              (omega (arith, m₂))
              (omega (
                arith,
                lt,
                length-append xs ((p, u) ∷ (old ++ ys)),
                length-append (xs ++ ((p, v) ∷ [])) (old ++ ys),
                length-append xs ((p, v) ∷ []),
              ))
              (shorter (length old) (length vs) r tight))))
