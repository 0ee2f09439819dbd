-- ===== src/Events/Change.antt =====
-- edit_lines, the part of handle_line_event of event_handlers.c that changes the lines of a buffer.
use mathlib.Core.Path.{subst}
use tag_highlight_nvim.Base.{
  ℕ, zero, suc, ◌+◌, ◌^◌, ◌≤◌, ◌<◌, ◌≡◌, refl, ap, ◌∙◌, sym, Bool, true, false, not, ◌&&◌, List, [],
  ◌∷◌, ◌++◌, append-nil, ltb, ◌==◌, if◌then◌else◌, length, length-append, All, arith, ok, ◌>>=◌,
  ◌⊎◌, inl, inr, Bool-cases, Yields, yields, Yields-eq, Yields-weaken, Yields-bind,
}
use tag_highlight_nvim.Base.Int.{ℤ, pos, negsuc, ◌+ℤ◌, neg}
use tag_highlight_nvim.Util.LinkedList.{LinkedList}
use tag_highlight_nvim.Util.LinkedList.Remove.{rounds}
use tag_highlight_nvim.Util.LinkedList.Blist.{Pointers}
use tag_highlight_nvim.Util.LinkedList.Cells.{Cells, Valid, list_of}
use tag_highlight_nvim.Util.LinkedList.Gap.{fresh_cells, Valid-insert}
use tag_highlight_nvim.Util.LinkedList.Insert.{ll_append_lem}
use tag_highlight_nvim.Util.LinkedList.InsertRange.{ll_insert_blist_before_lem}
use tag_highlight_nvim.Util.LinkedList.Take.{values}
use tag_highlight_nvim.Events.{
  insert_before_at, multi_op_loop, line_event_multi_op, maxof, only_empty, change_lines, pad_lines,
}
use tag_highlight_nvim.Events.Lines.{Lines, values-append, ll_at-end}
use tag_highlight_nvim.Events.Replace.{
  list_of-Lines, ends_at, values-between, insert_before_at-node, ll_delete_range_at-nodes,
  Valid-delete, list_of-qty,
}
use tag_highlight_nvim.Events.Rounds.{multi_op_loop-Lines}

-- An empty buffer has one empty line.
abbrev pub padded : ℕ → List ℕ → List ℕ
padded e [] = e ∷ []
padded e (v ∷ vs) = v ∷ vs

maxof-pos :
    (a b : ℕ)
    → (a ≤ rounds (maxof (pos a) (pos b)))
      × (b ≤ rounds (maxof (pos a) (pos b)))
      × ((a ≡ rounds (maxof (pos a) (pos b))) ⊎ (b ≡ rounds (maxof (pos a) (pos b))))
maxof-pos a b = elim (Bool-cases (ltb b a)) [
  | inl less ↦ rw (less) (omega arith, ground (arith, less), inl refl)
  | inr more ↦ rw (more) (ground (arith, more), omega arith, inr refl)
]

-- The count of a difference of indexes.
pub diff-pos : (a b : ℕ) → pos (a + b) +ℤ neg (pos a) ≡ pos b
diff-pos zero b = ground arith
diff-pos (suc a) b = ground arith

module _ (n : ℕ) (xs old ys : Cells) (vs : Pointers) (ge : 1 ≤ n)
    (valid : Valid n (xs ++ (old ++ ys))) (given : All (λ s. 1 ≤ s) vs)
    (lt : length (xs ++ (old ++ ys)) + length vs < 2 ^ 31) where
  line_event_multi_op-Lines :
      Yields
        (λ l. Lines l (values xs ++ (vs ++ values ys)))
        (line_event_multi_op vs
          (pos (length xs))
          (pos (length old))
          (list_of n (xs ++ (old ++ ys))))
  unfolding line_event_multi_op
  line_event_multi_op-Lines =
      let r = maxof-pos (length old) (length vs) in
      Yields-eq _
        (ap
          (λ q.
            multi_op_loop (pos (length xs)) q (length vs)
              (rounds (maxof (pos (length old)) (pos (length vs)))) 0 (pos (length old)) vs
              (list_of n (xs ++ (old ++ ys))))
          (list_of-qty n (xs ++ (old ++ ys))))
        (multi_op_loop-Lines (length xs) (length (xs ++ (old ++ ys))) (length vs)
          (rounds (maxof (pos (length old)) (pos (length vs)))) n xs old ys [] vs ge valid given
          (omega arith) (omega (arith, length-append xs (old ++ ys), length-append old ys))
          (omega arith) r.0 r.1 lt r.2)

insert_at_top :
    (n v : ℕ) (vs : Pointers) (ys : Cells)
    → 1 ≤ n
    → All (λ s. 1 ≤ s) (v ∷ vs)
    → Valid n ys
    → length ys + suc (length vs) < 2 ^ 31
    → insert_before_at (pos 0) (v ∷ vs) 0 (list_of n ys)
      ≡ ok (list_of (n + suc (length vs)) (fresh_cells n (v ∷ vs) ++ ys))
unfolding insert_before_at
insert_at_top n v vs [] ge given valid lt =
    ap (λ ws. insert_before_at (pos 0) (v ∷ ws) 0 (list_of n [])) (sym (append-nil vs))
    ∙ rw
        (
          ll_at-end n [] tt,
          ll_insert_blist_before_lem n v vs [] [] (pos 0) (negsuc 0) [] [] ge given refl
              (ends_at [] vs v) tt (omega (arith, lt)) refl,
        )
        refl
insert_at_top n v vs (c ∷ ys) ge given valid lt =
    insert_before_at-node n v vs [] ge given [] ys c valid lt

pad_nodes :
    (e n : ℕ) (xs : Cells)
    → 1 ≤ n
    → Valid n xs
    → Yields (λ l. Lines l (padded e (values xs))) (pad_lines e (list_of n xs))
unfolding pad_lines list_of
pad_nodes e n [] ge valid =
    Yields-eq _ (ll_append_lem e n [] valid (omega arith)) (
      yields (list_of-Lines (suc n) ((n, e) ∷ []) _ (omega arith) (ge, omega arith, refl, tt) refl))
pad_nodes e n ((p, v) ∷ xs) ge valid =
    let some_lines : (suc (length xs) == 0) ≡ false = ground arith in
    Yields-eq _ (rw (some_lines) refl) (yields (list_of-Lines n ((p, v) ∷ xs) _ ge valid refl))

pub pad_lines-Lines :
    (e : ℕ) (l : LinkedList) (vs : List ℕ)
    → Lines l vs
    → Yields (λ l'. Lines l' (padded e vs)) (pad_lines e l)
pad_lines-Lines e l vs h =
    Yields-weaken _ _ (λ l' k. subst (λ ws. Lines l' (padded e ws)) h.strings k)
      (Yields-eq _ (ap (pad_lines e) h.is) (pad_nodes e h.next h.nodes h.next_ge h.valid))

-- An event that is ignored: one empty string for the first lines of a buffer of at most one line.
abbrev pub ignored : (ℕ → ℕ) → ℕ → ℕ → Pointers → Bool
ignored slen qty start vs = not (ltb 1 qty) && ((start == 0) && only_empty slen vs)

-- With new strings, an event that is not ignored.
change_lines-heeded :
    (slen : ℕ → ℕ) (n a b : ℕ) (d : ℤ) (zs : Cells) (v : ℕ) (vs : Pointers)
    → ignored slen (length zs) a (v ∷ vs) ≡ false
    → change_lines slen (v ∷ vs) (pos a) (pos b) d (list_of n zs) ≡ (
        if (a == 0) && (b == 0)
        then (insert_before_at (pos a) (v ∷ vs) 0 (list_of n zs) >>= λ l. ok (false, l))
        else (line_event_multi_op (v ∷ vs) (pos a) d (list_of n zs) >>= λ l. ok (false, l)))
unfolding change_lines
change_lines-heeded slen n a b d zs v vs heed = rw (list_of-qty n zs, heed) refl

change_lines-multi :
    (slen : ℕ → ℕ) (n : ℕ) (xs old ys : Cells) (v : ℕ) (vs : Pointers)
    → 1 ≤ n
    → Valid n (xs ++ (old ++ ys))
    → All (λ s. 1 ≤ s) (v ∷ vs)
    → length (xs ++ (old ++ ys)) + length (v ∷ vs) < 2 ^ 31
    → ignored slen (length (xs ++ (old ++ ys))) (length xs) (v ∷ vs) ≡ false
    → ((length xs == 0) && (length xs + length old == 0)) ≡ false
    → Yields
        (λ r. (r.0 ≡ false) × Lines r.1 (values xs ++ ((v ∷ vs) ++ values ys)))
        (change_lines slen
          (v ∷ vs)
          (pos (length xs))
          (pos (length xs + length old))
          (pos (length old))
          (list_of n (xs ++ (old ++ ys))))
change_lines-multi slen n xs old ys v vs ge valid given lt heed not_top =
    Yields-eq _
      (change_lines-heeded slen n (length xs) (length xs + length old) (pos (length old))
          (xs ++ (old ++ ys)) v vs heed
        ∙ rw (not_top) refl)
      (Yields-bind _ _ _ (line_event_multi_op-Lines n xs old ys (v ∷ vs) ge valid given lt)
        λ l h. yields (refl, h))

-- The event, applied to a list of nodes in which `old` is to be replaced.
pub change_lines-Lines :
    (slen : ℕ → ℕ) (n : ℕ) (xs old ys : Cells) (vs : Pointers)
    → 1 ≤ n
    → Valid n (xs ++ (old ++ ys))
    → All (λ s. 1 ≤ s) vs
    → length (xs ++ (old ++ ys)) + length vs < 2 ^ 31
    → ignored slen (length (xs ++ (old ++ ys))) (length xs) vs ≡ false
    → Yields
        (λ r. (r.0 ≡ false) × Lines r.1 (values xs ++ (vs ++ values ys)))
        (change_lines slen vs
          (pos (length xs))
          (pos (length xs + length old))
          (pos (length old))
          (list_of n (xs ++ (old ++ ys))))
unfolding change_lines
change_lines-Lines slen n xs [] ys [] ge valid given lt heed =
    let same : (length xs == length xs + 0) ≡ true = ground arith in
    Yields-eq _ (rw (same) refl)
      (yields (refl, list_of-Lines n (xs ++ ys) _ ge valid (values-append xs ys)))
change_lines-Lines slen n xs (c ∷ old) ys [] ge valid given lt heed =
    let differ : (length xs == length xs + suc (length old)) ≡ false = ground arith in
    Yields-eq _ (rw (differ, ll_delete_range_at-nodes n xs old ys c valid (omega (arith, lt))) refl)
      (yields (
        refl,
        list_of-Lines n (xs ++ ys) _ ge (Valid-delete n xs (c ∷ old) ys valid)
            (values-append xs ys),
      ))
change_lines-Lines slen n [] [] ys (v ∷ vs) ge valid given lt heed =
    Yields-eq _
      (change_lines-heeded slen n 0 (0 + 0) (pos 0) ys v vs heed
        ∙ rw (insert_at_top n v vs ys ge given valid lt) refl)
      (yields (
        refl,
        list_of-Lines (n + suc (length vs)) (fresh_cells n (v ∷ vs) ++ ys) _ (omega arith)
            (Valid-insert n (v ∷ vs) [] ys ge valid) (values-between [] ys n (v ∷ vs)),
      ))
change_lines-Lines slen n [] (c ∷ old) ys (v ∷ vs) ge valid given lt heed =
    change_lines-multi slen n [] (c ∷ old) ys v vs ge valid given lt heed (ground arith)
change_lines-Lines slen n (x ∷ xs) old ys (v ∷ vs) ge valid given lt heed =
    change_lines-multi slen n (x ∷ xs) old ys v vs ge valid given lt heed (ground arith)
