-- ===== src/Util/LinkedList/Chain.antt =====
-- The new nodes of ll_insert_blist_after and ll_insert_blist_before of util/linked_list.c.
use mathlib.Core.Path.{subst}
use tag_highlight_nvim.Base.{
  ℕ, suc, ◌+◌, ◌-◌, ◌^◌, ◌≤◌, ◌<◌, ◌≡◌, refl, ap, ◌∙◌, sym, Bool, true, false, List, [], ◌∷◌, ◌++◌,
  append_assoc, append-nil, Option, none, some, ltb, ◌==◌, if◌then◌else◌, length, length-append,
  replicate, All, arith, ok,
}
use tag_highlight_nvim.Base.Int.{ℤ, pos}
use tag_highlight_nvim.Util.LinkedList.{Heap, node, write, place, LinkedList, set_next}
use tag_highlight_nvim.Util.LinkedList.Blist.{
  Pointers, string_at, move_out, Chain, create_nodes, chain,
}
use tag_highlight_nvim.Util.LinkedList.Cells.{
  Cells, last, front, back, over, Valid, last-append, has-append, over-append, write-over,
  has_fresh, back-some, front-append,
}
use tag_highlight_nvim.Util.LinkedList.Gap.{fresh_cells, set_next-last}
use tag_highlight_nvim.Util.LinkedList.Ends.{int-pos}

abbrev pub linked : Heap → ℕ → ℤ → Pointers → Chain
linked h m k b = record { nodes = h; last = m; count = k; blist = b }

pub string_at-append :
    (pre post : Pointers) (v : ℕ) → string_at (length pre) (pre ++ (v ∷ post)) ≡ ok v
unfolding string_at
string_at-append [] post v = refl
string_at-append (p ∷ pre) post v = string_at-append pre post v

pub move_out-append :
    (pre post : Pointers) (v : ℕ)
    → move_out (length pre) (pre ++ (v ∷ post)) ≡ ok (v, pre ++ (0 ∷ post))
unfolding move_out
move_out-append [] post v = refl
move_out-append (p ∷ pre) post v = rw (move_out-append pre post v)

pub Valid-snoc : (n v : ℕ) (xs : Cells) → 1 ≤ n → Valid n xs → Valid (suc n) (xs ++ ((n, v) ∷ []))
Valid-snoc n v [] ge valid = (ge, omega arith, refl, tt)
Valid-snoc n v ((p, u) ∷ xs) ge valid = (
  valid.0,
  omega (arith, valid.1),
  ground (arith, has-append p xs ((n, v) ∷ []), valid.1, valid.2),
  Valid-snoc n v xs ge valid.3,
)

-- A node behind the last one of a run whose end is open.
grow_chain :
    (p u v m : ℕ) (a : Option ℕ) (xs : Cells) (h : Heap)
    → last p xs ≡ m
    → Valid (suc m) ((p, u) ∷ xs)
    → set_next m (suc m) (place (suc m) v (some m) none (over a ((p, u) ∷ xs) none h))
      ≡ ok (over a ((p, u) ∷ (xs ++ ((suc m, v) ∷ []))) none h)
unfolding over
grow_chain p u v m a xs h e valid =
    let ws = (p, u) ∷ xs in
    let new = place (suc m) v (some m) none h in
    let end : back (some p) xs ≡ some m = back-some p xs ∙ ap some e in
    rw
      (
        write-over (suc m) a none ws h (some (node v (some m) none))
            (has_fresh (suc m) (suc m) ws (omega arith) valid),
        over-append (some p) none xs ((suc m, v) ∷ []) h,
        front-append none xs ((suc m, v) ∷ []),
        end,
      )
      (subst (λ l. set_next l (suc m) (over a ws none new) ≡ ok (over a ws (some (suc m)) new)) e
        (set_next-last (suc m) (suc m) p u a none xs new valid))

create_nodes-chain :
    (p u m i x c : ℕ) (a : Option ℕ) (xs : Cells) (h : Heap) (pre vs post blist : Pointers)
    → last p xs ≡ m
    → Valid (suc m) ((p, u) ∷ xs)
    → All (λ v. 1 ≤ v) vs
    → blist ≡ pre ++ (vs ++ post)
    → x ≡ length pre
    → i ≤ x
    → c + length vs < 2 ^ 31
    → create_nodes (length vs) i x (linked (over a ((p, u) ∷ xs) none h) m (pos c) blist)
      ≡ ok (
          linked
            (over a ((p, u) ∷ (xs ++ fresh_cells (suc m) vs)) none h)
            (m + length vs)
            (pos (c + length vs))
            (pre ++ (replicate (length vs) 0 ++ post)))
unfolding create_nodes
create_nodes-chain p u m i x c a xs h pre [] post blist last_m valid given e at le lt =
    let same_m : m + 0 ≡ m = omega arith in
    let same_c : c + 0 ≡ c = omega arith in rw (e, append-nil xs, same_m, same_c)
create_nodes-chain p u m i x c a xs h pre (v ∷ vs) post blist last_m valid given e at le lt =
    let long : length blist ≡ length pre + suc (length (vs ++ post)) =
      ap length e ∙ length-append pre (v ∷ (vs ++ post)) in
    let inside : ltb i (length blist) ≡ true = ground (arith, long, le, at) in
    let not_null : (v == 0) ≡ false = ground (arith, given.0) in
    let count : c + suc (length vs) ≡ suc c + length vs = omega arith in
    let end : m + suc (length vs) ≡ suc m + length vs = omega arith in
    let new = (suc m, v) ∷ [] in
    let next_m : last p (xs ++ new) ≡ suc m = last-append p xs new in
    rw
      (
        inside,
        e,
        at,
        string_at-append pre (vs ++ post) v,
        not_null,
        move_out-append pre (vs ++ post) v,
        grow_chain p u v m a xs h last_m valid,
        int-pos (suc c) (omega (arith, lt)),
      )
      (create_nodes-chain p u (suc m) (suc i) (suc (length pre)) (suc c) a (xs ++ new) h
          (pre ++ (0 ∷ [])) vs post (pre ++ (0 ∷ (vs ++ post))) next_m
          (Valid-snoc (suc m) v ((p, u) ∷ xs) (omega arith) valid) given.1
          (sym (append_assoc pre (0 ∷ []) (vs ++ post))) (omega (arith, length-append pre (0 ∷ [])))
          (omega (arith, le, at)) (omega (arith, lt))
        ∙ rw (
          append_assoc xs new (fresh_cells (suc (suc m)) vs),
          append_assoc pre (0 ∷ []) (replicate (length vs) 0 ++ post),
          count,
          end,
        ))

-- The whole run.
pub chain-fresh_cells :
    (n k at : ℕ) (known : Bool) (l : LinkedList) (pre post : Pointers) (v : ℕ) (vs : List ℕ)
    → 1 ≤ n
    → All (λ w. 1 ≤ w) vs
    → l.fresh ≡ n
    → l.qty ≡ pos k
    → k + suc (length vs) < 2 ^ 31
    → chain (suc (length vs)) (length pre) known at l (pre ++ (v ∷ (vs ++ post)))
      ≡ ok (
          linked
            (over (if known then some at else none) (fresh_cells n (v ∷ vs)) none l.heap)
            (n + length vs)
            (pos (suc k + length vs))
            (pre ++ (0 ∷ (replicate (length vs) 0 ++ post))))
unfolding chain over
chain-fresh_cells n k at known l pre post v vs ge given fresh count lt =
    let some_nodes : (suc (length vs) == 0) ≡ false = ground arith in
    let others : suc (length vs) - 1 ≡ length vs = omega arith in
    rw
      (
        some_nodes,
        others,
        move_out-append pre (vs ++ post) v,
        count,
        int-pos (suc k) (omega (arith, lt)),
        fresh,
      )
      (create_nodes-chain n v n 1 (suc (length pre)) (suc k) (if known then some at else none) []
          l.heap (pre ++ (0 ∷ [])) vs post (pre ++ (0 ∷ (vs ++ post))) refl
          (ge, omega arith, refl, tt) given (sym (append_assoc pre (0 ∷ []) (vs ++ post)))
          (omega (arith, length-append pre (0 ∷ []))) (omega arith) (omega (arith, lt))
        ∙ rw (append_assoc pre (0 ∷ []) (replicate (length vs) 0 ++ post)))

-- Newer nodes written below older ones.
pub over-swap :
    (n m : ℕ) (a b c d : Option ℕ) (vs : List ℕ) (xs : Cells) (h : Heap)
    → m ≤ n
    → Valid m xs
    → over a (fresh_cells n vs) b (over c xs d h) ≡ over c xs d (over a (fresh_cells n vs) b h)
unfolding over
over-swap n m a b c d [] xs h le valid = refl
over-swap n m a b c d (v ∷ vs) xs h le valid =
    ap (λ g. write g n (some (node v a (front b (fresh_cells (suc n) vs)))))
      (over-swap (suc n) m (some n) b c d vs xs h (omega (arith, le)) valid)
    ∙ write-over n c d xs (over (some n) (fresh_cells (suc n) vs) b h)
        (some (node v a (front b (fresh_cells (suc n) vs)))) (has_fresh n m xs le valid)
