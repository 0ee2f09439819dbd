-- ===== src/Util/LinkedList/At.antt =====
-- Nodes found by their index, and the walks along a list of util/linked_list.c.
use tag_highlight_nvim.Base.{
  ℕ, zero, suc, ◌-◌, ◌/◌, Bool, ◌||◌, List, [], ◌∷◌, ltb, if◌then◌else◌, Result, ok, stop,
  out_of_fuel, ◌>>=◌,
}
use tag_highlight_nvim.Base.Int.{ℤ, pos, negsuc, ◌+ℤ◌, ◌==ℤ◌, ltℤ}
use tag_highlight_nvim.Util.LinkedList.{Heap, LinkedList, node_at, get_next, get_prev}

-- `current = current->next`, a number of times, and the same with `prev`.
unfoldable pub walk : (ℕ → Heap → Result ℕ) → ℕ → ℕ → Heap → Result ℕ
walk get zero p h = ok p
walk get (suc n) p h = get p h >>= λ q. walk get n q h

-- Forwards or backwards; `qty` is above 0 here.
unfoldable pub search : ℕ → ℕ → LinkedList → Result ℕ
unfolding walk
search i qty l =
    if ltb i ((qty - 1) / 2)
    then walk get_next i l.head l.heap
    else walk get_prev (qty - 1 - i) l.tail l.heap

-- An index outside gives NULL.
abbrev pub in_range : ℤ → ℤ → LinkedList → Result ℕ
in_range (pos i) (pos qty) l = if ltb qty i then ok 0 else search i qty l
in_range index qty l = ok 0

unfoldable pub ll_at : ℤ → LinkedList → Result ℕ
unfolding search
ll_at index l =
    if l.qty ==ℤ pos 0
    then ok 0
    else if index ==ℤ pos 0
    then ok l.head
    else if (index ==ℤ negsuc 0) || (index ==ℤ l.qty)
    then ok l.tail
    else in_range (if ltℤ index (pos 0) then index +ℤ l.qty else index) l.qty l

-- LL_FOREACH_F: the values of the nodes that are met, on fuel.
unfoldable pub each : ℕ → ℕ → Heap → Result (List ℕ)
each fuel zero h = ok []
each zero (suc p) h = stop out_of_fuel
each (suc fuel) (suc p) h = do
  n ← node_at (suc p) h
  q ← get_next (suc p) h
  vs ← each fuel q h
  ok (n.value ∷ vs)

abbrev pub count_of : List ℕ → ℕ
count_of [] = 0
count_of (v ∷ vs) = suc (count_of vs)

unfoldable pub ll_verify_size : ℕ → LinkedList → Result (Bool × LinkedList)
unfolding each
ll_verify_size fuel l = each fuel l.head l.heap >>= λ vs.
    (let same = pos (count_of vs) ==ℤ l.qty in
      ok (same, if same then l else record l { qty = pos (count_of vs) }))
