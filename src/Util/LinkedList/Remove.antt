-- ===== src/Util/LinkedList/Remove.antt =====
-- The operations of util/linked_list.c that take nodes away.
use tag_highlight_nvim.Base.{
  ℕ, zero, suc, Bool, ◌||◌, ◌==◌, if◌then◌else◌, Result, ok, stop, abort, ◌>>=◌,
}
use tag_highlight_nvim.Base.Int.{ℤ, pos, negsuc, ◌==ℤ◌, pred, int}
use tag_highlight_nvim.Util.LinkedList.{
  Heap, LinkedList, node_at, get_next, get_prev, free_node, link_next, link_prev, set_next,
  set_prev,
}

-- The links around the node that ll_delete_node takes away.
unfoldable pub unlink : ℕ → LinkedList → Result LinkedList
unlink p l =
    if l.qty ==ℤ pos 1
    then ok (record l { head = 0; tail = 0 })
    else if p == l.head
    then (do q ← get_next p l.heap; h ← link_prev q 0 l.heap; ok (record l { heap = h; head = q }))
    else if p == l.tail
    then (do q ← get_prev p l.heap; h ← link_next q 0 l.heap; ok (record l { heap = h; tail = q }))
    else do
      before ← get_prev p l.heap
      after ← get_next p l.heap
      h ← set_next before after l.heap
      after' ← get_next p h
      before' ← get_prev p h
      h' ← set_prev after' before' h
      ok (record l { heap = h' })

unfoldable pub ll_delete_node : ℕ → LinkedList → Result LinkedList
unfolding unlink int
ll_delete_node p l = do
  l' ← unlink p l
  qty ← int (pred l'.qty)
  h ← free_node p l'.heap
  ok (record l' { heap = h; qty = qty })

-- What the loop of ll_delete_range changes.
pub record Freed : Type 0 where
  pub left : Heap
  pub following : ℕ
  pub count : ℤ

-- Its rounds; each frees the node at `current`.
unfoldable pub free_loop : ℕ → ℕ → Freed → Result Freed
unfolding int
free_loop zero current s = ok s
free_loop (suc n) zero s = ok s
free_loop (suc n) (suc p) s = do
  q ← get_next (suc p) s.left
  h ← free_node (suc p) s.left
  qty ← int (pred s.count)
  free_loop n q (record { left = h; following = q; count = qty })

abbrev pub at_least_0 : ℤ → ℤ
at_least_0 (pos n) = pos n
at_least_0 (negsuc n) = pos 0

-- The number of rounds that a bound of type int allows.
abbrev pub rounds : ℤ → ℕ
rounds (pos n) = n
rounds (negsuc n) = 0

-- Behind the loop: the node in front of the freed ones and the node behind them.
unfoldable pub close_gap : ℕ → Bool → Freed → LinkedList → Result LinkedList
close_gap prev replace_head s l = do
  h ← link_next prev s.following s.left
  h' ← link_prev s.following prev h
  ok (record l {
    heap = h';
    head = if replace_head then s.following else l.head;
    tail = if s.following == 0 then prev else l.tail;
    qty = at_least_0 s.count;
  })

unfoldable pub ll_delete_range : ℕ → ℤ → LinkedList → Result LinkedList
unfolding ll_delete_node free_loop close_gap
ll_delete_range at range l =
    if range ==ℤ pos 0
    then ok l
    else if range ==ℤ pos 1
    then (if at == 0 then stop abort else ll_delete_node at l)
    else do
      prev ← (if at == 0 then ok 0 else get_prev at l.heap)
      s ← free_loop (rounds range) at (record { left = l.heap; following = 0; count = l.qty })
      close_gap prev ((at == l.head) || (l.head == 0)) s l

-- With the list comes the pointer that is given back, NULL for an empty list.
unfoldable pub ll_pop : LinkedList → Result (ℕ × LinkedList)
ll_pop l = if l.tail == 0 then ok (0, l) else do
  q ← get_prev l.tail l.heap
  n ← node_at l.tail l.heap
  h ← free_node l.tail l.heap
  h' ← link_next q 0 h
  ok (n.value, record l { heap = h'; head = if q == 0 then 0 else l.head; tail = q })

-- The new head's `next` is written.
unfoldable pub ll_dequeue : LinkedList → Result (ℕ × LinkedList)
ll_dequeue l = if l.head == 0 then ok (0, l) else do
  q ← get_next l.head l.heap
  n ← node_at l.head l.heap
  h ← free_node l.head l.heap
  h' ← link_next q 0 h
  ok (n.value, record l { heap = h'; head = q; tail = if q == 0 then 0 else l.tail })
