-- ===== src/Util/LinkedList/Blist.antt =====
-- The operations of util/linked_list.c that move a range of a list of strings into a linked list.
use Prim.{tt}
use tag_highlight_nvim.Base.{
  ℕ, zero, suc, ◌-◌, Bool, true, false, not, ◌||◌, ◌&&◌, List, [], ◌∷◌, none, some, ltb, leb, ◌==◌,
  if◌then◌else◌, length, Result, ok, stop, exit, abort, undefined, ◌>>=◌,
}
use tag_highlight_nvim.Base.Int.{ℤ, pos, negsuc, ◌+ℤ◌, succ, int}
use tag_highlight_nvim.Util.LinkedList.{
  Heap, LinkedList, get_next, get_prev, set_next, set_prev, link_next, link_prev, place, head_after,
  tail_after, head_before, tail_before, ll_insert_after, ll_insert_before,
}

-- The pointers of a b_list, whose `qty` is their number.
abbrev pub Pointers : Type 0
Pointers = List ℕ

abbrev pub resolve_negative_index : ℤ → ℤ → ℤ
resolve_negative_index (pos i) base = pos i
resolve_negative_index (negsuc i) base = negsuc i +ℤ base +ℤ pos 1

-- ASSERTIONS
abbrev pub assertions : ℤ → ℤ → ℕ → Result (ℕ × ℕ)
assertions (pos start) (pos end) qty =
    if (ltb 0 end || (start == end)) && (leb start end && (ltb 0 qty && leb end qty))
    then ok (start, end)
    else stop (exit 50)
assertions start end qty = stop (exit 50)

abbrev pub assert : Bool → Result (Unit {0})
assert b = if b then ok tt else stop abort

-- `blist->lst[i]`
unfoldable pub string_at : ℕ → Pointers → Result ℕ
string_at i [] = stop undefined
string_at zero (s ∷ ss) = ok s
string_at (suc i) (s ∷ ss) = string_at i ss

-- `talloc_move(node, &blist->lst[i])`, which leaves NULL.
unfoldable pub move_out : ℕ → Pointers → Result (ℕ × Pointers)
move_out i [] = stop undefined
move_out zero (s ∷ ss) = ok (s, 0 ∷ ss)
move_out (suc i) (s ∷ ss) = move_out i ss >>= λ r. ok (r.0, s ∷ r.1)

-- The new nodes: the heap, the address of the last one, and what else has changed.
pub record Chain : Type 0 where
  pub nodes : Heap
  pub last : ℕ
  pub count : ℤ
  pub blist : Pointers

-- `narr[i]` for the string at `x`, the number of nodes left first; narr[i - 1] is at `s.last`.
unfoldable pub create_nodes : ℕ → ℕ → ℕ → Chain → Result Chain
unfolding int move_out
create_nodes zero i x s = ok s
create_nodes (suc n) i x s = do
  _ ← assert (ltb i (length s.blist))
  v ← string_at x s.blist
  _ ← assert (not (v == 0))
  r ← move_out x s.blist
  h ← set_next s.last (suc s.last) (place (suc s.last) r.0 (some s.last) none s.nodes)
  qty ← int (succ s.count)
  create_nodes n (suc i) (suc x) (record { nodes = h; last = suc s.last; count = qty; blist = r.1 })

-- narr[0], its `prev` perhaps written, and the others. An array of no element has no narr[0].
unfoldable pub chain : ℕ → ℕ → Bool → ℕ → LinkedList → Pointers → Result Chain
unfolding create_nodes
chain diff start known at l blist = if diff == 0 then stop undefined else do
  r ← move_out start blist
  qty ← int (succ l.qty)
  create_nodes (diff - 1) 1 (suc start) (record {
    nodes = place l.fresh r.0 (if known then some at else none) none l.heap;
    last = l.fresh;
    count = qty;
    blist = r.1;
  })

-- The chain's ends tied in behind `at`.
unfoldable pub tie_after : ℕ → ℕ → Chain → Result Heap
tie_after at n s = if at == 0 then set_next s.last 0 s.nodes else do
  q ← get_next at s.nodes
  h ← set_next s.last q s.nodes
  h' ← set_next at n h
  q' ← get_next s.last h'
  link_prev q' s.last h'

-- The same in front of `at`.
unfoldable pub tie_before : ℕ → ℕ → Chain → Result Heap
tie_before at n s = do
  h ← set_next s.last at s.nodes
  if at == 0 then set_prev n 0 h else do
    q ← get_prev at h
    h' ← set_prev n q h
    h'' ← set_prev at s.last h'
    q' ← get_prev n h''
    link_next q' n h''

-- From the first string on; the chain's `fresh` is behind its last node.
unfoldable pub ll_insert_blist_after :
    ℕ → Pointers → ℤ → ℤ → LinkedList → Result (Pointers × LinkedList)
unfolding ll_insert_after chain tie_after string_at
ll_insert_blist_after at blist start end l = do
  r ←
      assertions (resolve_negative_index start (pos (length blist)))
        (resolve_negative_index end (pos (length blist))) (length blist)
  if r.1 - r.0 == 1
      then (do v ← string_at r.0 blist; l' ← ll_insert_after at v l; ok (blist, l'))
      else do
        s ← chain (r.1 - r.0) r.0 true at l blist
        h ← tie_after at l.fresh s
        ok (
          s.blist,
          record {
            heap = h;
            fresh = suc s.last;
            head = head_after l.fresh l;
            tail = tail_after at s.last l;
            qty = s.count;
          },
        )

unfoldable pub ll_insert_blist_before :
    ℕ → Pointers → ℤ → ℤ → LinkedList → Result (Pointers × LinkedList)
unfolding ll_insert_before chain tie_before string_at
ll_insert_blist_before at blist start end l = do
  r ←
      assertions (resolve_negative_index start (pos (length blist)))
        (resolve_negative_index end (pos (length blist))) (length blist)
  if r.1 - r.0 == 1
      then (do v ← string_at r.0 blist; l' ← ll_insert_before at v l; ok (blist, l'))
      else do
        s ← chain (r.1 - r.0) r.0 false at l blist
        h ← tie_before at l.fresh s
        ok (
          s.blist,
          record {
            heap = h;
            fresh = suc s.last;
            head = head_before at l.fresh l;
            tail = tail_before s.last l;
            qty = s.count;
          },
        )
