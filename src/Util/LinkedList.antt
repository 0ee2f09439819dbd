-- ===== src/Util/LinkedList.antt =====
-- util/linked_list.c and its types in util/list.h: lists linked both ways. An operation that takes
-- the list's mutex is one step here. The list is not NULL, and talloc gives a node that is asked for.
pub mod Remove
pub mod Cells
pub mod Gap
pub mod Ends
pub mod Insert
pub mod InsertOne
pub mod Refine
mod Tests
pub mod Take
pub mod InsertRange
pub mod Tie
pub mod InsertBlist
pub mod InsertMany
pub mod Chain
pub mod DeleteNode
pub mod Delete
pub mod Index
pub mod At
pub mod Blist
use Prim.{tt}
use tag_highlight_nvim.Base.{
  ℕ, zero, suc, ◌-◌, ◌/◌, Bool, true, false, ◌||◌, ◌&&◌, Option, none, some, ltb, ◌==◌,
  if◌then◌else◌, Result, ok, stop, exit, undefined, ◌>>=◌,
}
use tag_highlight_nvim.Base.Int.{ℤ, pos, negsuc, ◌+ℤ◌, ◌==ℤ◌, ltℤ, succ, pred, int}

-- A pointer is its address, NULL is 0. A member that has not been written is `none`; `value` is the
-- member `data`.
pub record Node : Type 0 where
  pub value : ℕ
  pub prev : Option ℕ
  pub next : Option ℕ

abbrev pub node : ℕ → Option ℕ → Option ℕ → Node
node v p q = record { value = v; prev = p; next = q }

abbrev pub Heap : Type 0
Heap = ℕ → Option Node

abbrev pub no_nodes : Heap
no_nodes a = none

unfoldable pub write : Heap → ℕ → Option Node → Heap
write h p c a = if a == p then c else h a

-- `*p`
unfoldable pub node_at : ℕ → Heap → Result Node
node_at p h =
    if p == 0 then stop undefined else elim (h p) [ none ↦ stop undefined | some n ↦ ok n ]

-- The value of a member.
abbrev pub written : Option ℕ → Result ℕ
written none = stop undefined
written (some q) = ok q

-- `p->next`, `p->prev`
unfoldable pub get_next : ℕ → Heap → Result ℕ
get_next p h = node_at p h >>= λ n. written n.next

unfoldable pub get_prev : ℕ → Heap → Result ℕ
get_prev p h = node_at p h >>= λ n. written n.prev

-- `p->next = q`, `p->prev = q`
unfoldable pub set_next : ℕ → ℕ → Heap → Result Heap
set_next p q h = node_at p h >>= λ n. ok (write h p (some (record n { next = some q })))

unfoldable pub set_prev : ℕ → ℕ → Heap → Result Heap
set_prev p q h = node_at p h >>= λ n. ok (write h p (some (record n { prev = some q })))

-- `talloc_free(p)`
unfoldable pub free_node : ℕ → Heap → Result Heap
free_node p h = node_at p h >>= λ n. ok (write h p none)

-- `if (p) p->next = q`, `if (p) p->prev = q`
abbrev pub link_next : ℕ → ℕ → Heap → Result Heap
link_next p q h = if p == 0 then ok h else set_next p q h

abbrev pub link_prev : ℕ → ℕ → Heap → Result Heap
link_prev p q h = if p == 0 then ok h else set_prev p q h

-- `fresh` is the address of the next node that talloc gives; the one behind it is `suc fresh`.
pub record LinkedList : Type 0 where
  pub heap : Heap
  pub fresh : ℕ
  pub head : ℕ
  pub tail : ℕ
  pub qty : ℤ

-- A new node, some of its members written.
abbrev pub place : ℕ → ℕ → Option ℕ → Option ℕ → Heap → Heap
place n v p q h = write h n (some (node v p q))

abbrev pub ll_make_new : LinkedList
ll_make_new = record { heap = no_nodes; fresh = 1; head = 0; tail = 0; qty = pos 0 }

unfoldable pub ll_prepend : ℕ → LinkedList → Result LinkedList
unfolding int
ll_prepend v l = do
  h ← link_prev l.head l.fresh l.heap
  qty ← int (succ l.qty)
  ok (record {
    heap = place l.fresh v (some 0) (some l.head) h;
    fresh = suc l.fresh;
    head = l.fresh;
    tail = if l.tail == 0 then l.fresh else l.tail;
    qty = qty;
  })

unfoldable pub ll_append : ℕ → LinkedList → Result LinkedList
unfolding int
ll_append v l = do
  h ← link_next l.tail l.fresh l.heap
  qty ← int (succ l.qty)
  ok (record {
    heap = place l.fresh v (some l.tail) (some 0) h;
    fresh = suc l.fresh;
    head = if l.head == 0 then l.fresh else l.head;
    tail = l.fresh;
    qty = qty;
  })

-- The links of a new node `n` behind `at`.
unfoldable pub link_after : ℕ → ℕ → ℕ → Heap → Result Heap
link_after n at v h =
    if at == 0
    then ok (place n v (some at) (some 0) h)
    else do q ← get_next at h; h' ← set_next at n (place n v (some at) (some q) h); link_prev q n h'

-- The links of a new node `n` in front of `at`.
unfoldable pub link_before : ℕ → ℕ → ℕ → Heap → Result Heap
link_before n at v h =
    if at == 0
    then ok (place n v (some 0) (some at) h)
    else do q ← get_prev at h; h' ← set_prev at n (place n v (some q) (some at) h); link_next q n h'

-- `(at && at->next == n) || end == n`, the member read by `get`.
abbrev pub refers : (ℕ → Heap → Result ℕ) → ℕ → ℕ → ℕ → Heap → Result Bool
refers get at n end h =
    if at == 0 then ok (end == n) else get at h >>= λ q. ok ((q == n) || (end == n))

-- ALWAYS_ASSERT
abbrev pub always_assert : Bool → Result (Unit {0})
always_assert b = if b then ok tt else stop (exit 1)

-- The list's ends once the nodes from `n` to `m` are behind or in front of `at`.
abbrev pub head_after : ℕ → LinkedList → ℕ
head_after n l = if l.head == 0 then n else l.head

abbrev pub tail_after : ℕ → ℕ → LinkedList → ℕ
tail_after at m l = if (l.tail == 0) || (at == l.tail) then m else l.tail

abbrev pub head_before : ℕ → ℕ → LinkedList → ℕ
head_before at n l = if (l.head == 0) || (at == l.head) then n else l.head

abbrev pub tail_before : ℕ → LinkedList → ℕ
tail_before m l = if l.tail == 0 then m else l.tail

unfoldable pub ll_insert_after : ℕ → ℕ → LinkedList → Result LinkedList
unfolding link_after int
ll_insert_after at v l = do
  h ← link_after l.fresh at v l.heap
  b ← refers get_next at l.fresh (tail_after at l.fresh l) h
  _ ← always_assert b
  qty ← int (succ l.qty)
  ok (record {
    heap = h;
    fresh = suc l.fresh;
    head = head_after l.fresh l;
    tail = tail_after at l.fresh l;
    qty = qty;
  })

unfoldable pub ll_insert_before : ℕ → ℕ → LinkedList → Result LinkedList
unfolding link_before int
ll_insert_before at v l = do
  h ← link_before l.fresh at v l.heap
  b ← refers get_prev at l.fresh (head_before at l.fresh l) h
  _ ← always_assert b
  qty ← int (succ l.qty)
  ok (record {
    heap = h;
    fresh = suc l.fresh;
    head = head_before at l.fresh l;
    tail = tail_before l.fresh l;
    qty = qty;
  })
