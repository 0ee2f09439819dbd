-- ===== src/Events.antt =====
-- event_handlers.c: what is done to the lines of a buffer when Neovim reports that they have changed.
-- A handler runs under the buffer's mutex, as one step.
pub mod Lines
pub mod Replace
pub mod Rounds
pub mod Change
pub mod Event
pub mod Handle
pub mod Dispatch
pub mod Index
pub mod Message
pub mod Wait
pub mod Samples
mod Tests
use tag_highlight_nvim.Base.{
  ℕ, zero, suc, ◌+◌, Bool, true, false, not, ◌||◌, ◌&&◌, List, [], ◌∷◌, some, ltb, ◌==◌,
  if◌then◌else◌, length, Result, ok, stop, exit, undefined, ◌>>=◌,
}
use tag_highlight_nvim.Base.Int.{ℤ, pos, negsuc, ◌+ℤ◌, neg, ◌==ℤ◌, ltℤ, succ, pred, int, to_int}
use tag_highlight_nvim.Mpack.Object.{Obj, Objs, boolean, no_objs, obj_cons}
use tag_highlight_nvim.Mpack.Expect.{
  StringLists, Retval, null, number, blist_ptr, e_num, e_strlist, flag, qty, mpack_expect,
}
use tag_highlight_nvim.Util.LinkedList.{Heap, LinkedList, write, node_at, ll_append}
use tag_highlight_nvim.Util.LinkedList.At.{ll_at}
use tag_highlight_nvim.Util.LinkedList.Remove.{rounds, ll_delete_range}
use tag_highlight_nvim.Util.LinkedList.Blist.{
  Pointers, move_out, ll_insert_blist_after, ll_insert_blist_before,
}

-- `node->data = p`, the old string freed.
unfoldable pub set_data : ℕ → ℕ → Heap → Result Heap
set_data at p h = node_at at h >>= λ n. ok (write h at (some (record n { value = p })))

-- With the list comes what is left of the new strings.
unfoldable pub replace_line : Pointers → ℤ → ℕ → LinkedList → Result (Pointers × LinkedList)
unfolding ll_at set_data move_out
replace_line strings lineno index l = do
  at ← ll_at lineno l
  r ← move_out index strings
  h ← set_data at r.0 l.heap
  ok (r.1, record l { heap = h })

-- ll_delete_range_at, ll_insert_blist_before_at and ll_insert_blist_after_at; the last two from a
-- string to the end.
unfoldable pub ll_delete_range_at : ℤ → ℤ → LinkedList → Result LinkedList
unfolding ll_at ll_delete_range
ll_delete_range_at index range l = ll_at index l >>= λ at. ll_delete_range at range l

unfoldable pub insert_before_at : ℤ → Pointers → ℕ → LinkedList → Result LinkedList
unfolding ll_at ll_insert_blist_before
insert_before_at index strings i l = do
  at ← ll_at index l
  r ← ll_insert_blist_before at strings (pos i) (negsuc 0) l
  ok r.1

unfoldable pub insert_after_at : ℤ → Pointers → ℕ → LinkedList → Result LinkedList
unfolding ll_at ll_insert_blist_after
insert_after_at index strings i l = do
  at ← ll_at index l
  r ← ll_insert_blist_after at strings (pos i) (negsuc 0) l
  ok r.1

-- The loop of line_event_multi_op, the number of rounds left first; `modify` is num_to_modify.
unfoldable pub multi_op_loop : ℤ → ℤ → ℕ → ℕ → ℕ → ℤ → Pointers → LinkedList → Result LinkedList
unfolding int replace_line ll_delete_range_at insert_before_at insert_after_at
multi_op_loop first olen num_new zero i modify strings l = ok l
multi_op_loop first olen num_new (suc n) i modify strings l = do
  index ← int (first +ℤ pos i)
  if ltℤ (pos 0) modify && ltℤ (pos i) olen
      then (if ltb i num_new
          then (do
            r ← replace_line strings index i l
            multi_op_loop first olen num_new n (suc i) (pred modify) r.0 r.1)
          else ll_delete_range_at index (succ (pred modify)) l)
      else if ltℤ index l.qty
      then insert_before_at index strings i l
      else insert_after_at index strings i l

-- MAXOF
abbrev pub maxof : ℤ → ℤ → ℤ
maxof a b = if ltℤ b a then a else b

-- The number of strings fits an int.
unfoldable pub line_event_multi_op : Pointers → ℤ → ℤ → LinkedList → Result LinkedList
unfolding multi_op_loop
line_event_multi_op strings first modify l =
    multi_op_loop first l.qty (length strings) (rounds (maxof modify (pos (length strings)))) 0
      modify strings l

-- Nothing but one empty string.
abbrev pub only_empty : (ℕ → ℕ) → Pointers → Bool
only_empty slen (s ∷ []) = slen s == 0
only_empty slen _ = false

-- A buffer has at least one line.
unfoldable pub pad_lines : ℕ → LinkedList → Result LinkedList
unfolding ll_append
pad_lines empty_string l = if l.qty ==ℤ pos 0 then ll_append empty_string l else ok l

-- The lines once an event is applied, and whether it was ignored. `slen` is the length of the string
-- that a pointer refers to, `empty_string` what b_create(0) gives.
module _ (slen : ℕ → ℕ) where
  unfoldable pub change_lines : Pointers → ℤ → ℤ → ℤ → LinkedList → Result (Bool × LinkedList)
  unfolding line_event_multi_op insert_before_at ll_delete_range_at
  change_lines [] first last diff l =
      if first ==ℤ last
      then ok (false, l)
      else (ll_delete_range_at first diff l >>= λ l'. ok (false, l'))
  change_lines (s ∷ ss) first last diff l =
      if last ==ℤ negsuc 0
      then stop (exit 1)
      else if not (ltℤ (pos 1) l.qty) && ((first ==ℤ pos 0) && only_empty slen (s ∷ ss))
      then ok (true, l)
      else if (first ==ℤ pos 0) && (last ==ℤ pos 0)
      then (insert_before_at first (s ∷ ss) 0 l >>= λ l'. ok (false, l'))
      else (line_event_multi_op (s ∷ ss) first diff l >>= λ l'. ok (false, l'))

  unfoldable pub edit_lines : ℕ → Pointers → ℤ → ℤ → LinkedList → Result (Bool × LinkedList)
  unfolding change_lines pad_lines int
  edit_lines empty_string strings first last l = do
    diff ← int (last +ℤ neg first)
    r ← change_lines strings first last diff l
    l' ← pad_lines empty_string r.1
    ok (r.0, l')

-- The members of struct bufdata that the handlers use; `has_parser` is its file type's.
pub record Buffer : Type 0 where
  pub lines : LinkedList
  pub initialized : Bool
  pub ctick : ℕ
  pub has_parser : Bool

-- `arr->lst[i]`
unfoldable pub item_at : ℕ → Objs → Result Obj
item_at i no_objs = stop undefined
item_at zero (obj_cons x xs) = ok x
item_at (suc i) (obj_cons x xs) = item_at i xs

-- `->boolean`, of an object that holds one.
abbrev pub boolean_of : Obj → Result Bool
boolean_of (boolean b) = ok b
boolean_of _ = stop undefined

module _ (L : StringLists) where
  -- `.num` and `.ptr`
  abbrev pub num : Retval L.BList → Result ℕ
  num (number n) = ok n
  num null = ok 0
  num _ = stop undefined

  abbrev pub ptr : Retval L.BList → Result L.BList
  ptr (blist_ptr b) = ok b
  ptr _ = stop undefined

  abbrev pub expect_int : ℕ → Obj → Result ℤ
  expect_int fuel obj = do
    r ← mpack_expect L fuel (some obj) (flag e_num) true 0
    n ← num r.0
    ok (to_int n)

  module _ (lst : L.BList → Pointers) (slen : ℕ → ℕ) (empty_string : ℕ) where
    -- With the buffer comes whether the event was ignored. `fuel` is mpack_expect's.
    unfoldable pub handle_line_event : ℕ → Objs → Buffer → Result (Bool × Buffer)
    unfolding edit_lines item_at mpack_expect to_int
    handle_line_event fuel arr bdata = if ltb (qty L arr) 5 then stop (exit 1) else do
      continued ← item_at 5 arr >>= boolean_of
      if continued then stop (exit 1) else do
        first ← item_at 2 arr >>= expect_int fuel
        last ← item_at 3 arr >>= expect_int fuel
        r ← item_at 4 arr >>= λ o. mpack_expect L fuel (some o) (flag e_strlist) true 0
        strings ← ptr r.0
        e ← edit_lines slen empty_string (lst strings) first last bdata.lines
        ok (e.0, record bdata { lines = e.1; initialized = bdata.initialized || not e.0 })
