-- ===== src/Events/Dispatch.antt =====
-- The messages of Neovim and the handlers that event_handlers.c gives them to, with find_buffer of
-- buffer.c and mpack_index of mpack/mpack.h.
use tag_highlight_nvim.Base.{
  ℕ, suc, ◌≡◌, ap, ◌%◌, ◌^◌, Bool, false, List, [], ◌∷◌, ◌++◌, Option, none, some, leb, ◌==◌,
  if◌then◌else◌, Result, ok, stop, exit, undefined, ◌>>=◌,
}
use tag_highlight_nvim.Mpack.Object.{Obj, Objs, str, arr}
use tag_highlight_nvim.Mpack.Expect.{
  StringLists, Retval, number, array_ptr, e_num, e_mpack_array, e_mpack_nil, flag, qty,
  mpack_expect,
}
use tag_highlight_nvim.Mpack.Expect.Retry.{Matches, mpack_expect-Matches}
use tag_highlight_nvim.Util.LinkedList.Blist.{Pointers}
use tag_highlight_nvim.Events.{Buffer, item_at, num, handle_line_event}

-- enum event_types
pub data EventType : Type 0 where
  event_buf_lines event_buf_changed_tick event_buf_detach event_vim_update : EventType

-- nvim_buf_lines_event, nvim_buf_changedtick_event, nvim_buf_detach_event, vim_event_update
abbrev pub event_list : List (List ℕ × EventType)
event_list =
    (
      110 ∷ 118 ∷ 105 ∷ 109 ∷ 95 ∷ 98 ∷ 117 ∷ 102 ∷ 95 ∷ 108 ∷ 105 ∷ 110 ∷ 101 ∷ 115 ∷ 95 ∷ 101
          ∷ 118 ∷ 101 ∷ 110 ∷ 116 ∷ [],
      event_buf_lines,
    )
    ∷ (
      110 ∷ 118 ∷ 105 ∷ 109 ∷ 95 ∷ 98 ∷ 117 ∷ 102 ∷ 95 ∷ 99 ∷ 104 ∷ 97 ∷ 110 ∷ 103 ∷ 101 ∷ 100 ∷ 116
          ∷ 105 ∷ 99 ∷ 107 ∷ 95 ∷ 101 ∷ 118 ∷ 101 ∷ 110 ∷ 116 ∷ [],
      event_buf_changed_tick,
    )
    ∷ (
      110 ∷ 118 ∷ 105 ∷ 109 ∷ 95 ∷ 98 ∷ 117 ∷ 102 ∷ 95 ∷ 100 ∷ 101 ∷ 116 ∷ 97 ∷ 99 ∷ 104 ∷ 95 ∷ 101
          ∷ 118 ∷ 101 ∷ 110 ∷ 116 ∷ [],
      event_buf_detach,
    )
    ∷ (
      118 ∷ 105 ∷ 109 ∷ 95 ∷ 101 ∷ 118 ∷ 101 ∷ 110 ∷ 116 ∷ 95 ∷ 117 ∷ 112 ∷ 100 ∷ 97 ∷ 116 ∷ 101
          ∷ [],
      event_vim_update,
    )
    ∷ []

-- A thread that a handler starts: event_autocmd with a message of the plugin, update_highlight and
-- destroy_buffer with a buffer's number, handle_nvim_response with an answer and its descriptor.
pub data Thread : Type 0 where
  autocmd update_highlight destroy_buffer : ℕ → Thread
  response : Obj → ℕ → Thread

-- The nodes of buffer_list, in order.
pub record BufferNode : Type 0 where
  pub num : ℕ
  pub isopen : Bool
  pub bdata : Option Buffer

pub record World : Type 0 where
  pub buffer_list : List BufferNode
  pub threads : List Thread

abbrev pub start : Thread → World → World
start t w = record w { threads = w.threads ++ (t ∷ []) }

-- The first node of a number.
unfoldable pub find_buffer : ℕ → List BufferNode → Option Buffer
find_buffer bufnum [] = none
find_buffer bufnum (n ∷ ns) =
    let rest = find_buffer bufnum ns in
    if n.num == bufnum then (if n.isopen then n.bdata else none) else rest

-- What has been done to the buffer that was found.
unfoldable pub set_buffer : ℕ → Buffer → List BufferNode → List BufferNode
set_buffer bufnum b [] = []
set_buffer bufnum b (n ∷ ns) =
    let rest = set_buffer bufnum b ns in
    if n.num == bufnum then record n { bdata = some b } ∷ ns else n ∷ rest

-- The world after an event for a buffer.
abbrev pub updated : ℕ → World → Buffer × Bool → World
updated bufnum w (b, highlight) = record w {
  buffer_list = set_buffer bufnum b w.buffer_list;
  threads = if highlight then w.threads ++ (update_highlight bufnum ∷ []) else w.threads;
}

-- A tick that is not 0 is the buffer's new tick.
abbrev pub with_tick : ℕ → Buffer → Buffer
with_tick tick b = record b { ctick = if tick == 0 then b.ctick else tick % 2 ^ 32 }

module _ (L : StringLists) where
  -- An index that is the array's length is read.
  unfoldable pub mpack_index : Obj → ℕ → Result (Option Obj)
  unfolding item_at
  mpack_index (arr xs) index =
      if leb index (qty L xs) then (item_at index xs >>= λ o. ok (some o)) else ok none
  mpack_index obj index = ok none

  abbrev pub array_of : Retval L.BList → Result Objs
  array_of (array_ptr xs) = ok xs
  array_of _ = stop undefined

  -- `mpack_expect(o, E_NUM).num`
  abbrev pub expect_number : ℕ → Option Obj → Result ℕ
  expect_number fuel o = mpack_expect L fuel o (flag e_num) false 0 >>= λ r. num L r.0

  pub expect_number-Matches :
      (fuel n : ℕ) (obj : Obj)
      → Matches L e_num obj (number n)
      → expect_number (suc fuel) (some obj) ≡ ok n
  expect_number-Matches fuel n obj m =
      ap (λ r. r >>= λ r. num L r.0) (mpack_expect-Matches L e_num obj (number n) fuel 0 false m)

  module _ (b_iseq : List ℕ → List ℕ → Bool) where
    abbrev pub type_of : List ℕ → List (List ℕ × EventType) → Result EventType
    type_of typename [] = stop (exit 1)
    type_of typename ((name, id) ∷ es) =
        let rest = type_of typename es in if b_iseq typename name then ok id else rest

    abbrev pub type_named : Obj → Result EventType
    type_named (str s) = type_of s event_list
    type_named _ = stop undefined

    unfoldable pub id_event : Obj → Result EventType
    unfolding item_at
    id_event (arr xs) = item_at 1 xs >>= type_named
    id_event _ = stop undefined

    module _ (lst : L.BList → Pointers) (slen : ℕ → ℕ) (empty_string : ℕ) (fuel : ℕ) where
      -- With the buffer comes whether its highlighting is updated.
      unfoldable pub handle_buffer_update : Buffer → Objs → EventType → Result (Buffer × Bool)
      unfolding item_at mpack_expect handle_line_event
      handle_buffer_update bdata arr' type = do
        o ← item_at 1 arr'
        r ← mpack_expect L fuel (some o) (flag e_num) false (flag e_mpack_nil)
        tick ← num L r.0
        handled type (with_tick tick bdata)
        where
          handled : EventType → Buffer → Result (Buffer × Bool)
          handled event_buf_lines b = handle_line_event L lst slen empty_string fuel arr' b >>= λ e.
              ok (e.1, e.1.has_parser)
          handled _ b = ok (b, false)

      abbrev pub buffer_event : EventType → ℕ → Objs → Option Buffer → World → Result World
      buffer_event type bufnum arr' none w = stop (exit 1)
      buffer_event event_buf_detach bufnum arr' (some b) w = ok (start (destroy_buffer bufnum) w)
      buffer_event type bufnum arr' (some b) w =
          handle_buffer_update b arr' type >>= λ r. ok (updated bufnum w r)

      -- The number of a buffer is an unsigned int.
      abbrev pub notified : EventType → Objs → ℕ → World → Result World
      notified event_vim_update arr' n w = ok (start (autocmd n) w)
      notified type arr' n w =
          let bufnum = n % 2 ^ 32 in
          buffer_event type bufnum arr' (find_buffer bufnum w.buffer_list) w

      unfoldable pub handle_nvim_notification : Obj → World → Result World
      unfolding mpack_index id_event handle_buffer_update find_buffer set_buffer mpack_expect
          item_at
      handle_nvim_notification event w = do
        o ← mpack_index event 2
        r ← mpack_expect L fuel o (flag e_mpack_array) false 0
        type ← id_event event
        arr' ← array_of r.0
        o' ← item_at 0 arr'
        n ← expect_number fuel (some o')
        notified type arr' n w

      -- MES_RESPONSE is 1, MES_NOTIFICATION 2.
      unfoldable pub handle_nvim_message : Obj → ℕ → World → Result World
      unfolding handle_nvim_notification
      handle_nvim_message obj fd w = do
        o ← mpack_index obj 0
        n ← expect_number fuel o
        let mtype = n % 2 ^ 32
        if mtype == 2
            then handle_nvim_notification obj w
            else if mtype == 1
            then ok (start (response obj fd) w)
            else stop (exit 1)
