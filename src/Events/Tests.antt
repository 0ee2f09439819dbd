-- ===== src/Events/Tests.antt =====
-- Runs of handle_line_event of event_handlers.c on a buffer of two lines.
use Prim.{tt}
use tag_highlight_nvim.Base.{
  ℕ, suc, ◌≡◌, refl, true, false, not, List, [], ◌∷◌, arith, some, none, ok, stop, exit, undefined,
  Yields,
}
use tag_highlight_nvim.Mpack.Object.{Obj, Objs, arr, nil, unsigned, no_objs, obj_cons}
use tag_highlight_nvim.Mpack.Expect.{mpack_array_to_blist}
use tag_highlight_nvim.Mpack.Expect.Retry.{str_items, unsigned_matches}
use tag_highlight_nvim.Mpack.Samples.{lists, equal, equal_iff}
use tag_highlight_nvim.Events.{Buffer, item_at, handle_line_event}
use tag_highlight_nvim.Events.Samples.{buffer, two-Lines}
use tag_highlight_nvim.Events.Lines.{Lines}
use tag_highlight_nvim.Events.Handle.{lines_event, handle_line_event-Lines, handle_line_event_short}
use tag_highlight_nvim.Events.Dispatch.{
  BufferNode, World, update_highlight, mpack_index, handle_nvim_message,
}
use tag_highlight_nvim.Events.Index.{mpack_index_lem}
use tag_highlight_nvim.Events.Message.{Changed, lines_message, handle_nvim_message-Notified}
use tag_highlight_nvim.Events.Wait.{WaitNode, handle_nvim_response, handle_nvim_response_lem}

abbrev addresses : ℕ → List (List ℕ) → List ℕ
addresses n [] = []
addresses n (s ∷ ss) = n ∷ addresses (suc n) ss

abbrev pointers : List (List ℕ) → List ℕ
pointers = addresses 100

abbrev slen : ℕ → ℕ
slen p = 1

-- The second line replaced by two.
abbrev letters : List (List ℕ)
letters = (65 ∷ []) ∷ (66 ∷ []) ∷ []

handle_line_event-Lines_example :
    Yields
      (λ r.
        (r.0 ≡ false)
        × Lines r.1.lines (10 ∷ 100 ∷ 101 ∷ [])
        × (r.1 ≡ record buffer { lines = r.1.lines; initialized = not r.0 }))
      (handle_line_event lists pointers slen 7 1
        (lines_event nil nil 1 2 (str_items letters) false no_objs)
        buffer)
unfolding mpack_array_to_blist
handle_line_event-Lines_example =
    handle_line_event-Lines lists pointers slen 7 0 nil nil (10 ∷ []) (20 ∷ []) []
      (str_items letters) no_objs letters buffer refl two-Lines (omega arith, (omega arith, tt))
      (omega arith)

abbrev open_node : BufferNode
open_node = record { num = 5; isopen = true; bdata = some buffer }

abbrev world : World
world = record { buffer_list = open_node ∷ []; threads = [] }

handle_nvim_message-Notified_example :
    Yields
      (λ w.
        (b : Buffer) × Changed slen 7 9 (10 ∷ []) (20 ∷ []) [] (100 ∷ 101 ∷ []) buffer b
        × (w ≡ record {
          buffer_list = record open_node { bdata = some b } ∷ [];
          threads = update_highlight 5 ∷ [];
        }))
      (handle_nvim_message lists equal pointers slen 7 1
        (lines_message
          (lines_event (unsigned 5) (unsigned 9) 1 2 (str_items letters) false no_objs))
        0
        world)
unfolding mpack_array_to_blist
handle_nvim_message-Notified_example =
    handle_nvim_message-Notified lists equal pointers slen 7 0 (10 ∷ []) (20 ∷ []) []
      (str_items letters) no_objs letters buffer refl two-Lines (omega arith, (omega arith, tt))
      (omega arith) equal_iff (unsigned 9) (unsigned 5) 9 5 (unsigned_matches 9)
      (unsigned_matches 5) [] [] open_node world refl tt refl refl refl 0

-- An answer that the second of three threads waits for.
abbrev waiting : ℕ → WaitNode
waiting n = record { fd = 1; count = n; obj = none }

abbrev answers : Obj
answers = arr (obj_cons (unsigned 1) (obj_cons (unsigned 4) no_objs))

handle_nvim_response_lem_example :
    handle_nvim_response lists 1 2 answers 0 (waiting 3 ∷ waiting 4 ∷ waiting 5 ∷ [])
    ≡ ok (record (waiting 4) { obj = some answers }, waiting 5 ∷ waiting 3 ∷ [])
handle_nvim_response_lem_example =
    handle_nvim_response_lem lists (unsigned 1) no_objs 4 0 0 2 (unsigned 4) (waiting 3 ∷ [])
      (waiting 5 ∷ []) (waiting 4) (unsigned_matches 4) (omega arith) (refl, tt) refl

abbrev three : Objs
three = obj_cons nil (obj_cons (unsigned 7) (obj_cons nil no_objs))

mpack_index_lem_example :
    ((x : Obj) × (item_at 1 three ≡ ok x) × (mpack_index lists (arr three) 1 ≡ ok (some x)))
    × (mpack_index lists (arr three) 3 ≡ stop undefined)
    × (mpack_index lists (arr three) 5 ≡ ok none)
mpack_index_lem_example = mpack_index_lem lists three 1 1 (omega arith)

handle_line_event_short_example :
    handle_line_event lists pointers slen 7 1 three buffer ≡ stop (exit 1)
handle_line_event_short_example =
    handle_line_event_short lists pointers slen 7 1 three buffer (omega arith)
