-- ===== src/Events/Handle.antt =====
-- handle_line_event of event_handlers.c on the array that Neovim sends.
use tag_highlight_nvim.Base.{
  ℕ, suc, ◌+◌, ◌^◌, ◌≤◌, ◌<◌, ◌≡◌, refl, Bool, false, not, ◌||◌, if◌then◌else◌, Bool-cases, inl,
  inr, List, ◌++◌, ltb, length, length-append, All, arith, ok, stop, exit, undefined, Yields,
  yields, Yields-eq, Yields-bind,
}
use tag_highlight_nvim.Base.Int.{pos, to_int}
use tag_highlight_nvim.Mpack.Object.{Obj, Objs, unsigned, boolean, arr, obj_cons}
use tag_highlight_nvim.Mpack.Expect.{StringLists, qty, mpack_array_to_blist}
use tag_highlight_nvim.Util.LinkedList.Blist.{Pointers}
use tag_highlight_nvim.Events.{Buffer, item_at, handle_line_event}
use tag_highlight_nvim.Events.Index.{item_at_past}
use tag_highlight_nvim.Events.Lines.{Lines}
use tag_highlight_nvim.Events.Change.{ignored}
use tag_highlight_nvim.Events.Event.{new_lines, edit_lines-Lines}

to_int-pos : (k : ℕ) → k < 2 ^ 31 → to_int k ≡ pos k
unfolding to_int
to_int-pos k lt = ground (arith, lt)

-- An array that Neovim sends with its event: the buffer and the tick, the range of lines, their
-- new strings, and whether more is to come.
abbrev pub lines_event : Obj → Obj → ℕ → ℕ → Objs → Bool → Objs → Objs
lines_event buffer tick start end strings more others = obj_cons buffer (
    obj_cons tick (
      obj_cons (unsigned start)
        (obj_cons (unsigned end) (obj_cons (arr strings) (obj_cons (boolean more) others)))))

module _ (L : StringLists) (lst : L.BList → Pointers) (slen : ℕ → ℕ) (e fuel : ℕ) where
  -- An event that reports new strings for a range of a buffer's lines, none of them a NULL pointer,
  -- with nothing more to come, for a well-formed list of lines that stays below 2^31: the handler runs
  -- to its end and leaves a well-formed list whose lines are those in front of the range, the new
  -- strings, and those behind the range, whichever of insertion, replacement and deletion this takes;
  -- when that is no line, it leaves one empty line. The exception is the event that is ignored, one
  -- empty string for the first line or in front of it in a buffer of at most one line, whatever that
  -- line is, which leaves the lines as they are. The handler says whether it has ignored the event,
  -- and marks the buffer as initialized when it has not.
  pub handle_line_event-Lines :
      (buffer tick : Obj) (us bs cs : List ℕ) (strings others : Objs) (new : L.BList)
      (bdata : Buffer)
      → mpack_array_to_blist L strings ≡ ok new
      → Lines bdata.lines (us ++ (bs ++ cs))
      → All (λ s. 1 ≤ s) (lst new)
      → length (us ++ (bs ++ cs)) + length (lst new) < 2 ^ 31
      → Yields
          (λ r.
            (r.0 ≡ ignored slen (length (us ++ (bs ++ cs))) (length us) (lst new))
            × Lines r.1.lines (new_lines slen e us bs cs (lst new))
            × (r.1
                ≡ record bdata { lines = r.1.lines; initialized = bdata.initialized || not r.0 }))
          (handle_line_event L lst slen e
            (suc fuel)
            (lines_event buffer tick (length us) (length us + length bs) strings false others)
            bdata)
  unfolding handle_line_event item_at
  handle_line_event-Lines buffer tick us bs cs strings others new bdata made h given lt =
      let six : ltb
            (qty L
              (lines_event buffer tick (length us) (length us + length bs) strings false others))
            5
          ≡ false =
        ground arith in
      let fits = length-append us (bs ++ cs) in
      Yields-eq _
        (rw
          (
            six,
            made,
            to_int-pos (length us) (omega (arith, lt, fits, length-append bs cs)),
            to_int-pos (length us + length bs) (omega (arith, lt, fits, length-append bs cs)),
          )
          refl)
        (Yields-bind _ _
          (λ x. ok (x.0, record bdata { lines = x.1; initialized = bdata.initialized || not x.0 }))
          (edit_lines-Lines slen e bdata.lines us bs cs (lst new) h given lt)
          λ r k. yields (k.0, k.1, refl))

  -- For an array of fewer than five items the handler ends the program with status 1. But it reads the
  -- sixth item: for an array of exactly five items it reads past the array's end.
  pub handle_line_event_short :
      (items : Objs) (bdata : Buffer)
      → qty L items ≤ 5
      → handle_line_event L lst slen e fuel items bdata
        ≡ stop (if ltb (qty L items) 5 then exit 1 else undefined)
  unfolding handle_line_event
  handle_line_event_short items bdata le = elim (Bool-cases (ltb (qty L items) 5)) [
    | inl few ↦ rw few refl
    | inr enough ↦
        let five : qty L items ≡ 5 = ground arith in
        let past : item_at 5 items ≡ stop undefined = rw five at (item_at_past L items) in
        rw (enough, past) refl
  ]
