-- ===== src/Events/Message.antt =====
-- The message of Neovim that reports changed lines, from its arrival to the buffer's lines
-- (event_handlers.c).
use tag_highlight_nvim.Base.{
  ℕ, suc, ◌+◌, ◌%◌, ◌^◌, ◌≤◌, ◌<◌, ◌≡◌, ◌↔◌, refl, ap, ◌∙◌, Bool, true, false, not, ◌||◌, List, [],
  ◌∷◌, ◌++◌, some, ◌==◌, if◌then◌else◌, length, All, ok, Yields, yields, Yields-eq, Yields-bind,
  ◌>>=◌,
}
use tag_highlight_nvim.Mpack.Object.{Obj, Objs, unsigned, str, arr, no_objs, obj_cons}
use tag_highlight_nvim.Mpack.Expect.{StringLists, number, e_num, mpack_array_to_blist}
use tag_highlight_nvim.Mpack.Expect.Retry.{
  Matches, signed_matches, unsigned_matches, handle_matches,
}
use tag_highlight_nvim.Util.LinkedList.Blist.{Pointers}
use tag_highlight_nvim.Events.{Buffer, handle_line_event}
use tag_highlight_nvim.Events.Lines.{Lines}
use tag_highlight_nvim.Events.Change.{ignored}
use tag_highlight_nvim.Events.Event.{new_lines}
use tag_highlight_nvim.Events.Handle.{lines_event, handle_line_event-Lines}
use tag_highlight_nvim.Events.Dispatch.{
  event_buf_lines, update_highlight, BufferNode, World, with_tick, find_buffer, set_buffer,
  handle_buffer_update, updated, buffer_event, handle_nvim_notification, handle_nvim_message,
  notified, expect_number-Matches,
}

find_buffer-open :
    (k : ℕ) (before behind : List BufferNode) (node : BufferNode) (b : Buffer)
    → All (λ n. (n.num == k) ≡ false) before
    → (node.num == k) ≡ true
    → node.isopen ≡ true
    → node.bdata ≡ some b
    → find_buffer k (before ++ (node ∷ behind)) ≡ some b
unfolding find_buffer
find_buffer-open k [] behind node b others is open' data' = rw (is, open') data'
find_buffer-open k (n ∷ before) behind node b others is open' data' =
    rw others.0 (find_buffer-open k before behind node b others.1 is open' data')

set_buffer-append :
    (k : ℕ) (before behind : List BufferNode) (node : BufferNode) (b : Buffer)
    → All (λ n. (n.num == k) ≡ false) before
    → (node.num == k) ≡ true
    → set_buffer k b (before ++ (node ∷ behind))
      ≡ before ++ (record node { bdata = some b } ∷ behind)
unfolding set_buffer
set_buffer-append k [] behind node b others is = rw is refl
set_buffer-append k (n ∷ before) behind node b others is =
    rw others.0 (ap (λ ns. n ∷ ns) (set_buffer-append k before behind node b others.1 is))

-- nvim_buf_lines_event
abbrev name : List ℕ
name =
    110 ∷ 118 ∷ 105 ∷ 109 ∷ 95 ∷ 98 ∷ 117 ∷ 102 ∷ 95 ∷ 108 ∷ 105 ∷ 110 ∷ 101 ∷ 115 ∷ 95 ∷ 101 ∷ 118
    ∷ 101 ∷ 110 ∷ 116 ∷ []

-- The notification: its type, the event's name, the event's items.
abbrev pub lines_message : Objs → Obj
lines_message items =
    arr (obj_cons (unsigned 2) (obj_cons (str name) (obj_cons (arr items) no_objs)))

module _ (slen : ℕ → ℕ) (e : ℕ) where
  -- What a buffer has become after an event with a tick and new strings for the lines in the middle.
  pub record Changed (t : ℕ) (us bs cs news : List ℕ) (b b' : Buffer) : Type 0 where
    pub new : Lines b'.lines (new_lines slen e us bs cs news)
    pub is : b' ≡ record (with_tick t b) {
      lines = b'.lines;
      initialized =
          b.initialized || not (ignored slen (length (us ++ (bs ++ cs))) (length us) news);
    }

module _ (L : StringLists) (b_iseq : List ℕ → List ℕ → Bool) (lst : L.BList → Pointers)
    (slen : ℕ → ℕ) (e fuel : ℕ) (us bs cs : List ℕ) (strings others : Objs) (new : L.BList)
    (b : Buffer) (made : mpack_array_to_blist L strings ≡ ok new)
    (h : Lines b.lines (us ++ (bs ++ cs))) (given : All (λ s. 1 ≤ s) (lst new))
    (lt : length (us ++ (bs ++ cs)) + length (lst new) < 2 ^ 31) where
  abbrev event : Obj → Obj → Objs
  event buffer tick =
      lines_event buffer tick (length us) (length us + length bs) strings false others

  abbrev Handled : ℕ → Buffer × Bool → Type 0
  Handled t r = Changed slen e t us bs cs (lst new) b r.0 × (r.1 ≡ b.has_parser)

  line_event-Handled :
      (buffer tick : Obj) (t : ℕ)
      → Yields (Handled t) (
          handle_line_event L lst slen e (suc fuel) (event buffer tick) (with_tick t b) >>= λ r.
          ok (r.1, r.1.has_parser))
  line_event-Handled buffer tick t =
      Yields-bind _ (Handled t) (λ r. ok (r.1, r.1.has_parser))
        (handle_line_event-Lines L lst slen e fuel buffer tick us bs cs strings others new
          (with_tick t b) made h given lt)
        λ r k. yields (
          record {
            new = k.1;
            is =
                k.2
                ∙ ap
                    (λ i. record (with_tick t b) {
                      lines = r.1.lines;
                      initialized = b.initialized || not i;
                    })
                    k.0;
          },
          ap (λ b'. b'.has_parser) k.2,
        )

  handle_buffer_update-Handled :
      (buffer tick : Obj) (t : ℕ)
      → Matches L e_num tick (number t)
      → Yields (Handled t) (
          handle_buffer_update L b_iseq lst slen e (suc fuel) b (event buffer tick) event_buf_lines)
  unfolding handle_buffer_update
  handle_buffer_update-Handled buffer tick _ (signed_matches n) = line_event-Handled buffer tick n
  handle_buffer_update-Handled buffer tick _ (unsigned_matches n) = line_event-Handled buffer tick n
  handle_buffer_update-Handled buffer tick _ (handle_matches t n v bs' q) =
      Yields-eq _ (rw q refl) (line_event-Handled buffer tick v)

  module _ (same : (s t : List ℕ) → (b_iseq s t ≡ true) ↔ (s ≡ t)) (tick buffer : Obj) (t k : ℕ)
      (ticked : Matches L e_num tick (number t)) (numbered : Matches L e_num buffer (number k))
      (before behind : List BufferNode) (node : BufferNode) (w : World)
      (listed : w.buffer_list ≡ before ++ (node ∷ behind))
      (away : All (λ n. (n.num == k % 2 ^ 32) ≡ false) before)
      (is : (node.num == k % 2 ^ 32) ≡ true) (isopen : node.isopen ≡ true)
      (held : node.bdata ≡ some b) where
    abbrev Notified : World → Type 0
    Notified w' =
        (b' : Buffer) × Changed slen e t us bs cs (lst new) b b'
        × (w' ≡ record w {
          buffer_list = before ++ (record node { bdata = some b' } ∷ behind);
          threads =
              if b.has_parser then w.threads ++ (update_highlight (k % 2 ^ 32) ∷ []) else w.threads;
        })

    updated-Notified : (r : Buffer × Bool) → Handled t r → Notified (updated (k % 2 ^ 32) w r)
    updated-Notified (b', highlight) (changed, parser) = (
      b',
      changed,
      rw (listed, parser, set_buffer-append (k % 2 ^ 32) before behind node b' away is) refl,
    )

    found : find_buffer (k % 2 ^ 32) w.buffer_list ≡ some b
    found = rw listed (find_buffer-open (k % 2 ^ 32) before behind node b away is isopen held)

    found-Notified : Yields Notified (
        buffer_event L b_iseq lst slen e
          (suc fuel)
          event_buf_lines
          (k % 2 ^ 32)
          (event buffer tick)
          (find_buffer (k % 2 ^ 32) w.buffer_list)
          w)
    found-Notified = rw found (
        Yields-bind (Handled t) Notified (λ r. ok (updated (k % 2 ^ 32) w r))
          (handle_buffer_update-Handled buffer tick t ticked) λ r p. yields (updated-Notified r p))

    named : b_iseq name name ≡ true
    named = (same name name).1 refl

    handle_nvim_notification-Notified : Yields Notified (
        handle_nvim_notification L b_iseq lst slen e
          (suc fuel)
          (lines_message (event buffer tick))
          w)
    unfolding handle_nvim_notification
    handle_nvim_notification-Notified =
        Yields-eq _
          (rw named (
            ap
              (λ m. m >>= λ n.
                notified L b_iseq lst slen e (suc fuel) event_buf_lines (event buffer tick) n w)
              (expect_number-Matches L fuel k buffer numbered)))
          found-Notified

    -- A message of Neovim with an event that reports new strings for a range of a buffer's lines, none
    -- of them a NULL pointer, with nothing more to come. b_iseq tests for equality, the items for the
    -- buffer and the tick are numbers, the first node of buffer_list with the buffer's number, taken
    -- as a 32-bit number, is open and holds the buffer, and the buffer's list of lines is well formed
    -- and stays below 2^31: handling the message runs to its end. Of the nodes, that one alone is
    -- changed. Its buffer has the lines that the event leaves, in a well-formed list, the tick,
    -- taken as a 32-bit number, unless it is 0, and is initialized unless the event was ignored. A
    -- thread that updates the buffer's highlighting is started when its file type has a parser, and
    -- no other.
    pub handle_nvim_message-Notified :
        (fd : ℕ)
        → Yields Notified (
            handle_nvim_message L b_iseq lst slen e
              (suc fuel)
              (lines_message (event buffer tick))
              fd
              w)
    unfolding handle_nvim_message
    handle_nvim_message-Notified fd = handle_nvim_notification-Notified
