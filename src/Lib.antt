-- ===== src/Lib.antt =====
-- tag-highlight.nvim: a model of the C program under tag-highlight/, which gives Neovim semantic
-- highlighting. The program talks MessagePack with Neovim: event_loop.c reads a message with
-- mpack/decode.c and hands it to event_handlers.c, which takes it apart with mpack_expect of
-- mpack/mpack.c; the functions of nvim_api/ write requests with mpack_encode_fmt, which calls the
-- encoders of mpack/encode.c. Buffers, tags and pending calls are kept in the containers of util/;
-- the lines of a buffer are a linked list. Modelled are the MessagePack code, the arrays of
-- pointers, the linked lists, the handling of a message of Neovim up to the changes of a buffer's
-- lines, the opening of buffers, and the search for identifiers. All paths below are under
-- tag-highlight/src.
--
-- Base: the library names that are shared, Boolean tests on numbers, lists measured by native
--   numbers (Base/Lists), how a run ends (Base/Outcome: err and errx, abort and failed assertions,
--   undefined behaviour; runs with a property of their result), bit operations (Base/Bits) and
--   signed integers, of which int has 32 bits and no overflow (Base/Int).
-- Mpack/Object, Mpack/Wire: struct mpack_object of mpack/mpack.h; integers in memory and the
--   MY_BSWAP_* of util/util.h, on a little-endian host.
-- Mpack/Mask, Mpack/Mask/Class: m_masks of mpack/data.c, id_pack_type of mpack/decode.c, and the
--   classes of first bytes in the MessagePack format.
-- Mpack/Bstring: the functions of contrib/bstring that the encoders call, as an interface with
--   what they document (allocation gives the room that is asked for, concatenation appends), and a
--   write `D[L++] = x`, which is undefined behaviour past the allocated length.
-- Mpack/Encode, with Encode/Header (the bytes), Encode/Format (what bytes stand for in the
--   MessagePack format, on its own) and Encode/Room (the writes against the room): mpack/encode.c,
--   one function per encoder.
-- Mpack/Decode, with Decode/Fuel: mpack/decode.c over an abstract read_fn; do_decode is on fuel,
--   and one more than the number of bytes is enough, as each object takes a byte. obj_read is the
--   reader of mpack_decode_obj, whose state is the rest of the string.
-- Mpack/Stream: stream_read of mpack/decode.c, on a socket that is a sequence of packets, and
--   mpack_decode_stream with its table of mutexes (as many entries as the list has; the program
--   has 128). A call of recv takes a unit of fuel, and the number of bytes is enough, as a packet
--   has a byte. Stream/Recv and Stream/Agree compare the two readers, Stream/Message the two entry
--   points, Stream/Slots is about the table.
-- Mpack/Message: messages as trees, the sequence of encoder calls for one (encode_value), its
--   bytes (Message/Bytes), the run of the calls (Message/Total), the object that it stands for and
--   the one that the decoder makes of it (Message/Meaning), and the way back (Message/Front,
--   Sizes, Numbers, RoundTrip).
-- Mpack/Format, Mpack/Args, Mpack/Fmt: mpack_encode_fmt of mpack/mpack.c. `count_loop` of Format
--   is the first loop, which finds the lengths of the containers; Args has the three sources of
--   arguments; `emit_loop` of Fmt is the second loop, which takes arguments and calls the
--   encoders. Both are recursions on the format; a stack holds 128 items and an access past it is
--   undefined. Fmt/Count, Fmt/Chars and Fmt/Emit follow the loops on a message's format,
--   Fmt/Message joins them.
-- Mpack/Expect: mpack_expect, mpack_array_to_blist, mpack_dict_get_key and
--   attempt_to_interpret_ext of mpack/mpack.c. The `goto retry` is a recursion on fuel; an object
--   of the expected type takes one step, and Expect/Retry has the cases that end and one that does
--   not for any fuel. Expect/Ext is about the handles of Neovim.
-- Util/Genlist: util/generic_list.c, an array as the list of its cells, some of them unwritten.
--   `Holds` of Genlist/Items relates it to the sequence of its items; Genlist/Ends is about pop,
--   dequeue and copy, Genlist/Grow has the operations that make room, Genlist/Remove those that
--   remove, Genlist/Argv the string vectors.
-- Util/LinkedList: util/linked_list.c. A heap gives the node at an address; talloc gives addresses
--   in order, and a freed node is not there any more. LinkedList/Remove, At and Blist have the
--   other operations. LinkedList/Cells has the list of a sequence of nodes (list_of), Gap a
--   sequence that is cut in two, Ends the members of the list. Insert, InsertOne, Chain, Tie,
--   InsertBlist, InsertMany and InsertRange are about what adds nodes, Delete, DeleteNode and Take
--   about what takes them away, Index about ll_at, and Refine joins them. The fuel of a walk is a
--   bound on the nodes it meets, and the number of nodes is enough. ll_destroy and
--   ll_join_bstrings are left out.
-- Events: handle_line_event of event_handlers.c with what it calls; the rounds of
--   line_event_multi_op are as many as its loop has. Events/Lines relates a list of lines to its
--   strings, Replace and Rounds are about the replacement of lines, Change about the whole change,
--   Event about the event, and Handle about the array that Neovim sends. Dispatch has
--   handle_nvim_message and the handlers that it calls, with find_buffer of buffer.c and
--   mpack_index of mpack/mpack.h; the threads that they start are noted in the World. Index is
--   about mpack_index, and Message about a message from its arrival on. Wait has
--   handle_nvim_response; a round of its loop is one step on the queue, no other thread takes part
--   meanwhile, and a round more than there are nodes in front of the one that is looked for is
--   enough.
-- Buffers: get_initial_lines of buffer.c on the linked lists (Buffers/Initial), and new_buffer on
--   the nodes of buffer_list (Buffers/Nodes, with the theorems in Buffers/New). buffer_list is the
--   list of the addresses of its nodes, and a freed node is not there any more.
-- Lang/Tok: lang/ctags_scan/tok.c on the bytes of a buffer in front of its NUL; each token takes a
--   unit of fuel, and one more than the bytes is enough. Tok/Words describes the words of a
--   buffer, Tok/Blocks what is appended for one.
--
-- Numbers of w bits are natural numbers with their wrap-around written out; a signed integer in a
-- message is its 64-bit pattern, and int is the type of Base/Int. The MessagePack code is that of
-- a build without DEBUG. Assertions are checked, which a Release build leaves out: the two do the
-- same on a run on which the assertions hold, as they do on every run that a theorem gives the
-- result of. talloc is taken to succeed and its parents are not modelled; an operation under a
-- mutex is one step.
--
-- Not modelled: destroy_buffer and the project directories of buffer.c, event_autocmd, the threads
-- that the handlers start, the event loop, the calls of nvim_api/, the rest of lang/, archives,
-- settings and log output; and libraries that the program links.
pub mod Base
pub mod Mpack
pub mod Util
pub mod Events
pub mod Buffers
pub mod Lang
