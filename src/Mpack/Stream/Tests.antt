-- ===== src/Mpack/Stream/Tests.antt =====
-- Runs of mpack_decode_stream (mpack/decode.c) and its theorems at a message in two packets.
use Prim.{tt}
use tag_highlight_nvim.Base.{◌≡◌, refl, [], ◌∷◌, none, some, arith, ok, stop, blocked, out_of_fuel}
use tag_highlight_nvim.Mpack.Object.{Obj, arr, obj_cons, no_objs, unsigned, nil}
use tag_highlight_nvim.Mpack.Wire.{of_le}
use tag_highlight_nvim.Mpack.Decode.{do_decode, mpack_decode_obj}
use tag_highlight_nvim.Mpack.Stream.{
  Socket, packet, waiting, closed, Slots, mutex_of, mpack_decode_stream, recv_loop, stream_read,
}
use tag_highlight_nvim.Mpack.Stream.Recv.{Agree, IsOpen, arrived, buffer_read, recv_loop_ends}
use tag_highlight_nvim.Mpack.Stream.Agree.{do_decode-Agree}
use tag_highlight_nvim.Mpack.Stream.Slots.{Assigns, mutex_of-Assigns}
use tag_highlight_nvim.Mpack.Stream.Message.{mpack_decode_stream-mpack_decode_obj}

-- [1, nil], cut behind the first byte, and a byte of the next message.
abbrev two_packets : Socket
two_packets = packet (0x92 ∷ []) (packet (0x01 ∷ 0xC0 ∷ 0x90 ∷ []) waiting)

two_packets-IsOpen : IsOpen two_packets
two_packets-IsOpen = (omega arith, (omega arith, tt))

abbrev one_nil : Obj
one_nil = arr (obj_cons (unsigned 1) (obj_cons nil no_objs))

one_nil_run : mpack_decode_obj (arrived two_packets) ≡ ok (one_nil, 0x90 ∷ [])
unfolding mpack_decode_obj of_le
one_nil_run = refl

abbrev slots : Slots
slots = some 7 ∷ none ∷ none ∷ []

mutex_run : mutex_of 0 slots ≡ ok (1, some 7 ∷ some 0 ∷ none ∷ [])
unfolding mutex_of
mutex_run = refl

do_decode-Agree_example :
    Agree blocked
      (do_decode (buffer_read blocked) 5 (arrived two_packets))
      (do_decode stream_read 5 two_packets)
do_decode-Agree_example = do_decode-Agree blocked 5 two_packets two_packets-IsOpen

mpack_decode_stream-mpack_decode_obj_example :
    (sock : Socket) × (mpack_decode_stream 5 1 slots two_packets
      ≡ ok (one_nil, sock, some 7 ∷ some 0 ∷ none ∷ []))
    × (arrived sock ≡ 0x90 ∷ [])
mpack_decode_stream-mpack_decode_obj_example =
    mpack_decode_stream-mpack_decode_obj 1 1 slots (some 7 ∷ some 0 ∷ none ∷ []) two_packets one_nil
      (0x90 ∷ []) two_packets-IsOpen mutex_run one_nil_run

mutex_of-Assigns_example : Assigns 0 0 slots (mutex_of 0 slots)
mutex_of-Assigns_example = mutex_of-Assigns 0 slots

recv_loop_ends_example : recv_loop 9 4 (packet (1 ∷ 2 ∷ []) closed) ≡ stop out_of_fuel
recv_loop_ends_example = recv_loop_ends 9 4 (1 ∷ 2 ∷ []) (omega arith)
