-- ===== src/Mpack/Stream.antt =====
-- The reader from a socket (stream_read of mpack/decode.c, not on Windows) and mpack_decode_stream.
pub mod Recv
pub mod Agree
pub mod Slots
pub mod Message
mod Tests
use tag_highlight_nvim.Base.{
  ℕ, zero, suc, ◌+◌, ◌-◌, ◌≤◌, ◌<◌, Bool, true, false, List, [], ◌∷◌, ◌++◌, Option, none, some, ltb,
  leb, ◌==◌, if◌then◌else◌, length, take, drop, Result, ok, stop, exit, blocked, out_of_fuel, ◌>>=◌,
}
use tag_highlight_nvim.Mpack.Object.{Obj}
use tag_highlight_nvim.Mpack.Decode.{do_decode, expect_array}

-- What recv() will see on a socket: packets, and behind them the end of the stream or nothing yet.
pub data Socket : Type 0 where
  packet : List ℕ → Socket → Socket
  closed : Socket
  waiting : Socket

-- recv() of at most a number of bytes: what there is of the first packet, 0 bytes at the end of the
-- stream.
unfoldable pub recv : ℕ → Socket → Result (List ℕ × Socket)
recv nbytes (packet bs sock) =
    if leb (length bs) nbytes
    then ok (bs, sock)
    else ok (take nbytes bs, packet (drop nbytes bs) sock)
recv nbytes closed = ok ([], closed)
recv nbytes waiting = stop blocked

-- The loop of stream_read for the bytes that are missing; it makes a call of recv per unit of fuel.
unfoldable pub recv_loop : ℕ → ℕ → Socket → Result (List ℕ × Socket)
unfolding recv
recv_loop fuel zero sock = ok ([], sock)
recv_loop zero (suc missing) sock = stop out_of_fuel
recv_loop (suc fuel) (suc missing) sock = recv (suc missing) sock >>= λ (bs, sock').
    recv_loop fuel (suc missing - length bs) sock' >>= λ (rest, sock''). ok (bs ++ rest, sock'')

-- A packet has a byte at least, so there are at most as many calls as bytes.
unfoldable pub stream_read : ℕ → Socket → Result (List ℕ × Socket)
unfolding recv_loop
stream_read nbytes sock = recv_loop nbytes nbytes sock

-- mpack_mutex_list: the file descriptor of each entry that is initialised.
abbrev pub Slots : Type 0
Slots = List (Option ℕ)

-- The first loop of mpack_decode_stream: the entry of a descriptor, from index `i` on.
unfoldable pub find_slot : ℕ → ℕ → Slots → Option ℕ
find_slot fd i [] = none
find_slot fd i (none ∷ slots) = find_slot fd (suc i) slots
find_slot fd i (some fd' ∷ slots) =
    let rest = find_slot fd (suc i) slots in if fd' == fd then some i else rest

-- The second loop: the first free entry is taken.
unfoldable pub take_slot : ℕ → ℕ → Slots → Result (ℕ × Slots)
take_slot fd i [] = stop (exit 1)
take_slot fd i (none ∷ slots) = ok (i, some fd ∷ slots)
take_slot fd i (some fd' ∷ slots) =
    take_slot fd (suc i) slots >>= λ (j, slots'). ok (j, some fd' ∷ slots')

abbrev pub found_slot : ℕ → Slots → Option ℕ → Result (ℕ × Slots)
found_slot fd slots (some i) = ok (i, slots)
found_slot fd slots none = take_slot fd 0 slots

-- The index of a descriptor's mutex, and the table afterwards.
unfoldable pub mutex_of : ℕ → Slots → Result (ℕ × Slots)
unfolding find_slot take_slot
mutex_of fd slots = found_slot fd slots (find_slot fd 0 slots)

-- Descriptor 1 stands for descriptor 0.
abbrev pub input_fd : ℕ → ℕ
input_fd fd = if fd == 1 then 0 else fd

-- The mutexes are free, and are again when it returns.
unfoldable pub mpack_decode_stream : ℕ → ℕ → Slots → Socket → Result (Obj × Socket × Slots)
unfolding mutex_of do_decode stream_read expect_array
mpack_decode_stream fuel fd slots sock = mutex_of (input_fd fd) slots >>= λ (i, slots').
    do_decode stream_read fuel sock >>= λ (obj, sock').
    expect_array obj >>= λ ret. ok (ret, sock', slots')
