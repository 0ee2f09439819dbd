-- ===== src/Mpack/Stream/Message.antt =====
-- mpack_decode_stream (mpack/decode.c) on a socket against mpack_decode_obj on a buffer.
use tag_highlight_nvim.Base.{ℕ, suc, ◌≡◌, ap, List, length, Result, ok, stop, exit, ◌>>=◌}
use tag_highlight_nvim.Mpack.Object.{Obj}
use tag_highlight_nvim.Mpack.Decode.{and_then, lift, expect_array, mpack_decode_obj}
use tag_highlight_nvim.Mpack.Stream.{Socket, Slots, mutex_of, input_fd, mpack_decode_stream}
use tag_highlight_nvim.Mpack.Stream.Recv.{IsOpen, arrived, Agree, both, short, same}
use tag_highlight_nvim.Mpack.Stream.Agree.{do_decode-Agree}

-- The check of mpack_decode_stream on the object, and what it returns.
abbrev checked : Slots → Obj × Socket → Result (Obj × Socket × Slots)
checked slots (o, sock) = expect_array o >>= λ ret. ok (ret, sock, slots)

abbrev returned : Slots → Socket → Result Obj → Result (Obj × Socket × Slots)
returned slots sock x = x >>= λ ret. ok (ret, sock, slots)

array_left :
    (slots : Slots) (sock : Socket) (x : Result Obj) (obj : Obj) (rest : List ℕ)
    → lift x (arrived sock) ≡ ok (obj, rest)
    → (sock' : Socket) × (returned slots sock x ≡ ok (obj, sock', slots)) × (arrived sock' ≡ rest)
array_left slots sock (stop e) obj rest h = cc
array_left slots sock (ok a) obj rest h =
    let same_obj : a ≡ obj = cc in
    let same_rest : arrived sock ≡ rest = cc in
    (sock, ap (λ o. ok (o, sock, slots)) same_obj, same_rest)

runs_on :
    (slots : Slots) (obj : Obj) (rest : List ℕ) {r : Result (Obj × List ℕ)}
    {t : Result (Obj × Socket)}
    → Agree (exit 1) r t
    → and_then r (λ o. lift (expect_array o)) ≡ ok (obj, rest)
    → (sock' : Socket) × ((t >>= checked slots) ≡ ok (obj, sock', slots)) × (arrived sock' ≡ rest)
runs_on slots obj rest (both {a} sock live) h = array_left slots sock (expect_array a) obj rest h
runs_on slots obj rest short h = cc
runs_on slots obj rest (same e) h = cc

-- When there is an entry for the descriptor and its socket is open, mpack_decode_stream returns the
-- object that mpack_decode_obj finds in the bytes of all packets that have come, however they are cut
-- into packets, and leaves the same bytes; more fuel than bytes is enough.
pub mpack_decode_stream-mpack_decode_obj :
    (fd i : ℕ) (slots slots' : Slots) (sock : Socket) (obj : Obj) (rest : List ℕ)
    → IsOpen sock
    → mutex_of (input_fd fd) slots ≡ ok (i, slots')
    → mpack_decode_obj (arrived sock) ≡ ok (obj, rest)
    → (sock' : Socket) × (mpack_decode_stream (suc (length (arrived sock))) fd slots sock
        ≡ ok (obj, sock', slots'))
      × (arrived sock' ≡ rest)
unfolding mpack_decode_stream mpack_decode_obj
mpack_decode_stream-mpack_decode_obj fd i slots slots' sock obj rest live entry h =
    rw entry
      (runs_on slots' obj rest (do_decode-Agree (exit 1) (suc (length (arrived sock))) sock live) h)
