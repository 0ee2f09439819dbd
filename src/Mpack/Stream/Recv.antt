-- ===== src/Mpack/Stream/Recv.antt =====
-- stream_read (mpack/decode.c) on a socket and obj_read on a buffer with the bytes of its packets.
use tag_highlight_nvim.Base.{
  Bool-cases, inl, inr, ℕ, zero, suc, ◌-◌, ◌≤◌, ◌<◌, ◌≡◌, refl, ap, ◌∙◌, true, false, List, [], ◌∷◌,
  ◌++◌, arith, ltb, leb, if◌then◌else◌, append-nil, length, length-append, length-take, length-drop,
  take, drop, Stop, Result, ok, stop, blocked, out_of_fuel, ◌>>=◌,
}
use tag_highlight_nvim.Mpack.Decode.{Reads, Reader, and_then, lift, pure}
use tag_highlight_nvim.Mpack.Stream.{Socket, packet, closed, waiting, recv, recv_loop, stream_read}

-- An open socket: every packet has a byte, and the stream has not come to its end.
abbrev pub IsOpen : Socket → Type 0
IsOpen (packet bs sock) = (1 ≤ length bs) × IsOpen sock
IsOpen closed = ⊥
IsOpen waiting = Unit {0}

-- The bytes that have come.
abbrev pub arrived : Socket → List ℕ
arrived (packet bs sock) = bs ++ arrived sock
arrived closed = []
arrived waiting = []

-- The bytes at the front of a buffer; what happens where it is too short is given. obj_read exits with
-- status 1 there.
abbrev pub buffer_read : Stop → Reader (List ℕ)
buffer_read e n buf = if ltb (length buf) n then stop e else ok (take n buf, drop n buf)

-- The two runs come to the same value, with the same bytes left; or the first ends as it does where the
-- buffer is too short, and the second waits for more bytes; or both stop for the same reason.
pub data Agree (e : Stop) {A : Type 0} : Result (A × List ℕ) → Result (A × Socket) → Type 0 where
  both : {a : A} (sock : Socket) → IsOpen sock → Agree e (ok (a, arrived sock)) (ok (a, sock))
  short : Agree e (stop e) (stop blocked)
  same : (reason : Stop) → Agree e (stop reason) (stop reason)

abbrev pub Agrees : Stop → {A : Type 0} → Reads (List ℕ) A → Reads Socket A → Type 0
Agrees e m n = (sock : Socket) → IsOpen sock → Agree e (m (arrived sock)) (n sock)

pub bind :
    {e : Stop} {A B : Type 0} {r : Result (A × List ℕ)} {t : Result (A × Socket)}
    (f : A → Reads (List ℕ) B) (g : A → Reads Socket B)
    → Agree e r t
    → ((a : A) → Agrees e (f a) (g a))
    → Agree e (and_then r f) (and_then t g)
bind f g (both {a} sock live) next = next a sock live
bind f g short next = short
bind f g (same r) next = same r

pub lifted :
    {e : Stop} {A : Type 0} (r : Result A) → Agrees e (lift {S = List ℕ} r) (lift {S = Socket} r)
lifted (ok a) sock live = both sock live
lifted (stop r) sock live = same r

take-append_le : (n : ℕ) (xs ys : List ℕ) → n ≤ length xs → take n (xs ++ ys) ≡ take n xs
take-append_le zero xs ys h = refl
take-append_le (suc n) [] ys h = absurd (omega arith)
take-append_le (suc n) (x ∷ xs) ys h = ap (λ zs. x ∷ zs) (take-append_le n xs ys (omega arith))

drop-append_le : (n : ℕ) (xs ys : List ℕ) → n ≤ length xs → drop n (xs ++ ys) ≡ drop n xs ++ ys
drop-append_le zero xs ys h = refl
drop-append_le (suc n) [] ys h = absurd (omega arith)
drop-append_le (suc n) (x ∷ xs) ys h = drop-append_le n xs ys (omega arith)

take_past :
    (xs ys : List ℕ) (n : ℕ) → length xs ≤ n → take n (xs ++ ys) ≡ xs ++ take (n - length xs) ys
take_past [] ys n h = ap (λ m. take m ys) (omega arith)
take_past (x ∷ xs) ys zero h = absurd (omega arith)
take_past (x ∷ xs) ys (suc n) h =
    ap (λ zs. x ∷ zs) (take_past xs ys n (omega arith) ∙ ap (λ m. xs ++ take m ys) (omega arith))

drop_past : (xs ys : List ℕ) (n : ℕ) → length xs ≤ n → drop n (xs ++ ys) ≡ drop (n - length xs) ys
drop_past [] ys n h = ap (λ m. drop m ys) (omega arith)
drop_past (x ∷ xs) ys zero h = absurd (omega arith)
drop_past (x ∷ xs) ys (suc n) h =
    drop_past xs ys n (omega arith) ∙ ap (λ m. drop m ys) (omega arith)

-- A buffer that starts with some of the bytes that are wanted.
buffer_read_past :
    (e : Stop) (xs ys : List ℕ) (n : ℕ)
    → length xs ≤ n
    → buffer_read e n (xs ++ ys)
      ≡ and_then (buffer_read e (n - length xs) ys) (λ rest. pure (xs ++ rest))
buffer_read_past e xs ys n h = elim (Bool-cases (ltb (length ys) (n - length xs))) [
  | inl few ↦
      let few' : ltb (length (xs ++ ys)) n ≡ true = ground (arith, length-append xs ys) in
      rw (few, few')
  | inr many ↦
      let many' : ltb (length (xs ++ ys)) n ≡ false = ground (arith, length-append xs ys) in
      rw (many, many', take_past xs ys n h, drop_past xs ys n h)
]

prefixed :
    {e : Stop} (xs : List ℕ) {r : Result (List ℕ × List ℕ)} {t : Result (List ℕ × Socket)}
    → Agree e r t
    → Agree e (and_then r (λ rest. pure (xs ++ rest))) (t >>= λ (rest, sock). ok (xs ++ rest, sock))
prefixed xs (both sock live) = both sock live
prefixed xs short = short
prefixed xs (same r) = same r

-- The loop of stream_read, with as much fuel as bytes.
recv_loop-Agree :
    (e : Stop) (fuel missing : ℕ)
    → missing ≤ fuel
    → Agrees e (buffer_read e missing) (recv_loop fuel missing)
unfolding recv_loop recv
recv_loop-Agree e fuel zero h sock live =
    let enough : ltb (length (arrived sock)) 0 ≡ false = ground arith in rw enough (both sock live)
recv_loop-Agree e zero (suc missing) h sock live = absurd (omega arith)
recv_loop-Agree e (suc fuel) (suc missing) h (packet bs sock) live =
    elim (Bool-cases (leb (length bs) (suc missing))) [
      | inl whole ↦
          rw (whole, buffer_read_past e bs (arrived sock) (suc missing) (ground arith))
            (prefixed bs
              (recv_loop-Agree e fuel (suc missing - length bs) (omega arith) sock live.1))
      | inr part ↦
          let inside : suc missing ≤ length bs = ground arith in
          let enough : ltb (length (bs ++ arrived sock)) (suc missing) ≡ false =
            ground (arith, length-append bs (arrived sock)) in
          let done : suc missing - length (take (suc missing) bs) ≡ 0 =
            omega (arith, length-take (suc missing) bs) in
          rw
            (
              part,
              enough,
              take-append_le (suc missing) bs (arrived sock) inside,
              drop-append_le (suc missing) bs (arrived sock) inside,
              done,
              append-nil (take (suc missing) bs),
            )
            (both (packet (drop (suc missing) bs) sock)
              (ground (arith, length-drop (suc missing) bs), live.1))
    ]
recv_loop-Agree e (suc fuel) (suc missing) h waiting live =
    let few : ltb 0 (suc missing) ≡ true = ground arith in rw few short
recv_loop-Agree e (suc fuel) (suc missing) h closed live = absurd live

pub stream_read-Agrees : (e : Stop) (n : ℕ) → Agrees e (buffer_read e n) (stream_read n)
unfolding stream_read
stream_read-Agrees e n sock live = recv_loop-Agree e n n (omega arith) sock live

recv_loop_closed : (fuel missing : ℕ) → recv_loop fuel (suc missing) closed ≡ stop out_of_fuel
unfolding recv_loop recv
recv_loop_closed zero missing = refl
recv_loop_closed (suc fuel) missing =
    let same_missing : suc missing - 0 ≡ suc missing = omega arith in
    rw (same_missing, recv_loop_closed fuel missing)

-- At the end of the stream, where recv returns 0, the loop of stream_read asks again and again: it
-- does not end with any number of calls, if the bytes that came are too few.
pub recv_loop_ends :
    (fuel missing : ℕ) (bs : List ℕ)
    → length bs < missing
    → recv_loop fuel missing (packet bs closed) ≡ stop out_of_fuel
unfolding recv_loop recv
recv_loop_ends zero (suc missing) bs h = refl
recv_loop_ends fuel zero bs h = absurd (omega arith)
recv_loop_ends (suc fuel) (suc missing) bs h =
    let whole : leb (length bs) (suc missing) ≡ true = ground arith in
    let left : suc missing - length bs ≡ suc (missing - length bs) = omega arith in
    rw (whole, left, recv_loop_closed fuel (missing - length bs))
