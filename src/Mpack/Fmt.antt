-- ===== src/Mpack/Fmt.antt =====
-- mpack_encode_fmt (mpack/mpack.c): a message from a format string and its arguments, as a build
-- without DEBUG and with assertions runs it. The counters that only a DEBUG build reads are left
-- out, but for the depth of the stacks that hold them.
pub mod Count
pub mod Chars
pub mod Emit
pub mod Message
use tag_highlight_nvim.Base.{
  ℕ, zero, suc, ◌+◌, ◌*◌, ◌/◌, ◌%◌, ◌^◌, ◌-◌, Bool, true, false, not, ◌||◌, List, [], ◌∷◌, ◌++◌,
  Option, none, some, ltb, ◌==◌, if◌then◌else◌, length, get_elem?, Result, ok, stop, exit, abort,
  undefined, ◌>>=◌,
}
use tag_highlight_nvim.Mpack.Bstring.{Bstring, Bstrings}
use tag_highlight_nvim.Mpack.Encode.{
  mpack_make_new, mpack_encode_array, mpack_encode_dictionary, mpack_encode_integer,
  mpack_encode_unsigned, mpack_encode_string, mpack_encode_boolean, mpack_encode_nil,
}
use tag_highlight_nvim.Mpack.Format.{
  Counts, Directive, count_loop, d_array, d_bool, d_bstring, d_close, d_cstring, d_dict, d_ignored,
  d_illegal, d_int, d_long, d_next_row, d_nil, d_rows, d_unsigned, d_valist, directive, stack_size,
  start_counts,
}
use tag_highlight_nvim.Mpack.Args.{
  Arg, Args, Emitter, NextType, Rows, a_rows, a_valist, arg_array, as_bool, as_bstring, as_cstring,
  as_int, as_long, as_ulong, next_arg, next_valist_only, other_valist, own_valist, r_cons, r_end,
}

abbrev pub set_packed : Emitter → Result Bstring → Result Emitter
set_packed e r = r >>= λ p. ok (record e { packed = p })

-- `sub_lengths[len_ctr]`
abbrev in_bounds : Option ℕ → Result ℕ
in_bounds none = stop undefined
in_bounds (some n) = ok n

abbrev sub_length : List ℕ → ℕ → Result ℕ
sub_length lens i = in_bounds (get_elem? lens i)

-- PUSH on both stacks, and ++len_ctr.
abbrev pub push_stacks : Emitter → Result Emitter
push_stacks e =
    if ltb e.stacked stack_size
    then ok (record e { len_ctr = e.len_ctr + 1; stacked = e.stacked + 1 })
    else stop undefined

-- POP of both stacks.
abbrev pop_stacks : ℕ → Emitter → Result Emitter
pop_stacks zero e = stop abort
pop_stacks (suc n) e = ok (record e { stacked = n })

abbrev use_valist : Arg → Emitter → Result Emitter
use_valist (a_valist args) e = ok (record e { ref = some args; next_type = other_valist })
use_valist _ e = stop undefined

abbrev use_rows : Arg → Emitter → Result Emitter
use_rows (a_rows (r_cons row rs)) e = ok (record e { rows = r_cons row rs; next_type = arg_array })
use_rows (a_rows r_end) e = stop abort
use_rows _ e = stop undefined

abbrev next_row : NextType → Rows → Emitter → Result Emitter
next_row arg_array (r_cons row rs) e = ok (record e { rows = rs })
next_row arg_array r_end e = stop undefined
next_row _ _ e = stop abort

module _ (B : Bstrings) (lens : List ℕ) where
  -- The switch of the second loop.
  unfoldable pub emit_char : Directive → Emitter → Result Emitter
  unfolding next_arg next_valist_only
  emit_char d_bool e = next_arg e >>= λ (a, e').
      as_bool e.next_type a >>= λ b. set_packed e' (mpack_encode_boolean B b e'.packed)
  emit_char d_int e = next_arg e >>= λ (a, e').
      as_int e.next_type a >>= λ n. set_packed e' (mpack_encode_integer B n e'.packed)
  emit_char d_long e = next_arg e >>= λ (a, e').
      as_long a >>= λ n. set_packed e' (mpack_encode_integer B n e'.packed)
  emit_char d_unsigned e = next_arg e >>= λ (a, e').
      as_ulong a >>= λ n. set_packed e' (mpack_encode_unsigned B n e'.packed)
  emit_char d_bstring e = next_arg e >>= λ (a, e').
      as_bstring a >>= λ s. set_packed e' (mpack_encode_string B s e'.packed)
  emit_char d_cstring e = next_arg e >>= λ (a, e').
      as_cstring a >>= λ s. set_packed e' (mpack_encode_string B s e'.packed)
  emit_char d_nil e = set_packed e (mpack_encode_nil B e.packed)
  emit_char d_array e = sub_length lens e.len_ctr >>= λ n.
      set_packed e (mpack_encode_array B n e.packed) >>= push_stacks
  emit_char d_dict e = sub_length lens e.len_ctr >>= λ n.
      if n % 2 == 0
      then (set_packed e (mpack_encode_dictionary B (n / 2) e.packed) >>= push_stacks)
      else stop abort
  emit_char d_close e = pop_stacks e.stacked e
  emit_char d_valist e = next_valist_only e >>= λ (a, e'). use_valist a e'
  emit_char d_rows e = next_valist_only e >>= λ (a, e'). use_rows a e'
  emit_char d_next_row e = next_row e.next_type e.rows e
  emit_char d_ignored e = ok e
  emit_char d_illegal e = stop (exit 1)

  -- The second loop.
  unfoldable pub emit_loop : List ℕ → Emitter → Result Emitter
  unfolding emit_char directive
  emit_loop [] e = ok e
  emit_loop (ch ∷ fmt) e = emit_char (directive ch) e >>= λ e'. emit_loop fmt e'

abbrev pub start_emitter : Bstring → Args → Emitter
start_emitter p args = record {
  packed = p;
  len_ctr = 1;
  stacked = 1;
  next_type = own_valist;
  own = args;
  ref = none;
  rows = r_end;
}

abbrev pub fmt_arrsize : ℕ → ℕ
fmt_arrsize size_hint = (128 + size_hint * 6) % 2 ^ 32

-- Behind the first loop: a container left open or a second item exits, no item gives NULL.
unfoldable pub encode_counted : Bstrings → List ℕ → Args → Counts → Result (Option Bstring)
unfolding emit_loop
encode_counted B fmt args c =
    if ltb 0 (length c.len_stack)
    then stop (exit 1)
    else (in_bounds (get_elem? c.sub_lengths 0) >>= λ n.
        if ltb 1 n
        then stop (exit 1)
        else if n == 0
        then ok none
        else (emit_loop B c.sub_lengths fmt (start_emitter (mpack_make_new B) args) >>= λ e.
            ok (some e.packed)))

abbrev pub is_empty : List ℕ → Bool
is_empty [] = true
is_empty (c ∷ cs) = false

unfoldable pub mpack_encode_fmt : Bstrings → ℕ → List ℕ → Args → Result (Option Bstring)
unfolding count_loop encode_counted
mpack_encode_fmt B size_hint fmt args =
    if is_empty fmt
    then stop abort
    else if fmt_arrsize size_hint == 0
    then stop undefined
    else count_loop (fmt_arrsize size_hint) fmt start_counts >>= λ c. encode_counted B fmt args c
