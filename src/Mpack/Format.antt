-- ===== src/Mpack/Format.antt =====
-- The format strings of mpack_encode_fmt (mpack/mpack.c) and its first loop, which finds the length
-- of each container.
use tag_highlight_nvim.Base.{
  ℕ, zero, suc, ◌+◌, Bool, ◌||◌, List, [], ◌∷◌, ◌++◌, ltb, ◌==◌, if◌then◌else◌, length, Result, ok,
  stop, exit, abort, undefined, ◌>>=◌,
}

-- The case labels of the two switches.
pub data Directive : Type 0 where
  d_bool d_int d_long d_unsigned d_bstring d_cstring d_nil : Directive
  d_array d_dict d_close d_valist d_rows d_next_row d_ignored d_illegal : Directive

either : ℕ → ℕ → ℕ → Bool
either a b ch = (ch == a) || (ch == b)

unfoldable pub directive : ℕ → Directive
unfolding either
directive ch =
    if either b'b' b'B' ch
    then d_bool
    else if either b'd' b'D' ch
    then d_int
    else if either b'l' b'L' ch
    then d_long
    else if either b'u' b'U' ch
    then d_unsigned
    else if either b's' b'S' ch
    then d_bstring
    else if either b'c' b'C' ch
    then d_cstring
    else if either b'n' b'N' ch
    then d_nil
    else if ch == b'['
    then d_array
    else if ch == b'{'
    then d_dict
    else if either b']' b'}' ch
    then d_close
    else if ch == b'!'
    then d_valist
    else if ch == b'@'
    then d_rows
    else if ch == b'*'
    then d_next_row
    else if either b';' b':' ch || (either b'.' b',' ch || (ch == b' '))
    then d_ignored
    else d_illegal

-- A stack of NEW_STACK holds 128 items.
abbrev pub stack_size : ℕ
stack_size = 128

-- sub_lengths as far as it is in use (its length is len_ctr), the index of *cur_len, and len_stack.
pub record Counts : Type 0 where
  pub sub_lengths : List ℕ
  pub cur_len : ℕ
  pub len_stack : List ℕ

-- `sub_lengths[i] += n`
abbrev pub add_at : ℕ → ℕ → List ℕ → List ℕ
add_at i n [] = []
add_at zero n (x ∷ xs) = (x + n) ∷ xs
add_at (suc i) n (x ∷ xs) = x ∷ add_at i n xs

abbrev count_one : Counts → Counts
count_one c = record c { sub_lengths = add_at c.cur_len 1 c.sub_lengths }

abbrev pub open_count : ℕ → Counts → Result Counts
open_count arr_size c =
    if ltb (length c.len_stack) stack_size
    then (if ltb (length c.sub_lengths) arr_size
        then ok (record {
          sub_lengths = add_at c.cur_len 1 c.sub_lengths ++ 0 ∷ [];
          cur_len = length c.sub_lengths;
          len_stack = c.cur_len ∷ c.len_stack;
        })
        else stop undefined)
    else stop undefined

abbrev pub close_count : List ℕ → Counts → Result Counts
close_count [] c = stop abort
close_count (i ∷ is) c = ok (record c { cur_len = i; len_stack = is })

-- The switch of the first loop.
unfoldable pub count_char : ℕ → Directive → Counts → Result Counts
count_char arr_size d_bool c = ok (count_one c)
count_char arr_size d_int c = ok (count_one c)
count_char arr_size d_long c = ok (count_one c)
count_char arr_size d_unsigned c = ok (count_one c)
count_char arr_size d_bstring c = ok (count_one c)
count_char arr_size d_cstring c = ok (count_one c)
count_char arr_size d_nil c = ok (count_one c)
count_char arr_size d_array c = open_count arr_size c
count_char arr_size d_dict c = open_count arr_size c
count_char arr_size d_close c = close_count c.len_stack c
count_char arr_size d_valist c = ok c
count_char arr_size d_rows c = ok c
count_char arr_size d_next_row c = ok c
count_char arr_size d_ignored c = ok c
count_char arr_size d_illegal c = stop (exit 1)

-- The first loop, over the characters before the terminating NUL.
unfoldable pub count_loop : ℕ → List ℕ → Counts → Result Counts
unfolding count_char directive
count_loop arr_size [] c = ok c
count_loop arr_size (ch ∷ fmt) c =
    count_char arr_size (directive ch) c >>= λ c'. count_loop arr_size fmt c'

abbrev pub start_counts : Counts
start_counts = record { sub_lengths = 0 ∷ []; cur_len = 0; len_stack = [] }
