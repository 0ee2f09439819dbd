-- ===== src/Mpack/Args.antt =====
-- The arguments of mpack_encode_fmt (mpack/mpack.c) and where they are taken from.
use tag_highlight_nvim.Base.{
  ℕ, ◌+◌, ◌%◌, ◌^◌, ◌-◌, Bool, not, List, Option, none, some, ltb, ◌==◌, if◌then◌else◌, Result, ok,
  stop, abort, undefined,
}
use tag_highlight_nvim.Mpack.Bstring.{Bstring}

-- What the variadic arguments and the mpack_argument arrays hold. An int is its 32-bit pattern, a
-- long integer its 64-bit pattern; a C string has no terminator here.
mutual
  pub data Arg : Type 0 where
    a_bool : Bool → Arg
    a_int : ℕ → Arg
    a_long : ℕ → Arg
    a_ulong : ℕ → Arg
    a_bstring : Option (List ℕ) → Arg
    a_cstring : List ℕ → Arg
    a_valist : Args → Arg
    a_rows : Rows → Arg

  pub data Args : Type 0 where
    a_end : Args
    a_cons : Arg → Args → Args

  pub data Rows : Type 0 where
    r_end : Rows
    r_cons : Args → Rows → Rows

-- enum encode_fmt_next_type
pub data NextType : Type 0 where
  own_valist other_valist arg_array : NextType

-- The state of the second loop: the root's string, the place in sub_lengths, the number of items
-- on the two stacks, and the sources of arguments: args, *ref, and a_args from a_arg_ctr on, whose
-- first row starts at a_arg_subctr.
pub record Emitter : Type 0 where
  pub packed : Bstring
  pub len_ctr : ℕ
  pub stacked : ℕ
  pub next_type : NextType
  pub own : Args
  pub ref : Option Args
  pub rows : Rows

-- va_arg from `args`: past the last argument its behaviour is undefined.
abbrev take_own : Args → Emitter → Result (Arg × Emitter)
take_own a_end e = stop undefined
take_own (a_cons a args) e = ok (a, record e { own = args })

abbrev take_other : Option Args → Emitter → Result (Arg × Emitter)
take_other none e = stop abort
take_other (some a_end) e = stop undefined
take_other (some (a_cons a args)) e = ok (a, record e { ref = some args })

abbrev take_row : Rows → Emitter → Result (Arg × Emitter)
take_row r_end e = stop abort
take_row (r_cons a_end rs) e = stop undefined
take_row (r_cons (a_cons a args) rs) e = ok (a, record e { rows = r_cons args rs })

-- NEXT
abbrev take_from : NextType → Emitter → Result (Arg × Emitter)
take_from own_valist e = take_own e.own e
take_from other_valist e = take_other e.ref e
take_from arg_array e = take_row e.rows e

unfoldable pub next_arg : Emitter → Result (Arg × Emitter)
next_arg e = take_from e.next_type e

-- NEXT_VALIST_ONLY
abbrev take_from_list : NextType → Emitter → Result (Arg × Emitter)
take_from_list own_valist e = take_own e.own e
take_from_list other_valist e = take_other e.ref e
take_from_list arg_array e = stop abort

unfoldable pub next_valist_only : Emitter → Result (Arg × Emitter)
next_valist_only e = take_from_list e.next_type e

-- The conversion of an int to int64_t.
abbrev pub sign_extend : ℕ → ℕ
sign_extend n = if ltb n (2 ^ 31) then n else n + (2 ^ 64 - 2 ^ 32)

-- The argument at the type that the directive asks for; another type is undefined behaviour.
abbrev pub as_bool : NextType → Arg → Result Bool
as_bool _ (a_bool b) = ok b
as_bool own_valist (a_int n) = ok (not (n == 0))
as_bool other_valist (a_int n) = ok (not (n == 0))
as_bool _ _ = stop undefined

-- From an mpack_argument the member `num` is taken, and cut to an int.
abbrev pub as_int : NextType → Arg → Result ℕ
as_int arg_array (a_long n) = ok (sign_extend (n % 2 ^ 32))
as_int own_valist (a_int n) = ok (sign_extend n)
as_int other_valist (a_int n) = ok (sign_extend n)
as_int _ _ = stop undefined

abbrev pub as_long : Arg → Result ℕ
as_long (a_long n) = ok n
as_long _ = stop undefined

abbrev pub as_ulong : Arg → Result ℕ
as_ulong (a_ulong n) = ok n
as_ulong _ = stop undefined

abbrev pub as_bstring : Arg → Result (Option (List ℕ))
as_bstring (a_bstring s) = ok s
as_bstring _ = stop undefined

abbrev pub as_cstring : Arg → Result (Option (List ℕ))
as_cstring (a_cstring s) = ok (some s)
as_cstring _ = stop undefined
