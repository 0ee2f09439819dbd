-- ===== src/Util/Genlist.antt =====
-- util/generic_list.c and its types in util/list.h: growing arrays of pointers. An operation that
-- takes the list's mutex is one step here. The list and its array are not NULL, and talloc gives
-- the memory that is asked for.
pub mod Items
pub mod Ends
pub mod Grow
pub mod Remove
pub mod Argv
use Prim.Native.Nat.{bit_or, max}
use tag_highlight_nvim.Base.{
  ℕ, zero, suc, ◌+◌, ◌*◌, ◌/◌, ◌%◌, ◌^◌, ◌-◌, Bool, true, false, not, ◌&&◌, ◌||◌, List, [], ◌∷◌,
  ◌++◌, Option, none, some, ltb, leb, ◌==◌, if◌then◌else◌, length, take, drop, replicate, Result,
  ok, stop, abort, undefined, ◌>>=◌,
}

-- A pointer is its address, NULL is 0. A cell that has not been written since it was allocated is
-- `none`.
abbrev pub Cell : Type 0
Cell = Option ℕ

-- `lst` holds every cell of the allocated array.
pub record Genlist : Type 0 where
  pub lst : List Cell
  pub qty : ℕ
  pub mlen : ℕ

-- `lst[i]`, of which an unwritten value is not used.
unfoldable pub load : ℕ → List Cell → Result ℕ
load i [] = stop undefined
load zero (none ∷ cs) = stop undefined
load zero (some p ∷ cs) = ok p
load (suc i) (c ∷ cs) = load i cs

-- `lst[i] = p`
unfoldable pub store : ℕ → ℕ → List Cell → Result (List Cell)
store i p [] = stop undefined
store zero p (c ∷ cs) = ok (some p ∷ cs)
store (suc i) p (c ∷ cs) = store i p cs >>= λ cs'. ok (c ∷ cs')

-- `memmove(lst + i, lst + i + 1, n * sizeof(void *))`
unfoldable pub move_down : ℕ → ℕ → List Cell → Result (List Cell)
move_down zero zero cs = ok cs
move_down zero (suc n) [] = stop undefined
move_down zero (suc n) (c ∷ []) = stop undefined
move_down zero (suc n) (c ∷ d ∷ cs) = move_down zero n (d ∷ cs) >>= λ cs'. ok (d ∷ cs')
move_down (suc i) n [] = stop undefined
move_down (suc i) n (c ∷ cs) = move_down i n cs >>= λ cs'. ok (c ∷ cs')

-- talloc_realloc of an array to a number of cells.
unfoldable pub realloc : ℕ → List Cell → List Cell
realloc zero cs = []
realloc (suc n) [] = none ∷ realloc n []
realloc (suc n) (c ∷ cs) = c ∷ realloc n cs

-- The bits below the highest one of a 32-bit number, filled by shifts.
abbrev pub smear : ℕ → ℕ
smear i =
    let j₁ = bit_or i (i / 2) in
    let j₂ = bit_or j₁ (j₁ / 2 ^ 2) in
    let j₃ = bit_or j₂ (j₂ / 2 ^ 4) in let j₄ = bit_or j₃ (j₃ / 2 ^ 8) in bit_or j₄ (j₄ / 2 ^ 16)

unfoldable pub snap_up_size : ℕ → ℕ
snap_up_size i = if ltb i 8 then 8 else (let j = (smear i + 1) % 2 ^ 32 in if ltb j i then i else j)

unfoldable pub genlist_create : Genlist
genlist_create = record { lst = replicate 2 none; qty = 0; mlen = 2 }

unfoldable pub genlist_create_alloc : ℕ → Genlist
genlist_create_alloc msz =
    let size = if leb msz 2 then 2 else msz in
    record { lst = replicate size none; qty = 0; mlen = size }

-- The new array has as many cells as the new length has bytes of pointers.
unfoldable pub genlist_alloc : ℕ → Genlist → Result Genlist
genlist_alloc msz l =
    if (msz == 0) || ((l.mlen == 0) || ltb l.mlen l.qty)
    then stop abort
    else if leb msz l.mlen
    then ok l
    else (let smsz = snap_up_size msz in
        ok (record l { lst = realloc (smsz * 8) l.lst; mlen = smsz }))

-- `mlen *= 2` and the array grown to it; talloc_realloc to no cell gives NULL.
unfoldable pub grow : Genlist → Result Genlist
grow l =
    let mlen' = l.mlen * 2 % 2 ^ 32 in
    if mlen' == 0 then stop abort else ok (record l { lst = realloc mlen' l.lst; mlen = mlen' })

-- `lst[qty++] = p`
unfoldable pub put : ℕ → Genlist → Result Genlist
put p l = store l.qty p l.lst >>= λ cs. ok (record l { lst = cs; qty = (l.qty + 1) % 2 ^ 32 })

-- `mlen - 1`
abbrev pub last_index : ℕ → ℕ
last_index mlen = (mlen + (2 ^ 32 - 1)) % 2 ^ 32

unfoldable pub genlist_append : ℕ → Genlist → Result Genlist
unfolding grow put
genlist_append item l = (if leb (last_index l.mlen) l.qty then grow l else ok l) >>= put item

-- The loop of genlist_remove: the first index of the object among `n` cells, the first of which has
-- index `i`.
unfoldable pub find_item : ℕ → ℕ → ℕ → List Cell → Result (Option ℕ)
find_item obj zero i cs = ok none
find_item obj (suc n) i [] = stop undefined
find_item obj (suc n) i (none ∷ cs) = stop undefined
find_item obj (suc n) i (some p ∷ cs) = if p == obj then ok (some i) else find_item obj n (suc i) cs

-- The body of its test.
unfoldable pub remove_found : ℕ → Genlist → Result Genlist
remove_found i l = store i 0 l.lst >>= λ cs.
    (let qty' = l.qty - 1 in
      if not (i == qty') && ltb 0 qty'
      then (move_down i (qty' - i) cs >>= λ cs'. ok (record l { lst = cs'; qty = qty' }))
      else ok (record l { lst = cs; qty = qty' }))

-- `true` stands for the result 0, `false` for -1.
abbrev pub remove_at : Genlist → Option ℕ → Result (Bool × Genlist)
remove_at l none = ok (false, l)
remove_at l (some i) = remove_found i l >>= λ l'. ok (true, l')

unfoldable pub genlist_remove : ℕ → Genlist → Result (Bool × Genlist)
unfolding find_item remove_found
genlist_remove obj l =
    if (obj == 0) || (l.qty == 0) then stop abort else (find_item obj l.qty 0 l.lst >>= remove_at l)

unfoldable pub genlist_remove_index : ℕ → Genlist → Result Genlist
genlist_remove_index index l =
    if leb l.qty index
    then stop abort
    else (load index l.lst >>= λ _. store index 0 l.lst >>= λ cs.
        (let qty' = l.qty - 1 in
          if index == qty'
          then (move_down index (qty' - index) cs >>= λ cs'.
              ok (record l { lst = cs'; qty = qty' }))
          else ok (record l { lst = cs; qty = qty' })))

-- The loop of genlist_copy, over `n` cells; `cpy` is the caller's function.
unfoldable pub copy_loop : (ℕ → ℕ) → ℕ → List Cell → Genlist → Result Genlist
unfolding put
copy_loop cpy zero cs ret = ok ret
copy_loop cpy (suc n) [] ret = stop undefined
copy_loop cpy (suc n) (none ∷ cs) ret = stop undefined
copy_loop cpy (suc n) (some p ∷ cs) ret = put (cpy p) ret >>= copy_loop cpy n cs

unfoldable pub genlist_copy : (ℕ → ℕ) → Genlist → Result Genlist
unfolding genlist_create_alloc copy_loop
genlist_copy cpy l = copy_loop cpy l.qty l.lst (genlist_create_alloc l.qty)

-- talloc_move leaves NULL in the cell that it reads.
unfoldable pub genlist_pop : Genlist → Result (ℕ × Genlist)
genlist_pop l =
    if l.qty == 0
    then stop abort
    else (load (l.qty - 1) l.lst >>= λ p.
        store (l.qty - 1) 0 l.lst >>= λ cs. ok (p, record l { lst = cs; qty = l.qty - 1 }))

unfoldable pub genlist_dequeue : Genlist → Result (ℕ × Genlist)
genlist_dequeue l =
    if l.qty == 0
    then stop abort
    else (load 0 l.lst >>= λ p. store 0 0 l.lst >>= λ cs.
        (if ltb 1 l.qty then move_down 0 (l.qty - 1) cs else ok cs) >>= λ cs'.
        ok (p, record l { lst = cs'; qty = l.qty - 1 }))
