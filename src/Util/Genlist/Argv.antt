-- ===== src/Util/Genlist/Argv.antt =====
-- The string vectors of util/generic_list.c (struct str_vector of util/list.h), which have the
-- fields of a list. The strings are pointers; the copy of a string is a parameter.
use tag_highlight_nvim.Base.{
  ℕ, ◌+◌, ◌*◌, ◌%◌, ◌^◌, ◌-◌, ◌≤◌, ◌<◌, ◌≡◌, refl, ap, ◌∙◌, Bool, true, false, List, [], ◌∷◌, ◌++◌,
  none, some, ◌⊎◌, inl, inr, Bool-cases, arith, ◌==◌, if◌then◌else◌, length, length-append,
  length-replicate, replicate, Result, ok, ◌>>=◌, Yields, yields, Yields-weaken,
}
use tag_highlight_nvim.Util.Genlist.{Cell, Genlist, realloc, load, store, put, last_index}
use tag_highlight_nvim.Util.Genlist.Items.{
  cells-snoc, Holds, rebuilt, load-cells, store-cells, length-front,
}
use tag_highlight_nvim.Util.Genlist.Ends.{put-Holds}
use tag_highlight_nvim.Util.Genlist.Grow.{resized}

unfoldable pub argv_create : ℕ → Genlist
argv_create len =
    let mlen = if len == 0 then 1 else len in
    record { lst = replicate mlen none; qty = 0; mlen = mlen }

-- `mlen *= 2` when one cell is left.
unfoldable pub argv_grow : Genlist → Genlist
argv_grow argv =
    if argv.qty == last_index argv.mlen
    then (let mlen' = argv.mlen * 2 % 2 ^ 32 in
        record argv { lst = realloc mlen' argv.lst; mlen = mlen' })
    else argv

unfoldable pub argv_append : (ℕ → ℕ) → ℕ → Bool → Genlist → Result Genlist
unfolding argv_grow put
argv_append strdup str cpy argv = put (if cpy then strdup str else str) (argv_grow argv)

-- `qty` wraps when there is no string.
unfoldable pub argv_pop : Genlist → Result Genlist
argv_pop argv =
    let qty' = (argv.qty + (2 ^ 32 - 1)) % 2 ^ 32 in
    load qty' argv.lst >>= λ _.
    store qty' 0 argv.lst >>= λ cs. ok (record argv { lst = cs; qty = qty' })

-- The format and its arguments make a new string.
unfoldable pub argv_append_fmt : {F : Type 0} → (F → ℕ) → F → Genlist → Result Genlist
unfolding argv_append
argv_append_fmt vasprintf fmt argv = argv_append (λ str. str) (vasprintf fmt) false argv

unfoldable pub argv_append_null : Genlist → Result Genlist
unfolding argv_grow put
argv_append_null argv = put 0 (argv_grow argv)

-- A vector with a cell left.
pub record IsArgv (argv : Genlist) (strs : List ℕ) : Type 0 where
  pub holds : Holds argv strs
  pub qty_lt : argv.qty < argv.mlen

-- A new vector is empty and has a cell left.
pub argv_create-IsArgv : (len : ℕ) → len < 2 ^ 32 → IsArgv (argv_create len) []
unfolding argv_create
argv_create-IsArgv len h =
    let size = if len == 0 then 1 else len in
    let least : 1 ≤ size = ground arith in
    let most : size < 2 ^ 32 = ground arith in
    record {
      holds = record {
        spare = replicate size none;
        front = refl;
        qty_eq = refl;
        qty_le = omega arith;
        mlen_ge = least;
        mlen_lt = most;
        mlen_le = omega (arith, length-replicate {A = Cell} size none);
      };
      qty_lt = least;
    }

-- Growing leaves room for two more.
argv_grow-IsArgv :
    (argv : Genlist) (strs : List ℕ)
    → IsArgv argv strs
    → argv.mlen < 2 ^ 31
    → Holds (argv_grow argv) strs × ((argv_grow argv).qty + 1 < (argv_grow argv).mlen)
unfolding argv_grow
argv_grow-IsArgv argv strs h small = room (Bool-cases (argv.qty == last_index argv.mlen))
  where
    last : last_index argv.mlen ≡ argv.mlen - 1
    last = omega (arith, h.holds.mlen_ge)

    doubled : argv.mlen * 2 % 2 ^ 32 ≡ argv.mlen * 2
    doubled = omega arith

    room :
        ((argv.qty == last_index argv.mlen) ≡ true) ⊎ ((argv.qty == last_index argv.mlen) ≡ false)
        → Holds (argv_grow argv) strs × ((argv_grow argv).qty + 1 < (argv_grow argv).mlen)
    room (inl e) =
        rw (e, doubled)
          (
            resized argv strs (argv.mlen * 2) (argv.mlen * 2) h.holds
                (omega (arith, h.holds.qty_eq, h.qty_lt)) (omega (arith, h.qty_lt)) (omega arith)
                (omega arith),
            omega (arith, h.qty_lt),
          )
    room (inr e) = rw e (h.holds, ground (arith, last, h.qty_lt))

-- argv_append stores a string, or the copy of it, behind the others, and a cell is left, as long as
-- the length is below 2^31.
pub argv_append-IsArgv :
    (strdup : ℕ → ℕ) (str : ℕ) (cpy : Bool) (argv : Genlist) (strs : List ℕ)
    → IsArgv argv strs
    → argv.mlen < 2 ^ 31
    → Yields
        (λ a. IsArgv a (strs ++ (if cpy then strdup str else str) ∷ []))
        (argv_append strdup str cpy argv)
unfolding argv_append
argv_append-IsArgv strdup str cpy argv strs h small =
    let item = if cpy then strdup str else str in
    let grown = argv_grow-IsArgv argv strs h small in
    Yields-weaken _ _
      (λ a k. record {
        holds = k.0;
        qty_lt =
            omega (arith, k.0.qty_eq, k.1, grown.0.qty_eq, grown.1, length-append strs (item ∷ []));
      })
      (put-Holds (argv_grow argv) strs item grown.0 (omega (arith, grown.1)))

-- argv_pop takes the last string away.
pub argv_pop-IsArgv :
    (argv : Genlist) (strs : List ℕ) (str : ℕ)
    → IsArgv argv (strs ++ str ∷ [])
    → Yields (λ a. IsArgv a strs) (argv_pop argv)
unfolding argv_pop
argv_pop-IsArgv argv strs str h =
    let front = h.holds.front ∙ cells-snoc strs str h.holds.spare in
    let less : (argv.qty + (2 ^ 32 - 1)) % 2 ^ 32 ≡ length strs =
      omega (arith, h.holds.qty_eq, h.qty_lt, h.holds.mlen_lt, length-append strs (str ∷ [])) in
    rw (less, front, load-cells strs str h.holds.spare, store-cells strs 0 (some str) h.holds.spare)
      (yields (record {
        holds =
            rebuilt argv (strs ++ str ∷ []) strs (some 0 ∷ h.holds.spare) h.holds
              (omega (
                arith,
                ap length front,
                length-front strs (some str ∷ h.holds.spare),
                length-front strs (some 0 ∷ h.holds.spare),
              ))
              (omega (arith, h.holds.qty_eq, h.qty_lt, length-append strs (str ∷ [])));
        qty_lt = omega (arith, h.holds.qty_eq, h.qty_lt, length-append strs (str ∷ []));
      }))
