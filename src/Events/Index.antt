-- ===== src/Events/Index.antt =====
-- mpack_index of mpack/mpack.h.
use tag_highlight_nvim.Base.{
  ℕ, zero, suc, ◌+◌, ◌<◌, ◌≡◌, refl, true, false, leb, some, none, arith, ok, stop, undefined,
}
use tag_highlight_nvim.Mpack.Object.{Obj, Objs, arr, no_objs, obj_cons}
use tag_highlight_nvim.Mpack.Expect.{StringLists, qty}
use tag_highlight_nvim.Events.{item_at}
use tag_highlight_nvim.Events.Dispatch.{mpack_index}

module _ (L : StringLists) where
  item_at-qty : (i : ℕ) (xs : Objs) → i < qty L xs → (x : Obj) × (item_at i xs ≡ ok x)
  unfolding item_at
  item_at-qty i no_objs lt = absurd (omega (arith, lt))
  item_at-qty zero (obj_cons x xs) lt = (x, refl)
  item_at-qty (suc i) (obj_cons x xs) lt = item_at-qty i xs (omega (arith, lt))

  pub item_at_past : (xs : Objs) → item_at (qty L xs) xs ≡ stop undefined
  unfolding item_at
  item_at_past no_objs = refl
  item_at_past (obj_cons x xs) = item_at_past xs

  -- An index that is below an array's length gives the item at it, and one above the length gives
  -- NULL, but the length itself reads past the array's end.
  pub mpack_index_lem :
      (xs : Objs) (i k : ℕ)
      → i < qty L xs
      → ((x : Obj) × (item_at i xs ≡ ok x) × (mpack_index L (arr xs) i ≡ ok (some x)))
        × (mpack_index L (arr xs) (qty L xs) ≡ stop undefined)
        × (mpack_index L (arr xs) (suc (qty L xs) + k) ≡ ok none)
  unfolding mpack_index
  mpack_index_lem xs i k lt =
      let inside : leb i (qty L xs) ≡ true = ground (arith, lt) in
      let at : leb (qty L xs) (qty L xs) ≡ true = ground arith in
      let beyond : leb (suc (qty L xs) + k) (qty L xs) ≡ false = ground arith in
      let item = item_at-qty i xs lt in
      ((item.0, item.1, rw (inside, item.1) refl), rw (at, item_at_past xs) refl, rw beyond refl)
