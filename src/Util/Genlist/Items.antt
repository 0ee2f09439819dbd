-- ===== src/Util/Genlist/Items.antt =====
-- A list of util/generic_list.c as the sequence of its items, and runs with a property of their result.
use tag_highlight_nvim.Base.{
  ℕ, suc, ◌+◌, ◌^◌, ◌≤◌, ◌<◌, ◌≡◌, refl, ap, ◌∙◌, List, [], ◌∷◌, ◌++◌, append_assoc, some, arith,
  length, length-append, ok,
}
use tag_highlight_nvim.Util.Genlist.{Cell, Genlist, load, store, move_down}

-- The cells of items.
abbrev pub cells : List ℕ → List Cell
cells [] = []
cells (p ∷ ps) = some p ∷ cells ps

pub length-cells : (ps : List ℕ) → length (cells ps) ≡ length ps
length-cells [] = refl
length-cells (p ∷ ps) = ap suc (length-cells ps)

pub cells-append : (ps qs : List ℕ) → cells (ps ++ qs) ≡ cells ps ++ cells qs
cells-append [] qs = refl
cells-append (p ∷ ps) qs = ap (λ cs. some p ∷ cs) (cells-append ps qs)

-- The list holds the items, in this order, in front of its spare cells.
pub record Holds (l : Genlist) (ps : List ℕ) : Type 0 where
  pub spare : List Cell
  pub front : l.lst ≡ cells ps ++ spare
  pub qty_eq : l.qty ≡ length ps
  pub qty_le : l.qty ≤ l.mlen
  pub mlen_ge : 1 ≤ l.mlen
  pub mlen_lt : l.mlen < 2 ^ 32
  pub mlen_le : l.mlen ≤ length l.lst

pub load-cells :
    (ps : List ℕ) (p : ℕ) (more : List Cell) → load (length ps) (cells ps ++ some p ∷ more) ≡ ok p
unfolding load
load-cells [] p more = refl
load-cells (q ∷ ps) p more = load-cells ps p more

pub store-cells :
    (ps : List ℕ) (p : ℕ) (c : Cell) (more : List Cell)
    → store (length ps) p (cells ps ++ c ∷ more) ≡ ok (cells ps ++ some p ∷ more)
unfolding store
store-cells [] p c more = refl
store-cells (q ∷ ps) p c more = rw (store-cells ps p c more)

abbrev pub last_item : ℕ → List ℕ → ℕ
last_item q [] = q
last_item q (p ∷ ps) = last_item p ps

-- A run of items moves down onto a cell; the last cell of the run keeps its value.
pub move_down-cells :
    (c : Cell) (q : ℕ) (qs : List ℕ) (more : List Cell)
    → move_down 0 (length (q ∷ qs)) (c ∷ cells (q ∷ qs) ++ more)
      ≡ ok (cells (q ∷ qs) ++ some (last_item q qs) ∷ more)
unfolding move_down
move_down-cells c q [] more = refl
move_down-cells c q (p ∷ qs) more = rw (move_down-cells (some q) p qs more)

pub move_down_past :
    (ps : List ℕ) (n : ℕ) (cs ds : List Cell)
    → move_down 0 n cs ≡ ok ds
    → move_down (length ps) n (cells ps ++ cs) ≡ ok (cells ps ++ ds)
unfolding move_down
move_down_past [] n cs ds h = h
move_down_past (p ∷ ps) n cs ds h = rw (move_down_past ps n cs ds h)

-- The array with other cells, as many as it had.
pub rebuilt :
    (l : Genlist) (ps qs : List ℕ) (spare : List Cell)
    → Holds l ps
    → length (cells qs ++ spare) ≡ length l.lst
    → length qs ≤ l.mlen
    → Holds (record l { lst = cells qs ++ spare; qty = length qs }) qs
rebuilt l ps qs spare h same fits = record {
  spare = spare;
  front = refl;
  qty_eq = refl;
  qty_le = fits;
  mlen_ge = h.mlen_ge;
  mlen_lt = h.mlen_lt;
  mlen_le = omega (arith, same, h.mlen_le);
}

pub length-front : (ps : List ℕ) (cs : List Cell) → length (cells ps ++ cs) ≡ length ps + length cs
length-front ps cs = omega (arith, length-append (cells ps) cs, length-cells ps)

pub cells-snoc :
    (ps : List ℕ) (p : ℕ) (more : List Cell)
    → cells (ps ++ p ∷ []) ++ more ≡ cells ps ++ some p ∷ more
cells-snoc ps p more =
    ap (λ cs. cs ++ more) (cells-append ps (p ∷ [])) ∙ append_assoc (cells ps) (some p ∷ []) more
