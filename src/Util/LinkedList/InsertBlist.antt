-- ===== src/Util/LinkedList/InsertBlist.antt =====
-- ll_insert_blist_after and ll_insert_blist_before of util/linked_list.c on a list of a sequence of
-- nodes.
use tag_highlight_nvim.Base.{
  ℕ, suc, ◌+◌, ◌^◌, ◌≤◌, ◌<◌, ◌≡◌, refl, ap, ◌∙◌, Bool, List, [], ◌∷◌, ◌++◌, none, some,
  if◌then◌else◌, length, length-append, replicate, All, arith, ok,
}
use tag_highlight_nvim.Base.Int.{pos}
use tag_highlight_nvim.Util.LinkedList.{LinkedList}
use tag_highlight_nvim.Util.LinkedList.Blist.{Pointers, assertions, chain}
use tag_highlight_nvim.Util.LinkedList.Cells.{Cells, last, over, last-append}
use tag_highlight_nvim.Util.LinkedList.Gap.{fresh_cells}
use tag_highlight_nvim.Util.LinkedList.Chain.{linked, chain-fresh_cells}

-- The strings of the list that they were taken from: one string stays, several are moved away.
abbrev pub left_behind : Pointers → ℕ → List ℕ → Pointers → Pointers
left_behind pre v [] post = pre ++ (v ∷ post)
left_behind pre v (w ∷ vs) post = pre ++ (0 ∷ (replicate (length (w ∷ vs)) 0 ++ post))

-- Both of a length.
length-range :
    (pre vs post : Pointers) (v : ℕ)
    → length (pre ++ (v ∷ (vs ++ post))) ≡ length pre + (suc (length vs) + length post)
length-range pre vs post v =
    omega (arith, length-append pre (v ∷ (vs ++ post)), length-append vs post)

pub assertions-range :
    (pre vs post : Pointers) (v : ℕ)
    → assertions
        (pos (length pre))
        (pos (length pre + suc (length vs)))
        (length (pre ++ (v ∷ (vs ++ post))))
      ≡ ok (length pre, length pre + suc (length vs))
assertions-range pre vs post v = ground (arith, length-range pre vs post v)

last-fresh_cells : (n : ℕ) (vs : List ℕ) → last n (fresh_cells (suc n) vs) ≡ n + length vs
last-fresh_cells n [] = omega arith
last-fresh_cells n (v ∷ vs) = omega (arith, last-fresh_cells (suc n) vs)

length-fresh_cells : (n : ℕ) (vs : List ℕ) → length (fresh_cells n vs) ≡ length vs
length-fresh_cells n [] = refl
length-fresh_cells n (v ∷ vs) = ap suc (length-fresh_cells (suc n) vs)

length-between :
    (n : ℕ) (vs : List ℕ) (xs ys : Cells)
    → length (xs ++ (fresh_cells n vs ++ ys)) ≡ length (xs ++ ys) + length vs
length-between n vs xs ys = omega (
  arith,
  length-append xs (fresh_cells n vs ++ ys),
  length-append (fresh_cells n vs) ys,
  length-fresh_cells n vs,
  length-append xs ys,
)

-- The new run's last node, by its own address.
pub chain-to_last :
    (n k at : ℕ) (known : Bool) (l : LinkedList) (pre post : Pointers) (v : ℕ) (vs : List ℕ)
    → 1 ≤ n
    → All (λ w. 1 ≤ w) vs
    → l.fresh ≡ n
    → l.qty ≡ pos k
    → k + suc (length vs) < 2 ^ 31
    → chain (suc (length vs)) (length pre) known at l (pre ++ (v ∷ (vs ++ post)))
      ≡ ok (
          linked
            (over (if known then some at else none) (fresh_cells n (v ∷ vs)) none l.heap)
            (last n (fresh_cells (suc n) vs))
            (pos (suc k + length vs))
            (pre ++ (0 ∷ (replicate (length vs) 0 ++ post))))
chain-to_last n k at known l pre post v vs ge given fresh count lt =
    rw (last-fresh_cells n vs)
      (chain-fresh_cells n k at known l pre post v vs ge given fresh count lt)

pub last-between :
    (n v : ℕ) (vs : List ℕ) (xs ys : Cells)
    → last 0 (xs ++ (fresh_cells n (v ∷ vs) ++ ys)) ≡ last (last n (fresh_cells (suc n) vs)) ys
last-between n v vs xs ys =
    last-append 0 xs (fresh_cells n (v ∷ vs) ++ ys)
    ∙ last-append (last 0 xs) (fresh_cells n (v ∷ vs)) ys

pub next_address :
    (n w : ℕ) (vs : List ℕ)
    → suc (last n (fresh_cells (suc n) (w ∷ vs))) ≡ n + suc (suc (length vs))
next_address n w vs = omega (arith, last-fresh_cells n (w ∷ vs))

pub new_count :
    (n v w : ℕ) (vs : List ℕ) (xs ys : Cells)
    → pos (suc (length (xs ++ ys)) + suc (length vs))
      ≡ pos (length (xs ++ (fresh_cells n (v ∷ w ∷ vs) ++ ys)))
new_count n v w vs xs ys = ap pos (omega (arith, length-between n (v ∷ w ∷ vs) xs ys))
