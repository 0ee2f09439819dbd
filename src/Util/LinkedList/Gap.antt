-- ===== src/Util/LinkedList/Gap.antt =====
-- A sequence of nodes cut in two: its addresses, and the links across the cut.
use mathlib.Core.Path.{subst}
use tag_highlight_nvim.Base.{
  ℕ, suc, ◌+◌, ◌≤◌, ◌<◌, ◌≡◌, refl, ap, ◌∙◌, Bool, true, false, ◌||◌, List, [], ◌∷◌, ◌++◌, Option,
  some, ◌==◌, ==_iff, if◌then◌else◌, length, arith, ok, Bool-cases, inl, inr, ◌>>=◌,
}
use tag_highlight_nvim.Util.LinkedList.{
  Heap, no_nodes, get_next, set_next, set_prev, link_next, link_prev,
}
use tag_highlight_nvim.Util.LinkedList.Cells.{
  Cells, first, last, front, has, over, Valid, front-some, back-some, has-append, over-append,
  get_next-over, set_next-over, set_prev-over, get_next-place, set_next-place, set_prev-place,
  has_fresh,
}

-- Nodes for values, at consecutive addresses.
abbrev pub fresh_cells : ℕ → List ℕ → Cells
fresh_cells n [] = []
fresh_cells n (v ∷ vs) = (n, v) ∷ fresh_cells (suc n) vs

pub has-last : (p v : ℕ) (xs : Cells) → has (last p xs) ((p, v) ∷ xs) ≡ true
has-last p v [] = ground arith
has-last p v ((q, w) ∷ xs) = ground (arith, has-last q w xs)

pub Valid-mono : (m n : ℕ) (xs : Cells) → n ≤ m → Valid n xs → Valid m xs
Valid-mono m n [] le h = tt
Valid-mono m n ((p, v) ∷ xs) le h = (h.0, omega (arith, le, h.1), h.2, Valid-mono m n xs le h.3)

pub Valid-left : (n : ℕ) (xs ys : Cells) → Valid n (xs ++ ys) → Valid n xs
Valid-left n [] ys h = tt
Valid-left n ((p, v) ∷ xs) ys h =
    (h.0, h.1, ground (arith, has-append p xs ys, h.2), Valid-left n xs ys h.3)

pub Valid-right : (n : ℕ) (xs ys : Cells) → Valid n (xs ++ ys) → Valid n ys
Valid-right n [] ys h = h
Valid-right n ((p, v) ∷ xs) ys h = Valid-right n xs ys h.3

-- NULL is no node's address.
pub has_null : (n : ℕ) (xs : Cells) → Valid n xs → has 0 xs ≡ false
has_null n [] h = refl
has_null n ((p, v) ∷ xs) h = ground (arith, h.0, has_null n xs h.3)

-- Nodes on different sides of the cut have different addresses.
pub has-apart : (n a : ℕ) (xs ys : Cells) → Valid n (xs ++ ys) → has a ys ≡ true → has a xs ≡ false
has-apart n a [] ys h e = refl
has-apart n a ((p, v) ∷ xs) ys h e = elim (Bool-cases (a == p)) [
  | inl same ↦ absurd-eq (subst (λ q. has q ys ≡ true) ((==_iff a p).0 same) e)
  | inr other ↦ ground (arith, other, has-apart n a xs ys h.3 e)
]
  where
    absurd-eq : has p ys ≡ true → ((a == p) || has a xs) ≡ false
    absurd-eq e' = ground (arith, has-append p xs ys, h.2, e')

pub has-first : (n : ℕ) (xs ys : Cells) → Valid n (xs ++ ys) → has (first 0 ys) xs ≡ false
has-first n xs [] h = has_null n xs (Valid-left n xs [] h)
has-first n xs ((p, v) ∷ ys) h = has-apart n p xs ((p, v) ∷ ys) h (ground arith)

pub has-last_right : (n : ℕ) (xs ys : Cells) → Valid n (xs ++ ys) → has (last 0 xs) ys ≡ false
has-last_right n [] ys h = has_null n ys h
has-last_right n ((p, v) ∷ xs) ys h = elim (Bool-cases (has (last p xs) ys)) [
  | inl e ↦ ground (arith, has-apart n (last p xs) ((p, v) ∷ xs) ys h e, has-last p v xs)
  | inr e ↦ e
]

pub has-fresh_cells : (a n : ℕ) (vs : List ℕ) → a < n → has a (fresh_cells n vs) ≡ false
has-fresh_cells a n [] lt = refl
has-fresh_cells a n (v ∷ vs) lt =
    ground (arith, lt, has-fresh_cells a (suc n) vs (omega (arith, lt)))

-- New nodes in the cut.
Valid-fresh_cells :
    (m n k : ℕ) (vs : List ℕ) (ys : Cells)
    → 1 ≤ n
    → k ≤ n
    → Valid k ys
    → m ≡ n + length vs
    → Valid m (fresh_cells n vs ++ ys)
Valid-fresh_cells m n k [] ys ge le h e = Valid-mono m k ys (omega (arith, le, e)) h
Valid-fresh_cells m n k (v ∷ vs) ys ge le h e = (
  ge,
  omega (arith, e),
  ground (
    arith,
    has-append n (fresh_cells (suc n) vs) ys,
    has-fresh_cells n (suc n) vs (omega arith),
    has_fresh n k ys le h,
  ),
  Valid-fresh_cells m (suc n) k vs ys (omega arith) (omega (arith, le)) h (omega (arith, e)),
)

pub Valid-insert :
    (n : ℕ) (vs : List ℕ) (xs ys : Cells)
    → 1 ≤ n
    → Valid n (xs ++ ys)
    → Valid (n + length vs) (xs ++ (fresh_cells n vs ++ ys))
Valid-insert n vs [] ys ge h = Valid-fresh_cells (n + length vs) n n vs ys ge (omega arith) h refl
Valid-insert n vs ((p, v) ∷ xs) ys ge h = (
  h.0,
  omega (arith, h.1),
  ground (
    arith,
    has-append p xs (fresh_cells n vs ++ ys),
    has-append p (fresh_cells n vs) ys,
    has-append p xs ys,
    has-fresh_cells p n vs h.1,
    h.2,
  ),
  Valid-insert n vs xs ys ge h.3,
)

-- Reads and writes of links that may be NULL, past a run that has no such address.
module _ (p q : ℕ) (a b : Option ℕ) (xs : Cells) (h g : Heap) (out : has p xs ≡ false) where
  pub link_next-over : link_next p q h ≡ ok g → link_next p q (over a xs b h) ≡ ok (over a xs b g)
  link_next-over e = at_null (p == 0) e
    where
      at_null :
          (t : Bool)
          → (if t then ok h else set_next p q h) ≡ ok g
          → (if t then ok (over a xs b h) else set_next p q (over a xs b h)) ≡ ok (over a xs b g)
      at_null true same = ap (λ r. r >>= λ g'. ok (over a xs b g')) same
      at_null false e' = set_next-over p q a b xs h g out e'

  pub link_prev-over : link_prev p q h ≡ ok g → link_prev p q (over a xs b h) ≡ ok (over a xs b g)
  link_prev-over e = at_null (p == 0) e
    where
      at_null :
          (t : Bool)
          → (if t then ok h else set_prev p q h) ≡ ok g
          → (if t then ok (over a xs b h) else set_prev p q (over a xs b h)) ≡ ok (over a xs b g)
      at_null true same = ap (λ r. r >>= λ g'. ok (over a xs b g')) same
      at_null false e' = set_prev-over p q a b xs h g out e'

-- The first link of a run.
pub link_prev-first :
    (n q : ℕ) (a b : Option ℕ) (xs : Cells) (h : Heap)
    → Valid n xs
    → link_prev (first 0 xs) q (over a xs b h) ≡ ok (over (some q) xs b h)
unfolding over
link_prev-first n q a b [] h valid = refl
link_prev-first n q a b ((p, v) ∷ xs) h valid =
    let null : (p == 0) ≡ false = ground (arith, valid.0) in
    rw (null) (set_prev-place p v (over (some p) xs b h) valid.0 q a (front b xs))

-- The last link of a run.
pub set_next-last :
    (n q p v : ℕ) (a b : Option ℕ) (xs : Cells) (h : Heap)
    → Valid n ((p, v) ∷ xs)
    → set_next (last p xs) q (over a ((p, v) ∷ xs) b h) ≡ ok (over a ((p, v) ∷ xs) (some q) h)
unfolding over
set_next-last n q p v a b [] h valid = set_next-place p v h valid.0 q a b
set_next-last n q p v a b ((r, w) ∷ xs) h valid =
    set_next-over (last r xs) q a (some r) ((p, v) ∷ []) (over (some p) ((r, w) ∷ xs) b h)
      (over (some p) ((r, w) ∷ xs) (some q) h) (last_outside n p v r w xs valid)
      (set_next-last n q r w (some p) b xs h valid.3)
  where
    last_outside :
        (n p v r w : ℕ) (xs : Cells)
        → Valid n ((p, v) ∷ (r, w) ∷ xs)
        → has (last r xs) ((p, v) ∷ []) ≡ false
    last_outside n p v r w xs valid =
        has-apart n (last r xs) ((p, v) ∷ []) ((r, w) ∷ xs) valid (has-last r w xs)

pub last_ge : (n p v : ℕ) (xs : Cells) → Valid n ((p, v) ∷ xs) → 1 ≤ last p xs
last_ge n p v [] valid = valid.0
last_ge n p v ((r, w) ∷ xs) valid = last_ge n r w xs valid.3

pub last_lt : (n p v : ℕ) (xs : Cells) → Valid n ((p, v) ∷ xs) → last p xs < n
last_lt n p v [] valid = valid.1
last_lt n p v ((r, w) ∷ xs) valid = last_lt n r w xs valid.3

pub link_next-last :
    (n q : ℕ) (b : Option ℕ) (xs : Cells) (h : Heap)
    → Valid n xs
    → link_next (last 0 xs) q (over (some 0) xs b h) ≡ ok (over (some 0) xs (some q) h)
unfolding over
link_next-last n q b [] h valid = refl
link_next-last n q b ((p, v) ∷ xs) h valid =
    let null : (last p xs == 0) ≡ false = ground (arith, last_ge n p v xs valid) in
    rw (null) (set_next-last n q p v (some 0) b xs h valid)

pub get_next-last :
    (n q p v : ℕ) (a : Option ℕ) (xs : Cells) (h : Heap)
    → Valid n ((p, v) ∷ xs)
    → get_next (last p xs) (over a ((p, v) ∷ xs) (some q) h) ≡ ok q
unfolding over
get_next-last n q p v a [] h valid = get_next-place p v h valid.0 a q
get_next-last n q p v a ((r, w) ∷ xs) h valid =
    get_next-over (last r xs) a (some r) ((p, v) ∷ []) (over (some p) ((r, w) ∷ xs) (some q) h)
      (has-apart n (last r xs) ((p, v) ∷ []) ((r, w) ∷ xs) valid (has-last r w xs))
    ∙ get_next-last n q r w (some p) xs h valid.3

-- The heap of a list that is cut, its links across the cut written out.
pub over-cut :
    (xs ys : Cells)
    → over (some 0) (xs ++ ys) (some 0) no_nodes
      ≡ over (some 0) xs (some (first 0 ys)) (over (some (last 0 xs)) ys (some 0) no_nodes)
over-cut xs ys = rw (over-append (some 0) (some 0) xs ys no_nodes, front-some 0 ys, back-some 0 xs)
