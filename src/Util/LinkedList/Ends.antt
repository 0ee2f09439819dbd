-- ===== src/Util/LinkedList/Ends.antt =====
-- The members of a list of util/linked_list.c, and its ends when it is given new nodes.
use tag_highlight_nvim.Base.{
  ℕ, ◌^◌, ◌≤◌, ◌<◌, ◌≡◌, refl, ap, false, ◌||◌, [], ◌∷◌, ◌++◌, append-nil, some, ◌==◌,
  if◌then◌else◌, length, arith, ok, Bool-cases, ==_iff, inl, inr,
}
use tag_highlight_nvim.Base.Int.{ℤ, pos, int}
use tag_highlight_nvim.Util.LinkedList.{Heap, no_nodes, LinkedList}
use tag_highlight_nvim.Util.LinkedList.Cells.{
  Cells, first, last, has, over, Valid, list_of, last-append,
}
use tag_highlight_nvim.Util.LinkedList.Gap.{
  Valid-right, has-first, has-last_right, last_ge, has-last,
}

pub int-pos : (k : ℕ) → k < 2 ^ 31 → int (pos k) ≡ ok (pos k)
unfolding int
int-pos k lt = ground (arith, lt)

abbrev pub members : Heap → ℕ → ℕ → ℕ → ℤ → LinkedList
members h n p q k = record { heap = h; fresh = n; head = p; tail = q; qty = k }

-- A list is one of a sequence when its members are.
pub made :
    (n : ℕ) (xs : Cells) (h : Heap) (p q : ℕ) (k : ℤ)
    → h ≡ over (some 0) xs (some 0) no_nodes
    → p ≡ first 0 xs
    → q ≡ last 0 xs
    → k ≡ pos (length xs)
    → members h n p q k ≡ list_of n xs
unfolding list_of
made n xs h p q k e₁ e₂ e₃ e₄ = rw (e₁, e₂, e₃, e₄)

pub same_members :
    {h : Heap} {n n' p p' q q' : ℕ} {k k' : ℤ}
    → n ≡ n'
    → p ≡ p'
    → q ≡ q'
    → k ≡ k'
    → members h n p q k ≡ members h n' p' q' k'
same_members e₁ e₂ e₃ e₄ = rw (e₁, e₂, e₃, e₄)

pub same_ends :
    {h : Heap} {n p p' q q' : ℕ} {k k' : ℤ}
    → p ≡ p'
    → q ≡ q'
    → k ≡ k'
    → ok (members h n p q k) ≡ ok (members h n p' q' k')
same_ends e₁ e₂ e₃ = ap ok (same_members refl e₁ e₂ e₃)

-- The ends of a list with new nodes, the last of which is at `m`.
pub new_tail :
    (n m : ℕ) (xs : Cells) → Valid n xs → (if last 0 xs == 0 then m else last 0 xs) ≡ last m xs
new_tail n m [] valid = refl
new_tail n m ((p, v) ∷ xs) valid = ground (arith, last_ge n p v xs valid)

pub new_head :
    (n m : ℕ) (xs : Cells) → Valid n xs → (if first 0 xs == 0 then m else first 0 xs) ≡ first m xs
new_head n m [] valid = refl
new_head n m ((p, v) ∷ xs) valid = ground (arith, valid.0)

pub first-append : (b : ℕ) (xs ys : Cells) → first b (xs ++ ys) ≡ first (first b ys) xs
first-append b [] ys = refl
first-append b ((p, v) ∷ xs) ys = refl

-- The ends of a list that is given new nodes at a cut.
pub tail_at-cut :
    (n m : ℕ) (xs ys : Cells)
    → Valid n (xs ++ ys)
    → (if (last 0 (xs ++ ys) == 0) || (last 0 xs == last 0 (xs ++ ys))
        then m
        else last 0 (xs ++ ys))
      ≡ last m ys
tail_at-cut n m xs [] valid = rw (append-nil xs) (ground arith)
tail_at-cut n m xs ((r, u) ∷ ys) valid =
    let ge = last_ge n r u ys (Valid-right n xs ((r, u) ∷ ys) valid) in
    rw (last-append 0 xs ((r, u) ∷ ys)) (ground (arith, ge, differ))
  where
    differ : (last 0 xs == last r ys) ≡ false
    differ = elim (Bool-cases (last 0 xs == last r ys)) [
      | inl same ↦ grind (
        arith,
        same,
        has-last r u ys,
        has-last_right n xs ((r, u) ∷ ys) valid,
        ap (λ z. has z ((r, u) ∷ ys)) ((==_iff (last 0 xs) (last r ys)).0 same),
      )
      | inr other ↦ other
    ]

pub head_at-cut :
    (n m : ℕ) (xs ys : Cells)
    → Valid n (xs ++ ys)
    → (if (first 0 (xs ++ ys) == 0) || (first 0 ys == first 0 (xs ++ ys))
        then m
        else first 0 (xs ++ ys))
      ≡ first m xs
head_at-cut n m [] ys valid = ground arith
head_at-cut n m ((p, v) ∷ xs) ys valid = ground (arith, valid.0, has-first n ((p, v) ∷ xs) ys valid)

-- A first node, if there is one, is older than a new one.
pub has-first_new :
    (n w : ℕ) (ys : Cells) → 1 ≤ n → Valid n ys → has (first 0 ys) ((n, w) ∷ []) ≡ false
has-first_new n w [] ge valid = ground (arith, ge)
has-first_new n w ((r, u) ∷ ys) ge valid = ground (arith, valid.1)
