-- ===== src/Util/LinkedList/Index.antt =====
-- ll_at and the walks of util/linked_list.c on a list of a sequence of nodes.
use tag_highlight_nvim.Base.{
  ℕ, zero, suc, ◌+◌, ◌-◌, ◌/◌, ◌<◌, ◌≡◌, refl, ap, ◌∙◌, true, false, [], ◌∷◌, Option, some, ltb,
  ◌==◌, if◌then◌else◌, length, arith, ok, Bool-cases, inl, inr,
}
use tag_highlight_nvim.Base.Int.{ℤ, pos, negsuc}
use tag_highlight_nvim.Util.LinkedList.{Heap, no_nodes, get_next, get_prev}
use tag_highlight_nvim.Util.LinkedList.At.{walk, search, ll_at}
use tag_highlight_nvim.Util.LinkedList.Cells.{
  Cells, first, last, front, has, over, Valid, list_of, front-some, get_next-over, get_prev-over,
  get_next-place, get_prev-place,
}
use tag_highlight_nvim.Util.LinkedList.Gap.{has-apart}

-- The address of the node at an index, NULL where there is none.
abbrev pub address_at : ℕ → Cells → ℕ
address_at zero xs = first 0 xs
address_at (suc i) [] = 0
address_at (suc i) (x ∷ xs) = address_at i xs

-- What ll_at is for: an index from the front, the length for the last node, or a negative one from
-- the back; NULL for any other.
abbrev pub node_for : ℤ → Cells → ℕ
node_for (pos i) xs =
    if ltb i (length xs) then address_at i xs else if i == length xs then last 0 xs else 0
node_for (negsuc i) xs = if ltb i (length xs) then address_at (length xs - suc i) xs else 0

pub has-address_at : (i : ℕ) (xs : Cells) → i < length xs → has (address_at i xs) xs ≡ true
has-address_at i [] lt = ground (arith, lt)
has-address_at zero ((p, v) ∷ xs) lt = ground arith
has-address_at (suc i) ((p, v) ∷ xs) lt = ground (arith, has-address_at i xs (omega (arith, lt)))

pub last-address_at : (p v : ℕ) (xs : Cells) → last p xs ≡ address_at (length xs) ((p, v) ∷ xs)
last-address_at p v [] = refl
last-address_at p v ((q, w) ∷ xs) = last-address_at q w xs

pub address_outside :
    (n i p v : ℕ) (xs : Cells)
    → Valid n ((p, v) ∷ xs)
    → i < length xs
    → has (address_at i xs) ((p, v) ∷ []) ≡ false
address_outside n i p v xs valid lt =
    has-apart n (address_at i xs) ((p, v) ∷ []) xs valid (has-address_at i xs lt)

pub get_next-address_at :
    (n i : ℕ) (a : Option ℕ) (xs : Cells) (h : Heap)
    → Valid n xs
    → i < length xs
    → get_next (address_at i xs) (over a xs (some 0) h) ≡ ok (address_at (suc i) xs)
unfolding over
get_next-address_at n i a [] h valid lt = ground (arith, lt)
get_next-address_at n zero a ((p, v) ∷ xs) h valid lt =
    rw (front-some 0 xs) (get_next-place p v (over (some p) xs (some 0) h) valid.0 a (first 0 xs))
get_next-address_at n (suc i) a ((p, v) ∷ xs) h valid lt =
    get_next-over (address_at i xs) a (front (some 0) xs) ((p, v) ∷ [])
      (over (some p) xs (some 0) h) (address_outside n i p v xs valid (omega (arith, lt)))
    ∙ get_next-address_at n i (some p) xs h valid.3 (omega (arith, lt))

abbrev address_before : ℕ → ℕ → Cells → ℕ
address_before a zero xs = a
address_before a (suc i) xs = address_at i xs

address_before-cons :
    (a p v i : ℕ) (xs : Cells) → address_before p i xs ≡ address_before a (suc i) ((p, v) ∷ xs)
address_before-cons a p v zero xs = refl
address_before-cons a p v (suc i) xs = refl

get_prev-address_at :
    (n i a : ℕ) (xs : Cells) (b : Option ℕ) (h : Heap)
    → Valid n xs
    → i < length xs
    → get_prev (address_at i xs) (over (some a) xs b h) ≡ ok (address_before a i xs)
unfolding over
get_prev-address_at n i a [] b h valid lt = ground (arith, lt)
get_prev-address_at n zero a ((p, v) ∷ xs) b h valid lt =
    get_prev-place p v (over (some p) xs b h) valid.0 a (front b xs)
get_prev-address_at n (suc i) a ((p, v) ∷ xs) b h valid lt =
    get_prev-over (address_at i xs) (some a) (front b xs) ((p, v) ∷ []) (over (some p) xs b h)
      (address_outside n i p v xs valid (omega (arith, lt)))
    ∙ get_prev-address_at n i p xs b h valid.3 (omega (arith, lt))
    ∙ ap ok (address_before-cons a p v i xs)

module _ (n : ℕ) (xs : Cells) (valid : Valid n xs) where
  walk-get_next :
      (k i m : ℕ)
      → m ≡ i + k
      → m < length xs
      → walk get_next k (address_at i xs) (over (some 0) xs (some 0) no_nodes)
        ≡ ok (address_at m xs)
  unfolding walk
  walk-get_next zero i m e lt = ap (λ j. ok (address_at j xs)) (omega (arith, e))
  walk-get_next (suc k) i m e lt =
      rw (get_next-address_at n i (some 0) xs no_nodes valid (omega (arith, e, lt)))
        (walk-get_next k (suc i) m (omega (arith, e)) lt)

  walk-get_prev :
      (k i m : ℕ)
      → m ≡ i + k
      → m < length xs
      → walk get_prev k (address_at m xs) (over (some 0) xs (some 0) no_nodes)
        ≡ ok (address_at i xs)
  unfolding walk
  walk-get_prev zero i m e lt = ap (λ j. ok (address_at j xs)) (omega (arith, e))
  walk-get_prev (suc k) i zero e lt = ground (arith, e)
  walk-get_prev (suc k) i (suc m) e lt =
      rw (get_prev-address_at n (suc m) 0 xs (some 0) no_nodes valid lt)
        (walk-get_prev k i m (omega (arith, e)) (omega (arith, lt)))

  -- From either end.
  pub search-list_of :
      (i : ℕ) → i < length xs → search i (length xs) (list_of n xs) ≡ ok (address_at i xs)
  unfolding search list_of
  search-list_of i lt = elim (Bool-cases (ltb i ((length xs - 1) / 2))) [
    | inl near ↦ rw (near) (walk-get_next i 0 i (omega arith) lt)
    | inr far ↦
        rw (far, last_index xs lt)
          (walk-get_prev (length xs - 1 - i) i (length xs - 1) (omega (arith, lt))
            (omega (arith, lt)))
  ]
    where
      last_index : (ys : Cells) → i < length ys → last 0 ys ≡ address_at (length ys - 1) ys
      last_index [] lt' = refl
      last_index ((p, v) ∷ ys) lt' =
          last-address_at p v ys ∙ ap (λ j. address_at j ((p, v) ∷ ys)) (omega arith)

-- ll_at on a well-formed list gives the node at an index counted from the front, the last node for
-- the number of nodes, the node at a negative index counted from the back, and NULL for every other
-- index and for an empty list.
pub ll_at-node_for :
    (n : ℕ) (xs : Cells) (index : ℤ)
    → Valid n xs
    → ll_at index (list_of n xs) ≡ ok (node_for index xs)
unfolding ll_at list_of
ll_at-node_for n [] (pos i) valid = ground arith
ll_at-node_for n [] (negsuc i) valid = ground arith
ll_at-node_for n ((p, v) ∷ xs) (pos zero) valid = ground arith
ll_at-node_for n ((p, v) ∷ xs) (pos (suc i)) valid =
    let long : (suc (length xs) == 0) ≡ false = ground arith in
    let above : (suc i == 0) ≡ false = ground arith in
    let not_below : ltb (suc i) 0 ≡ false = ground arith in
    elim (Bool-cases (ltb i (length xs))) [
      | inl inside ↦
          let same : (suc i == suc (length xs)) ≡ false = ground (arith, inside) in
          let within : ltb (suc (length xs)) (suc i) ≡ false = ground (arith, inside) in
          let within' : ltb (suc i) (suc (length xs)) ≡ true = ground (arith, inside) in
          rw (long, above, not_below, same, within, within')
            (search-list_of n ((p, v) ∷ xs) valid (suc i) (ground (arith, inside)))
      | inr beyond ↦ elim (Bool-cases (suc i == suc (length xs))) [
        | inl same ↦
            let within' : ltb (suc i) (suc (length xs)) ≡ false = ground (arith, beyond) in
            rw (long, above, same, within')
        | inr other ↦
            let outside : ltb (suc (length xs)) (suc i) ≡ true = ground (arith, beyond, other) in
            let within' : ltb (suc i) (suc (length xs)) ≡ false = ground (arith, beyond) in
            rw (long, above, not_below, other, outside, within')
      ]
    ]
ll_at-node_for n ((p, v) ∷ xs) (negsuc zero) valid =
    let long : (suc (length xs) == 0) ≡ false = ground arith in
    let inside : ltb 0 (suc (length xs)) ≡ true = ground arith in
    let index : suc (length xs) - 1 ≡ length xs = omega arith in
    rw (long, inside, index) (ap ok (last-address_at p v xs))
ll_at-node_for n ((p, v) ∷ xs) (negsuc (suc i)) valid =
    let long : (suc (length xs) == 0) ≡ false = ground arith in
    let below : (suc i == 0) ≡ false = ground arith in
    elim (Bool-cases (ltb (suc i) (suc (length xs)))) [
      | inl inside ↦
          let front_of : ltb (suc (length xs)) (suc (suc i)) ≡ false = ground (arith, inside) in
          let within : ltb (suc (length xs)) (suc (length xs) - suc (suc i)) ≡ false =
            ground arith in
          rw (long, below, front_of, within, inside)
            (search-list_of n ((p, v) ∷ xs) valid (suc (length xs) - suc (suc i))
              (ground (arith, inside)))
      | inr outside ↦
          let front_of : ltb (suc (length xs)) (suc (suc i)) ≡ true = ground (arith, outside) in
          rw (long, below, front_of, outside)
    ]
