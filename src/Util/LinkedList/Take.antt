-- ===== src/Util/LinkedList/Take.antt =====
-- ll_pop, ll_dequeue and the walk of ll_verify_size of util/linked_list.c on a list of a sequence of
-- nodes.
use tag_highlight_nvim.Base.{
  ℕ, zero, suc, ◌+◌, ◌≤◌, ◌<◌, ◌≡◌, refl, ap, ◌∙◌, false, List, [], ◌∷◌, ◌++◌, Option, none, some,
  ◌==◌, if◌then◌else◌, length, length-append, drop, arith, Result, ok, ◌>>=◌, Bool-cases, inl, inr,
  ltb, ==_iff,
}
use tag_highlight_nvim.Base.Int.{pos}
use tag_highlight_nvim.Util.LinkedList.{
  Heap, Node, node, no_nodes, LinkedList, place, node_at, get_next,
}
use tag_highlight_nvim.Util.LinkedList.Remove.{ll_pop, ll_dequeue}
use tag_highlight_nvim.Util.LinkedList.At.{each, count_of, ll_verify_size}
use tag_highlight_nvim.Util.LinkedList.Cells.{
  Cells, first, last, front, over, Valid, list_of, last-append, node_at-over, node_at-place,
  get_next-place, set_next-place, free_node-place, write-over, write-none,
}
use tag_highlight_nvim.Util.LinkedList.Gap.{
  Valid-left, Valid-right, has-first, link_next-last, over-cut, last_ge,
}
use tag_highlight_nvim.Util.LinkedList.Delete.{free_node-cut, get_prev-cut}
use tag_highlight_nvim.Util.LinkedList.Index.{address_at, address_outside, get_next-address_at}

abbrev pub values : Cells → List ℕ
values [] = []
values ((p, v) ∷ xs) = v ∷ values xs

abbrev values_from : ℕ → Cells → List ℕ
values_from i xs = values (drop i xs)

-- The node at an index: its value, and the walk from there.
record Found (i : ℕ) (a : Option ℕ) (xs : Cells) (h : Heap) : Type 0 where
  here : Node
  found : node_at (address_at i xs) (over a xs (some 0) h) ≡ ok here
  value_is : values_from i xs ≡ here.value ∷ values_from (suc i) xs
  address_ge : 1 ≤ address_at i xs

find :
    (n i : ℕ) (a : Option ℕ) (xs : Cells) (h : Heap) → Valid n xs → i < length xs → Found i a xs h
unfolding over
find n i a [] h valid lt = ground (arith, lt)
find n zero a ((p, v) ∷ xs) h valid lt = record {
  here = node v a (front (some 0) xs);
  found = node_at-place p v (over (some p) xs (some 0) h) valid.0 a (front (some 0) xs);
  value_is = refl;
  address_ge = valid.0;
}
find n (suc i) a ((p, v) ∷ xs) h valid lt =
    let rest = find n i (some p) xs h valid.3 (omega (arith, lt)) in
    record {
      here = rest.here;
      found =
          node_at-over (address_at i xs) a (front (some 0) xs) ((p, v) ∷ [])
            (over (some p) xs (some 0) h) (address_outside n i p v xs valid (omega (arith, lt)))
          ∙ rest.found;
      value_is = rest.value_is;
      address_ge = rest.address_ge;
    }

each-step :
    (fuel p q : ℕ) (m : Node) (h : Heap)
    → 1 ≤ p
    → node_at p h ≡ ok m
    → get_next p h ≡ ok q
    → each (suc fuel) p h ≡ (each fuel q h >>= λ vs. ok (m.value ∷ vs))
unfolding each
each-step fuel zero q m h ge e₁ e₂ = ground (arith, ge)
each-step fuel (suc p) q m h ge e₁ e₂ = rw (e₁, e₂)

address_beyond : (i : ℕ) (xs : Cells) → length xs ≤ i → address_at i xs ≡ 0
address_beyond zero [] le = refl
address_beyond (suc i) [] le = refl
address_beyond zero ((p, v) ∷ xs) le = ground (arith, le)
address_beyond (suc i) ((p, v) ∷ xs) le = address_beyond i xs (omega (arith, le))

values_beyond : (i : ℕ) (xs : Cells) → length xs ≤ i → values_from i xs ≡ []
values_beyond zero [] le = refl
values_beyond (suc i) [] le = refl
values_beyond zero ((p, v) ∷ xs) le = ground (arith, le)
values_beyond (suc i) ((p, v) ∷ xs) le = values_beyond i xs (omega (arith, le))

each-from :
    (fuel n i : ℕ) (xs : Cells)
    → Valid n xs
    → length xs ≤ i + fuel
    → each fuel (address_at i xs) (over (some 0) xs (some 0) no_nodes) ≡ ok (values_from i xs)
unfolding each
each-from zero n i xs valid le =
    rw (address_beyond i xs (omega (arith, le)), values_beyond i xs (omega (arith, le)))
each-from (suc fuel) n i xs valid le = elim (Bool-cases (ltb i (length xs))) [
  | inl inside ↦
      let at = find n i (some 0) xs no_nodes valid (ground (arith, inside)) in
      each-step fuel (address_at i xs) (address_at (suc i) xs) at.here
        (over (some 0) xs (some 0) no_nodes) at.address_ge at.found
        (get_next-address_at n i (some 0) xs no_nodes valid (ground (arith, inside)))
      ∙ rw (each-from fuel n (suc i) xs valid (omega (arith, le)), at.value_is) refl
  | inr outside ↦
      rw (
        address_beyond i xs (ground (arith, outside)),
        values_beyond i xs (ground (arith, outside)),
      )
]

-- LL_FOREACH_F meets every node once, in order.
pub each-values :
    (fuel n : ℕ) (xs : Cells)
    → Valid n xs
    → length xs ≤ fuel
    → each fuel (first 0 xs) (over (some 0) xs (some 0) no_nodes) ≡ ok (values xs)
each-values fuel n xs valid le = each-from fuel n 0 xs valid (omega (arith, le))

count_of-values : (xs : Cells) → count_of (values xs) ≡ length xs
count_of-values [] = refl
count_of-values ((p, v) ∷ xs) = ap suc (count_of-values xs)

-- The list with another count.
abbrev pub counted : ℕ → Cells → ℕ → LinkedList
counted n xs k = record (list_of n xs) { qty = pos k }

pub ll_verify_size_lem :
    (fuel n k : ℕ) (xs : Cells)
    → Valid n xs
    → length xs ≤ fuel
    → ll_verify_size fuel (counted n xs k) ≡ ok (length xs == k, list_of n xs)
unfolding ll_verify_size list_of
ll_verify_size_lem fuel n k xs valid le = elim (Bool-cases (length xs == k)) [
  | inl same ↦
      let e = (==_iff (length xs) k).0 same in
      rw (each-values fuel n xs valid le, count_of-values xs, same, e)
  | inr other ↦ rw (each-values fuel n xs valid le, count_of-values xs, other)
]

pop_head :
    (n p v : ℕ) (xs : Cells)
    → Valid n xs
    → (if last 0 xs == 0 then 0 else first 0 (xs ++ ((p, v) ∷ []))) ≡ first 0 xs
pop_head n p v [] valid = refl
pop_head n p v ((q, w) ∷ xs) valid = ground (arith, last_ge n q w xs valid)

-- The last value is given back; the count stays.
pub ll_pop-counted :
    (n p v : ℕ) (xs : Cells)
    → Valid n (xs ++ ((p, v) ∷ []))
    → ll_pop (list_of n (xs ++ ((p, v) ∷ []))) ≡ ok (v, counted n xs (suc (length xs)))
unfolding ll_pop list_of over
ll_pop-counted n p v xs valid =
    let left = Valid-left n xs ((p, v) ∷ []) valid in
    let ge = (Valid-right n xs ((p, v) ∷ []) valid).0 in
    let null : (p == 0) ≡ false = ground (arith, ge) in
    let l = last 0 xs in
    let end = place p v (some l) (some 0) no_nodes in
    let count : length (xs ++ ((p, v) ∷ [])) ≡ suc (length xs) =
      omega (arith, length-append xs ((p, v) ∷ [])) in
    rw
      (
        last-append 0 xs ((p, v) ∷ []),
        null,
        over-cut xs ((p, v) ∷ []),
        get_prev-cut n p v l (some p) xs [] valid,
        node_at-over p (some 0) (some p) xs end (has-first n xs ((p, v) ∷ []) valid),
        node_at-place p v no_nodes ge (some l) (some 0),
        free_node-cut n p v (some l) (some p) xs [] valid,
        link_next-last n 0 (some p) xs no_nodes left,
        pop_head n p v xs left,
        count,
      )
      refl

-- The value that was taken, and those that LL_FOREACH_F meets in the list that is left.
abbrev pub seen_after : ℕ → Result (ℕ × LinkedList) → Result (ℕ × List ℕ)
seen_after fuel taken = taken >>= λ r. each fuel r.1.head r.1.heap >>= λ vs. ok (r.0, vs)

-- ll_dequeue gives back the value of the first node of a well-formed list with two or more, but the
-- link that it cuts is the new head's to the node behind it: a walk over the list that is left, with
-- fuel for one node or more, meets the second node only, and all nodes behind it are lost.
pub ll_dequeue_cuts :
    (n fuel p v q w : ℕ) (ys : Cells)
    → Valid n ((p, v) ∷ (q, w) ∷ ys)
    → seen_after (suc fuel) (ll_dequeue (list_of n ((p, v) ∷ (q, w) ∷ ys))) ≡ ok (v, w ∷ [])
unfolding ll_dequeue list_of over each
ll_dequeue_cuts n fuel p v q w ys valid =
    let zs = (q, w) ∷ ys in
    let null : (p == 0) ≡ false = ground (arith, valid.0) in
    let null' : (q == 0) ≡ false = ground (arith, valid.3.0) in
    let behind = over (some p) zs (some 0) no_nodes in
    let cut = place q w (some p) (some 0) (over (some q) ys (some 0) no_nodes) in
    rw
      (
        null,
        get_next-place p v behind valid.0 (some 0) q,
        node_at-place p v behind valid.0 (some 0) (some q),
        free_node-place p v behind valid.0 (some 0) (some q),
        write-over p (some p) (some 0) zs no_nodes none valid.2,
        write-none p,
        null',
        set_next-place q w (over (some q) ys (some 0) no_nodes) valid.3.0 0 (some p)
            (front (some 0) ys),
        each-step fuel q 0 (node w (some p) (some 0)) cut valid.3.0
            (node_at-place q w (over (some q) ys (some 0) no_nodes) valid.3.0 (some p) (some 0))
            (get_next-place q w (over (some q) ys (some 0) no_nodes) valid.3.0 (some p) 0),
      )
      refl
