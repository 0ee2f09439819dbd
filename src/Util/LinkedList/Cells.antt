-- ===== src/Util/LinkedList/Cells.antt =====
-- A list of util/linked_list.c as the sequence of its nodes: the heap that holds these nodes and no
-- others, and how reads and writes act on a run of nodes.
use mathlib.Core.Path.{fun_ext}
use tag_highlight_nvim.Base.{
  ℕ, ◌≤◌, ◌<◌, ◌≡◌, refl, ap, ◌∙◌, Bool, false, ◌||◌, List, [], ◌∷◌, ◌++◌, Option, none, some, ◌==◌,
  ==_refl, >>=-ok, length, arith, ok, ◌>>=◌,
}
use tag_highlight_nvim.Base.Int.{pos}
use tag_highlight_nvim.Util.LinkedList.{
  Node, node, Heap, no_nodes, write, node_at, get_next, get_prev, set_next, set_prev, free_node,
  LinkedList, place,
}

-- Address and value of each node, in order.
abbrev pub Cells : Type 0
Cells = List (ℕ × ℕ)

abbrev pub first : ℕ → Cells → ℕ
first b [] = b
first b ((p, v) ∷ xs) = p

abbrev pub last : ℕ → Cells → ℕ
last a [] = a
last a ((p, v) ∷ xs) = last p xs

abbrev pub front : Option ℕ → Cells → Option ℕ
front b [] = b
front b ((p, v) ∷ xs) = some p

abbrev pub back : Option ℕ → Cells → Option ℕ
back a [] = a
back a ((p, v) ∷ xs) = back (some p) xs

abbrev pub has : ℕ → Cells → Bool
has a [] = false
has a ((p, v) ∷ xs) = (a == p) || has a xs

-- A run of nodes written over a heap: `a` in front of it, `b` behind it.
unfoldable pub over : Option ℕ → Cells → Option ℕ → Heap → Heap
over a [] b h = h
over a ((p, v) ∷ xs) b h = write (over (some p) xs b h) p (some (node v a (front b xs)))

-- Different addresses from 1 to `n - 1`.
abbrev pub Valid : ℕ → Cells → Type 0
Valid n [] = Unit
Valid n ((p, v) ∷ xs) = (1 ≤ p) × (p < n) × (has p xs ≡ false) × Valid n xs

-- The list of these nodes; `n` is the next address.
unfoldable pub list_of : ℕ → Cells → LinkedList
unfolding over
list_of n xs = record {
  heap = over (some 0) xs (some 0) no_nodes;
  fresh = n;
  head = first 0 xs;
  tail = last 0 xs;
  qty = pos (length xs);
}

pub front-some : (b : ℕ) (xs : Cells) → front (some b) xs ≡ some (first b xs)
front-some b [] = refl
front-some b ((p, v) ∷ xs) = refl

pub back-some : (a : ℕ) (xs : Cells) → back (some a) xs ≡ some (last a xs)
back-some a [] = refl
back-some a ((p, v) ∷ xs) = back-some p xs

pub front-append : (b : Option ℕ) (xs ys : Cells) → front b (xs ++ ys) ≡ front (front b ys) xs
front-append b [] ys = refl
front-append b ((p, v) ∷ xs) ys = refl

pub back-append : (a : Option ℕ) (xs ys : Cells) → back a (xs ++ ys) ≡ back (back a xs) ys
back-append a [] ys = refl
back-append a ((p, v) ∷ xs) ys = back-append (some p) xs ys

pub last-append : (a : ℕ) (xs ys : Cells) → last a (xs ++ ys) ≡ last (last a xs) ys
last-append a [] ys = refl
last-append a ((p, v) ∷ xs) ys = last-append p xs ys

pub has-append : (a : ℕ) (xs ys : Cells) → has a (xs ++ ys) ≡ (has a xs || has a ys)
has-append a [] ys = refl
has-append a ((p, v) ∷ xs) ys = ground (arith, has-append a xs ys)

pub over-append :
    (a b : Option ℕ) (xs ys : Cells) (h : Heap)
    → over a (xs ++ ys) b h ≡ over a xs (front b ys) (over (back a xs) ys b h)
unfolding over
over-append a b [] ys h = refl
over-append a b ((p, v) ∷ xs) ys h = rw (over-append (some p) b xs ys h, front-append b xs ys)

-- Two writes, to one address and to different ones.
pub write-write : (h : Heap) (p : ℕ) (c d : Option Node) → write (write h p c) p d ≡ write h p d
unfolding write
write-write h p c d = fun_ext λ a. ground arith

pub write_comm :
    (h : Heap) (p q : ℕ) (c d : Option Node)
    → (p == q) ≡ false
    → write (write h q c) p d ≡ write (write h p d) q c
unfolding write
write_comm h p q c d e = fun_ext λ a. ground arith

-- An address outside a run.
module _ (p : ℕ) where
  pub over-apply :
      (a b : Option ℕ) (xs : Cells) (h : Heap) → has p xs ≡ false → over a xs b h p ≡ h p
  unfolding over write
  over-apply a b [] h out = refl
  over-apply a b ((q, v) ∷ xs) h out = ground (arith, over-apply (some q) b xs h)

  pub write-over :
      (a b : Option ℕ) (xs : Cells) (h : Heap) (c : Option Node)
      → has p xs ≡ false
      → write (over a xs b h) p c ≡ over a xs b (write h p c)
  unfolding over
  write-over a b [] h c out = refl
  write-over a b ((q, v) ∷ xs) h c out =
      write_comm (over (some q) xs b h) p q (some (node v a (front b xs))) c (ground arith)
      ∙ ap (λ g. write g q (some (node v a (front b xs))))
          (write-over (some q) b xs h c (ground arith))

  pub node_at-over :
      (a b : Option ℕ) (xs : Cells) (h : Heap)
      → has p xs ≡ false
      → node_at p (over a xs b h) ≡ node_at p h
  unfolding node_at
  node_at-over a b xs h out = rw (over-apply a b xs h out)

  pub get_next-over :
      (a b : Option ℕ) (xs : Cells) (h : Heap)
      → has p xs ≡ false
      → get_next p (over a xs b h) ≡ get_next p h
  unfolding get_next
  get_next-over a b xs h out = rw (node_at-over a b xs h out)

  pub get_prev-over :
      (a b : Option ℕ) (xs : Cells) (h : Heap)
      → has p xs ≡ false
      → get_prev p (over a xs b h) ≡ get_prev p h
  unfolding get_prev
  get_prev-over a b xs h out = rw (node_at-over a b xs h out)

  pub set_next-over :
      (q : ℕ) (a b : Option ℕ) (xs : Cells) (h g : Heap)
      → has p xs ≡ false
      → set_next p q h ≡ ok g
      → set_next p q (over a xs b h) ≡ ok (over a xs b g)
  unfolding set_next
  set_next-over q a b xs h g out e =
      let (n, here, e') =
        >>=-ok (node_at p h) (λ n. ok (write h p (some (record n { next = some q })))) e in
      rw (node_at-over a b xs h out, here)
        (ap ok (write-over a b xs h (some (record n { next = some q })) out)
          ∙ ap (λ r. r >>= λ g'. ok (over a xs b g')) e')

  pub set_prev-over :
      (q : ℕ) (a b : Option ℕ) (xs : Cells) (h g : Heap)
      → has p xs ≡ false
      → set_prev p q h ≡ ok g
      → set_prev p q (over a xs b h) ≡ ok (over a xs b g)
  unfolding set_prev
  set_prev-over q a b xs h g out e =
      let (n, here, e') =
        >>=-ok (node_at p h) (λ n. ok (write h p (some (record n { prev = some q })))) e in
      rw (node_at-over a b xs h out, here)
        (ap ok (write-over a b xs h (some (record n { prev = some q })) out)
          ∙ ap (λ r. r >>= λ g'. ok (over a xs b g')) e')

  pub free_node-over :
      (a b : Option ℕ) (xs : Cells) (h g : Heap)
      → has p xs ≡ false
      → free_node p h ≡ ok g
      → free_node p (over a xs b h) ≡ ok (over a xs b g)
  unfolding free_node
  free_node-over a b xs h g out e =
      let (n, here, e') = >>=-ok (node_at p h) (λ n. ok (write h p none)) e in
      rw (node_at-over a b xs h out, here)
        (ap ok (write-over a b xs h none out) ∙ ap (λ r. r >>= λ g'. ok (over a xs b g')) e')

-- The node that was written last.
module _ (p v : ℕ) (h : Heap) (ge : 1 ≤ p) where
  not_null : (p == 0) ≡ false
  not_null = ground (arith, ge)

  pub node_at-place : (a b : Option ℕ) → node_at p (place p v a b h) ≡ ok (node v a b)
  unfolding node_at write
  node_at-place a b = rw (not_null, ==_refl p)

  pub get_next-place : (a : Option ℕ) (b : ℕ) → get_next p (place p v a (some b) h) ≡ ok b
  unfolding get_next
  get_next-place a b = rw (node_at-place a (some b))

  pub get_prev-place : (a : ℕ) (b : Option ℕ) → get_prev p (place p v (some a) b h) ≡ ok a
  unfolding get_prev
  get_prev-place a b = rw (node_at-place (some a) b)

  pub set_next-place :
      (q : ℕ) (a b : Option ℕ) → set_next p q (place p v a b h) ≡ ok (place p v a (some q) h)
  unfolding set_next
  set_next-place q a b = rw (node_at-place a b, write-write h p)

  pub set_prev-place :
      (q : ℕ) (a b : Option ℕ) → set_prev p q (place p v a b h) ≡ ok (place p v (some q) b h)
  unfolding set_prev
  set_prev-place q a b = rw (node_at-place a b, write-write h p)

  pub free_node-place : (a b : Option ℕ) → free_node p (place p v a b h) ≡ ok (write h p none)
  unfolding free_node
  free_node-place a b = rw (node_at-place a b, write-write h p)

pub write-none : (p : ℕ) → write no_nodes p none ≡ no_nodes
unfolding write
write-none p = fun_ext λ a. ground arith

-- The addresses of a valid sequence.
pub has_fresh : (m n : ℕ) (xs : Cells) → n ≤ m → Valid n xs → has m xs ≡ false
has_fresh m n [] le h = refl
has_fresh m n ((p, v) ∷ xs) le h = ground (arith, le, h.1, has_fresh m n xs le h.3)
