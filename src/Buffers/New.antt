-- ===== src/Buffers/New.antt =====
-- new_buffer of buffer.c and what find_buffer_node finds after it.
use tag_highlight_nvim.Base.{
  ℕ, suc, ◌≤◌, ◌≡◌, refl, ap, ◌∙◌, sym, append-nil, Bool, true, false, List, [], ◌∷◌, ◌++◌, Option,
  none, some, ◌==◌, ==_refl, if◌then◌else◌, Bool-cases, inl, inr, All, arith, Result, ok, stop,
  undefined,
}
use tag_highlight_nvim.Events.{Buffer}
use tag_highlight_nvim.Events.Dispatch.{BufferNode}
use tag_highlight_nvim.Buffers.Nodes.{
  Table, put_node, destroyed_with, find_buffer_node, new_buffer_node, make_new_buffer, new_buffer,
  keep, with_ft, named_ft, should_skip_buffer,
}

-- The node at an address is not freed and has another number.
abbrev pub Other : (ℕ → Option BufferNode) → ℕ → ℕ → Type 0
Other nodes k p = (n : BufferNode) × (nodes p ≡ some n) × ((n.num == k) ≡ false)

find_buffer_node-append :
    (k : ℕ) (nodes : ℕ → Option BufferNode) (before ps : List ℕ)
    → All (Other nodes k) before
    → find_buffer_node k nodes (before ++ ps) ≡ find_buffer_node k nodes ps
unfolding find_buffer_node
find_buffer_node-append k nodes [] ps others = refl
find_buffer_node-append k nodes (p ∷ before) ps ((n, at, num), others) =
    rw (at, num) (find_buffer_node-append k nodes before ps others)

put_node-Other :
    (k p : ℕ) (x : Option BufferNode) (nodes : ℕ → Option BufferNode) (before : List ℕ)
    → All (λ q. (q == p) ≡ false) before
    → All (Other nodes k) before
    → All (Other (put_node p x nodes) k) before
put_node-Other k p x nodes [] apart others = others
put_node-Other k p x nodes (q ∷ before) apart ((n, at, num), others) =
    ((n, rw apart.0 at, num), put_node-Other k p x nodes before apart.1 others)

module _ {F : Type 0} (b_iseq : List ℕ → List ℕ → Bool) (ft_option : ℕ → List ℕ)
    (ftdata : List (List ℕ × F)) (ignored_ftypes : List (List ℕ)) (get_bufdata : ℕ → F → Buffer)
    (changedtick : ℕ → ℕ) where
  abbrev make : BufferNode → Option Buffer × BufferNode
  make = make_new_buffer b_iseq ft_option ftdata ignored_ftypes get_bufdata changedtick

  abbrev new : ℕ → Table → Result (Option Buffer × Table)
  new = new_buffer b_iseq ft_option ftdata ignored_ftypes get_bufdata changedtick

  keep-none :
      (p : ℕ) (r : Option Buffer × BufferNode) (t : Table)
      → r.0 ≡ none
      → keep b_iseq ft_option ftdata ignored_ftypes get_bufdata changedtick p r t ≡ (
        none,
        record t {
          nodes = put_node p none t.nodes;
          destroyed = t.destroyed ++ destroyed_with r.1.bdata;
        },
      )
  keep-none p (none, node) t h = refl
  keep-none p (some b, node) t h = cc

  keep-some :
      (p : ℕ) (r : Option Buffer × BufferNode) (t : Table) (b : Buffer)
      → r.0 ≡ some b
      → keep b_iseq ft_option ftdata ignored_ftypes get_bufdata changedtick p r t ≡ (
        some b,
        record t { nodes = put_node p (some r.1) t.nodes; listed = t.listed ++ (p ∷ []) },
      )
  keep-some p (none, node) t b h = cc
  keep-some p (some c, node) t b h =
      ap
        (λ o.
          (o, record t { nodes = put_node p (some node) t.nodes; listed = t.listed ++ (p ∷ []) }))
        h

  with_ft-num :
      (s : List ℕ) (o : Option F) (n : BufferNode)
      → (with_ft b_iseq ft_option ftdata ignored_ftypes get_bufdata changedtick s o n).1.num ≡ n.num
  with_ft-num s none n = refl
  with_ft-num s (some ft) n =
      elim (Bool-cases (
        should_skip_buffer b_iseq ft_option ftdata ignored_ftypes get_bufdata changedtick s
          ignored_ftypes)) [ inl e ↦ rw e refl | inr e ↦ rw e refl ]

  named_ft-num :
      (s : List ℕ) (n : BufferNode)
      → (named_ft b_iseq ft_option ftdata ignored_ftypes get_bufdata changedtick s n).1.num ≡ n.num
  named_ft-num [] n = refl
  named_ft-num (c ∷ cs) n = with_ft-num (c ∷ cs) _ n

  make-num : (n : BufferNode) → (make n).1.num ≡ n.num
  unfolding make_new_buffer
  make-num n = elim (Bool-cases n.isopen) [
    | inl e ↦ rw e refl
    | inr e ↦ rw e (named_ft-num (ft_option n.num) (record n { isopen = true }))
  ]

  with_ft-bdata :
      (s : List ℕ) (o : Option F) (n : BufferNode)
      → (with_ft b_iseq ft_option ftdata ignored_ftypes get_bufdata changedtick s o n).0 ≡ none
      → (with_ft b_iseq ft_option ftdata ignored_ftypes get_bufdata changedtick s o n).1.bdata
        ≡ n.bdata
  with_ft-bdata s none n h = refl
  with_ft-bdata s (some ft) n h =
      by_skip
        (should_skip_buffer b_iseq ft_option ftdata ignored_ftypes get_bufdata changedtick s
          ignored_ftypes)
        h
    where
      b : Buffer
      b = record (get_bufdata n.num ft) { ctick = changedtick n.num }

      outcome : Bool → Option Buffer × BufferNode
      outcome x = if x then (none, n) else (some b, record n { bdata = some b })

      by_skip : (x : Bool) → (outcome x).0 ≡ none → (outcome x).1.bdata ≡ n.bdata
      by_skip true h' = refl
      by_skip false h' = cc

  named_ft-bdata :
      (s : List ℕ) (n : BufferNode)
      → (named_ft b_iseq ft_option ftdata ignored_ftypes get_bufdata changedtick s n).0 ≡ none
      → (named_ft b_iseq ft_option ftdata ignored_ftypes get_bufdata changedtick s n).1.bdata
        ≡ n.bdata
  named_ft-bdata [] n h = refl
  named_ft-bdata (c ∷ cs) n h = with_ft-bdata (c ∷ cs) _ n h

  make-bdata : (n : BufferNode) → (make n).0 ≡ none → (make n).1.bdata ≡ n.bdata
  unfolding make_new_buffer
  make-bdata n h = by_open n.isopen h
    where
      outcome : Bool → Option Buffer × BufferNode
      outcome x =
          if x
          then (none, n)
          else named_ft b_iseq ft_option ftdata ignored_ftypes get_bufdata changedtick
              (ft_option n.num) (record n { isopen = true })

      by_open : (x : Bool) → (outcome x).0 ≡ none → (outcome x).1.bdata ≡ n.bdata
      by_open true h' = refl
      by_open false h' = named_ft-bdata (ft_option n.num) (record n { isopen = true }) h'

  -- The first node with a buffer's number stands in buffer_list, and no buffer can be made for it: it
  -- is open already, or it was closed and its file type now is not supported. Then new_buffer gives
  -- NULL, destroys the node's buffer if there is one, and frees the node, but leaves it in the list, and
  -- a search for any number that no node in front of it has reads the freed node.
  pub new_buffer_dangling :
      (j k p : ℕ) (before behind : List ℕ) (n : BufferNode) (t : Table)
      → t.listed ≡ before ++ (p ∷ behind)
      → 1 ≤ p
      → t.nodes p ≡ some n
      → (n.num == k) ≡ true
      → All (λ q. (q == p) ≡ false) before
      → All (Other t.nodes k) before
      → All (Other t.nodes j) before
      → (make n).0 ≡ none
      → (new k t
          ≡ ok (
            none,
            record t {
              nodes = put_node p none t.nodes;
              destroyed = t.destroyed ++ destroyed_with n.bdata;
            },
          ))
        × (find_buffer_node j (put_node p none t.nodes) t.listed ≡ stop undefined)
  unfolding new_buffer find_buffer_node
  new_buffer_dangling j k p before behind n t listed ge at num apart others others' failed =
      let null : (p == 0) ≡ false = ground (arith, ge) in
      let found : find_buffer_node k t.nodes t.listed ≡ ok p =
        rw (listed, find_buffer_node-append k t.nodes before (p ∷ behind) others, at, num) refl in
      let reached =
        find_buffer_node-append j (put_node p none t.nodes) before (p ∷ behind)
          (put_node-Other j p none t.nodes before apart others') in
      (
        rw (found, null, at)
            (ap ok (
              keep-none p (make n) t failed
              ∙ ap
                  (λ o. (
                    none,
                    record t {
                      nodes = put_node p none t.nodes;
                      destroyed = t.destroyed ++ destroyed_with o;
                    },
                  ))
                  (make-bdata n failed))),
        rw (listed, reached, ==_refl p) refl,
      )

  -- When no listed node is freed or has a buffer's number, and a buffer can be made for a new node of
  -- this number, new_buffer gives the buffer. A new node with the buffer, as make_new_buffer leaves it,
  -- is appended to the list, and find_buffer_node finds it by the number.
  pub new_buffer-find_buffer_node :
      (k : ℕ) (b : Buffer) (t : Table)
      → 1 ≤ t.fresh
      → All (λ q. (q == t.fresh) ≡ false) t.listed
      → All (Other t.nodes k) t.listed
      → (make (new_buffer_node k)).0 ≡ some b
      → (t' : Table) × (new k t ≡ ok (some b, t'))
        × (t'.listed ≡ t.listed ++ (t.fresh ∷ []))
        × (t'.nodes t.fresh ≡ some (make (new_buffer_node k)).1)
        × (find_buffer_node k t'.nodes t'.listed ≡ ok t.fresh)
  unfolding new_buffer find_buffer_node
  new_buffer-find_buffer_node k b t ge apart others made =
      let node = make (new_buffer_node k) in
      let stored = put_node t.fresh (some (new_buffer_node k)) t.nodes in
      let nodes' = put_node t.fresh (some node.1) stored in
      let missing : find_buffer_node k t.nodes t.listed ≡ ok 0 =
        ap (find_buffer_node k t.nodes) (sym (append-nil t.listed))
        ∙ find_buffer_node-append k t.nodes t.listed [] others in
      let num : (node.1.num == k) ≡ true = rw (make-num (new_buffer_node k)) (==_refl k) in
      let others' =
        put_node-Other k t.fresh (some node.1) stored t.listed apart
          (put_node-Other k t.fresh (some (new_buffer_node k)) t.nodes t.listed apart others) in
      (
        record {
          nodes = nodes';
          fresh = suc t.fresh;
          listed = t.listed ++ (t.fresh ∷ []);
          destroyed = t.destroyed;
        },
        rw (missing, ==_refl t.fresh)
            (ap ok
              (keep-some t.fresh node (record t { nodes = stored; fresh = suc t.fresh }) b made)),
        refl,
        rw (==_refl t.fresh) refl,
        find_buffer_node-append k nodes' t.listed (t.fresh ∷ []) others'
            ∙ rw (==_refl t.fresh, num) refl,
      )
