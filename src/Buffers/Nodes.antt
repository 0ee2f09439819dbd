-- ===== src/Buffers/Nodes.antt =====
-- new_buffer of buffer.c with the functions that it calls, on the nodes of buffer_list.
use tag_highlight_nvim.Base.{
  ℕ, suc, Bool, true, false, List, [], ◌∷◌, ◌++◌, Option, none, some, ◌==◌, if◌then◌else◌, Result,
  ok, stop, undefined, ◌>>=◌,
}
use tag_highlight_nvim.Events.{Buffer}
use tag_highlight_nvim.Events.Dispatch.{BufferNode}

-- The nodes by their addresses, those that are freed not among them, the addresses that buffer_list
-- holds, in order, and the buffers that destroy_buffer_node, the destructor of a node, has called
-- destroy_buffer for. 0 is NULL.
pub record Table : Type 0 where
  pub nodes : ℕ → Option BufferNode
  pub fresh : ℕ
  pub listed : List ℕ
  pub destroyed : List Buffer

abbrev pub put_node : ℕ → Option BufferNode → (ℕ → Option BufferNode) → ℕ → Option BufferNode
put_node p n nodes q = if q == p then n else nodes q

abbrev pub held : Option BufferNode → Result BufferNode
held none = stop undefined
held (some n) = ok n

unfoldable pub find_buffer_node : ℕ → (ℕ → Option BufferNode) → List ℕ → Result ℕ
find_buffer_node bufnum nodes [] = ok 0
find_buffer_node bufnum nodes (p ∷ ps) =
    let rest = find_buffer_node bufnum nodes ps in
    held (nodes p) >>= λ n. if n.num == bufnum then ok p else rest

-- destroy_buffer_node
abbrev pub destroyed_with : Option Buffer → List Buffer
destroyed_with none = []
destroyed_with (some b) = b ∷ []

abbrev pub new_buffer_node : ℕ → BufferNode
new_buffer_node bufnum = record { num = bufnum; isopen = false; bdata = none }

-- What the program takes from elsewhere: b_iseq, the file type's name that nvim_buf_get_option gives,
-- empty for NULL, ftdata, settings.ignored_ftypes, get_bufdata and nvim_buf_get_changedtick.
module _ {F : Type 0} (b_iseq : List ℕ → List ℕ → Bool) (ft_option : ℕ → List ℕ)
    (ftdata : List (List ℕ × F)) (ignored_ftypes : List (List ℕ)) (get_bufdata : ℕ → F → Buffer)
    (changedtick : ℕ → ℕ) where
  unfoldable pub find_ft : List ℕ → List (List ℕ × F) → Option F
  find_ft ftname [] = none
  find_ft ftname ((vim_name, ft) ∷ fts) =
      let rest = find_ft ftname fts in if b_iseq ftname vim_name then some ft else rest

  unfoldable pub should_skip_buffer : List ℕ → List (List ℕ) → Bool
  should_skip_buffer ft [] = false
  should_skip_buffer ft (s ∷ ss) =
      let rest = should_skip_buffer ft ss in if b_iseq ft s then true else rest

  abbrev pub with_ft : List ℕ → Option F → BufferNode → Option Buffer × BufferNode
  with_ft ftname none node = (none, node)
  with_ft ftname (some ft) node =
      if should_skip_buffer ftname ignored_ftypes
      then (none, node)
      else let b = record (get_bufdata node.num ft) { ctick = changedtick node.num } in
        (some b, record node { bdata = some b })

  abbrev pub named_ft : List ℕ → BufferNode → Option Buffer × BufferNode
  named_ft [] node = (none, node)
  named_ft (c ∷ cs) node = with_ft (c ∷ cs) (find_ft (c ∷ cs) ftdata) node

  unfoldable pub make_new_buffer : BufferNode → Option Buffer × BufferNode
  unfolding find_ft should_skip_buffer
  make_new_buffer node =
      if node.isopen
      then (none, node)
      else named_ft (ft_option node.num) (record node { isopen = true })

  -- The node of a buffer that was made is appended, any other is freed.
  abbrev pub keep : ℕ → Option Buffer × BufferNode → Table → Option Buffer × Table
  keep p (none, node) t = (
    none,
    record t {
      nodes = put_node p none t.nodes;
      destroyed = t.destroyed ++ destroyed_with node.bdata;
    },
  )
  keep p (some b, node) t =
      (some b, record t { nodes = put_node p (some node) t.nodes; listed = t.listed ++ (p ∷ []) })

  abbrev pub open_at : ℕ → Table → Result (Option Buffer × Table)
  open_at p t = held (t.nodes p) >>= λ n. ok (keep p (make_new_buffer n) t)

  unfoldable pub new_buffer : ℕ → Table → Result (Option Buffer × Table)
  unfolding find_buffer_node make_new_buffer
  new_buffer bufnum t = do
    p ← find_buffer_node bufnum t.nodes t.listed
    if p == 0
        then open_at t.fresh (record t {
          nodes = put_node t.fresh (some (new_buffer_node bufnum)) t.nodes;
          fresh = suc t.fresh;
        })
        else open_at p t
