-- ===== src/Buffers/Tests.antt =====
-- The operations of buffer.c at small inputs.
use Prim.{tt}
use tag_highlight_nvim.Base.{
  ℕ, ◌≡◌, refl, true, false, List, [], ◌∷◌, none, some, ◌==◌, if◌then◌else◌, arith, ok, stop,
  undefined, Yields,
}
use tag_highlight_nvim.Mpack.Samples.{equal}
use tag_highlight_nvim.Events.Samples.{buffer, two-Lines}
use tag_highlight_nvim.Events.Lines.{Lines}
use tag_highlight_nvim.Events.{Buffer}
use tag_highlight_nvim.Events.Dispatch.{BufferNode}
use tag_highlight_nvim.Buffers.{get_initial_lines}
use tag_highlight_nvim.Buffers.Nodes.{
  Table, put_node, find_buffer_node, new_buffer_node, make_new_buffer, new_buffer,
}
use tag_highlight_nvim.Buffers.New.{new_buffer_dangling, new_buffer-find_buffer_node}
use tag_highlight_nvim.Buffers.Initial.{get_initial_lines-Lines}

get_initial_lines-Lines_example :
    Yields
      (λ b.
        Lines b.lines (10 ∷ 30 ∷ 40 ∷ 20 ∷ [])
        × (b ≡ record buffer { lines = b.lines; initialized = true }))
      (get_initial_lines (30 ∷ 40 ∷ []) buffer)
get_initial_lines-Lines_example =
    get_initial_lines-Lines 30 (40 ∷ []) (10 ∷ 20 ∷ []) buffer two-Lines
      (omega arith, (omega arith, tt)) (omega arith)

-- Buffer 7 is listed at the address 1, its node is closed, and its file type is now [3]; that of the
-- others is [2], the only one that is supported.
abbrev ft_option : ℕ → List ℕ
ft_option n = if n == 7 then 3 ∷ [] else 2 ∷ []

abbrev ftdata : List (List ℕ × ℕ)
ftdata = (2 ∷ [], 0) ∷ []

abbrev get_bufdata : ℕ → ℕ → Buffer
get_bufdata n ft = buffer

abbrev closed_node : BufferNode
closed_node = record { num = 7; isopen = false; bdata = none }

abbrev table : Table
table = record {
  nodes = put_node 1 (some closed_node) (λ p. none);
  fresh = 2;
  listed = 1 ∷ [];
  destroyed = [];
}

new_buffer_dangling_example :
    (new_buffer equal ft_option ftdata [] get_bufdata (λ n. 1) 7 table
      ≡ ok (none, record table { nodes = put_node 1 none table.nodes }))
    × (find_buffer_node 8 (put_node 1 none table.nodes) (1 ∷ []) ≡ stop undefined)
unfolding make_new_buffer
new_buffer_dangling_example =
    new_buffer_dangling equal ft_option ftdata [] get_bufdata (λ n. 1) 8 7 1 [] [] closed_node table
      refl (omega arith) refl refl tt tt tt refl

new_buffer-find_buffer_node_example :
    (t : Table) × (new_buffer equal ft_option ftdata [] get_bufdata (λ n. 1) 8 table
      ≡ ok (some (record buffer { ctick = 1 }), t))
    × (t.listed ≡ 1 ∷ 2 ∷ [])
    × (t.nodes 2
        ≡ some
            (make_new_buffer equal ft_option ftdata [] get_bufdata (λ n. 1) (new_buffer_node 8)).1)
    × (find_buffer_node 8 t.nodes t.listed ≡ ok 2)
unfolding make_new_buffer
new_buffer-find_buffer_node_example =
    new_buffer-find_buffer_node equal ft_option ftdata [] get_bufdata (λ n. 1) 8
      (record buffer { ctick = 1 }) table (omega arith) (refl, tt) ((closed_node, refl, refl), tt)
      refl
