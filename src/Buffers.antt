-- ===== src/Buffers.antt =====
-- buffer.c: the lines of a buffer as Neovim first reports them, and the tests on the tables of buffers
-- and file types.
pub mod Initial
pub mod Nodes
pub mod New
mod Tests
use tag_highlight_nvim.Base.{
  ℕ, Bool, true, false, List, [], ◌∷◌, Option, none, some, ◌==◌, if◌then◌else◌, Result, ok, ◌>>=◌,
}
use tag_highlight_nvim.Base.Int.{pos, negsuc, ◌==ℤ◌}
use tag_highlight_nvim.Util.LinkedList.{LinkedList}
use tag_highlight_nvim.Util.LinkedList.Remove.{ll_delete_node}
use tag_highlight_nvim.Util.LinkedList.Blist.{Pointers, ll_insert_blist_after}
use tag_highlight_nvim.Events.{Buffer}

-- The node of the only line is taken away first.
unfoldable pub delete_only : LinkedList → Result LinkedList
unfolding ll_delete_node
delete_only l = if l.qty ==ℤ pos 1 then ll_delete_node l.head l else ok l

unfoldable pub load_lines : Pointers → LinkedList → Result LinkedList
unfolding delete_only ll_insert_blist_after
load_lines strings l = do
  l' ← delete_only l
  r ← ll_insert_blist_after l'.head strings (pos 0) (negsuc 0) l'
  ok r.1

-- With the strings that nvim_buf_get_lines gives.
unfoldable pub get_initial_lines : Pointers → Buffer → Result Buffer
unfolding load_lines
get_initial_lines strings bdata = do
  l ← load_lines strings bdata.lines
  ok (record bdata { lines = l; initialized = true })
