-- ===== src/Util/LinkedList/Tests.antt =====
-- Runs of util/linked_list.c on small lists.
use Prim.{tt}
use tag_highlight_nvim.Base.{◌≡◌, refl, false, [], ◌∷◌, arith, ok}
use tag_highlight_nvim.Base.Int.{pos, negsuc}
use tag_highlight_nvim.Util.LinkedList.Remove.{ll_delete_range, ll_pop, ll_dequeue}
use tag_highlight_nvim.Util.LinkedList.At.{ll_at}
use tag_highlight_nvim.Util.LinkedList.Blist.{ll_insert_blist_after, ll_insert_blist_before}
use tag_highlight_nvim.Util.LinkedList.Cells.{Cells, Valid, list_of}
use tag_highlight_nvim.Util.LinkedList.Index.{ll_at-node_for}
use tag_highlight_nvim.Util.LinkedList.Take.{seen_after, ll_dequeue_cuts}
use tag_highlight_nvim.Util.LinkedList.Refine.{
  ll_insert_blist_after-list_of, ll_insert_blist_before-list_of, ll_delete_range-list_of, verified,
  ll_pop-ll_verify_size,
}

abbrev two : Cells
two = (1, 10) ∷ (2, 20) ∷ []

two-Valid : Valid 3 two
two-Valid = (omega arith, omega arith, refl, (omega arith, omega arith, refl, tt))

ll_insert_blist_after-list_of_example :
    (ll_insert_blist_after 1 (30 ∷ 40 ∷ []) (pos 0) (negsuc 0) (list_of 3 two)
      ≡ ok (0 ∷ 0 ∷ [], list_of 5 ((1, 10) ∷ (3, 30) ∷ (4, 40) ∷ (2, 20) ∷ [])))
    × Valid 5 ((1, 10) ∷ (3, 30) ∷ (4, 40) ∷ (2, 20) ∷ [])
ll_insert_blist_after-list_of_example =
    ll_insert_blist_after-list_of 3 30 (40 ∷ []) [] [] (pos 0) (negsuc 0) ((1, 10) ∷ [])
      ((2, 20) ∷ []) (omega arith) (omega arith, (omega arith, tt)) refl refl two-Valid
      (omega arith) refl

ll_insert_blist_before-list_of_example :
    (ll_insert_blist_before 2 (30 ∷ 40 ∷ []) (pos 0) (negsuc 0) (list_of 3 two)
      ≡ ok (0 ∷ 0 ∷ [], list_of 5 ((1, 10) ∷ (3, 30) ∷ (4, 40) ∷ (2, 20) ∷ [])))
    × Valid 5 ((1, 10) ∷ (3, 30) ∷ (4, 40) ∷ (2, 20) ∷ [])
ll_insert_blist_before-list_of_example =
    ll_insert_blist_before-list_of 3 30 (40 ∷ []) [] [] (pos 0) (negsuc 0) ((1, 10) ∷ [])
      ((2, 20) ∷ []) (omega arith) (omega arith, (omega arith, tt)) refl refl two-Valid
      (omega arith) refl

ll_delete_range-list_of_example :
    (ll_delete_range 1 (pos 2) (list_of 3 two) ≡ ok (list_of 3 [])) × Valid 3 []
ll_delete_range-list_of_example =
    ll_delete_range-list_of 3 2 1 10 [] ((2, 20) ∷ []) two-Valid (omega arith)

ll_pop-ll_verify_size_example :
    verified 1 (ll_pop (list_of 3 two)) ≡ ok (20, (false, list_of 3 ((1, 10) ∷ [])))
ll_pop-ll_verify_size_example =
    ll_pop-ll_verify_size 1 3 2 20 ((1, 10) ∷ []) two-Valid (omega arith)

ll_at-node_for_example : ll_at (negsuc 1) (list_of 3 two) ≡ ok 1
ll_at-node_for_example = ll_at-node_for 3 two (negsuc 1) two-Valid

ll_dequeue_cuts_example :
    seen_after 2 (ll_dequeue (list_of 4 ((1, 10) ∷ (2, 20) ∷ (3, 30) ∷ []))) ≡ ok (10, 20 ∷ [])
ll_dequeue_cuts_example = ll_dequeue_cuts 4 1 1 10 2 20 ((3, 30) ∷ []) (
  omega arith,
  omega arith,
  refl,
  (omega arith, omega arith, refl, (omega arith, omega arith, refl, tt)),
)
