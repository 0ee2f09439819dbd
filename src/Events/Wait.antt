-- ===== src/Events/Wait.antt =====
-- handle_nvim_response of event_handlers.c: an answer of Neovim given to the thread that waits for it.
use tag_highlight_nvim.Base.{
  ℕ, zero, suc, ◌<◌, ◌%◌, ◌^◌, arith, ◌≡◌, refl, ap, ◌∙◌, Bool, true, false, ◌&&◌, List, [], ◌∷◌,
  ◌++◌, append_assoc, append-nil, leb, Option, some, ◌==◌, if◌then◌else◌, length, All, Result, ok,
  stop, blocked, out_of_fuel, ◌>>=◌,
}
use tag_highlight_nvim.Mpack.Object.{Obj, Objs, arr, obj_cons}
use tag_highlight_nvim.Mpack.Expect.{StringLists, number, qty, e_num, mpack_expect}
use tag_highlight_nvim.Mpack.Expect.Retry.{Matches}
use tag_highlight_nvim.Events.{item_at}
use tag_highlight_nvim.Events.Dispatch.{mpack_index, expect_number, expect_number-Matches}

-- struct nvim_wait_node
pub record WaitNode : Type 0 where
  pub fd : ℕ
  pub count : ℕ
  pub obj : Option Obj

-- The loop, on the nodes of nvim_wait_queue, the oldest first. A loop that has emptied the queue
-- waits for a node to be pushed.
unfoldable pub wait_loop : ℕ → ℕ → ℕ → List WaitNode → Result (WaitNode × List WaitNode)
wait_loop zero fd count queue = stop out_of_fuel
wait_loop (suc fuel) fd count [] = stop blocked
wait_loop (suc fuel) fd count (node ∷ queue) =
    let rest = wait_loop fuel fd count (queue ++ (node ∷ [])) in
    if (node.fd == fd) && (node.count == count) then ok (node, queue) else rest

-- Standard input stands for standard output.
abbrev pub answered_fd : ℕ → ℕ
answered_fd fd = if fd == 0 then 1 else fd

-- The node that is woken, and the queue. `fuel` is mpack_expect's, `rounds` the loop's.
module _ (L : StringLists) (fuel rounds : ℕ) where
  unfoldable pub handle_nvim_response : Obj → ℕ → List WaitNode → Result (WaitNode × List WaitNode)
  unfolding mpack_index mpack_expect wait_loop item_at
  handle_nvim_response obj fd queue = do
    o ← mpack_index L obj 1
    n ← expect_number L fuel o
    r ← wait_loop rounds (answered_fd fd) (n % 2 ^ 32) queue
    ok (record r.0 { obj = some obj }, r.1)

abbrev waits_for : ℕ → ℕ → WaitNode → Bool
waits_for fd count node = (node.fd == fd) && (node.count == count)

wait_loop-skipped :
    (fd count rounds : ℕ) (skipped rest : List WaitNode) (node : WaitNode)
    → length skipped < rounds
    → All (λ n. waits_for fd count n ≡ false) skipped
    → waits_for fd count node ≡ true
    → wait_loop rounds fd count (skipped ++ (node ∷ rest)) ≡ ok (node, rest ++ skipped)
unfolding wait_loop
wait_loop-skipped fd count zero skipped rest node lt others h = absurd (omega (arith, lt))
wait_loop-skipped fd count (suc r) [] rest node lt others h = rw (h, append-nil rest) refl
wait_loop-skipped fd count (suc r) (n ∷ skipped) rest node lt others h =
    rw (others.0, append_assoc skipped (node ∷ rest) (n ∷ []))
      (wait_loop-skipped fd count r skipped (rest ++ (n ∷ [])) node (omega (arith, lt)) others.1 h
        ∙ ap (λ q. ok (node, q)) (append_assoc rest (n ∷ []) skipped))

module _ (L : StringLists) (x : Obj) (others : Objs) (c fd fuel rounds : ℕ) where
  abbrev answer : Obj → Obj
  answer counted = arr (obj_cons x (obj_cons counted others))

  indexed : (counted : Obj) → leb 1 (qty L (obj_cons x (obj_cons counted others))) ≡ true
  indexed counted = ground arith

  -- An answer of Neovim whose second item is a number goes to the oldest node of the queue that waits
  -- for this number on its descriptor, 1 for 0, wherever the node stands. The nodes in front of it have
  -- gone to the end of the queue in their order, and the loop takes one round more than they are.
  pub handle_nvim_response_lem :
      (counted : Obj) (skipped rest : List WaitNode) (node : WaitNode)
      → Matches L e_num counted (number c)
      → length skipped < rounds
      → All (λ n. waits_for (answered_fd fd) (c % 2 ^ 32) n ≡ false) skipped
      → waits_for (answered_fd fd) (c % 2 ^ 32) node ≡ true
      → handle_nvim_response L (suc fuel) rounds (answer counted) fd (skipped ++ (node ∷ rest))
        ≡ ok (record node { obj = some (answer counted) }, rest ++ skipped)
  unfolding handle_nvim_response
  handle_nvim_response_lem counted skipped rest node m lt away h = rw (indexed counted) (
      ap
        (λ r. r >>= λ n.
          wait_loop rounds (answered_fd fd) (n % 2 ^ 32) (skipped ++ (node ∷ rest)) >>= λ r.
          ok (record r.0 { obj = some (answer counted) }, r.1))
        (expect_number-Matches L fuel c counted m)
      ∙ ap (λ r. r >>= λ r. ok (record r.0 { obj = some (answer counted) }, r.1))
          (wait_loop-skipped (answered_fd fd) (c % 2 ^ 32) rounds skipped rest node lt away h))
