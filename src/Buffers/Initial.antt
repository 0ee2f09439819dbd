-- ===== src/Buffers/Initial.antt =====
-- get_initial_lines of buffer.c.
use tag_highlight_nvim.Base.{
  ℕ, suc, ◌+◌, ◌^◌, ◌≤◌, ◌<◌, ◌≡◌, refl, ap, ◌∙◌, sym, true, false, List, [], ◌∷◌, ◌++◌, append-nil,
  ◌==◌, length, All, arith, ok, Yields, yields, Yields-eq, Yields-bind, ◌>>=◌,
}
use mathlib.Core.Path.{subst}
use tag_highlight_nvim.Base.Int.{pos, negsuc}
use tag_highlight_nvim.Util.LinkedList.{LinkedList}
use tag_highlight_nvim.Util.LinkedList.Blist.{Pointers, ll_insert_blist_after}
use tag_highlight_nvim.Util.LinkedList.Cells.{Cells, last, Valid, list_of}
use tag_highlight_nvim.Util.LinkedList.Gap.{fresh_cells, Valid-insert}
use tag_highlight_nvim.Util.LinkedList.InsertBlist.{left_behind}
use tag_highlight_nvim.Util.LinkedList.InsertRange.{given_node, ll_insert_blist_after_lem}
use tag_highlight_nvim.Util.LinkedList.DeleteNode.{ll_delete_node_lem}
use tag_highlight_nvim.Util.LinkedList.Take.{values}
use tag_highlight_nvim.Events.{Buffer}
use tag_highlight_nvim.Events.Lines.{Lines, length-values}
use tag_highlight_nvim.Events.Replace.{list_of-Lines, values-between, ends_at}
use tag_highlight_nvim.Buffers.{delete_only, load_lines, get_initial_lines}

-- The lines after new ones have been loaded: at most one old line is replaced, and of several ones the
-- first stays in front of the new lines.
abbrev pub loaded : List ℕ → List ℕ → List ℕ
loaded (u ∷ w ∷ ws) vs = u ∷ (vs ++ (w ∷ ws))
loaded _ vs = vs

module _ (n v : ℕ) (vs : Pointers) (ge : 1 ≤ n) (given : All (λ s. 1 ≤ s) (v ∷ vs)) where
  insert_all :
      (xs ys : Cells)
      → Valid n (xs ++ ys)
      → length (xs ++ ys) + suc (length vs) < 2 ^ 31
      → given_node xs ys ≡ true
      → ll_insert_blist_after (last 0 xs) (v ∷ vs) (pos 0) (negsuc 0) (list_of n (xs ++ ys))
        ≡ ok (
          left_behind [] v vs [],
          list_of (n + suc (length vs)) (xs ++ (fresh_cells n (v ∷ vs) ++ ys)),
        )
  insert_all xs ys valid lt here =
      subst
        (λ ws.
          ll_insert_blist_after (last 0 xs) (v ∷ ws) (pos 0) (negsuc 0) (list_of n (xs ++ ys))
          ≡ ok (
            left_behind [] v vs [],
            list_of (n + suc (length vs)) (xs ++ (fresh_cells n (v ∷ vs) ++ ys)),
          ))
        (append-nil vs)
        (ll_insert_blist_after_lem n v vs [] [] (pos 0) (negsuc 0) xs ys ge given refl
          (ends_at [] vs v) valid lt here)

  load_behind :
      (l : LinkedList) (xs ys : Cells) (ws : List ℕ)
      → delete_only l ≡ ok (list_of n (xs ++ ys))
      → (list_of n (xs ++ ys)).head ≡ last 0 xs
      → Valid n (xs ++ ys)
      → length (xs ++ ys) + suc (length vs) < 2 ^ 31
      → given_node xs ys ≡ true
      → values xs ++ ((v ∷ vs) ++ values ys) ≡ ws
      → Yields (λ l'. Lines l' ws) (load_lines (v ∷ vs) l)
  unfolding load_lines
  load_behind l xs ys ws deleted at valid lt here e =
      Yields-eq _
        (rw deleted (
          ap
            (λ p.
              ll_insert_blist_after p (v ∷ vs) (pos 0) (negsuc 0) (list_of n (xs ++ ys)) >>= λ r.
              ok r.1)
            at
          ∙ ap (λ m. m >>= λ r. ok r.1) (insert_all xs ys valid lt here)))
        (yields (
          list_of-Lines _ _ ws (omega (arith, ge)) (Valid-insert n (v ∷ vs) xs ys ge valid)
            (values-between xs ys n (v ∷ vs) ∙ e)))

  load_nodes :
      (xs : Cells)
      → Valid n xs
      → length xs + suc (length vs) < 2 ^ 31
      → Yields (λ l. Lines l (loaded (values xs) (v ∷ vs))) (load_lines (v ∷ vs) (list_of n xs))
  unfolding delete_only list_of
  load_nodes [] valid lt =
      load_behind (list_of n []) [] [] (v ∷ vs) refl refl valid lt refl (append-nil (v ∷ vs))
  load_nodes ((p, u) ∷ []) valid lt =
      load_behind (list_of n ((p, u) ∷ [])) [] [] (v ∷ vs)
        (ll_delete_node_lem n p u [] [] valid (omega arith)) refl valid.3 (omega (arith, lt)) refl
        (append-nil (v ∷ vs))
  load_nodes ((p, u) ∷ (q, w) ∷ ys) valid lt =
      let several : (suc (suc (length ys)) == 1) ≡ false = ground arith in
      load_behind (list_of n ((p, u) ∷ (q, w) ∷ ys)) ((p, u) ∷ []) ((q, w) ∷ ys) _ (rw several refl)
        refl valid lt refl refl

-- A buffer whose list of lines is well formed, and at least one string from Neovim, none of them a
-- NULL pointer, with fewer than 2^31 lines in all: get_initial_lines runs to its end and marks the
-- buffer as initialized. The strings are the lines of a buffer that had at most one line; in a buffer
-- that had several, they stand behind its first line. The list is well formed.
pub get_initial_lines-Lines :
    (v : ℕ) (vs us : List ℕ) (bdata : Buffer)
    → Lines bdata.lines us
    → All (λ s. 1 ≤ s) (v ∷ vs)
    → length us + suc (length vs) < 2 ^ 31
    → Yields
        (λ b.
          Lines b.lines (loaded us (v ∷ vs))
          × (b ≡ record bdata { lines = b.lines; initialized = true }))
        (get_initial_lines (v ∷ vs) bdata)
unfolding get_initial_lines
get_initial_lines-Lines v vs us bdata h given lt =
    Yields-bind _ _ (λ l. ok (record bdata { lines = l; initialized = true }))
      (loaded_from bdata.lines h) λ l k. yields (k, refl)
  where
    loaded_from :
        (l : LinkedList)
        → Lines l us
        → Yields (λ l'. Lines l' (loaded us (v ∷ vs))) (load_lines (v ∷ vs) l)
    loaded_from l k =
        let count : length k.nodes ≡ length us =
          sym (length-values k.nodes) ∙ ap length k.strings in
        Yields-eq _ (ap (load_lines (v ∷ vs)) k.is) (
          subst
            (λ ws.
              Yields (λ l'. Lines l' (loaded ws (v ∷ vs)))
                (load_lines (v ∷ vs) (list_of k.next k.nodes)))
            k.strings
            (load_nodes k.next v vs k.next_ge given k.nodes k.valid (omega (arith, lt, count))))
