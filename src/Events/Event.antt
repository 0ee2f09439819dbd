-- ===== src/Events/Event.antt =====
-- handle_line_event of event_handlers.c as the replacement of a range of lines.
use mathlib.Core.Path.{subst}
use tag_highlight_nvim.Base.{
  ℕ, ◌+◌, ◌^◌, ◌≤◌, ◌<◌, ◌≡◌, refl, ap, ◌∙◌, sym, true, List, [], ◌∷◌, ◌++◌, if◌then◌else◌, length,
  length-append, All, arith, ok, inl, inr, Bool-cases, Yields, yields, Yields-eq, Yields-weaken,
  Yields-bind,
}
use tag_highlight_nvim.Base.Int.{ℤ, pos}
use tag_highlight_nvim.Util.LinkedList.{LinkedList}
use tag_highlight_nvim.Util.LinkedList.Blist.{Pointers}
use tag_highlight_nvim.Util.LinkedList.Cells.{Cells, Valid, list_of}
use tag_highlight_nvim.Util.LinkedList.Ends.{int-pos}
use tag_highlight_nvim.Util.LinkedList.Take.{values}
use tag_highlight_nvim.Events.{change_lines, edit_lines}
use tag_highlight_nvim.Events.Lines.{Lines, values-append, length-values}
use tag_highlight_nvim.Events.Replace.{list_of-Lines, list_of-qty}
use tag_highlight_nvim.Events.Change.{
  padded, ignored, diff-pos, pad_lines-Lines, change_lines-Lines,
}

-- Nodes whose values are in two parts.
record Parts (zs : Cells) (us bs : List ℕ) : Type 0 where
  left : Cells
  right : Cells
  both : zs ≡ left ++ right
  left_is : values left ≡ us
  right_is : values right ≡ bs

head_of : ℕ → List ℕ → ℕ
head_of d [] = d
head_of d (v ∷ vs) = v

tail_of : List ℕ → List ℕ
tail_of [] = []
tail_of (v ∷ vs) = vs

parts : (zs : Cells) (us bs : List ℕ) → values zs ≡ us ++ bs → Parts zs us bs
unfolding tail_of head_of
parts zs [] bs e = record { left = []; right = zs; both = refl; left_is = refl; right_is = e }
parts [] (a ∷ us) bs e = absurd (omega (arith, ap length e))
parts ((p, v) ∷ zs) (a ∷ us) bs e =
    let rest = parts zs us bs (ap tail_of e) in
    record {
      left = (p, v) ∷ rest.left;
      right = rest.right;
      both = ap (λ ws. (p, v) ∷ ws) rest.both;
      left_is = ap (λ ws. v ∷ ws) rest.left_is ∙ ap (λ w. w ∷ us) (ap (head_of 0) e);
      right_is = rest.right_is;
    }

-- The lines that an event leaves.
abbrev pub new_lines : (ℕ → ℕ) → ℕ → List ℕ → List ℕ → List ℕ → Pointers → List ℕ
new_lines slen e us bs cs vs = padded e (
    if ignored slen (length (us ++ (bs ++ cs))) (length us) vs
    then us ++ (bs ++ cs)
    else us ++ (vs ++ cs))

-- An event that is ignored changes nothing.
change_lines-ignored :
    (slen : ℕ → ℕ) (a b : ℕ) (d : ℤ) (l : LinkedList) (k : ℕ) (vs : Pointers)
    → l.qty ≡ pos k
    → ignored slen k a vs ≡ true
    → change_lines slen vs (pos a) (pos b) d l ≡ ok (true, l)
unfolding change_lines
change_lines-ignored slen a b d l k [] count e = ground (arith, e)
change_lines-ignored slen a b d l k (v ∷ vs) count e = rw (count, e) refl

change_any :
    (slen : ℕ → ℕ) (n : ℕ) (xs old ys : Cells) (vs : Pointers)
    → 1 ≤ n
    → Valid n (xs ++ (old ++ ys))
    → All (λ s. 1 ≤ s) vs
    → length (xs ++ (old ++ ys)) + length vs < 2 ^ 31
    → Yields
        (λ r.
          (r.0 ≡ ignored slen (length (xs ++ (old ++ ys))) (length xs) vs)
          × Lines r.1 (
              if ignored slen (length (xs ++ (old ++ ys))) (length xs) vs
              then values xs ++ (values old ++ values ys)
              else values xs ++ (vs ++ values ys)))
        (change_lines slen vs
          (pos (length xs))
          (pos (length xs + length old))
          (pos (length old))
          (list_of n (xs ++ (old ++ ys))))
change_any slen n xs old ys vs ge valid given lt =
    let all_values =
      values-append xs (old ++ ys) ∙ ap (λ ws. values xs ++ ws) (values-append old ys) in
    elim (Bool-cases (ignored slen (length (xs ++ (old ++ ys))) (length xs) vs)) [
      | inl skip ↦
          Yields-eq _
            (change_lines-ignored slen (length xs) (length xs + length old) (pos (length old))
              (list_of n (xs ++ (old ++ ys))) (length (xs ++ (old ++ ys))) vs
              (list_of-qty n (xs ++ (old ++ ys))) skip)
            (yields
              (sym skip, rw (skip) (list_of-Lines n (xs ++ (old ++ ys)) _ ge valid all_values)))
      | inr heed ↦
          Yields-weaken _ _ (λ r h. (h.0 ∙ sym heed, rw (heed) h.1))
            (change_lines-Lines slen n xs old ys vs ge valid given lt heed)
    ]

edit_nodes :
    (slen : ℕ → ℕ) (e n : ℕ) (xs old ys : Cells) (vs : Pointers)
    → 1 ≤ n
    → Valid n (xs ++ (old ++ ys))
    → All (λ s. 1 ≤ s) vs
    → length (xs ++ (old ++ ys)) + length vs < 2 ^ 31
    → Yields
        (λ r.
          (r.0 ≡ ignored slen (length (xs ++ (old ++ ys))) (length xs) vs)
          × Lines r.1 (
              padded e (
                if ignored slen (length (xs ++ (old ++ ys))) (length xs) vs
                then values xs ++ (values old ++ values ys)
                else values xs ++ (vs ++ values ys))))
        (edit_lines slen e vs
          (pos (length xs))
          (pos (length xs + length old))
          (list_of n (xs ++ (old ++ ys))))
unfolding edit_lines
edit_nodes slen e n xs old ys vs ge valid given lt =
    let fits =
      int-pos (length old)
        (omega (arith, lt, length-append xs (old ++ ys), length-append old ys)) in
    Yields-eq _ (rw (diff-pos (length xs) (length old), fits) refl) (
      Yields-bind _ _ _ (change_any slen n xs old ys vs ge valid given lt)
        λ r h. Yields-bind _ _ _ (pad_lines-Lines e r.1 _ h.1) λ l k. yields (h.0, k))

length-parts :
    (xs old ys : Cells)
    → length (values xs ++ (values old ++ values ys)) ≡ length (xs ++ (old ++ ys))
length-parts xs old ys = omega (
  arith,
  length-append (values xs) (values old ++ values ys),
  length-append (values old) (values ys),
  length-values xs,
  length-values old,
  length-values ys,
  length-append xs (old ++ ys),
  length-append old ys,
)

edit_parts :
    (slen : ℕ → ℕ) (e : ℕ) (l : LinkedList) (us bs cs : List ℕ) (vs : Pointers) (n : ℕ)
    (xs old ys : Cells)
    → values xs ≡ us
    → values old ≡ bs
    → values ys ≡ cs
    → l ≡ list_of n (xs ++ (old ++ ys))
    → 1 ≤ n
    → Valid n (xs ++ (old ++ ys))
    → All (λ s. 1 ≤ s) vs
    → length (us ++ (bs ++ cs)) + length vs < 2 ^ 31
    → Yields
        (λ r.
          (r.0 ≡ ignored slen (length (us ++ (bs ++ cs))) (length us) vs)
          × Lines r.1 (new_lines slen e us bs cs vs))
        (edit_lines slen e vs (pos (length us)) (pos (length us + length bs)) l)
edit_parts slen e l us bs cs vs n xs old ys e₁ e₂ e₃ e₄ ge valid given lt =
    rw (e₄, sym e₁, sym e₂, sym e₃, length-parts xs old ys, length-values xs, length-values old)
      (edit_nodes slen e n xs old ys vs ge valid given
        (subst (λ m. m + length vs < 2 ^ 31) (length-parts xs old ys) (rw (e₁, e₂, e₃) lt)))

pub edit_lines-Lines :
    (slen : ℕ → ℕ) (e : ℕ) (l : LinkedList) (us bs cs : List ℕ) (vs : Pointers)
    → Lines l (us ++ (bs ++ cs))
    → All (λ s. 1 ≤ s) vs
    → length (us ++ (bs ++ cs)) + length vs < 2 ^ 31
    → Yields
        (λ r.
          (r.0 ≡ ignored slen (length (us ++ (bs ++ cs))) (length us) vs)
          × Lines r.1 (new_lines slen e us bs cs vs))
        (edit_lines slen e vs (pos (length us)) (pos (length us + length bs)) l)
edit_lines-Lines slen e l us bs cs vs h given lt =
    let p = parts h.nodes us (bs ++ cs) h.strings in
    let q = parts p.right bs cs p.right_is in
    let nodes_are : h.nodes ≡ p.left ++ (q.left ++ q.right) =
      p.both ∙ ap (λ ws. p.left ++ ws) q.both in
    edit_parts slen e l us bs cs vs h.next p.left q.left q.right p.left_is q.left_is q.right_is
      (h.is ∙ ap (list_of h.next) nodes_are) h.next_ge (subst (Valid h.next) nodes_are h.valid)
      given lt
