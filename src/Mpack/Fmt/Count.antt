-- ===== src/Mpack/Fmt/Count.antt =====
-- The first loop of mpack_encode_fmt (mpack/mpack.c) on the format of a message: it finds the length
-- of each container, in the order in which they are opened.
use Prim.Native.Nat.{max}
use tag_highlight_nvim.Base.{
  ℕ, zero, suc, ◌+◌, ◌*◌, ◌≤◌, ◌<◌, ◌≡◌, refl, ap, ◌∙◌, List, [], ◌∷◌, ◌++◌, append_assoc,
  append-nil, arith, lt→ltb, length, length-append, ok, ◌>>=◌,
}
use tag_highlight_nvim.Mpack.Message.{
  Value, Values, Pairs, v_nil, v_bool, v_integer, v_unsigned, v_string, v_array, v_dict, v_end,
  v_cons, p_end, p_cons, count, count_pairs,
}
use tag_highlight_nvim.Mpack.Format.{Counts, add_at, open_count, count_loop, start_counts}

-- The format of a message, and what follows it.
unfoldable mutual
  pub fmt_of : Value → List ℕ → List ℕ
  fmt_of v_nil rest = b'n' ∷ rest
  fmt_of (v_bool b) rest = b'b' ∷ rest
  fmt_of (v_integer n) rest = b'l' ∷ rest
  fmt_of (v_unsigned n) rest = b'u' ∷ rest
  fmt_of (v_string s) rest = b's' ∷ rest
  fmt_of (v_array vs) rest = b'[' ∷ fmt_of_values vs (b']' ∷ rest)
  fmt_of (v_dict ps) rest = b'{' ∷ fmt_of_pairs ps (b'}' ∷ rest)

  pub fmt_of_values : Values → List ℕ → List ℕ
  fmt_of_values v_end rest = rest
  fmt_of_values (v_cons v vs) rest = fmt_of v (fmt_of_values vs rest)

  pub fmt_of_pairs : Pairs → List ℕ → List ℕ
  fmt_of_pairs p_end rest = rest
  fmt_of_pairs (p_cons k v ps) rest = fmt_of k (fmt_of v (fmt_of_pairs ps rest))

-- The lengths of its containers in the order of their opening brackets; a dictionary counts its
-- keys and its values.
unfoldable mutual
  pub opened : Value → List ℕ
  opened v_nil = []
  opened (v_bool b) = []
  opened (v_integer n) = []
  opened (v_unsigned n) = []
  opened (v_string s) = []
  opened (v_array vs) = count vs ∷ opened_values vs
  opened (v_dict ps) = 2 * count_pairs ps ∷ opened_pairs ps

  pub opened_values : Values → List ℕ
  opened_values v_end = []
  opened_values (v_cons v vs) = opened v ++ opened_values vs

  pub opened_pairs : Pairs → List ℕ
  opened_pairs p_end = []
  opened_pairs (p_cons k v ps) = opened k ++ (opened v ++ opened_pairs ps)

-- How deep containers are nested.
unfoldable mutual
  pub nesting : Value → ℕ
  nesting v_nil = 0
  nesting (v_bool b) = 0
  nesting (v_integer n) = 0
  nesting (v_unsigned n) = 0
  nesting (v_string s) = 0
  nesting (v_array vs) = suc (nesting_values vs)
  nesting (v_dict ps) = suc (nesting_pairs ps)

  pub nesting_values : Values → ℕ
  nesting_values v_end = 0
  nesting_values (v_cons v vs) = max (nesting v) (nesting_values vs)

  pub nesting_pairs : Pairs → ℕ
  nesting_pairs p_end = 0
  nesting_pairs (p_cons k v ps) = max (nesting k) (max (nesting v) (nesting_pairs ps))

length-add_at : (i n : ℕ) (xs : List ℕ) → length (add_at i n xs) ≡ length xs
length-add_at i n [] = refl
length-add_at zero n (x ∷ xs) = refl
length-add_at (suc i) n (x ∷ xs) = ap suc (length-add_at i n xs)

add_at-append :
    (i n : ℕ) (xs ys : List ℕ) → i < length xs → add_at i n (xs ++ ys) ≡ add_at i n xs ++ ys
add_at-append i n [] ys h = elim h [ ]
add_at-append zero n (x ∷ xs) ys h = refl
add_at-append (suc i) n (x ∷ xs) ys h = ap (λ zs. x ∷ zs) (add_at-append i n xs ys (omega arith))

add_at-add_at : (i m n : ℕ) (xs : List ℕ) → add_at i n (add_at i m xs) ≡ add_at i (m + n) xs
add_at-add_at i m n [] = refl
add_at-add_at zero m n (x ∷ xs) = ap (λ y. y ∷ xs) (omega arith)
add_at-add_at (suc i) m n (x ∷ xs) = ap (λ zs. x ∷ zs) (add_at-add_at i m n xs)

add_at-zero : (i : ℕ) (xs : List ℕ) → add_at i 0 xs ≡ xs
add_at-zero i [] = refl
add_at-zero zero (x ∷ xs) = ap (λ y. y ∷ xs) (omega arith)
add_at-zero (suc i) (x ∷ xs) = ap (λ zs. x ∷ zs) (add_at-zero i xs)

-- The new counter behind the others.
add_at-last : (i n : ℕ) (xs : List ℕ) → length xs ≡ i → add_at i n (xs ++ 0 ∷ []) ≡ xs ++ n ∷ []
add_at-last zero n [] h = ap (λ y. y ∷ []) (omega arith)
add_at-last (suc i) n [] h = absurd (omega arith)
add_at-last zero n (x ∷ xs) h = absurd (omega arith)
add_at-last (suc i) n (x ∷ xs) h = ap (λ zs. x ∷ zs) (add_at-last i n xs (omega arith))

abbrev pub counts : List ℕ → ℕ → List ℕ → Counts
counts lens cur stack = record { sub_lengths = lens; cur_len = cur; len_stack = stack }

-- The counters behind a container with k items, whose own containers are `more`.
close_lens :
    (k cur : ℕ) (lens more : List ℕ)
    → add_at (length lens) k (add_at cur 1 lens ++ 0 ∷ []) ++ more ≡ add_at cur 1 lens ++ k ∷ more
close_lens k cur lens more =
    ap (λ ls. ls ++ more)
      (add_at-last (length lens) k (add_at cur 1 lens) (length-add_at cur 1 lens))
    ∙ append_assoc (add_at cur 1 lens) (k ∷ []) more

-- The counters behind two groups of items.
join_lens :
    (i m n : ℕ) (lens xs ys : List ℕ)
    → i < length lens
    → add_at i n (add_at i m lens ++ xs) ++ ys ≡ add_at i (m + n) lens ++ (xs ++ ys)
join_lens i m n lens xs ys h =
    ap (λ ls. ls ++ ys)
      (add_at-append i n (add_at i m lens) xs (rw (length-add_at i m lens) h)
        ∙ ap (λ ls. ls ++ xs) (add_at-add_at i m n lens))
    ∙ append_assoc (add_at i (m + n) lens) xs ys

module _ (arr_size : ℕ) where
  -- Room for an item's counters, and for its nesting on the stack.
  abbrev HasCounters : List ℕ → ℕ → List ℕ → List ℕ → ℕ → Type 0
  HasCounters lens cur stack more nest =
      (cur < length lens) × (length lens + length more ≤ arr_size) × (length stack + nest ≤ 128)

  -- An opening bracket.
  open_lem :
      (lens : List ℕ) (cur : ℕ) (stack : List ℕ)
      → length stack < 128
      → length lens < arr_size
      → open_count arr_size (counts lens cur stack)
        ≡ ok (counts (add_at cur 1 lens ++ 0 ∷ []) (length lens) (cur ∷ stack))
  open_lem lens cur stack s l = rw (lt→ltb _ _ s, lt→ltb _ _ l)

  mutual
    unfolding count_loop fmt_of opened nesting

    count_value :
        (v : Value) (rest lens : List ℕ) (cur : ℕ) (stack : List ℕ)
        → HasCounters lens cur stack (opened v) (nesting v)
        → count_loop arr_size (fmt_of v rest) (counts lens cur stack)
          ≡ count_loop arr_size rest (counts (add_at cur 1 lens ++ opened v) cur stack)
    count_value v_nil rest lens cur stack h = rw (append-nil (add_at cur 1 lens))
    count_value (v_bool b) rest lens cur stack h = rw (append-nil (add_at cur 1 lens))
    count_value (v_integer n) rest lens cur stack h = rw (append-nil (add_at cur 1 lens))
    count_value (v_unsigned n) rest lens cur stack h = rw (append-nil (add_at cur 1 lens))
    count_value (v_string s) rest lens cur stack h = rw (append-nil (add_at cur 1 lens))
    count_value (v_array vs) rest lens cur stack h =
        ap (λ r. r >>= λ c'. count_loop arr_size (fmt_of_values vs (b']' ∷ rest)) c')
          (open_lem lens cur stack (omega arith) (omega arith))
        ∙ count_values vs (b']' ∷ rest) (add_at cur 1 lens ++ 0 ∷ []) (length lens) (cur ∷ stack)
            (omega (arith, length-append (add_at cur 1 lens) (0 ∷ []), length-add_at cur 1 lens))
        ∙ ap (λ ls. count_loop arr_size rest (counts ls cur stack))
            (close_lens (count vs) cur lens (opened_values vs))
    count_value (v_dict ps) rest lens cur stack h =
        ap (λ r. r >>= λ c'. count_loop arr_size (fmt_of_pairs ps (b'}' ∷ rest)) c')
          (open_lem lens cur stack (omega arith) (omega arith))
        ∙ count_pairs_lem ps (b'}' ∷ rest) (add_at cur 1 lens ++ 0 ∷ []) (length lens) (cur ∷ stack)
            (omega (arith, length-append (add_at cur 1 lens) (0 ∷ []), length-add_at cur 1 lens))
        ∙ ap (λ ls. count_loop arr_size rest (counts ls cur stack))
            (close_lens (2 * count_pairs ps) cur lens (opened_pairs ps))

    count_values :
        (vs : Values) (rest lens : List ℕ) (cur : ℕ) (stack : List ℕ)
        → HasCounters lens cur stack (opened_values vs) (nesting_values vs)
        → count_loop arr_size (fmt_of_values vs rest) (counts lens cur stack)
          ≡ count_loop arr_size rest
              (counts (add_at cur (count vs) lens ++ opened_values vs) cur stack)
    count_values v_end rest lens cur stack h =
        rw (append-nil (add_at cur 0 lens), add_at-zero cur lens)
    count_values (v_cons v vs) rest lens cur stack h =
        let grown = length-append (add_at cur 1 lens) (opened v) in
        let more = length-append (opened v) (opened_values vs) in
        count_value v (fmt_of_values vs rest) lens cur stack (omega (arith, more))
        ∙ count_values vs rest (add_at cur 1 lens ++ opened v) cur stack
            (omega (arith, grown, more, length-add_at cur 1 lens))
        ∙ ap (λ ls. count_loop arr_size rest (counts ls cur stack))
            (join_lens cur 1 (count vs) lens (opened v) (opened_values vs) h.0
              ∙ ap (λ n. add_at cur n lens ++ (opened v ++ opened_values vs)) (omega arith))

    count_pairs_lem :
        (ps : Pairs) (rest lens : List ℕ) (cur : ℕ) (stack : List ℕ)
        → HasCounters lens cur stack (opened_pairs ps) (nesting_pairs ps)
        → count_loop arr_size (fmt_of_pairs ps rest) (counts lens cur stack)
          ≡ count_loop arr_size rest
              (counts (add_at cur (2 * count_pairs ps) lens ++ opened_pairs ps) cur stack)
    count_pairs_lem p_end rest lens cur stack h =
        rw (append-nil (add_at cur 0 lens), add_at-zero cur lens)
    count_pairs_lem (p_cons k v ps) rest lens cur stack h =
        let lens₁ = add_at cur 1 lens ++ opened k in
        let grown₁ = length-append (add_at cur 1 lens) (opened k) in
        let grown₂ = length-append (add_at cur 1 lens₁) (opened v) in
        let more₁ = length-append (opened k) (opened v ++ opened_pairs ps) in
        let more₂ = length-append (opened v) (opened_pairs ps) in
        let same₁ = length-add_at cur 1 lens in
        let same₂ = length-add_at cur 1 lens₁ in
        count_value k (fmt_of v (fmt_of_pairs ps rest)) lens cur stack (omega (arith, more₁, more₂))
        ∙ count_value v (fmt_of_pairs ps rest) lens₁ cur stack
            (omega (arith, grown₁, more₁, more₂, same₁))
        ∙ count_pairs_lem ps rest (add_at cur 1 lens₁ ++ opened v) cur stack
            (omega (arith, grown₁, grown₂, more₁, more₂, same₁, same₂))
        ∙ ap (λ ls. count_loop arr_size rest (counts ls cur stack))
            (join_lens cur 1 (2 * count_pairs ps) lens₁ (opened v) (opened_pairs ps)
                (omega (arith, grown₁, same₁))
              ∙ join_lens cur 1 (1 + 2 * count_pairs ps) lens (opened k)
                  (opened v ++ opened_pairs ps) h.0
              ∙ ap (λ n. add_at cur n lens ++ (opened k ++ (opened v ++ opened_pairs ps)))
                  (omega arith))

-- On the format of a message, whose containers nest at most 128 deep and with one more do not
-- exceed the array, the first loop ends with one item at the top and the length of each container, a
-- dictionary's being twice its number of entries, in the order in which they are opened.
pub count_loop-fmt_of :
    (arr_size : ℕ) (v : Value)
    → 1 + length (opened v) ≤ arr_size
    → nesting v ≤ 128
    → count_loop arr_size (fmt_of v []) start_counts ≡ ok (counts (1 ∷ opened v) 0 [])
unfolding count_loop
count_loop-fmt_of arr_size v h k = count_value arr_size v [] (0 ∷ []) 0 [] (omega arith)
