-- ===== src/Mpack/Fmt/Emit.antt =====
-- The second loop of mpack_encode_fmt (mpack/mpack.c) on the format of a message: it makes the
-- encoders' calls for the message, with the arguments taken in order.
use tag_highlight_nvim.Base.{
  ℕ, ◌+◌, ◌*◌, ◌≤◌, ◌≡◌, refl, ap, ◌∙◌, sym, List, [], ◌∷◌, ◌++◌, append_assoc, arith, length,
  length-append, drop, Result, ok, stop, ◌>>=◌,
}
use tag_highlight_nvim.Mpack.Bstring.{Bstring, Bstrings}
use tag_highlight_nvim.Mpack.Encode.{
  mpack_encode_array, mpack_encode_dictionary, mpack_encode_integer, mpack_encode_unsigned,
  mpack_encode_string, mpack_encode_boolean, mpack_encode_nil,
}
use tag_highlight_nvim.Mpack.Message.{
  Value, Values, Pairs, v_nil, v_bool, v_integer, v_unsigned, v_string, v_array, v_dict, v_end,
  v_cons, p_end, p_cons, count, count_pairs, encode_value, encode_values, encode_pairs,
}
use tag_highlight_nvim.Mpack.Format.{directive, d_close}
use tag_highlight_nvim.Mpack.Args.{Args, Emitter}
use tag_highlight_nvim.Mpack.Fmt.{emit_loop}
use tag_highlight_nvim.Mpack.Fmt.Count.{
  fmt_of, fmt_of_values, fmt_of_pairs, opened, opened_values, opened_pairs, nesting, nesting_values,
  nesting_pairs,
}
use tag_highlight_nvim.Mpack.Fmt.Chars.{
  args_of, args_of_values, args_of_pairs, Place, place, >>=-assoc, get_elem?-drop, drop_past,
  emit_array, emit_dict, emit_close, emit_bool, emit_long, emit_unsigned, emit_string, emit_nil,
}

-- One character that makes a call, and the rest of the format.
step :
    {m : Result Emitter} (r : Result Bstring) (f : Bstring → Result Emitter)
    (g : Emitter → Result Emitter)
    → m ≡ (r >>= f)
    → (m >>= g) ≡ (r >>= λ q. f q >>= g)
step r f g e = ap (λ m. m >>= g) e ∙ >>=-assoc r f g

-- The rest of a sequence of calls, replaced.
>>=-next :
    (r : Result Bstring) (f g : Bstring → Result Emitter)
    → ((q : Bstring) → f q ≡ g q)
    → (r >>= f) ≡ (r >>= g)
>>=-next (ok q) f g h = h q
>>=-next (stop e) f g h = refl

module _ (B : Bstrings) (w : Place) (lens : List ℕ) where
  -- The rest of the format, from another position that is the same number.
  at_position :
      (rest : List ℕ) (more : Args) (d : ℕ) (m : Result Bstring) (j k : ℕ)
      → j ≡ k
      → (m >>= λ q. emit_loop B lens rest (place w q j d more))
        ≡ (m >>= λ q. emit_loop B lens rest (place w q k d more))
  at_position rest more d m j k h =
      ap (λ n. m >>= λ q. emit_loop B lens rest (place w q n d more)) h

  close_bracket :
      (ch : ℕ)
      → directive ch ≡ d_close
      → (rest : List ℕ) (more : Args) (d j k : ℕ) (p : Bstring) → j ≡ k
      → emit_loop B lens (ch ∷ rest) (place w p j (d + 1) more)
        ≡ emit_loop B lens rest (place w p k d more)
  unfolding emit_loop
  close_bracket ch c rest more d j k p h =
      rw (c, emit_close B w lens p j d more)
        (ap (λ n. emit_loop B lens rest (place w p n d more)) h)

  mutual
    unfolding emit_loop fmt_of args_of opened nesting encode_value directive

    pub emit_value :
        (v : Value) (rest after : List ℕ) (more : Args) (k d : ℕ) (p : Bstring)
        → drop k lens ≡ opened v ++ after
        → d + nesting v ≤ 128
        → emit_loop B lens (fmt_of v rest) (place w p k d (args_of v more)) ≡ (
            encode_value B v p >>= λ q.
            emit_loop B lens rest (place w q (k + length (opened v)) d more))
    emit_value v_nil rest after more k d p g h =
        step (mpack_encode_nil B p) _ _ (emit_nil B w lens p k d more)
        ∙ at_position rest more d (mpack_encode_nil B p) k (k + 0) (omega arith)
    emit_value (v_bool b) rest after more k d p g h =
        step (mpack_encode_boolean B b p) _ _ (emit_bool B w b lens p k d more)
        ∙ at_position rest more d (mpack_encode_boolean B b p) k (k + 0) (omega arith)
    emit_value (v_integer n) rest after more k d p g h =
        step (mpack_encode_integer B n p) _ _ (emit_long B w n lens p k d more)
        ∙ at_position rest more d (mpack_encode_integer B n p) k (k + 0) (omega arith)
    emit_value (v_unsigned n) rest after more k d p g h =
        step (mpack_encode_unsigned B n p) _ _ (emit_unsigned B w n lens p k d more)
        ∙ at_position rest more d (mpack_encode_unsigned B n p) k (k + 0) (omega arith)
    emit_value (v_string s) rest after more k d p g h =
        step (mpack_encode_string B s p) _ _ (emit_string B w s lens p k d more)
        ∙ at_position rest more d (mpack_encode_string B s p) k (k + 0) (omega arith)
    emit_value (v_array vs) rest after more k d p g h =
        step (mpack_encode_array B (count vs) p) _ _ (
          emit_array B w lens (count vs) p k d (args_of_values vs more)
            (get_elem?-drop lens k (count vs) (opened_values vs ++ after) g) (omega arith))
        ∙ >>=-next (mpack_encode_array B (count vs) p) _ _ (λ q.
          emit_values vs (b']' ∷ rest) after more (k + 1) (d + 1) q
            (drop_past lens k (count vs ∷ []) (opened_values vs ++ after) g) (omega arith)
          ∙ >>=-next (encode_values B vs q) _ _ (λ q'.
            close_bracket b']' refl rest more d (k + 1 + length (opened_values vs)) _ q'
              (omega arith)))
        ∙ sym (>>=-assoc (mpack_encode_array B (count vs) p) _ _)
    emit_value (v_dict ps) rest after more k d p g h =
        step (mpack_encode_dictionary B (count_pairs ps) p) _ _ (
          emit_dict B w lens (count_pairs ps) p k d (args_of_pairs ps more)
            (get_elem?-drop lens k (2 * count_pairs ps) (opened_pairs ps ++ after) g) (omega arith))
        ∙ >>=-next (mpack_encode_dictionary B (count_pairs ps) p) _ _ (λ q.
          emit_pairs ps (b'}' ∷ rest) after more (k + 1) (d + 1) q
            (drop_past lens k (2 * count_pairs ps ∷ []) (opened_pairs ps ++ after) g) (omega arith)
          ∙ >>=-next (encode_pairs B ps q) _ _ (λ q'.
            close_bracket b'}' refl rest more d (k + 1 + length (opened_pairs ps)) _ q'
              (omega arith)))
        ∙ sym (>>=-assoc (mpack_encode_dictionary B (count_pairs ps) p) _ _)

    emit_values :
        (vs : Values) (rest after : List ℕ) (more : Args) (k d : ℕ) (p : Bstring)
        → drop k lens ≡ opened_values vs ++ after
        → d + nesting_values vs ≤ 128
        → emit_loop B lens (fmt_of_values vs rest) (place w p k d (args_of_values vs more)) ≡ (
            encode_values B vs p >>= λ q.
            emit_loop B lens rest (place w q (k + length (opened_values vs)) d more))
    emit_values v_end rest after more k d p g h =
        ap (λ n. emit_loop B lens rest (place w p n d more)) (omega arith)
    emit_values (v_cons v vs) rest after more k d p g h =
        let g' = g ∙ append_assoc (opened v) (opened_values vs) after in
        emit_value v (fmt_of_values vs rest) (opened_values vs ++ after) (args_of_values vs more) k
          d p g' (omega arith)
        ∙ >>=-next (encode_value B v p) _ _ (λ q.
          emit_values vs rest after more (k + length (opened v)) d q
            (drop_past lens k (opened v) (opened_values vs ++ after) g') (omega arith)
          ∙ at_position rest more d (encode_values B vs q) _ _
              (omega (arith, length-append (opened v) (opened_values vs))))
        ∙ sym (>>=-assoc (encode_value B v p) _ _)

    emit_pairs :
        (ps : Pairs) (rest after : List ℕ) (more : Args) (k d : ℕ) (p : Bstring)
        → drop k lens ≡ opened_pairs ps ++ after
        → d + nesting_pairs ps ≤ 128
        → emit_loop B lens (fmt_of_pairs ps rest) (place w p k d (args_of_pairs ps more)) ≡ (
            encode_pairs B ps p >>= λ q.
            emit_loop B lens rest (place w q (k + length (opened_pairs ps)) d more))
    emit_pairs p_end rest after more k d p g h =
        ap (λ n. emit_loop B lens rest (place w p n d more)) (omega arith)
    emit_pairs (p_cons x v ps) rest after more k d p g h =
        let g' =
          g
          ∙ append_assoc (opened x) (opened v ++ opened_pairs ps) after
          ∙ ap (λ ls. opened x ++ ls) (append_assoc (opened v) (opened_pairs ps) after) in
        let g₁ = drop_past lens k (opened x) (opened v ++ (opened_pairs ps ++ after)) g' in
        emit_value x (fmt_of v (fmt_of_pairs ps rest)) (opened v ++ (opened_pairs ps ++ after))
          (args_of v (args_of_pairs ps more)) k d p g' (omega arith)
        ∙ >>=-next (encode_value B x p) _ _ (λ q.
          emit_value v (fmt_of_pairs ps rest) (opened_pairs ps ++ after) (args_of_pairs ps more)
            (k + length (opened x)) d q g₁ (omega arith)
          ∙ >>=-next (encode_value B v q) _ _ (λ q'.
            emit_pairs ps rest after more (k + length (opened x) + length (opened v)) d q'
              (drop_past lens (k + length (opened x)) (opened v) (opened_pairs ps ++ after) g₁)
              (omega arith)
            ∙ at_position rest more d (encode_pairs B ps q') _ _ (
                omega (
                  arith,
                  length-append (opened x) (opened v ++ opened_pairs ps),
                  length-append (opened v) (opened_pairs ps),
                )))
          ∙ sym (>>=-assoc (encode_value B v q) _ _))
        ∙ sym (>>=-assoc (encode_value B x p) _ _)
