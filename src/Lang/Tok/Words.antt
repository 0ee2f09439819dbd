-- ===== src/Lang/Tok/Words.antt =====
-- The loops of lang/ctags_scan/tok.c against a description of a buffer's words.
use mathlib.Core.Path.{subst}
use tag_highlight_nvim.Base.{
  ℕ, zero, suc, ◌<◌, ◌≡◌, ◌≢◌, refl, sym, Bool, true, false, List, [], ◌∷◌, ◌++◌, append_assoc,
  none, some, All, ◌==◌, arith, length, length-append, ok, stop, undefined,
}
use tag_highlight_nvim.Lang.Tok.{
  c_func, vim_func, strsep_loop, strsep_f, Block, c_blocks, vim_blocks, token_loop, tokenize,
}
use tag_highlight_nvim.Lang.Tok.Blocks.{
  check_of, func_of, blocks_for, Refers, blocks_for-Refers, c_func-check_of, vim_func-check_of,
}

-- What is appended for all the words.
abbrev blocks_of : (List ℕ → List Block) → List (List ℕ) → List Block
blocks_of blocks [] = []
blocks_of blocks (w ∷ ws) = blocks w ++ blocks_of blocks ws

module _ (check : ℕ → Bool → Bool) where
  -- A word: a character that may start one, and characters that may go on.
  pub record IsWord (ch : ℕ) (tok : List ℕ) : Type 0 where
    pub starts : check ch true ≡ true
    pub goes_on : All (λ c. check c false ≡ true) tok

  -- The words of a buffer in which each one is followed by a character that it does not have.
  pub data Splits : List ℕ → List (List ℕ) → Type 0 where
    no_words : Splits [] []
    skipped :
        {ch : ℕ} {buf : List ℕ} {words : List (List ℕ)}
        → check ch true ≡ false
        → ch ≢ 0
        → Splits buf words
        → Splits (ch ∷ buf) words
    word :
        {ch : ℕ} (tok : List ℕ) {stop_ch : ℕ} {buf : List ℕ} {words : List (List ℕ)}
        → IsWord ch tok
        → check stop_ch false ≡ false
        → stop_ch ≢ 0
        → Splits buf words
        → Splits (ch ∷ tok ++ stop_ch ∷ buf) ((ch ∷ tok) ∷ words)

  strsep_loop-word :
      (tok : List ℕ) (stop_ch : ℕ) (buf : List ℕ)
      → All (λ c. check c false ≡ true) tok
      → check stop_ch false ≡ false
      → stop_ch ≢ 0
      → strsep_loop check false (tok ++ stop_ch ∷ buf) ≡ ok (tok, some buf)
  unfolding strsep_loop
  strsep_loop-word [] stop_ch buf h e n =
      let nonzero : (stop_ch == 0) ≡ false = ground arith in rw (e, nonzero)
  strsep_loop-word (c ∷ tok) stop_ch buf h e n = rw (h.0, strsep_loop-word tok stop_ch buf h.1 e n)

  strsep_loop-end :
      (tok : List ℕ)
      → All (λ c. check c false ≡ true) tok
      → check 0 false ≡ false
      → strsep_loop check false tok ≡ ok (tok, none)
  unfolding strsep_loop
  strsep_loop-end [] h e = rw e
  strsep_loop-end (c ∷ tok) h e = rw (h.0, strsep_loop-end tok h.1 e)

  module _ (blocks : List ℕ → List Block) where
    token_loop-Splits :
        (fuel : ℕ) (buf : List ℕ) (words : List (List ℕ))
        → check 0 true ≡ false
        → Splits buf words
        → length buf < fuel
        → token_loop check blocks fuel (some buf) ≡ ok (blocks_of blocks words)
    unfolding token_loop strsep_f strsep_loop
    token_loop-Splits zero buf words z s h = absurd (omega arith)
    token_loop-Splits (suc fuel) _ _ z no_words h = rw z
    token_loop-Splits (suc fuel) _ _ z (skipped {ch} {buf} {words} e n s) h =
        let nonzero : (ch == 0) ≡ false = ground arith in
        rw (e, nonzero, token_loop-Splits fuel buf words z s (omega arith))
    token_loop-Splits (suc fuel) _ _ z (word {ch} tok {stop_ch} {buf} {words} w e n s) h = rw (
      w.starts,
      strsep_loop-word tok stop_ch buf w.goes_on e n,
      token_loop-Splits fuel buf words z s (omega (arith, length-append tok (stop_ch ∷ buf))),
    )

    -- A word at the end of the buffer, behind such a part.
    token_loop-unfinished :
        (fuel : ℕ) (buf : List ℕ) (words : List (List ℕ)) (ch : ℕ) (tok : List ℕ)
        → check 0 false ≡ false
        → Splits buf words
        → IsWord ch tok
        → length buf < fuel
        → token_loop check blocks fuel (some (buf ++ ch ∷ tok)) ≡ stop undefined
    unfolding token_loop strsep_f strsep_loop
    token_loop-unfinished zero buf words ch tok z s w h = absurd (omega arith)
    token_loop-unfinished (suc fuel) _ _ ch tok z no_words w h =
        rw (w.starts, strsep_loop-end tok w.goes_on z)
    token_loop-unfinished (suc fuel) _ _ ch tok z (skipped {ch = c} {buf} {words} e n s) w h =
        let nonzero : (c == 0) ≡ false = ground arith in
        rw (e, nonzero, token_loop-unfinished fuel buf words ch tok z s w (omega arith))
    token_loop-unfinished (suc fuel) _ _ ch tok z (word {ch = c} t {stop_ch} {buf} {words} v e n s)
          w h =
        rw (
          append_assoc t (stop_ch ∷ buf) (ch ∷ tok),
          v.starts,
          strsep_loop-word t stop_ch (buf ++ ch ∷ tok) v.goes_on e n,
          token_loop-unfinished fuel buf words ch tok z s w
              (omega (arith, length-append t (stop_ch ∷ buf))),
        )

-- The blocks of words, one word after the other.
pub data ReferAll (is_vim : Bool) : List (List ℕ) → List Block → Type 0 where
  refer_none : ReferAll is_vim [] []
  refer_next :
      {w : List ℕ} {words : List (List ℕ)} {bs cs : List Block}
      → Refers is_vim w bs
      → ReferAll is_vim words cs
      → ReferAll is_vim (w ∷ words) (bs ++ cs)

blocks_of-ReferAll :
    (is_vim : Bool) (words : List (List ℕ))
    → ReferAll is_vim words (blocks_of (blocks_for is_vim) words)
blocks_of-ReferAll is_vim [] = refer_none
blocks_of-ReferAll is_vim (w ∷ words) =
    refer_next (blocks_for-Refers is_vim w) (blocks_of-ReferAll is_vim words)

-- The program's tests are those of the description.
checks : (P : (ℕ → Bool → Bool) → Type 0) (is_vim : Bool) → P (check_of is_vim) → P (func_of is_vim)
checks P true h = subst P (sym vim_func-check_of) h
checks P false h = subst P (sym c_func-check_of) h

tokenize-blocks_of :
    (is_vim : Bool) (buf : List ℕ) (words : List (List ℕ))
    → Splits (func_of is_vim) buf words
    → tokenize is_vim buf ≡ ok (blocks_of (blocks_for is_vim) words)
unfolding tokenize c_func vim_func
tokenize-blocks_of true buf words s =
    token_loop-Splits vim_func vim_blocks (suc (length buf)) buf words refl s (omega arith)
tokenize-blocks_of false buf words s =
    token_loop-Splits c_func c_blocks (suc (length buf)) buf words refl s (omega arith)

tokenize-IsWord :
    (is_vim : Bool) (buf : List ℕ) (words : List (List ℕ)) (ch : ℕ) (tok : List ℕ)
    → Splits (func_of is_vim) buf words
    → IsWord (func_of is_vim) ch tok
    → tokenize is_vim (buf ++ ch ∷ tok) ≡ stop undefined
unfolding tokenize c_func vim_func
tokenize-IsWord true buf words ch tok s w =
    token_loop-unfinished vim_func vim_blocks (suc (length (buf ++ ch ∷ tok))) buf words ch tok refl
      s w (omega (arith, length-append buf (ch ∷ tok)))
tokenize-IsWord false buf words ch tok s w =
    token_loop-unfinished c_func c_blocks (suc (length (buf ++ ch ∷ tok))) buf words ch tok refl s w
      (omega (arith, length-append buf (ch ∷ tok)))

-- In a buffer whose words are each followed by a character that no word of the file type goes on with,
-- exactly the blocks of its words are appended, in the order of the words: for each word one from the
-- word's start with a byte more than the word has, and in a Vim buffer, for a word with a colon, a
-- second one from the same start, with a byte more than the word has from its first colon on.
pub tokenize-Splits :
    (is_vim : Bool) (buf : List ℕ) (words : List (List ℕ))
    → Splits (check_of is_vim) buf words
    → (blocks : List Block) × (tokenize is_vim buf ≡ ok blocks) × ReferAll is_vim words blocks
tokenize-Splits is_vim buf words s = (
  _,
  tokenize-blocks_of is_vim buf words (checks (λ f. Splits f buf words) is_vim s),
  blocks_of-ReferAll is_vim words,
)

-- At a word that ends with the buffer, the length is computed from a NULL pointer, for every file
-- type.
pub tokenize-unfinished :
    (is_vim : Bool) (buf : List ℕ) (words : List (List ℕ)) (ch : ℕ) (tok : List ℕ)
    → Splits (check_of is_vim) buf words
    → IsWord (check_of is_vim) ch tok
    → tokenize is_vim (buf ++ ch ∷ tok) ≡ stop undefined
tokenize-unfinished is_vim buf words ch tok s w =
    tokenize-IsWord is_vim buf words ch tok (checks (λ f. Splits f buf words) is_vim s)
      (checks (λ f. IsWord f ch tok) is_vim w)
