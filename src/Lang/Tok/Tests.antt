-- ===== src/Lang/Tok/Tests.antt =====
-- Runs of lang/ctags_scan/tok.c and its theorems at a line of C.
use Prim.{tt}
use tag_highlight_nvim.Base.{
  ℕ, ◌≡◌, refl, true, false, List, [], ◌∷◌, ◌++◌, arith, ok, stop, undefined,
}
use tag_highlight_nvim.Lang.Tok.{Block, tokenize}
use tag_highlight_nvim.Lang.Tok.Blocks.{check_of}
use tag_highlight_nvim.Lang.Tok.Words.{
  IsWord, Splits, no_words, skipped, word, ReferAll, tokenize-Splits, tokenize-unfinished,
}

-- `+a1;`
abbrev line : List ℕ
line = b'+' ∷ b'a' ∷ b'1' ∷ b';' ∷ []

a1-IsWord : IsWord (check_of false) b'a' (b'1' ∷ [])
a1-IsWord = record { starts = refl; goes_on = (refl, tt) }

line-Splits : Splits (check_of false) line ((b'a' ∷ b'1' ∷ []) ∷ [])
line-Splits = skipped refl (omega arith) (word (b'1' ∷ []) a1-IsWord refl (omega arith) no_words)

line_run : tokenize false line ≡ ok ((b'a' ∷ b'1' ∷ [], 3) ∷ [])
unfolding tokenize
line_run = refl

vim_run :
    tokenize true (b'g' ∷ b':' ∷ b'x' ∷ b'=' ∷ [])
    ≡ ok ((b'g' ∷ b':' ∷ b'x' ∷ [], 4) ∷ (b'g' ∷ b':' ∷ b'x' ∷ [], 3) ∷ [])
unfolding tokenize
vim_run = refl

-- `g:x=`
abbrev vim_line : List ℕ
vim_line = b'g' ∷ b':' ∷ b'x' ∷ b'=' ∷ []

vim_line-Splits : Splits (check_of true) vim_line ((b'g' ∷ b':' ∷ b'x' ∷ []) ∷ [])
vim_line-Splits =
    word (b':' ∷ b'x' ∷ []) (record { starts = refl; goes_on = (refl, (refl, tt)) }) refl
      (omega arith) no_words

tokenize-Splits_example :
    (blocks : List Block) × (tokenize true vim_line ≡ ok blocks)
    × ReferAll true ((b'g' ∷ b':' ∷ b'x' ∷ []) ∷ []) blocks
tokenize-Splits_example =
    tokenize-Splits true vim_line ((b'g' ∷ b':' ∷ b'x' ∷ []) ∷ []) vim_line-Splits

tokenize-unfinished_example : tokenize false (line ++ b'a' ∷ b'1' ∷ []) ≡ stop undefined
tokenize-unfinished_example =
    tokenize-unfinished false line ((b'a' ∷ b'1' ∷ []) ∷ []) b'a' (b'1' ∷ []) line-Splits a1-IsWord
