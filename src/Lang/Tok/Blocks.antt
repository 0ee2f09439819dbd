-- ===== src/Lang/Tok/Blocks.antt =====
-- What tokenize_vim and do_tokenize of lang/ctags_scan/tok.c append for a word, against a description of
-- it.
use Prim.{tt}
use mathlib.Core.Path.{fun_ext}
use tag_highlight_nvim.Base.{
  ℕ, suc, ◌+◌, ◌-◌, ◌≡◌, ◌≢◌, Bool, true, false, List, [], ◌∷◌, ◌++◌, Option, none, some, All, ◌==◌,
  leb, ◌&&◌, ◌||◌, Bool-cases, inl, inr, arith, length, length-append,
}
use tag_highlight_nvim.Lang.Tok.{
  c_func, vim_func, Block, c_blocks, vim_blocks, colon_block, index_of,
}

-- The characters of a word, by the file type: a letter or an underscore may start one; a digit may
-- follow, and in a Vim buffer a colon.
abbrev letter : ℕ → Bool
letter ch = (leb 65 ch && leb ch 90) || (leb 97 ch && leb ch 122)

abbrev digit : ℕ → Bool
digit ch = leb 48 ch && leb ch 57

abbrev pub check_of : Bool → ℕ → Bool → Bool
check_of is_vim ch true = letter ch || (ch == 95)
check_of is_vim ch false = letter ch || ((ch == 95) || (digit ch || (is_vim && (ch == 58))))

pub c_func-check_of : c_func ≡ check_of false
unfolding c_func
c_func-check_of = fun_ext λ ch. fun_ext λ first. same ch first
  where
    same : (ch : ℕ) (first : Bool) → c_func ch first ≡ check_of false ch first
    same ch true = ground arith
    same ch false = ground arith

pub vim_func-check_of : vim_func ≡ check_of true
unfolding vim_func
vim_func-check_of = fun_ext λ ch. fun_ext λ first. same ch first
  where
    same : (ch : ℕ) (first : Bool) → vim_func ch first ≡ check_of true ch first
    same ch true = ground arith
    same ch false = ground arith

abbrev pub func_of : Bool → ℕ → Bool → Bool
func_of true = vim_func
func_of false = c_func

-- The blocks for a token.
abbrev pub blocks_for : Bool → List ℕ → List Block
blocks_for true = vim_blocks
blocks_for false = c_blocks

-- The blocks of a word by the file type: one from its start with a byte more than the word has; and in
-- a Vim buffer, for a word with a colon, a second one from its start, with a byte more than the word has
-- from its first colon on.
pub data Refers : Bool → List ℕ → List Block → Type 0 where
  in_c : (w : List ℕ) → Refers false w ((w, length w + 1) ∷ [])
  plain : {w : List ℕ} → All (λ c. c ≢ b':') w → Refers true w ((w, length w + 1) ∷ [])
  scoped :
      (pre post : List ℕ)
      → All (λ c. c ≢ b':') pre
      → Refers true (pre ++ b':' ∷ post) (
          (pre ++ b':' ∷ post, length (pre ++ b':' ∷ post) + 1)
          ∷ (pre ++ b':' ∷ post, length post + 2)
          ∷ [])

-- Where strchr finds the first colon.
data Colon : List ℕ → Option ℕ → Type 0 where
  absent : {w : List ℕ} → All (λ c. c ≢ b':') w → Colon w none
  found :
      (pre post : List ℕ) → All (λ c. c ≢ b':') pre → Colon (pre ++ b':' ∷ post) (some (length pre))

Colon-cons :
    {w : List ℕ} {o : Option ℕ} (c : ℕ)
    → c ≢ b':'
    → Colon w o
    → Colon (c ∷ w) (elim o [ none ↦ none | some i ↦ some (suc i) ])
Colon-cons c n (absent h) = absent (n, h)
Colon-cons c n (found pre post h) = found (c ∷ pre) post (n, h)

index_of-Colon : (w : List ℕ) → Colon w (index_of b':' w)
unfolding index_of
index_of-Colon [] = absent tt
index_of-Colon (c ∷ w) = elim (Bool-cases (c == b':')) [
  | inl here ↦ let same : c ≡ b':' = ground arith in rw (here, same) (found [] w tt)
  | inr other ↦ rw other (Colon-cons c (ground arith) (index_of-Colon w))
]

vim_blocks-Refers : (w : List ℕ) → Refers true w (vim_blocks w)
unfolding vim_blocks
vim_blocks-Refers w = by_colon w (index_of b':' w) (index_of-Colon w)
  where
    by_colon :
        (tok : List ℕ) (o : Option ℕ)
        → Colon tok o
        → Refers true tok ((tok, length tok + 1) ∷ colon_block tok o)
    by_colon tok _ (absent h) = plain h
    by_colon _ _ (found pre post h) =
        let tok = pre ++ b':' ∷ post in
        let size : length tok + 1 - length pre ≡ length post + 2 =
          omega (arith, length-append pre (b':' ∷ post)) in
        rw size (scoped pre post h)

pub blocks_for-Refers : (is_vim : Bool) (w : List ℕ) → Refers is_vim w (blocks_for is_vim w)
unfolding c_blocks
blocks_for-Refers true w = vim_blocks-Refers w
blocks_for-Refers false w = in_c w
