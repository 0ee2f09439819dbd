-- ===== src/Lang/Tok.antt =====
-- lang/ctags_scan/tok.c: the identifiers of a buffer, in the C locale, where no byte from 128 on is a
-- letter; a char may be signed, and isalpha is taken to answer for the negative ones as it does for
-- these bytes.
pub mod Blocks
pub mod Words
mod Tests
use tag_highlight_nvim.Base.{
  ℕ, zero, suc, ◌+◌, ◌-◌, Bool, true, false, ◌&&◌, ◌||◌, List, [], ◌∷◌, ◌++◌, Option, none, some,
  leb, ◌==◌, if◌then◌else◌, length, Result, ok, stop, undefined, out_of_fuel, ◌>>=◌,
}

abbrev isalpha : ℕ → Bool
isalpha ch = (leb b'a' ch && leb ch b'z') || (leb b'A' ch && leb ch b'Z')

abbrev isalnum : ℕ → Bool
isalnum ch = isalpha ch || (leb b'0' ch && leb ch b'9')

unfoldable pub c_func : ℕ → Bool → Bool
c_func ch true = (ch == b'_') || isalpha ch
c_func ch false = (ch == b'_') || isalnum ch

unfoldable pub vim_func : ℕ → Bool → Bool
vim_func ch true = (ch == b'_') || isalpha ch
vim_func ch false = (ch == b'_') || ((ch == b':') || isalnum ch)

-- The buffer is what stands before its terminating NUL. The loop of strsep_f: the token, and
-- `*stringp` afterwards.
unfoldable pub strsep_loop : (ℕ → Bool → Bool) → Bool → List ℕ → Result (List ℕ × Option (List ℕ))
strsep_loop check first [] = if check 0 first then stop undefined else ok ([], none)
strsep_loop check first (ch ∷ buf) =
    let rest = strsep_loop check false buf in
    if check ch first
    then (rest >>= λ (tok, next). ok (ch ∷ tok, next))
    else if ch == 0
    then ok ([], none)
    else ok ([], some buf)

unfoldable pub strsep_f : (ℕ → Bool → Bool) → List ℕ → Result (List ℕ × Option (List ℕ))
unfolding strsep_loop
strsep_f check buf = strsep_loop check true buf

-- The arguments of a call of b_refblk: the bytes that it refers to, up to their NUL, and the length.
abbrev pub Block : Type 0
Block = List ℕ × ℕ

-- The body of do_tokenize for a token that is not empty; `vimbuf - tok` needs both pointers.
unfoldable pub c_blocks : List ℕ → List Block
c_blocks tok = (tok, length tok + 1) ∷ []

-- strchr
unfoldable pub index_of : ℕ → List ℕ → Option ℕ
index_of ch [] = none
index_of ch (c ∷ cs) =
    let rest = index_of ch cs in
    if c == ch then some 0 else elim rest [ none ↦ none | some i ↦ some (suc i) ]

abbrev pub colon_block : List ℕ → Option ℕ → List Block
colon_block tok none = []
colon_block tok (some col) = (tok, length tok + 1 - col) ∷ []

-- The body of tokenize_vim: the second block is from the token's start, too.
unfoldable pub vim_blocks : List ℕ → List Block
unfolding index_of
vim_blocks tok = (tok, length tok + 1) ∷ colon_block tok (index_of b':' tok)

-- The loops of do_tokenize and tokenize_vim, on fuel, with what they append for a token.
module _ (check : ℕ → Bool → Bool) (blocks : List ℕ → List Block) where
  abbrev pub refer : List ℕ → Option (List ℕ) → Result (List Block)
  refer [] next = ok []
  refer (ch ∷ tok) none = stop undefined
  refer (ch ∷ tok) (some buf) = ok (blocks (ch ∷ tok))

  unfoldable pub token_loop : ℕ → Option (List ℕ) → Result (List Block)
  unfolding strsep_f
  token_loop fuel none = ok []
  token_loop zero (some buf) = stop out_of_fuel
  token_loop (suc fuel) (some buf) = strsep_f check buf >>= λ (tok, next).
      refer tok next >>= λ bs. token_loop fuel next >>= λ more. ok (bs ++ more)

unfoldable pub do_tokenize : (ℕ → Bool → Bool) → List ℕ → Result (List Block)
unfolding token_loop c_blocks
do_tokenize check buf = token_loop check c_blocks (suc (length buf)) (some buf)

unfoldable pub tokenize_vim : (ℕ → Bool → Bool) → List ℕ → Result (List Block)
unfolding token_loop vim_blocks
tokenize_vim check buf = token_loop check vim_blocks (suc (length buf)) (some buf)

-- Whether the buffer's file type is FT_VIM.
unfoldable pub tokenize : Bool → List ℕ → Result (List Block)
unfolding do_tokenize tokenize_vim c_func vim_func
tokenize true buf = tokenize_vim vim_func buf
tokenize false buf = do_tokenize c_func buf
