-- ===== src/Mpack/Samples.antt =====
-- Functions on strings that stand for those of contrib/bstring in the runs on small inputs.
use tag_highlight_nvim.Base.{
  ℕ, ◌≡◌, ◌↔◌, refl, Bool, true, false, List, [], ◌∷◌, ◌++◌, arith, ◌==◌, ◌&&◌,
}
use tag_highlight_nvim.Mpack.Expect.{StringLists}

abbrev pub lists : StringLists
lists = record {
  BList = List (List ℕ);
  b_list_create_alloc = λ n. [];
  b_list_append = λ l s. l ++ s ∷ [];
  strings = λ l. l;
  create_strings = λ n. refl;
  append_strings = λ l s. refl;
}

-- Equality of strings.
abbrev pub equal : List ℕ → List ℕ → Bool
equal [] [] = true
equal [] (t ∷ ts) = false
equal (s ∷ ss) [] = false
equal (s ∷ ss) (t ∷ ts) = (s == t) && equal ss ts

pub equal_iff : (ss ts : List ℕ) → (equal ss ts ≡ true) ↔ (ss ≡ ts)
equal_iff [] [] = ((λ h. refl), (λ h. refl))
equal_iff [] (t ∷ ts) = ((λ h. cc), (λ h. cc))
equal_iff (s ∷ ss) [] = ((λ h. cc), (λ h. cc))
equal_iff (s ∷ ss) (t ∷ ts) = grind (arith, equal_iff ss ts)
