-- ===== src/Mpack/Stream/Slots.antt =====
-- The table of mutexes of mpack_decode_stream (mpack/decode.c).
use Prim.{tt}
use tag_highlight_nvim.Base.{
  All, ◌≢◌, ℕ, suc, ◌≡◌, refl, ap, ◌∙◌, sym, Bool, true, false, [], ◌∷◌, Option, none, some, ◌==◌,
  ==_iff, ==_refl, if◌then◌else◌, Bool-cases, ◌⊎◌, inl, inr, Result, ok, stop, exit, ◌>>=◌,
}
use tag_highlight_nvim.Mpack.Stream.{Slots, find_slot, take_slot, mutex_of, found_slot}

-- The descriptor has an entry in the new table, and the other descriptors keep theirs; or every entry
-- is taken.
pub data Assigns (fd i : ℕ) (slots : Slots) : Result (ℕ × Slots) → Type 0 where
  full : All (λ s. s ≢ none) slots → Assigns fd i slots (stop (exit 1))
  assigned :
      {j : ℕ} {slots' : Slots}
      → find_slot fd i slots' ≡ some j
      → ((fd' k : ℕ) → find_slot fd' i slots ≡ some k → find_slot fd' i slots' ≡ some k)
      → Assigns fd i slots (ok (j, slots'))

keep_head :
    (fd' a i k : ℕ) (xs ys : Slots)
    → (find_slot fd' (suc i) xs ≡ some k → find_slot fd' (suc i) ys ≡ some k)
    → find_slot fd' i (some a ∷ xs) ≡ some k
    → find_slot fd' i (some a ∷ ys) ≡ some k
unfolding find_slot
keep_head fd' a i k xs ys rest h = same (Bool-cases (a == fd'))
  where
    same : ((a == fd') ≡ true) ⊎ ((a == fd') ≡ false) → find_slot fd' i (some a ∷ ys) ≡ some k
    same (inl e) = rw e (rw e at h)
    same (inr e) = rw e (rest (rw e at h))

behind :
    (fd a i : ℕ) (slots : Slots) {r : Result (ℕ × Slots)}
    → (a == fd) ≡ false
    → Assigns fd (suc i) slots r
    → Assigns fd i (some a ∷ slots) (r >>= λ (j, slots'). ok (j, some a ∷ slots'))
unfolding find_slot
behind fd a i slots e (full taken) = full ((λ h. cc), taken)
behind fd a i slots e (assigned {j} {slots'} own others) =
    assigned (rw e own) (λ fd' k h. keep_head fd' a i k slots slots' (others fd' k) h)

take_slot-Assigns :
    (fd i : ℕ) (slots : Slots)
    → find_slot fd i slots ≡ none
    → Assigns fd i slots (take_slot fd i slots)
unfolding find_slot take_slot
take_slot-Assigns fd i [] free = full tt
take_slot-Assigns fd i (none ∷ slots) free = assigned (rw (==_refl fd)) kept
  where
    kept :
        (fd' k : ℕ)
        → find_slot fd' i (none ∷ slots) ≡ some k
        → find_slot fd' i (some fd ∷ slots) ≡ some k
    kept fd' k h = other (Bool-cases (fd == fd'))
      where
        other :
            ((fd == fd') ≡ true) ⊎ ((fd == fd') ≡ false)
            → find_slot fd' i (some fd ∷ slots) ≡ some k
        other (inl e) =
            let clash : Path (Option ℕ) none (some k) =
              sym free ∙ ap (λ x. find_slot x (suc i) slots) ((==_iff fd fd').0 e) ∙ h in
            cc
        other (inr e) = rw e h
take_slot-Assigns fd i (some a ∷ slots) free =
    not_head (a == fd) refl free λ rest. take_slot-Assigns fd (suc i) slots rest
  where
    not_head :
        (x : Bool)
        → (a == fd) ≡ x
        → (if x then some i else find_slot fd (suc i) slots) ≡ none
        → (find_slot fd (suc i) slots ≡ none
            → Assigns fd (suc i) slots (take_slot fd (suc i) slots))
        → Assigns fd i
            (some a ∷ slots)
            (take_slot fd (suc i) slots >>= λ (j, slots'). ok (j, some a ∷ slots'))
    not_head true e h next = cc
    not_head false e h next = behind fd a i slots e (next h)

-- The mutex that a descriptor is given is the one that the new table has for it, and the other
-- descriptors keep theirs; the program exits only if every entry is taken.
pub mutex_of-Assigns : (fd : ℕ) (slots : Slots) → Assigns fd 0 slots (mutex_of fd slots)
unfolding mutex_of
mutex_of-Assigns fd slots = by_found (find_slot fd 0 slots) refl
  where
    by_found :
        (o : Option ℕ) → find_slot fd 0 slots ≡ o → Assigns fd 0 slots (found_slot fd slots o)
    by_found (some i) e = assigned e (λ fd' k h. h)
    by_found none e = take_slot-Assigns fd 0 slots e
