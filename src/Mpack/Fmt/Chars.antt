-- ===== src/Mpack/Fmt/Chars.antt =====
-- Each directive of the second loop of mpack_encode_fmt (mpack/mpack.c), with the arguments of a
-- message in order.
use tag_highlight_nvim.Base.{
  ℕ, zero, suc, ◌+◌, ◌*◌, ◌/◌, ◌%◌, ◌<◌, ◌≡◌, refl, ap, ◌∙◌, sym, Bool, true, false, List, [], ◌∷◌,
  ◌++◌, arith, lt→ltb, ◌==◌, if◌then◌else◌, length, get_elem?, drop, drop-length_append, Option,
  some, Result, ok, stop, ◌>>=◌,
}
use native.Mathlib.Numerals.{add-one}
use tag_highlight_nvim.Mpack.Bstring.{Bstring, Bstrings}
use tag_highlight_nvim.Mpack.Encode.{
  mpack_encode_array, mpack_encode_dictionary, mpack_encode_integer, mpack_encode_unsigned,
  mpack_encode_string, mpack_encode_boolean, mpack_encode_nil,
}
use tag_highlight_nvim.Mpack.Message.{
  Value, Values, Pairs, v_nil, v_bool, v_integer, v_unsigned, v_string, v_array, v_dict, v_end,
  v_cons, p_end, p_cons,
}
use tag_highlight_nvim.Mpack.Format.{
  d_array, d_dict, d_close, d_bool, d_long, d_unsigned, d_bstring, d_nil,
}
use tag_highlight_nvim.Mpack.Args.{
  Arg, Args, Rows, a_int, a_long, a_ulong, a_bstring, a_cons, Emitter, own_valist, other_valist,
  next_arg,
}
use tag_highlight_nvim.Mpack.Fmt.{emit_char, set_packed, push_stacks}

-- The arguments of a message, and those that follow.
unfoldable mutual
  pub args_of : Value → Args → Args
  args_of v_nil rest = rest
  args_of (v_bool b) rest = a_cons (a_int (if b then 1 else 0)) rest
  args_of (v_integer n) rest = a_cons (a_long n) rest
  args_of (v_unsigned n) rest = a_cons (a_ulong n) rest
  args_of (v_string s) rest = a_cons (a_bstring s) rest
  args_of (v_array vs) rest = args_of_values vs rest
  args_of (v_dict ps) rest = args_of_pairs ps rest

  pub args_of_values : Values → Args → Args
  args_of_values v_end rest = rest
  args_of_values (v_cons v vs) rest = args_of v (args_of_values vs rest)

  pub args_of_pairs : Pairs → Args → Args
  args_of_pairs p_end rest = rest
  args_of_pairs (p_cons k v ps) rest = args_of k (args_of v (args_of_pairs ps rest))

-- Where the arguments come from: the call's own, or a va_list behind `!`; with the other sources.
pub data Place : Type 0 where
  in_own : Option Args → Rows → Place
  in_other : Args → Rows → Place

abbrev pub place : Place → Bstring → ℕ → ℕ → Args → Emitter
place (in_own r rs) p k d args = record {
  packed = p;
  len_ctr = k;
  stacked = d;
  next_type = own_valist;
  own = args;
  ref = r;
  rows = rs;
}
place (in_other o rs) p k d args = record {
  packed = p;
  len_ctr = k;
  stacked = d;
  next_type = other_valist;
  own = o;
  ref = some args;
  rows = rs;
}

next_arg-place :
    (w : Place) (p : Bstring) (k d : ℕ) (a : Arg) (rest : Args)
    → next_arg (place w p k d (a_cons a rest)) ≡ ok (a, place w p k d rest)
unfolding next_arg
next_arg-place (in_own r rs) p k d a rest = refl
next_arg-place (in_other o rs) p k d a rest = refl

pub >>=-assoc {ℓ κ μ} :
    {A : Type ℓ} {B : Type κ} {C : Type μ} (m : Result A) (f : A → Result B) (g : B → Result C)
    → ((m >>= f) >>= g) ≡ (m >>= λ a. f a >>= g)
>>=-assoc (ok a) f g = refl
>>=-assoc (stop e) f g = refl

-- The next length, and those past it, in the rest of the lengths.
pub get_elem?-drop :
    (lens : List ℕ) (k x : ℕ) (more : List ℕ) → drop k lens ≡ x ∷ more → get_elem? lens k ≡ some x
get_elem?-drop [] zero x more h = cc
get_elem?-drop [] (suc k) x more h = cc
get_elem?-drop (y ∷ lens) zero x more h = cc
get_elem?-drop (y ∷ lens) (suc k) x more h = get_elem?-drop lens k x more h

drop_nil : (n : ℕ) → Path (List ℕ) (drop n []) []
drop_nil zero = refl
drop_nil (suc n) = refl

drop-add : (k n : ℕ) (xs : List ℕ) → drop (k + n) xs ≡ drop n (drop k xs)
drop-add zero n xs = ap (λ m. drop m xs) (omega arith)
drop-add (suc k) n [] = drop_nil (suc k + n) ∙ sym (drop_nil n)
drop-add (suc k) n (x ∷ xs) = ap (λ m. drop m (x ∷ xs)) suc_add ∙ drop-add k n xs
  where
    suc_add : suc k + n ≡ suc (k + n)
    suc_add = omega arith

pub drop_past :
    (lens : List ℕ) (k : ℕ) (xs more : List ℕ)
    → drop k lens ≡ xs ++ more
    → drop (k + length xs) lens ≡ more
drop_past lens k xs more h =
    drop-add k (length xs) lens ∙ ap (drop (length xs)) h ∙ drop-length_append xs more

even : (n : ℕ) → (2 * n % 2 == 0) ≡ true
even n = ground arith

half : (n : ℕ) → 2 * n / 2 ≡ n
half n = omega arith

-- The stacks after an opening bracket.
push_place :
    (w : Place) (r : Result Bstring) (p : Bstring) (k d : ℕ) (args : Args)
    → d < 128
    → (set_packed (place w p k d args) r >>= push_stacks)
      ≡ (r >>= λ q. ok (place w q (k + 1) (d + 1) args))
push_place w (stop e) p k d args h = refl
push_place (in_own r rs) (ok q) p k d args h = rw (lt→ltb d 128 h)
push_place (in_other o rs) (ok q) p k d args h = rw (lt→ltb d 128 h)

set_place :
    (w : Place) (r : Result Bstring) (p : Bstring) (k d : ℕ) (args : Args)
    → set_packed (place w p k d args) r ≡ (r >>= λ q. ok (place w q k d args))
set_place w (stop e) p k d args = refl
set_place (in_own r rs) (ok q) p k d args = refl
set_place (in_other o rs) (ok q) p k d args = refl

packed-place : (w : Place) (p : Bstring) (k d : ℕ) (args : Args) → (place w p k d args).packed ≡ p
packed-place (in_own r rs) p k d args = refl
packed-place (in_other o rs) p k d args = refl

module _ (B : Bstrings) where
  -- An opening bracket takes the next length.
  pub emit_array :
      (w : Place) (lens : List ℕ) (n : ℕ) (p : Bstring) (k d : ℕ) (args : Args)
      → get_elem? lens k ≡ some n
      → d < 128
      → emit_char B lens d_array (place w p k d args)
        ≡ (mpack_encode_array B n p >>= λ q. ok (place w q (k + 1) (d + 1) args))
  unfolding emit_char
  emit_array (in_own r rs) lens n p k d args g h =
      rw g (push_place (in_own r rs) (mpack_encode_array B n p) p k d args h)
  emit_array (in_other o rs) lens n p k d args g h =
      rw g (push_place (in_other o rs) (mpack_encode_array B n p) p k d args h)

  pub emit_dict :
      (w : Place) (lens : List ℕ) (n : ℕ) (p : Bstring) (k d : ℕ) (args : Args)
      → get_elem? lens k ≡ some (2 * n)
      → d < 128
      → emit_char B lens d_dict (place w p k d args)
        ≡ (mpack_encode_dictionary B n p >>= λ q. ok (place w q (k + 1) (d + 1) args))
  unfolding emit_char
  emit_dict (in_own r rs) lens n p k d args g h =
      rw (g, even n, half n) (push_place (in_own r rs) (mpack_encode_dictionary B n p) p k d args h)
  emit_dict (in_other o rs) lens n p k d args g h =
      rw (g, even n, half n)
        (push_place (in_other o rs) (mpack_encode_dictionary B n p) p k d args h)

  pub emit_close :
      (w : Place) (lens : List ℕ) (p : Bstring) (k d : ℕ) (args : Args)
      → emit_char B lens d_close (place w p k (d + 1) args) ≡ ok (place w p k d args)
  unfolding emit_char
  emit_close (in_own r rs) lens p k d args = rw (add-one d)
  emit_close (in_other o rs) lens p k d args = rw (add-one d)

  pub emit_bool :
      (w : Place) (b : Bool) (lens : List ℕ) (p : Bstring) (k d : ℕ) (args : Args)
      → emit_char B lens d_bool (place w p k d (a_cons (a_int (if b then 1 else 0)) args))
        ≡ (mpack_encode_boolean B b p >>= λ q. ok (place w q k d args))
  unfolding emit_char next_arg
  emit_bool (in_own r rs) true lens p k d args =
      set_place (in_own r rs) (mpack_encode_boolean B true p) p k d args
  emit_bool (in_other o rs) true lens p k d args =
      set_place (in_other o rs) (mpack_encode_boolean B true p) p k d args
  emit_bool (in_own r rs) false lens p k d args =
      set_place (in_own r rs) (mpack_encode_boolean B false p) p k d args
  emit_bool (in_other o rs) false lens p k d args =
      set_place (in_other o rs) (mpack_encode_boolean B false p) p k d args

  pub emit_long :
      (w : Place) (n : ℕ) (lens : List ℕ) (p : Bstring) (k d : ℕ) (args : Args)
      → emit_char B lens d_long (place w p k d (a_cons (a_long n) args))
        ≡ (mpack_encode_integer B n p >>= λ q. ok (place w q k d args))
  unfolding emit_char
  emit_long w n lens p k d args =
      rw (next_arg-place w p k d (a_long n) args, packed-place w p k d args)
        (set_place w _ p k d args)

  pub emit_unsigned :
      (w : Place) (n : ℕ) (lens : List ℕ) (p : Bstring) (k d : ℕ) (args : Args)
      → emit_char B lens d_unsigned (place w p k d (a_cons (a_ulong n) args))
        ≡ (mpack_encode_unsigned B n p >>= λ q. ok (place w q k d args))
  unfolding emit_char
  emit_unsigned w n lens p k d args =
      rw (next_arg-place w p k d (a_ulong n) args, packed-place w p k d args)
        (set_place w _ p k d args)

  pub emit_string :
      (w : Place) (s : Option (List ℕ)) (lens : List ℕ) (p : Bstring) (k d : ℕ) (args : Args)
      → emit_char B lens d_bstring (place w p k d (a_cons (a_bstring s) args))
        ≡ (mpack_encode_string B s p >>= λ q. ok (place w q k d args))
  unfolding emit_char
  emit_string w s lens p k d args =
      rw (next_arg-place w p k d (a_bstring s) args, packed-place w p k d args)
        (set_place w _ p k d args)

  pub emit_nil :
      (w : Place) (lens : List ℕ) (p : Bstring) (k d : ℕ) (args : Args)
      → emit_char B lens d_nil (place w p k d args)
        ≡ (mpack_encode_nil B p >>= λ q. ok (place w q k d args))
  unfolding emit_char
  emit_nil w lens p k d args = rw (packed-place w p k d args) (set_place w _ p k d args)
