-- ===== src/Mpack/Message/Meaning.antt =====
-- The object that a message stands for, and the object that mpack/decode.c makes of its bytes.
use tag_highlight_nvim.Base.{ℕ, ◌-◌, ◌^◌, ◌≡◌, refl, ap, false, ◌&&◌, ltb, arith, if◌then◌else◌}
use tag_highlight_nvim.Mpack.Object.{
  Obj, Objs, Entries, nil, boolean, signed, unsigned, str, arr, dict, no_objs, obj_cons, no_entries,
  entry,
}
use tag_highlight_nvim.Mpack.Encode.{or_empty}
use tag_highlight_nvim.Mpack.Message.{
  Value, Values, Pairs, v_nil, v_bool, v_integer, v_unsigned, v_string, v_array, v_dict, v_end,
  v_cons, p_end, p_cons,
}
use tag_highlight_nvim.Mpack.Message.Numbers.{decoded_integer}

-- The object of a message, by what an integer becomes.
unfoldable mutual
  pub object_by : (ℕ → Obj) → Value → Obj
  object_by int v_nil = nil
  object_by int (v_bool b) = boolean b
  object_by int (v_integer n) = int n
  object_by int (v_unsigned n) = unsigned n
  object_by int (v_string s) = str (or_empty s)
  object_by int (v_array vs) = arr (objects_by int vs)
  object_by int (v_dict ps) = dict (entries_by int ps)

  pub objects_by : (ℕ → Obj) → Values → Objs
  objects_by int v_end = no_objs
  objects_by int (v_cons v vs) = obj_cons (object_by int v) (objects_by int vs)

  pub entries_by : (ℕ → Obj) → Pairs → Entries
  entries_by int p_end = no_entries
  entries_by int (p_cons k v ps) = entry (object_by int k) (object_by int v) (entries_by int ps)

-- The value itself; the decoder marks one that is not negative as unsigned.
abbrev integer_object : ℕ → Obj
integer_object n = if ltb n (2 ^ 63) then unsigned n else signed n

abbrev pub object_of : Value → Obj
object_of v = object_by integer_object v

-- What the decoder makes of the bytes.
abbrev pub decoded : Value → Obj
decoded v = object_by decoded_integer v

abbrev pub decoded_values : Values → Objs
decoded_values vs = objects_by decoded_integer vs

abbrev pub decoded_pairs : Pairs → Entries
decoded_pairs ps = entries_by decoded_integer ps

-- No integer is from -127 to -33.
abbrev mutual
  pub IsExact : Value → Type 0
  IsExact v_nil = Unit {0}
  IsExact (v_bool b) = Unit {0}
  IsExact (v_integer n) = (ltb (2 ^ 64 - 128) n && ltb n (2 ^ 64 - 32)) ≡ false
  IsExact (v_unsigned n) = Unit {0}
  IsExact (v_string s) = Unit {0}
  IsExact (v_array vs) = AreExact vs
  IsExact (v_dict ps) = ArePairsExact ps

  AreExact : Values → Type 0
  AreExact v_end = Unit {0}
  AreExact (v_cons v vs) = IsExact v × AreExact vs

  ArePairsExact : Pairs → Type 0
  ArePairsExact p_end = Unit {0}
  ArePairsExact (p_cons k v ps) = IsExact k × IsExact v × ArePairsExact ps

decoded_integer-exact :
    (n : ℕ)
    → (ltb (2 ^ 64 - 128) n && ltb n (2 ^ 64 - 32)) ≡ false
    → decoded_integer n ≡ integer_object n
decoded_integer-exact n h = ground (arith, h)

mutual
  unfolding object_by

  pub decoded-object_of : (v : Value) → IsExact v → decoded v ≡ object_of v
  decoded-object_of v_nil h = refl
  decoded-object_of (v_bool b) h = refl
  decoded-object_of (v_integer n) h = decoded_integer-exact n h
  decoded-object_of (v_unsigned n) h = refl
  decoded-object_of (v_string s) h = refl
  decoded-object_of (v_array vs) h = ap arr (objects-exact vs h)
  decoded-object_of (v_dict ps) h = ap dict (entries-exact ps h)

  objects-exact : (vs : Values) → AreExact vs → decoded_values vs ≡ objects_by integer_object vs
  objects-exact v_end h = refl
  objects-exact (v_cons v vs) h = rw (decoded-object_of v h.0, objects-exact vs h.1)

  entries-exact : (ps : Pairs) → ArePairsExact ps → decoded_pairs ps ≡ entries_by integer_object ps
  entries-exact p_end h = refl
  entries-exact (p_cons k v ps) h =
      rw (decoded-object_of k h.0, decoded-object_of v h.1, entries-exact ps h.2)
