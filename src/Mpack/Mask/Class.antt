-- ===== src/Mpack/Mask/Class.antt =====
-- The search of id_pack_type (mpack/decode.c) against the ranges of the MessagePack format.
use mathlib.Core.Bool.{decide, decide_iff}
use native.Mathlib.Decide.{ℕ_discrete}
use tag_highlight_nvim.Base.{
  ℕ, ◌-◌, ◌<◌, ◌≡◌, refl, Bool, true, false, List, [], ◌∷◌, ltb, if◌then◌else◌, Result, ok, stop,
  exit, Stop, get_elem?, Option, none, some,
}
use tag_highlight_nvim.Base.Bits.{all_below, all_below_sound}
use tag_highlight_nvim.Mpack.Mask.{
  Group, MaskType, Mask, mask, g_nil, g_bool, g_array, g_map, g_string, g_bin, g_int, g_uint,
  g_plint, g_nlint, g_ext, m_nil, m_true, m_false, m_array_f, m_array_16, m_array_32, m_fixmap_f,
  m_map_16, m_map_32, m_fixstr_f, m_str_8, m_str_16, m_str_32, m_bin_8, m_bin_16, m_bin_32, m_int_8,
  m_int_16, m_int_32, m_int_64, m_uint_8, m_uint_16, m_uint_32, m_uint_64, m_pos_int_f, m_neg_int_f,
  m_fixext_1, m_fixext_2, m_fixext_4, m_fixext_8, m_ext_8, id_pack_type,
}

-- What the format assigns to the bytes from 0xC0 to 0xDF, in order. The program has no entry for
-- 0xC1 (never used), the floats and the three longest extensions.
abbrev single : ℕ → Group → MaskType → Option Mask
single c g t = some (mask g t false c 0)

abbrev from_c0 : List (Option Mask)
from_c0 =
    single 0xC0 g_nil m_nil
    ∷ none
    ∷ single 0xC2 g_bool m_false
    ∷ single 0xC3 g_bool m_true
    ∷ single 0xC4 g_bin m_bin_8
    ∷ single 0xC5 g_bin m_bin_16
    ∷ single 0xC6 g_bin m_bin_32
    ∷ single 0xC7 g_ext m_ext_8
    ∷ none
    ∷ none
    ∷ none
    ∷ none
    ∷ single 0xCC g_uint m_uint_8
    ∷ single 0xCD g_uint m_uint_16
    ∷ single 0xCE g_uint m_uint_32
    ∷ single 0xCF g_uint m_uint_64
    ∷ single 0xD0 g_int m_int_8
    ∷ single 0xD1 g_int m_int_16
    ∷ single 0xD2 g_int m_int_32
    ∷ single 0xD3 g_int m_int_64
    ∷ single 0xD4 g_ext m_fixext_1
    ∷ single 0xD5 g_ext m_fixext_2
    ∷ single 0xD6 g_ext m_fixext_4
    ∷ single 0xD7 g_ext m_fixext_8
    ∷ none
    ∷ single 0xD9 g_string m_str_8
    ∷ single 0xDA g_string m_str_16
    ∷ single 0xDB g_string m_str_32
    ∷ single 0xDC g_array m_array_16
    ∷ single 0xDD g_array m_array_32
    ∷ single 0xDE g_map m_map_16
    ∷ single 0xDF g_map m_map_32
    ∷ []

abbrev or_exit : Option Mask → Result Mask
or_exit none = stop (exit 1)
or_exit (some m) = ok m

-- The first byte of an object, by the ranges of the format.
abbrev pub format_of : ℕ → Result Mask
format_of ch =
    if ltb ch 0x80
    then ok (mask g_plint m_pos_int_f true 0x00 7)
    else if ltb ch 0x90
    then ok (mask g_map m_fixmap_f true 0x80 4)
    else if ltb ch 0xA0
    then ok (mask g_array m_array_f true 0x90 4)
    else if ltb ch 0xC0
    then ok (mask g_string m_fixstr_f true 0xA0 5)
    else if ltb ch 0xE0
    then elim (get_elem? from_c0 (ch - 0xC0)) [ some o ↦ or_exit o | none ↦ stop (exit 1) ]
    else ok (mask g_nlint m_neg_int_f true 0xE0 5)

Group-discrete : Discrete Group
Group-discrete = hlevel

MaskType-discrete : Discrete MaskType
MaskType-discrete = hlevel

Mask-discrete : Discrete Mask
Mask-discrete = hlevel (ℕ_discrete, Group-discrete, MaskType-discrete)

Stop-discrete : Discrete Stop
Stop-discrete = hlevel ℕ_discrete

outcome-discrete : Discrete (Result Mask)
outcome-discrete = hlevel (Stop-discrete, Mask-discrete)

agrees : ℕ → Bool
agrees ch = decide (outcome-discrete (id_pack_type ch) (format_of ch))

table_agrees : all_below 256 agrees ≡ true
unfolding all_below agrees id_pack_type outcome-discrete Stop-discrete Mask-discrete Group-discrete
    MaskType-discrete ℕ_discrete decide
table_agrees = refl

-- For every byte the search of the table finds the entry that the MessagePack format assigns to
-- it by its ranges, and exits where the program supports no such byte.
pub id_pack_type-format_of : (ch : ℕ) → ch < 256 → id_pack_type ch ≡ format_of ch
unfolding agrees
id_pack_type-format_of ch h =
    (decide_iff (outcome-discrete (id_pack_type ch) (format_of ch))).0
      (all_below_sound agrees 256 table_agrees ch h)
