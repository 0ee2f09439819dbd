-- ===== src/Mpack/Mask.antt =====
-- The table of type bytes (mpack/intern.h, mpack/data.c) and the search in it (mpack/decode.c).
pub mod Class
use tag_highlight_nvim.Base.{
  ℕ, ◌/◌, ◌^◌, Bool, true, false, List, [], ◌∷◌, ◌==◌, if◌then◌else◌, Result, ok, stop, exit,
}

-- enum m_groups
pub data Group : Type 0 where
  g_nil g_bool g_array g_map g_string g_bin g_int g_uint g_plint g_nlint g_ext : Group

-- enum m_types: those that the table names.
pub data MaskType : Type 0 where
  m_nil m_true m_false : MaskType
  m_array_f m_array_16 m_array_32 : MaskType
  m_fixmap_f m_map_16 m_map_32 : MaskType
  m_fixstr_f m_str_8 m_str_16 m_str_32 : MaskType
  m_bin_8 m_bin_16 m_bin_32 : MaskType
  m_int_8 m_int_16 m_int_32 m_int_64 : MaskType
  m_uint_8 m_uint_16 m_uint_32 m_uint_64 : MaskType
  m_pos_int_f m_neg_int_f : MaskType
  m_fixext_1 m_fixext_2 m_fixext_4 m_fixext_8 m_ext_8 : MaskType

-- struct mpack_mask, less the name that is printed.
pub record Mask : Type 0 where
  pub group : Group
  pub type : MaskType
  pub fixed : Bool
  pub val : ℕ
  pub shift : ℕ

abbrev pub mask : Group → MaskType → Bool → ℕ → ℕ → Mask
mask g t f v s = record { group = g; type = t; fixed = f; val = v; shift = s }

-- m_masks
abbrev pub m_masks : List Mask
m_masks =
    mask g_nil m_nil false 0xC0 0
    ∷ mask g_bool m_true false 0xC3 0
    ∷ mask g_bool m_false false 0xC2 0
    ∷ mask g_string m_str_8 false 0xD9 0
    ∷ mask g_string m_str_16 false 0xDA 0
    ∷ mask g_string m_str_32 false 0xDB 0
    ∷ mask g_array m_array_16 false 0xDC 0
    ∷ mask g_array m_array_32 false 0xDD 0
    ∷ mask g_map m_map_16 false 0xDE 0
    ∷ mask g_map m_map_32 false 0xDF 0
    ∷ mask g_bin m_bin_8 false 0xC4 0
    ∷ mask g_bin m_bin_16 false 0xC5 0
    ∷ mask g_bin m_bin_32 false 0xC6 0
    ∷ mask g_int m_int_8 false 0xD0 0
    ∷ mask g_int m_int_16 false 0xD1 0
    ∷ mask g_int m_int_32 false 0xD2 0
    ∷ mask g_int m_int_64 false 0xD3 0
    ∷ mask g_uint m_uint_8 false 0xCC 0
    ∷ mask g_uint m_uint_16 false 0xCD 0
    ∷ mask g_uint m_uint_32 false 0xCE 0
    ∷ mask g_uint m_uint_64 false 0xCF 0
    ∷ mask g_ext m_ext_8 false 0xC7 0
    ∷ mask g_ext m_fixext_1 false 0xD4 0
    ∷ mask g_ext m_fixext_2 false 0xD5 0
    ∷ mask g_ext m_fixext_4 false 0xD6 0
    ∷ mask g_ext m_fixext_8 false 0xD7 0
    ∷ mask g_string m_fixstr_f true 0xA0 5
    ∷ mask g_array m_array_f true 0x90 4
    ∷ mask g_map m_fixmap_f true 0x80 4
    ∷ mask g_plint m_pos_int_f true 0x00 7
    ∷ mask g_nlint m_neg_int_f true 0xE0 5
    ∷ []

-- The test of one entry in the loop of id_pack_type.
abbrev pub fits : ℕ → Mask → Bool
fits ch m = if m.fixed then ch / 2 ^ m.shift == m.val / 2 ^ m.shift else ch == m.val

-- The loop: the first entry that fits, or errx(1).
unfoldable pub find_mask : ℕ → List Mask → Result Mask
find_mask ch [] = stop (exit 1)
find_mask ch (m ∷ ms) = let rest = find_mask ch ms in if fits ch m then ok m else rest

unfoldable pub id_pack_type : ℕ → Result Mask
unfolding find_mask
id_pack_type ch = find_mask ch m_masks
