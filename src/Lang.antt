-- ===== src/Lang.antt =====
-- The languages of lang/.
pub mod Tok
