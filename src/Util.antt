-- ===== src/Util.antt =====
-- The containers of util/.
pub mod Genlist
pub mod LinkedList
mod Tests
