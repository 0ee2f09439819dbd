-- ===== src/Mpack/Object.antt =====
-- struct mpack_object and its parts (mpack/mpack.h).
use tag_highlight_nvim.Base.{ℕ, Bool, List}

-- The tag in `flags` and the union that goes with it. Integers are their 64-bit patterns; an
-- extension has its type byte, its length and the eight bytes of its union.
mutual
  pub data Obj : Type 0 where
    nil : Obj
    boolean : Bool → Obj
    signed : ℕ → Obj
    unsigned : ℕ → Obj
    ext : ℕ → ℕ → List ℕ → Obj
    str : List ℕ → Obj
    arr : Objs → Obj
    dict : Entries → Obj

  pub data Objs : Type 0 where
    no_objs : Objs
    obj_cons : Obj → Objs → Objs

  pub data Entries : Type 0 where
    no_entries : Entries
    entry : Obj → Obj → Entries → Entries
