-- ===== src/Events/Samples.antt =====
-- A buffer of two lines for the runs on small inputs.
use Prim.{tt}
use tag_highlight_nvim.Base.{refl, true, false, [], ◌∷◌, arith}
use tag_highlight_nvim.Util.LinkedList.Cells.{Cells, list_of}
use tag_highlight_nvim.Events.{Buffer}
use tag_highlight_nvim.Events.Lines.{Lines}

abbrev pub two : Cells
two = (1, 10) ∷ (2, 20) ∷ []

abbrev pub buffer : Buffer
buffer = record { lines = list_of 3 two; initialized = false; ctick = 4; has_parser = true }

pub two-Lines : Lines (list_of 3 two) (10 ∷ 20 ∷ [])
two-Lines = record {
  next = 3;
  next_ge = omega arith;
  nodes = two;
  valid = (omega arith, omega arith, refl, (omega arith, omega arith, refl, tt));
  is = refl;
  strings = refl;
}
