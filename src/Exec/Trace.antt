-- ===== src/Exec/Trace.antt =====
-- What is true of the effects since some point of the trace.
use goldfish.Prelude.{List, ◌∷◌}
use goldfish.World.{Effect}

-- Each effect that is newer than `base` satisfies `P`, which may speak of the effects before it.
pub data Since (P : Effect → List Effect → Type 0) (base : List Effect) : List Effect → Type 0 where
  none_yet : Since P base base
  effect : {e : Effect} {t : List Effect} → P e t → Since P base t → Since P base (e ∷ t)
