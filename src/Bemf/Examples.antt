-- ===== src/Bemf/Examples.antt =====
-- Runs of the zero-cross detection.
use rm32_private.Base.{Bool, true, false, List, [], ◌∷◌}
use rm32_private.Bemf.{BemfState, default}

abbrev poll : List Bool
poll = false ∷ true ∷ false ∷ false ∷ []

abbrev noisy : BemfState
noisy = record default { counter = 10; bad_count = 2 }
