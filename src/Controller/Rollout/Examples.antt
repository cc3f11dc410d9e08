-- ===== src/Controller/Rollout/Examples.antt =====
-- Waves of a fleet of three nodes.
use geneza.Base.{List, [], ◌∷◌, bytes, Str}
use geneza.Base.Int.{ℤ, pos}

abbrev three_nodes : List Str
three_nodes = bytes "a" ∷ bytes "b" ∷ bytes "c" ∷ []

abbrev two_waves : List ℤ
two_waves = pos 50 ∷ pos 100 ∷ []
