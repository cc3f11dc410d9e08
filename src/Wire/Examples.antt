-- ===== src/Wire/Examples.antt =====
-- Frames of a few bytes.
use geneza.Base.{◌≡◌, [], ◌∷◌, bytes, arith}
use geneza.Wire.{ok}
use geneza.Wire.RoundTrip.{read_all, write_all, read_all-write_all}

read_all-write_all_example :
    read_all 2 (write_all [] (bytes "a" ∷ bytes "" ∷ [])) ≡ ok (bytes "a" ∷ bytes "" ∷ [])
read_all-write_all_example =
    read_all-write_all (bytes "a" ∷ bytes "" ∷ []) (omega arith, (omega arith, tt))
