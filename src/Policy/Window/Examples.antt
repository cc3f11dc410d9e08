-- ===== src/Policy/Window/Examples.antt =====
-- Windows of the policy on concrete clocks.
use geneza.Base.{true, bytes, [], ◌∷◌, arith, ◌≡◌, ◌+◌, ◌*◌, ◌%◌, ◌-◌, ◌<◌, ◌↔◌}
use geneza.Policy.Window.{Clock, TimeWindow, friday, contains}
use geneza.Policy.Window.Cyclic.{hh_mm, contains_cyclic, DayListed}

abbrev late_friday : Clock
late_friday = record { weekday = friday; hour = 23; minute = 30 }

abbrev overnight : TimeWindow
overnight = record { days = bytes "Fri" ∷ []; start = hh_mm 22 0; end_time = hh_mm 6 0 }

contains_cyclic_overnight : (contains overnight late_friday ≡ true) ↔ (
    DayListed overnight.days friday
    × ((23 * 60 + 30 + 1440 - (22 * 60 + 0)) % 1440 < (6 * 60 + 0 + 1440 - (22 * 60 + 0)) % 1440))
contains_cyclic_overnight =
    contains_cyclic (bytes "Fri" ∷ []) 22 0 6 0 late_friday (omega arith) (omega arith)
      (omega arith) (omega arith) (omega arith) (omega arith)
