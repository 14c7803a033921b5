-- ===== src/Bus/Tests.antt =====
-- Runs of the bus, after the tests of src/bus.rs.
use http_nu.Common.{◌≡◌, refl, ℕ, List, [], ◌∷◌, codes, some, filter, strip_prefix}
use http_nu.Bus.{BusEvent, Received, event, lagged, drain, stopped, matches}
use http_nu.Bus.Stream.{drain-promised, promised, before_gap, has_gap, wanted}

abbrev close_of : ℕ → BusEvent ℕ
close_of n = record { topic = codes "tab-abc.close"; value = n }

abbrev other_tab : BusEvent ℕ
other_tab = record { topic = codes "tab-xyz.close"; value = 7 }

abbrev history : List (Received ℕ)
history =
    event (close_of 1) ∷ event other_tab ∷ event (close_of 2) ∷ lagged 3 ∷ event (close_of 4) ∷ []

history_is_drained :
    drain 9 (some (codes "tab-abc.*")) history ≡ (close_of 1 ∷ close_of 2 ∷ [], stopped)
unfolding drain matches strip_prefix
history_is_drained = refl

drain-promised_example :
    drain 9 (some (codes "tab-abc.*")) history
    ≡ promised 9 (filter (wanted (some (codes "tab-abc.*"))) (before_gap history)) (has_gap history)
drain-promised_example = drain-promised 9 (some (codes "tab-abc.*")) history
