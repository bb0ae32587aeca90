-- ===== src/Examples/OfEvents.antt =====
-- The theorem on the event sink at a concrete input.
use dtd_server_apm.Common.{List, [], ◌∷◌, codes, length}
use dtd_server_apm.Events.{Event, empty_sink, add_all}
use dtd_server_apm.Events.Bounds.{IsCounting, add_all-IsCounting}

abbrev events : List Event
events =
    record { kind = codes "slow"; severity = codes "warn"; source = codes "vfs" }
    ∷ record { kind = []; severity = codes "fatal"; source = codes "app" }
    ∷ []

add_all-IsCounting_example : IsCounting (length events) (add_all events empty_sink)
add_all-IsCounting_example = add_all-IsCounting events
