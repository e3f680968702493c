-- ===== src/Api/Shown/Tests.antt =====
-- Two walks of one map.
use we_sync.Base.{true, Bool, [], ◌∷◌, Map}
use we_sync.Node.State.{State, new}
use we_sync.Api.Shown.Order.{trusted_by}

abbrev walk : Map Bool
walk = ("X", true) ∷ ("Y", true) ∷ []

abbrev other_walk : Map Bool
other_walk = ("Y", true) ∷ ("X", true) ∷ []

abbrev trusted : State
trusted = trusted_by new walk
