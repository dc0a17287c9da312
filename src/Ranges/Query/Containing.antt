-- ===== src/Ranges/Query/Containing.antt =====
-- What `getRangeContaining` returns on sorted disjoint ranges.
use vinyl.Common.{none, some, if◌then◌else◌}
use vinyl.Ranges.{Found, same_range}

both : Found → Found → Found
both none g = none
both (some (i, r)) g = if same_range g i then some (i, r) else none
