-- ===== src/Ranges/Query/Within.antt =====
-- What `getRangesWithin` returns on sorted disjoint ranges.
use vinyl.Common.{ℕ, ◌+◌, List, [], ◌∷◌, leb, if◌then◌else◌}
use vinyl.Ranges.{Range}

-- The ranges that come within the tolerance of the span from `lo` to `hi`.
abbrev pub select : ℕ → ℕ → ℕ → List Range → List Range
select lo hi t [] = []
select lo hi t (r ∷ rs) =
    if leb lo (r.1 + t)
    then (if leb r.0 (hi + t) then r ∷ select lo hi t rs else select lo hi t rs)
    else select lo hi t rs
