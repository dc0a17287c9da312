-- ===== src/Ranges.antt =====
-- packages/vinyl-util/src/util/range/Ranges.ts: sorted lists of disjoint [start, end] ranges.
-- Numbers enter the source's code only through comparisons, `Math.min`, `Math.max` and tolerances,
-- so they are natural numbers of some unit that divides all of them. `none` is a thrown error.
pub mod Order
pub mod Add
pub mod Remove
pub mod Query
pub mod Constructor
pub mod Union
pub mod Intersection
use vinyl.Common.{
  ℕ, suc, ◌+◌, ◌-◌, Bool, true, false, Option, none, some, List, [], ◌∷◌, Ordering, min, max, ltb,
  leb, ◌==◌, not, ◌&&◌, ◌||◌, if◌then◌else◌, length, get_elem?, take, drop, splice, ◌>>=◌, ◌++◌,
}
use vinyl.Array.{Comparator, sorted_insertion_index}

-- `[start, end]`
abbrev pub Range : Type 0
Range = ℕ × ℕ

abbrev pub start_comparator : Comparator ℕ Range
start_comparator value range = if ltb value range.0 then Ordering.lt else Ordering.gt

abbrev pub end_comparator : Comparator ℕ Range
end_comparator value range = if leb value range.1 then Ordering.lt else Ordering.gt

-- `newStart` of `RangesImpl.add`
abbrev pub new_start : ℕ → ℕ → List Range → Option ℕ
new_start start start_index ranges =
    if ltb start_index (length ranges)
    then (do range ← get_elem? ranges start_index; some (min range.0 start))
    else some start

-- `newEnd` of `RangesImpl.add`
abbrev pub new_end : ℕ → ℕ → List Range → Option ℕ
new_end end end_index ranges =
    if ltb 0 end_index
    then (do range ← get_elem? ranges (end_index - 1); some (max range.1 end))
    else some end

-- `RangesImpl.add`
unfoldable pub add : ℕ → ℕ → List Range → Option (List Range)
add start end ranges =
    let body = (do
      start_index ← sorted_insertion_index ranges start end_comparator 0 (length ranges)
      end_index ← sorted_insertion_index ranges end start_comparator start_index (length ranges)
      first ← new_start start start_index ranges
      last ← new_end end end_index ranges
      some (splice ranges start_index (end_index - start_index) ((first, last) ∷ []))) in
    if ltb end start then some ranges else body

-- The guard of `RangesImpl.remove` against splitting the one range that encloses an empty span.
abbrev pub encloses_point : ℕ → ℕ → ℕ → ℕ → List Range → Option Bool
encloses_point start end start_index end_index ranges =
    if start == end && suc start_index == end_index
    then (do range ← get_elem? ranges start_index; some (not (range.0 == range.1)))
    else some false

-- What `RangesImpl.remove` keeps of the first range that ends at or after the start.
abbrev pub left_piece : ℕ → ℕ → List Range → Option (List Range)
left_piece start start_index ranges =
    if ltb start_index (length ranges)
    then (do
      previous ← get_elem? ranges start_index
      some (if ltb previous.0 start then (previous.0, start) ∷ [] else []))
    else some []

-- What it keeps of the last range that starts at or before the end.
abbrev pub right_piece : ℕ → ℕ → List Range → Option (List Range)
right_piece end end_index ranges =
    if ltb 0 end_index
    then (do
      next ← get_elem? ranges (end_index - 1)
      some (if ltb end next.1 then (end, next.1) ∷ [] else []))
    else some []

-- `RangesImpl.remove`
unfoldable pub remove : ℕ → ℕ → List Range → Option (List Range)
remove start end ranges =
    let body = (do
      start_index ← sorted_insertion_index ranges start end_comparator 0 (length ranges)
      end_index ← sorted_insertion_index ranges end start_comparator 0 (length ranges)
      enclosed ← encloses_point start end start_index end_index ranges
      left ← left_piece start start_index ranges
      right ← right_piece end end_index ranges
      some (
          if enclosed
          then ranges
          else splice ranges start_index (end_index - start_index) (left ++ right))) in
    if ltb end start || length ranges == 0 then some ranges else body

-- A range that a query returns, with the index at which it stands: the source compares the
-- objects returned by identity, and distinct positions hold distinct objects.
abbrev pub Found : Type 0
Found = Option (ℕ × Range)

-- The part of `getRangeAt` after the range that starts at or before the value was not close enough.
abbrev pub next_range_at : ℕ → ℕ → ℕ → List Range → Option Found
next_range_at value tolerance index ranges = if leb (length ranges) index then some none else (do
  next ← get_elem? ranges index
  some (if leb (next.0 - tolerance) value then some (index, next) else none))

-- `getRangeAt` once the insertion index is known.
abbrev pub range_at_index : ℕ → ℕ → ℕ → List Range → Option Found
range_at_index value tolerance index ranges =
    if index == 0 then next_range_at value tolerance index ranges else (do
      range ← get_elem? ranges (index - 1)
      if leb value (range.1 + tolerance)
          then some (some (index - 1, range))
          else next_range_at value tolerance index ranges)

-- `ReadonlyRangesImpl.getRangeAt`
unfoldable pub get_range_at : ℕ → ℕ → List Range → Option Found
get_range_at value tolerance ranges = if length ranges == 0 then some none else (do
  index ← sorted_insertion_index ranges value start_comparator 0 (length ranges)
  range_at_index value tolerance index ranges)

-- `endRange === startRange`
abbrev pub same_range : Found → ℕ → Bool
same_range none i = false
same_range (some (j, _)) i = j == i

-- `getRangeContaining` once the range at the start is known.
abbrev pub compare_end_range : ℕ → ℕ → List Range → Found → Option Found
compare_end_range to tolerance ranges none = some none
compare_end_range to tolerance ranges (some (i, range)) = do
  end_range ← get_range_at to tolerance ranges
  some (if same_range end_range i then some (i, range) else none)

-- `ReadonlyRangesImpl.getRangeContaining`
unfoldable pub get_range_containing : ℕ → ℕ → ℕ → List Range → Option Found
get_range_containing from to tolerance ranges = if length ranges == 0 then some none else (do
  start_range ← get_range_at from tolerance ranges
  compare_end_range to tolerance ranges start_range)

-- `ReadonlyRangesImpl.getRangesWithin`
unfoldable pub get_ranges_within : ℕ → ℕ → ℕ → List Range → Option (List Range)
get_ranges_within from to tolerance ranges = if length ranges == 0 then some [] else (do
  start_index ←
      sorted_insertion_index ranges (min from to - tolerance) end_comparator 0 (length ranges)
  end_index ←
      sorted_insertion_index ranges (max from to + tolerance) start_comparator 0 (length ranges)
  some (take (end_index - start_index) (drop start_index ranges)))

-- The constructor of `RangesImpl`: adds each range of the list to those already there.
unfoldable pub add_all : List Range → List Range → Option (List Range)
add_all [] ranges = some ranges
add_all (r ∷ rs) ranges = do added ← add r.0 r.1 ranges; add_all rs added

-- `rangeIntersects`
unfoldable pub range_intersects : Range → Range → Bool
range_intersects a b = ltb a.0 b.1 && ltb b.0 a.1
