-- ===== src/Tests/Ranges.antt =====
-- Runs of the range lists: cases of packages/vinyl-util/test/unit/util/range, and each theorem at
-- an input that meets its hypotheses.
use vinyl.Common.{
  ℕ, ◌≡◌, ◌≤◌, ◌<◌, ◌⊎◌, ◌||◌, ◌∷◌, [], List, true, false, none, some, refl, arith, length,
}
use vinyl.Array.{sorted_insertion_index}
use vinyl.Array.InsertionIndex.{leading, before, sorted_insertion_index-leading}
use vinyl.Ranges.{
  Range, add, remove, add_all, get_range_at, get_range_containing, get_ranges_within,
  start_comparator,
}
use vinyl.Ranges.Order.{within, covers, IsOrdered}
use vinyl.Ranges.Add.{merge, add-merge, add-covers}
use vinyl.Ranges.Remove.{carve, remove-carve}
use vinyl.Ranges.Remove.Covers.{remove-covers}
use vinyl.Ranges.Constructor.{add_all-covers}
use vinyl.Ranges.Union
use vinyl.Ranges.Union.{any_covers, read_ranges-covers, read_ranges-set_inner_ranges}
use vinyl.Ranges.Intersection
use vinyl.Ranges.Intersection.{interior, all_interior, AllOrdered, read_ranges-interior}

abbrev three : List Range
three = (0, 1) ∷ (2, 4) ∷ (6, 9) ∷ []

three-IsOrdered : IsOrdered three
three-IsOrdered = omega arith

add_runs : add 3 7 three ≡ some ((0, 1) ∷ (2, 9) ∷ [])
unfolding add sorted_insertion_index
add_runs = refl

remove_runs : remove 3 7 three ≡ some ((0, 1) ∷ (2, 3) ∷ (7, 9) ∷ [])
unfolding remove sorted_insertion_index
remove_runs = refl

remove_point : remove 3 3 three ≡ some three
unfolding remove sorted_insertion_index
remove_point = refl

get_range_at_runs : get_range_at 5 1 three ≡ some (some (1, (2, 4)))
unfolding get_range_at sorted_insertion_index
get_range_at_runs = refl

get_range_containing_runs : get_range_containing 2 8 0 three ≡ some none
unfolding get_range_containing get_range_at sorted_insertion_index
get_range_containing_runs = refl

get_ranges_within_runs : get_ranges_within 7 3 0 three ≡ some ((2, 4) ∷ (6, 9) ∷ [])
unfolding get_ranges_within sorted_insertion_index
get_ranges_within_runs = refl

add_all_runs : add_all ((5, 6) ∷ (2, 3) ∷ (4, 1) ∷ (3, 5) ∷ []) [] ≡ some ((2, 6) ∷ [])
unfolding add_all add sorted_insertion_index
add_all_runs = refl

sorted_insertion_index-leading_example :
    sorted_insertion_index three 5 start_comparator 1 3
    ≡ some (leading (before three 5 start_comparator) three)
sorted_insertion_index-leading_example =
    sorted_insertion_index-leading three 5 start_comparator 1
      ((λ h. cc), ((λ h. (refl, tt)), ((λ h. tt), tt))) (omega arith) (omega arith)

add-merge_example : add 3 7 three ≡ some (merge 3 7 three)
add-merge_example = add-merge 3 7 three (omega arith) three-IsOrdered (omega arith)

add-covers_example :
    (rs' : List Range) × (add 3 7 three ≡ some rs')
    × IsOrdered rs'
    × ((x : ℕ) → covers rs' x ≡ (within 3 7 x || covers three x))
add-covers_example = add-covers 3 7 three (omega arith) three-IsOrdered (omega arith)

remove-carve_example : remove 3 7 three ≡ some (carve 3 7 three)
remove-carve_example = remove-carve 3 7 three (omega arith) three-IsOrdered (omega arith)

remove-covers_example :
    (rs' : List Range) × (remove 3 7 three ≡ some rs')
    × IsOrdered rs'
    × ((x : ℕ) → 3 < x → x < 7 → covers rs' x ≡ false)
    × ((x : ℕ) → (x < 3) ⊎ (7 < x) → covers rs' x ≡ covers three x)
    × ((x : ℕ) → covers rs' x ≡ true → covers three x ≡ true)
remove-covers_example = remove-covers 3 7 three (omega arith) three-IsOrdered (omega arith)

abbrev unsorted : List Range
unsorted = (5, 6) ∷ (2, 3) ∷ (4, 1) ∷ (3, 5) ∷ []

add_all-covers_example :
    (out : List Range) × (add_all unsorted three ≡ some out)
    × IsOrdered out
    × ((x : ℕ) → covers out x ≡ (covers unsorted x || covers three x))
    × (length out ≤ 7)
add_all-covers_example = add_all-covers unsorted three three-IsOrdered (omega arith)

abbrev union : Union.UnionRanges
union = record {
  backing_ranges = three;
  valid = false;
  inner_ranges = three ∷ unsorted ∷ [];
  use_cache = true;
}

read_ranges-covers_example :
    (u' : Union.UnionRanges) × (Union.read_ranges union ≡ some u')
    × Union.IsCurrent u'
    × (u'.inner_ranges ≡ union.inner_ranges)
    × (u'.use_cache ≡ union.use_cache)
    × (u'.valid ≡ union.use_cache)
read_ranges-covers_example = read_ranges-covers union (omega arith) (λ e. cc) (λ e. cc)

abbrev two : List Range
two = (1, 3) ∷ (5, 8) ∷ []

abbrev intersection : Intersection.IntersectionRanges
intersection = record {
  backing_ranges = [];
  valid = false;
  inner_ranges = three ∷ two ∷ [];
  use_cache = false;
}

intersection_runs : (Intersection.read_ranges intersection).backing_ranges ≡ (2, 3) ∷ (6, 8) ∷ []
unfolding Intersection.read_ranges
intersection_runs = refl

read_ranges-interior_example :
    ((x : ℕ)
      → interior (Intersection.read_ranges intersection).backing_ranges x
        ≡ all_interior (three ∷ two ∷ []) x)
    × (AllOrdered (three ∷ two ∷ [])
        → IsOrdered (Intersection.read_ranges intersection).backing_ranges)
read_ranges-interior_example = read_ranges-interior intersection three (two ∷ []) refl refl
