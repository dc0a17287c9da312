-- ===== src/Sidx/Times.antt =====
-- The start times of the segments of an index.
use vinyl.Common.{
  ℕ, zero, suc, ◌+◌, ◌^◌, ◌≤◌, ◌≡◌, ap, ◌∙◌, some, List, [], ◌∷◌, arith, length, take, get_elem?,
}
use vinyl.Double.{to_double, to_double-exact}
use vinyl.Sidx.{SidxSegmentReference, SidxBox, times_from, get_sidx_sample_times}

-- The duration of several segments.
abbrev pub total_duration : List SidxSegmentReference → ℕ
total_duration [] = 0
total_duration (r ∷ rs) = r.subsegment_duration + total_duration rs

times_from-sum :
    (rs : List SidxSegmentReference) (start i : ℕ)
    → start + total_duration rs ≤ 2 ^ 53
    → i ≤ length rs
    → get_elem? (times_from start rs) i ≡ some (start + total_duration (take i rs))
times_from-sum [] start zero b h = ap some (omega arith)
times_from-sum [] start (suc i) b h = let no : ⊥ = omega (arith, h) in elim no [ ]
times_from-sum (r ∷ rs) start zero b h = ap some (omega arith)
times_from-sum (r ∷ rs) start (suc i) b h =
    let e = to_double-exact (start + r.subsegment_duration) (omega arith) in
    rw e (
      times_from-sum rs (start + r.subsegment_duration) i (omega arith) (omega (arith, h))
      ∙ ap some (omega arith))

length-times_from :
    (rs : List SidxSegmentReference) (start : ℕ) → length (times_from start rs) ≡ suc (length rs)
length-times_from [] start = omega arith
length-times_from (r ∷ rs) start =
    omega (arith, length-times_from rs (to_double (start + r.subsegment_duration)))

-- If the end of the last segment is at most 2 ^ 53, there is one time more than there are segments,
-- and each is exactly the earliest presentation time with the durations of all segments before it:
-- the start of its segment, and at last the end.
pub get_sidx_sample_times-sum :
    (sidx : SidxBox)
    → sidx.earliest_presentation_time + total_duration sidx.references ≤ 2 ^ 53
    → (length (get_sidx_sample_times sidx) ≡ suc (length sidx.references))
      × ((i : ℕ)
          → i ≤ length sidx.references
          → get_elem? (get_sidx_sample_times sidx) i
            ≡ some (sidx.earliest_presentation_time + total_duration (take i sidx.references)))
unfolding get_sidx_sample_times
get_sidx_sample_times-sum sidx b =
    let e = to_double-exact sidx.earliest_presentation_time (omega arith) in
    (
      length-times_from sidx.references (to_double sidx.earliest_presentation_time),
      λ i h. rw e (times_from-sum sidx.references sidx.earliest_presentation_time i b h),
    )
