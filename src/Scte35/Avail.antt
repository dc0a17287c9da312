-- ===== src/Scte35/Avail.antt =====
-- getSpliceAvail of packages/vinyl/src/ad/scte35/SpliceInfoSection.ts: which avail a section opens
-- or closes.
pub mod First
pub mod Range
use vinyl.Common.{
  ℕ, ◌+◌, ◌%◌, ◌^◌, ◌≤◌, ◌<◌, ◌≡◌, refl, sym, ap, ◌∙◌, subst, Bool, true, false, Option, none, some,
  List, [], ◌∷◌, ◌++◌, arith, ◌==◌, if◌then◌else◌, ◌||◌, ◌&&◌, not, Bool-cases, ◌⊎◌, inl, inr,
}
use vinyl.SpliceInfo.{
  BreakDuration, SpliceInsert, SpliceCommand, splice_null, splice_insert, time_signal,
  unknown_command, Segmentation, SpliceDescriptor, segmentation, unknown_descriptor,
  SpliceInfoSection,
}
use vinyl.Scte35.{decode_splice_info_section}
use vinyl.BitReader.{done}
use vinyl.Scte35.Syntax.{FitsDuration, FitsTime, FitsGiven}
use vinyl.Scte35.Bounds.{CommandInRange, SegmentationInRange}
use vinyl.Scte35.Ends.{DescriptorsInRange, SectionInRange, decode-InRange}

pub data Direction : Type 0 where
  out back_in : Direction

pub record SpliceAvail : Type 0 where
  pub direction : Direction
  pub event_id : ℕ
  pub time : Option ℕ
  pub duration : Option ℕ

abbrev pub contains : List ℕ → ℕ → Bool
contains [] n = false
contains (x ∷ xs) n = (x == n) || contains xs n

abbrev pub avail_start_types : List ℕ
avail_start_types = 0x22 ∷ 0x30 ∷ 0x32 ∷ 0x34 ∷ 0x36 ∷ 0x44 ∷ 0x46 ∷ []

abbrev pub avail_end_types : List ℕ
avail_end_types = 0x23 ∷ 0x31 ∷ 0x33 ∷ 0x35 ∷ 0x37 ∷ 0x45 ∷ 0x47 ∷ []

unfoldable pub is_avail_start : ℕ → Bool
is_avail_start n = contains avail_start_types n

unfoldable pub is_avail_end : ℕ → Bool
is_avail_end n = contains avail_end_types n

-- `adjust`
abbrev pub adjust : ℕ → Option ℕ → Option ℕ
adjust pts_adjustment none = none
adjust pts_adjustment (some time) = some ((time + pts_adjustment) % 2 ^ 33)

abbrev pub duration_of : Option BreakDuration → Option ℕ
duration_of none = none
duration_of (some d) = some d.duration

abbrev pub descriptor_avail : Option ℕ → Segmentation → Bool → SpliceAvail
descriptor_avail time s is_start = record {
  direction = if is_start then out else back_in;
  event_id = s.segmentation_event_id;
  time = time;
  duration = s.segmentation_duration;
}

-- The loop of `getSpliceAvail` over the descriptors; the time is adjusted.
unfoldable pub signalled_avail : Option ℕ → List SpliceDescriptor → Option SpliceAvail
signalled_avail time [] = none
signalled_avail time (unknown_descriptor tag identifier ∷ ds) = signalled_avail time ds
signalled_avail time (segmentation s ∷ ds) =
    let later = signalled_avail time ds in
    let is_start = is_avail_start s.segmentation_type_id in
    if s.cancel
    then later
    else if not is_start && not (is_avail_end s.segmentation_type_id)
    then later
    else some (descriptor_avail time s is_start)

-- `getSpliceAvail` by the type of the command.
unfoldable pub command_avail : ℕ → List SpliceDescriptor → SpliceCommand → Option SpliceAvail
unfolding signalled_avail
command_avail pts_adjustment ds splice_null = none
command_avail pts_adjustment ds (unknown_command c) = none
command_avail pts_adjustment ds (splice_insert s) =
    if s.cancel
    then none
    else some (record {
      direction = if s.out_of_network then out else back_in;
      event_id = s.splice_event_id;
      time = adjust pts_adjustment s.splice_time;
      duration = duration_of s.break_duration;
    })
command_avail pts_adjustment ds (time_signal t) = signalled_avail (adjust pts_adjustment t) ds

-- `getSpliceAvail`
unfoldable pub get_splice_avail : SpliceInfoSection → Option SpliceAvail
unfolding command_avail
get_splice_avail section = command_avail section.pts_adjustment section.descriptors section.command
