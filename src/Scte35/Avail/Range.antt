-- ===== src/Scte35/Avail/Range.antt =====
-- The avail of a decoded section is in range.
use vinyl.Common.{
  ℕ, ◌^◌, ◌<◌, ◌≡◌, subst, Bool, true, false, Option, none, some, List, [], ◌∷◌, arith,
  if◌then◌else◌, ◌&&◌, not,
}
use vinyl.SpliceInfo.{
  BreakDuration, SpliceCommand, splice_null, splice_insert, time_signal, unknown_command,
  SpliceDescriptor, segmentation, unknown_descriptor, SpliceInfoSection,
}
use vinyl.Scte35.{decode_splice_info_section}
use vinyl.BitReader.{done}
use vinyl.Scte35.Syntax.{FitsDuration, FitsTime, FitsGiven}
use vinyl.Scte35.Bounds.{CommandInRange}
use vinyl.Scte35.Ends.{DescriptorsInRange, decode-InRange}
use vinyl.Scte35.Avail.{
  SpliceAvail, is_avail_start, is_avail_end, adjust, duration_of, descriptor_avail, signalled_avail,
  command_avail, get_splice_avail,
}

-- The values of an avail: an event of 32 bits, a time of 33 bits, a duration of 40 bits.
abbrev pub AvailInRange : SpliceAvail → Type 0
AvailInRange a = (a.event_id < 2 ^ 32) × FitsTime a.time × FitsGiven 40 a.duration

abbrev pub AnswerInRange : Option SpliceAvail → Type 0
AnswerInRange none = Unit
AnswerInRange (some a) = AvailInRange a

adjust-FitsTime : (pts_adjustment : ℕ) (t : Option ℕ) → FitsTime (adjust pts_adjustment t)
adjust-FitsTime p none = tt
adjust-FitsTime p (some t) = omega arith

if_InRange :
    (b : Bool) (x y : Option SpliceAvail)
    → AnswerInRange x
    → AnswerInRange y
    → AnswerInRange (if b then x else y)
if_InRange true x y p q = p
if_InRange false x y p q = q

signalled_avail-InRange :
    (time : Option ℕ) (ds : List SpliceDescriptor)
    → FitsTime time
    → DescriptorsInRange ds
    → AnswerInRange (signalled_avail time ds)
unfolding signalled_avail
signalled_avail-InRange time [] t h = tt
signalled_avail-InRange time (unknown_descriptor tag identifier ∷ ds) t h =
    signalled_avail-InRange time ds t h.1
signalled_avail-InRange time (segmentation s ∷ ds) t h =
    let later = signalled_avail-InRange time ds t h.1 in
    let here : (s.segmentation_event_id < 2 ^ 32)
        × FitsTime time
        × FitsGiven 40 s.segmentation_duration =
      (h.0.0, t, h.0.1) in
    if_InRange s.cancel _ _ later (
      if_InRange
        (not (is_avail_start s.segmentation_type_id) && not (is_avail_end s.segmentation_type_id))
        (signalled_avail time ds)
        (some (descriptor_avail time s (is_avail_start s.segmentation_type_id))) later here)

duration_of-FitsGiven : (d : Option BreakDuration) → FitsDuration d → FitsGiven 40 (duration_of d)
duration_of-FitsGiven none h = tt
duration_of-FitsGiven (some d) h = omega (arith, h)

command_avail-InRange :
    (p : ℕ) (ds : List SpliceDescriptor) (c : SpliceCommand)
    → CommandInRange c
    → DescriptorsInRange ds
    → AnswerInRange (command_avail p ds c)
unfolding command_avail
command_avail-InRange p ds splice_null h q = tt
command_avail-InRange p ds (unknown_command c) h q = tt
command_avail-InRange p ds (splice_insert s) h q =
    if_InRange s.cancel _ _ tt
      (h.0, adjust-FitsTime p s.splice_time, duration_of-FitsGiven s.break_duration h.2)
command_avail-InRange p ds (time_signal t) h q =
    signalled_avail-InRange (adjust p t) ds (adjust-FitsTime p t) q

-- The avail of a decoded section has an event of 32 bits, a time below 2 ^ 33 ticks, also after the
-- adjustment, and a duration of 40 bits.
decode-get_splice_avail-InRange :
    (bytes : List ℕ) (section : SpliceInfoSection) (pos : ℕ) (avail : SpliceAvail)
    → decode_splice_info_section bytes ≡ done section pos
    → get_splice_avail section ≡ some avail
    → AvailInRange avail
unfolding get_splice_avail
decode-get_splice_avail-InRange bytes section pos avail decoded answer =
    let range = decode-InRange bytes section pos decoded in
    subst AnswerInRange answer (
      command_avail-InRange section.pts_adjustment section.descriptors section.command range.2
        range.3)
