-- ===== src/Scte35/Bounds.antt =====
-- The ranges of the decoded values, and the errors of the decoder's parts.
use vinyl.Common.{
  ℕ, zero, suc, ◌*◌, ◌^◌, ◌<◌, Bool, true, false, Option, none, some, length, arith, ◌==◌,
  if◌then◌else◌,
}
use vinyl.BitReader.{Reader}
use vinyl.BitReader.Fields.{AllBytes}
use vinyl.BitReader.Outcomes.{
  Gives, Gives-bind, Gives-then, Gives-return, Gives-bits, Gives-flag, Gives-skip, Gives-if,
  Gives-bytes,
}
use vinyl.SpliceInfo.{
  SpliceInsert, SpliceCommand, splice_null, splice_insert, time_signal, unknown_command,
  Segmentation, SpliceDescriptor, segmentation, unknown_descriptor,
}
use vinyl.Scte35.{
  when, read_splice_time, read_break_duration, read_components, read_insert_time,
  read_insert_fields, read_splice_insert, read_command, skip_components, read_segmentation_fields,
  read_segmentation, read_descriptor_body,
}
use vinyl.Scte35.Syntax.{FitsTime, FitsDuration, FitsGiven}

-- The fields of a decoded command, each within its width.
abbrev pub InsertInRange : SpliceInsert → Type 0
InsertInRange s =
    (s.splice_event_id < 2 ^ 32)
    × FitsTime s.splice_time
    × FitsDuration s.break_duration
    × (s.unique_program_id < 2 ^ 16)
    × (s.avail_num < 2 ^ 8)
    × (s.avails_expected < 2 ^ 8)

abbrev pub CommandInRange : SpliceCommand → Type 0
CommandInRange splice_null = Unit
CommandInRange (splice_insert s) = InsertInRange s
CommandInRange (time_signal t) = FitsTime t
CommandInRange (unknown_command c) = c < 2 ^ 8

abbrev pub SegmentationInRange : Segmentation → Type 0
SegmentationInRange s =
    (s.segmentation_event_id < 2 ^ 32)
    × FitsGiven 40 s.segmentation_duration
    × (s.upid_type < 2 ^ 8)
    × (length s.upid < 2 ^ 8)
    × AllBytes s.upid
    × (s.segmentation_type_id < 2 ^ 8)
    × (s.segment_num < 2 ^ 8)
    × (s.segments_expected < 2 ^ 8)

abbrev pub DescriptorInRange : SpliceDescriptor → Type 0
DescriptorInRange (segmentation s) = SegmentationInRange s
DescriptorInRange (unknown_descriptor tag identifier) = (tag < 2 ^ 8) × (identifier < 2 ^ 32)

read_splice_time-Gives : Gives read_splice_time FitsTime
unfolding read_splice_time
read_splice_time-Gives = Gives-bind _ Gives-flag (λ specified u.
    Gives-if specified
      (Gives-then (Gives-skip 6) (Gives-bind _ (Gives-bits 33) (λ t h. Gives-return (some t) h)))
      (Gives-then (Gives-skip 7) (Gives-return none tt)))

read_break_duration-Gives : Gives read_break_duration (λ d. d.duration < 2 ^ 33)
unfolding read_break_duration
read_break_duration-Gives = Gives-bind _ Gives-flag (λ auto_return u.
    Gives-then (Gives-skip 6) (Gives-bind _ (Gives-bits 33) (λ t h. Gives-return _ h)))

when-Gives :
    {A : Type 0} {m : Reader A} (b : Bool) {Q : A → Type 0} {P : Option A → Type 0}
    → Gives m Q
    → ((a : A) → Q a → P (some a))
    → P none
    → Gives (when b m) P
when-Gives true g k n = Gives-bind _ g (λ a q. Gives-return (some a) (k a q))
when-Gives false g k n = Gives-return none n

read_components-Gives :
    (count : ℕ) (immediate first : Bool) (time : Option ℕ)
    → FitsTime time
    → Gives (read_components count immediate first time) FitsTime
unfolding read_components
read_components-Gives zero immediate first time h = Gives-return time h
read_components-Gives (suc count) immediate first time h = Gives-then (Gives-skip 8) (
    Gives-bind _
      (Gives-if immediate (Gives-return time h)
        (Gives-bind _ read_splice_time-Gives (λ read q. Gives-return _ (choose first read q))))
      (λ own q. read_components-Gives count immediate false own q))
  where
    choose :
        (first : Bool) (read : Option ℕ) → FitsTime read → FitsTime (if first then read else time)
    choose true read q = q
    choose false read q = h

read_insert_time-Gives :
    (program immediate : Bool) → Gives (read_insert_time program immediate) FitsTime
unfolding read_insert_time
read_insert_time-Gives true true = Gives-return none tt
read_insert_time-Gives true false = read_splice_time-Gives
read_insert_time-Gives false immediate =
    Gives-bind _ (Gives-bits 8) (λ count h. read_components-Gives count immediate true none tt)

read_insert_fields-Gives :
    (event : ℕ) → event < 2 ^ 32 → Gives (read_insert_fields event) InsertInRange
unfolding read_insert_fields
read_insert_fields-Gives event e = Gives-bind _ Gives-flag (λ out u.
    Gives-bind _ Gives-flag (λ program u. Gives-bind _ Gives-flag (λ has_duration u.
      Gives-bind _ Gives-flag (λ immediate u. Gives-then (Gives-skip 4) (
        Gives-bind _ (read_insert_time-Gives program immediate) (λ time t.
          Gives-bind _
            (when-Gives has_duration {P = FitsDuration} read_break_duration-Gives (λ a q. q) tt)
            (λ duration d. Gives-bind _ (Gives-bits 16) (λ id i.
              Gives-bind _ (Gives-bits 8) (λ num n.
                Gives-bind _ (Gives-bits 8)
                  (λ expected x. Gives-return _ (e, t, d, i, n, x)))))))))))

read_splice_insert-Gives : Gives read_splice_insert InsertInRange
unfolding read_splice_insert
read_splice_insert-Gives = Gives-bind _ (Gives-bits 32) (λ event e.
    Gives-bind _ Gives-flag (λ cancel u. Gives-then (Gives-skip 7) (
      Gives-if cancel (Gives-return _ (e, tt, tt, omega arith, omega arith, omega arith))
        (read_insert_fields-Gives event e))))

pub read_command-Gives : (type : ℕ) → type < 2 ^ 8 → Gives (read_command type) CommandInRange
unfolding read_command
read_command-Gives type h = Gives-if (type == 0x00) (Gives-return splice_null tt) (
    Gives-if (type == 0x05) (Gives-bind _ read_splice_insert-Gives (λ s q. Gives-return _ q)) (
      Gives-if (type == 0x06) (Gives-bind _ read_splice_time-Gives (λ t q. Gives-return _ q))
        (Gives-return _ h)))

skip_components-Gives : (program : Bool) → Gives (skip_components program) (λ u. Unit {0})
unfolding skip_components
skip_components-Gives true = Gives-return tt tt
skip_components-Gives false = Gives-bind _ (Gives-bits 8) (λ count h. Gives-skip (count * 48))

read_segmentation_fields-Gives :
    (event : ℕ) → event < 2 ^ 32 → Gives (read_segmentation_fields event) SegmentationInRange
unfolding read_segmentation_fields
read_segmentation_fields-Gives event e = Gives-bind _ Gives-flag (λ program u.
    Gives-bind _ Gives-flag (λ has_duration u. Gives-then (Gives-skip 6) (
      Gives-then (skip_components-Gives program) (
        Gives-bind _ (when-Gives has_duration {P = FitsGiven 40} (Gives-bits 40) (λ a q. q) tt)
          (λ duration d. Gives-bind _ (Gives-bits 8) (λ kind k.
            Gives-bind _ (Gives-bits 8) (λ size l. Gives-bind _ (Gives-bytes size) (λ upid b.
              Gives-bind _ (Gives-bits 8) (λ id i. Gives-bind _ (Gives-bits 8) (λ num n.
                Gives-bind _ (Gives-bits 8) (λ expected x.
                  Gives-return _ (e, d, k, omega (arith, b.1, l), b.0, i, n, x))))))))))))

read_segmentation-Gives : Gives read_segmentation SegmentationInRange
unfolding read_segmentation
read_segmentation-Gives = Gives-bind _ (Gives-bits 32) (λ event e.
    Gives-bind _ Gives-flag (λ cancel u. Gives-then (Gives-skip 7) (
      Gives-if cancel
        (Gives-return _
          (e, tt, omega arith, omega arith, tt, omega arith, omega arith, omega arith))
        (read_segmentation_fields-Gives event e))))

pub read_descriptor_body-Gives :
    (tag identifier : ℕ)
    → tag < 2 ^ 8
    → identifier < 2 ^ 32
    → Gives (read_descriptor_body tag identifier) DescriptorInRange
unfolding read_descriptor_body
read_descriptor_body-Gives tag identifier h i =
    Gives-if (tag == 0x02) (Gives-bind _ read_segmentation-Gives (λ s q. Gives-return _ q))
      (Gives-return _ (h, i))
