-- ===== src/Scte35/Lengths.antt =====
-- How many bits the parts of a cue message take.
use vinyl.Common.{
  ℕ, ◌+◌, ◌*◌, ◌/◌, ◌%◌, ◌^◌, ◌≤◌, ◌<◌, ◌≡◌, inl, inr, ◌⊎◌, refl, sym, subst, ap, ◌∙◌, Bool, true,
  false, Option, none, some, List, [], ◌∷◌, ◌++◌, length, length-append, arith, append-nil,
}
use vinyl.BitReader.Fields.{field, flag, bytes_field, length-field, length-flag, length-bytes_field}
use vinyl.BitReader.Positions.{Whole, Whole-append, length-field_append, length-flag_append}
use vinyl.SpliceInfo.{
  BreakDuration, SpliceInsert, SpliceCommand, splice_null, splice_insert, time_signal,
  unknown_command, Segmentation, SpliceDescriptor, segmentation, unknown_descriptor,
}
use vinyl.Scte35.Syntax.{
  cancel_bits, segmentation_duration_bits, segmentation_field_bits, segmentation_bits,
  descriptor_body_bits, descriptor_bits, time_bits, duration_bits, insert_time_bits,
  insert_field_bits, insert_bits, command_bits,
}

pub ruleset lengths = (
  length-field_append, length-flag_append, length-field, length-flag, length-append,
  length-bytes_field,
)

-- An event with its cancel indicator takes whole bytes when its fields do.
event_bits-Whole :
    (event : ℕ) (cancel : Bool) (bits : List ℕ)
    → Whole bits
    → Whole (field 32 event ++ (flag cancel ++ (field 7 127 ++ cancel_bits cancel bits)))
event_bits-Whole event true bits h =
    let total : length (field 32 event ++ (flag true ++ (field 7 127 ++ []))) ≡ 40 = simp lengths in
    omega (arith, total)
event_bits-Whole event false bits h =
    let total : length (field 32 event ++ (flag false ++ (field 7 127 ++ bits)))
        ≡ 32 + (1 + (7 + length bits)) =
      simp lengths in
    omega (arith, total, h)

segmentation_duration_bits-Whole : (d : Option ℕ) → Whole (segmentation_duration_bits d)
segmentation_duration_bits-Whole none = refl
segmentation_duration_bits-Whole (some d) = omega (arith, length-field 40 d)

segmentation_bits-Whole : (s : Segmentation) → Whole (segmentation_bits s)
segmentation_bits-Whole s =
    let d = segmentation_duration_bits s.segmentation_duration in
    let total : length (segmentation_field_bits s)
        ≡ 1 + (1 + (6 + (length d + (8 + (8 + (8 * length s.upid + (8 + (8 + 8)))))))) =
      simp lengths in
    event_bits-Whole s.segmentation_event_id s.cancel (segmentation_field_bits s)
      (omega (arith, total, segmentation_duration_bits-Whole s.segmentation_duration))

pub descriptor_body_bits-Whole : (d : SpliceDescriptor) → Whole (descriptor_body_bits d)
descriptor_body_bits-Whole (segmentation s) = segmentation_bits-Whole s
descriptor_body_bits-Whole (unknown_descriptor tag identifier) = refl

pub length-descriptor_bits :
    (d : SpliceDescriptor) → length (descriptor_bits d) ≡ 48 + length (descriptor_body_bits d)
unfolding descriptor_bits
length-descriptor_bits d =
    let rest = descriptor_body_bits d in
    let total : length (descriptor_bits d) ≡ 8 + (8 + (32 + length rest)) = simp lengths in
    omega (arith, total)

time_bits-short : (t : Option ℕ) → Whole (time_bits t) × (length (time_bits t) ≤ 40)
time_bits-short none =
    let total : length (time_bits none) ≡ 8 = simp lengths in
    (omega (arith, total), omega (arith, total))
time_bits-short (some t) =
    let total : length (time_bits (some t)) ≡ 40 = simp lengths in
    (omega (arith, total), omega (arith, total))

insert_time_bits-short :
    (b : Bool) (t : Option ℕ) → Whole (insert_time_bits b t) × (length (insert_time_bits b t) ≤ 40)
insert_time_bits-short true t = (refl, omega arith)
insert_time_bits-short false t = time_bits-short t

duration_bits-short :
    (d : Option BreakDuration) → Whole (duration_bits d) × (length (duration_bits d) ≤ 40)
duration_bits-short none = (refl, omega arith)
duration_bits-short (some d) =
    let total : length (duration_bits (some d)) ≡ 40 = simp lengths in
    (omega (arith, total), omega (arith, total))

cancel_bits-short : (c : Bool) (bits : List ℕ) → length (cancel_bits c bits) ≤ length bits
cancel_bits-short true bits = omega arith
cancel_bits-short false bits = omega arith

insert_bits-short : (s : SpliceInsert) → Whole (insert_bits s) × (length (insert_bits s) ≤ 1000)
insert_bits-short s =
    let t = insert_time_bits s.splice_immediate s.splice_time in
    let d = duration_bits s.break_duration in
    let fields = insert_field_bits s in
    let tail = cancel_bits s.cancel fields in
    let total : length (insert_field_bits s)
        ≡ 1 + (1 + (1 + (1 + (4 + (length t + (length d + (16 + (8 + 8)))))))) =
      simp lengths in
    let all : length (insert_bits s) ≡ 32 + (1 + (7 + length tail)) = simp lengths in
    let (tw, ts) = insert_time_bits-short s.splice_immediate s.splice_time in
    let (dw, ds) = duration_bits-short s.break_duration in
    (
      event_bits-Whole s.splice_event_id s.cancel fields (omega (arith, total, tw, dw)),
      omega (arith, total, all, ts, ds, cancel_bits-short s.cancel fields),
    )

-- The length of a command is never the value that means that it is not specified.
pub command_bits-short :
    (c : SpliceCommand) → Whole (command_bits c) × (length (command_bits c) ≤ 1000)
command_bits-short splice_null = (refl, omega arith)
command_bits-short (splice_insert s) = insert_bits-short s
command_bits-short (time_signal t) = let (w, l) = time_bits-short t in (w, omega (arith, l))
command_bits-short (unknown_command c) = (refl, omega arith)
