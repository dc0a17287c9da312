-- ===== src/Scte35/Encoded.antt =====
-- A section that is put into bytes is decoded to itself.
use vinyl.Common.{
  ℕ, ◌+◌, ◌*◌, ◌/◌, ◌^◌, ◌<◌, ◌≡◌, ap, ◌∙◌, sym, Bool, true, false, Option, some, none, List, [],
  ◌∷◌, ◌++◌, length, length-append, arith,
}
use vinyl.BitReader.{done}
use vinyl.BitReader.Positions.{Whole}
use vinyl.BitReader.Packing.{
  pack, AllBits, AllBits-append, field-AllBits, flag-AllBits, bytes_field-AllBits, length-pack,
  pack-Ready,
}
use vinyl.SpliceInfo.{
  BreakDuration, SpliceInsert, SpliceCommand, splice_null, splice_insert, time_signal,
  unknown_command, Segmentation, SpliceDescriptor, segmentation, unknown_descriptor,
  SpliceInfoSection,
}
use vinyl.Scte35.{decode_splice_info_section}
use vinyl.Scte35.Syntax.{
  time_bits, duration_bits, insert_time_bits, insert_field_bits, cancel_bits, insert_bits,
  command_bits, segmentation_duration_bits, segmentation_field_bits, segmentation_bits,
  descriptor_bits, descriptors_bits, section_body_bits, section_bits, FitsSection,
}
use vinyl.Scte35.Lengths.{lengths, command_bits-short}
use vinyl.Scte35.Descriptors.{descriptors_bits-Whole}
use vinyl.Scte35.RoundTrip.{read_splice_info_section-Ready}

ruleset bits = (AllBits-append, field-AllBits, flag-AllBits, bytes_field-AllBits)

cancel_bits-AllBits : (c : Bool) (bits : List ℕ) → AllBits bits → AllBits (cancel_bits c bits)
cancel_bits-AllBits true bits h = tt
cancel_bits-AllBits false bits h = h

time_bits-AllBits : (t : Option ℕ) → AllBits (time_bits t)
time_bits-AllBits none = search bits
time_bits-AllBits (some t) = search bits

insert_time_bits-AllBits : (b : Bool) (t : Option ℕ) → AllBits (insert_time_bits b t)
insert_time_bits-AllBits true t = tt
insert_time_bits-AllBits false t = time_bits-AllBits t

duration_bits-AllBits : (d : Option BreakDuration) → AllBits (duration_bits d)
duration_bits-AllBits none = tt
duration_bits-AllBits (some d) = search bits

insert_bits-AllBits : (s : SpliceInsert) → AllBits (insert_bits s)
insert_bits-AllBits s =
    let fields : AllBits (insert_field_bits s) =
      search (bits, insert_time_bits-AllBits, duration_bits-AllBits) depth 20 in
    search (bits, cancel_bits-AllBits s.cancel (insert_field_bits s) fields)

command_bits-AllBits : (c : SpliceCommand) → AllBits (command_bits c)
command_bits-AllBits splice_null = tt
command_bits-AllBits (splice_insert s) = insert_bits-AllBits s
command_bits-AllBits (time_signal t) = time_bits-AllBits t
command_bits-AllBits (unknown_command c) = tt

segmentation_duration_bits-AllBits : (d : Option ℕ) → AllBits (segmentation_duration_bits d)
segmentation_duration_bits-AllBits none = tt
segmentation_duration_bits-AllBits (some d) = field-AllBits 40 d

segmentation_bits-AllBits : (s : Segmentation) → AllBits (segmentation_bits s)
segmentation_bits-AllBits s =
    let fields : AllBits (segmentation_field_bits s) =
      search (bits, segmentation_duration_bits-AllBits) depth 20 in
    search (bits, cancel_bits-AllBits s.cancel (segmentation_field_bits s) fields)

descriptor_bits-AllBits : (d : SpliceDescriptor) → AllBits (descriptor_bits d)
unfolding descriptor_bits
descriptor_bits-AllBits (segmentation s) = search (bits, segmentation_bits-AllBits s)
descriptor_bits-AllBits (unknown_descriptor tag identifier) = search bits

descriptors_bits-AllBits : (ds : List SpliceDescriptor) → AllBits (descriptors_bits ds)
descriptors_bits-AllBits [] = tt
descriptors_bits-AllBits (d ∷ ds) =
    AllBits-append (descriptor_bits d) (descriptors_bits ds) (descriptor_bits-AllBits d)
      (descriptors_bits-AllBits ds)

section_bits-AllBits : (n : ℕ) (s : SpliceInfoSection) → AllBits (section_bits n s)
unfolding section_bits section_body_bits
section_bits-AllBits n s =
    search (bits, command_bits-AllBits s.command, descriptors_bits-AllBits s.descriptors) depth 20

-- The section's length, which counts the four bytes of the CRC.
abbrev pub section_length : SpliceInfoSection → ℕ
section_length s = length (section_body_bits s) / 8 + 4

pub encode_section : SpliceInfoSection → List ℕ
encode_section s = pack (section_bits (section_length s) s)

section_body_bits-Whole : (s : SpliceInfoSection) → Whole (section_body_bits s)
unfolding section_body_bits
section_body_bits-Whole s =
    let c = command_bits s.command in
    let ds = descriptors_bits s.descriptors in
    let total : length (section_body_bits s)
        ≡ 8 + (1 + (6 + (33 + (8 + (12 + (12 + (8 + (length c + (16 + length ds))))))))) =
      simp lengths in
    let (cw, cs) = command_bits-short s.command in
    omega (arith, total, cw, descriptors_bits-Whole s.descriptors)

length-section_bits :
    (n : ℕ) (s : SpliceInfoSection) → length (section_bits n s) ≡ 24 + length (section_body_bits s)
unfolding section_bits
length-section_bits n s =
    let total : length (section_bits n s) ≡ 8 + (4 + (12 + length (section_body_bits s))) =
      simp lengths in
    omega (arith, total)

-- A section that fits the fields of the syntax is decoded to itself, whatever the CRC that stands behind it.
pub decode-encode :
    (s : SpliceInfoSection) (crc : List ℕ)
    → FitsSection s
    → section_length s < 2 ^ 12
    → length crc ≡ 4
    → decode_splice_info_section (encode_section s ++ crc) ≡ done s (length (encode_section s) * 8)
unfolding encode_section
decode-encode s crc fits short four =
    let n = section_length s in
    let bits = section_bits n s in
    let total = length-section_bits n s in
    let body = section_body_bits-Whole s in
    let packed = length-pack bits (omega (arith, total, body)) in
    let whole = length-append (pack bits) crc in
    read_splice_info_section-Ready (pack bits ++ crc) n s fits short
      (omega (arith, total, body, packed, whole, four))
      (pack-Ready bits crc (section_bits-AllBits n s) (omega (arith, total, body)))
    ∙ ap (done s) (sym packed)
