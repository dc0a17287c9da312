-- ===== src/Scte35/Descriptor.antt =====
-- Descriptors are read back from their syntax.
use vinyl.Common.{
  ℕ, ◌+◌, ◌*◌, ◌/◌, ◌%◌, ◌^◌, ◌<◌, ◌≡◌, inl, inr, ◌⊎◌, sym, subst, ap, true, false, Option, none,
  some, [], length, arith, ◌==◌, if◌then◌else◌, append-nil,
}
use vinyl.BitReader.{Reader, ◌>>=◌, ◌>>◌, seek, return, read_bits, byte_position}
use vinyl.BitReader.Positions.{ReadsAt, ReadsAt-of-Reads, ReadsAt-bind, ReadsAt-tell, ReadsAt-seek}
use vinyl.Scte35.Lengths.{descriptor_body_bits-Whole}
use vinyl.BitReader.Fields.{
  field, length-field, Reads, Reads-return, Reads-bind, Reads-then, Reads-map, Reads-value,
  Reads-field, Reads-skip, Reads-flag, Reads-bytes,
}
use vinyl.SpliceInfo.{Segmentation, SpliceDescriptor, segmentation, unknown_descriptor}
use vinyl.Scte35.{
  when, skip_components, read_segmentation_fields, read_segmentation, read_descriptor_body,
  read_descriptor, cancelled_segmentation,
}
use vinyl.Scte35.Syntax.{
  is_given, cancel_bits, segmentation_duration_bits, segmentation_field_bits, segmentation_bits,
  FitsGiven, FitsSegmentationFields, FitsSegmentation, descriptor_tag, descriptor_identifier,
  descriptor_body_bits, descriptor_bits, FitsDescriptorBody, FitsDescriptor,
}

when-Reads :
    (d : Option ℕ)
    → FitsGiven 40 d
    → Reads (when (is_given d) (read_bits 40)) (segmentation_duration_bits d) d
when-Reads none h = Reads-return none
when-Reads (some d) h = Reads-map _ (Reads-field 40 d h)

read_segmentation_fields-Reads :
    (s : Segmentation)
    → s.cancel ≡ false
    → FitsSegmentationFields s
    → Reads (read_segmentation_fields s.segmentation_event_id) (segmentation_field_bits s) s
unfolding read_segmentation_fields skip_components
read_segmentation_fields-Reads s e h = Reads-bind _ (Reads-flag true) (
    Reads-bind _ (Reads-flag (is_given s.segmentation_duration)) (
      Reads-then (Reads-skip 6 63) (
        Reads-bind _ (when-Reads s.segmentation_duration h.0) (
          Reads-bind _ (Reads-field 8 s.upid_type h.1) (
            Reads-bind _ (Reads-field 8 (length s.upid) h.2) (
              Reads-bind _ (Reads-bytes s.upid h.3) (
                Reads-bind _ (Reads-field 8 s.segmentation_type_id h.4) (
                  Reads-bind _ (Reads-field 8 s.segment_num h.5) (
                    Reads-value (ap (λ c. record s { cancel = c }) (sym e))
                      (Reads-map _ (Reads-field 8 s.segments_expected h.6)))))))))))

read_segmentation-Reads :
    (s : Segmentation) → FitsSegmentation s → Reads read_segmentation (segmentation_bits s) s
unfolding read_segmentation
read_segmentation-Reads s h =
    Reads-bind _ (Reads-field 32 s.segmentation_event_id h.0)
      (Reads-bind _ (Reads-flag s.cancel) (Reads-then (Reads-skip 7 127) (rest s h.1)))
  where
    rest :
        (s : Segmentation)
        → ((s.cancel ≡ true) × (s ≡ cancelled_segmentation s.segmentation_event_id))
          ⊎ ((s.cancel ≡ false) × FitsSegmentationFields s)
        → Reads
            (if s.cancel
              then return (cancelled_segmentation s.segmentation_event_id)
              else read_segmentation_fields s.segmentation_event_id)
            (cancel_bits s.cancel (segmentation_field_bits s))
            s
    rest s (inl (e, f)) =
        subst
          (λ c.
            Reads
              (if c
                then return (cancelled_segmentation s.segmentation_event_id)
                else read_segmentation_fields s.segmentation_event_id)
              (cancel_bits c (segmentation_field_bits s)) s)
          (sym e)
          (Reads-value (sym f) (Reads-return (cancelled_segmentation s.segmentation_event_id)))
    rest s (inr (e, f)) =
        subst
          (λ c.
            Reads
              (if c
                then return (cancelled_segmentation s.segmentation_event_id)
                else read_segmentation_fields s.segmentation_event_id)
              (cancel_bits c (segmentation_field_bits s)) s)
          (sym e) (read_segmentation_fields-Reads s e f)

read_descriptor_body-Reads :
    (d : SpliceDescriptor)
    → FitsDescriptorBody d
    → Reads
        (read_descriptor_body (descriptor_tag d) (descriptor_identifier d))
        (descriptor_body_bits d)
        d
unfolding read_descriptor_body
read_descriptor_body-Reads (segmentation s) h = Reads-map _ (read_segmentation-Reads s h)
read_descriptor_body-Reads (unknown_descriptor tag identifier) (a, b, c) =
    let z : (tag == 0x02) ≡ false = ground arith in
    rw z (Reads-return (unknown_descriptor tag identifier))

head_fits :
    (d : SpliceDescriptor)
    → FitsDescriptorBody d
    → (descriptor_tag d < 2 ^ 8) × (descriptor_identifier d < 2 ^ 32)
head_fits (segmentation s) h = (omega arith, omega arith)
head_fits (unknown_descriptor tag identifier) (a, b, c) = (a, c)

-- A descriptor that starts at a whole byte is read back from its bits.
pub read_descriptor-ReadsAt :
    (pos : ℕ) (d : SpliceDescriptor)
    → pos % 8 ≡ 0
    → FitsDescriptor d
    → ReadsAt pos read_descriptor (descriptor_bits d) d
unfolding read_descriptor descriptor_bits
read_descriptor-ReadsAt pos d aligned (body, short) =
    let (tag_fits, identifier_fits) = head_fits d body in
    let size = 4 + length (descriptor_body_bits d) / 8 in
    let rest = descriptor_body_bits d in
    let whole = descriptor_body_bits-Whole d in
    let b = pos + length (field 8 (descriptor_tag d)) + length (field 8 size) in
    let e = b + length {A = ℕ} [] + length (field 32 (descriptor_identifier d)) in
    let f = e + length rest in
    let w8 = length-field 8 (descriptor_tag d) in
    let ws = length-field 8 size in
    let w32 = length-field 32 (descriptor_identifier d) in
    let start : byte_position b ≡ b / 8 = omega (arith, w8, ws, aligned) in
    let target : (b / 8 + size) * 8 ≡ f = omega (arith, w8, ws, w32, aligned, whole) in
    let leave : SpliceDescriptor → Reader SpliceDescriptor = λ d. seek (b / 8 + size) >> return d in
    let last : ReadsAt f (leave d) [] d =
      ReadsAt-bind (λ _. return d) (ReadsAt-seek f (b / 8 + size) target)
        (ReadsAt-of-Reads _ (Reads-return d)) in
    let inner : ReadsAt e
        (read_descriptor_body (descriptor_tag d) (descriptor_identifier d) >>= leave) rest d =
      subst
        (λ bits.
          ReadsAt e (read_descriptor_body (descriptor_tag d) (descriptor_identifier d) >>= leave)
            bits d)
        (append-nil rest)
        (ReadsAt-bind leave (ReadsAt-of-Reads _ (read_descriptor_body-Reads d body)) last) in
    ReadsAt-bind _ (ReadsAt-of-Reads pos (Reads-field 8 (descriptor_tag d) tag_fits)) (
      ReadsAt-bind _ (ReadsAt-of-Reads _ (Reads-field 8 size short)) (
        ReadsAt-bind
          (λ start. read_bits 32 >>= λ identifier.
            read_descriptor_body (descriptor_tag d) identifier >>= λ d.
            seek (start + size) >> return d)
          (ReadsAt-tell b (b / 8) start)
          (ReadsAt-bind (λ identifier. read_descriptor_body (descriptor_tag d) identifier >>= leave)
            (ReadsAt-of-Reads _ (Reads-field 32 (descriptor_identifier d) identifier_fits)) inner)))
