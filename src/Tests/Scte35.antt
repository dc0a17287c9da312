-- ===== src/Tests/Scte35.antt =====
-- Runs of the SCTE-35 decoder: sections of packages/vinyl/test/unit/ad/scte35, and each theorem at one.
use vinyl.Common.{
  ℕ, ◌*◌, ◌⊎◌, ◌≡◌, ◌++◌, List, ◌∷◌, [], true, false, some, refl, arith, inr, length,
}
use vinyl.BitReader.{done, failed, truncated, bad_table_id, read_bits, read_flag, read_bytes}
use vinyl.BitReader.Fields.{field}
use vinyl.SpliceInfo.{time_signal, Segmentation, segmentation, SpliceInfoSection}
use vinyl.Scte35.{
  decode_splice_info_section, read_splice_info_section, read_section_body, leave_command,
  read_command, read_splice_time, read_descriptor_loop, read_descriptors, read_descriptor,
  read_descriptor_body, read_segmentation, read_segmentation_fields, skip_components,
}
use vinyl.Scte35.Syntax.{FitsSection, section_body_bits, descriptor_bits}
use vinyl.Scte35.Encoded.{encode_section, section_length, decode-encode}
use vinyl.Scte35.Ends.{SectionInRange, decode-fails, decode-InRange}
use vinyl.Scte35.Avail.{
  out, get_splice_avail, command_avail, signalled_avail, is_avail_start, is_avail_end,
}
use vinyl.Scte35.Avail.First.{get_splice_avail-first}

-- The bytes of the first case of decodeSpliceInfoSection.test.ts.
abbrev sample : List ℕ
sample =
    0xfc ∷ 0x30 ∷ 0x34 ∷ 0x0 ∷ 0x0 ∷ 0x0 ∷ 0x0 ∷ 0x0 ∷ 0x0 ∷ 0xff ∷ 0xff ∷ 0xf0 ∷ 0x5 ∷ 0x6 ∷ 0xfe
    ∷ 0x72 ∷ 0xbd ∷ 0x0 ∷ 0x50 ∷ 0x0 ∷ 0x1e ∷ 0x2 ∷ 0x1c ∷ 0x43 ∷ 0x55 ∷ 0x45 ∷ 0x49 ∷ 0x48 ∷ 0x0
    ∷ 0x0 ∷ 0x8e ∷ 0x7f ∷ 0xcf ∷ 0x0 ∷ 0x1 ∷ 0xa5 ∷ 0x99 ∷ 0xb0 ∷ 0x8 ∷ 0x8 ∷ 0x0 ∷ 0x0 ∷ 0x0 ∷ 0x0
    ∷ 0x2c ∷ 0xa0 ∷ 0xa1 ∷ 0x8a ∷ 0x34 ∷ 0x2 ∷ 0x0 ∷ 0x9a ∷ 0xc9 ∷ 0xd1 ∷ 0x7e ∷ []

abbrev sample_segmentation : Segmentation
sample_segmentation = record {
  segmentation_event_id = 0x4800008e;
  cancel = false;
  segmentation_duration = some 27630000;
  upid_type = 8;
  upid = 0x00 ∷ 0x00 ∷ 0x00 ∷ 0x00 ∷ 0x2c ∷ 0xa0 ∷ 0xa1 ∷ 0x8a ∷ [];
  segmentation_type_id = 0x34;
  segment_num = 2;
  segments_expected = 0;
}

abbrev sample_section : SpliceInfoSection
sample_section = record {
  pts_adjustment = 0;
  tier = 0xfff;
  encrypted = false;
  command = time_signal (some 0x072bd0050);
  descriptors = segmentation sample_segmentation ∷ [];
}

sample_decoded : decode_splice_info_section sample ≡ done sample_section 408
unfolding decode_splice_info_section read_splice_info_section read_section_body leave_command
    read_command read_splice_time read_descriptor_loop read_descriptors read_descriptor
    read_descriptor_body read_segmentation read_segmentation_fields skip_components read_bytes
    read_flag read_bits
sample_decoded = refl

sample_avail :
    get_splice_avail sample_section
    ≡ some (record {
      direction = out;
      event_id = 0x4800008e;
      time = some 0x072bd0050;
      duration = some 0x1a599b0;
    })
unfolding get_splice_avail command_avail signalled_avail is_avail_start is_avail_end
sample_avail = refl

decode-InRange_example : SectionInRange sample_section
decode-InRange_example = decode-InRange sample sample_section 408 sample_decoded

bad_table : decode_splice_info_section (0x00 ∷ 0x30 ∷ 0x00 ∷ []) ≡ failed bad_table_id
unfolding decode_splice_info_section read_splice_info_section read_bits
bad_table = refl

cut_off : decode_splice_info_section (0xfc ∷ 0x30 ∷ 0x34 ∷ []) ≡ failed truncated
unfolding decode_splice_info_section read_splice_info_section read_bits
cut_off = refl

decode-fails_example : (truncated ≡ truncated) ⊎ (truncated ≡ bad_table_id)
decode-fails_example = decode-fails (0xfc ∷ 0x30 ∷ 0x34 ∷ []) truncated cut_off

sample-FitsSection : FitsSection sample_section
unfolding descriptor_bits field
sample-FitsSection = record {
  pts_fits = omega arith;
  tier_fits = omega arith;
  clear = refl;
  command_fits = omega arith;
  descriptors_fit = (
    (
      (
        omega arith,
        inr (
          refl,
          (
            omega arith,
            omega arith,
            omega arith,
            (
              omega arith,
              (
                omega arith,
                (
                  omega arith,
                  (omega arith, (omega arith, (omega arith, (omega arith, (omega arith, tt))))),
                ),
              ),
            ),
            omega arith,
            omega arith,
            omega arith,
          ),
        ),
      ),
      omega arith,
    ),
    tt,
  );
  loop_fits = omega arith;
}

sample_length : section_length sample_section ≡ 52
unfolding section_body_bits descriptor_bits field
sample_length = refl

decode-encode_example :
    decode_splice_info_section (encode_section sample_section ++ 1 ∷ 2 ∷ 3 ∷ 4 ∷ [])
    ≡ done sample_section (length (encode_section sample_section) * 8)
decode-encode_example =
    decode-encode sample_section (1 ∷ 2 ∷ 3 ∷ 4 ∷ []) sample-FitsSection
      (omega (arith, sample_length)) refl

sample_opens : is_avail_start 0x34 ≡ true
unfolding is_avail_start
sample_opens = refl

get_splice_avail-first_example :
    get_splice_avail sample_section
    ≡ some (record {
      direction = out;
      event_id = 0x4800008e;
      time = some 0x072bd0050;
      duration = some 0x1a599b0;
    })
get_splice_avail-first_example =
    get_splice_avail-first sample_section (some 0x072bd0050) [] sample_segmentation [] out refl refl
      tt (refl, sample_opens)
