-- ===== src/Scte35/Syntax.antt =====
-- The syntax of a cue message, as the standard lays it out in bits.
use vinyl.Common.{
  ℕ, ◌+◌, ◌/◌, ◌^◌, ◌<◌, ◌≡◌, ◌≢◌, ◌⊎◌, Bool, true, false, Option, none, some, List, [], ◌∷◌, ◌++◌,
  length,
}
use vinyl.BitReader.Fields.{field, flag, bytes_field, AllBytes}
use vinyl.SpliceInfo.{
  BreakDuration, SpliceInsert, SpliceCommand, splice_null, splice_insert, time_signal,
  unknown_command, Segmentation, SpliceInfoSection, SpliceDescriptor, segmentation,
  unknown_descriptor,
}
use vinyl.Scte35.{cancelled_insert, cancelled_segmentation}

-- `splice_time()`
abbrev pub time_bits : Option ℕ → List ℕ
time_bits none = flag false ++ field 7 127
time_bits (some t) = flag true ++ (field 6 63 ++ field 33 t)

abbrev pub FitsTime : Option ℕ → Type 0
FitsTime none = Unit
FitsTime (some t) = t < 2 ^ 33

-- `break_duration()`, where it is there.
abbrev pub duration_bits : Option BreakDuration → List ℕ
duration_bits none = []
duration_bits (some d) = flag d.auto_return ++ (field 6 63 ++ field 33 d.duration)

abbrev pub FitsDuration : Option BreakDuration → Type 0
FitsDuration none = Unit
FitsDuration (some d) = d.duration < 2 ^ 33

abbrev pub is_given {ℓ} : {A : Type ℓ} → Option A → Bool
is_given none = false
is_given (some a) = true

-- An immediate splice has no time.
abbrev pub insert_time_bits : Bool → Option ℕ → List ℕ
insert_time_bits true time = []
insert_time_bits false time = time_bits time

-- `splice_insert()` of a program, behind its cancel indicator.
abbrev pub insert_field_bits : SpliceInsert → List ℕ
insert_field_bits s =
    flag s.out_of_network
    ++ (flag true
        ++ (flag (is_given s.break_duration)
            ++ (flag s.splice_immediate
                ++ (field 4 15
                    ++ (insert_time_bits s.splice_immediate s.splice_time
                        ++ (duration_bits s.break_duration
                            ++ (field 16 s.unique_program_id
                                ++ (field 8 s.avail_num ++ field 8 s.avails_expected))))))))

abbrev pub cancel_bits : Bool → List ℕ → List ℕ
cancel_bits true bits = []
cancel_bits false bits = bits

abbrev pub insert_bits : SpliceInsert → List ℕ
insert_bits s =
    field 32 s.splice_event_id
    ++ (flag s.cancel ++ (field 7 127 ++ cancel_bits s.cancel (insert_field_bits s)))

abbrev pub NoTime : Bool → Option ℕ → Type 0
NoTime true time = time ≡ none
NoTime false time = FitsTime time

-- The fields fit, and those that are not sent have the values of the decoder.
abbrev pub FitsInsertFields : SpliceInsert → Type 0
FitsInsertFields s =
    NoTime s.splice_immediate s.splice_time
    × FitsDuration s.break_duration
    × (s.unique_program_id < 2 ^ 16)
    × (s.avail_num < 2 ^ 8)
    × (s.avails_expected < 2 ^ 8)

abbrev pub FitsInsert : SpliceInsert → Type 0
FitsInsert s =
    (s.splice_event_id < 2 ^ 32)
    × (((s.cancel ≡ true) × (s ≡ cancelled_insert s.splice_event_id))
        ⊎ ((s.cancel ≡ false) × FitsInsertFields s))

abbrev pub command_type : SpliceCommand → ℕ
command_type splice_null = 0x00
command_type (splice_insert s) = 0x05
command_type (time_signal t) = 0x06
command_type (unknown_command c) = c

abbrev pub command_bits : SpliceCommand → List ℕ
command_bits splice_null = []
command_bits (splice_insert s) = insert_bits s
command_bits (time_signal t) = time_bits t
command_bits (unknown_command c) = []

abbrev pub FitsCommand : SpliceCommand → Type 0
FitsCommand splice_null = Unit
FitsCommand (splice_insert s) = FitsInsert s
FitsCommand (time_signal t) = FitsTime t
FitsCommand (unknown_command c) = (c < 2 ^ 8) × (c ≢ 0x00) × (c ≢ 0x05) × (c ≢ 0x06)

abbrev pub segmentation_duration_bits : Option ℕ → List ℕ
segmentation_duration_bits none = []
segmentation_duration_bits (some d) = field 40 d

-- `segmentation_descriptor()` of a program, behind its cancel indicator.
abbrev pub segmentation_field_bits : Segmentation → List ℕ
segmentation_field_bits s =
    flag true
    ++ (flag (is_given s.segmentation_duration)
        ++ (field 6 63
            ++ (segmentation_duration_bits s.segmentation_duration
                ++ (field 8 s.upid_type
                    ++ (field 8 (length s.upid)
                        ++ (bytes_field s.upid
                            ++ (field 8 s.segmentation_type_id
                                ++ (field 8 s.segment_num ++ field 8 s.segments_expected))))))))

abbrev pub segmentation_bits : Segmentation → List ℕ
segmentation_bits s =
    field 32 s.segmentation_event_id
    ++ (flag s.cancel ++ (field 7 127 ++ cancel_bits s.cancel (segmentation_field_bits s)))

abbrev pub FitsGiven : ℕ → Option ℕ → Type 0
FitsGiven w none = Unit
FitsGiven w (some v) = v < 2 ^ w

abbrev pub FitsSegmentationFields : Segmentation → Type 0
FitsSegmentationFields s =
    FitsGiven 40 s.segmentation_duration
    × (s.upid_type < 2 ^ 8)
    × (length s.upid < 2 ^ 8)
    × AllBytes s.upid
    × (s.segmentation_type_id < 2 ^ 8)
    × (s.segment_num < 2 ^ 8)
    × (s.segments_expected < 2 ^ 8)

abbrev pub FitsSegmentation : Segmentation → Type 0
FitsSegmentation s =
    (s.segmentation_event_id < 2 ^ 32)
    × (((s.cancel ≡ true) × (s ≡ cancelled_segmentation s.segmentation_event_id))
        ⊎ ((s.cancel ≡ false) × FitsSegmentationFields s))

abbrev pub descriptor_tag : SpliceDescriptor → ℕ
descriptor_tag (segmentation s) = 0x02
descriptor_tag (unknown_descriptor tag identifier) = tag

-- The identifier is `CUEI` in a segmentation descriptor.
abbrev pub descriptor_identifier : SpliceDescriptor → ℕ
descriptor_identifier (segmentation s) = 0x43554549
descriptor_identifier (unknown_descriptor tag identifier) = identifier

abbrev pub descriptor_body_bits : SpliceDescriptor → List ℕ
descriptor_body_bits (segmentation s) = segmentation_bits s
descriptor_body_bits (unknown_descriptor tag identifier) = []

-- `splice_descriptor()`, with the number of bytes that follow.
unfoldable pub descriptor_bits : SpliceDescriptor → List ℕ
descriptor_bits d =
    field 8 (descriptor_tag d)
    ++ (field 8 (4 + length (descriptor_body_bits d) / 8)
        ++ (field 32 (descriptor_identifier d) ++ descriptor_body_bits d))

abbrev pub FitsDescriptorBody : SpliceDescriptor → Type 0
FitsDescriptorBody (segmentation s) = FitsSegmentation s
FitsDescriptorBody (unknown_descriptor tag identifier) =
    (tag < 2 ^ 8) × (tag ≢ 0x02) × (identifier < 2 ^ 32)

abbrev pub FitsDescriptor : SpliceDescriptor → Type 0
FitsDescriptor d = FitsDescriptorBody d × (4 + length (descriptor_body_bits d) / 8 < 2 ^ 8)

abbrev pub descriptors_bits : List SpliceDescriptor → List ℕ
descriptors_bits [] = []
descriptors_bits (d ∷ ds) = descriptor_bits d ++ descriptors_bits ds

abbrev pub FitsDescriptors : List SpliceDescriptor → Type 0
FitsDescriptors [] = Unit
FitsDescriptors (d ∷ ds) = FitsDescriptor d × FitsDescriptors ds

-- `splice_info_section()` that is not encrypted, behind its length and without its CRC.
unfoldable pub section_body_bits : SpliceInfoSection → List ℕ
section_body_bits s =
    field 8 0
    ++ (flag false
        ++ (field 6 0
            ++ (field 33 s.pts_adjustment
                ++ (field 8 0
                    ++ (field 12 s.tier
                        ++ (field 12 (length (command_bits s.command) / 8)
                            ++ (field 8 (command_type s.command)
                                ++ (command_bits s.command
                                    ++ (field 16 (length (descriptors_bits s.descriptors) / 8)
                                        ++ descriptors_bits s.descriptors)))))))))

-- The whole section, given its section length.
unfoldable pub section_bits : ℕ → SpliceInfoSection → List ℕ
section_bits section_length s =
    field 8 0xfc ++ (field 4 3 ++ (field 12 section_length ++ section_body_bits s))

pub record FitsSection (s : SpliceInfoSection) : Type 0 where
  pub pts_fits : s.pts_adjustment < 2 ^ 33
  pub tier_fits : s.tier < 2 ^ 12
  pub clear : s.encrypted ≡ false
  pub command_fits : FitsCommand s.command
  pub descriptors_fit : FitsDescriptors s.descriptors
  pub loop_fits : length (descriptors_bits s.descriptors) / 8 < 2 ^ 16
