-- ===== src/Scte35.antt =====
-- packages/vinyl/src/ad/scte35/decodeSpliceInfoSection.ts and SpliceInfoSection.ts: SCTE-35 cue
-- messages, decoded from bytes.
pub mod Syntax
pub mod Command
pub mod Lengths
pub mod Descriptor
pub mod Descriptors
pub mod Encoded
pub mod RoundTrip
pub mod Bounds
pub mod Ends
pub mod Avail
use vinyl.Common.{
  ℕ, zero, suc, ◌+◌, ◌*◌, Bool, true, false, not, Option, none, some, List, [], ◌∷◌, ◌++◌, ltb, leb,
  ◌==◌, if◌then◌else◌, length,
}
use vinyl.SpliceInfo.{
  BreakDuration, SpliceInsert, SpliceCommand, splice_null, splice_insert, time_signal,
  unknown_command, Segmentation, SpliceDescriptor, segmentation, unknown_descriptor,
  SpliceInfoSection,
}
use vinyl.BitReader.{
  Reader, Outcome, done, failed, Failure, buffer_error, bad_table_id, truncated, out_of_rounds,
  continue, ◌>>=◌, ◌>>◌, return, throw, tell, seek, skip, read_bits, read_flag, read_bytes,
}

-- `condition ? read : null`
abbrev pub when : {A : Type 0} → Bool → Reader A → Reader (Option A)
when true m = m >>= λ a. return (some a)
when false m = return none

-- `readSpliceTime`
unfoldable pub read_splice_time : Reader (Option ℕ)
read_splice_time = read_flag >>= λ specified.
    if specified
    then (do skip 6; time ← read_bits 33; return (some time))
    else (do skip 7; return none)

-- `readBreakDuration`
unfoldable pub read_break_duration : Reader BreakDuration
read_break_duration = do
  auto_return ← read_flag
  skip 6
  duration ← read_bits 33
  return (record { auto_return = auto_return; duration = duration })

-- The loop of `readSpliceInsert` over the components: the time of the first one.
unfoldable pub read_components : ℕ → Bool → Bool → Option ℕ → Reader (Option ℕ)
read_components zero immediate first time = return time
read_components (suc count) immediate first time = do
  skip 8
  own ←
      if immediate
      then return time
      else (do read ← read_splice_time; return (if first then read else time))
  read_components count immediate false own

-- What `readSpliceInsert` reads of the splice time.
unfoldable pub read_insert_time : Bool → Bool → Reader (Option ℕ)
unfolding read_components
read_insert_time true true = return none
read_insert_time true false = read_splice_time
read_insert_time false immediate = do count ← read_bits 8; read_components count immediate true none

abbrev pub cancelled_insert : ℕ → SpliceInsert
cancelled_insert event = record {
  splice_event_id = event;
  cancel = true;
  out_of_network = false;
  splice_immediate = false;
  splice_time = none;
  break_duration = none;
  unique_program_id = 0;
  avail_num = 0;
  avails_expected = 0;
}

-- `readSpliceInsert` of an event that is not cancelled.
unfoldable pub read_insert_fields : ℕ → Reader SpliceInsert
read_insert_fields event = do
  out_of_network ← read_flag
  program_splice ← read_flag
  has_duration ← read_flag
  immediate ← read_flag
  skip 4
  time ← read_insert_time program_splice immediate
  duration ← when has_duration read_break_duration
  program ← read_bits 16
  num ← read_bits 8
  expected ← read_bits 8
  return (record {
    splice_event_id = event;
    cancel = false;
    out_of_network = out_of_network;
    splice_immediate = immediate;
    splice_time = time;
    break_duration = duration;
    unique_program_id = program;
    avail_num = num;
    avails_expected = expected;
  })

-- `readSpliceInsert`
unfoldable pub read_splice_insert : Reader SpliceInsert
read_splice_insert = do
  event ← read_bits 32
  cancel ← read_flag
  skip 7
  if cancel then return (cancelled_insert event) else read_insert_fields event

-- `readCommand`
unfoldable pub read_command : ℕ → Reader SpliceCommand
read_command type =
    if type == 0x00
    then return splice_null
    else if type == 0x05
    then (do insert ← read_splice_insert; return (splice_insert insert))
    else if type == 0x06
    then (do time ← read_splice_time; return (time_signal time))
    else return (unknown_command type)

abbrev pub cancelled_segmentation : ℕ → Segmentation
cancelled_segmentation event = record {
  segmentation_event_id = event;
  cancel = true;
  segmentation_duration = none;
  upid_type = 0;
  upid = [];
  segmentation_type_id = 0;
  segment_num = 0;
  segments_expected = 0;
}

-- The components of a segmentation descriptor are passed over.
unfoldable pub skip_components : Bool → Reader (Unit {0})
skip_components true = return tt
skip_components false = do count ← read_bits 8; skip (count * 48)

-- `readSegmentationDescriptor` of an event that is not cancelled.
unfoldable pub read_segmentation_fields : ℕ → Reader Segmentation
read_segmentation_fields event = do
  program ← read_flag
  has_duration ← read_flag
  skip 6
  skip_components program
  duration ← when has_duration (read_bits 40)
  upid_type ← read_bits 8
  upid_length ← read_bits 8
  upid ← read_bytes upid_length
  type_id ← read_bits 8
  num ← read_bits 8
  expected ← read_bits 8
  return (record {
    segmentation_event_id = event;
    cancel = false;
    segmentation_duration = duration;
    upid_type = upid_type;
    upid = upid;
    segmentation_type_id = type_id;
    segment_num = num;
    segments_expected = expected;
  })

-- `readSegmentationDescriptor`
unfoldable pub read_segmentation : Reader Segmentation
read_segmentation = do
  event ← read_bits 32
  cancel ← read_flag
  skip 7
  if cancel then return (cancelled_segmentation event) else read_segmentation_fields event

-- `readDescriptor` between the identifier and the end.
unfoldable pub read_descriptor_body : ℕ → ℕ → Reader SpliceDescriptor
read_descriptor_body tag identifier =
    if tag == 0x02
    then (do s ← read_segmentation; return (segmentation s))
    else return (unknown_descriptor tag identifier)

-- `readDescriptor`
unfoldable pub read_descriptor : Reader SpliceDescriptor
read_descriptor = do
  tag ← read_bits 8
  length ← read_bits 8
  start ← tell
  identifier ← read_bits 32
  descriptor ← read_descriptor_body tag identifier
  seek (start + length)
  return descriptor

-- The loop over the descriptors. A round moves on by two bytes at least.
unfoldable pub read_descriptors : ℕ → ℕ → Reader (List SpliceDescriptor)
read_descriptors zero loop_end = throw out_of_rounds
read_descriptors (suc rounds) loop_end =
    let more : Reader (List SpliceDescriptor) = (do
      descriptor ← read_descriptor
      rest ← read_descriptors rounds loop_end
      return (descriptor ∷ rest)) in
    tell >>= λ at. if leb (at + 6) loop_end then more else return []

-- The part of `readSpliceInfoSection` that reads the descriptors.
unfoldable pub read_descriptor_loop : Reader (List SpliceDescriptor)
unfolding read_descriptors
read_descriptor_loop = do
  loop_length ← read_bits 16
  at ← tell
  read_descriptors (suc loop_length) (at + loop_length)

-- The move to the end of the command, unless its length is unspecified.
unfoldable pub leave_command : ℕ → ℕ → Reader (Unit {0})
leave_command start length = if length == 0xfff then return tt else seek (start + length)

-- `readSpliceInfoSection` after the check of the section's length.
unfoldable pub read_section_body : Reader SpliceInfoSection
read_section_body = do
  skip 8
  encrypted ← read_flag
  skip 6
  pts_adjustment ← read_bits 33
  skip 8
  tier ← read_bits 12
  command_length ← read_bits 12
  command_type ← read_bits 8
  command_start ← tell
  command ← if encrypted then return (unknown_command command_type) else read_command command_type
  leave_command command_start command_length
  descriptors ← if encrypted then return [] else read_descriptor_loop
  return (record {
    pts_adjustment = pts_adjustment;
    tier = tier;
    encrypted = encrypted;
    command = command;
    descriptors = descriptors;
  })

-- `readSpliceInfoSection`
unfoldable pub read_splice_info_section : ℕ → Reader SpliceInfoSection
read_splice_info_section byte_length = do
  table ← read_bits 8
  if table == 0xfc
      then (do
        skip 4
        section_length ← read_bits 12
        if ltb byte_length (section_length + 3) then throw truncated else read_section_body)
      else throw bad_table_id

-- What `decodeSpliceInfoSection` makes of an outcome: a BufferError becomes an Scte35Error.
abbrev pub settle : {A : Type 0} → Outcome A → Outcome A
settle (done a p) = done a p
settle (failed buffer_error) = failed truncated
settle (failed e) = failed e

-- `decodeSpliceInfoSection`
unfoldable pub decode_splice_info_section : List ℕ → Outcome SpliceInfoSection
unfolding read_splice_info_section
decode_splice_info_section bytes = settle (read_splice_info_section (length bytes) bytes 0)
