-- ===== src/Transmux/MpegTs.antt =====
-- packages/vinyl-transmux/src/mpegts/mpegts.ts: MPEG transport streams. Bytes are those of a
-- Uint8Array. A read outside it is `undefined`: 0 to the bit operations, NaN (`none`) in a sum.
pub mod Tables
pub mod Pes
pub mod Demux
use vinyl.Common.{
  ℕ, zero, suc, ◌+◌, ◌-◌, ◌*◌, ◌/◌, ◌%◌, Bool, true, false, not, ◌&&◌, ◌||◌, Option, none, some,
  List, [], ◌∷◌, ◌++◌, ltb, leb, ◌==◌, if◌then◌else◌, length, take, drop, get_elem?,
}
use vinyl.BitReader.{byte_at}

abbrev pub ts_packet_size : ℕ
ts_packet_size = 188

abbrev pub ts_sync_byte : ℕ
ts_sync_byte = 0x47

pub record TsPacketHeader : Type 0 where
  pub pid : ℕ
  pub payload_unit_start_indicator : Bool
  pub adaptation_field_control : ℕ
  pub continuity_counter : ℕ

-- The stream type is `undefined` in an entry behind the end of the data.
pub record PmtEntry : Type 0 where
  pub pid : ℕ
  pub stream_type : Option ℕ

-- `((data[pos] & mask) << 8) | data[pos + 1]`, where the mask has the low bits of that number.
abbrev pub word_at : ℕ → List ℕ → ℕ → ℕ
word_at bound bytes pos = byte_at bytes pos % bound * 256 + byte_at bytes (pos + 1)

-- `parseTsPacketHeader`
unfoldable pub parse_ts_packet_header : List ℕ → ℕ → TsPacketHeader
parse_ts_packet_header bytes offset = record {
  pid = word_at 32 bytes (offset + 1);
  payload_unit_start_indicator = byte_at bytes (offset + 1) / 64 % 2 == 1;
  adaptation_field_control = byte_at bytes (offset + 3) / 16 % 4;
  continuity_counter = byte_at bytes (offset + 3) % 16;
}

-- A position after adding the byte at another one.
abbrev pub plus_byte : ℕ → Option ℕ → Option ℕ
plus_byte n none = none
plus_byte n (some b) = some (n + b)

-- `getPayloadOffset`
unfoldable pub get_payload_offset : List ℕ → ℕ → ℕ → Option ℕ
get_payload_offset bytes offset adaptation_field_control =
    if leb 2 adaptation_field_control
    then plus_byte (offset + 5) (get_elem? bytes (offset + 4))
    else some (offset + 4)

-- The position behind the pointer field.
abbrev pub after_pointer : List ℕ → Option ℕ → Option ℕ
after_pointer bytes none = none
after_pointer bytes (some offset) = plus_byte (offset + 1) (get_elem? bytes offset)

-- `parsePat` behind the pointer field.
abbrev pub program_at : List ℕ → Option ℕ → ℕ
program_at bytes none = 0
program_at bytes (some pos) = word_at 32 bytes (pos + 10)

-- `parsePat`
unfoldable pub parse_pat : List ℕ → Option ℕ → ℕ
parse_pat bytes offset = program_at bytes (after_pointer bytes offset)

abbrev pub add_entry : PmtEntry → Option (List PmtEntry) → Option (List PmtEntry)
add_entry entry none = none
add_entry entry (some entries) = some (entry ∷ entries)

-- The loop of `parsePmt`. A round moves on by five bytes at least; without one left it gives none.
unfoldable pub parse_entries : ℕ → List ℕ → ℕ → ℕ → Option (List PmtEntry)
parse_entries zero bytes pos section_end = none
parse_entries (suc rounds) bytes pos section_end =
    let entry : PmtEntry = record {
      pid = word_at 32 bytes (pos + 1);
      stream_type = get_elem? bytes pos;
    } in
    let es_info_length = word_at 16 bytes (pos + 3) in
    let rest = parse_entries rounds bytes (pos + 5 + es_info_length) section_end in
    if ltb (pos + 4) section_end then add_entry entry rest else some []

-- `parsePmt` behind the pointer field.
unfoldable pub parse_section : List ℕ → ℕ → Option (List PmtEntry)
unfolding parse_entries
parse_section bytes pos =
    let section_length = word_at 16 bytes (pos + 1) in
    let program_info_length = word_at 16 bytes (pos + 10) in
    parse_entries (suc section_length) bytes (pos + 12 + program_info_length)
      (pos + 3 + section_length)

-- The same from a position that may be NaN, for which no comparison holds.
unfoldable pub section_at : List ℕ → Option ℕ → Option (List PmtEntry)
section_at bytes none = some []
section_at bytes (some pos) = parse_section bytes pos

-- `parsePmt`
unfoldable pub parse_pmt : List ℕ → Option ℕ → Option (List PmtEntry)
unfolding section_at
parse_pmt bytes offset = section_at bytes (after_pointer bytes offset)

-- `pesData[0] !== 0 || pesData[1] !== 0 || pesData[2] !== 1`, negated.
unfoldable pub is_pes_start : List ℕ → Bool
is_pes_start (a ∷ b ∷ c ∷ bytes) = (a == 0) && (b == 0) && (c == 1)
is_pes_start bytes = false

-- `stripPesHeader`; `subarray` of NaN starts at 0.
unfoldable pub strip_pes_header : List ℕ → List ℕ
strip_pes_header pes =
    if not (is_pes_start pes)
    then pes
    else elim (get_elem? pes 8) [ none ↦ pes | some header_length ↦ drop (9 + header_length) pes ]

-- `parsePesPts`; none is -1.
unfoldable pub parse_pes_pts : List ℕ → Option ℕ
parse_pes_pts pes =
    if not (is_pes_start pes)
    then none
    else if byte_at pes 7 / 128 % 2 == 0
    then none
    else some (
        byte_at pes 9 / 2 % 8 * 2 * 0x20000000
        + byte_at pes 10 % 256 * 4194304
        + byte_at pes 11 / 2 % 128 * 2 * 16384
        + byte_at pes 12 % 256 * 128
        + byte_at pes 13 / 2 % 128)

-- `result.set(buffer, offset)`, where the buffer fits.
abbrev pub set_bytes : List ℕ → List ℕ → ℕ → List ℕ
set_bytes result buffer offset =
    take offset result ++ (buffer ++ drop (offset + length buffer) result)

abbrev pub zeros : ℕ → List ℕ
zeros zero = []
zeros (suc n) = 0 ∷ zeros n

abbrev pub total_length : List (List ℕ) → ℕ
total_length [] = 0
total_length (b ∷ bs) = length b + total_length bs

-- The second loop of `concatBuffers`.
abbrev pub copy_buffers : List (List ℕ) → List ℕ → ℕ → List ℕ
copy_buffers [] result offset = result
copy_buffers (b ∷ bs) result offset =
    copy_buffers bs (set_bytes result b offset) (offset + length b)

-- `concatBuffers`
unfoldable pub concat_buffers : List (List ℕ) → List ℕ
concat_buffers buffers = copy_buffers buffers (zeros (total_length buffers)) 0
