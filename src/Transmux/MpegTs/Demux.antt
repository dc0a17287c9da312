-- ===== src/Transmux/MpegTs/Demux.antt =====
-- demuxTsSegment of packages/vinyl-transmux/src/mpegts/mpegts.ts. JavaScript's maps are association
-- lists in the order of insertion, and `none` of a result means that a loop has no round left.
pub mod Payloads
pub mod Streams
use vinyl.Common.{
  ℕ, zero, suc, ◌+◌, ◌-◌, ◌/◌, Bool, true, false, not, ◌&&◌, ◌||◌, Option, none, some, List, [],
  ◌∷◌, ◌++◌, ltb, leb, ◌==◌, if◌then◌else◌, length, take, drop, get_elem?,
}
use vinyl.BitReader.{byte_at}
use vinyl.Transmux.MpegTs.{
  ts_packet_size, ts_sync_byte, TsPacketHeader, PmtEntry, parse_ts_packet_header,
  get_payload_offset, parse_pat, parse_pmt,
}

pub record DemuxedStream : Type 0 where
  pub stream_type : Option ℕ
  pub pid : ℕ
  pub buffers : List (List ℕ)

module _ {A : Type 0} where
  -- `map.get(key)`
  abbrev pub lookup : ℕ → List (ℕ × A) → Option A
  lookup key [] = none
  lookup key ((k, a) ∷ rest) = if k == key then some a else lookup key rest

  -- `map.set(key, a)`
  abbrev pub assign : ℕ → A → List (ℕ × A) → List (ℕ × A)
  assign key a [] = (key, a) ∷ []
  assign key a ((k, b) ∷ rest) = if k == key then (k, a) ∷ rest else (k, b) ∷ assign key a rest

-- What the first pass has found; the PID of the table is -1 (none) at first.
pub record Found : Type 0 where
  pub pmt_pid : Option ℕ
  pub pmt_entries : List PmtEntry

-- `segment[i] !== TS_SYNC_BYTE`, or the packet has no payload by its header.
unfoldable pub is_skipped : List ℕ → ℕ → Bool
is_skipped segment i =
    let control = (parse_ts_packet_header segment i).adaptation_field_control in
    not (byte_at segment i == ts_sync_byte) || (control == 0 || control == 2)

abbrev pub is_pid : Option ℕ → ℕ → Bool
is_pid none pid = false
is_pid (some p) pid = pid == p

abbrev pub is_empty {ℓ} : {A : Type ℓ} → List A → Bool
is_empty [] = true
is_empty (x ∷ xs) = false

-- `pmtEntries.push(...entries)`
abbrev pub push_entries : Found → Option (List PmtEntry) → Option Found
push_entries found none = none
push_entries found (some entries) =
    some (record found { pmt_entries = found.pmt_entries ++ entries })

abbrev pub payload_start : List ℕ → ℕ → Option ℕ
payload_start segment i =
    get_payload_offset segment i (parse_ts_packet_header segment i).adaptation_field_control

-- A round of the first pass.
unfoldable pub find_tables : List ℕ → ℕ → Found → Option Found
find_tables segment i found =
    let header = parse_ts_packet_header segment i in
    if is_skipped segment i
    then some found
    else if header.pid == 0
    then some (record found { pmt_pid = some (parse_pat segment (payload_start segment i)) })
    else if is_pid found.pmt_pid header.pid && is_empty found.pmt_entries
    then push_entries found (parse_pmt segment (payload_start segment i))
    else some found

abbrev pub bind_found : Option Found → (Found → Option Found) → Option Found
bind_found none f = none
bind_found (some found) f = f found

-- The first pass over that many packets, from an offset.
unfoldable pub first_pass : ℕ → List ℕ → ℕ → Found → Option Found
unfolding find_tables
first_pass zero segment i found = some found
first_pass (suc packets) segment i found =
    bind_found (find_tables segment i found) (first_pass packets segment (i + ts_packet_size))

abbrev pub Buffers : Type 0
Buffers = List (ℕ × List (List ℕ))

abbrev pub stream_types : List PmtEntry → List (ℕ × Option ℕ) → List (ℕ × Option ℕ)
stream_types [] types = types
stream_types (e ∷ es) types = stream_types es (assign e.pid e.stream_type types)

abbrev pub empty_buffers : List PmtEntry → Buffers → Buffers
empty_buffers [] buffers = buffers
empty_buffers (e ∷ es) buffers = empty_buffers es (assign e.pid [] buffers)

abbrev pub slice : List ℕ → ℕ → ℕ → List ℕ
slice bytes start end = take (end - start) (drop start bytes)

-- `if (payloadStart < payloadEnd) buffers.push(...)`, for the buffers of a PID.
abbrev pub push_payload : List ℕ → ℕ → ℕ → Option ℕ → List (List ℕ) → Buffers → Buffers
push_payload segment i pid none own buffers = buffers
push_payload segment i pid (some start) own buffers =
    if ltb start (i + ts_packet_size)
    then assign pid (own ++ slice segment start (i + ts_packet_size) ∷ []) buffers
    else buffers

abbrev pub collect_into : List ℕ → ℕ → ℕ → Option (List (List ℕ)) → Buffers → Buffers
collect_into segment i pid none buffers = buffers
collect_into segment i pid (some own) buffers =
    push_payload segment i pid (payload_start segment i) own buffers

-- A round of the second pass.
unfoldable pub collect : List ℕ → ℕ → Buffers → Buffers
collect segment i buffers =
    let pid = (parse_ts_packet_header segment i).pid in
    if is_skipped segment i
    then buffers
    else collect_into segment i pid (lookup pid buffers) buffers

-- The second pass over that many packets, from an offset.
unfoldable pub second_pass : ℕ → List ℕ → ℕ → Buffers → Buffers
unfolding collect
second_pass zero segment i buffers = buffers
second_pass (suc packets) segment i buffers =
    second_pass packets segment (i + ts_packet_size) (collect segment i buffers)

abbrev pub join_type : Option (Option ℕ) → Option ℕ
join_type none = none
join_type (some t) = t

-- The streams that have buffers.
abbrev pub streams_of : List (ℕ × Option ℕ) → Buffers → List DemuxedStream
streams_of types [] = []
streams_of types ((pid, own) ∷ rest) =
    if is_empty own
    then streams_of types rest
    else record { stream_type = join_type (lookup pid types); pid = pid; buffers = own }
      ∷ streams_of types rest

abbrev pub packet_count : List ℕ → ℕ
packet_count segment = length segment / ts_packet_size

-- `demuxTsSegment` behind the first pass.
abbrev pub collect_streams : List ℕ → Option Found → Option (List DemuxedStream)
collect_streams segment none = none
collect_streams segment (some found) = some (
    streams_of (stream_types found.pmt_entries [])
      (second_pass (packet_count segment) segment 0 (empty_buffers found.pmt_entries [])))

-- `demuxTsSegment`
unfoldable pub demux_ts_segment : List ℕ → Option (List DemuxedStream)
unfolding first_pass second_pass
demux_ts_segment segment =
    collect_streams segment
      (first_pass (packet_count segment) segment 0 (record { pmt_pid = none; pmt_entries = [] }))
