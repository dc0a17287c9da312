-- ===== src/Sidx.antt =====
-- packages/vinyl-util/src/util/mpeg/parseSidxBox.ts: the index of the segments of a media file.
pub mod RoundTrip
pub mod Times
use vinyl.Common.{
  ℕ, zero, suc, ◌+◌, ◌*◌, ◌/◌, ◌%◌, ◌^◌, Bool, true, false, not, ◌&&◌, List, [], ◌∷◌, ◌==◌,
  if◌then◌else◌,
}
use vinyl.BitReader.{
  Reader, ◌>>=◌, ◌>>◌, return, throw, not_sidx, unsupported_version, client_unsupported,
  hierarchical,
}
use vinyl.Double.{to_double}
use vinyl.BufferReader.{skip_bytes, read_uint, read_slice}

pub record SidxSegmentReference : Type 0 where
  pub reference_type : ℕ
  pub referenced_size : ℕ
  pub subsegment_duration : ℕ
  pub starts_with_sap : Bool
  pub sap_type : ℕ
  pub sap_delta_time : ℕ

pub record SidxBox : Type 0 where
  pub version : ℕ
  pub earliest_presentation_time : ℕ
  pub first_offset : ℕ
  pub reference_id : ℕ
  pub timescale : ℕ
  pub references : List SidxSegmentReference

-- The characters `sidx`.
abbrev pub sidx_type : List ℕ
sidx_type = 0x73 ∷ 0x69 ∷ 0x64 ∷ 0x78 ∷ []

abbrev pub equal_bytes : List ℕ → List ℕ → Bool
equal_bytes [] [] = true
equal_bytes (x ∷ xs) (y ∷ ys) = (x == y) && equal_bytes xs ys
equal_bytes [] (y ∷ ys) = false
equal_bytes (x ∷ xs) [] = false

-- The times of a box by its version, with the number of bytes of each.
abbrev pub read_times : ℕ → Reader (ℕ × ℕ)
read_times width = do earliest ← read_uint width; first ← read_uint width; return (earliest, first)

-- The times by the version; `has_bigint` says that the platform has BigInt.
unfoldable pub read_versioned : Bool → ℕ → Reader (ℕ × ℕ)
read_versioned has_bigint version =
    if version == 0
    then read_times 4
    else if not (version == 1)
    then throw unsupported_version
    else if not has_bigint
    then throw client_unsupported
    else read_times 8

abbrev pub reference_of : ℕ → ℕ → ℕ → SidxSegmentReference
reference_of type_and_size duration sap = record {
  reference_type = type_and_size / 2 ^ 31 % 2;
  referenced_size = type_and_size % 2 ^ 31;
  subsegment_duration = duration;
  starts_with_sap = sap / 2 ^ 31 % 2 == 1;
  sap_type = sap / 2 ^ 28 % 8;
  sap_delta_time = sap % 2 ^ 28;
}

abbrev pub read_duration : ℕ → Reader SidxSegmentReference
read_duration type_and_size = do
  duration ← read_uint 4
  sap ← read_uint 4
  return (reference_of type_and_size duration sap)

-- The body of the loop over the references.
unfoldable pub read_reference : Reader SidxSegmentReference
read_reference = read_uint 4 >>= λ type_and_size.
    if not (type_and_size / 2 ^ 31 % 2 == 0)
    then throw hierarchical
    else read_duration type_and_size

unfoldable pub read_references : ℕ → Reader (List SidxSegmentReference)
unfolding read_reference
read_references zero = return []
read_references (suc count) = do
  reference ← read_reference
  rest ← read_references count
  return (reference ∷ rest)

-- `parseSidxBox` behind the type of the box.
unfoldable pub read_body : Bool → Reader SidxBox
unfolding read_versioned read_references
read_body has_bigint = do
  version ← read_uint 1
  skip_bytes 3
  reference_id ← read_uint 4
  timescale ← read_uint 4
  times ← read_versioned has_bigint version
  skip_bytes 2
  count ← read_uint 2
  references ← read_references count
  return (record {
    version = version;
    earliest_presentation_time = times.0;
    first_offset = times.1;
    reference_id = reference_id;
    timescale = timescale;
    references = references;
  })

-- `parseSidxBox`
unfoldable pub parse_sidx_box : Bool → Reader SidxBox
unfolding read_body
parse_sidx_box has_bigint = do
  skip_bytes 4
  box_type ← read_slice 4
  if not (equal_bytes box_type sidx_type) then throw not_sidx else read_body has_bigint

-- The loop of `getSidxSampleTimes`: the start times, and the end of the last segment. The sums are
-- sums of doubles.
abbrev pub times_from : ℕ → List SidxSegmentReference → List ℕ
times_from sample_time [] = sample_time ∷ []
times_from sample_time (r ∷ rs) =
    sample_time ∷ times_from (to_double (sample_time + r.subsegment_duration)) rs

-- `getSidxSampleTimes`
unfoldable pub get_sidx_sample_times : SidxBox → List ℕ
get_sidx_sample_times sidx = times_from (to_double sidx.earliest_presentation_time) sidx.references
