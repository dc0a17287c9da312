-- ===== src/Tests/Sidx.antt =====
-- Runs of the parser of segment indexes, and each theorem at a box of two segments.
use vinyl.Common.{
  ℕ, ◌+◌, ◌-◌, ◌^◌, ◌≤◌, ◌≡◌, ◌++◌, ◌∷◌, [], true, false, some, refl, arith, length, take,
  get_elem?,
}
use vinyl.BitReader.{done, failed, buffer_error, not_sidx, hierarchical, client_unsupported}
use vinyl.Double.{to_double}
use vinyl.BufferReader.{skip_bytes, read_uint, read_slice}
use vinyl.BufferReader.Takes.{big_endian}
use vinyl.Sidx.{
  SidxSegmentReference, SidxBox, read_versioned, read_reference, read_body, parse_sidx_box,
  get_sidx_sample_times,
}
use vinyl.Sidx.RoundTrip.{FitsSidx, sidx_bytes, parse_sidx_box-sidx_bytes}
use vinyl.Sidx.Times.{total_duration, get_sidx_sample_times-sum}

abbrev opening : SidxSegmentReference
opening = record {
  reference_type = 0;
  referenced_size = 1000;
  subsegment_duration = 96;
  starts_with_sap = true;
  sap_type = 1;
  sap_delta_time = 5;
}

abbrev box : SidxBox
box = record {
  version = 1;
  earliest_presentation_time = 5000000000;
  first_offset = 0;
  reference_id = 1;
  timescale = 48;
  references = opening ∷ record opening { subsegment_duration = 90 } ∷ [];
}

box-FitsSidx : FitsSidx box
box-FitsSidx = record {
  version_known = omega arith;
  id_fits = omega arith;
  timescale_fits = omega arith;
  earliest_fits = omega arith;
  offset_fits = omega arith;
  count_fits = omega arith;
  references_fit = (
    (refl, omega arith, omega arith, omega arith, omega arith),
    ((refl, omega arith, omega arith, omega arith, omega arith), tt),
  );
}

parse_sidx_box-sidx_bytes_example :
    parse_sidx_box true (sidx_bytes 68 box ++ 1 ∷ 2 ∷ []) 0 ≡ done box (length (sidx_bytes 68 box))
parse_sidx_box-sidx_bytes_example =
    parse_sidx_box-sidx_bytes 68 box (1 ∷ 2 ∷ []) (omega arith) box-FitsSidx

cut_off :
    parse_sidx_box true (0 ∷ 0 ∷ 0 ∷ 32 ∷ 0x73 ∷ 0x69 ∷ 0x64 ∷ 0x78 ∷ 0 ∷ []) 0
    ≡ failed buffer_error
unfolding parse_sidx_box read_body skip_bytes read_slice read_uint
cut_off = refl

other_box :
    parse_sidx_box true (0 ∷ 0 ∷ 0 ∷ 32 ∷ 0x6d ∷ 0x6f ∷ 0x6f ∷ 0x66 ∷ []) 0 ≡ failed not_sidx
unfolding parse_sidx_box skip_bytes read_slice
other_box = refl

no_bigint : parse_sidx_box false (sidx_bytes 68 box) 0 ≡ failed client_unsupported
unfolding parse_sidx_box read_body read_versioned skip_bytes read_slice read_uint big_endian
no_bigint = refl

nested : read_reference (0x80 ∷ 0 ∷ 0 ∷ 1 ∷ []) 0 ≡ failed hierarchical
unfolding read_reference read_uint
nested = refl

times : get_sidx_sample_times box ≡ 5000000000 ∷ 5000000096 ∷ 5000000186 ∷ []
unfolding get_sidx_sample_times to_double
times = refl

-- Ties go to the even double, and from 2 ^ 54 on only multiples of 4 are left.
rounded :
    (to_double (2 ^ 53 + 1) ≡ 2 ^ 53)
    × (to_double (2 ^ 53 + 3) ≡ 2 ^ 53 + 4)
    × (to_double (2 ^ 54 + 2) ≡ 2 ^ 54)
    × (to_double (2 ^ 54 + 3) ≡ 2 ^ 54 + 4)
    × (to_double (2 ^ 64 - 1) ≡ 2 ^ 64)
unfolding to_double
rounded = (refl, refl, refl, refl, refl)

-- With a late start the times are no longer exact.
rounded_times :
    get_sidx_sample_times (record box {
      earliest_presentation_time = 2 ^ 53;
      references = record opening { subsegment_duration = 1 } ∷ [];
    })
    ≡ 2 ^ 53 ∷ 2 ^ 53 ∷ []
unfolding get_sidx_sample_times to_double
rounded_times = refl

get_sidx_sample_times-sum_example :
    (length (get_sidx_sample_times box) ≡ 3)
    × ((i : ℕ)
        → i ≤ 2
        → get_elem? (get_sidx_sample_times box) i
          ≡ some (5000000000 + total_duration (take i box.references)))
get_sidx_sample_times-sum_example = get_sidx_sample_times-sum box (omega arith)
