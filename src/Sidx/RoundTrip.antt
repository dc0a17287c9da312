-- ===== src/Sidx/RoundTrip.antt =====
-- A segment index is read back from its layout.
use vinyl.Common.{
  ℕ, zero, suc, ◌+◌, ◌*◌, ◌/◌, ◌%◌, ◌^◌, ◌≤◌, ◌<◌, ◌≡◌, sym, ap, ◌∙◌, subst, Bool, true, false, not,
  List, [], ◌∷◌, ◌++◌, arith, ◌==◌, if◌then◌else◌, length,
}
use vinyl.BitReader.{done, throw, hierarchical}
use vinyl.BufferReader.{skip_bytes}
use vinyl.BufferReader.Takes.{
  Takes, Takes-return, Takes-bind, Takes-then, Takes-map, Takes-uint, Takes-skip, Takes-slice,
  big_endian, length-big_endian,
}
use vinyl.Sidx.{
  SidxSegmentReference, SidxBox, sidx_type, read_times, read_versioned, reference_of, read_duration,
  read_reference, read_references, read_body, parse_sidx_box,
}

abbrev pub bit_of : Bool → ℕ
bit_of true = 1
bit_of false = 0

-- The last word of a reference: whether it starts with a SAP, the type and the time of that.
abbrev pub sap_word : SidxSegmentReference → ℕ
sap_word r = bit_of r.starts_with_sap * 2 ^ 31 + r.sap_type * 2 ^ 28 + r.sap_delta_time

abbrev pub reference_bytes : SidxSegmentReference → List ℕ
reference_bytes r =
    big_endian 4 r.referenced_size
    ++ (big_endian 4 r.subsegment_duration ++ big_endian 4 (sap_word r))

abbrev pub references_bytes : List SidxSegmentReference → List ℕ
references_bytes [] = []
references_bytes (r ∷ rs) = reference_bytes r ++ references_bytes rs

-- The times take four bytes each in version 0 and eight in version 1.
abbrev pub width_of : ℕ → ℕ
width_of version = if version == 0 then 4 else 8

-- The box: its size, its type, its version and flags, and its fields.
abbrev pub sidx_bytes : ℕ → SidxBox → List ℕ
sidx_bytes size s =
    big_endian 4 size
    ++ (sidx_type
        ++ (big_endian 1 s.version
            ++ ((0 ∷ 0 ∷ 0 ∷ [])
                ++ (big_endian 4 s.reference_id
                    ++ (big_endian 4 s.timescale
                        ++ ((big_endian (width_of s.version) s.earliest_presentation_time
                              ++ big_endian (width_of s.version) s.first_offset)
                            ++ ((0 ∷ 0 ∷ [])
                                ++ (big_endian 2 (length s.references)
                                    ++ references_bytes s.references))))))))

abbrev pub FitsReference : SidxSegmentReference → Type 0
FitsReference r =
    (r.reference_type ≡ 0)
    × (r.referenced_size < 2 ^ 31)
    × (r.subsegment_duration < 2 ^ 32)
    × (r.sap_type < 8)
    × (r.sap_delta_time < 2 ^ 28)

abbrev pub FitsReferences : List SidxSegmentReference → Type 0
FitsReferences [] = Unit
FitsReferences (r ∷ rs) = FitsReference r × FitsReferences rs

pub record FitsSidx (s : SidxBox) : Type 0 where
  pub version_known : s.version ≤ 1
  pub id_fits : s.reference_id < 2 ^ 32
  pub timescale_fits : s.timescale < 2 ^ 32
  pub earliest_fits : s.earliest_presentation_time < 256 ^ width_of s.version
  pub offset_fits : s.first_offset < 256 ^ width_of s.version
  pub count_fits : length s.references < 2 ^ 16
  pub references_fit : FitsReferences s.references

starts_bit :
    (b : Bool) (type time : ℕ)
    → type < 8
    → time < 2 ^ 28
    → ((bit_of b * 2 ^ 31 + type * 2 ^ 28 + time) / 2 ^ 31 % 2 == 1) ≡ b
starts_bit true type time t d = ground arith
starts_bit false type time t d = ground arith

bit_of-small : (b : Bool) → bit_of b ≤ 1
bit_of-small true = omega arith
bit_of-small false = omega arith

reference_of-sap_word :
    (r : SidxSegmentReference)
    → FitsReference r
    → reference_of r.referenced_size r.subsegment_duration (sap_word r) ≡ r
reference_of-sap_word r (kind, size, duration, type, time) =
    let small = bit_of-small r.starts_with_sap in
    let e0 : r.referenced_size / 2 ^ 31 % 2 ≡ r.reference_type = omega (arith, kind, size) in
    let e1 : r.referenced_size % 2 ^ 31 ≡ r.referenced_size = omega (arith, size) in
    let e2 = starts_bit r.starts_with_sap r.sap_type r.sap_delta_time type time in
    let e3 : sap_word r / 2 ^ 28 % 8 ≡ r.sap_type = omega (arith, type, time) in
    let e4 : sap_word r % 2 ^ 28 ≡ r.sap_delta_time = omega (arith, time) in
    λ i. record {
      reference_type = e0 i;
      referenced_size = e1 i;
      subsegment_duration = r.subsegment_duration;
      starts_with_sap = e2 i;
      sap_type = e3 i;
      sap_delta_time = e4 i;
    }

read_reference-Takes :
    (r : SidxSegmentReference) → FitsReference r → Takes read_reference (reference_bytes r) r
unfolding read_reference
read_reference-Takes r h =
    let (kind, size, duration, type, time) = h in
    let small = bit_of-small r.starts_with_sap in
    let rest : Takes (read_duration r.referenced_size)
        (big_endian 4 r.subsegment_duration ++ big_endian 4 (sap_word r)) r =
      subst
        (Takes (read_duration r.referenced_size)
          (big_endian 4 r.subsegment_duration ++ big_endian 4 (sap_word r)))
        (reference_of-sap_word r h)
        (Takes-bind _ (Takes-uint 4 r.subsegment_duration (omega (arith, duration))) (
          Takes-map (λ sap. reference_of r.referenced_size r.subsegment_duration sap)
            (Takes-uint 4 (sap_word r) (omega (arith, small, type, time))))) in
    let plain : not (r.referenced_size / 2 ^ 31 % 2 == 0) ≡ false = ground (arith, size) in
    Takes-bind
      (λ type_and_size.
        if not (type_and_size / 2 ^ 31 % 2 == 0)
        then throw hierarchical
        else read_duration type_and_size)
      (Takes-uint 4 r.referenced_size (omega (arith, size)))
      (subst
        (λ b.
          Takes (if b then throw hierarchical else read_duration r.referenced_size)
            (big_endian 4 r.subsegment_duration ++ big_endian 4 (sap_word r)) r)
        (sym plain) rest)

read_references-Takes :
    (rs : List SidxSegmentReference)
    → FitsReferences rs
    → Takes (read_references (length rs)) (references_bytes rs) rs
unfolding read_references
read_references-Takes [] h = Takes-return []
read_references-Takes (r ∷ rs) h =
    Takes-bind _ (read_reference-Takes r h.0)
      (Takes-map (λ rest. r ∷ rest) (read_references-Takes rs h.1))

read_times-Takes :
    (width earliest first : ℕ)
    → earliest < 256 ^ width
    → first < 256 ^ width
    → Takes
        (read_times width)
        (big_endian width earliest ++ big_endian width first)
        (earliest, first)
read_times-Takes width earliest first e f =
    Takes-bind _ (Takes-uint width earliest e)
      (Takes-map (λ first. (earliest, first)) (Takes-uint width first f))

read_versioned-Takes :
    (version earliest first : ℕ)
    → version ≤ 1
    → earliest < 256 ^ width_of version
    → first < 256 ^ width_of version
    → Takes
        (read_versioned true version)
        (big_endian (width_of version) earliest ++ big_endian (width_of version) first)
        (earliest, first)
unfolding read_versioned
read_versioned-Takes zero earliest first v e f = read_times-Takes 4 earliest first e f
read_versioned-Takes (suc zero) earliest first v e f = read_times-Takes 8 earliest first e f
read_versioned-Takes (suc (suc n)) earliest first v e f =
    let no : ⊥ = omega (arith, v) in elim no [ ]

parse_sidx_box-Takes :
    (size : ℕ) (s : SidxBox)
    → size < 2 ^ 32
    → FitsSidx s
    → Takes (parse_sidx_box true) (sidx_bytes size s) s
unfolding parse_sidx_box read_body
parse_sidx_box-Takes size s small fits =
    Takes-then
      (subst (λ n. Takes (skip_bytes n) (big_endian 4 size) tt) (length-big_endian 4 size)
        (Takes-skip (big_endian 4 size)))
      (Takes-bind _ (Takes-slice sidx_type) (
        Takes-bind _ (Takes-uint 1 s.version (omega (arith, fits.version_known))) (
          Takes-then (Takes-skip (0 ∷ 0 ∷ 0 ∷ [])) (
            Takes-bind _ (Takes-uint 4 s.reference_id (omega (arith, fits.id_fits))) (
              Takes-bind _ (Takes-uint 4 s.timescale (omega (arith, fits.timescale_fits))) (
                Takes-bind _
                  (read_versioned-Takes s.version s.earliest_presentation_time s.first_offset
                    fits.version_known fits.earliest_fits fits.offset_fits)
                  (Takes-then (Takes-skip (0 ∷ 0 ∷ [])) (
                    Takes-bind _
                      (Takes-uint 2 (length s.references) (omega (arith, fits.count_fits)))
                      (Takes-map _ (read_references-Takes s.references fits.references_fit))))))))))

-- A box that fits the fields of the layout, with any size in its head and any bytes behind it, is
-- parsed to itself on a platform with BigInt.
pub parse_sidx_box-sidx_bytes :
    (size : ℕ) (s : SidxBox) (after : List ℕ)
    → size < 2 ^ 32
    → FitsSidx s
    → parse_sidx_box true (sidx_bytes size s ++ after) 0 ≡ done s (length (sidx_bytes size s))
parse_sidx_box-sidx_bytes size s after small fits =
    let t = parse_sidx_box-Takes size s small fits in t.from [] after ∙ ap (done s) (omega arith)
