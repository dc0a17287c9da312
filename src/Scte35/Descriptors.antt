-- ===== src/Scte35/Descriptors.antt =====
-- The loop over the descriptors: they are read back from its syntax.
use vinyl.Common.{
  ℕ, zero, suc, ◌+◌, ◌*◌, ◌/◌, ◌%◌, ◌^◌, ◌≤◌, ◌<◌, ◌≡◌, sym, subst, refl, Bool, true, false, List,
  [], ◌∷◌, ◌++◌, length, arith, leb, if◌then◌else◌, length-append,
}
use vinyl.BitReader.{Reader, ◌>>=◌, return}
use vinyl.BitReader.Fields.{field, length-field, Reads-return, Reads-field}
use vinyl.BitReader.Positions.{
  Whole, Whole-append, ReadsAt, ReadsAt-of-Reads, ReadsAt-bind, ReadsAt-map, ReadsAt-tell,
}
use vinyl.SpliceInfo.{SpliceDescriptor}
use vinyl.Scte35.{read_descriptor, read_descriptors, read_descriptor_loop}
use vinyl.Scte35.Syntax.{descriptor_bits, descriptors_bits, FitsDescriptors}
use vinyl.Scte35.Lengths.{descriptor_body_bits-Whole, length-descriptor_bits}
use vinyl.Scte35.Descriptor.{read_descriptor-ReadsAt}

pub descriptors_bits-Whole : (ds : List SpliceDescriptor) → Whole (descriptors_bits ds)
descriptors_bits-Whole [] = refl
descriptors_bits-Whole (d ∷ ds) =
    let head : Whole (descriptor_bits d) =
      omega (arith, length-descriptor_bits d, descriptor_body_bits-Whole d) in
    Whole-append (descriptor_bits d) (descriptors_bits ds) head (descriptors_bits-Whole ds)

abbrev next_descriptors : ℕ → ℕ → Reader (List SpliceDescriptor)
next_descriptors rounds loop_end =
    read_descriptor >>= λ d. read_descriptors rounds loop_end >>= λ ds. return (d ∷ ds)

-- A round of the loop, given what its test says.
read_descriptors-round :
    (rounds pos loop_end : ℕ) (go : Bool) {bits : List ℕ} (ds : List SpliceDescriptor)
    → pos % 8 ≡ 0
    → leb (pos / 8 + 6) loop_end ≡ go
    → ReadsAt pos (if go then next_descriptors rounds loop_end else return []) bits ds
    → ReadsAt pos (read_descriptors (suc rounds) loop_end) bits ds
unfolding read_descriptors
read_descriptors-round rounds pos loop_end go {bits} ds aligned e r =
    let place : pos ≡ pos + length {A = ℕ} [] = omega arith in
    ReadsAt-bind
      (λ at. if leb (at + 6) loop_end then next_descriptors rounds loop_end else return [])
      (ReadsAt-tell pos (pos / 8) (omega (arith, aligned)))
      (subst
        (λ b.
          ReadsAt (pos + length {A = ℕ} [])
            (if b then next_descriptors rounds loop_end else return []) bits ds)
        (sym e)
        (subst (λ p. ReadsAt p (if go then next_descriptors rounds loop_end else return []) bits ds)
          place r))

read_descriptors-ReadsAt :
    (rounds pos loop_end : ℕ) (ds : List SpliceDescriptor)
    → pos % 8 ≡ 0
    → FitsDescriptors ds
    → loop_end * 8 ≡ pos + length (descriptors_bits ds)
    → length ds < rounds
    → ReadsAt pos (read_descriptors rounds loop_end) (descriptors_bits ds) ds
read_descriptors-ReadsAt zero pos loop_end ds aligned fits end enough = elim enough [ ]
read_descriptors-ReadsAt (suc rounds) pos loop_end [] aligned fits end enough =
    read_descriptors-round rounds pos loop_end false [] aligned (ground arith)
      (ReadsAt-of-Reads pos (Reads-return []))
read_descriptors-ReadsAt (suc rounds) pos loop_end (d ∷ ds) aligned fits end enough =
    let total = length-append (descriptor_bits d) (descriptors_bits ds) in
    let one = length-descriptor_bits d in
    let whole = descriptor_body_bits-Whole d in
    let next = pos + length (descriptor_bits d) in
    let ih =
      read_descriptors-ReadsAt rounds next loop_end ds (omega (arith, one, whole, aligned)) fits.1
        (omega (arith, total, end)) (omega (arith, enough)) in
    read_descriptors-round rounds pos loop_end true (d ∷ ds) aligned (ground (arith, total, one)) (
      ReadsAt-bind (λ d. read_descriptors rounds loop_end >>= λ ds. return (d ∷ ds))
        (read_descriptor-ReadsAt pos d aligned fits.0) (ReadsAt-map (λ ds. d ∷ ds) ih))

-- Each descriptor takes two bytes at least.
length-descriptors_bits :
    (ds : List SpliceDescriptor) → length ds ≤ length (descriptors_bits ds) / 8
length-descriptors_bits [] = omega arith
length-descriptors_bits (d ∷ ds) = omega (
  arith,
  length-append (descriptor_bits d) (descriptors_bits ds),
  length-descriptor_bits d,
  length-descriptors_bits ds,
)

pub read_descriptor_loop-ReadsAt :
    (pos : ℕ) (ds : List SpliceDescriptor)
    → pos % 8 ≡ 0
    → FitsDescriptors ds
    → length (descriptors_bits ds) / 8 < 2 ^ 16
    → ReadsAt pos read_descriptor_loop
        (field 16 (length (descriptors_bits ds) / 8) ++ descriptors_bits ds)
        ds
unfolding read_descriptor_loop
read_descriptor_loop-ReadsAt pos ds aligned fits short =
    let size = length (descriptors_bits ds) / 8 in
    let w = length-field 16 size in
    let start = pos + length (field 16 size) in
    let after = start + length {A = ℕ} [] in
    let whole = descriptors_bits-Whole ds in
    let loop =
      read_descriptors-ReadsAt (suc size) after (start / 8 + size) ds (omega (arith, w, aligned))
        fits (omega (arith, w, aligned, whole)) (omega (arith, length-descriptors_bits ds)) in
    ReadsAt-bind _ (ReadsAt-of-Reads pos (Reads-field 16 size short)) (
      ReadsAt-bind (λ at. read_descriptors (suc size) (at + size))
        (ReadsAt-tell start (start / 8) (omega (arith, w, aligned))) loop)
