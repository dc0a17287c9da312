-- ===== src/Scte35/RoundTrip.antt =====
-- A section is read back from its syntax.
use vinyl.Common.{
  ℕ, ◌+◌, ◌*◌, ◌/◌, ◌%◌, ◌^◌, ◌≤◌, ◌<◌, ◌≡◌, ap, ◌∙◌, sym, subst, false, List, [], ◌++◌, length,
  arith, ltb, ◌==◌, if◌then◌else◌,
}
use vinyl.BitReader.{truncated, Reader, done, ◌>>=◌, ◌>>◌, return, throw, tell, seek}
use vinyl.BitReader.Fields.{
  field, length-field, length-flag, Ready, Reads-field, Reads-skip, Reads-flag,
}
use vinyl.BitReader.Positions.{
  ReadsAt, ReadsAt-of-Reads, ReadsAt-bind, ReadsAt-map, ReadsAt-then, ReadsAt-tell, ReadsAt-seek,
}
use vinyl.SpliceInfo.{
  SpliceDescriptor, SpliceInfoSection, SpliceCommand, splice_null, splice_insert, time_signal,
  unknown_command,
}
use vinyl.Scte35.{
  read_command, read_descriptor_loop, leave_command, read_section_body, read_splice_info_section,
  decode_splice_info_section, settle,
}
use vinyl.Scte35.Syntax.{
  descriptors_bits, command_bits, command_type, FitsCommand, section_body_bits, section_bits,
  FitsSection,
}
use vinyl.Scte35.Lengths.{command_bits-short}
use vinyl.Scte35.Command.{read_command-Reads}
use vinyl.Scte35.Descriptors.{read_descriptor_loop-ReadsAt}

leave_command-ReadsAt :
    (pos start length : ℕ)
    → length ≤ 1000
    → (start + length) * 8 ≡ pos
    → ReadsAt pos (leave_command start length) [] tt
unfolding leave_command
leave_command-ReadsAt pos start length short there =
    let specified : (length == 0xfff) ≡ false = ground arith in
    subst (λ b. ReadsAt pos (if b then return tt else seek (start + length)) [] tt) (sym specified)
      (ReadsAt-seek pos (start + length) there)

command_type_fits : (c : SpliceCommand) → FitsCommand c → command_type c < 2 ^ 8
command_type_fits splice_null h = omega arith
command_type_fits (splice_insert s) h = omega arith
command_type_fits (time_signal t) h = omega arith
command_type_fits (unknown_command c) h = h.0

-- What follows the head of the section.
tail_bits : SpliceInfoSection → List ℕ
tail_bits s =
    command_bits s.command
    ++ (field 16 (length (descriptors_bits s.descriptors) / 8) ++ descriptors_bits s.descriptors)

abbrev read_tail : SpliceInfoSection → ℕ → Reader SpliceInfoSection
read_tail s start = read_command (command_type s.command) >>= λ command.
    leave_command start (length (command_bits s.command) / 8)
    >> (read_descriptor_loop >>= λ descriptors. return (record {
      pts_adjustment = s.pts_adjustment;
      tier = s.tier;
      encrypted = false;
      command = command;
      descriptors = descriptors;
    }))

read_tail-ReadsAt :
    (pos : ℕ) (s : SpliceInfoSection)
    → pos % 8 ≡ 0
    → FitsSection s
    → ReadsAt pos (read_tail s (pos / 8)) (tail_bits s) s
unfolding tail_bits
read_tail-ReadsAt pos s aligned fits =
    let size = length (command_bits s.command) / 8 in
    let (whole, short) = command_bits-short s.command in
    let next = pos + length (command_bits s.command) in
    let leave =
      leave_command-ReadsAt next (pos / 8) size (omega (arith, short))
        (omega (arith, whole, aligned)) in
    let loop =
      read_descriptor_loop-ReadsAt (next + length {A = ℕ} []) s.descriptors
        (omega (arith, whole, aligned)) fits.descriptors_fit fits.loop_fits in
    let clear : Path SpliceInfoSection (record s { encrypted = false }) s =
      ap (λ e. record s { encrypted = e }) (sym fits.clear) in
    let finish : List SpliceDescriptor → SpliceInfoSection =
      λ descriptors. record s { encrypted = false; descriptors = descriptors } in
    subst (λ r. ReadsAt pos (read_tail s (pos / 8)) (tail_bits s) r) clear
      (ReadsAt-bind _ (ReadsAt-of-Reads pos (read_command-Reads s.command fits.command_fits)) (
        ReadsAt-bind (λ _. read_descriptor_loop >>= λ descriptors. return (finish descriptors))
          leave (ReadsAt-map finish loop)))

read_start-ReadsAt :
    (pos : ℕ) (s : SpliceInfoSection)
    → pos % 8 ≡ 0
    → FitsSection s
    → ReadsAt pos (tell >>= read_tail s) (tail_bits s) s
read_start-ReadsAt pos s aligned fits =
    let same : pos + length {A = ℕ} [] ≡ pos = omega arith in
    ReadsAt-bind (read_tail s) (ReadsAt-tell pos (pos / 8) (omega (arith, aligned))) (
      subst (λ p. ReadsAt p (read_tail s (pos / 8)) (tail_bits s) s) (sym same)
        (read_tail-ReadsAt pos s aligned fits))

read_section_body-ReadsAt :
    (pos : ℕ) (s : SpliceInfoSection)
    → pos % 8 ≡ 0
    → FitsSection s
    → ReadsAt pos read_section_body (section_body_bits s) s
unfolding read_section_body section_body_bits tail_bits
read_section_body-ReadsAt pos s aligned fits =
    let size = length (command_bits s.command) / 8 in
    let (whole, short) = command_bits-short s.command in
    let type = command_type s.command in
    ReadsAt-then (ReadsAt-of-Reads pos (Reads-skip 8 0)) (
      ReadsAt-bind _ (ReadsAt-of-Reads _ (Reads-flag false)) (
        ReadsAt-then (ReadsAt-of-Reads _ (Reads-skip 6 0)) (
          ReadsAt-bind _ (ReadsAt-of-Reads _ (Reads-field 33 s.pts_adjustment fits.pts_fits)) (
            ReadsAt-then (ReadsAt-of-Reads _ (Reads-skip 8 0)) (
              ReadsAt-bind _ (ReadsAt-of-Reads _ (Reads-field 12 s.tier fits.tier_fits)) (
                ReadsAt-bind _ (ReadsAt-of-Reads _ (Reads-field 12 size (omega (arith, short)))) (
                  ReadsAt-bind _
                    (ReadsAt-of-Reads _
                      (Reads-field 8 type (command_type_fits s.command fits.command_fits)))
                    (read_start-ReadsAt _ s
                      (omega (
                        arith,
                        aligned,
                        length-field 8 0,
                        length-flag false,
                        length-field 6 0,
                        length-field 33 s.pts_adjustment,
                        length-field 12 s.tier,
                        length-field 12 size,
                        length-field 8 type,
                      ))
                      fits))))))))

pub read_splice_info_section-Ready :
    (bytes : List ℕ) (section_length : ℕ) (s : SpliceInfoSection)
    → FitsSection s
    → section_length < 2 ^ 12
    → section_length + 3 ≤ length bytes
    → Ready bytes 0 (section_bits section_length s)
    → decode_splice_info_section bytes ≡ done s (length (section_bits section_length s))
unfolding decode_splice_info_section read_splice_info_section section_bits
read_splice_info_section-Ready bytes section_length s fits short enough ready =
    let room : ltb (length bytes) (section_length + 3) ≡ false = ground arith in
    let at = 0 + length (field 8 0xfc) + length (field 4 3) + length (field 12 section_length) in
    let body : ReadsAt at read_section_body (section_body_bits s) s =
      read_section_body-ReadsAt at s
        (omega (arith, length-field 8 0xfc, length-field 4 3, length-field 12 section_length))
        fits in
    let after : ReadsAt at
        (if ltb (length bytes) (section_length + 3) then throw truncated else read_section_body)
        (section_body_bits s) s =
      subst
        (λ b. ReadsAt at (if b then throw truncated else read_section_body) (section_body_bits s) s)
        (sym room) body in
    let all : ReadsAt 0 (read_splice_info_section (length bytes)) (section_bits section_length s)
        s =
      ReadsAt-bind _ (ReadsAt-of-Reads 0 (Reads-field 8 0xfc (omega arith))) (
        ReadsAt-then (ReadsAt-of-Reads _ (Reads-skip 4 3))
          (ReadsAt-bind _ (ReadsAt-of-Reads _ (Reads-field 12 section_length short)) after)) in
    ap settle (all.run_at bytes ready) ∙ ap (done s) (omega arith)
