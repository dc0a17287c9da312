-- ===== src/Scte35/Ends.antt =====
-- The decoder as a whole: it comes to an end, with one of its errors or with values in range.
use vinyl.Common.{
  ℕ, zero, suc, ◌+◌, ◌*◌, ◌^◌, ◌≤◌, ◌<◌, ◌≡◌, ◌⊎◌, inl, inr, refl, subst, Bool, List, [], ◌∷◌,
  length, arith, ltb, ◌==◌, if◌then◌else◌, leb,
}
use vinyl.BitReader.{
  Failure, buffer_error, bad_table_id, truncated, not_sidx, unsupported_version, client_unsupported,
  hierarchical, out_of_rounds, Outcome, done, failed, Reader, ◌>>=◌, ◌>>◌, return, byte_position,
  tell, seek, read_bits,
}
use vinyl.BitReader.Outcomes.{
  Post, Meets, Meets-bind, Meets-if, read_bits-Meets, Gives, Gives-bind, Gives-then, Gives-return,
  Gives-bits, Gives-flag, Gives-skip, Gives-if, Gives-tell, Gives-seek,
}
use vinyl.SpliceInfo.{SpliceDescriptor, SpliceInfoSection, unknown_command}
use vinyl.Scte35.{
  read_command, read_descriptor, read_descriptor_body, read_descriptors, read_descriptor_loop,
  leave_command, read_section_body, read_splice_info_section, settle, decode_splice_info_section,
}
use vinyl.Scte35.Bounds.{
  CommandInRange, DescriptorInRange, read_command-Gives, read_descriptor_body-Gives,
}

abbrev pub DescriptorsInRange : List SpliceDescriptor → Type 0
DescriptorsInRange [] = Unit
DescriptorsInRange (d ∷ ds) = DescriptorInRange d × DescriptorsInRange ds

abbrev pub SectionInRange : SpliceInfoSection → Type 0
SectionInRange s =
    (s.pts_adjustment < 2 ^ 33)
    × (s.tier < 2 ^ 12)
    × CommandInRange s.command
    × DescriptorsInRange s.descriptors

-- A descriptor takes its tag and its length at least.
read_descriptor-Meets :
    (bytes : List ℕ) (pos : ℕ)
    → Meets read_descriptor bytes pos
        (λ d p. DescriptorInRange d × (byte_position pos + 2 ≤ byte_position p))
unfolding read_descriptor
read_descriptor-Meets bytes pos = Meets-bind _ (read_bits-Meets 8 bytes pos) (λ tag p1 h1.
    Meets-bind _ (read_bits-Meets 8 bytes p1) (λ size p2 h2.
      Meets-bind
        (λ start. read_bits 32 >>= λ identifier.
          read_descriptor_body tag identifier >>= λ d. seek (start + size) >> return d)
        (let m : Meets tell bytes p2 (λ start p. start ≡ byte_position p2) = record {
          post = refl;
        } in
          m)
        (λ start p3 e. Meets-bind _ (read_bits-Meets 32 bytes p3) (λ identifier p4 h4.
          let body = read_descriptor_body-Gives tag identifier h1.0 h4.0 in
          Meets-bind _ (body.give bytes p4) (λ d p5 q.
            let far : byte_position pos + 2 ≤ byte_position ((start + size) * 8) =
              omega (arith, e, h1.1, h2.1) in
            record { post = (q, far) })))))

-- The loop has rounds enough when each byte up to its end is one.
read_descriptors-Meets :
    (rounds loop_end : ℕ) (bytes : List ℕ) (pos : ℕ)
    → 1 ≤ rounds
    → loop_end < rounds + byte_position pos
    → Meets (read_descriptors rounds loop_end) bytes pos (λ ds p. DescriptorsInRange ds)
unfolding read_descriptors
read_descriptors-Meets zero loop_end bytes pos some_round enough = elim some_round [ ]
read_descriptors-Meets (suc rounds) loop_end bytes pos some_round enough =
    let body : Meets
        (if leb (byte_position pos + 6) loop_end
          then read_descriptor >>= (λ d. read_descriptors rounds loop_end >>= λ ds. return (d ∷ ds))
          else return [])
        bytes pos (λ ds p. DescriptorsInRange ds) =
      Meets-if (leb (byte_position pos + 6) loop_end)
        (λ go. Meets-bind _ (read_descriptor-Meets bytes pos) (λ d p h.
          let left : 1 ≤ rounds = ground arith in
          Meets-bind _ (read_descriptors-Meets rounds loop_end bytes p left (ground (arith, h.1)))
            (λ ds p2 q. record { post = (h.0, q) })))
        (λ stop. record { post = tt }) in
    record { post = body.post }

read_descriptor_loop-Gives : Gives read_descriptor_loop DescriptorsInRange
unfolding read_descriptor_loop
read_descriptor_loop-Gives = Gives-bind _ (Gives-bits 16) (λ size h. record {
  give = λ bytes pos.
      let loop =
        read_descriptors-Meets (suc size) (byte_position pos + size) bytes pos (omega arith)
          (omega arith) in
      record { post = loop.post };
})

leave_command-Gives : (start length : ℕ) → Gives (leave_command start length) (λ u. Unit {0})
unfolding leave_command
leave_command-Gives start length =
    Gives-if (length == 0xfff) (Gives-return tt tt) (Gives-seek (start + length))

abbrev read_rest : Bool → ℕ → ℕ → ℕ → ℕ → ℕ → Reader SpliceInfoSection
read_rest encrypted adjustment tier size type start = do
  command ← if encrypted then return (unknown_command type) else read_command type
  leave_command start size
  descriptors ← if encrypted then return [] else read_descriptor_loop
  return (record {
    pts_adjustment = adjustment;
    tier = tier;
    encrypted = encrypted;
    command = command;
    descriptors = descriptors;
  })

read_rest-Gives :
    (encrypted : Bool) (adjustment tier size type start : ℕ)
    → (adjustment < 2 ^ 33) × (tier < 2 ^ 12) × (type < 2 ^ 8)
    → Gives (read_rest encrypted adjustment tier size type start) SectionInRange
read_rest-Gives encrypted adjustment tier size type start (a, t, h) =
    Gives-bind _
      (Gives-if encrypted (Gives-return (unknown_command type) h) (read_command-Gives type h))
      (λ command c. Gives-then (leave_command-Gives start size) (
        Gives-bind _
          (Gives-if encrypted (Gives-return {Q = DescriptorsInRange} [] tt)
            read_descriptor_loop-Gives)
          (λ descriptors d. Gives-return _ (a, t, c, d))))

read_section_body-Gives : Gives read_section_body SectionInRange
unfolding read_section_body
read_section_body-Gives = Gives-then (Gives-skip 8) (
    Gives-bind _ Gives-flag (λ encrypted u. Gives-then (Gives-skip 6) (
      Gives-bind _ (Gives-bits 33) (λ adjustment a. Gives-then (Gives-skip 8) (
        Gives-bind _ (Gives-bits 12) (λ tier t. Gives-bind _ (Gives-bits 12) (λ size l.
          Gives-bind _ (Gives-bits 8) (λ type h.
            Gives-bind (read_rest encrypted adjustment tier size type) Gives-tell (λ start u.
              read_rest-Gives encrypted adjustment tier size type start (a, t, h))))))))))

read_splice_info_section-Gives : (size : ℕ) → Gives (read_splice_info_section size) SectionInRange
unfolding read_splice_info_section
read_splice_info_section-Gives size = Gives-bind _ (Gives-bits 8) (λ table h.
    Gives-if (table == 0xfc)
      (Gives-then (Gives-skip 4) (
        Gives-bind _ (Gives-bits 12) (λ section_length l.
          Gives-if (ltb size (section_length + 3))
            (record { give = λ bytes pos. record { post = tt } }) read_section_body-Gives)))
      (record { give = λ bytes pos. record { post = tt } }))

-- What is known of an outcome once it is settled.
abbrev Settled : Outcome SpliceInfoSection → Type 0
Settled (done s p) = SectionInRange s
Settled (failed e) = (e ≡ truncated) ⊎ (e ≡ bad_table_id)

settle-Settled :
    (o : Outcome SpliceInfoSection) → Post (λ s p. SectionInRange s) o → Settled (settle o)
settle-Settled (done s p) q = q
settle-Settled (failed buffer_error) q = inl refl
settle-Settled (failed truncated) q = inl refl
settle-Settled (failed bad_table_id) q = inr refl
settle-Settled (failed not_sidx) q = elim q [ ]
settle-Settled (failed unsupported_version) q = elim q [ ]
settle-Settled (failed client_unsupported) q = elim q [ ]
settle-Settled (failed hierarchical) q = elim q [ ]
settle-Settled (failed out_of_rounds) q = elim q [ ]

decode-Settled : (bytes : List ℕ) → Settled (decode_splice_info_section bytes)
unfolding decode_splice_info_section
decode-Settled bytes =
    let g = read_splice_info_section-Gives (length bytes) in
    let m = g.give bytes 0 in
    settle-Settled (read_splice_info_section (length bytes) bytes 0) m.post

-- The decoder comes to an end on all bytes: when it gives no section, the bytes are cut off or are
-- of another table, so it has not used up the rounds of its loop.
pub decode-fails :
    (bytes : List ℕ) (e : Failure)
    → decode_splice_info_section bytes ≡ failed e
    → (e ≡ truncated) ⊎ (e ≡ bad_table_id)
decode-fails bytes e h = subst Settled h (decode-Settled bytes)

-- In a decoded section, each number is within the width of its field.
pub decode-InRange :
    (bytes : List ℕ) (s : SpliceInfoSection) (pos : ℕ)
    → decode_splice_info_section bytes ≡ done s pos
    → SectionInRange s
decode-InRange bytes s pos h = subst Settled h (decode-Settled bytes)
