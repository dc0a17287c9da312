-- ===== src/Transmux/MpegTs/Tables.antt =====
-- The tables of a transport stream are read back from their layout, and parsing one comes to an end.
use vinyl.Common.{
  ℕ, zero, suc, ◌+◌, ◌*◌, ◌/◌, ◌%◌, ◌≤◌, ◌<◌, ◌≡◌, refl, sym, ap, ◌∙◌, subst, true, false,
  Bool-cases, inl, inr, Option, none, some, List, [], ◌∷◌, ◌++◌, append_assoc, arith, ltb, length,
  length-append, get_elem?,
}
use vinyl.BitReader.{byte_at}
use vinyl.BitReader.Bytes.{get_elem?-append, byte_at-append}
use vinyl.Transmux.MpegTs.{
  PmtEntry, word_at, after_pointer, plus_byte, program_at, parse_pat, parse_entries, parse_section,
  section_at, parse_pmt,
}

abbrev entry_at : List ℕ → ℕ → PmtEntry
entry_at bytes pos = record { pid = word_at 32 bytes (pos + 1); stream_type = get_elem? bytes pos }

parse_entries-ends :
    (rounds : ℕ) (bytes : List ℕ) (pos section_end : ℕ)
    → section_end < rounds + pos
    → 1 ≤ rounds
    → (entries : List PmtEntry) × (parse_entries rounds bytes pos section_end ≡ some entries)
unfolding parse_entries
parse_entries-ends zero bytes pos section_end enough some_round =
    let no : ⊥ = omega (arith, some_round) in elim no [ ]
parse_entries-ends (suc rounds) bytes pos section_end enough some_round =
    let next = pos + 5 + word_at 16 bytes (pos + 3) in
    elim (Bool-cases (ltb (pos + 4) section_end)) [
      | inl more ↦
          (let left : 1 ≤ rounds = ground arith in
            let (entries, run) =
              parse_entries-ends rounds bytes next section_end (omega (arith, enough)) left in
            (entry_at bytes pos ∷ entries, rw (more, run) refl))
      | inr stop ↦ ([], rw stop refl)
    ]

section_at-ends :
    (bytes : List ℕ) (pos : Option ℕ)
    → (entries : List PmtEntry) × (section_at bytes pos ≡ some entries)
unfolding section_at parse_section
section_at-ends bytes none = ([], refl)
section_at-ends bytes (some pos) =
    let size = word_at 16 bytes (pos + 1) in
    parse_entries-ends (suc size) bytes (pos + 12 + word_at 16 bytes (pos + 10)) (pos + 3 + size)
      (omega arith) (omega arith)

-- Parsing a program map table comes to an end, whatever the bytes are.
pub parse_pmt-ends :
    (bytes : List ℕ) (offset : Option ℕ)
    → (entries : List PmtEntry) × (parse_pmt bytes offset ≡ some entries)
unfolding parse_pmt
parse_pmt-ends bytes offset = section_at-ends bytes (after_pointer bytes offset)

-- A word in two bytes, with a mark above its high bits.
abbrev pub word_bytes : ℕ → ℕ → List ℕ
word_bytes mark w = (mark + w / 256) ∷ (w % 256) ∷ []

word_at-append :
    (bound : ℕ) (xs ys : List ℕ) (k pos : ℕ)
    → pos ≡ length xs + k
    → word_at bound (xs ++ ys) pos ≡ word_at bound ys k
word_at-append bound xs ys k pos e =
    let first : byte_at (xs ++ ys) pos ≡ byte_at ys k =
      ap (byte_at (xs ++ ys)) e ∙ byte_at-append xs ys k in
    let second : byte_at (xs ++ ys) (pos + 1) ≡ byte_at ys (k + 1) =
      ap (byte_at (xs ++ ys)) (omega (arith, e)) ∙ byte_at-append xs ys (k + 1) in
    λ i. first i % bound * 256 + second i

-- An elementary stream: its type, its PID and the descriptors that the parser passes over.
pub record Stream : Type 0 where
  pub kind : ℕ
  pub pid : ℕ
  pub info : List ℕ

abbrev pub stream_bytes : Stream → List ℕ
stream_bytes s = s.kind ∷ (word_bytes 0xe0 s.pid ++ (word_bytes 0xf0 (length s.info) ++ s.info))

abbrev pub streams_bytes : List Stream → List ℕ
streams_bytes [] = []
streams_bytes (s ∷ ss) = stream_bytes s ++ streams_bytes ss

abbrev pub FitStreams : List Stream → Type 0
FitStreams [] = Unit
FitStreams (s ∷ ss) = (s.pid < 8192) × (length s.info < 4096) × FitStreams ss

abbrev pub entries_of : List Stream → List PmtEntry
entries_of [] = []
entries_of (s ∷ ss) = record { pid = s.pid; stream_type = some s.kind } ∷ entries_of ss

length-streams_bytes : (ss : List Stream) → length ss ≤ length (streams_bytes ss)
length-streams_bytes [] = omega arith
length-streams_bytes (s ∷ ss) =
    omega (arith, length-append (stream_bytes s) (streams_bytes ss), length-streams_bytes ss)

parse_entries-streams :
    (rounds : ℕ) (before after : List ℕ) (ss : List Stream) (pos section_end : ℕ)
    → FitStreams ss
    → length ss < rounds
    → pos ≡ length before
    → section_end ≡ pos + length (streams_bytes ss) + 4
    → parse_entries rounds (before ++ (streams_bytes ss ++ after)) pos section_end
      ≡ some (entries_of ss)
unfolding parse_entries
parse_entries-streams zero before after ss pos section_end fits enough here end = elim enough [ ]
parse_entries-streams (suc rounds) before after [] pos section_end fits enough here end =
    let stop : ltb (pos + 4) section_end ≡ false = ground (arith, end) in rw stop refl
parse_entries-streams (suc rounds) before after (s ∷ ss) pos section_end (pid_fits, info_fits, fits)
      enough here end =
    let bytes = before ++ (streams_bytes (s ∷ ss) ++ after) in
    let own = stream_bytes s in
    let total = length-append own (streams_bytes ss) in
    let more : ltb (pos + 4) section_end ≡ true = ground (arith, end, total) in
    let kind : get_elem? bytes pos ≡ some s.kind =
      ap (get_elem? bytes) (omega (arith, here))
      ∙ get_elem?-append before (streams_bytes (s ∷ ss) ++ after) 0 in
    let pid : word_at 32 bytes (pos + 1) ≡ s.pid =
      word_at-append 32 before (streams_bytes (s ∷ ss) ++ after) 1 (pos + 1) (omega (arith, here))
      ∙ omega (arith, pid_fits) in
    let size : word_at 16 bytes (pos + 3) ≡ length s.info =
      word_at-append 16 before (streams_bytes (s ∷ ss) ++ after) 3 (pos + 3) (omega (arith, here))
      ∙ omega (arith, info_fits) in
    let ih =
      parse_entries-streams rounds (before ++ own) after ss (pos + 5 + length s.info) section_end
        fits (omega (arith, enough)) (omega (arith, here, length-append before own))
        (omega (arith, end, total)) in
    let same : (before ++ own) ++ (streams_bytes ss ++ after) ≡ bytes =
      append_assoc before own (streams_bytes ss ++ after)
      ∙ ap (λ l. before ++ l) (sym (append_assoc own (streams_bytes ss) after)) in
    let rest : parse_entries rounds bytes (pos + 5 + length s.info) section_end
        ≡ some (entries_of ss) =
      subst
        (λ l. parse_entries rounds l (pos + 5 + length s.info) section_end ≡ some (entries_of ss))
        same ih in
    rw (more, size, rest, kind, pid) refl

-- A program map section, from its table id to its streams. Its length counts the four bytes of the
-- CRC, which stands behind it.
abbrev pub section_size : List ℕ → List Stream → ℕ
section_size info ss = 13 + length info + length (streams_bytes ss)

abbrev pub section_head : ℕ → List ℕ → List Stream → List ℕ
section_head pcr_pid info ss =
    0x02
    ∷ (word_bytes 0xb0 (section_size info ss)
        ++ (0x00
            ∷ 0x01
            ∷ 0xc1
            ∷ 0x00
            ∷ 0x00
            ∷ (word_bytes 0xe0 pcr_pid ++ (word_bytes 0xf0 (length info) ++ info))))

-- A table with its pointer field and what the pointer passes over.
abbrev pub pointed : List ℕ → List ℕ → List ℕ
pointed filler section = length filler ∷ (filler ++ section)

after_pointer-pointed :
    (before filler section : List ℕ)
    → after_pointer (before ++ pointed filler section) (some (length before))
      ≡ some (length before + 1 + length filler)
after_pointer-pointed before filler section =
    let read : get_elem? (before ++ pointed filler section) (length before) ≡ some (length filler) =
      ap (get_elem? (before ++ pointed filler section)) (omega arith)
      ∙ get_elem?-append before (pointed filler section) 0 in
    ap (plus_byte (length before + 1)) read

parse_section-streams :
    (before after info : List ℕ) (pcr_pid pos : ℕ) (ss : List Stream)
    → FitStreams ss
    → section_size info ss < 4096
    → pos ≡ length before
    → parse_section (before ++ (section_head pcr_pid info ss ++ (streams_bytes ss ++ after))) pos
      ≡ some (entries_of ss)
unfolding parse_section
parse_section-streams before after info pcr_pid pos ss fits short here =
    let head = section_head pcr_pid info ss in
    let rest = streams_bytes ss ++ after in
    let bytes = before ++ (head ++ rest) in
    let size : word_at 16 bytes (pos + 1) ≡ section_size info ss =
      word_at-append 16 before (head ++ rest) 1 (pos + 1) (omega (arith, here))
      ∙ omega (arith, short) in
    let skipped : word_at 16 bytes (pos + 10) ≡ length info =
      word_at-append 16 before (head ++ rest) 10 (pos + 10) (omega (arith, here))
      ∙ omega (arith, short) in
    let enough = length-streams_bytes ss in
    let wide = length-append before head in
    let entries =
      parse_entries-streams (suc (section_size info ss)) (before ++ head) after ss
        (pos + 12 + length info) (pos + 3 + section_size info ss) fits (omega (arith, enough))
        (omega (arith, here, wide)) (omega arith) in
    let there : parse_entries (suc (section_size info ss)) bytes (pos + 12 + length info)
          (pos + 3 + section_size info ss)
        ≡ some (entries_of ss) =
      subst
        (λ l.
          parse_entries (suc (section_size info ss)) l (pos + 12 + length info)
            (pos + 3 + section_size info ss)
          ≡ some (entries_of ss))
        (append_assoc before head rest) entries in
    rw (size, skipped, there) refl

-- A program map table with its pointer field, wherever it stands, is parsed to the PIDs and types of
-- its streams in order.
pub parse_pmt-pointed :
    (before filler info after : List ℕ) (pcr_pid : ℕ) (ss : List Stream)
    → FitStreams ss
    → section_size info ss < 4096
    → parse_pmt
        (before ++ pointed filler (section_head pcr_pid info ss ++ (streams_bytes ss ++ after)))
        (some (length before))
      ≡ some (entries_of ss)
unfolding parse_pmt section_at
parse_pmt-pointed before filler info after pcr_pid ss fits short =
    let section = section_head pcr_pid info ss ++ (streams_bytes ss ++ after) in
    let bytes = before ++ pointed filler section in
    let place = length before + 1 + length filler in
    let there : (before ++ length filler ∷ filler) ++ section ≡ bytes =
      append_assoc before (length filler ∷ filler) section in
    ap (section_at bytes) (after_pointer-pointed before filler section)
    ∙ subst (λ l. parse_section l place ≡ some (entries_of ss)) there
        (parse_section-streams (before ++ length filler ∷ filler) after info pcr_pid place ss fits
          short (omega (arith, length-append before (length filler ∷ filler))))

-- What a program association table has before the PID of its first program.
abbrev pub association_head : ℕ → ℕ → ℕ → List ℕ
association_head size transport program =
    0x00
    ∷ (word_bytes 0xb0 size
        ++ (word_bytes 0 transport ++ (0xc1 ∷ 0x00 ∷ 0x00 ∷ word_bytes 0 program)))

-- A program association table with its pointer field, wherever it stands, is parsed to the PID of
-- its first program.
parse_pat-pointed :
    (before filler after : List ℕ) (size transport program pid : ℕ)
    → pid < 8192
    → parse_pat
        (before
          ++ pointed filler
              (association_head size transport program ++ (word_bytes 0xe0 pid ++ after)))
        (some (length before))
      ≡ pid
unfolding parse_pat
parse_pat-pointed before filler after size transport program pid fits =
    let section = association_head size transport program ++ (word_bytes 0xe0 pid ++ after) in
    let front = before ++ length filler ∷ filler in
    let bytes = before ++ pointed filler section in
    let place = length before + 1 + length filler in
    let there : front ++ section ≡ bytes = append_assoc before (length filler ∷ filler) section in
    let read : word_at 32 (front ++ section) (place + 10) ≡ pid =
      word_at-append 32 front section 10 (place + 10)
        (omega (arith, length-append before (length filler ∷ filler)))
      ∙ omega (arith, fits) in
    ap (program_at bytes) (after_pointer-pointed before filler section)
    ∙ subst (λ l. word_at 32 l (place + 10) ≡ pid) there read
