-- ===== src/Transmux/MpegTs/Demux/Streams.antt =====
-- demuxTsSegment as a whole.
use vinyl.Common.{
  ℕ, zero, suc, ◌+◌, ◌≡◌, refl, ap, ◌∙◌, Bool, true, false, Bool-cases, inl, inr, Option, none,
  some, List, [], ◌∷◌, arith, ◌==◌, if◌then◌else◌,
}
use vinyl.Transmux.MpegTs.{ts_packet_size, PmtEntry, parse_ts_packet_header, parse_pmt}
use vinyl.Transmux.MpegTs.Tables.{parse_pmt-ends}
use vinyl.Transmux.MpegTs.Demux.{
  Buffers, DemuxedStream, lookup, assign, is_skipped, is_empty, push_entries, payload_start,
  find_tables, bind_found, first_pass, second_pass, empty_buffers, stream_types, join_type,
  streams_of, packet_count, collect_streams, demux_ts_segment, Found,
}
use vinyl.Transmux.MpegTs.Demux.Payloads.{payloads, fill, Absent, Distinct, second_pass-fill}

-- The PIDs that are mentioned, each once, in the order of their first mention.
abbrev pub mention : ℕ → List ℕ → List ℕ
mention pid [] = pid ∷ []
mention pid (p ∷ ps) = if p == pid then p ∷ ps else p ∷ mention pid ps

abbrev pub mentioned : List PmtEntry → List ℕ → List ℕ
mentioned [] ps = ps
mentioned (e ∷ es) ps = mentioned es (mention e.pid ps)

-- The streams that are wanted: for each PID that has payloads, its type and its payloads.
abbrev pub wanted : (ℕ → Option ℕ) → (ℕ → List (List ℕ)) → List ℕ → List DemuxedStream
wanted type own [] = []
wanted type own (pid ∷ pids) =
    if is_empty (own pid)
    then wanted type own pids
    else record { stream_type = type pid; pid = pid; buffers = own pid } ∷ wanted type own pids

blank : List ℕ → Buffers
blank [] = []
blank (p ∷ ps) = (p, []) ∷ blank ps

assign-blank : (pid : ℕ) (ps : List ℕ) → assign pid [] (blank ps) ≡ blank (mention pid ps)
unfolding blank
assign-blank pid [] = refl
assign-blank pid (p ∷ ps) = elim (Bool-cases (p == pid)) [
  | inl same ↦ rw same refl
  | inr other ↦ rw other (ap (λ l. (p, []) ∷ l) (assign-blank pid ps))
]

empty_buffers-blank :
    (es : List PmtEntry) (ps : List ℕ) → empty_buffers es (blank ps) ≡ blank (mentioned es ps)
empty_buffers-blank [] ps = refl
empty_buffers-blank (e ∷ es) ps =
    ap (empty_buffers es) (assign-blank e.pid ps) ∙ empty_buffers-blank es (mention e.pid ps)

Absent-mention :
    (p pid : ℕ) (ps : List ℕ)
    → (p == pid) ≡ false
    → Absent p (blank ps)
    → Absent p (blank (mention pid ps))
unfolding blank
Absent-mention p pid [] other h = (ground arith, tt)
Absent-mention p pid (q ∷ ps) other h = elim (Bool-cases (q == pid)) [
  | inl same ↦ rw same h
  | inr new ↦ rw new (h.0, Absent-mention p pid ps other h.1)
]

Distinct-mention : (pid : ℕ) (ps : List ℕ) → Distinct (blank ps) → Distinct (blank (mention pid ps))
unfolding blank
Distinct-mention pid [] h = (tt, tt)
Distinct-mention pid (p ∷ ps) h = elim (Bool-cases (p == pid)) [
  | inl same ↦ rw same h
  | inr other ↦ rw other (Absent-mention p pid ps other h.0, Distinct-mention pid ps h.1)
]

Distinct-mentioned :
    (es : List PmtEntry) (ps : List ℕ) → Distinct (blank ps) → Distinct (blank (mentioned es ps))
Distinct-mentioned [] ps h = h
Distinct-mentioned (e ∷ es) ps h =
    Distinct-mentioned es (mention e.pid ps) (Distinct-mention e.pid ps h)

streams_of-wanted :
    (types : List (ℕ × Option ℕ)) (f : ℕ → List (List ℕ)) (ps : List ℕ)
    → streams_of types (fill f (blank ps)) ≡ wanted (λ pid. join_type (lookup pid types)) f ps
unfolding blank
streams_of-wanted types f [] = refl
streams_of-wanted types f (p ∷ ps) = λ i.
    if is_empty (f p)
    then streams_of-wanted types f ps i
    else record { stream_type = join_type (lookup p types); pid = p; buffers = f p }
      ∷ streams_of-wanted types f ps i

-- The type in the last of the entries with that PID, or `t` if there is none.
abbrev pub last_type : ℕ → Option ℕ → List PmtEntry → Option ℕ
last_type pid t [] = t
last_type pid t (e ∷ es) = last_type pid (if e.pid == pid then e.stream_type else t) es

lookup-assign_type :
    (types : List (ℕ × Option ℕ)) (p pid : ℕ) (t : Option ℕ)
    → join_type (lookup pid (assign p t types))
      ≡ (if p == pid then t else join_type (lookup pid types))
lookup-assign_type [] p pid t = elim (Bool-cases (p == pid)) [
  | inl hit ↦ rw hit refl
  | inr miss ↦ rw miss refl
]
lookup-assign_type ((q, u) ∷ types) p pid t =
    let rest = lookup-assign_type types p pid t in
    elim (Bool-cases (q == p)) [
      | inl same ↦
          let e : (p == pid) ≡ (q == pid) = ground arith in
          elim (Bool-cases (q == pid)) [
            | inl hit ↦ rw (same, e, hit) refl
            | inr miss ↦ rw (same, e, miss) refl
          ]
      | inr other ↦ elim (Bool-cases (q == pid)) [
        | inl hit ↦ let e : (p == pid) ≡ false = ground arith in rw (other, hit, e) refl
        | inr miss ↦ rw (other, miss) rest
      ]
    ]

stream_types-last_type :
    (es : List PmtEntry) (types : List (ℕ × Option ℕ)) (pid : ℕ)
    → join_type (lookup pid (stream_types es types))
      ≡ last_type pid (join_type (lookup pid types)) es
stream_types-last_type [] types pid = refl
stream_types-last_type (e ∷ es) types pid =
    stream_types-last_type es (assign e.pid e.stream_type types) pid
    ∙ ap (λ t. last_type pid t es) (lookup-assign_type types e.pid pid e.stream_type)

Ends : Option Found → Type 0
Ends o = (after : Found) × (o ≡ some after)

Ends-if : (b : Bool) (x y : Option Found) → Ends x → Ends y → Ends (if b then x else y)
Ends-if true x y p q = p
Ends-if false x y p q = q

find_tables-ends :
    (segment : List ℕ) (i : ℕ) (found : Found)
    → (after : Found) × (find_tables segment i found ≡ some after)
unfolding find_tables Ends
find_tables-ends segment i found =
    let (entries, run) = parse_pmt-ends segment (payload_start segment i) in
    Ends-if (is_skipped segment i) (some found) _ (found, refl)
      (Ends-if ((parse_ts_packet_header segment i).pid == 0) (some _) _ (_, refl)
        (Ends-if _ (push_entries found (parse_pmt segment (payload_start segment i))) (some found)
          (_, ap (push_entries found) run) (found, refl)))

first_pass-ends :
    (packets : ℕ) (segment : List ℕ) (i : ℕ) (found : Found)
    → (after : Found) × (first_pass packets segment i found ≡ some after)
unfolding first_pass
first_pass-ends zero segment i found = (found, refl)
first_pass-ends (suc packets) segment i found =
    let (one, e) = find_tables-ends segment i found in
    let (after, run) = first_pass-ends packets segment (i + ts_packet_size) one in
    (after, ap (λ o. bind_found o (first_pass packets segment (i + ts_packet_size))) e ∙ run)

-- Demuxing comes to an end on all bytes. For each PID of the map that the first pass has found, in
-- the order in which the map first mentions it, and with the type that it mentions last, there is a
-- stream of the payloads of exactly the packets with that PID, in their order; there is none for a
-- PID without payloads.
pub demux_ts_segment-wanted :
    (segment : List ℕ)
    → (found : Found) × (first_pass
          (packet_count segment)
          segment
          0
          (record { pmt_pid = none; pmt_entries = [] })
        ≡ some found)
      × (demux_ts_segment segment
          ≡ some (
              wanted
                (λ pid. last_type pid none found.pmt_entries)
                (payloads (packet_count segment) segment 0)
                (mentioned found.pmt_entries [])))
unfolding demux_ts_segment blank
demux_ts_segment-wanted segment =
    let count = packet_count segment in
    let (found, run) =
      first_pass-ends count segment 0 (record { pmt_pid = none; pmt_entries = [] }) in
    let pids = mentioned found.pmt_entries [] in
    let types = stream_types found.pmt_entries [] in
    let pass =
      second_pass-fill count segment 0 (blank pids) (Distinct-mentioned found.pmt_entries [] tt) in
    (
      found,
      run,
      ap (collect_streams segment) run
          ∙ ap (λ bs. some (streams_of types (second_pass count segment 0 bs)))
              (empty_buffers-blank found.pmt_entries [])
          ∙ ap (λ bs. some (streams_of types bs)) pass
          ∙ ap some (streams_of-wanted types (payloads count segment 0) pids)
          ∙ λ i. some (
              wanted (λ pid. stream_types-last_type found.pmt_entries [] pid i)
                (payloads count segment 0) pids),
    )
