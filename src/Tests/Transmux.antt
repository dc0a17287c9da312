-- ===== src/Tests/Transmux.antt =====
-- Runs of the readers of audio frames and transport streams, and each theorem at one.
use vinyl.Common.{ℕ, ◌-◌, ◌≡◌, ◌++◌, List, ◌∷◌, [], true, false, none, some, refl, arith, length}
use vinyl.BitReader.{done}
use vinyl.Transmux.Adts.{
  AdtsFrame, is_sync, frame_at, is_broken, parse_loop, parse_adts_frames, adts_sample_rate,
  build_audio_specific_config,
}
use vinyl.Transmux.Adts.Frames.{Tiled, parse_adts_frames-Tiled}
use vinyl.Transmux.Adts.RoundTrip.{
  Written, FitsFrame, frame_of, bytes_of, all_bytes, located, parse-all_bytes,
}
use vinyl.Transmux.Adts.Config.{read_config, build_audio_specific_config-read}
use vinyl.Transmux.MpegTs.{
  zeros, parse_ts_packet_header, get_payload_offset, parse_pat, parse_entries, parse_section,
  section_at, parse_pmt, parse_pes_pts, strip_pes_header,
}
use vinyl.Transmux.MpegTs.Tables.{
  Stream, streams_bytes, section_head, pointed, entries_of, parse_pmt-pointed, association_head,
  word_bytes,
}
use vinyl.Transmux.MpegTs.Pes.{pes_packet, pes_packet-read}
use vinyl.Transmux.MpegTs.Demux.{
  Found, packet_count, is_skipped, find_tables, first_pass, collect, second_pass, demux_ts_segment,
}
use vinyl.Transmux.MpegTs.Demux.Payloads.{payloads}
use vinyl.Transmux.MpegTs.Demux.Streams.{wanted, mentioned, last_type, demux_ts_segment-wanted}

abbrev first_frame : Written
first_frame = record {
  has_crc = false;
  object_type = 2;
  frequency_index = 4;
  channels = 2;
  fullness = 31;
  payload = 10 ∷ 11 ∷ 12 ∷ [];
}

abbrev second_frame : Written
second_frame = record first_frame { has_crc = true; payload = 1 ∷ 2 ∷ 20 ∷ 21 ∷ [] }

abbrev audio : List ℕ
audio = all_bytes (first_frame ∷ second_frame ∷ [])

fits_first : FitsFrame first_frame
fits_first = record {
  type_fits = (omega arith, omega arith);
  index_fits = omega arith;
  channels_fit = omega arith;
  fullness_fits = omega arith;
  size_fits = omega arith;
  crc_fits = omega arith;
}

fits_second : FitsFrame second_frame
fits_second = record {
  type_fits = (omega arith, omega arith);
  index_fits = omega arith;
  channels_fit = omega arith;
  fullness_fits = omega arith;
  size_fits = omega arith;
  crc_fits = omega arith;
}

parse-all_bytes_example :
    parse_adts_frames audio ≡ some (located 0 (first_frame ∷ second_frame ∷ []))
parse-all_bytes_example =
    parse-all_bytes (first_frame ∷ second_frame ∷ []) (fits_first, (fits_second, tt))

-- Bytes before the first sync word are passed over, and a frame that is cut off ends the list.
abbrev damaged : List ℕ
damaged =
    0 ∷ 0xff ∷ 0 ∷ (bytes_of first_frame ++ (0xff ∷ 0xf1 ∷ 0x50 ∷ 0x80 ∷ 0x01 ∷ 0xff ∷ 0xfc ∷ []))

damaged_parsed : parse_adts_frames damaged ≡ some (frame_of 3 first_frame ∷ [])
unfolding parse_adts_frames parse_loop is_sync frame_at is_broken
damaged_parsed = refl

parse_adts_frames-Tiled_example :
    (frames : List AdtsFrame) × (parse_adts_frames damaged ≡ some frames) × Tiled damaged 0 frames
parse_adts_frames-Tiled_example = parse_adts_frames-Tiled damaged

build_audio_specific_config-read_example :
    let f = frame_at audio 0 in
    read_config (build_audio_specific_config f) 0
    ≡ done (f.audio_object_type, f.sampling_frequency_index, f.channel_configuration) 16
build_audio_specific_config-read_example = build_audio_specific_config-read audio 0

sample_rate : adts_sample_rate 4 ≡ 44100
unfolding adts_sample_rate
sample_rate = refl

unknown_rate : adts_sample_rate 13 ≡ 0
unfolding adts_sample_rate
unknown_rate = refl

pes_packet-read_example :
    (parse_pes_pts (pes_packet 0xe0 0 0x40 8589934000 (1 ∷ []) (7 ∷ 8 ∷ [])) ≡ some 8589934000)
    × (strip_pes_header (pes_packet 0xe0 0 0x40 8589934000 (1 ∷ []) (7 ∷ 8 ∷ [])) ≡ 7 ∷ 8 ∷ [])
pes_packet-read_example =
    pes_packet-read 0xe0 0 0x40 8589934000 (1 ∷ []) (7 ∷ 8 ∷ []) (omega arith) (omega arith)

abbrev elementary : List Stream
elementary =
    record { kind = 0x0f; pid = 0x101; info = [] }
    ∷ record { kind = 0x1b; pid = 0x102; info = 5 ∷ [] }
    ∷ []

abbrev program_map : List ℕ
program_map =
    pointed []
      (section_head 0x101 [] elementary ++ (streams_bytes elementary ++ (1 ∷ 2 ∷ 3 ∷ 4 ∷ [])))

parse_pmt-pointed_example : parse_pmt (9 ∷ program_map) (some 1) ≡ some (entries_of elementary)
parse_pmt-pointed_example =
    parse_pmt-pointed (9 ∷ []) [] [] (1 ∷ 2 ∷ 3 ∷ 4 ∷ []) 0x101 elementary
      (omega arith, omega arith, (omega arith, omega arith, tt)) (omega arith)

-- A packet of 188 bytes.
abbrev packet : ℕ → List ℕ → List ℕ
packet pid payload =
    0x47 ∷ (word_bytes 0x40 pid ++ (0x10 ∷ (payload ++ zeros (184 - length payload))))

abbrev segment : List ℕ
segment =
    packet 0 (pointed [] (association_head 13 1 1 ++ word_bytes 0xe0 0x100))
    ++ (packet 0x100 program_map ++ (packet 0x102 (6 ∷ 7 ∷ []) ++ packet 0x1ff (8 ∷ [])))

demuxed :
    demux_ts_segment segment
    ≡ some
        (record { stream_type = some 0x1b; pid = 0x102; buffers = (6 ∷ 7 ∷ zeros 182) ∷ [] } ∷ [])
unfolding demux_ts_segment first_pass find_tables second_pass collect is_skipped
    parse_ts_packet_header get_payload_offset parse_pat parse_pmt section_at parse_section
    parse_entries
demuxed = refl

demux_ts_segment-wanted_example :
    (found : Found) × (first_pass
        (packet_count segment)
        segment
        0
        (record { pmt_pid = none; pmt_entries = [] })
      ≡ some found)
    × (demux_ts_segment segment
        ≡ some (
            wanted
              (λ pid. last_type pid none found.pmt_entries)
              (payloads (packet_count segment) segment 0)
              (mentioned found.pmt_entries [])))
demux_ts_segment-wanted_example = demux_ts_segment-wanted segment
