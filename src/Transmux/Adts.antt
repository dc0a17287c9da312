-- ===== src/Transmux/Adts.antt =====
-- packages/vinyl-transmux/src/aac/adts.ts: the frames of a buffer of AAC audio, which is the bytes
-- of a Uint8Array; bit operations on a byte are divisions and remainders, and `|` of bits at
-- different places is a sum.
pub mod Frames
pub mod RoundTrip
pub mod Config
use vinyl.Common.{
  ℕ, zero, suc, ◌+◌, ◌-◌, ◌*◌, ◌/◌, ◌%◌, Bool, true, false, not, ◌||◌, ◌&&◌, Option, none, some,
  List, [], ◌∷◌, ltb, leb, ◌==◌, if◌then◌else◌, length, get_elem?,
}
use vinyl.BitReader.{byte_at}

pub record AdtsFrame : Type 0 where
  pub offset : ℕ
  pub frame_length : ℕ
  pub header_size : ℕ
  pub audio_object_type : ℕ
  pub sampling_frequency_index : ℕ
  pub channel_configuration : ℕ

abbrev pub adts_sampling_rates : List ℕ
adts_sampling_rates =
    96000 ∷ 88200 ∷ 64000 ∷ 48000 ∷ 44100 ∷ 32000 ∷ 24000 ∷ 22050 ∷ 16000 ∷ 12000 ∷ 11025 ∷ 8000
    ∷ 7350 ∷ []

-- `adtsSampleRate`
unfoldable pub adts_sample_rate : ℕ → ℕ
adts_sample_rate index = elim (get_elem? adts_sampling_rates index) [ none ↦ 0 | some rate ↦ rate ]

-- The sync word is at the offset.
unfoldable pub is_sync : List ℕ → ℕ → Bool
is_sync bytes offset =
    (byte_at bytes offset == 0xff) && (byte_at bytes (offset + 1) / 16 % 16 == 15)

-- The frame that the header at the offset describes.
unfoldable pub frame_at : List ℕ → ℕ → AdtsFrame
frame_at bytes offset =
    let has_crc = byte_at bytes (offset + 1) % 2 == 0 in
    record {
      offset = offset;
      frame_length =
          byte_at bytes (offset + 3) % 4 * 2048
          + byte_at bytes (offset + 4) * 8
          + byte_at bytes (offset + 5) / 32 % 8;
      header_size = if has_crc then 9 else 7;
      audio_object_type = byte_at bytes (offset + 2) / 64 % 4 + 1;
      sampling_frequency_index = byte_at bytes (offset + 2) / 4 % 16;
      channel_configuration =
          byte_at bytes (offset + 2) % 2 * 4 + byte_at bytes (offset + 3) / 64 % 4;
    }

-- The frame is too short for its header, or is longer than the bytes.
unfoldable pub is_broken : List ℕ → AdtsFrame → Bool
is_broken bytes frame =
    ltb frame.frame_length frame.header_size
    || ltb (length bytes) (frame.offset + frame.frame_length)

abbrev pub add_frame : AdtsFrame → Option (List AdtsFrame) → Option (List AdtsFrame)
add_frame frame none = none
add_frame frame (some frames) = some (frame ∷ frames)

-- The loop of `parseAdtsFrames`; without a round left it gives none.
unfoldable pub parse_loop : ℕ → List ℕ → ℕ → Option (List AdtsFrame)
parse_loop zero bytes offset = none
parse_loop (suc rounds) bytes offset =
    let frame = frame_at bytes offset in
    let skipped = parse_loop rounds bytes (offset + 1) in
    let rest = parse_loop rounds bytes (offset + frame.frame_length) in
    if not (leb (offset + 7) (length bytes))
    then some []
    else if not (is_sync bytes offset)
    then skipped
    else if is_broken bytes frame
    then some []
    else add_frame frame rest

-- `parseAdtsFrames`
unfoldable pub parse_adts_frames : List ℕ → Option (List AdtsFrame)
unfolding parse_loop
parse_adts_frames bytes = parse_loop (suc (length bytes)) bytes 0

-- `buildAudioSpecificConfig`; the array keeps the low eight bits.
unfoldable pub build_audio_specific_config : AdtsFrame → List ℕ
build_audio_specific_config frame =
    (frame.audio_object_type * 8 + frame.sampling_frequency_index / 2 % 8) % 256
    ∷ (frame.sampling_frequency_index % 2 * 128 + frame.channel_configuration * 8) % 256
    ∷ []
