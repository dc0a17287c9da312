-- ===== src/Transmux/Adts/RoundTrip.antt =====
-- Frames that are written one after the other are found again.
use vinyl.Common.{
  ℕ, zero, suc, ◌+◌, ◌-◌, ◌*◌, ◌/◌, ◌%◌, ◌≤◌, ◌<◌, ◌≡◌, refl, ap, ◌∙◌, subst, Bool, true, false,
  some, List, [], ◌∷◌, ◌++◌, append_assoc, arith, leb, ltb, ◌==◌, Bool-cases, inl, inr, length,
  length-append, if◌then◌else◌,
}
use vinyl.BitReader.{byte_at}
use vinyl.BitReader.Bytes.{byte_at-append}
use vinyl.Transmux.Adts.{AdtsFrame, is_sync, frame_at, is_broken, parse_loop, parse_adts_frames}

-- What a frame is made of: the fields of its header, the bits that the parser passes over, and the
-- bytes behind the first seven.
pub record Written : Type 0 where
  pub has_crc : Bool
  pub object_type : ℕ
  pub frequency_index : ℕ
  pub channels : ℕ
  pub fullness : ℕ
  pub payload : List ℕ

abbrev pub frame_size : Written → ℕ
frame_size w = 7 + length w.payload

-- The layout of the standard.
abbrev pub bytes_of : Written → List ℕ
bytes_of w =
    0xff
    ∷ (0xf0 + (if w.has_crc then 0 else 1))
    ∷ ((w.object_type - 1) * 64 + w.frequency_index * 4 + w.channels / 4)
    ∷ (w.channels % 4 * 64 + frame_size w / 2048)
    ∷ (frame_size w / 8 % 256)
    ∷ (frame_size w % 8 * 32 + w.fullness)
    ∷ 0xfc
    ∷ w.payload

abbrev pub all_bytes : List Written → List ℕ
all_bytes [] = []
all_bytes (w ∷ ws) = bytes_of w ++ all_bytes ws

-- The values fit their fields, and a frame with a CRC has one.
pub record FitsFrame (w : Written) : Type 0 where
  pub type_fits : (1 ≤ w.object_type) × (w.object_type ≤ 4)
  pub index_fits : w.frequency_index < 16
  pub channels_fit : w.channels < 8
  pub fullness_fits : w.fullness < 32
  pub size_fits : frame_size w < 8192
  pub crc_fits : (if w.has_crc then 9 else 7) ≤ frame_size w

abbrev pub AllFit : List Written → Type 0
AllFit [] = Unit
AllFit (w ∷ ws) = FitsFrame w × AllFit ws

abbrev pub frame_of : ℕ → Written → AdtsFrame
frame_of offset w = record {
  offset = offset;
  frame_length = frame_size w;
  header_size = if w.has_crc then 9 else 7;
  audio_object_type = w.object_type;
  sampling_frequency_index = w.frequency_index;
  channel_configuration = w.channels;
}

-- The frames at their offsets, the first one at the given offset.
abbrev pub located : ℕ → List Written → List AdtsFrame
located offset [] = []
located offset (w ∷ ws) = frame_of offset w ∷ located (offset + frame_size w) ws

module _ (w : Written) (fits : FitsFrame w) where
  sent_length :
      (w.channels % 4 * 64 + frame_size w / 2048) % 4 * 2048
        + frame_size w / 8 % 256 * 8
        + (frame_size w % 8 * 32 + w.fullness) / 32 % 8
      ≡ frame_size w
  sent_length = omega (arith, fits.size_fits, fits.fullness_fits)

  sent_header :
      Path ℕ
        (if (0xf0 + (if w.has_crc then 0 else 1)) % 2 == 0 then 9 else 7)
        (if w.has_crc then 9 else 7)
  sent_header = elim (Bool-cases w.has_crc) [ inl e ↦ rw e refl | inr e ↦ rw e refl ]

  sent_type :
      ((w.object_type - 1) * 64 + w.frequency_index * 4 + w.channels / 4) / 64 % 4 + 1
      ≡ w.object_type
  sent_type = omega (arith, fits.type_fits, fits.index_fits, fits.channels_fit)

  sent_index :
      ((w.object_type - 1) * 64 + w.frequency_index * 4 + w.channels / 4) / 4 % 16
      ≡ w.frequency_index
  sent_index = omega (arith, fits.index_fits, fits.channels_fit)

  sent_channels :
      ((w.object_type - 1) * 64 + w.frequency_index * 4 + w.channels / 4) % 2 * 4
        + (w.channels % 4 * 64 + frame_size w / 2048) / 64 % 4
      ≡ w.channels
  sent_channels = omega (arith, fits.channels_fit, fits.size_fits)

-- The header that starts there is the one that was written.
frame_at-bytes_of :
    (before after : List ℕ) (w : Written)
    → FitsFrame w
    → frame_at (before ++ (bytes_of w ++ after)) (length before) ≡ frame_of (length before) w
unfolding frame_at
frame_at-bytes_of before after w fits =
    let at : (k : ℕ)
        → byte_at (before ++ (bytes_of w ++ after)) (length before + k)
          ≡ byte_at (bytes_of w ++ after) k =
      byte_at-append before (bytes_of w ++ after) in
    rw (at 1, at 2, at 3, at 4, at 5)
      (λ i. record {
        offset = length before;
        frame_length = sent_length w fits i;
        header_size = sent_header w fits i;
        audio_object_type = sent_type w fits i;
        sampling_frequency_index = sent_index w fits i;
        channel_configuration = sent_channels w fits i;
      })

is_sync-bytes_of :
    (before after : List ℕ) (w : Written)
    → is_sync (before ++ (bytes_of w ++ after)) (length before) ≡ true
unfolding is_sync
is_sync-bytes_of before after w =
    let bytes = before ++ (bytes_of w ++ after) in
    let first : byte_at bytes (length before) ≡ 0xff =
      ap (byte_at bytes) (omega arith) ∙ byte_at-append before (bytes_of w ++ after) 0 in
    let second : byte_at bytes (length before + 1) ≡ 0xf0 + (if w.has_crc then 0 else 1) =
      byte_at-append before (bytes_of w ++ after) 1 in
    let mark : ((0xf0 + (if w.has_crc then 0 else 1)) / 16 % 16 == 15) ≡ true =
      elim (Bool-cases w.has_crc) [ inl e ↦ rw e refl | inr e ↦ rw e refl ] in
    rw (first, second, mark) refl

is_broken-frame_of :
    (before after : List ℕ) (w : Written)
    → FitsFrame w
    → is_broken (before ++ (bytes_of w ++ after)) (frame_of (length before) w) ≡ false
unfolding is_broken
is_broken-frame_of before after w fits =
    let bytes = before ++ (bytes_of w ++ after) in
    let total = length-append before (bytes_of w ++ after) in
    let more = length-append (bytes_of w) after in
    let long : ltb (frame_size w) (if w.has_crc then 9 else 7) ≡ false =
      ground (arith, fits.crc_fits) in
    let inside : ltb (length bytes) (length before + frame_size w) ≡ false =
      ground (arith, total, more) in
    rw (long, inside) refl

length-all_bytes : (ws : List Written) → length ws ≤ length (all_bytes ws)
length-all_bytes [] = omega arith
length-all_bytes (w ∷ ws) =
    omega (arith, length-append (bytes_of w) (all_bytes ws), length-all_bytes ws)

parse_loop-located :
    (rounds : ℕ) (before : List ℕ) (ws : List Written)
    → AllFit ws
    → length ws < rounds
    → parse_loop rounds (before ++ all_bytes ws) (length before) ≡ some (located (length before) ws)
unfolding parse_loop
parse_loop-located zero before ws fits enough = elim enough [ ]
parse_loop-located (suc rounds) before [] fits enough =
    let stop : leb (length before + 7) (length (before ++ [])) ≡ false =
      ground (arith, length-append before []) in
    rw stop refl
parse_loop-located (suc rounds) before (w ∷ ws) (fit, fits) enough =
    let bytes = before ++ (bytes_of w ++ all_bytes ws) in
    let total = length-append before (bytes_of w ++ all_bytes ws) in
    let more = length-append (bytes_of w) (all_bytes ws) in
    let frame = frame_at-bytes_of before (all_bytes ws) w fit in
    let go : leb (length before + 7) (length bytes) ≡ true = ground (arith, total, more) in
    let sync : is_sync bytes (length before) ≡ true = is_sync-bytes_of before (all_bytes ws) w in
    let whole : is_broken bytes (frame_of (length before) w) ≡ false =
      is_broken-frame_of before (all_bytes ws) w fit in
    let place : length (before ++ bytes_of w) ≡ length before + frame_size w =
      omega (arith, length-append before (bytes_of w)) in
    let ih = parse_loop-located rounds (before ++ bytes_of w) ws fits (omega (arith, enough)) in
    let rest : parse_loop rounds bytes (length before + frame_size w)
        ≡ some (located (length before + frame_size w) ws) =
      subst
        (λ l.
          parse_loop rounds l (length before + frame_size w)
          ≡ some (located (length before + frame_size w) ws))
        (append_assoc before (bytes_of w) (all_bytes ws))
        (subst
          (λ at.
            parse_loop rounds ((before ++ bytes_of w) ++ all_bytes ws) at ≡ some (located at ws))
          place ih) in
    rw (go, sync, frame, whole, rest) refl

-- Frames laid out one after the other as the standard says are parsed to those frames, each at its
-- offset.
pub parse-all_bytes :
    (ws : List Written) → AllFit ws → parse_adts_frames (all_bytes ws) ≡ some (located 0 ws)
unfolding parse_adts_frames
parse-all_bytes ws fits =
    parse_loop-located (suc (length (all_bytes ws))) [] ws fits (omega (arith, length-all_bytes ws))
