-- ===== src/Transmux/Adts/Config.antt =====
-- The AudioSpecificConfig of a frame.
use vinyl.Common.{
  ℕ, ◌+◌, ◌*◌, ◌/◌, ◌%◌, ◌<◌, ◌≡◌, refl, sym, ap, ◌∙◌, List, [], ◌∷◌, ◌++◌, arith, length,
  append-nil,
}
use vinyl.BitReader.{Reader, done, ◌>>=◌, ◌>>◌, skip, return, read_bits}
use vinyl.BitReader.Fields.{field, Reads, Reads-bind, Reads-then_return, Reads-skip, Reads-field}
use vinyl.BitReader.Packing.{pack, AllBits, AllBits-append, field-AllBits, pack-Ready}
use vinyl.Transmux.Adts.{frame_at, build_audio_specific_config}

-- The first fields of an AudioSpecificConfig, as the standard lays them out.
abbrev pub config_bits : ℕ → ℕ → ℕ → List ℕ
config_bits type index channels = field 5 type ++ (field 4 index ++ (field 4 channels ++ field 3 0))

abbrev pub read_config : Reader (ℕ × ℕ × ℕ)
read_config = do
  type ← read_bits 5
  index ← read_bits 4
  channels ← read_bits 4
  skip 3
  return (type, index, channels)

pack-config_bits :
    (type index channels : ℕ)
    → type < 32
    → index < 16
    → channels < 16
    → pack (config_bits type index channels)
      ≡ (type * 8 + index / 2 % 8) % 256 ∷ (index % 2 * 128 + channels * 8) % 256 ∷ []
unfolding pack field
pack-config_bits type index channels t h c =
    let first : type / 2 / 2 / 2 / 2 % 2 * 128
          + type / 2 / 2 / 2 % 2 * 64
          + type / 2 / 2 % 2 * 32
          + type / 2 % 2 * 16
          + type % 2 * 8
          + index / 2 / 2 / 2 % 2 * 4
          + index / 2 / 2 % 2 * 2
          + index / 2 % 2
        ≡ (type * 8 + index / 2 % 8) % 256 =
      omega (arith, t, h) in
    let second : index % 2 * 128
          + channels / 2 / 2 / 2 % 2 * 64
          + channels / 2 / 2 % 2 * 32
          + channels / 2 % 2 * 16
          + channels % 2 * 8
          + 0
          + 0
          + 0
        ≡ (index % 2 * 128 + channels * 8) % 256 =
      omega (arith, h, c) in
    λ i. first i ∷ second i ∷ []

length-config_bits : (type index channels : ℕ) → length (config_bits type index channels) ≡ 16
unfolding field
length-config_bits type index channels = refl

config_bits-AllBits : (type index channels : ℕ) → AllBits (config_bits type index channels)
config_bits-AllBits type index channels = search (AllBits-append, field-AllBits)

read_config-Reads :
    (type index channels : ℕ)
    → type < 32
    → index < 16
    → channels < 16
    → Reads read_config (config_bits type index channels) (type, index, channels)
read_config-Reads type index channels t h c = Reads-bind _ (Reads-field 5 type t) (
    Reads-bind _ (Reads-field 4 index h) (
      Reads-bind _ (Reads-field 4 channels c)
        (Reads-then_return (type, index, channels) (Reads-skip 3 0))))

-- The configuration that is built for a frame of the data says, to a decoder that reads it bit by
-- bit, the type, the frequency index and the channels of that frame.
pub build_audio_specific_config-read :
    (bytes : List ℕ) (offset : ℕ)
    → let f = frame_at bytes offset in
      read_config (build_audio_specific_config f) 0
      ≡ done (f.audio_object_type, f.sampling_frequency_index, f.channel_configuration) 16
unfolding build_audio_specific_config frame_at
build_audio_specific_config-read bytes offset =
    let f = frame_at bytes offset in
    let type = f.audio_object_type in
    let index = f.sampling_frequency_index in
    let channels = f.channel_configuration in
    let t : type < 32 = omega arith in
    let h : index < 16 = omega arith in
    let c : channels < 16 = omega arith in
    let bits = config_bits type index channels in
    let wide : length bits ≡ 16 = length-config_bits type index channels in
    let ready =
      pack-Ready bits [] (config_bits-AllBits type index channels) (omega (arith, wide)) in
    let reads = read_config-Reads type index channels t h c in
    ap (λ l. read_config l 0)
      (sym (append-nil (pack bits) ∙ pack-config_bits type index channels t h c))
    ∙ reads.run (pack bits ++ []) 0 ready
    ∙ ap (done (type, index, channels)) (omega (arith, wide))
