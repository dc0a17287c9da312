-- ===== src/Transmux/MpegTs/Pes.antt =====
-- PES packets: their time stamps and payloads are read back, and buffers are joined.
use vinyl.Common.{
  ℕ, zero, suc, ◌+◌, ◌*◌, ◌/◌, ◌%◌, ◌^◌, ◌<◌, ◌≡◌, refl, sym, ap, ◌∙◌, false, some, List, [], ◌∷◌,
  ◌++◌, append_assoc, arith, ◌==◌, length, length-append, take-append, drop-append, drop,
}
use vinyl.Transmux.MpegTs.{
  is_pes_start, strip_pes_header, parse_pes_pts, set_bytes, zeros, total_length, copy_buffers,
  concat_buffers,
}

-- A PES header with a time stamp: two bytes of flags of which the second has the mark for it, and
-- the time stamp in five bytes with marker bits, before further header bytes.
abbrev pub pts_bytes : ℕ → List ℕ
pts_bytes pts =
    (0x21 + pts / 2 ^ 30 * 2)
    ∷ (pts / 2 ^ 22 % 256)
    ∷ (pts / 2 ^ 15 % 128 * 2 + 1)
    ∷ (pts / 2 ^ 7 % 256)
    ∷ (pts % 128 * 2 + 1)
    ∷ []

abbrev pub pes_packet : ℕ → ℕ → ℕ → ℕ → List ℕ → List ℕ → List ℕ
pes_packet stream size flags pts more payload =
    0
    ∷ 0
    ∷ 1
    ∷ stream
    ∷ (size / 256)
    ∷ (size % 256)
    ∷ 0x80
    ∷ (0x80 + flags)
    ∷ (5 + length more)
    ∷ (pts_bytes pts ++ (more ++ payload))

-- The time stamp of a packet is the one it was written with, and what is left when the header is
-- stripped is its payload.
pub pes_packet-read :
    (stream size flags pts : ℕ) (more payload : List ℕ)
    → flags < 128
    → pts < 2 ^ 33
    → (parse_pes_pts (pes_packet stream size flags pts more payload) ≡ some pts)
      × (strip_pes_header (pes_packet stream size flags pts more payload) ≡ payload)
unfolding parse_pes_pts strip_pes_header is_pes_start
pes_packet-read stream size flags pts more payload f t =
    let given : ((0x80 + flags) / 128 % 2 == 0) ≡ false = ground arith in
    let value : (0x21 + pts / 2 ^ 30 * 2) / 2 % 8 * 2 * 0x20000000
          + pts / 2 ^ 22 % 256 % 256 * 4194304
          + (pts / 2 ^ 15 % 128 * 2 + 1) / 2 % 128 * 2 * 16384
          + pts / 2 ^ 7 % 256 % 256 * 128
          + (pts % 128 * 2 + 1) / 2 % 128
        ≡ pts =
      omega (arith, t) in
    let head =
      0
      ∷ 0
      ∷ 1
      ∷ stream
      ∷ (size / 256)
      ∷ (size % 256)
      ∷ 0x80
      ∷ (0x80 + flags)
      ∷ (5 + length more)
      ∷ pts_bytes pts in
    let place : 9 + (5 + length more) ≡ length (head ++ more) + 0 =
      omega (arith, length-append head more) in
    (
      rw (given, value) refl,
      ap (λ k. drop k (pes_packet stream size flags pts more payload)) place
          ∙ ap (drop (length (head ++ more) + 0)) (sym (append_assoc head more payload))
          ∙ drop-append (head ++ more) payload 0,
    )

-- The buffers one after the other.
abbrev pub joined : List (List ℕ) → List ℕ
joined [] = []
joined (b ∷ bs) = b ++ joined bs

drop-zeros : (m n : ℕ) → drop m (zeros (m + n)) ≡ zeros n
drop-zeros zero n = ap zeros (omega arith)
drop-zeros (suc m) n =
    let step : suc m + n ≡ suc (m + n) = omega arith in
    ap (λ k. drop (suc m) (zeros k)) step ∙ drop-zeros m n

set_bytes-zeros :
    (before b : List ℕ) (n : ℕ)
    → set_bytes (before ++ zeros (length b + n)) b (length before) ≡ (before ++ b) ++ zeros n
set_bytes-zeros before b n =
    let left = take-append before (zeros (length b + n)) in
    let right = drop-append before (zeros (length b + n)) (length b) ∙ drop-zeros (length b) n in
    ap (λ l. l ++ (b ++ drop (length before + length b) (before ++ zeros (length b + n)))) left
    ∙ ap (λ l. before ++ (b ++ l)) right
    ∙ sym (append_assoc before b (zeros n))

copy_buffers-joined :
    (bs : List (List ℕ)) (before : List ℕ)
    → copy_buffers bs (before ++ zeros (total_length bs)) (length before) ≡ before ++ joined bs
copy_buffers-joined [] before = refl
copy_buffers-joined (b ∷ bs) before =
    let place : length before + length b ≡ length (before ++ b) =
      omega (arith, length-append before b) in
    ap (λ r. copy_buffers bs r (length before + length b))
      (set_bytes-zeros before b (total_length bs))
    ∙ ap (copy_buffers bs ((before ++ b) ++ zeros (total_length bs))) place
    ∙ copy_buffers-joined bs (before ++ b)
    ∙ append_assoc before b (joined bs)

-- Joining buffers by copying each to its offset gives the bytes of all of them in order.
concat_buffers-joined : (buffers : List (List ℕ)) → concat_buffers buffers ≡ joined buffers
unfolding concat_buffers
concat_buffers-joined buffers = copy_buffers-joined buffers []
