-- ===== src/Transmux/Adts/Frames.antt =====
-- parseAdtsFrames comes to an end, and which frames it gives.
use vinyl.Common.{
  ℕ, zero, suc, ◌+◌, ◌≤◌, ◌<◌, ◌≡◌, ◌⊎◌, inl, inr, refl, subst, true, false, Bool-cases, some, List,
  [], ◌∷◌, arith, leb, length, ◌==◌, ◌%◌,
}
use vinyl.BitReader.{byte_at}
use vinyl.Transmux.Adts.{AdtsFrame, is_sync, frame_at, is_broken, parse_loop, parse_adts_frames}

-- There is no sync word from an offset on up to another.
abbrev pub Gap : List ℕ → ℕ → ℕ → Type 0
Gap bytes from to = (i : ℕ) → from ≤ i → i < to → is_sync bytes i ≡ false

-- Where the frames end: too little is left for a header, or the header there is of a broken frame.
abbrev pub Ends : List ℕ → ℕ → Type 0
Ends bytes at =
    (length bytes < at + 7)
    ⊎ ((is_sync bytes at ≡ true) × (is_broken bytes (frame_at bytes at) ≡ true))

-- The frames of the bytes from the offset on: each is what the header at the next sync word
-- describes, and starts behind the one before.
abbrev pub Tiled : List ℕ → ℕ → List AdtsFrame → Type 0
Tiled bytes from [] = (at : ℕ) × (from ≤ at) × Gap bytes from at × Ends bytes at
Tiled bytes from (f ∷ fs) =
    (from ≤ f.offset)
    × Gap bytes from f.offset
    × (is_sync bytes f.offset ≡ true)
    × (f ≡ frame_at bytes f.offset)
    × (f.header_size ≤ f.frame_length)
    × (f.offset + f.frame_length ≤ length bytes)
    × Tiled bytes (f.offset + f.frame_length) fs

le_cases : {m n : ℕ} → m ≤ n → (m ≡ n) ⊎ (m + 1 ≤ n)
le_cases h = ground arith

Gap-widen :
    (bytes : List ℕ) (from to : ℕ)
    → is_sync bytes from ≡ false
    → Gap bytes (from + 1) to
    → Gap bytes from to
Gap-widen bytes from to e g i low high = elim (le_cases low) [
  | inl e0 ↦ subst (λ j. is_sync bytes j ≡ false) e0 e
  | inr more ↦ g i more high
]

Tiled-widen :
    (bytes : List ℕ) (from : ℕ) (fs : List AdtsFrame)
    → is_sync bytes from ≡ false
    → Tiled bytes (from + 1) fs
    → Tiled bytes from fs
Tiled-widen bytes from [] e (at, low, gap, ends) =
    (at, omega (arith, low), Gap-widen bytes from at e gap, ends)
Tiled-widen bytes from (f ∷ fs) e (low, gap, sync, same, long, inside, rest) =
    (omega (arith, low), Gap-widen bytes from f.offset e gap, sync, same, long, inside, rest)

is_broken-false :
    (bytes : List ℕ) (f : AdtsFrame)
    → is_broken bytes f ≡ false
    → (f.header_size ≤ f.frame_length) × (f.offset + f.frame_length ≤ length bytes)
unfolding is_broken
is_broken-false bytes f e = ground (arith, e)

Parsed : ℕ → List ℕ → ℕ → Type 0
Parsed rounds bytes offset =
    (frames : List AdtsFrame) × (parse_loop rounds bytes offset ≡ some frames)
    × Tiled bytes offset frames

Gap-nil : (bytes : List ℕ) (offset : ℕ) → Gap bytes offset offset
Gap-nil bytes offset i low high = let no : ⊥ = omega (arith, low, high) in elim no [ ]

frame_at-offset : (bytes : List ℕ) (offset : ℕ) → (frame_at bytes offset).offset ≡ offset
unfolding frame_at
frame_at-offset bytes offset = refl

header_size-least : (bytes : List ℕ) (offset : ℕ) → 7 ≤ (frame_at bytes offset).header_size
unfolding frame_at
header_size-least bytes offset = elim (Bool-cases (byte_at bytes (offset + 1) % 2 == 0)) [
  | inl e ↦ rw e (omega arith)
  | inr e ↦ rw e (omega arith)
]

-- A frame that is not broken.
frame_at-whole :
    (bytes : List ℕ) (offset : ℕ)
    → is_broken bytes (frame_at bytes offset) ≡ false
    → (offset + 7 ≤ offset + (frame_at bytes offset).frame_length)
      × ((frame_at bytes offset).header_size ≤ (frame_at bytes offset).frame_length)
      × (offset + (frame_at bytes offset).frame_length ≤ length bytes)
frame_at-whole bytes offset whole =
    let (long, inside) = is_broken-false bytes (frame_at bytes offset) whole in
    (
      omega (arith, long, header_size-least bytes offset),
      long,
      subst (λ o. o + (frame_at bytes offset).frame_length ≤ length bytes)
          (frame_at-offset bytes offset) inside,
    )

Tiled-here :
    (bytes : List ℕ) (offset : ℕ) (frames : List AdtsFrame)
    → is_sync bytes offset ≡ true
    → (frame_at bytes offset).header_size ≤ (frame_at bytes offset).frame_length
    → offset + (frame_at bytes offset).frame_length ≤ length bytes
    → Tiled bytes (offset + (frame_at bytes offset).frame_length) frames
    → Tiled bytes offset (frame_at bytes offset ∷ frames)
unfolding frame_at
Tiled-here bytes offset frames sync long inside tiled =
    (omega arith, Gap-nil bytes offset, sync, refl, long, inside, tiled)

-- One round of the loop.
parse_loop-round :
    (rounds : ℕ) (bytes : List ℕ) (offset : ℕ)
    → (offset + 7 ≤ length bytes → Parsed rounds bytes (offset + 1))
    → ((next : ℕ) → offset + 7 ≤ next → next ≤ length bytes → Parsed rounds bytes next)
    → Parsed (suc rounds) bytes offset
unfolding parse_loop Parsed
parse_loop-round rounds bytes offset skip jump =
    let f = frame_at bytes offset in
    let start : offset ≤ offset = omega arith in
    elim (Bool-cases (leb (offset + 7) (length bytes))) [
      | inr stop ↦ ([], rw stop refl, (offset, start, Gap-nil bytes offset, inl (ground arith)))
      | inl go ↦ elim (Bool-cases (is_sync bytes offset)) [
        | inr gap ↦
            (let (frames, run, tiled) = skip (ground arith) in
              (frames, rw (go, gap) run, Tiled-widen bytes offset frames gap tiled))
        | inl sync ↦ elim (Bool-cases (is_broken bytes f)) [
          | inl broken ↦ (
            [],
            rw (go, sync, broken) refl,
            (offset, start, Gap-nil bytes offset, inr (sync, broken)),
          )
          | inr whole ↦
              (let (far, long, inside) = frame_at-whole bytes offset whole in
                let (frames, run, tiled) = jump (offset + f.frame_length) far inside in
                (
                  f ∷ frames,
                  rw (go, sync, whole, run) refl,
                  Tiled-here bytes offset frames sync long inside tiled,
                ))
        ]
      ]
    ]

parse_loop-Tiled :
    (rounds : ℕ) (bytes : List ℕ) (offset : ℕ)
    → length bytes < rounds + offset
    → offset ≤ length bytes
    → Parsed rounds bytes offset
parse_loop-Tiled zero bytes offset enough inside =
    let no : ⊥ = omega (arith, enough, inside) in elim no [ ]
parse_loop-Tiled (suc rounds) bytes offset enough inside =
    parse_loop-round rounds bytes offset
      (λ more.
        parse_loop-Tiled rounds bytes (offset + 1) (omega (arith, enough)) (omega (arith, more)))
      (λ next far inside. parse_loop-Tiled rounds bytes next (omega (arith, enough, far)) inside)

-- Parsing comes to an end on all bytes, and the frames are exactly those that a search for the next
-- sync word finds, one behind the other and inside the data, up to a broken frame or the end.
pub parse_adts_frames-Tiled :
    (bytes : List ℕ)
    → (frames : List AdtsFrame) × (parse_adts_frames bytes ≡ some frames) × Tiled bytes 0 frames
unfolding parse_adts_frames Parsed
parse_adts_frames-Tiled bytes =
    parse_loop-Tiled (suc (length bytes)) bytes 0 (omega arith) (omega arith)
