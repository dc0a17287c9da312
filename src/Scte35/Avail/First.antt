-- ===== src/Scte35/Avail/First.antt =====
-- Which descriptor of a time signal decides.
use vinyl.Common.{
  ℕ, ◌+◌, ◌≡◌, refl, ap, ◌∙◌, Bool, true, false, Option, some, List, [], ◌∷◌, ◌++◌, arith, ◌==◌,
  if◌then◌else◌, ◌||◌, Bool-cases, ◌⊎◌, inl, inr,
}
use vinyl.SpliceInfo.{
  time_signal, Segmentation, SpliceDescriptor, segmentation, unknown_descriptor, SpliceInfoSection,
}
use vinyl.Scte35.Avail.{
  Direction, out, back_in, is_avail_start, is_avail_end, contains, avail_start_types, adjust,
  signalled_avail, command_avail, get_splice_avail,
}

each_next : List ℕ → List ℕ
each_next [] = []
each_next (x ∷ xs) = (x + 1) ∷ each_next xs

equal_next : (x n : ℕ) → (x + 1 == n + 1) ≡ (x == n)
equal_next x n = elim (Bool-cases (x == n)) [ inl e ↦ ground arith | inr e ↦ ground arith ]

contains-next : (xs : List ℕ) (n : ℕ) → contains (each_next xs) (n + 1) ≡ contains xs n
unfolding each_next
contains-next [] n = refl
contains-next (x ∷ xs) n = λ i. equal_next x n i || contains-next xs n i

-- Each type that closes an avail is the type that opens it, plus 1.
is_avail_end-next : (n : ℕ) → is_avail_end (n + 1) ≡ is_avail_start n
unfolding is_avail_end is_avail_start each_next
is_avail_end-next n = contains-next avail_start_types n

-- A segmentation that is not cancelled, and whose type opens an avail, or closes one.
abbrev pub Signals : Segmentation → Direction → Type 0
Signals s out = (s.cancel ≡ false) × (is_avail_start s.segmentation_type_id ≡ true)
Signals s back_in =
    (s.cancel ≡ false)
    × (is_avail_start s.segmentation_type_id ≡ false)
    × (is_avail_end s.segmentation_type_id ≡ true)

-- Any other descriptor.
abbrev pub Ignored : SpliceDescriptor → Type 0
Ignored (unknown_descriptor tag identifier) = Unit
Ignored (segmentation s) =
    (s.cancel ≡ true)
    ⊎ ((is_avail_start s.segmentation_type_id ≡ false)
        × (is_avail_end s.segmentation_type_id ≡ false))

abbrev pub AllIgnored : List SpliceDescriptor → Type 0
AllIgnored [] = Unit
AllIgnored (d ∷ ds) = Ignored d × AllIgnored ds

if_same : {A : Type 0} (b : Bool) (a : A) → (if b then a else a) ≡ a
if_same true a = refl
if_same false a = refl

signalled_avail-append :
    (time : Option ℕ) (before after : List SpliceDescriptor)
    → AllIgnored before
    → signalled_avail time (before ++ after) ≡ signalled_avail time after
unfolding signalled_avail
signalled_avail-append time [] after h = refl
signalled_avail-append time (unknown_descriptor tag identifier ∷ ds) after h =
    signalled_avail-append time ds after h.1
signalled_avail-append time (segmentation s ∷ ds) after (inl c, h) =
    rw c (signalled_avail-append time ds after h)
signalled_avail-append time (segmentation s ∷ ds) after (inr (a, b), h) =
    rw (a, b) (if_same s.cancel _ ∙ signalled_avail-append time ds after h)

signalled_avail-Signals :
    (time : Option ℕ) (s : Segmentation) (after : List SpliceDescriptor) (d : Direction)
    → Signals s d
    → signalled_avail time (segmentation s ∷ after)
      ≡ some (record {
        direction = d;
        event_id = s.segmentation_event_id;
        time = time;
        duration = s.segmentation_duration;
      })
unfolding signalled_avail
signalled_avail-Signals time s after out (c, a) = rw (c, a) refl
signalled_avail-Signals time s after back_in (c, a, b) = rw (c, a, b) refl

get_splice_avail-time_signal :
    (section : SpliceInfoSection) (t : Option ℕ)
    → section.command ≡ time_signal t
    → get_splice_avail section
      ≡ signalled_avail (adjust section.pts_adjustment t) section.descriptors
unfolding get_splice_avail command_avail
get_splice_avail-time_signal section t e =
    ap (command_avail section.pts_adjustment section.descriptors) e

-- A time signal is answered by its first descriptor that opens or closes an avail, with the event
-- and the duration of that one and the time of the command.
pub get_splice_avail-first :
    (section : SpliceInfoSection) (t : Option ℕ) (before : List SpliceDescriptor) (s : Segmentation)
    (after : List SpliceDescriptor) (d : Direction)
    → section.command ≡ time_signal t
    → section.descriptors ≡ before ++ segmentation s ∷ after
    → AllIgnored before
    → Signals s d
    → get_splice_avail section
      ≡ some (record {
        direction = d;
        event_id = s.segmentation_event_id;
        time = adjust section.pts_adjustment t;
        duration = s.segmentation_duration;
      })
get_splice_avail-first section t before s after d command descriptors skipped signals =
    get_splice_avail-time_signal section t command
    ∙ ap (signalled_avail (adjust section.pts_adjustment t)) descriptors
    ∙ signalled_avail-append (adjust section.pts_adjustment t) before (segmentation s ∷ after)
        skipped
    ∙ signalled_avail-Signals (adjust section.pts_adjustment t) s after d signals
