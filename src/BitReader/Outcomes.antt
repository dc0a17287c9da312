-- ===== src/BitReader/Outcomes.antt =====
-- What holds of the value of a reader and of the position after it, and which errors it can have.
use vinyl.Common.{
  ℕ, zero, suc, ◌+◌, ◌*◌, ◌^◌, ◌≤◌, ◌<◌, ◌≡◌, refl, ap, ◌∙◌, sym, Bool, true, false, List, [], ◌∷◌,
  arith, ltb, length, if◌then◌else◌, ◌==◌,
}
use native.Mathlib.Nat.{pow-succ', mul_assoc, mul-le-mul_right}
use vinyl.BitReader.{
  Failure, buffer_error, bad_table_id, truncated, not_sidx, unsupported_version, client_unsupported,
  hierarchical, out_of_rounds, Outcome, done, failed, Reader, continue, ◌>>=◌, ◌>>◌, return, bit_at,
  tell, seek, skip, read_loop, read_bits, read_flag, read_bytes,
}
use vinyl.BitReader.Fields.{AllBytes}

-- The errors of the bit reader and of cue messages.
abbrev pub Known : Failure → Type 0
Known out_of_rounds = ⊥
Known not_sidx = ⊥
Known unsupported_version = ⊥
Known client_unsupported = ⊥
Known hierarchical = ⊥
Known buffer_error = Unit
Known bad_table_id = Unit
Known truncated = Unit

abbrev pub Post : {A : Type 0} → (A → ℕ → Type 0) → Outcome A → Type 0
Post P (done a p) = P a p
Post P (failed e) = Known e

-- The value and the position after it meet the condition, or the error is a known one.
pub record Meets {A : Type 0} (m : Reader A) (bytes : List ℕ) (pos : ℕ) (P : A → ℕ → Type 0)
    : Type 0 where
  pub post : Post P (m bytes pos)

pub Meets-bind :
    {A B : Type 0} {m : Reader A} {bytes : List ℕ} {pos : ℕ} {Q : A → ℕ → Type 0}
    {P : B → ℕ → Type 0} (f : A → Reader B)
    → Meets m bytes pos Q
    → ((a : A) (p : ℕ) → Q a p → Meets (f a) bytes p P)
    → Meets (m >>= f) bytes pos P
Meets-bind {A = A} {B = B} {m = m'} {bytes} {pos} {Q} {P} f m k = record {
  post = rest (m' bytes pos) m.post k;
}
  where
    rest :
        (o : Outcome A)
        → Post Q o
        → ((a : A) (p : ℕ) → Q a p → Meets (f a) bytes p P)
        → Post P (continue o f bytes)
    rest (done a p) q k = let r = k a p q in r.post
    rest (failed e) q k = q

-- `value * 2 ^ count` and the bits that are read.
read_loop-Bounded :
    (count value : ℕ) (bytes : List ℕ) (pos : ℕ)
    → ((read_loop count value bytes pos).0 < (value + 1) * 2 ^ count)
      × ((read_loop count value bytes pos).1 ≡ pos + count)
unfolding read_loop
read_loop-Bounded zero value bytes pos = (omega arith, omega arith)
read_loop-Bounded (suc count) value bytes pos =
    let bit = bit_at bytes pos in
    let (a, b) = read_loop-Bounded count (value * 2 + bit) bytes (suc pos) in
    let small : value * 2 + bit + 1 ≤ (value + 1) * 2 = omega arith in
    let wide : (value * 2 + bit + 1) * 2 ^ count ≤ (value + 1) * 2 * 2 ^ count =
      mul-le-mul_right (2 ^ count) small in
    let same : (value + 1) * 2 * 2 ^ count ≡ (value + 1) * 2 ^ suc count =
      mul_assoc (value + 1) 2 (2 ^ count) ∙ ap (λ x. (value + 1) * x) (sym (pow-succ' 2 count)) in
    (omega (arith, a, wide, same), omega (arith, b))

-- A value of so many bits, and the position behind them.
pub read_bits-Meets :
    (count : ℕ) (bytes : List ℕ) (pos : ℕ)
    → Meets (read_bits count) bytes pos (λ v p. (v < 2 ^ count) × (p ≡ pos + count))
unfolding read_bits
read_bits-Meets count bytes pos =
    let (small, after) = read_loop-Bounded count 0 bytes pos in
    record {
      post =
          rest (ltb (length bytes * 8) (pos + count)) (read_loop count 0 bytes pos)
            (omega (arith, small), after);
    }
  where
    rest :
        (over : Bool) (r : ℕ × ℕ)
        → (r.0 < 2 ^ count) × (r.1 ≡ pos + count)
        → Post
            (λ v p. (v < 2 ^ count) × (p ≡ pos + count))
            (if over then failed buffer_error else done r.0 r.1)
    rest true r h = tt
    rest false r h = h

Meets-weaken :
    {A : Type 0} {m : Reader A} {bytes : List ℕ} {pos : ℕ} {Q P : A → ℕ → Type 0}
    → Meets m bytes pos Q
    → ((a : A) (p : ℕ) → Q a p → P a p)
    → Meets m bytes pos P
Meets-weaken {A = A} {m = m'} {bytes} {pos} {Q} {P} m k = record {
  post = rest (m' bytes pos) m.post;
}
  where
    rest : (o : Outcome A) → Post Q o → Post P o
    rest (done a p) q = k a p q
    rest (failed e) q = q

pub Meets-if :
    {A : Type 0} {m k : Reader A} {bytes : List ℕ} {pos : ℕ} {P : A → ℕ → Type 0} (b : Bool)
    → (b ≡ true → Meets m bytes pos P)
    → (b ≡ false → Meets k bytes pos P)
    → Meets (if b then m else k) bytes pos P
Meets-if true g h = g refl
Meets-if false g h = h refl

-- The value meets the condition wherever the reader stands, or the error is a known one.
pub record Gives {A : Type 0} (m : Reader A) (Q : A → Type 0) : Type 0 where
  pub give : (bytes : List ℕ) (pos : ℕ) → Meets m bytes pos (λ a p. Q a)

pub Gives-bind :
    {A B : Type 0} {m : Reader A} {Q : A → Type 0} {P : B → Type 0} (f : A → Reader B)
    → Gives m Q
    → ((a : A) → Q a → Gives (f a) P)
    → Gives (m >>= f) P
Gives-bind f m k = record {
  give = λ bytes pos. Meets-bind f (m.give bytes pos) (λ a p q. let r = k a q in r.give bytes p);
}

pub Gives-return : {A : Type 0} {Q : A → Type 0} (a : A) → Q a → Gives (return a) Q
Gives-return a q = record { give = λ bytes pos. record { post = q } }

pub Gives-bits : (count : ℕ) → Gives (read_bits count) (λ v. v < 2 ^ count)
Gives-bits count = record {
  give = λ bytes pos. Meets-weaken (read_bits-Meets count bytes pos) (λ v p h. h.0);
}

pub Gives-flag : Gives read_flag (λ b. Unit {0})
unfolding read_flag
Gives-flag = Gives-bind _ (Gives-bits 1) (λ v h. Gives-return (v == 1) tt)

pub Gives-skip : (bits : ℕ) → Gives (skip bits) (λ u. Unit {0})
Gives-skip bits = record { give = λ bytes pos. record { post = tt } }

pub Gives-tell : Gives tell (λ p. Unit {0})
Gives-tell = record { give = λ bytes pos. record { post = tt } }

pub Gives-seek : (target : ℕ) → Gives (seek target) (λ u. Unit {0})
Gives-seek target = record { give = λ bytes pos. record { post = tt } }

pub Gives-then :
    {B : Type 0} {m : Reader (Unit {0})} {P : B → Type 0} {k : Reader B}
    → Gives m (λ u. Unit {0})
    → Gives k P
    → Gives (m >> k) P
Gives-then {k} a b = Gives-bind (λ _. k) a (λ u q. b)

pub Gives-if :
    {A : Type 0} {m k : Reader A} {P : A → Type 0} (b : Bool)
    → Gives m P
    → Gives k P
    → Gives (if b then m else k) P
Gives-if true g h = g
Gives-if false g h = h

pub Gives-bytes : (count : ℕ) → Gives (read_bytes count) (λ bs. AllBytes bs × (length bs ≡ count))
unfolding read_bytes
Gives-bytes zero = Gives-return [] (tt, refl)
Gives-bytes (suc count) = Gives-bind _ (Gives-bits 8) (λ v small.
    Gives-bind _ (Gives-bytes count)
      (λ rest h. Gives-return (v ∷ rest) ((small, h.0), omega (arith, h.1))))
