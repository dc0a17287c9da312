-- ===== src/BitReader/Fields.antt =====
-- What it means that bytes spell out bit fields, and that readers read those fields back.
use vinyl.Common.{
  ℕ, zero, suc, ◌+◌, ◌*◌, ◌/◌, ◌%◌, ◌^◌, ◌≤◌, ◌<◌, ◌≡◌, refl, ap, ◌∙◌, subst, Bool, true, false,
  List, [], ◌∷◌, ◌++◌, arith, ltb, ◌==◌, if◌then◌else◌, length, length-append,
}
use native.Mathlib.Nat.{pow-suc}
use vinyl.BitReader.{
  Reader, Outcome, done, failed, buffer_error, continue, ◌>>=◌, ◌>>◌, return, bit_at, skip,
  read_loop, read_bits, read_flag, read_bytes,
}

-- The bits of a number in a field of that width, from the most significant one.
unfoldable pub field : ℕ → ℕ → List ℕ
field zero v = []
field (suc w) v = field w (v / 2) ++ v % 2 ∷ []

pub length-field : (w v : ℕ) → length (field w v) ≡ w
unfolding field
length-field zero v = refl
length-field (suc w) v =
    omega (arith, length-append (field w (v / 2)) (v % 2 ∷ []), length-field w (v / 2))

-- From the position on, the bytes have these bits.
abbrev pub Spells : List ℕ → ℕ → List ℕ → Type 0
Spells bytes pos [] = Unit
Spells bytes pos (b ∷ bs) = (bit_at bytes pos ≡ b) × Spells bytes (suc pos) bs

-- The same, and the bytes do not end before.
abbrev pub Ready : List ℕ → ℕ → List ℕ → Type 0
Ready bytes pos bits = Spells bytes pos bits × (pos + length bits ≤ length bytes * 8)

Spells-append :
    (bytes : List ℕ) (pos : ℕ) (xs ys : List ℕ)
    → Spells bytes pos (xs ++ ys)
    → Spells bytes pos xs × Spells bytes (pos + length xs) ys
Spells-append bytes pos [] ys h = (tt, subst (λ p. Spells bytes p ys) (omega arith) h)
Spells-append bytes pos (x ∷ xs) ys h =
    let (a, b) = Spells-append bytes (suc pos) xs ys h.1 in
    ((h.0, a), subst (λ p. Spells bytes p ys) (omega arith) b)

pub Ready-append :
    (bytes : List ℕ) (pos : ℕ) (xs ys : List ℕ)
    → Ready bytes pos (xs ++ ys)
    → Ready bytes pos xs × Ready bytes (pos + length xs) ys
Ready-append bytes pos xs ys h =
    let (a, b) = Spells-append bytes pos xs ys h.0 in
    let total = length-append xs ys in
    ((a, omega (arith, total, h.1)), (b, omega (arith, total, h.1)))

read_loop-last :
    (w value : ℕ) (bytes : List ℕ) (pos : ℕ)
    → read_loop (suc w) value bytes pos ≡ (
      (read_loop w value bytes pos).0 * 2 + bit_at bytes (read_loop w value bytes pos).1,
      suc (read_loop w value bytes pos).1,
    )
unfolding read_loop
read_loop-last zero value bytes pos = refl
read_loop-last (suc w) value bytes pos =
    read_loop-last w (value * 2 + bit_at bytes pos) bytes (suc pos)

read_loop-field :
    (w v : ℕ) (bytes : List ℕ) (pos : ℕ)
    → v < 2 ^ w
    → Spells bytes pos (field w v)
    → read_loop w 0 bytes pos ≡ (v, pos + w)
unfolding field read_loop
read_loop-field zero v bytes pos h s = ground arith
read_loop-field (suc w) v bytes pos h s =
    let (a, b) = Spells-append bytes pos (field w (v / 2)) (v % 2 ∷ []) s in
    let half : v / 2 < 2 ^ w = omega (arith, pow-suc 2 w, h) in
    let ih = read_loop-field w (v / 2) bytes pos half a in
    let place : pos + length (field w (v / 2)) ≡ pos + w = omega (arith, length-field w (v / 2)) in
    let last : bit_at bytes (pos + w) ≡ v % 2 = subst (λ p. bit_at bytes p ≡ v % 2) place b.0 in
    let value : v / 2 * 2 + bit_at bytes (pos + w) ≡ v = omega (arith, last) in
    let after : suc (pos + w) ≡ pos + suc w = omega arith in
    read_loop-last w 0 bytes pos
    ∙ ap (λ r. (r.0 * 2 + bit_at bytes r.1, suc r.1)) ih
    ∙ (λ i. (value i, after i))

-- A reader that takes these bits and gives this value, wherever they stand.
pub record Reads {A : Type 0} (m : Reader A) (bits : List ℕ) (a : A) : Type 0 where
  pub run :
      (bytes : List ℕ) (pos : ℕ) → Ready bytes pos bits → m bytes pos ≡ done a (pos + length bits)

pub Reads-return : {A : Type 0} (a : A) → Reads (return a) [] a
Reads-return a = record { run = λ bytes pos h. ap (done a) (omega arith) }

pub Reads-bind :
    {A B : Type 0} {m : Reader A} (f : A → Reader B) {xs ys : List ℕ} {a : A} {b : B}
    → Reads m xs a
    → Reads (f a) ys b
    → Reads (m >>= f) (xs ++ ys) b
Reads-bind {A = A} f {xs} {ys} {a} {b} p q = record {
  run = λ bytes pos h.
      let (first, second) = Ready-append bytes pos xs ys h in
      let place : pos + length xs + length ys ≡ pos + length (xs ++ ys) =
        omega (arith, length-append xs ys) in
      ap (λ (r : Outcome A). continue r f bytes) (p.run bytes pos first)
      ∙ q.run bytes (pos + length xs) second
      ∙ ap (done b) place;
}

pub Reads-then :
    {B : Type 0} {m : Reader (Unit {0})} {k : Reader B} {xs ys : List ℕ} {b : B}
    → Reads m xs tt
    → Reads k ys b
    → Reads (m >> k) (xs ++ ys) b
Reads-then {k} p q = Reads-bind (λ _. k) p q

pub Reads-map :
    {A B : Type 0} {m : Reader A} (f : A → B) {xs : List ℕ} {a : A}
    → Reads m xs a
    → Reads (m >>= λ x. return (f x)) xs (f a)
Reads-map {A = A} f p = record {
  run = λ bytes pos h.
      ap (λ (r : Outcome A). continue r (λ x. return (f x)) bytes) (p.run bytes pos h);
}

-- To read a value under another name.
pub Reads-value :
    {A : Type 0} {m : Reader A} {xs : List ℕ} {a b : A} → a ≡ b → Reads m xs a → Reads m xs b
Reads-value {m} {xs} e p = subst (Reads m xs) e p

pub Reads-then_return :
    {B : Type 0} {m : Reader (Unit {0})} {xs : List ℕ} (b : B)
    → Reads m xs tt
    → Reads (m >> return b) xs b
Reads-then_return b p = Reads-map (λ _. b) p

pub Reads-field : (w v : ℕ) → v < 2 ^ w → Reads (read_bits w) (field w v) v
unfolding read_bits
Reads-field w v fits = record {
  run = λ bytes pos h.
      let width = length-field w v in
      let inside : ltb (length bytes * 8) (pos + w) ≡ false = ground (arith, h.1, width) in
      let loop = read_loop-field w v bytes pos fits h.0 in
      ap (λ r. if ltb (length bytes * 8) (pos + w) then failed buffer_error else done r.0 r.1) loop
      ∙ ap (λ b. if b then failed buffer_error else done v (pos + w)) inside
      ∙ ap (done v) (omega (arith, width));
}

pub Reads-skip : (w v : ℕ) → Reads (skip w) (field w v) tt
Reads-skip w v = record { run = λ bytes pos h. ap (done tt) (omega (arith, length-field w v)) }

abbrev pub flag : Bool → List ℕ
flag true = field 1 1
flag false = field 1 0

pub Reads-flag : (b : Bool) → Reads read_flag (flag b) b
unfolding read_flag
Reads-flag true = Reads-map (λ bit. bit == 1) (Reads-field 1 1 (omega arith))
Reads-flag false = Reads-map (λ bit. bit == 1) (Reads-field 1 0 (omega arith))

abbrev pub bytes_field : List ℕ → List ℕ
bytes_field [] = []
bytes_field (b ∷ bs) = field 8 b ++ bytes_field bs

abbrev pub AllBytes : List ℕ → Type 0
AllBytes [] = Unit
AllBytes (b ∷ bs) = (b < 256) × AllBytes bs

pub Reads-bytes : (bs : List ℕ) → AllBytes bs → Reads (read_bytes (length bs)) (bytes_field bs) bs
unfolding read_bytes
Reads-bytes [] h = Reads-return []
Reads-bytes (b ∷ bs) h =
    Reads-bind _ (Reads-field 8 b h.0) (Reads-map (λ rest. b ∷ rest) (Reads-bytes bs h.1))

pub length-flag : (b : Bool) → length (flag b) ≡ 1
unfolding field
length-flag true = refl
length-flag false = refl

pub length-bytes_field : (bs : List ℕ) → length (bytes_field bs) ≡ 8 * length bs
length-bytes_field [] = refl
length-bytes_field (b ∷ bs) =
    omega
      (arith, length-append (field 8 b) (bytes_field bs), length-field 8 b, length-bytes_field bs)
