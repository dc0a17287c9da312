-- ===== src/BitReader/Positions.antt =====
-- Readers that take bit fields at a given position, and the lengths of the fields.
use vinyl.Common.{
  ℕ, ◌+◌, ◌*◌, ◌%◌, ◌≡◌, ap, ◌∙◌, Bool, List, [], ◌++◌, arith, length, length-append,
}
use vinyl.BitReader.{
  Reader, Outcome, done, continue, ◌>>=◌, ◌>>◌, return, byte_position, tell, seek,
}
use vinyl.BitReader.Fields.{field, flag, length-field, length-flag, Ready, Ready-append, Reads}

-- A reader that takes these bits and gives this value, where they stand at the position.
pub record ReadsAt {A : Type 0} (pos : ℕ) (m : Reader A) (bits : List ℕ) (a : A) : Type 0 where
  pub run_at : (bytes : List ℕ) → Ready bytes pos bits → m bytes pos ≡ done a (pos + length bits)

pub ReadsAt-of-Reads :
    {A : Type 0} {m : Reader A} {xs : List ℕ} {a : A} (pos : ℕ) → Reads m xs a → ReadsAt pos m xs a
ReadsAt-of-Reads pos p = record { run_at = λ bytes h. p.run bytes pos h }

pub ReadsAt-bind :
    {A B : Type 0} {pos : ℕ} {m : Reader A} (f : A → Reader B) {xs ys : List ℕ} {a : A} {b : B}
    → ReadsAt pos m xs a
    → ReadsAt (pos + length xs) (f a) ys b
    → ReadsAt pos (m >>= f) (xs ++ ys) b
ReadsAt-bind {A = A} {pos} f {xs} {ys} {a} {b} p q = record {
  run_at = λ bytes h.
      let (first, second) = Ready-append bytes pos xs ys h in
      let place : pos + length xs + length ys ≡ pos + length (xs ++ ys) =
        omega (arith, length-append xs ys) in
      ap (λ (r : Outcome A). continue r f bytes) (p.run_at bytes first)
      ∙ q.run_at bytes second
      ∙ ap (done b) place;
}

pub ReadsAt-then :
    {B : Type 0} {pos : ℕ} {m : Reader (Unit {0})} {k : Reader B} {xs ys : List ℕ} {b : B}
    → ReadsAt pos m xs tt
    → ReadsAt (pos + length xs) k ys b
    → ReadsAt pos (m >> k) (xs ++ ys) b
ReadsAt-then {k} p q = ReadsAt-bind (λ _. k) p q

pub ReadsAt-map :
    {A B : Type 0} {pos : ℕ} {m : Reader A} (f : A → B) {xs : List ℕ} {a : A}
    → ReadsAt pos m xs a
    → ReadsAt pos (m >>= λ x. return (f x)) xs (f a)
ReadsAt-map {A = A} f p = record {
  run_at =
      λ bytes h. ap (λ (r : Outcome A). continue r (λ x. return (f x)) bytes) (p.run_at bytes h);
}

pub ReadsAt-tell : (pos at : ℕ) → byte_position pos ≡ at → ReadsAt pos tell [] at
ReadsAt-tell pos at e = record { run_at = λ bytes h i. done (e i) (same i) }
  where
    same : pos ≡ pos + length {A = ℕ} []
    same = omega arith

-- A seek to where the reader stands.
pub ReadsAt-seek : (pos target : ℕ) → target * 8 ≡ pos → ReadsAt pos (seek target) [] tt
ReadsAt-seek pos target e = record { run_at = λ bytes h. ap (done tt) (omega (arith, e)) }

-- The bits take whole bytes.
abbrev pub Whole : List ℕ → Type 0
Whole bits = length bits % 8 ≡ 0

pub Whole-append : (xs ys : List ℕ) → Whole xs → Whole ys → Whole (xs ++ ys)
Whole-append xs ys a b = omega (arith, length-append xs ys, a, b)

pub length-field_append : (w v : ℕ) (xs : List ℕ) → length (field w v ++ xs) ≡ w + length xs
length-field_append w v xs = omega (arith, length-append (field w v) xs, length-field w v)

pub length-flag_append : (b : Bool) (xs : List ℕ) → length (flag b ++ xs) ≡ 1 + length xs
length-flag_append b xs = omega (arith, length-append (flag b) xs, length-flag b)
