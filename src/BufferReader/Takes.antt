-- ===== src/BufferReader/Takes.antt =====
-- Readers that take given bytes, wherever they stand, and big-endian numbers in bytes.
use vinyl.Common.{
  ℕ, zero, suc, ◌+◌, ◌*◌, ◌/◌, ◌%◌, ◌^◌, ◌<◌, ◌≡◌, refl, sym, ap, ◌∙◌, subst, false, List, [], ◌∷◌,
  ◌++◌, append_assoc, arith, ltb, length, length-append, take, drop, take-append, drop-append,
}
use native.Mathlib.Nat.{pow-suc}
use vinyl.BitReader.{Reader, Outcome, done, continue, ◌>>=◌, ◌>>◌, return, byte_at}
use vinyl.BitReader.Bytes.{byte_at-append}
use vinyl.BufferReader.{uint_at, advance, skip_bytes, read_uint, read_slice}

pub record Takes {A : Type 0} (m : Reader A) (xs : List ℕ) (a : A) : Type 0 where
  pub from :
      (before after : List ℕ)
      → m (before ++ (xs ++ after)) (length before) ≡ done a (length before + length xs)

pub Takes-return : {A : Type 0} (a : A) → Takes (return a) [] a
Takes-return a = record { from = λ before after. ap (done a) (omega arith) }

pub Takes-bind :
    {A B : Type 0} {m : Reader A} (f : A → Reader B) {xs ys : List ℕ} {a : A} {b : B}
    → Takes m xs a
    → Takes (f a) ys b
    → Takes (m >>= f) (xs ++ ys) b
Takes-bind {A = A} {m = m'} f {xs} {ys} {a} {b} p q = record {
  from = λ before after.
      let bytes = before ++ (xs ++ (ys ++ after)) in
      let split : before ++ ((xs ++ ys) ++ after) ≡ bytes =
        ap (λ l. before ++ l) (append_assoc xs ys after) in
      let place : length (before ++ xs) ≡ length before + length xs = length-append before xs in
      let total : length (before ++ xs) + length ys ≡ length before + length (xs ++ ys) =
        omega (arith, length-append before xs, length-append xs ys) in
      let second : f a bytes (length before + length xs)
          ≡ done b (length before + length (xs ++ ys)) =
        subst (λ p. f a bytes p ≡ done b (length before + length (xs ++ ys))) place
          (subst (λ l. f a l (length (before ++ xs)) ≡ done b (length before + length (xs ++ ys)))
            (append_assoc before xs (ys ++ after))
            (q.from (before ++ xs) after ∙ ap (done b) total)) in
      ap (λ l. continue (m' l (length before)) f l) split
      ∙ ap (λ (r : Outcome A). continue r f bytes) (p.from before (ys ++ after))
      ∙ second;
}

pub Takes-then :
    {B : Type 0} {m : Reader (Unit {0})} {k : Reader B} {xs ys : List ℕ} {b : B}
    → Takes m xs tt
    → Takes k ys b
    → Takes (m >> k) (xs ++ ys) b
Takes-then {k} p q = Takes-bind (λ _. k) p q

pub Takes-map :
    {A B : Type 0} {m : Reader A} (f : A → B) {xs : List ℕ} {a : A}
    → Takes m xs a
    → Takes (m >>= λ x. return (f x)) xs (f a)
Takes-map {A = A} f {xs} p = record {
  from = λ before after.
      ap (λ (r : Outcome A). continue r (λ x. return (f x)) (before ++ (xs ++ after)))
        (p.from before after);
}

-- A number in so many bytes, the most significant one first.
unfoldable pub big_endian : ℕ → ℕ → List ℕ
big_endian zero v = []
big_endian (suc w) v = big_endian w (v / 256) ++ v % 256 ∷ []

pub length-big_endian : (w v : ℕ) → length (big_endian w v) ≡ w
unfolding big_endian
length-big_endian zero v = refl
length-big_endian (suc w) v =
    omega
      (arith, length-append (big_endian w (v / 256)) (v % 256 ∷ []), length-big_endian w (v / 256))

uint_at-big_endian :
    (w v : ℕ) (before after : List ℕ)
    → v < 256 ^ w
    → uint_at w (before ++ (big_endian w v ++ after)) (length before) ≡ v
unfolding big_endian
uint_at-big_endian zero v before after h = omega (arith, h)
uint_at-big_endian (suc w) v before after h =
    let high = big_endian w (v / 256) in
    let bytes = before ++ (high ++ (v % 256 ∷ after)) in
    let split : before ++ ((high ++ v % 256 ∷ []) ++ after) ≡ bytes =
      ap (λ l. before ++ l) (append_assoc high (v % 256 ∷ []) after) in
    let small : v / 256 < 256 ^ w = omega (arith, h, pow-suc 256 w) in
    let upper = uint_at-big_endian w (v / 256) before (v % 256 ∷ after) small in
    let place : length before + w ≡ length (before ++ high) + 0 =
      omega (arith, length-append before high, length-big_endian w (v / 256)) in
    let lower : byte_at bytes (length before + w) ≡ v % 256 =
      ap (byte_at bytes) place
      ∙ ap (λ l. byte_at l (length (before ++ high) + 0))
          (sym (append_assoc before high (v % 256 ∷ after)))
      ∙ byte_at-append (before ++ high) (v % 256 ∷ after) 0 in
    let whole : v / 256 * 256 + v % 256 ≡ v = omega arith in
    ap (λ l. uint_at w l (length before) * 256 + byte_at l (length before + w)) split
    ∙ (λ i. upper i * 256 + lower i)
    ∙ whole

Takes-advance :
    {A : Type 0} (value : List ℕ → ℕ → A) (xs : List ℕ) (a : A)
    → ((before after : List ℕ) → value (before ++ (xs ++ after)) (length before) ≡ a)
    → Takes (advance (length xs) value) xs a
Takes-advance value xs a h = record {
  from = λ before after.
      let bytes = before ++ (xs ++ after) in
      let room : ltb (length bytes) (length before + length xs) ≡ false =
        ground (arith, length-append before (xs ++ after), length-append xs after) in
      rw (room, h before after) refl;
}

pub Takes-uint : (w v : ℕ) → v < 256 ^ w → Takes (read_uint w) (big_endian w v) v
unfolding read_uint
Takes-uint w v h =
    let wide = length-big_endian w v in
    let exact : (before after : List ℕ)
        → uint_at (length (big_endian w v)) (before ++ (big_endian w v ++ after)) (length before)
          ≡ v =
      λ before after.
        ap (λ n. uint_at n (before ++ (big_endian w v ++ after)) (length before)) wide
        ∙ uint_at-big_endian w v before after h in
    subst (λ n. Takes (advance n (uint_at n)) (big_endian w v) v) wide
      (Takes-advance (uint_at (length (big_endian w v))) (big_endian w v) v exact)

pub Takes-skip : (xs : List ℕ) → Takes (skip_bytes (length xs)) xs tt
unfolding skip_bytes
Takes-skip xs = Takes-advance (λ bytes pos. tt) xs tt (λ before after. refl)

pub Takes-slice : (xs : List ℕ) → Takes (read_slice (length xs)) xs xs
unfolding read_slice
Takes-slice xs =
    Takes-advance (λ bytes pos. take (length xs) (drop pos bytes)) xs xs
      (λ before after.
        let here : length before ≡ length before + 0 = omega arith in
        ap (take (length xs))
          (ap (λ n. drop n (before ++ (xs ++ after))) here ∙ drop-append before (xs ++ after) 0)
        ∙ take-append xs after)
