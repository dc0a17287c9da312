-- ===== src/BitReader/Bytes.antt =====
-- Reads of bytes that stand behind others.
use vinyl.Common.{
  ℕ, suc, ◌+◌, ◌≡◌, ap, ◌∙◌, Option, none, some, List, [], ◌∷◌, ◌++◌, arith, length, get_elem?,
}
use vinyl.BitReader.{byte_at}

pub get_elem?-append :
    (xs ys : List ℕ) (k : ℕ) → get_elem? (xs ++ ys) (length xs + k) ≡ get_elem? ys k
get_elem?-append [] ys k = ap (get_elem? ys) (omega arith)
get_elem?-append (x ∷ xs) ys k =
    let step : suc (length xs) + k ≡ suc (length xs + k) = omega arith in
    ap (get_elem? (x ∷ (xs ++ ys))) step ∙ get_elem?-append xs ys k

pub byte_at-append : (xs ys : List ℕ) (k : ℕ) → byte_at (xs ++ ys) (length xs + k) ≡ byte_at ys k
byte_at-append xs ys k =
    ap (λ (o : Option ℕ). elim o [ none ↦ 0 | some b ↦ b ]) (get_elem?-append xs ys k)
