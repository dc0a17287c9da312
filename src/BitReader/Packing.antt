-- ===== src/BitReader/Packing.antt =====
-- Bits, put into bytes.
use vinyl.Common.{
  Bool, true, false, ℕ, zero, suc, ◌+◌, ◌-◌, ◌*◌, ◌/◌, ◌%◌, ◌^◌, ◌<◌, ◌≡◌, refl, ap, ◌∙◌, subst,
  Option, some, none, List, [], ◌∷◌, ◌++◌, length, length-append, get_elem?, append_assoc, arith,
}
use vinyl.BitReader.{byte_at, bit_at}
use vinyl.BitReader.Fields.{field, flag, bytes_field, Spells, Ready}

-- Eight bits to a byte, the most significant one first; bits that do not fill a byte are left out.
unfoldable pub pack : List ℕ → List ℕ
pack (a ∷ b ∷ c ∷ d ∷ e ∷ f ∷ g ∷ h ∷ bits) =
    (a * 128 + b * 64 + c * 32 + d * 16 + e * 8 + f * 4 + g * 2 + h) ∷ pack bits
pack bits = []

abbrev pub AllBits : List ℕ → Type 0
AllBits [] = Unit
AllBits (b ∷ bs) = (b < 2) × AllBits bs

get_elem?-mid : (xs ys : List ℕ) (b : ℕ) → get_elem? (xs ++ b ∷ ys) (length xs) ≡ some b
get_elem?-mid [] ys b = refl
get_elem?-mid (x ∷ xs) ys b = get_elem?-mid xs ys b

-- The bit at that place of the byte behind `xs`.
bit_at-mid :
    (xs ys : List ℕ) (byte k pos : ℕ)
    → k < 8
    → pos ≡ length xs * 8 + k
    → bit_at (xs ++ byte ∷ ys) pos ≡ byte / 2 ^ (7 - k) % 2
bit_at-mid xs ys byte k pos small e =
    let place : pos / 8 ≡ length xs = omega arith in
    let rest : pos % 8 ≡ k = omega arith in
    let found : byte_at (xs ++ byte ∷ ys) (pos / 8) ≡ byte =
      ap (byte_at (xs ++ byte ∷ ys)) place
      ∙ ap (λ (o : Option ℕ). elim o [ none ↦ 0 | some b ↦ b ]) (get_elem?-mid xs ys byte) in
    λ i. found i / 2 ^ (7 - rest i) % 2

byte_bits :
    (a b c d e f g h : ℕ)
    → (a < 2) × (b < 2) × (c < 2) × (d < 2) × (e < 2) × (f < 2) × (g < 2) × (h < 2)
    → let v = a * 128 + b * 64 + c * 32 + d * 16 + e * 8 + f * 4 + g * 2 + h in
      (v / 128 % 2 ≡ a)
      × (v / 64 % 2 ≡ b)
      × (v / 32 % 2 ≡ c)
      × (v / 16 % 2 ≡ d)
      × (v / 8 % 2 ≡ e)
      × (v / 4 % 2 ≡ f)
      × (v / 2 % 2 ≡ g)
      × (v / 1 % 2 ≡ h)
byte_bits a b c d e f g h (p, q, r, s, t, u, v, w) = (
  omega arith,
  omega arith,
  omega arith,
  omega arith,
  omega arith,
  omega arith,
  omega arith,
  omega arith,
)

-- What is packed behind other bytes is spelled out there.
pack-Spells :
    (xs ys bits : List ℕ) (pos : ℕ)
    → AllBits bits
    → length bits % 8 ≡ 0
    → pos ≡ length xs * 8
    → Spells (xs ++ (pack bits ++ ys)) pos bits
unfolding pack
pack-Spells xs ys [] pos h whole e = tt
pack-Spells xs ys (a ∷ []) pos h whole e = (let no : ⊥ = omega (arith, whole) in elim no [ ])
pack-Spells xs ys (a ∷ b ∷ []) pos h whole e = (let no : ⊥ = omega (arith, whole) in elim no [ ])
pack-Spells xs ys (a ∷ b ∷ c ∷ []) pos h whole e =
    (let no : ⊥ = omega (arith, whole) in elim no [ ])
pack-Spells xs ys (a ∷ b ∷ c ∷ d ∷ []) pos h whole e =
    (let no : ⊥ = omega (arith, whole) in elim no [ ])
pack-Spells xs ys (a ∷ b ∷ c ∷ d ∷ x ∷ []) pos h whole e =
    (let no : ⊥ = omega (arith, whole) in elim no [ ])
pack-Spells xs ys (a ∷ b ∷ c ∷ d ∷ x ∷ f ∷ []) pos h whole e =
    (let no : ⊥ = omega (arith, whole) in elim no [ ])
pack-Spells xs ys (a ∷ b ∷ c ∷ d ∷ x ∷ f ∷ g ∷ []) pos h whole e =
    (let no : ⊥ = omega (arith, whole) in elim no [ ])
pack-Spells xs ys (a ∷ b ∷ c ∷ d ∷ x ∷ f ∷ g ∷ k ∷ bits) pos h whole e =
    let byte = a * 128 + b * 64 + c * 32 + d * 16 + x * 8 + f * 4 + g * 2 + k in
    let rest = pack bits ++ ys in
    let v = byte_bits a b c d x f g k (
      h.0, h.1.0, h.1.1.0, h.1.1.1.0, h.1.1.1.1.0, h.1.1.1.1.1.0, h.1.1.1.1.1.1.0,
      h.1.1.1.1.1.1.1.0,
    ) in
    let at : (i p : ℕ)
        → i < 8
        → p ≡ length xs * 8 + i
        → bit_at (xs ++ byte ∷ rest) p ≡ byte / 2 ^ (7 - i) % 2 =
      λ i p. bit_at-mid xs rest byte i p in
    let ih =
      pack-Spells (xs ++ byte ∷ []) ys bits (pos + 8) h.1.1.1.1.1.1.1.1 (omega (arith, whole))
        (omega (arith, e, length-append xs (byte ∷ []))) in
    let tail : Spells (xs ++ byte ∷ rest) (suc (suc (suc (suc (suc (suc (suc (suc pos)))))))) bits =
      subst (λ p. Spells (xs ++ byte ∷ rest) p bits) (omega arith)
        (subst (λ l. Spells l (pos + 8) bits) (append_assoc xs (byte ∷ []) rest) ih) in
    (
      at 0 _ (omega arith) (omega (arith, e)) ∙ v.0,
      (
        at 1 _ (omega arith) (omega (arith, e)) ∙ v.1,
        (
          at 2 _ (omega arith) (omega (arith, e)) ∙ v.2,
          (
            at 3 _ (omega arith) (omega (arith, e)) ∙ v.3,
            (
              at 4 _ (omega arith) (omega (arith, e)) ∙ v.4,
              (
                at 5 _ (omega arith) (omega (arith, e)) ∙ v.5,
                (
                  at 6 _ (omega arith) (omega (arith, e)) ∙ v.6,
                  (at 7 _ (omega arith) (omega (arith, e)) ∙ v.7, tail),
                ),
              ),
            ),
          ),
        ),
      ),
    )

pub length-pack : (bits : List ℕ) → length bits % 8 ≡ 0 → length (pack bits) * 8 ≡ length bits
unfolding pack
length-pack [] whole = refl
length-pack (a ∷ []) whole = omega (arith, whole)
length-pack (a ∷ b ∷ []) whole = omega (arith, whole)
length-pack (a ∷ b ∷ c ∷ []) whole = omega (arith, whole)
length-pack (a ∷ b ∷ c ∷ d ∷ []) whole = omega (arith, whole)
length-pack (a ∷ b ∷ c ∷ d ∷ e ∷ []) whole = omega (arith, whole)
length-pack (a ∷ b ∷ c ∷ d ∷ e ∷ f ∷ []) whole = omega (arith, whole)
length-pack (a ∷ b ∷ c ∷ d ∷ e ∷ f ∷ g ∷ []) whole = omega (arith, whole)
length-pack (a ∷ b ∷ c ∷ d ∷ e ∷ f ∷ g ∷ h ∷ bits) whole =
    omega (arith, length-pack bits (omega (arith, whole)))

pub pack-Ready :
    (bits ys : List ℕ) → AllBits bits → length bits % 8 ≡ 0 → Ready (pack bits ++ ys) 0 bits
pack-Ready bits ys h whole = (
  pack-Spells [] ys bits 0 h whole (omega arith),
  omega (arith, length-append (pack bits) ys, length-pack bits whole),
)

pub AllBits-append : (xs ys : List ℕ) → AllBits xs → AllBits ys → AllBits (xs ++ ys)
AllBits-append [] ys a b = b
AllBits-append (x ∷ xs) ys a b = (a.0, AllBits-append xs ys a.1 b)

pub field-AllBits : (w v : ℕ) → AllBits (field w v)
unfolding field
field-AllBits zero v = tt
field-AllBits (suc w) v =
    AllBits-append (field w (v / 2)) (v % 2 ∷ []) (field-AllBits w (v / 2)) (omega arith, tt)

pub flag-AllBits : (b : Bool) → AllBits (flag b)
flag-AllBits true = field-AllBits 1 1
flag-AllBits false = field-AllBits 1 0

pub bytes_field-AllBits : (bs : List ℕ) → AllBits (bytes_field bs)
bytes_field-AllBits [] = tt
bytes_field-AllBits (b ∷ bs) =
    AllBits-append (field 8 b) (bytes_field bs) (field-AllBits 8 b) (bytes_field-AllBits bs)
