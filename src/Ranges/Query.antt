-- ===== src/Ranges/Query.antt =====
-- What `getRangeAt` returns on sorted disjoint ranges.
pub mod Containing
pub mod Within
use vinyl.Common.{
  ℕ, zero, suc, ◌+◌, ◌-◌, ◌≤◌, ◌<◌, ◌≡◌, refl, Bool, true, false, Option, none, some, List, [], ◌∷◌,
  inl, inr, arith, ap, sym, ltb→lt, ◌&&◌, ltb, leb, ◌==◌, length, get_elem?, take, drop, min, max,
  Bool-cases, if◌then◌else◌, ◌⊎◌,
}
use native.Mathlib.Nat.{sub-zero, suc-sub-suc}
use vinyl.Ranges.{
  Range, Found, range_at_index, get_range_at, same_range, compare_end_range, get_range_containing,
  get_ranges_within,
}
use vinyl.Ranges.Order.{
  within, StartsAfter, IsOrdered, start_count, end_count, search-start_count, search-end_count,
}

-- The value lies at most the tolerance outside of the range.
abbrev pub near : ℕ → ℕ → Range → Bool
near v t r = leb r.0 (v + t) && leb v (r.1 + t)

abbrev shift : Found → Found
shift none = none
shift (some (i, r)) = some (suc i, r)

-- The last range that starts at or before the value, if the value is near it; else the next range,
-- if the value is near that.
pub nearest : ℕ → ℕ → List Range → Found
nearest v t [] = none
nearest v t (r ∷ rs) =
    let later = shift (nearest v t rs) in
    if ltb v r.0
    then (if leb r.0 (v + t) then some (0, r) else none)
    else if start_count v rs == 0
    then (if leb v (r.1 + t) then some (0, r) else later)
    else later

abbrev shift_result : Option Found → Option Found
shift_result none = none
shift_result (some f) = some (shift f)

range_at_index-suc :
    (v t c : ℕ) (r : Range) (rs : List Range)
    → range_at_index v t (suc c) (r ∷ rs) ≡ (
        if c == 0
        then (if leb v (r.1 + t)
            then some (some (0, r))
            else shift_result (range_at_index v t c rs))
        else shift_result (range_at_index v t c rs))
range_at_index-suc v t zero r rs = ground arith
range_at_index-suc v t (suc c) r rs = ground arith

range_at_index-nearest :
    (v t : ℕ) (rs : List Range) → range_at_index v t (start_count v rs) rs ≡ some (nearest v t rs)
unfolding nearest
range_at_index-nearest v t [] = ground arith
range_at_index-nearest v t (r ∷ rs) = elim (Bool-cases (ltb v r.0)) [
  | inl u ↦ rw u (ground arith)
  | inr u ↦
      rw (u, range_at_index-suc v t (start_count v rs) r rs, range_at_index-nearest v t rs)
        (ground arith)
]

pub get_range_at-nearest :
    (v t : ℕ) (rs : List Range)
    → IsOrdered rs
    → length rs ≤ 2147483648
    → get_range_at v t rs ≡ some (nearest v t rs)
unfolding get_range_at
get_range_at-nearest v t [] o b = unfold nearest in ground arith
get_range_at-nearest v t (r ∷ rs) o b =
    let run : (length (r ∷ rs) == 0) ≡ false = ground arith in
    rw (run, search-start_count v (r ∷ rs) 0 o b (omega arith))
      (range_at_index-nearest v t (r ∷ rs))

-- No range of the list is near the value.
abbrev pub NoneNear : ℕ → ℕ → List Range → Type 0
NoneNear v t [] = Unit
NoneNear v t (r ∷ rs) = (near v t r ≡ false) × NoneNear v t rs

shift-some :
    (f : Found) (i : ℕ) (r : Range)
    → shift f ≡ some (i, r)
    → (j : ℕ) × (i ≡ suc j) × (f ≡ some (j, r))
shift-some none i r h = cc
shift-some (some (j, q)) i r h = (j, ground arith, ground arith)

nearest-cons :
    (v t i : ℕ) (r q : Range) (rs : List Range)
    → q.0 ≤ q.1
    → nearest v t (q ∷ rs) ≡ some (i, r)
    → ((i ≡ 0) × (q ≡ r) × (near v t q ≡ true))
      ⊎ ((j : ℕ) × (i ≡ suc j) × (nearest v t rs ≡ some (j, r)))
unfolding nearest
nearest-cons v t i r q rs w h = elim (Bool-cases (ltb v q.0)) [
  | inl u ↦ inl (ground arith)
  | inr u ↦ elim (Bool-cases (start_count v rs == 0)) [
    | inl z ↦ elim (Bool-cases (leb v (q.1 + t))) [
      | inl k ↦ inl (ground arith)
      | inr k ↦ inr (shift-some (nearest v t rs) i r (rw (u, z, k) at h))
    ]
    | inr z ↦ inr (shift-some (nearest v t rs) i r (rw (u, z) at h))
  ]
]

pub nearest-near :
    (v t i : ℕ) (r : Range) (rs : List Range)
    → IsOrdered rs
    → nearest v t rs ≡ some (i, r)
    → (get_elem? rs i ≡ some r) × (near v t r ≡ true)
unfolding nearest
nearest-near v t i r [] o h = cc
nearest-near v t i r (q ∷ rs) o h = elim (nearest-cons v t i r q rs o.0 h) [
  | inl (e, same, n) ↦ (rw (e, same) refl, rw (← same) n)
  | inr (j, e, k) ↦ let (g, n) = nearest-near v t j r rs o.2 k in (rw e g, n)
]

get_elem?-after :
    (n i : ℕ) (r : Range) (rs : List Range)
    → StartsAfter n rs
    → IsOrdered rs
    → get_elem? rs i ≡ some r
    → n < r.0
get_elem?-after n i r [] a o g = cc
get_elem?-after n zero r (q ∷ rs) a o g = ground arith
get_elem?-after n (suc i) r (q ∷ rs) a o g =
    let k = get_elem?-after q.1 i r rs o.1 o.2 g in omega arith

start_count-pos :
    (v i : ℕ) (r : Range) (rs : List Range)
    → IsOrdered rs
    → get_elem? rs i ≡ some r
    → r.0 ≤ v
    → (start_count v rs == 0) ≡ false
start_count-pos v i r [] o g h = cc
start_count-pos v zero r (q ∷ rs) o g h = ground arith
start_count-pos v (suc i) r (q ∷ rs) o g h =
    let k = get_elem?-after q.1 i r rs o.1 o.2 g in ground arith

start_count-after : (v n : ℕ) (rs : List Range) → v ≤ n → StartsAfter n rs → start_count v rs ≡ 0
start_count-after v n [] h a = refl
start_count-after v n (r ∷ rs) h a = ground arith

pub nearest-within :
    (v t i : ℕ) (r : Range) (rs : List Range)
    → IsOrdered rs
    → get_elem? rs i ≡ some r
    → within r.0 r.1 v ≡ true
    → nearest v t rs ≡ some (i, r)
unfolding nearest
nearest-within v t i r [] o g h = cc
nearest-within v t zero r (q ∷ rs) o g h =
    let same : q ≡ r = ground arith in
    let inside : v ≤ q.1 = ground arith in
    let up : ltb v q.0 ≡ false = ground arith in
    let close : leb v (q.1 + t) ≡ true = ground arith in
    rw (up, start_count-after v q.1 rs inside o.1, close) (ap (λ (p : Range). some (0, p)) same)
nearest-within v t (suc i) r (q ∷ rs) o g h =
    let after = get_elem?-after q.1 i r rs o.1 o.2 g in
    let low : r.0 ≤ v = ground arith in
    let up : ltb v q.0 ≡ false = ground arith in
    rw (up, start_count-pos v i r rs o.2 g low, nearest-within v t i r rs o.2 g h) refl
