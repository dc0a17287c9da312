-- ===== src/Ranges/Remove.antt =====
-- `RangesImpl.remove` against cutting the span out of each range.
pub mod Covers
use vinyl.Common.{
  ℕ, zero, suc, ◌-◌, ◌≤◌, ◌<◌, ◌≡◌, refl, Bool, true, false, not, some, List, [], ◌∷◌, ◌++◌, inl,
  inr, ◌≢◌, arith, ap, sym, ltb→lt, ltb→le, ◌||◌, ◌&&◌, ltb, leb, ◌==◌, length, splice, drop,
  Bool-cases, if◌then◌else◌, ◌⊎◌, ◌∙◌,
}
use native.Mathlib.Nat.{sub-zero, suc-sub-suc}
use mathlib.Core.List.{append-nil, append_assoc}
use vinyl.Ranges.{Range, left_piece, right_piece, encloses_point, remove}
use vinyl.Ranges.Order.{
  StartsAfter-le, StartsAfter, IsOrdered, start_count, end_count, search-start_count,
  search-end_count,
}

-- What is left of one range when the span from `s` to `e` is cut out. An empty span leaves a
-- range as it is, unless the range is that point.
abbrev pub cut : ℕ → ℕ → Range → List Range
cut s e r =
    if ltb r.1 s
    then r ∷ []
    else if ltb e r.0
    then r ∷ []
    else if s == e
    then (if r.0 == r.1 then [] else r ∷ [])
    else ((if ltb r.0 s then (r.0, s) ∷ [] else []) ++ (if ltb e r.1 then (e, r.1) ∷ [] else []))

abbrev pub carve : ℕ → ℕ → List Range → List Range
carve s e [] = []
carve s e (r ∷ rs) = cut s e r ++ carve s e rs

-- The pieces and the guard of the code, by one walk each.
left_of : ℕ → List Range → List Range
left_of s [] = []
left_of s (r ∷ rs) = if ltb r.1 s then left_of s rs else (if ltb r.0 s then (r.0, s) ∷ [] else [])

right_of : ℕ → List Range → List Range
right_of e [] = []
right_of e (r ∷ rs) =
    if ltb e r.0
    then []
    else if start_count e rs == 0
    then (if ltb e r.1 then (e, r.1) ∷ [] else [])
    else right_of e rs

encloses : ℕ → ℕ → List Range → Bool
encloses s e [] = false
encloses s e (r ∷ rs) =
    if ltb r.1 s then encloses s e rs else if leb r.0 e then s == e && not (r.0 == r.1) else false

left_piece-left_of :
    (s : ℕ) (rs : List Range) → left_piece s (end_count s rs) rs ≡ some (left_of s rs)
unfolding left_of
left_piece-left_of s [] = refl
left_piece-left_of s (r ∷ rs) = ground (arith, left_piece-left_of s rs)

right_piece-cons :
    (e c : ℕ) (v : List Range) (r : Range) (rs : List Range)
    → right_piece e c rs ≡ some v
    → right_piece e (suc c) (r ∷ rs)
      ≡ some (if c == 0 then (if ltb e r.1 then (e, r.1) ∷ [] else []) else v)
right_piece-cons e zero v r rs h = refl
right_piece-cons e (suc c) v r rs h = ground arith

right_piece-right_of :
    (e : ℕ) (rs : List Range) → right_piece e (start_count e rs) rs ≡ some (right_of e rs)
unfolding right_of
right_piece-right_of e [] = refl
right_piece-right_of e (r ∷ rs) = elim (Bool-cases (ltb e r.0)) [
  | inl t ↦ rw t refl
  | inr t ↦
      rw t (right_piece-cons e (start_count e rs) (right_of e rs) r rs (right_piece-right_of e rs))
]

start_count-zero : (e n : ℕ) (rs : List Range) → e ≤ n → StartsAfter n rs → start_count e rs ≡ 0
start_count-zero e n [] h a = refl
start_count-zero e n (r ∷ rs) h a = ground arith

encloses_point-cons :
    (s e i j : ℕ) (r : Range) (rs : List Range)
    → encloses_point s e (suc i) (suc j) (r ∷ rs) ≡ encloses_point s e i j rs
encloses_point-cons s e i j r rs = ground arith

encloses_point-head :
    (s e j : ℕ) (r : Range) (rs : List Range)
    → (s ≡ e → j ≡ 0)
    → encloses_point s e 0 (suc j) (r ∷ rs) ≡ some (s == e && not (r.0 == r.1))
encloses_point-head s e j r rs h = ground arith

encloses_point-encloses :
    (s e : ℕ) (rs : List Range)
    → s ≤ e
    → IsOrdered rs
    → encloses_point s e (end_count s rs) (start_count e rs) rs ≡ some (encloses s e rs)
unfolding encloses
encloses_point-encloses s e [] h o = ground arith
encloses_point-encloses s e (r ∷ rs) h o = elim (Bool-cases (ltb r.1 s)) [
  | inl t ↦
      let low : leb s r.1 ≡ false = ground arith in
      let under : ltb e r.0 ≡ false = ground arith in
      rw (t, low, under)
        (encloses_point-cons s e (end_count s rs) (start_count e rs) r rs
          ∙ encloses_point-encloses s e rs h o.2)
  | inr t ↦
      let high : leb s r.1 ≡ true = ground arith in
      elim (Bool-cases (ltb e r.0)) [
        | inl u ↦
            let above : leb r.0 e ≡ false = ground arith in rw (t, high, u, above) (ground arith)
        | inr u ↦
            let reach : leb r.0 e ≡ true = ground arith in
            rw (t, high, u, reach)
              (encloses_point-head s e (start_count e rs) r rs
                (λ q. start_count-zero e r.1 rs (omega (arith, ltb→le r.1 s t)) o.1))
      ]
]

right_of-zero : (e : ℕ) (rs : List Range) → start_count e rs ≡ 0 → right_of e rs ≡ []
unfolding right_of
right_of-zero e [] h = refl
right_of-zero e (r ∷ rs) h = ground arith

-- The last range that starts at or before `e` is the only one that can end after it.
right_of-cons :
    (e : ℕ) (r : Range) (rs : List Range)
    → ltb e r.0 ≡ false
    → IsOrdered (r ∷ rs)
    → right_of e (r ∷ rs) ≡ (if ltb e r.1 then (e, r.1) ∷ [] else []) ++ right_of e rs
unfolding right_of
right_of-cons e r rs u o = elim (Bool-cases (start_count e rs == 0)) [
  | inl z ↦ rw (u, z, right_of-zero e rs (ground arith)) (sym (append-nil _))
  | inr z ↦
      let nonzero : start_count e rs ≢ 0 = ground arith in
      let inside : ltb e r.1 ≡ false = elim (Bool-cases (ltb e r.1)) [
        | inl q ↦ absurd (nonzero (start_count-zero e r.1 rs (omega (arith, ltb→lt e r.1 q)) o.1))
        | inr q ↦ q
      ] in
      rw (u, z, inside)
]

carve-after : (s e : ℕ) (rs : List Range) → StartsAfter e rs → IsOrdered rs → carve s e rs ≡ rs
carve-after s e [] a o = refl
carve-after s e (r ∷ rs) a o =
    let over : ltb e r.0 ≡ true = ground arith in
    let rest = carve-after s e rs (StartsAfter-le e r.1 rs (omega arith) o.1) o.2 in ground arith

carve-drop :
    (s e b : ℕ) (rs : List Range)
    → s ≤ b
    → StartsAfter b rs
    → IsOrdered rs
    → carve s e rs ≡ right_of e rs ++ drop (start_count e rs) rs
unfolding right_of
carve-drop s e b [] h a o = refl
carve-drop s e b (r ∷ rs) h a o = elim (Bool-cases (ltb e r.0)) [
  | inl t ↦
      let passed : ltb r.1 s ≡ false = ground arith in
      rw (passed, t)
        (ap (◌∷◌ r)
          (carve-after s e rs (StartsAfter-le e r.1 rs (omega (arith, ltb→lt e r.0 t)) o.1) o.2))
  | inr t ↦
      let passed : ltb r.1 s ≡ false = ground arith in
      let proper : s == e ≡ false = ground arith in
      let inner : ltb r.0 s ≡ false = ground arith in
      rw
        (
          right_of-cons e r rs t o,
          t,
          passed,
          proper,
          inner,
          carve-drop s e r.1 rs (omega arith) o.1 o.2,
        )
        (simp append_assoc)
]

if-cons :
    (b : Bool) (r : Range) (xs ys : List Range)
    → (if b then r ∷ xs else r ∷ ys) ≡ r ∷ (if b then xs else ys)
if-cons true r xs ys = refl
if-cons false r xs ys = refl

-- The first range touches the span.
splice-carve_head :
    (s e : ℕ) (r : Range) (rs : List Range)
    → s ≤ e
    → IsOrdered (r ∷ rs)
    → ltb r.1 s ≡ false
    → ltb e r.0 ≡ false
    → (if encloses s e (r ∷ rs)
        then r ∷ rs
        else splice
            (r ∷ rs)
            (end_count s (r ∷ rs))
            (start_count e (r ∷ rs) - end_count s (r ∷ rs))
            (left_of s (r ∷ rs) ++ right_of e (r ∷ rs)))
      ≡ carve s e (r ∷ rs)
unfolding encloses left_of
splice-carve_head s e r rs h o t u =
    let high : leb s r.1 ≡ true = ground arith in
    let reach : leb r.0 e ≡ true = ground arith in
    elim (Bool-cases (s == e)) [
      | inl q ↦
          let after : StartsAfter e rs = StartsAfter-le e r.1 rs (ground arith) o.1 in
          let none_left = start_count-zero e e rs (omega arith) after in
          elim (Bool-cases (r.0 == r.1)) [
            | inl p ↦
                let outer : ltb r.0 s ≡ false = ground arith in
                let inside : ltb e r.1 ≡ false = ground arith in
                rw
                  (
                    right_of-cons e r rs u o,
                    right_of-zero e rs none_left,
                    t,
                    high,
                    u,
                    reach,
                    q,
                    p,
                    outer,
                    inside,
                    none_left,
                  )
                  (sym (carve-after s e rs after o.2))
            | inr p ↦ rw (t, high, u, reach, q, p) (ap (◌∷◌ r) (sym (carve-after s e rs after o.2)))
          ]
      | inr q ↦
          rw
            (
              right_of-cons e r rs u o,
              t,
              high,
              u,
              reach,
              q,
              carve-drop s e r.1 rs (omega (arith, ltb→le r.1 s t)) o.1 o.2,
            )
            (simp (sub-zero, append_assoc))
    ]

splice-carve :
    (s e : ℕ) (rs : List Range)
    → s ≤ e
    → IsOrdered rs
    → (if encloses s e rs
        then rs
        else splice rs
            (end_count s rs)
            (start_count e rs - end_count s rs)
            (left_of s rs ++ right_of e rs))
      ≡ carve s e rs
unfolding encloses left_of right_of
splice-carve s e [] h o = refl
splice-carve s e (r ∷ rs) h o = elim (Bool-cases (ltb r.1 s)) [
  | inl t ↦
      let low : leb s r.1 ≡ false = ground arith in
      let under : ltb e r.0 ≡ false = ground arith in
      let inside : ltb e r.1 ≡ false = ground arith in
      rw (right_of-cons e r rs under o, t, low, under, inside, suc-sub-suc)
        (if-cons (encloses s e rs) r rs _ ∙ ap (◌∷◌ r) (splice-carve s e rs h o.2))
  | inr t ↦
      let high : leb s r.1 ≡ true = ground arith in
      elim (Bool-cases (ltb e r.0)) [
        | inl u ↦
            let above : leb r.0 e ≡ false = ground arith in
            let outer : ltb r.0 s ≡ false = ground arith in
            rw (t, high, u, above, outer)
              (ap (◌∷◌ r) (
                sym (
                  carve-after s e rs (StartsAfter-le e r.1 rs (omega (arith, ltb→lt e r.0 u)) o.1)
                    o.2)))
        | inr u ↦ splice-carve_head s e r rs h o t u
      ]
]

-- For a span with its start not above its end, on sorted disjoint ranges, `remove` throws nothing
-- and cuts the span out of each range.
pub remove-carve :
    (s e : ℕ) (rs : List Range)
    → s ≤ e
    → IsOrdered rs
    → length rs ≤ 2147483648
    → remove s e rs ≡ some (carve s e rs)
unfolding remove
remove-carve s e [] h o b = ground arith
remove-carve s e (r ∷ rs) h o b =
    let run : (ltb e s || length (r ∷ rs) == 0) ≡ false = ground arith in
    rw
      (
        run,
        search-end_count s (r ∷ rs) 0 o b (omega arith),
        search-start_count e (r ∷ rs) 0 o b (omega arith),
        encloses_point-encloses s e (r ∷ rs) h o,
        left_piece-left_of s (r ∷ rs),
        right_piece-right_of e (r ∷ rs),
      )
      (ap some (splice-carve s e (r ∷ rs) h o))
