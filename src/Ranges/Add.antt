-- ===== src/Ranges/Add.antt =====
-- `RangesImpl.add` against the textbook insertion into a list of disjoint ranges.
use vinyl.Common.{
  ℕ, zero, suc, ◌-◌, ◌≤◌, ◌<◌, ◌≡◌, refl, Bool, true, false, some, List, [], ◌∷◌, inl, inr, arith,
  ap, sym, ltb→lt, ltb→le, ◌||◌, ltb, leb, length, min, max, splice, drop, Bool-cases,
  if◌then◌else◌,
}
use native.Mathlib.Nat.{sub-zero, suc-sub-suc}
use vinyl.Ranges.{Range, new_start, new_end, add}
use vinyl.Ranges.Order.{
  within, covers, StartsAfter-le, StartsAfter, IsOrdered, start_count, end_count,
  search-start_count, search-end_count, end_count-le-start_count,
}

-- Insertion of a range with its start not above its end, by one walk along the list.
abbrev pub merge : ℕ → ℕ → List Range → List Range
merge s e [] = (s, e) ∷ []
merge s e (r ∷ rs) =
    if ltb r.1 s
    then r ∷ merge s e rs
    else if ltb e r.0
    then (s, e) ∷ r ∷ rs
    else merge (min r.0 s) (max r.1 e) rs

-- The start and the end of the range that takes the place of those that are touched.
started : ℕ → List Range → ℕ
started s [] = s
started s (r ∷ rs) = if ltb r.1 s then started s rs else min r.0 s

ended : ℕ → List Range → ℕ
ended e [] = e
ended e (r ∷ rs) = if ltb e r.0 then e else max r.1 (ended e rs)

new_start-started :
    (s : ℕ) (rs : List Range) → new_start s (end_count s rs) rs ≡ some (started s rs)
unfolding started
new_start-started s [] = refl
new_start-started s (r ∷ rs) = ground (arith, new_start-started s rs)

le-ended : (e : ℕ) (rs : List Range) → e ≤ ended e rs
unfolding ended
le-ended e [] = omega arith
le-ended e (r ∷ rs) = ground (arith, le-ended e rs)

lt-ended :
    (e n : ℕ) (rs : List Range)
    → StartsAfter n rs
    → IsOrdered rs
    → 0 < start_count e rs
    → n < ended e rs
unfolding ended
lt-ended e n [] s o h = absurd (omega arith)
lt-ended e n (r ∷ rs) s o h = ground arith

new_end-cons :
    (e c v : ℕ) (r : Range) (rs : List Range)
    → new_end e c rs ≡ some v
    → (0 < c → r.1 < v)
    → new_end e (suc c) (r ∷ rs) ≡ some (max r.1 v)
new_end-cons e zero v r rs h k = ground arith
new_end-cons e (suc c) v r rs h k =
    let above : r.1 < v = k (omega arith) in
    let same : max r.1 v ≡ v = omega arith in rw same (ground arith)

new_end-ended :
    (e : ℕ) (rs : List Range) → IsOrdered rs → new_end e (start_count e rs) rs ≡ some (ended e rs)
unfolding ended
new_end-ended e [] o = refl
new_end-ended e (r ∷ rs) o = elim (Bool-cases (ltb e r.0)) [
  | inl t ↦ rw t refl
  | inr t ↦ rw t (
      new_end-cons e (start_count e rs) (ended e rs) r rs (new_end-ended e rs o.2)
        (lt-ended e r.1 rs o.1 o.2))
]

-- With the walk past the start of the merged range, the rest of the insertion drops the ranges
-- that start at or before its end.
merge-drop :
    (s e b : ℕ) (rs : List Range)
    → s ≤ b
    → StartsAfter b rs
    → IsOrdered rs
    → merge s (max b e) rs ≡ (s, max b (ended e rs)) ∷ drop (start_count e rs) rs
unfolding ended
merge-drop s e b [] h a o = refl
merge-drop s e b (r ∷ rs) h a o =
    let over : min r.0 s ≡ s = omega arith in
    let later : max r.1 (max b e) ≡ max r.1 e = omega arith in
    let best : max b (max r.1 (ended e rs)) ≡ max r.1 (ended e rs) = omega arith in
    let passed : ltb r.1 s ≡ false = ground arith in
    elim (Bool-cases (ltb e r.0)) [
      | inl t ↦ let stop : ltb (max b e) r.0 ≡ true = ground arith in rw (passed, t, stop)
      | inr t ↦
          let go : ltb (max b e) r.0 ≡ false = ground arith in
          rw (passed, t, go, over, later, best) (merge-drop s e r.1 rs (omega arith) o.1 o.2)
    ]

splice-merge :
    (s e : ℕ) (rs : List Range)
    → s ≤ e
    → IsOrdered rs
    → splice rs
        (end_count s rs)
        (start_count e rs - end_count s rs)
        ((started s rs, ended e rs) ∷ [])
      ≡ merge s e rs
unfolding started ended
splice-merge s e [] h o = refl
splice-merge s e (r ∷ rs) h o = elim (Bool-cases (ltb r.1 s)) [
  | inl t ↦
      let low : leb s r.1 ≡ false = ground arith in
      let under : ltb e r.0 ≡ false = ground arith in
      let best : max r.1 (ended e rs) ≡ ended e rs = omega (arith, le-ended e rs, ltb→lt r.1 s t) in
      rw (t, low, under, best, suc-sub-suc) (ap (◌∷◌ r) (splice-merge s e rs h o.2))
  | inr t ↦
      let high : leb s r.1 ≡ true = ground arith in
      elim (Bool-cases (ltb e r.0)) [
        | inl u ↦ let lower : min r.0 s ≡ s = ground arith in rw (t, high, u, lower)
        | inr u ↦
            rw (t, high, u, sub-zero) (sym (merge-drop (min r.0 s) e r.1 rs (omega arith) o.1 o.2))
      ]
]

-- For a span with its start not above its end, on sorted disjoint ranges, `add` throws nothing and
-- is the insertion by one walk.
pub add-merge :
    (s e : ℕ) (rs : List Range)
    → s ≤ e
    → IsOrdered rs
    → length rs ≤ 2147483648
    → add s e rs ≡ some (merge s e rs)
unfolding add
add-merge s e rs h o bound =
    let not_below : ltb e s ≡ false = ground arith in
    let le = end_count-le-start_count s e rs h o in
    rw (
      not_below,
      search-end_count s rs 0 o bound (omega arith),
      search-start_count e rs (end_count s rs) o bound le,
      new_start-started,
      new_end-ended e rs o,
      splice-merge s e rs h o,
    )

merge-StartsAfter :
    (n s e : ℕ) (rs : List Range)
    → n < s
    → StartsAfter n rs
    → IsOrdered rs
    → StartsAfter n (merge s e rs)
merge-StartsAfter n s e [] h a o = h
merge-StartsAfter n s e (r ∷ rs) h a o =
    let later : StartsAfter n rs = StartsAfter-le n r.1 rs (omega arith) o.1 in
    let touch = merge-StartsAfter n (min r.0 s) (max r.1 e) rs (omega arith) later o.2 in
    elim (Bool-cases (ltb r.1 s)) [
      | inl t ↦ rw t a
      | inr t ↦ elim (Bool-cases (ltb e r.0)) [ inl u ↦ rw (t, u) h | inr u ↦ rw (t, u) touch ]
    ]

pub merge-IsOrdered : (s e : ℕ) (rs : List Range) → s ≤ e → IsOrdered rs → IsOrdered (merge s e rs)
merge-IsOrdered s e [] h o = (h, tt, tt)
merge-IsOrdered s e (r ∷ rs) h o = elim (Bool-cases (ltb r.1 s)) [
  | inl t ↦
      rw t
        (o.0, merge-StartsAfter r.1 s e rs (ltb→lt r.1 s t) o.1 o.2, merge-IsOrdered s e rs h o.2)
  | inr t ↦ elim (Bool-cases (ltb e r.0)) [
    | inl u ↦ rw (t, u) (h, ltb→lt e r.0 u, o)
    | inr u ↦ rw (t, u) (merge-IsOrdered (min r.0 s) (max r.1 e) rs (omega arith) o.2)
  ]
]

within-hull :
    (a b s e x : ℕ)
    → a ≤ b
    → s ≤ e
    → s ≤ b
    → a ≤ e
    → within (min a s) (max b e) x ≡ (within s e x || within a b x)
within-hull a b s e x h k l m = ground arith

or_left_comm : (a b c : Bool) → (a || (b || c)) ≡ (b || (a || c))
or_left_comm a b c = ground arith

or_assoc : (a b c : Bool) → ((a || b) || c) ≡ (a || (b || c))
or_assoc a b c = ground arith

pub covers-merge :
    (s e x : ℕ) (rs : List Range)
    → s ≤ e
    → IsOrdered rs
    → covers (merge s e rs) x ≡ (within s e x || covers rs x)
covers-merge s e x [] h o = refl
covers-merge s e x (r ∷ rs) h o = elim (Bool-cases (ltb r.1 s)) [
  | inl t ↦
      rw (t, covers-merge s e x rs h o.2)
        (or_left_comm (within r.0 r.1 x) (within s e x) (covers rs x))
  | inr t ↦ elim (Bool-cases (ltb e r.0)) [
    | inl u ↦ rw (t, u)
    | inr u ↦
        let hull = within-hull r.0 r.1 s e x o.0 h (ltb→le r.1 s t) (ltb→le e r.0 u) in
        rw (t, u, covers-merge (min r.0 s) (max r.1 e) x rs (omega arith) o.2, hull)
          (or_assoc (within s e x) (within r.0 r.1 x) (covers rs x))
  ]
]

-- For a span with its start not above its end, on sorted disjoint ranges, `add` throws nothing,
-- keeps the ranges sorted and disjoint, and the new list covers exactly the values of the span and those covered before.
pub add-covers :
    (s e : ℕ) (rs : List Range)
    → s ≤ e
    → IsOrdered rs
    → length rs ≤ 2147483648
    → (rs' : List Range) × (add s e rs ≡ some rs')
      × IsOrdered rs'
      × ((x : ℕ) → covers rs' x ≡ (within s e x || covers rs x))
add-covers s e rs h o b = (
  merge s e rs,
  add-merge s e rs h o b,
  merge-IsOrdered s e rs h o,
  λ x. covers-merge s e x rs h o,
)
