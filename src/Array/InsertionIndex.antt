-- ===== src/Array/InsertionIndex.antt =====
-- The binary search of `sortedInsertionIndex` finds the boundary of the comparison.
use vinyl.Common.{
  ℕ, zero, suc, ◌-◌, ◌≤◌, ◌<◌, ◌≡◌, refl, Bool, true, false, some, List, [], ◌∷◌, inl, inr, arith,
  ◌⊎◌, ◌∙◌, length, get_elem?, Bool-cases, ltb, if◌then◌else◌,
}
use vinyl.Array.{Comparator, is_lt, mid_index, search_loop, sorted_insertion_index}

module _ {ℓ} {T : Type ℓ} where
  -- The number of elements before the first that passes the test.
  abbrev pub leading : (T → Bool) → List T → ℕ
  leading p [] = 0
  leading p (x ∷ xs) = if p x then 0 else suc (leading p xs)

  -- Once an element passes the test, all later ones do.
  abbrev pub AllTrue : (T → Bool) → List T → Type 0
  AllTrue p [] = Unit
  AllTrue p (x ∷ xs) = (p x ≡ true) × AllTrue p xs

  abbrev pub IsMonotone : (T → Bool) → List T → Type 0
  IsMonotone p [] = Unit
  IsMonotone p (x ∷ xs) = (p x ≡ true → AllTrue p xs) × IsMonotone p xs

  leading-le : (p : T → Bool) (xs : List T) → leading p xs ≤ length xs
  leading-le p [] = omega arith
  leading-le p (x ∷ xs) = ground (arith, leading-le p xs)

  get_elem?_of_lt : (xs : List T) (i : ℕ) → i < length xs → (x : T) × (get_elem? xs i ≡ some x)
  get_elem?_of_lt [] i h = absurd (omega arith)
  get_elem?_of_lt (x ∷ xs) zero h = (x, refl)
  get_elem?_of_lt (x ∷ xs) (suc i) h = get_elem?_of_lt xs i (omega arith)

  AllTrue-get_elem? :
      (p : T → Bool) (xs : List T) (i : ℕ) (x : T)
      → AllTrue p xs
      → get_elem? xs i ≡ some x
      → p x ≡ true
  AllTrue-get_elem? p [] i x h e = cc
  AllTrue-get_elem? p (y ∷ xs) zero x h e = ground arith
  AllTrue-get_elem? p (y ∷ xs) (suc i) x h e = AllTrue-get_elem? p xs i x h.1 e

  lt_leading_of_false :
      (p : T → Bool) (xs : List T) (i : ℕ) (x : T)
      → IsMonotone p xs
      → get_elem? xs i ≡ some x
      → p x ≡ false
      → i < leading p xs
  lt_leading_of_false p [] i x m e f = cc
  lt_leading_of_false p (y ∷ xs) zero x m e f = ground arith
  lt_leading_of_false p (y ∷ xs) (suc i) x m e f = elim (Bool-cases (p y)) [
    | inl t ↦ let q = AllTrue-get_elem? p xs i x (m.0 t) e in cc
    | inr t ↦ rw t (omega (arith, lt_leading_of_false p xs i x m.1 e f))
  ]

  leading-le_of_true :
      (p : T → Bool) (xs : List T) (i : ℕ) (x : T)
      → get_elem? xs i ≡ some x
      → p x ≡ true
      → leading p xs ≤ i
  leading-le_of_true p [] i x e t = cc
  leading-le_of_true p (y ∷ xs) zero x e t = ground arith
  leading-le_of_true p (y ∷ xs) (suc i) x e t = ground (arith, leading-le_of_true p xs i x e t)

module _ {ℓ κ} {T : Type ℓ} {U : Type κ} (array : List T) (element : U)
    (comparator : Comparator U T) where
  abbrev pub before : T → Bool
  before x = is_lt (comparator element x)

  -- One round of the loop.
  search_loop_step :
      (fuel a b : ℕ) (x : T)
      → ltb a b ≡ true
      → get_elem? array (mid_index a b) ≡ some x
      → search_loop array element comparator (suc fuel) a b ≡ (
          if before x
          then search_loop array element comparator fuel a (mid_index a b)
          else search_loop array element comparator fuel (suc (mid_index a b)) b)
  unfolding search_loop
  search_loop_step fuel a b x t e = ground arith

  search_loop-leading :
      (fuel a b : ℕ)
      → IsMonotone before array
      → length array ≤ 2147483648
      → b ≤ length array
      → a ≤ leading before array
      → leading before array ≤ b
      → b - a < fuel
      → search_loop array element comparator fuel a b ≡ some (leading before array)
  search_loop-leading zero a b m n h k l f = absurd (omega arith)
  search_loop-leading (suc fuel) a b m n h k l f = elim (Bool-cases (ltb a b)) [
    | inl t ↦
        let (x, e) = get_elem?_of_lt array (mid_index a b) (ground arith) in
        search_loop_step fuel a b x t e
        ∙ next x e t (Bool-cases (before x))
            (search_loop-leading fuel a (mid_index a b) m n (ground arith) k)
            (λ q. search_loop-leading fuel (suc (mid_index a b)) b m n h q l)
    | inr t ↦ unfold search_loop in ground arith
  ]
    where
      next :
          (x : T)
          → get_elem? array (mid_index a b) ≡ some x
          → ltb a b ≡ true
          → (before x ≡ true) ⊎ (before x ≡ false)
          → (leading before array ≤ mid_index a b
              → mid_index a b - a < fuel
              → search_loop array element comparator fuel a (mid_index a b)
                ≡ some (leading before array))
          → (suc (mid_index a b) ≤ leading before array
              → b - suc (mid_index a b) < fuel
              → search_loop array element comparator fuel (suc (mid_index a b)) b
                ≡ some (leading before array))
          → (if before x
              then search_loop array element comparator fuel a (mid_index a b)
              else search_loop array element comparator fuel (suc (mid_index a b)) b)
            ≡ some (leading before array)
      next x e t (inl p) to_left to_right =
          rw p (to_left (leading-le_of_true before array _ x e p) (ground arith))
      next x e t (inr p) to_left to_right =
          rw p (to_right (lt_leading_of_false before array _ x m e p) (ground arith))

  -- On an array sorted for the element and a start not past the boundary, the search returns the
  -- index of the first element that compares above, and never reads out of range.
  pub sorted_insertion_index-leading :
      (start : ℕ)
      → IsMonotone before array
      → length array ≤ 2147483648
      → start ≤ leading before array
      → sorted_insertion_index array element comparator start (length array)
        ≡ some (leading before array)
  unfolding sorted_insertion_index
  sorted_insertion_index-leading start m n h =
      search_loop-leading (suc (length array - start)) start (length array) m n (omega arith) h
        (leading-le before array) (omega arith)
