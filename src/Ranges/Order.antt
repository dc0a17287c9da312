-- ===== src/Ranges/Order.antt =====
-- The invariant of a list of ranges, and what the two binary searches return on it.
use vinyl.Common.{
  ℕ, ◌≤◌, ◌<◌, ◌≡◌, Bool, false, ◌&&◌, ◌||◌, some, List, [], ◌∷◌, arith, ltb, leb, length, sym,
}
use mathlib.Core.Path.{fun_ext, subst}
use vinyl.Array.{is_lt, sorted_insertion_index}
use vinyl.Array.InsertionIndex.{leading, AllTrue, IsMonotone, sorted_insertion_index-leading}
use vinyl.Ranges.{Range, start_comparator, end_comparator}

-- The first range starts strictly after `n`.
abbrev pub StartsAfter : ℕ → List Range → Type 0
StartsAfter n [] = Unit
StartsAfter n (r ∷ rs) = n < r.0

-- Each range is a start and an end in this order, and each ends strictly before the next starts:
-- ranges are sorted, and no two overlap or touch.
abbrev pub IsOrdered : List Range → Type 0
IsOrdered [] = Unit
IsOrdered (r ∷ rs) = (r.0 ≤ r.1) × StartsAfter r.1 rs × IsOrdered rs

-- The tests of the two searches: the range starts after the value; it ends at or after it.
abbrev pub starts_above : ℕ → Range → Bool
starts_above v r = ltb v r.0

abbrev pub ends_above : ℕ → Range → Bool
ends_above v r = leb v r.1

starts_above-AllTrue :
    (v n : ℕ) (rs : List Range)
    → v ≤ n
    → StartsAfter n rs
    → IsOrdered rs
    → AllTrue (starts_above v) rs
starts_above-AllTrue v n [] h s o = tt
starts_above-AllTrue v n (r ∷ rs) h s o =
    (ground arith, starts_above-AllTrue v r.1 rs (omega arith) o.1 o.2)

ends_above-AllTrue :
    (v n : ℕ) (rs : List Range)
    → v ≤ n
    → StartsAfter n rs
    → IsOrdered rs
    → AllTrue (ends_above v) rs
ends_above-AllTrue v n [] h s o = tt
ends_above-AllTrue v n (r ∷ rs) h s o =
    (ground arith, ends_above-AllTrue v r.1 rs (omega arith) o.1 o.2)

starts_above-IsMonotone : (v : ℕ) (rs : List Range) → IsOrdered rs → IsMonotone (starts_above v) rs
starts_above-IsMonotone v [] o = tt
starts_above-IsMonotone v (r ∷ rs) o =
    (λ t. starts_above-AllTrue v r.1 rs (ground arith) o.1 o.2, starts_above-IsMonotone v rs o.2)

ends_above-IsMonotone : (v : ℕ) (rs : List Range) → IsOrdered rs → IsMonotone (ends_above v) rs
ends_above-IsMonotone v [] o = tt
ends_above-IsMonotone v (r ∷ rs) o =
    (λ t. ends_above-AllTrue v r.1 rs (ground arith) o.1 o.2, ends_above-IsMonotone v rs o.2)

start_comparator-is_lt : (v : ℕ) → (λ r. is_lt (start_comparator v r)) ≡ starts_above v
start_comparator-is_lt v = fun_ext λ r. ground arith

end_comparator-is_lt : (v : ℕ) → (λ r. is_lt (end_comparator v r)) ≡ ends_above v
end_comparator-is_lt v = fun_ext λ r. ground arith

-- The number of ranges that start at or before a value, and of those that end before it.
abbrev pub start_count : ℕ → List Range → ℕ
start_count v rs = leading (starts_above v) rs

abbrev pub end_count : ℕ → List Range → ℕ
end_count v rs = leading (ends_above v) rs

module _ (v : ℕ) (rs : List Range) (start : ℕ) (o : IsOrdered rs)
    (bound : length rs ≤ 2147483648) where
  pub search-start_count :
      start ≤ start_count v rs
      → sorted_insertion_index rs v start_comparator start (length rs) ≡ some (start_count v rs)
  search-start_count =
      subst
        (λ p.
          start ≤ leading p rs
          → sorted_insertion_index rs v start_comparator start (length rs) ≡ some (leading p rs))
        (start_comparator-is_lt v)
        (sorted_insertion_index-leading rs v start_comparator start
          (subst (λ p. IsMonotone p rs) (sym (start_comparator-is_lt v))
            (starts_above-IsMonotone v rs o))
          bound)

  pub search-end_count :
      start ≤ end_count v rs
      → sorted_insertion_index rs v end_comparator start (length rs) ≡ some (end_count v rs)
  search-end_count =
      subst
        (λ p.
          start ≤ leading p rs
          → sorted_insertion_index rs v end_comparator start (length rs) ≡ some (leading p rs))
        (end_comparator-is_lt v)
        (sorted_insertion_index-leading rs v end_comparator start
          (subst (λ p. IsMonotone p rs) (sym (end_comparator-is_lt v))
            (ends_above-IsMonotone v rs o))
          bound)

-- A range that ends before the value starts before any later value.
pub end_count-le-start_count :
    (v w : ℕ) (rs : List Range) → v ≤ w → IsOrdered rs → end_count v rs ≤ start_count w rs
end_count-le-start_count v w [] h o = omega arith
end_count-le-start_count v w (r ∷ rs) h o = ground (arith, end_count-le-start_count v w rs h o.2)

pub StartsAfter-le : (n m : ℕ) (rs : List Range) → n ≤ m → StartsAfter m rs → StartsAfter n rs
StartsAfter-le n m [] h a = tt
StartsAfter-le n m (r ∷ rs) h a = omega arith

-- The value lies in a range of the list.
abbrev pub within : ℕ → ℕ → ℕ → Bool
within s e x = leb s x && leb x e

abbrev pub covers : List Range → ℕ → Bool
covers [] x = false
covers (r ∷ rs) x = within r.0 r.1 x || covers rs x
