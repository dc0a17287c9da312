-- ===== src/Array.antt =====
-- packages/vinyl-util/src/util/collection/array.ts: the binary search for an insertion index, and
-- the type of comparators from packages/vinyl-util/src/util/comparison/compare.ts.
pub mod InsertionIndex
use vinyl.Common.{
  ℕ, zero, suc, ◌+◌, ◌-◌, ◌/◌, ◌%◌, ◌^◌, Bool, true, false, Option, none, some, List, Ordering, ltb,
  length, get_elem?, ◌>>=◌,
}

-- `Comparator<U, T>`: `lt`, `eq` and `gt` stand for a result below, at and above zero.
abbrev pub Comparator {ℓ κ} : Type ℓ → Type κ → Type (ℓ ⊔ κ)
Comparator U T = U → T → Ordering

-- `comparison < 0`
abbrev pub is_lt : Ordering → Bool
is_lt Ordering.lt = true
is_lt _ = false

-- `(a + b) >>> 1`, on a 32-bit word
abbrev pub mid_index : ℕ → ℕ → ℕ
mid_index a b = ((a + b) % 4294967296) / 2

module _ {ℓ κ} {T : Type ℓ} {U : Type κ} where
  -- The loop of `sortedInsertionIndex`, with fuel. `none` is a read past the end of the array, on
  -- which the comparators of the source throw, or fuel that ran out.
  pub search_loop : List T → U → Comparator U T → ℕ → ℕ → ℕ → Option ℕ
  search_loop array element comparator zero a b = none
  search_loop array element comparator (suc fuel) a b =
      let mid = mid_index a b in
      let left = search_loop array element comparator fuel a mid in
      let right = search_loop array element comparator fuel (suc mid) b in
      let body = (do
        x ← get_elem? array mid
        elim (is_lt (comparator element x)) [ true ↦ left | false ↦ right ]) in
      elim (ltb a b) [ true ↦ body | false ↦ some a ]

  -- The range shrinks in each round, so its width is fuel enough.
  unfoldable pub sorted_insertion_index : List T → U → Comparator U T → ℕ → ℕ → Option ℕ
  unfolding search_loop
  sorted_insertion_index array element comparator start end =
      search_loop array element comparator (suc (end - start)) start end
