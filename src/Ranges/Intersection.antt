-- ===== src/Ranges/Intersection.antt =====
-- packages/vinyl-util/src/util/range/IntersectionRanges.ts: the intersection of several lists of
-- ranges, computed on read, with an optional cache.
use vinyl.Common.{
  ℕ, ◌≤◌, ◌<◌, ◌≡◌, refl, Bool, true, false, List, [], ◌∷◌, ◌++◌, arith, ◌&&◌, ◌||◌, ltb, min, max,
  if◌then◌else◌, ◌⊎◌, inl, inr, Bool-cases,
}
use vinyl.Ranges.{Range}
use vinyl.Ranges.Order.{StartsAfter, StartsAfter-le, IsOrdered}

pub record IntersectionRanges : Type 0 where
  pub backing_ranges : List Range
  pub valid : Bool
  pub inner_ranges : List (List Range)
  pub use_cache : Bool

pub init : List (List Range) → Bool → IntersectionRanges
init inner use_cache = record {
  backing_ranges = [];
  valid = false;
  inner_ranges = inner;
  use_cache = use_cache;
}

pub invalidate : IntersectionRanges → IntersectionRanges
invalidate u = record u { valid = false }

-- `set innerRanges`
pub set_inner_ranges : List (List Range) → IntersectionRanges → IntersectionRanges
unfolding invalidate
set_inner_ranges value u = invalidate (record u { inner_ranges = value })

-- The inner loop of `validate`: one backing range against the ranges of the next list.
pub intersect_one : Range → List Range → List Range
intersect_one back [] = []
intersect_one back (curr ∷ rest) =
    let start = max back.0 curr.0 in
    let end = min back.1 curr.1 in
    if ltb start end then (start, end) ∷ intersect_one back rest else intersect_one back rest

pub intersect_two : List Range → List Range → List Range
unfolding intersect_one
intersect_two [] current = []
intersect_two (back ∷ backing) current = intersect_one back current ++ intersect_two backing current

pub intersect_rest : List Range → List (List Range) → List Range
unfolding intersect_two
intersect_rest backing [] = backing
intersect_rest backing (current ∷ inner) = intersect_rest (intersect_two backing current) inner

pub intersect_all : List (List Range) → List Range
unfolding intersect_rest
intersect_all [] = []
intersect_all (first ∷ inner) = intersect_rest first inner

pub validate : IntersectionRanges → IntersectionRanges
unfolding intersect_all
validate u = record u {
  backing_ranges = intersect_all u.inner_ranges;
  valid = if u.use_cache then true else u.valid;
}

-- `get ranges`: the object after the read. The value read is its `backing_ranges`.
unfoldable pub read_ranges : IntersectionRanges → IntersectionRanges
unfolding validate
read_ranges u = if u.valid then u else validate u

-- The value lies strictly inside a range of the list.
abbrev pub inside : ℕ → ℕ → ℕ → Bool
inside s e x = ltb s x && ltb x e

abbrev pub interior : List Range → ℕ → Bool
interior [] x = false
interior (r ∷ rs) x = inside r.0 r.1 x || interior rs x

-- The value lies strictly inside a range of every list.
abbrev pub all_interior : List (List Range) → ℕ → Bool
all_interior [] x = true
all_interior (rs ∷ inner) x = interior rs x && all_interior inner x

module _ (x : ℕ) where
  interior-append : (xs ys : List Range) → interior (xs ++ ys) x ≡ (interior xs x || interior ys x)
  interior-append [] ys = refl
  interior-append (r ∷ xs) ys = ground (arith, interior-append xs ys)

  interior-intersect_one :
      (back : Range) (rs : List Range)
      → interior (intersect_one back rs) x ≡ (inside back.0 back.1 x && interior rs x)
  unfolding intersect_one
  interior-intersect_one back [] = ground arith
  interior-intersect_one back (curr ∷ rs) = ground (arith, interior-intersect_one back rs)

  interior-intersect_two :
      (xs ys : List Range) → interior (intersect_two xs ys) x ≡ (interior xs x && interior ys x)
  unfolding intersect_two
  interior-intersect_two [] ys = refl
  interior-intersect_two (r ∷ xs) ys = ground (
    arith,
    interior-append (intersect_one r ys) (intersect_two xs ys),
    interior-intersect_one r ys,
    interior-intersect_two xs ys,
  )

  interior-intersect_rest :
      (xs : List Range) (inner : List (List Range))
      → interior (intersect_rest xs inner) x ≡ (interior xs x && all_interior inner x)
  unfolding intersect_rest
  interior-intersect_rest xs [] = ground arith
  interior-intersect_rest xs (ys ∷ inner) =
      ground
        (arith, interior-intersect_rest (intersect_two xs ys) inner, interior-intersect_two xs ys)

-- Intersections of one range with sorted disjoint ranges are sorted and disjoint, and lie within
-- that range.
intersect_one-StartsAfter :
    (n : ℕ) (back : Range) (rs : List Range)
    → (n < back.0) ⊎ StartsAfter n rs
    → IsOrdered rs
    → StartsAfter n (intersect_one back rs)
unfolding intersect_one
intersect_one-StartsAfter n back [] h o = tt
intersect_one-StartsAfter n back (r ∷ rs) h o =
    elim (Bool-cases (ltb (max back.0 r.0) (min back.1 r.1))) [
      | inl t ↦ rw t (elim h [ inl k ↦ omega arith | inr k ↦ omega arith ])
      | inr t ↦ rw t (
          intersect_one-StartsAfter n back rs
            (elim h [ inl k ↦ inl k | inr k ↦ inr (StartsAfter-le n r.1 rs (omega arith) o.1) ])
            o.2)
    ]

intersect_one-IsOrdered :
    (back : Range) (rs : List Range) → IsOrdered rs → IsOrdered (intersect_one back rs)
unfolding intersect_one
intersect_one-IsOrdered back [] o = tt
intersect_one-IsOrdered back (r ∷ rs) o =
    elim (Bool-cases (ltb (max back.0 r.0) (min back.1 r.1))) [
      | inl t ↦ rw t (
        ground arith,
        intersect_one-StartsAfter (min back.1 r.1) back rs
            (inr (StartsAfter-le (min back.1 r.1) r.1 rs (omega arith) o.1)) o.2,
        intersect_one-IsOrdered back rs o.2,
      )
      | inr t ↦ rw t (intersect_one-IsOrdered back rs o.2)
    ]

-- Every range of the list ends at or before the bound.
abbrev EndsBy : ℕ → List Range → Type 0
EndsBy n [] = Unit
EndsBy n (r ∷ rs) = (r.1 ≤ n) × EndsBy n rs

intersect_one-EndsBy : (back : Range) (rs : List Range) → EndsBy back.1 (intersect_one back rs)
unfolding intersect_one
intersect_one-EndsBy back [] = tt
intersect_one-EndsBy back (r ∷ rs) = elim (Bool-cases (ltb (max back.0 r.0) (min back.1 r.1))) [
  | inl t ↦ rw t (omega arith, intersect_one-EndsBy back rs)
  | inr t ↦ rw t (intersect_one-EndsBy back rs)
]

append-StartsAfter :
    (n : ℕ) (xs ys : List Range) → StartsAfter n xs → StartsAfter n ys → StartsAfter n (xs ++ ys)
append-StartsAfter n [] ys h k = k
append-StartsAfter n (r ∷ xs) ys h k = h

append-IsOrdered :
    (n : ℕ) (xs ys : List Range)
    → IsOrdered xs
    → EndsBy n xs
    → StartsAfter n ys
    → IsOrdered ys
    → IsOrdered (xs ++ ys)
append-IsOrdered n [] ys o e a p = p
append-IsOrdered n (r ∷ xs) ys o e a p = (
  o.0,
  append-StartsAfter r.1 xs ys o.1 (StartsAfter-le r.1 n ys e.0 a),
  append-IsOrdered n xs ys o.2 e.1 a p,
)

intersect_two-StartsAfter :
    (n : ℕ) (xs ys : List Range)
    → StartsAfter n xs
    → IsOrdered xs
    → IsOrdered ys
    → StartsAfter n (intersect_two xs ys)
unfolding intersect_two
intersect_two-StartsAfter n [] ys a o p = tt
intersect_two-StartsAfter n (r ∷ xs) ys a o p =
    append-StartsAfter n (intersect_one r ys) (intersect_two xs ys)
      (intersect_one-StartsAfter n r ys (inl a) p)
      (intersect_two-StartsAfter n xs ys (StartsAfter-le n r.1 xs (omega arith) o.1) o.2 p)

intersect_two-IsOrdered :
    (xs ys : List Range) → IsOrdered xs → IsOrdered ys → IsOrdered (intersect_two xs ys)
unfolding intersect_two
intersect_two-IsOrdered [] ys o p = tt
intersect_two-IsOrdered (r ∷ xs) ys o p =
    append-IsOrdered r.1 (intersect_one r ys) (intersect_two xs ys) (intersect_one-IsOrdered r ys p)
      (intersect_one-EndsBy r ys) (intersect_two-StartsAfter r.1 xs ys o.1 o.2 p)
      (intersect_two-IsOrdered xs ys o.2 p)

-- Every list is sorted and disjoint.
abbrev pub AllOrdered : List (List Range) → Type 0
AllOrdered [] = Unit
AllOrdered (rs ∷ inner) = IsOrdered rs × AllOrdered inner

intersect_rest-IsOrdered :
    (xs : List Range) (inner : List (List Range))
    → IsOrdered xs
    → AllOrdered inner
    → IsOrdered (intersect_rest xs inner)
unfolding intersect_rest
intersect_rest-IsOrdered xs [] o p = o
intersect_rest-IsOrdered xs (ys ∷ inner) o p =
    intersect_rest-IsOrdered (intersect_two xs ys) inner (intersect_two-IsOrdered xs ys o p.0) p.1

-- The value read while the cache is not valid, from at least one inner list: a value lies strictly
-- inside one of its ranges exactly when it lies strictly inside a range of every inner list; and
-- if the inner lists are sorted and disjoint, so is the value read.
pub read_ranges-interior :
    (u : IntersectionRanges) (first : List Range) (inner : List (List Range))
    → u.valid ≡ false
    → u.inner_ranges ≡ first ∷ inner
    → ((x : ℕ) → interior (read_ranges u).backing_ranges x ≡ all_interior (first ∷ inner) x)
      × (AllOrdered (first ∷ inner) → IsOrdered (read_ranges u).backing_ranges)
unfolding read_ranges intersect_all
read_ranges-interior u first inner v e =
    rw (v, e)
      (
        λ x. interior-intersect_rest x first inner,
        λ p. intersect_rest-IsOrdered first inner p.0 p.1,
      )
