-- ===== src/Ranges/Union.antt =====
-- packages/vinyl-util/src/util/range/UnionRanges.ts: the union of several lists of ranges,
-- computed on read, with an optional cache.
use vinyl.Common.{
  ℕ, ◌+◌, ◌≤◌, ◌≡◌, refl, Bool, true, false, Option, some, List, [], ◌∷◌, arith, ◌||◌, length,
  if◌then◌else◌, ◌>>=◌, ◌∙◌, Bool-cases, inl, inr, ap,
}
use vinyl.Ranges.{Range, add_all}
use vinyl.Ranges.Order.{covers, IsOrdered}
use vinyl.Ranges.Constructor.{add_all-covers}

pub record UnionRanges : Type 0 where
  pub backing_ranges : List Range
  pub valid : Bool
  pub inner_ranges : List (List Range)
  pub use_cache : Bool

-- The constructor: nothing is computed before the first read.
pub init : List (List Range) → Bool → UnionRanges
init inner use_cache = record {
  backing_ranges = [];
  valid = false;
  inner_ranges = inner;
  use_cache = use_cache;
}

pub invalidate : UnionRanges → UnionRanges
invalidate u = record u { valid = false }

-- `set innerRanges`
pub set_inner_ranges : List (List Range) → UnionRanges → UnionRanges
unfolding invalidate
set_inner_ranges value u = invalidate (record u { inner_ranges = value })

-- The loops of `validate`: every range of every inner list is added in turn.
pub add_inner : List (List Range) → List Range → Option (List Range)
add_inner [] backing = some backing
add_inner (rs ∷ inner) backing = do added ← add_all rs backing; add_inner inner added

pub validate : UnionRanges → Option UnionRanges
unfolding add_inner
validate u = do
  computed ← add_inner u.inner_ranges []
  some (record u { backing_ranges = computed; valid = if u.use_cache then true else u.valid })

-- `get ranges`: the object after the read. The value read is its `backing_ranges`.
pub read_ranges : UnionRanges → Option UnionRanges
unfolding validate
read_ranges u = if u.valid then some u else validate u

-- The number of ranges in all of the lists.
abbrev pub total : List (List Range) → ℕ
total [] = 0
total (rs ∷ inner) = length rs + total inner

-- The value is covered by one of the lists.
abbrev pub any_covers : List (List Range) → ℕ → Bool
any_covers [] x = false
any_covers (rs ∷ inner) x = covers rs x || any_covers inner x

-- What a cache that is in use holds: the union of the inner lists as they are.
pub record IsCurrent (u : UnionRanges) : Type 0 where
  pub ordered : IsOrdered u.backing_ranges
  pub current : (x : ℕ) → covers u.backing_ranges x ≡ any_covers u.inner_ranges x

or_swap : (a b c : Bool) → (a || (b || c)) ≡ ((b || a) || c)
or_swap a b c = ground arith

add_inner-covers :
    (inner : List (List Range)) (acc : List Range)
    → IsOrdered acc
    → length acc + total inner ≤ 2147483648
    → (out : List Range) × (add_inner inner acc ≡ some out)
      × IsOrdered out
      × ((x : ℕ) → covers out x ≡ (any_covers inner x || covers acc x))
unfolding add_inner
add_inner-covers [] acc o b = (acc, refl, o, λ x. refl)
add_inner-covers (rs ∷ inner) acc o b =
    let (mid, run, ordered, cover, size) = add_all-covers rs acc o (omega arith) in
    let (out, run', ordered', cover') = add_inner-covers inner mid ordered (omega arith) in
    (
      out,
      rw run run',
      ordered',
      λ x. cover' x ∙ rw (cover x) (or_swap (any_covers inner x) (covers rs x) (covers acc x)),
    )

or_false : (a : Bool) → (a || false) ≡ a
or_false a = ground arith

-- A read throws nothing, for an object that is not marked valid while its cache is off, and whose
-- backing ranges are current if it is marked valid. The ranges read are sorted and disjoint and
-- cover exactly what one of the inner lists covers, the lists stay as they are, and the object is
-- marked valid exactly if its cache is on: with the cache off the next read computes again.
pub read_ranges-covers :
    (u : UnionRanges)
    → total u.inner_ranges ≤ 2147483648
    → (u.use_cache ≡ false → u.valid ≡ false)
    → (u.valid ≡ true → IsCurrent u)
    → (u' : UnionRanges) × (read_ranges u ≡ some u')
      × IsCurrent u'
      × (u'.inner_ranges ≡ u.inner_ranges)
      × (u'.use_cache ≡ u.use_cache)
      × (u'.valid ≡ u.use_cache)
unfolding read_ranges
read_ranges-covers u b off k = elim (Bool-cases u.valid) [
  | inl t ↦ (u, rw t refl, k t, refl, refl, ground arith)
  | inr t ↦
      let (out, run, ordered, cover) = add_inner-covers u.inner_ranges [] tt (omega arith) in
      (
        record u { backing_ranges = out; valid = if u.use_cache then true else u.valid },
        rw (t, run) refl,
        record {
          ordered = ordered;
          current = λ x. cover x ∙ or_false (any_covers u.inner_ranges x);
        },
        refl,
        refl,
        ground arith,
      )
]

-- With the cache off, ranges that were added to the inner lists or removed from them since the last
-- read are seen by the next, without `invalidate`.
read_ranges-uncached :
    (u : UnionRanges) (inner : List (List Range))
    → total u.inner_ranges ≤ 2147483648
    → total inner ≤ 2147483648
    → u.use_cache ≡ false
    → u.valid ≡ false
    → (u' u'' : UnionRanges) × (read_ranges u ≡ some u')
      × (read_ranges (record u' { inner_ranges = inner }) ≡ some u'')
      × IsOrdered u''.backing_ranges
      × ((x : ℕ) → covers u''.backing_ranges x ≡ any_covers inner x)
read_ranges-uncached u inner b b' c v =
    let (u', run, _, _, use_kept, now_valid) = read_ranges-covers u b (λ _. v) (λ e. cc) in
    let (u'', run', current, same, _, _) =
      read_ranges-covers (record u' { inner_ranges = inner }) b' (λ _. cc) (λ e. cc) in
    (
      u',
      u'',
      run,
      run',
      current.ordered,
      λ x. current.current x ∙ ap (λ (l : List (List Range)). any_covers l x) same,
    )

-- After an assignment of the inner lists the next read throws nothing and gives sorted disjoint
-- ranges that cover exactly what the new lists cover, whatever was cached before.
pub read_ranges-set_inner_ranges :
    (u : UnionRanges) (inner : List (List Range))
    → total inner ≤ 2147483648
    → (u' : UnionRanges) × (read_ranges (set_inner_ranges inner u) ≡ some u')
      × IsOrdered u'.backing_ranges
      × ((x : ℕ) → covers u'.backing_ranges x ≡ any_covers inner x)
unfolding set_inner_ranges
read_ranges-set_inner_ranges u inner b =
    let (u', run, c, same, _, _) =
      read_ranges-covers (set_inner_ranges inner u) b (λ _. refl) (λ e. cc) in
    (u', run, c.ordered, λ x. c.current x ∙ ap (λ (l : List (List Range)). any_covers l x) same)
