-- ===== src/LinkedList/WalkBack.antt =====
-- The loop of `findLast`, which goes from the end to the start.
use vinyl.Common.{
  ℕ, zero, suc, ◌+◌, ◌-◌, ◌≡◌, refl, Bool, false, not, ◌&&◌, Option, none, some, List, [], ◌∷◌,
  arith, length, if◌then◌else◌, ◌∙◌, ap,
}
use vinyl.LinkedList.{State, find_from, find_last}
use vinyl.LinkedList.Nodes.{last_or}
use vinyl.LinkedList.Segment.{Segment, Holds}
use vinyl.LinkedList.Count.{length_le}

module _ {ℓ} {T : Type ℓ} where
  -- The node, or what `r` says, depending on the node's value.
  abbrev pick : (T → Bool) → ℕ → Option T → Option ℕ → Option ℕ
  pick predicate n none r = r
  pick predicate n (some v) r = if predicate v then some n else r

  -- The last of the nodes whose value the predicate accepts, or else `r`.
  abbrev last_with_or : (ℕ → Option T) → (T → Bool) → List ℕ → Option ℕ → Option ℕ
  last_with_or value predicate [] r = r
  last_with_or value predicate (n ∷ ns) r =
      last_with_or value predicate ns (pick predicate n (value n) r)

  abbrev pub last_with : (ℕ → Option T) → (T → Bool) → List ℕ → Option ℕ
  last_with value predicate ns = last_with_or value predicate ns none

  module _ (predicate : T → Bool) (s : State T) where
    found_at :
        (b : Bool) (n : ℕ) (o : Option T) (r : Option ℕ)
        → b ≡ false
        → (elim o [ none ↦ r | some v ↦ if not b && predicate v then some n else r ])
          ≡ pick predicate n o r
    found_at b n none r e = refl
    found_at b n (some v) r e = rw e refl

    find_from-step :
        (k n : ℕ) (p : Option ℕ)
        → s.previous n ≡ p
        → s.removed n ≡ false
        → find_from (suc k) s.previous predicate (some n) s
          ≡ pick predicate n (s.value n) (find_from k s.previous predicate p s)
    unfolding find_from
    find_from-step k n p e f =
        found_at (s.removed n) n (s.value n) (find_from k s.previous predicate (s.previous n) s) f
        ∙ ap (λ c. pick predicate n (s.value n) (find_from k s.previous predicate c s)) e

    find_from-last_with :
        (ns : List ℕ) (k : ℕ) (p q : Option ℕ)
        → Segment s p ns q
        → find_from (length ns + k) s.previous predicate (last_or ns p) s
          ≡ last_with_or s.value predicate ns (find_from k s.previous predicate p s)
    find_from-last_with [] k p q g = ap (λ m. find_from m s.previous predicate p s) (omega arith)
    find_from-last_with (n ∷ ns) k p q g =
        let moved : suc (length ns) + k ≡ length ns + suc k = omega arith in
        ap (λ m. find_from m s.previous predicate (last_or ns (some n)) s) moved
        ∙ find_from-last_with ns (suc k) (some n) q g.3
        ∙ ap (last_with_or s.value predicate ns) (find_from-step k n p g.0 g.2)

    find_from-none : (k : ℕ) → find_from k s.previous predicate none s ≡ none
    unfolding find_from
    find_from-none zero = refl
    find_from-none (suc k) = refl

    -- `findLast` on a list that holds some nodes: it returns the last of them whose value the
    -- predicate accepts, and null where there is none.
    pub find_last-last_with :
        (ns : List ℕ) → Holds s ns → find_last predicate s ≡ last_with s.value predicate ns
    unfolding find_last
    find_last-last_with ns g =
        let short = length_le s.count ns g.distinct g.known in
        let k = suc s.count - length ns in
        let fuel : suc s.count ≡ length ns + k = omega (arith, short) in
        ap (λ c. find_from (suc s.count) s.previous predicate c s) g.tail
        ∙ ap (λ m. find_from m s.previous predicate (last_or ns none) s) fuel
        ∙ find_from-last_with ns k none none g.linked
        ∙ ap (last_with_or s.value predicate ns) (find_from-none k)
