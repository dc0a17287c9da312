-- ===== src/LinkedList/Walk.antt =====
-- The loops along the chain: `forEach`, `find`, `some` and `clear`.
use vinyl.Common.{
  ℕ, zero, suc, ◌<◌, ◌≡◌, refl, Bool, true, false, not, ◌&&◌, Option, none, some, List, [], ◌∷◌,
  arith, length, if◌then◌else◌, sym, ◌∙◌, ap, subst,
}
use vinyl.LinkedList.{
  State, set_removed, for_each_from, for_each, find_from, find, mark_removed, clear,
}
use vinyl.LinkedList.Nodes.{first_or, Distinct}
use vinyl.LinkedList.Segment.{Segment, Holds, Segment-set_removed}
use vinyl.LinkedList.Count.{length_le}

module _ {ℓ} {T : Type ℓ} where
  abbrev pub prepend : Option T → List T → List T
  prepend none vs = vs
  prepend (some v) vs = v ∷ vs

  -- The values of these nodes.
  abbrev pub values : (ℕ → Option T) → List ℕ → List T
  values value [] = []
  values value (n ∷ ns) = prepend (value n) (values value ns)

  -- The first of the nodes whose value the predicate accepts.
  abbrev pub first_with : (ℕ → Option T) → (T → Bool) → List ℕ → Option ℕ
  first_with value predicate [] = none
  first_with value predicate (n ∷ ns) = elim (value n) [
    | none ↦ first_with value predicate ns
    | some v ↦ if predicate v then some n else first_with value predicate ns
  ]

  shown : (o : Option T) (r : List T) → (elim o [ none ↦ r | some v ↦ v ∷ r ]) ≡ prepend o r
  shown none r = refl
  shown (some v) r = refl

  for_each_from-values :
      (fuel : ℕ) (p : Option ℕ) (ns : List ℕ) (s : State T)
      → length ns < fuel
      → Segment s p ns none
      → for_each_from fuel (first_or ns none) s ≡ values s.value ns
  unfolding for_each_from
  for_each_from-values zero p ns s h g = absurd (omega (arith, h))
  for_each_from-values (suc fuel) p [] s h g = refl
  for_each_from-values (suc fuel) p (n ∷ ns) s h g =
      let rest : for_each_from fuel (s.next n) s ≡ values s.value ns =
        ap (λ c. for_each_from fuel c s) g.1
        ∙ for_each_from-values fuel (some n) ns s (omega (arith, h)) g.3 in
      rw (g.2, sym rest) (shown (s.value n) (for_each_from fuel (s.next n) s))

  pub for_each-values : (ns : List ℕ) (s : State T) → Holds s ns → for_each s ≡ values s.value ns
  unfolding for_each
  for_each-values ns s g =
      let short = length_le s.count ns g.distinct g.known in
      ap (λ c. for_each_from (suc s.count) c s) g.head
      ∙ (for_each_from-values (suc s.count) none ns s (omega (arith, short)) g.linked)

  found_at :
      (b : Bool) (n : ℕ) (predicate : T → Bool) (o : Option T) (r : Option ℕ)
      → b ≡ false
      → (elim o [ none ↦ r | some v ↦ if not b && predicate v then some n else r ])
        ≡ elim o [ none ↦ r | some v ↦ if predicate v then some n else r ]
  found_at b n predicate none r e = refl
  found_at b n predicate (some v) r e = rw e refl

  find_from-first_with :
      (fuel : ℕ) (predicate : T → Bool) (p : Option ℕ) (ns : List ℕ) (s : State T)
      → length ns < fuel
      → Segment s p ns none
      → find_from fuel s.next predicate (first_or ns none) s ≡ first_with s.value predicate ns
  unfolding find_from
  find_from-first_with zero predicate p ns s h g = absurd (omega (arith, h))
  find_from-first_with (suc fuel) predicate p [] s h g = refl
  find_from-first_with (suc fuel) predicate p (n ∷ ns) s h g =
      let rest : find_from fuel s.next predicate (s.next n) s ≡ first_with s.value predicate ns =
        ap (λ c. find_from fuel s.next predicate c s) g.1
        ∙ find_from-first_with fuel predicate (some n) ns s (omega (arith, h)) g.3 in
      ap
        (λ (r : Option ℕ). elim (s.value n) [
          | none ↦ r
          | some v ↦ if not (s.removed n) && predicate v then some n else r
        ])
        rest
      ∙ found_at (s.removed n) n predicate (s.value n) (first_with s.value predicate ns) g.2

  -- `find` on a list that holds some nodes: it returns the first of them whose value the predicate
  -- accepts, and null where there is none.
  find-first_with :
      (predicate : T → Bool) (ns : List ℕ) (s : State T)
      → Holds s ns
      → find predicate s ≡ first_with s.value predicate ns
  unfolding find
  find-first_with predicate ns s g =
      let short = length_le s.count ns g.distinct g.known in
      ap (λ c. find_from (suc s.count) s.next predicate c s) g.head
      ∙ (find_from-first_with (suc s.count) predicate none ns s (omega (arith, short)) g.linked)

  abbrev pub AllRemoved : State T → List ℕ → Type 0
  AllRemoved s [] = Unit
  AllRemoved s (n ∷ ns) = (s.removed n ≡ true) × AllRemoved s ns

  mark_removed-keeps :
      (fuel : ℕ) (c : Option ℕ) (x : ℕ) (s : State T)
      → s.removed x ≡ true
      → (mark_removed fuel c s).removed x ≡ true
  unfolding mark_removed
  mark_removed-keeps zero c x s e = e
  mark_removed-keeps (suc fuel) none x s e = e
  mark_removed-keeps (suc fuel) (some n) x s e =
      mark_removed-keeps fuel (s.next n) x (set_removed n true s) (ground arith)

  mark_removed-AllRemoved :
      (fuel : ℕ) (p : Option ℕ) (ns : List ℕ) (s : State T)
      → length ns < fuel
      → Distinct ns
      → Segment s p ns none
      → AllRemoved (mark_removed fuel (first_or ns none) s) ns
  unfolding mark_removed
  mark_removed-AllRemoved zero p ns s h d g = absurd (omega (arith, h))
  mark_removed-AllRemoved (suc fuel) p [] s h d g = tt
  mark_removed-AllRemoved (suc fuel) p (n ∷ ns) s h d g =
      let marked = set_removed n true s in
      let rest = Segment-set_removed s n true (some n) none ns d.0 g.3 in
      let following = sym (ap (λ c. mark_removed fuel c marked) g.1) in
      subst (λ t. AllRemoved t (n ∷ ns)) following
        (
          mark_removed-keeps fuel (first_or ns none) n marked (ground arith),
          mark_removed-AllRemoved fuel (some n) ns marked (omega (arith, h)) d.1 rest,
        )

  AllRemoved-other :
      (h t : Option ℕ) (ns : List ℕ) (s : State T)
      → AllRemoved s ns
      → AllRemoved (record s { head = h; tail = t }) ns
  AllRemoved-other h t [] s a = tt
  AllRemoved-other h t (n ∷ ns) s a = (a.0, AllRemoved-other h t ns s a.1)

  -- `clear` of a list that holds some nodes: the list holds none after it, and each of the nodes is
  -- marked as removed.
  clear-Holds :
      (ns : List ℕ) (s : State T) → Holds s ns → Holds (clear s) [] × AllRemoved (clear s) ns
  unfolding clear
  clear-Holds ns s g =
      let short = length_le s.count ns g.distinct g.known in
      let marked =
        mark_removed-AllRemoved (suc s.count) none ns s (omega (arith, short)) g.distinct
          g.linked in
      let begun = sym (ap (λ c. mark_removed (suc s.count) c s) g.head) in
      (
        record { linked = tt; head = refl; tail = refl; distinct = tt; known = tt },
        AllRemoved-other none none ns (mark_removed (suc s.count) s.head s)
            (subst (λ t. AllRemoved t ns) begun marked),
      )
