-- ===== src/TaskQueue/Picking.antt =====
-- Which entry is executed next.
use vinyl.Common.{
  ◌≡◌, ◌⊎◌, inl, inr, sym, ap, ◌∙◌, subst, Bool, true, false, Bool-cases, Option, List, [], ◌∷◌,
  ◌++◌, append_assoc, append-nil,
}
use vinyl.TaskQueue.{Entry, is_worse, pick}

-- What the scan relies on of a comparator: when one entry is worse than another, each third one is
-- worse than the better one, or the worse one is worse than it.
pub record IsOrder {P : Type 0} (worse : Option (P → P → Bool)) : Type 0 where
  pub between :
      (a b c : Entry P)
      → is_worse worse a c ≡ true
      → (is_worse worse a b ≡ true) ⊎ (is_worse worse b c ≡ true)
  pub transitive :
      (a b c : Entry P)
      → is_worse worse a b ≡ true
      → is_worse worse b c ≡ true
      → is_worse worse a c ≡ true

module _ {P : Type 0} (worse : Option (P → P → Bool)) where
  -- Each of the entries is worse than this one.
  abbrev pub AllWorse : List (Entry P) → Entry P → Type 0
  AllWorse [] best = Unit
  AllWorse (x ∷ xs) best = (is_worse worse x best ≡ true) × AllWorse xs best

  -- This one is not worse than any of the entries.
  abbrev pub NotWorse : Entry P → List (Entry P) → Type 0
  NotWorse best [] = Unit
  NotWorse best (x ∷ xs) = (is_worse worse best x ≡ false) × NotWorse best xs

  -- The entry is the first of those that are not worse than any.
  abbrev pub IsFirstBest : List (Entry P) → List (Entry P) × Entry P × List (Entry P) → Type 0
  IsFirstBest pending (before, best, behind) =
      (pending ≡ before ++ best ∷ behind) × AllWorse before best × NotWorse best behind

  AllWorse-append :
      (xs ys : List (Entry P)) (best : Entry P)
      → AllWorse xs best
      → AllWorse ys best
      → AllWorse (xs ++ ys) best
  AllWorse-append [] ys best h k = k
  AllWorse-append (x ∷ xs) ys best h k = (h.0, AllWorse-append xs ys best h.1 k)

  NotWorse-append :
      (best : Entry P) (xs ys : List (Entry P))
      → NotWorse best xs
      → NotWorse best ys
      → NotWorse best (xs ++ ys)
  NotWorse-append best [] ys h k = k
  NotWorse-append best (x ∷ xs) ys h k = (h.0, NotWorse-append best xs ys h.1 k)

module _ {P : Type 0} (worse : Option (P → P → Bool)) (order : IsOrder worse) where
  -- Under a better one, those before stay worse, and those behind become so.
  AllWorse-better :
      (xs : List (Entry P)) (best x : Entry P)
      → AllWorse worse xs best
      → is_worse worse best x ≡ true
      → AllWorse worse xs x
  AllWorse-better [] best x h e = tt
  AllWorse-better (y ∷ ys) best x h e =
      (order.transitive y best x h.0 e, AllWorse-better ys best x h.1 e)

  NotWorse-better :
      (xs : List (Entry P)) (best x : Entry P)
      → NotWorse worse best xs
      → is_worse worse best x ≡ true
      → AllWorse worse xs x
  NotWorse-better [] best x h e = tt
  NotWorse-better (y ∷ ys) best x h e = elim (order.between best y x e) [
    | inl same ↦ (let no : ⊥ = cc (sym same ∙ h.0) in elim no [ ])
    | inr better ↦ (better, NotWorse-better ys best x h.1 e)
  ]

  pick-scan :
      (before : List (Entry P)) (best : Entry P) (behind xs : List (Entry P))
      → AllWorse worse before best
      → NotWorse worse best behind
      → IsFirstBest worse (before ++ (best ∷ behind ++ xs)) (pick worse before best behind xs)
  unfolding pick
  pick-scan before best behind [] a n = (ap (λ l. before ++ best ∷ l) (append-nil behind), a, n)
  pick-scan before best behind (x ∷ xs) a n = elim (Bool-cases (is_worse worse best x)) [
    | inl e ↦ rw e (
        subst (λ l. IsFirstBest worse l (pick worse (before ++ best ∷ behind) x [] xs))
          (append_assoc before (best ∷ behind) (x ∷ xs))
          (pick-scan (before ++ best ∷ behind) x [] xs
            (AllWorse-append worse before (best ∷ behind) x (AllWorse-better before best x a e)
              (e, NotWorse-better behind best x n e))
            tt))
    | inr e ↦ rw e (
        subst
          (λ l.
            IsFirstBest worse (before ++ best ∷ l) (pick worse before best (behind ++ x ∷ []) xs))
          (append_assoc behind (x ∷ []) xs)
          (pick-scan before best (behind ++ x ∷ []) xs a
            (NotWorse-append worse best behind (x ∷ []) n (e, tt))))
  ]

  -- Of the pending entries, the one that is taken out is the first of those that no entry is better
  -- than: each before it is worse, and it is not worse than any behind it.
  pub pick-IsFirstBest :
      (x : Entry P) (xs : List (Entry P)) → IsFirstBest worse (x ∷ xs) (pick worse [] x [] xs)
  pick-IsFirstBest x xs = pick-scan [] x [] xs tt tt
