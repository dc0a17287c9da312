-- ===== src/LinkedList/Count.antt =====
-- A list of distinct nodes is no longer than the number of nodes that exist, so a loop along it
-- needs no more steps than that.
use vinyl.Common.{
  ℕ, zero, suc, ◌≤◌, ◌≡◌, List, [], ◌∷◌, arith, ◌==◌, length, if◌then◌else◌, Bool-cases, inl, inr,
  sym,
}
use vinyl.LinkedList.Nodes.{NotIn, Distinct, Below}

abbrev erase : ℕ → List ℕ → List ℕ
erase x [] = []
erase x (n ∷ ns) = if n == x then ns else n ∷ erase x ns

length-erase : (x : ℕ) (ns : List ℕ) → length ns ≤ suc (length (erase x ns))
length-erase x [] = omega arith
length-erase x (n ∷ ns) = elim (Bool-cases (n == x)) [
  | inl e ↦ rw e (omega arith)
  | inr e ↦ rw e (omega (arith, length-erase x ns))
]

erase-NotIn : (y x : ℕ) (ns : List ℕ) → NotIn y ns → NotIn y (erase x ns)
erase-NotIn y x [] h = tt
erase-NotIn y x (n ∷ ns) h = elim (Bool-cases (n == x)) [
  | inl e ↦ rw e h.1
  | inr e ↦ rw e (h.0, erase-NotIn y x ns h.1)
]

erase-Distinct : (x : ℕ) (ns : List ℕ) → Distinct ns → Distinct (erase x ns)
erase-Distinct x [] d = tt
erase-Distinct x (n ∷ ns) d = elim (Bool-cases (n == x)) [
  | inl e ↦ rw e d.1
  | inr e ↦ rw e (erase-NotIn n x ns d.0, erase-Distinct x ns d.1)
]

Below-shrink : (k : ℕ) (ns : List ℕ) → NotIn k ns → Below (suc k) ns → Below k ns
Below-shrink k [] h b = tt
Below-shrink k (n ∷ ns) h b = (ground arith, Below-shrink k ns h.1 b.1)

erase-Below : (k : ℕ) (ns : List ℕ) → Distinct ns → Below (suc k) ns → Below k (erase k ns)
erase-Below k [] d b = tt
erase-Below k (n ∷ ns) d b = elim (Bool-cases (n == k)) [
  | inl e ↦
      let same : n ≡ k = ground arith in
      rw e (Below-shrink k ns (transport_NotIn n k ns same d.0) b.1)
  | inr e ↦ rw e (ground arith, erase-Below k ns d.1 b.1)
]
  where
    transport_NotIn : (n k : ℕ) (ns : List ℕ) → n ≡ k → NotIn n ns → NotIn k ns
    transport_NotIn n k ns e h = rw (sym e) h

pub length_le : (k : ℕ) (ns : List ℕ) → Distinct ns → Below k ns → length ns ≤ k
length_le zero [] d b = omega arith
length_le zero (n ∷ ns) d b = omega (arith, b.0)
length_le (suc k) ns d b = omega (
  arith,
  length-erase k ns,
  length_le k (erase k ns) (erase-Distinct k ns d) (erase-Below k ns d b),
)
