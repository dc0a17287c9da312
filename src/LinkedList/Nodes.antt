-- ===== src/LinkedList/Nodes.antt =====
-- Lists of nodes: their ends, and that no node stands in one twice.
use vinyl.Common.{
  ℕ, ◌≤◌, ◌<◌, ◌≡◌, ◌≢◌, refl, true, false, Option, none, some, List, [], ◌∷◌, ◌++◌, arith, ◌==◌,
  Bool-cases, inl, inr, sym,
}
use vinyl.LinkedList.{points_to}

-- The first of the nodes, or what follows them; the last, or what goes before.
abbrev pub first_or : List ℕ → Option ℕ → Option ℕ
first_or [] q = q
first_or (n ∷ ns) q = some n

abbrev pub last_or : List ℕ → Option ℕ → Option ℕ
last_or [] p = p
last_or (n ∷ ns) p = last_or ns (some n)

abbrev pub NotIn : ℕ → List ℕ → Type 0
NotIn x [] = Unit
NotIn x (n ∷ ns) = (x ≢ n) × NotIn x ns

abbrev pub Distinct : List ℕ → Type 0
Distinct [] = Unit
Distinct (n ∷ ns) = NotIn n ns × Distinct ns

-- The nodes exist.
abbrev pub Below : ℕ → List ℕ → Type 0
Below k [] = Unit
Below k (n ∷ ns) = (n < k) × Below k ns

pub Below-NotIn : (k : ℕ) (ns : List ℕ) → Below k ns → NotIn k ns
Below-NotIn k [] h = tt
Below-NotIn k (n ∷ ns) h = (ground arith, Below-NotIn k ns h.1)

pub Below-le : (k l : ℕ) (ns : List ℕ) → k ≤ l → Below k ns → Below l ns
Below-le k l [] h b = tt
Below-le k l (n ∷ ns) h b = (omega arith, Below-le k l ns h b.1)

pub Below-append : (k : ℕ) (ns ms : List ℕ) → Below k (ns ++ ms) → Below k ns × Below k ms
Below-append k [] ms h = (tt, h)
Below-append k (n ∷ ns) ms h = let (a, b) = Below-append k ns ms h.1 in ((h.0, a), b)

pub append-Below : (k : ℕ) (ns ms : List ℕ) → Below k ns → Below k ms → Below k (ns ++ ms)
append-Below k [] ms a b = b
append-Below k (n ∷ ns) ms a b = (a.0, append-Below k ns ms a.1 b)

-- An optional node is none of the list.
abbrev pub Apart : Option ℕ → List ℕ → Type 0
Apart none ns = Unit
Apart (some x) ns = NotIn x ns

-- The last of a list that does not hold `x` is not `x`.
pub last_or-ne : (n x : ℕ) (ns : List ℕ) → x ≢ n → NotIn x ns → last_or ns (some n) ≢ some x
last_or-ne n x [] h k = ground arith
last_or-ne n x (m ∷ ns) h k = last_or-ne m x ns k.0 k.1

pub last_none-ne : (x : ℕ) (ns : List ℕ) → NotIn x ns → last_or ns none ≢ some x
last_none-ne x [] h = ground arith
last_none-ne x (n ∷ ns) h = last_or-ne n x ns h.0 h.1

pub first_none-ne : (x : ℕ) (ns : List ℕ) → NotIn x ns → first_or ns none ≢ some x
first_none-ne x [] h e = ground arith
first_none-ne x (n ∷ ns) h e = h.0 (ground arith)

pub last_or-append :
    (ns ms : List ℕ) (p : Option ℕ) → last_or (ns ++ ms) p ≡ last_or ms (last_or ns p)
last_or-append [] ms p = refl
last_or-append (n ∷ ns) ms p = last_or-append ns ms (some n)

pub NotIn-append : (x : ℕ) (ns ms : List ℕ) → NotIn x (ns ++ ms) → NotIn x ns × NotIn x ms
NotIn-append x [] ms h = (tt, h)
NotIn-append x (n ∷ ns) ms h = let (a, b) = NotIn-append x ns ms h.1 in ((h.0, a), b)

pub append-NotIn : (x : ℕ) (ns ms : List ℕ) → NotIn x ns → NotIn x ms → NotIn x (ns ++ ms)
append-NotIn x [] ms h k = k
append-NotIn x (n ∷ ns) ms h k = (h.0, append-NotIn x ns ms h.1 k)

pub points_to-ne : (o : Option ℕ) (x : ℕ) → o ≢ some x → points_to o x ≡ false
points_to-ne none x h = refl
points_to-ne (some p) x h = elim (Bool-cases (p == x)) [
  | inl e ↦ absurd (h (ground arith))
  | inr e ↦ e
]

pub points_to-same : (x : ℕ) → points_to (some x) x ≡ true
points_to-same x = ground arith

-- What a list of distinct nodes gives about a node in the middle.
pub record Middle (ns : List ℕ) (n : ℕ) (ms : List ℕ) : Type 0 where
  pub distinct_before : Distinct ns
  pub distinct_after : Distinct ms
  pub distinct_rest : Distinct (ns ++ ms)
  pub not_before : NotIn n ns
  pub not_after : NotIn n ms
  pub last_apart : Apart (last_or ns none) ms
  pub first_apart : Apart (first_or ms none) ns

first_or-Apart :
    (x : ℕ) (ns ms : List ℕ)
    → Apart (first_or ms none) ns
    → NotIn x ms
    → Apart (first_or ms none) (x ∷ ns)
first_or-Apart x ns [] a h = tt
first_or-Apart x ns (m ∷ ms) a h = ((λ e. h.0 (sym e)), a)

last_or-Apart :
    (x : ℕ) (ns ms : List ℕ)
    → NotIn x ms
    → Apart (last_or ns none) ms
    → Apart (last_or ns (some x)) ms
last_or-Apart x [] ms h a = h
last_or-Apart x (n ∷ ns) ms h a = a

pub Distinct-Middle : (ns : List ℕ) (n : ℕ) (ms : List ℕ) → Distinct (ns ++ n ∷ ms) → Middle ns n ms
Distinct-Middle [] n ms d = record {
  distinct_before = tt;
  distinct_after = d.1;
  distinct_rest = d.1;
  not_before = tt;
  not_after = d.0;
  last_apart = tt;
  first_apart = no_first ms;
}
  where
    no_first : (ms : List ℕ) → Apart (first_or ms none) []
    no_first [] = tt
    no_first (m ∷ ms) = tt
Distinct-Middle (x ∷ ns) n ms d =
    let rest = Distinct-Middle ns n ms d.1 in
    let (left, right) = NotIn-append x ns (n ∷ ms) d.0 in
    record {
      distinct_before = (left, rest.distinct_before);
      distinct_after = rest.distinct_after;
      distinct_rest = (append-NotIn x ns ms left right.1, rest.distinct_rest);
      not_before = ((λ e. right.0 (sym e)), rest.not_before);
      not_after = rest.not_after;
      last_apart = last_or-Apart x ns ms right.1 rest.last_apart;
      first_apart = first_or-Apart x ns ms rest.first_apart right.1;
    }
