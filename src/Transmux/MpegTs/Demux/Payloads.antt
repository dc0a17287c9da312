-- ===== src/Transmux/MpegTs/Demux/Payloads.antt =====
-- Each demuxed stream is made of the payloads of the packets with its PID.
use vinyl.Common.{
  ℕ, zero, suc, ◌+◌, ◌≡◌, refl, sym, ap, ◌∙◌, subst, true, false, Bool-cases, Option-cases, inl,
  inr, not, ◌&&◌, Option, none, some, List, [], ◌∷◌, ◌++◌, append_assoc, append-nil, arith, ltb,
  ◌==◌, if◌then◌else◌,
}
use vinyl.Transmux.MpegTs.{ts_packet_size, parse_ts_packet_header}
use vinyl.Transmux.MpegTs.Demux.{
  Buffers, lookup, assign, is_skipped, payload_start, slice, push_payload, collect, second_pass,
}

-- The payload of the packet at the offset, when its PID is the given one: none or one.
abbrev payload_from : List ℕ → ℕ → Option ℕ → List (List ℕ)
payload_from segment i none = []
payload_from segment i (some start) =
    if ltb start (i + ts_packet_size) then slice segment start (i + ts_packet_size) ∷ [] else []

pub payload_at : List ℕ → ℕ → ℕ → List (List ℕ)
payload_at segment i pid =
    if not (is_skipped segment i) && ((parse_ts_packet_header segment i).pid == pid)
    then payload_from segment i (payload_start segment i)
    else []

-- The payloads with a PID of that many packets, from an offset, in order.
abbrev pub payloads : ℕ → List ℕ → ℕ → ℕ → List (List ℕ)
payloads zero segment i pid = []
payloads (suc packets) segment i pid =
    payload_at segment i pid ++ payloads packets segment (i + ts_packet_size) pid

-- To each list of buffers what a function gives for its PID.
abbrev pub fill : (ℕ → List (List ℕ)) → Buffers → Buffers
fill f [] = []
fill f ((pid, own) ∷ rest) = (pid, own ++ f pid) ∷ fill f rest

abbrev pub Absent : ℕ → Buffers → Type 0
Absent pid [] = Unit
Absent pid ((p, own) ∷ rest) = ((p == pid) ≡ false) × Absent pid rest

-- No PID has two lists.
abbrev pub Distinct : Buffers → Type 0
Distinct [] = Unit
Distinct ((p, own) ∷ rest) = Absent p rest × Distinct rest

fill-nil : (f : ℕ → List (List ℕ)) (bs : Buffers) → ((pid : ℕ) → f pid ≡ []) → fill f bs ≡ bs
fill-nil f [] h = refl
fill-nil f ((p, own) ∷ rest) h =
    λ i. (p, (ap (λ l. own ++ l) (h p) ∙ append-nil own) i) ∷ fill-nil f rest h i

equal_sym : (a b : ℕ) → (a == b) ≡ false → (b == a) ≡ false
equal_sym a b e = ground arith

-- A function that adds to one PID only.
record AddsTo (pid : ℕ) (f : ℕ → List (List ℕ)) (x : List (List ℕ)) : Type 0 where
  own : f pid ≡ x
  others : (p : ℕ) → (p == pid) ≡ false → f p ≡ []

fill-Absent :
    (pid : ℕ) (f : ℕ → List (List ℕ)) (x : List (List ℕ)) (bs : Buffers)
    → AddsTo pid f x
    → Absent pid bs
    → fill f bs ≡ bs
fill-Absent pid f x [] adds h = refl
fill-Absent pid f x ((p, own) ∷ rest) adds (other, h) = λ i.
    (p, (ap (λ l. own ++ l) (adds.others p other) ∙ append-nil own) i)
    ∷ fill-Absent pid f x rest adds h i

lookup-Absent : (pid : ℕ) (bs : Buffers) → lookup pid bs ≡ none → Absent pid bs
lookup-Absent pid [] e = tt
lookup-Absent pid ((p, own) ∷ rest) e = elim (Bool-cases (p == pid)) [
  | inl same ↦ (let no : ⊥ = cc (rw same at e) in elim no [ ])
  | inr other ↦ (other, lookup-Absent pid rest (rw other at e))
]

assign-fill :
    (pid : ℕ) (f : ℕ → List (List ℕ)) (x own : List (List ℕ)) (bs : Buffers)
    → AddsTo pid f x
    → Distinct bs
    → lookup pid bs ≡ some own
    → assign pid (own ++ x) bs ≡ fill f bs
assign-fill pid f x own [] adds d e = let no : ⊥ = cc in elim no [ ]
assign-fill pid f x own ((p, mine) ∷ rest) adds (absent, d) e = elim (Bool-cases (p == pid)) [
  | inl same ↦
      (let same_pid : p ≡ pid = ground arith in
        let same_own : some mine ≡ some own = rw same at e in
        let added : own ++ x ≡ mine ++ f p = cc (ap f same_pid ∙ adds.own) in
        let kept =
          sym (fill-Absent pid f x rest adds (subst (λ q. Absent q rest) same_pid absent)) in
        rw same (λ i. (p, added i) ∷ kept i))
  | inr other ↦
      (let kept : mine ≡ mine ++ f p =
          sym (ap (λ l. mine ++ l) (adds.others p other) ∙ append-nil mine) in
        rw other (λ i. (p, kept i) ∷ assign-fill pid f x own rest adds d (rw other at e) i))
]

payload_at-AddsTo :
    (segment : List ℕ) (i : ℕ)
    → is_skipped segment i ≡ false
    → AddsTo
        (parse_ts_packet_header segment i).pid
        (payload_at segment i)
        (payload_from segment i (payload_start segment i))
unfolding payload_at
payload_at-AddsTo segment i e =
    let pid = (parse_ts_packet_header segment i).pid in
    let same : (pid == pid) ≡ true = ground arith in
    record {
      own = rw (e, same) refl;
      others = λ p other. (let turned = equal_sym p pid other in rw (e, turned) refl);
    }

payload_at-skipped :
    (segment : List ℕ) (i pid : ℕ) → is_skipped segment i ≡ true → payload_at segment i pid ≡ []
unfolding payload_at
payload_at-skipped segment i pid e = rw e refl

fill-AddsTo_nothing :
    (pid : ℕ) (f : ℕ → List (List ℕ)) (bs : Buffers) → AddsTo pid f [] → bs ≡ fill f bs
fill-AddsTo_nothing pid f bs adds = sym (fill-nil f bs nothing)
  where
    nothing : (p : ℕ) → f p ≡ []
    nothing p = elim (Bool-cases (p == pid)) [
      | inl same ↦ (let e : p ≡ pid = ground arith in ap f e ∙ adds.own)
      | inr other ↦ adds.others p other
    ]

push_payload-fill :
    (segment : List ℕ) (i pid : ℕ) (start : Option ℕ) (f : ℕ → List (List ℕ)) (own : List (List ℕ))
    (bs : Buffers)
    → AddsTo pid f (payload_from segment i start)
    → Distinct bs
    → lookup pid bs ≡ some own
    → push_payload segment i pid start own bs ≡ fill f bs
push_payload-fill segment i pid none f own bs adds d e = fill-AddsTo_nothing pid f bs adds
push_payload-fill segment i pid (some start) f own bs adds d e =
    elim (Bool-cases (ltb start (i + ts_packet_size))) [
      | inl inside ↦ rw inside (assign-fill pid f _ own bs (rw inside at adds) d e)
      | inr outside ↦ rw outside (fill-AddsTo_nothing pid f bs (rw outside at adds))
    ]

-- A packet adds its payload to the buffers of its PID.
collect-fill :
    (segment : List ℕ) (i : ℕ) (bs : Buffers)
    → Distinct bs
    → collect segment i bs ≡ fill (payload_at segment i) bs
unfolding collect
collect-fill segment i bs d =
    let pid = (parse_ts_packet_header segment i).pid in
    elim (Bool-cases (is_skipped segment i)) [
      | inl skipped ↦
          rw skipped
            (sym (fill-nil (payload_at segment i) bs (λ p. payload_at-skipped segment i p skipped)))
      | inr taken ↦
          (let adds = payload_at-AddsTo segment i taken in
            elim (Option-cases (lookup pid bs)) [
              | inl missing ↦
                  rw (taken, missing)
                    (sym (
                      fill-Absent pid (payload_at segment i) _ bs adds
                        (lookup-Absent pid bs missing)))
              | inr (own, found) ↦
                  rw (taken, found)
                    (push_payload-fill segment i pid (payload_start segment i)
                      (payload_at segment i) own bs adds d found)
            ])
    ]

Absent-fill :
    (pid : ℕ) (f : ℕ → List (List ℕ)) (bs : Buffers) → Absent pid bs → Absent pid (fill f bs)
Absent-fill pid f [] h = tt
Absent-fill pid f ((p, own) ∷ rest) h = (h.0, Absent-fill pid f rest h.1)

Distinct-fill : (f : ℕ → List (List ℕ)) (bs : Buffers) → Distinct bs → Distinct (fill f bs)
Distinct-fill f [] h = tt
Distinct-fill f ((p, own) ∷ rest) h = (Absent-fill p f rest h.0, Distinct-fill f rest h.1)

fill-fill :
    (f g : ℕ → List (List ℕ)) (bs : Buffers) → fill g (fill f bs) ≡ fill (λ p. f p ++ g p) bs
fill-fill f g [] = refl
fill-fill f g ((p, own) ∷ rest) = λ i. (p, append_assoc own (f p) (g p) i) ∷ fill-fill f g rest i

-- The second pass adds to each list of buffers the payloads with its PID.
pub second_pass-fill :
    (packets : ℕ) (segment : List ℕ) (i : ℕ) (bs : Buffers)
    → Distinct bs
    → second_pass packets segment i bs ≡ fill (payloads packets segment i) bs
unfolding second_pass
second_pass-fill zero segment i bs d = sym (fill-nil (payloads 0 segment i) bs (λ p. refl))
second_pass-fill (suc packets) segment i bs d =
    let next = i + ts_packet_size in
    let f = payload_at segment i in
    ap (second_pass packets segment next) (collect-fill segment i bs d)
    ∙ second_pass-fill packets segment next (fill f bs) (Distinct-fill f bs d)
    ∙ fill-fill f (payloads packets segment next) bs
