-- ===== src/TaskQueue/Draining.antt =====
-- Checking a queue starts tasks until none is pending or none may start.
use vinyl.Common.{
  ℕ, zero, suc, ◌+◌, ◌-◌, ◌≤◌, ◌<◌, ◌≡◌, ◌⊎◌, inl, inr, refl, ap, Bool, true, false, Bool-cases,
  not, ◌||◌, Option, List, [], ◌∷◌, ◌++◌, arith, leb, ◌==◌, length, length-append, max,
}
use vinyl.TaskQueue.{
  rejected, Entry, TaskQueue, Operation, enqueue, finish, abort, set_simultaneous, new_queue,
  is_worse, pick, execute, run_next, is_empty, check_loop, check_queue, apply, apply_all,
}

neither : (a b : Bool) → (a || b) ≡ false → (a ≡ false) × (b ≡ false)
neither false b h = (refl, h)
neither true b h = (h, let no : ⊥ = cc in elim no [ ])

module _ {P : Type 0} (throws : ℕ → Bool) (worse : Option (P → P → Bool)) where
  -- No entry is pending, or as many tasks run as may.
  abbrev pub Settled : TaskQueue P → Type 0
  Settled q = (length q.pending ≡ 0) ⊎ (q.simultaneous ≤ q.running)

  free : (q : TaskQueue P) → leb q.simultaneous q.running ≡ false → q.running < q.simultaneous
  free q h = ground arith

  stopped :
      (q : TaskQueue P) → (is_empty q.pending || leb q.simultaneous q.running) ≡ true → Settled q
  stopped q h = rest q.pending refl h
    where
      rest :
          (l : List (Entry P))
          → q.pending ≡ l
          → (is_empty l || leb q.simultaneous q.running) ≡ true
          → Settled q
      rest [] e f = inl (ap length e)
      rest (x ∷ xs) e f = inr (ground arith)

  -- What checking a queue may do to it.
  record Checked (q after : TaskQueue P) : Type 0 where
    shorter : length after.pending ≤ length q.pending
    same_limit : after.simultaneous ≡ q.simultaneous
    bounded : after.running ≤ max q.running q.simultaneous

  length-pick :
      (before : List (Entry P)) (best : Entry P) (behind xs : List (Entry P))
      → let (b, e, a) = pick worse before best behind xs in
        length b + length a ≡ length before + length behind + length xs
  unfolding pick
  length-pick before best behind [] = omega arith
  length-pick before best behind (x ∷ xs) = elim (Bool-cases (is_worse worse best x)) [
    | inl e ↦ rw e (
        omega (
          arith,
          length-pick (before ++ best ∷ behind) x [] xs,
          length-append before (best ∷ behind),
        ))
    | inr e ↦ rw e (
        omega (arith, length-pick before best (behind ++ x ∷ []) xs, length-append behind (x ∷ [])))
  ]

  Checked-refl : (q : TaskQueue P) → Checked q q
  Checked-refl q = record { shorter = omega arith; same_limit = refl; bounded = omega arith }

  Checked-trans : (q r s : TaskQueue P) → Checked q r → Checked r s → Checked q s
  Checked-trans q r s a b = record {
    shorter = omega (arith, a.shorter, b.shorter);
    same_limit = omega (arith, a.same_limit, b.same_limit);
    bounded = omega (arith, a.same_limit, a.bounded, b.bounded);
  }

  execute-Checked :
      (again : TaskQueue P → TaskQueue P)
      → ((r : TaskQueue P) → Checked r (again r))
      → (entry : Entry P) (q : TaskQueue P) → q.running < q.simultaneous
      → Checked q (execute throws again entry q)
  execute-Checked again h entry q free = elim (Bool-cases (not (entry.signal == q.signal))) [
    | inl stale ↦
        (let r : TaskQueue P = record q { events = rejected entry.task ∷ q.events } in
          let c = h r in
          rw stale (record { shorter = c.shorter; same_limit = c.same_limit; bounded = c.bounded }))
    | inr valid ↦ elim (Bool-cases (throws entry.task)) [
      | inl thrown ↦
          rw (valid, thrown)
            (record { shorter = omega arith; same_limit = refl; bounded = omega arith })
      | inr kept ↦
          rw (valid, kept)
            (record { shorter = omega arith; same_limit = refl; bounded = omega (arith, free) })
    ]
  ]

  -- A round takes an entry out.
  record Shortened (q after : TaskQueue P) : Type 0 where
    checked : Checked q after
    less : length after.pending < length q.pending

  run_next-Shortened :
      (again : TaskQueue P → TaskQueue P)
      → ((r : TaskQueue P) → Checked r (again r))
      → (q : TaskQueue P) → is_empty q.pending ≡ false
      → q.running < q.simultaneous
      → Shortened q (run_next throws worse again q.pending q)
  run_next-Shortened again h q filled free = rest q.pending refl filled
    where
      rest :
          (l : List (Entry P))
          → q.pending ≡ l
          → is_empty l ≡ false
          → Shortened q (run_next throws worse again l q)
      rest [] e f = let no : ⊥ = cc in elim no [ ]
      rest (x ∷ xs) e f =
          let (before, best, behind) = pick worse [] x [] xs in
          let r : TaskQueue P = record q { pending = before ++ behind } in
          let c = execute-Checked again h best r free in
          let size : length (before ++ behind) < length q.pending =
            omega (arith, length-append before behind, length-pick [] x [] xs, ap length e) in
          record {
            checked = record {
              shorter = omega (arith, c.shorter, size);
              same_limit = c.same_limit;
              bounded = c.bounded;
            };
            less = omega (arith, c.shorter, size);
          }

  check_loop-Checked : (rounds : ℕ) (q : TaskQueue P) → Checked q (check_loop throws worse rounds q)
  unfolding check_loop
  check_loop-Checked zero q = Checked-refl q
  check_loop-Checked (suc rounds) q =
      elim (Bool-cases (is_empty q.pending || leb q.simultaneous q.running)) [
        | inl stop ↦ rw stop (Checked-refl q)
        | inr go ↦
            (let (filled, room) = neither (is_empty q.pending) (leb q.simultaneous q.running) go in
              let one =
                run_next-Shortened (check_loop throws worse rounds) (check_loop-Checked rounds) q
                  filled (free q room) in
              rw go (Checked-trans q _ _ one.checked (check_loop-Checked rounds _)))
      ]

  -- Rounds are enough when they are more than the entries.
  check_loop-Settled :
      (rounds : ℕ) (q : TaskQueue P)
      → length q.pending < rounds
      → Settled (check_loop throws worse rounds q)
  unfolding check_loop
  check_loop-Settled zero q h = elim h [ ]
  check_loop-Settled (suc rounds) q h =
      elim (Bool-cases (is_empty q.pending || leb q.simultaneous q.running)) [
        | inl stop ↦ rw stop (stopped q stop)
        | inr go ↦
            (let (filled, room) = neither (is_empty q.pending) (leb q.simultaneous q.running) go in
              let one =
                run_next-Shortened (check_loop throws worse rounds) (check_loop-Checked rounds) q
                  filled (free q room) in
              rw go (check_loop-Settled rounds _ (omega (arith, h, one.less))))
      ]

  check_queue-Settled : (q : TaskQueue P) → Settled (check_queue throws worse q)
  unfolding check_queue
  check_queue-Settled q = check_loop-Settled (suc (length q.pending)) q (omega arith)

  apply-Settled : (o : Operation P) (q : TaskQueue P) → Settled q → Settled (apply throws worse o q)
  unfolding apply
  apply-Settled (enqueue priority task) q h = check_queue-Settled (record q {
    pending = q.pending ++ record { priority = priority; task = task; signal = q.signal } ∷ [];
  })
  apply-Settled finish q h = elim (Bool-cases (q.running == 0)) [
    | inl idle ↦ rw idle h
    | inr busy ↦ rw busy (check_queue-Settled (record q { running = q.running - 1 }))
  ]
  apply-Settled abort q h = elim (Bool-cases (q.running == 0)) [
    | inl idle ↦ rw idle h
    | inr busy ↦ rw busy h
  ]
  apply-Settled (set_simultaneous value) q h =
      check_queue-Settled (record q { simultaneous = value })

  apply_all-Settled :
      (os : List (Operation P)) (q : TaskQueue P)
      → Settled q
      → Settled (apply_all throws worse os q)
  apply_all-Settled [] q h = h
  apply_all-Settled (o ∷ os) q h =
      apply_all-Settled os (apply throws worse o q) (apply-Settled o q h)

  -- Whatever is done with a new queue, no task is left waiting while one more may run.
  pub apply_all-new_queue :
      (os : List (Operation P)) → Settled (apply_all throws worse os new_queue)
  apply_all-new_queue os = apply_all-Settled os new_queue (inl refl)

  -- Checking a queue starts tasks up to the limit only: more run afterwards than before only as far
  -- as the limit allows, which stays as it is, and no entry is added.
  pub check_queue-limit :
      (q : TaskQueue P)
      → ((check_queue throws worse q).running ≤ max q.running q.simultaneous)
        × ((check_queue throws worse q).simultaneous ≡ q.simultaneous)
        × (length (check_queue throws worse q).pending ≤ length q.pending)
  unfolding check_queue
  check_queue-limit q =
      let c = check_loop-Checked (suc (length q.pending)) q in (c.bounded, c.same_limit, c.shorter)
