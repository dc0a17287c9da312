-- ===== src/TaskQueue.antt =====
-- packages/vinyl-util/src/util/async/TaskQueue.ts: tasks that run a few at a time, by priority.
-- `pending` is the list of the entries in their order. `worse a b` says that the comparator gives a
-- positive number; there may be no comparator. `throws` says which tasks throw at once. A task is a
-- number, and it does not call the queue while it is started.
pub mod Draining
pub mod Picking
use vinyl.Common.{
  ℕ, zero, suc, ◌+◌, ◌-◌, Bool, true, false, not, ◌||◌, Option, none, some, List, [], ◌∷◌, ◌++◌,
  ltb, leb, ◌==◌, if◌then◌else◌, length,
}

pub data Event : Type 0 where
  started rejected : ℕ → Event

-- An entry has the number of the abort signal it was queued under.
pub record Entry (P : Type 0) : Type 0 where
  pub priority : P
  pub task : ℕ
  pub signal : ℕ

-- The queue, the number of the current abort signal and what has happened, the latest first.
pub record TaskQueue (P : Type 0) : Type 0 where
  pub simultaneous : ℕ
  pub running : ℕ
  pub pending : List (Entry P)
  pub signal : ℕ
  pub events : List Event

-- What happens to a queue: its operations, and the end of a task that runs.
pub data Operation (P : Type 0) : Type 0 where
  enqueue : P → ℕ → Operation P
  finish abort : Operation P
  set_simultaneous : ℕ → Operation P

module _ {P : Type 0} where
  abbrev pub new_queue : TaskQueue P
  new_queue = record { simultaneous = 1; running = 0; pending = []; signal = 0; events = [] }

  abbrev pub is_worse : Option (P → P → Bool) → Entry P → Entry P → Bool
  is_worse none a b = false
  is_worse (some worse) a b = worse a.priority b.priority

  -- The scan of `checkQueue`: the entries before the best one so far, that one, and those behind it.
  unfoldable pub pick :
      Option (P → P → Bool)
      → List (Entry P)
      → Entry P
      → List (Entry P)
      → List (Entry P)
      → List (Entry P) × Entry P × List (Entry P)
  pick worse before best behind [] = (before, best, behind)
  pick worse before best behind (x ∷ xs) =
      let replaced = pick worse (before ++ best ∷ behind) x [] xs in
      let kept = pick worse before best (behind ++ x ∷ []) xs in
      if is_worse worse best x then replaced else kept

  -- `execute`; the queue is checked again by the argument.
  abbrev pub execute :
      (ℕ → Bool) → (TaskQueue P → TaskQueue P) → Entry P → TaskQueue P → TaskQueue P
  execute throws again entry q =
      let refused : TaskQueue P = record q { events = rejected entry.task ∷ q.events } in
      let going : TaskQueue P = record q {
        running = q.running + 1;
        events = started entry.task ∷ q.events;
      } in
      if not (entry.signal == q.signal)
      then again refused
      else if throws entry.task
      then refused
      else going

  -- The body of the loop of `checkQueue`: the best entry is taken out and executed.
  abbrev pub run_picked :
      (ℕ → Bool)
      → (TaskQueue P → TaskQueue P)
      → List (Entry P) × Entry P × List (Entry P)
      → TaskQueue P
      → TaskQueue P
  run_picked throws again (before, best, behind) q =
      execute throws again best (record q { pending = before ++ behind })

  abbrev pub run_next :
      (ℕ → Bool)
      → Option (P → P → Bool)
      → (TaskQueue P → TaskQueue P)
      → List (Entry P)
      → TaskQueue P
      → TaskQueue P
  run_next throws worse again [] q = q
  run_next throws worse again (x ∷ xs) q = run_picked throws again (pick worse [] x [] xs) q

  abbrev pub is_empty : List (Entry P) → Bool
  is_empty [] = true
  is_empty (x ∷ xs) = false

  -- The loop of `checkQueue`. Each round takes an entry out.
  unfoldable pub check_loop : (ℕ → Bool) → Option (P → P → Bool) → ℕ → TaskQueue P → TaskQueue P
  unfolding pick
  check_loop throws worse zero q = q
  check_loop throws worse (suc rounds) q =
      let next = run_next throws worse (λ q. check_loop throws worse rounds q) q.pending q in
      let rest = check_loop throws worse rounds next in
      if is_empty q.pending || leb q.simultaneous q.running then q else rest

  -- `checkQueue`
  unfoldable pub check_queue : (ℕ → Bool) → Option (P → P → Bool) → TaskQueue P → TaskQueue P
  unfolding check_loop
  check_queue throws worse q = check_loop throws worse (suc (length q.pending)) q

  unfoldable pub apply :
      (ℕ → Bool) → Option (P → P → Bool) → Operation P → TaskQueue P → TaskQueue P
  unfolding check_queue
  apply throws worse (enqueue priority task) q = check_queue throws worse (record q {
    pending = q.pending ++ record { priority = priority; task = task; signal = q.signal } ∷ [];
  })
  apply throws worse finish q =
      if q.running == 0 then q else check_queue throws worse (record q { running = q.running - 1 })
  apply throws worse abort q = if q.running == 0 then q else record q { signal = q.signal + 1 }
  apply throws worse (set_simultaneous value) q =
      check_queue throws worse (record q { simultaneous = value })

  -- Several operations, one after the other.
  abbrev pub apply_all :
      (ℕ → Bool) → Option (P → P → Bool) → List (Operation P) → TaskQueue P → TaskQueue P
  apply_all throws worse [] q = q
  apply_all throws worse (o ∷ os) q = apply_all throws worse os (apply throws worse o q)
