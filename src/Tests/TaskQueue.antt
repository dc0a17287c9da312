-- ===== src/Tests/TaskQueue.antt =====
-- Runs of the task queue, and each theorem at one.
use vinyl.Common.{
  ℕ, ◌≤◌, ◌≡◌, List, ◌∷◌, [], Bool, Option, some, refl, arith, Bool-cases, length, ltb, inl, inr,
  ◌==◌,
}
use vinyl.TaskQueue.{
  started, rejected, Entry, TaskQueue, Operation, enqueue, finish, abort, set_simultaneous,
  new_queue, pick, check_loop, check_queue, apply, apply_all,
}
use vinyl.TaskQueue.Draining.{Settled, apply_all-new_queue, check_queue-limit}
use vinyl.TaskQueue.Picking.{IsOrder, IsFirstBest, pick-IsFirstBest}

-- A greater number is a later task.
abbrev by_number : Option (ℕ → ℕ → Bool)
by_number = some (λ a b. ltb b a)

-- The task 9 throws.
abbrev nine_throws : ℕ → Bool
nine_throws n = n == 9

by_number-IsOrder : IsOrder by_number
by_number-IsOrder = record {
  between = λ a b c e. elim (Bool-cases (ltb b.priority a.priority)) [
    | inl worse ↦ inl worse
    | inr not_worse ↦ inr (ground arith)
  ];
  transitive = λ a b c e f. ground arith;
}

abbrev several : List (Operation ℕ)
several =
    enqueue 5 1
    ∷ enqueue 4 2
    ∷ enqueue 3 9
    ∷ enqueue 4 3
    ∷ finish
    ∷ abort
    ∷ finish
    ∷ enqueue 1 4
    ∷ []

-- The task that throws is tried first; of equal ones the older is started; the last is rejected.
several_events :
    (apply_all nine_throws by_number several new_queue).events
    ≡ started 4 ∷ rejected 3 ∷ started 2 ∷ rejected 9 ∷ started 1 ∷ []
unfolding apply check_queue check_loop pick
several_events = refl

apply_all-new_queue_example :
    Settled nine_throws by_number (apply_all nine_throws by_number several new_queue)
apply_all-new_queue_example = apply_all-new_queue nine_throws by_number several

abbrev three_wait : TaskQueue ℕ
three_wait = record new_queue {
  simultaneous = 2;
  pending =
      record { priority = 7; task = 1; signal = 0 }
      ∷ record { priority = 5; task = 2; signal = 0 }
      ∷ record { priority = 5; task = 3; signal = 0 }
      ∷ [];
}

check_queue-limit_example :
    ((check_queue nine_throws by_number three_wait).running ≤ 2)
    × ((check_queue nine_throws by_number three_wait).simultaneous ≡ 2)
    × (length (check_queue nine_throws by_number three_wait).pending ≤ 3)
check_queue-limit_example = check_queue-limit nine_throws by_number three_wait

abbrev waiting : ℕ → ℕ → Entry ℕ
waiting priority task = record { priority = priority; task = task; signal = 0 }

pick-IsFirstBest_example :
    IsFirstBest by_number
      (waiting 7 1 ∷ waiting 5 2 ∷ waiting 5 3 ∷ [])
      (pick by_number [] (waiting 7 1) [] (waiting 5 2 ∷ waiting 5 3 ∷ []))
pick-IsFirstBest_example =
    pick-IsFirstBest by_number by_number-IsOrder (waiting 7 1) (waiting 5 2 ∷ waiting 5 3 ∷ [])

-- A queue that is paused with no running task ignores abort: the entry is started afterwards.
paused_abort :
    (apply_all nine_throws by_number
      (set_simultaneous 0 ∷ enqueue 1 1 ∷ abort ∷ set_simultaneous 1 ∷ [])
      new_queue).events
    ≡ started 1 ∷ []
unfolding apply check_queue check_loop pick
paused_abort = refl
