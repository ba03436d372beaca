-- ===== src/Backpressure/Semaphore/Tests.antt =====
-- The theorems about semaphore.go at a concrete semaphore, and runs of it.
use catfish.Prelude.{◌≡◌, some, [], ◌∷◌, arith}
use catfish.Prelude.Int.{pos}
use catfish.Backpressure.Waiter.{alloc, new_waiter}
use catfish.Backpressure.Codel.{Codel, new_codel, push}
use catfish.Backpressure.Codel.View.{Shows, push-Shows}
use catfish.Backpressure.Semaphore.{
  SemaphoreError, capacity_nil, capacity_negative, already_closed, invalid_priority_level,
  token_demand_too_large, Limits, scale, tokens, forgiven, Ticker, infinity, stopped, every, Level,
  Semaphore, Outcome, refuses, grants, queues, can_admit, Bucket, pop_one, counted, admit_level,
  reap_all, Swept, sweep, higher_present, forgive_from, forgive_lower, penalize, penalize_lower,
  try_level, push_at, fast_path, slow_path, acquire_at, acquire, release, background_tick, close,
  level_index,
}
use catfish.Backpressure.Semaphore
use catfish.Backpressure.Semaphore.{
  Options, default_options, new_semaphore, Creation, creates, fails,
}
use catfish.Deque.Bounded
use catfish.Backpressure.Codel.View.{new_codel_lem}
use catfish.Backpressure.Semaphore.Bounds.{Ensures}
use catfish.Backpressure.Semaphore.Levels.{IsSettled, admit_level-IsSettled}
use catfish.Backpressure.Semaphore.Invariant.{
  IsWellFormed, acquire-IsWellFormed, release-IsWellFormed, background_tick-IsWellFormed,
}
use catfish.Backpressure.Semaphore.Order.{IsOrdered, Leaves, acquire-IsOrdered, release-IsOrdered}
use catfish.Backpressure.Semaphore.Start.{new_semaphore_lem}

new_semaphore_lem_example :
    (s : Semaphore) × (new_semaphore default_options (2 ∷ 5 ∷ []) (pos 3) 7 ≡ creates s)
    × IsWellFormed s
    × IsOrdered 7 s
    × (s.outstanding ≡ 0)
new_semaphore_lem_example =
    new_semaphore_lem default_options (2 ∷ 5 ∷ []) 3 7 (omega arith) (omega arith)

-- Two levels of queue sizes 2 and 5, three tokens, made at time 7.
two_levels : Semaphore
two_levels = new_semaphore_lem_example.0

two_levels-IsWellFormed : IsWellFormed two_levels
unfolding two_levels
two_levels-IsWellFormed = new_semaphore_lem_example.2

two_levels-IsOrdered : IsOrdered 7 two_levels
unfolding two_levels
two_levels-IsOrdered = new_semaphore_lem_example.3

acquire-IsWellFormed_example : Ensures IsWellFormed (acquire 9 1 (pos 0) two_levels)
acquire-IsWellFormed_example = acquire-IsWellFormed 9 1 (pos 0) two_levels two_levels-IsWellFormed

background_tick-IsWellFormed_example : IsWellFormed (background_tick 9 two_levels)
background_tick-IsWellFormed_example =
    background_tick-IsWellFormed 9 two_levels two_levels-IsWellFormed

release-IsWellFormed_example :
    (t : Semaphore) × (release 9 0 two_levels ≡ grants t) × IsWellFormed t
release-IsWellFormed_example =
    release-IsWellFormed 9 0 two_levels two_levels-IsWellFormed (omega arith)

acquire-IsOrdered_example : Leaves (IsOrdered 9) (acquire 9 1 (pos 0) two_levels)
acquire-IsOrdered_example =
    acquire-IsOrdered 7 9 1 (pos 0) two_levels (omega arith) two_levels-IsOrdered

release-IsOrdered_example : Leaves (IsOrdered 9) (release 9 0 two_levels)
release-IsOrdered_example = release-IsOrdered 7 9 0 two_levels (omega arith) two_levels-IsOrdered

made : (c : Codel) × (new_codel 5 100 2 7 ≡ some c) × Shows 2 [] c
made = new_codel_lem 5 100 2 7 (omega arith)

-- A level whose queue holds the waiter at address 1, while all three tokens are out.
one_waiter : Bucket
one_waiter = record {
  level = record {
    queue = push 1 8 made.0;
    debt = record { x = 0; last = 7; decay_per_ns = 1; max = 3 };
  };
  outstanding = 3;
  store = alloc (new_waiter 8 1) (record { next = 1; at = λ a. new_waiter 0 0 });
}

one_waiter-Shows : Shows 2 (1 ∷ []) one_waiter.level.queue
unfolding one_waiter Bounded.push_back
one_waiter-Shows = push-Shows made.0 1 8 made.2

admit_level-IsSettled_example :
    IsSettled two_levels.limits 9 (admit_level 1 two_levels.limits 9 one_waiter)
admit_level-IsSettled_example =
    admit_level-IsSettled two_levels.limits 9 1 one_waiter (1 ∷ []) (omega arith) one_waiter-Shows
