-- ===== src/Backpressure/Callers.antt =====
-- backpressure/: the semaphore together with the goroutines that call it. A step is a call of one of
-- its operations or the waking of one caller, in any order; the waiters live in the semaphore's store.
pub mod Sums
pub mod Pending
pub mod Fair
pub mod Tally
pub mod Answers
pub mod Steps
pub mod Tokens
pub mod Lost
pub mod Overflown
mod Tests
use catfish.Prelude.{
  ℕ, zero, suc, ◌+◌, ◌-◌, ◌≤◌, ◌<◌, ◌≡◌, Bool, true, false, Option, none, some, ◌==◌, if◌then◌else◌,
}
use catfish.Prelude.Int.{ℤ}
use catfish.Backpressure.Waiter.{
  Store, Waiter, State, waiting, admitted, expired, Wake, Answer, wait,
}
use catfish.Backpressure.Semaphore.{
  Semaphore, grants, queues, acquire, release, background_tick, close,
}

-- The semaphore; what `wait` has returned to the caller of each waiter, `none` while it is blocked;
-- the tokens that were granted at once; and the tokens that were given back.
pub record System : Type 0 where
  pub sem : Semaphore
  pub answers : ℕ → Option Answer
  pub granted : ℕ
  pub returned : ℕ

abbrev pub total : (ℕ → ℕ) → ℕ → ℕ
total f zero = 0
total f (suc n) = f n + total f n

-- The tokens that an admitted waiter stands for, and those whose caller has been told so.
abbrev pub charge : Waiter → ℕ
charge w = elim w.state [ admitted ↦ w.payload | _ ↦ 0 ]

abbrev pub told_charge : Option Answer → Waiter → ℕ
told_charge (some none) w = w.payload
told_charge r w = 0

abbrev pub owed : Store → ℕ
owed s = total (λ a. charge (s.at a)) s.next

abbrev pub told : (ℕ → Option Answer) → Store → ℕ
told r s = total (λ a. told_charge (r a) (s.at a)) s.next

-- The tokens that the callers know to hold.
abbrev pub held : System → ℕ
held s = s.granted + told s.answers s.sem.store - s.returned

abbrev pub answered : ℕ → Answer → (ℕ → Option Answer) → ℕ → Option Answer
answered a r answers b = if a == b then some r else answers b

-- Callers give back only tokens that they hold, and `wait` is called once for each waiter.
pub data Step : System → System → Type 0 where
  grants_at_once :
      {s : System} {t : Semaphore} (now demand : ℕ) (priority : ℤ)
      → acquire now demand priority s.sem ≡ grants t
      → Step s (record s { sem = t; granted = s.granted + demand })
  joins_queue :
      {s : System} {t : Semaphore} (now demand : ℕ) (priority : ℤ) (a : ℕ)
      → acquire now demand priority s.sem ≡ queues t a
      → Step s (record s { sem = t })
  wakes :
      {s : System} {st : Store} (w : Wake) (a : ℕ) (r : Answer)
      → 0 < a
      → a < s.sem.store.next
      → s.answers a ≡ none
      → wait w a s.sem.store ≡ some (st, r)
      → Step s (record s { sem = record (s.sem) { store = st }; answers = answered a r s.answers })
  gives_back :
      {s : System} {t : Semaphore} (now n : ℕ)
      → n ≤ held s
      → release now n s.sem ≡ grants t
      → Step s (record s { sem = t; returned = s.returned + n })
  ticks : {s : System} (now : ℕ) → Step s (record s { sem = background_tick now s.sem })

pub data Reach (s : System) : System → Type 0 where
  start : Reach s s
  next : {t u : System} → Reach s t → Step t u → Reach s u

-- A new semaphore, with no caller yet.
abbrev pub initial : Semaphore → System
initial s = record { sem = s; answers = λ a. none; granted = 0; returned = 0 }
