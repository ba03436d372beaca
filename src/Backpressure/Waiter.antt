-- ===== src/Backpressure/Waiter.antt =====
-- backpressure/codel.go, coDelWaiter: a queued request, shared by the goroutine that waits on it and
-- the semaphore. Pointers are addresses of a store; 0 is nil. The channel `c` is the list of the
-- values sent and not yet received.
pub mod Cases
use catfish.Prelude.{
  ℕ, suc, Bool, true, false, Option, none, some, List, [], ◌∷◌, ◌++◌, ◌==◌, if◌then◌else◌,
}

-- 0, 1 and 2 in the source
pub data State : Type 0 where
  waiting admitted expired : State

pub record Waiter : Type 0 where
  pub enqueued : ℕ
  pub state : State
  pub signals : List Bool
  pub payload : ℕ

pub record Store : Type 0 where
  pub next : ℕ
  pub at : ℕ → Waiter

pub new_waiter : ℕ → ℕ → Waiter
new_waiter time payload = record {
  enqueued = time;
  state = waiting;
  signals = [];
  payload = payload;
}

abbrev pub write : ℕ → Waiter → Store → Store
write a w s = record s { at = λ b. if a == b then w else s.at b }

-- `&coDelWaiter{…}`: the new store; the address is the old `next`.
pub alloc : Waiter → Store → Store
alloc w s = record (write s.next w s) { next = suc s.next }

-- `CompareAndSwapUint32(&cw.state, 0, to)`
pub swap_waiting : State → Waiter → Option Waiter
swap_waiting to w = elim w.state [ waiting ↦ some (record w { state = to }) | _ ↦ none ]

abbrev pub send : Bool → Waiter → Waiter
send v w = record w { signals = w.signals ++ (v ∷ []) }

pub admit : ℕ → Store → Store × Bool
unfolding swap_waiting
admit a s = elim (swap_waiting admitted (s.at a)) [
  | some w ↦ (write a (send true w) s, true)
  | none ↦ (s, false)
]

pub drop : ℕ → Store → Store
drop a s = write a (send false (s.at a)) s

-- which case of the `select` in `wait` is taken
pub data Wake : Type 0 where
  context_done signalled : Wake

pub data WaitError : Type 0 where
  context_error rejected : WaitError

-- how `wait` returns: nil or an error
abbrev pub Answer : Type 0
Answer = Option WaitError

received : ℕ → Store → List Bool → Option (Store × Answer)
received a s [] = none
received a s (true ∷ r) = some (write a (record (s.at a) { signals = r }) s, none)
received a s (false ∷ r) = some (write a (record (s.at a) { signals = r }) s, some rejected)

-- `none`: that case is not ready, and the goroutine stays blocked.
pub wait : Wake → ℕ → Store → Option (Store × Answer)
unfolding swap_waiting received
wait context_done a s = elim (swap_waiting expired (s.at a)) [
  | some w ↦ some (write a w s, some context_error)
  | none ↦ some (s, none)
]
wait signalled a s = received a s (s.at a).signals
