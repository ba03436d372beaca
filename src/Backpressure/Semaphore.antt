-- ===== src/Backpressure/Semaphore.antt =====
-- backpressure/semaphore.go. Every operation runs under the semaphore's mutex, so it is one function
-- of the whole state; `now` is the time that it reads. `queues[i]` and `debt[i]`, two slices of one
-- length, are the two fields of the `i`-th level. Tokens are natural numbers: the callers in proxy/
-- acquire and release one.
pub mod Rules
pub mod Bounds
pub mod Levels
pub mod Priority
pub mod Waiting
pub mod Invariant
pub mod Debts
pub mod Order
pub mod Start
pub mod Moves
pub mod Removals
pub mod Entries
pub mod Overflow
pub mod Tests
use catfish.Prelude.{
  ℕ, zero, suc, ◌+◌, ◌-◌, ◌*◌, ◌≡◌, Bool, true, false, not, ◌&&◌, ◌||◌, Option, none, some, List,
  [], ◌∷◌, map, length, ltb, leb, ◌==◌, if◌then◌else◌,
}
use catfish.Prelude.Int.{ℤ, pos, negsuc, neg_ℕ}
use catfish.Deque.{len}
use catfish.Backpressure.Decay.{LinearDecay, get, add, set_max, floor}
use catfish.Backpressure.Waiter.{Store, Waiter, alloc, new_waiter}
use catfish.Backpressure.Codel.{Codel, Popped, new_codel, empty, push, peek, pop, reap}

pub data SemaphoreError : Type 0 where
  capacity_nil capacity_negative already_closed unbalance : SemaphoreError
  invalid_priority_level token_demand_too_large : SemaphoreError

-- The fields that no operation changes. A debt is counted in fractions of a token, `scale` of them to
-- the token: `scale` is the debt decay interval in nanoseconds times the denominator of
-- `debtForgivePerSuccess`, so that both rates are whole numbers.
pub record Limits : Type 0 where
  pub capacity : ℕ
  pub long_timeout : ℕ
  pub forgive_num : ℕ
  pub forgive_den : ℕ
  pub debt_decay_interval : ℕ

abbrev pub scale : Limits → ℕ
scale c = c.debt_decay_interval * c.forgive_den

-- `float64(n)` of a number of tokens
abbrev pub tokens : Limits → ℕ → ℕ
tokens c n = n * scale c

-- `debtForgivePerSuccess * float64(n)`
abbrev pub forgiven : Limits → ℕ → ℕ
forgiven c n = n * (c.forgive_num * c.debt_decay_interval)

pub data Ticker : Type 0 where
  infinity stopped : Ticker
  every : ℕ → Ticker

pub record Level : Type 0 where
  pub queue : Codel
  pub debt : LinearDecay

-- `outstanding` and the waiters change together in `admit`.
pub record Semaphore : Type 0 where
  pub limits : Limits
  pub outstanding : ℕ
  pub levels : List Level
  pub has_waiters : Bool
  pub reap_ticker : Ticker
  pub is_closed : Bool
  pub store : Store

-- What a call that may panic, fail or leave the caller waiting does.
pub data Outcome : Type 0 where
  panics : SemaphoreError → Outcome
  refuses : SemaphoreError → Outcome
  grants : Semaphore → Outcome
  queues : Semaphore → ℕ → Outcome

-- `semaphoreOptions`
pub record Options : Type 0 where
  pub short_timeout : ℕ
  pub long_timeout : ℕ
  pub debt_decay_interval : ℕ
  pub forgive_num : ℕ
  pub forgive_den : ℕ

-- The defaults: 5 ms, 100 ms, 10 s, and one tenth.
abbrev pub default_options : Options
default_options = record {
  short_timeout = 5_000_000;
  long_timeout = 100_000_000;
  debt_decay_interval = 10_000_000_000;
  forgive_num = 1;
  forgive_den = 10;
}

-- one level for each tier, given by its queue size; `none` where `NewCoDel` panics
pub new_levels : Options → ℕ → ℕ → List ℕ → Option (List Level)
new_levels o capacity now [] = some []
new_levels o capacity now (size ∷ sizes) =
    elim (new_codel o.short_timeout o.long_timeout size now) [
      | none ↦ none
      | some q ↦ elim (new_levels o capacity now sizes) [
        | none ↦ none
        | some ls ↦ some (
            record {
              queue = q;
              debt = record {
                x = 0;
                last = now;
                decay_per_ns = capacity * o.forgive_den;
                max = capacity * (o.debt_decay_interval * o.forgive_den);
              };
            }
            ∷ ls)
      ]
    ]

pub data Creation : Type 0 where
  fails : SemaphoreError → Creation
  deque_panics : Creation
  creates : Semaphore → Creation

pub fresh : Options → ℕ → List Level → Semaphore
fresh o capacity ls = record {
  limits = record {
    capacity = capacity;
    long_timeout = o.long_timeout;
    forgive_num = o.forgive_num;
    forgive_den = o.forgive_den;
    debt_decay_interval = o.debt_decay_interval;
  };
  outstanding = 0;
  levels = ls;
  has_waiters = false;
  reap_ticker = infinity;
  is_closed = false;
  store = record { next = 1; at = λ a. new_waiter 0 0 };
}

-- `NewSemaphore`; the store's first address is 1, after nil.
pub new_semaphore : Options → List ℕ → ℤ → ℕ → Creation
unfolding fresh
new_semaphore o sizes (negsuc n) now = fails capacity_negative
new_semaphore o sizes (pos capacity) now = elim (new_levels o capacity now sizes) [
  | none ↦ deque_panics
  | some ls ↦ creates (fresh o capacity ls)
]

-- `canAdmit`; the outstanding tokens stand on the other side of the comparison, as ℕ has no
-- numbers below zero. The debt that it reads is updated.
pub can_admit : Limits → ℕ → ℕ → ℕ → LinearDecay → LinearDecay × Bool
can_admit c now outstanding demand d =
    let d' = get now d in
    (d', leb (d'.x + tokens c demand + tokens c outstanding) (tokens c c.capacity))

-- a level, the outstanding tokens and the waiters, which the loop of `admit` changes
pub record Bucket : Type 0 where
  pub level : Level
  pub outstanding : ℕ
  pub store : Store

abbrev pub counted : ℕ → ℕ → Option ℕ → ℕ
counted outstanding demand none = outstanding
counted outstanding demand (some p) = outstanding + demand

-- `_, ok = queue.pop(now); if ok { s.outstanding += nextTokenDemand }`
pub pop_one : ℕ → ℕ → Bucket → Bucket
pop_one now demand b =
    let p = pop now b.level.queue b.store in
    record {
      level = record (b.level) { queue = p.queue };
      outstanding = counted b.outstanding demand p.result;
      store = p.store;
    }

-- The inner loop of `admit`. Every round pops a waiter, so the queue's length is fuel enough.
pub admit_level : ℕ → Limits → ℕ → Bucket → Bucket
admit_level zero c now b = b
admit_level (suc f) c now b = elim (peek b.store b.level.queue) [
  | none ↦ b
  | some demand ↦
      let (d, ok) = can_admit c now b.outstanding demand b.level.debt in
      let b' = record b { level = record (b.level) { debt = d } } in
      elim ok [ false ↦ b' | true ↦ admit_level f c now (pop_one now demand b') ]
]

pub reap_all : ℕ → List Level → Store → List Level × Store
reap_all now [] s = ([], s)
reap_all now (l ∷ ls) s =
    let (q, s') = reap now l.queue s in
    let (ls', s'') = reap_all now ls s' in (record l { queue = q } ∷ ls', s'')

-- the levels, the outstanding tokens and the waiters after the outer loop, and whether it ran to its
-- end, with every queue empty
pub record Swept : Type 0 where
  pub levels : List Level
  pub outstanding : ℕ
  pub store : Store
  pub all_empty : Bool

pub sweep : Limits → ℕ → List Level → ℕ → Store → Swept
sweep c now [] out s = record { levels = []; outstanding = out; store = s; all_empty = true }
sweep c now (l ∷ ls) out s =
    let b =
      admit_level (len l.queue.items) c now (record { level = l; outstanding = out; store = s }) in
    let rest = sweep c now ls b.outstanding b.store in
    if not (empty b.level.queue)
    then record {
      levels = b.level ∷ ls;
      outstanding = b.outstanding;
      store = b.store;
      all_empty = false;
    }
    else record rest { levels = b.level ∷ rest.levels }

pub admit : ℕ → Semaphore → Semaphore
admit now s =
    let (ls, st) = reap_all now s.levels s.store in
    let w = sweep s.limits now ls s.outstanding st in
    let s' = record s { levels = w.levels; outstanding = w.outstanding; store = w.store } in
    if w.all_empty && s.has_waiters
    then record s' { reap_ticker = infinity; has_waiters = false }
    else s'

-- a queue among the levels 0 … p that is not empty
pub higher_present : List Level → ℕ → Bool
higher_present [] p = false
higher_present (l ∷ ls) zero = not (empty l.queue)
higher_present (l ∷ ls) (suc p) = not (empty l.queue) || higher_present ls p

-- `debt[i]` for i after `prev`: some debt is forgiven, but no level falls below the one before it.
pub forgive_from : ℕ → ℕ → LinearDecay → List Level → LinearDecay × List Level
forgive_from now amount prev [] = (prev, [])
forgive_from now amount prev (l ∷ ls) =
    let prev' = get now prev in
    let d = floor now prev'.x (add now (neg_ℕ amount) l.debt) in
    let (d', ls') = forgive_from now amount d ls in (prev', record l { debt = d' } ∷ ls')

pub forgive_lower : ℕ → ℕ → ℕ → List Level → List Level
forgive_lower now amount p [] = []
forgive_lower now amount zero (l ∷ ls) =
    let (d, ls') = forgive_from now amount l.debt ls in record l { debt = d } ∷ ls'
forgive_lower now amount (suc p) (l ∷ ls) = l ∷ forgive_lower now amount p ls

pub penalize : Limits → ℕ → ℕ → Level → Level
penalize c now demand l = record l {
  debt = set_max now (tokens c c.capacity) (add now (pos (tokens c demand)) l.debt);
}

pub penalize_lower : Limits → ℕ → ℕ → ℕ → List Level → List Level
penalize_lower c now demand p [] = []
penalize_lower c now demand zero (l ∷ ls) = l ∷ map (penalize c now demand) ls
penalize_lower c now demand (suc p) (l ∷ ls) = l ∷ penalize_lower c now demand p ls

-- `canAdmit` at level `p`: the levels with that debt updated, and the answer
pub try_level : Limits → ℕ → ℕ → ℕ → ℕ → List Level → List Level × Bool
try_level c now out demand p [] = ([], false)
try_level c now out demand zero (l ∷ ls) =
    let (d, ok) = can_admit c now out demand l.debt in (record l { debt = d } ∷ ls, ok)
try_level c now out demand (suc p) (l ∷ ls) =
    let (ls', ok) = try_level c now out demand p ls in (l ∷ ls', ok)

pub push_at : ℕ → ℕ → ℕ → List Level → List Level
push_at wc now p [] = []
push_at wc now zero (l ∷ ls) = record l { queue = push wc now l.queue } ∷ ls
push_at wc now (suc p) (l ∷ ls) = l ∷ push_at wc now p ls

-- the request is admitted at once
pub fast_path : ℕ → ℕ → ℕ → Semaphore → Outcome
fast_path now demand p s =
    let out = s.outstanding + demand in
    if ltb s.limits.capacity out
    then panics unbalance
    else grants (record s {
      outstanding = out;
      levels = forgive_lower now (forgiven s.limits demand) p s.levels;
    })

-- the request joins the queue of its level
pub slow_path : ℕ → ℕ → ℕ → Semaphore → Outcome
slow_path now demand p s =
    let a = s.store.next in
    let s' = record s {
      levels = push_at a now p (penalize_lower s.limits now demand p s.levels);
      store = alloc (new_waiter now demand) s.store;
      reap_ticker = if s.has_waiters then s.reap_ticker else every s.limits.long_timeout;
      has_waiters = true;
    } in
    queues (admit now s') a

pub acquire_at : ℕ → ℕ → ℕ → Semaphore → Outcome
acquire_at now demand p s =
    let (ls, ok) = try_level s.limits now s.outstanding demand p s.levels in
    let s' = record s { levels = ls } in
    if higher_present s.levels p
    then slow_path now demand p s
    else if ok
    then fast_path now demand p s'
    else slow_path now demand p s'

-- the index check on a priority, which may be negative
pub level_index : ℤ → List Level → Option ℕ
level_index (negsuc n) ls = none
level_index (pos p) ls = if ltb p (length ls) then some p else none

-- `Acquire` up to the wait; `queues` is followed by `wait` on the address that it gives.
pub acquire : ℕ → ℕ → ℤ → Semaphore → Outcome
acquire now demand priority s =
    if s.is_closed
    then panics already_closed
    else if s.limits.capacity == 0
    then panics capacity_nil
    else elim (level_index priority s.levels) [
      | none ↦ refuses invalid_priority_level
      | some p ↦
          if ltb s.limits.capacity demand
          then refuses token_demand_too_large
          else acquire_at now demand p s
    ]

pub release : ℕ → ℕ → Semaphore → Outcome
release now n s =
    if ltb s.outstanding n
    then panics unbalance
    else grants (admit now (record s { outstanding = s.outstanding - n }))

-- one round of `background`: the ticker has fired
pub background_tick : ℕ → Semaphore → Semaphore
background_tick now s = admit now s

pub close : Semaphore → Semaphore
close s = if s.is_closed then s else record s { is_closed = true; reap_ticker = stopped }
