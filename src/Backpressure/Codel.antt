-- ===== src/Backpressure/Codel.antt =====
-- backpressure/codel.go, coDel[int]: a queue of waiters that is FIFO while it empties often enough and
-- LIFO under load, and drops what has waited too long. An operation that touches a waiter takes and
-- returns the store. The deque panics only when it is empty, which every call here has excluded.
pub mod View
pub mod Reap
use catfish.Prelude.{
  ℕ, zero, suc, ◌-◌, ◌≡◌, Bool, true, false, Option, none, some, ltb, ◌&&◌, ◌==◌, if◌then◌else◌,
}
use catfish.Deque.{Deque, len, new, push_back, pop_front, pop_back, front_item, back_item}
use catfish.Backpressure.Waiter.{Store, Waiter, admit, drop}

pub data Mode : Type 0 where
  fifo lifo : Mode

pub record Codel : Type 0 where
  pub short_timeout : ℕ
  pub long_timeout : ℕ
  pub last_emptied : ℕ
  pub mode : Mode
  pub items : Deque ℕ

-- the nil pointer, Go's zero value of `*coDelWaiter[int]`
abbrev pub nil : ℕ
nil = 0

-- `none`: the deque's `New` panics.
pub new_codel : ℕ → ℕ → ℕ → ℕ → Option Codel
new_codel short long queue_size now = elim (new nil queue_size) [
  | none ↦ none
  | some items ↦ some (record {
    short_timeout = short;
    long_timeout = long;
    last_emptied = now;
    mode = fifo;
    items = items;
  })
]

pub empty : Codel → Bool
empty c = len c.items == 0

pub set_mode : ℕ → Codel → Codel
set_mode now c =
    if len c.items == 0
    then record c { mode = fifo; last_emptied = now }
    else if ltb c.long_timeout (now - c.last_emptied)
    then record c { mode = lifo }
    else c

-- The error of `PushBack` is not looked at.
pub push : ℕ → ℕ → Codel → Codel
push wc now c = let c' = set_mode now c in record c' { items = (push_back nil c'.items wc).0 }

next_item : Mode → Deque ℕ → Option ℕ
next_item fifo q = front_item nil q
next_item lifo q = back_item nil q

pub payload_of : Store → Option ℕ → Option ℕ
payload_of s none = none
payload_of s (some a) = some (s.at a).payload

-- the payload of the waiter that `pop` would remove
pub peek : Store → Codel → Option ℕ
unfolding next_item payload_of
peek s c = if len c.items == 0 then none else payload_of s (next_item c.mode c.items)

remove_item : Mode → Deque ℕ → Option (ℕ × Deque ℕ)
remove_item fifo q = pop_front nil q
remove_item lifo q = pop_back nil q

pub record Popped : Type 0 where
  pub queue : Codel
  pub store : Store
  pub result : Option ℕ

pub popped_as : Codel → Store × Bool → ℕ → Popped
popped_as c (s, true) payload = record { queue = c; store = s; result = some payload }
popped_as c (s, false) payload = record { queue = c; store = s; result = none }

pop_item : ℕ → Codel → Store → Popped
unfolding remove_item popped_as
pop_item now c s = elim (remove_item c.mode c.items) [
  | none ↦ record { queue = c; store = s; result = none }
  | some (a, q) ↦ popped_as (set_mode now (record c { items = q })) (admit a s) (s.at a).payload
]

pub pop : ℕ → Codel → Store → Popped
unfolding pop_item
pop now c s =
    if len c.items == 0 then record { queue = c; store = s; result = none } else pop_item now c s

pub stale_front : ℕ → ℕ → Deque ℕ → Store → Bool
stale_front now timeout q s = elim (front_item nil q) [
  | none ↦ false
  | some a ↦ ltb timeout (now - (s.at a).enqueued)
]

-- The loop of `reap`; every round removes an item, so the length is fuel enough.
pub reap_loop : ℕ → ℕ → ℕ → Deque ℕ → Store → Deque ℕ × Store
reap_loop zero now timeout q s = (q, s)
reap_loop (suc f) now timeout q s = elim (ltb 0 (len q) && stale_front now timeout q s) [
  | false ↦ (q, s)
  | true ↦ elim (pop_front nil q) [
    | none ↦ (q, s)
    | some (a, q') ↦ reap_loop f now timeout q' (drop a s)
  ]
]

abbrev pub timeout_of : Codel → ℕ
timeout_of c = elim c.mode [ fifo ↦ c.long_timeout | lifo ↦ c.short_timeout ]

pub reap : ℕ → Codel → Store → Codel × Store
reap now c s =
    let c' = set_mode now c in
    let r = reap_loop (len c'.items) now (timeout_of c') c'.items s in
    (set_mode now (record c' { items = r.0 }), r.1)
