-- ===== src/Proxy/Lifecycle.antt =====
-- proxy/proxy.go: Listen and Close, the life of a server. What Accept and the wait for the clients
-- answer are arguments; the pools are named by numbers.
use catfish.Prelude.{ℕ, suc, ◌≡◌, Bool, true, false, List, [], ◌∷◌, ◌++◌, map, if◌then◌else◌}
pub mod Shutdown
mod Tests

-- The calls of Close that other goroutines see.
pub data Act : Type 0 where
  done_closed listener_closed clients_finished timed_out : Act
  pool_closed : ℕ → Act

-- `closeOnce`, the listener that Listen sets, and what Close has done.
pub record Life : Type 0 where
  pub pools : List ℕ
  pub is_listening : Bool
  pub has_closed : Bool
  pub acts : List Act

pub data Closing : Type 0 where
  closes : Life → Closing
  -- Close of the listener of a server that does not listen
  nil_listener : Life → Closing

abbrev pub shut_down : Bool → Life → Life
shut_down finished s = record s {
  has_closed = true;
  acts =
      s.acts
      ++ (done_closed
          ∷ listener_closed
          ∷ (if finished then clients_finished else timed_out)
          ∷ map pool_closed s.pools);
}

-- `Close`; the clients finish before the timeout, or not. A call that panics has used up `closeOnce`.
pub close : (finished : Bool) → Life → Closing
close finished s =
    if s.has_closed
    then closes s
    else if s.is_listening
    then closes (shut_down finished s)
    else nil_listener (record s { has_closed = true; acts = s.acts ++ (done_closed ∷ []) })

-- What Accept returns: a connection, or an error before or after `done` is closed.
pub data Accepted : Type 0 where
  connection : Accepted
  accept_failed : (is_done : Bool) → Accepted

pub data Listening : Type 0 where
  stops : (handled : ℕ) → Listening
  listener_error : (handled : ℕ) → Listening
  still_accepting : (handled : ℕ) → Listening

-- the loop of `Listen`, with the number of clients that are handled
pub accept_loop : ℕ → List Accepted → Listening
accept_loop n [] = still_accepting n
accept_loop n (connection ∷ es) = accept_loop (suc n) es
accept_loop n (accept_failed is_done ∷ es) = if is_done then stops n else listener_error n

pub listen : (opens : Bool) → List Accepted → Life → Life × Listening
listen false es s = (s, listener_error 0)
listen true es s = (record s { is_listening = true }, accept_loop 0 es)
