-- ===== src/Proxy/Lifecycle/Tests.antt =====
-- The life of a server with two pools.
use catfish.Prelude.{◌≡◌, refl, true, false, [], ◌∷◌}
use catfish.Proxy.Lifecycle.{
  Life, nil_listener, close, listen, accept_loop, connection, accept_failed, stops, done_closed,
  listener_closed, timed_out, pool_closed,
}
use catfish.Proxy.Lifecycle.Shutdown.{close_all}

abbrev two_pools : Life
two_pools = record { pools = 4 ∷ 5 ∷ []; is_listening = false; has_closed = false; acts = [] }

served_two : (listen true (connection ∷ connection ∷ accept_failed true ∷ []) two_pools).1 ≡ stops 2
unfolding listen accept_loop
served_two = refl

closed_twice :
    (close_all (false ∷ true ∷ []) (record two_pools { is_listening = true })).acts
    ≡ done_closed ∷ listener_closed ∷ timed_out ∷ pool_closed 4 ∷ pool_closed 5 ∷ []
unfolding close_all close
closed_twice = refl

-- Close of a server that does not listen panics, and no later Close closes the pools.
never_listened :
    (close false two_pools
      ≡ nil_listener (record two_pools { has_closed = true; acts = done_closed ∷ [] }))
    × ((close_all (false ∷ true ∷ []) two_pools).acts ≡ done_closed ∷ [])
unfolding close_all close
never_listened = (refl, refl)
