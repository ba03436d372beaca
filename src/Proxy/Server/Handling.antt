-- ===== src/Proxy/Server/Handling.antt =====
-- proxy/proxy.go: handleClient on a server that New returned.
use Prim.Native.String.{String}
use catfish.Prelude.{ℕ, ◌≡◌, Bool, true, false, ◌⊎◌, some, List, [], ◌∷◌}
use catfish.Config
use catfish.Pool
use catfish.Proxy.Auth.Wire.{Wire, AuthError, err}
use catfish.Proxy.Auth.Methods.{Crypto, do_auth}
use catfish.Proxy.Auth.Methods.Handshake.{Admitted}
use catfish.Proxy.Session.{Session, client_loop, conn_failed}
use catfish.Proxy.Session.Tokens.{held}
use catfish.Proxy.Server.{Server, pool_key, lookup, Handled, turned_away, served, refuse}

-- How the session of an authenticated client goes: no connection, or the client loop on one that is
-- released.
abbrev pub IsServed : Server → String → ℕ → Bool → Session → List Pool.Call → Session → Type 0
IsServed server tier fuel acquires s calls t =
    ((acquires ≡ false)
      × (calls ≡ [])
      × (t ≡ refuse conn_failed "catfish/proxy : failed to acquire connection from pool" s))
    ⊎ ((acquires ≡ true)
        × (calls ≡ Pool.acquired ∷ Pool.released ∷ [])
        × (client_loop server.tiers tier fuel 0 s ≡ some t)
        × (held t.trace ≡ held s.trace))

-- What becomes of a client: not authenticated, or served on the pool of its user and database.
abbrev pub IsHandled : Crypto → Server → ℕ → Bool → Wire → Session → Handled → Type 0
IsHandled go server fuel acquires w s (turned_away t) =
    ((e : AuthError) × ((do_auth go server.users server.parameter_statuses w).0 ≡ err e))
    × (t ≡ refuse "28P01" "catfish/proxy : authentication failed" s)
IsHandled go server fuel acquires w s (served p calls t) =
    (w' : Wire) × Admitted go server.users w w'
    × (lookup (pool_key w'.client.username w'.client.database) server.pools ≡ some p)
    × IsServed server w'.client.tier fuel acquires s calls t
