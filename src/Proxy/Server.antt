-- ===== src/Proxy/Server.antt =====
-- proxy/proxy.go: New, poolKey and handleClient, which join the configuration, the authentication, the
-- pools and the session. A pool is named by the number of the call that opened it; what `pool.New` and
-- `ParameterStatuses` answer is a parameter.
use Prim.Native.String.{String, ◌++◌}
use text.Mathlib.Text.{◌==◌}
use catfish.Prelude.{
  ℕ, suc, Bool, true, false, Option, none, some, List, [], ◌∷◌, map, if◌then◌else◌,
}
use catfish.Prelude.Int.{ℤ, pos}
use catfish.Config
use catfish.Config.{User}
use catfish.Pool
use catfish.Proxy.Auth.Wire.{Wire, ok, err, ClientState}
use catfish.Proxy.Auth.Methods.{Crypto, do_auth}
use catfish.Proxy.Session.{Session, send_error, send_ready_for_query, conn_failed, client_loop}
pub mod Keys
pub mod Opening
pub mod Handling
mod Tests

abbrev pub Statuses : Type 0
Statuses = List (String × String)

unfoldable pub pool_key : (username database : String) → String
pool_key username database = username ++ "/" ++ database

abbrev pub Pools : Type 0
Pools = List (String × ℕ)

pub lookup : String → Pools → Option ℕ
lookup k [] = none
lookup k ((j, p) ∷ m) = let rest = lookup k m in if j == k then some p else rest

pub insert : String → ℕ → Pools → Pools
insert k v [] = (k, v) ∷ []
insert k v ((j, p) ∷ m) = let rest = insert k v m in if j == k then (j, v) ∷ m else (j, p) ∷ rest

pub record Server : Type 0 where
  pub users : List User
  pub tiers : List String
  pub pools : Pools
  pub parameter_statuses : Statuses

-- What `pool.New` answers and, where a pool is opened, `ParameterStatuses`.
pub data Opened : Type 0 where
  creation_failed : Opened
  opened : Option Statuses → Opened

pub data Created : Type 0 where
  pool_creation : (username database : String) (closed : List ℕ) → Created
  created : Server → Created

abbrev pub default_statuses : Statuses
default_statuses =
    ("server_version", "15.0")
    ∷ ("client_encoding", "UTF8")
    ∷ ("DateStyle", "ISO, MDY")
    ∷ ("TimeZone", "UTC")
    ∷ ("integer_datetimes", "on")
    ∷ []

abbrev pub or_default : Option Statuses → Statuses
or_default none = default_statuses
or_default (some s) = s

-- The statuses are asked for until a pool has answered.
abbrev pub or_ask : Option Statuses → Option Statuses → Option Statuses
or_ask none answer = answer
or_ask (some s) answer = some s

abbrev pub handle_of : String × ℕ → ℕ
handle_of (k, p) = p

module _ (decimal : ℤ → String) (open_pool : ℕ → Pool.Config → Opened) (cfg : Config.Config) where
  pub pool_config : User → Pool.Config
  pool_config u = record {
    dsn =
        "postgres://"
        ++ u.username
        ++ ":"
        ++ u.password
        ++ "@"
        ++ cfg.postgres_host
        ++ ":"
        ++ decimal cfg.postgres_port
        ++ "/"
        ++ u.database;
    max_conns = cfg.pool.max_conns;
    min_conns = cfg.pool.min_conns;
    max_idle_time = cfg.pool.max_conn_idle_time;
    max_conn_time = cfg.pool.max_conn_lifetime;
    drain_rows_before_kill = pos 0;
  }

  -- the loop over the users, with the number of pools that are opened
  pub open_all : List User → ℕ → Pools → Option Statuses → Created
  open_all [] n pools statuses = created (record {
    users = cfg.users;
    tiers = map (λ (t : Config.Tier). t.name) cfg.tiers;
    pools = pools;
    parameter_statuses = or_default statuses;
  })
  open_all (u ∷ us) n pools statuses = elim (open_pool n (pool_config u)) [
    | creation_failed ↦ pool_creation u.username u.database (map handle_of pools)
    | opened answer ↦
        open_all us (suc n) (insert (pool_key u.username u.database) n pools)
          (or_ask statuses answer)
  ]

  pub new : Created
  new = open_all cfg.users 0 [] none

-- How a client is handled: what is sent to it, and on a pool the calls for its connection.
pub data Handled : Type 0 where
  turned_away : Session → Handled
  served : (pool : ℕ) → List Pool.Call → Session → Handled

abbrev pub refuse : (code message : String) → Session → Session
refuse code message s = send_ready_for_query b'I' (send_error code message s)

-- `WithConn` with the client loop as its callback
pub serve : List String → String → ℕ → Bool → ℕ → Session → Option Handled
serve tiers tier fuel acquires pool s =
    let (error, calls) = Pool.with_conn acquires (none, []) in
    elim error [
      | some e ↦ some (
          served pool calls
            (refuse conn_failed "catfish/proxy : failed to acquire connection from pool" s))
      | none ↦ elim (client_loop tiers tier fuel 0 s) [
        | none ↦ none
        | some t ↦ some (served pool calls t)
      ]
    ]

-- `none` where the client loop is out of fuel
pub handle_client :
    Crypto → Server → (fuel : ℕ) (acquires : Bool) (w : Wire) (s : Session) → Option Handled
handle_client go server fuel acquires w s =
    let (r, w') = do_auth go server.users server.parameter_statuses w in
    elim r [
      | err e ↦ some (turned_away (refuse "28P01" "catfish/proxy : authentication failed" s))
      | ok done ↦ elim (lookup (pool_key w'.client.username w'.client.database) server.pools) [
        | none ↦ some (
            turned_away (
              refuse "3D000"
                ("catfish/proxy : no pool found for user/database pair: user" ++ w'.client.username
                  ++ ", db:" ++ w'.client.database)
                s))
        | some p ↦ serve server.tiers w'.client.tier fuel acquires p s
      ]
    ]
