-- ===== src/Pool.antt =====
-- pool/pool.go: the wrapper of pgxpool. The library pgx is outside the repository: what its calls answer
-- is an argument or a field, and which of its calls the code makes is a trace, oldest first.
use Prim.Native.String.{String}
use text.Mathlib.Text.{◌==◌ as str_eq}
use catfish.Prelude.{
  ℕ, zero, suc, ◌+◌, ◌*◌, Bool, true, false, not, ◌&&◌, Option, none, some, List, [], ◌∷◌, ◌++◌,
  ◌==◌, if◌then◌else◌,
}
use catfish.Prelude.Int.{ℤ, pos, negsuc, ltb_ℤ}
pub mod Release
pub mod Handles
mod Tests

-- `Config`; the int32 and Duration fields are integers.
pub record Config : Type 0 where
  pub dsn : String
  pub min_conns : ℤ
  pub max_conns : ℤ
  pub max_idle_time : ℤ
  pub max_conn_time : ℤ
  pub drain_rows_before_kill : ℤ

abbrev pub minutes : ℕ → ℤ
minutes n = pos (n * 60000000000)

-- `x`, or `d` where `x` is Go's zero value
abbrev pub or_else : ℤ → ℤ → ℤ
or_else d (pos zero) = d
or_else d (pos (suc n)) = pos (suc n)
or_else d (negsuc n) = negsuc n

pub set_default : Config → Config
set_default c = record c {
  min_conns = or_else (pos 5) c.min_conns;
  max_conns = or_else (pos 25) c.max_conns;
  max_conn_time = or_else (minutes 60) c.max_conn_time;
  max_idle_time = or_else (minutes 20) c.max_idle_time;
  drain_rows_before_kill = or_else (pos 100) c.drain_rows_before_kill;
}

-- The errors of pool/errors.go, without the error that they wrap.
pub data PoolError : Type 0 where
  conn_acquire parse_connection_string create_pool warm_pool acquire_conn exec_conn : PoolError
  query_conn begin_tx_conn with_conn_acquire warm_cancelled rollback_after_release : PoolError
  drain_rows_probe tx_already_closed acquire_row : PoolError
  -- an error of pgx that is passed on as it is
  passed_on : PoolError

-- How a row loop of pgx ends.
pub data RowsEnd : Type 0 where
  no_error deadline_exceeded canceled other_error : RowsEnd

-- What pgx answers about a connection that is released: its transaction status, whether ROLLBACK
-- succeeds, and the rows that the probing query yields, with how they end; `none` if it fails.
pub record Conn : Type 0 where
  pub tx_status : ℕ
  pub rollback_succeeds : Bool
  pub probe : Option (ℕ × RowsEnd)

abbrev pub idle_status : ℕ
idle_status = b'I'

pub rollback_if_needed : Conn → Option PoolError
rollback_if_needed c =
    if c.tx_status == idle_status
    then none
    else if c.rollback_succeeds
    then none
    else some rollback_after_release

-- The loop of `drainRows` over the unread rows: how many were read, and whether it came to their end.
pub drain_loop : ℤ → ℕ → ℕ → ℕ × Bool
drain_loop max count zero = (count, true)
drain_loop max count (suc rows) =
    let rest = drain_loop max (suc count) rows in
    if ltb_ℤ max (pos (suc count)) then (suc count, false) else rest

abbrev pub rows_error : RowsEnd → Bool × Option PoolError
rows_error no_error = (true, none)
rows_error deadline_exceeded = (false, some passed_on)
rows_error canceled = (false, some passed_on)
rows_error other_error = (false, none)

-- whether the connection is drained, and the error
pub drain_rows : ℤ → Conn → Bool × Option PoolError
drain_rows max c = elim c.probe [
  | none ↦ (false, some drain_rows_probe)
  | some (rows, ending) ↦ if (drain_loop max 0 rows).1 then rows_error ending else (false, none)
]

abbrev pub is_none {ℓ} : {A : Type ℓ} → Option A → Bool
is_none none = true
is_none (some a) = false

-- `AfterRelease`: whether the connection goes back to the pool
pub after_release : Config → Conn → Bool
after_release cfg c =
    let drained = drain_rows cfg.drain_rows_before_kill c in
    if not (is_none (rollback_if_needed c))
    then false
    else if not (is_none drained.1)
    then false
    else if not drained.0
    then false
    else true

-- What the loop of `warm` receives: the context is done, or the ticker fired and the pool has so many
-- idle connections.
pub data WarmEvent : Type 0 where
  context_done : WarmEvent
  tick : ℤ → WarmEvent

pub data Warmed : Type 0 where
  warm_done : Warmed
  warm_failed : PoolError → Warmed
  -- the events are used up
  still_waiting : Warmed

pub warm : ℤ → List WarmEvent → Warmed
warm min [] = still_waiting
warm min (context_done ∷ es) = warm_failed warm_cancelled
warm min (tick idle ∷ es) =
    let rest = warm min es in if not (ltb_ℤ idle min) then warm_done else rest

-- `pgxpool.Config`, by the fields that `New` sets
pub record Settings : Type 0 where
  pub max_conns : ℤ
  pub min_conns : ℤ
  pub max_conn_lifetime : ℤ
  pub max_conn_idle_time : ℤ
  pub after_release : Conn → Bool

pub data Call : Type 0 where
  acquired released : Call
  inner_closed rows_closed row_scanned tx_committed tx_rolled_back : Call

pub data Created : Type 0 where
  creates : Config → Settings → Created
  creation_failed : PoolError → List Call → Created
  creation_waits : Created

pub settings_of : Config → Settings
settings_of cfg = record {
  max_conns = cfg.max_conns;
  min_conns = cfg.min_conns;
  max_conn_lifetime = cfg.max_conn_time;
  max_conn_idle_time = cfg.max_idle_time;
  after_release = after_release cfg;
}

abbrev pub warmed_pool : Config → Warmed → Created
warmed_pool cfg warm_done = creates cfg (settings_of cfg)
warmed_pool cfg (warm_failed e) = creation_failed warm_pool (inner_closed ∷ [])
warmed_pool cfg still_waiting = creation_waits

-- `New`; `parses` and `opens` say whether ParseConfig and NewWithConfig succeed.
module _ (parses : String → Bool) (opens : Settings → Bool) where
  pub new : Config → List WarmEvent → Created
  new c events =
      let cfg = set_default c in
      if not (parses cfg.dsn)
      then creation_failed parse_connection_string []
      else if not (opens (settings_of cfg))
      then creation_failed create_pool []
      else warmed_pool cfg (warm cfg.min_conns events)

-- What a method of the pool returns, with the calls that it made; a handle keeps the connection.
pub data Result {ℓ} (A : Type ℓ) : Type ℓ where
  failed : PoolError → List Call → Result A
  returned : A → List Call → Result A

-- The arguments are what Acquire and the call on the connection answer.
pub exec {ℓ} : {A : Type ℓ} → Bool → Option A → Result A
exec false r = failed acquire_conn []
exec true none = failed exec_conn (acquired ∷ released ∷ [])
exec true (some tag) = returned tag (acquired ∷ released ∷ [])

-- `autoReleaseRows`, with the calls made for it
pub record Rows : Type 0 where
  pub is_closed_already : Bool
  pub calls : List Call

pub query : Bool → Bool → Result Rows
query false ok = failed acquire_conn []
query true false = failed query_conn (acquired ∷ released ∷ [])
query true true =
    returned (record { is_closed_already = false; calls = acquired ∷ [] }) (acquired ∷ [])

pub close_rows : Rows → Rows
close_rows r =
    if r.is_closed_already
    then r
    else record { is_closed_already = true; calls = r.calls ++ (rows_closed ∷ released ∷ []) }

-- `autoReleaseRow` and `errRow`
pub data Row : Type 0 where
  auto_release_row : List Call → Row
  err_row : PoolError → Row

pub query_row : Bool → Row
query_row true = auto_release_row (acquired ∷ [])
query_row false = err_row acquire_row

-- `Scan`, by what the inner Scan answers
pub scan : Bool → Row → Row × Option PoolError
scan ok (err_row e) = (err_row e, some e)
scan ok (auto_release_row cs) =
    (auto_release_row (cs ++ (row_scanned ∷ released ∷ [])), if ok then none else some passed_on)

-- `autoReleaseTx`
pub record Tx : Type 0 where
  pub done : Bool
  pub calls : List Call

pub begin_tx : Bool → Bool → Result Tx
begin_tx false ok = failed acquire_conn []
begin_tx true false = failed begin_tx_conn (acquired ∷ released ∷ [])
begin_tx true true = returned (record { done = false; calls = acquired ∷ [] }) (acquired ∷ [])

pub commit : Bool → Tx → Tx × Option PoolError
commit ok t = if t.done then (t, some tx_already_closed) else (
  record { done = true; calls = t.calls ++ (tx_committed ∷ released ∷ []) },
  if ok then none else some passed_on,
)

pub rollback : Bool → Tx → Tx × Option PoolError
rollback ok t = if t.done then (t, none) else (
  record { done = true; calls = t.calls ++ (tx_rolled_back ∷ released ∷ []) },
  if ok then none else some passed_on,
)

-- `ParameterStatuses`; `status` is what the connection says, and the parameters are the code's.
abbrev pub parameters : List String
parameters =
    "server_version" ∷ "server_encoding" ∷ "client_encoding" ∷ "default_transaction_read_only"
    ∷ "in_hot_standby" ∷ "integer_datetimes" ∷ "TimeZone" ∷ "DateStyle" ∷ []

-- the map of the parameters that have a value
pub collect : (String → String) → List String → List (String × String)
collect status [] = []
collect status (p ∷ ps) =
    let rest = collect status ps in if str_eq (status p) "" then rest else (p, status p) ∷ rest

pub parameter_statuses : (String → String) → Bool → Result (List (String × String))
parameter_statuses status false = failed conn_acquire []
parameter_statuses status true = returned (collect status parameters) (acquired ∷ released ∷ [])

-- `WithConn`: `f` is what the callback returns, with the calls that it makes.
unfoldable pub with_conn : Bool → Option PoolError × List Call → Option PoolError × List Call
with_conn false f = (some with_conn_acquire, [])
with_conn true (e, cs) = (e, acquired ∷ (cs ++ (released ∷ [])))
