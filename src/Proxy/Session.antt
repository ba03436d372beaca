-- ===== src/Proxy/Session.antt =====
-- proxy/proxy.go: clientLoop, handleQuery, relayUntilReady and streamResponse, the session of one
-- authenticated client. What the session receives is part of its state: the messages of the client
-- and of Postgres (an empty list is an error of Receive), the results of the flushes towards Postgres
-- that the code looks at, and the answers of `Acquire`. What it does is its trace, newest first. An
-- error message leaves out the text of the underlying error, which the source appends.
use Prim.Native.String.{String}
use text.Mathlib.Text.{◌==◌}
use catfish.Prelude.{
  ℕ, zero, suc, ◌-◌, Bool, true, false, not, Option, none, some, List, [], ◌∷◌, if◌then◌else◌,
}
use catfish.Prelude.Int.{ℤ, pos, sub_ℕ}
pub mod Relay
pub mod Tokens
pub mod Priorities
mod Tests

-- The messages of the client, by the cases of the type switches; the rest, like Parse and Bind, are
-- `extended`.
pub data FrontendMessage : Type 0 where
  query extended : String → FrontendMessage
  terminate flush sync : FrontendMessage

pub data BackendMessage : Type 0 where
  row_description data_row command_complete notice_response other_response : String → BackendMessage
  error_response : (code message : String) → BackendMessage
  ready_for_query : ℕ → BackendMessage

-- The calls that a session makes.
pub data Call : Type 0 where
  send_app : BackendMessage → Call
  flush_app : Call
  send_postgres : FrontendMessage → Call
  flush_postgres : Call
  acquired refused : ℤ → Call
  released : Call

pub record Session : Type 0 where
  pub client : List FrontendMessage
  pub postgres : List BackendMessage
  pub flushes : List Bool
  pub grants : List Bool
  pub trace : List Call
  pub tx_status : ℕ
  pub query_in_progress : Bool

abbrev pub log : Call → Session → Session
log c s = record s { trace = c ∷ s.trace }

abbrev pub progress : Bool → Session → Session
progress b s = record s { query_in_progress = b }

pub send_error : (code message : String) → Session → Session
send_error code message s = log flush_app (log (send_app (error_response code message)) s)

pub send_ready_for_query : ℕ → Session → Session
send_ready_for_query status s = log flush_app (log (send_app (ready_for_query status)) s)

abbrev pub conn_failed : String
conn_failed = "08006"

abbrev pub too_busy : String
too_busy = "53300"

-- the next of a list of answers, `false` when there is none
abbrev pub answer : List Bool → Bool × List Bool
answer [] = (false, [])
answer (b ∷ bs) = (b, bs)

-- `frontend.Flush()` where its result is looked at
pub flush_checked : Session → Session × Bool
flush_checked s = let r = answer s.flushes in (log flush_postgres (record s { flushes = r.1 }), r.0)

-- `tierIndex` of `New`: the last tier of a name gives its number
pub tier_index : List String → String → Option ℕ
tier_index [] t = none
tier_index (n ∷ ns) t = elim (tier_index ns t) [
  | some i ↦ some (suc i)
  | none ↦ if n == t then some 0 else none
]

-- the number of different names, the size of the map
pub tier_count : List String → ℕ
tier_count [] = 0
tier_count (n ∷ ns) =
    let rest = tier_count ns in elim (tier_index ns n) [ some i ↦ rest | none ↦ suc rest ]

pub target_priority : List String → String → ℤ
target_priority tiers t = elim (tier_index tiers t) [
  | some i ↦ pos i
  | none ↦ sub_ℕ (tier_count tiers) 1
]

-- `Acquire`, by its answer
pub acquire_token : ℤ → Session → Session × Bool
acquire_token p s =
    let r = answer s.grants in
    (log (if r.0 then acquired p else refused p) (record s { grants = r.1 }), r.0)

pub stream_response : List BackendMessage → Session → Session
stream_response [] s = progress false (
    send_error conn_failed "catfish/proxy : lost connection to postgres mid-response"
      (record s { postgres = [] }))
stream_response (ready_for_query t ∷ ms) s = log flush_app (
    log (send_app (ready_for_query t))
      (record s { postgres = ms; tx_status = t; query_in_progress = false }))
stream_response (row_description x ∷ ms) s =
    stream_response ms (log (send_app (row_description x)) s)
stream_response (data_row x ∷ ms) s = stream_response ms (log (send_app (data_row x)) s)
stream_response (command_complete x ∷ ms) s =
    stream_response ms (log (send_app (command_complete x)) s)
stream_response (error_response c x ∷ ms) s =
    stream_response ms (log (send_app (error_response c x)) s)
stream_response (notice_response x ∷ ms) s =
    stream_response ms (log (send_app (notice_response x)) s)
stream_response (other_response x ∷ ms) s = stream_response ms (log (send_app (other_response x)) s)

abbrev pub status_of : BackendMessage → Option ℕ
status_of (ready_for_query t) = some t
status_of m = none

-- the session, and whether the relay ended without an error
pub relay_until_ready : List BackendMessage → Session → Session × Bool
relay_until_ready [] s = (record s { postgres = [] }, false)
relay_until_ready (m ∷ ms) s =
    let s' = log (send_app m) s in
    let later = relay_until_ready ms s' in
    elim (status_of m) [
      | some t ↦ (log flush_app (record s' { postgres = ms; tx_status = t }), true)
      | none ↦ later
    ]

-- `handleQuery` after the token is acquired, up to the deferred `Release`
pub run_query : FrontendMessage → Session → Session
run_query m s =
    let (s', ok) = flush_checked (log (send_postgres m) (progress true s)) in
    if ok
    then stream_response s'.postgres s'
    else progress false
        (send_error conn_failed "catfish/proxy : failed to forward query to postgres" s')

pub handle_query : ℤ → FrontendMessage → Session → Session
handle_query p m s =
    let (s', ok) = acquire_token p s in
    if ok
    then log released (run_query m s')
    else send_ready_for_query s'.tx_status
        (send_error too_busy "catfish : too busy now, try again later" s')

-- whether the client loop goes on
pub data Round : Type 0 where
  continues : Session → Round
  ends : Session → Round

-- `Send`, and the `Flush` that a Flush message asks for
abbrev pub feed : FrontendMessage → Session → Session
feed flush s = log flush_postgres (log (send_postgres flush) s)
feed m s = log (send_postgres m) s

-- after a Sync: flush and relay
pub sync_end : Session → Round
sync_end s =
    let (s', ok) = flush_checked s in
    let (t, done) = relay_until_ready s'.postgres s' in
    if not ok
    then ends (
        progress false
          (send_error conn_failed "catfish/proxy : failed to forward query to postgres" s'))
    else if done
    then continues t
    else ends t

-- the inner loop: messages are forwarded until a Sync
pub forward : FrontendMessage → List FrontendMessage → Session → Round
forward sync rest s = sync_end (feed sync (record s { client = rest }))
forward (query x) [] s = ends (progress false (record (feed (query x) s) { client = [] }))
forward (query x) (n ∷ rest) s = forward n rest (feed (query x) s)
forward (extended x) [] s = ends (progress false (record (feed (extended x) s) { client = [] }))
forward (extended x) (n ∷ rest) s = forward n rest (feed (extended x) s)
forward terminate [] s = ends (progress false (record (feed terminate s) { client = [] }))
forward terminate (n ∷ rest) s = forward n rest (feed terminate s)
forward flush [] s = ends (progress false (record (feed flush s) { client = [] }))
forward flush (n ∷ rest) s = forward n rest (feed flush s)

-- the default case of the client loop, up to the deferred `Release`
pub extended_round : ℤ → FrontendMessage → Session → Round × Bool
extended_round p m s =
    let (s', ok) = acquire_token p s in
    if ok then (forward m s'.client (progress true s'), true) else (
      ends (
          send_ready_for_query s'.tx_status
            (send_error too_busy "catfish: too busy, try again later" s')),
      false,
    )

-- the deferred calls of `Release`, run when the client loop returns
pub release_all : ℕ → Session → Session
release_all zero s = s
release_all (suc n) s = release_all n (log released s)

-- What the loop does after the default case: `next` with the deferred calls, or return.
abbrev pub after_round : (ℕ → Session → Option Session) → ℕ → Round × Bool → Option Session
after_round next deferred (continues t, got) = next (if got then suc deferred else deferred) t
after_round next deferred (ends t, got) =
    some (release_all (if got then suc deferred else deferred) t)

-- the client loop on fuel, with the number of its deferred calls of `Release`; `none` is out of fuel
module _ (tiers : List String) (tier : String) where
  abbrev pub priority : ℤ
  priority = target_priority tiers tier

  pub client_loop : ℕ → ℕ → Session → Option Session
  client_loop zero deferred s = none
  client_loop (suc f) deferred s =
      let next = client_loop f in
      elim s.client [
        | [] ↦ some (release_all deferred s)
        | m ∷ rest ↦
            let s' = record s { client = rest } in
            let default = after_round next deferred (extended_round priority m s') in
            elim m [
              | query x ↦ next deferred (handle_query priority (query x) s')
              | terminate ↦
                  some
                    (release_all deferred (log flush_postgres (log (send_postgres terminate) s')))
              | _ ↦ default
            ]
      ]
