-- ===== src/Proxy/Session/Tests.antt =====
-- The theorems about a session at concrete messages.
use catfish.Prelude.{◌≡◌, refl, true, false, [], ◌∷◌, arith}
use catfish.Prelude.Int.{pos}
use catfish.Proxy.Session.{
  query, extended, terminate, sync, data_row, ready_for_query, command_complete, Session,
  stream_response, relay_until_ready, handle_query, extended_round, progress,
}
use catfish.Proxy.Session.Relay.{Answer, Relays, stream-relay, stream-Relays}
use catfish.Proxy.Session.Tokens.{
  held, handle_query-held, Leaks, extended_round-Leaks, Returns, client_loop-held,
}

-- A client that sends a query and two extended sequences, and Postgres' answers to them.
abbrev session : Session
session = record {
  client = query "SELECT 1" ∷ extended "Parse" ∷ sync ∷ sync ∷ terminate ∷ [];
  postgres =
      data_row "1"
      ∷ ready_for_query 73
      ∷ command_complete "SELECT 2"
      ∷ ready_for_query 84
      ∷ ready_for_query 73
      ∷ [];
  flushes = true ∷ true ∷ true ∷ [];
  grants = true ∷ true ∷ true ∷ [];
  trace = [];
  tx_status = 73;
  query_in_progress = false;
}

relay_ends : (relay_until_ready session.postgres session).1 ≡ true
unfolding relay_until_ready
relay_ends = refl

stream-relay_example :
    stream_response session.postgres session
    ≡ progress false (relay_until_ready session.postgres session).0
stream-relay_example = stream-relay session.postgres session relay_ends

stream-Relays_example :
    Relays session 73
      (command_complete "SELECT 2" ∷ ready_for_query 84 ∷ ready_for_query 73 ∷ [])
      (data_row "1" ∷ ready_for_query 73 ∷ [])
      (stream_response session.postgres session)
    × ((stream_response session.postgres session).query_in_progress ≡ false)
stream-Relays_example = stream-Relays session (Answer.part refl Answer.last)

handle_query-held_example :
    (held (handle_query (pos 1) (query "SELECT 1") session).trace ≡ 0)
    × ((handle_query (pos 1) (query "SELECT 1") session).query_in_progress ≡ false)
handle_query-held_example = handle_query-held (pos 1) (query "SELECT 1") session refl

extended_round-Leaks_example : Leaks 0 (extended_round (pos 1) sync session)
extended_round-Leaks_example = extended_round-Leaks (pos 1) sync session

client_loop-held_example : Returns ("low" ∷ []) "low" 9 0 session 0
client_loop-held_example = client_loop-held ("low" ∷ []) "low" 9 0 0 session (omega arith) refl
