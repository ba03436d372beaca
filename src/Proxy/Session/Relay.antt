-- ===== src/Proxy/Session/Relay.antt =====
-- proxy/proxy.go: what the client receives of an answer of Postgres.
use catfish.Prelude.{ℕ, ◌≡◌, refl, ap, ◌∙◌, true, false, none, List, [], ◌∷◌, ◌++◌, append_assoc}
use catfish.Proxy.Session.{
  BackendMessage, row_description, data_row, command_complete, notice_response, other_response,
  error_response, ready_for_query, Call, send_app, Session, log, progress, stream_response,
  status_of, relay_until_ready,
}

-- The messages that a trace, newest first, sends to the client, oldest first.
abbrev pub app_messages : List Call → List BackendMessage
app_messages [] = []
app_messages (send_app m ∷ cs) = app_messages cs ++ (m ∷ [])
app_messages (c ∷ cs) = app_messages cs

-- An answer of Postgres that is complete: some messages, none of them a ReadyForQuery, then one.
pub data Answer (status : ℕ) (later : List BackendMessage)
    : List BackendMessage → List BackendMessage → Type 0 where
  last : Answer status later (ready_for_query status ∷ later) (ready_for_query status ∷ [])
  part :
      {m : BackendMessage} {ms sent : List BackendMessage}
      → status_of m ≡ none
      → Answer status later ms sent
      → Answer status later (m ∷ ms) (m ∷ sent)

-- Where relayUntilReady ends without an error, streamResponse does the same to the session, and it
-- also resets queryInProgress.
pub stream-relay :
    (ms : List BackendMessage) (s : Session)
    → (relay_until_ready ms s).1 ≡ true
    → stream_response ms s ≡ progress false (relay_until_ready ms s).0
unfolding stream_response relay_until_ready
stream-relay [] s e = absurd (cc e)
stream-relay (ready_for_query t ∷ ms) s e = refl
stream-relay (row_description x ∷ ms) s e = stream-relay ms (log (send_app (row_description x)) s) e
stream-relay (data_row x ∷ ms) s e = stream-relay ms (log (send_app (data_row x)) s) e
stream-relay (command_complete x ∷ ms) s e =
    stream-relay ms (log (send_app (command_complete x)) s) e
stream-relay (error_response c x ∷ ms) s e =
    stream-relay ms (log (send_app (error_response c x)) s) e
stream-relay (notice_response x ∷ ms) s e = stream-relay ms (log (send_app (notice_response x)) s) e
stream-relay (other_response x ∷ ms) s e = stream-relay ms (log (send_app (other_response x)) s) e

-- What a relay does with a complete answer.
pub record Relays (s : Session) (status : ℕ) (later sent : List BackendMessage) (t : Session)
    : Type 0 where
  pub forwarded : app_messages t.trace ≡ app_messages s.trace ++ sent
  pub status_kept : t.tx_status ≡ status
  pub left : t.postgres ≡ later

pub relay-Relays :
    {status : ℕ} {later ms sent : List BackendMessage} (s : Session)
    → Answer status later ms sent
    → (t : Session) × (relay_until_ready ms s ≡ (t, true)) × Relays s status later sent t
unfolding relay_until_ready
relay-Relays s last = (_, refl, record { forwarded = refl; status_kept = refl; left = refl })
relay-Relays s (part {m} {ms} {sent} e a) =
    let (t, k, r) = relay-Relays (log (send_app m) s) a in
    (
      t,
      rw (relay_until_ready, e, k),
      record {
        forwarded = r.forwarded ∙ append_assoc (app_messages s.trace) (m ∷ []) sent;
        status_kept = r.status_kept;
        left = r.left;
      },
    )

-- Where the messages of Postgres begin with a complete answer, streamResponse forwards it up
-- to its ReadyForQuery, in order and with nothing left out or added; it takes over its transaction
-- status, leaves what comes after the answer and resets queryInProgress.
pub stream-Relays :
    {status : ℕ} {later ms sent : List BackendMessage} (s : Session)
    → Answer status later ms sent
    → Relays s status later sent (stream_response ms s)
      × ((stream_response ms s).query_in_progress ≡ false)
stream-Relays {ms} s a =
    let (t, e, r) = relay-Relays s a in
    let k = stream-relay ms s (ap (λ x. x.1) e) ∙ ap (λ x. progress false x.0) e in
    rw k (record { forwarded = r.forwarded; status_kept = r.status_kept; left = r.left }, refl)
