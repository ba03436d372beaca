-- ===== src/Proxy/Session/Tokens.antt =====
-- proxy/proxy.go: the tokens that a session holds.
use Prim.Native.String.{String}
use catfish.Prelude.{
  ℕ, zero, suc, ◌+◌, ◌-◌, ◌≤◌, ◌<◌, ◌≡◌, refl, inl, inr, Bool, true, false, Option, some, List, [],
  ◌∷◌, arith, Bool-cases, Option-cases, length, if◌then◌else◌,
}
use catfish.Prelude.Int.{ℤ}
use catfish.Proxy.Session.{
  FrontendMessage, query, extended, terminate, flush, sync, BackendMessage, row_description,
  data_row, command_complete, notice_response, other_response, error_response, ready_for_query,
  Call, send_app, send_postgres, flush_postgres, acquired, released, Session, log, progress,
  send_error, send_ready_for_query, answer, flush_checked, acquire_token, stream_response,
  status_of, relay_until_ready, run_query, handle_query, Round, continues, ends, feed, sync_end,
  forward, extended_round, release_all, client_loop, after_round, target_priority,
}

-- The tokens held after a trace, newest first.
abbrev pub held : List Call → ℕ
held [] = 0
held (acquired p ∷ cs) = suc (held cs)
held (released ∷ cs) = held cs - 1
held (c ∷ cs) = held cs

-- The relays, and what answers a client, leave the tokens and the client's messages alone.
abbrev Same : Session → Session → Type 0
Same s t = (held t.trace ≡ held s.trace) × (t.client ≡ s.client)

stream_response-held : (ms : List BackendMessage) (s : Session) → Same s (stream_response ms s)
unfolding stream_response send_error
stream_response-held [] s = (refl, refl)
stream_response-held (ready_for_query t ∷ ms) s = (refl, refl)
stream_response-held (row_description x ∷ ms) s = stream_response-held ms _
stream_response-held (data_row x ∷ ms) s = stream_response-held ms _
stream_response-held (command_complete x ∷ ms) s = stream_response-held ms _
stream_response-held (error_response c x ∷ ms) s = stream_response-held ms _
stream_response-held (notice_response x ∷ ms) s = stream_response-held ms _
stream_response-held (other_response x ∷ ms) s = stream_response-held ms _

stream_response-progress :
    (ms : List BackendMessage) (s : Session) → (stream_response ms s).query_in_progress ≡ false
unfolding stream_response send_error
stream_response-progress [] s = refl
stream_response-progress (ready_for_query t ∷ ms) s = refl
stream_response-progress (row_description x ∷ ms) s = stream_response-progress ms _
stream_response-progress (data_row x ∷ ms) s = stream_response-progress ms _
stream_response-progress (command_complete x ∷ ms) s = stream_response-progress ms _
stream_response-progress (error_response c x ∷ ms) s = stream_response-progress ms _
stream_response-progress (notice_response x ∷ ms) s = stream_response-progress ms _
stream_response-progress (other_response x ∷ ms) s = stream_response-progress ms _

run_query-held : (m : FrontendMessage) (s : Session) → Same s (run_query m s)
unfolding run_query flush_checked send_error
run_query-held m s = elim (Bool-cases (answer s.flushes).0) [
  | inl e ↦ rw e (stream_response-held s.postgres _)
  | inr e ↦ rw e (refl, refl)
]

run_query-progress : (m : FrontendMessage) (s : Session) → (run_query m s).query_in_progress ≡ false
unfolding run_query flush_checked send_error
run_query-progress m s = elim (Bool-cases (answer s.flushes).0) [
  | inl e ↦ rw e (stream_response-progress s.postgres _)
  | inr e ↦ rw e
]

handle_query-Same : (p : ℤ) (m : FrontendMessage) (s : Session) → Same s (handle_query p m s)
unfolding handle_query acquire_token send_error send_ready_for_query
handle_query-Same p m s = elim (Bool-cases (answer s.grants).0) [
  | inl e ↦
      let (h, c) =
        run_query-held m (log (acquired p) (record s { grants = (answer s.grants).1 })) in
      rw e (omega (arith, h), c)
  | inr e ↦ rw e (refl, refl)
]

handle_query-progress :
    (p : ℤ) (m : FrontendMessage) (s : Session)
    → s.query_in_progress ≡ false
    → (handle_query p m s).query_in_progress ≡ false
unfolding handle_query acquire_token send_error send_ready_for_query
handle_query-progress p m s h = elim (Bool-cases (answer s.grants).0) [
  | inl e ↦ rw e (run_query-progress m _)
  | inr e ↦ rw e h
]

-- A simple query gives back the token that it acquires, whatever Postgres and the network do, and
-- leaves queryInProgress unset if it was.
pub handle_query-held :
    (p : ℤ) (m : FrontendMessage) (s : Session)
    → s.query_in_progress ≡ false
    → (held (handle_query p m s).trace ≡ held s.trace)
      × ((handle_query p m s).query_in_progress ≡ false)
handle_query-held p m s h = ((handle_query-Same p m s).0, handle_query-progress p m s h)

relay-held : (ms : List BackendMessage) (s : Session) → Same s (relay_until_ready ms s).0
unfolding relay_until_ready
relay-held [] s = (refl, refl)
relay-held (m ∷ ms) s = elim (Option-cases (status_of m)) [
  | inl e ↦ rw (relay_until_ready, e) (relay-held ms (log (send_app m) s))
  | inr (t, e) ↦ rw (relay_until_ready, e) (refl, refl)
]

abbrev pub session_of : Round → Session
session_of (continues s) = s
session_of (ends s) = s

sync_end-held : (s : Session) → Same s (session_of (sync_end s))
unfolding sync_end flush_checked send_error
sync_end-held s =
    let s' = log flush_postgres (record s { flushes = (answer s.flushes).1 }) in
    elim (Bool-cases (answer s.flushes).0) [
      | inr e ↦ rw e (refl, refl)
      | inl e ↦ elim (Bool-cases (relay_until_ready s.postgres s').1) [
        | inl k ↦ rw (e, k) (relay-held s.postgres s')
        | inr k ↦ rw (e, k) (relay-held s.postgres s')
      ]
    ]

-- The inner loop takes no token and gives none back, and reads only what is left of the client's
-- messages.
forward-held :
    (m : FrontendMessage) (rest : List FrontendMessage) (s : Session)
    → let t = session_of (forward m rest s) in
      (held t.trace ≡ held s.trace) × (length t.client ≤ length rest)
unfolding forward
forward-held sync rest s =
    let (h, c) = sync_end-held (feed sync (record s { client = rest })) in (h, rw c (omega arith))
forward-held (query x) [] s = (refl, omega arith)
forward-held (query x) (n ∷ rest) s =
    let r = forward-held n rest (feed (query x) s) in (r.0, omega (arith, r.1))
forward-held (extended x) [] s = (refl, omega arith)
forward-held (extended x) (n ∷ rest) s =
    let r = forward-held n rest (feed (extended x) s) in (r.0, omega (arith, r.1))
forward-held terminate [] s = (refl, omega arith)
forward-held terminate (n ∷ rest) s =
    let r = forward-held n rest (feed terminate s) in (r.0, omega (arith, r.1))
forward-held flush [] s = (refl, omega arith)
forward-held flush (n ∷ rest) s =
    let r = forward-held n rest (feed flush s) in (r.0, omega (arith, r.1))

extended_round-held :
    (p : ℤ) (m : FrontendMessage) (s : Session)
    → let r = extended_round p m s in
      let t = session_of r.0 in
      (held t.trace ≡ (if r.1 then suc (held s.trace) else held s.trace))
      × (length t.client ≤ length s.client)
unfolding extended_round acquire_token send_error send_ready_for_query
extended_round-held p m s = elim (Bool-cases (answer s.grants).0) [
  | inl e ↦ rw e (
      forward-held m s.client
        (progress true (log (acquired p) (record s { grants = (answer s.grants).1 }))))
  | inr e ↦ rw e (refl, omega arith)
]

-- queryInProgress after a sequence after which the loop goes on
abbrev pub Keeps : Bool → Round → Type 0
Keeps b (continues t) = t.query_in_progress ≡ b
Keeps b (ends t) = Unit

relay-progress :
    (ms : List BackendMessage) (s : Session)
    → (relay_until_ready ms s).0.query_in_progress ≡ s.query_in_progress
unfolding relay_until_ready
relay-progress [] s = refl
relay-progress (m ∷ ms) s = elim (Option-cases (status_of m)) [
  | inl e ↦ rw (relay_until_ready, e) (relay-progress ms (log (send_app m) s))
  | inr (t, e) ↦ rw (relay_until_ready, e)
]

sync_end-Keeps : (s : Session) → Keeps s.query_in_progress (sync_end s)
unfolding sync_end flush_checked send_error
sync_end-Keeps s =
    let s' = log flush_postgres (record s { flushes = (answer s.flushes).1 }) in
    elim (Bool-cases (answer s.flushes).0) [
      | inr e ↦ rw e tt
      | inl e ↦ elim (Bool-cases (relay_until_ready s.postgres s').1) [
        | inl k ↦ rw (e, k) (relay-progress s.postgres s')
        | inr k ↦ rw (e, k) tt
      ]
    ]

forward-Keeps :
    (m : FrontendMessage) (rest : List FrontendMessage) (s : Session)
    → Keeps s.query_in_progress (forward m rest s)
unfolding forward
forward-Keeps sync rest s = sync_end-Keeps (feed sync (record s { client = rest }))
forward-Keeps (query x) [] s = tt
forward-Keeps (query x) (n ∷ rest) s = forward-Keeps n rest (feed (query x) s)
forward-Keeps (extended x) [] s = tt
forward-Keeps (extended x) (n ∷ rest) s = forward-Keeps n rest (feed (extended x) s)
forward-Keeps terminate [] s = tt
forward-Keeps terminate (n ∷ rest) s = forward-Keeps n rest (feed terminate s)
forward-Keeps flush [] s = tt
forward-Keeps flush (n ∷ rest) s = forward-Keeps n rest (feed flush s)

-- Where a sequence leaves a session that held `h` tokens: if the loop goes on, it holds one more and
-- queryInProgress is set; if it ends, it holds one more exactly if it was granted one.
abbrev pub Leaks : ℕ → Round × Bool → Type 0
Leaks h (continues t, got) = (got ≡ true) × (held t.trace ≡ suc h) × (t.query_in_progress ≡ true)
Leaks h (ends t, got) = held t.trace ≡ (if got then suc h else h)

Leaks-granted :
    (h : ℕ) (r : Round) → held (session_of r).trace ≡ suc h → Keeps true r → Leaks h (r, true)
Leaks-granted h (continues t) e k = (refl, e, k)
Leaks-granted h (ends t) e k = e

-- A sequence of the extended protocol does not give back the token that it acquires: whenever the
-- client loop goes on after it, the session holds one token more than before, and queryInProgress is
-- set; when the loop ends in it, the session holds one more if it was granted one, and else as many.
pub extended_round-Leaks :
    (p : ℤ) (m : FrontendMessage) (s : Session) → Leaks (held s.trace) (extended_round p m s)
unfolding extended_round acquire_token send_error send_ready_for_query
extended_round-Leaks p m s =
    let s' = progress true (log (acquired p) (record s { grants = (answer s.grants).1 })) in
    elim (Bool-cases (answer s.grants).0) [
      | inl e ↦ rw e (
          Leaks-granted (held s.trace) (forward m s.client s') (forward-held m s.client s').0
            (forward-Keeps m s.client s'))
      | inr e ↦ rw e refl
    ]

release_all-held : (n k : ℕ) (s : Session) → held s.trace ≡ n + k → held (release_all n s).trace ≡ k
unfolding release_all
release_all-held zero k s h = omega (arith, h)
release_all-held (suc n) k s h = release_all-held n k (log released s) (omega (arith, h))

module _ (tiers : List String) (tier : String) where
  -- The loop on this fuel returns, holding `k` tokens.
  abbrev pub Returns : ℕ → ℕ → Session → ℕ → Type 0
  Returns f d s k = (t : Session) × (client_loop tiers tier f d s ≡ some t) × (held t.trace ≡ k)

  abbrev pub goes_on : ℕ → ℕ → Round × Bool → Option Session
  goes_on f d r = after_round (client_loop tiers tier f) d r

  round-Returns :
      (f d k n h : ℕ) (r : Round × Bool)
      → ((e : ℕ) (t : Session) → length t.client ≤ n → held t.trace ≡ e + k → Returns f e t k)
      → h ≡ d + k
      → (held (session_of r.0).trace ≡ (if r.1 then suc h else h))
        × (length (session_of r.0).client ≤ n)
      → (t : Session) × (goes_on f d r ≡ some t) × (held t.trace ≡ k)
  round-Returns f d k n h (continues t, true) ih e x = ih (suc d) t x.1 (omega (arith, e, x.0))
  round-Returns f d k n h (continues t, false) ih e x = ih d t x.1 (omega (arith, e, x.0))
  round-Returns f d k n h (ends t, true) ih e x =
      (release_all (suc d) t, refl, release_all-held (suc d) k t (omega (arith, e, x.0)))
  round-Returns f d k n h (ends t, false) ih e x =
      (release_all d t, refl, release_all-held d k t (omega (arith, e, x.0)))

  -- one round of the loop on a sequence of the extended protocol, and on any message
  module _ (f d k : ℕ)
      (ih : (e : ℕ) (t : Session) → length t.client < f → held t.trace ≡ e + k → Returns f e t k)
      (s : Session) (h : held s.trace ≡ d + k) where
    default_returns :
        (m : FrontendMessage) (rest : List FrontendMessage)
        → length rest < f
        → (t : Session) × (goes_on f d
              (extended_round (target_priority tiers tier) m (record s { client = rest }))
            ≡ some t)
          × (held t.trace ≡ k)
    default_returns m rest l =
        round-Returns f d k (length rest) (held s.trace) _
          (λ e t c h'. ih e t (omega (arith, c, l)) h') h
          (extended_round-held (target_priority tiers tier) m (record s { client = rest }))

    step-Returns :
        (ms : List FrontendMessage)
        → length ms < suc f
        → Returns (suc f) d (record s { client = ms }) k
    unfolding client_loop
    step-Returns [] l = (_, refl, release_all-held d k (record s { client = [] }) h)
    step-Returns (query x ∷ rest) l =
        let s' = record s { client = rest } in
        let (a, c) = handle_query-Same (target_priority tiers tier) (query x) s' in
        let (t, r, u) =
          ih d (handle_query (target_priority tiers tier) (query x) s') (rw c (omega (arith, l)))
            (omega (arith, a, h)) in
        (t, r, u)
    step-Returns (terminate ∷ rest) l =
        let t = log flush_postgres (log (send_postgres terminate) (record s { client = rest })) in
        (release_all d t, refl, release_all-held d k t h)
    step-Returns (extended x ∷ rest) l =
        let (t, r, u) = default_returns (extended x) rest (omega (arith, l)) in (t, r, u)
    step-Returns (flush ∷ rest) l =
        let (t, r, u) = default_returns flush rest (omega (arith, l)) in (t, r, u)
    step-Returns (sync ∷ rest) l =
        let (t, r, u) = default_returns sync rest (omega (arith, l)) in (t, r, u)

  -- With more fuel than the client has messages left, the client loop returns, and it has given back
  -- every token that it acquired: of the tokens held before, those of its deferred calls of Release
  -- are given back too, and the others are kept.
  pub client_loop-held :
      (f d k : ℕ) (s : Session) → length s.client < f → held s.trace ≡ d + k → Returns f d s k
  client_loop-held zero d k s l h = absurd (omega (arith, l))
  client_loop-held (suc f) d k s l h =
      step-Returns f d k (λ e t c h'. client_loop-held f e k t c h') s h s.client l
