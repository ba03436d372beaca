-- ===== src/Lib.antt =====
-- Verification of catfish, a priority-aware Postgres connection pooler written in Go.
--
-- A client's query is forwarded by proxy/ only after it has acquired a token of the semaphore in
-- backpressure/semaphore.go. The semaphore keeps, for each priority, a queue of waiters
-- (backpressure/codel.go) over a circular deque (utils/deque/deque.go), and a debt that decays
-- (backpressure/decay.go); config/ validates the tiers that give the priorities; pool/ keeps the
-- connections to Postgres.
--
-- Which file models which part:
--   Prelude               shared names, lists over native numbers, windows of a circular array, ℤ
--   Deque                 utils/deque/deque.go: the record Deque and one function per method
--   Deque.Bounded         the abstract deque, a list with a bound; Inv, Steps, Refine, Pops and
--                         Script lead from the circular array to it
--   Backpressure.Decay    backpressure/decay.go, linearDecay; Laws has its properties
--   Backpressure.Waiter   backpressure/codel.go, coDelWaiter: admit, drop and wait, over a store
--   Backpressure.Codel    backpressure/codel.go, coDel; View and Reap show it as a list of waiters
--   Backpressure.Semaphore
--                         backpressure/semaphore.go: Acquire, Release, admit, background, Close and
--                         NewSemaphore; its children are about the bounds, the order of service,
--                         the state of the reap ticker and the order of the debts
--   Backpressure.Callers  the semaphore with the goroutines that call it: the relation Step has a case
--                         for a call that is granted at once, a call that queues, a wake of a waiting
--                         caller, a release and a firing of the ticker; Tokens has the results about
--                         every state that they reach, Lost those about a waiter in no queue, and
--                         Overflown how it comes to be so
--   Pool                  pool/pool.go: SetDefault, New, warm, AfterRelease, the methods and the handles
--                         that release their connection; Release and Handles are about these two
--   Config                config/config.go: the structs, validate and Load; Rules and Usable say which
--                         files become a configuration and what a configuration promises
--   Proxy.Session         proxy/proxy.go: clientLoop, handleQuery, streamResponse, relayUntilReady and
--                         the tier index; Relay has what the client receives, Tokens the tokens that a
--                         session holds, Priorities the priority of its requests
--   Proxy.Scram           proxy/clientAuth.go: parseClientFirst and parseClientFinal
--   Proxy.Auth.Wire       proxy/clientAuth.go: the connection during the handshake, as a state monad
--                         with errors; Effects has the rules for a successful exchange
--   Proxy.Auth.Methods    proxy/clientAuth.go: authClearText, authMD5, authSCRAM and doAuth; Users is
--                         about the index of the users, Accepted and Handshake say what an accepted
--                         client has shown, Client and Complete which clients are accepted
--   Proxy.Server          proxy/proxy.go: New, poolKey and handleClient; Keys and Opening are about
--                         the pools that New opens and closes, Handling about what becomes of a client
--   Proxy.Lifecycle       proxy/proxy.go: Listen and Close; Shutdown is about repeated calls of Close and
--                         the end of Listen
--
-- Correspondence. A method that updates its receiver is a function that returns the new state. A
-- panic is a value (`none` for the deque, `panics` for the semaphore). Every method of the semaphore
-- runs under its mutex and is one function of the whole state, with the time that it reads as the
-- argument `now`. `queues[i]` and `debt[i]`, two slices of the length of the tiers that are never
-- resized, are the two fields of a Level. Waiters are shared by pointer with the goroutines that
-- wait on them, so they live in a store, and a pointer is an address, nil being 0; their channel,
-- of capacity 1, is the list of the values sent and not received.
--
-- Numbers. Tokens and times are natural numbers: all callers acquire and release one token, and
-- times are nanoseconds of a monotonic clock. A difference of times stops at 0, where the source
-- compares a negative duration with a timeout that is not negative, or takes `math.Max(0, …)` of it.
-- The `int` fields hold at most the capacity and the queue sizes, and cannot overflow. The float64
-- debts are modelled exactly, in units in which every amount is a whole number: a token is
-- debtDecayInterval (in nanoseconds) times the denominator of debtForgivePerSuccess of them. The
-- rounding of float64 is not modelled.
--
-- Loops. The loop of `reap` and the inner loop of `admit` remove an item of the queue in each round,
-- so the length of the queue is fuel for all of them. Each round of the client loop takes a message of
-- the client, so one more than the number of its messages is enough fuel.
--
-- Callers. A caller whose waiter is queued is woken with a value of its channel, by its context, or by
-- both at once, and `wait` says what it is told. Callers give back only tokens that they hold, and
-- Acquire may be called with any amount; Close of the semaphore is no step of theirs.
--
-- Handshake. The messages of the client, the results of the flushes and the random bytes are lists in
-- the state of the connection, and what is sent is kept in order. Texts of the protocol are lists of
-- bytes. The parameter statuses, a map, are sent in the order of a list. An error is the error of
-- proxy/errors.go that the source wraps, without the values and the inner error; the error of the
-- messages before ReadyForQuery is auth_ok_send.
--
-- Pools of the server. A pool is named by the number of the call that opened it, and the map of pools
-- is an association list, closed in the order of its entries.
--
-- Parameters. The file system, the YAML parser and the environment are arguments of Load. MD5,
-- HMAC-SHA-256, SHA-256, PBKDF2, Base64, hexadecimal digits and the bytes of a text are the fields of
-- the record Crypto; where a result needs it, IsGoLibrary says of Base64 that it decodes what it
-- encoded, has no comma and is not blank on a text that is not, and of HMAC-SHA-256 that its size is 32.
-- What pgx and pgxpool answer is an argument of the functions of Pool, and what New of the proxy
-- receives from pool.New and ParameterStatuses is a function of the number of the call and the
-- pool's configuration. A session receives what the client and Postgres send, the results of its
-- flushes and the answers of Acquire from lists in its state; its calls of pgproto3 and of the
-- semaphore are recorded in a trace.
--
-- Not modelled: cmd/, which only parses flags, calls Load, NewSemaphore, New, Listen and Close, and
-- waits for a signal. In proxy/proxy.go isClosedErr only chooses an empty branch and postgresAddr has
-- no caller, and Stat and Close of pool/ only pass on a call. The Go scheduler and the ticker's own
-- timing are outside the model: a firing of the ticker is a call of background_tick.
pub mod Backpressure
pub mod Config
pub mod Deque
pub mod Pool
pub mod Prelude
pub mod Proxy
