-- ===== src/Pool/Handles.antt =====
-- pool/pool.go: the connection that each method acquires is released once.
use Prim.Native.String.{String}
use catfish.Prelude.{
  ℕ, zero, suc, ◌+◌, ◌≡◌, refl, ap, subst, Bool, true, false, Option, none, some, List, [], ◌∷◌,
  map, if◌then◌else◌,
}
use catfish.Pool.{
  Call, acquired, released, rows_closed, tx_committed, tx_rolled_back, Result, failed, returned,
  PoolError, tx_already_closed, passed_on, query, Rows, close_rows, Tx, begin_tx, commit, rollback,
}

abbrev pub acquires : List Call → ℕ
acquires [] = 0
acquires (acquired ∷ cs) = suc (acquires cs)
acquires (c ∷ cs) = acquires cs

abbrev pub releases : List Call → ℕ
releases [] = 0
releases (released ∷ cs) = suc (releases cs)
releases (c ∷ cs) = releases cs

-- A call of a method is over, and every connection it acquired is released.
abbrev pub IsBalanced : List Call → Type 0
IsBalanced cs = acquires cs ≡ releases cs

abbrev pub Balances {ℓ} : {A : Type ℓ} → Result A → Type 0
Balances (failed e cs) = IsBalanced cs
Balances (returned a cs) = IsBalanced cs

-- A method that returns a handle keeps one connection, and releases it if it fails.
abbrev pub Keeps {ℓ} : {A : Type ℓ} → Result A → Type 0
Keeps (failed e cs) = IsBalanced cs
Keeps (returned a cs) = acquires cs ≡ releases cs + 1

-- `Close` any number of times
pub close_times : ℕ → Rows → Rows
close_times zero r = r
close_times (suc n) r = close_times n (close_rows r)

abbrev closed : List Call → Rows
closed cs = record { is_closed_already = true; calls = cs }

closed_stays : (n : ℕ) (cs : List Call) → close_times n (closed cs) ≡ closed cs
unfolding close_times close_rows
closed_stays zero cs = refl
closed_stays (suc n) cs = closed_stays n cs

-- Rows from Query, closed any number of times but at least once, are closed once and release their
-- connection once.
pub rows_released :
    (n : ℕ) (r : Rows) (cs : List Call)
    → query true true ≡ returned r cs
    → (close_times (suc n) r).calls ≡ acquired ∷ rows_closed ∷ released ∷ []
unfolding query close_times close_rows
rows_released n r cs e =
    let p : record { is_closed_already = false; calls = acquired ∷ [] } ≡ r = cc e in
    subst (λ r. (close_times n (close_rows r)).calls ≡ acquired ∷ rows_closed ∷ released ∷ []) p
      (ap (λ q. q.calls) (closed_stays n (acquired ∷ rows_closed ∷ released ∷ [])))

-- calls on a transaction, with what pgx answers to them
pub data TxCall : Type 0 where
  commits rolls_back : Bool → TxCall

pub tx_step : TxCall → Tx → Tx × Option PoolError
tx_step (commits ok) t = commit ok t
tx_step (rolls_back ok) t = rollback ok t

pub tx_run : List TxCall → Tx → Tx × List (Option PoolError)
tx_run [] t = (t, [])
tx_run (x ∷ xs) t = let (t', e) = tx_step x t in let (t'', es) = tx_run xs t' in (t'', e ∷ es)

-- what is called on the inner transaction, and what later calls answer
abbrev pub inner_call : TxCall → Call
inner_call (commits ok) = tx_committed
inner_call (rolls_back ok) = tx_rolled_back

abbrev pub first_answer : TxCall → Option PoolError
first_answer (commits ok) = if ok then none else some passed_on
first_answer (rolls_back ok) = if ok then none else some passed_on

abbrev pub late_answer : TxCall → Option PoolError
late_answer (commits ok) = some tx_already_closed
late_answer (rolls_back ok) = none

abbrev ended : List Call → Tx
ended cs = record { done = true; calls = cs }

tx_run-done :
    (xs : List TxCall) (cs : List Call) → tx_run xs (ended cs) ≡ (ended cs, map late_answer xs)
unfolding tx_run tx_step commit rollback
tx_run-done [] cs = refl
tx_run-done (commits ok ∷ xs) cs = rw (tx_run-done xs cs)
tx_run-done (rolls_back ok ∷ xs) cs = rw (tx_run-done xs cs)

-- The first call ends the transaction.
tx_first :
    (x : TxCall)
    → tx_step x (record { done = false; calls = acquired ∷ [] })
      ≡ (ended (acquired ∷ inner_call x ∷ released ∷ []), first_answer x)
unfolding tx_step commit rollback
tx_first (commits ok) = refl
tx_first (rolls_back ok) = refl

-- Of any calls of Commit and Rollback on a transaction from BeginTx only the first reaches the
-- database, the connection is released once, after it, and of the later calls each Commit answers that
-- the transaction is closed and each Rollback does nothing.
pub tx_lifecycle :
    (x : TxCall) (xs : List TxCall) (t : Tx) (cs : List Call)
    → begin_tx true true ≡ returned t cs
    → ((tx_run (x ∷ xs) t).0.calls ≡ acquired ∷ inner_call x ∷ released ∷ [])
      × ((tx_run (x ∷ xs) t).1 ≡ first_answer x ∷ map late_answer xs)
unfolding begin_tx tx_run
tx_lifecycle x xs t cs e =
    let p : record { done = false; calls = acquired ∷ [] } ≡ t = cc e in
    subst
      (λ t.
        ((tx_run (x ∷ xs) t).0.calls ≡ acquired ∷ inner_call x ∷ released ∷ [])
        × ((tx_run (x ∷ xs) t).1 ≡ first_answer x ∷ map late_answer xs))
      p (rw (tx_first x, tx_run-done xs (acquired ∷ inner_call x ∷ released ∷ [])) (refl, refl))
