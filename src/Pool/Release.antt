-- ===== src/Pool/Release.antt =====
-- pool/pool.go: which connections AfterRelease keeps, and how many rows it reads.
use catfish.Prelude.{ℕ, ◌≤◌, ◌≡◌, ◌⊎◌, true, some}
use catfish.Pool.{Conn, no_error, idle_status}

-- A connection is outside a transaction, or its transaction can be rolled back.
abbrev pub IsClean : Conn → Type 0
IsClean c = (c.tx_status ≡ idle_status) ⊎ (c.rollback_succeeds ≡ true)

-- Its probing query yields at most `max` unread rows, and no error.
abbrev pub IsDrained : ℕ → Conn → Type 0
IsDrained max c = (rows : ℕ) × (c.probe ≡ some (rows, no_error)) × (rows ≤ max)
