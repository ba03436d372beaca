-- ===== src/Backpressure/Semaphore/Moves.antt =====
-- backpressure/semaphore.go: what its operations do to the waiters, as a sequence of removals from
-- the queues, each of which drops a waiter or tries to admit it.
use catfish.Prelude.{ℕ, ◌+◌, Bool, List, [], ◌∷◌, ◌++◌, if◌then◌else◌}
use catfish.Deque.Refine.{contents}
use catfish.Backpressure.Waiter.{Store, drop, admit}
use catfish.Backpressure.Codel.{Codel, nil}
use catfish.Backpressure.Semaphore.{Level}

-- `qs` is `ps` without one `a`.
pub data Removes (a : ℕ) : List ℕ → List ℕ → Type 0 where
  here : {ps : List ℕ} → Removes a (a ∷ ps) ps
  there : {b : ℕ} {ps qs : List ℕ} → Removes a ps qs → Removes a (b ∷ ps) (b ∷ qs)

pub Removes-right :
    {a : ℕ} {ps qs : List ℕ} (rs : List ℕ) → Removes a ps qs → Removes a (ps ++ rs) (qs ++ rs)
Removes-right rs here = here
Removes-right rs (there r) = there (Removes-right rs r)

pub Removes-left :
    {a : ℕ} {ps qs : List ℕ} (rs : List ℕ) → Removes a ps qs → Removes a (rs ++ ps) (rs ++ qs)
Removes-left [] r = r
Removes-left (x ∷ rs) r = there (Removes-left rs r)

pub Removes-end : (a : ℕ) (l : List ℕ) → Removes a (l ++ (a ∷ [])) l
Removes-end a [] = here
Removes-end a (x ∷ l) = there (Removes-end a l)

abbrev pub charged : ℕ → ℕ → Bool → ℕ
charged out payload ok = if ok then out + payload else out

-- From the queued waiters, the store and the tokens out to those after some removals.
pub data Moves : List ℕ → Store → ℕ → List ℕ → Store → ℕ → Type 0 where
  done : {ps : List ℕ} {s : Store} {o : ℕ} → Moves ps s o ps s o
  drops :
      {ps qs ps' : List ℕ} {s s' : Store} {o o' : ℕ} (a : ℕ)
      → Removes a ps qs
      → Moves qs (drop a s) o ps' s' o'
      → Moves ps s o ps' s' o'
  admits :
      {ps qs ps' : List ℕ} {s s' : Store} {o o' : ℕ} (a : ℕ)
      → Removes a ps qs
      → Moves qs (admit a s).0 (charged o (s.at a).payload (admit a s).1) ps' s' o'
      → Moves ps s o ps' s' o'

pub Moves-trans :
    {ps qs rs : List ℕ} {s t u : Store} {o p q : ℕ}
    → Moves ps s o qs t p
    → Moves qs t p rs u q
    → Moves ps s o rs u q
Moves-trans done n = n
Moves-trans (drops a r m) n = drops a r (Moves-trans m n)
Moves-trans (admits a r m) n = admits a r (Moves-trans m n)

pub Moves-right :
    {ps qs : List ℕ} {s t : Store} {o p : ℕ} (rs : List ℕ)
    → Moves ps s o qs t p
    → Moves (ps ++ rs) s o (qs ++ rs) t p
Moves-right rs done = done
Moves-right rs (drops a r m) = drops a (Removes-right rs r) (Moves-right rs m)
Moves-right rs (admits a r m) = admits a (Removes-right rs r) (Moves-right rs m)

pub Moves-left :
    {ps qs : List ℕ} {s t : Store} {o p : ℕ} (rs : List ℕ)
    → Moves ps s o qs t p
    → Moves (rs ++ ps) s o (rs ++ qs) t p
Moves-left rs done = done
Moves-left rs (drops a r m) = drops a (Removes-left rs r) (Moves-left rs m)
Moves-left rs (admits a r m) = admits a (Removes-left rs r) (Moves-left rs m)

-- The waiters in one queue, and in all.
abbrev pub queued_in : Codel → List ℕ
queued_in c = contents nil c.items

abbrev pub queued : List Level → List ℕ
queued [] = []
queued (l ∷ ls) = queued_in l.queue ++ queued ls
