-- ===== src/Backpressure/Semaphore/Removals.antt =====
-- backpressure/semaphore.go: `admit` as removals of waiters from the queues.
use catfish.Prelude.{
  ℕ, ◌-◌, ◌≤◌, ◌≡◌, ltb, refl, ap, ◌∙◌, inl, inr, Bool, true, false, none, some, List, [], ◌∷◌,
  arith, Bool-cases, if◌then◌else◌,
}
use catfish.Deque.{len}
use catfish.Deque.Inv.{IsValid}
use catfish.Backpressure.Waiter.{Store, drop, admit}
use catfish.Backpressure.Codel.{Codel, Mode, Popped, empty, peek, pop, reap, timeout_of, set_mode}
use catfish.Backpressure.Codel.View.{
  Shows, PopsTo, idle, took, pop_lem, serve, serve_split, Shows-contents, peek-some, serve-ne,
}
use catfish.Backpressure.Codel.Reap.{reap_list, reap-Shows, is_stale}
use catfish.Backpressure.Semaphore.{
  Limits, Level, Semaphore, Bucket, pop_one, counted, admit_level, reap_all, sweep, can_admit,
  release, background_tick, grants, Outcome, panics,
}
use catfish.Backpressure.Semaphore
use catfish.Backpressure.Semaphore.Rules.{checked, admit_level_keeps, reaped, admit_fields}
use catfish.Backpressure.Semaphore.Invariant.{reap_all_sound}
use catfish.Backpressure.Semaphore.Moves.{
  Removes, here, Removes-end, Moves, done, drops, admits, Moves-trans, Moves-right, Moves-left,
  charged, queued_in, queued,
}
use catfish.Backpressure.Semaphore.Levels.{AllSound, IsSound}

reap_list-Moves :
    (now timeout o : ℕ) (l : List ℕ) (s : Store)
    → Moves l s o (reap_list now timeout l s).0 (reap_list now timeout l s).1 o
unfolding reap_list
reap_list-Moves now timeout o [] s = done
reap_list-Moves now timeout o (a ∷ l) s = elim (Bool-cases (is_stale now timeout s a)) [
  | inl e ↦ rw e (drops a here (reap_list-Moves now timeout o l (drop a s)))
  | inr e ↦ rw e done
]

reap-Moves :
    (now o : ℕ) (c : Codel) (s : Store) {size : ℕ} {l : List ℕ}
    → Shows size l c
    → Moves l s o (queued_in (reap now c s).0) (reap now c s).1 o
reap-Moves now o c s {l} h =
    let (k, e) = reap-Shows c s now h in
    rw (k.items, e) (reap_list-Moves now (timeout_of (set_mode now c)) o l s)

reap_all-Moves :
    (now o : ℕ) (ls : List Level) (s : Store)
    → AllSound ls
    → Moves (queued ls) s o (queued (reap_all now ls s).0) (reap_all now ls s).1 o
unfolding reap_all
reap_all-Moves now o [] s v = done
reap_all-Moves now o (l ∷ ls) s v =
    let r = reap now l.queue s in
    Moves-trans (Moves-right (queued ls) (reap-Moves now o l.queue s (Shows-contents l.queue v.0)))
      (Moves-left (queued_in r.0) (reap_all-Moves now o ls r.1 v.1))

serve-Removes :
    (m : Mode) (l : List ℕ) (a : ℕ) (l' : List ℕ) → serve m l ≡ some (a, l') → Removes a l l'
serve-Removes m l a l' e = elim (serve_split m l a l' e) [
  | inl d ↦ rw d here
  | inr d ↦ rw d (Removes-end a l')
]

-- The waiters of a bucket's queue, its store and its tokens out, moved from given ones.
abbrev Moved : List ℕ → Store → ℕ → Bucket → Type 0
Moved ps s o b = IsSound b.level × Moves ps s o (queued_in b.level.queue) b.store b.outstanding

counted-charged :
    (o demand payload : ℕ) (ok : Bool)
    → payload ≡ demand
    → counted o demand (if ok then some payload else none) ≡ charged o payload ok
counted-charged o demand payload true e = omega (arith, e)
counted-charged o demand payload false e = refl

popped-Moves :
    {size : ℕ} (c : Codel) (s : Store) (o demand : ℕ) (r : Popped)
    → Shows size (queued_in c) c
    → peek s c ≡ some demand
    → PopsTo size (queued_in c) c s r
    → IsValid r.queue.items
      × Moves (queued_in c) s o (queued_in r.queue) r.store (counted o demand r.result)
popped-Moves c s o demand r h e (idle n _) =
    let (a, l', es, _) = peek-some c s demand h e in absurd (serve-ne c.mode a l' (rw n at es))
popped-Moves c s o demand r h e (took a l' es k st res) =
    let (b, l'', es', pay) = peek-some c s demand h e in
    let same : a ≡ b = cc (es, es') in
    (
      k.valid,
      admits a (serve-Removes c.mode (queued_in c) a l' es) (
          rw
            (
              k.items,
              st,
              res,
              counted-charged o demand (s.at a).payload (admit a s).1
                  (ap (λ x. (s.at x).payload) same ∙ pay),
            )
            done),
    )

pop_one-Moved :
    (now demand : ℕ) (b : Bucket)
    → IsSound b.level
    → peek b.store b.level.queue ≡ some demand
    → Moved (queued_in b.level.queue) b.store b.outstanding (pop_one now demand b)
unfolding pop_one
pop_one-Moved now demand b v e =
    let h = Shows-contents b.level.queue v in
    popped-Moves b.level.queue b.store b.outstanding demand (pop now b.level.queue b.store) h e
      (pop_lem b.level.queue b.store now h)

admit_level-Moved :
    (c : Limits) (now f : ℕ) (b : Bucket)
    → IsSound b.level
    → Moved (queued_in b.level.queue) b.store b.outstanding (admit_level f c now b)
admit_level-Moved c now f b v =
    admit_level_keeps (Moved (queued_in b.level.queue) b.store b.outstanding) c now
      (λ b' demand m. m)
      (λ b' demand m e _.
        let k = pop_one-Moved now demand (checked c now demand b') m.0 e in
        (k.0, Moves-trans m.1 k.1))
      f b (v, done)

sweep-Moves :
    (c : Limits) (now : ℕ) (ls : List Level) (out : ℕ) (s : Store)
    → AllSound ls
    → let w = sweep c now ls out s in
      Moves (queued ls) s out (queued w.levels) w.store w.outstanding
unfolding sweep
sweep-Moves c now [] out s v = done
sweep-Moves c now (l ∷ ls) out s v =
    let f = len l.queue.items in
    let b0 : Bucket = record { level = l; outstanding = out; store = s } in
    let b = admit_level f c now b0 in
    let m = Moves-right (queued ls) (admit_level-Moved c now f b0 v.0).1 in
    elim (Bool-cases (empty b.level.queue)) [
      | inl e ↦ rw e (
          Moves-trans m
            (Moves-left (queued_in b.level.queue) (sweep-Moves c now ls b.outstanding b.store v.1)))
      | inr e ↦ rw e m
    ]

-- `admit` removes waiters from the queues one by one; each is dropped, or is admitted unless its
-- caller gave up, and then its tokens are counted as out.
pub admit-Moves :
    (now : ℕ) (s : Semaphore)
    → AllSound s.levels
    → let t = Semaphore.admit now s in
      Moves (queued s.levels) s.store s.outstanding (queued t.levels) t.store t.outstanding
admit-Moves now s v =
    let f = admit_fields now s in
    rw (f.1, f.2, f.3)
      (Moves-trans (reap_all-Moves now s.outstanding s.levels s.store v) (
        sweep-Moves s.limits now (reaped now s).0 s.outstanding (reaped now s).1
          (reap_all_sound now s.levels s.store v)))

-- `Release` counts the tokens as returned, and then does as `admit`.
pub release-Moves :
    (now n : ℕ) (s t : Semaphore)
    → AllSound s.levels
    → release now n s ≡ grants t
    → (n ≤ s.outstanding)
      × Moves (queued s.levels) s.store (s.outstanding - n) (queued t.levels) t.store t.outstanding
unfolding release
release-Moves now n s t v e = elim (Bool-cases (ltb s.outstanding n)) [
  | inl k ↦ absurd (cc (e, k))
  | inr k ↦ (
    ground arith,
    let m = admit-Moves now (record s { outstanding = s.outstanding - n }) v in
        let p : Semaphore.admit now (record s { outstanding = s.outstanding - n }) ≡ t =
          cc (e, k) in
        rw p at m,
  )
]

pub tick-Moves :
    (now : ℕ) (s : Semaphore)
    → AllSound s.levels
    → let t = background_tick now s in
      Moves (queued s.levels) s.store s.outstanding (queued t.levels) t.store t.outstanding
unfolding background_tick
tick-Moves now s v = admit-Moves now s v
