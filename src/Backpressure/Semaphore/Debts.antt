-- ===== src/Backpressure/Semaphore/Debts.antt =====
-- backpressure/semaphore.go: the debts of the levels, their bounds and their order.
use Prim.Native.Nat.{min}
use native.Mathlib.Nat.{le_trans}
use catfish.Prelude.{ℕ, ◌+◌, ◌*◌, ◌≤◌, ◌≡◌, sym, ◌∙◌, List, [], ◌∷◌, arith}
use catfish.Prelude.Int.{pos, neg_ℕ}
use catfish.Backpressure.Decay.{LinearDecay, get, add, set_max, floor, decayed}
use catfish.Backpressure.Semaphore.{Limits, tokens, Level, penalize}
use catfish.Backpressure.Decay.Laws.{
  decayed_mono, add-value, decayed_now, add_fields, floor_fields, set_max_fields, get_fields,
}

-- The rate at which `NewSemaphore` lets the debts decay.
abbrev pub debt_rate : Limits → ℕ
debt_rate c = c.capacity * c.forgive_den

-- A debt of a semaphore at time `t`.
pub record IsDebt (c : Limits) (t : ℕ) (d : LinearDecay) : Type 0 where
  pub rate : d.decay_per_ns ≡ debt_rate c
  pub top : d.max ≡ tokens c c.capacity
  pub past : d.last ≤ t
  pub bounded : d.x ≤ d.max

-- From `low` on, the values at `t` do not fall from a level to the one below it.
abbrev pub RisesFrom : Limits → ℕ → ℕ → List Level → Type 0
RisesFrom c t low [] = Unit {0}
RisesFrom c t low (l ∷ ls) =
    IsDebt c t l.debt × (low ≤ decayed l.debt t) × RisesFrom c t (decayed l.debt t) ls

module _ (c : Limits) where
  pub weaken :
      (t low low' : ℕ) (ls : List Level) → low' ≤ low → RisesFrom c t low ls → RisesFrom c t low' ls
  weaken t low low' [] h r = tt
  weaken t low low' (l ∷ ls) h r = (r.0, le_trans h r.1, r.2)

  -- The order lasts.
  later :
      (t u : ℕ) (prev : LinearDecay) (ls : List Level)
      → t ≤ u
      → IsDebt c t prev
      → RisesFrom c t (decayed prev t) ls
      → RisesFrom c u (decayed prev u) ls
  later t u prev [] h k r = tt
  later t u prev (l ∷ ls) h k r =
      let d = r.0 in
      (
        record { rate = d.rate; top = d.top; past = le_trans d.past h; bounded = d.bounded },
        decayed_mono prev l.debt t u (k.rate ∙ sym d.rate) k.past d.past h r.1,
        later t u l.debt ls h d r.2,
      )

  pub RisesFrom-later :
      (t u : ℕ) (ls : List Level) → t ≤ u → RisesFrom c t 0 ls → RisesFrom c u 0 ls
  RisesFrom-later t u [] h r = tt
  RisesFrom-later t u (l ∷ ls) h r =
      let d = r.0 in
      (
        record { rate = d.rate; top = d.top; past = le_trans d.past h; bounded = d.bounded },
        omega arith,
        later t u l.debt ls h d r.2,
      )

module _ (c : Limits) (now : ℕ) where
  pub get-IsDebt :
      (d : LinearDecay)
      → IsDebt c now d
      → IsDebt c now (get now d) × (decayed (get now d) now ≡ decayed d now)
  get-IsDebt d k =
      let (fx, fl, fr, fm) = get_fields now d in
      (
        record {
          rate = fr ∙ k.rate;
          top = fm ∙ k.top;
          past = omega arith;
          bounded = omega (arith, k.bounded);
        },
        decayed_now (get now d) now fl ∙ fx,
      )

  pub forgive-IsDebt :
      (amount : ℕ) (prev d : LinearDecay)
      → IsDebt c now prev
      → IsDebt c now d
      → let d' = floor now (get now prev).x (add now (neg_ℕ amount) d) in
        IsDebt c now d' × (decayed prev now ≤ decayed d' now)
  forgive-IsDebt amount prev d kp kd =
      let (gx, _, _, _) = get_fields now prev in
      let e = add now (neg_ℕ amount) d in
      let (_, ar, am, ax) = add_fields now (neg_ℕ amount) d in
      let (hl, hr, hm, hlow, hb) = floor_fields now (get now prev).x e in
      (
        record {
          rate = hr ∙ ar ∙ kd.rate;
          top = hm ∙ am ∙ kd.top;
          past = omega arith;
          bounded = rw hm (hb (omega arith) (omega (arith, kp.bounded, kp.top, kd.top)));
        },
        rw (decayed_now (floor now (get now prev).x e) now hl) (omega arith),
      )

  pub penalize-IsDebt :
      (demand : ℕ) (l : Level)
      → IsDebt c now l.debt
      → let d' = (penalize c now demand l).debt in
        IsDebt c now d'
        × (decayed d' now ≡ min (decayed l.debt now + tokens c demand) (tokens c c.capacity))
  unfolding penalize
  penalize-IsDebt demand l k =
      let e = add now (pos (tokens c demand)) l.debt in
      let (al, ar, am, ax) = add_fields now (pos (tokens c demand)) l.debt in
      let (hl, hr, hm, hx) = set_max_fields now (tokens c c.capacity) e in
      (
        record { rate = hr ∙ ar ∙ k.rate; top = hm; past = omega arith; bounded = omega arith },
        rw (decayed_now (set_max now (tokens c c.capacity) e) now hl) (
            omega
              (arith, decayed_now e now al, (add-value l.debt now (tokens c demand)).0, k.top, hx)),
      )
