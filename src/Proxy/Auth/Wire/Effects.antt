-- ===== src/Proxy/Auth/Wire/Effects.antt =====
-- proxy/clientAuth.go: what each call on the connection reads, and what it leaves alone.
use catfish.Prelude.{
  ◌≡◌, refl, ◌⊎◌, inl, inr, Bool, true, false, Option, none, some, List, [], ◌∷◌, ◌++◌, arith,
}
use catfish.Proxy.Auth.Wire.{
  ClientMessage, ServerMessage, AuthError, Wire, Action, Nothing, ok, err, Result, ◌>>=◌, or_raise,
  send, require, receive, flush, random,
}
use catfish.Proxy.Scram.{Bytes}

Result-cases :
    {A : Type 0} (r : Result A) → ((a : A) × (r ≡ ok a)) ⊎ ((e : AuthError) × (r ≡ err e))
Result-cases (ok a) = inl (a, refl)
Result-cases (err e) = inr (e, refl)

List-cases : {A : Type 0} (r : List A) → (r ≡ []) ⊎ ((a : A) × (l : List A) × (r ≡ a ∷ l))
List-cases [] = inl refl
List-cases (a ∷ l) = inr (a, l, refl)

-- What was read and drawn, and for whom: two states that agree on that.
pub record Agree (w v : Wire) : Type 0 where
  pub same_incoming : v.incoming ≡ w.incoming
  pub same_randoms : v.randoms ≡ w.randoms
  pub same_client : v.client ≡ w.client

-- What follows from a successful exchange, by its first call and the rest.
pub after_call :
    {A B : Type 0} {P : Type 0} (m : Action A) (f : A → Action B) (w w' : Wire) {b : B}
    → (m >>= f) w ≡ (ok b, w')
    → ((a : A) (v : Wire) → m w ≡ (ok a, v) → f a v ≡ (ok b, w') → P)
    → P
unfolding ◌>>=◌
after_call m f w w' h k = elim (Result-cases (m w).0) [
  | inl (a, e) ↦ k a (m w).1 (ground arith) (ground arith)
  | inr (x, e) ↦ absurd (ground arith)
]

-- Each step of a successful exchange, and what follows from it for the rest of the exchange.
module _ {B : Type 0} {P : Type 0} (e : AuthError) (w w' : Wire) {b : B} where
  pub after_flush :
      (s : ServerMessage) (f : Nothing → Action B)
      → (send s >>= λ _. flush e >>= f) w ≡ (ok b, w')
      → ((v : Wire) → Agree w v → f tt v ≡ (ok b, w') → P)
      → P
  unfolding ◌>>=◌ flush
  after_flush s f h k = elim (List-cases w.flushes) [
    | inl z ↦ absurd (ground arith)
    | inr (false, l, z) ↦ absurd (ground arith)
    | inr (true, l, z) ↦
        k (record w { flushes = l; sent = w.sent ++ (s ∷ []) }) (ground arith) (ground arith)
  ]

  pub after_receive :
      (f : ClientMessage → Action B)
      → (receive e >>= f) w ≡ (ok b, w')
      → ((m : ClientMessage) (l : List ClientMessage)
          → w.incoming ≡ m ∷ l
          → f m (record w { incoming = l }) ≡ (ok b, w')
          → P)
      → P
  unfolding ◌>>=◌ receive
  after_receive f h k = elim (List-cases w.incoming) [
    | inl z ↦ absurd (ground arith)
    | inr (m, l, z) ↦ k m l z (ground arith)
  ]

  pub after_random :
      (f : Bytes → Action B)
      → (random e >>= f) w ≡ (ok b, w')
      → ((r : Bytes) (l : List Bytes)
          → w.randoms ≡ r ∷ l
          → f r (record w { randoms = l }) ≡ (ok b, w')
          → P)
      → P
  unfolding ◌>>=◌ random
  after_random f h k = elim (List-cases w.randoms) [
    | inl z ↦ absurd (ground arith)
    | inr (r, l, z) ↦ k r l z (ground arith)
  ]

  pub after_raise :
      {A : Type 0} (o : Option A) (f : A → Action B)
      → (or_raise o e >>= f) w ≡ (ok b, w')
      → ((a : A) → o ≡ some a → f a w ≡ (ok b, w') → P)
      → P
  unfolding ◌>>=◌
  after_raise none f h k = absurd (cc)
  after_raise (some a) f h k = k a refl h

  pub after_require :
      (t : Bool) (f : Nothing → Action B)
      → (require t e >>= f) w ≡ (ok b, w')
      → (t ≡ true → f tt w ≡ (ok b, w') → P)
      → P
  unfolding ◌>>=◌
  after_require true f h k = k refl h
  after_require false f h k = absurd (cc)

-- the last step
pub flush-Agree :
    (e : AuthError) (s : ServerMessage) (w w' : Wire) {b : Nothing}
    → (send s >>= λ _. flush e) w ≡ (ok b, w')
    → Agree w w'
unfolding ◌>>=◌ flush
flush-Agree e s w w' h = elim (List-cases w.flushes) [
  | inl z ↦ absurd (ground arith)
  | inr (false, l, z) ↦ absurd (ground arith)
  | inr (true, l, z) ↦ ground arith
]

pub or_raise-eq-ok :
    {A : Type 0} (o : Option A) (e : AuthError) (w w' : Wire) {a : A}
    → or_raise o e w ≡ (ok a, w')
    → (o ≡ some a) × (w ≡ w')
or_raise-eq-ok none e w w' h = absurd (cc)
or_raise-eq-ok (some b) e w w' h = ground arith

pub receive-eq-ok :
    (e : AuthError) (w w' : Wire) {m : ClientMessage}
    → receive e w ≡ (ok m, w')
    → (w.incoming ≡ m ∷ w'.incoming) × (w'.randoms ≡ w.randoms)
unfolding receive
receive-eq-ok e w w' h = elim (List-cases w.incoming) [
  | inl z ↦ absurd (ground arith)
  | inr (m, l, z) ↦ ground arith
]

pub flush-eq-ok : (e : AuthError) (w w' : Wire) {b : Nothing} → flush e w ≡ (ok b, w') → Agree w w'
unfolding flush
flush-eq-ok e w w' h = elim (List-cases w.flushes) [
  | inl z ↦ absurd (ground arith)
  | inr (false, l, z) ↦ absurd (ground arith)
  | inr (true, l, z) ↦ ground arith
]

-- A bind whose first call succeeds.
pub >>=-run :
    {A B : Type 0} (m : Action A) (f : A → Action B) (w v : Wire) (a : A)
    → m w ≡ (ok a, v)
    → (m >>= f) w ≡ f a v
unfolding ◌>>=◌
>>=-run m f w v a h = ground arith

pub or_raise_run :
    {A : Type 0} (o : Option A) (e : AuthError) (w : Wire) (a : A)
    → o ≡ some a
    → or_raise o e w ≡ (ok a, w)
or_raise_run none e w a h = absurd (cc)
or_raise_run (some b) e w a h = ground arith

pub require_run : (t : Bool) (e : AuthError) (w : Wire) → t ≡ true → require t e w ≡ (ok tt, w)
require_run t e w h = rw h
