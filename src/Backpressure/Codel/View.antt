-- ===== src/Backpressure/Codel/View.antt =====
-- The queue of codel.go seen as the list of the waiters' addresses, oldest first.
use catfish.Prelude.{
  ℕ, suc, ◌+◌, ◌<◌, ◌≡◌, ◌≢◌, refl, ap, ◌∙◌, ◌⊎◌, inl, inr, Bool, true, false, Option, none, some,
  List, [], ◌∷◌, ◌++◌, arith, length, ◌==◌, ==-eq_false, if◌then◌else◌, length-append,
}
use catfish.Deque.{Deque, len}
use catfish.Deque.Bounded
use catfish.Deque.Inv.{IsValid}
use catfish.Deque.Refine.{contents, bound, Holds, push_back_refines}
use catfish.Deque.Pops.{
  Pops, panics, takes, pop_front_refines, pop_back_refines, len-contents, front_refines,
  back_refines,
}
use catfish.Deque.Script.{item_of, item-eq, new-Holds-some}
use catfish.Backpressure.Waiter.{Store, admit}
use catfish.Backpressure.Codel.{
  new_codel, Codel, Mode, fifo, lifo, nil, empty, set_mode, push, peek, pop, Popped, next_item,
  remove_item, payload_of, popped_as, pop_item,
}

-- The deque `q` holds the addresses `l` and has room for `size`.
abbrev pub Lists : ℕ → List ℕ → Deque ℕ → Type 0
Lists size l q = Holds nil size l q

abbrev pub Shows : ℕ → List ℕ → Codel → Type 0
Shows size l c = Lists size l c.items

-- The waiter that a mode serves next, and the list without it.
pub serve : Mode → List ℕ → Option (ℕ × List ℕ)
serve fifo l = Bounded.pop_front l
serve lifo l = Bounded.pop_back l

pub Lists-len : {size : ℕ} {l : List ℕ} {q : Deque ℕ} → Lists size l q → len q ≡ length l
Lists-len h = len-contents nil h.valid ∙ ap length h.items

pub set_mode-items : (now : ℕ) (c : Codel) → (set_mode now c).items ≡ c.items
unfolding set_mode
set_mode-items now c = ground arith

pub set_mode-Shows :
    {size : ℕ} {l : List ℕ} (c : Codel) (now : ℕ) → Shows size l c → Shows size l (set_mode now c)
set_mode-Shows {size} {l} c now h = rw (set_mode-items now c) h

-- `empty` tells whether anyone waits.
pub empty_iff : {size : ℕ} {l : List ℕ} (c : Codel) → Shows size l c → empty c ≡ (length l == 0)
unfolding empty
empty_iff c h = rw (Lists-len h)

-- `Push` appends the waiter, unless the queue is full: then it is nowhere.
pub push-Shows :
    {size : ℕ} {l : List ℕ} (c : Codel) (a now : ℕ)
    → Shows size l c
    → Shows size (Bounded.push_back size l a).0 (push a now c)
unfolding push
push-Shows {size} {l} c a now h =
    let k = set_mode-Shows c now h in (rw (k.room, k.items) at (push_back_refines nil a k.valid)).0

next_item_lem :
    {size : ℕ} {l : List ℕ} {q : Deque ℕ} (m : Mode)
    → Lists size l q
    → next_item m q ≡ item_of (serve m l)
unfolding next_item serve
next_item_lem fifo h = rw (front_refines nil h.valid, h.items) (item-eq nil _)
next_item_lem lifo h = rw (back_refines nil h.valid, h.items) (item-eq nil _)

remove_item_lem :
    {size : ℕ} {l : List ℕ} {q : Deque ℕ} (m : Mode)
    → Lists size l q
    → Pops nil size (remove_item m q) (serve m l)
unfolding remove_item serve
remove_item_lem fifo h = rw (h.room, h.items) at (pop_front_refines nil h.valid)
remove_item_lem lifo h = rw (h.room, h.items) at (pop_back_refines nil h.valid)

serve-nil : (m : Mode) → serve m [] ≡ none
unfolding serve Bounded.pop_front
serve-nil fifo = refl
serve-nil lifo = Bounded.pop_back-nil ℕ

pub serve-ne : (m : Mode) (a : ℕ) (l : List ℕ) → serve m [] ≢ some (a, l)
serve-ne m a l e = cc (serve-nil m)

-- A list that is not empty has a waiter to serve, at its head or at its end.
pub serve-cons :
    (m : Mode) (x : ℕ) (l : List ℕ)
    → (a : ℕ) × (l' : List ℕ) × (serve m (x ∷ l) ≡ some (a, l'))
      × ((x ∷ l ≡ a ∷ l') ⊎ (x ∷ l ≡ l' ++ (a ∷ [])))
unfolding serve Bounded.pop_front
serve-cons fifo x l = (x, l, refl, inl refl)
serve-cons lifo x l = let (y, r, e, e') = Bounded.pop_back-cons x l in (y, r, e, inr e')

pub serve_split :
    (m : Mode) (l : List ℕ) (a : ℕ) (l' : List ℕ)
    → serve m l ≡ some (a, l')
    → (l ≡ a ∷ l') ⊎ (l ≡ l' ++ (a ∷ []))
serve_split m [] a l' e = cc (serve-nil m)
serve_split m (x ∷ l) a l' e = let (b, r, e', d) = serve-cons m x l in ground (arith, e', e, d)

pub length-serve :
    (m : Mode) (l : List ℕ) (a : ℕ) (l' : List ℕ)
    → serve m l ≡ some (a, l')
    → length l ≡ length l' + 1
length-serve m l a l' e = elim (serve_split m l a l' e) [
  | inl d ↦ rw d (omega arith)
  | inr d ↦ rw d (length-append l' (a ∷ []))
]

-- `peek` gives the payload of the waiter that is served next.
pub peek_lem :
    {size : ℕ} {l : List ℕ} (c : Codel) (s : Store)
    → Shows size l c
    → peek s c ≡ payload_of s (item_of (serve c.mode l))
unfolding peek
peek_lem {l = []} c s h = rw (Lists-len h, serve-nil c.mode) (ground arith)
peek_lem {l = x ∷ l} c s h = rw (Lists-len h, next_item_lem c.mode h) (ground arith)

-- `pop` takes that waiter out of the queue and tries to admit it.
pub data PopsTo (size : ℕ) (l : List ℕ) (c : Codel) (s : Store) (r : Popped) : Type 0 where
  idle : l ≡ [] → r ≡ record { queue = c; store = s; result = none } → PopsTo size l c s r
  took :
      (a : ℕ) (l' : List ℕ)
      → serve c.mode l ≡ some (a, l')
      → Shows size l' r.queue
      → r.store ≡ (admit a s).0
      → r.result ≡ (if (admit a s).1 then some (s.at a).payload else none)
      → PopsTo size l c s r

popped_as_fields :
    (c : Codel) (r : Store × Bool) (p : ℕ)
    → ((popped_as c r p).queue ≡ c)
      × ((popped_as c r p).store ≡ r.0)
      × ((popped_as c r p).result ≡ (if r.1 then some p else none))
unfolding popped_as
popped_as_fields c (s, true) p = (refl, refl, refl)
popped_as_fields c (s, false) p = (refl, refl, refl)

popped_as-took :
    {size : ℕ} {l : List ℕ} (c c' : Codel) (s : Store) (a : ℕ) (l' : List ℕ)
    → serve c.mode l ≡ some (a, l')
    → Shows size l' c'
    → PopsTo size l c s (popped_as c' (admit a s) (s.at a).payload)
popped_as-took c c' s a l' e h =
    let f = popped_as_fields c' (admit a s) (s.at a).payload in took a l' e (rw f.0 h) f.1 f.2

pop_item_lem :
    {size : ℕ} {l : List ℕ} (c : Codel) (s : Store) (now : ℕ) (r : Option (ℕ × Deque ℕ))
    → remove_item c.mode c.items ≡ r
    → l ≢ []
    → Pops nil size r (serve c.mode l)
    → PopsTo size l c s (pop_item now c s)
unfolding pop_item
pop_item_lem {l = []} c s now r e ne (panics es er) = absurd (ne refl)
pop_item_lem {l = x ∷ l} c s now r e ne (panics es er) =
    let (a, l', e', d) = serve-cons c.mode x l in cc
pop_item_lem c s now r e ne (takes a q l' es er h) =
    rw (e ∙ er, pop_item)
      (popped_as-took c (set_mode now (record c { items = q })) s a l' es
        (set_mode-Shows (record c { items = q }) now h))

pub pop_lem :
    {size : ℕ} {l : List ℕ} (c : Codel) (s : Store) (now : ℕ)
    → Shows size l c
    → PopsTo size l c s (pop now c s)
unfolding pop
pop_lem {l = []} c s now h = idle refl (rw (Lists-len h))
pop_lem {l = x ∷ l} c s now h =
    rw (Lists-len h, ==-eq_false (suc (length l)) 0 (λ e. omega arith))
      (pop_item_lem c s now _ refl (λ e. cc) (remove_item_lem c.mode h))

-- A queue whose deque is valid shows the list of its items.
pub Shows-contents :
    (c : Codel) → IsValid c.items → Shows (bound nil c.items) (contents nil c.items) c
Shows-contents c v = record { valid = v; room = refl; items = refl }

pub Shows-nil :
    {size : ℕ} {l : List ℕ} (c : Codel) → Shows size l c → empty c ≡ true → Shows size [] c
Shows-nil {l = []} c h e = h
Shows-nil {l = x ∷ l} c h e = absurd (omega (arith, empty_absurd))
  where
    empty_absurd : suc (length l) ≡ 0
    empty_absurd = ground (arith, empty_iff c h)

pub empty-true : {size : ℕ} (c : Codel) → Shows size [] c → empty c ≡ true
empty-true c h = empty_iff c h

pub peek-served :
    {size : ℕ} {l : List ℕ} (c : Codel) (s : Store) (a : ℕ) (l' : List ℕ)
    → Shows size l c
    → serve c.mode l ≡ some (a, l')
    → peek s c ≡ some (s.at a).payload
unfolding payload_of
peek-served c s a l' h e = peek_lem c s h ∙ ap (λ r. payload_of s (item_of r)) e

peek-empty : {size : ℕ} (c : Codel) (s : Store) → Shows size [] c → peek s c ≡ none
unfolding payload_of
peek-empty c s h = peek_lem c s h ∙ ap (λ r. payload_of s (item_of r)) (serve-nil c.mode)

-- `peek` has nothing to give exactly when the queue is empty.
pub peek-none :
    {size : ℕ} {l : List ℕ} (c : Codel) (s : Store)
    → Shows size l c
    → peek s c ≡ none
    → empty c ≡ true
peek-none {l = []} c s h e = empty-true c h
peek-none {l = x ∷ l} c s h e =
    let (a, l', e', d) = serve-cons c.mode x l in cc (peek-served c s a l' h e', e)

pub peek-some :
    {size : ℕ} {l : List ℕ} (c : Codel) (s : Store) (p : ℕ)
    → Shows size l c
    → peek s c ≡ some p
    → (a : ℕ) × (l' : List ℕ) × (serve c.mode l ≡ some (a, l')) × ((s.at a).payload ≡ p)
peek-some {l = []} c s p h e = cc (peek-empty c s h, e)
peek-some {l = x ∷ l} c s p h e =
    let (a, l', e', d) = serve-cons c.mode x l in (a, l', e', cc (peek-served c s a l' h e', e))

pub len_of_empty : (c : Codel) → empty c ≡ true → len c.items ≡ 0
unfolding empty
len_of_empty c e = ground arith

-- `NewCoDel` panics on a queue size of 0, and else gives an empty queue.
pub new_codel_lem :
    (short long size now : ℕ)
    → 0 < size
    → (c : Codel) × (new_codel short long size now ≡ some c) × Shows size [] c
unfolding new_codel
new_codel_lem short long size now h =
    let (q, e, k) = new-Holds-some nil size h in
    (
      record {
        short_timeout = short;
        long_timeout = long;
        last_emptied = now;
        mode = fifo;
        items = q;
      },
      rw (e, new_codel),
      k,
    )
