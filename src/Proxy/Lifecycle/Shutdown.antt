-- ===== src/Proxy/Lifecycle/Shutdown.antt =====
-- proxy/proxy.go: any number of calls of Close, and the end of Listen.
use catfish.Prelude.{
  ℕ, zero, suc, ◌+◌, ◌≡◌, refl, ◌∙◌, Bool, true, false, List, [], ◌∷◌, ◌++◌, arith, replicate, ap,
  if◌then◌else◌,
}
use catfish.Proxy.Lifecycle.{
  Life, Closing, closes, nil_listener, shut_down, close, Accepted, connection, accept_failed, stops,
  listener_error, accept_loop,
}

abbrev pub state_of : Closing → Life
state_of (closes s) = s
state_of (nil_listener s) = s

unfoldable pub close_all : List Bool → Life → Life
close_all [] s = s
close_all (b ∷ bs) s = close_all bs (state_of (close b s))

close-closed : (b : Bool) (s : Life) → s.has_closed ≡ true → close b s ≡ closes s
unfolding close
close-closed b s h = ground arith

close-listening :
    (b : Bool) (s : Life)
    → s.is_listening ≡ true
    → s.has_closed ≡ false
    → close b s ≡ closes (shut_down b s)
unfolding close
close-listening b s l h = ground arith

close_all-closed : (bs : List Bool) (s : Life) → s.has_closed ≡ true → close_all bs s ≡ s
unfolding close_all
close_all-closed [] s h = refl
close_all-closed (b ∷ bs) s h =
    ap (λ c. close_all bs (state_of c)) (close-closed b s h) ∙ close_all-closed bs s h

-- Of any calls of Close on a server that listens only the first has an effect: it closes `done`, the
-- listener, and, after the clients finished or the timeout passed, each pool once.
pub close_all_lem :
    (b : Bool) (bs : List Bool) (s : Life)
    → s.is_listening ≡ true
    → s.has_closed ≡ false
    → close_all (b ∷ bs) s ≡ shut_down b s
unfolding close_all
close_all_lem b bs s l h =
    ap (λ c. close_all bs (state_of c)) (close-listening b s l h)
    ∙ close_all-closed bs (shut_down b s) refl

-- The loop of Listen handles each connection once, up to the first error of Accept, and stops without
-- an error exactly if that error came after `done` was closed.
pub accept_loop_lem :
    (n k : ℕ) (is_done : Bool) (es : List Accepted)
    → accept_loop n (replicate k connection ++ accept_failed is_done ∷ es)
      ≡ (if is_done then stops (n + k) else listener_error (n + k))
unfolding accept_loop
accept_loop_lem n zero true es = ap stops (omega arith)
accept_loop_lem n zero false es = ap listener_error (omega arith)
accept_loop_lem n (suc k) is_done es =
    accept_loop_lem (suc n) k is_done es
    ∙ ap (λ (m : ℕ). if is_done then stops m else listener_error m) (omega arith)
