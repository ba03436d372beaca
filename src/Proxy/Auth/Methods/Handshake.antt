-- ===== src/Proxy/Auth/Methods/Handshake.antt =====
-- proxy/clientAuth.go: doAuth, what a client that it admits has shown.
use Prim.Native.String.{String}
use mathlib.Core.Bool.{false≢true}
use text.Mathlib.Text.{◌==◌}
use text.Mathlib.TextEquality.{eq_iff}
use catfish.Prelude.{
  ℕ, ◌≡◌, refl, true, false, some, List, [], ◌∷◌, arith, Bool-cases, ◌⊎◌, inl, inr, if◌then◌else◌,
  subst, sym, ◌∙◌, ◌↔◌,
}
use catfish.Config.{User}
use catfish.Proxy.Auth.Wire.{
  Wire, ok, ◌>>=◌, ClientMessage, ClientState, startup_message, ssl_request, other_message,
  password_message, sasl_response, sasl_initial_response,
}
use catfish.Proxy.Auth.Wire.Effects.{
  after_receive, after_raise, after_require, after_call, flush-Agree, receive-eq-ok, flush-eq-ok,
}
use catfish.Proxy.Auth.Methods.{
  Crypto, authenticate, do_auth, startup_of, read_startup, send_statuses, after_ssl, welcome,
}
use catfish.Proxy.Auth.Methods.Accepted.{
  ClearTextProof, Md5Proof, ScramProof, auth_clear_text-ClearTextProof, auth_md5-Md5Proof,
  auth_scram-ScramProof,
}
use catfish.Proxy.Auth.Methods.Users.{IsLast, user_index-IsLast}

-- The messages begin with a request to start, which a refused request for TLS may precede.
abbrev pub Opens : (user database : String) (messages rest : List ClientMessage) → Type 0
Opens user database messages rest =
    (messages ≡ startup_message user database ∷ rest)
    ⊎ (messages ≡ ssl_request ∷ startup_message user database ∷ rest)

-- the proof that a user's method asks for; SCRAM-SHA-256 where none is configured
abbrev pub Proves : Crypto → User → List ClientMessage → List (List ℕ) → Type 0
Proves go entry messages randoms =
    ((entry.auth_method ≡ "cleartext") × ClearTextProof go entry messages randoms)
    ⊎ ((entry.auth_method ≡ "md5") × Md5Proof go entry messages randoms)
    ⊎ (((entry.auth_method ≡ "scram-sha-256") ⊎ (entry.auth_method ≡ ""))
        × ScramProof go entry messages randoms)

pub record Admitted (go : Crypto) (users : List User) (w w' : Wire) : Type 0 where
  pub user : String
  pub database : String
  pub entry : User
  pub rest : List ClientMessage
  pub opened : Opens user database w.incoming rest
  pub configured : IsLast user entry users
  pub allowed : entry.database ≡ database
  pub proved : Proves go entry rest w.randoms
  pub admitted : w'.client ≡ record { username = user; database = database; tier = entry.tier }

startup_of_lem :
    (m : ClientMessage) (c : String × String) → startup_of m ≡ some c → m ≡ startup_message c.0 c.1
startup_of_lem m c h = ground arith

text_ne : {s t : String} → ((s == t) ≡ true) ↔ (s ≡ t) → (s == t) ≡ false → s ≡ t → ⊥
text_ne f e h = false≢true (sym e ∙ f.1 h)

send_statuses_lem :
    (ps : List (String × String)) (w w' : Wire)
    → send_statuses ps w ≡ (ok tt, w')
    → w'.client ≡ w.client
unfolding send_statuses
send_statuses_lem [] w w' h = ground arith
send_statuses_lem ((n, v) ∷ ps) w w' h =
    after_call _ _ _ _ h λ u w1 e h1. ground (arith, send_statuses_lem ps w1 w' h1)

welcome_lem :
    (c : ClientState) (ps : List (String × String)) (w w' : Wire)
    → welcome c ps w ≡ (ok tt, w')
    → w'.client ≡ c
unfolding welcome
welcome_lem c ps w w' h = after_call _ _ _ _ h λ u1 w1 e1 h1. after_call _ _ _ _ h1 λ u2 w2 e2 h2.
    after_call _ _ _ _ h2 λ u3 w3 e3 h3. after_call _ _ _ _ h3 λ u4 w4 e4 h4.
      let sent = send_statuses_lem ps w2 w3 e3 in
      let f1 = flush-eq-ok _ _ _ e4 in
      let f2 = flush-Agree _ _ _ _ h4 in ground (arith, f2.same_client)

after_ssl_lem :
    (m1 m : ClientMessage) (user database : String) (w w' : Wire)
    → after_ssl m1 w ≡ (ok m, w')
    → m ≡ startup_message user database
    → (((m1 ≡ m) × (w' ≡ w))
        ⊎ ((m1 ≡ ssl_request) × (w.incoming ≡ m ∷ w'.incoming) × (w'.randoms ≡ w.randoms)))
unfolding ◌>>=◌
after_ssl_lem ssl_request m user database w w' h e =
    let read = receive-eq-ok _ _ _ h in inr (refl, read.0, read.1)
after_ssl_lem (startup_message u d) m user database w w' h e = inl (ground arith)
after_ssl_lem other_message m user database w w' h e = absurd (cc)
after_ssl_lem (password_message p) m user database w w' h e = absurd (cc)
after_ssl_lem (sasl_response p) m user database w w' h e = absurd (cc)
after_ssl_lem (sasl_initial_response p q) m user database w w' h e = absurd (cc)

read_startup_lem :
    (m : ClientMessage) (user database : String) (w w' : Wire)
    → read_startup w ≡ (ok m, w')
    → m ≡ startup_message user database
    → Opens user database w.incoming w'.incoming × (w'.randoms ≡ w.randoms)
unfolding read_startup
read_startup_lem m user database w w' h e = after_receive _ _ _ _ h λ m1 l e1 h1.
    elim (after_ssl_lem m1 m user database _ w' h1 e) [
      | inl (p, q) ↦ (inl (cc), cc)
      | inr (p, q, r) ↦ (inr (cc), r)
    ]

method_known :
    (go : Crypto) (method : String) (entry : User) (w w' : Wire)
    → authenticate go method entry w ≡ (ok tt, w')
    → ((method ≡ "cleartext") × ClearTextProof go entry w.incoming w.randoms)
      ⊎ ((method ≡ "md5") × Md5Proof go entry w.incoming w.randoms)
      ⊎ ((method ≡ "scram-sha-256") × ScramProof go entry w.incoming w.randoms)
unfolding authenticate
method_known go method entry w w' h = elim (Bool-cases (method == "cleartext")) [
  | inl a ↦ inl ((eq_iff _ _).0 a, auth_clear_text-ClearTextProof go entry w w' (ground arith))
  | inr a ↦ elim (Bool-cases (method == "md5")) [
    | inl b ↦ inr (inl ((eq_iff _ _).0 b, auth_md5-Md5Proof go entry w w' (ground arith)))
    | inr b ↦ elim (Bool-cases (method == "scram-sha-256")) [
      | inl c ↦ inr (inr ((eq_iff _ _).0 c, auth_scram-ScramProof go entry w w' (ground arith)))
      | inr c ↦ absurd (ground arith)
    ]
  ]
]

authenticate-Proves :
    (go : Crypto) (entry : User) (w w' : Wire)
    → authenticate go
        (if entry.auth_method == "" then "scram-sha-256" else entry.auth_method)
        entry
        w
      ≡ (ok tt, w')
    → Proves go entry w.incoming w.randoms
authenticate-Proves go entry w w' h = elim (Bool-cases (entry.auth_method == "")) [
  | inl e ↦ elim (method_known go "scram-sha-256" entry w w' (ground arith)) [
    | inl (a, p) ↦ inl (absurd (text_ne (eq_iff "scram-sha-256" "cleartext") refl a), p)
    | inr (inl (a, p)) ↦ inr (inl (absurd (text_ne (eq_iff "scram-sha-256" "md5") refl a), p))
    | inr (inr (a, p)) ↦ inr (inr (inr ((eq_iff _ _).0 e), p))
  ]
  | inr e ↦ elim (method_known go entry.auth_method entry w w' (ground arith)) [
    | inl p ↦ inl p
    | inr (inl p) ↦ inr (inl p)
    | inr (inr (a, p)) ↦ inr (inr (inl a, p))
  ]
]

-- If doAuth succeeds, the client's first message, or the one after a declined request for TLS, names a
-- user and a database, the last user of that name in the configuration has that database, the messages
-- that follow are the proof of its password that the user's method asks for, and the state of the
-- client has that user's name, database and tier.
pub do_auth-Admitted :
    (go : Crypto) (users : List User) (statuses : List (String × String)) (w w' : Wire)
    → do_auth go users statuses w ≡ (ok tt, w')
    → Admitted go users w w'
unfolding do_auth
do_auth-Admitted go users statuses w w' h = after_call _ _ _ _ h λ msg w1 r h1.
    after_raise _ _ _ _ _ h1 λ claim k h2. after_raise _ _ _ _ _ h2 λ entry found h3.
      after_require _ _ _ _ _ h3 λ allowed h4. after_call _ _ _ _ h4 λ u w2 proved h5.
        let (opens, drawn) =
          read_startup_lem msg claim.0 claim.1 w w1 r (startup_of_lem msg claim k) in
        record {
          user = claim.0;
          database = claim.1;
          entry = entry;
          rest = w1.incoming;
          opened = opens;
          configured = user_index-IsLast users claim.0 entry found;
          allowed = (eq_iff _ _).0 allowed;
          proved =
              subst (Proves go entry w1.incoming) drawn (authenticate-Proves go entry w1 w2 proved);
          admitted = welcome_lem _ statuses w2 w' h5;
        }
