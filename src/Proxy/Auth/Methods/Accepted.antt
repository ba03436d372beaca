-- ===== src/Proxy/Auth/Methods/Accepted.antt =====
-- proxy/clientAuth.go: what a client has sent when a method of authentication accepts it.
use Prim.Native.String.{String}
use text.Mathlib.TextEquality.{eq_iff}
use catfish.Prelude.{◌≡◌, some, List, ◌∷◌, ◌++◌, arith}
use catfish.Config.{User}
use catfish.Proxy.Scram.{Bytes, Parsed, parsed, parse_client_first, parse_client_final}
use catfish.Proxy.Scram.Parse.{same_lem}
use catfish.Proxy.Auth.Wire.{
  Wire, ok, password_message, ClientMessage, sasl_initial_response, sasl_response,
}
use catfish.Proxy.Auth.Wire.Effects.{
  after_flush, after_receive, after_raise, after_random, after_require, after_call, or_raise-eq-ok,
}
use catfish.Proxy.Auth.Methods.{
  Crypto, auth_clear_text, auth_md5, auth_scram, scram_round_1, scram_round_2, password_of,
  md5_password, initial_response_of, response_of, parse_result, server_first, auth_message,
  salted_password, expected_proof,
}

password_of_lem : (m : ClientMessage) (p : Bytes) → password_of m ≡ some p → m ≡ password_message p
password_of_lem m p h = ground arith

initial_response_of_lem :
    (m : ClientMessage) (r : String × Bytes)
    → initial_response_of m ≡ some r
    → m ≡ sasl_initial_response r.0 r.1
initial_response_of_lem m r h = ground arith

response_of_lem : (m : ClientMessage) (r : Bytes) → response_of m ≡ some r → m ≡ sasl_response r
response_of_lem m r h = ground arith

parse_result_lem : (p : Parsed) (r : Bytes × Bytes) → parse_result p ≡ some r → p ≡ parsed r.0 r.1
parse_result_lem p r h = ground arith

-- The messages of a client, and the bytes drawn, from the begin of a method's exchange.
module _ (go : Crypto) (entry : User) (messages : List ClientMessage) (randoms : List Bytes) where
  pub record ClearTextProof : Type 0 where
    pub rest : List ClientMessage
    pub answered : messages ≡ password_message (go.bytes entry.password) ∷ rest

  pub record Md5Proof : Type 0 where
    pub rest : List ClientMessage
    pub salt : Bytes
    pub later : List Bytes
    pub drawn : randoms ≡ salt ∷ later
    pub answered :
        messages
        ≡ password_message
            (md5_password go (go.bytes entry.password) (go.bytes entry.username) salt)
          ∷ rest

  pub record ScramProof : Type 0 where
    pub rest : List ClientMessage
    pub first : Bytes
    pub bare : Bytes
    pub nonce : Bytes
    pub response : Bytes
    pub without : Bytes
    pub proof64 : Bytes
    pub proof : Bytes
    pub suffix : Bytes
    pub salt : Bytes
    pub later : List Bytes
    pub drawn : randoms ≡ suffix ∷ salt ∷ later
    pub answered :
        messages ≡ sasl_initial_response "SCRAM-SHA-256" first ∷ sasl_response response ∷ rest
    pub opened : parse_client_first first ≡ parsed bare nonce
    pub closed : parse_client_final response (nonce ++ go.encode suffix) ≡ parsed without proof64
    pub decoded : go.decode proof64 ≡ some proof
    pub computed :
        expected_proof go
          (salted_password go entry salt)
          (auth_message bare (server_first (nonce ++ go.encode suffix) (go.encode salt)) without)
        ≡ some proof

-- round 1, on its own
pub scram_round_1_lem :
    (w w' : Wire) (hello : Bytes × Bytes)
    → scram_round_1 w ≡ (ok hello, w')
    → (first : Bytes) × (w.incoming ≡ sasl_initial_response "SCRAM-SHA-256" first ∷ w'.incoming)
      × (w'.randoms ≡ w.randoms)
      × (parse_client_first first ≡ parsed hello.0 hello.1)
unfolding scram_round_1
scram_round_1_lem w w' hello h = after_flush _ _ _ _ _ h λ v a h1.
    after_receive _ _ _ _ h1 λ m l e h2. after_raise _ _ _ _ _ h2 λ i k h3.
      after_require _ _ _ _ _ h3 λ q h4.
        let (o, same_wire) = or_raise-eq-ok _ _ _ _ h4 in
        (
          i.1,
          ground (arith, initial_response_of_lem m i, eq_iff i.0 "SCRAM-SHA-256"),
          ground arith,
          parse_result_lem _ _ o,
        )

module _ (go : Crypto) (entry : User) (w w' : Wire) where
  pub auth_clear_text-ClearTextProof :
      auth_clear_text go entry w ≡ (ok tt, w') → ClearTextProof go entry w.incoming w.randoms
  unfolding auth_clear_text
  auth_clear_text-ClearTextProof h = after_flush _ _ _ _ _ h λ v a h1.
      after_receive _ _ _ _ h1 λ m l e h2. after_raise _ _ _ _ _ h2 λ p k h3. record {
        rest = l;
        answered = ground (arith, password_of_lem m p, same_lem p (go.bytes entry.password));
      }

  pub auth_md5-Md5Proof : auth_md5 go entry w ≡ (ok tt, w') → Md5Proof go entry w.incoming w.randoms
  unfolding auth_md5
  auth_md5-Md5Proof h = after_random _ _ _ _ h λ salt later d h0. after_flush _ _ _ _ _ h0 λ v a h1.
      after_receive _ _ _ _ h1 λ m l e h2. after_raise _ _ _ _ _ h2 λ p k h3. record {
        rest = l;
        salt = salt;
        later = later;
        drawn = d;
        answered = ground (
          arith,
          password_of_lem m p,
          same_lem p (md5_password go (go.bytes entry.password) (go.bytes entry.username) salt),
        );
      }

  pub auth_scram-ScramProof :
      auth_scram go entry w ≡ (ok tt, w') → ScramProof go entry w.incoming w.randoms
  unfolding auth_scram scram_round_2
  auth_scram-ScramProof h = after_call _ _ _ _ h λ hello w2 r h0.
      after_random _ _ _ _ h0 λ suffix d1 e1 h5. after_random _ _ _ _ h5 λ salt later e2 h6.
        after_flush _ _ _ _ _ h6 λ v2 a2 h7. after_receive _ _ _ _ h7 λ m2 l2 e3 h8.
          after_raise _ _ _ _ _ h8 λ response k2 h9. after_raise _ _ _ _ _ h9 λ final k3 h10.
            after_raise _ _ _ _ _ h10 λ expected k4 h11. after_raise _ _ _ _ _ h11 λ proof k5 h12.
              after_require _ _ _ _ _ h12 λ q2 h13.
                let (first, e, d, o) = scram_round_1_lem w w2 hello r in
                record {
                  rest = l2;
                  first = first;
                  bare = hello.0;
                  nonce = hello.1;
                  response = response;
                  without = final.0;
                  proof64 = final.1;
                  proof = proof;
                  suffix = suffix;
                  salt = salt;
                  later = later;
                  drawn = cc;
                  answered = cc (response_of_lem m2 response k2);
                  opened = o;
                  closed = parse_result_lem _ _ k3;
                  decoded = k5;
                  computed = cc (same_lem proof expected q2);
                }
