-- ===== src/Proxy/Auth/Methods/Client.antt =====
-- proxy/clientAuth.go: a client that keeps to RFC 5802 and knows the password.
use Prim.Native.Nat.{bit_xor}
use Prim.Native.String.{String}
use catfish.Prelude.{
  ℕ, suc, ◌≡◌, ◌≢◌, refl, Bool, some, List, [], ◌∷◌, ◌++◌, arith, length, ap, sym, ◌∙◌, subst,
}
use catfish.Config.{User}
use catfish.Proxy.Scram.{Bytes, comma, parsed, parse_client_final}
use catfish.Proxy.Scram.Parse.{IsPart, parse_client_final-printed}
use catfish.Proxy.Auth.Wire.{
  Wire, ClientMessage, ClientState, ServerMessage, startup_message, sasl_initial_response,
  sasl_response, parameter_status, sasl, sasl_continue, sasl_final,
}
use catfish.Proxy.Auth.Methods.{
  Crypto, xor_bytes, expected_proof, salted_password, auth_message, server_first, server_signature,
  client_key_label,
}

-- What the Go library documents of Base64 and of HMAC-SHA-256.
pub record IsGoLibrary (go : Crypto) : Type 0 where
  pub decoded : (x : Bytes) → go.decode (go.encode x) ≡ some x
  pub no_comma : (x : Bytes) → IsPart (go.encode x)
  pub not_blank : (c : ℕ) (x : Bytes) → go.encode (c ∷ x) ≢ []
  pub size : (key text : Bytes) → length (go.hmac key text) ≡ 32

-- the bytewise XOR of two texts
abbrev zip_xor : Bytes → Bytes → Bytes
zip_xor [] bs = []
zip_xor (a ∷ l) [] = []
zip_xor (a ∷ l) (b ∷ bs) = bit_xor a b ∷ zip_xor l bs

xor_bytes-zip_xor : (a b : Bytes) → length a ≡ length b → xor_bytes a b ≡ some (zip_xor a b)
unfolding xor_bytes
xor_bytes-zip_xor [] [] h = refl
xor_bytes-zip_xor [] (b ∷ bs) h = refl
xor_bytes-zip_xor (a ∷ l) [] h = absurd (omega (arith, h))
xor_bytes-zip_xor (a ∷ l) (b ∷ bs) h = rw (xor_bytes-zip_xor l bs (omega arith))

-- A client of RFC 5802: its two messages, its proof, and the signature that it expects.
abbrev pub client_first_bare : (name nonce : Bytes) → Bytes
client_first_bare name nonce = b'n' ∷ b'=' ∷ (name ++ comma ∷ b'r' ∷ b'=' ∷ nonce)

abbrev pub without_proof : (binding nonce : Bytes) → Bytes
without_proof binding nonce = b'c' ∷ b'=' ∷ (binding ++ comma ∷ b'r' ∷ b'=' ∷ nonce)

abbrev pub client_proof : Crypto → (salted message : Bytes) → Bytes
client_proof go salted message =
    let client_key = go.hmac salted client_key_label in
    zip_xor client_key (go.hmac (go.sha256 client_key) message)

abbrev pub client_final : Crypto → (binding nonce salted message : Bytes) → Bytes
client_final go binding nonce salted message =
    b'c'
    ∷ b'='
    ∷ (binding
        ++ comma
          ∷ b'r'
          ∷ b'='
          ∷ (nonce ++ comma ∷ b'p' ∷ b'=' ∷ go.encode (client_proof go salted message)))

module _ (go : Crypto) (entry : User) (name nonce binding suffix salt : Bytes) where
  abbrev pub full_nonce : Bytes
  full_nonce = nonce ++ go.encode suffix

  abbrev pub challenge : Bytes
  challenge = server_first full_nonce (go.encode salt)

  abbrev pub shared_message : Bytes
  shared_message =
      auth_message (client_first_bare name nonce) challenge (without_proof binding full_nonce)

  -- what the client sends for `user`, with the password of `entry`
  abbrev pub client_messages : (user : String) → List ClientMessage
  client_messages user =
      startup_message user entry.database
      ∷ sasl_initial_response "SCRAM-SHA-256" (b'n' ∷ comma ∷ comma ∷ client_first_bare name nonce)
      ∷ sasl_response
          (client_final go binding full_nonce (salted_password go entry salt) shared_message)
      ∷ []

  -- what the client expects before it is told that it is authenticated
  abbrev pub server_messages : List ServerMessage
  server_messages =
      sasl
      ∷ sasl_continue challenge
      ∷ sasl_final (
          b'v'
          ∷ b'='
          ∷ go.encode (server_signature go (salted_password go entry salt) shared_message))
      ∷ []

abbrev pub status_message : String × String → ServerMessage
status_message (name, value) = parameter_status name value

abbrev pub wire :
    List ClientMessage → List Bool → List Bytes → List ServerMessage → ClientState → Wire
wire ms fs rs out c = record { incoming = ms; flushes = fs; randoms = rs; sent = out; client = c }

pub IsPart-append : (p q : Bytes) → IsPart p → IsPart q → IsPart (p ++ q)
IsPart-append [] q h k = k
IsPart-append (c ∷ p) q h k = (h.0, IsPart-append p q h.1 k)

length-zip_xor : (a b : Bytes) → length a ≡ length b → length (zip_xor a b) ≡ length a
length-zip_xor [] b h = refl
length-zip_xor (a ∷ l) [] h = absurd (omega (arith, h))
length-zip_xor (a ∷ l) (b ∷ m) h = ap suc (length-zip_xor l m (omega arith))

nonempty :
    (x y : Bytes)
    → ((c : ℕ) (z : Bytes) → x ≡ c ∷ z → y ≢ [])
    → length x ≡ 32
    → (p : ℕ) × (ps : Bytes) × (y ≡ p ∷ ps)
nonempty [] y h k = absurd (omega (arith, k))
nonempty (c ∷ x) [] h k = absurd (h c x refl refl)
nonempty (c ∷ x) (p ∷ ps) h k = (p, ps, refl)

module _ (go : Crypto) (law : IsGoLibrary go) (salted message : Bytes) where
  same_size :
      length (go.hmac salted client_key_label)
      ≡ length (go.hmac (go.sha256 (go.hmac salted client_key_label)) message)
  same_size = law.size _ _ ∙ sym (law.size _ _)

  pub expected_proof-client_proof :
      expected_proof go salted message ≡ some (client_proof go salted message)
  unfolding expected_proof
  expected_proof-client_proof = xor_bytes-zip_xor _ _ same_size

  encoded_proof : (p : ℕ) × (ps : Bytes) × (go.encode (client_proof go salted message) ≡ p ∷ ps)
  encoded_proof =
      nonempty _ _ (λ c x e h. law.not_blank c x (sym (ap go.encode e) ∙ h))
        (length-zip_xor _ _ same_size ∙ law.size _ _)

  pub client_final_parsed :
      (binding nonce : Bytes)
      → IsPart binding
      → IsPart nonce
      → parse_client_final (client_final go binding nonce salted message) nonce
        ≡ parsed (without_proof binding nonce) (go.encode (client_proof go salted message))
  client_final_parsed binding nonce hb hn =
      let (p, ps, e) = encoded_proof in
      rw e (
        parse_client_final-printed binding nonce p ps hb hn
          (subst IsPart e (law.no_comma (client_proof go salted message))))
