-- ===== src/Proxy/Auth/Methods.antt =====
-- proxy/clientAuth.go: authClearText, authMD5, authSCRAM and doAuth. The hashes and the codings of the
-- Go library are parameters, and so are the users of the configuration and the parameter statuses.
use Prim.Native.Nat.{bit_xor}
use Prim.Native.String.{String}
use text.Mathlib.Text.{◌==◌}
use catfish.Prelude.{ℕ, Bool, true, false, Option, none, some, List, [], ◌∷◌, ◌++◌, if◌then◌else◌}
use catfish.Config.{User}
use catfish.Proxy.Scram.{
  Bytes, comma, same, Parsed, failed, parsed, parse_client_first, parse_client_final,
}
use catfish.Proxy.Auth.Wire.{
  ClientMessage, startup_message, ssl_request, other_message, password_message, sasl_response,
  sasl_initial_response, ServerMessage, refuse_ssl, cleartext_password, sasl, auth_ok,
  md5_password_with, sasl_continue, sasl_final, parameter_status, ready_for_query, AuthError,
  read_startup_msg, read_startup_msg_after_ssl_decline, startup_msg_unexpected_format, unknown_user,
  database_connection_not_configured, unknown_auth_method, clear_text_challenge_send,
  clear_text_read, clear_text_unexpected_format, clear_text_invalid_password, md5_salt_gen,
  md5_challenge_send, md5_read, md5_unexpected_format, md5_invalid_credentials,
  scram_challenge_send, scram_read, scram_unexpected_init_format, scram_unexpected_method,
  scram_parse_client_first, scram_nonce_gen, scram_salt_gen, scram_server_first_send,
  scram_client_read_final, scram_unexpected_response_format, scram_parse_client_final,
  scram_decode_client_proof, scram_wrong_password, scram_server_final_send, auth_ok_send,
  ready_for_query_send, index_panic, ClientState, Result, ok, err, Action, Nothing, ◌>>=◌, ◌>>◌,
  pure, raise, require, or_raise, send, receive, flush, random, set_client,
}
pub mod Accepted
pub mod Users
pub mod Handshake
pub mod Client
pub mod Complete
mod Tests

-- What the handshake calls: the bytes of a text, MD5, hexadecimal digits, Base64, PBKDF2 over
-- HMAC-SHA-256 with the number of rounds and of bytes, HMAC-SHA-256 of a key and a text, and SHA-256.
pub record Crypto : Type 0 where
  pub bytes : String → Bytes
  pub md5 : Bytes → Bytes
  pub hex : Bytes → Bytes
  pub encode : Bytes → Bytes
  pub decode : Bytes → Option Bytes
  pub pbkdf2 : (password salt : Bytes) (rounds size : ℕ) → Bytes
  pub hmac : (key text : Bytes) → Bytes
  pub sha256 : Bytes → Bytes

-- the type assertions on a message
abbrev pub password_of : ClientMessage → Option Bytes
password_of (password_message p) = some p
password_of _ = none

abbrev pub initial_response_of : ClientMessage → Option (String × Bytes)
initial_response_of (sasl_initial_response mechanism first) = some (mechanism, first)
initial_response_of _ = none

abbrev pub response_of : ClientMessage → Option Bytes
response_of (sasl_response r) = some r
response_of _ = none

abbrev pub startup_of : ClientMessage → Option (String × String)
startup_of (startup_message user database) = some (user, database)
startup_of _ = none

abbrev pub parse_result : Parsed → Option (Bytes × Bytes)
parse_result (failed e) = none
parse_result (parsed text value) = some (text, value)

-- The loop runs over the bytes of the first text; `none` where the second one is shorter.
pub xor_bytes : Bytes → Bytes → Option Bytes
xor_bytes [] s = some []
xor_bytes (k ∷ ks) [] = none
xor_bytes (k ∷ ks) (c ∷ cs) = elim (xor_bytes ks cs) [
  | none ↦ none
  | some r ↦ some (bit_xor k c ∷ r)
]

abbrev pub scram_iterations : ℕ
scram_iterations = 4096

abbrev pub client_key_label : Bytes
client_key_label = b'C' ∷ b'l' ∷ b'i' ∷ b'e' ∷ b'n' ∷ b't' ∷ b' ' ∷ b'K' ∷ b'e' ∷ b'y' ∷ []

abbrev pub server_key_label : Bytes
server_key_label = b'S' ∷ b'e' ∷ b'r' ∷ b'v' ∷ b'e' ∷ b'r' ∷ b' ' ∷ b'K' ∷ b'e' ∷ b'y' ∷ []

-- `fmt.Sprintf("r=%s,s=%s,i=%d", nonce, salt, scramIterations)`
abbrev pub server_first : (nonce salt : Bytes) → Bytes
server_first nonce salt =
    b'r'
    ∷ b'='
    ∷ (nonce
        ++ comma ∷ b's' ∷ b'=' ∷ (salt ++ comma ∷ b'i' ∷ b'=' ∷ b'4' ∷ b'0' ∷ b'9' ∷ b'6' ∷ []))

abbrev pub auth_message : (bare first without : Bytes) → Bytes
auth_message bare first without = bare ++ comma ∷ (first ++ comma ∷ without)

-- the last user of that name in the configuration
pub user_index : List User → String → Option User
user_index [] name = none
user_index (u ∷ us) name = elim (user_index us name) [
  | some v ↦ some v
  | none ↦ if u.username == name then some u else none
]

pub send_statuses : List (String × String) → Action Nothing
send_statuses [] = pure tt
send_statuses ((name, value) ∷ ps) = send (parameter_status name value) >> send_statuses ps

-- A request for TLS is declined, and the next message read.
abbrev pub after_ssl : ClientMessage → Action ClientMessage
after_ssl ssl_request = send refuse_ssl >> receive read_startup_msg_after_ssl_decline
after_ssl msg = pure msg

pub read_startup : Action ClientMessage
read_startup = receive read_startup_msg >>= after_ssl

-- round 1 of SCRAM: the first message without its header, and the nonce of the client
pub scram_round_1 : Action (Bytes × Bytes)
scram_round_1 = do
  send sasl
  flush scram_challenge_send
  msg ← receive scram_read
  init ← or_raise (initial_response_of msg) scram_unexpected_init_format
  require (init.0 == "SCRAM-SHA-256") scram_unexpected_method
  or_raise (parse_result (parse_client_first init.1)) scram_parse_client_first

-- the end of `doAuth`, when the client is authenticated
pub welcome : ClientState → List (String × String) → Action Nothing
welcome client statuses = do
  set_client client
  send auth_ok
  send_statuses statuses
  flush auth_ok_send
  send (ready_for_query b'I')
  flush ready_for_query_send

module _ (go : Crypto) where
  pub md5_password : (password username salt : Bytes) → Bytes
  md5_password password username salt =
      b'm' ∷ b'd' ∷ b'5' ∷ go.hex (go.md5 (go.hex (go.md5 (password ++ username)) ++ salt))

  pub auth_clear_text : User → Action Nothing
  auth_clear_text entry = do
    send cleartext_password
    flush clear_text_challenge_send
    msg ← receive clear_text_read
    pw ← or_raise (password_of msg) clear_text_unexpected_format
    require (same pw (go.bytes entry.password)) clear_text_invalid_password

  pub auth_md5 : User → Action Nothing
  auth_md5 entry = do
    salt ← random md5_salt_gen
    send (md5_password_with salt)
    flush md5_challenge_send
    msg ← receive md5_read
    pw ← or_raise (password_of msg) md5_unexpected_format
    require (same pw (md5_password (go.bytes entry.password) (go.bytes entry.username) salt))
        md5_invalid_credentials

  abbrev pub salted_password : User → Bytes → Bytes
  salted_password entry salt = go.pbkdf2 (go.bytes entry.password) salt scram_iterations 32

  pub expected_proof : (salted message : Bytes) → Option Bytes
  expected_proof salted message =
      let client_key = go.hmac salted client_key_label in
      xor_bytes client_key (go.hmac (go.sha256 client_key) message)

  pub server_signature : (salted message : Bytes) → Bytes
  server_signature salted message = go.hmac (go.hmac salted server_key_label) message

  -- rounds 2 and 3, after the server's nonce and salt are drawn
  pub scram_round_2 : User → (bare nonce salt : Bytes) → Action Nothing
  scram_round_2 entry bare nonce salt = do
    let first = server_first nonce (go.encode salt)
    send (sasl_continue first)
    flush scram_server_first_send
    msg ← receive scram_client_read_final
    response ← or_raise (response_of msg) scram_unexpected_response_format
    final ← or_raise (parse_result (parse_client_final response nonce)) scram_parse_client_final
    let salted = salted_password entry salt
    let message = auth_message bare first final.0
    expected ← or_raise (expected_proof salted message) index_panic
    proof ← or_raise (go.decode final.1) scram_decode_client_proof
    require (same proof expected) scram_wrong_password
    send (sasl_final (b'v' ∷ b'=' ∷ go.encode (server_signature salted message)))
    flush scram_server_final_send

  pub auth_scram : User → Action Nothing
  auth_scram entry = do
    hello ← scram_round_1
    suffix ← random scram_nonce_gen
    salt ← random scram_salt_gen
    scram_round_2 entry hello.0 (hello.1 ++ go.encode suffix) salt

  pub authenticate : (method : String) → User → Action Nothing
  authenticate method entry =
      if method == "cleartext"
      then auth_clear_text entry
      else if method == "md5"
      then auth_md5 entry
      else if method == "scram-sha-256"
      then auth_scram entry
      else raise unknown_auth_method

  pub do_auth : List User → List (String × String) → Action Nothing
  do_auth users statuses = do
    msg ← read_startup
    claim ← or_raise (startup_of msg) startup_msg_unexpected_format
    entry ← or_raise (user_index users claim.0) unknown_user
    require (entry.database == claim.1) database_connection_not_configured
    authenticate (if entry.auth_method == "" then "scram-sha-256" else entry.auth_method) entry
    welcome (record { username = claim.0; database = claim.1; tier = entry.tier }) statuses
