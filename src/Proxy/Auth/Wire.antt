-- ===== src/Proxy/Auth/Wire.antt =====
-- proxy/clientAuth.go: the connection to a client while it is authenticated. What it receives, whether
-- its flushes succeed and the random bytes it draws are lists in its state; an empty list is an error.
use Prim.Native.String.{String}
use catfish.Prelude.{ℕ, Bool, true, false, Option, none, some, List, [], ◌∷◌, ◌++◌, if◌then◌else◌}
use catfish.Proxy.Scram.{Bytes}
pub mod Effects

-- messages of the client, by the cases that the code tells apart; a parameter that a startup message
-- does not have is the empty text
pub data ClientMessage : Type 0 where
  startup_message : (user database : String) → ClientMessage
  ssl_request other_message : ClientMessage
  password_message sasl_response : Bytes → ClientMessage
  sasl_initial_response : (mechanism : String) (first : Bytes) → ClientMessage

pub data ServerMessage : Type 0 where
  refuse_ssl cleartext_password sasl auth_ok : ServerMessage
  md5_password_with sasl_continue sasl_final : Bytes → ServerMessage
  parameter_status : (name value : String) → ServerMessage
  ready_for_query : ℕ → ServerMessage

-- The errors of proxy/errors.go that the handshake returns, without the errors that they wrap.
pub data AuthError : Type 0 where
  read_startup_msg read_startup_msg_after_ssl_decline startup_msg_unexpected_format : AuthError
  unknown_user database_connection_not_configured unknown_auth_method : AuthError
  clear_text_challenge_send clear_text_read clear_text_unexpected_format : AuthError
  clear_text_invalid_password : AuthError
  md5_salt_gen md5_challenge_send md5_read md5_unexpected_format md5_invalid_credentials : AuthError
  scram_challenge_send scram_read scram_unexpected_init_format scram_unexpected_method : AuthError
  scram_parse_client_first scram_nonce_gen scram_salt_gen scram_server_first_send : AuthError
  scram_client_read_final scram_unexpected_response_format scram_parse_client_final : AuthError
  scram_decode_client_proof scram_wrong_password scram_server_final_send : AuthError
  auth_ok_send ready_for_query_send : AuthError
  -- an index out of range
  index_panic : AuthError

-- The fields of `clientState` that the handshake sets.
pub record ClientState : Type 0 where
  pub username : String
  pub database : String
  pub tier : String

-- The sent messages stand in the order of sending.
pub record Wire : Type 0 where
  pub incoming : List ClientMessage
  pub flushes : List Bool
  pub randoms : List Bytes
  pub sent : List ServerMessage
  pub client : ClientState

pub data Result {ℓ} (A : Type ℓ) : Type ℓ where
  ok : A → Result A
  err : AuthError → Result A

abbrev pub Action : Type 0 → Type 0
Action A = Wire → Result A × Wire

abbrev pub Nothing : Type 0
Nothing = Unit {0}

infixl 5 ◌>>=◌ ◌>>◌
unfoldable pub ◌>>=◌ : {A B : Type 0} → Action A → (A → Action B) → Action B
◌>>=◌ m f w = let (r, w') = m w in elim r [ ok a ↦ f a w' | err e ↦ (err e, w') ]

abbrev pub ◌>>◌ : {B : Type 0} → Action Nothing → Action B → Action B
m >> k = m >>= λ _. k

abbrev pub pure : {A : Type 0} → A → Action A
pure a w = (ok a, w)

abbrev pub raise : {A : Type 0} → AuthError → Action A
raise e w = (err e, w)

abbrev pub require : Bool → AuthError → Action Nothing
require b e w = (if b then ok tt else err e, w)

abbrev pub or_raise : {A : Type 0} → Option A → AuthError → Action A
or_raise none e = raise e
or_raise (some a) e = pure a

abbrev pub send : ServerMessage → Action Nothing
send m w = (ok tt, record w { sent = w.sent ++ (m ∷ []) })

abbrev pub set_client : ClientState → Action Nothing
set_client c w = (ok tt, record w { client = c })

abbrev received : AuthError → List ClientMessage → Wire → Result ClientMessage × Wire
received e [] w = (err e, w)
received e (m ∷ ms) w = (ok m, record w { incoming = ms })

-- `Receive`, with the error that the caller wraps it in
unfoldable pub receive : AuthError → Action ClientMessage
receive e w = received e w.incoming w

abbrev flushed : AuthError → List Bool → Wire → Result Nothing × Wire
flushed e [] w = (err e, w)
flushed e (false ∷ bs) w = (err e, record w { flushes = bs })
flushed e (true ∷ bs) w = (ok tt, record w { flushes = bs })

-- `Flush`
unfoldable pub flush : AuthError → Action Nothing
flush e w = flushed e w.flushes w

abbrev drawn : AuthError → List Bytes → Wire → Result Bytes × Wire
drawn e [] w = (err e, w)
drawn e (r ∷ rs) w = (ok r, record w { randoms = rs })

-- `rand.Read`
unfoldable pub random : AuthError → Action Bytes
random e w = drawn e w.randoms w
