-- ===== src/Proxy/Auth/Methods/Tests.antt =====
-- The handshake with a client, over codings and hashes that keep what the Go library documents.
use Prim.Native.Char.{code}
use Prim.Native.String.{String}
use catfish.Prelude.{ℕ, suc, zero, ◌≡◌, refl, true, some, List, [], ◌∷◌, ◌++◌, ◌+◌, ◌-◌}
use catfish.Config.{User}
use catfish.Proxy.Scram.{Bytes}
use catfish.Proxy.Auth.Wire.{
  Wire, ok, err, ◌>>=◌, ClientMessage, ClientState, startup_message, ssl_request, password_message,
  receive, flush, cleartext_password, refuse_ssl, auth_ok, ready_for_query,
  database_connection_not_configured, clear_text_invalid_password,
}
use catfish.Proxy.Auth.Methods.{
  Crypto, do_auth, user_index, read_startup, send_statuses, welcome, authenticate, auth_clear_text,
}
use catfish.Proxy.Auth.Methods.Handshake.{Admitted, do_auth-Admitted}

abbrev codes : String → Bytes
codes String.[] = []
codes (String.◌∷◌ c s) = code c ∷ codes s

-- the first `n` bytes, with zeros behind a shorter text
abbrev pad : ℕ → Bytes → Bytes
pad zero s = []
pad (suc n) [] = 0 ∷ pad n []
pad (suc n) (c ∷ s) = c ∷ pad n s

abbrev shift : Bytes → Bytes
shift [] = []
shift (c ∷ s) = (c + 45) ∷ shift s

abbrev unshift : Bytes → Bytes
unshift [] = []
unshift (c ∷ s) = (c - 45) ∷ unshift s

abbrev toy : Crypto
toy = record {
  bytes = codes;
  md5 = pad 16;
  hex = shift;
  encode = shift;
  decode = λ s. some (unshift s);
  pbkdf2 = λ p s n k. pad k (p ++ s);
  hmac = λ k t. pad 32 (k ++ t);
  sha256 = pad 32;
}

abbrev reader : User
reader = record {
  username = "app";
  database = "products";
  password = "pw";
  tier = "normal";
  auth_method = "cleartext";
}

abbrev writer : User
writer = record {
  username = "admin";
  database = "products";
  password = "secret";
  tier = "critical";
  auth_method = "";
}

abbrev nobody : ClientState
nobody = record { username = ""; database = ""; tier = "" }

abbrev asks : List ClientMessage → Wire
asks ms = record {
  incoming = ssl_request ∷ ms;
  flushes = true ∷ true ∷ true ∷ [];
  randoms = [];
  sent = [];
  client = nobody;
}

abbrev let_in : Wire
let_in = record {
  incoming = [];
  flushes = [];
  randoms = [];
  sent = refuse_ssl ∷ cleartext_password ∷ auth_ok ∷ ready_for_query b'I' ∷ [];
  client = record { username = "app"; database = "products"; tier = "normal" };
}

abbrev claims : String → String → List ClientMessage
claims database pw = startup_message "app" database ∷ password_message (codes pw) ∷ []

admitted : do_auth toy (reader ∷ writer ∷ []) [] (asks (claims "products" "pw")) ≡ (ok tt, let_in)
unfolding do_auth user_index read_startup send_statuses welcome authenticate auth_clear_text ◌>>=◌
    receive flush
admitted = refl

do_auth-Admitted_example :
    Admitted toy (reader ∷ writer ∷ []) (asks (claims "products" "pw")) let_in
do_auth-Admitted_example =
    do_auth-Admitted toy (reader ∷ writer ∷ []) [] (asks (claims "products" "pw")) let_in admitted

wrong_password :
    (do_auth toy (reader ∷ writer ∷ []) [] (asks (claims "products" "pq"))).0
    ≡ err clear_text_invalid_password
unfolding do_auth user_index read_startup send_statuses welcome authenticate auth_clear_text ◌>>=◌
    receive flush
wrong_password = refl

other_database :
    (do_auth toy (reader ∷ writer ∷ []) [] (asks (claims "users" "pw"))).0
    ≡ err database_connection_not_configured
unfolding do_auth user_index read_startup send_statuses welcome authenticate auth_clear_text ◌>>=◌
    receive flush
other_database = refl

-- Of two users with one name the last one counts.
shadowed :
    (do_auth toy
      (reader ∷ (record reader { database = "orders" }) ∷ [])
      []
      (asks (claims "products" "pw"))).0
    ≡ err database_connection_not_configured
unfolding do_auth user_index read_startup send_statuses welcome authenticate auth_clear_text ◌>>=◌
    receive flush
shadowed = refl

abbrev unit : Bytes
unit = b'b' ∷ b'i' ∷ b'w' ∷ b's' ∷ []
