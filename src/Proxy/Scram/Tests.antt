-- ===== src/Proxy/Scram/Tests.antt =====
-- The theorems about the parsers at concrete messages.
use catfish.Prelude.{◌≡◌, ◌≢◌, ◌≤◌, refl, [], ◌∷◌, ◌++◌, arith, length}
use catfish.Proxy.Scram.{
  Bytes, comma, split, parse_client_first, parse_client_final, parsed, strip_prefix, final_parts,
  join,
}
use catfish.Proxy.Scram.Parse.{
  parse_client_first-printed, parse_client_final-printed, Agrees, parse_client_final-Agrees,
}

abbrev user : Bytes
user = b'b' ∷ b'o' ∷ b'b' ∷ []

abbrev nonce : Bytes
nonce = b'x' ∷ b'7' ∷ []

abbrev proof : Bytes
proof = b'q' ∷ []

parse_client_first-printed_example :
    let bare = b'n' ∷ b'=' ∷ (user ++ comma ∷ b'r' ∷ b'=' ∷ nonce) in
    parse_client_first (b'n' ∷ comma ∷ comma ∷ bare) ≡ parsed bare nonce
parse_client_first-printed_example =
    parse_client_first-printed user b'x' (b'7' ∷ []) (omega arith, (omega arith, (omega arith, tt)))
      (omega arith, (omega arith, tt))

parse_client_final-printed_example :
    let without = b'c' ∷ b'=' ∷ (user ++ comma ∷ b'r' ∷ b'=' ∷ nonce) in
    parse_client_final
      (b'c' ∷ b'=' ∷ (user ++ comma ∷ b'r' ∷ b'=' ∷ (nonce ++ comma ∷ b'p' ∷ b'=' ∷ b'q' ∷ [])))
      nonce
    ≡ parsed without (b'q' ∷ [])
parse_client_final-printed_example =
    parse_client_final-printed user nonce b'q' [] (omega arith, (omega arith, (omega arith, tt)))
      (omega arith, (omega arith, tt)) (omega arith, tt)

-- A last message without a nonce, `c=b,x,p=q`, is accepted: only nonces that are there are compared.
abbrev no_nonce : Bytes
no_nonce = b'c' ∷ b'=' ∷ b'b' ∷ comma ∷ b'x' ∷ comma ∷ b'p' ∷ b'=' ∷ b'q' ∷ []

no_nonce_accepted :
    parse_client_final no_nonce nonce ≡ parsed (b'c' ∷ b'=' ∷ b'b' ∷ comma ∷ b'x' ∷ []) (b'q' ∷ [])
unfolding parse_client_final final_parts split strip_prefix join
no_nonce_accepted = refl

parse_client_final-Agrees_example :
    (3 ≤ length (split no_nonce)) × (proof ≢ []) × Agrees nonce (split no_nonce)
parse_client_final-Agrees_example =
    parse_client_final-Agrees no_nonce nonce (b'c' ∷ b'=' ∷ b'b' ∷ comma ∷ b'x' ∷ []) (b'q' ∷ [])
      no_nonce_accepted
