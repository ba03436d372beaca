-- ===== src/Proxy/Scram.antt =====
-- proxy/clientAuth.go: parseClientFirst and parseClientFinal, the parsers of a client's two messages
-- of a SCRAM-SHA-256 handshake. Texts are lists of bytes.
use catfish.Prelude.{
  ℕ, suc, ◌-◌, Bool, true, false, Option, none, some, List, [], ◌∷◌, ◌++◌, length, ltb, ◌==◌,
  if◌then◌else◌,
}
pub mod Parse
mod Tests

abbrev pub Bytes : Type 0
Bytes = List ℕ

abbrev pub comma : ℕ
comma = b','

-- `HasPrefix(s, prefix)` and the rest of the text
pub strip_prefix : Bytes → Bytes → Option Bytes
strip_prefix [] s = some s
strip_prefix (c ∷ p) [] = none
strip_prefix (c ∷ p) (d ∷ s) = let rest = strip_prefix p s in if c == d then rest else none

abbrev pub cons_first : ℕ → List Bytes → List Bytes
cons_first c [] = (c ∷ []) ∷ []
cons_first c (p ∷ ps) = (c ∷ p) ∷ ps

-- `strings.Split(s, ",")` and `strings.Join(parts, ",")`
pub split : Bytes → List Bytes
split [] = [] ∷ []
split (c ∷ s) = let parts = split s in if c == comma then [] ∷ parts else cons_first c parts

pub join : List Bytes → Bytes
join [] = []
join (p ∷ []) = p
join (p ∷ q ∷ ps) = p ++ comma ∷ join (q ∷ ps)

abbrev pub is_blank : Bytes → Bool
is_blank [] = true
is_blank (c ∷ s) = false

abbrev pub same : Bytes → Bytes → Bool
same [] [] = true
same [] (d ∷ t) = false
same (c ∷ s) [] = false
same (c ∷ s) (d ∷ t) = let rest = same s t in if c == d then rest else false

pub data ScramError : Type 0 where
  expected_gs2_header no_client_nonce malformed_client_final nonce_mismatch no_proof : ScramError

pub data Parsed : Type 0 where
  failed : ScramError → Parsed
  parsed : (text value : Bytes) → Parsed

-- the value of the last part `r=…`, or `found`
pub client_nonce : List Bytes → Bytes → Bytes
client_nonce [] found = found
client_nonce (p ∷ ps) found = elim (strip_prefix (b'r' ∷ b'=' ∷ []) p) [
  | some nonce ↦ client_nonce ps nonce
  | none ↦ client_nonce ps found
]

pub parse_client_first : Bytes → Parsed
parse_client_first msg = elim (strip_prefix (b'n' ∷ comma ∷ comma ∷ []) msg) [
  | none ↦ failed expected_gs2_header
  | some bare ↦
      let nonce = client_nonce (split bare) [] in
      if is_blank nonce then failed no_client_nonce else parsed bare nonce
]

-- the loop of `parseClientFinal`: the proof and the parts without it; `none` is a mismatch
-- of the nonce
pub final_parts : Bytes → List Bytes → Bytes → List Bytes → Option (Bytes × List Bytes)
final_parts expected [] proof others = some (proof, others)
final_parts expected (p ∷ ps) proof others = elim (strip_prefix (b'p' ∷ b'=' ∷ []) p) [
  | some v ↦ final_parts expected ps v others
  | none ↦
      let rest = final_parts expected ps proof (others ++ (p ∷ [])) in
      elim (strip_prefix (b'r' ∷ b'=' ∷ []) p) [
        | none ↦ rest
        | some nonce ↦ if same nonce expected then rest else none
      ]
]

pub parse_client_final : (msg expected : Bytes) → Parsed
parse_client_final msg expected =
    let parts = split msg in
    if ltb (length parts) 3
    then failed malformed_client_final
    else elim (final_parts expected parts [] []) [
      | none ↦ failed nonce_mismatch
      | some (proof, others) ↦
          if is_blank proof then failed no_proof else parsed (join others) proof
    ]
