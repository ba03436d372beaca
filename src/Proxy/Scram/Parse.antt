-- ===== src/Proxy/Scram/Parse.antt =====
-- proxy/clientAuth.go: the parsers on the messages of a client that keeps to the protocol.
use mathlib.Core.Bool.{false≢true}
use catfish.Prelude.{
  ℕ, ◌≡◌, ◌≢◌, refl, sym, ap, ◌∙◌, ◌⊎◌, inl, inr, true, none, some, List, [], ◌∷◌, ◌++◌, arith,
  length, ltb, ◌==◌, ==-eq_true, ==-eq_false, Bool-cases, Option-cases, ap₂, ◌≤◌,
}
use catfish.Proxy.Scram.{
  Bytes, comma, strip_prefix, split, join, is_blank, same, parsed, client_nonce, parse_client_first,
  final_parts, parse_client_final,
}

-- a text without a comma
abbrev pub IsPart : Bytes → Type 0
IsPart [] = Unit
IsPart (c ∷ s) = (c ≢ comma) × IsPart s

split-part : (p : Bytes) → IsPart p → split p ≡ p ∷ []
unfolding split
split-part [] h = refl
split-part (c ∷ p) h = rw (==-eq_false c comma h.0, split-part p h.1)

split_part_comma : (p s : Bytes) → IsPart p → split (p ++ comma ∷ s) ≡ p ∷ split s
unfolding split
split_part_comma [] s h = refl
split_part_comma (c ∷ p) s h = rw (==-eq_false c comma h.0, split_part_comma p s h.1)

pub same_refl : (s : Bytes) → same s s ≡ true
same_refl [] = refl
same_refl (c ∷ s) = rw (==-eq_true c c refl, same_refl s)

-- The first message of a client: the user's name and the client's nonce, behind the GS2 header. The
-- parser gives back what follows the header, and the nonce, if neither has a comma and the nonce is
-- not empty.
pub parse_client_first-printed :
    (user : Bytes) (c : ℕ) (nonce : Bytes)
    → IsPart user
    → IsPart (c ∷ nonce)
    → let bare = b'n' ∷ b'=' ∷ (user ++ comma ∷ b'r' ∷ b'=' ∷ c ∷ nonce) in
      parse_client_first (b'n' ∷ comma ∷ comma ∷ bare) ≡ parsed bare (c ∷ nonce)
unfolding parse_client_first client_nonce strip_prefix
parse_client_first-printed user c nonce hu hn =
    let parts =
      split_part_comma (b'n' ∷ b'=' ∷ user) (b'r' ∷ b'=' ∷ c ∷ nonce)
        (omega arith, (omega arith, hu))
      ∙ ap (◌∷◌ (b'n' ∷ b'=' ∷ user))
          (split-part (b'r' ∷ b'=' ∷ c ∷ nonce) (omega arith, (omega arith, hn))) in
    rw parts

-- The last message of a client: the channel binding, the server's nonce and the proof. The parser
-- gives back the message without the proof, and the proof, if none has a comma, the proof is not empty
-- and the nonce is the expected one.
pub parse_client_final-printed :
    (binding nonce : Bytes) (c : ℕ) (proof : Bytes)
    → IsPart binding
    → IsPart nonce
    → IsPart (c ∷ proof)
    → let without = b'c' ∷ b'=' ∷ (binding ++ comma ∷ b'r' ∷ b'=' ∷ nonce) in
      parse_client_final
        (b'c'
          ∷ b'='
          ∷ (binding ++ comma ∷ b'r' ∷ b'=' ∷ (nonce ++ comma ∷ b'p' ∷ b'=' ∷ c ∷ proof)))
        nonce
      ≡ parsed without (c ∷ proof)
unfolding parse_client_final final_parts strip_prefix join
parse_client_final-printed binding nonce c proof hb hn hp =
    let parts =
      split_part_comma (b'c' ∷ b'=' ∷ binding)
        (b'r' ∷ b'=' ∷ (nonce ++ comma ∷ b'p' ∷ b'=' ∷ c ∷ proof)) (omega arith, (omega arith, hb))
      ∙ ap (◌∷◌ (b'c' ∷ b'=' ∷ binding)) (
          split_part_comma (b'r' ∷ b'=' ∷ nonce) (b'p' ∷ b'=' ∷ c ∷ proof)
            (omega arith, (omega arith, hn))
          ∙ ap (◌∷◌ (b'r' ∷ b'=' ∷ nonce))
              (split-part (b'p' ∷ b'=' ∷ c ∷ proof) (omega arith, (omega arith, hp)))) in
    rw (parts, same_refl nonce)

pub same_lem : (s t : Bytes) → same s t ≡ true → s ≡ t
same_lem [] [] e = refl
same_lem [] (d ∷ t) e = absurd (cc e)
same_lem (c ∷ s) [] e = absurd (cc e)
same_lem (c ∷ s) (d ∷ t) e = elim (Bool-cases (c == d)) [
  | inl k ↦ ap₂ ◌∷◌ (ground arith) (same_lem s t (ground arith))
  | inr k ↦ absurd (ground arith)
]

-- a part that begins with `p=` does not begin with `r=`
proof-or-nonce :
    (p v w : Bytes)
    → strip_prefix (b'p' ∷ b'=' ∷ []) p ≡ some v
    → strip_prefix (b'r' ∷ b'=' ∷ []) p ≡ some w
    → ⊥
unfolding strip_prefix
proof-or-nonce [] v w e k = absurd (cc e)
proof-or-nonce (d ∷ s) v w e k = ground arith

-- Every nonce among the parts is the expected one.
abbrev pub Agrees : Bytes → List Bytes → Type 0
Agrees expected [] = Unit
Agrees expected (p ∷ ps) =
    ((w : Bytes) → strip_prefix (b'r' ∷ b'=' ∷ []) p ≡ some w → w ≡ expected) × Agrees expected ps

final_parts-Agrees :
    (expected : Bytes) (ps : List Bytes) (proof : Bytes) (others : List Bytes)
    → (final_parts expected ps proof others ≡ none) ⊎ Agrees expected ps
unfolding final_parts
final_parts-Agrees expected [] proof others = inr tt
final_parts-Agrees expected (p ∷ ps) proof others =
    elim (Option-cases (strip_prefix (b'p' ∷ b'=' ∷ []) p)) [
      | inr (v, e) ↦ elim (final_parts-Agrees expected ps v others) [
        | inl n ↦ inl (rw (final_parts, e) n)
        | inr a ↦ inr (λ w k. absurd (proof-or-nonce p v w e k), a)
      ]
      | inl e ↦ elim (Option-cases (strip_prefix (b'r' ∷ b'=' ∷ []) p)) [
        | inl k ↦ elim (final_parts-Agrees expected ps proof (others ++ (p ∷ []))) [
          | inl n ↦ inl (rw (final_parts, e, k) n)
          | inr a ↦ inr (λ w j. absurd (cc (j, k)), a)
        ]
        | inr (w, k) ↦ elim (Bool-cases (same w expected)) [
          | inr n ↦ inl (rw (final_parts, e, k, n))
          | inl y ↦ elim (final_parts-Agrees expected ps proof (others ++ (p ∷ []))) [
            | inl n ↦ inl (rw (final_parts, e, k, y) n)
            | inr a ↦ inr (λ x j. cc (j, k, same_lem w expected y), a)
          ]
        ]
      ]
    ]

-- Every last message that the parser accepts has at least three parts, a proof that is not empty, and
-- among its parts no nonce but the expected one.
pub parse_client_final-Agrees :
    (msg expected text proof : Bytes)
    → parse_client_final msg expected ≡ parsed text proof
    → (3 ≤ length (split msg)) × (proof ≢ []) × Agrees expected (split msg)
unfolding parse_client_final
parse_client_final-Agrees msg expected text proof r =
    elim (Bool-cases (ltb (length (split msg)) 3)) [
      | inl e ↦ absurd (cc (e, r))
      | inr e ↦ elim (final_parts-Agrees expected (split msg) [] []) [
        | inl n ↦ absurd (cc (e, n, r))
        | inr a ↦ elim (Option-cases (final_parts expected (split msg) [] [])) [
          | inl n ↦ absurd (cc (e, n, r))
          | inr (x, k) ↦ elim (Bool-cases (is_blank x.0)) [
            | inl b ↦ absurd (cc (e, k, b, r))
            | inr b ↦ (
              ground arith,
              λ z. let q : x.0 ≡ [] = cc (e, k, b, r, z) in false≢true (sym b ∙ ap is_blank q),
              a,
            )
          ]
        ]
      ]
    ]
