-- ===== src/Crypto/Token.antt =====
-- What the resumption tokens of `create_resumption_token` hold: a reader gets it all back.
use never_fox.Tickets.{ResumptionToken, resumption_token}
use never_fox.Crypto.{Crypto}
use never_fox.Types.{Version}
use never_fox.Nss.{Bytes}
use never_fox.Crypto.Party.{Encoder, resumption_bytes, create_resumption_token, or_empty}
use never_fox.Agent.Parties
use never_fox.Agent.Parties.{client, server}
use never_fox.Base.{
  length, ok, ℕ, ◌^◌, ◌<◌, ◌≡◌, refl, sym, ap, subst, ◌⊎◌, inl, inr, Option, none, some, List, [],
  ◌∷◌, ◌++◌, arith,
}

-- The readers of neqo-common's `Decoder`, and what they read: a number or bytes, and the rest. What
-- `Encoder` writes is read back, for numbers and lengths of at most 62 bits.
pub record Decoder : Type 0 where
  pub read_uint : ℕ → Bytes → Option (ℕ × Bytes)
  pub read_varint : Bytes → Option (ℕ × Bytes)
  pub read_vvec : Bytes → Option (Bytes × Bytes)

pub record CodecLaws (enc : Encoder) (dec : Decoder) : Type 0 where
  pub wire_version_fits : (v : Version) → enc.wire_version v < 2 ^ 32
  pub uint-read :
      (n : ℕ) (rest : Bytes) → n < 2 ^ 32 → dec.read_uint 4 (enc.uint 4 n ++ rest) ≡ some (n, rest)
  pub varint-read :
      (n : ℕ) (rest : Bytes) → n < 2 ^ 62 → dec.read_varint (enc.varint n ++ rest) ≡ some (n, rest)
  pub vvec-read :
      (b rest : Bytes) → length b < 2 ^ 62 → dec.read_vvec (enc.vvec b ++ rest) ≡ some (b, rest)

abbrev then_read : {A B : Type 0} → Option A → (A → Option B) → Option B
then_read none f = none
then_read (some a) f = f a

-- The parts of a token: the version on the wire, the round-trip time, the transport parameters, the
-- token of the server, and the ticket.
abbrev pub read_token : Decoder → Bytes → Option (ℕ × ℕ × Bytes × Bytes × Bytes)
read_token dec token = then_read (dec.read_uint 4 token) λ v. then_read (dec.read_varint v.1) λ rtt.
    then_read (dec.read_vvec rtt.1)
      λ tps. then_read (dec.read_vvec tps.1) λ new. some (v.0, rtt.0, tps.0, new.0, new.1)

pop_cases :
    (ts : List ResumptionToken)
    → ((ts ≡ []) × (resumption_token ts ≡ (none, [])))
      ⊎ ((last : ResumptionToken) × (kept : List ResumptionToken) × (ts ≡ kept ++ (last ∷ []))
          × (resumption_token ts ≡ (some last, kept)))
unfolding resumption_token
pop_cases [] = inl (refl, refl)
pop_cases (t ∷ []) = inr (t, [], refl, refl)
pop_cases (t ∷ u ∷ ts) = elim (pop_cases (u ∷ ts)) [
  | inl (empty, _) ↦ ground (arith, empty)
  | inr (last, kept, all, popped) ↦
      inr (last, t ∷ kept, ap (λ l. t ∷ l) all, ap (λ p. (p.0, t ∷ p.1)) popped)
]

module _ (enc : Encoder) (dec : Decoder) (laws : CodecLaws enc dec) where
  read_token-resumption_bytes :
      (new_token : Option Bytes) (tps : Bytes) (version : Version) (rtt : ℕ) (ticket : Bytes)
      → rtt < 2 ^ 62
      → length tps < 2 ^ 62
      → length (or_empty new_token) < 2 ^ 62
      → read_token dec (resumption_bytes enc new_token tps version rtt ticket)
        ≡ some (enc.wire_version version, rtt, tps, or_empty new_token, ticket)
  unfolding resumption_bytes
  read_token-resumption_bytes new_token tps version rtt ticket r t n =
      rw (laws.uint-read (enc.wire_version version) _ (laws.wire_version_fits version)) (
        rw (laws.varint-read rtt _ r)
          (rw (laws.vvec-read tps _ t) (rw (laws.vvec-read (or_empty new_token) ticket n) refl)))

  module _ {E Tx Rx : Type 0} where
    -- The token that a client makes is of the ticket that NSS gave last, which it then no longer
    -- has, and expires with it; and a reader finds in it the version, the round-trip time, the
    -- transport parameters, the token of the server and the ticket.
    pub create_resumption_token-read_token :
        (new_token : Option Bytes) (tps : Bytes) (version : Version) (rtt : ℕ)
        (c c' : Crypto (Parties.Agent E) Tx Rx) (k : Parties.Client E) (t : ResumptionToken)
        → rtt < 2 ^ 62
        → length tps < 2 ^ 62
        → length (or_empty new_token) < 2 ^ 62
        → c.tls ≡ client k
        → create_resumption_token enc new_token tps version rtt c ≡ (ok (some t), c')
        → (last : ResumptionToken) × (kept : List ResumptionToken) × (k.resumption
            ≡ kept ++ (last ∷ []))
          × (c'.tls ≡ client (record k { resumption = kept }))
          × (t.expiration_time ≡ last.expiration_time)
          × (read_token dec t.token
              ≡ some (enc.wire_version version, rtt, tps, or_empty new_token, last.token))
    unfolding create_resumption_token
    create_resumption_token-read_token new_token tps version rtt c c' k t r l n at e =
        elim (pop_cases k.resumption) [
          | inl (_, gone) ↦ ground (arith, at, gone)
          | inr (last, kept, all, popped) ↦
              let read = read_token-resumption_bytes new_token tps version rtt last.token r l n in
              let whole : t.token ≡ resumption_bytes enc new_token tps version rtt last.token =
                ground (arith, at, popped) in
              (
                last,
                kept,
                all,
                ground (arith, at, popped),
                ground (arith, at, popped),
                subst
                    (λ b.
                      read_token dec b
                      ≡ some (enc.wire_version version, rtt, tps, or_empty new_token, last.token))
                    (sym whole) read,
              )
        ]
