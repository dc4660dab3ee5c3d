-- ===== src/Crypto/Records.antt =====
-- `buffer_records` of `Crypto`: what the agent wants sent goes to the streams of its spaces.
use never_fox.Nss.{Bytes}
use never_fox.Streams.{get_stream, set_stream, CryptoStream, CryptoStreams}
use never_fox.Streams.Spaces.{space_eq}
use never_fox.Crypto.{
  buffer_records, Crypto, send, Error, in_streams, Bytes, CryptoStreams, protocol_violation,
}
use never_fox.Types.{Space, Error, protocol_violation}
use never_fox.Crypto.Agent.{Tls, Record}
use never_fox.Streams.Buffers.{TxBuffer, RxStreamOrderer}
use never_fox.Streams.{send}
use never_fox.Base.{
  ◌==◌, if◌then◌else◌, ==_iff, map_option, All, Res, ◌>>◌, >>=-eq-ok, branch-raise-eq-ok, ok, ◌≡◌,
  ◌∙◌, List, [], ◌∷◌, arith,
}

module _ {A Tx Rx : Type 0} (txs : TxBuffer Tx) (rxs : RxStreamOrderer Rx) (tls : Tls A) where
  -- The buffer of a space after the bytes of the records for that space, one after the other.
  abbrev pub sent : Space → List Record → Tx → Tx
  sent space [] t = t
  sent space (r ∷ rs) t =
      sent space rs (if space_eq (tls.space_of r.epoch) space then txs.send r.bytes t else t)

  abbrev pub with_tx : (Tx → Tx) → CryptoStream Tx Rx → CryptoStream Tx Rx
  with_tx f k = record k { tx = f k.tx }

  send-get_stream :
      (space other : Space) (bytes : Bytes) (s s' : CryptoStreams Tx Rx)
      → send txs rxs space bytes s ≡ (ok tt, s')
      → get_stream other s'
        ≡ map_option
            (with_tx (λ t. if space_eq space other then txs.send bytes t else t))
            (get_stream other s)
  unfolding send get_stream set_stream
  send-get_stream space other bytes s s' e = ground arith

  abbrev step : Record → Crypto A Tx Rx → Res Error (Unit {0}) × Crypto A Tx Rx
  step r = in_streams (send txs rxs (tls.space_of r.epoch) r.bytes)

  step_inv :
      (r : Record) (c c' : Crypto A Tx Rx)
      → step r c ≡ (ok tt, c')
      → (send txs rxs (tls.space_of r.epoch) r.bytes c.streams ≡ (ok tt, c'.streams))
        × (c'.states ≡ c.states)
        × (c'.tls ≡ c.tls)
  step_inv r c c' e = ground arith

  buffer_records_inv :
      (r : Record) (rs : List Record) (c c' : Crypto A Tx Rx)
      → buffer_records txs rxs tls (r ∷ rs) c ≡ (ok tt, c')
      → (r.ct ≡ tls.ct_handshake)
        × (mid : Crypto A Tx Rx) × (step r c ≡ (ok tt, mid))
        × (buffer_records txs rxs tls rs mid ≡ (ok tt, c'))
  unfolding buffer_records
  buffer_records_inv r rs c c' e =
      let rest = buffer_records txs rxs tls rs in
      let (hand, run) =
        branch-raise-eq-ok (r.ct == tls.ct_handshake) (step r >> rest) protocol_violation c c' e in
      let (_, mid, first, later) = >>=-eq-ok (λ _. rest) (step r) c run in
      ((==_iff r.ct tls.ct_handshake).0 hand, mid, first, later)

  -- When `buffer_records` succeeds, every record was a handshake record, the stream of every space
  -- has got the bytes of the records for that space in their order, a discarded space is still
  -- discarded, and the keys and the agent are as they were.
  pub buffer_records-get_stream :
      (space : Space) (rs : List Record) (c c' : Crypto A Tx Rx)
      → buffer_records txs rxs tls rs c ≡ (ok tt, c')
      → All (λ r. r.ct ≡ tls.ct_handshake) rs
        × (get_stream space c'.streams
            ≡ map_option (with_tx (sent space rs)) (get_stream space c.streams))
        × (c'.states ≡ c.states)
        × (c'.tls ≡ c.tls)
  unfolding buffer_records
  buffer_records-get_stream space [] c c' e = ground arith
  buffer_records-get_stream space (r ∷ rs) c c' e =
      let (hand, mid, first, rest) = buffer_records_inv r rs c c' e in
      let (one, keys, agent) = step_inv r c mid first in
      let (all, streams, keys', agent') = buffer_records-get_stream space rs mid c' rest in
      (
        (hand, all),
        ground (
          arith,
          streams,
          send-get_stream (tls.space_of r.epoch) space r.bytes c.streams mid.streams one,
        ),
        keys' ∙ keys,
        agent' ∙ agent,
      )
