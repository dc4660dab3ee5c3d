-- ===== src/Streams.antt =====
-- `CryptoStreams` of neqo-transport/src/crypto.rs: one stream of handshake bytes for each packet
-- number space, until the space is discarded. The buffers are those of send_stream.rs and
-- recv_stream.rs, which are not in the repository: their types and operations are parameters.
pub mod Bounded
pub mod Buffers
pub mod Write
pub mod Chunks
pub mod Frames
pub mod Loop
pub mod Whole
pub mod Spaces
use never_fox.Base.{
  leb, if◌then◌else◌, Method, ok, err, panic, ℕ, Bool, true, false, Option, none, some,
}
use never_fox.Types.{Space, Error, internal, protocol_violation, crypto_buffer_exceeded}
use never_fox.Types.Words.{wrapping_sub}
use never_fox.Nss.{Bytes}
use Buffers.{TxBuffer, RxStreamOrderer}

-- `CryptoStream`
pub record CryptoStream (Tx Rx : Type 0) : Type 0 where
  pub tx : Tx
  pub rx : Rx

pub data CryptoStreams (Tx Rx : Type 0) : Type 0 where
  initial : CryptoStream Tx Rx → CryptoStream Tx Rx → CryptoStream Tx Rx → CryptoStreams Tx Rx
  handshake : CryptoStream Tx Rx → CryptoStream Tx Rx → CryptoStreams Tx Rx
  application_data : CryptoStream Tx Rx → CryptoStreams Tx Rx

-- `CryptoRecoveryToken`
pub record CryptoRecoveryToken : Type 0 where
  pub space : Space
  pub offset : ℕ
  pub length : ℕ

abbrev pub buffer_limit : ℕ
buffer_limit = 65536

module _ {Tx Rx : Type 0} where
  -- `discard`
  unfoldable pub discard : Space → Method (CryptoStreams Tx Rx) Error (Unit {0})
  discard Space.initial (initial i h a) = (ok tt, handshake h a)
  discard Space.initial (handshake h a) = (ok tt, handshake h a)
  discard Space.initial (application_data a) = (ok tt, application_data a)
  discard Space.handshake (initial i h a) = (panic, initial i h a)
  discard Space.handshake (handshake h a) = (ok tt, application_data a)
  discard Space.handshake (application_data a) = (ok tt, application_data a)
  discard Space.application_data s = (panic, s)

  -- `get`, and `get_mut` read
  unfoldable pub get_stream : Space → CryptoStreams Tx Rx → Option (CryptoStream Tx Rx)
  get_stream Space.initial (initial i h a) = some i
  get_stream Space.initial (handshake h a) = none
  get_stream Space.initial (application_data a) = none
  get_stream Space.handshake (initial i h a) = some h
  get_stream Space.handshake (handshake h a) = some h
  get_stream Space.handshake (application_data a) = none
  get_stream Space.application_data (initial i h a) = some a
  get_stream Space.application_data (handshake h a) = some a
  get_stream Space.application_data (application_data a) = some a

  -- What is written through the reference that `get_mut` gives.
  unfoldable pub set_stream : Space → CryptoStream Tx Rx → CryptoStreams Tx Rx → CryptoStreams Tx Rx
  set_stream Space.initial c (initial i h a) = initial c h a
  set_stream Space.initial c (handshake h a) = handshake h a
  set_stream Space.initial c (application_data a) = application_data a
  set_stream Space.handshake c (initial i h a) = initial i c a
  set_stream Space.handshake c (handshake h a) = handshake c a
  set_stream Space.handshake c (application_data a) = application_data a
  set_stream Space.application_data c (initial i h a) = initial i h c
  set_stream Space.application_data c (handshake h a) = handshake h c
  set_stream Space.application_data c (application_data a) = application_data c

  -- A change of one buffer to send from, if the space has a stream.
  abbrev pub on_tx : Space → (Tx → Tx) → CryptoStreams Tx Rx → CryptoStreams Tx Rx
  on_tx space f s = elim (get_stream space s) [
    | none ↦ s
    | some c ↦ set_stream space (record c { tx = f c.tx }) s
  ]

module _ {Tx Rx : Type 0} (txs : TxBuffer Tx) (rxs : RxStreamOrderer Rx) where
  -- `send`
  unfoldable pub send : Space → Bytes → Method (CryptoStreams Tx Rx) Error (Unit {0})
  send space bytes s = elim (get_stream space s) [
    | none ↦ (err protocol_violation, s)
    | some c ↦ (ok tt, set_stream space (record c { tx = txs.send bytes c.tx }) s)
  ]

  -- `inbound_frame`: the bytes are stored also where they exceed the limit.
  unfoldable pub inbound_frame : Space → ℕ → Bytes → Method (CryptoStreams Tx Rx) Error (Unit {0})
  inbound_frame space offset bytes s = elim (get_stream space s) [
    | none ↦ (err internal, s)
    | some c ↦
        let rx = rxs.inbound_frame offset bytes c.rx in
        (
          if leb (wrapping_sub (rxs.received rx) (rxs.retired rx)) buffer_limit
              then ok tt
              else err crypto_buffer_exceeded,
          set_stream space (record c { rx = rx }) s,
        )
  ]

  -- `data_ready`
  unfoldable pub data_ready : Space → CryptoStreams Tx Rx → Bool
  data_ready space s = elim (get_stream space s) [ none ↦ false | some c ↦ rxs.data_ready c.rx ]

  -- `read_to_end`: the bytes that are appended to the buffer.
  unfoldable pub read_to_end : Space → Method (CryptoStreams Tx Rx) Error Bytes
  read_to_end space s = elim (get_stream space s) [
    | none ↦ (err protocol_violation, s)
    | some c ↦
        let (bytes, rx) = rxs.read_to_end c.rx in
        (ok bytes, set_stream space (record c { rx = rx }) s)
  ]

  -- `acked`, `lost`
  unfoldable pub acked : CryptoRecoveryToken → CryptoStreams Tx Rx → CryptoStreams Tx Rx
  acked token = on_tx token.space (txs.mark_as_acked token.offset token.length)

  unfoldable pub lost : CryptoRecoveryToken → CryptoStreams Tx Rx → CryptoStreams Tx Rx
  lost token = on_tx token.space (txs.mark_as_lost token.offset token.length)

  -- `resend_unacked`
  unfoldable pub resend_unacked : Space → CryptoStreams Tx Rx → CryptoStreams Tx Rx
  resend_unacked Space.initial s = on_tx Space.initial txs.unmark_sent s
  resend_unacked Space.handshake s = on_tx Space.handshake txs.unmark_sent s
  resend_unacked Space.application_data s = s

  -- `is_empty`
  unfoldable pub is_empty : Space → CryptoStreams Tx Rx → Bool
  is_empty space s = elim (get_stream space s) [ none ↦ true | some c ↦ txs.is_empty c.tx ]
