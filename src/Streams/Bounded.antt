-- ===== src/Streams/Bounded.antt =====
-- How much of what the peer sends a connection holds: `inbound_frame` and its limit.
use never_fox.Types.Words.{wrapping_sub}
use never_fox.Nss.{Bytes}
use never_fox.Types.{Space}
use never_fox.Streams.Buffers.{RxStreamOrderer, TxBuffer}
use never_fox.Streams.{
  initial, handshake, application_data, TxBuffer, RxStreamOrderer, set_stream, CryptoStream,
  get_stream, CryptoStreams, buffer_limit, Space, Bytes, send, inbound_frame, read_to_end, discard,
  CryptoRecoveryToken, acked, lost, resend_unacked, on_tx, wrapping_sub,
}
use never_fox.Base.{
  leb, Option-cases, ok, ℕ, ◌-◌, ◌^◌, ◌≤◌, ◌<◌, ◌≡◌, sym, subst, inl, inr, true, some, arith,
}

-- What recv_stream.rs documents: what was read was received, offsets are words of 64 bits, and
-- reading does not add to what is held.
pub record RxLaws {Rx : Type 0} (rxs : RxStreamOrderer Rx) : Type 0 where
  pub retired_received : (r : Rx) → rxs.retired r ≤ rxs.received r
  pub received_fits : (r : Rx) → rxs.received r < 2 ^ 64
  pub read_keeps :
      (r : Rx)
      → rxs.received (rxs.read_to_end r).1 - rxs.retired (rxs.read_to_end r).1
        ≤ rxs.received r - rxs.retired r

module _ {Tx Rx : Type 0} (txs : TxBuffer Tx) (rxs : RxStreamOrderer Rx) where
  -- That at most 65536 bytes are held that the TLS agent has not got.
  abbrev Fits : CryptoStream Tx Rx → Type 0
  Fits c = rxs.received c.rx - rxs.retired c.rx ≤ buffer_limit

  abbrev pub IsBounded : CryptoStreams Tx Rx → Type 0
  IsBounded (initial i h a) = Fits i × Fits h × Fits a
  IsBounded (handshake h a) = Fits h × Fits a
  IsBounded (application_data a) = Fits a

  -- What a connection does with its streams while no call fails.
  pub data Step (s : CryptoStreams Tx Rx) : CryptoStreams Tx Rx → Type 0 where
    sends :
        {s' : CryptoStreams Tx Rx}
        → (space : Space) (bytes : Bytes) → send txs rxs space bytes s ≡ (ok tt, s')
        → Step s s'
    receives :
        {s' : CryptoStreams Tx Rx}
        → (space : Space) (offset : ℕ) (bytes : Bytes)
        → inbound_frame txs rxs space offset bytes s ≡ (ok tt, s')
        → Step s s'
    reads :
        {s' : CryptoStreams Tx Rx}
        → (space : Space) (bytes : Bytes) → read_to_end txs rxs space s ≡ (ok bytes, s')
        → Step s s'
    discards :
        {s' : CryptoStreams Tx Rx} → (space : Space) → discard space s ≡ (ok tt, s') → Step s s'
    acks : (token : CryptoRecoveryToken) → Step s (acked txs rxs token s)
    loses : (token : CryptoRecoveryToken) → Step s (lost txs rxs token s)
    resends : (space : Space) → Step s (resend_unacked txs rxs space s)

  pub data Run (s : CryptoStreams Tx Rx) : CryptoStreams Tx Rx → Type 0 where
    here : Run s s
    next : {t u : CryptoStreams Tx Rx} → Run s t → Step t u → Run s u

  get_stream-Fits :
      (space : Space) (s : CryptoStreams Tx Rx) (c : CryptoStream Tx Rx)
      → IsBounded s
      → get_stream space s ≡ some c
      → Fits c
  unfolding get_stream
  get_stream-Fits space (initial i h a) c fits e = ground arith
  get_stream-Fits space (handshake h a) c fits e = ground arith
  get_stream-Fits space (application_data a) c fits e = ground arith

  set_stream-IsBounded :
      (space : Space) (s : CryptoStreams Tx Rx) (c : CryptoStream Tx Rx)
      → IsBounded s
      → Fits c
      → IsBounded (set_stream space c s)
  unfolding set_stream
  set_stream-IsBounded space (initial i h a) c fits e = ground arith
  set_stream-IsBounded space (handshake h a) c fits e = ground arith
  set_stream-IsBounded space (application_data a) c fits e = ground arith

  on_tx-IsBounded :
      (space : Space) (f : Tx → Tx) (s : CryptoStreams Tx Rx)
      → IsBounded s
      → IsBounded (on_tx space f s)
  on_tx-IsBounded space f s fits = elim (Option-cases (get_stream space s)) [
    | inl absent ↦
        let same : on_tx space f s ≡ s = ground (arith, absent) in subst IsBounded (sym same) fits
    | inr (c, there) ↦
        let same : on_tx space f s ≡ set_stream space (record c { tx = f c.tx }) s =
          ground (arith, there) in
        subst IsBounded (sym same)
          (set_stream-IsBounded space s _ fits (get_stream-Fits space s c fits there))
  ]

  send-IsBounded :
      (space : Space) (bytes : Bytes) (s s' : CryptoStreams Tx Rx)
      → IsBounded s
      → send txs rxs space bytes s ≡ (ok tt, s')
      → IsBounded s'
  unfolding send
  send-IsBounded space bytes s s' fits e =
      let same : s' ≡ on_tx space (txs.send bytes) s = ground arith in
      subst IsBounded (sym same) (on_tx-IsBounded space (txs.send bytes) s fits)

  discard-IsBounded :
      (space : Space) (s s' : CryptoStreams Tx Rx)
      → IsBounded s
      → discard space s ≡ (ok tt, s')
      → IsBounded s'
  unfolding discard
  discard-IsBounded space (initial i h a) s' fits e = ground arith
  discard-IsBounded space (handshake h a) s' fits e = ground arith
  discard-IsBounded space (application_data a) s' fits e = ground arith

  module _ (laws : RxLaws rxs) where
    received-Fits :
        (r : Rx)
        → leb (wrapping_sub (rxs.received r) (rxs.retired r)) buffer_limit ≡ true
        → rxs.received r - rxs.retired r ≤ buffer_limit
    received-Fits r e =
        let below = laws.retired_received r in
        let fits = laws.received_fits r in ground (arith, below, fits)

    inbound_frame-IsBounded :
        (space : Space) (offset : ℕ) (bytes : Bytes) (s s' : CryptoStreams Tx Rx)
        → IsBounded s
        → inbound_frame txs rxs space offset bytes s ≡ (ok tt, s')
        → IsBounded s'
    unfolding inbound_frame
    inbound_frame-IsBounded space offset bytes s s' fits e =
        elim (Option-cases (get_stream space s)) [
          | inl absent ↦ ground (arith, absent)
          | inr (c, there) ↦
              let r = rxs.inbound_frame offset bytes c.rx in
              let small : leb (wrapping_sub (rxs.received r) (rxs.retired r)) buffer_limit ≡ true =
                ground (arith, there) in
              let same : s' ≡ set_stream space (record c { rx = r }) s = ground (arith, there) in
              subst IsBounded (sym same)
                (set_stream-IsBounded space s _ fits (received-Fits r small))
        ]

    read_to_end-IsBounded :
        (space : Space) (bytes : Bytes) (s s' : CryptoStreams Tx Rx)
        → IsBounded s
        → read_to_end txs rxs space s ≡ (ok bytes, s')
        → IsBounded s'
    unfolding read_to_end
    read_to_end-IsBounded space bytes s s' fits e = elim (Option-cases (get_stream space s)) [
      | inl absent ↦ ground (arith, absent)
      | inr (c, there) ↦
          let same : s' ≡ set_stream space (record c { rx = (rxs.read_to_end c.rx).1 }) s =
            ground (arith, there) in
          let keeps = laws.read_keeps c.rx in
          let fit = get_stream-Fits space s c fits there in
          subst IsBounded (sym same)
            (set_stream-IsBounded space s _ fits (omega (arith, keeps, fit)))
    ]

    Step-IsBounded : {s s' : CryptoStreams Tx Rx} → Step s s' → IsBounded s → IsBounded s'
    unfolding acked lost resend_unacked
    Step-IsBounded (sends space bytes e) fits = send-IsBounded space bytes _ _ fits e
    Step-IsBounded (receives space offset bytes e) fits =
        inbound_frame-IsBounded space offset bytes _ _ fits e
    Step-IsBounded (reads space bytes e) fits = read_to_end-IsBounded space bytes _ _ fits e
    Step-IsBounded (discards space e) fits = discard-IsBounded space _ _ fits e
    Step-IsBounded (acks token) fits = on_tx-IsBounded token.space _ _ fits
    Step-IsBounded (loses token) fits = on_tx-IsBounded token.space _ _ fits
    Step-IsBounded (resends Space.initial) fits = on_tx-IsBounded Space.initial _ _ fits
    Step-IsBounded (resends Space.handshake) fits = on_tx-IsBounded Space.handshake _ _ fits
    Step-IsBounded (resends Space.application_data) fits = fits

    -- Whatever is given to send, received, read, acknowledged, lost, sent again and discarded, as
    -- long as no call fails: streams that hold at most 65536 bytes that were not read go on to do so,
    -- in every space that they still have.
    pub Run-IsBounded : {s s' : CryptoStreams Tx Rx} → Run s s' → IsBounded s → IsBounded s'
    Run-IsBounded here fits = fits
    Run-IsBounded (next run step) fits = Step-IsBounded step (Run-IsBounded run fits)
