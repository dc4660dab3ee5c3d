-- ===== src/Crypto/Handshake.antt =====
-- `handshake` of `Crypto` over the agent of agent.rs: what it leaves of the agent, the streams and
-- the keys, and which error it returns.
use never_fox.Agent.Judged.{handshake_raw-judged}
use never_fox.Crypto.Records.{with_tx, sent, buffer_records-get_stream}
use never_fox.Streams.{get_stream}
use never_fox.Session.{SecretAgentInfo}
use never_fox.Agent.Fair.{AuthLaws, History, member}
use never_fox.Agent.Outcome.{Settled, handshake_raw-Settled}
use never_fox.Agent
use never_fox.Crypto.{handshake, Error}
use never_fox.Nss.{Bytes}
use never_fox.Crypto.{after_handshake, Record, NssError, Crypto, HandshakeState, buffer_records}
use never_fox.Crypto.Agent.{Tls, Record, HandshakeState, complete}
use never_fox.Types.{Epoch, Space, NssError, Error}
use never_fox.Streams.Buffers.{TxBuffer, RxStreamOrderer}
use never_fox.Agent.{Engine, SecretAgent, preinfo, read_secret, write_secret}
use never_fox.Base.{
  map_option, All, Res, Method, >>=-eq-ok, ok, err, panic, ℕ, ◌≡◌, refl, sym, ap, subst, ◌∙◌, true,
  Option, List, arith,
}

-- The agent of agent.rs as the one that `Crypto` works with.
abbrev pub agent_tls :
    {E : Type 0} → Engine E → ℕ → (Epoch → Space) → (Space → Epoch) → Tls (SecretAgent E)
agent_tls nss ct space_of epoch_of = record {
  ct_handshake = ct;
  handshake_raw = Agent.handshake_raw nss;
  state = λ a. a.state;
  alert = λ a. a.alert;
  preinfo = λ a. preinfo nss a.engine;
  take_read = read_secret nss;
  take_write = write_secret nss;
  space_of = space_of;
  epoch_of = epoch_of;
}

module _ {A Tx Rx : Type 0} (txs : TxBuffer Tx) (rxs : RxStreamOrderer Rx) (tls : Tls A) where
  -- What `handshake` gives to the agent.
  abbrev given_record : Space → Option Bytes → Option Record
  given_record space given =
      map_option (λ d. record { ct = tls.ct_handshake; epoch = tls.epoch_of space; bytes = d })
        given

  -- An error that is none of the retries of ECH.
  after_handshake_failed :
      (e : NssError) (c c' : Crypto A Tx Rx) (st : HandshakeState)
      → after_handshake txs rxs tls (err e) c ≡ (ok st, c')
      → ⊥
  unfolding after_handshake
  after_handshake_failed e c c' st h = ground arith

  after_handshake_inv :
      (r : Res NssError (List Record)) (c c' : Crypto A Tx Rx) (st : HandshakeState)
      → after_handshake txs rxs tls r c ≡ (ok st, c')
      → (rs : List Record) × (r ≡ ok rs)
        × (buffer_records txs rxs tls rs c ≡ (ok tt, c'))
        × (st ≡ tls.state c'.tls)
  unfolding after_handshake
  after_handshake_inv (ok rs) c c' st h =
      let (_, d, buffered, rest) =
        >>=-eq-ok (λ _ d. (ok (tls.state d.tls), d)) (buffer_records txs rxs tls rs) c h in
      (rs, refl, ground (arith, buffered, rest), ground (arith, rest))
  after_handshake_inv (err e) c c' st h = absurd (after_handshake_failed e c c' st h)
  after_handshake_inv panic c c' st h = ground arith

  handshake_inv :
      (now : ℕ) (space : Space) (given : Option Bytes) (c c' : Crypto A Tx Rx) (st : HandshakeState)
      → handshake txs rxs tls now space given c ≡ (ok st, c')
      → (rs : List Record) × (a : A) × (tls.handshake_raw now (given_record space given) c.tls
          ≡ (ok rs, a))
        × (buffer_records txs rxs tls rs (record c { tls = a }) ≡ (ok tt, c'))
        × (st ≡ tls.state c'.tls)
  unfolding handshake
  handshake_inv now space given c c' st e = go _ refl e
    where
      go :
          (x : Res NssError (List Record) × A)
          → tls.handshake_raw now (given_record space given) c.tls ≡ x
          → after_handshake txs rxs tls x.0 (record c { tls = x.1 }) ≡ (ok st, c')
          → (rs : List Record) × (a : A) × (tls.handshake_raw now (given_record space given) c.tls
              ≡ (ok rs, a))
            × (buffer_records txs rxs tls rs (record c { tls = a }) ≡ (ok tt, c'))
            × (st ≡ tls.state c'.tls)
      go (r, a) at h =
          let (rs, good, buffered, same) = after_handshake_inv r _ c' st h in
          (rs, a, at ∙ ap (λ z. (z, a)) good, buffered, same)

module _ {E Tx Rx : Type 0} (txs : TxBuffer Tx) (rxs : RxStreamOrderer Rx) (nss : Engine E) (ct : ℕ)
    (space_of : Epoch → Space) (epoch_of : Space → Epoch) where
  abbrev tls : Tls (SecretAgent E)
  tls = agent_tls nss ct space_of epoch_of

  -- `handshake` over the agent of agent.rs.
  abbrev pub connect :
      ℕ → Space → Option Bytes → Method (Crypto (SecretAgent E) Tx Rx) Error HandshakeState
  connect = handshake txs rxs tls

  -- When `handshake` succeeds, the state that it returns is that of the agent, which waits for the
  -- certificate to be judged or for the peer, or is done; each record that NSS has put out is of the
  -- handshake, and its bytes are in the stream of its space, in order; and the keys are as they were.
  pub handshake-Settled :
      (now : ℕ) (space : Space) (given : Option Bytes) (c c' : Crypto (SecretAgent E) Tx Rx)
      (st : HandshakeState)
      → connect now space given c ≡ (ok st, c')
      → Settled nss c'.tls
        × (st ≡ c'.tls.state)
        × (c'.states ≡ c.states)
        × ((s : Space)
            → All (λ r. r.ct ≡ ct) (nss.records c'.tls.engine)
              × (get_stream s c'.streams
                  ≡ map_option
                      (with_tx txs rxs tls (sent txs rxs tls s (nss.records c'.tls.engine)))
                      (get_stream s c.streams)))
  handshake-Settled now space given c c' st e =
      let (rs, a, driven, buffered, same) = handshake_inv txs rxs tls now space given c c' st e in
      let (settled, out) = handshake_raw-Settled nss now _ c.tls a rs driven in
      let (_, _, keys, agent) = buffer_records-get_stream txs rxs tls space rs _ c' buffered in
      let out' = subst (λ x. rs ≡ nss.records x.engine) (sym agent) out in
      (
        subst (Settled nss) (sym agent) settled,
        same,
        keys,
        λ s.
            let (all, streams, _, _) = buffer_records-get_stream txs rxs tls s rs _ c' buffered in
            subst
              (λ l.
                All (λ r. r.ct ≡ ct) l
                × (get_stream s c'.streams
                    ≡ map_option (with_tx txs rxs tls (sent txs rxs tls s l))
                        (get_stream s c.streams)))
              out' (all, streams),
      )

  -- On a connection whose agent started out fresh and has had any calls of `handshake_raw`,
  -- `authenticated`, `read_secret` and `write_secret`: when `handshake` returns that the handshake is
  -- complete, and NSS has asked for the peer's certificate to be judged, the application has called
  -- `authenticated` with the status 0, for a good certificate.
  pub handshake-judged :
      (laws : AuthLaws nss) (judgements : List ℕ) (now : ℕ) (space : Space) (given : Option Bytes)
      (c c' : Crypto (SecretAgent E) Tx Rx) (i : SecretAgentInfo)
      → History nss laws judgements c.tls
      → connect now space given c ≡ (ok (complete i), c')
      → laws.asked c'.tls.engine ≡ true
      → member 0 judgements ≡ true
  handshake-judged laws judgements now space given c c' i past e asked =
      let (rs, a, driven, buffered, same) = handshake_inv txs rxs tls now space given c c' _ e in
      let (_, _, _, agent) = buffer_records-get_stream txs rxs tls space rs _ c' buffered in
      handshake_raw-judged nss laws now _ a rs i past driven
        (ap (λ x. x.state) (sym agent) ∙ sym same)
        (subst (λ x. laws.asked x.engine ≡ true) agent asked)
