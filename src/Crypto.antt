-- ===== src/Crypto.antt =====
-- `Crypto` of neqo-transport/src/crypto.rs: the TLS agent, the handshake streams and the keys of a
-- connection, and what moves between them.
pub mod Agent
pub mod Setup
pub mod SetupCalls
pub mod Profile
pub mod Records
pub mod HandshakeKeys
pub mod Keys
pub mod Application
pub mod Order
pub mod Handshake
pub mod Party
pub mod Token
use never_fox.States.Install.{
  set_handshake_keys, set_application_read_key, set_0rtt_keys, set_application_write_key,
}
use never_fox.Crypto.Agent.{Tls, Record, HandshakeState, info, is_final}
use never_fox.Streams.{CryptoStreams, send}
use never_fox.Streams.Buffers.{TxBuffer, RxStreamOrderer}
use never_fox.States.{CryptoStates}
use never_fox.Nss.{Nss, Bytes, Handle, from_nss}
use never_fox.Types.{
  Space, Error, Version, Role, Cipher, NssError, Epoch, Direction, write, crypto, crypto_alert,
  protocol_violation, read,
}
use never_fox.States.Initial
use never_fox.Streams
use never_fox.Types.{client, server}
use never_fox.Session.{cipher_suite, early_data_cipher}
use never_fox.Base.{
  ◌==◌, is_some, map_option, Res, and_then, ok_or, Method, ◌>>=◌, ◌>>◌, pure, raise, lift, get,
  modify, branch, match_option, ok, err, panic, ℕ, Bool, true, false, ◌||◌, Option, none, some,
  List, [], ◌∷◌,
}

pub record Crypto (A Tx Rx : Type 0) : Type 0 where
  pub version : Version
  pub protocols : List Bytes
  pub tls : A
  pub streams : CryptoStreams Tx Rx
  pub states : CryptoStates

module _ {A Tx Rx : Type 0} where
  -- A method of a field.
  abbrev pub in_states :
      {R : Type 0} → Method CryptoStates Error R → Method (Crypto A Tx Rx) Error R
  in_states m c = let (r, s) = m c.states in (r, record c { states = s })

  abbrev pub in_streams :
      {R : Type 0} → Method (CryptoStreams Tx Rx) Error R → Method (Crypto A Tx Rx) Error R
  in_streams m c = let (r, s) = m c.streams in (r, record c { streams = s })

  abbrev pub in_tls : {R : Type 0} → (A → R × A) → Method (Crypto A Tx Rx) Error R
  in_tls f c = let (r, a) = f c.tls in (ok r, record c { tls = a })

  -- `confirm_version`
  unfoldable pub confirm_version : Version → Method (Crypto A Tx Rx) Error (Unit {0})
  confirm_version confirmed = do
    c ← get
    in_states (Initial.confirm_version c.version confirmed)
    modify (λ d. record d { version = confirmed })

  -- `has_handshake_keys`
  unfoldable pub has_handshake_keys : Crypto A Tx Rx → Bool
  has_handshake_keys c = is_some c.states.handshake || is_some c.states.app_write

  -- `discard`
  unfoldable pub discard : Space → Method (Crypto A Tx Rx) Error Bool
  discard space = do in_streams (Streams.discard space); in_states (Initial.discard space)

module _ {A : Type 0} (tls : Tls A) where
  -- The secret for 0-RTT that a side takes, and what it is for.
  abbrev early_secret : Role → A → (Direction × Option Handle) × A
  early_secret client a = let (k, b) = tls.take_write Epoch.zero_rtt a in ((write, k), b)
  early_secret server a = let (k, b) = tls.take_read Epoch.zero_rtt a in ((read, k), b)

  -- The cipher suite of `install_handshake_keys`.
  unfoldable pub handshake_cipher : A → Res Error Cipher
  handshake_cipher a = elim (info (tls.state a)) [
    | some i ↦ ok i.cipher
    | none ↦ and_then (from_nss (tls.preinfo a)) λ pre. ok_or (cipher_suite pre) Error.internal
  ]

module _ {A Tx Rx : Type 0} (nss : Nss) (tls : Tls A) where
  -- `enable_0rtt`, once there is a cipher for 0-RTT.
  unfoldable pub enable_with : Version → Role → Cipher → Method (Crypto A Tx Rx) Error Bool
  enable_with version role cipher = do
    (dir, found) ← in_tls (early_secret tls role)
    secret ← lift (ok_or found Error.internal)
    in_states (set_0rtt_keys nss version dir secret cipher)
    pure true

  -- `enable_0rtt`
  unfoldable pub enable_0rtt : Version → Role → Method (Crypto A Tx Rx) Error Bool
  enable_0rtt version role = do
    c ← get
    pre ← lift (from_nss (tls.preinfo c.tls))
    match_option (early_data_cipher pre) (pure false) λ cipher. enable_with version role cipher

  -- `install_handshake_keys`, once there is a secret to write with.
  unfoldable pub install_handshake_secret : Handle → Method (Crypto A Tx Rx) Error Bool
  install_handshake_secret write_secret = do
    found ← in_tls (tls.take_read Epoch.handshake)
    read_secret ← lift (ok_or found Error.internal)
    c ← get
    cipher ← lift (handshake_cipher tls c.tls)
    in_states (set_handshake_keys nss c.version write_secret read_secret cipher)
    pure true

  -- `install_handshake_keys`
  unfoldable pub install_handshake_keys : Method (Crypto A Tx Rx) Error Bool
  install_handshake_keys = do
    found ← in_tls (tls.take_write Epoch.handshake)
    match_option found (pure false) install_handshake_secret

  -- `maybe_install_application_write_key`
  unfoldable pub maybe_install_application_write_key :
      Version → Method (Crypto A Tx Rx) Error (Unit {0})
  maybe_install_application_write_key version = do
    found ← in_tls (tls.take_write Epoch.application_data)
    match_option found (pure tt) λ secret. in_states (set_application_write_key nss version secret)

  -- `install_keys`
  unfoldable pub install_keys : Role → Method (Crypto A Tx Rx) Error Bool
  install_keys role = do
    c ← get
    branch (is_final (tls.state c.tls)) (pure false)
        (do installed ← install_handshake_keys; write_for role; pure installed)
    where
      write_for : Role → Method (Crypto A Tx Rx) Error (Unit {0})
      write_for server c = maybe_install_application_write_key c.version c
      write_for client c = pure tt c

  -- `install_application_keys`, once the write key is dealt with.
  unfoldable pub install_application_read_key :
      Version → ℕ → Method (Crypto A Tx Rx) Error (Unit {0})
  install_application_read_key version expire_0rtt = do
    found ← in_tls (tls.take_read Epoch.application_data)
    secret ← lift (ok_or found Error.internal)
    in_states (set_application_read_key nss version secret expire_0rtt)

  -- `install_application_keys`, without the `debug_assert!`.
  unfoldable pub install_application_keys : Version → ℕ → Method (Crypto A Tx Rx) Error (Unit {0})
  install_application_keys version expire_0rtt =
      maybe_install_application_write_key version
      >> install_application_read_key version expire_0rtt

module _ {A Tx Rx : Type 0} (txs : TxBuffer Tx) (rxs : RxStreamOrderer Rx) (tls : Tls A) where
  -- `buffer_records`
  unfoldable pub buffer_records : List Record → Method (Crypto A Tx Rx) Error (Unit {0})
  buffer_records [] = pure tt
  buffer_records (r ∷ rs) =
      branch (r.ct == tls.ct_handshake)
        (in_streams (send txs rxs (tls.space_of r.epoch) r.bytes) >> buffer_records rs)
        (raise protocol_violation)

  -- What `handshake` does with the result of the agent.
  unfoldable pub after_handshake :
      Res NssError (List Record) → Method (Crypto A Tx Rx) Error HandshakeState
  after_handshake (ok output) = do buffer_records output; c ← get; pure (tls.state c.tls)
  after_handshake (err (NssError.ech_retry v)) = raise (Error.ech_retry v)
  after_handshake (err e) = do
    c ← get
    elim (tls.alert c.tls) [ none ↦ raise (crypto e) | some a ↦ raise (crypto_alert a) ]
  after_handshake panic = lift panic

  -- `handshake`
  unfoldable pub handshake : ℕ → Space → Option Bytes → Method (Crypto A Tx Rx) Error HandshakeState
  handshake now space given = do
    let input =
        map_option (λ d. record { ct = tls.ct_handshake; epoch = tls.epoch_of space; bytes = d })
          given
    result ← in_tls (tls.handshake_raw now input)
    after_handshake result
