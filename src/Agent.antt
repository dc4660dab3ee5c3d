-- ===== src/Agent.antt =====
-- `SecretAgent` of nss-rs/src/agent.rs: the states of a TLS handshake that NSS carries out. What
-- NSS does with its socket is a parameter.
pub mod Configure
pub mod Certificates
pub mod Parties
pub mod Does
pub mod Outcome
pub mod Bytewise
pub mod Modes
pub mod Fair
pub mod Judged
use never_fox.Nss.{Bytes, Handle}
use never_fox.Crypto.Agent.{
  in_progress, authentication_pending, ech_fallback_authentication_pending, failed, complete,
  Record, HandshakeState, authentication_needed,
}
use never_fox.Types.{mixed_handshake_method, NssError, Cipher, Epoch}
use never_fox.Socket.{Call, Calls}
use never_fox.Session.{
  ech_public_name, SecretAgentInfo, PreliminaryChannelInfo, SecretAgentPreInfo, new_info,
  ChannelInfo, new_pre_info, NextProto,
}
use never_fox.Base.{
  ◌==◌, if◌then◌else◌, is_none, eq_bool, Res, and_then, Method, ◌>>=◌, ◌>>◌, pure, raise, lift, get,
  modify, branch, match_option, ok, err, panic, ℕ, Bool, true, false, ◌&&◌, Option, none, some,
  List, [], ◌∷◌,
}

-- What NSS calls back while it runs: `auth_complete_hook`, and `alert_sent_cb` with the level and
-- the description of the alert.
pub data Callback : Type 0 where
  auth_complete : Callback
  alert_sent : ℕ → ℕ → Callback

-- The socket `fd` of NSS with its clock and its list of records.
pub record Engine (E : Type 0) : Type 0 where
  -- `TimeHolder::set`, `Secrets::register`, `RecordList::setup`
  pub set_now : ℕ → E → Res NssError (Unit {0}) × E
  pub register : E → Res NssError (Unit {0}) × E
  pub setup : E → Res NssError (Unit {0}) × E
  -- `Record::write`, `SSL_AuthCertificateComplete`, `SSL_ForceHandshake`, with the callbacks that
  -- they make
  pub write_record : Record → E → (Res NssError (Unit {0}) × List Callback) × E
  pub authenticate : ℕ → E → (Res NssError (Unit {0}) × List Callback) × E
  pub force_handshake : E → (Res NssError (Unit {0}) × List Callback) × E
  pub records : E → List Record
  -- the calls that configure the socket, and those that it has taken
  pub configure : Call → E → Res NssError (Unit {0}) × E
  pub calls : E → Calls
  -- `SSL_GetImplementedCiphers`
  pub implemented_ciphers : E → List Cipher
  -- `is_blocked` of an error, `ech::convert_ech_error`
  pub would_block : NssError → Bool
  pub convert_ech_error : E → NssError → NssError
  -- `SSL_GetPreliminaryChannelInfo`, `SSL_GetChannelInfo`, `SSL_GetNextProto`
  pub preliminary_channel_info : E → Res NssError PreliminaryChannelInfo
  pub channel_info : E → Res NssError ChannelInfo
  pub next_proto : E → Res NssError NextProto
  -- `Secrets::take_read`, `take_write`: a secret is given once
  pub take_read : Epoch → E → Option Handle × E
  pub take_write : Epoch → E → Option Handle × E
  -- the test for UTF-8, and the error of a text that fails it
  pub is_utf8 : Bytes → Bool
  pub bad_text : NssError
  -- the error of a length that does not fit a C integer, and of a text with a zero in it
  pub integer_overflow : NssError
  pub interior_nul : NssError
  -- `AgentIo`: the input while it is wrapped, and what was put out; `PR_Close`
  pub wrap : Bytes → E → E
  pub unwrap : E → E
  pub take_output : E → Bytes × E
  pub close_fd : E → E
  -- `SSL_SendSessionTicket`; `SSL_ExportKeyingMaterial` of a label and a context, with the buffer
  -- for the result
  pub send_session_ticket : Bytes → E → Res NssError (Unit {0}) × E
  pub export_keys : Bytes → Bytes → Bytes → E → Res NssError (Unit {0}) × Bytes

pub record SecretAgent (E : Type 0) : Type 0 where
  pub engine : E
  pub raw : Option Bool
  pub auth_required : Bool
  pub alert : Option ℕ
  pub state : HandshakeState
  pub extension_handlers : List ℕ
  pub ech_config : Bytes
  -- whether `fd` is null
  pub closed : Bool

module _ {E : Type 0} where
  -- `auth_complete_hook`; `alert_sent_cb`: the first fatal alert is kept.
  abbrev called_back : Callback → SecretAgent E → SecretAgent E
  called_back auth_complete a = record a { auth_required = true }
  called_back (alert_sent level description) a =
      if level == 2 && is_none a.alert then record a { alert = some description } else a

  abbrev all_called_back : List Callback → SecretAgent E → SecretAgent E
  all_called_back [] a = a
  all_called_back (c ∷ cs) a = all_called_back cs (called_back c a)

  -- A call of NSS, without callbacks and with them; its result is a value.
  abbrev call : {R : Type 0} → (E → R × E) → Method (SecretAgent E) NssError R
  call f a = let (r, e) = f a.engine in (ok r, record a { engine = e })

  abbrev call_back :
      {R : Type 0} → (E → (R × List Callback) × E) → Method (SecretAgent E) NssError R
  call_back f a =
      let ((r, cs), e) = f a.engine in (ok r, all_called_back cs (record a { engine = e }))

  -- `authenticated`
  unfoldable pub authenticated : ℕ → Method (SecretAgent E) NssError (Unit {0})
  authenticated status a =
      if authentication_needed a.state
      then (ok tt, record a { auth_required = false; state = HandshakeState.authenticated status })
      else (panic, a)

module _ {E : Type 0} (nss : Engine E) where
  -- `capture_error`
  unfoldable pub capture_error : {R : Type 0} → Res NssError R → Method (SecretAgent E) NssError R
  capture_error (ok r) a = (ok r, a)
  capture_error (err e) a =
      let f = nss.convert_ech_error a.engine e in (err f, record a { state = failed f })
  capture_error panic a = (panic, a)

  -- `preinfo`, and `ech_public_name` of it; `SecretAgentInfo::new`
  abbrev pub preinfo : E → Res NssError SecretAgentPreInfo
  preinfo e = new_pre_info nss.is_utf8 (nss.preliminary_channel_info e) (nss.next_proto e)

  abbrev pub public_name : E → Res NssError (Option Bytes)
  public_name e = and_then (preinfo e) (ech_public_name nss.is_utf8 nss.bad_text)

  abbrev pub agent_info : E → Res NssError SecretAgentInfo
  agent_info e = new_info nss.is_utf8 nss.integer_overflow (nss.channel_info e) (nss.next_proto e)

  -- `is_blocked`
  abbrev is_blocked : Res NssError (Unit {0}) → Bool
  is_blocked (ok _) = false
  is_blocked (err e) = nss.would_block e
  is_blocked panic = false

  abbrev pending_state : Option Bytes → HandshakeState
  pending_state none = authentication_pending
  pending_state (some name) = ech_fallback_authentication_pending name

  -- `update_state`, for a handshake that waits.
  unfoldable pub wait : Method (SecretAgent E) NssError (Unit {0})
  wait = do
    a ← get
    branch a.auth_required
        (do
          name ← lift (public_name a.engine)
          modify (λ b. record b { state = pending_state name }))
        (modify (λ b. record b { state = in_progress }))

  -- `update_state`, for a handshake that has ended.
  unfoldable pub finish : Res NssError (Unit {0}) → Method (SecretAgent E) NssError (Unit {0})
  finish result = do
    capture_error result
    a ← get
    info ← capture_error (agent_info a.engine)
    modify (λ b. record b { state = complete info })

  -- `update_state`
  unfoldable pub update_state : Res NssError (Unit {0}) → Method (SecretAgent E) NssError (Unit {0})
  update_state result = branch (is_blocked result) wait (finish result)

  -- `set_raw`
  unfoldable pub set_raw : Bool → Method (SecretAgent E) NssError (Unit {0})
  set_raw r = do
    a ← get
    match_option a.raw
        (do result ← call nss.register; lift result; modify (λ b. record b { raw = some r }))
        (λ raw. branch (eq_bool raw r) (pure tt) (raise mixed_handshake_method))

  -- `setup_raw`
  unfoldable pub setup_raw : Method (SecretAgent E) NssError (Unit {0})
  setup_raw = do set_raw true; result ← call nss.setup; capture_error result

  -- The authentication that `handshake_raw` completes first, and the record that it feeds in.
  abbrev pub complete_with : HandshakeState → Method (SecretAgent E) NssError (Unit {0})
  complete_with (HandshakeState.authenticated status) = do
    result ← call_back (nss.authenticate status)
    capture_error result
  complete_with _ = pure tt

  unfoldable pub complete_authentication : Method (SecretAgent E) NssError (Unit {0})
  complete_authentication = do a ← get; complete_with a.state

  unfoldable pub feed : Option Record → Method (SecretAgent E) NssError (Unit {0})
  feed input =
      match_option input (pure tt)
        λ r. do result ← call_back (nss.write_record r); capture_error result

  -- What `handshake_raw` does once all is set up.
  unfoldable pub drive : Method (SecretAgent E) NssError (Unit {0})
  drive = do result ← call_back nss.force_handshake; update_state result

  -- What comes before in `handshake_raw`.
  unfoldable pub prepare : ℕ → Option Record → Method (SecretAgent E) NssError (Unit {0})
  prepare now input = do
    set ← call (nss.set_now now)
    lift set
    setup_raw
    complete_authentication
    feed input

  abbrev pub gather : Method (SecretAgent E) NssError (List Record)
  gather a = (ok (nss.records a.engine), a)

  -- `handshake_raw`
  unfoldable pub handshake_raw : ℕ → Option Record → Method (SecretAgent E) NssError (List Record)
  handshake_raw now input = prepare now input >> (drive >> gather)

  -- `read_secret`, `write_secret`
  abbrev pub read_secret : Epoch → SecretAgent E → Option Handle × SecretAgent E
  read_secret epoch a = let (k, e) = nss.take_read epoch a.engine in (k, record a { engine = e })

  abbrev pub write_secret : Epoch → SecretAgent E → Option Handle × SecretAgent E
  write_secret epoch a = let (k, e) = nss.take_write epoch a.engine in (k, record a { engine = e })
