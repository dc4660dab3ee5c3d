-- ===== src/Agent/Bytewise.antt =====
-- The methods of `SecretAgent` in agent.rs beside the raw handshake: the handshake on bytes, the end
-- of the agent, exported keys, and the tickets that a `Server` sends.
use never_fox.Types.{NssError, invalid_state, invalid_input}
use never_fox.Nss.{Bytes}
use never_fox.Agent.{
  Engine, SecretAgent, Bytes, NssError, call, setup_raw, call_back, Record, set_raw, gather,
  update_state,
}
use never_fox.Agent.Configure.{c_uint}
use never_fox.Crypto.Agent.{HandshakeState, is_connected, Record}
use never_fox.Base.{
  leb, ◌==◌, if◌then◌else◌, length, Res, Method, ◌>>=◌, ◌>>◌, pure, lift, get, modify, branch,
  match_option, ok, err, panic, ℕ, ◌^◌, true, false, ◌||◌, not, List, [],
}

module _ {E : Type 0} (nss : Engine E) where
  -- What `handshake` calls of NSS while the input is wrapped.
  abbrev pub force_with : HandshakeState → Method (SecretAgent E) NssError (Res NssError (Unit {0}))
  force_with (HandshakeState.authenticated status) = call_back (nss.authenticate status)
  force_with _ = call_back nss.force_handshake

  -- A change of the engine that has no result.
  abbrev pub change : (E → E) → Method (SecretAgent E) NssError (Unit {0})
  change f = modify (λ a. record a { engine = f a.engine })

  -- `handshake`
  unfoldable pub handshake : ℕ → Bytes → Method (SecretAgent E) NssError Bytes
  handshake now input = do
    set ← call (nss.set_now now)
    lift set
    set_raw nss false
    change (nss.wrap input)
    a ← get
    result ← force_with a.state
    change nss.unwrap
    output ← call nss.take_output
    update_state nss result
    pure output

  -- What `close` does while the records, or the input, are held: a failure to hold them is a panic.
  unfoldable pub close_raw : Method (SecretAgent E) NssError (Unit {0})
  close_raw a =
      let (r, b) = setup_raw nss a in elim r [ ok _ ↦ change nss.close_fd b | _ ↦ (panic, b) ]

  unfoldable pub close_wrapped : Method (SecretAgent E) NssError (Unit {0})
  close_wrapped = do change (nss.wrap []); change nss.close_fd; change nss.unwrap

  -- `close`
  unfoldable pub close : Method (SecretAgent E) NssError (Unit {0})
  close = do
    a ← get
    branch a.closed (pure tt) (do
      match_option a.raw close_wrapped (λ raw. branch raw close_raw close_wrapped)
      output ← call nss.take_output
      modify (λ b. record b { closed = true }))

  -- `export_keying_material`, with the buffer afterwards.
  unfoldable pub export_keying_material :
      Bytes → Bytes → Bytes → SecretAgent E → Res NssError (Unit {0}) × Bytes
  export_keying_material label context out a =
      if not (is_connected a.state)
      then (err invalid_state, out)
      else if length out == 0
      then (err invalid_input, out)
      else if leb (2 ^ 32) (length label)
          || (leb (2 ^ 32) (length context) || leb (2 ^ 32) (length out))
      then (err nss.integer_overflow, out)
      else nss.export_keys label context out a.engine

  -- `send_ticket` of `Server`
  unfoldable pub send_ticket : ℕ → Bytes → Method (SecretAgent E) NssError (List Record)
  send_ticket now extra = do
    set ← call (nss.set_now now)
    lift set
    setup_raw nss
    c_uint nss (length extra)
    sent ← call (nss.send_session_ticket extra)
    lift sent
    gather nss
