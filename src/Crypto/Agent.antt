-- ===== src/Crypto/Agent.antt =====
-- What `Crypto` asks of its TLS agent, `Agent` of nss-rs/src/agent.rs, and what the agent gives:
-- the records of the handshake, and the secrets for the keys of each epoch.
use never_fox.Types.{NssError, Epoch, Space}
use never_fox.Session.{SecretAgentInfo, SecretAgentPreInfo}
use never_fox.Nss.{Bytes, Handle}
use never_fox.Base.{Res, ℕ, Bool, true, false, Option, none, some, List}

-- `Record` of nss-rs
pub record Record : Type 0 where
  pub ct : ℕ
  pub epoch : Epoch
  pub bytes : Bytes

-- `HandshakeState`; names are bytes.
pub data HandshakeState : Type 0 where
  new in_progress authentication_pending : HandshakeState
  ech_fallback_authentication_pending : Bytes → HandshakeState
  authenticated : ℕ → HandshakeState
  complete : SecretAgentInfo → HandshakeState
  failed : NssError → HandshakeState

-- `is_connected`, `is_final`, `authentication_needed`
unfoldable pub is_connected : HandshakeState → Bool
is_connected (complete _) = true
is_connected _ = false

unfoldable pub is_final : HandshakeState → Bool
is_final (complete _) = true
is_final (failed _) = true
is_final _ = false

unfoldable pub authentication_needed : HandshakeState → Bool
authentication_needed authentication_pending = true
authentication_needed (ech_fallback_authentication_pending _) = true
authentication_needed _ = false

-- `SecretAgent::info`
unfoldable pub info : HandshakeState → Option SecretAgentInfo
info (complete i) = some i
info _ = none

-- The agent: `handshake_raw`, `state`, `alert`, `preinfo`; `take_read` and `take_write` of its
-- secrets; and the conversions between an epoch and a packet number space.
pub record Tls (A : Type 0) : Type 0 where
  -- `TLS_CT_HANDSHAKE`, from a header of NSS
  pub ct_handshake : ℕ
  pub handshake_raw : ℕ → Option Record → A → Res NssError (List Record) × A
  pub state : A → HandshakeState
  pub alert : A → Option ℕ
  pub preinfo : A → Res NssError SecretAgentPreInfo
  pub take_read : Epoch → A → Option Handle × A
  pub take_write : Epoch → A → Option Handle × A
  pub space_of : Epoch → Space
  pub epoch_of : Space → Epoch
