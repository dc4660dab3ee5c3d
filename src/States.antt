-- ===== src/States.antt =====
-- `CryptoStates` of neqo-transport/src/crypto.rs: all the keys of a connection. A method that
-- returns `&mut CryptoDxState` returns the place of that key, a `Slot`, or none.
pub mod Select
pub mod Initial
pub mod Install
pub mod Update
pub mod Sync
pub mod Rotate
pub mod Run
pub mod Each
pub mod Secrets
pub mod Traffic
pub mod Connect
pub mod Peers
pub mod Cycle
pub mod Phase
pub mod Start
pub mod Versions
pub mod Retry
use never_fox.Base.{is_none, map_option, ℕ, Bool, false, ◌&&◌, Option, none, some}
use never_fox.Types.{
  Version, version_2, version_1, draft_29, Direction, read, direction_eq, Cipher, other,
}
use never_fox.Dx.{CryptoDxState}
use never_fox.AppData.{CryptoDxAppData}

-- `CryptoState`
pub record CryptoState : Type 0 where
  pub tx : CryptoDxState
  pub rx : CryptoDxState

-- `EnumMap<Version, Option<CryptoState>>`
pub record Initials : Type 0 where
  pub for_2 : Option CryptoState
  pub for_1 : Option CryptoState
  pub for_draft : Option CryptoState

pub record CryptoStates : Type 0 where
  pub initials : Initials
  pub handshake : Option CryptoState
  pub zero_rtt : Option CryptoDxState
  pub cipher : Cipher
  pub app_write : Option CryptoDxAppData
  pub app_read : Option CryptoDxAppData
  pub app_read_next : Option CryptoDxAppData
  pub read_update_time : Option ℕ

abbrev pub no_initials : Initials
no_initials = record { for_2 = none; for_1 = none; for_draft = none }

-- `CryptoStates::default()`
abbrev pub no_keys : CryptoStates
no_keys = record {
  initials = no_initials;
  handshake = none;
  zero_rtt = none;
  cipher = other 0;
  app_write = none;
  app_read = none;
  app_read_next = none;
  read_update_time = none;
}

-- `self.initials[version]`, read and written
abbrev pub initial_at : Version → Initials → Option CryptoState
initial_at version_2 m = m.for_2
initial_at version_1 m = m.for_1
initial_at draft_29 m = m.for_draft

abbrev pub set_initial : Version → Option CryptoState → Initials → Initials
set_initial version_2 k m = record m { for_2 = k }
set_initial version_1 k m = record m { for_1 = k }
set_initial draft_29 k m = record m { for_draft = k }

abbrev pub put_initial : Version → Option CryptoState → CryptoStates → CryptoStates
put_initial v k s = record s { initials = set_initial v k s.initials }

-- `initials_is_empty`
unfoldable pub initials_is_empty : CryptoStates → Bool
initials_is_empty s =
    is_none s.initials.for_2 && (is_none s.initials.for_1 && is_none s.initials.for_draft)

-- `has_0rtt_read`
unfoldable pub has_0rtt_read : CryptoStates → Bool
has_0rtt_read s = elim s.zero_rtt [ none ↦ false | some z ↦ direction_eq z.direction read ]

pub data Slot : Type 0 where
  initial_tx initial_rx : Version → Slot
  early handshake_tx handshake_rx writes reads reads_next : Slot

-- The key at a place.
abbrev pub key_at : Slot → CryptoStates → Option CryptoDxState
key_at (initial_tx v) s = map_option (λ k. k.tx) (initial_at v s.initials)
key_at (initial_rx v) s = map_option (λ k. k.rx) (initial_at v s.initials)
key_at early s = s.zero_rtt
key_at handshake_tx s = map_option (λ k. k.tx) s.handshake
key_at handshake_rx s = map_option (λ k. k.rx) s.handshake
key_at writes s = map_option (λ k. k.dx) s.app_write
key_at reads s = map_option (λ k. k.dx) s.app_read
key_at reads_next s = map_option (λ k. k.dx) s.app_read_next
