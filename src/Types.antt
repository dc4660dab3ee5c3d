-- ===== src/Types.antt =====
-- The enums and machine words of the QUIC transport: neqo-transport/src/crypto.rs and
-- nss-rs/src/constants.rs. Integers are natural numbers; where a release build wraps, the
-- functions below say so.
pub mod Words
use never_fox.Base.{◌==◌, if◌then◌else◌, Res, ok, err, ℕ, ◌<◌, ◌≡◌, Bool, true, false, List, arith}

-- `Version`, with the cases that `Crypto::new` matches (`draft-29` included).
pub data Version : Type 0 where
  version_2 version_1 draft_29 : Version

abbrev pub version_eq : Version → Version → Bool
version_eq version_2 version_2 = true
version_eq version_1 version_1 = true
version_eq draft_29 draft_29 = true
version_eq _ _ = false

pub version_eq_sound : (v w : Version) → version_eq v w ≡ true → v ≡ w
version_eq_sound version_2 w h = ground arith
version_eq_sound version_1 w h = ground arith
version_eq_sound draft_29 w h = ground arith

pub version_eq_refl : (v : Version) → version_eq v v ≡ true
version_eq_refl v = ground arith

-- `Epoch`
pub data Epoch : Type 0 where
  initial zero_rtt handshake application_data : Epoch

-- `impl From<Epoch> for usize`
abbrev pub epoch_number : Epoch → ℕ
epoch_number Epoch.initial = 0
epoch_number Epoch.zero_rtt = 1
epoch_number Epoch.handshake = 2
epoch_number Epoch.application_data = 3

-- `PacketNumberSpace`
pub data Space : Type 0 where
  initial handshake application_data : Space

pub data Role : Type 0 where
  client server : Role

-- `CryptoDxDirection`
pub data Direction : Type 0 where
  read write : Direction

abbrev pub direction_eq : Direction → Direction → Bool
direction_eq read read = true
direction_eq write write = true
direction_eq _ _ = false

-- `aead::Mode`
pub data Mode : Type 0 where
  encrypt decrypt : Mode

-- `impl From<CryptoDxDirection> for Mode`
unfoldable pub mode_of : Direction → Mode
mode_of read = Mode.decrypt
mode_of write = Mode.encrypt

-- `Cipher` is a `u16`, matched against three constants; 0, its default, is one of the others.
pub data Cipher : Type 0 where
  aes_128_gcm_sha256 aes_256_gcm_sha384 chacha20_poly1305_sha256 : Cipher
  other : ℕ → Cipher

-- `Range<T>`
pub record Range : Type 0 where
  pub start : ℕ
  pub end : ℕ

-- Errors of nss-rs that the program names; `other_nss` carries any other.
pub data NssError : Type 0 where
  ech_retry : List ℕ → NssError
  internal create_ssl_socket mixed_handshake_method invalid_alpn : NssError
  invalid_certificate_compression_id certificate_decoding certificate_loading : NssError
  invalid_state invalid_input invalid_epoch unsupported_version : NssError
  other_nss : ℕ → NssError

-- `impl TryFrom<u16> for Epoch`
unfoldable pub epoch_try_from : ℕ → Res NssError Epoch
epoch_try_from n =
    if n == 0
    then ok Epoch.initial
    else if n == 1
    then ok Epoch.zero_rtt
    else if n == 2
    then ok Epoch.handshake
    else if n == 3
    then ok Epoch.application_data
    else err invalid_epoch

-- An epoch is found again by its number.
epoch_try_from-epoch_number : (e : Epoch) → epoch_try_from (epoch_number e) ≡ ok e
unfolding epoch_try_from
epoch_try_from-epoch_number e = ground arith

-- A number that is the number of no epoch is refused.
epoch_try_from-error : (n : ℕ) → 3 < n → epoch_try_from n ≡ err invalid_epoch
unfolding epoch_try_from
epoch_try_from-error n h = ground arith

-- Errors of neqo-transport that crypto.rs names.
pub data Error : Type 0 where
  internal protocol_violation packet_number_overlap keys_exhausted : Error
  key_update_blocked version_negotiation crypto_buffer_exceeded : Error
  ech_retry : List ℕ → Error
  crypto : NssError → Error
  crypto_alert : ℕ → Error
