-- ===== src/Nss.antt =====
-- What crypto.rs calls in nss-rs (aead, hkdf, hp) and in neqo-transport/src/version.rs, none of
-- which is in the repository. An object that NSS owns is known by its handle, a number that the
-- program passes back to NSS and never looks into; a label, salt or packet is its bytes. Every
-- result of `Nss` is left open: the theorems hold for each choice.
use never_fox.Base.{Res, map_err, ℕ, List}
use never_fox.Types.{Version, Cipher, Mode, NssError, Error, crypto}

abbrev pub Handle : Type 0
Handle = ℕ

abbrev pub Bytes : Type 0
Bytes = List ℕ

pub record Nss : Type 0 where
  -- `Version::label_prefix`, `Version::initial_salt`
  pub label_prefix : Version → Bytes
  pub initial_salt : Version → Bytes
  -- the order in which an `EnumMap<Version, _>` is iterated
  pub version_order : List Version
  -- `RecordProtection::new`: cipher, secret, label prefix
  pub aead_new : Cipher → Handle → Bytes → Mode → Res NssError Handle
  -- `RecordProtectionOps::expansion`
  pub expansion : Handle → ℕ
  -- `encrypt_in_place`, `decrypt_in_place`: packet number, associated data, the buffer; the length
  -- of the result and the buffer afterwards
  pub encrypt_in_place : Handle → ℕ → Bytes → Bytes → Res NssError (ℕ × Bytes)
  pub decrypt_in_place : Handle → ℕ → Bytes → Bytes → Res NssError (ℕ × Bytes)
  -- `hp::Key::extract`, `try_clone`, `mask`
  pub hp_extract : Cipher → Handle → Bytes → Res NssError Handle
  pub hp_clone : Handle → Res NssError Handle
  pub hp_mask : Handle → Bytes → Res NssError Bytes
  -- `hkdf::import_key`, `extract`, `expand_label`
  pub import_key : Bytes → Res NssError Handle
  pub hkdf_extract : Cipher → Handle → Handle → Res NssError Handle
  pub expand_label : Cipher → Handle → Bytes → Res NssError Handle

-- `?` on a result of nss-rs, in a function that returns a result of neqo-transport.
abbrev pub from_nss : {A : Type 0} → Res NssError A → Res Error A
from_nss = map_err crypto
