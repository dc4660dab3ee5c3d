-- ===== src/AppData.antt =====
-- `CryptoDxAppData` of neqo-transport/src/crypto.rs: the keys of one direction for application
-- data, with the secret from which the keys of the next phase are made.
pub mod Chain
pub mod Header
pub mod Uses
use never_fox.Base.{◌==◌, if◌then◌else◌, codes, Res, and_then, ok, err, ℕ}
use never_fox.Types.{Version, Epoch, Direction, Cipher, Error, keys_exhausted}
use never_fox.Types.Words.{u64_max}
use never_fox.Nss.{Nss, Handle, from_nss}
use never_fox.Dx
use never_fox.Dx.{CryptoDxState}

pub record CryptoDxAppData : Type 0 where
  pub dx : CryptoDxState
  pub cipher : Cipher
  pub next_secret : Handle

unfoldable pub update_secret : Nss → Cipher → Handle → Res Error Handle
update_secret nss cipher secret = from_nss (nss.expand_label cipher secret (codes "quic ku"))

unfoldable pub new : Nss → Version → Direction → Handle → Cipher → Res Error CryptoDxAppData
new nss version dir secret cipher =
    and_then (Dx.new nss version dir Epoch.application_data secret cipher 0) λ dx.
      and_then (update_secret nss cipher secret)
        λ next_secret. ok (record { dx = dx; cipher = cipher; next_secret = next_secret })

-- `CryptoDxAppData::next`: the guard stops the count of key updates from wrapping.
unfoldable pub next : Nss → CryptoDxAppData → Res Error CryptoDxAppData
next nss app =
    if app.dx.epoch == u64_max
    then err keys_exhausted
    else and_then (update_secret nss app.cipher app.next_secret) λ next_secret.
      and_then (Dx.next nss app.dx app.next_secret app.cipher)
        λ dx. ok (record { dx = dx; cipher = app.cipher; next_secret = next_secret })

-- `CryptoDxAppData::epoch`
abbrev pub epoch : CryptoDxAppData → ℕ
epoch app = app.dx.epoch
