-- ===== src/States/Install.antt =====
-- Keys that the TLS handshake hands over: the `set_…` methods of `CryptoStates`, and
-- `discard_0rtt_keys`.
use never_fox.Base.{
  if◌then◌else◌, is_none, Res, and_then, Method, ◌>>=◌, ◌>>◌, lift, get, put, modify, branch, ok,
  panic, ℕ, Option, none, some,
}
use never_fox.Types.{Version, Epoch, Direction, read, write, direction_eq, Cipher, Error}
use never_fox.Nss.{Nss, Handle}
use never_fox.Dx
use never_fox.Dx.{CryptoDxState, continuation}
use never_fox.AppData
use never_fox.AppData.{CryptoDxAppData}
use never_fox.States.{CryptoStates}

-- `set_0rtt_keys`
unfoldable pub set_0rtt_keys :
    Nss → Version → Direction → Handle → Cipher → Method CryptoStates Error (Unit {0})
set_0rtt_keys nss version dir secret cipher = do
  dx ← lift (Dx.new nss version dir Epoch.zero_rtt secret cipher 0)
  modify (λ s. record s { zero_rtt = some dx })

-- `discard_0rtt_keys`
unfoldable pub discard_0rtt_keys : Method CryptoStates Error (Unit {0})
discard_0rtt_keys = do
  s ← get
  branch (is_none s.app_read) (modify (λ t. record t { zero_rtt = none })) (lift panic)

-- `set_handshake_keys`
unfoldable pub set_handshake_keys :
    Nss → Version → Handle → Handle → Cipher → Method CryptoStates Error (Unit {0})
set_handshake_keys nss version write_secret read_secret cipher = do
  modify (λ s. record s { cipher = cipher })
  tx ← lift (Dx.new nss version write Epoch.handshake write_secret cipher 0)
  rx ← lift (Dx.new nss version read Epoch.handshake read_secret cipher 0)
  modify (λ s. record s { handshake = some (record { tx = tx; rx = rx }) })

-- Application keys that continue from the 0-RTT keys of the same direction, if there are any.
unfoldable pub continue_early :
    Direction → Option CryptoDxState → CryptoDxAppData → Res Error CryptoDxAppData
continue_early dir none app = ok app
continue_early dir (some z) app =
    if direction_eq z.direction dir
    then (let (r, dx) = continuation z app.dx in and_then r λ _. ok (record app { dx = dx }))
    else ok app

-- `set_application_write_key`
unfoldable pub set_application_write_key :
    Nss → Version → Handle → Method CryptoStates Error (Unit {0})
set_application_write_key nss version secret = do
  s ← get
  fresh ← lift (AppData.new nss version write secret s.cipher)
  app ← lift (continue_early write s.zero_rtt fresh)
  modify (λ t. record t { zero_rtt = none; app_write = some app })

abbrev expire_early : Option CryptoDxState → ℕ → CryptoStates → CryptoStates
expire_early none expire_0rtt s = s
expire_early (some z) expire_0rtt s = record s { read_update_time = some expire_0rtt }

-- The end of `set_application_read_key`: the timer for 0-RTT keys, and the keys of two phases.
unfoldable pub install_read_keys : Nss → ℕ → CryptoDxAppData → Method CryptoStates Error (Unit {0})
install_read_keys nss expire_0rtt app = do
  s ← get
  put (expire_early s.zero_rtt expire_0rtt s)
  next ← lift (AppData.next nss app)
  modify (λ t. record t { app_read_next = some next; app_read = some app })

-- `set_application_read_key`
unfoldable pub set_application_read_key :
    Nss → Version → Handle → ℕ → Method CryptoStates Error (Unit {0})
set_application_read_key nss version secret expire_0rtt = do
  s ← get
  fresh ← lift (AppData.new nss version read secret s.cipher)
  app ← lift (continue_early read s.zero_rtt fresh)
  install_read_keys nss expire_0rtt app
