-- ===== src/States/Start.antt =====
-- How the application keys come into use: `set_application_write_key` and
-- `set_application_read_key`.
use never_fox.Dx.Numbers.{continuation-used}
use never_fox.States.Rotate.{continuation-epoch}
use never_fox.AppData.Chain.{next_lem, new-Generation}
use never_fox.States.Sync.{IsSynced}
use never_fox.Dx.{CryptoDxState, next_pn, used, continuation}
use never_fox.Base.{
  if◌then◌else◌, Option-cases, is_some, is_ok, ok, ℕ, ◌<◌, ◌≡◌, sym, ◌∙◌, inl, inr, false, Option,
  none, some, arith,
}
use never_fox.Types.{Version, write, Direction, Cipher, read}
use never_fox.Nss.{Nss, Handle}
use never_fox.AppData
use never_fox.AppData.{CryptoDxAppData}
use never_fox.States.{CryptoStates, CryptoDxState, Direction, read, Cipher}
use never_fox.States.Install.{
  continue_early, set_application_write_key, set_application_read_key, install_read_keys,
}

pub set_application_write_key_inv :
    (nss : Nss) (version : Version) (secret : Handle) (s s' : CryptoStates)
    → set_application_write_key nss version secret s ≡ (ok tt, s')
    → (fresh : CryptoDxAppData) × (app : CryptoDxAppData) × (AppData.new nss version write secret
          s.cipher
        ≡ ok fresh)
      × (continue_early write s.zero_rtt fresh ≡ ok app)
      × (s' ≡ record s { zero_rtt = none; app_write = some app })
unfolding set_application_write_key
set_application_write_key_inv nss version secret s s' e = ground arith

pub set_application_read_key_inv :
    (nss : Nss) (version : Version) (secret : Handle) (expire : ℕ) (s s' : CryptoStates)
    → set_application_read_key nss version secret expire s ≡ (ok tt, s')
    → (fresh app : CryptoDxAppData) × (AppData.new nss version read secret s.cipher ≡ ok fresh)
      × (continue_early read s.zero_rtt fresh ≡ ok app)
      × (install_read_keys nss expire app s ≡ (ok tt, s'))
unfolding set_application_read_key
set_application_read_key_inv nss version secret expire s s' e = ground arith

pub install_read_keys_inv :
    (nss : Nss) (expire : ℕ) (app : CryptoDxAppData) (s s' : CryptoStates)
    → install_read_keys nss expire app s ≡ (ok tt, s')
    → (next : CryptoDxAppData) × (AppData.next nss app ≡ ok next)
      × (s' ≡ record s {
        app_read = some app;
        app_read_next = some next;
        read_update_time = if is_some s.zero_rtt then some expire else s.read_update_time;
      })
unfolding install_read_keys
install_read_keys_inv nss expire app s s' e = ground arith

pub continue_early-invocations :
    (dir : Direction) (early : Option CryptoDxState) (fresh app : CryptoDxAppData)
    → continue_early dir early fresh ≡ ok app
    → (app.cipher ≡ fresh.cipher)
      × (app.dx.direction ≡ fresh.dx.direction)
      × (app.dx.epoch ≡ fresh.dx.epoch)
      × (app.dx.invocations ≡ fresh.dx.invocations)
unfolding continue_early continuation
continue_early-invocations dir none fresh app cont = ground arith
continue_early-invocations dir (some z) fresh app cont = ground arith

-- The first application keys have epoch 3, whichever keys they continue from.
first_epoch :
    (nss : Nss) (version : Version) (dir : Direction) (secret : Handle) (cipher : Cipher)
    (early : Option CryptoDxState) (fresh app : CryptoDxAppData)
    → AppData.new nss version dir secret cipher ≡ ok fresh
    → continue_early dir early fresh ≡ ok app
    → app.dx.epoch ≡ 3
unfolding continue_early
first_epoch nss version dir secret cipher early fresh app e c =
    let three = (new-Generation nss version dir cipher secret fresh e).counted in
    elim (Option-cases early) [
      | inl nothing ↦ ground (arith, three, nothing)
      | inr (z, there) ↦ ground (arith, three, there, continuation-epoch z fresh.dx)
    ]

-- Once the write keys and then the read keys of application data are set, on a connection with no
-- timer running, the keys are in step; 0-RTT keys that were there are gone.
pub set_application_keys-IsSynced :
    (nss : Nss) (version : Version) (write_secret read_secret : Handle) (expire : ℕ)
    (s mid s' : CryptoStates)
    → s.read_update_time ≡ none
    → set_application_write_key nss version write_secret s ≡ (ok tt, mid)
    → set_application_read_key nss version read_secret expire mid ≡ (ok tt, s')
    → IsSynced s' × (s'.zero_rtt ≡ none) × (s'.read_update_time ≡ none)
set_application_keys-IsSynced nss version write_secret read_secret expire s mid s' idle e f =
    let (wfresh, w, wmade, wcont, wat) =
      set_application_write_key_inv nss version write_secret s mid e in
    let (rfresh, r, rmade, rcont, rrest) =
      set_application_read_key_inv nss version read_secret expire mid s' f in
    let (n, rnext, rat) = install_read_keys_inv nss expire r mid s' rrest in
    let we = first_epoch nss version write write_secret s.cipher s.zero_rtt wfresh w wmade wcont in
    let re =
      first_epoch nss version read read_secret mid.cipher mid.zero_rtt rfresh r rmade rcont in
    let step = next_lem nss r n rnext in
    let timer : s'.read_update_time ≡ none = ground (arith, wat, rat, idle) in
    (
      (
        w,
        r,
        n,
        record {
          has_write = ground (arith, wat, rat);
          has_read = ground (arith, rat);
          has_next = ground (arith, rat);
          write_epoch = inl (we ∙ sym re);
          next_epoch = ground (arith, step.5, step.6, re);
          small = ground (arith, step.5, step.6, re);
          waits = inl timer;
        },
      ),
      ground (arith, wat, rat),
      timer,
    )

-- 0-RTT keys that the client wrote with end where the first application keys begin: these refuse
-- every packet number that may have been used in 0-RTT.
pub set_application_write_key-used :
    (nss : Nss) (version : Version) (secret : Handle) (s s' : CryptoStates) (z : CryptoDxState)
    (w : CryptoDxAppData) (pn : ℕ)
    → s.zero_rtt ≡ some z
    → z.direction ≡ write
    → set_application_write_key nss version secret s ≡ (ok tt, s')
    → s'.app_write ≡ some w
    → pn < next_pn z
    → is_ok (used pn w.dx).0 ≡ false
unfolding continue_early
set_application_write_key-used nss version secret s s' z w pn e d h hw lt =
    let (fresh, app, made, cont, at) = set_application_write_key_inv nss version secret s s' h in
    ground (arith, continuation-used z fresh.dx (continuation z fresh.dx).1 pn)
