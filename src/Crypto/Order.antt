-- ===== src/Crypto/Order.antt =====
-- `install_keys` of `Crypto`: first the Handshake keys, then, for a server, the key to write
-- application data with.
use never_fox.Dx.{continuation, CryptoDxState}
use never_fox.States.Install.{continue_early}
use never_fox.Base.{
  Bool-cases, Option-cases, Res, ok, err, panic, ◌≡◌, refl, subst, ◌⊎◌, inl, inr, Bool, true, false,
  Option, none, some, arith,
}
use never_fox.Crypto.{
  Crypto, install_keys, install_handshake_keys, install_handshake_secret,
  maybe_install_application_write_key, Cipher,
}
use never_fox.Crypto.Agent.{Tls, is_final}
use never_fox.Crypto.HandshakeKeys.{install_handshake_keys-Handshakes, Handshakes}
use never_fox.Crypto.Application.{write_inv}
use never_fox.States.Secrets.{KeyOf}
use never_fox.States.Connect.{first-KeyOf}
use never_fox.States.Start.{set_application_write_key_inv}
use never_fox.AppData.{CryptoDxAppData}
use never_fox.Types.{Role, client, server, Version, write, Epoch, Error, Cipher}
use never_fox.Nss.{Nss, Handle}
use never_fox.AppData
use never_fox.Dx

first_epoch :
    (nss : Nss) (version : Version) (secret : Handle) (cipher : Cipher)
    (early : Option CryptoDxState) (fresh app : CryptoDxAppData)
    → AppData.new nss version write secret cipher ≡ ok fresh
    → continue_early write early fresh ≡ ok app
    → app.dx.epoch ≡ 3
unfolding continue_early continuation AppData.new Dx.new
first_epoch nss version secret cipher early fresh app e c = ground arith

module _ {A Tx Rx : Type 0} (nss : Nss) (tls : Tls A) where
  -- What a side has done about the key to write application data with.
  abbrev pub Writes : Role → Version → Crypto A Tx Rx → Crypto A Tx Rx → Type 0
  Writes client version c c' = c' ≡ c
  Writes server version c c' =
      (((tls.take_write Epoch.application_data c.tls).0 ≡ none) × (c'.states ≡ c.states))
      ⊎ ((secret : Handle) × ((tls.take_write Epoch.application_data c.tls).0 ≡ some secret)
          × (app : CryptoDxAppData) × (c'.states
              ≡ record c.states { zero_rtt = none; app_write = some app })
          × KeyOf nss version c.states.cipher write secret app
          × (app.dx.epoch ≡ 3))

  client_inv :
      (b : Bool) (c c' : Crypto A Tx Rx)
      → is_final (tls.state c.tls) ≡ false
      → install_keys nss tls client c ≡ (ok b, c')
      → install_handshake_keys nss tls c ≡ (ok b, c')
  unfolding install_keys
  client_inv b c c' f e = ground (arith, f)

  server_inv :
      (b : Bool) (c c' : Crypto A Tx Rx)
      → is_final (tls.state c.tls) ≡ false
      → install_keys nss tls server c ≡ (ok b, c')
      → (mid : Crypto A Tx Rx) × (install_handshake_keys nss tls c ≡ (ok b, mid))
        × (maybe_install_application_write_key nss tls mid.version mid ≡ (ok tt, c'))
  unfolding install_keys
  server_inv b c c' f e = go (install_handshake_keys nss tls c) refl
    where
      go :
          (x : Res Error Bool × Crypto A Tx Rx)
          → install_handshake_keys nss tls c ≡ x
          → (mid : Crypto A Tx Rx) × (install_handshake_keys nss tls c ≡ (ok b, mid))
            × (maybe_install_application_write_key nss tls mid.version mid ≡ (ok tt, c'))
      go (ok d, mid) at = (mid, ground (arith, f, at), ground (arith, f, at))
      go (err x, mid) at = ground (arith, f, at)
      go (panic, mid) at = ground (arith, f, at)

  final_inv :
      (role : Role) (b : Bool) (c c' : Crypto A Tx Rx)
      → is_final (tls.state c.tls) ≡ true
      → install_keys nss tls role c ≡ (ok b, c')
      → (b ≡ false) × (c' ≡ c)
  unfolding install_keys
  final_inv role b c c' f e = ground (arith, f)

  same_version :
      (b : Bool) (c c' : Crypto A Tx Rx)
      → install_handshake_keys nss tls c ≡ (ok b, c')
      → c'.version ≡ c.version
  unfolding install_handshake_keys install_handshake_secret
  same_version b c c' e = ground arith

  missing_inv :
      (version : Version) (c c' : Crypto A Tx Rx)
      → (tls.take_write Epoch.application_data c.tls).0 ≡ none
      → maybe_install_application_write_key nss tls version c ≡ (ok tt, c')
      → c'.states ≡ c.states
  unfolding maybe_install_application_write_key
  missing_inv version c c' missing e = ground (arith, missing)

  write-Writes :
      (version : Version) (c c' : Crypto A Tx Rx)
      → maybe_install_application_write_key nss tls version c ≡ (ok tt, c')
      → Writes server version c c'
  write-Writes version c c' e =
      elim (Option-cases (tls.take_write Epoch.application_data c.tls).0) [
        | inl missing ↦ inl (missing, missing_inv version c c' missing e)
        | inr (k, there) ↦
            let (fresh, app, made, cont, at) =
              set_application_write_key_inv nss version k c.states c'.states
                (write_inv nss tls version k c c' there e) in
            inr (
              k,
              there,
              app,
              at,
              first-KeyOf nss version write k c.states.cipher c.states.zero_rtt fresh app made cont,
              first_epoch nss version k c.states.cipher c.states.zero_rtt fresh app made cont,
            )
      ]

  -- When `install_keys` succeeds once the handshake is over, it has done nothing. Before that it
  -- asks the agent for its Handshake secrets. It says that it has installed no keys only where the
  -- agent has no such secret to write with; then they are as they were. Else the agent has one to
  -- read with too, and of the keys just those of the Handshake have changed: they write with the
  -- first secret and read with the second, AEAD and header protection, for the cipher suite that
  -- the agent has negotiated and the connection's version; they are of epoch 2 and unused. A client
  -- does no more. A server has then installed a key to write application data if and only if the
  -- agent had a secret for it: the key of that secret, of epoch 3, in the cipher suite that the
  -- Handshake keys have set and in the connection's version, with no 0-RTT keys left.
  pub install_keys-Writes :
      (role : Role) (b : Bool) (c c' : Crypto A Tx Rx)
      → install_keys nss tls role c ≡ (ok b, c')
      → ((is_final (tls.state c.tls) ≡ true) × (b ≡ false) × (c' ≡ c))
        ⊎ ((is_final (tls.state c.tls) ≡ false)
            × (mid : Crypto A Tx Rx) × Handshakes nss tls b c mid
            × Writes role c.version mid c')
  install_keys-Writes role b c c' e = elim (Bool-cases (is_final (tls.state c.tls))) [
    | inl over ↦ let (told, same) = final_inv role b c c' over e in inl (over, told, same)
    | inr going ↦ let (mid, first, rest) = before role e going in inr (going, mid, first, rest)
  ]
    where
      before :
          (side : Role)
          → install_keys nss tls side c ≡ (ok b, c')
          → is_final (tls.state c.tls) ≡ false
          → (mid : Crypto A Tx Rx) × Handshakes nss tls b c mid × Writes side c.version mid c'
      before client e going =
          (c', install_handshake_keys-Handshakes nss tls b c c' (client_inv b c c' going e), refl)
      before server e going =
          let (mid, first, rest) = server_inv b c c' going e in
          (
            mid,
            install_handshake_keys-Handshakes nss tls b c mid first,
            subst (λ v. Writes server v mid c') (same_version b c mid first)
                (write-Writes mid.version mid c' rest),
          )
