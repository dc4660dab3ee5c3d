-- ===== src/Crypto/HandshakeKeys.antt =====
-- The Handshake keys of `Crypto`: `install_handshake_keys`.
use never_fox.Dx.{CryptoDxState, empty_range}
use never_fox.Crypto.Agent.{Tls}
use never_fox.States.Install.{set_handshake_keys}
use never_fox.Nss.{Nss, Handle}
use never_fox.States.{CryptoStates, CryptoState}
use never_fox.Types.{write, Version, read, Cipher, Epoch, Direction, Mode, mode_of}
use never_fox.Dx
use never_fox.Crypto.{
  Crypto, CryptoStates, set_handshake_keys, Nss, Tls, write, Version, read,
  install_handshake_secret, install_handshake_keys, Handle, Cipher, handshake_cipher, Epoch,
  Direction,
}
use never_fox.Base.{
  Option-cases, codes, Res-cases, ok, ◌≡◌, ◌⊎◌, inl, inr, Bool, true, false, none, some, ◌++◌,
  arith,
}

-- The key of one side and direction that a Handshake secret gives: its AEAD and its header
-- protection are made of that secret, for the cipher suite and the version; it is of epoch 2 and
-- has seen no packet.
pub record IsHandshakeKey (nss : Nss) (version : Version) (cipher : Cipher) (dir : Direction)
    (mode : Mode) (secret : Handle) (dx : CryptoDxState) : Type 0 where
  pub keyed : nss.aead_new cipher secret (nss.label_prefix version) mode ≡ ok dx.aead
  pub protected :
      nss.hp_extract cipher secret (nss.label_prefix version ++ codes "hp") ≡ ok dx.hpkey
  pub directed : dx.direction ≡ dir
  pub of_version : dx.version ≡ version
  pub of_epoch : dx.epoch ≡ 2
  pub unused : dx.used_pn ≡ empty_range 0

new-IsHandshakeKey :
    (nss : Nss) (version : Version) (dir : Direction) (secret : Handle) (cipher : Cipher)
    (dx : CryptoDxState)
    → Dx.new nss version dir Epoch.handshake secret cipher 0 ≡ ok dx
    → IsHandshakeKey nss version cipher dir (mode_of dir) secret dx
unfolding Dx.new
new-IsHandshakeKey nss version dir secret cipher dx e = record {
  keyed = ground arith;
  protected = ground arith;
  directed = ground arith;
  of_version = ground arith;
  of_epoch = ground arith;
  unused = ground arith;
}

handshake_keys_inv :
    (nss : Nss) (version : Version) (w r : Handle) (cipher : Cipher) (s s' : CryptoStates)
    → set_handshake_keys nss version w r cipher s ≡ (ok tt, s')
    → (tx rx : CryptoDxState) × (Dx.new nss version write Epoch.handshake w cipher 0 ≡ ok tx)
      × (Dx.new nss version read Epoch.handshake r cipher 0 ≡ ok rx)
      × (s' ≡ record s { cipher = cipher; handshake = some (record { tx = tx; rx = rx }) })
unfolding set_handshake_keys
handshake_keys_inv nss version w r cipher s s' e = ground arith

module _ {A Tx Rx : Type 0} (nss : Nss) (tls : Tls A) where
  secret_inv :
      (w : Handle) (b : Bool) (c c' : Crypto A Tx Rx)
      → install_handshake_secret nss tls w c ≡ (ok b, c')
      → (b ≡ true)
        × (r : Handle) × ((tls.take_read Epoch.handshake c.tls).0 ≡ some r)
        × (c'.tls ≡ (tls.take_read Epoch.handshake c.tls).1)
        × (cipher : Cipher) × (handshake_cipher tls c'.tls ≡ ok cipher)
        × (set_handshake_keys nss c.version w r cipher c.states ≡ (ok tt, c'.states))
  unfolding install_handshake_secret
  secret_inv w b c c' e = elim (Option-cases (tls.take_read Epoch.handshake c.tls).0) [
    | inl missing ↦ ground (arith, missing)
    | inr (r, there) ↦
        elim (Res-cases (handshake_cipher tls (tls.take_read Epoch.handshake c.tls).1)) [
          | inl (cipher, known) ↦ (
            ground (arith, there, known),
            r,
            there,
            ground (arith, there, known),
            cipher,
            ground (arith, there, known),
            ground (arith, there, known),
          )
          | inr unknown ↦ ground (arith, there, unknown)
        ]
  ]

  -- The agent once its Handshake secret to write with is taken.
  abbrev pub write_taken : Crypto A Tx Rx → A
  write_taken c = (tls.take_write Epoch.handshake c.tls).1

  install_inv :
      (b : Bool) (c c' : Crypto A Tx Rx)
      → install_handshake_keys nss tls c ≡ (ok b, c')
      → ((b ≡ false)
          × ((tls.take_write Epoch.handshake c.tls).0 ≡ none)
          × (c'.tls ≡ write_taken c)
          × (c'.states ≡ c.states))
        ⊎ ((w : Handle) × ((tls.take_write Epoch.handshake c.tls).0 ≡ some w)
            × (install_handshake_secret nss tls w (record c { tls = write_taken c }) ≡ (ok b, c')))
  unfolding install_handshake_keys
  install_inv b c c' e = elim (Option-cases (tls.take_write Epoch.handshake c.tls).0) [
    | inl missing ↦
        inl (ground (arith, missing), missing, ground (arith, missing), ground (arith, missing))
    | inr (w, there) ↦ inr (w, there, ground (arith, there))
  ]

  -- The secrets that the agent gives decide which Handshake keys there are: none without a secret
  -- to write with. With one, `w`, there is one to read with, `r`, and the keys are those of `w` and
  -- `r` for the cipher suite that the agent has negotiated. Nothing else of the keys changes.
  abbrev pub Handshakes : Bool → Crypto A Tx Rx → Crypto A Tx Rx → Type 0
  Handshakes b c c' =
      ((b ≡ false)
        × ((tls.take_write Epoch.handshake c.tls).0 ≡ none)
        × (c'.tls ≡ write_taken c)
        × (c'.states ≡ c.states))
      ⊎ ((b ≡ true)
          × (w : Handle) × ((tls.take_write Epoch.handshake c.tls).0 ≡ some w)
          × (r : Handle) × ((tls.take_read Epoch.handshake (write_taken c)).0 ≡ some r)
          × (c'.tls ≡ (tls.take_read Epoch.handshake (write_taken c)).1)
          × (cipher : Cipher) × (handshake_cipher tls c'.tls ≡ ok cipher)
          × (k : CryptoState) × (c'.states
              ≡ record c.states { cipher = cipher; handshake = some k })
          × IsHandshakeKey nss c.version cipher write Mode.encrypt w k.tx
          × IsHandshakeKey nss c.version cipher read Mode.decrypt r k.rx)

  pub install_handshake_keys-Handshakes :
      (b : Bool) (c c' : Crypto A Tx Rx)
      → install_handshake_keys nss tls c ≡ (ok b, c')
      → Handshakes b c c'
  unfolding mode_of
  install_handshake_keys-Handshakes b c c' e = elim (install_inv b c c' e) [
    | inl kept ↦ inl kept
    | inr (w, there, run) ↦
        let (fresh, r, given, agent, cipher, known, keys) =
          secret_inv w b (record c { tls = write_taken c }) c' run in
        let (tx, rx, txmade, rxmade, at) =
          handshake_keys_inv nss c.version w r cipher c.states c'.states keys in
        inr (
          fresh,
          w,
          there,
          r,
          given,
          agent,
          cipher,
          known,
          record { tx = tx; rx = rx },
          at,
          new-IsHandshakeKey nss c.version write w cipher tx txmade,
          new-IsHandshakeKey nss c.version read r cipher rx rxmade,
        )
  ]
