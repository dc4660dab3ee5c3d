-- ===== src/Crypto/Application.antt =====
-- `install_application_keys` of `Crypto`.
use never_fox.States.Start.{set_application_keys-IsSynced}
use never_fox.States.Sync.{IsSynced}
use never_fox.States.Secrets.{Keyed}
use never_fox.States.Connect.{set_application_keys-Keyed}
use never_fox.States.Install.{set_application_read_key, set_application_write_key}
use never_fox.Crypto.{
  Crypto, install_application_keys, maybe_install_application_write_key,
  install_application_read_key,
}
use never_fox.Types.{Version, Epoch}
use never_fox.Crypto.Agent.{Tls}
use never_fox.Nss.{Nss, Handle}
use never_fox.Base.{Option-cases, >>=-eq-ok, ok, ℕ, ◌≡◌, subst, inl, inr, none, some, arith}

module _ {A Tx Rx : Type 0} (nss : Nss) (tls : Tls A) where
  pub write_inv :
      (version : Version) (k : Handle) (c mid : Crypto A Tx Rx)
      → (tls.take_write Epoch.application_data c.tls).0 ≡ some k
      → maybe_install_application_write_key nss tls version c ≡ (ok tt, mid)
      → set_application_write_key nss version k c.states ≡ (ok tt, mid.states)
  unfolding maybe_install_application_write_key
  write_inv version k c mid there e = ground (arith, there)

  read_key_inv :
      (version : Version) (expire : ℕ) (c c' : Crypto A Tx Rx)
      → install_application_read_key nss tls version expire c ≡ (ok tt, c')
      → (k : Handle) × ((tls.take_read Epoch.application_data c.tls).0 ≡ some k)
        × (set_application_read_key nss version k expire c.states ≡ (ok tt, c'.states))
  unfolding install_application_read_key
  read_key_inv version expire c c' e =
      elim (Option-cases (tls.take_read Epoch.application_data c.tls).0) [
        | inl missing ↦ ground (arith, missing)
        | inr (k, there) ↦ (k, there, ground (arith, there))
      ]

  taken_inv :
      (version : Version) (c mid : Crypto A Tx Rx)
      → maybe_install_application_write_key nss tls version c ≡ (ok tt, mid)
      → mid.tls ≡ (tls.take_write Epoch.application_data c.tls).1
  unfolding maybe_install_application_write_key
  taken_inv version c mid e = ground arith

  read_inv :
      (version : Version) (expire : ℕ) (c c' : Crypto A Tx Rx)
      → install_application_keys nss tls version expire c ≡ (ok tt, c')
      → (mid : Crypto A Tx Rx) × (maybe_install_application_write_key nss tls version c
          ≡ (ok tt, mid))
        × (k : Handle) × ((tls.take_read Epoch.application_data
              (tls.take_write Epoch.application_data c.tls).1).0
            ≡ some k)
        × (set_application_read_key nss version k expire mid.states ≡ (ok tt, c'.states))
  unfolding install_application_keys
  read_inv version expire c c' e =
      let (_, mid, writes, reads) =
        >>=-eq-ok (λ _. install_application_read_key nss tls version expire)
          (maybe_install_application_write_key nss tls version) c e in
      let (k, there, keys) = read_key_inv version expire mid c' reads in
      (
        mid,
        writes,
        k,
        subst (λ a. (tls.take_read Epoch.application_data a).0 ≡ some k)
            (taken_inv version c mid writes) there,
        keys,
      )

  -- When `install_application_keys` succeeds with a secret to write with, on a connection with no
  -- timer running, the agent had a secret to read with too. The keys of both directions are then in
  -- step, those to write with and those to read with stem from these two secrets in the version
  -- asked for and the cipher suite of the connection, and 0-RTT keys that were there are gone.
  pub install_application_keys-Keyed :
      (version : Version) (expire : ℕ) (k : Handle) (c c' : Crypto A Tx Rx)
      → c.states.read_update_time ≡ none
      → (tls.take_write Epoch.application_data c.tls).0 ≡ some k
      → install_application_keys nss tls version expire c ≡ (ok tt, c')
      → (r : Handle) × ((tls.take_read Epoch.application_data
            (tls.take_write Epoch.application_data c.tls).1).0
          ≡ some r)
        × Keyed nss version c.states.cipher k r c'.states
        × IsSynced c'.states
        × (c'.states.zero_rtt ≡ none)
        × (c'.states.read_update_time ≡ none)
  install_application_keys-Keyed version expire k c c' idle there e =
      let (mid, writes, r, given, reads) = read_inv version expire c c' e in
      let first = write_inv version k c mid there writes in
      let (synced, gone, timer) =
        set_application_keys-IsSynced nss version k r expire c.states mid.states c'.states idle
          first reads in
      (
        r,
        given,
        set_application_keys-Keyed nss version k r expire c.states mid.states c'.states first reads,
        synced,
        gone,
        timer,
      )
