-- ===== src/States/Connect.antt =====
-- A connection from the secrets of its handshake on: the application keys are set, and then packets
-- and key updates follow in any order.
use never_fox.States.Update.{States}
use never_fox.Types.{Version, Direction, Cipher, direction_eq, write, read}
use never_fox.Nss.{Nss, Handle}
use never_fox.Base.{
  Bool-cases, ◌>>◌, >>=-eq-ok, ok, Keeps-run, ℕ, ◌≡◌, sym, ap, subst, inl, inr, Option, none, some,
  List, arith,
}
use never_fox.States.{CryptoStates}
use never_fox.States.Install.{set_application_write_key, set_application_read_key, continue_early}
use never_fox.States.Start.{
  set_application_write_key_inv, set_application_read_key_inv, install_read_keys_inv,
  set_application_keys-IsSynced,
}
use never_fox.States.Secrets.{Keyed, SameKey-KeyOf, KeyOf, next-KeyOf}
use never_fox.States.Sync.{IsSynced}
use never_fox.States.Traffic
use never_fox.States.Traffic.Kept.{traffic-run-IsSynced}
use never_fox.States.Traffic.Each.{Keeps-traffic-run}
use never_fox.Dx.Same.{encrypt-SameKey}
use never_fox.States.Secrets.{KeyOf-Closed}
use never_fox.AppData
use never_fox.AppData.{CryptoDxAppData}
use never_fox.AppData.Header.{new-HeaderKey}
use never_fox.AppData.Chain.{new-Generation}
use never_fox.Dx.Same.{continuation-SameKey}
use never_fox.Dx.{CryptoDxState, continuation}

unfoldable pub connect :
    Nss → Version → Handle → Handle → ℕ → List Traffic.Event → States (Unit {0})
connect nss version ws rs expire events = do
  set_application_write_key nss version ws
  set_application_read_key nss version rs expire
  Traffic.run nss version events

module _ (nss : Nss) (version : Version) where
  new-KeyOf :
      (dir : Direction) (secret : Handle) (cipher : Cipher) (fresh : CryptoDxAppData)
      → AppData.new nss version dir secret cipher ≡ ok fresh
      → KeyOf nss version cipher dir secret fresh
  new-KeyOf dir secret cipher fresh e = (
    0,
    new-Generation nss version dir cipher secret fresh e,
    new-HeaderKey nss version dir cipher secret fresh e,
  )

  pub first-KeyOf :
      (dir : Direction) (secret : Handle) (cipher : Cipher) (early : Option CryptoDxState)
      (fresh app : CryptoDxAppData)
      → AppData.new nss version dir secret cipher ≡ ok fresh
      → continue_early dir early fresh ≡ ok app
      → KeyOf nss version cipher dir secret app
  unfolding continue_early
  first-KeyOf dir secret cipher none fresh app e c =
      subst (KeyOf nss version cipher dir secret) (cc) (new-KeyOf dir secret cipher fresh e)
  first-KeyOf dir secret cipher (some z) fresh app e c =
      elim (Bool-cases (direction_eq z.direction dir)) [
        | inl same ↦
            let at : app ≡ record fresh { dx = (continuation z fresh.dx).1 } = ground arith in
            subst (KeyOf nss version cipher dir secret) (sym at) (
              SameKey-KeyOf nss version cipher dir secret fresh (continuation z fresh.dx).1
                (continuation-SameKey z fresh.dx) (new-KeyOf dir secret cipher fresh e))
        | inr other ↦
            subst (KeyOf nss version cipher dir secret) (ground arith)
              (new-KeyOf dir secret cipher fresh e)
      ]

  pub set_application_keys-Keyed :
      (ws rs : Handle) (expire : ℕ) (s mid s' : CryptoStates)
      → set_application_write_key nss version ws s ≡ (ok tt, mid)
      → set_application_read_key nss version rs expire mid ≡ (ok tt, s')
      → Keyed nss version s.cipher ws rs s'
  set_application_keys-Keyed ws rs expire s mid s' e f =
      let (wfresh, w, wmade, wcont, wat) = set_application_write_key_inv nss version ws s mid e in
      let (rfresh, r, rmade, rcont, rrest) =
        set_application_read_key_inv nss version rs expire mid s' f in
      let (n, rnext, rat) = install_read_keys_inv nss expire r mid s' rrest in
      let same : mid.cipher ≡ s.cipher = ap (λ t. t.cipher) wat in
      let wkey = first-KeyOf write ws s.cipher s.zero_rtt wfresh w wmade wcont in
      let rkey =
        subst (λ c. KeyOf nss version c read rs r) same
          (first-KeyOf read rs mid.cipher mid.zero_rtt rfresh r rmade rcont) in
      let nkey = next-KeyOf nss version s.cipher read rs r n rnext rkey in
      record {
        writes = λ a h. subst (KeyOf nss version s.cipher write ws) (ground (arith, wat, rat)) wkey;
        reads = λ a h. subst (KeyOf nss version s.cipher read rs) (ground (arith, rat)) rkey;
        reads_next = λ a h. subst (KeyOf nss version s.cipher read rs) (ground (arith, rat)) nkey;
      }

  -- On a connection with no timer running, set the application key to write with and then those to
  -- read with, and let packets and key updates follow in any order. If the calls that set keys and
  -- the key updates succeed, then the application keys are in step, and each is the one that its
  -- epoch asks for: an epoch of `3 + n` belongs to the cipher that is made of the secret that `n`
  -- derivations of the secret of its direction give, in the connection's cipher suite, with the
  -- header protection of the first secret; whichever 0-RTT keys there were before.
  pub connect-Keyed :
      (ws rs : Handle) (expire : ℕ) (events : List Traffic.Event) (s s' : CryptoStates)
      → s.read_update_time ≡ none
      → connect nss version ws rs expire events s ≡ (ok tt, s')
      → IsSynced s' × Keyed nss version s.cipher ws rs s'
  unfolding connect
  connect-Keyed ws rs expire events s s' idle h =
      let (_, mid, e, rest) =
        >>=-eq-ok
          (λ _. set_application_read_key nss version rs expire >> Traffic.run nss version events)
          (set_application_write_key nss version ws) s h in
      let (_, ready, f, more) =
        >>=-eq-ok (λ _. Traffic.run nss version events)
          (set_application_read_key nss version rs expire) mid rest in
      let (synced, _, _) =
        set_application_keys-IsSynced nss version ws rs expire s mid ready idle e f in
      (
        traffic-run-IsSynced nss version events ready s' synced more,
        Keeps-run
            (Keeps-traffic-run version (KeyOf-Closed nss version s.cipher ws rs)
              (λ p w.
                SameKey-KeyOf nss version s.cipher write ws w _
                  (encrypt-SameKey nss p.pn p.hdr p.buf w.dx))
              events)
            more (set_application_keys-Keyed ws rs expire s mid ready e f),
      )
