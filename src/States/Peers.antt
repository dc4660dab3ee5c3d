-- ===== src/States/Peers.antt =====
-- Both ends of a connection: what one seals with its application keys, the other opens, and the
-- header protection of the one is that of the other.
use never_fox.Nss.{Nss, Handle, Bytes, from_nss}
use never_fox.Base.{
  length, take, drop, ok-injective, ok, ℕ, ◌+◌, ◌≡◌, refl, sym, ap, subst, ◌∙◌, ◌⊎◌, inl, inr, none,
  some, List, ◌++◌, arith,
}
use never_fox.States.Connect.{connect, connect-Keyed}
use never_fox.States.Secrets.{KeyOf}
use never_fox.States.Sync.{Synced}
use never_fox.States.Select.{rx}
use never_fox.States.Phase.{rx-reads, rx-reads_next}
use never_fox.States.Traffic
use never_fox.States.{CryptoStates, Slot, key_at, reads, reads_next}
use never_fox.AppData.{CryptoDxAppData}
use never_fox.AppData.Header.{HpLaws, HeaderKey-masks}
use never_fox.States.Initial.{rx_hp}
use never_fox.AppData.Chain.{key_phase_epoch, derived}
use never_fox.Dx.{CryptoDxState, key_phase, encrypt, decrypt, compute_mask}
use never_fox.Dx.Opens.{Opens, AeadLaws, own_range, header_of, answer, encrypt-decrypt}
use never_fox.Types.{Version, Cipher, Epoch, Mode, mode_of, write, read, Range}

-- Keys that stem from one secret and have one epoch belong together.
KeyOf-Opens :
    (nss : Nss) (version : Version) (cipher : Cipher) (secret : Handle) (w k : CryptoDxAppData)
    → AeadLaws nss
    → KeyOf nss version cipher write secret w
    → KeyOf nss version cipher read secret k
    → w.dx.epoch ≡ k.dx.epoch
    → Opens nss w.dx.aead k.dx.aead
unfolding mode_of
KeyOf-Opens nss version cipher secret w k laws (i, gw, _) (j, gk, _) e =
    let level : i ≡ j = omega (arith, gw.counted, gk.counted, e) in
    let same : gk.current ≡ gw.current =
      ok-injective (sym gk.derives ∙ ap (derived nss cipher secret) (sym level) ∙ gw.derives) in
    laws.pairs cipher gw.current (nss.label_prefix version) w.dx.aead k.dx.aead gw.keyed (
      subst (λ c. nss.aead_new cipher c (nss.label_prefix version) Mode.decrypt ≡ ok k.dx.aead) same
        gk.keyed)

-- The key that the phase of a sender's key finds at the receiver.
finds :
    (nss : Nss) (version : Version) (cipher : Cipher) (secret : Handle) (b : CryptoStates)
    (w wb r n : CryptoDxAppData)
    → AeadLaws nss
    → Synced b wb r n
    → KeyOf nss version cipher write secret w
    → KeyOf nss version cipher read secret r
    → KeyOf nss version cipher read secret n
    → (w.dx.epoch ≡ r.dx.epoch) ⊎ (w.dx.epoch ≡ r.dx.epoch + 1)
    → (slot : Slot) × (k : CryptoDxState) × (rx version Epoch.application_data (key_phase w.dx) b
        ≡ some slot)
      × (key_at slot b ≡ some k)
      × Opens nss w.dx.aead k.aead
finds nss version cipher secret b w wb r n laws y kw kr kn (inl same) = (
  reads,
  r.dx,
  rx-reads version (key_phase w.dx) b wb r n y (key_phase_epoch w.dx r.dx same),
  rw y.has_read refl,
  KeyOf-Opens nss version cipher secret w r laws kw kr same,
)
finds nss version cipher secret b w wb r n laws y kw kr kn (inr ahead) =
    let same : w.dx.epoch ≡ n.dx.epoch = ahead ∙ sym y.next_epoch in
    (
      reads_next,
      n.dx,
      rx-reads_next version (key_phase w.dx) b wb r n y (key_phase_epoch w.dx n.dx same),
      rw y.has_next refl,
      KeyOf-Opens nss version cipher secret w n laws kw kn same,
    )

-- Two ends of a connection of one cipher have set their application keys, one writing with the
-- secret that the other reads with, and each has gone through any history of packets and key
-- updates in which the updates succeed. If the write keys of one are in the phase of the read keys
-- of the other or in the one after it, then a packet that the one seals, once it has been cut out of
-- the buffer that it was sealed in, is opened by the other: its phase finds a key, and with that key
-- `decrypt` gives the header and the text that were sealed, unless the key has no use left or holds
-- the packet number for too low. This is so for every NSS whose ciphers of one secret belong
-- together.
pub sealed_packets_open :
    (nss : Nss) (version : Version) (secret back_a back_b : Handle) (expire_a expire_b : ℕ)
    (events_a events_b : List Traffic.Event) (a0 a b0 b : CryptoStates) (w r : CryptoDxAppData)
    (pn n : ℕ) (hdr : Range) (buf out : Bytes) (dx' : CryptoDxState)
    → AeadLaws nss
    → a0.cipher ≡ b0.cipher
    → a0.read_update_time ≡ none
    → b0.read_update_time ≡ none
    → connect nss version secret back_a expire_a events_a a0 ≡ (ok tt, a)
    → connect nss version back_b secret expire_b events_b b0 ≡ (ok tt, b)
    → a.app_write ≡ some w
    → b.app_read ≡ some r
    → (w.dx.epoch ≡ r.dx.epoch) ⊎ (w.dx.epoch ≡ r.dx.epoch + 1)
    → encrypt nss pn hdr buf w.dx ≡ (ok (n, out), dx')
    → (slot : Slot) × (k : CryptoDxState) × (m : ℕ) × (plain : Bytes) × (rx version
          Epoch.application_data
          (key_phase w.dx)
          b
        ≡ some slot)
      × (key_at slot b ≡ some k)
      × ((decrypt nss pn (own_range hdr) (drop hdr.start out) k).0
          ≡ answer k pn (m, header_of hdr buf ++ plain))
      × (m + nss.expansion w.dx.aead ≡ length (drop hdr.end buf))
      × (take m plain ≡ take m (drop hdr.end buf))
sealed_packets_open nss version secret back_a back_b expire_a expire_b events_a events_b a0 a b0 b w
      r pn n hdr buf out dx' laws cipher idle_a idle_b ran_a ran_b there_w there_r phases sealing =
    let (_, made_a) = connect-Keyed nss version secret back_a expire_a events_a a0 a idle_a ran_a in
    let ((wb, rb, nb, y), made_b) =
      connect-Keyed nss version back_b secret expire_b events_b b0 b idle_b ran_b in
    let current : rb ≡ r = ground (arith, y.has_read) in
    let kw = subst (λ c. KeyOf nss version c write secret w) cipher (made_a.writes w there_w) in
    let (slot, k, found, at, opens) =
      finds nss version b0.cipher secret b w wb rb nb laws y kw (made_b.reads rb y.has_read)
        (made_b.reads_next nb y.has_next)
        (subst (λ x. (w.dx.epoch ≡ x.dx.epoch) ⊎ (w.dx.epoch ≡ x.dx.epoch + 1)) (sym current)
          phases) in
    let (m, plain, opened, size, same) =
      encrypt-decrypt nss w.dx dx' k pn n hdr buf out opens sealing in
    (slot, k, m, plain, found, at, opened, size, same)

-- Two ends of a connection of one cipher have set their application keys, one writing with the
-- secret that the other reads with, and each has gone through any history of packets and key
-- updates in which the updates succeed. Then the key that `rx_hp` gives one end masks each sample
-- as the key does that the other end writes with, in whatever phases the two are, provided a
-- clone of a header protection key masks as the key does.
pub header_masks_agree :
    (nss : Nss) (version : Version) (secret back_a back_b : Handle) (expire_a expire_b : ℕ)
    (events_a events_b : List Traffic.Event) (a0 a b0 b : CryptoStates) (w : CryptoDxAppData)
    (sample : Bytes)
    → HpLaws nss
    → a0.cipher ≡ b0.cipher
    → a0.read_update_time ≡ none
    → b0.read_update_time ≡ none
    → connect nss version secret back_a expire_a events_a a0 ≡ (ok tt, a)
    → connect nss version back_b secret expire_b events_b b0 ≡ (ok tt, b)
    → a.app_write ≡ some w
    → (slot : Slot) × (k : CryptoDxState) × (rx_hp nss version Epoch.application_data b
        ≡ (some slot, b))
      × (key_at slot b ≡ some k)
      × (compute_mask nss k sample ≡ compute_mask nss w.dx sample)
unfolding rx_hp compute_mask
header_masks_agree nss version secret back_a back_b expire_a expire_b events_a events_b a0 a b0 b w
      sample laws cipher idle_a idle_b ran_a ran_b there_w =
    let (_, made_a) = connect-Keyed nss version secret back_a expire_a events_a a0 a idle_a ran_a in
    let ((wb, rb, nb, y), made_b) =
      connect-Keyed nss version back_b secret expire_b events_b b0 b idle_b ran_b in
    let kw = subst (λ c. KeyOf nss version c write secret w) cipher (made_a.writes w there_w) in
    let kr = made_b.reads rb y.has_read in
    (
      reads,
      rb.dx,
      rw y.has_read refl,
      rw y.has_read refl,
      ap from_nss (
          HeaderKey-masks nss version b0.cipher secret rb.dx.hpkey w.dx.hpkey sample laws kr.2
            kw.2),
    )
