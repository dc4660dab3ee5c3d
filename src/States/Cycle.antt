-- ===== src/States/Cycle.antt =====
-- A whole key update between the two ends of a connection.
use never_fox.Base.{ok, ℕ, ◌+◌, ◌≤◌, ◌≡◌, ap, ◌∙◌, true, false, Option, some, arith}
use never_fox.States.{CryptoStates, has_0rtt_read}
use never_fox.States.Update.{
  initiate_key_update, key_update_received, check_key_update, rotate_read,
}
use never_fox.States.Sync.{
  Synced, initiate_key_update_inv, maybe_update_write-Synced, key_update_received-Synced,
}
use never_fox.States.Rotate.{check_key_update-Synced}
use never_fox.AppData.{CryptoDxAppData}
use never_fox.Nss.{Nss}

-- The application keys of a connection in step, all of them but the next ones in the phase of an
-- epoch.
abbrev pub SettledAt : ℕ → CryptoStates → Type 0
SettledAt epoch s =
    (w r n : CryptoDxAppData) × Synced s w r n × (w.dx.epoch ≡ epoch) × (r.dx.epoch ≡ epoch)

-- The same, with the write keys one phase ahead and the timer running.
abbrev UpdatingAt : ℕ → ℕ → CryptoStates → Type 0
UpdatingAt epoch expiration s =
    (w r n : CryptoDxAppData) × Synced s w r n
    × (w.dx.epoch ≡ epoch + 1)
    × (r.dx.epoch ≡ epoch)
    × (s.read_update_time ≡ some expiration)

due_inv :
    (nss : Nss) (now expiration : ℕ) (s s' : CryptoStates) (n : CryptoDxAppData)
    → s.app_read_next ≡ some n
    → s.read_update_time ≡ some expiration
    → expiration ≤ now
    → has_0rtt_read s ≡ false
    → check_key_update nss now s ≡ (ok tt, s')
    → (s'.app_read ≡ some n) × (s'.app_write ≡ s.app_write)
unfolding check_key_update rotate_read
due_inv nss now expiration s s' n there timer due early e = ground arith

-- When the timer runs out, the read keys follow.
UpdatingAt-SettledAt :
    (nss : Nss) (epoch now expiration : ℕ) (s s' : CryptoStates)
    → UpdatingAt epoch expiration s
    → expiration ≤ now
    → has_0rtt_read s ≡ false
    → check_key_update nss now s ≡ (ok tt, s')
    → SettledAt (epoch + 1) s'
UpdatingAt-SettledAt nss epoch now expiration s s' (w, r, n, y, we, re, timer) due early e =
    let (w', r', n', y') = check_key_update-Synced nss now s s' w r n y e in
    let (read, written) = due_inv nss now expiration s s' n y.has_next timer due early e in
    let same_r : r' ≡ n = ground (arith, y'.has_read) in
    let same_w : w' ≡ w = ground (arith, y'.has_write, y.has_write) in
    (
      w',
      r',
      n',
      y',
      ap (λ k. k.dx.epoch) same_w ∙ we,
      ap (λ k. k.dx.epoch) same_r ∙ y.next_epoch ∙ ap (λ k. k + 1) re,
    )

SettledAt-UpdatingAt :
    (nss : Nss) (epoch expiration : ℕ) (s s' : CryptoStates) (w r n : CryptoDxAppData)
    → Synced s w r n
    → r.dx.epoch ≡ epoch
    → key_update_received nss expiration s ≡ (ok tt, s')
    → UpdatingAt epoch expiration s'
SettledAt-UpdatingAt nss epoch expiration s s' w r n y re e =
    let (w', after, grown, timer) = key_update_received-Synced nss expiration s s' w r n y e in
    (w', r, n, after, grown ∙ ap (λ k. k + 1) re, re, timer)

-- A whole key update. Both ends of a connection are in step, with their write keys and their read
-- keys in the phase of one epoch. One end initiates an update, the other receives it, and the first
-- then receives the update of the other; later the timers of both run out, by when neither has
-- 0-RTT keys to read with. If each of these calls succeeds, both ends are in step again, with their
-- write keys and their read keys in the phase of the next epoch.
pub key_update_cycle :
    (nss : Nss) (la : Option ℕ) (epoch expire_a expire_b now_a now_b : ℕ)
    (a a1 a2 a3 b b1 b2 : CryptoStates)
    → SettledAt epoch a
    → SettledAt epoch b
    → initiate_key_update nss la a ≡ (ok tt, a1)
    → key_update_received nss expire_b b ≡ (ok tt, b1)
    → key_update_received nss expire_a a1 ≡ (ok tt, a2)
    → has_0rtt_read a2 ≡ false
    → has_0rtt_read b1 ≡ false
    → expire_a ≤ now_a
    → expire_b ≤ now_b
    → check_key_update nss now_a a2 ≡ (ok tt, a3)
    → check_key_update nss now_b b1 ≡ (ok tt, b2)
    → SettledAt (epoch + 1) a3 × SettledAt (epoch + 1) b2
key_update_cycle nss la epoch expire_a expire_b now_a now_b a a1 a2 a3 b b1 b2
      (wa, ra, na, ya, _, ea) (wb, rb, nb, yb, _, eb) starts hears answered early_a early_b due_a
      due_b ends_a ends_b =
    let (moved, _, _) = initiate_key_update_inv nss la a a1 wa ya.has_write starts in
    let (w1, y1, _, _) = maybe_update_write-Synced nss a a1 wa ra na true ya moved in
    (
      UpdatingAt-SettledAt nss epoch now_a expire_a a2 a3
          (SettledAt-UpdatingAt nss epoch expire_a a1 a2 w1 ra na y1 ea answered) due_a early_a
          ends_a,
      UpdatingAt-SettledAt nss epoch now_b expire_b b1 b2
          (SettledAt-UpdatingAt nss epoch expire_b b b1 wb rb nb yb eb hears) due_b early_b ends_b,
    )
