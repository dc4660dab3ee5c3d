-- ===== src/States/Sync.antt =====
-- Key updates keep the phases of both sides in step: the methods of States/Update.
use never_fox.Dx.{should_update, can_update}
use never_fox.Base.{
  ◌==◌, if◌then◌else◌, ==_iff, Bool-cases, Res, modify, >>=-eq-ok, ok, err, panic, ℕ, ◌+◌, ◌≤◌, ◌≡◌,
  refl, sym, ◌∙◌, ◌⊎◌, inl, inr, Bool, true, false, Option, none, some, arith,
}
use never_fox.Types.{Error}
use never_fox.Types.Words.{u64_max}
use never_fox.Nss.{Nss}
use never_fox.AppData
use never_fox.AppData.{CryptoDxAppData}
use never_fox.AppData.Chain.{next_lem}
use never_fox.States.{CryptoStates, has_0rtt_read}
use never_fox.States.Update.{
  start_timer, maybe_update_write, key_update_received, initiate_key_update, auto_update,
}

-- The application keys of a connection in use: `w` to write, `r` to read, `n` to read next. The
-- write keys are in the phase of the read keys or in the one after it; and in the one after it
-- while a key update is under way, which is what the timer says unless it is for 0-RTT keys.
pub record Synced (s : CryptoStates) (w r n : CryptoDxAppData) : Type 0 where
  pub has_write : s.app_write ≡ some w
  pub has_read : s.app_read ≡ some r
  pub has_next : s.app_read_next ≡ some n
  pub write_epoch : (w.dx.epoch ≡ r.dx.epoch) ⊎ (w.dx.epoch ≡ r.dx.epoch + 1)
  pub next_epoch : n.dx.epoch ≡ r.dx.epoch + 1
  pub small : n.dx.epoch ≤ u64_max
  pub waits :
      (s.read_update_time ≡ none) ⊎ ((has_0rtt_read s ≡ true) ⊎ (w.dx.epoch ≡ r.dx.epoch + 1))

abbrev pub IsSynced : CryptoStates → Type 0
IsSynced s = (w r n : CryptoDxAppData) × Synced s w r n

-- `maybe_update_write`, by the keys that are there and those that would follow.
abbrev pub moved_by :
    CryptoStates
    → CryptoDxAppData
    → CryptoDxAppData
    → Res Error CryptoDxAppData
    → Res Error Bool × CryptoStates
moved_by s w r next =
    if w.dx.epoch == r.dx.epoch
    then (elim next [
      | ok w' ↦ (ok true, record s { app_write = some w' })
      | err e ↦ (err e, s)
      | panic ↦ (panic, s)
    ])
    else (ok false, s)

pub maybe_update_write_eq :
    (nss : Nss) (s : CryptoStates) (w r n : CryptoDxAppData)
    → Synced s w r n
    → maybe_update_write nss s ≡ moved_by s w r (AppData.next nss w)
unfolding maybe_update_write
maybe_update_write_eq nss s w r n y = ground (arith, y.has_write, y.has_read)

ahead-Synced :
    (nss : Nss) (s : CryptoStates) (w w' r n : CryptoDxAppData)
    → Synced s w r n
    → w.dx.epoch ≡ r.dx.epoch
    → AppData.next nss w ≡ ok w'
    → Synced (record s { app_write = some w' }) w' r n × (w'.dx.epoch ≡ r.dx.epoch + 1)
unfolding has_0rtt_read
ahead-Synced nss s w w' r n y same e =
    let step = next_lem nss w w' e in
    let grown : w'.dx.epoch ≡ r.dx.epoch + 1 =
      ground (arith, step.5, step.6, y.next_epoch, y.small) in
    (
      record {
        has_write = refl;
        has_read = y.has_read;
        has_next = y.has_next;
        write_epoch = inr grown;
        next_epoch = y.next_epoch;
        small = y.small;
        waits = inr (inr grown);
      },
      grown,
    )

-- When it succeeds the write keys are one phase ahead.
pub maybe_update_write-Synced :
    (nss : Nss) (s s' : CryptoStates) (w r n : CryptoDxAppData) (moved : Bool)
    → Synced s w r n
    → maybe_update_write nss s ≡ (ok moved, s')
    → (w' : CryptoDxAppData) × Synced s' w' r n
      × (w'.dx.epoch ≡ r.dx.epoch + 1)
      × (s' ≡ record s { app_write = some w' })
maybe_update_write-Synced nss s s' w r n moved y e = elim (Bool-cases (w.dx.epoch == r.dx.epoch)) [
  | inl same ↦ go (AppData.next nss w) refl same (sym (maybe_update_write_eq nss s w r n y) ∙ e)
  | inr other ↦
      let stays : s' ≡ s = ground (arith, maybe_update_write_eq nss s w r n y) in
      let grown : w.dx.epoch ≡ r.dx.epoch + 1 = ground (arith, y.write_epoch) in
      (w, rw stays y, grown, ground (arith, stays, y.has_write))
]
  where
    go :
        (x : Res Error CryptoDxAppData)
        → AppData.next nss w ≡ x
        → (w.dx.epoch == r.dx.epoch) ≡ true
        → moved_by s w r x ≡ (ok moved, s')
        → (w' : CryptoDxAppData) × Synced s' w' r n
          × (w'.dx.epoch ≡ r.dx.epoch + 1)
          × (s' ≡ record s { app_write = some w' })
    go (ok w') q same f =
        let at : s' ≡ record s { app_write = some w' } = ground arith in
        let after = ahead-Synced nss s w w' r n y ((==_iff w.dx.epoch r.dx.epoch).0 same) q in
        (w', rw at after.0, after.1, at)
    go (err x) q same f = ground arith
    go panic q same f = ground arith

pub initiate_key_update_inv :
    (nss : Nss) (la : Option ℕ) (s s' : CryptoStates) (w : CryptoDxAppData)
    → s.app_write ≡ some w
    → initiate_key_update nss la s ≡ (ok tt, s')
    → (maybe_update_write nss s ≡ (ok true, s'))
      × (s.read_update_time ≡ none)
      × (can_update la w.dx ≡ true)
unfolding initiate_key_update
initiate_key_update_inv nss la s s' w h e = ground arith

pub auto_update_inv :
    (nss : Nss) (s s' : CryptoStates) (w : CryptoDxAppData)
    → s.app_write ≡ some w
    → auto_update nss s ≡ (ok tt, s')
    → ((should_update w.dx ≡ true) × (maybe_update_write nss s ≡ (ok true, s')))
      ⊎ ((should_update w.dx ≡ false) × (s' ≡ s))
unfolding auto_update
auto_update_inv nss s s' w h e = ground arith

pub key_update_received-Synced :
    (nss : Nss) (expiration : ℕ) (s s' : CryptoStates) (w r n : CryptoDxAppData)
    → Synced s w r n
    → key_update_received nss expiration s ≡ (ok tt, s')
    → (w' : CryptoDxAppData) × Synced s' w' r n
      × (w'.dx.epoch ≡ r.dx.epoch + 1)
      × (s'.read_update_time ≡ some expiration)
unfolding key_update_received
key_update_received-Synced nss expiration s s' w r n y e =
    let (moved, mid, first, rest) =
      >>=-eq-ok (λ _. modify (start_timer expiration)) (maybe_update_write nss) s e in
    let (w', after, grown, at) = maybe_update_write-Synced nss s mid w r n moved y first in
    let started : s' ≡ start_timer expiration mid = cc in
    (
      w',
      rw started (record {
        has_write = after.has_write;
        has_read = after.has_read;
        has_next = after.has_next;
        write_epoch = inr grown;
        next_epoch = after.next_epoch;
        small = after.small;
        waits = inr (inr grown);
      }),
      grown,
      rw started,
    )
