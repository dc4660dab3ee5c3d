-- ===== src/States/Rotate.antt =====
-- The other half of a key update: the read keys move on (`check_key_update`), and the packet numbers
-- of two phases are compared (`check_pn_overlap`).
use never_fox.Dx.{continuation, CryptoDxState}
use never_fox.Base.{
  Res, ok, err, panic, ℕ, ◌+◌, ◌≡◌, refl, sym, ◌∙◌, ◌≢◌, ◌⊎◌, inl, inr, false, none, some, arith,
}
use never_fox.Types.{Error}
use never_fox.Nss.{Nss}
use never_fox.AppData
use never_fox.AppData.{CryptoDxAppData}
use never_fox.States.Sync.{Synced, IsSynced}
use never_fox.AppData.Chain.{next_lem}
use never_fox.States.{CryptoStates, has_0rtt_read}
use never_fox.States.Update.{check_pn_overlap, check_key_update, rotate_read}

-- `rotate_read`, by the keys that would follow the next ones.
abbrev pub rotated : CryptoStates → Res Error CryptoDxAppData → Res Error (Unit {0}) × CryptoStates
rotated s (ok n') = (ok tt, record s { app_read = s.app_read_next; app_read_next = some n' })
rotated s (err e) = (err e, record s { app_read = s.app_read_next; app_read_next = s.app_read })
rotated s panic = (panic, record s { app_read = s.app_read_next; app_read_next = s.app_read })

pub rotate_read_eq :
    (nss : Nss) (s : CryptoStates) (n : CryptoDxAppData)
    → s.app_read_next ≡ some n
    → rotate_read nss s ≡ rotated s (AppData.next nss n)
unfolding rotate_read
rotate_read_eq nss s n h = ground arith

pub check_key_update_inv :
    (nss : Nss) (now : ℕ) (s s' : CryptoStates) (n : CryptoDxAppData)
    → s.app_read_next ≡ some n
    → check_key_update nss now s ≡ (ok tt, s')
    → (s' ≡ s)
      ⊎ (s' ≡ record s { zero_rtt = none; read_update_time = none })
      ⊎ ((has_0rtt_read s ≡ false)
          × (s.read_update_time ≢ none)
          × ((rotate_read nss s).0 ≡ ok tt)
          × (s' ≡ record (rotate_read nss s).1 { read_update_time = none }))
unfolding check_key_update
check_key_update_inv nss now s s' n h e = ground arith

untimed-Synced :
    (s : CryptoStates) (w r n : CryptoDxAppData)
    → Synced s w r n
    → Synced (record s { zero_rtt = none; read_update_time = none }) w r n
untimed-Synced s w r n y = record {
  has_write = y.has_write;
  has_read = y.has_read;
  has_next = y.has_next;
  write_epoch = y.write_epoch;
  next_epoch = y.next_epoch;
  small = y.small;
  waits = inl refl;
}

rotated-Synced :
    (nss : Nss) (s : CryptoStates) (w r n : CryptoDxAppData) (x : Res Error CryptoDxAppData)
    → Synced s w r n
    → w.dx.epoch ≡ r.dx.epoch + 1
    → AppData.next nss n ≡ x
    → rotate_read nss s ≡ rotated s x
    → (rotate_read nss s).0 ≡ ok tt
    → IsSynced (record (rotate_read nss s).1 { read_update_time = none })
rotated-Synced nss s w r n (ok n') y ahead q e went =
    let step = next_lem nss n n' q in
    (
      w,
      n,
      n',
      rw e (record {
        has_write = y.has_write;
        has_read = y.has_next;
        has_next = refl;
        write_epoch = inl (ahead ∙ sym y.next_epoch);
        next_epoch = ground (arith, step.5, step.6, y.small);
        small = ground (arith, step.5, step.6, y.small);
        waits = inl refl;
      }),
    )
rotated-Synced nss s w r n (err x) y ahead q e went = cc
rotated-Synced nss s w r n panic y ahead q e went = cc

pub check_key_update-Synced :
    (nss : Nss) (now : ℕ) (s s' : CryptoStates) (w r n : CryptoDxAppData)
    → Synced s w r n
    → check_key_update nss now s ≡ (ok tt, s')
    → IsSynced s'
check_key_update-Synced nss now s s' w r n y e =
    elim (check_key_update_inv nss now s s' n y.has_next e) [
      | inl same ↦ (w, r, n, rw same y)
      | inr (inl early_gone) ↦ (w, r, n, rw early_gone (untimed-Synced s w r n y))
      | inr (inr (no_early, timed, went, at)) ↦
          let ahead : w.dx.epoch ≡ r.dx.epoch + 1 = ground (arith, y.waits, no_early, timed) in
          rw at (
            rotated-Synced nss s w r n (AppData.next nss n) y ahead refl
              (rotate_read_eq nss s n y.has_next) went)
    ]

pub continuation-epoch : (prev dx : CryptoDxState) → (continuation prev dx).1.epoch ≡ dx.epoch
unfolding continuation
continuation-epoch prev dx = ground arith

check_pn_overlap_inv :
    (s s' : CryptoStates) (r n : CryptoDxAppData)
    → s.app_read ≡ some r
    → s.app_read_next ≡ some n
    → check_pn_overlap s ≡ (ok tt, s')
    → (s' ≡ s)
      ⊎ (((continuation r.dx n.dx).0 ≡ ok tt)
          × (s' ≡ record s { app_read_next = some (record n { dx = (continuation r.dx n.dx).1 }) }))
unfolding check_pn_overlap
check_pn_overlap_inv s s' r n hr hn e = ground arith

pub check_pn_overlap-Synced :
    (s s' : CryptoStates) (w r n : CryptoDxAppData)
    → Synced s w r n
    → check_pn_overlap s ≡ (ok tt, s')
    → (n' : CryptoDxAppData) × Synced s' w r n'
unfolding has_0rtt_read
check_pn_overlap-Synced s s' w r n y e =
    elim (check_pn_overlap_inv s s' r n y.has_read y.has_next e) [
      | inl same ↦ (n, rw same y)
      | inr (fine, at) ↦ (
        record n { dx = (continuation r.dx n.dx).1 },
        rw at (record {
          has_write = y.has_write;
          has_read = y.has_read;
          has_next = refl;
          write_epoch = y.write_epoch;
          next_epoch = continuation-epoch r.dx n.dx ∙ y.next_epoch;
          small = rw continuation-epoch y.small;
          waits = y.waits;
        }),
      )
    ]
