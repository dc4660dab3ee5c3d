-- ===== src/States/Traffic/Kept.antt =====
-- Packets among the key updates leave the phases of both sides in step.
use never_fox.Dx.{CryptoDxState, encrypt, decrypt}
use never_fox.Types.{Version}
use never_fox.Nss.{Nss}
use never_fox.AppData.{CryptoDxAppData}
use never_fox.Base.{
  >>=-eq-ok, ok, ◌+◌, ◌≡◌, refl, sym, ap, subst, ◌∙◌, inl, inr, some, List, [], ◌∷◌, arith,
}
use never_fox.States.Traffic.{
  put_key, step, run, updates, seals, opens, seals-cases, opens-cases, updates_eq,
}
use never_fox.States.Traffic
use never_fox.States.Run.{step-IsSynced}
use never_fox.States.Sync.{IsSynced, Synced}
use never_fox.Dx.Same.{SameKey, encrypt-SameKey, decrypt-SameKey}
use never_fox.States.{CryptoStates, has_0rtt_read, writes, reads, reads_next}

-- Keys of the same epochs are in step as those before.
replaced-Synced :
    (s s' : CryptoStates) (w r n w' r' n' : CryptoDxAppData)
    → Synced s w r n
    → s'.app_write ≡ some w'
    → s'.app_read ≡ some r'
    → s'.app_read_next ≡ some n'
    → w'.dx.epoch ≡ w.dx.epoch
    → r'.dx.epoch ≡ r.dx.epoch
    → n'.dx.epoch ≡ n.dx.epoch
    → s'.zero_rtt ≡ s.zero_rtt
    → s'.read_update_time ≡ s.read_update_time
    → Synced s' w' r' n'
unfolding has_0rtt_read
replaced-Synced s s' w r n w' r' n' y hw hr hn ew er en ez et = record {
  has_write = hw;
  has_read = hr;
  has_next = hn;
  write_epoch = ground (arith, y.write_epoch);
  next_epoch = en ∙ y.next_epoch ∙ ap (λ k. k + 1) (sym er);
  small = ground (arith, y.small);
  waits = ground (arith, y.waits);
}

module _ (s : CryptoStates) (w r n : CryptoDxAppData) (y : Synced s w r n)
    (dx' : CryptoDxState) where
  write-used : SameKey w.dx dx' → Synced (put_key writes dx' s) (record w { dx = dx' }) r n
  write-used same =
      replaced-Synced s (put_key writes dx' s) w r n (record w { dx = dx' }) r n y
        (rw y.has_write refl) y.has_read y.has_next same.same_epoch refl refl refl refl

  pub read-used : SameKey r.dx dx' → Synced (put_key reads dx' s) w (record r { dx = dx' }) n
  read-used same =
      replaced-Synced s (put_key reads dx' s) w r n w (record r { dx = dx' }) n y y.has_write
        (rw y.has_read refl) y.has_next refl same.same_epoch refl refl refl

  next-used : SameKey n.dx dx' → Synced (put_key reads_next dx' s) w r (record n { dx = dx' })
  next-used same =
      replaced-Synced s (put_key reads_next dx' s) w r n w r (record n { dx = dx' }) y y.has_write
        y.has_read (rw y.has_next refl) refl refl same.same_epoch refl refl

module _ (nss : Nss) (version : Version) where
  pub traffic-step-IsSynced :
      (e : Traffic.Event) (s s' : CryptoStates)
      → IsSynced s
      → step nss version e s ≡ (ok tt, s')
      → IsSynced s'
  traffic-step-IsSynced (updates e) s s' y h =
      step-IsSynced nss e s s' y (subst (λ f. f s ≡ (ok tt, s')) (updates_eq nss version e) h)
  traffic-step-IsSynced (seals p) s s' (w, r, n, y) h = elim (seals-cases nss version p s) [
    | inl same ↦ subst IsSynced (cc) (w, r, n, y)
    | inr (k, there, at) ↦ subst IsSynced (cc) (
      record w { dx = (encrypt nss p.pn p.hdr p.buf w.dx).1 },
      r,
      n,
      write-used s w r n y _ (encrypt-SameKey nss p.pn p.hdr p.buf w.dx),
    )
  ]
  traffic-step-IsSynced (opens phase p) s s' (w, r, n, y) h =
      elim (opens-cases nss version phase p s) [
        | inl same ↦ subst IsSynced (cc) (w, r, n, y)
        | inr (inl (k, there, at)) ↦ subst IsSynced (cc) (
          w,
          record r { dx = (decrypt nss p.pn p.hdr p.buf r.dx).1 },
          n,
          read-used s w r n y _ (decrypt-SameKey nss p.pn p.hdr p.buf r.dx),
        )
        | inr (inr (k, there, at)) ↦ subst IsSynced (cc) (
          w,
          r,
          record n { dx = (decrypt nss p.pn p.hdr p.buf n.dx).1 },
          next-used s w r n y _ (decrypt-SameKey nss p.pn p.hdr p.buf n.dx),
        )
      ]

  -- On a connection whose application keys are in step, after any history of key updates and of
  -- packets, sealed or tried, in which the updates succeed, they are so again: the write keys are in
  -- the phase of the read keys or in the one after it, the next read keys are in the one after it,
  -- and the timer runs for a key update only while the write keys are ahead.
  pub traffic-run-IsSynced :
      (es : List Traffic.Event) (s s' : CryptoStates)
      → IsSynced s
      → run nss version es s ≡ (ok tt, s')
      → IsSynced s'
  unfolding run
  traffic-run-IsSynced [] s s' y h = subst IsSynced (cc) y
  traffic-run-IsSynced (e ∷ es) s s' y h =
      let (_, mid, one, more) = >>=-eq-ok (λ _. run nss version es) (step nss version e) s h in
      traffic-run-IsSynced es mid s' (traffic-step-IsSynced e s mid y one) more
