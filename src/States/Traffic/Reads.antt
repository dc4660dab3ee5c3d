-- ===== src/States/Traffic/Reads.antt =====
-- The uses of the read keys of a connection: each of the two that it holds has a count of its own.
use never_fox.Base.{
  Res, ◌>>◌, ok, err, panic, ◌≡◌, refl, sym, ◌∙◌, Bool, some, List, [], ◌∷◌, arith,
}
use never_fox.States.Traffic
use never_fox.States.Traffic.{put_key, step, run, opens, Error}
use never_fox.States.Traffic.Kept.{read-used}
use never_fox.States.Phase.{rx-reads}
use never_fox.States.Rotate.{rotate_read_eq, rotated}
use never_fox.States.Update.{rotate_read}
use never_fox.States.Sync.{Synced}
use never_fox.States.{CryptoStates, reads}
use never_fox.Dx.{key_phase, decrypt, next_invocations}
use never_fox.Dx
use never_fox.Dx.Limits.{Packet}
use never_fox.Dx.Same.{decrypt-SameKey}
use never_fox.AppData
use never_fox.AppData.{CryptoDxAppData}
use never_fox.AppData.Chain.{key_phase_epoch}
use never_fox.Nss.{Nss}
use never_fox.Types.{Version, read, Error}

-- Packets of one phase that are tried, one after another.
abbrev pub tries : Bool → List Packet → List Traffic.Event
tries phase [] = []
tries phase (p ∷ ps) = opens phase p ∷ tries phase ps

opens_reads :
    (nss : Nss) (version : Version) (phase : Bool) (p : Packet) (s : CryptoStates)
    (w r n : CryptoDxAppData)
    → Synced s w r n
    → phase ≡ key_phase r.dx
    → step nss version (opens phase p) s
      ≡ (ok tt, put_key reads (decrypt nss p.pn p.hdr p.buf r.dx).1 s)
unfolding step
opens_reads nss version phase p s w r n y same =
    rw (rx-reads version phase s w r n y same) (rw y.has_read refl)

run_cons :
    (nss : Nss) (version : Version) (e : Traffic.Event) (es : List Traffic.Event)
    (s mid : CryptoStates)
    → step nss version e s ≡ (ok tt, mid)
    → run nss version (e ∷ es) s ≡ run nss version es mid
unfolding run
run_cons nss version e es s mid h = ground (arith, h)

tries-Synced :
    (nss : Nss) (version : Version) (phase : Bool) (ps : List Packet) (s : CryptoStates)
    (w r n : CryptoDxAppData)
    → Synced s w r n
    → phase ≡ key_phase r.dx
    → (s' : CryptoStates) × (r' : CryptoDxAppData) × (run nss version (tries phase ps) s
        ≡ (ok tt, s'))
      × Synced s' w r' n
unfolding run
tries-Synced nss version phase [] s w r n y same = (s, r, refl, y)
tries-Synced nss version phase (p ∷ ps) s w r n y same =
    let dx' = (decrypt nss p.pn p.hdr p.buf r.dx).1 in
    let used = decrypt-SameKey nss p.pn p.hdr p.buf r.dx in
    let (s', r', rest, after) =
      tries-Synced nss version phase ps (put_key reads dx' s) w (record r { dx = dx' }) n
        (read-used s w r n y dx' used) (same ∙ key_phase_epoch r.dx dx' (sym used.same_epoch)) in
    (
      s',
      r',
      run_cons nss version (opens phase p) (tries phase ps) s (put_key reads dx' s)
            (opens_reads nss version phase p s w r n y same)
          ∙ rest,
      after,
    )

next-invocations :
    (nss : Nss) (n n' : CryptoDxAppData)
    → AppData.next nss n ≡ ok n'
    → n.dx.direction ≡ read
    → n'.dx.invocations ≡ n.dx.invocations
unfolding AppData.next Dx.next next_invocations
next-invocations nss n n' e d = ground arith

rotate_read_inv :
    (nss : Nss) (s s' : CryptoStates) (n : CryptoDxAppData)
    → s.app_read_next ≡ some n
    → rotate_read nss s ≡ (ok tt, s')
    → (n' : CryptoDxAppData) × (AppData.next nss n ≡ ok n')
      × (s' ≡ record s { app_read = some n; app_read_next = some n' })
rotate_read_inv nss s s' n there e =
    go (AppData.next nss n) refl (sym (rotate_read_eq nss s n there) ∙ e)
  where
    go :
        (x : Res Error CryptoDxAppData)
        → AppData.next nss n ≡ x
        → rotated s x ≡ (ok tt, s')
        → (n' : CryptoDxAppData) × (AppData.next nss n ≡ ok n')
          × (s' ≡ record s { app_read = some n; app_read_next = some n' })
    go (ok n') at f = (n', at, ground (arith, there))
    go (err x) at f = ground arith
    go panic at f = ground arith

-- On a connection whose application keys are in step, the attempts to open packets of the current
-- phase, however many and whatever comes of them, take nothing from the uses that the next read
-- keys have left: if the read keys then rotate, the new ones, and those that are made to follow
-- them, may be used as often as the next ones could before the attempts.
pub tries-rotate_read :
    (nss : Nss) (version : Version) (ps : List Packet) (s s' : CryptoStates)
    (w r n : CryptoDxAppData)
    → Synced s w r n
    → n.dx.direction ≡ read
    → (run nss version (tries (key_phase r.dx) ps) >> rotate_read nss) s ≡ (ok tt, s')
    → (s'.app_read ≡ some n)
      × (n' : CryptoDxAppData) × (s'.app_read_next ≡ some n')
      × (n'.dx.invocations ≡ n.dx.invocations)
tries-rotate_read nss version ps s s' w r n y d h =
    let (mid, r', tried, after) = tries-Synced nss version (key_phase r.dx) ps s w r n y refl in
    let (n', made, at) = rotate_read_inv nss mid s' n after.has_next (ground (arith, tried)) in
    (ground (arith, at), n', ground (arith, at), next-invocations nss n n' made d)
