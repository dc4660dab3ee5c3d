-- ===== src/States/Versions.antt =====
-- Keys of Initial packets across a change of version: `confirm_version` of States/Initial.
use never_fox.Base.{
  Option-cases, Res, is_ok, ok, err, panic, ◌≡◌, sym, subst, ◌∙◌, inl, inr, false, Option, none,
  some, arith,
}
use never_fox.Types.{Version, version_eq, Error, version_negotiation}
use never_fox.Dx.{CryptoDxState, next_pn, continuation}
use never_fox.States.{CryptoState, CryptoStates, initial_at, put_initial}
use never_fox.States.Initial.{confirm_version}

pub initial_at-put_self :
    (v : Version) (k : Option CryptoState) (s : CryptoStates)
    → initial_at v (put_initial v k s).initials ≡ k
initial_at-put_self v k s = ground arith

pub initial_at-put_ne :
    (v u : Version) (k : Option CryptoState) (s : CryptoStates)
    → version_eq v u ≡ false
    → initial_at u (put_initial v k s).initials ≡ initial_at u s.initials
initial_at-put_ne v u k s h = ground arith

-- `confirm_version` from there on, where the keys `prev` have been taken out.
abbrev confirmed_by :
    Version
    → Version
    → CryptoStates
    → CryptoState
    → Option CryptoState
    → Res Error (Unit {0}) × CryptoStates
confirmed_by orig confirmed s prev none = (err version_negotiation, put_initial orig none s)
confirmed_by orig confirmed s prev (some next) =
    let out = put_initial orig none s in
    let (r, rx') = continuation prev.rx next.rx in
    let (q, tx') = continuation prev.tx next.tx in
    let with_rx : CryptoStates = put_initial confirmed (some (record next { rx = rx' })) out in
    let with_both : CryptoStates =
      put_initial confirmed (some (record { tx = tx'; rx = rx' })) with_rx in
    elim r [
      | err e ↦ (err e, with_rx)
      | panic ↦ (panic, with_rx)
      | ok _ ↦ elim q [
        | err e ↦ (err e, with_both)
        | panic ↦ (panic, with_both)
        | ok _ ↦ (ok tt, put_initial orig (some prev) with_both)
      ]
    ]

confirm_version_eq :
    (orig confirmed : Version) (s : CryptoStates) (prev : CryptoState)
    → version_eq orig confirmed ≡ false
    → initial_at orig s.initials ≡ some prev
    → confirm_version orig confirmed s
      ≡ confirmed_by orig confirmed s prev (initial_at confirmed s.initials)
unfolding confirm_version
confirm_version_eq orig confirmed s prev ne h = ground (arith, ne, h)

continuation-min_pn : (prev dx : CryptoDxState) → (continuation prev dx).1.min_pn ≡ next_pn prev
unfolding continuation
continuation-min_pn prev dx = ground arith

abbrev followed : CryptoState → CryptoState → CryptoState
followed prev next = record {
  tx = (continuation prev.tx next.tx).1;
  rx = (continuation prev.rx next.rx).1;
}

abbrev both_followed : Version → Version → CryptoStates → CryptoState → CryptoState → CryptoStates
both_followed orig confirmed s prev next = put_initial confirmed (some (followed prev next)) (
    put_initial confirmed (some (record next { rx = (continuation prev.rx next.rx).1 }))
      (put_initial orig none s))

confirmed_by_ok :
    (orig confirmed : Version) (s s' : CryptoStates) (prev next : CryptoState)
    → confirmed_by orig confirmed s prev (some next) ≡ (ok tt, s')
    → s' ≡ put_initial orig (some prev) (both_followed orig confirmed s prev next)
confirmed_by_ok orig confirmed s s' prev next e = ground arith

confirmed_by_drops :
    (orig confirmed : Version) (s : CryptoStates) (prev : CryptoState) (o : Option CryptoState)
    → version_eq orig confirmed ≡ false
    → is_ok (confirmed_by orig confirmed s prev o).0 ≡ false
    → initial_at orig (confirmed_by orig confirmed s prev o).1.initials ≡ none
confirmed_by_drops orig confirmed s prev none ne e = initial_at-put_self orig none s
confirmed_by_drops orig confirmed s prev (some next) ne e = ground arith

-- When `confirm_version` succeeds, the keys of the old version are as they were, and those of the
-- new one take no packet number that the old ones might have used, in either direction.
pub confirm_version_continues :
    (orig confirmed : Version) (s s' : CryptoStates) (prev : CryptoState)
    → version_eq orig confirmed ≡ false
    → initial_at orig s.initials ≡ some prev
    → confirm_version orig confirmed s ≡ (ok tt, s')
    → (initial_at orig s'.initials ≡ some prev)
      × (next : CryptoState) × (initial_at confirmed s'.initials ≡ some next)
      × (next.rx.min_pn ≡ next_pn prev.rx)
      × (next.tx.min_pn ≡ next_pn prev.tx)
confirm_version_continues orig confirmed s s' prev ne h e =
    elim (Option-cases (initial_at confirmed s.initials)) [
      | inl missing ↦ ground (arith, confirm_version_eq orig confirmed s prev ne h, missing)
      | inr (next, there) ↦
          let u : CryptoStates =
            put_initial confirmed (some (record next { rx = (continuation prev.rx next.rx).1 }))
              (put_initial orig none s) in
          let t = both_followed orig confirmed s prev next in
          let at = confirmed_by_ok orig confirmed s s' prev next (
            subst (λ o. confirmed_by orig confirmed s prev o ≡ (ok tt, s')) there
              (sym (confirm_version_eq orig confirmed s prev ne h) ∙ e)) in
          let found = initial_at-put_ne orig confirmed (some prev) t ne in
          (
            rw at (initial_at-put_self orig (some prev) t),
            followed prev next,
            rw at (found ∙ initial_at-put_self confirmed (some (followed prev next)) u),
            continuation-min_pn prev.rx next.rx,
            continuation-min_pn prev.tx next.tx,
          )
    ]

-- When `confirm_version` to another version fails, it has dropped the keys of the old version.
pub confirm_version_drops :
    (orig confirmed : Version) (s : CryptoStates) (prev : CryptoState)
    → version_eq orig confirmed ≡ false
    → initial_at orig s.initials ≡ some prev
    → is_ok (confirm_version orig confirmed s).0 ≡ false
    → initial_at orig (confirm_version orig confirmed s).1.initials ≡ none
confirm_version_drops orig confirmed s prev ne h e =
    rw (confirm_version_eq orig confirmed s prev ne h) (
      confirmed_by_drops orig confirmed s prev (initial_at confirmed s.initials) ne
        (subst (λ x. is_ok x.0 ≡ false) (confirm_version_eq orig confirmed s prev ne h) e))
