-- ===== src/States/Retry.antt =====
-- Keys of Initial packets when they are made: `init` of States/Initial, also after a Retry.
use never_fox.Nss.{Nss, Bytes}
use never_fox.Base.{
  Bool-cases, ok, ℕ, ◌≤◌, ◌<◌, ◌≡◌, refl, sym, subst, ◌∙◌, ◌⊎◌, inl, inr, Bool, true, false, ◌||◌,
  Option, some, List, [], ◌∷◌, arith,
}
use never_fox.Dx.{new, empty_range, new_initial}
use never_fox.Types.{Version, Role, Direction, write, read, version_eq, version_eq_sound}
use never_fox.Dx.{CryptoDxState, next_pn, continuation}
use never_fox.States.{CryptoState, CryptoStates, initial_at, put_initial, Direction, read}
use never_fox.States.Initial.{
  first_pn, initial_keys, follow, init, initial_labels, init_each, follow_prev,
}
use never_fox.States.Versions.{initial_at-put_self, initial_at-put_ne}

-- A random first packet number lies between 1 and 1024, and passes 32 only if the second byte
-- passes 224.
pub first_pn_bounds :
    (r0 r1 : ℕ)
    → r0 < 256
    → r1 < 256
    → (1 ≤ first_pn (some (r0, r1)))
      × (first_pn (some (r0, r1)) ≤ 1024)
      × ((first_pn (some (r0, r1)) ≤ 32) ⊎ (224 < r1))
unfolding first_pn
first_pn_bounds r0 r1 h k = grind arith

-- The keys of Initial packets that `new_initial` makes have seen no packet.
new_initial-unused :
    (nss : Nss) (version : Version) (dir : Direction) (label dcid : Bytes) (pn : ℕ)
    (dx : CryptoDxState)
    → new_initial nss version dir label dcid pn ≡ ok dx
    → dx.used_pn ≡ empty_range pn
unfolding new_initial new
new_initial-unused nss version dir label dcid pn dx e = ground arith

initial_keys-unused :
    (nss : Nss) (version : Version) (role : Role) (dcid : Bytes) (pn : ℕ) (k : CryptoState)
    → initial_keys nss version role dcid pn ≡ ok k
    → (k.tx.used_pn ≡ empty_range pn) × (k.rx.used_pn ≡ empty_range 0)
unfolding initial_keys
initial_keys-unused nss version role dcid pn k e = ground (
  arith,
  new_initial-unused nss version write (initial_labels role).0 dcid pn k.tx,
  new_initial-unused nss version read (initial_labels role).1 dcid 0 k.rx,
)

follow_unused :
    (prev dx dx' : CryptoDxState) (pn : ℕ)
    → dx.used_pn ≡ empty_range pn
    → follow prev dx ≡ ok dx'
    → (dx'.min_pn ≡ next_pn prev) × (dx'.used_pn ≡ empty_range (next_pn prev))
unfolding follow continuation
follow_unused prev dx dx' pn h e = ground arith

step_inv :
    (nss : Nss) (v : Version) (vs : List Version) (role : Role) (dcid : Bytes) (pn : ℕ)
    (s s' : CryptoStates)
    → init_each nss (v ∷ vs) role dcid pn s ≡ (ok tt, s')
    → (fresh k : CryptoState) × (initial_keys nss v role dcid pn ≡ ok fresh)
      × (follow_prev (initial_at v s.initials) fresh ≡ ok k)
      × (init_each nss vs role dcid pn (put_initial v (some k) s) ≡ (ok tt, s'))
unfolding init_each
step_inv nss v vs role dcid pn s s' e = ground arith

follow_prev_inv :
    (prev fresh k : CryptoState)
    → follow_prev (some prev) fresh ≡ ok k
    → (follow prev.rx fresh.rx ≡ ok k.rx) × (follow prev.tx fresh.tx ≡ ok k.tx)
unfolding follow_prev
follow_prev_inv prev fresh k e = ground arith

-- Whether a version is in a list.
abbrev pub listed : Version → List Version → Bool
listed version [] = false
listed version (v ∷ vs) = version_eq v version || listed version vs

-- Keys that have seen no packet and go on at the next packet numbers of others.
abbrev pub GoesOn : CryptoState → CryptoState → Type 0
GoesOn prev k =
    (k.tx.min_pn ≡ next_pn prev.tx)
    × (k.tx.used_pn ≡ empty_range (next_pn prev.tx))
    × (k.rx.min_pn ≡ next_pn prev.rx)
    × (k.rx.used_pn ≡ empty_range (next_pn prev.rx))

GoesOn-trans : (a b c : CryptoState) → GoesOn a b → GoesOn b c → GoesOn a c
GoesOn-trans a b c h k = ground (arith, h, k)

follow_prev-GoesOn :
    (nss : Nss) (version : Version) (role : Role) (dcid : Bytes) (pn : ℕ)
    (prev fresh k : CryptoState)
    → initial_keys nss version role dcid pn ≡ ok fresh
    → follow_prev (some prev) fresh ≡ ok k
    → GoesOn prev k
follow_prev-GoesOn nss version role dcid pn prev fresh k made kept =
    let parts = follow_prev_inv prev fresh k kept in
    let unused = initial_keys-unused nss version role dcid pn fresh made in
    let rx = follow_unused prev.rx fresh.rx k.rx 0 unused.1 parts.0 in
    let tx = follow_unused prev.tx fresh.tx k.tx pn unused.0 parts.1 in (tx.0, tx.1, rx.0, rx.1)

-- The keys of a version, after the loop over a list of versions.
abbrev pub Renewed : Version → List Version → CryptoState → CryptoState → Type 0
Renewed version versions prev k =
    ((listed version versions ≡ false) × (k ≡ prev))
    ⊎ ((listed version versions ≡ true) × GoesOn prev k)

Renewed-same :
    (v version : Version) (vs : List Version) (prev mid k : CryptoState)
    → version_eq v version ≡ true
    → GoesOn prev mid
    → Renewed version vs mid k
    → Renewed version (v ∷ vs) prev k
Renewed-same v version vs prev mid k same first (inl (unlisted, at)) =
    inr (ground (arith, same), subst (GoesOn prev) (sym at) first)
Renewed-same v version vs prev mid k same first (inr (found, more)) =
    inr (ground (arith, same), GoesOn-trans prev mid k first more)

Renewed-other :
    (v version : Version) (vs : List Version) (prev k : CryptoState)
    → version_eq v version ≡ false
    → Renewed version vs prev k
    → Renewed version (v ∷ vs) prev k
Renewed-other v version vs prev k ne h = rw ne h

init_each-Renewed :
    (nss : Nss) (version : Version) (vs : List Version) (role : Role) (dcid : Bytes) (pn : ℕ)
    (s s' : CryptoStates) (prev : CryptoState)
    → initial_at version s.initials ≡ some prev
    → init_each nss vs role dcid pn s ≡ (ok tt, s')
    → (k : CryptoState) × (initial_at version s'.initials ≡ some k) × Renewed version vs prev k
unfolding init_each
init_each-Renewed nss version [] role dcid pn s s' prev h e =
    (prev, ground (arith, h, e), inl (refl, refl))
init_each-Renewed nss version (v ∷ vs) role dcid pn s s' prev h e =
    let (fresh, mid, made, kept, rest) = step_inv nss v vs role dcid pn s s' e in
    elim (Bool-cases (version_eq v version)) [
      | inl same ↦
          let here = version_eq_sound v version same in
          let (k, at, r) =
            init_each-Renewed nss version vs role dcid pn (put_initial v (some mid) s) s' mid
              (subst (λ u. initial_at u (put_initial v (some mid) s).initials ≡ some mid) here
                (initial_at-put_self v (some mid) s))
              rest in
          let old = subst (λ u. initial_at u s.initials ≡ some prev) (sym here) h in
          (
            k,
            at,
            Renewed-same v version vs prev mid k same
                (follow_prev-GoesOn nss v role dcid pn prev fresh mid made
                  (subst (λ o. follow_prev o fresh ≡ ok mid) old kept))
                r,
          )
      | inr ne ↦
          let (k, at, r) =
            init_each-Renewed nss version vs role dcid pn (put_initial v (some mid) s) s' prev
              (initial_at-put_ne v version (some mid) s ne ∙ h) rest in
          (k, at, Renewed-other v version vs prev k ne r)
    ]

-- When `init` succeeds on a list of versions, as after a Retry, the keys that a version had before
-- go on where they stopped if the version is in the list: in each direction the new ones have seen
-- no packet, and the old ones' next packet number is their next one and the least that they allow,
-- whatever the random first number. If it is not in the list, its keys are as they were.
pub init-Renewed :
    (nss : Nss) (version : Version) (versions : List Version) (role : Role) (dcid : Bytes)
    (random : Option (ℕ × ℕ)) (s s' : CryptoStates) (prev : CryptoState)
    → initial_at version s.initials ≡ some prev
    → init nss versions role dcid random s ≡ (ok tt, s')
    → (k : CryptoState) × (initial_at version s'.initials ≡ some k)
      × Renewed version versions prev k
unfolding init
init-Renewed nss version versions role dcid random s s' prev h e =
    init_each-Renewed nss version versions role dcid (first_pn random) s s' prev h e
