-- ===== src/Dx/Reads.antt =====
-- The uses of a read key: `decrypt` and `next` of `CryptoDxState`.
use never_fox.Base.{
  ◌==◌, if◌then◌else◌, ==_iff, Bool-cases, Res, ok, err, panic, ℕ, ◌+◌, ◌-◌, ◌≤◌, ◌≡◌, refl, ◌∙◌,
  ◌⊎◌, inl, inr, Bool, true, false, List, [], ◌∷◌, arith,
}
use never_fox.Types.{read, Cipher, Range, Error, keys_exhausted}
use never_fox.Nss.{Nss, Handle, Bytes}
use never_fox.Dx.{CryptoDxState, invoked, used, open_body, open_packet, decrypt, next}
use never_fox.Dx.Limits.{Packet}

-- What happens to the keys that read: a packet is tried, or the next phase takes over.
pub data ReadStep : Type 0 where
  attempt : Packet → ReadStep
  rotate : Handle → ReadStep

abbrev is_exhausted : {A : Type 0} → Res Error A → Bool
is_exhausted (err keys_exhausted) = true
is_exhausted _ = false

-- The keys after a change of phase, which are those before it if it fails.
abbrev or_keep : CryptoDxState → Res Error CryptoDxState → CryptoDxState
or_keep dx (ok dx') = dx'
or_keep dx (err e) = dx
or_keep dx panic = dx

-- The attempts that reached the cipher, over any sequence of packets and changes of phase.
pub attempts : Nss → Cipher → List ReadStep → CryptoDxState → ℕ × CryptoDxState
attempts nss cipher [] dx = (0, dx)
attempts nss cipher (attempt p ∷ ss) dx =
    let (r, dx') = decrypt nss p.pn p.hdr p.buf dx in
    let (n, end) = attempts nss cipher ss dx' in ((if is_exhausted r then 0 else 1) + n, end)
attempts nss cipher (rotate secret ∷ ss) dx =
    attempts nss cipher ss (or_keep dx (next nss dx secret cipher))

open_packet-cost :
    (nss : Nss) (pn : ℕ) (hdr : Range) (buf : Bytes) (dx : CryptoDxState)
    → let (r, dx') = open_packet nss pn hdr buf dx in
      (is_exhausted r ≡ false) × (dx'.invocations ≡ dx.invocations) × (dx'.direction ≡ dx.direction)
unfolding open_packet used open_body
open_packet-cost nss pn hdr buf dx = ground arith

pub invoked-cases :
    (dx : CryptoDxState)
    → ((dx.invocations ≡ 0) × (invoked dx ≡ (err keys_exhausted, dx)))
      ⊎ ((1 ≤ dx.invocations)
          × (invoked dx ≡ (ok tt, record dx { invocations = dx.invocations - 1 })))
unfolding invoked
invoked-cases dx = elim (Bool-cases (dx.invocations == 0)) [
  | inl e ↦ inl (omega (arith, (==_iff dx.invocations 0).0 e), rw e)
  | inr e ↦ inr (ground arith, rw e)
]

pub decrypt-cases :
    (nss : Nss) (pn : ℕ) (hdr : Range) (buf : Bytes) (dx : CryptoDxState)
    → ((dx.invocations ≡ 0) × (decrypt nss pn hdr buf dx ≡ (err keys_exhausted, dx)))
      ⊎ ((1 ≤ dx.invocations)
          × (decrypt nss pn hdr buf dx
              ≡ open_packet nss pn hdr buf (record dx { invocations = dx.invocations - 1 })))
unfolding decrypt
decrypt-cases nss pn hdr buf dx = elim (invoked-cases dx) [
  | inl (zero_left, e) ↦ inl (zero_left, ground (arith, e))
  | inr (some_left, e) ↦ inr (some_left, ground (arith, e))
]

-- One attempt takes one use, unless none is left; also when the packet does not open.
decrypt-cost :
    (nss : Nss) (p : Packet) (dx : CryptoDxState)
    → let (r, dx') = decrypt nss p.pn p.hdr p.buf dx in
      ((if is_exhausted r then 0 else 1) + dx'.invocations ≡ dx.invocations)
      × (dx'.direction ≡ dx.direction)
decrypt-cost nss p dx = elim (decrypt-cases nss p.pn p.hdr p.buf dx) [
  | inl (zero_left, e) ↦ rw e (omega arith, refl)
  | inr (some_left, e) ↦
      let keyed : CryptoDxState = record dx { invocations = dx.invocations - 1 } in
      let cost = open_packet-cost nss p.pn p.hdr p.buf keyed in
      rw e (rw cost.0 (omega (arith, cost.1)), cost.2)
]

rotate-cost :
    (nss : Nss) (dx : CryptoDxState) (secret : Handle) (cipher : Cipher)
    → dx.direction ≡ read
    → let dx' = or_keep dx (next nss dx secret cipher) in
      (dx'.invocations ≡ dx.invocations) × (dx'.direction ≡ read)
unfolding next
rotate-cost nss dx secret cipher h = ground arith

-- When each read key is made of the one in use, all attempts to open packets, over all changes of
-- phase, count against the one limit of the first.
pub attempts-invocations :
    (nss : Nss) (cipher : Cipher) (ss : List ReadStep) (dx : CryptoDxState)
    → dx.direction ≡ read
    → let (n, end) = attempts nss cipher ss dx in n + end.invocations ≡ dx.invocations
unfolding attempts
attempts-invocations nss cipher [] dx h = ground arith
attempts-invocations nss cipher (attempt p ∷ ss) dx h =
    let one = decrypt-cost nss p dx in
    omega (
      arith,
      one,
      attempts-invocations nss cipher ss (decrypt nss p.pn p.hdr p.buf dx).1 (one.1 ∙ h),
    )
attempts-invocations nss cipher (rotate secret ∷ ss) dx h =
    let one = rotate-cost nss dx secret cipher h in
    attempts-invocations nss cipher ss _ one.1 ∙ one.0
