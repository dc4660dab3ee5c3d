-- ===== src/Dx/Uses.antt =====
-- The uses of a write key: what `encrypt` takes, whether or not it succeeds.
use never_fox.Base.{
  ltb, Bool-cases, is_ok, Method, ◌>>=◌, ◌>>◌, pure, lift, get, err, ℕ, ◌+◌, ◌-◌, ◌≤◌, ◌≡◌, ◌⊎◌,
  inl, inr, Bool, true, false, arith,
}
use never_fox.Dx.{CryptoDxState, encrypt, adjust_limit, used, seal, body_length}
use never_fox.Dx.Reads.{invoked-cases}
use never_fox.Nss.{Nss, Bytes}
use never_fox.Types.{Range, Error, keys_exhausted}
use never_fox.Types.Words.{shift_right-le}

abbrev pub one_if : Bool → ℕ
one_if true = 1
one_if false = 0

adjust_limit-invocations :
    (n : ℕ) (dx : CryptoDxState) → (adjust_limit n dx).invocations ≤ dx.invocations
unfolding adjust_limit
adjust_limit-invocations n dx = elim (Bool-cases (ltb dx.largest_packet_len n)) [
  | inl more ↦ rw more (shift_right-le dx.invocations _)
  | inr less ↦ rw less (omega arith)
]

-- What `encrypt` does once a use of the key is taken.
seal_packet : Nss → ℕ → Range → Bytes → Method CryptoDxState Error (ℕ × Bytes)
seal_packet nss pn hdr buf = do
  keyed ← get
  sealed ← lift (seal nss keyed pn hdr buf)
  used pn
  pure sealed

seal_packet-invocations :
    (nss : Nss) (pn : ℕ) (hdr : Range) (buf : Bytes) (dx : CryptoDxState)
    → (seal_packet nss pn hdr buf dx).1.invocations ≡ dx.invocations
unfolding seal_packet used
seal_packet-invocations nss pn hdr buf dx = ground arith

encrypt-cases :
    (nss : Nss) (pn : ℕ) (hdr : Range) (buf : Bytes) (dx : CryptoDxState)
    → let sized = adjust_limit (body_length nss dx.aead hdr buf) dx in
      ((sized.invocations ≡ 0) × (encrypt nss pn hdr buf dx ≡ (err keys_exhausted, sized)))
      ⊎ ((1 ≤ sized.invocations)
          × (encrypt nss pn hdr buf dx
              ≡ seal_packet nss pn hdr buf (record sized { invocations = sized.invocations - 1 })))
unfolding encrypt seal_packet
encrypt-cases nss pn hdr buf dx =
    elim (invoked-cases (adjust_limit (body_length nss dx.aead hdr buf) dx)) [
      | inl (zero_left, e) ↦ inl (zero_left, ground (arith, e))
      | inr (some_left, e) ↦ inr (some_left, ground (arith, e))
    ]

-- Sealing takes one use of the key if it succeeds, and at most one if it fails.
pub encrypt-invocations :
    (nss : Nss) (pn : ℕ) (hdr : Range) (buf : Bytes) (dx : CryptoDxState)
    → one_if (is_ok (encrypt nss pn hdr buf dx).0) + (encrypt nss pn hdr buf dx).1.invocations
      ≤ dx.invocations
encrypt-invocations nss pn hdr buf dx =
    let sized = adjust_limit (body_length nss dx.aead hdr buf) dx in
    let less = adjust_limit-invocations (body_length nss dx.aead hdr buf) dx in
    elim (encrypt-cases nss pn hdr buf dx) [
      | inl (zero_left, e) ↦ rw e (omega (arith, less))
      | inr (some_left, e) ↦ rw e (
          ground (
            arith,
            less,
            some_left,
            seal_packet-invocations nss pn hdr buf
                (record sized { invocations = sized.invocations - 1 }),
          ))
    ]
