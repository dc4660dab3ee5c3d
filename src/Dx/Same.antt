-- ===== src/Dx/Same.antt =====
-- What a key that is used stays: its version, direction, epoch, cipher and header protection.
use never_fox.Types.{Range, Error}
use never_fox.Nss.{Nss, Bytes}
use never_fox.Dx.{
  continuation, CryptoDxState, Range, used, Error, adjust_limit, invoked, Bytes, decrypt, encrypt,
  open_packet, body_length, seal, open_body,
}
use never_fox.Base.{
  Method, pure, modify, Keeps, ◌then_keeps◌, Keeps-same, Keeps-get, Keeps-lift, Keeps-put, ℕ, ◌≡◌,
  refl, ◌∙◌, arith,
}

pub record SameKey (dx dx' : CryptoDxState) : Type 0 where
  pub same_version : dx'.version ≡ dx.version
  pub same_direction : dx'.direction ≡ dx.direction
  pub same_epoch : dx'.epoch ≡ dx.epoch
  pub same_aead : dx'.aead ≡ dx.aead
  pub same_hpkey : dx'.hpkey ≡ dx.hpkey

SameKey-self : (dx : CryptoDxState) → SameKey dx dx
SameKey-self dx = record {
  same_version = refl;
  same_direction = refl;
  same_epoch = refl;
  same_aead = refl;
  same_hpkey = refl;
}

pub continuation-SameKey : (prev dx : CryptoDxState) → SameKey dx (continuation prev dx).1
unfolding continuation
continuation-SameKey prev dx = record {
  same_version = ground arith;
  same_direction = ground arith;
  same_epoch = ground arith;
  same_aead = ground arith;
  same_hpkey = ground arith;
}

module _ {dx : CryptoDxState} where
  stays :
      {R : Type 0} (m : Method CryptoDxState Error R)
      → ((k : CryptoDxState)
          → ((m k).1.version ≡ k.version)
            × ((m k).1.direction ≡ k.direction)
            × ((m k).1.epoch ≡ k.epoch)
            × ((m k).1.aead ≡ k.aead)
            × ((m k).1.hpkey ≡ k.hpkey))
      → Keeps (SameKey dx) m
  stays m same = record {
    kept = λ k h.
        let (v, d, e, a, hp) = same k in
        record {
          same_version = v ∙ h.same_version;
          same_direction = d ∙ h.same_direction;
          same_epoch = e ∙ h.same_epoch;
          same_aead = a ∙ h.same_aead;
          same_hpkey = hp ∙ h.same_hpkey;
        };
  }

  Keeps-invoked : Keeps (SameKey dx) invoked
  unfolding invoked
  Keeps-invoked = stays invoked (λ k. ground arith)

  Keeps-used : (pn : ℕ) → Keeps (SameKey dx) (used pn)
  unfolding used
  Keeps-used pn = stays (used pn) (λ k. ground arith)

  Keeps-adjust : (n : ℕ) → Keeps {E = Error} (SameKey dx) (modify (adjust_limit n))
  unfolding adjust_limit
  Keeps-adjust n = stays (modify (adjust_limit n)) (λ k. ground arith)

module _ (nss : Nss) (pn : ℕ) (hdr : Range) (buf : Bytes) where
  Keeps-encrypt : {dx : CryptoDxState} → Keeps (SameKey dx) (encrypt nss pn hdr buf)
  unfolding encrypt
  Keeps-encrypt = Keeps-get λ k h.
      Keeps-put (adjust_limit (body_length nss k.aead hdr buf) k)
        ((Keeps-adjust (body_length nss k.aead hdr buf)).kept k h)
      then_keeps λ _. Keeps-invoked then_keeps λ _. Keeps-get λ keyed _.
        Keeps-lift (seal nss keyed pn hdr buf)
          λ sealed _. Keeps-used pn then_keeps λ _. Keeps-same (pure sealed) (λ t. refl)

  Keeps-decrypt : {dx : CryptoDxState} → Keeps (SameKey dx) (decrypt nss pn hdr buf)
  unfolding decrypt open_packet
  Keeps-decrypt = Keeps-invoked then_keeps λ _. Keeps-get λ keyed _.
      Keeps-lift (open_body nss keyed pn hdr buf)
        λ opened _. Keeps-used pn then_keeps λ _. Keeps-same (pure opened) (λ t. refl)

  pub encrypt-SameKey : (dx : CryptoDxState) → SameKey dx (encrypt nss pn hdr buf dx).1
  encrypt-SameKey dx = Keeps-encrypt.kept dx (SameKey-self dx)

  pub decrypt-SameKey : (dx : CryptoDxState) → SameKey dx (decrypt nss pn hdr buf dx).1
  decrypt-SameKey dx = Keeps-decrypt.kept dx (SameKey-self dx)
