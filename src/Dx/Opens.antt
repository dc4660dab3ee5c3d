-- ===== src/Dx/Opens.antt =====
-- A packet through both ends: `encrypt` at the sender, `decrypt` at the receiver. The sender may
-- have packets before this one in its buffer; the receiver looks at the packet alone.
use never_fox.Dx.Reads.{decrypt-cases}
use never_fox.Base.{
  ltb, leb, ◌==◌, if◌then◌else◌, Bool-cases, length, take, drop, length-append, length-take,
  length-drop, take-append_length, drop-append_length, Res, and_then, ok-injective, and_then-eq-ok,
  ok, err, panic, ℕ, zero, suc, ◌+◌, ◌-◌, ◌≤◌, ◌≡◌, refl, sym, ap, subst, ◌∙◌, inl, inr, true,
  false, List, [], ◌∷◌, ◌++◌, arith,
}
use never_fox.Dx.{
  CryptoDxState, seal, open_body, slice, from_nss, decrypt, encrypt, Error, invoked, keys_exhausted,
  adjust_limit, packet_number_overlap, open_packet, used,
}
use never_fox.Nss.{Nss, Handle, Bytes, from_nss}
use never_fox.Types.{Range, Cipher, Mode, NssError, Error, keys_exhausted, packet_number_overlap}

-- What one cipher of NSS seals the other opens; the tag makes the text as long as the buffer.
pub record Opens (nss : Nss) (ke kd : Handle) : Type 0 where
  pub opens :
      (pn n : ℕ) (aad body sealed : Bytes)
      → nss.encrypt_in_place ke pn aad body ≡ ok (n, sealed)
      → (m : ℕ) × (plain : Bytes) × (nss.decrypt_in_place kd pn aad sealed ≡ ok (m, plain))
        × (m + nss.expansion ke ≡ length body)
        × (take m plain ≡ take m body)

-- Ciphers that are made of one secret, to encrypt and to decrypt, belong together.
pub record AeadLaws (nss : Nss) : Type 0 where
  pub pairs :
      (cipher : Cipher) (secret : Handle) (label : Bytes) (ke kd : Handle)
      → nss.aead_new cipher secret label Mode.encrypt ≡ ok ke
      → nss.aead_new cipher secret label Mode.decrypt ≡ ok kd
      → Opens nss ke kd

-- The header's range where the packet starts the buffer.
abbrev pub own_range : Range → Range
own_range hdr = record { start = 0; end = hdr.end - hdr.start }

slice_inv :
    (r : Range) (buf aad : Bytes)
    → slice r buf ≡ ok aad
    → (r.start ≤ r.end) × (r.end ≤ length buf) × (aad ≡ drop r.start (take r.end buf))
unfolding slice
slice_inv r buf aad e = ground arith

from_nss_inv : {A : Type 0} {a : A} (r : Res NssError A) → from_nss r ≡ ok a → r ≡ ok a
from_nss_inv (ok b) e = ground arith
from_nss_inv (err x) e = ground arith
from_nss_inv panic e = ground arith

seal_inv :
    (nss : Nss) (dx : CryptoDxState) (pn n : ℕ) (hdr : Range) (buf out : Bytes)
    → seal nss dx pn hdr buf ≡ ok (n, out)
    → (sealed : Bytes) × (hdr.start ≤ hdr.end)
      × (hdr.end ≤ length buf)
      × (nss.encrypt_in_place dx.aead pn (drop hdr.start (take hdr.end buf)) (drop hdr.end buf)
          ≡ ok (n, sealed))
      × (out ≡ take hdr.end buf ++ sealed)
unfolding seal
seal_inv nss dx pn n hdr buf out e =
    let (aad, cut, rest) =
      and_then-eq-ok
        (λ a.
          and_then (from_nss (nss.encrypt_in_place dx.aead pn a (drop hdr.end buf)))
            λ sealed. ok (sealed.0, take hdr.end buf ++ sealed.1))
        (slice hdr buf) e in
    let (le, within, at) = slice_inv hdr buf aad cut in
    let (made, sealing, last) =
      and_then-eq-ok (λ sealed. ok (sealed.0, take hdr.end buf ++ sealed.1))
        (from_nss (nss.encrypt_in_place dx.aead pn aad (drop hdr.end buf))) rest in
    let done : nss.encrypt_in_place dx.aead pn aad (drop hdr.end buf) ≡ ok made =
      from_nss_inv _ sealing in
    (
      made.1,
      le,
      within,
      subst (λ a. nss.encrypt_in_place dx.aead pn a (drop hdr.end buf) ≡ ok (n, made.1)) at
          (done ∙ ap (λ x. ok (x.0, made.1)) (ok-injective last)),
      ap (λ x. x.1) (sym (ok-injective last)),
    )

drop-append_left :
    {A : Type 0} (n : ℕ) (xs ys : List A) → n ≤ length xs → drop n (xs ++ ys) ≡ drop n xs ++ ys
drop-append_left zero xs ys h = refl
drop-append_left (suc n) [] ys h = ground arith
drop-append_left (suc n) (x ∷ xs) ys h = drop-append_left n xs ys (omega arith)

open_body_eq :
    (nss : Nss) (dx : CryptoDxState) (pn m : ℕ) (aad sealed plain : Bytes)
    → nss.decrypt_in_place dx.aead pn aad sealed ≡ ok (m, plain)
    → open_body nss dx pn (record { start = 0; end = length aad }) (aad ++ sealed)
      ≡ ok (m, aad ++ plain)
unfolding open_body slice
open_body_eq nss dx pn m aad sealed plain e =
    let within : leb (length aad) (length (aad ++ sealed)) ≡ true =
      ground (arith, length-append aad sealed) in
    let low : leb 0 (length aad) ≡ true = ground arith in
    rw low (
      rw within
        (rw (take-append_length aad sealed) (rw (drop-append_length aad sealed) (rw e refl))))

-- The header and the text of a packet that is opened.
abbrev pub header_of : Range → Bytes → Bytes
header_of hdr buf = drop hdr.start (take hdr.end buf)

-- What the sender seals, the receiver opens to the text that the sender had.
pub seal-open_body :
    (nss : Nss) (sender receiver : CryptoDxState) (pn n : ℕ) (hdr : Range) (buf out : Bytes)
    → Opens nss sender.aead receiver.aead
    → seal nss sender pn hdr buf ≡ ok (n, out)
    → (m : ℕ) × (plain : Bytes) × (open_body nss receiver pn (own_range hdr) (drop hdr.start out)
        ≡ ok (m, header_of hdr buf ++ plain))
      × (m + nss.expansion sender.aead ≡ length (drop hdr.end buf))
      × (take m plain ≡ take m (drop hdr.end buf))
seal-open_body nss sender receiver pn n hdr buf out laws e =
    let (sealed, le, within, made, at) = seal_inv nss sender pn n hdr buf out e in
    let (m, plain, opened, size, same) =
      laws.opens pn n (header_of hdr buf) (drop hdr.end buf) sealed made in
    let taken : length (take hdr.end buf) ≡ hdr.end = omega (arith, length-take hdr.end buf) in
    let long : length (header_of hdr buf) ≡ hdr.end - hdr.start =
      omega (arith, taken, length-drop hdr.start (take hdr.end buf)) in
    let cut : drop hdr.start out ≡ header_of hdr buf ++ sealed =
      ap (drop hdr.start) at
      ∙ drop-append_left hdr.start (take hdr.end buf) sealed (omega (arith, taken)) in
    (
      m,
      plain,
      subst (λ b. open_body nss receiver pn (own_range hdr) b ≡ ok (m, header_of hdr buf ++ plain))
          (sym cut)
          (subst
            (λ k.
              open_body nss receiver pn (record { start = 0; end = k })
                (header_of hdr buf ++ sealed)
              ≡ ok (m, header_of hdr buf ++ plain))
            long (open_body_eq nss receiver pn m (header_of hdr buf) sealed plain opened)),
      size,
      same,
    )

encrypt_inv :
    (nss : Nss) (pn : ℕ) (hdr : Range) (buf : Bytes) (dx dx' : CryptoDxState) (r : ℕ × Bytes)
    → encrypt nss pn hdr buf dx ≡ (ok r, dx')
    → seal nss dx pn hdr buf ≡ ok r
unfolding encrypt invoked seal adjust_limit used
encrypt_inv nss pn hdr buf dx dx' r e = ground arith

-- What `decrypt` returns for a packet that opens to `r`.
abbrev pub answer : {A : Type 0} → CryptoDxState → ℕ → A → Res Error A
answer dx pn r =
    if dx.invocations == 0
    then err keys_exhausted
    else if ltb pn dx.min_pn
    then err packet_number_overlap
    else ok r

used-answer :
    (pn : ℕ) (dx : CryptoDxState)
    → (used pn dx).0 ≡ (if ltb pn dx.min_pn then err packet_number_overlap else ok tt)
unfolding used
used-answer pn dx = ground arith

open_packet-answer :
    (nss : Nss) (pn : ℕ) (hdr : Range) (buf : Bytes) (dx : CryptoDxState) (r : ℕ × Bytes)
    → open_body nss dx pn hdr buf ≡ ok r
    → (open_packet nss pn hdr buf dx).0
      ≡ (if ltb pn dx.min_pn then err packet_number_overlap else ok r)
unfolding open_packet
open_packet-answer nss pn hdr buf dx r e = elim (Bool-cases (ltb pn dx.min_pn)) [
  | inl low ↦ ground (arith, e, used-answer pn dx)
  | inr high ↦ ground (arith, e, used-answer pn dx)
]

open_body-aead :
    (nss : Nss) (pn left : ℕ) (hdr : Range) (buf : Bytes) (dx : CryptoDxState)
    → open_body nss (record dx { invocations = left }) pn hdr buf ≡ open_body nss dx pn hdr buf
unfolding open_body
open_body-aead nss pn left hdr buf dx = refl

decrypt-answer :
    (nss : Nss) (pn : ℕ) (hdr : Range) (buf : Bytes) (dx : CryptoDxState) (r : ℕ × Bytes)
    → open_body nss dx pn hdr buf ≡ ok r
    → (decrypt nss pn hdr buf dx).0 ≡ answer dx pn r
decrypt-answer nss pn hdr buf dx r e = elim (decrypt-cases nss pn hdr buf dx) [
  | inl (zero_left, at) ↦ ground arith
  | inr (some_left, at) ↦
      let left : (dx.invocations == 0) ≡ false = ground arith in
      rw left (
        ap (λ x. x.0) at
        ∙ open_packet-answer nss pn hdr buf _ r
            (open_body-aead nss pn (dx.invocations - 1) hdr buf dx ∙ e))
]

-- When one key state seals a packet, one that holds the cipher for it opens the packet, once it is
-- cut out of the buffer: to the same header and the same text, unless no use is left or the packet
-- number is too low for it.
pub encrypt-decrypt :
    (nss : Nss) (sender sender' receiver : CryptoDxState) (pn n : ℕ) (hdr : Range) (buf out : Bytes)
    → Opens nss sender.aead receiver.aead
    → encrypt nss pn hdr buf sender ≡ (ok (n, out), sender')
    → (m : ℕ) × (plain : Bytes) × ((decrypt nss pn (own_range hdr) (drop hdr.start out) receiver).0
        ≡ answer receiver pn (m, header_of hdr buf ++ plain))
      × (m + nss.expansion sender.aead ≡ length (drop hdr.end buf))
      × (take m plain ≡ take m (drop hdr.end buf))
encrypt-decrypt nss sender sender' receiver pn n hdr buf out laws e =
    let (m, plain, opened, size, same) =
      seal-open_body nss sender receiver pn n hdr buf out laws
        (encrypt_inv nss pn hdr buf sender sender' (n, out) e) in
    (
      m,
      plain,
      decrypt-answer nss pn (own_range hdr) (drop hdr.start out) receiver _ opened,
      size,
      same,
    )
