-- ===== src/Dx/Limits.antt =====
-- How much one key protects: `limit`, `invoked`, `encrypt` and `decrypt` of `CryptoDxState`.
use never_fox.Base.{
  ltb, ltb→lt, Bool-cases, length, Method, ◌>>=◌, pure, >>=-eq-ok, ok, ℕ, ◌+◌, ◌-◌, ◌*◌, ◌%◌, ◌^◌,
  ◌≤◌, ◌<◌, ◌≡◌, refl, ap, subst, ◌∙◌, inl, inr, List, [], ◌∷◌, arith,
}
use never_fox.Types.{Version, Epoch, write, aes_128_gcm_sha256, Range, Error}
use never_fox.Types.Words.{
  bit_length, leading_zeros, shift_right, bit_length-le, bit_length_mono, lt_pow-bit_length,
  shift_right-scale, shift_right-le,
}
use never_fox.Nss.{Nss, Handle, Bytes}
use never_fox.Dx.{CryptoDxState, new, limit, invoked, used, adjust_limit, body_length, encrypt}

-- The least `k` for which packets of `n` bytes fit `2 ^ k`.
abbrev pub size_class : ℕ → ℕ
size_class n = bit_length 64 (n - 1)

-- What the key may still protect, in bytes: the uses left, each as large as the largest so far.
abbrev pub budget : CryptoDxState → ℕ
budget dx = dx.invocations * 2 ^ size_class dx.largest_packet_len

le_size_class : (n : ℕ) → 0 < n → n ≤ 2 ^ 64 → n ≤ 2 ^ size_class n
le_size_class n p h = omega (arith, lt_pow-bit_length 64 (n - 1) (omega arith))

-- The shift by which `adjust_limit` lowers the uses left, for a body larger than any before.
shift_amount :
    (l b : ℕ)
    → l ≤ b
    → ((leading_zeros (l - 1) + 2 ^ 32 - leading_zeros (b - 1)) % 2 ^ 32)
      ≡ size_class b - size_class l
unfolding leading_zeros
shift_amount l b h = omega (
  arith,
  bit_length_mono 64 (l - 1) (b - 1) (omega arith),
  bit_length-le 64 (l - 1),
  bit_length-le 64 (b - 1),
)

one-bit_length : bit_length 64 1 ≡ 1
unfolding bit_length
one-bit_length = refl

size_class_pos : (n : ℕ) → 1 < n → 0 < size_class n
size_class_pos n h = omega (arith, one-bit_length, bit_length_mono 64 1 (n - 1) (omega arith))

-- The shift makes up for the larger packets.
shift_keeps_budget :
    (x l b : ℕ)
    → 1 < l
    → l ≤ b
    → shift_right x ((leading_zeros (l - 1) + 2 ^ 32 - leading_zeros (b - 1)) % 2 ^ 32)
        * 2 ^ size_class b
      ≤ x * 2 ^ size_class l
shift_keeps_budget x l b p h = rw (shift_amount l b h) (
    subst (λ e. shift_right x (size_class b - size_class l) * 2 ^ e ≤ x * 2 ^ size_class l)
      (omega (arith, bit_length_mono 64 (l - 1) (b - 1) (omega arith)))
      (shift_right-scale x (size_class l) (size_class b - size_class l)
        (omega (arith, size_class_pos l p, bit_length-le 64 (b - 1)))))

-- A key state that has a packet size to go by.
abbrev pub IsSized : CryptoDxState → Type 0
IsSized dx = (1 < dx.largest_packet_len) × (dx.largest_packet_len < 2 ^ 64)

-- Making room for a larger packet never raises the budget, and then the body fits its size class.
adjust_limit-budget :
    (b : ℕ) (dx : CryptoDxState)
    → IsSized dx
    → b < 2 ^ 64
    → (budget (adjust_limit b dx) ≤ budget dx)
      × (b ≤ (adjust_limit b dx).largest_packet_len)
      × IsSized (adjust_limit b dx)
      × ((adjust_limit b dx).invocations ≤ dx.invocations)
unfolding adjust_limit
adjust_limit-budget b dx p h = elim (Bool-cases (ltb dx.largest_packet_len b)) [
  | inl more ↦ rw more (
    shift_keeps_budget dx.invocations dx.largest_packet_len b p.0 (omega (arith, ltb→lt _ _ more)),
    omega arith,
    omega (arith, ltb→lt _ _ more),
    shift_right-le dx.invocations _,
  )
  | inr less ↦ rw less (omega arith, ground arith, p, omega arith)
]

body_length-lt :
    (nss : Nss) (aead : Handle) (hdr : Range) (buf : Bytes) → body_length nss aead hdr buf < 2 ^ 64
unfolding body_length
body_length-lt nss aead hdr buf = omega arith

-- A packet that is sealed costs one use of the key, once room is made for its size.
encrypt_cost :
    (nss : Nss) (pn : ℕ) (hdr : Range) (buf : Bytes) (dx dx' : CryptoDxState) {r : ℕ × Bytes}
    → encrypt nss pn hdr buf dx ≡ (ok r, dx')
    → let sized = adjust_limit (body_length nss dx.aead hdr buf) dx in
      (dx'.invocations + 1 ≡ sized.invocations)
      × (dx'.largest_packet_len ≡ sized.largest_packet_len)
      × (dx'.aead ≡ sized.aead)
unfolding encrypt invoked used
encrypt_cost nss pn hdr buf dx dx' e = ground arith

adjust_limit-aead : (b : ℕ) (dx : CryptoDxState) → (adjust_limit b dx).aead ≡ dx.aead
unfolding adjust_limit
adjust_limit-aead b dx = ground arith

use_one : (i p b : ℕ) → b ≤ p → b + i * p ≤ (i + 1) * p
use_one i p b h = omega arith

-- One packet takes its body out of the budget, and one use.
encrypt-budget :
    (nss : Nss) (pn : ℕ) (hdr : Range) (buf : Bytes) (dx dx' : CryptoDxState) {r : ℕ × Bytes}
    → IsSized dx
    → encrypt nss pn hdr buf dx ≡ (ok r, dx')
    → (body_length nss dx.aead hdr buf + budget dx' ≤ budget dx)
      × (dx'.invocations + 1 ≤ dx.invocations)
      × IsSized dx'
      × (dx'.aead ≡ dx.aead)
encrypt-budget nss pn hdr buf dx dx' p e =
    let b = body_length nss dx.aead hdr buf in
    let s = adjust_limit b dx in
    let room = adjust_limit-budget b dx p (body_length-lt nss dx.aead hdr buf) in
    let cost = encrypt_cost nss pn hdr buf dx dx' e in
    let fits : b ≤ 2 ^ size_class s.largest_packet_len =
      omega (arith, room, le_size_class s.largest_packet_len) in
    (
      rw cost.1 (
          omega (
            arith,
            room.0,
            use_one dx'.invocations (2 ^ size_class s.largest_packet_len) b fits,
            ap (λ t. t * 2 ^ size_class s.largest_packet_len) cost.0,
          )),
      omega (arith, room.3),
      rw cost.1 room.2,
      cost.2 ∙ adjust_limit-aead b dx,
    )

pub record Packet : Type 0 where
  pub pn : ℕ
  pub hdr : Range
  pub buf : Bytes

-- A sender that seals packet after packet with one key, as long as that succeeds.
unfoldable pub encrypt_all : Nss → List Packet → Method CryptoDxState Error (Unit {0})
encrypt_all nss [] = pure tt
encrypt_all nss (p ∷ ps) = encrypt nss p.pn p.hdr p.buf >>= λ _. encrypt_all nss ps

-- The bodies of the packets, in bytes.
pub payload : Nss → Handle → List Packet → ℕ
payload nss aead [] = 0
payload nss aead (p ∷ ps) = body_length nss aead p.hdr p.buf + payload nss aead ps

-- However many packets are sealed with one key, their bodies fit its budget, and their number its
-- uses.
pub encrypt_all-budget :
    (nss : Nss) (ps : List Packet) (dx dx' : CryptoDxState)
    → IsSized dx
    → encrypt_all nss ps dx ≡ (ok tt, dx')
    → (payload nss dx.aead ps + budget dx' ≤ budget dx)
      × (length ps + dx'.invocations ≤ dx.invocations)
unfolding encrypt_all payload
encrypt_all-budget nss [] dx dx' p e = ground arith
encrypt_all-budget nss (q ∷ ps) dx dx' p e =
    let (r, mid, one, more) =
      >>=-eq-ok (λ _. encrypt_all nss ps) (encrypt nss q.pn q.hdr q.buf) dx e in
    let first = encrypt-budget nss q.pn q.hdr q.buf dx mid p one in
    let rest = encrypt_all-budget nss ps mid dx' first.2 more in
    let same : payload nss mid.aead ps ≡ payload nss dx.aead ps =
      ap (λ a. payload nss a ps) first.3 in
    (omega (arith, first, rest, same), omega (arith, first, rest))

initial_size_class : size_class 2048 ≡ 11
unfolding bit_length
initial_size_class = refl

new_write-budget :
    (nss : Nss) (version : Version) (epoch : Epoch) (secret : Handle) (min_pn : ℕ)
    (dx : CryptoDxState)
    → new nss version write epoch secret aes_128_gcm_sha256 min_pn ≡ ok dx
    → IsSized dx × (dx.invocations ≡ 2 ^ 28) × (budget dx ≡ 2 ^ 39)
unfolding new limit
new_write-budget nss version epoch secret min_pn dx made = ground (arith, initial_size_class)

-- A key made by `new` for sealing with AES-128-GCM seals at most 2^28 packets, one after another, and
-- their bodies have at most 2^39 bytes together.
pub new-encrypt_all :
    (nss : Nss) (version : Version) (epoch : Epoch) (secret : Handle) (min_pn : ℕ)
    (ps : List Packet) (dx dx' : CryptoDxState)
    → new nss version write epoch secret aes_128_gcm_sha256 min_pn ≡ ok dx
    → encrypt_all nss ps dx ≡ (ok tt, dx')
    → (length ps ≤ 2 ^ 28) × (payload nss dx.aead ps ≤ 2 ^ 39)
new-encrypt_all nss version epoch secret min_pn ps dx dx' made e =
    let fresh = new_write-budget nss version epoch secret min_pn dx made in
    let spent = encrypt_all-budget nss ps dx dx' fresh.0 e in
    (omega (arith, fresh, spent), omega (arith, fresh, spent))
