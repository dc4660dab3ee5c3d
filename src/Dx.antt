-- ===== src/Dx.antt =====
-- `CryptoDxState` of neqo-transport/src/crypto.rs: the keys of one direction and epoch, with the
-- packet numbers they have seen and the uses they have left. A release build is modelled: its
-- `debug_assert!`s are not there, and u64 and usize arithmetic wraps. Logging is left out.
pub mod Numbers
pub mod Limits
pub mod Reads
pub mod Uses
pub mod Same
pub mod Opens
use never_fox.Base.{
  ltb, leb, ◌==◌, if◌then◌else◌, codes, length, take, drop, Res, and_then, Method, ◌>>=◌, ◌>>◌,
  pure, lift, get, put, ok, err, panic, ℕ, ◌+◌, ◌-◌, ◌%◌, ◌^◌, max, Bool, ◌&&◌, not, Option, none,
  some, ◌++◌,
}
use never_fox.Types.{
  Version, Epoch, epoch_number, Direction, read, write, mode_of, direction_eq, Cipher,
  aes_128_gcm_sha256, aes_256_gcm_sha384, chacha20_poly1305_sha256, other, Range, Error,
  packet_number_overlap, keys_exhausted,
}
use never_fox.Types.Words.{
  u64_max, wrapping_add, wrapping_sub, saturating_sub, leading_zeros, shift_right,
}
use never_fox.Nss.{Nss, Handle, Bytes, from_nss}

pub record CryptoDxState : Type 0 where
  pub version : Version
  pub direction : Direction
  pub epoch : ℕ
  pub aead : Handle
  pub hpkey : Handle
  pub used_pn : Range
  pub min_pn : ℕ
  pub invocations : ℕ
  pub largest_packet_len : ℕ

abbrev pub update_write_keys_at : ℕ
update_write_keys_at = 100

abbrev pub initial_largest_packet_len : ℕ
initial_largest_packet_len = 2048

-- `pn..pn`
abbrev pub empty_range : ℕ → Range
empty_range pn = record { start = pn; end = pn }

-- `limit`: the uses that a fresh key has; `unreachable!()` on a cipher that is not one of TLS 1.3.
unfoldable pub limit : Direction → Cipher → Res Error ℕ
limit read aes_128_gcm_sha256 = ok 0x10_0000_0000_0000
limit read aes_256_gcm_sha384 = ok u64_max
limit read chacha20_poly1305_sha256 = ok 0x10_0000_0000
limit read (other _) = panic
limit write aes_128_gcm_sha256 = ok 0x1000_0000
limit write aes_256_gcm_sha384 = ok 0x1000_0000
limit write chacha20_poly1305_sha256 = ok u64_max
limit write (other _) = panic

module _ (nss : Nss) where
  -- `CryptoDxState::new`
  unfoldable pub new : Version → Direction → Epoch → Handle → Cipher → ℕ → Res Error CryptoDxState
  new version direction epoch secret cipher min_pn =
      and_then
        (from_nss (nss.aead_new cipher secret (nss.label_prefix version) (mode_of direction)))
        λ aead.
          and_then
            (from_nss (nss.hp_extract cipher secret (nss.label_prefix version ++ codes "hp")))
            λ hpkey. and_then (limit direction cipher) λ invocations. ok (record {
              version = version;
              direction = direction;
              epoch = epoch_number epoch;
              aead = aead;
              hpkey = hpkey;
              used_pn = empty_range min_pn;
              min_pn = min_pn;
              invocations = invocations;
              largest_packet_len = initial_largest_packet_len;
            })

  -- `new_initial`: the keys of Initial packets follow from the version and the connection id.
  unfoldable pub new_initial : Version → Direction → Bytes → Bytes → ℕ → Res Error CryptoDxState
  new_initial version direction label dcid min_pn =
      let cipher = aes_128_gcm_sha256 in
      and_then (from_nss (nss.import_key (nss.initial_salt version))) λ salt.
        and_then (from_nss (nss.import_key dcid)) λ ikm.
          and_then (from_nss (nss.hkdf_extract cipher salt ikm)) λ initial_secret.
            and_then (from_nss (nss.expand_label cipher initial_secret label))
              λ secret. new version direction Epoch.initial secret cipher min_pn

-- `invoked`: one use of the key.
unfoldable pub invoked : Method CryptoDxState Error (Unit {0})
invoked dx =
    if dx.invocations == 0
    then (err keys_exhausted, dx)
    else (ok tt, record dx { invocations = dx.invocations - 1 })

unfoldable pub should_update : CryptoDxState → Bool
should_update dx = leb dx.invocations update_write_keys_at

-- `next_pn`
abbrev pub next_pn : CryptoDxState → ℕ
next_pn dx = dx.used_pn.end

-- The uses that the key after this one starts with: reads share one budget, writes get a new one.
unfoldable pub next_invocations : CryptoDxState → Cipher → Res Error ℕ
next_invocations dx cipher =
    if direction_eq dx.direction read then ok dx.invocations else limit write cipher

-- `CryptoDxState::next`
unfoldable pub next : Nss → CryptoDxState → Handle → Cipher → Res Error CryptoDxState
unfolding next_invocations
next nss dx next_secret cipher = and_then (next_invocations dx cipher) λ invocations.
    and_then
      (from_nss
        (nss.aead_new cipher next_secret (nss.label_prefix dx.version) (mode_of dx.direction)))
      λ aead. and_then (from_nss (nss.hp_clone dx.hpkey)) λ hpkey. ok (record {
        version = dx.version;
        direction = dx.direction;
        epoch = wrapping_add dx.epoch 1;
        aead = aead;
        hpkey = hpkey;
        used_pn = empty_range (next_pn dx);
        min_pn = next_pn dx;
        invocations = invocations;
        largest_packet_len = initial_largest_packet_len;
      })

-- `key_phase`: epoch 3 has phase 0, epoch 4 phase 1, and so on.
unfoldable pub key_phase : CryptoDxState → Bool
key_phase dx = not (dx.epoch % 2 == 1)

-- `continuation`: these keys follow those of `prev`, and may not have seen an older packet number.
unfoldable pub continuation : CryptoDxState → Method CryptoDxState Error (Unit {0})
continuation prev dx =
    let next = next_pn prev in
    let dx' : CryptoDxState = record dx { min_pn = next } in
    if not (ltb dx.used_pn.start dx.used_pn.end)
    then (ok tt, record dx' { used_pn = empty_range next })
    else if ltb dx.used_pn.start prev.used_pn.end
    then (err packet_number_overlap, dx')
    else (ok tt, record dx' { used_pn = record { start = next; end = dx.used_pn.end } })

-- `used`: a packet number was seen.
unfoldable pub used : ℕ → Method CryptoDxState Error (Unit {0})
used pn dx =
    if ltb pn dx.min_pn
    then (err packet_number_overlap, dx)
    else let start = if dx.used_pn.start == dx.used_pn.end then pn else dx.used_pn.start in
      (
        ok tt,
        record dx {
          used_pn = record { start = start; end = max (wrapping_add pn 1) dx.used_pn.end };
        },
      )

unfoldable pub needs_update : CryptoDxState → Bool
needs_update dx =
    wrapping_add dx.used_pn.start 1 == dx.used_pn.end
    && ltb (epoch_number Epoch.application_data) dx.epoch

-- `can_update`: `largest_acknowledged` was sent with these keys, or they are the first ones.
unfoldable pub can_update : Option ℕ → CryptoDxState → Bool
can_update none dx = dx.epoch == epoch_number Epoch.application_data
can_update (some la) dx = leb dx.used_pn.start la && ltb la dx.used_pn.end

unfoldable pub compute_mask : Nss → CryptoDxState → Bytes → Res Error Bytes
compute_mask nss dx sample = from_nss (nss.hp_mask dx.hpkey sample)

-- `Range<usize>::len`
abbrev pub range_length : Range → ℕ
range_length r = r.end - r.start

-- The body of a packet to be sealed, as `encrypt` measures it.
unfoldable pub body_length : Nss → Handle → Range → Bytes → ℕ
body_length nss aead hdr buf =
    wrapping_sub (wrapping_sub (length buf) (range_length hdr)) (nss.expansion aead)

-- The uses left shrink when a packet is larger than any before it.
unfoldable pub adjust_limit : ℕ → CryptoDxState → CryptoDxState
adjust_limit body_len dx =
    if ltb dx.largest_packet_len body_len
    then record dx {
      invocations = shift_right dx.invocations (
          (leading_zeros (dx.largest_packet_len - 1) + 2 ^ 32 - leading_zeros (body_len - 1))
          % 2 ^ 32);
      largest_packet_len = body_len;
    }
    else dx

-- The bytes of the buffer that the range selects; out of range is a panic.
unfoldable pub slice : Range → Bytes → Res Error Bytes
slice r buf =
    if leb r.start r.end && leb r.end (length buf)
    then ok (drop r.start (take r.end buf))
    else panic

-- What `encrypt` does to the buffer: only the packet's own header is authenticated.
unfoldable pub seal : Nss → CryptoDxState → ℕ → Range → Bytes → Res Error (ℕ × Bytes)
unfolding slice
seal nss dx pn hdr buf = and_then (slice hdr buf) λ aad.
    and_then (from_nss (nss.encrypt_in_place dx.aead pn aad (drop hdr.end buf)))
      λ sealed. ok (sealed.0, take hdr.end buf ++ sealed.1)

-- `encrypt`
unfoldable pub encrypt : Nss → ℕ → Range → Bytes → Method CryptoDxState Error (ℕ × Bytes)
encrypt nss pn hdr buf = do
  dx ← get
  put (adjust_limit (body_length nss dx.aead hdr buf) dx)
  invoked
  keyed ← get
  sealed ← lift (seal nss keyed pn hdr buf)
  used pn
  pure sealed

-- What `decrypt` does to the buffer: everything before the body is authenticated.
unfoldable pub open_body : Nss → CryptoDxState → ℕ → Range → Bytes → Res Error (ℕ × Bytes)
unfolding slice
open_body nss dx pn hdr buf = and_then (slice (record { start = 0; end = hdr.end }) buf) λ aad.
    and_then (from_nss (nss.decrypt_in_place dx.aead pn aad (drop hdr.end buf)))
      λ opened. ok (opened.0, aad ++ opened.1)

-- What `decrypt` does once a use of the key is taken.
unfoldable pub open_packet : Nss → ℕ → Range → Bytes → Method CryptoDxState Error (ℕ × Bytes)
open_packet nss pn hdr buf = do
  dx ← get
  opened ← lift (open_body nss dx pn hdr buf)
  used pn
  pure opened

-- `decrypt`
unfoldable pub decrypt : Nss → ℕ → Range → Bytes → Method CryptoDxState Error (ℕ × Bytes)
decrypt nss pn hdr buf = invoked >> open_packet nss pn hdr buf

-- `extra_padding`, for header protection samples of `sample_size` bytes
unfoldable pub extra_padding : Nss → ℕ → CryptoDxState → ℕ
extra_padding nss sample_size dx = saturating_sub sample_size (nss.expansion dx.aead)
