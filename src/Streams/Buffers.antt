-- ===== src/Streams/Buffers.antt =====
-- What crypto.rs uses of code that is not in the repository: `TxBuffer` (send_stream.rs),
-- `RxStreamOrderer` (recv_stream.rs), `packet::Builder`, `Encoder::varint_len` and `find_sni`.
-- The operations are parameters; the laws are stated apart, and taken by the theorems that need
-- them.
use never_fox.Base.{length, ℕ, ◌+◌, ◌-◌, ◌^◌, ◌≤◌, ◌<◌, ◌≡◌, Bool, Option, some, List, ◌∷◌, ◌++◌}
use never_fox.Types.{Range}
use never_fox.Nss.{Bytes}

pub record TxBuffer (Tx : Type 0) : Type 0 where
  pub send : Bytes → Tx → Tx
  -- the next range that is not marked as sent: its offset and its bytes
  pub next_bytes : Tx → Option (ℕ × Bytes)
  pub mark_as_sent : ℕ → ℕ → Tx → Tx
  pub mark_as_acked : ℕ → ℕ → Tx → Tx
  pub mark_as_lost : ℕ → ℕ → Tx → Tx
  pub unmark_sent : Tx → Tx
  pub is_empty : Tx → Bool

pub record RxStreamOrderer (Rx : Type 0) : Type 0 where
  pub inbound_frame : ℕ → Bytes → Rx → Rx
  pub received : Rx → ℕ
  pub retired : Rx → ℕ
  pub data_ready : Rx → Bool
  pub read_to_end : Rx → Bytes × Rx

-- `packet::Builder`, with the CRYPTO frames that it holds, and what else `write_frame` calls.
pub record Wire (B : Type 0) : Type 0 where
  pub remaining : B → ℕ
  pub limit : B → ℕ
  -- `encode_frame(FrameType::Crypto, …)`: offset and bytes
  pub encode_crypto : ℕ → Bytes → B → B
  pub frames : B → List (ℕ × Bytes)
  pub varint_len : ℕ → ℕ
  pub find_sni : Bytes → Option Range

-- Bytes that stand in a stream, from the offset on.
abbrev pub IsChunk : Bytes → ℕ × Bytes → Type 0
IsChunk stream (offset, bytes) =
    (before : Bytes) × (after : Bytes) × (stream ≡ before ++ (bytes ++ after))
    × (length before ≡ offset)

-- `next_bytes` gives bytes of the stream, and `mark_as_sent` does not change it.
pub record TxLaws {Tx : Type 0} (txs : TxBuffer Tx) : Type 0 where
  pub stream : Tx → Bytes
  pub next-IsChunk :
      (t : Tx) (chunk : ℕ × Bytes) → txs.next_bytes t ≡ some chunk → IsChunk (stream t) chunk
  pub next_nonempty :
      (t : Tx) (chunk : ℕ × Bytes) → txs.next_bytes t ≡ some chunk → 0 < length chunk.1
  pub sent_keeps : (offset n : ℕ) (t : Tx) → stream (txs.mark_as_sent offset n t) ≡ stream t

-- A frame takes a byte for its type, its offset and length as variable-length integers, and its
-- bytes; the lengths of these integers are those of RFC 9000, section 16.
pub record WireLaws {B : Type 0} (wire : Wire B) : Type 0 where
  pub encode_remaining :
      (offset : ℕ) (bytes : Bytes) (b : B)
      → wire.remaining (wire.encode_crypto offset bytes b)
        ≡ wire.remaining b
          - (1 + wire.varint_len offset + wire.varint_len (length bytes) + length bytes)
  pub encode_limit :
      (offset : ℕ) (bytes : Bytes) (b : B)
      → wire.limit (wire.encode_crypto offset bytes b) ≡ wire.limit b
  pub encode_frames :
      (offset : ℕ) (bytes : Bytes) (b : B)
      → wire.frames (wire.encode_crypto offset bytes b) ≡ (offset, bytes) ∷ wire.frames b
  pub varint_1 : (n : ℕ) → n < 64 → wire.varint_len n ≡ 1
  pub varint_2 : (n : ℕ) → 64 ≤ n → n < 16384 → wire.varint_len n ≡ 2
  pub varint_4 : (n : ℕ) → 16384 ≤ n → n < 2 ^ 30 → wire.varint_len n ≡ 4
  pub varint_8 : (n : ℕ) → 2 ^ 30 ≤ n → n < 2 ^ 62 → wire.varint_len n ≡ 8
  pub sni_inside :
      (b : Bytes) (r : Range) → wire.find_sni b ≡ some r → (r.start ≤ r.end) × (r.end ≤ length b)
