-- ===== src/Streams/Write.antt =====
-- `write_frame` of `CryptoStreams`, with its inner functions. Lists that grow, of frames and of
-- tokens, have their newest entry first.
use never_fox.Base.{
  ltb, leb, ◌==◌, if◌then◌else◌, map_option, length, take, drop, Res, and_then, ok, err, panic, ℕ,
  zero, suc, ◌+◌, ◌-◌, ◌/◌, ◌%◌, min, Bool, ◌&&◌, ◌||◌, Option, none, some, List, ◌∷◌,
}
use never_fox.Types.{Space, Range, Error}
use never_fox.Nss.{Bytes}
use never_fox.Streams.{CryptoStreams, CryptoRecoveryToken, get_stream, set_stream}
use never_fox.Streams.Buffers.{TxBuffer, Wire}

-- Bytes of a stream, from an offset on.
abbrev pub Chunk : Type 0
Chunk = ℕ × Bytes

-- `limit_chunks`
unfoldable pub limit_chunks : Chunk → Chunk → ℕ → Chunk × Chunk
limit_chunks (left_offset, left) (right_offset, right) limit =
    if leb (length left + length right) limit
    then ((left_offset, left), (right_offset, right))
    else if leb (length left) limit
    then (
      (left_offset, left),
      (
        right_offset + (length right + length left - limit),
        drop (length right + length left - limit) right,
      ),
    )
    else if leb (length right) limit
    then ((left_offset, take (limit - length right) left), (right_offset, right))
    else ((left_offset, take (limit / 2) left), (right_offset, take (limit / 2) right))

-- `usize::div_ceil`
abbrev pub div_ceil : ℕ → ℕ → ℕ
div_ceil a b = if a % b == 0 then a / b else a / b + 1

-- What `write_frame` changes: the buffer, the packet, the tokens, and `stats.crypto`.
pub record Progress (Tx B : Type 0) : Type 0 where
  pub tx : Tx
  pub builder : B
  pub tokens : List CryptoRecoveryToken
  pub crypto : ℕ

-- How the loop goes on after a round.
pub data Flow : Type 0 where
  continue break : Flow

module _ {B : Type 0} (wire : Wire B) where
  -- The bytes that fit a frame: first the length is taken to need one byte, then as many as it does.
  unfoldable pub chunk_length : ℕ → ℕ → ℕ → ℕ
  chunk_length header_len available room =
      let length = min available (room - header_len) in
      min available (room - (header_len + (wire.varint_len length - 1)))

  -- `write_chunk`: the offset and length written, and the packet.
  unfoldable pub write_chunk : ℕ → Bytes → B → Option (ℕ × ℕ) × B
  write_chunk offset bytes b =
      let header_len = 1 + wire.varint_len offset + 1 in
      if ltb (wire.remaining b) (header_len + 1)
      then (none, b)
      else let n = chunk_length header_len (length bytes) (wire.remaining b) in
        (some (offset, n), wire.encode_crypto offset (take n bytes) b)

  -- The packet filled with one chunk, or with both halves of the server name, the second first.
  unfoldable pub write_whole : ℕ → Bytes → B → Res Error ((Option (ℕ × ℕ) × Option (ℕ × ℕ)) × B)
  write_whole offset bytes b = let (w, b') = write_chunk offset bytes b in ok ((w, none), b')

  unfoldable pub write_sliced :
      ℕ → Bytes → Range → B → Res Error ((Option (ℕ × ℕ) × Option (ℕ × ℕ)) × B)
  write_sliced offset bytes sni b =
      let mid = sni.start + (sni.end - sni.start) / 2 in
      let packets_needed = div_ceil (length bytes) (wire.limit b) in
      if ltb (length bytes) mid || (wire.limit b == 0 || packets_needed == 0)
      then panic
      else let (left, right) =
          limit_chunks (offset, take mid bytes) (offset + mid, drop mid bytes)
            (length bytes / packets_needed) in
        let (w, b') = write_chunk right.0 right.1 b in
        let (v, b'') = write_chunk left.0 left.1 b' in ok ((w, v), b'')

  -- What one round of the loop writes.
  unfoldable pub write_data :
      Bool → ℕ → Bytes → B → Res Error ((Option (ℕ × ℕ) × Option (ℕ × ℕ)) × B)
  write_data sni_slicing offset bytes b =
      if sni_slicing && offset == 0
      then (elim (wire.find_sni bytes) [
        | some sni ↦ write_sliced offset bytes sni b
        | none ↦ write_whole offset bytes b
      ])
      else write_whole offset bytes b

module _ {Tx B : Type 0} (txs : TxBuffer Tx) (wire : Wire B) (space : Space) where
  -- `mark_as_sent`
  unfoldable pub mark_as_sent : ℕ × ℕ → Progress Tx B → Progress Tx B
  mark_as_sent (offset, n) p = record p {
    tx = txs.mark_as_sent offset n p.tx;
    tokens = record { space = space; offset = offset; length = n } ∷ p.tokens;
    crypto = p.crypto + 1;
  }

  -- The `match written` of the loop.
  unfoldable pub mark_written :
      Option (ℕ × ℕ) × Option (ℕ × ℕ) → Progress Tx B → Flow × Progress Tx B
  mark_written (none, none) p = (break, p)
  mark_written (none, some w) p = (continue, mark_as_sent w p)
  mark_written (some w, none) p = (continue, mark_as_sent w p)
  mark_written (some w, some v) p = (break, mark_as_sent v (mark_as_sent w p))

  -- One round; no bytes to send end the loop.
  unfoldable pub write_round : Bool → Progress Tx B → Res Error (Flow × Progress Tx B)
  write_round sni_slicing p = elim (txs.next_bytes p.tx) [
    | none ↦ ok (break, p)
    | some (offset, bytes) ↦
        and_then (write_data wire sni_slicing offset bytes p.builder)
          λ r. ok (mark_written r.0 (record p { builder = r.1 }))
  ]

  -- The loop, on fuel; `none` is fuel that ran out.
  unfoldable pub write_loop : ℕ → Bool → Progress Tx B → Option (Res Error (Progress Tx B))
  write_loop zero sni_slicing p = none
  write_loop (suc fuel) sni_slicing p = elim (write_round sni_slicing p) [
    | err e ↦ some (err e)
    | panic ↦ some panic
    | ok (flow, q) ↦ elim flow [ break ↦ some (ok q) | continue ↦ write_loop fuel sni_slicing q ]
  ]

-- The stream after `write_frame`, in its place.
module _ {Tx Rx B : Type 0} (txs : TxBuffer Tx) (wire : Wire B) where
  -- `write_frame`: nothing is written in a space that has no stream.
  unfoldable pub write_frame :
      Space
      → Bool
      → CryptoStreams Tx Rx
      → B
      → List CryptoRecoveryToken
      → ℕ
      → Option (Res Error (CryptoStreams Tx Rx × B × List CryptoRecoveryToken × ℕ))
  write_frame space sni_slicing s b tokens crypto = elim (get_stream space s) [
    | none ↦ some (ok (s, b, tokens, crypto))
    | some c ↦
        let start : Progress Tx B = record {
          tx = c.tx;
          builder = b;
          tokens = tokens;
          crypto = crypto;
        } in
        map_option
          (λ r.
            and_then r
              λ p. ok (set_stream space (record c { tx = p.tx }) s, p.builder, p.tokens, p.crypto))
          (write_loop txs wire space (wire.remaining b + 1) sni_slicing start)
  ]
