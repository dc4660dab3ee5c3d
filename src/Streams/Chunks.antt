-- ===== src/Streams/Chunks.antt =====
-- The pieces that `write_frame` cuts a stream into: `limit_chunks` and `write_chunk`.
use mathlib.Core.List.{append_assoc}
use never_fox.Base.{
  ltb, leb, leb→le, Bool-cases, length, take, drop, length-append, length-take, length-drop,
  take-append-drop, ℕ, ◌+◌, ◌-◌, ◌/◌, ◌^◌, ◌≤◌, ◌<◌, min, ◌≡◌, sym, ap, ◌∙◌, ◌⊎◌, inl, inr, none,
  some, ◌∷◌, ◌++◌, arith,
}
use never_fox.Nss.{Bytes}
use never_fox.Streams.Buffers.{Wire, WireLaws, IsChunk}
use never_fox.Streams.Write.{Chunk, limit_chunks, chunk_length, write_chunk}

pub IsChunk-take :
    (stream : Bytes) (offset k : ℕ) (b : Bytes)
    → IsChunk stream (offset, b)
    → IsChunk stream (offset, take k b)
IsChunk-take stream offset k b (p, q, e, l) = (
  p,
  drop k b ++ q,
  e
      ∙ ap (λ t. p ++ t)
          (ap (λ t. t ++ q) (sym (take-append-drop k b)) ∙ append_assoc (take k b) (drop k b) q),
  l,
)

pub IsChunk-drop :
    (stream : Bytes) (offset k : ℕ) (b : Bytes)
    → k ≤ length b
    → IsChunk stream (offset, b)
    → IsChunk stream (offset + k, drop k b)
IsChunk-drop stream offset k b h (p, q, e, l) = (
  p ++ take k b,
  q,
  e
      ∙ ap (λ t. p ++ (t ++ q)) (sym (take-append-drop k b))
      ∙ ap (λ t. p ++ t) (append_assoc (take k b) (drop k b) q)
      ∙ sym (append_assoc p (take k b) (drop k b ++ q)),
  omega (arith, length-append p (take k b), length-take k b),
)

-- Whatever the two halves and the limit, what is kept of them are bytes of the stream at their
-- offsets, and together no more than the limit.
pub limit_chunks_lem :
    (stream : Bytes) (left right : Chunk) (limit : ℕ)
    → IsChunk stream left
    → IsChunk stream right
    → let (l, r) = limit_chunks left right limit in
      IsChunk stream l × IsChunk stream r × (length l.1 + length r.1 ≤ limit)
unfolding limit_chunks
limit_chunks_lem stream (lo, left) (ro, right) limit hl hr =
    elim (Bool-cases (leb (length left + length right) limit)) [
      | inl fits ↦ rw fits (hl, hr, leb→le _ _ fits)
      | inr long ↦ elim (Bool-cases (leb (length left) limit)) [
        | inl short_left ↦
            rw (long, short_left)
              (
                hl,
                IsChunk-drop stream ro (length right + length left - limit) right
                    (omega (arith, leb→le _ _ short_left)) hr,
                omega (
                  arith,
                  length-drop (length right + length left - limit) right,
                  leb→le _ _ short_left,
                ),
              )
        | inr long_left ↦ elim (Bool-cases (leb (length right) limit)) [
          | inl short_right ↦
              rw (long, long_left, short_right)
                (
                  IsChunk-take stream lo (limit - length right) left hl,
                  hr,
                  omega (arith, length-take (limit - length right) left, leb→le _ _ short_right),
                )
          | inr long_right ↦
              rw (long, long_left, long_right)
                (
                  IsChunk-take stream lo (limit / 2) left hl,
                  IsChunk-take stream ro (limit / 2) right hr,
                  omega (arith, length-take (limit / 2) left, length-take (limit / 2) right),
                )
        ]
      ]
    ]

module _ {B : Type 0} (wire : Wire B) (laws : WireLaws wire) where
  varint_cases :
      (n : ℕ)
      → n < 2 ^ 62
      → ((n < 64) × (wire.varint_len n ≡ 1))
        ⊎ ((64 ≤ n) × (n < 16384) × (wire.varint_len n ≡ 2))
        ⊎ ((16384 ≤ n) × (n < 2 ^ 30) × (wire.varint_len n ≡ 4))
        ⊎ ((2 ^ 30 ≤ n) × (wire.varint_len n ≡ 8))
  varint_cases n h =
      ground (arith, laws.varint_1 n, laws.varint_2 n, laws.varint_4 n, laws.varint_8 n)

  -- The two steps find a length whose frame fits, and that is not 0 if there is something to send.
  chunk_length_lem :
      (header_len available room : ℕ)
      → header_len + 1 ≤ room
      → room < 2 ^ 62
      → let n = chunk_length wire header_len available room in
        (n ≤ available)
        × (header_len + wire.varint_len n + n ≤ room + 1)
        × ((available ≡ 0) ⊎ (0 < n))
  unfolding chunk_length
  chunk_length_lem h a r fits small =
      let first = min a (r - h) in
      let n = min a (r - (h + (wire.varint_len first - 1))) in
      let c = varint_cases first (omega arith) in
      let d = varint_cases n (omega arith) in
      (omega arith, omega (arith, c, d), omega (arith, c, d))

  -- What `write_chunk` has done when it has written something.
  pub write_chunk-some :
      (offset : ℕ) (bytes : Bytes) (b b' : B) (o n : ℕ)
      → wire.remaining b < 2 ^ 62
      → write_chunk wire offset bytes b ≡ (some (o, n), b')
      → (o ≡ offset)
        × (length (take n bytes) ≡ n)
        × (wire.frames b' ≡ (offset, take n bytes) ∷ wire.frames b)
        × (wire.remaining b' + (1 + wire.varint_len offset + wire.varint_len n + n)
            ≡ wire.remaining b)
        × (wire.limit b' ≡ wire.limit b)
        × ((length bytes ≡ 0) ⊎ (0 < n))
  unfolding write_chunk
  write_chunk-some offset bytes b b' o n small e =
      elim (Bool-cases (ltb (wire.remaining b) (1 + wire.varint_len offset + 1 + 1))) [
        | inl none_fits ↦ ground (arith, none_fits)
        | inr fits ↦
            let header_len = 1 + wire.varint_len offset + 1 in
            let m = chunk_length wire header_len (length bytes) (wire.remaining b) in
            let good =
              chunk_length_lem header_len (length bytes) (wire.remaining b) (ground arith) small in
            let len : length (take m bytes) ≡ m = omega (arith, length-take m bytes, good.0) in
            let at : b' ≡ wire.encode_crypto offset (take m bytes) b = ground (arith, fits) in
            let en : n ≡ m = ground (arith, fits) in
            let room = laws.encode_remaining offset (take m bytes) b in
            (
              ground (arith, fits),
              rw en len,
              rw (en, at) (laws.encode_frames offset (take m bytes) b),
              rw (en, at, room, len) (omega (arith, good.1)),
              rw at (laws.encode_limit offset (take m bytes) b),
              rw en good.2,
            )
      ]

  pub write_chunk-none :
      (offset : ℕ) (bytes : Bytes) (b b' : B)
      → write_chunk wire offset bytes b ≡ (none, b')
      → b' ≡ b
  unfolding write_chunk
  write_chunk-none offset bytes b b' e = ground arith
