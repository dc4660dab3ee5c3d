-- ===== src/Streams/Frames.antt =====
-- What the loop of `write_frame` adds to a packet.
use mathlib.Core.List.{append_assoc, map-append}
use never_fox.Base.{
  length, take, length-append, All, ℕ, ◌+◌, ◌^◌, ◌<◌, ◌≡◌, refl, sym, subst, ◌∙◌, some, List, [],
  ◌∷◌, ◌++◌, map, arith,
}
use never_fox.Types.{Space}
use never_fox.Streams.{CryptoRecoveryToken}
use never_fox.Streams.Buffers.{TxBuffer, Wire, TxLaws, WireLaws, IsChunk}
use never_fox.Streams.Chunks.{IsChunk-take, write_chunk-some}
use never_fox.Streams.Write.{Chunk, Progress, write_chunk, mark_as_sent}

-- The room that frames take in a packet.
pub frames_size : (ℕ → ℕ) → List Chunk → ℕ
frames_size varint_len [] = 0
frames_size varint_len ((offset, bytes) ∷ cs) =
    1 + varint_len offset + varint_len (length bytes) + length bytes + frames_size varint_len cs

-- The token of a frame.
abbrev pub token_of : Space → Chunk → CryptoRecoveryToken
token_of space c = record { space = space; offset = c.0; length = length c.1 }

All-append : {A : Type 0} (P : A → Type 0) (xs ys : List A) → All P xs → All P ys → All P (xs ++ ys)
All-append P [] ys hx hy = hy
All-append P (x ∷ xs) ys hx hy = (hx.0, All-append P xs ys hx.1 hy)

frames_size-append :
    (f : ℕ → ℕ) (xs ys : List Chunk)
    → frames_size f (xs ++ ys) ≡ frames_size f xs + frames_size f ys
unfolding frames_size
frames_size-append f [] ys = omega arith
frames_size-append f (x ∷ xs) ys = omega (arith, frames_size-append f xs ys)

module _ {Tx B : Type 0} (txs : TxBuffer Tx) (wire : Wire B) (txlaws : TxLaws txs)
    (laws : WireLaws wire) (space : Space) where
  -- From `p` to `q` the frames `added` went into the packet: bytes of the stream at their offsets,
  -- one token for each, and room for them all.
  pub record Extends (p q : Progress Tx B) : Type 0 where
    pub added : List Chunk
    pub in_stream : All (IsChunk (txlaws.stream p.tx)) added
    pub framed : wire.frames q.builder ≡ added ++ wire.frames p.builder
    pub tokened : q.tokens ≡ map (token_of space) added ++ p.tokens
    pub counted : q.crypto ≡ length added + p.crypto
    pub fitted :
        wire.remaining q.builder + frames_size wire.varint_len added ≡ wire.remaining p.builder
    pub same_stream : txlaws.stream q.tx ≡ txlaws.stream p.tx
    pub same_limit : wire.limit q.builder ≡ wire.limit p.builder

  pub Extends-refl : (p : Progress Tx B) → Extends p p
  unfolding frames_size
  Extends-refl p = record {
    added = [];
    in_stream = tt;
    framed = refl;
    tokened = refl;
    counted = omega arith;
    fitted = omega arith;
    same_stream = refl;
    same_limit = refl;
  }

  pub Extends-trans : (p q r : Progress Tx B) → Extends p q → Extends q r → Extends p r
  Extends-trans p q r d e = record {
    added = e.added ++ d.added;
    in_stream =
        All-append (IsChunk (txlaws.stream p.tx)) e.added d.added
          (subst (λ s. All (IsChunk s) e.added) d.same_stream e.in_stream) d.in_stream;
    framed = rw (e.framed, d.framed) (sym (append_assoc e.added d.added _));
    tokened =
        rw (e.tokened, d.tokened, map-append (token_of space) e.added d.added)
          (sym (append_assoc _ _ p.tokens));
    counted = omega (arith, d.counted, e.counted, length-append e.added d.added);
    fitted = omega (arith, d.fitted, e.fitted, frames_size-append wire.varint_len e.added d.added);
    same_stream = e.same_stream ∙ d.same_stream;
    same_limit = e.same_limit ∙ d.same_limit;
  }

  -- One frame, marked as sent.
  pub write_chunk-Extends :
      (p : Progress Tx B) (c : Chunk) (b' : B) (o n : ℕ)
      → IsChunk (txlaws.stream p.tx) c
      → wire.remaining p.builder < 2 ^ 62
      → write_chunk wire c.0 c.1 p.builder ≡ (some (o, n), b')
      → Extends p (mark_as_sent txs wire space (o, n) (record p { builder = b' }))
  unfolding mark_as_sent frames_size
  write_chunk-Extends p (offset, bytes) b' o n h small e =
      let (eo, len, framed, room, limit, _) =
        write_chunk-some wire laws offset bytes p.builder b' o n small e in
      record {
        added = (offset, take n bytes) ∷ [];
        in_stream = (IsChunk-take (txlaws.stream p.tx) offset n bytes h, tt);
        framed = framed;
        tokened = rw (eo, len) refl;
        counted = omega arith;
        fitted = rw len (omega (arith, room));
        same_stream = txlaws.sent_keeps o n p.tx;
        same_limit = limit;
      }
