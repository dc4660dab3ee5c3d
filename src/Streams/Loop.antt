-- ===== src/Streams/Loop.antt =====
-- The loop of `write_frame`: what it writes, and that it ends.
use never_fox.Streams.Frames.{write_chunk-Extends, Extends, Extends-refl, Extends-trans}
use never_fox.Base.{
  ◌==◌, Bool-cases, Option-cases, length, take, drop, ok-injective, and_then-eq-ok, ok, ℕ, ◌+◌, ◌-◌,
  ◌/◌, ◌^◌, ◌≤◌, ◌<◌, ◌≡◌, refl, sym, subst, ◌∙◌, ◌⊎◌, inl, inr, Bool, true, false, Option, none,
  some, arith,
}
use never_fox.Types.{Range, Space}
use never_fox.Nss.{Bytes}
use never_fox.Streams.Buffers.{Wire, WireLaws, IsChunk, TxBuffer, TxLaws}
use never_fox.Streams.Chunks.{
  IsChunk-take, IsChunk-drop, limit_chunks_lem, write_chunk-some, write_chunk-none,
}
use never_fox.Streams.Write.{
  Chunk, limit_chunks, write_chunk, write_whole, write_sliced, write_data, div_ceil, mark_as_sent,
  Progress, mark_written, continue, Flow, break, write_round,
}

abbrev Outcome : Type 0
Outcome = Option (ℕ × ℕ) × Option (ℕ × ℕ)

-- What one round has written: one chunk of the stream, and perhaps another.
record Written {B : Type 0} (wire : Wire B) (stream : Bytes) (b : B) (w : Outcome) (b'' : B)
    : Type 0 where
  first : Chunk
  mid : B
  first_in : IsChunk stream first
  first_written : write_chunk wire first.0 first.1 b ≡ (w.0, mid)
  rest :
      ((w.1 ≡ none) × (b'' ≡ mid))
      ⊎ ((second : Chunk) × IsChunk stream second
          × (write_chunk wire second.0 second.1 mid ≡ (w.1, b'')))

module _ {B : Type 0} (wire : Wire B) (laws : WireLaws wire) where
  write_whole-Written :
      (stream : Bytes) (c : Chunk) (b b'' : B) (w : Outcome)
      → IsChunk stream c
      → write_whole wire c.0 c.1 b ≡ ok (w, b'')
      → Written wire stream b w b''
  unfolding write_whole
  write_whole-Written stream c b b'' w h e = record {
    first = c;
    mid = (write_chunk wire c.0 c.1 b).1;
    first_in = h;
    first_written = ground arith;
    rest = inl (ground arith, ground arith);
  }

  write_sliced-Written :
      (stream : Bytes) (c : Chunk) (sni : Range) (b b'' : B) (w : Outcome)
      → IsChunk stream c
      → wire.find_sni c.1 ≡ some sni
      → write_sliced wire c.0 c.1 sni b ≡ ok (w, b'')
      → Written wire stream b w b''
  unfolding write_sliced
  write_sliced-Written stream (offset, bytes) sni b b'' w h found e =
      let cut = sni.start + (sni.end - sni.start) / 2 in
      let inside = laws.sni_inside bytes sni found in
      let left : Chunk = (offset, take cut bytes) in
      let right : Chunk = (offset + cut, drop cut bytes) in
      let limit = length bytes / div_ceil (length bytes) (wire.limit b) in
      let chunks = limit_chunks left right limit in
      let good =
        limit_chunks_lem stream left right limit (IsChunk-take stream offset cut bytes h)
          (IsChunk-drop stream offset cut bytes (omega (arith, inside)) h) in
      record {
        first = chunks.1;
        mid = (write_chunk wire chunks.1.0 chunks.1.1 b).1;
        first_in = good.1;
        first_written = ground arith;
        rest = inr (chunks.0, good.0, ground arith);
      }

  -- Whatever a round writes are bytes of the stream.
  write_data-Written :
      (stream : Bytes) (slicing : Bool) (c : Chunk) (b b'' : B) (w : Outcome)
      → IsChunk stream c
      → write_data wire slicing c.0 c.1 b ≡ ok (w, b'')
      → Written wire stream b w b''
  unfolding write_data
  write_data-Written stream false (offset, bytes) b b'' w h e =
      write_whole-Written stream (offset, bytes) b b'' w h e
  write_data-Written stream true (offset, bytes) b b'' w h e = elim (Bool-cases (offset == 0)) [
    | inr later ↦ write_whole-Written stream (offset, bytes) b b'' w h (ground (arith, later))
    | inl start ↦ elim (Option-cases (wire.find_sni bytes)) [
      | inl no_name ↦
          write_whole-Written stream (offset, bytes) b b'' w h (ground (arith, start, no_name))
      | inr (sni, found) ↦
          write_sliced-Written stream (offset, bytes) sni b b'' w h found
            (ground (arith, start, found))
    ]
  ]

module _ {Tx B : Type 0} (txs : TxBuffer Tx) (wire : Wire B) (txlaws : TxLaws txs)
    (laws : WireLaws wire) (space : Space) where
  -- What a round has done: the packet grew by frames of the stream, and got fuller unless the loop
  -- ends here.
  abbrev pub Rounded : Progress Tx B → Flow × Progress Tx B → Type 0
  Rounded p (flow, q) =
      Extends txs wire txlaws laws space p q
      × ((flow ≡ break) ⊎ (wire.remaining q.builder < wire.remaining p.builder))

  one_write :
      (p : Progress Tx B) (c : Chunk) (b' : B) (w : ℕ × ℕ)
      → IsChunk (txlaws.stream p.tx) c
      → wire.remaining p.builder < 2 ^ 62
      → write_chunk wire c.0 c.1 p.builder ≡ (some w, b')
      → Rounded p (continue, mark_as_sent txs wire space w (record p { builder = b' }))
  unfolding mark_as_sent
  one_write p c b' (o, n) h small e = (
    write_chunk-Extends txs wire txlaws laws space p c b' o n h small e,
    inr (omega (arith, (write_chunk-some wire laws c.0 c.1 p.builder b' o n small e).3)),
  )

  marked_room :
      (p : Progress Tx B) (b' : B) (w : ℕ × ℕ)
      → wire.remaining (mark_as_sent txs wire space w (record p { builder = b' })).builder
        ≡ wire.remaining b'
  unfolding mark_as_sent
  marked_room p b' w = refl

  -- The second chunk of a round, after the first is marked.
  marked :
      (p : Progress Tx B) (b' b'' : B) (u v : ℕ × ℕ) (c : Chunk)
      → IsChunk (txlaws.stream p.tx) c
      → wire.remaining b' < 2 ^ 62
      → write_chunk wire c.0 c.1 b' ≡ (some v, b'')
      → let q : Progress Tx B = mark_as_sent txs wire space u (record p { builder = b' }) in
        txlaws.stream q.tx ≡ txlaws.stream p.tx
        → Extends txs wire txlaws laws space q (
            mark_as_sent txs wire space v
              (mark_as_sent txs wire space u (record p { builder = b'' })))
  unfolding mark_as_sent
  marked p b' b'' u v c inside small e same =
      (one_write (mark_as_sent txs wire space u (record p { builder = b' })) c b'' v
        (subst (λ t. IsChunk t c) (sym same) inside) small e).0

  mark_written-Rounded :
      (p : Progress Tx B) (w : Outcome) (b'' : B)
      → wire.remaining p.builder < 2 ^ 62
      → Written wire (txlaws.stream p.tx) p.builder w b''
      → Rounded p (mark_written txs wire space w (record p { builder = b'' }))
  unfolding mark_written
  mark_written-Rounded p (none, none) b'' small h =
      let stop : h.mid ≡ p.builder =
        write_chunk-none wire laws h.first.0 h.first.1 p.builder h.mid h.first_written in
      let same : b'' ≡ p.builder = elim h.rest [
        | inl (_, e) ↦ e ∙ stop
        | inr (c, _, e) ↦ write_chunk-none wire laws c.0 c.1 h.mid b'' e ∙ stop
      ] in
      (rw same (Extends-refl txs wire txlaws laws space p), inl refl)
  mark_written-Rounded p (none, some v) b'' small h =
      let stop : h.mid ≡ p.builder =
        write_chunk-none wire laws h.first.0 h.first.1 p.builder h.mid h.first_written in
      elim h.rest [
        | inl (clash, _) ↦ cc
        | inr (c, inside, e) ↦
            one_write p c b'' v inside small
              (subst (λ m. write_chunk wire c.0 c.1 m ≡ (some v, b'')) stop e)
      ]
  mark_written-Rounded p (some u, none) b'' small h =
      let same : b'' ≡ h.mid = elim h.rest [
        | inl (_, e) ↦ e
        | inr (c, _, e) ↦ write_chunk-none wire laws c.0 c.1 h.mid b'' e
      ] in
      rw same (one_write p h.first h.mid u h.first_in small h.first_written)
  mark_written-Rounded p (some u, some v) b'' small h = elim h.rest [
    | inl (clash, _) ↦ cc
    | inr (c, inside, e) ↦
        let q : Progress Tx B = mark_as_sent txs wire space u (record p { builder = h.mid }) in
        let (grown, room) = one_write p h.first h.mid u h.first_in small h.first_written in
        let less : wire.remaining h.mid ≤ wire.remaining p.builder =
          omega (arith, marked_room p h.mid u, grown.fitted) in
        let more = marked p h.mid b'' u v c inside (omega arith) e grown.same_stream in
        (Extends-trans txs wire txlaws laws space p q _ grown more, inl refl)
  ]

  pub write_round-Rounded :
      (slicing : Bool) (p : Progress Tx B) (r : Flow × Progress Tx B)
      → wire.remaining p.builder < 2 ^ 62
      → write_round txs wire space slicing p ≡ ok r
      → Rounded p r
  unfolding write_round
  write_round-Rounded slicing p r small e = elim (Option-cases (txs.next_bytes p.tx)) [
    | inl nothing ↦
        let stop : ◌≡◌ {A = Flow × Progress Tx B} (break, p) r = ground (arith, nothing) in
        subst (Rounded p) stop (Extends-refl txs wire txlaws laws space p, inl refl)
    | inr (c, there) ↦
        let (w, wrote, at) =
          and_then-eq-ok
            (λ (r : Outcome × B). ok (mark_written txs wire space r.0 (record p { builder = r.1 })))
            (write_data wire slicing c.0 c.1 p.builder) (ground (arith, there)) in
        subst (Rounded p) (ok-injective at) (
          mark_written-Rounded p w.0 w.1 small (
            write_data-Written wire laws (txlaws.stream p.tx) slicing c p.builder w.1 w.0
              (txlaws.next-IsChunk p.tx c there) wrote))
  ]
