-- ===== src/Streams/Whole.antt =====
-- `write_frame` as a whole.
use never_fox.Streams.{CryptoStreams, CryptoStream, CryptoRecoveryToken, get_stream, set_stream}
use native.Mathlib.Nat.{div-add-mod}
use never_fox.Base.{
  ltb, ◌==◌, Option-cases, length, is_ok, is_ok-eq, ok, ℕ, zero, suc, ◌+◌, ◌-◌, ◌/◌, ◌^◌, ◌≤◌, ◌<◌,
  ◌≡◌, refl, ap, inl, inr, Bool, true, false, ◌||◌, some, List, arith,
}
use never_fox.Types.{Space, Range}
use never_fox.Nss.{Bytes}
use never_fox.Streams.Buffers.{TxBuffer, Wire, TxLaws, WireLaws}
use never_fox.Streams.Write.{
  Progress, Flow, continue, break, write_whole, write_sliced, write_data, write_round, write_loop,
  div_ceil, mark_written, write_frame,
}
use never_fox.Streams.Frames.{Extends, Extends-trans}
use never_fox.Streams.Loop.{write_round-Rounded}

div_ceil_pos : (a b : ℕ) → 0 < a → 0 < b → 0 < div_ceil a b
div_ceil_pos a b p q = grind (arith, div-add-mod a b)

-- The divisions and the split of `write_sliced` do not panic.
calm : (a m l d : ℕ) → m ≤ a → 0 < l → 0 < d → (ltb a m || (l == 0 || d == 0)) ≡ false
calm a m l d h p q = ground arith

module _ {B : Type 0} (wire : Wire B) (laws : WireLaws wire) where
  write_sliced_ok :
      (offset : ℕ) (bytes : Bytes) (sni : Range) (b : B)
      → 0 < length bytes
      → 0 < wire.limit b
      → wire.find_sni bytes ≡ some sni
      → is_ok (write_sliced wire offset bytes sni b) ≡ true
  unfolding write_sliced
  write_sliced_ok offset bytes sni b some_bytes room found =
      let inside = laws.sni_inside bytes sni found in
      ground (
        arith,
        calm (length bytes) (sni.start + (sni.end - sni.start) / 2) (wire.limit b)
            (div_ceil (length bytes) (wire.limit b)) (omega (arith, inside)) room
            (div_ceil_pos (length bytes) (wire.limit b) some_bytes room),
      )

  write_data_ok :
      (slicing : Bool) (offset : ℕ) (bytes : Bytes) (b : B)
      → 0 < length bytes
      → 0 < wire.limit b
      → is_ok (write_data wire slicing offset bytes b) ≡ true
  unfolding write_data write_whole
  write_data_ok slicing offset bytes b some_bytes room = elim (Option-cases (wire.find_sni bytes)) [
    | inl no_name ↦ ground (arith, no_name)
    | inr (sni, found) ↦
        ground (arith, found, write_sliced_ok offset bytes sni b some_bytes room found)
  ]

module _ {Tx B : Type 0} (txs : TxBuffer Tx) (wire : Wire B) (txlaws : TxLaws txs)
    (laws : WireLaws wire) (space : Space) where
  write_round_ok :
      (slicing : Bool) (p : Progress Tx B)
      → 0 < wire.limit p.builder
      → (flow : Flow) × (q : Progress Tx B) × (write_round txs wire space slicing p ≡ ok (flow, q))
  unfolding write_round
  write_round_ok slicing p room = elim (Option-cases (txs.next_bytes p.tx)) [
    | inl nothing ↦ (break, p, ground (arith, nothing))
    | inr (c, there) ↦
        let (w, e) = is_ok-eq (write_data wire slicing c.0 c.1 p.builder) (
          write_data_ok wire laws slicing c.0 c.1 p.builder (txlaws.next_nonempty p.tx c there)
            room) in
        let after = mark_written txs wire space w.0 (record p { builder = w.1 }) in
        (after.0, after.1, ground (arith, there, e))
  ]

  -- With fuel for each byte of room, the loop ends well.
  write_loop-Extends :
      (fuel : ℕ) (slicing : Bool) (p : Progress Tx B)
      → wire.remaining p.builder < fuel
      → wire.remaining p.builder < 2 ^ 62
      → 0 < wire.limit p.builder
      → (q : Progress Tx B) × (write_loop txs wire space fuel slicing p ≡ some (ok q))
        × Extends txs wire txlaws laws space p q
  unfolding write_loop
  write_loop-Extends zero slicing p enough small room = absurd (omega arith)
  write_loop-Extends (suc fuel) slicing p enough small room =
      go (write_loop-Extends fuel slicing) (write_round_ok slicing p room)
    where
      go :
          ((q : Progress Tx B)
            → wire.remaining q.builder < fuel
            → wire.remaining q.builder < 2 ^ 62
            → 0 < wire.limit q.builder
            → (t : Progress Tx B) × (write_loop txs wire space fuel slicing q ≡ some (ok t))
              × Extends txs wire txlaws laws space q t)
          → (flow : Flow) × (q : Progress Tx B) × (write_round txs wire space slicing p
              ≡ ok (flow, q))
          → (q : Progress Tx B) × (write_loop txs wire space (suc fuel) slicing p ≡ some (ok q))
            × Extends txs wire txlaws laws space p q
      go rest (break, q, e) = (
        q,
        rw (e, write_loop) refl,
        (write_round-Rounded txs wire txlaws laws space slicing p (break, q) small e).0,
      )
      go rest (continue, q, e) =
          let (grown, less) =
            write_round-Rounded txs wire txlaws laws space slicing p (continue, q) small e in
          let fuller : wire.remaining q.builder < wire.remaining p.builder = ground (arith, less) in
          let (t, ends, more) =
            rest q (omega arith) (omega arith)
              (omega (arith, ap (λ (l : ℕ). l) grown.same_limit)) in
          (t, rw (e, write_loop) ends, Extends-trans txs wire txlaws laws space p q t grown more)

-- In a space that has a stream, with a packet limit that is not 0 and less than 2^62 bytes of room,
-- and buffers that keep their laws, `write_frame` ends without a panic. It has added frames to the
-- packet that hold bytes of the stream at their offsets, with one token and one count for each, and
-- they fit the room that there was.
pub write_frame-Extends :
    {Tx Rx B : Type 0} (txs : TxBuffer Tx) (wire : Wire B) (txlaws : TxLaws txs)
    (laws : WireLaws wire) (space : Space) (slicing : Bool) (s : CryptoStreams Tx Rx)
    (c : CryptoStream Tx Rx) (b : B) (tokens : List CryptoRecoveryToken) (crypto : ℕ)
    → get_stream space s ≡ some c
    → wire.remaining b < 2 ^ 62
    → 0 < wire.limit b
    → (q : Progress Tx B) × (write_frame txs wire space slicing s b tokens crypto
        ≡ some (ok (set_stream space (record c { tx = q.tx }) s, q.builder, q.tokens, q.crypto)))
      × Extends txs wire txlaws laws space
          (record { tx = c.tx; builder = b; tokens = tokens; crypto = crypto })
          q
unfolding write_frame
write_frame-Extends txs wire txlaws laws space slicing s c b tokens crypto h small room =
    let start : Progress _ _ = record {
      tx = c.tx;
      builder = b;
      tokens = tokens;
      crypto = crypto;
    } in
    let (q, ends, grown) =
      write_loop-Extends txs wire txlaws laws space (wire.remaining b + 1) slicing start
        (omega arith) small room in
    (q, rw (h, write_frame) (rw ends refl), grown)
