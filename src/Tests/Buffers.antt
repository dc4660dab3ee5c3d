-- ===== src/Tests/Buffers.antt =====
-- Buffers and packets that satisfy the laws, and the theorems on streams applied to them.
use never_fox.Streams.Whole.{write_frame-Extends}
use never_fox.Streams.Frames.{Extends}
use never_fox.Types.{Range, Space}
use never_fox.Nss.{Bytes}
use never_fox.Streams.Write.{Progress, write_frame}
use never_fox.Streams.{get_stream, CryptoStreams, set_stream}
use never_fox.Streams.Buffers.{RxStreamOrderer, TxBuffer, TxLaws, Wire, WireLaws, IsChunk}
use mathlib.Core.List.{append-nil}
use never_fox.Base.{
  ltb, ◌==◌, if◌then◌else◌, ltb→lt, Bool-cases, length, take, drop, length-take, length-drop,
  take-append-drop, ok, ℕ, ◌+◌, ◌-◌, ◌^◌, ◌≤◌, ◌<◌, min, ◌≡◌, refl, sym, ap, ◌∙◌, inl, inr, true,
  none, some, List, [], ◌∷◌, ◌++◌, arith,
}

-- A buffer of which the first `sent` bytes are sent.
pub record DemoTx : Type 0 where
  pub stream : Bytes
  pub sent : ℕ

pub record DemoRx : Type 0 where
  pub stored : Bytes

abbrev pub demo_txs : TxBuffer DemoTx
demo_txs = record {
  send = λ bytes t. record { stream = t.stream ++ bytes; sent = t.sent };
  next_bytes =
      λ t. if ltb t.sent (length t.stream) then some (t.sent, drop t.sent t.stream) else none;
  mark_as_sent = λ offset n t. record { stream = t.stream; sent = offset + n };
  mark_as_acked = λ offset n t. t;
  mark_as_lost = λ offset n t. record { stream = t.stream; sent = min t.sent offset };
  unmark_sent = λ t. record { stream = t.stream; sent = 0 };
  is_empty = λ t. t.sent == length t.stream;
}

abbrev pub demo_rxs : RxStreamOrderer DemoRx
demo_rxs = record {
  inbound_frame = λ offset bytes r. record { stored = r.stored ++ bytes };
  received = λ r. length r.stored;
  retired = λ r. 0;
  data_ready = λ r. ltb 0 (length r.stored);
  read_to_end = λ r. (r.stored, record { stored = [] });
}

demo_chunk :
    (t : DemoTx) (chunk : ℕ × Bytes)
    → demo_txs.next_bytes t ≡ some chunk
    → (chunk ≡ (t.sent, drop t.sent t.stream)) × (t.sent < length t.stream)
demo_chunk t chunk e = elim (Bool-cases (ltb t.sent (length t.stream))) [
  | inl more ↦ (ground (arith, more), ltb→lt _ _ more)
  | inr less ↦ ground (arith, less)
]

drop-IsChunk : (n : ℕ) (xs : Bytes) → n < length xs → IsChunk xs (n, drop n xs)
drop-IsChunk n xs h = (
  take n xs,
  [],
  sym (ap (λ t. take n xs ++ t) (append-nil (drop n xs)) ∙ take-append-drop n xs),
  omega (arith, length-take n xs),
)

demo_TxLaws : TxLaws demo_txs
demo_TxLaws = record {
  stream = λ t. t.stream;
  next-IsChunk =
      λ t chunk e. let at = demo_chunk t chunk e in rw (at.0) (drop-IsChunk t.sent t.stream at.1);
  next_nonempty = λ t chunk e.
      let at = demo_chunk t chunk e in rw (at.0) (omega (arith, at.1, length-drop t.sent t.stream));
  sent_keeps = λ offset n t. refl;
}

record DemoBuilder : Type 0 where
  pub room : ℕ
  pub limit : ℕ
  pub held : List (ℕ × Bytes)

abbrev demo_varint_len : ℕ → ℕ
demo_varint_len n =
    if ltb n 64 then 1 else if ltb n 16384 then 2 else if ltb n (2 ^ 30) then 4 else 8

abbrev demo_wire : Wire DemoBuilder
demo_wire = record {
  remaining = λ b. b.room;
  limit = λ b. b.limit;
  encode_crypto = λ offset bytes b. record {
    room = b.room - (1 + demo_varint_len offset + demo_varint_len (length bytes) + length bytes);
    limit = b.limit;
    held = (offset, bytes) ∷ b.held;
  };
  frames = λ b. b.held;
  varint_len = demo_varint_len;
  find_sni = λ bytes. if ltb 3 (length bytes) then some (record { start = 1; end = 3 }) else none;
}

demo_sni :
    (b : Bytes) (r : Range) → demo_wire.find_sni b ≡ some r → (r.start ≤ r.end) × (r.end ≤ length b)
demo_sni b r e = ground arith

demo_WireLaws : WireLaws demo_wire
demo_WireLaws = record {
  encode_remaining = λ offset bytes b. refl;
  encode_limit = λ offset bytes b. refl;
  encode_frames = λ offset bytes b. refl;
  varint_1 = λ n h. ground arith;
  varint_2 = λ n h k. ground arith;
  varint_4 = λ n h k. ground arith;
  varint_8 = λ n h k. ground arith;
  sni_inside = demo_sni;
}

abbrev bytes : Bytes
bytes = 1 ∷ 2 ∷ 3 ∷ 4 ∷ 5 ∷ 6 ∷ []

abbrev sending : CryptoStreams DemoTx DemoRx
sending =
    CryptoStreams.handshake
      (record { tx = record { stream = bytes; sent = 0 }; rx = record { stored = [] } })
      (record { tx = record { stream = []; sent = 0 }; rx = record { stored = [] } })

there :
    get_stream Space.handshake sending
    ≡ some (record { tx = record { stream = bytes; sent = 0 }; rx = record { stored = [] } })
unfolding get_stream
there = refl

write_frame-Extends_example :
    (q : Progress DemoTx DemoBuilder) × (write_frame demo_txs demo_wire Space.handshake true sending
        (record { room = 20; limit = 4; held = [] })
        []
        0
      ≡ some (
          ok (
            set_stream Space.handshake (record { tx = q.tx; rx = record { stored = [] } }) sending,
            q.builder,
            q.tokens,
            q.crypto,
          )))
    × Extends demo_txs demo_wire demo_TxLaws demo_WireLaws Space.handshake
        (record {
          tx = record { stream = bytes; sent = 0 };
          builder = record { room = 20; limit = 4; held = [] };
          tokens = [];
          crypto = 0;
        })
        q
write_frame-Extends_example =
    write_frame-Extends demo_txs demo_wire demo_TxLaws demo_WireLaws Space.handshake true sending
      (record { tx = record { stream = bytes; sent = 0 }; rx = record { stored = [] } })
      (record { room = 20; limit = 4; held = [] }) [] 0 there (omega arith) (omega arith)
