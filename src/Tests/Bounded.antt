-- ===== src/Tests/Bounded.antt =====
-- The theorem on what a connection holds of the handshake, applied.
use never_fox.Types.{Space, crypto_buffer_exceeded}
use never_fox.Streams.Buffers.{RxStreamOrderer}
use never_fox.Streams.Bounded.{RxLaws, IsBounded, Run-IsBounded, next, here, receives, reads}
use never_fox.Tests.Buffers.{DemoTx, demo_txs}
use never_fox.Base.{ltb, length, ok, err, ℕ, ◌+◌, ◌-◌, ◌^◌, min, max, ◌≡◌, refl, [], ◌∷◌, arith}
use never_fox.Streams.{
  handshake, CryptoStream, CryptoStreams, read_to_end, inbound_frame, get_stream, set_stream,
}

-- A receiver that counts: the end of what has come, and of what was read.
record Counter : Type 0 where
  pub come : ℕ
  pub given : ℕ

abbrev come_of : Counter → ℕ
come_of r = min r.come (2 ^ 64 - 1)

abbrev counting : RxStreamOrderer Counter
counting = record {
  inbound_frame =
      λ offset bytes r. record { come = max r.come (offset + length bytes); given = r.given };
  received = come_of;
  retired = λ r. min r.given (come_of r);
  data_ready = λ r. ltb r.given r.come;
  read_to_end = λ r. ([], record { come = r.come; given = r.come });
}

counting_laws : RxLaws counting
counting_laws = record {
  retired_received = λ r. omega arith;
  received_fits = λ r. omega arith;
  read_keeps = λ r. omega arith;
}

abbrev stream : ℕ → ℕ → CryptoStream DemoTx Counter
stream come given = record {
  tx = record { stream = []; sent = 0 };
  rx = record { come = come; given = given };
}

abbrev begun : CryptoStreams DemoTx Counter
begun = handshake (stream 0 0) (stream 0 0)

abbrev full : CryptoStreams DemoTx Counter
full = handshake (stream 65536 0) (stream 0 0)

abbrev emptied : CryptoStreams DemoTx Counter
emptied = handshake (stream 65536 65536) (stream 0 0)

filling : inbound_frame demo_txs counting Space.handshake 65535 (7 ∷ []) begun ≡ (ok tt, full)
unfolding inbound_frame get_stream set_stream
filling = refl

-- One byte more is refused.
overfull :
    inbound_frame demo_txs counting Space.handshake 65536 (7 ∷ []) full
    ≡ (err crypto_buffer_exceeded, handshake (stream 65537 0) (stream 0 0))
unfolding inbound_frame get_stream set_stream
overfull = refl

emptying : read_to_end demo_txs counting Space.handshake full ≡ (ok [], emptied)
unfolding read_to_end get_stream set_stream
emptying = refl

Run-IsBounded_example : IsBounded demo_txs counting emptied
Run-IsBounded_example =
    Run-IsBounded demo_txs counting counting_laws
      (next (next here (receives Space.handshake 65535 (7 ∷ []) filling))
        (reads Space.handshake [] emptying))
      (omega arith, omega arith)
