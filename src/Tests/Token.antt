-- ===== src/Tests/Token.antt =====
-- The theorem on resumption tokens, applied.
use never_fox.States.{no_keys}
use never_fox.Types.{version_1}
use never_fox.Crypto.{Crypto}
use never_fox.Socket.{Calls}
use never_fox.Crypto.Token.{CodecLaws, Decoder, read_token, create_resumption_token-read_token}
use never_fox.Crypto.Party.{create_resumption_token, Encoder, resumption_bytes}
use never_fox.Nss.{Bytes}
use never_fox.Tickets.{ResumptionToken, resumption_token}
use never_fox.Agent.Parties
use never_fox.Agent.Parties.{client}
use never_fox.Streams.{CryptoStreams}
use never_fox.Tests.Profile.{demo_party}
use never_fox.Tests.Buffers.{DemoTx, DemoRx}
use never_fox.Tests.Connection.{demo_stream}
use never_fox.Base.{
  length, take, drop, take-append_length, drop-append_length, ok, ℕ, ◌≡◌, refl, ap, Option, none,
  some, List, [], ◌∷◌, ◌++◌, arith,
}

-- A number is one element; bytes come after their length.
abbrev demo_encoder : Encoder
demo_encoder = record {
  uint = λ size n. n ∷ [];
  varint = λ n. n ∷ [];
  vvec = λ b. length b ∷ b;
  wire_version = λ v. 1;
}

abbrev read_number : Bytes → Option (ℕ × Bytes)
read_number [] = none
read_number (n ∷ rest) = some (n, rest)

abbrev read_bytes : Bytes → Option (Bytes × Bytes)
read_bytes [] = none
read_bytes (n ∷ rest) = some (take n rest, drop n rest)

abbrev demo_decoder : Decoder
demo_decoder = record {
  read_uint = λ size. read_number;
  read_varint = read_number;
  read_vvec = read_bytes;
}

demo_codec : CodecLaws demo_encoder demo_decoder
demo_codec = record {
  wire_version_fits = λ v. omega arith;
  uint-read = λ n rest h. refl;
  varint-read = λ n rest h. refl;
  vvec-read =
      λ b rest h. ap (λ p. some p) (rw (take-append_length b rest, drop-append_length b rest) refl);
}

abbrev ticketed : Parties.Client Calls
ticketed = record demo_party {
  resumption =
      record { token = 1 ∷ []; expiration_time = 5 }
      ∷ record { token = 2 ∷ 3 ∷ []; expiration_time = 6 }
      ∷ [];
}

abbrev holding : Parties.Client Calls → Crypto (Parties.Agent Calls) DemoTx DemoRx
holding k = record {
  version = version_1;
  protocols = [];
  tls = client k;
  streams = CryptoStreams.initial demo_stream demo_stream demo_stream;
  states = no_keys;
}

abbrev left : Parties.Client Calls
left = record demo_party { resumption = record { token = 1 ∷ []; expiration_time = 5 } ∷ [] }

abbrev made : ResumptionToken
made = record { token = 1 ∷ 30 ∷ 2 ∷ 8 ∷ 9 ∷ 0 ∷ 2 ∷ 3 ∷ []; expiration_time = 6 }

making :
    create_resumption_token demo_encoder none (8 ∷ 9 ∷ []) version_1 30 (holding ticketed)
    ≡ (ok (some made), holding left)
unfolding create_resumption_token resumption_bytes resumption_token
making = refl

create_resumption_token-read_token_example :
    (last : ResumptionToken) × (kept : List ResumptionToken) × (ticketed.resumption
      ≡ kept ++ (last ∷ []))
    × ((holding left).tls ≡ client (record ticketed { resumption = kept }))
    × (6 ≡ last.expiration_time)
    × (read_token demo_decoder made.token ≡ some (1, 30, 8 ∷ 9 ∷ [], [], last.token))
create_resumption_token-read_token_example =
    create_resumption_token-read_token demo_encoder demo_decoder demo_codec none (8 ∷ 9 ∷ [])
      version_1 30 (holding ticketed) (holding left) ticketed made (omega arith) (omega arith)
      (omega arith) refl making
