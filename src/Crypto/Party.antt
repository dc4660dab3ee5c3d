-- ===== src/Crypto/Party.antt =====
-- The methods of `Crypto` that pass on to its client or server, and to its streams, and the
-- resumption token that it makes from a ticket. The encoder of neqo-common is a parameter.
use never_fox.Agent.Configure.{enable_ech}
use never_fox.Streams.{CryptoRecoveryToken}
use never_fox.Tickets.{ResumptionToken, resumption_token}
use never_fox.Types.{NssError, Error, Version, Space}
use never_fox.Crypto.{Crypto, Error, Version, RxStreamOrderer, Handle, Space, from_nss}
use never_fox.Nss.{Bytes, Handle, from_nss}
use never_fox.Streams.Buffers.{TxBuffer, RxStreamOrderer, Wire}
use never_fox.Agent.{Engine}
use never_fox.Agent.Parties
use never_fox.Agent.Parties.{client, server, deref, ZeroRttChecker}
use never_fox.Streams
use never_fox.Streams.Write
use never_fox.Tickets
use never_fox.Base.{
  map_option, Res, and_then, Method, ◌>>=◌, pure, ok, panic, ℕ, Bool, Option, none, some, List, [],
  ◌++◌,
}

-- `Encoder`: `encode_uint`, `encode_varint`, `encode_vvec`; and `Version::wire_version`.
pub record Encoder : Type 0 where
  pub uint : ℕ → ℕ → Bytes
  pub varint : ℕ → Bytes
  pub vvec : Bytes → Bytes
  pub wire_version : Version → ℕ

abbrev pub or_empty : Option Bytes → Bytes
or_empty none = []
or_empty (some b) = b

-- The bytes of `create_resumption_token`, with the transport parameters encoded.
unfoldable pub resumption_bytes : Encoder → Option Bytes → Bytes → Version → ℕ → Bytes → Bytes
resumption_bytes enc new_token tps version rtt ticket =
    enc.uint 4 (enc.wire_version version)
    ++ (enc.varint rtt ++ (enc.vvec tps ++ (enc.vvec (or_empty new_token) ++ ticket)))

abbrev pop : {E : Type 0} → Method (Parties.Client E) NssError (Option ResumptionToken)
pop k = let (t, rest) = resumption_token k.resumption in (ok t, record k { resumption = rest })

module _ {E Tx Rx : Type 0} where
  -- What is done to the client, or to the server; the other is a panic.
  abbrev in_client :
      {R : Type 0}
      → Method (Parties.Client E) NssError R
      → Method (Crypto (Parties.Agent E) Tx Rx) Error R
  in_client m c = elim c.tls [
    | client k ↦ let (r, k') = m k in (from_nss r, record c { tls = client k' })
    | server s ↦ (panic, c)
  ]

  abbrev in_server :
      {R : Type 0}
      → Method (Parties.Server E) NssError R
      → Method (Crypto (Parties.Agent E) Tx Rx) Error R
  in_server m c = elim c.tls [
    | client k ↦ (panic, c)
    | server s ↦ let (r, s') = m s in (from_nss r, record c { tls = server s' })
  ]

  -- `server_name`
  unfoldable pub server_name : Crypto (Parties.Agent E) Tx Rx → Option Bytes
  server_name c = elim c.tls [ client k ↦ some k.server_name | server s ↦ none ]

  -- `ech_config`
  unfoldable pub ech_config : Crypto (Parties.Agent E) Tx Rx → Bytes
  ech_config c = (deref c.tls).ech_config

  -- `create_resumption_token`
  unfoldable pub create_resumption_token :
      Encoder
      → Option Bytes
      → Bytes
      → Version
      → ℕ
      → Method (Crypto (Parties.Agent E) Tx Rx) Error (Option ResumptionToken)
  create_resumption_token enc new_token tps version rtt = do
    found ← in_client pop
    pure (
        map_option
          (λ t. record {
            token = resumption_bytes enc new_token tps version rtt t.token;
            expiration_time = t.expiration_time;
          })
          found)

  -- `has_resumption_token`
  unfoldable pub has_resumption_token : Crypto (Parties.Agent E) Tx Rx → Res Error Bool
  has_resumption_token c = elim c.tls [
    | client k ↦ ok (Tickets.has_resumption_token k.resumption)
    | server s ↦ panic
  ]

module _ {E Tx Rx : Type 0} (nss : Engine E) where
  -- `server_enable_0rtt`, `server_enable_ech`, `client_enable_ech`
  unfoldable pub server_enable_0rtt :
      ZeroRttChecker → Method (Crypto (Parties.Agent E) Tx Rx) Error (Unit {0})
  server_enable_0rtt checker = in_server (Parties.server_enable_0rtt nss 0xffffffff checker)

  unfoldable pub server_enable_ech :
      Res NssError Bytes
      → Handle
      → Handle
      → Method (Crypto (Parties.Agent E) Tx Rx) Error (Unit {0})
  server_enable_ech encode sk pk = in_server (Parties.server_enable_ech nss encode sk pk)

  unfoldable pub client_enable_ech :
      Bytes → Method (Crypto (Parties.Agent E) Tx Rx) Error (Unit {0})
  client_enable_ech configs =
      in_client λ k. let (r, a) = enable_ech nss configs k.agent in (r, record k { agent = a })

module _ {A Tx Rx : Type 0} (txs : TxBuffer Tx) (rxs : RxStreamOrderer Rx) where
  -- `acked`, `lost`, `resend_unacked`
  unfoldable pub acked : CryptoRecoveryToken → Crypto A Tx Rx → Crypto A Tx Rx
  acked token c = record c { streams = Streams.acked txs rxs token c.streams }

  unfoldable pub lost : CryptoRecoveryToken → Crypto A Tx Rx → Crypto A Tx Rx
  lost token c = record c { streams = Streams.lost txs rxs token c.streams }

  unfoldable pub resend_unacked : Space → Crypto A Tx Rx → Crypto A Tx Rx
  resend_unacked space c = record c { streams = Streams.resend_unacked txs rxs space c.streams }

module _ {A Tx Rx B : Type 0} (txs : TxBuffer Tx) (wire : Wire B) where
  -- `write_frame`
  unfoldable pub write_frame :
      Space
      → Bool
      → Crypto A Tx Rx
      → B
      → List CryptoRecoveryToken
      → ℕ
      → Option (Res Error (Crypto A Tx Rx × B × List CryptoRecoveryToken × ℕ))
  write_frame space sni_slicing c b tokens crypto =
      map_option
        (λ r. and_then r λ (s, b', tokens', n). ok (record c { streams = s }, b', tokens', n))
        (Write.write_frame txs wire space sni_slicing c.streams b tokens crypto)
