-- ===== src/Crypto/Setup.antt =====
-- `Crypto::new`: the TLS agent is given the settings of Firefox 152.
use never_fox.States.{no_keys}
use never_fox.Crypto.{Crypto, from_nss, CryptoStreams}
use never_fox.Nss.{Bytes, from_nss}
use never_fox.Streams.{CryptoStream, CryptoStreams}
use never_fox.Agent.{Engine}
use never_fox.Agent.Configure
use never_fox.Agent.Parties
use never_fox.Agent.Parties.{after, deref, set_agent}
use never_fox.Agent.Configure.{
  enable_ech, enable_0rtt, Compressor, set_option, set_version_range, set_groups, set_ciphers,
  set_alpn, disable_end_of_early_data, extension_handler, set_signature_schemes,
  set_certificate_compression, send_key_shares,
}
use never_fox.Types.{
  version_2, version_1, draft_29, aes_128_gcm_sha256, aes_256_gcm_sha384, chacha20_poly1305_sha256,
  Version, Cipher, Error,
}
use never_fox.Socket.{
  tls_1_3, grease, Group, mlkem768x25519, signed_certificate_timestamps, x25519, secp256r1,
  enable_ch_extension_permutation, secp384r1, delegated_credentials, secp521r1, ffdhe_2048,
  ffdhe_3072,
}
use never_fox.Base.{
  if◌then◌else◌, Res, and_then, ◌>>◌, pure, ok, ℕ, Bool, true, false, List, [], ◌∷◌,
}

-- The cipher suites, in the order of the list.
abbrev pub suites : List Cipher
suites = aes_128_gcm_sha256 ∷ aes_256_gcm_sha384 ∷ chacha20_poly1305_sha256 ∷ []

-- The key exchange groups, with ML-KEM and without.
abbrev pub groups : Bool → List Group
groups true =
    mlkem768x25519 ∷ x25519 ∷ secp256r1 ∷ secp384r1 ∷ secp521r1 ∷ ffdhe_2048 ∷ ffdhe_3072 ∷ []
groups false = x25519 ∷ secp256r1 ∷ secp384r1 ∷ secp521r1 ∷ []

abbrev pub schemes : List ℕ
schemes =
    0x0403 ∷ 0x0503 ∷ 0x0603 ∷ 0x0804 ∷ 0x0805 ∷ 0x0806 ∷ 0x0401 ∷ 0x0501 ∷ 0x0601 ∷ 0x0203 ∷ 0x0201
    ∷ []

-- `Zlib`, `Brotli`, `Zstd` of cert_compress.rs
abbrev pub zlib : Compressor
zlib = record { id = 1; enable_encoding = false }

abbrev pub brotli : Compressor
brotli = record { id = 2; enable_encoding = false }

abbrev pub zstd : Compressor
zstd = record { id = 3; enable_encoding = false }

-- The extension that carries the transport parameters.
unfoldable pub extension : Version → ℕ
extension version_2 = 0x39
extension version_1 = 0x39
extension draft_29 = 0xffa5

module _ {E : Type 0} (nss : Engine E) where
  -- What a client configures besides.
  unfoldable pub setup_firefox : Bool → Configure.Agent E
  setup_firefox mlkem = do
    set_option nss grease false
    set_option nss signed_certificate_timestamps true
    set_option nss enable_ch_extension_permutation false
    set_option nss delegated_credentials true
    set_signature_schemes nss schemes
    enable_ech nss []
    set_certificate_compression nss zlib
    set_certificate_compression nss brotli
    set_certificate_compression nss zstd
    send_key_shares nss (if mlkem then 1 else 0)
    enable_0rtt nss

  abbrev for_party : Parties.Agent E → Bool → Configure.Agent E
  for_party (Parties.client c) mlkem = setup_firefox mlkem
  for_party (Parties.server s) mlkem = pure tt

  -- What comes after the cipher suites.
  unfoldable pub setup_rest : Parties.Agent E → Bool → Version → List Bytes → Configure.Agent E
  setup_rest party mlkem version protocols = do
    set_groups nss (groups mlkem)
    for_party party mlkem
    set_alpn nss protocols
    disable_end_of_early_data nss
    extension_handler nss (extension version)

  unfoldable pub setup_tls : Parties.Agent E → Bool → Version → List Bytes → Configure.Agent E
  setup_tls party mlkem version protocols = do
    set_version_range nss tls_1_3 tls_1_3
    set_ciphers nss suites
    setup_rest party mlkem version protocols

  -- `Crypto::new`; `mlkem` is `conn_params.mlkem_enabled()`, and `fresh` an empty `CryptoStream`.
  unfoldable pub new :
      {Tx Rx : Type 0}
      → CryptoStream Tx Rx
      → Version
      → Bool
      → Parties.Agent E
      → List Bytes
      → Res Error (Crypto (Parties.Agent E) Tx Rx)
  new fresh version mlkem party protocols =
      and_then (from_nss (after (setup_tls party mlkem version protocols) (deref party))) λ a.
        ok (record {
          version = version;
          protocols = protocols;
          tls = set_agent a party;
          streams = CryptoStreams.initial fresh fresh fresh;
          states = no_keys;
        })
