-- ===== src/Socket.antt =====
-- The calls by which nss-rs/src/agent.rs and ssl.rs configure a socket of NSS, and what the latest
-- of them have set.
use never_fox.Nss.{Bytes, Handle}
use never_fox.Types.{
  aes_128_gcm_sha256, aes_256_gcm_sha384, chacha20_poly1305_sha256, other, Cipher,
}
use never_fox.Base.{
  ◌==◌, if◌then◌else◌, ℕ, min, max, Bool, true, false, not, Option, none, some, List, [], ◌∷◌,
}

-- `Opt` of ssl.rs
pub data Opt : Type 0 where
  locking tickets ocsp_stapling alpn extended_master_secret : Opt
  signed_certificate_timestamps early_data record_size_limit : Opt
  tls13_compat_mode hello_downgrade_check suppress_end_of_early_data : Opt
  grease delegated_credentials enable_ch_extension_permutation : Opt

-- A number for each option; those of NSS are in generated code, and as different from one another.
abbrev opt_number : Opt → ℕ
opt_number locking = 0
opt_number tickets = 1
opt_number ocsp_stapling = 2
opt_number alpn = 3
opt_number extended_master_secret = 4
opt_number signed_certificate_timestamps = 5
opt_number early_data = 6
opt_number record_size_limit = 7
opt_number tls13_compat_mode = 8
opt_number hello_downgrade_check = 9
opt_number suppress_end_of_early_data = 10
opt_number grease = 11
opt_number delegated_credentials = 12
opt_number enable_ch_extension_permutation = 13

abbrev pub eq_opt : Opt → Opt → Bool
eq_opt o p = opt_number o == opt_number p

abbrev pub eq_cipher : Cipher → Cipher → Bool
eq_cipher aes_128_gcm_sha256 aes_128_gcm_sha256 = true
eq_cipher aes_256_gcm_sha384 aes_256_gcm_sha384 = true
eq_cipher chacha20_poly1305_sha256 chacha20_poly1305_sha256 = true
eq_cipher (other a) (other b) = a == b
eq_cipher _ _ = false

-- `Opt::map_enabled`: NSS has an option for having no locks.
unfoldable pub map_enabled : Opt → Bool → Bool
map_enabled locking enabled = not enabled
map_enabled _ enabled = enabled

-- `Group` of constants.rs
pub data Group : Type 0 where
  secp256r1 secp384r1 secp521r1 x25519 : Group
  xyber768d00 mlkem768x25519 ffdhe_2048 ffdhe_3072 : Group

-- `Version` of constants.rs, the version of TLS
pub data TlsVersion : Type 0 where
  tls_1_2 tls_1_3 : TlsVersion

-- A call with its arguments; the pointer to the socket is left out.
pub data Call : Type 0 where
  set_url : Bytes → Call
  auth_certificate_hook alert_sent_callback bind_time resumption_token_callback : Call
  reset_handshake : Bool → Call
  version_range_set : TlsVersion → TlsVersion → Call
  option_set : Opt → Bool → Call
  cipher_pref_set : Cipher → Bool → Call
  named_group_config : List Group → Call
  signature_scheme_pref_set : List ℕ → Call
  send_additional_key_shares : ℕ → Call
  set_next_proto_nego : Bytes → Call
  -- the identifier, and whether there is a function to encode with
  set_certificate_compression_algorithm : ℕ → Bool → Call
  install_extension : ℕ → Call
  enable_grease_ech : Bool → Call
  set_client_ech_configs : Bytes → Call
  call_extension_writer_on_ech_inner : Bool → Call
  -- for a server: the certificate and its key; the private and the public key for ECH
  config_server_cert : Handle → Handle → Call
  -- the same, with OCSP responses and signed certificate timestamps
  config_server_cert_with : Handle → Handle → List Bytes → Bytes → Call
  hello_retry_request_callback config_anti_replay : Call
  set_max_early_data_size : ℕ → Call
  set_server_ech_configs : Handle → Handle → Bytes → Call
  set_resumption_token : Bytes → Call

-- The calls made so far, the latest first.
abbrev pub Calls : Type 0
Calls = List Call

-- What the latest call of a kind has set.
abbrev pub latest : {A : Type 0} → (Call → Option A) → Calls → Option A
latest f [] = none
latest f (c ∷ cs) = elim (f c) [ some a ↦ some a | none ↦ latest f cs ]

abbrev pub option_of : Opt → Call → Option Bool
option_of o (option_set p b) = if eq_opt o p then some b else none
option_of o _ = none

abbrev pub cipher_of : Cipher → Call → Option Bool
cipher_of c (cipher_pref_set d b) = if eq_cipher c d then some b else none
cipher_of c _ = none

abbrev pub versions_of : Call → Option (TlsVersion × TlsVersion)
versions_of (version_range_set min max) = some (min, max)
versions_of _ = none

abbrev pub groups_of : Call → Option (List Group)
groups_of (named_group_config gs) = some gs
groups_of _ = none

abbrev pub schemes_of : Call → Option (List ℕ)
schemes_of (signature_scheme_pref_set ss) = some ss
schemes_of _ = none

abbrev pub key_shares_of : Call → Option ℕ
key_shares_of (send_additional_key_shares n) = some n
key_shares_of _ = none

abbrev pub protocols_of : Call → Option Bytes
protocols_of (set_next_proto_nego b) = some b
protocols_of _ = none

abbrev pub grease_ech_of : Call → Option Bool
grease_ech_of (enable_grease_ech b) = some b
grease_ech_of _ = none

-- The compression algorithms that are registered, the latest first.
abbrev pub compressions : Calls → List (ℕ × Bool)
compressions [] = []
compressions (set_certificate_compression_algorithm id encodes ∷ cs) =
    (id, encodes) ∷ compressions cs
compressions (_ ∷ cs) = compressions cs
