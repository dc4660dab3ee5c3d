-- ===== src/Agent/Configure.antt =====
-- The configuration of a `SecretAgent`: its `set_…` and `enable_…` methods, `configure` and `ready`,
-- and those of `Client` that Crypto::new calls.
use never_fox.Alpn.{encode_alpn}
use never_fox.Nss.{Bytes}
use never_fox.Agent.{SecretAgent, Engine, Cipher, NssError, HandshakeState, Bytes}
use never_fox.Socket.{
  Call, TlsVersion, Group, Opt, named_group_config, install_extension, auth_certificate_hook,
  option_set, send_additional_key_shares, tls_1_3, version_range_set, signature_scheme_pref_set,
  suppress_end_of_early_data, early_data, set_certificate_compression_algorithm, cipher_pref_set,
  enable_grease_ech, alert_sent_callback, locking, map_enabled, bind_time, set_client_ech_configs,
  set_next_proto_nego, tickets, reset_handshake, call_extension_writer_on_ech_inner, ocsp_stapling,
  grease, enable_ch_extension_permutation,
}
use never_fox.Types.{internal, invalid_certificate_compression_id, Cipher, NssError}
use never_fox.Crypto.Agent.{new, HandshakeState}
use never_fox.Base.{
  ltb, ◌==◌, length, Method, ◌>>=◌, ◌>>◌, pure, raise, lift, modify, branch, ℕ, ◌^◌, min, max, Bool,
  true, false, ◌&&◌, List, [], ◌∷◌, ◌++◌,
}

-- `CertificateCompressor`, as far as it is registered: its identifier, and whether it encodes.
pub record Compressor : Type 0 where
  pub id : ℕ
  pub enable_encoding : Bool

abbrev pub Agent : Type 0 → Type 0
Agent E = Method (SecretAgent E) NssError (Unit {0})

abbrev pub is_new : HandshakeState → Bool
is_new new = true
is_new _ = false

module _ {E : Type 0} (nss : Engine E) where
  -- One call of NSS, and an error if it is refused.
  unfoldable pub ask : Call → Agent E
  ask c a = let (r, e) = nss.configure c a.engine in (r, record a { engine = e })

  -- `c_uint::try_from(n)?`
  abbrev pub c_uint : ℕ → Agent E
  c_uint n = branch (ltb n (2 ^ 32)) (pure tt) (raise nss.integer_overflow)

  -- `set_version_range`
  unfoldable pub set_version_range : TlsVersion → TlsVersion → Agent E
  set_version_range min max = ask (version_range_set min max)

  -- The loops of `set_ciphers`.
  unfoldable pub set_each : Bool → List Cipher → Agent E
  set_each on [] = pure tt
  set_each on (c ∷ cs) = ask (cipher_pref_set c on) >> set_each on cs

  -- `set_ciphers`: every cipher that NSS has is turned off, and then those of the list on.
  unfoldable pub set_ciphers : List Cipher → Agent E
  set_ciphers ciphers a =
      branch (is_new a.state)
        (set_each false (nss.implemented_ciphers a.engine) >> set_each true ciphers)
        (raise internal) a

  -- `set_groups`
  unfoldable pub set_groups : List Group → Agent E
  set_groups groups = do c_uint (length groups); ask (named_group_config groups)

  -- `set_signature_schemes`
  unfoldable pub set_signature_schemes : List ℕ → Agent E
  set_signature_schemes schemes = do
    c_uint (length schemes)
    ask (signature_scheme_pref_set schemes)

  -- `SecretAgent::send_additional_key_shares`
  unfoldable pub send_key_shares : ℕ → Agent E
  send_key_shares count = do c_uint count; ask (send_additional_key_shares count)

  -- `set_option`, by `Opt::set`
  unfoldable pub set_option : Opt → Bool → Agent E
  set_option opt value = ask (option_set opt (map_enabled opt value))

  -- `SecretAgent::enable_0rtt`, `disable_end_of_early_data`
  unfoldable pub enable_0rtt : Agent E
  enable_0rtt = set_option early_data true

  unfoldable pub disable_end_of_early_data : Agent E
  disable_end_of_early_data = set_option suppress_end_of_early_data true

  -- `set_alpn`
  unfoldable pub set_alpn : List Bytes → Agent E
  set_alpn protocols = do
    encoded ← lift (encode_alpn protocols)
    c_uint (length encoded)
    ask (set_next_proto_nego encoded)

  -- `set_certificate_compression`
  unfoldable pub set_certificate_compression : Compressor → Agent E
  set_certificate_compression t =
      branch (t.id == 0) (raise invalid_certificate_compression_id)
        (ask (set_certificate_compression_algorithm t.id t.enable_encoding))

  -- `extension_handler`
  unfoldable pub extension_handler : ℕ → Agent E
  extension_handler ext = do
    ask (install_extension ext)
    modify (λ a. record a { extension_handlers = a.extension_handlers ++ (ext ∷ []) })

  -- `Client::enable_ech`
  unfoldable pub enable_ech : Bytes → Agent E
  enable_ech config = do
    modify (λ a. record a { ech_config = config })
    branch (length config == 0) (ask (enable_grease_ech true)) (do
      c_uint (length config)
      ask (set_client_ech_configs config)
      ask (call_extension_writer_on_ech_inner true))

  -- `configure`; `random` is what `cfg!(not(feature = "disable-random"))` says.
  unfoldable pub configure : Bool → Bool → Agent E
  configure random grease_on = do
    set_version_range tls_1_3 tls_1_3
    set_option locking false
    set_option tickets false
    set_option ocsp_stapling true
    set_option grease (random && grease_on)
    set_option enable_ch_extension_permutation random

  -- `ready`
  unfoldable pub ready : Bool → Bool → Bool → Agent E
  ready random is_server grease_on = do
    ask auth_certificate_hook
    ask alert_sent_callback
    ask bind_time
    configure random grease_on
    ask (reset_handshake is_server)
