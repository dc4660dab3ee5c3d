-- ===== src/Crypto/SetupCalls.antt =====
-- The calls that `setup_tls` makes for a client.
use never_fox.Agent.Parties.{deref, after}
use never_fox.Alpn.{encode_alpn}
use never_fox.Agent.Configure.{
  set_each, disable_end_of_early_data, enable_0rtt, set_ciphers, set_version_range, is_new,
}
use never_fox.Crypto.Setup.{
  setup_firefox, setup_rest, extension, suites, schemes, groups, zlib, brotli, zstd, setup_tls,
}
use never_fox.Agent.Does.{
  EngineLaws, Does, Does-pure, Does-ask, Does-set_option, ◌then_does◌, Does-set_groups,
  Does-set_alpn, Does-set_signature_schemes, Does-extension_handler, Does-enable_ech_grease,
  Does-set_certificate_compression, Does-send_key_shares, Does-set_version_range,
}
use never_fox.Nss.{Bytes}
use never_fox.Socket.{
  Calls, eq_cipher, cipher_pref_set, option_set, early_data, install_extension,
  send_additional_key_shares, map_enabled, tls_1_3, set_certificate_compression_algorithm,
  suppress_end_of_early_data, enable_grease_ech, set_next_proto_nego, grease,
  signature_scheme_pref_set, named_group_config, signed_certificate_timestamps,
  enable_ch_extension_permutation, delegated_credentials, version_range_set,
}
use never_fox.Types.{Version, Cipher}
use never_fox.Agent.{Engine, SecretAgent}
use never_fox.Agent.Parties
use mathlib.Core.List.{append_assoc}
use never_fox.Types.{internal}
use never_fox.Base.{
  if◌then◌else◌, ◌>>◌, >>=-eq-ok, branch-raise-eq-ok, ok, ◌≡◌, ap, ◌∙◌, Bool, true, false, ◌||◌,
  List, [], ◌∷◌, ◌++◌,
}

-- The calls of `set_each`, the latest first.
abbrev pub prefs : Bool → List Cipher → Calls
prefs on [] = []
prefs on (c ∷ cs) = prefs on cs ++ (cipher_pref_set c on ∷ [])

abbrev pub elem : Cipher → List Cipher → Bool
elem c [] = false
elem c (d ∷ ds) = eq_cipher c d || elem c ds

abbrev firefox_calls : Bool → Calls
firefox_calls mlkem =
    option_set early_data true
    ∷ send_additional_key_shares (if mlkem then 1 else 0)
    ∷ set_certificate_compression_algorithm 3 false
    ∷ set_certificate_compression_algorithm 2 false
    ∷ set_certificate_compression_algorithm 1 false
    ∷ enable_grease_ech true
    ∷ signature_scheme_pref_set schemes
    ∷ option_set delegated_credentials true
    ∷ option_set enable_ch_extension_permutation false
    ∷ option_set signed_certificate_timestamps true
    ∷ option_set grease false
    ∷ []

abbrev pub rest_calls : Bool → Version → Bytes → Calls
rest_calls mlkem version alpn =
    install_extension (extension version)
    ∷ option_set suppress_end_of_early_data true
    ∷ set_next_proto_nego alpn
    ∷ (firefox_calls mlkem ++ (named_group_config (groups mlkem) ∷ []))

module _ {E : Type 0} (nss : Engine E) (laws : EngineLaws nss) where
  Does-setup_firefox : (mlkem : Bool) → Does nss (firefox_calls mlkem) (setup_firefox nss mlkem)
  unfolding setup_firefox enable_0rtt map_enabled
  Does-setup_firefox mlkem =
      Does-set_option nss laws grease false
      then_does Does-set_option nss laws signed_certificate_timestamps true
      then_does Does-set_option nss laws enable_ch_extension_permutation false
      then_does Does-set_option nss laws delegated_credentials true
      then_does Does-set_signature_schemes nss laws schemes
      then_does Does-enable_ech_grease nss laws
      then_does Does-set_certificate_compression nss laws zlib
      then_does Does-set_certificate_compression nss laws brotli
      then_does Does-set_certificate_compression nss laws zstd
      then_does Does-send_key_shares nss laws (if mlkem then 1 else 0)
      then_does Does-set_option nss laws early_data true

  Does-setup_rest :
      (c : Parties.Client E) (mlkem : Bool) (version : Version) (protocols : List Bytes)
      (alpn : Bytes)
      → encode_alpn protocols ≡ ok alpn
      → Does nss
          (rest_calls mlkem version alpn)
          (setup_rest nss (Parties.client c) mlkem version protocols)
  unfolding setup_rest disable_end_of_early_data map_enabled
  Does-setup_rest c mlkem version protocols alpn e =
      Does-set_groups nss laws (groups mlkem)
      then_does Does-setup_firefox mlkem
      then_does Does-set_alpn nss laws protocols alpn e
      then_does Does-set_option nss laws suppress_end_of_early_data true
      then_does Does-extension_handler nss laws (extension version)

  Does-set_each : (on : Bool) (cs : List Cipher) → Does nss (prefs on cs) (set_each nss on cs)
  unfolding set_each
  Does-set_each on [] = Does-pure
  Does-set_each on (c ∷ cs) = Does-ask nss laws _ then_does Does-set_each on cs

  set_ciphers_inv :
      (a a' : SecretAgent E)
      → set_ciphers nss suites a ≡ (ok tt, a')
      → (set_each nss false (nss.implemented_ciphers a.engine) >> set_each nss true suites) a
        ≡ (ok tt, a')
  unfolding set_ciphers
  set_ciphers_inv a a' e =
      (branch-raise-eq-ok (is_new a.state)
        (set_each nss false (nss.implemented_ciphers a.engine) >> set_each nss true suites) internal
        a a' e).1

  -- The calls of `setup_tls` for a client.
  pub setup_tls_calls :
      (c : Parties.Client E) (mlkem : Bool) (version : Version) (protocols : List Bytes)
      (alpn : Bytes) (a a' : SecretAgent E)
      → encode_alpn protocols ≡ ok alpn
      → setup_tls nss (Parties.client c) mlkem version protocols a ≡ (ok tt, a')
      → (nss.calls a'.engine
          ≡ rest_calls mlkem version alpn
            ++ (prefs true suites
                ++ (prefs false (nss.implemented_ciphers a.engine)
                    ++ (version_range_set tls_1_3 tls_1_3 ∷ nss.calls a.engine))))
        × (nss.implemented_ciphers a'.engine ≡ nss.implemented_ciphers a.engine)
  unfolding setup_tls
  setup_tls_calls c mlkem version protocols alpn a a' known e =
      let rest = setup_rest nss (Parties.client c) mlkem version protocols in
      let (_, b, versions, e') =
        >>=-eq-ok (λ _. set_ciphers nss suites >> rest) (set_version_range nss tls_1_3 tls_1_3) a
          e in
      let (_, d, ciphers, e'') = >>=-eq-ok (λ _. rest) (set_ciphers nss suites) b e' in
      let one = (Does-set_version_range nss laws tls_1_3 tls_1_3).made a b versions in
      let two =
        (Does-set_each false (nss.implemented_ciphers b.engine)
            then_does Does-set_each true suites).made
          b d (set_ciphers_inv b d ciphers) in
      let three = (Does-setup_rest c mlkem version protocols alpn known).made d a' e'' in
      let off = prefs false (nss.implemented_ciphers b.engine) in
      let same : off ≡ prefs false (nss.implemented_ciphers a.engine) = ap (prefs false) one.1 in
      let on = prefs true suites in
      let before : nss.calls b.engine ≡ version_range_set tls_1_3 tls_1_3 ∷ nss.calls a.engine =
        one.0 in
      (
        three.0
            ∙ ap (λ l. rest_calls mlkem version alpn ++ l)
                (two.0
                  ∙ append_assoc on off (nss.calls b.engine)
                  ∙ ap (λ l. on ++ (off ++ l)) before
                  ∙ ap (λ l. on ++ (l ++ (version_range_set tls_1_3 tls_1_3 ∷ nss.calls a.engine)))
                      same),
        three.1 ∙ two.1 ∙ one.1,
      )
