-- ===== src/Crypto/Profile.antt =====
-- What `Crypto::new` has set on the socket of a client: the settings of Firefox 152.
use never_fox.Crypto.SetupCalls.{elem}
use never_fox.Crypto.{Crypto}
use never_fox.Agent.Configure.{
  set_each, disable_end_of_early_data, enable_0rtt, set_ciphers, set_version_range, is_new,
}
use never_fox.Nss.{Bytes}
use never_fox.Socket.{
  Calls, early_data, latest, versions_of, tls_1_3, suppress_end_of_early_data, cipher_of, grease,
  signed_certificate_timestamps, groups_of, enable_ch_extension_permutation, delegated_credentials,
  schemes_of, option_of, grease_ech_of, compressions, key_shares_of, protocols_of, Group,
}
use never_fox.Socket.{
  Group, secp256r1, secp384r1, secp521r1, x25519, ffdhe_2048, ffdhe_3072, mlkem768x25519,
  xyber768d00,
}
use never_fox.Types.{Cipher, aes_128_gcm_sha256, chacha20_poly1305_sha256, aes_256_gcm_sha384}
use never_fox.Agent.Parties
use never_fox.Agent.Configure
use never_fox.Base.{
  if◌then◌else◌, map_option, take, All, ℕ, ◌≡◌, Bool, true, false, some, List, [], ◌∷◌,
}

-- What a capture of Firefox 152 shows, in native/firefox152_reference.json: its cipher suites of
-- TLS 1.3 (4865, 4867, 4866), `supported_groups` and `signature_algorithms`, numbered as in the
-- registry of TLS. Without ML-KEM the groups are those on elliptic curves.
abbrev pub firefox_suites : List Cipher
firefox_suites = aes_128_gcm_sha256 ∷ chacha20_poly1305_sha256 ∷ aes_256_gcm_sha384 ∷ []

abbrev pub firefox_groups : Bool → List ℕ
firefox_groups true = 4588 ∷ 29 ∷ 23 ∷ 24 ∷ 25 ∷ 256 ∷ 257 ∷ []
firefox_groups false = 29 ∷ 23 ∷ 24 ∷ 25 ∷ []

abbrev pub firefox_signatures : List ℕ
firefox_signatures = 1027 ∷ 1283 ∷ 1539 ∷ 2052 ∷ 2053 ∷ 2054 ∷ 1025 ∷ 1281 ∷ 1537 ∷ 515 ∷ 513 ∷ []

abbrev code_point : Group → ℕ
code_point secp256r1 = 23
code_point secp384r1 = 24
code_point secp521r1 = 25
code_point x25519 = 29
code_point ffdhe_2048 = 256
code_point ffdhe_3072 = 257
code_point mlkem768x25519 = 4588
code_point xyber768d00 = 25497

abbrev pub code_points : List Group → List ℕ
code_points [] = []
code_points (g ∷ gs) = code_point g ∷ code_points gs

-- The settings, read off the calls that NSS has taken, by the latest of each kind. A cipher suite
-- that NSS has is on exactly if it is one of the three.
pub record IsFirefox (mlkem : Bool) (implemented : List Cipher) (alpn : Bytes) (cs : Calls)
    : Type 0 where
  pub versions : latest versions_of cs ≡ some (tls_1_3, tls_1_3)
  pub suites_on : All (λ c. latest (cipher_of c) cs ≡ some true) firefox_suites
  pub suites_off :
      (c : Cipher)
      → elem c implemented ≡ true
      → elem c firefox_suites ≡ false
      → latest (cipher_of c) cs ≡ some false
  pub key_exchange : map_option code_points (latest groups_of cs) ≡ some (firefox_groups mlkem)
  pub signatures : latest schemes_of cs ≡ some firefox_signatures
  pub not_greased : latest (option_of grease) cs ≡ some false
  pub certificate_timestamps : latest (option_of signed_certificate_timestamps) cs ≡ some true
  pub fixed_order : latest (option_of enable_ch_extension_permutation) cs ≡ some false
  pub delegated : latest (option_of delegated_credentials) cs ≡ some true
  pub ech_greased : latest grease_ech_of cs ≡ some true
  pub decompresses : take 3 (compressions cs) ≡ (3, false) ∷ (2, false) ∷ (1, false) ∷ []
  pub shares : latest key_shares_of cs ≡ some (if mlkem then 1 else 0)
  pub early : latest (option_of early_data) cs ≡ some true
  pub no_end_of_early_data : latest (option_of suppress_end_of_early_data) cs ≡ some true
  pub protocols : latest protocols_of cs ≡ some alpn
