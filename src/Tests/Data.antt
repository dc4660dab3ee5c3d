-- ===== src/Tests/Data.antt =====
-- An instance of what the model leaves open, and some keys.
use never_fox.Dx.{CryptoDxState}
use never_fox.AppData.{CryptoDxAppData}
use never_fox.Types.{Direction, version_2, write, read, aes_128_gcm_sha256, version_1, draft_29}
use never_fox.Nss.{Nss}
use never_fox.States.{CryptoState}
use never_fox.Base.{codes, length, Res, ok, err, panic, ℕ, ◌+◌, [], ◌∷◌}

abbrev pub demo_nss : Nss
demo_nss = record {
  label_prefix = λ _. codes "quic ";
  initial_salt = λ _. 1 ∷ 2 ∷ [];
  version_order = version_2 ∷ version_1 ∷ draft_29 ∷ [];
  aead_new = λ cipher secret label mode. ok (secret + 100);
  expansion = λ _. 16;
  encrypt_in_place = λ aead pn aad buf. ok (length buf, buf);
  decrypt_in_place = λ aead pn aad buf. ok (length buf, buf);
  hp_extract = λ cipher secret label. ok (secret + 200);
  hp_clone = λ key. ok key;
  hp_mask = λ key sample. ok sample;
  import_key = λ bytes. ok 3;
  hkdf_extract = λ cipher salt ikm. ok (salt + ikm);
  expand_label = λ cipher secret label. ok (secret + 1);
}

-- Keys of an epoch that have seen the packets from `first` up to `next`.
abbrev pub demo_key : Direction → ℕ → ℕ → ℕ → CryptoDxState
demo_key dir epoch first next = record {
  version = version_1;
  direction = dir;
  epoch = epoch;
  aead = 100 + epoch;
  hpkey = 200 + epoch;
  used_pn = record { start = first; end = next };
  min_pn = first;
  invocations = 1000;
  largest_packet_len = 2048;
}

abbrev pub demo_app : Direction → ℕ → ℕ → ℕ → CryptoDxAppData
demo_app dir epoch first next = record {
  dx = demo_key dir epoch first next;
  cipher = aes_128_gcm_sha256;
  next_secret = epoch;
}

abbrev pub demo_pair : ℕ → ℕ → ℕ → CryptoState
demo_pair epoch first next = record {
  tx = demo_key write epoch first next;
  rx = demo_key read epoch first next;
}

-- The outcome of a step that succeeds, and the default of one that does not.
abbrev pub or_default : {E A : Type 0} → A → Res E A → A
or_default a (ok b) = b
or_default a (err e) = a
or_default a panic = a
