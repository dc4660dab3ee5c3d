-- ===== src/Tests/Handshake.antt =====
-- The theorems on the states of a TLS handshake, applied.
use never_fox.Types.{other_nss, Epoch, aes_128_gcm_sha256}
use never_fox.Agent.Outcome.{Settled, handshake_raw-Settled}
use never_fox.Agent.{
  SecretAgent, Engine, drive, handshake_raw, prepare, auth_complete, alert_sent, setup_raw, set_raw,
  complete_authentication, feed, update_state, wait, capture_error, finish,
}
use never_fox.Crypto.Agent.{new, Record}
use never_fox.Session.{new_pre_info, get_alpn, ech_public_name, early_value}
use never_fox.Base.{
  ◌==◌, if◌then◌else◌, ok, err, ℕ, ◌+◌, ◌≡◌, refl, true, false, none, some, [], ◌∷◌,
}

-- A peer that shows its certificate at once, and a certificate that is not accepted.
abbrev pub demo_engine : Engine ℕ
demo_engine = record {
  set_now = λ now e. (ok tt, e);
  register = λ e. (ok tt, e);
  setup = λ e. (ok tt, e);
  write_record = λ r e. ((ok tt, []), e + 1);
  authenticate = λ status e. ((if status == 0 then ok tt else err (other_nss status), []), e);
  force_handshake = λ e.
      if e == 1
      then ((err (other_nss 0), auth_complete ∷ []), 2)
      else ((err (other_nss 5), alert_sent 2 40 ∷ []), 3);
  records = λ e. [];
  would_block = λ error. elim error [ other_nss n ↦ n == 0 | _ ↦ false ];
  convert_ech_error = λ e error. error;
  preliminary_channel_info = λ e. ok (record {
    version_is_set = true;
    cipher_suite_is_set = true;
    zero_rtt_cipher_suite_is_set = false;
    ech_is_set = true;
    protocol_version = 0x304;
    cipher_suite = aes_128_gcm_sha256;
    zero_rtt_cipher_suite = aes_128_gcm_sha256;
    can_send_early_data = 0;
    max_early_data_size = 0;
    ech_accepted = 0;
    ech_public_name = none;
  });
  channel_info = λ e. ok (record {
    protocol_version = 0x304;
    cipher_suite = aes_128_gcm_sha256;
    kea_group = 29;
    resumed = 0;
    early_data_accepted = 0;
    ech_accepted = 0;
    signature_scheme = 0x403;
  });
  next_proto = λ e. ok (record { state = early_value; chosen = 104 ∷ 51 ∷ 0 ∷ []; chosen_len = 2 });
  take_read = λ epoch e. (none, e);
  take_write = λ epoch e. (none, e);
  is_utf8 = λ b. true;
  bad_text = other_nss 8;
  configure = λ c e. (ok tt, e);
  calls = λ e. [];
  implemented_ciphers = λ e. [];
  integer_overflow = other_nss 6;
  interior_nul = other_nss 7;
  wrap = λ input e. e;
  unwrap = λ e. e;
  take_output = λ e. ([], e);
  close_fd = λ e. e;
  send_session_ticket = λ extra e. (ok tt, e);
  export_keys = λ label context out e. (ok tt, out);
}

abbrev pub fresh_agent : SecretAgent ℕ
fresh_agent = record {
  engine = 0;
  raw = none;
  auth_required = false;
  alert = none;
  state = new;
  extension_handlers = [];
  ech_config = [];
  closed = false;
}

abbrev pub first_record : Record
first_record = record { ct = 22; epoch = Epoch.initial; bytes = 1 ∷ [] }

abbrev shown : SecretAgent ℕ
shown = (handshake_raw demo_engine 0 (some first_record) fresh_agent).1

showing : handshake_raw demo_engine 0 (some first_record) fresh_agent ≡ (ok [], shown)
unfolding handshake_raw prepare setup_raw set_raw complete_authentication feed drive update_state
    wait capture_error new_pre_info get_alpn ech_public_name
showing = refl

handshake_raw-Settled_example : Settled demo_engine shown × ([] ≡ demo_engine.records shown.engine)
handshake_raw-Settled_example =
    handshake_raw-Settled demo_engine 0 (some first_record) fresh_agent shown [] showing

abbrev refused : SecretAgent ℕ
refused = (drive demo_engine shown).1

refusing : drive demo_engine shown ≡ (err (other_nss 5), refused)
unfolding handshake_raw prepare setup_raw set_raw complete_authentication feed drive update_state
    wait finish capture_error new_pre_info get_alpn ech_public_name
refusing = refl
