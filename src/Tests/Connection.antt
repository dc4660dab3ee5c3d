-- ===== src/Tests/Connection.antt =====
-- The theorems on `Crypto`, applied.
use never_fox.Tests.Versions.{two_versions}
use never_fox.AppData.{update_secret}
use never_fox.Crypto.HandshakeKeys.{Handshakes}
use never_fox.Crypto.Order.{install_keys-Writes, Writes}
use never_fox.Crypto.Agent.{is_final}
use never_fox.Crypto.{install_keys}
use never_fox.Crypto.Application.{install_application_keys-Keyed}
use never_fox.States.Secrets.{Keyed}
use never_fox.States.Sync.{IsSynced}
use never_fox.Crypto.Records.{with_tx, sent, buffer_records-get_stream}
use never_fox.States.Install.{
  set_handshake_keys, set_application_write_key, set_application_read_key, install_read_keys,
  continue_early,
}
use never_fox.Streams.Spaces.{space_eq}
use never_fox.Tests.Data.{demo_nss}
use never_fox.Crypto.Keys.{keyless, discard-keyless}
use never_fox.Nss.{Handle}
use never_fox.States.{initials_is_empty}
use never_fox.Dx.{continuation, empty_range, limit, new_initial, next_invocations}
use never_fox.Types.{version_1, Space, aes_128_gcm_sha256, Epoch, client, epoch_number, server}
use never_fox.States.Initial
use never_fox.Streams
use never_fox.Crypto.{
  discard, handshake_cipher, Crypto, install_handshake_keys, buffer_records, enable_0rtt,
  install_handshake_secret, install_application_keys, maybe_install_application_write_key,
  install_application_read_key,
}
use never_fox.Dx
use never_fox.AppData
use never_fox.Tests.Buffers.{DemoTx, DemoRx, demo_txs, demo_rxs}
use never_fox.Streams.{send, CryptoStream, get_stream, initial, CryptoStreams, set_stream}
use never_fox.Crypto.Agent.{in_progress, Record, Tls, info}
use never_fox.States.Initial.{
  init, first_pn, init_each, initial_keys, initial_labels, follow_prev, follow,
}
use never_fox.Session.{cipher_suite, PreliminaryChannelInfo}
use never_fox.Base.{
  ◌==◌, if◌then◌else◌, map_option, codes, All, ok, ℕ, ◌+◌, ◌-◌, ◌≡◌, refl, ◌⊎◌, true, false, not,
  Option, none, some, List, [], ◌∷◌,
}

-- An agent that is given its secrets once, and a buffer that keeps what is sent.
pub record DemoAgent : Type 0 where
  pub secrets_left : ℕ

abbrev take_secret : Handle → DemoAgent → Option Handle × DemoAgent
take_secret key a =
    if a.secrets_left == 0
    then (none, a)
    else (some key, record { secrets_left = a.secrets_left - 1 })

abbrev demo_channel : PreliminaryChannelInfo
demo_channel = record {
  version_is_set = true;
  cipher_suite_is_set = true;
  zero_rtt_cipher_suite_is_set = true;
  ech_is_set = false;
  protocol_version = 0x304;
  cipher_suite = aes_128_gcm_sha256;
  zero_rtt_cipher_suite = aes_128_gcm_sha256;
  can_send_early_data = 1;
  max_early_data_size = 0;
  ech_accepted = 0;
  ech_public_name = none;
}

abbrev pub demo_tls : Tls DemoAgent
demo_tls = record {
  ct_handshake = 22;
  handshake_raw = λ now input a. (ok [], a);
  state = λ a. in_progress;
  alert = λ a. none;
  preinfo = λ a. ok (record { info = demo_channel; alpn = none });
  take_read = λ epoch. take_secret (20 + epoch_number epoch);
  take_write = λ epoch. take_secret (30 + epoch_number epoch);
  space_of = λ epoch. elim epoch [
    | Epoch.initial ↦ Space.initial
    | Epoch.zero_rtt ↦ Space.application_data
    | Epoch.handshake ↦ Space.handshake
    | Epoch.application_data ↦ Space.application_data
  ];
  epoch_of = λ space. elim space [
    | Space.initial ↦ Epoch.initial
    | Space.handshake ↦ Epoch.handshake
    | Space.application_data ↦ Epoch.application_data
  ];
}

abbrev pub demo_stream : CryptoStream DemoTx DemoRx
demo_stream = record { tx = record { stream = []; sent = 0 }; rx = record { stored = [] } }

abbrev demo_crypto : Crypto DemoAgent DemoTx DemoRx
demo_crypto = record {
  version = version_1;
  protocols = codes "h3" ∷ [];
  tls = record { secrets_left = 2 };
  streams = CryptoStreams.initial demo_stream demo_stream demo_stream;
  states = two_versions;
}

abbrev records : List Record
records =
    record { ct = 22; epoch = Epoch.initial; bytes = 1 ∷ 2 ∷ [] }
    ∷ record { ct = 22; epoch = Epoch.handshake; bytes = 3 ∷ [] }
    ∷ record { ct = 22; epoch = Epoch.handshake; bytes = 4 ∷ [] }
    ∷ []

abbrev buffered : Crypto DemoAgent DemoTx DemoRx
buffered = (buffer_records demo_txs demo_rxs demo_tls records demo_crypto).1

buffering : buffer_records demo_txs demo_rxs demo_tls records demo_crypto ≡ (ok tt, buffered)
unfolding buffer_records send get_stream set_stream
buffering = refl

buffer_records-get_stream_example :
    All (λ r. r.ct ≡ 22) records
    × (get_stream Space.handshake buffered.streams
        ≡ map_option
            (with_tx demo_txs demo_rxs demo_tls
              (sent demo_txs demo_rxs demo_tls Space.handshake records))
            (get_stream Space.handshake demo_crypto.streams))
    × (buffered.states ≡ demo_crypto.states)
    × (buffered.tls ≡ demo_crypto.tls)
buffer_records-get_stream_example =
    buffer_records-get_stream demo_txs demo_rxs demo_tls Space.handshake records demo_crypto
      buffered buffering

abbrev discarded : Crypto DemoAgent DemoTx DemoRx
discarded = (discard Space.initial demo_crypto).1

discarding : discard Space.initial demo_crypto ≡ (ok true, discarded)
unfolding discard Streams.discard Initial.discard initials_is_empty
discarding = refl

discard-keyless_example :
    (keyless Space.initial discarded.states ≡ true)
    × (true ≡ not (keyless Space.initial demo_crypto.states))
    × (get_stream Space.handshake discarded.streams ≡ (
        if space_eq Space.initial Space.handshake
        then none
        else get_stream Space.handshake demo_crypto.streams))
discard-keyless_example =
    discard-keyless Space.initial Space.handshake true demo_crypto discarded discarding

-- An agent that also has the secret for the server's first application data.
abbrev ready : Crypto DemoAgent DemoTx DemoRx
ready = record demo_crypto { tls = record { secrets_left = 3 } }

abbrev installed : Crypto DemoAgent DemoTx DemoRx
installed = (install_keys demo_nss demo_tls server ready).1

installing : install_keys demo_nss demo_tls server ready ≡ (ok true, installed)
unfolding install_keys is_final install_handshake_keys install_handshake_secret handshake_cipher
    info cipher_suite set_handshake_keys maybe_install_application_write_key
    set_application_write_key continue_early AppData.new update_secret Dx.new limit
installing = refl

install_keys-Writes_example :
    ((is_final (demo_tls.state ready.tls) ≡ true) × (true ≡ false) × (installed ≡ ready))
    ⊎ ((is_final (demo_tls.state ready.tls) ≡ false)
        × (mid : Crypto DemoAgent DemoTx DemoRx) × Handshakes demo_nss demo_tls true ready mid
        × Writes demo_nss demo_tls server version_1 mid installed)
install_keys-Writes_example =
    install_keys-Writes demo_nss demo_tls server true ready installed installing

abbrev early : Crypto DemoAgent DemoTx DemoRx
early = (enable_0rtt demo_nss demo_tls version_1 client demo_crypto).1

-- The connection once its handshake has chosen a cipher suite.
abbrev chosen : Crypto DemoAgent DemoTx DemoRx
chosen = record demo_crypto { states = record two_versions { cipher = aes_128_gcm_sha256 } }

abbrev in_use : Crypto DemoAgent DemoTx DemoRx
in_use = (install_application_keys demo_nss demo_tls version_1 50 chosen).1

using : install_application_keys demo_nss demo_tls version_1 50 chosen ≡ (ok tt, in_use)
unfolding install_application_keys maybe_install_application_write_key install_application_read_key
    set_application_write_key set_application_read_key install_read_keys continue_early AppData.new
    AppData.next Dx.new Dx.next next_invocations limit update_secret
using = refl

install_application_keys-Keyed_example :
    (r : Handle) × (some 23 ≡ some r)
    × Keyed demo_nss version_1 aes_128_gcm_sha256 33 r in_use.states
    × IsSynced in_use.states
    × (in_use.states.zero_rtt ≡ none)
    × (in_use.states.read_update_time ≡ none)
install_application_keys-Keyed_example =
    install_application_keys-Keyed demo_nss demo_tls version_1 50 33 chosen in_use refl refl using
