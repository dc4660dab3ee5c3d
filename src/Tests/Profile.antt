-- ===== src/Tests/Profile.antt =====
-- The theorem on `Crypto::new`, applied.
use never_fox.States.{no_keys}
use never_fox.Agent.Parties.{set_agent}
use never_fox.Nss.{Bytes}
use never_fox.Agent.{Engine}
use never_fox.Streams.{CryptoStream, CryptoStreams}
use never_fox.Crypto.{Crypto}
use never_fox.Agent.Parties
use never_fox.Crypto.Setup.{new, setup_tls}
use never_fox.Crypto.Agent
use never_fox.Tests.Buffers.{DemoTx, DemoRx}
use never_fox.Types.{internal, version_1, other, aes_128_gcm_sha256}
use never_fox.Socket.{grease, Calls, option_set}
use never_fox.Base.{codes, ok, err, true, false, none, List, [], ◌∷◌}

-- A socket that is its calls.
abbrev demo_socket : Engine Calls
demo_socket = record {
  set_now = λ now e. (ok tt, e);
  register = λ e. (ok tt, e);
  setup = λ e. (ok tt, e);
  write_record = λ r e. ((ok tt, []), e);
  authenticate = λ status e. ((ok tt, []), e);
  force_handshake = λ e. ((ok tt, []), e);
  records = λ e. [];
  configure = λ c e. (ok tt, c ∷ e);
  calls = λ e. e;
  implemented_ciphers = λ e. other 0x1305 ∷ aes_128_gcm_sha256 ∷ [];
  would_block = λ error. false;
  convert_ech_error = λ e error. error;
  preliminary_channel_info = λ e. err internal;
  channel_info = λ e. err internal;
  next_proto = λ e. err internal;
  take_read = λ epoch e. (none, e);
  take_write = λ epoch e. (none, e);
  is_utf8 = λ b. true;
  bad_text = internal;
  integer_overflow = internal;
  interior_nul = internal;
  wrap = λ input e. e;
  unwrap = λ e. e;
  take_output = λ e. ([], e);
  close_fd = λ e. e;
  send_session_ticket = λ extra e. (ok tt, e);
  export_keys = λ label context out e. (ok tt, out);
}

abbrev pub demo_party : Parties.Client Calls
demo_party = record {
  agent = record {
    engine = option_set grease true ∷ [];
    raw = none;
    auth_required = false;
    alert = none;
    state = Agent.new;
    extension_handlers = [];
    ech_config = [];
    closed = false;
  };
  server_name = codes "example.org";
  resumption = [];
}

abbrev demo_names : List Bytes
demo_names = codes "h3" ∷ []

abbrev empty_stream : CryptoStream DemoTx DemoRx
empty_stream = record { tx = record { stream = []; sent = 0 }; rx = record { stored = [] } }

abbrev configured : Crypto (Parties.Agent Calls) DemoTx DemoRx
configured = record {
  version = version_1;
  protocols = demo_names;
  tls =
      set_agent
        (setup_tls demo_socket (Parties.client demo_party) true version_1 demo_names
          demo_party.agent).1
        (Parties.client demo_party);
  streams = CryptoStreams.initial empty_stream empty_stream empty_stream;
  states = no_keys;
}
