-- ===== src/Tests/Judged.antt =====
-- The theorem on the judgement of certificates, applied.
use never_fox.Crypto.Records.{with_tx, sent}
use never_fox.Tests.Connection.{demo_tls, demo_stream}
use never_fox.States.{no_keys}
use never_fox.Tests.Buffers.{demo_txs, DemoTx, DemoRx, demo_rxs}
use never_fox.Crypto.Handshake.{handshake-judged, agent_tls, handshake-Settled, connect}
use never_fox.Agent.Outcome.{Settled}
use never_fox.Crypto.{handshake, after_handshake, Crypto, buffer_records}
use never_fox.Crypto.Agent.{authentication_pending, Tls, Record, HandshakeState}
use never_fox.Streams.{CryptoStreams, get_stream, set_stream, send}
use never_fox.Agent.Judged.{handshake_raw-judged}
use never_fox.Types.{other_nss, aes_128_gcm_sha256, Epoch, Space, version_1, Error}
use never_fox.Agent.{
  Engine, SecretAgent, authenticated, handshake_raw, alert_sent, auth_complete, prepare, setup_raw,
  set_raw, complete_authentication, feed, drive, update_state, wait, capture_error, finish,
}
use never_fox.Session.{SecretAgentInfo, new_pre_info, get_alpn, new_info, ech_public_name}
use never_fox.Agent.Fair.{AuthLaws, member}
use never_fox.Base.{
  ◌==◌, if◌then◌else◌, map_option, codes, All, Res, ok, err, ◌≡◌, refl, Bool, true, false, ◌&&◌,
  none, some, [], ◌∷◌, arith,
}
use never_fox.Agent
use never_fox.Agent.Fair.{judged, drove, start}
use never_fox.Session.{negotiated}
use never_fox.Crypto.Agent.{complete, new, authentication_needed}
use never_fox.Tests.Handshake.{demo_engine}

-- A peer that shows its certificate, and waits for it to be judged.
record Judging : Type 0 where
  pub asked : Bool
  pub approved : Bool

abbrev shown_record : Record
shown_record = record { ct = 22; epoch = Epoch.handshake; bytes = 11 ∷ 0 ∷ [] }

abbrev judging_engine : Engine Judging
judging_engine = record {
  set_now = λ now e. (ok tt, e);
  register = λ e. (ok tt, e);
  setup = λ e. (ok tt, e);
  write_record = λ r e. ((ok tt, []), e);
  authenticate = λ status e.
      if status == 0
      then ((ok tt, []), record { asked = e.asked; approved = true })
      else ((err (other_nss status), alert_sent 2 42 ∷ []), e);
  force_handshake = λ e. if e.asked && e.approved then ((ok tt, []), e) else (
    (err (other_nss 0), auth_complete ∷ []),
    record { asked = true; approved = e.approved },
  );
  records = λ e. shown_record ∷ [];
  would_block = λ error. elim error [ other_nss n ↦ n == 0 | _ ↦ false ];
  convert_ech_error = λ e error. error;
  preliminary_channel_info = λ e. demo_engine.preliminary_channel_info 0;
  channel_info = λ e. demo_engine.channel_info 0;
  next_proto = λ e. ok (record { state = negotiated; chosen = 104 ∷ 51 ∷ []; chosen_len = 2 });
  take_read = λ epoch e. (none, e);
  take_write = λ epoch e. (none, e);
  is_utf8 = λ b. true;
  bad_text = other_nss 8;
  configure = λ c e. (ok tt, e);
  calls = λ e. [];
  implemented_ciphers = λ e. [];
  integer_overflow = other_nss 6;
  interior_nul = other_nss 7;
  wrap = λ input e. e;
  unwrap = λ e. e;
  take_output = λ e. ([], e);
  close_fd = λ e. e;
  send_session_ticket = λ extra e. (ok tt, e);
  export_keys = λ label context out e. (ok tt, out);
}

judging_laws : AuthLaws judging_engine
judging_laws = record {
  asked = λ e. e.asked;
  approved = λ e. e.approved;
  set_now-approved = λ now e h. h;
  register-approved = λ e h. h;
  setup-approved = λ e h. h;
  write_record-approved = λ r e h. h;
  force_handshake-approved = λ e h. ground (arith, h);
  authenticate-approved = λ status e h. ground (arith, h);
  take_read-approved = λ epoch e h. h;
  take_write-approved = λ epoch e h. h;
  force_handshake_waits = λ e e' cs h asked. ground (arith, h);
}

abbrev unasked : SecretAgent Judging
unasked = record {
  engine = record { asked = false; approved = false };
  raw = none;
  auth_required = false;
  alert = none;
  state = new;
  extension_handlers = [];
  ech_config = [];
  closed = false;
}

abbrev asked_agent : SecretAgent Judging
asked_agent = (handshake_raw judging_engine 0 none unasked).1

abbrev judged_agent : SecretAgent Judging
judged_agent = (authenticated 0 asked_agent).1

abbrev done_agent : SecretAgent Judging
done_agent = (handshake_raw judging_engine 1 none judged_agent).1

abbrev done_info : SecretAgentInfo
done_info = record {
  version = 0x304;
  cipher = aes_128_gcm_sha256;
  group = 29;
  resumed = false;
  early_data = false;
  ech_accepted = false;
  alpn = some (104 ∷ 51 ∷ []);
  signature_scheme = 0x403;
}

needed : authentication_needed asked_agent.state ≡ true
unfolding handshake_raw prepare setup_raw set_raw complete_authentication feed drive update_state
    wait capture_error new_pre_info get_alpn ech_public_name authentication_needed
needed = refl

ending : handshake_raw judging_engine 1 none judged_agent ≡ (ok (shown_record ∷ []), done_agent)
unfolding handshake_raw prepare setup_raw set_raw complete_authentication feed drive update_state
    wait finish capture_error new_pre_info new_info get_alpn ech_public_name authentication_needed
    Agent.authenticated
ending = refl

ended : done_agent.state ≡ complete done_info
unfolding handshake_raw prepare setup_raw set_raw complete_authentication feed drive update_state
    wait finish capture_error new_pre_info new_info get_alpn ech_public_name authentication_needed
    Agent.authenticated
ended = refl

was_asked : judging_laws.asked done_agent.engine ≡ true
unfolding handshake_raw prepare setup_raw set_raw complete_authentication feed drive update_state
    wait finish capture_error new_pre_info new_info get_alpn ech_public_name authentication_needed
    Agent.authenticated judging_laws
was_asked = refl

handshake_raw-judged_example : member 0 (0 ∷ []) ≡ true
unfolding judging_laws
handshake_raw-judged_example =
    handshake_raw-judged judging_engine judging_laws 1 none done_agent (shown_record ∷ []) done_info
      (judged 0 needed (drove 0 none (start unasked refl refl))) ending ended was_asked

-- The same over a connection.
abbrev demo_agent_tls : Tls (SecretAgent Judging)
demo_agent_tls = agent_tls judging_engine 22 demo_tls.space_of demo_tls.epoch_of

abbrev session : SecretAgent Judging → Crypto (SecretAgent Judging) DemoTx DemoRx
session a = record {
  version = version_1;
  protocols = codes "h3" ∷ [];
  tls = a;
  streams = CryptoStreams.initial demo_stream demo_stream demo_stream;
  states = no_keys;
}

abbrev run :
    Crypto (SecretAgent Judging) DemoTx DemoRx
    → Res Error HandshakeState × Crypto (SecretAgent Judging) DemoTx DemoRx
run =
    connect demo_txs demo_rxs judging_engine 22 demo_tls.space_of demo_tls.epoch_of 0
      Space.handshake (some (1 ∷ []))

abbrev asked_session : Crypto (SecretAgent Judging) DemoTx DemoRx
asked_session = (run (session unasked)).1

connecting : run (session unasked) ≡ (ok authentication_pending, asked_session)
unfolding handshake after_handshake buffer_records send get_stream set_stream handshake_raw prepare
    setup_raw set_raw complete_authentication feed drive update_state wait capture_error
    new_pre_info get_alpn ech_public_name
connecting = refl

-- The bytes of the record are in the stream of its space.
streamed :
    get_stream Space.handshake asked_session.streams
    ≡ some (record { tx = demo_txs.send (11 ∷ 0 ∷ []) demo_stream.tx; rx = demo_stream.rx })
unfolding handshake after_handshake buffer_records send get_stream set_stream handshake_raw prepare
    setup_raw set_raw complete_authentication feed drive update_state wait capture_error
    new_pre_info get_alpn ech_public_name
streamed = refl

handshake-Settled_example :
    Settled judging_engine asked_session.tls
    × (authentication_pending ≡ asked_session.tls.state)
    × (asked_session.states ≡ no_keys)
    × ((s : Space)
        → All (λ r. r.ct ≡ 22) (shown_record ∷ [])
          × (get_stream s asked_session.streams
              ≡ map_option
                  (with_tx demo_txs demo_rxs demo_agent_tls
                    (sent demo_txs demo_rxs demo_agent_tls s (shown_record ∷ [])))
                  (get_stream s (session unasked).streams)))
handshake-Settled_example =
    handshake-Settled demo_txs demo_rxs judging_engine 22 demo_tls.space_of demo_tls.epoch_of 0
      Space.handshake (some (1 ∷ [])) (session unasked) asked_session authentication_pending
      connecting

abbrev done_session : Crypto (SecretAgent Judging) DemoTx DemoRx
done_session = (run (session judged_agent)).1

completing : run (session judged_agent) ≡ (ok (complete done_info), done_session)
unfolding handshake after_handshake buffer_records send get_stream set_stream handshake_raw prepare
    setup_raw set_raw complete_authentication feed drive update_state wait finish capture_error
    new_pre_info new_info get_alpn ech_public_name authentication_needed Agent.authenticated
completing = refl

session_asked : judging_laws.asked done_session.tls.engine ≡ true
unfolding handshake after_handshake buffer_records send get_stream set_stream handshake_raw prepare
    setup_raw set_raw complete_authentication feed drive update_state wait finish capture_error
    new_pre_info new_info get_alpn ech_public_name authentication_needed Agent.authenticated
    judging_laws
session_asked = refl

handshake-judged_example : member 0 (0 ∷ []) ≡ true
unfolding judging_laws
handshake-judged_example =
    handshake-judged demo_txs demo_rxs judging_engine 22 demo_tls.space_of demo_tls.epoch_of
      judging_laws (0 ∷ []) 0 Space.handshake (some (1 ∷ [])) (session judged_agent) done_session
      done_info (judged 0 needed (drove 0 none (start unasked refl refl))) completing session_asked
