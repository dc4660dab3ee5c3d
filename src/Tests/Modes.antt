-- ===== src/Tests/Modes.antt =====
-- The theorem on the two ways to drive a handshake, applied.
use never_fox.Crypto.Agent.{authentication_pending}
use never_fox.Session.{new_pre_info, get_alpn, ech_public_name}
use never_fox.Types.{mixed_handshake_method}
use never_fox.Agent.Modes.{drives, modes_exclude}
use never_fox.Agent.{
  SecretAgent, handshake_raw, prepare, setup_raw, set_raw, complete_authentication, feed, drive,
  update_state, wait, capture_error,
}
use never_fox.Tests.Handshake.{demo_engine, fresh_agent, first_record}
use never_fox.Base.{ok, err, ℕ, ◌≡◌, refl, true, false, none, some, [], ◌∷◌}

abbrev bound_agent : SecretAgent ℕ
bound_agent = (drives demo_engine true 0 (some first_record) [] fresh_agent).1

binding : drives demo_engine true 0 (some first_record) [] fresh_agent ≡ (ok tt, bound_agent)
unfolding handshake_raw prepare setup_raw set_raw complete_authentication feed drive update_state
    wait capture_error new_pre_info get_alpn ech_public_name
binding = refl

-- It waits for the certificate to be judged.
pending : bound_agent.state ≡ authentication_pending
unfolding handshake_raw prepare setup_raw set_raw complete_authentication feed drive update_state
    wait capture_error new_pre_info get_alpn ech_public_name
pending = refl

modes_exclude_example :
    drives demo_engine false 7 none (1 ∷ []) bound_agent
    ≡ (err mixed_handshake_method, record bound_agent { engine = bound_agent.engine })
modes_exclude_example =
    modes_exclude demo_engine true 0 7 (some first_record) none [] (1 ∷ []) fresh_agent bound_agent
      bound_agent.engine binding refl
