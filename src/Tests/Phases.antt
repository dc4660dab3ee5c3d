-- ===== src/Tests/Phases.antt =====
-- The theorems on application keys and their updates, applied.
use never_fox.States.Phase.{rx-Synced}
use never_fox.States.Start.{set_application_write_key-used}
use never_fox.Tests.Data.{demo_app, demo_nss, or_default, demo_key}
use never_fox.States.Install.{
  set_application_write_key, set_application_read_key, continue_early, install_read_keys,
}
use never_fox.Nss.{Handle}
use never_fox.States.{CryptoStates, no_keys, reads, reads_next}
use never_fox.States.Sync.{Synced}
use never_fox.States.Select.{rx}
use never_fox.AppData.Chain.{update_times, derived, peers_agree}
use never_fox.Types.{Epoch, Direction, version_1, write, aes_128_gcm_sha256, read, Mode}
use never_fox.Dx.{limit, used, next_invocations, CryptoDxState, continuation, key_phase, can_update}
use never_fox.AppData.{new, next, CryptoDxAppData, update_secret}
use never_fox.Dx
use never_fox.Dx.{invoked, adjust_limit, body_length, seal, slice, open_packet, open_body}
use never_fox.Dx.{should_update}
use never_fox.Base.{if◌then◌else◌, eq_bool, is_ok, ok, ◌≡◌, refl, inl, false, none, some, arith}

abbrev first_keys : Direction → CryptoDxAppData
first_keys dir = or_default (demo_app dir 0 0 0) (new demo_nss version_1 dir 7 aes_128_gcm_sha256)

first_made :
    (dir : Direction) → new demo_nss version_1 dir 7 aes_128_gcm_sha256 ≡ ok (first_keys dir)
unfolding new Dx.new limit update_secret
first_made read = refl
first_made write = refl

abbrev updated_keys : Direction → CryptoDxAppData
updated_keys dir = or_default (demo_app dir 0 0 0) (update_times demo_nss (first_keys dir) 2)

updated_made : (dir : Direction) → update_times demo_nss (first_keys dir) 2 ≡ ok (updated_keys dir)
unfolding update_times next new Dx.new Dx.next next_invocations limit update_secret
updated_made read = refl
updated_made write = refl

peers_agree_example :
    (current : Handle) × (derived demo_nss aes_128_gcm_sha256 7 2 ≡ ok current)
    × (demo_nss.aead_new aes_128_gcm_sha256 current (demo_nss.label_prefix version_1) Mode.encrypt
        ≡ ok (updated_keys write).dx.aead)
    × (demo_nss.aead_new aes_128_gcm_sha256 current (demo_nss.label_prefix version_1) Mode.decrypt
        ≡ ok (updated_keys read).dx.aead)
    × ((updated_keys write).dx.epoch ≡ 5)
    × ((updated_keys read).dx.epoch ≡ 5)
    × (key_phase (updated_keys write).dx ≡ key_phase (updated_keys read).dx)
peers_agree_example =
    peers_agree demo_nss version_1 aes_128_gcm_sha256 7 2 (first_keys write) (updated_keys write)
      (first_keys read) (updated_keys read) (first_made write) (first_made read)
      (updated_made write) (updated_made read)

-- A connection in its first key phase.
abbrev pub connected : CryptoStates
connected = record no_keys {
  cipher = aes_128_gcm_sha256;
  app_write = some (demo_app write 3 5 9);
  app_read = some (demo_app read 3 5 9);
  app_read_next = some (demo_app read 4 9 9);
}

pub connected-Synced :
    Synced connected (demo_app write 3 5 9) (demo_app read 3 5 9) (demo_app read 4 9 9)
connected-Synced = record {
  has_write = refl;
  has_read = refl;
  has_next = refl;
  write_epoch = inl refl;
  next_epoch = refl;
  small = omega arith;
  waits = inl refl;
}

rx-Synced_example :
    rx version_1 Epoch.application_data false connected
    ≡ some (if eq_bool (key_phase (demo_key read 3 5 9)) false then reads else reads_next)
rx-Synced_example =
    rx-Synced version_1 false connected (demo_app write 3 5 9) (demo_app read 3 5 9)
      (demo_app read 4 9 9) connected-Synced

-- A server that may read 0-RTT packets.
abbrev early_reader : CryptoStates
early_reader = record no_keys { cipher = aes_128_gcm_sha256; zero_rtt = some (demo_key read 1 0 0) }

-- A client that has written 0-RTT packets 0 to 8.
abbrev pub early_writer : CryptoStates
early_writer = record no_keys {
  cipher = aes_128_gcm_sha256;
  zero_rtt = some (demo_key write 1 0 9);
}

abbrev pub with_write : CryptoStates
with_write = (set_application_write_key demo_nss version_1 7 early_writer).1

pub write_set : set_application_write_key demo_nss version_1 7 early_writer ≡ (ok tt, with_write)
unfolding set_application_write_key continue_early continuation new Dx.new limit update_secret
write_set = refl

abbrev with_both : CryptoStates
with_both = (set_application_read_key demo_nss version_1 8 50 with_write).1

read_set : set_application_read_key demo_nss version_1 8 50 with_write ≡ (ok tt, with_both)
unfolding set_application_read_key set_application_write_key install_read_keys continue_early
    continuation new Dx.new next Dx.next next_invocations limit update_secret
read_set = refl

abbrev write_app : CryptoDxAppData
write_app = elim with_write.app_write [ none ↦ demo_app write 0 0 0 | some w ↦ w ]

write_there : with_write.app_write ≡ some write_app
unfolding set_application_write_key continue_early continuation new Dx.new limit update_secret
write_there = refl

set_application_write_key-used_example : is_ok (used 8 write_app.dx).0 ≡ false
set_application_write_key-used_example =
    set_application_write_key-used demo_nss version_1 7 early_writer with_write
      (demo_key write 1 0 9) write_app 8 refl refl write_set write_there (omega arith)
