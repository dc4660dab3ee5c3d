-- ===== src/Tests/Traffic.antt =====
-- The theorems on histories of packets and key updates, applied.
use never_fox.Tests.Phases.{connected, connected-Synced, early_writer, with_write, write_set}
use never_fox.Tests.Data.{demo_app, demo_nss, demo_key}
use never_fox.States.Install.{set_application_write_key, continue_early}
use never_fox.States.Update.{
  auto_update, maybe_update_write, key_update_received, check_key_update, rotate_read,
  check_pn_overlap,
}
use never_fox.States.{CryptoStates, has_0rtt_read}
use never_fox.States.Sync.{IsSynced}
use never_fox.States.Select.{rx}
use never_fox.Types.{version_1, write, read}
use never_fox.Dx.{limit, used, next_invocations, CryptoDxState, continuation, key_phase, can_update}
use never_fox.AppData.{new, next, CryptoDxAppData, update_secret}
use never_fox.Dx
use never_fox.Dx.Limits.{Packet}
use never_fox.States.Traffic.Reads.{tries, tries-rotate_read}
use never_fox.States.Cycle.{SettledAt, key_update_cycle}
use never_fox.States.Update.{initiate_key_update}
use never_fox.States.Traffic.Limit.{sealed_at, set_application_write_key-sealed_at}
use never_fox.Dx.{invoked, adjust_limit, body_length, seal, slice, open_packet, open_body}
use never_fox.States.Traffic
use never_fox.States.Traffic.{updates, seals, opens}
use never_fox.States.Traffic.Kept.{traffic-run-IsSynced}
use never_fox.States.Select.{tx_mut}
use never_fox.States.Run.{step, receives_update, checks_overlap, checks, auto_updates}
use never_fox.Dx.{should_update}
use never_fox.States.Update.{auto_update}
use never_fox.Base.{codes, ◌>>◌, ok, ◌≤◌, ◌≡◌, refl, true, false, some, List, [], ◌∷◌, arith}

-- The peer updates its keys, and the timer runs out; packets come in between.
abbrev packet : Packet
packet = record {
  pn = 9;
  hdr = record { start = 0; end = 1 };
  buf = codes "header and sealed text";
}

abbrev history : List Traffic.Event
history =
    seals packet
    ∷ updates (receives_update 50)
    ∷ updates checks_overlap
    ∷ opens true packet
    ∷ updates (checks 40)
    ∷ updates (checks 60)
    ∷ opens false packet
    ∷ updates auto_updates
    ∷ []

ran :
    Traffic.run demo_nss version_1 history connected
    ≡ (ok tt, (Traffic.run demo_nss version_1 history connected).1)
unfolding Traffic.run Traffic.step step auto_update should_update maybe_update_write
    key_update_received check_key_update rotate_read check_pn_overlap has_0rtt_read continuation
    can_update next Dx.next next_invocations limit update_secret tx_mut rx key_phase Dx.encrypt
    Dx.decrypt invoked used adjust_limit body_length seal slice open_packet open_body
ran = refl

traffic-run-IsSynced_example : IsSynced (Traffic.run demo_nss version_1 history connected).1
traffic-run-IsSynced_example =
    traffic-run-IsSynced demo_nss version_1 history connected
      (Traffic.run demo_nss version_1 history connected).1
      (demo_app write 3 5 9, demo_app read 3 5 9, demo_app read 4 9 9, connected-Synced) ran

abbrev tried : CryptoStates
tried =
    ((Traffic.run demo_nss version_1
          (tries (key_phase (demo_key read 3 5 9)) (packet ∷ packet ∷ []))
        >> rotate_read demo_nss)
      connected).1

trying :
    (Traffic.run demo_nss version_1 (tries (key_phase (demo_key read 3 5 9)) (packet ∷ packet ∷ []))
        >> rotate_read demo_nss)
      connected
    ≡ (ok tt, tried)
unfolding Traffic.run Traffic.step rotate_read next Dx.next next_invocations limit update_secret rx
    key_phase Dx.decrypt invoked used slice open_packet open_body
trying = refl

tries-rotate_read_example :
    (tried.app_read ≡ some (demo_app read 4 9 9))
    × (n' : CryptoDxAppData) × (tried.app_read_next ≡ some n')
    × (n'.dx.invocations ≡ 1000)
tries-rotate_read_example =
    tries-rotate_read demo_nss version_1 (packet ∷ packet ∷ []) connected tried
      (demo_app write 3 5 9) (demo_app read 3 5 9) (demo_app read 4 9 9) connected-Synced refl
      trying

limited : limit write early_writer.cipher ≡ ok 0x1000_0000
unfolding limit
limited = refl

set_application_write_key-sealed_at_example :
    sealed_at demo_nss version_1 3 history with_write ≤ 0x1000_0000
set_application_write_key-sealed_at_example =
    set_application_write_key-sealed_at demo_nss version_1 7 0x1000_0000 3 history early_writer
      with_write limited write_set

one_sealed : sealed_at demo_nss version_1 3 history with_write ≡ 1
unfolding sealed_at Traffic.step step auto_update should_update maybe_update_write
    key_update_received check_key_update rotate_read check_pn_overlap has_0rtt_read continuation
    can_update next Dx.next next_invocations limit update_secret tx_mut rx key_phase Dx.encrypt
    Dx.decrypt invoked used adjust_limit body_length seal slice open_packet open_body
    set_application_write_key continue_early new Dx.new
one_sealed = refl

-- One end starts an update after packet 6 is acknowledged; the other end hears of it.
abbrev started : CryptoStates
started = (initiate_key_update demo_nss (some 6) connected).1

abbrev answered : CryptoStates
answered = (key_update_received demo_nss 50 started).1

abbrev heard : CryptoStates
heard = (key_update_received demo_nss 60 connected).1

updating :
    (initiate_key_update demo_nss (some 6) connected ≡ (ok tt, started))
    × (key_update_received demo_nss 60 connected ≡ (ok tt, heard))
    × (key_update_received demo_nss 50 started ≡ (ok tt, answered))
    × (has_0rtt_read answered ≡ false)
    × (has_0rtt_read heard ≡ false)
    × (check_key_update demo_nss 55 answered ≡ (ok tt, (check_key_update demo_nss 55 answered).1))
    × (check_key_update demo_nss 60 heard ≡ (ok tt, (check_key_update demo_nss 60 heard).1))
unfolding initiate_key_update can_update maybe_update_write key_update_received check_key_update
    rotate_read has_0rtt_read next Dx.next next_invocations limit update_secret
updating = (refl, refl, refl, refl, refl, refl, refl)

connected-SettledAt : SettledAt 3 connected
connected-SettledAt =
    (demo_app write 3 5 9, demo_app read 3 5 9, demo_app read 4 9 9, connected-Synced, refl, refl)

key_update_cycle_example :
    SettledAt 4 (check_key_update demo_nss 55 answered).1
    × SettledAt 4 (check_key_update demo_nss 60 heard).1
key_update_cycle_example =
    key_update_cycle demo_nss (some 6) 3 50 60 55 60 connected started answered
      (check_key_update demo_nss 55 answered).1 connected heard
      (check_key_update demo_nss 60 heard).1 connected-SettledAt connected-SettledAt updating.0
      updating.1 updating.2 updating.3 updating.4 (omega arith) (omega arith) updating.5 updating.6
