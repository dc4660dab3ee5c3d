-- ===== src/Tests/Peers.antt =====
-- The theorems on packets that both ends of a connection handle, applied.
use never_fox.States.Install.{
  set_application_write_key, set_application_read_key, install_read_keys, continue_early,
}
use never_fox.States.Update.{auto_update, initiate_key_update, maybe_update_write}
use never_fox.Dx.{
  CryptoDxState, should_update, can_update, adjust_limit, next_invocations, key_phase, limit,
}
use never_fox.AppData.{CryptoDxAppData, next, new, update_secret}
use never_fox.Types.{version_1, aes_128_gcm_sha256, Range, Error, read, write, Epoch}
use never_fox.Base.{
  leb, if◌then◌else◌, length, take, drop, Res, ok-injective, ok, panic, ℕ, ◌+◌, ◌-◌, ◌≡◌, refl, sym,
  ap, inr, false, none, some, List, [], ◌∷◌, arith,
}
use never_fox.Tests.Data.{demo_nss, demo_key, demo_app}
use never_fox.Dx
use never_fox.States.Select.{rx, tx_mut}
use never_fox.Dx.{invoked, used, open_packet, open_body, body_length, seal, slice}
use never_fox.Nss.{Nss, Bytes}
use never_fox.Dx.Limits.{Packet}
use never_fox.Dx.Opens.{AeadLaws, answer, own_range, encrypt-decrypt}
use never_fox.States.Traffic
use never_fox.States.Run
use never_fox.States.Run.{initiates, auto_updates}
use never_fox.States.Traffic.{updates, seals, opens}
use never_fox.States.Connect.{connect, connect-Keyed}
use never_fox.States.Sync.{IsSynced}
use never_fox.States.Secrets.{Keyed}
use never_fox.States.Peers.{sealed_packets_open, header_masks_agree}
use never_fox.AppData.Header.{HpLaws}
use never_fox.States.Initial.{rx_hp}
use never_fox.Dx.{compute_mask}
use never_fox.States.{no_keys, CryptoStates, Slot, key_at}

-- A cipher that leaves the text as it is, with a tag of 16 bytes.
abbrev tagging_nss : Nss
tagging_nss = record demo_nss {
  encrypt_in_place = λ aead pn aad buf. if leb 16 (length buf) then ok (length buf, buf) else panic;
  decrypt_in_place = λ aead pn aad buf. ok (length buf - 16, buf);
  hp_mask = λ key sample. ok (key ∷ sample);
}

tagging_laws : AeadLaws tagging_nss
tagging_laws = record {
  pairs = λ cipher secret label ke kd made made'. record {
    opens =
        λ pn n aad body sealed e. (length sealed - 16, sealed, refl, ground arith, ground arith);
  };
}

abbrev start : CryptoStates
start = record no_keys { cipher = aes_128_gcm_sha256 }

-- A header of two bytes, a text of three, and room for the tag.
abbrev text : Bytes
text = 64 ∷ 0 ∷ 5 ∷ 6 ∷ 7 ∷ 0 ∷ 0 ∷ 0 ∷ 0 ∷ 0 ∷ 0 ∷ 0 ∷ 0 ∷ 0 ∷ 0 ∷ 0 ∷ 0 ∷ 0 ∷ 0 ∷ 0 ∷ 0 ∷ []

abbrev hdr : Range
hdr = record { start = 0; end = 2 }

abbrev first_packet : Packet
first_packet = record { pn = 0; hdr = hdr; buf = text }

-- The one end sends a packet, and updates its keys when it is acknowledged.
abbrev sending : List Traffic.Event
sending = seals first_packet ∷ updates (initiates (some 0)) ∷ []

-- The other end opens it.
abbrev receiving : List Traffic.Event
receiving = opens false first_packet ∷ updates auto_updates ∷ []

abbrev sender : CryptoStates
sender = (connect tagging_nss version_1 7 8 50 sending start).1

abbrev receiver : CryptoStates
receiver = (connect tagging_nss version_1 8 7 60 receiving start).1

abbrev write_keys : CryptoDxAppData
write_keys = elim sender.app_write [ none ↦ demo_app write 0 0 0 | some w ↦ w ]

abbrev read_keys : CryptoDxAppData
read_keys = elim receiver.app_read [ none ↦ demo_app read 0 0 0 | some r ↦ r ]

abbrev second : Res Error (ℕ × Bytes) × CryptoDxState
second = Dx.encrypt tagging_nss 1 hdr text write_keys.dx

ran :
    (connect tagging_nss version_1 7 8 50 sending start ≡ (ok tt, sender))
    × (connect tagging_nss version_1 8 7 60 receiving start ≡ (ok tt, receiver))
    × (sender.app_write ≡ some write_keys)
    × (receiver.app_read ≡ some read_keys)
    × (write_keys.dx.epoch ≡ read_keys.dx.epoch + 1)
    × (second ≡ (ok (19, text), second.1))
unfolding connect Traffic.run Traffic.step Run.step initiate_key_update can_update
    maybe_update_write next Dx.next next_invocations set_application_write_key
    set_application_read_key install_read_keys continue_early new Dx.new limit update_secret tx_mut
    Dx.encrypt invoked used adjust_limit body_length seal slice auto_update should_update rx
    key_phase Dx.decrypt open_packet open_body
ran = (refl, refl, refl, refl, refl, refl)

sealed_packets_open_example :
    (slot : Slot) × (k : CryptoDxState) × (m : ℕ) × (plain : Bytes) × (rx version_1
        Epoch.application_data
        (key_phase write_keys.dx)
        receiver
      ≡ some slot)
    × (key_at slot receiver ≡ some k)
    × ((Dx.decrypt tagging_nss 1 (own_range hdr) text k).0 ≡ answer k 1 (m, 64 ∷ 0 ∷ plain))
    × (m + 16 ≡ 19)
    × (take m plain ≡ take m (drop 2 text))
sealed_packets_open_example =
    sealed_packets_open tagging_nss version_1 7 8 8 50 60 sending receiving start sender start
      receiver write_keys read_keys 1 19 hdr text text second.1 tagging_laws refl refl refl ran.0
      ran.1 ran.2 ran.3 (inr ran.4) ran.5

one_sealed :
    Dx.encrypt tagging_nss 7 hdr text (demo_key write 3 0 0)
    ≡ (ok (19, text), (Dx.encrypt tagging_nss 7 hdr text (demo_key write 3 0 0)).1)
unfolding Dx.encrypt invoked used adjust_limit body_length seal slice
one_sealed = refl

encrypt-decrypt_example :
    (m : ℕ) × (plain : Bytes) × ((Dx.decrypt tagging_nss 7
        (own_range hdr)
        text
        (demo_key read 3 0 0)).0
      ≡ answer (demo_key read 3 0 0) 7 (m, 64 ∷ 0 ∷ plain))
    × (m + 16 ≡ 19)
    × (take m plain ≡ take m (drop 2 text))
encrypt-decrypt_example =
    encrypt-decrypt tagging_nss (demo_key write 3 0 0)
      (Dx.encrypt tagging_nss 7 hdr text (demo_key write 3 0 0)).1 (demo_key read 3 0 0) 7 19 hdr
      text text (tagging_laws.pairs aes_128_gcm_sha256 3 [] 103 103 refl refl) one_sealed

mask_laws : HpLaws tagging_nss
mask_laws = record { masks = λ k k' sample e. ap (λ x. ok (x ∷ sample)) (sym (ok-injective e)) }

header_masks_agree_example :
    (slot : Slot) × (k : CryptoDxState) × (rx_hp tagging_nss version_1 Epoch.application_data
        receiver
      ≡ (some slot, receiver))
    × (key_at slot receiver ≡ some k)
    × (compute_mask tagging_nss k (9 ∷ []) ≡ compute_mask tagging_nss write_keys.dx (9 ∷ []))
header_masks_agree_example =
    header_masks_agree tagging_nss version_1 7 8 8 50 60 sending receiving start sender start
      receiver write_keys (9 ∷ []) mask_laws refl refl refl ran.0 ran.1 ran.2

connect-Keyed_example : IsSynced sender × Keyed tagging_nss version_1 aes_128_gcm_sha256 7 8 sender
connect-Keyed_example = connect-Keyed tagging_nss version_1 7 8 50 sending start sender refl ran.0
