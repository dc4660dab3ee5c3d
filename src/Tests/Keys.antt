-- ===== src/Tests/Keys.antt =====
-- The theorems on one key, applied.
use never_fox.Types.{
  version_1, packet_number_overlap, aes_128_gcm_sha256, read, write, Epoch, Error,
}
use never_fox.Tests.Data.{demo_nss, demo_key, or_default}
use never_fox.Dx.Numbers.{
  UsedSpec, IsValid, continuation_rejects_delayed, used-UsedSpec, next_follows, sees,
  continuation-sees,
}
use never_fox.Dx
use never_fox.Dx.{
  next, used, CryptoDxState, continuation, key_phase, limit, encrypt, invoked, next_pn, seal,
  empty_range, slice, adjust_limit, body_length,
}
use never_fox.Dx.Limits.{Packet, encrypt_all, payload, new-encrypt_all}
use never_fox.Base.{
  ltb, leb, length, Res, is_ok, ok, err, ℕ, ◌^◌, ◌≤◌, ◌<◌, ◌≡◌, refl, ◌⊎◌, true, false, ◌&&◌, not,
  List, [], ◌∷◌, arith,
}

pair-IsValid : IsValid (demo_key read 3 5 9)
pair-IsValid = record { ordered = omega arith; above_min = omega arith }

used-UsedSpec_example : UsedSpec 7 (demo_key read 3 5 9) (used 7 (demo_key read 3 5 9))
used-UsedSpec_example = used-UsedSpec 7 (demo_key read 3 5 9) pair-IsValid (omega arith)

abbrev continued_key : CryptoDxState
continued_key = record (demo_key read 4 5 9) { used_pn = record { start = 4; end = 9 }; min_pn = 4 }

continued : continuation (demo_key read 3 2 4) (demo_key read 4 5 9) ≡ (ok tt, continued_key)
unfolding continuation
continued = refl

continuation-sees_example :
    (is_ok (used 7 continued_key).0 ≡ leb 4 7)
    × (((◌≡◌ {A = Res Error (Unit {0})} (ok tt) (ok tt))
          × IsValid continued_key
          × (◌≡◌ {A = ℕ} 4 4)
          × ((sees (demo_key read 4 5 9) 7 && ltb 7 4) ≡ false)
          × ((sees (demo_key read 4 5 9) 7 && not (sees continued_key 7)) ≡ false))
        ⊎ ((ok tt ≡ err packet_number_overlap)
            × (low : ℕ) × (sees (demo_key read 4 5 9) low ≡ true)
            × (low < 4)))
unfolding continuation
continuation-sees_example =
    continuation-sees (demo_key read 3 2 4) (demo_key read 4 5 9) 7
      (record { ordered = omega arith; above_min = omega arith }) refl

abbrev later_old : CryptoDxState
later_old = record (demo_key read 3 2 4) { used_pn = record { start = 2; end = 5 } }

late : used 4 (demo_key read 3 2 4) ≡ (ok tt, later_old)
unfolding used
late = refl

continuation_rejects_delayed_example :
    (continuation later_old continued_key).0 ≡ err packet_number_overlap
continuation_rejects_delayed_example =
    continuation_rejects_delayed (demo_key read 3 2 4) (demo_key read 4 5 9) continued_key later_old
      4 (record { ordered = omega arith; above_min = omega arith })
      (record { ordered = omega arith; above_min = omega arith }) (omega arith) continued
      (omega arith) (omega arith) (omega arith) late

abbrev next_key : CryptoDxState
next_key = record {
  version = version_1;
  direction = write;
  epoch = 4;
  aead = 107;
  hpkey = 203;
  used_pn = empty_range 9;
  min_pn = 9;
  invocations = 2 ^ 28;
  largest_packet_len = 2048;
}

rotated : next demo_nss (demo_key write 3 5 9) 7 aes_128_gcm_sha256 ≡ ok next_key
unfolding next limit
rotated = refl

next_follows_example :
    (key_phase next_key ≡ not (key_phase (demo_key write 3 5 9)))
    × IsValid next_key
    × (sees next_key 8 ≡ false)
    × (next_pn next_key ≡ 9)
    × (is_ok (used 8 next_key).0 ≡ leb 9 8)
next_follows_example =
    next_follows demo_nss (demo_key write 3 5 9) next_key 7 aes_128_gcm_sha256 8 rotated

-- A packet with a header of one byte and room for the tag.
abbrev demo_packet : ℕ → Packet
demo_packet pn = record {
  pn = pn;
  hdr = record { start = 0; end = 1 };
  buf =
      1 ∷ 2 ∷ 3 ∷ 4 ∷ 5 ∷ 6 ∷ 7 ∷ 8 ∷ 9 ∷ 10 ∷ 11 ∷ 12 ∷ 13 ∷ 14 ∷ 15 ∷ 16 ∷ 17 ∷ 18 ∷ 19 ∷ 20 ∷ [];
}

abbrev sealing : CryptoDxState
sealing =
    or_default (demo_key write 3 0 0)
      (Dx.new demo_nss version_1 write Epoch.application_data 7 aes_128_gcm_sha256 0)

sealing_made :
    Dx.new demo_nss version_1 write Epoch.application_data 7 aes_128_gcm_sha256 0 ≡ ok sealing
unfolding Dx.new limit
sealing_made = refl

abbrev two_packets : List Packet
two_packets = demo_packet 0 ∷ demo_packet 1 ∷ []

sealed :
    encrypt_all demo_nss two_packets sealing ≡ (ok tt, (encrypt_all demo_nss two_packets sealing).1)
unfolding encrypt_all encrypt invoked used seal slice adjust_limit body_length Dx.new limit
sealed = refl

new-encrypt_all_example :
    (length two_packets ≤ 2 ^ 28) × (payload demo_nss sealing.aead two_packets ≤ 2 ^ 39)
new-encrypt_all_example =
    new-encrypt_all demo_nss version_1 Epoch.application_data 7 0 two_packets sealing
      (encrypt_all demo_nss two_packets sealing).1 sealing_made sealed
