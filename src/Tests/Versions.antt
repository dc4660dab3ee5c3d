-- ===== src/Tests/Versions.antt =====
-- The theorems on Initial keys, applied.
use never_fox.States.Versions.{confirm_version_continues, confirm_version_drops}
use never_fox.States.Retry.{init-Renewed, Renewed}
use never_fox.Tests.Data.{demo_nss, demo_pair}
use never_fox.States.{initial_at, CryptoState, CryptoStates, no_keys, no_initials}
use never_fox.Dx.{CryptoDxState, continuation, empty_range, limit, new_initial, next_invocations}
use never_fox.Types.{version_1, version_2, draft_29, client}
use never_fox.States.Initial
use never_fox.Dx
use never_fox.States.Initial.{
  init, first_pn, init_each, initial_keys, initial_labels, follow_prev, follow,
}
use never_fox.Base.{is_ok, ok, ◌≡◌, refl, false, none, some, [], ◌∷◌}

-- Initial keys for two versions.
abbrev pub two_versions : CryptoStates
two_versions = record no_keys {
  initials = record no_initials { for_2 = some (demo_pair 0 4 4); for_1 = some (demo_pair 0 2 9) };
}

abbrev upgraded : CryptoStates
upgraded = (Initial.confirm_version version_1 version_2 two_versions).1

upgrade : Initial.confirm_version version_1 version_2 two_versions ≡ (ok tt, upgraded)
unfolding Initial.confirm_version continuation
upgrade = refl

confirm_version_continues_example :
    (initial_at version_1 upgraded.initials ≡ some (demo_pair 0 2 9))
    × (next : CryptoState) × (initial_at version_2 upgraded.initials ≡ some next)
    × (next.rx.min_pn ≡ 9)
    × (next.tx.min_pn ≡ 9)
confirm_version_continues_example =
    confirm_version_continues version_1 version_2 two_versions upgraded (demo_pair 0 2 9) refl refl
      upgrade

missing_version : is_ok (Initial.confirm_version version_1 draft_29 two_versions).0 ≡ false
unfolding Initial.confirm_version
missing_version = refl

confirm_version_drops_example :
    initial_at version_1 (Initial.confirm_version version_1 draft_29 two_versions).1.initials ≡ none
confirm_version_drops_example =
    confirm_version_drops version_1 draft_29 two_versions (demo_pair 0 2 9) refl refl
      missing_version

abbrev retried : CryptoStates
retried =
    (init demo_nss (version_2 ∷ version_1 ∷ []) client (1 ∷ 2 ∷ []) (some (40, 230)) two_versions).1

retry :
    init demo_nss (version_2 ∷ version_1 ∷ []) client (1 ∷ 2 ∷ []) (some (40, 230)) two_versions
    ≡ (ok tt, retried)
unfolding init init_each initial_keys initial_labels first_pn new_initial Dx.new limit follow_prev
    follow continuation
retry = refl

init-Renewed_example :
    (k : CryptoState) × (initial_at version_1 retried.initials ≡ some k)
    × Renewed version_1 (version_2 ∷ version_1 ∷ []) (demo_pair 0 2 9) k
init-Renewed_example =
    init-Renewed demo_nss version_1 (version_2 ∷ version_1 ∷ []) client (1 ∷ 2 ∷ [])
      (some (40, 230)) two_versions retried (demo_pair 0 2 9) refl retry
