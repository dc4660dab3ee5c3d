-- ===== src/States/Run.antt =====
-- Any history of packets and key updates on a connection whose application keys are in use.
use never_fox.Base.{
  ◌>>=◌, pure, >>=-eq-ok, ok, ℕ, ◌≡◌, subst, inl, inr, true, Option, List, [], ◌∷◌,
}
use never_fox.Nss.{Nss}
use never_fox.States.{CryptoStates}
use never_fox.States.Update.{
  States, initiate_key_update, auto_update, key_update_received, check_key_update, check_pn_overlap,
}
use never_fox.States.Sync.{
  IsSynced, maybe_update_write-Synced, initiate_key_update_inv, auto_update_inv,
  key_update_received-Synced,
}
use never_fox.States.Rotate.{check_key_update-Synced, check_pn_overlap-Synced}

-- What the connection asks of the key updates.
pub data Event : Type 0 where
  initiates : Option ℕ → Event
  auto_updates : Event
  receives_update checks : ℕ → Event
  checks_overlap : Event

unfoldable pub step : Nss → Event → States (Unit {0})
step nss (initiates la) = initiate_key_update nss la
step nss auto_updates = auto_update nss
step nss (receives_update expiration) = key_update_received nss expiration
step nss (checks now) = check_key_update nss now
step nss checks_overlap = check_pn_overlap

unfoldable pub run : Nss → List Event → States (Unit {0})
run nss [] = pure tt
run nss (e ∷ es) = step nss e >>= λ _. run nss es

pub step-IsSynced :
    (nss : Nss) (e : Event) (s s' : CryptoStates)
    → IsSynced s
    → step nss e s ≡ (ok tt, s')
    → IsSynced s'
unfolding step
step-IsSynced nss (initiates la) s s' (w, r, n, y) e =
    let inv = initiate_key_update_inv nss la s s' w y.has_write e in
    let (w', after, _, _) = maybe_update_write-Synced nss s s' w r n true y inv.0 in
    (w', r, n, after)
step-IsSynced nss auto_updates s s' (w, r, n, y) e =
    elim (auto_update_inv nss s s' w y.has_write e) [
      | inl (_, moved) ↦
          let (w', after, _, _) = maybe_update_write-Synced nss s s' w r n true y moved in
          (w', r, n, after)
      | inr (_, same) ↦ (w, r, n, rw same y)
    ]
step-IsSynced nss (receives_update expiration) s s' (w, r, n, y) e =
    let (w', after, _, _) = key_update_received-Synced nss expiration s s' w r n y e in
    (w', r, n, after)
step-IsSynced nss (checks now) s s' (w, r, n, y) e = check_key_update-Synced nss now s s' w r n y e
step-IsSynced nss checks_overlap s s' (w, r, n, y) e =
    let (n', after) = check_pn_overlap-Synced s s' w r n y e in (w, r, n', after)

-- After any history of key updates in which every call succeeds, the write keys are in the phase of
-- the read keys or in the one after it, the next read keys are in the one after it, and the timer
-- runs for a key update only while the write keys are ahead.
pub run-IsSynced :
    (nss : Nss) (es : List Event) (s s' : CryptoStates)
    → IsSynced s
    → run nss es s ≡ (ok tt, s')
    → IsSynced s'
unfolding run
run-IsSynced nss [] s s' y e = subst IsSynced (cc) y
run-IsSynced nss (e ∷ es) s s' y h =
    let (_, mid, one, more) = >>=-eq-ok (λ _. run nss es) (step nss e) s h in
    run-IsSynced nss es mid s' (step-IsSynced nss e s mid y one) more
