-- ===== src/Agent/Outcome.antt =====
-- Where `handshake_raw` leaves the handshake.
use never_fox.Session.{SecretAgentInfo}
use never_fox.Types.{NssError}
use never_fox.Agent.{
  Engine, drive, update_state, wait, handshake_raw, Record, finish, SecretAgent, NssError,
  authentication_needed, capture_error, is_blocked, gather, prepare, SecretAgentInfo, public_name,
  agent_info,
}
use never_fox.Crypto.Agent.{in_progress, complete, failed, Record, authentication_needed}
use never_fox.Base.{
  Bool-cases, Res, ◌>>◌, >>=-eq-ok, Res-cases, ok, err, ℕ, ◌≡◌, ◌⊎◌, inl, inr, true, false, Option,
  List, arith,
}

module _ {E : Type 0} (nss : Engine E) where
  -- A handshake that has been driven: it waits for the peer's certificate to be judged, and NSS has
  -- asked for that; or it waits for the peer; or it is done, with what NSS has negotiated.
  pub data Settled : SecretAgent E → Type 0 where
    judging :
        {a : SecretAgent E}
        → a.auth_required ≡ true
        → authentication_needed a.state ≡ true
        → Settled a
    waiting : {a : SecretAgent E} → a.auth_required ≡ false → a.state ≡ in_progress → Settled a
    done :
        {a : SecretAgent E}
        → (i : SecretAgentInfo) → agent_info nss a.engine ≡ ok i
        → a.state ≡ complete i
        → Settled a

  pub wait_lem :
      (a a' : SecretAgent E)
      → wait nss a ≡ (ok tt, a')
      → ((a'.auth_required ≡ true) × (authentication_needed a'.state ≡ true))
        ⊎ ((a'.auth_required ≡ false) × (a'.state ≡ in_progress))
  unfolding wait authentication_needed
  wait_lem a a' e = ground arith

  finish_lem :
      (r : Res NssError (Unit {0})) (a a' : SecretAgent E)
      → finish nss r a ≡ (ok tt, a')
      → (i : SecretAgentInfo) × (agent_info nss a'.engine ≡ ok i) × (a'.state ≡ complete i)
  unfolding finish capture_error
  finish_lem r a a' e = elim (Res-cases (agent_info nss a.engine)) [
    | inl (i, known) ↦ (i, ground (arith, known), ground (arith, known))
    | inr unknown ↦ ground (arith, unknown)
  ]

  update_state-Settled :
      (r : Res NssError (Unit {0})) (a a' : SecretAgent E)
      → update_state nss r a ≡ (ok tt, a')
      → Settled a'
  unfolding update_state
  update_state-Settled r a a' e = elim (Bool-cases (is_blocked nss r)) [
    | inl blocked ↦ elim (wait_lem a a' (ground (arith, blocked))) [
      | inl (asked, needed) ↦ judging asked needed
      | inr (calm, going) ↦ waiting calm going
    ]
    | inr ended ↦ let (i, known, at) = finish_lem r a a' (ground (arith, ended)) in done i known at
  ]

  drive-Settled : (a a' : SecretAgent E) → drive nss a ≡ (ok tt, a') → Settled a'
  unfolding drive
  drive-Settled a a' e = update_state-Settled _ _ a' e

  pub drive_inv :
      (now : ℕ) (input : Option Record) (a a' : SecretAgent E) (rs : List Record)
      → handshake_raw nss now input a ≡ (ok rs, a')
      → (mid : SecretAgent E) × (drive nss mid ≡ (ok tt, a')) × (rs ≡ nss.records a'.engine)
  unfolding handshake_raw
  drive_inv now input a a' rs e =
      let (_, mid, _, rest) =
        >>=-eq-ok (λ _. drive nss >> gather nss) (prepare nss now input) a e in
      let (_, end, driven, out) = >>=-eq-ok (λ _. gather nss) (drive nss) mid rest in
      (mid, ground (arith, driven, out), ground (arith, out))

  -- When `handshake_raw` succeeds, the handshake waits for the certificate to be judged, as NSS has
  -- asked, or waits for the peer, or is done with what NSS has negotiated; and the records are
  -- those that NSS has collected.
  pub handshake_raw-Settled :
      (now : ℕ) (input : Option Record) (a a' : SecretAgent E) (rs : List Record)
      → handshake_raw nss now input a ≡ (ok rs, a')
      → Settled a' × (rs ≡ nss.records a'.engine)
  handshake_raw-Settled now input a a' rs e =
      let (mid, driven, out) = drive_inv now input a a' rs e in (drive-Settled mid a' driven, out)

  wait_failed :
      (a a' : SecretAgent E) (e : NssError)
      → wait nss a ≡ (err e, a')
      → public_name nss a'.engine ≡ err e
  unfolding wait
  wait_failed a a' e h = ground arith

  finish_failed :
      (r : Res NssError (Unit {0})) (a a' : SecretAgent E) (e : NssError)
      → finish nss r a ≡ (err e, a')
      → a'.state ≡ failed e
  unfolding finish capture_error
  finish_failed r a a' e h = ground arith

  -- When the last step of the handshake fails, it is in the state of failure with that error,
  -- unless what failed was to read the public name that a fallback of ECH gives.
  pub drive_failed :
      (a a' : SecretAgent E) (e : NssError)
      → drive nss a ≡ (err e, a')
      → (a'.state ≡ failed e) ⊎ (public_name nss a'.engine ≡ err e)
  unfolding drive update_state
  drive_failed a a' e h = go _ _ h
    where
      go :
          (r : Res NssError (Unit {0})) (b : SecretAgent E)
          → update_state nss r b ≡ (err e, a')
          → (a'.state ≡ failed e) ⊎ (public_name nss a'.engine ≡ err e)
      go r b g = elim (Bool-cases (is_blocked nss r)) [
        | inl blocked ↦ inr (wait_failed b a' e (ground (arith, blocked)))
        | inr ended ↦ inl (finish_failed r b a' e (ground (arith, ended)))
      ]
