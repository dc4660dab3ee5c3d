-- ===== src/Agent/Judged.antt =====
-- That a handshake completes only once the application has accepted the certificate that NSS asked
-- it to judge.
use never_fox.Agent.Fair.Steps.{History-IsFair}
use never_fox.Agent.Outcome.{wait_lem, drive_inv}
use never_fox.Session.{SecretAgentInfo}
use never_fox.Types.{NssError}
use never_fox.Agent.Fair.{AuthLaws, History, all_called_back_same, member, IsFair}
use never_fox.Agent.{
  Engine, update_state, authentication_needed, drive, finish, SecretAgent, capture_error, NssError,
  agent_info, SecretAgentInfo, Record, is_blocked, wait, handshake_raw,
}
use never_fox.Base.{
  Bool-cases, Res, Res-cases, ok, err, panic, ℕ, ◌≡◌, ap, subst, ◌∙◌, inl, inr, true, Option, List,
  arith,
}
use never_fox.Crypto.Agent.{complete, authentication_needed, Record}

module _ {E : Type 0} (nss : Engine E) where
  finish_inv :
      (r : Res NssError (Unit {0})) (a a' : SecretAgent E)
      → finish nss r a ≡ (ok tt, a')
      → (r ≡ ok tt) × (a'.engine ≡ a.engine)
  unfolding finish capture_error
  finish_inv (ok tt) a a' e = elim (Res-cases (agent_info nss a.engine)) [
    | inl (i, known) ↦ ground (arith, known)
    | inr unknown ↦ ground (arith, unknown)
  ]
  finish_inv (err f) a a' e = ground arith
  finish_inv panic a a' e = ground arith

  wait-incomplete :
      (a a' : SecretAgent E) (i : SecretAgentInfo)
      → wait nss a ≡ (ok tt, a')
      → a'.state ≡ complete i
      → ⊥
  unfolding authentication_needed
  wait-incomplete a a' i e at = elim (wait_lem nss a a' e) [
    | inl (asked, needed) ↦
        let h : authentication_needed (complete i) ≡ true =
          subst (λ s. authentication_needed s ≡ true) at needed in
        cc
    | inr (calm, going) ↦ cc
  ]

  update_state-complete :
      (r : Res NssError (Unit {0})) (a a' : SecretAgent E) (i : SecretAgentInfo)
      → update_state nss r a ≡ (ok tt, a')
      → a'.state ≡ complete i
      → (r ≡ ok tt) × (a'.engine ≡ a.engine)
  unfolding update_state
  update_state-complete r a a' i e at = elim (Bool-cases (is_blocked nss r)) [
    | inl blocked ↦ absurd (wait-incomplete a a' i (ground (arith, blocked)) at)
    | inr ended ↦ finish_inv r a a' (ground (arith, ended))
  ]

  drive-complete :
      (a a' : SecretAgent E) (i : SecretAgentInfo)
      → drive nss a ≡ (ok tt, a')
      → a'.state ≡ complete i
      → ((nss.force_handshake a.engine).0.0 ≡ ok tt)
        × (a'.engine ≡ (nss.force_handshake a.engine).1)
  unfolding drive
  drive-complete a a' i e at =
      let (result, engine) = update_state-complete _ _ a' i e at in
      (
        result,
        engine
            ∙ (all_called_back_same (nss.force_handshake a.engine).0.1
                (record a { engine = (nss.force_handshake a.engine).1 })).0,
      )

  module _ (laws : AuthLaws nss) where
    -- After any calls of `handshake_raw`, `authenticated`, `read_secret` and `write_secret` on a fresh
    -- agent: when `handshake_raw` then succeeds and the handshake is complete, and NSS has asked for
    -- the peer's certificate to be judged, the application has called `authenticated` with the status
    -- 0, for a good certificate.
    pub handshake_raw-judged :
        {given : List ℕ} {a : SecretAgent E} (now : ℕ) (input : Option Record) (a' : SecretAgent E)
        (rs : List Record) (i : SecretAgentInfo)
        → History nss laws given a
        → handshake_raw nss now input a ≡ (ok rs, a')
        → a'.state ≡ complete i
        → laws.asked a'.engine ≡ true
        → member 0 given ≡ true
    handshake_raw-judged {given = given} now input a' rs i past e at asked =
        let (mid, driven, out) = drive_inv nss now input _ a' rs e in
        let (result, engine) = drive-complete mid a' i driven at in
        let fair : IsFair nss laws given a' =
          subst (IsFair nss laws given) (ap (λ x. x.1) e)
            (History-IsFair nss laws (History.drove now input past)) in
        let ended : nss.force_handshake mid.engine
            ≡ ((ok tt, (nss.force_handshake mid.engine).0.1), a'.engine) =
          cc in
        fair.told (laws.force_handshake_waits _ _ _ ended asked)
