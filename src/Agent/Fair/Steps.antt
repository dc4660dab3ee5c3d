-- ===== src/Agent/Fair/Steps.antt =====
-- The steps of a handshake, and so any calls of it, keep the agent fair.
use never_fox.Nss.{Bytes}
use never_fox.Types.{NssError, mixed_handshake_method}
use never_fox.Agent.Fair.{
  AuthLaws, IsFair, member, Keeps-set, Keeps-capture_error, Keeps-call, Keeps-call_back, History,
  Keeps-modify, call_back-IsFair, start, drove, judged, took_read, took_write,
}
use never_fox.Agent.{
  Engine, finish, HandshakeState, drive, prepare, feed, set_raw, handshake_raw, SecretAgent, wait,
  setup_raw, complete_authentication, NssError, Record, update_state, Bytes, complete_with, call,
  authentication_needed, mixed_handshake_method, gather, agent_info, pending_state, public_name,
  is_blocked, capture_error, call_back,
}
use never_fox.Base.{
  ◌==◌, Bool-cases, eq_bool, Res, ◌>>=◌, pure, raise, lift, get, modify, branch, match_option,
  Keeps, Keeps-bind, ◌then_keeps◌, Keeps-same, Keeps-branch, ℕ, ◌≡◌, refl, ap, ◌∙◌, inl, inr, Bool,
  true, ◌||◌, not, Option, none, some, List, ◌∷◌, arith,
}
use never_fox.Agent
use never_fox.Crypto.Agent.{
  in_progress, complete, failed, authenticated, HandshakeState, Record, authentication_needed,
}

module _ {E : Type 0} {nss : Engine E} {laws : AuthLaws nss} {given : List ℕ} where
  complete_with-IsFair :
      (s : HandshakeState) (a : SecretAgent E)
      → a.state ≡ s
      → IsFair nss laws given a
      → IsFair nss laws given (complete_with nss s a).1
  complete_with-IsFair (authenticated status) a at fair =
      Keeps-bind {Q = Unit {0}} (capture_error nss) (call_back (nss.authenticate status) a)
        (call_back-IsFair (nss.authenticate status) a (law at fair) fair) Keeps-capture_error
    where
      law :
          a.state ≡ authenticated status
          → IsFair nss laws given a
          → laws.approved (nss.authenticate status a.engine).1 ≡ true
          → member 0 given ≡ true
      law at fair h = elim (laws.authenticate-approved status a.engine h) [
        | inl before ↦ fair.told before
        | inr good ↦ fair.telling 0 (at ∙ ap authenticated good)
      ]
  complete_with-IsFair HandshakeState.new a at fair = fair
  complete_with-IsFair HandshakeState.in_progress a at fair = fair
  complete_with-IsFair HandshakeState.authentication_pending a at fair = fair
  complete_with-IsFair (HandshakeState.ech_fallback_authentication_pending _) a at fair = fair
  complete_with-IsFair (complete _) a at fair = fair
  complete_with-IsFair (failed _) a at fair = fair

  Keeps-complete_authentication : Keeps (IsFair nss laws given) (complete_authentication nss)
  unfolding complete_authentication
  Keeps-complete_authentication = record {
    kept = λ a fair. complete_with-IsFair a.state a refl fair;
  }

  Keeps-feed : (input : Option Record) → Keeps (IsFair nss laws given) (feed nss input)
  unfolding feed
  Keeps-feed none = Keeps-same _ (λ a. refl)
  Keeps-feed (some r) =
      Keeps-call_back (nss.write_record r) (laws.write_record-approved r)
      then_keeps Keeps-capture_error

  Keeps-set_raw : (r : Bool) → Keeps (IsFair nss laws given) (set_raw nss r)
  unfolding set_raw
  Keeps-set_raw r = Keeps-same get (λ a. refl) then_keeps λ a. go a.raw
    where
      go :
          (raw : Option Bool)
          → Keeps (IsFair nss laws given) (
              match_option raw
                (call nss.register >>= λ result.
                  lift result >>= λ _. modify (λ b. record b { raw = some r }))
                (λ raw. branch (eq_bool raw r) (pure tt) (raise mixed_handshake_method)))
      go none = Keeps-call nss.register laws.register-approved then_keeps λ result.
          Keeps-same (lift result) (λ a. refl) then_keeps λ _.
          Keeps-modify (λ b. record b { raw = some r }) (λ a. (refl, refl))
      go (some raw) =
          Keeps-branch (eq_bool raw r) (Keeps-same _ (λ a. refl)) (Keeps-same _ (λ a. refl))

  Keeps-wait : Keeps (IsFair nss laws given) (wait nss)
  unfolding wait
  Keeps-wait = Keeps-same get (λ a. refl) then_keeps λ a.
      Keeps-branch a.auth_required
        (Keeps-same (lift (public_name nss a.engine)) (λ a. refl) then_keeps λ name.
          Keeps-set (λ b. record b { state = pending_state nss name }) (λ a. refl)
            (λ a status h. not_told name h))
        (Keeps-set (λ b. record b { state = in_progress }) (λ a. refl) (λ a status h. cc))
    where
      not_told :
          {status : ℕ} (name : Option Bytes) → pending_state nss name ≡ authenticated status → ⊥
      not_told none h = cc
      not_told (some name) h = cc

  Keeps-finish : (r : Res NssError (Unit {0})) → Keeps (IsFair nss laws given) (finish nss r)
  unfolding finish
  Keeps-finish r = Keeps-capture_error r then_keeps λ _. Keeps-same get (λ a. refl) then_keeps λ a.
      Keeps-capture_error (agent_info nss a.engine) then_keeps λ info.
      Keeps-set (λ b. record b { state = complete info }) (λ a. refl) (λ a status h. cc)

  Keeps-drive : Keeps (IsFair nss laws given) (drive nss)
  unfolding drive update_state
  Keeps-drive = Keeps-call_back nss.force_handshake laws.force_handshake-approved then_keeps λ r.
      Keeps-branch (is_blocked nss r) Keeps-wait (Keeps-finish r)

  Keeps-setup_raw : Keeps (IsFair nss laws given) (setup_raw nss)
  unfolding setup_raw
  Keeps-setup_raw = Keeps-set_raw true then_keeps λ _.
      Keeps-call nss.setup laws.setup-approved then_keeps Keeps-capture_error

  Keeps-prepare :
      (now : ℕ) (input : Option Record) → Keeps (IsFair nss laws given) (prepare nss now input)
  unfolding prepare
  Keeps-prepare now input =
      Keeps-call (nss.set_now now) (laws.set_now-approved now) then_keeps λ set.
      Keeps-same (lift set) (λ a. refl) then_keeps λ _.
      Keeps-setup_raw then_keeps λ _. Keeps-complete_authentication then_keeps λ _. Keeps-feed input

  Keeps-handshake_raw :
      (now : ℕ) (input : Option Record)
      → Keeps (IsFair nss laws given) (handshake_raw nss now input)
  unfolding handshake_raw
  Keeps-handshake_raw now input = Keeps-prepare now input then_keeps λ _.
      Keeps-drive then_keeps λ _. Keeps-same (gather nss) (λ a. refl)

  -- With what has been judged before.
  IsFair-judge :
      (status : ℕ) (a : SecretAgent E)
      → IsFair nss laws given a
      → IsFair nss laws (status ∷ given) (Agent.authenticated status a).1
  unfolding Agent.authenticated
  IsFair-judge status a fair = elim (Bool-cases (authentication_needed a.state)) [
    | inl needed ↦ rw needed (record {
      told = λ h. or_right (0 == status) (fair.told h);
      telling = λ other h. here status other given h;
    })
    | inr not ↦ rw not (record {
      told = λ h. or_right (0 == status) (fair.told h);
      telling = λ other h. or_right (other == status) (fair.telling other h);
    })
  ]
    where
      or_right : (b : Bool) {c : Bool} → c ≡ true → b || c ≡ true
      or_right b h = ground arith

      here :
          (m n : ℕ) (ms : List ℕ)
          → ◌≡◌ {A = HandshakeState} (authenticated m) (authenticated n)
          → member n (m ∷ ms) ≡ true
      here m n ms h = let same : m ≡ n = cc in ground (arith, same)

module _ {E : Type 0} (nss : Engine E) (laws : AuthLaws nss) where
  pub History-IsFair :
      {given : List ℕ} {a : SecretAgent E} → History nss laws given a → IsFair nss laws given a
  History-IsFair (start a new fresh) = record {
    told = λ h. ground (arith, h, fresh);
    telling = λ status h. cc;
  }
  History-IsFair (drove now input past) =
      (Keeps-handshake_raw now input).kept _ (History-IsFair past)
  History-IsFair (took_read epoch past) =
      let fair = History-IsFair past in
      record { told = λ h. fair.told (laws.take_read-approved epoch _ h); telling = fair.telling }
  History-IsFair (took_write epoch past) =
      let fair = History-IsFair past in
      record { told = λ h. fair.told (laws.take_write-approved epoch _ h); telling = fair.telling }
  History-IsFair (judged status needed past) = IsFair-judge status _ (History-IsFair past)
