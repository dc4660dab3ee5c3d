-- ===== src/Agent/Fair.antt =====
-- What NSS was told of the peer's certificate is what the application has said, over any calls of a
-- handshake.
pub mod Steps
use never_fox.Nss.{Bytes}
use never_fox.Types.{NssError, mixed_handshake_method, Epoch}
use never_fox.Agent.{
  Engine, SecretAgent, Record, NssError, HandshakeState, Callback, handshake_raw,
  authentication_needed, all_called_back, call, call_back, complete_authentication, called_back,
  alert_sent, set_raw, wait, feed, complete_with, capture_error, prepare, finish, drive,
  mixed_handshake_method, gather, setup_raw, Bytes, update_state, agent_info, pending_state,
  public_name, is_blocked, in_progress, SecretAgentInfo, Epoch, read_secret, write_secret,
}
use never_fox.Agent
use never_fox.Crypto.Agent.{
  complete, failed, authenticated, Record, HandshakeState, authentication_needed, in_progress,
}
use never_fox.Base.{
  ◌==◌, Res, modify, ok, err, panic, Keeps, Keeps-same, ℕ, ◌≡◌, refl, sym, subst, ◌∙◌, ◌⊎◌, Bool,
  true, false, ◌||◌, Option, List, [], ◌∷◌, arith,
}

-- Whether a number is in a list.
abbrev pub member : ℕ → List ℕ → Bool
member n [] = false
member n (m ∷ ms) = n == m || member n ms

module _ {E : Type 0} where
  -- What NSS calls back leaves the engine and the state of the handshake alone.
  pub all_called_back_same :
      (cs : List Callback) (a : SecretAgent E)
      → ((all_called_back cs a).engine ≡ a.engine) × ((all_called_back cs a).state ≡ a.state)
  all_called_back_same [] a = (refl, refl)
  all_called_back_same (c ∷ cs) a =
      let (e, s) = all_called_back_same cs (called_back c a) in
      let (e', s') = called_back_same c a in (e ∙ e', s ∙ s')
    where
      called_back_same :
          (c : Callback) (a : SecretAgent E)
          → ((called_back c a).engine ≡ a.engine) × ((called_back c a).state ≡ a.state)
      called_back_same Callback.auth_complete a = (refl, refl)
      called_back_same (Callback.alert_sent level description) a = ground arith

-- What NSS documents of its authentication hook. It knows whether it has asked for the peer's
-- certificate to be judged, and whether it was told that the certificate is good: only the status 0
-- tells it that, and a handshake for which it has asked does not end before.
pub record AuthLaws {E : Type 0} (nss : Engine E) : Type 0 where
  pub asked : E → Bool
  pub approved : E → Bool
  pub set_now-approved :
      (now : ℕ) (e : E) → approved (nss.set_now now e).1 ≡ true → approved e ≡ true
  pub register-approved : (e : E) → approved (nss.register e).1 ≡ true → approved e ≡ true
  pub setup-approved : (e : E) → approved (nss.setup e).1 ≡ true → approved e ≡ true
  pub write_record-approved :
      (r : Record) (e : E) → approved (nss.write_record r e).1 ≡ true → approved e ≡ true
  pub force_handshake-approved :
      (e : E) → approved (nss.force_handshake e).1 ≡ true → approved e ≡ true
  pub authenticate-approved :
      (status : ℕ) (e : E)
      → approved (nss.authenticate status e).1 ≡ true
      → (approved e ≡ true) ⊎ (status ≡ 0)
  pub take_read-approved :
      (epoch : Epoch) (e : E) → approved (nss.take_read epoch e).1 ≡ true → approved e ≡ true
  pub take_write-approved :
      (epoch : Epoch) (e : E) → approved (nss.take_write epoch e).1 ≡ true → approved e ≡ true
  pub force_handshake_waits :
      (e e' : E) (cs : List Callback)
      → nss.force_handshake e ≡ ((ok tt, cs), e')
      → asked e' ≡ true
      → approved e' ≡ true

module _ {E : Type 0} (nss : Engine E) (laws : AuthLaws nss) where
  -- The calls of `handshake_raw`, `authenticated`, `read_secret` and `write_secret`, in any order, on
  -- an agent that starts out fresh, and the statuses that were passed to `authenticated`, the latest
  -- first. A call counts also if it fails.
  pub data History : List ℕ → SecretAgent E → Type 0 where
    start :
        (a : SecretAgent E)
        → a.state ≡ HandshakeState.new
        → laws.approved a.engine ≡ false
        → History [] a
    drove :
        {given : List ℕ} {a : SecretAgent E}
        → (now : ℕ) (input : Option Record) → History given a
        → History given (handshake_raw nss now input a).1
    took_read :
        {given : List ℕ} {a : SecretAgent E}
        → (epoch : Epoch) → History given a
        → History given (read_secret nss epoch a).1
    took_write :
        {given : List ℕ} {a : SecretAgent E}
        → (epoch : Epoch) → History given a
        → History given (write_secret nss epoch a).1
    judged :
        {given : List ℕ} {a : SecretAgent E}
        → (status : ℕ) → authentication_needed a.state ≡ true
        → History given a
        → History (status ∷ given) (Agent.authenticated status a).1

  -- What NSS was told, and what it is about to be told, the application has said.
  pub record IsFair (given : List ℕ) (a : SecretAgent E) : Type 0 where
    pub told : laws.approved a.engine ≡ true → member 0 given ≡ true
    pub telling : (status : ℕ) → a.state ≡ authenticated status → member status given ≡ true

module _ {E : Type 0} {nss : Engine E} {laws : AuthLaws nss} {given : List ℕ} where
  -- What is called of NSS, and what it calls back.
  pub Keeps-call :
      {R : Type 0} (f : E → R × E)
      → ((e : E) → laws.approved (f e).1 ≡ true → laws.approved e ≡ true)
      → Keeps (IsFair nss laws given) (call f)
  Keeps-call f law = record {
    kept = λ a fair. record { told = λ h. fair.told (law a.engine h); telling = fair.telling };
  }

  pub call_back-IsFair :
      {R : Type 0} (f : E → (R × List Callback) × E) (a : SecretAgent E)
      → (laws.approved (f a.engine).1 ≡ true → member 0 given ≡ true)
      → IsFair nss laws given a
      → IsFair nss laws given (call_back f a).1
  call_back-IsFair f a law fair =
      let (engine, state) =
        all_called_back_same (f a.engine).0.1 (record a { engine = (f a.engine).1 }) in
      record {
        told = λ h. law (subst (λ x. laws.approved x ≡ true) engine h);
        telling = λ status h. fair.telling status (sym state ∙ h);
      }

  pub Keeps-call_back :
      {R : Type 0} (f : E → (R × List Callback) × E)
      → ((e : E) → laws.approved (f e).1 ≡ true → laws.approved e ≡ true)
      → Keeps (IsFair nss laws given) (call_back f)
  Keeps-call_back f law = record {
    kept = λ a fair. call_back-IsFair f a (λ h. fair.told (law a.engine h)) fair;
  }

  -- A change of the state to one that passes nothing on.
  pub Keeps-set :
      (f : SecretAgent E → SecretAgent E)
      → ((a : SecretAgent E) → (f a).engine ≡ a.engine)
      → ((a : SecretAgent E) (status : ℕ) → (f a).state ≡ authenticated status → ⊥)
      → Keeps {E = NssError} (IsFair nss laws given) (modify f)
  Keeps-set f same other = record {
    kept = λ a fair. record {
      told = λ h. fair.told (subst (λ x. laws.approved x ≡ true) (same a) h);
      telling = λ status h. absurd (other a status h);
    };
  }

  -- A change of neither.
  pub Keeps-modify :
      (f : SecretAgent E → SecretAgent E)
      → ((a : SecretAgent E) → ((f a).engine ≡ a.engine) × ((f a).state ≡ a.state))
      → Keeps {E = NssError} (IsFair nss laws given) (modify f)
  Keeps-modify f same = record {
    kept = λ a fair. record {
      told = λ h. fair.told (subst (λ x. laws.approved x ≡ true) (same a).0 h);
      telling = λ status h. fair.telling status (sym (same a).1 ∙ h);
    };
  }

  pub Keeps-capture_error :
      {R : Type 0} (r : Res NssError R) → Keeps (IsFair nss laws given) (capture_error nss r)
  unfolding capture_error
  Keeps-capture_error (ok r) = Keeps-same _ (λ a. refl)
  Keeps-capture_error (err e) = record {
    kept = λ a fair. record { told = fair.told; telling = λ status h. cc };
  }
  Keeps-capture_error panic = Keeps-same _ (λ a. refl)
