-- ===== src/Agent/Modes.antt =====
-- That the handshake on records and the handshake on bytes exclude each other.
use never_fox.Agent.Bytewise.{force_with, change, handshake}
use never_fox.Nss.{Bytes}
use never_fox.Crypto.Agent.{Record, HandshakeState}
use never_fox.Types.{NssError, mixed_handshake_method}
use never_fox.Agent.{
  Engine, feed, SecretAgent, capture_error, set_raw, complete_authentication, update_state,
  NssError, Callback, HandshakeState, all_called_back, Record, wait, call, call_back, complete_with,
  finish, is_blocked, public_name, pending_state, agent_info, setup_raw, prepare, Bytes,
  handshake_raw, drive, gather, mixed_handshake_method,
}
use never_fox.Base.{
  Res, Method, ◌>>=◌, ◌>>◌, pure, lift, get, modify, >>=-eq-ok, ok, err, panic, Keeps, ◌then_keeps◌,
  Keeps-same, Keeps-branch, Keeps-match_option, Keeps-run, ℕ, ◌≡◌, refl, ◌∙◌, Bool, true, false,
  not, Option, some, List, [], ◌∷◌, arith,
}

-- Whether the agent is bound to records, or to bytes.
pub record HasMode {E : Type 0} (mode : Bool) (a : SecretAgent E) : Type 0 where
  pub bound : a.raw ≡ some mode

module _ {E : Type 0} where
  all_called_back_raw :
      (cs : List Callback) (a : SecretAgent E) → (all_called_back cs a).raw ≡ a.raw
  all_called_back_raw [] a = refl
  all_called_back_raw (Callback.auth_complete ∷ cs) a = all_called_back_raw cs _
  all_called_back_raw (Callback.alert_sent level description ∷ cs) a =
      all_called_back_raw cs _ ∙ ground arith

module _ {E : Type 0} {mode : Bool} where
  HasMode-call : {R : Type 0} (f : E → R × E) → Keeps {E = NssError} (HasMode mode) (call f)
  HasMode-call f = record { kept = λ a h. record { bound = h.bound } }

  HasMode-call_back :
      {R : Type 0} (f : E → (R × List Callback) × E)
      → Keeps {E = NssError} (HasMode mode) (call_back f)
  HasMode-call_back f = record {
    kept = λ a h. record {
      bound = all_called_back_raw (f a.engine).0.1 (record a { engine = (f a.engine).1 }) ∙ h.bound;
    };
  }

  HasMode-modify :
      (f : SecretAgent E → SecretAgent E)
      → ((a : SecretAgent E) → (f a).raw ≡ a.raw)
      → Keeps {E = NssError} (HasMode mode) (modify f)
  HasMode-modify f same = record { kept = λ a h. record { bound = same a ∙ h.bound } }

module _ {E : Type 0} (nss : Engine E) {mode : Bool} where
  HasMode-capture_error :
      {R : Type 0} (r : Res NssError R) → Keeps (HasMode mode) (capture_error nss r)
  unfolding capture_error
  HasMode-capture_error (ok r) = Keeps-same _ (λ a. refl)
  HasMode-capture_error (err e) = record { kept = λ a h. record { bound = h.bound } }
  HasMode-capture_error panic = Keeps-same _ (λ a. refl)

  HasMode-complete_authentication : Keeps (HasMode mode) (complete_authentication nss)
  unfolding complete_authentication
  HasMode-complete_authentication = Keeps-same get (λ a. refl) then_keeps λ a. go a.state
    where
      go : (s : HandshakeState) → Keeps (HasMode mode) (complete_with nss s)
      go (HandshakeState.authenticated status) =
          HasMode-call_back (nss.authenticate status) then_keeps HasMode-capture_error
      go HandshakeState.new = Keeps-same _ (λ a. refl)
      go HandshakeState.in_progress = Keeps-same _ (λ a. refl)
      go HandshakeState.authentication_pending = Keeps-same _ (λ a. refl)
      go (HandshakeState.ech_fallback_authentication_pending _) = Keeps-same _ (λ a. refl)
      go (HandshakeState.complete _) = Keeps-same _ (λ a. refl)
      go (HandshakeState.failed _) = Keeps-same _ (λ a. refl)

  HasMode-feed : (input : Option Record) → Keeps (HasMode mode) (feed nss input)
  unfolding feed
  HasMode-feed input =
      Keeps-match_option input (Keeps-same _ (λ a. refl))
        (λ r. HasMode-call_back (nss.write_record r) then_keeps HasMode-capture_error)

  HasMode-update_state : (r : Res NssError (Unit {0})) → Keeps (HasMode mode) (update_state nss r)
  unfolding update_state wait finish
  HasMode-update_state r =
      Keeps-branch (is_blocked nss r)
        (Keeps-same get (λ a. refl) then_keeps λ a.
          Keeps-branch a.auth_required
            (Keeps-same (lift (public_name nss a.engine)) (λ a. refl) then_keeps λ name.
              HasMode-modify (λ b. record b { state = pending_state nss name }) (λ a. refl))
            (HasMode-modify (λ b. record b { state = HandshakeState.in_progress }) (λ a. refl)))
        (HasMode-capture_error r then_keeps λ _. Keeps-same get (λ a. refl) then_keeps λ a.
          HasMode-capture_error (agent_info nss a.engine) then_keeps λ info.
          HasMode-modify (λ b. record b { state = HandshakeState.complete info }) (λ a. refl))

  set_raw-HasMode : (a a' : SecretAgent E) → set_raw nss mode a ≡ (ok tt, a') → HasMode mode a'
  unfolding set_raw
  set_raw-HasMode a a' e = record { bound = ground arith }

module _ {E : Type 0} (nss : Engine E) where
  setup_raw-HasMode : (a a' : SecretAgent E) → setup_raw nss a ≡ (ok tt, a') → HasMode true a'
  unfolding setup_raw
  setup_raw-HasMode a a' e =
      let rest = λ (_ : Unit {0}). call nss.setup >>= capture_error nss in
      let (_, b, chosen, later) = >>=-eq-ok rest (set_raw nss true) a e in
      Keeps-run (HasMode-call nss.setup then_keeps HasMode-capture_error nss) later
        (set_raw-HasMode nss a b chosen)

  prepare-HasMode :
      (now : ℕ) (input : Option Record) (a a' : SecretAgent E)
      → prepare nss now input a ≡ (ok tt, a')
      → HasMode true a'
  unfolding prepare
  prepare-HasMode now input a a' e =
      let fed = λ (_ : Unit {0}). feed nss input in
      let judged = λ (_ : Unit {0}). complete_authentication nss >>= fed in
      let (set, b, _, one) =
        >>=-eq-ok (λ set. lift set >>= λ _. setup_raw nss >>= judged) (call (nss.set_now now)) a
          e in
      let (_, c, _, two) = >>=-eq-ok (λ _. setup_raw nss >>= judged) (lift set) b one in
      let (_, d, up, three) = >>=-eq-ok judged (setup_raw nss) c two in
      Keeps-run (HasMode-complete_authentication nss then_keeps λ _. HasMode-feed nss input) three
        (setup_raw-HasMode c d up)

  -- The handshake on records, or on bytes.
  abbrev pub drives : Bool → ℕ → Option Record → Bytes → Method (SecretAgent E) NssError (Unit {0})
  drives true now input bytes = do rs ← handshake_raw nss now input; pure tt
  drives false now input bytes = do out ← handshake nss now bytes; pure tt

  HasMode-force_with : {mode : Bool} (s : HandshakeState) → Keeps (HasMode mode) (force_with nss s)
  HasMode-force_with (HandshakeState.authenticated status) =
      HasMode-call_back (nss.authenticate status)
  HasMode-force_with HandshakeState.new = HasMode-call_back nss.force_handshake
  HasMode-force_with HandshakeState.in_progress = HasMode-call_back nss.force_handshake
  HasMode-force_with HandshakeState.authentication_pending = HasMode-call_back nss.force_handshake
  HasMode-force_with (HandshakeState.ech_fallback_authentication_pending _) =
      HasMode-call_back nss.force_handshake
  HasMode-force_with (HandshakeState.complete _) = HasMode-call_back nss.force_handshake
  HasMode-force_with (HandshakeState.failed _) = HasMode-call_back nss.force_handshake

  -- What `handshake` does once the mode is set.
  abbrev wrapped : Bytes → Method (SecretAgent E) NssError Bytes
  wrapped input = do
    change nss (nss.wrap input)
    a ← get
    result ← force_with nss a.state
    change nss nss.unwrap
    output ← call nss.take_output
    update_state nss result
    pure output

  HasMode-wrapped : {mode : Bool} (input : Bytes) → Keeps (HasMode mode) (wrapped input)
  HasMode-wrapped input =
      HasMode-modify (λ a. record a { engine = nss.wrap input a.engine }) (λ a. refl)
      then_keeps λ _. Keeps-same get (λ a. refl) then_keeps λ a.
          HasMode-force_with a.state then_keeps λ result.
          HasMode-modify (λ a. record a { engine = nss.unwrap a.engine }) (λ a. refl)
          then_keeps λ _. HasMode-call nss.take_output then_keeps λ output.
              HasMode-update_state nss result then_keeps λ _. Keeps-same (pure output) (λ a. refl)

  drives-HasMode :
      (mode : Bool) (now : ℕ) (input : Option Record) (bytes : Bytes) (a a' : SecretAgent E)
      → drives mode now input bytes a ≡ (ok tt, a')
      → HasMode mode a'
  unfolding handshake_raw drive handshake
  drives-HasMode true now input bytes a a' e =
      let (_, b, one, two) = >>=-eq-ok (λ rs. pure tt) (handshake_raw nss now input) a e in
      let (_, c, ready, three) =
        >>=-eq-ok (λ _. drive nss >> gather nss) (prepare nss now input) a one in
      let driven =
        HasMode-call_back nss.force_handshake then_keeps HasMode-update_state nss then_keeps λ _.
        Keeps-same (gather nss) (λ a. refl) in
      Keeps-run {P = HasMode true} (Keeps-same (pure tt) (λ a. refl)) two
        (Keeps-run driven three (prepare-HasMode now input a c ready))
  drives-HasMode false now input bytes a a' e =
      let rest = λ (_ : Unit {0}). wrapped bytes in
      let (_, b, one, two) = >>=-eq-ok (λ out. pure tt) (handshake nss now bytes) a e in
      let (set, c, _, three) =
        >>=-eq-ok (λ set. lift set >>= λ _. set_raw nss false >>= rest) (call (nss.set_now now)) a
          one in
      let (_, d, _, four) = >>=-eq-ok (λ _. set_raw nss false >>= rest) (lift set) c three in
      let (_, f, up, five) = >>=-eq-ok rest (set_raw nss false) d four in
      Keeps-run {P = HasMode false} (Keeps-same (pure tt) (λ a. refl)) two
        (Keeps-run (HasMode-wrapped bytes) five (set_raw-HasMode nss d f up))

  -- After a successful handshake on records, the handshake on bytes is refused, and after one on
  -- bytes that on records: the error says so, and but for the time that NSS has been told, the agent
  -- is as it was.
  pub modes_exclude :
      (mode : Bool) (now later : ℕ) (input input' : Option Record) (bytes bytes' : Bytes)
      (a a' : SecretAgent E) (e : E)
      → drives mode now input bytes a ≡ (ok tt, a')
      → nss.set_now later a'.engine ≡ (ok tt, e)
      → drives (not mode) later input' bytes' a'
        ≡ (err mixed_handshake_method, record a' { engine = e })
  unfolding handshake_raw prepare setup_raw handshake set_raw
  modes_exclude true now later input input' bytes bytes' a a' e ran set =
      let raw = (drives-HasMode true now input bytes a a' ran).bound in ground (arith, raw, set)
  modes_exclude false now later input input' bytes bytes' a a' e ran set =
      let raw = (drives-HasMode false now input bytes a a' ran).bound in ground (arith, raw, set)
