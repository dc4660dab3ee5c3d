-- ===== src/Agent/Does.antt =====
-- Which calls a configuration makes when it succeeds, found from those of its parts.
use never_fox.Alpn.{encode_alpn}
use never_fox.Nss.{Bytes}
use never_fox.Types.{NssError, invalid_certificate_compression_id}
use never_fox.Socket.{
  Calls, Call, enable_grease_ech, install_extension, version_range_set, option_set,
  signature_scheme_pref_set, send_additional_key_shares, named_group_config,
  set_certificate_compression_algorithm, map_enabled, set_next_proto_nego,
}
use never_fox.Agent.{Engine, SecretAgent, Calls, Call, NssError, Bytes}
use never_fox.Agent.Configure
use never_fox.Agent.Configure.{
  enable_ech, ask, send_key_shares, set_groups, extension_handler, set_alpn, c_uint,
  set_version_range, set_certificate_compression, set_option, set_signature_schemes, Compressor,
}
use mathlib.Core.List.{append_assoc}
use never_fox.Socket.{TlsVersion, Group, Opt}
use never_fox.Base.{
  ltb, ◌==◌, length, ◌>>=◌, ◌>>◌, pure, raise, lift, modify, >>=-eq-ok, branch, ok, ℕ, ◌^◌, min,
  max, ◌≡◌, refl, sym, ap, subst, ◌∙◌, Bool, true, false, List, [], ◌∷◌, ◌++◌, arith,
}

-- NSS remembers the calls that it has taken.
pub record EngineLaws {E : Type 0} (nss : Engine E) : Type 0 where
  pub taken :
      (c : Call) (e e' : E) → nss.configure c e ≡ (ok tt, e') → nss.calls e' ≡ c ∷ nss.calls e
  pub same_ciphers :
      (c : Call) (e e' : E)
      → nss.configure c e ≡ (ok tt, e')
      → nss.implemented_ciphers e' ≡ nss.implemented_ciphers e

module _ {E : Type 0} (nss : Engine E) where
  -- A method that makes these calls, the latest first, and leaves the handshake alone.
  pub record Does (cs : Calls) (m : Configure.Agent E) : Type 0 where
    pub made :
        (a a' : SecretAgent E)
        → m a ≡ (ok tt, a')
        → (nss.calls a'.engine ≡ cs ++ nss.calls a.engine)
          × (nss.implemented_ciphers a'.engine ≡ nss.implemented_ciphers a.engine)
          × (a'.state ≡ a.state)

module _ {E : Type 0} {nss : Engine E} where
  pub Does-pure : Does nss [] (pure tt)
  Does-pure = record { made = λ a a' e. ground arith }

  pub Does-raise : (e : NssError) → Does nss [] (raise e)
  Does-raise e = record { made = λ a a' h. cc }

  pub Does-modify :
      (f : SecretAgent E → SecretAgent E)
      → ((a : SecretAgent E) → ((f a).engine ≡ a.engine) × ((f a).state ≡ a.state))
      → Does nss [] (modify f)
  Does-modify f keeps = record { made = λ a a' e. ground (arith, keeps a) }

  pub Does-bind :
      {cs ds : Calls} (m k : Configure.Agent E)
      → Does nss cs m
      → Does nss ds k
      → Does nss (ds ++ cs) (m >> k)
  Does-bind {cs} {ds} m k dm dk = record {
    made = λ a a' e.
        let (_, b, first, rest) = >>=-eq-ok (λ _. k) m a e in
        let (calls, ciphers, state) = dm.made a b first in
        let (calls', ciphers', state') = dk.made b a' rest in
        (
          calls' ∙ ap (λ l. ds ++ l) calls ∙ sym (append_assoc ds cs (nss.calls a.engine)),
          ciphers' ∙ ciphers,
          state' ∙ state,
        );
  }

  pub Does-branch :
      {cs : Calls} (b : Bool) (m k : Configure.Agent E)
      → (b ≡ true → Does nss cs m)
      → (b ≡ false → Does nss cs k)
      → Does nss cs (branch b m k)
  Does-branch true m k dm dk = record { made = (dm refl).made }
  Does-branch false m k dm dk = record { made = (dk refl).made }

  -- A check that lets the rest go on.
  pub Does-check :
      {cs : Calls} (b : Bool) (m : Configure.Agent E) (e : NssError)
      → Does nss cs m
      → Does nss cs (branch b m (raise e))
  Does-check true m e dm = record { made = dm.made }
  Does-check false m e dm = record { made = λ a a' h. cc }

  infixr 4 ◌then_does◌
  pub ◌then_does◌ :
      {cs ds : Calls} {m k : Configure.Agent E}
      → Does nss cs m
      → Does nss ds k
      → Does nss (ds ++ cs) (m >> k)
  ◌then_does◌ {cs} {ds} {m} {k} dm dk = Does-bind m k dm dk

module _ {E : Type 0} (nss : Engine E) (laws : EngineLaws nss) where
  pub Does-ask : (c : Call) → Does nss (c ∷ []) (ask nss c)
  unfolding ask
  Does-ask c = record {
    made = λ a a' e.
        let took : nss.configure c a.engine ≡ (ok tt, a'.engine) = ground arith in
        (
          laws.taken c a.engine a'.engine took,
          laws.same_ciphers c a.engine a'.engine took,
          ground arith,
        );
  }

  pub Does-set_option :
      (o : Opt) (b : Bool) → Does nss (option_set o (map_enabled o b) ∷ []) (set_option nss o b)
  unfolding set_option
  Does-set_option o b = Does-ask _

  pub Does-set_version_range :
      (min max : TlsVersion)
      → Does nss (version_range_set min max ∷ []) (set_version_range nss min max)
  unfolding set_version_range
  Does-set_version_range min max = Does-ask _

  Does-c_uint : (n : ℕ) → Does nss [] (c_uint nss n)
  Does-c_uint n = Does-check (ltb n (2 ^ 32)) (pure tt) nss.integer_overflow Does-pure

  pub Does-set_groups :
      (gs : List Group) → Does nss (named_group_config gs ∷ []) (set_groups nss gs)
  unfolding set_groups
  Does-set_groups gs = Does-c_uint (length gs) then_does Does-ask _

  pub Does-set_signature_schemes :
      (ss : List ℕ) → Does nss (signature_scheme_pref_set ss ∷ []) (set_signature_schemes nss ss)
  unfolding set_signature_schemes
  Does-set_signature_schemes ss = Does-c_uint (length ss) then_does Does-ask _

  pub Does-send_key_shares :
      (n : ℕ) → Does nss (send_additional_key_shares n ∷ []) (send_key_shares nss n)
  unfolding send_key_shares
  Does-send_key_shares n = Does-c_uint n then_does Does-ask _

  pub Does-set_certificate_compression :
      (t : Compressor)
      → Does nss
          (set_certificate_compression_algorithm t.id t.enable_encoding ∷ [])
          (set_certificate_compression nss t)
  unfolding set_certificate_compression
  Does-set_certificate_compression t = record {
    made = λ a a' e.
        let checked = branch_other (t.id == 0) _ a e in
        (Does-ask (set_certificate_compression_algorithm t.id t.enable_encoding)).made a a' checked;
  }
    where
      branch_other :
          (b : Bool) (m : Configure.Agent E) (a : SecretAgent E) {a' : SecretAgent E}
          → branch b (raise invalid_certificate_compression_id) m a ≡ (ok tt, a')
          → m a ≡ (ok tt, a')
      branch_other true m a h = cc
      branch_other false m a h = h

  pub Does-extension_handler :
      (ext : ℕ) → Does nss (install_extension ext ∷ []) (extension_handler nss ext)
  unfolding extension_handler
  Does-extension_handler ext =
      Does-ask _
      then_does Does-modify
          (λ a. record a { extension_handlers = a.extension_handlers ++ (ext ∷ []) })
          (λ a. (refl, refl))

  -- The calls of `enable_ech` for GREASE.
  pub Does-enable_ech_grease : Does nss (enable_grease_ech true ∷ []) (enable_ech nss [])
  unfolding enable_ech
  Does-enable_ech_grease = Does-modify _ (λ a. (refl, refl)) then_does Does-ask _

  pub Does-set_alpn :
      (protocols : List Bytes) (encoded : Bytes)
      → encode_alpn protocols ≡ ok encoded
      → Does nss (set_next_proto_nego encoded ∷ []) (set_alpn nss protocols)
  unfolding set_alpn
  Does-set_alpn protocols encoded e = record {
    made = λ a a' h.
        (Does-c_uint (length encoded) then_does Does-ask (set_next_proto_nego encoded)).made a a' (
          subst
            (λ r.
              ((lift r >>= λ b. (c_uint nss (length b) >> ask nss (set_next_proto_nego b))) a)
              ≡ (ok tt, a'))
            e h);
  }
