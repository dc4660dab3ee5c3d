-- ===== src/Agent/Certificates.antt =====
-- The certificates of a server in nss-rs/src/agent.rs: how `Server::new` and
-- `new_with_ocsp_and_scts` find and configure them.
use never_fox.Base.{
  if◌then◌else◌, length, has_zero, Res, ◌>>=◌, ◌>>◌, pure, lift, ok, err, Option, none, some, List,
  [], ◌∷◌,
}
use never_fox.Agent.{Engine}
use never_fox.Agent.Configure
use never_fox.Agent.Configure.{ask, c_uint}
use never_fox.Socket.{config_server_cert, config_server_cert_with}
use never_fox.Nss.{Handle, Bytes}
use never_fox.Types.{NssError, certificate_loading}

module _ {E : Type 0} (nss : Engine E) where
  -- `load_cert_and_key`, with the two searches of NSS
  unfoldable pub load_cert_and_key :
      (Bytes → Option Handle) → (Handle → Option Handle) → Bytes → Res NssError (Handle × Handle)
  load_cert_and_key find_cert find_key name =
      if has_zero name then err nss.interior_nul else (elim (find_cert name) [
        | none ↦ err certificate_loading
        | some cert ↦ elim (find_key cert) [
          | none ↦ err certificate_loading
          | some key ↦ ok (cert, key)
        ]
      ])

  -- `Server::new`, for each name
  unfoldable pub configure_certs :
      (Bytes → Option Handle) → (Handle → Option Handle) → List Bytes → Configure.Agent E
  configure_certs find_cert find_key [] = pure tt
  configure_certs find_cert find_key (n ∷ ns) =
      (lift (load_cert_and_key find_cert find_key n) >>= λ pair.
      ask nss (config_server_cert pair.0 pair.1))
      >> configure_certs find_cert find_key ns

  -- `new_with_ocsp_and_scts`, for each name; `wrap` is `SECItemBorrowed::wrap`, as far as it fails.
  abbrev wrap_each : (Bytes → Res NssError (Unit {0})) → List Bytes → Configure.Agent E
  wrap_each wrap [] = pure tt
  wrap_each wrap (b ∷ bs) = lift (wrap b) >> wrap_each wrap bs

  abbrev configure_cert_with :
      (Bytes → Res NssError (Unit {0})) → List Bytes → Bytes → Handle × Handle → Configure.Agent E
  configure_cert_with wrap ocsp_responses scts pair = do
    wrap_each wrap ocsp_responses
    c_uint nss (length ocsp_responses)
    lift (wrap scts)
    ask nss (config_server_cert_with pair.0 pair.1 ocsp_responses scts)

  unfoldable pub configure_certs_with :
      (Bytes → Res NssError (Unit {0}))
      → (Bytes → Option Handle)
      → (Handle → Option Handle)
      → List Bytes
      → Bytes
      → List Bytes
      → Configure.Agent E
  configure_certs_with wrap find_cert find_key ocsp_responses scts [] = pure tt
  configure_certs_with wrap find_cert find_key ocsp_responses scts (n ∷ ns) =
      (lift (load_cert_and_key find_cert find_key n)
        >>= configure_cert_with wrap ocsp_responses scts)
      >> configure_certs_with wrap find_cert find_key ocsp_responses scts ns
