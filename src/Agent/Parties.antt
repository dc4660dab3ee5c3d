-- ===== src/Agent/Parties.antt =====
-- `Client`, `Server` and `Agent` of nss-rs/src/agent.rs: how they are made, and what they configure
-- beyond a `SecretAgent`.
use never_fox.Agent.Certificates.{configure_certs_with, configure_certs}
use never_fox.Socket.{
  set_url, set_resumption_token, hello_retry_request_callback, set_server_ech_configs,
  resumption_token_callback, set_max_early_data_size, config_anti_replay,
}
use never_fox.Tickets.{ResumptionToken}
use never_fox.Nss.{Handle, Bytes}
use never_fox.Agent.{Engine, SecretAgent}
use never_fox.Agent.Configure
use never_fox.Agent.Configure.{ask, c_uint, enable_0rtt, ready}
use never_fox.Crypto.Agent.{new}
use never_fox.Types.{NssError, create_ssl_socket}
use never_fox.Base.{
  leb, if◌then◌else◌, length, has_zero, Res, and_then, Method, ◌>>=◌, ◌>>◌, pure, raise, lift,
  modify, branch, ok, err, panic, ℕ, max, Bool, true, false, not, Option, none, some, List, [],
}

-- Where a socket comes from: whether NSS is initialised, `PR_CreateIOLayerStub`, and `SSL_ImportFD`
-- on what that gives.
pub record Platform (E : Type 0) : Type 0 where
  pub initialized : Bool
  pub io_layer : Option Handle
  pub import_fd : Handle → Option E

-- `Client`: the agent, the name of the server, and the tickets.
pub record Client (E : Type 0) : Type 0 where
  pub agent : SecretAgent E
  pub server_name : Bytes
  pub resumption : List ResumptionToken

-- `ZeroRttCheckResult`
pub data ZeroRttCheckResult : Type 0 where
  accept reject : ZeroRttCheckResult
  hello_retry_request : Bytes → ZeroRttCheckResult
  fail : ZeroRttCheckResult

-- `ZeroRttChecker`
abbrev pub ZeroRttChecker : Type 0
ZeroRttChecker = Bytes → ZeroRttCheckResult

-- `AllowZeroRtt`
abbrev pub allow_zero_rtt : ZeroRttChecker
allow_zero_rtt _ = accept

pub record Server (E : Type 0) : Type 0 where
  pub agent : SecretAgent E
  pub zero_rtt_check : Option ZeroRttChecker

pub data Agent (E : Type 0) : Type 0 where
  client : Client E → Agent E
  server : Server E → Agent E

module _ {E : Type 0} where
  -- `Deref` and `DerefMut`
  abbrev pub deref : Agent E → SecretAgent E
  deref (client c) = c.agent
  deref (server s) = s.agent

  abbrev pub set_agent : SecretAgent E → Agent E → Agent E
  set_agent a (client c) = client (record c { agent = a })
  set_agent a (server s) = server (record s { agent = a })

  -- `create_fd`
  unfoldable pub create_fd : Platform E → Res NssError E
  create_fd p =
      if p.initialized
      then (elim p.io_layer [
        | none ↦ err create_ssl_socket
        | some base ↦ elim (p.import_fd base) [ none ↦ err create_ssl_socket | some fd ↦ ok fd ]
      ])
      else panic

  -- `SecretAgent::new`
  unfoldable pub new_agent : Platform E → Res NssError (SecretAgent E)
  new_agent p = and_then (create_fd p) λ fd. ok (record {
    engine = fd;
    raw = none;
    auth_required = false;
    alert = none;
    state = new;
    extension_handlers = [];
    ech_config = [];
    closed = false;
  })

  -- The agent after a method on it, or the method's error.
  abbrev pub after : Configure.Agent E → SecretAgent E → Res NssError (SecretAgent E)
  after m a = let (r, a') = m a in and_then r λ _. ok a'

module _ {E : Type 0} (nss : Engine E) where
  -- `Client::ready`
  unfoldable pub client_ready : Configure.Agent E
  client_ready = ask nss resumption_token_callback

  -- `Client::new`
  unfoldable pub setup_client : Bool → Bytes → Bool → Configure.Agent E
  setup_client random server_name grease_on = do
    branch (has_zero server_name) (raise nss.interior_nul) (pure tt)
    ask nss (set_url server_name)
    ready nss random false grease_on
    client_ready

  unfoldable pub new_client : Platform E → Bool → Bytes → Bool → Res NssError (Client E)
  new_client p random server_name grease_on = and_then (new_agent p) λ a.
      and_then (after (setup_client random server_name grease_on) a)
        λ a'. ok (record { agent = a'; server_name = server_name; resumption = [] })

  -- `enable_resumption`
  unfoldable pub enable_resumption : Bytes → Configure.Agent E
  enable_resumption token = do c_uint nss (length token); ask nss (set_resumption_token token)

  -- `Server::new`
  unfoldable pub new_server :
      Platform E
      → (Bytes → Option Handle)
      → (Handle → Option Handle)
      → Bool
      → List Bytes
      → Res NssError (Server E)
  new_server p find_cert find_key random certificates = and_then (new_agent p) λ a.
      and_then
        (after (configure_certs nss find_cert find_key certificates >> ready nss random true true)
          a)
        λ a'. ok (record { agent = a'; zero_rtt_check = none })

  -- `new_with_ocsp_and_scts`
  unfoldable pub new_with_ocsp_and_scts :
      Platform E
      → (Bytes → Res NssError (Unit {0}))
      → (Bytes → Option Handle)
      → (Handle → Option Handle)
      → Bool
      → List Bytes
      → List Bytes
      → Bytes
      → Res NssError (Server E)
  new_with_ocsp_and_scts p wrap find_cert find_key random certificates ocsp_responses scts =
      and_then (new_agent p) λ a.
        and_then
          (after
            (configure_certs_with nss wrap find_cert find_key ocsp_responses scts certificates
              >> ready nss random true true)
            a)
          λ a'. ok (record { agent = a'; zero_rtt_check = none })

  -- A method of the agent, in the server.
  abbrev in_agent : Configure.Agent E → Method (Server E) NssError (Unit {0})
  in_agent m s = let (r, a) = m s.agent in (r, record s { agent = a })

  -- `Server::enable_0rtt`
  unfoldable pub server_enable_0rtt : ℕ → ZeroRttChecker → Method (Server E) NssError (Unit {0})
  server_enable_0rtt max_early_data checker = do
    in_agent (ask nss hello_retry_request_callback)
    in_agent (ask nss (set_max_early_data_size max_early_data))
    modify (λ s. record s { zero_rtt_check = some checker })
    in_agent (enable_0rtt nss)
    in_agent (ask nss config_anti_replay)

  -- `Server::enable_ech`; `encode` is `ech::encode_config` with its arguments.
  unfoldable pub server_enable_ech :
      Res NssError Bytes → Handle → Handle → Method (Server E) NssError (Unit {0})
  server_enable_ech encode sk pk = do
    cfg ← lift encode
    in_agent (c_uint nss (length cfg))
    in_agent (ask nss (set_server_ech_configs sk pk cfg))
    modify (λ s. record s { agent = record s.agent { ech_config = cfg } })

-- `SSLHelloRetryRequestAction`
pub data HelloRetryAction : Type 0 where
  accepts rejects_0rtt requests fails : HelloRetryAction

-- `hello_retry_cb`: the action, and the token that is written to a buffer of `max` bytes.
unfoldable pub hello_retry_cb :
    ZeroRttChecker → Bool → Bytes → ℕ → Res NssError (HelloRetryAction × Bytes)
hello_retry_cb checker first_hello token max =
    if not first_hello then ok (accepts, []) else (elim (checker token) [
      | accept ↦ ok (accepts, [])
      | fail ↦ ok (fails, [])
      | reject ↦ ok (rejects_0rtt, [])
      | hello_retry_request tok ↦ if leb (length tok) max then ok (requests, tok) else panic
    ])
