-- ===== src/Session.antt =====
-- What nss-rs/src/agent.rs reads of a TLS session: `SecretAgentPreInfo`, `SecretAgentInfo` and
-- `get_alpn`. The structs that NSS fills in are records; flags that C keeps in an integer are
-- numbers, and the bits of `valuesSet` are Booleans.
use never_fox.Nss.{Bytes}
use never_fox.Types.{internal, Cipher, NssError}
use never_fox.Base.{
  ltb, ◌==◌, if◌then◌else◌, take, Res, and_then, ok, err, ℕ, Bool, true, false, not, Option, none,
  some,
}

-- `SSLNextProtoState`, as far as it is matched
pub data NextProtoState : Type 0 where
  no_support early_value negotiated selected other_state : NextProtoState

-- What `SSL_GetNextProto` writes: the state, the buffer, and the length used.
pub record NextProto : Type 0 where
  pub state : NextProtoState
  pub chosen : Bytes
  pub chosen_len : ℕ

-- Whether the state names a protocol, before the handshake is done (`pre`) and after.
abbrev is_chosen : Bool → NextProtoState → Bool
is_chosen true early_value = true
is_chosen false negotiated = true
is_chosen false selected = true
is_chosen _ _ = false

-- `get_alpn`; `is_utf8` is the test of `String::from_utf8`.
unfoldable pub get_alpn :
    (Bytes → Bool) → Bool → Res NssError NextProto → Res NssError (Option Bytes)
get_alpn is_utf8 pre answer = and_then answer λ p.
    if is_chosen pre p.state
    then (let name = take p.chosen_len p.chosen in
        if is_utf8 name then ok (some name) else err internal)
    else ok none

-- `SSLPreliminaryChannelInfo`
pub record PreliminaryChannelInfo : Type 0 where
  pub version_is_set : Bool
  pub cipher_suite_is_set : Bool
  pub zero_rtt_cipher_suite_is_set : Bool
  pub ech_is_set : Bool
  pub protocol_version : ℕ
  pub cipher_suite : Cipher
  pub zero_rtt_cipher_suite : Cipher
  pub can_send_early_data : ℕ
  pub max_early_data_size : ℕ
  pub ech_accepted : ℕ
  -- none for a null pointer
  pub ech_public_name : Option Bytes

pub record SecretAgentPreInfo : Type 0 where
  pub info : PreliminaryChannelInfo
  pub alpn : Option Bytes

-- `SecretAgentPreInfo::new`
unfoldable pub new_pre_info :
    (Bytes → Bool)
    → Res NssError PreliminaryChannelInfo
    → Res NssError NextProto
    → Res NssError SecretAgentPreInfo
new_pre_info is_utf8 channel proto =
    and_then channel λ info.
      and_then (get_alpn is_utf8 true proto) λ alpn. ok (record { info = info; alpn = alpn })

-- `preinfo_arg!`
abbrev preinfo_arg : {A : Type 0} → Bool → A → Option A
preinfo_arg true a = some a
preinfo_arg false a = none

unfoldable pub version : SecretAgentPreInfo → Option ℕ
version p = preinfo_arg p.info.version_is_set p.info.protocol_version

unfoldable pub cipher_suite : SecretAgentPreInfo → Option Cipher
cipher_suite p = preinfo_arg p.info.cipher_suite_is_set p.info.cipher_suite

unfoldable pub early_data_cipher : SecretAgentPreInfo → Option Cipher
early_data_cipher p = preinfo_arg p.info.zero_rtt_cipher_suite_is_set p.info.zero_rtt_cipher_suite

-- `early_data`, `max_early_data` where a `usize` has 64 bits, `ech_accepted`
unfoldable pub early_data : SecretAgentPreInfo → Bool
early_data p = not (p.info.can_send_early_data == 0)

unfoldable pub max_early_data : SecretAgentPreInfo → Res NssError ℕ
max_early_data p = ok p.info.max_early_data_size

unfoldable pub ech_accepted : SecretAgentPreInfo → Option Bool
ech_accepted p = if not p.info.ech_is_set then none else some (not (p.info.ech_accepted == 0))

-- `ech_public_name`; `bad_text` is the error of a name that is not UTF-8.
unfoldable pub ech_public_name :
    (Bytes → Bool) → NssError → SecretAgentPreInfo → Res NssError (Option Bytes)
ech_public_name is_utf8 bad_text p =
    if not p.info.ech_is_set then ok none else (elim p.info.ech_public_name [
      | none ↦ ok none
      | some n ↦ if is_utf8 n then ok (some n) else err bad_text
    ])

-- `SSLChannelInfo`
pub record ChannelInfo : Type 0 where
  pub protocol_version : ℕ
  pub cipher_suite : Cipher
  pub kea_group : ℕ
  pub resumed : ℕ
  pub early_data_accepted : ℕ
  pub ech_accepted : ℕ
  pub signature_scheme : ℕ

pub record SecretAgentInfo : Type 0 where
  pub version : ℕ
  pub cipher : Cipher
  pub group : ℕ
  pub resumed : Bool
  pub early_data : Bool
  pub ech_accepted : Bool
  pub alpn : Option Bytes
  pub signature_scheme : ℕ

-- `u16::try_from`, and the error of a number that does not fit.
abbrev u16_try_from : NssError → ℕ → Res NssError ℕ
u16_try_from overflow n = if ltb n 65536 then ok n else err overflow

-- `SecretAgentInfo::new`
unfoldable pub new_info :
    (Bytes → Bool)
    → NssError
    → Res NssError ChannelInfo
    → Res NssError NextProto
    → Res NssError SecretAgentInfo
new_info is_utf8 overflow channel proto = and_then channel λ info.
    and_then (u16_try_from overflow info.kea_group) λ group.
      and_then (get_alpn is_utf8 false proto) λ alpn.
        and_then (u16_try_from overflow info.signature_scheme) λ scheme. ok (record {
          version = info.protocol_version;
          cipher = info.cipher_suite;
          group = group;
          resumed = not (info.resumed == 0);
          early_data = not (info.early_data_accepted == 0);
          ech_accepted = not (info.ech_accepted == 0);
          alpn = alpn;
          signature_scheme = scheme;
        })
