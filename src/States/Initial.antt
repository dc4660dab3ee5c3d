-- ===== src/States/Initial.antt =====
-- Keys of Initial packets: `init`, `init_server`, `maybe_continue_initial_rx`, `rx_hp`,
-- `confirm_version` and `discard` of `CryptoStates`.
use never_fox.Base.{
  ltb, ◌==◌, is_some, is_none, filter_option, map_option, codes, Res, and_then, ok_or, Method,
  ◌>>=◌, ◌>>◌, pure, lift, get, modify, branch, match_option, ok, panic, ℕ, ◌+◌, ◌*◌, ◌%◌, Bool,
  false, not, Option, none, some, List, [], ◌∷◌,
}
use never_fox.Types.{
  Version, version_eq, Role, client, server, Epoch, Space, read, write, Error, version_negotiation,
}
use never_fox.Types.Words.{saturating_sub}
use never_fox.Nss.{Nss, Bytes}
use never_fox.Dx.{CryptoDxState, new_initial, continuation, next_pn}
use never_fox.States.{
  CryptoState, CryptoStates, Slot, reads, no_initials, initial_at, put_initial, initials_is_empty,
}
use never_fox.States.Select.{rx}

-- The labels of the keys that a role writes and reads Initial packets with.
unfoldable pub initial_labels : Role → Bytes × Bytes
initial_labels client = (codes "client in", codes "server in")
initial_labels server = (codes "server in", codes "client in")

-- The first packet number, from two random bytes if it is to be random.
unfoldable pub first_pn : Option (ℕ × ℕ) → ℕ
first_pn none = 0
first_pn (some (r0, r1)) = r0 % 32 + saturating_sub r1 224 * 32 + 1

-- Fresh keys, made to follow those that a Retry replaces.
unfoldable pub follow : CryptoDxState → CryptoDxState → Res Error CryptoDxState
follow prev dx = let (r, dx') = continuation prev dx in and_then r λ _. ok dx'

unfoldable pub follow_prev : Option CryptoState → CryptoState → Res Error CryptoState
follow_prev none k = ok k
follow_prev (some prev) k =
    and_then (follow prev.rx k.rx)
      λ rx'. and_then (follow prev.tx k.tx) λ tx'. ok (record { tx = tx'; rx = rx' })

-- The keys of one version.
unfoldable pub initial_keys : Nss → Version → Role → Bytes → ℕ → Res Error CryptoState
initial_keys nss version role dcid min_pn =
    let (write_label, read_label) = initial_labels role in
    and_then (new_initial nss version write write_label dcid min_pn) λ tx'.
      and_then (new_initial nss version read read_label dcid 0)
        λ rx'. ok (record { tx = tx'; rx = rx' })

-- The loop of `init`.
unfoldable pub init_each :
    Nss → List Version → Role → Bytes → ℕ → Method CryptoStates Error (Unit {0})
init_each nss [] role dcid min_pn = pure tt
init_each nss (v ∷ vs) role dcid min_pn = lift (initial_keys nss v role dcid min_pn) >>= λ fresh.
    get >>= λ s. lift (follow_prev (initial_at v s.initials) fresh) >>= λ k.
    modify (put_initial v (some k)) >>= λ _. init_each nss vs role dcid min_pn

-- `init`
unfoldable pub init :
    Nss → List Version → Role → Bytes → Option (ℕ × ℕ) → Method CryptoStates Error (Unit {0})
init nss versions role dcid random = init_each nss versions role dcid (first_pn random)

-- `init_server`
unfoldable pub init_server :
    Nss → Version → Bytes → Option (ℕ × ℕ) → Method CryptoStates Error (Unit {0})
init_server nss version dcid random = do
  s ← get
  branch (is_none (initial_at version s.initials)) (init nss (version ∷ []) server dcid random)
      (pure tt)

-- The first version, in the order of the map, whose keys have read a packet.
unfoldable pub find_used : List Version → CryptoStates → Option CryptoState
find_used [] s = none
find_used (v ∷ vs) s =
    let rest = find_used vs s in
    elim (filter_option (λ k. ltb 0 (next_pn k.rx)) (initial_at v s.initials)) [
      | some k ↦ some k
      | none ↦ rest
    ]

-- What `continuation` makes of a key, its error ignored.
abbrev pub continued : CryptoDxState → CryptoDxState → CryptoDxState
continued prev dx = (continuation prev dx).1

-- `maybe_continue_initial_rx`
unfoldable pub maybe_continue_initial_rx : Nss → Version → CryptoStates → CryptoStates
maybe_continue_initial_rx nss version s =
    elim (filter_option (λ k. next_pn k.rx == 0) (initial_at version s.initials)) [
      | none ↦ s
      | some k ↦ elim (find_used nss.version_order s) [
        | none ↦ s
        | some prev ↦ put_initial version (some (record k { rx = continued prev.rx k.rx })) s
      ]
    ]

-- `rx_hp`: the state afterwards, and the place of the key.
unfoldable pub rx_hp : Nss → Version → Epoch → CryptoStates → Option Slot × CryptoStates
rx_hp nss version Epoch.initial s =
    let s' = maybe_continue_initial_rx nss version s in (rx version Epoch.initial false s', s')
rx_hp nss version Epoch.zero_rtt s = (rx version Epoch.zero_rtt false s, s)
rx_hp nss version Epoch.handshake s = (rx version Epoch.handshake false s, s)
rx_hp nss version Epoch.application_data s = (map_option (λ _. reads) s.app_read, s)

-- A method of one key, stored back whatever its outcome.
abbrev pub on_key :
    CryptoDxState
    → (CryptoDxState → CryptoStates → CryptoStates)
    → Method CryptoDxState Error (Unit {0})
    → Method CryptoStates Error (Unit {0})
on_key dx store m s = let (r, dx') = m dx in (r, store dx' s)

-- `confirm_version`: the keys of `orig` are taken out, and put back only if all went well.
unfoldable pub confirm_version : Version → Version → Method CryptoStates Error (Unit {0})
confirm_version orig confirmed = do
  s ← get
  branch (version_eq orig confirmed) (pure tt) (
      match_option (initial_at orig s.initials) (pure tt) λ prev. do
        modify (put_initial orig none)
        next ← lift (ok_or (initial_at confirmed s.initials) version_negotiation)
        on_key next.rx (λ dx. put_initial confirmed (some (record next { rx = dx })))
            (continuation prev.rx)
        let next' = record next { rx = continued prev.rx next.rx }
        on_key next.tx (λ dx. put_initial confirmed (some (record next' { tx = dx })))
            (continuation prev.tx)
        modify (put_initial orig (some prev)))

-- `discard`: whether there was something to discard.
unfoldable pub discard : Space → Method CryptoStates Error Bool
discard Space.initial s = (ok (not (initials_is_empty s)), record s { initials = no_initials })
discard Space.handshake s = (ok (is_some s.handshake), record s { handshake = none })
discard Space.application_data s = (panic, s)
