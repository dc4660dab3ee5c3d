-- ===== src/States/Select.antt =====
-- Which key a packet uses: `select_tx`, `tx`, `rx`, `rx_pending` of `CryptoStates`, with the
-- variants for `&mut`.
use never_fox.Base.{
  is_none, filter_option, xor_option, map_option, eq_bool, ◌≡◌, ◌⊎◌, Bool, false, ◌&&◌, not, Option,
  none, some, arith,
}
use never_fox.Types.{Version, Epoch, Space, write, read, direction_eq}
use never_fox.Dx.{CryptoDxState, key_phase}
use never_fox.AppData.{CryptoDxAppData}
use never_fox.States.{
  CryptoStates, Slot, initial_tx, initial_rx, early, handshake_tx, handshake_rx, writes, reads,
  reads_next, initial_at, initials_is_empty,
}

-- A place, if there is a key.
abbrev place {ℓ} : {A : Type ℓ} → Slot → Option A → Option Slot
place slot o = map_option (λ _. slot) o

-- `tx_mut`
unfoldable pub tx_mut : Version → Epoch → CryptoStates → Option Slot
tx_mut version Epoch.initial s = place (initial_tx version) (initial_at version s.initials)
tx_mut version Epoch.zero_rtt s =
    place early (filter_option (λ z. direction_eq z.direction write) s.zero_rtt)
tx_mut version Epoch.handshake s = place handshake_tx s.handshake
tx_mut version Epoch.application_data s = place writes s.app_write

-- `tx`
unfoldable pub tx : Version → Epoch → CryptoStates → Option CryptoDxState
tx version Epoch.initial s = map_option (λ k. k.tx) (initial_at version s.initials)
tx version Epoch.zero_rtt s = filter_option (λ z. direction_eq z.direction write) s.zero_rtt
tx version Epoch.handshake s = map_option (λ k. k.tx) s.handshake
tx version Epoch.application_data s = map_option (λ app. app.dx) s.app_write

-- `select_tx_mut`: 0-RTT keys stand in for those of application data, until these are there.
unfoldable pub select_tx_mut : Version → Space → CryptoStates → Option (Epoch × Slot)
select_tx_mut version Space.initial s =
    map_option (λ slot. (Epoch.initial, slot)) (tx_mut version Epoch.initial s)
select_tx_mut version Space.handshake s =
    map_option (λ slot. (Epoch.handshake, slot)) (tx_mut version Epoch.handshake s)
select_tx_mut version Space.application_data s = elim s.app_write [
  | some app ↦ some (Epoch.application_data, writes)
  | none ↦ map_option (λ _. (Epoch.zero_rtt, early)) s.zero_rtt
]

-- `select_tx`
unfoldable pub select_tx : Version → Space → CryptoStates → Option (Epoch × CryptoDxState)
select_tx version Space.initial s =
    map_option (λ dx. (Epoch.initial, dx)) (tx version Epoch.initial s)
select_tx version Space.handshake s =
    map_option (λ dx. (Epoch.handshake, dx)) (tx version Epoch.handshake s)
select_tx version Space.application_data s = elim s.app_write [
  | some app ↦ some (Epoch.application_data, app.dx)
  | none ↦ map_option (λ dx. (Epoch.zero_rtt, dx)) s.zero_rtt
]

-- The application keys of a phase.
abbrev of_phase : Bool → Option CryptoDxAppData → Option CryptoDxAppData
of_phase phase = filter_option (λ ar. eq_bool (key_phase ar.dx) phase)

-- `rx`
unfoldable pub rx : Version → Epoch → Bool → CryptoStates → Option Slot
rx version Epoch.initial phase s = place (initial_rx version) (initial_at version s.initials)
rx version Epoch.zero_rtt phase s =
    place early (filter_option (λ z. direction_eq z.direction read) s.zero_rtt)
rx version Epoch.handshake phase s = place handshake_rx s.handshake
rx version Epoch.application_data phase s =
    xor_option (place reads (of_phase phase s.app_read))
      (place reads_next (of_phase phase s.app_read_next))

-- `rx_pending`
unfoldable pub rx_pending : Epoch → CryptoStates → Bool
rx_pending Epoch.initial s = false
rx_pending Epoch.zero_rtt s = false
rx_pending Epoch.handshake s = is_none s.handshake && not (initials_is_empty s)
rx_pending Epoch.application_data s = is_none s.app_read

-- A key for an application packet is one of the two that are there.
pub rx-cases :
    (version : Version) (phase : Bool) (s : CryptoStates)
    → (rx version Epoch.application_data phase s ≡ none)
      ⊎ (((r : CryptoDxAppData) × (s.app_read ≡ some r)
            × (rx version Epoch.application_data phase s ≡ some reads))
          ⊎ ((n : CryptoDxAppData) × (s.app_read_next ≡ some n)
              × (rx version Epoch.application_data phase s ≡ some reads_next)))
unfolding rx
rx-cases version phase s = ground arith
