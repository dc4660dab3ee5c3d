-- ===== src/States/Phase.antt =====
-- Which key a packet finds: `rx`, `tx`, `select_tx` and their `&mut` variants.
use never_fox.Base.{
  if◌then◌else◌, map_option, eq_bool, ◌+◌, ◌≡◌, ◌∙◌, Bool, not, Option, none, some, arith,
}
use never_fox.Types.{Version, Epoch, Space}
use never_fox.Dx.{CryptoDxState, key_phase}
use never_fox.AppData.{CryptoDxAppData}
use never_fox.States.{CryptoStates, reads, reads_next, key_at}
use never_fox.States.Select.{tx_mut, tx, select_tx_mut, select_tx, rx}
use never_fox.States.Sync.{Synced}

-- Keys of consecutive epochs have different phase bits.
phase_flips : (a b : CryptoDxState) → b.epoch ≡ a.epoch + 1 → key_phase b ≡ not (key_phase a)
unfolding key_phase
phase_flips a b e = ground arith

-- With the application keys in use, a packet of either phase finds a key to read with: the current
-- one if the phase is its own, else the next one.
pub rx-Synced :
    (version : Version) (phase : Bool) (s : CryptoStates) (w r n : CryptoDxAppData)
    → Synced s w r n
    → rx version Epoch.application_data phase s
      ≡ some (if eq_bool (key_phase r.dx) phase then reads else reads_next)
unfolding rx
rx-Synced version phase s w r n y =
    ground (arith, y.has_read, y.has_next, phase_flips r.dx n.dx y.next_epoch)

pub rx-reads :
    (version : Version) (phase : Bool) (s : CryptoStates) (w r n : CryptoDxAppData)
    → Synced s w r n
    → phase ≡ key_phase r.dx
    → rx version Epoch.application_data phase s ≡ some reads
rx-reads version phase s w r n y e = rx-Synced version phase s w r n y ∙ rw e (ground arith)

pub rx-reads_next :
    (version : Version) (phase : Bool) (s : CryptoStates) (w r n : CryptoDxAppData)
    → Synced s w r n
    → phase ≡ key_phase n.dx
    → rx version Epoch.application_data phase s ≡ some reads_next
rx-reads_next version phase s w r n y e =
    rx-Synced version phase s w r n y ∙ ground (arith, phase_flips r.dx n.dx y.next_epoch)

-- The place that `tx_mut` gives holds the key that `tx` gives.
pub tx_mut-tx :
    (version : Version) (epoch : Epoch) (s : CryptoStates)
    → (elim (tx_mut version epoch s) [ none ↦ none | some slot ↦ key_at slot s ])
      ≡ tx version epoch s
unfolding tx_mut tx
tx_mut-tx version Epoch.initial s = ground arith
tx_mut-tx version Epoch.zero_rtt s = ground arith
tx_mut-tx version Epoch.handshake s = ground arith
tx_mut-tx version Epoch.application_data s = ground arith

-- `select_tx_mut` and `select_tx` choose the same epoch and the same key, in every space.
pub select_tx_mut-select_tx :
    (version : Version) (space : Space) (s : CryptoStates)
    → map_option {B = Epoch × Option CryptoDxState}
        (λ p. (p.0, key_at p.1 s))
        (select_tx_mut version space s)
      ≡ map_option {B = Epoch × Option CryptoDxState}
          (λ p. (p.0, some p.1))
          (select_tx version space s)
unfolding select_tx_mut select_tx tx_mut tx
select_tx_mut-select_tx version Space.initial s = ground arith
select_tx_mut-select_tx version Space.handshake s = ground arith
select_tx_mut-select_tx version Space.application_data s = ground arith
