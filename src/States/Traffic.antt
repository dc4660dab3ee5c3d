-- ===== src/States/Traffic.antt =====
-- Packets among the key updates: what a connection seals and opens with its application keys, over
-- any history.
pub mod Kept
pub mod Each
pub mod Limit
pub mod Reads
use never_fox.Base.{
  Option-cases, map_option, Method, ◌>>=◌, pure, ok, ◌≡◌, refl, ◌⊎◌, inl, inr, Bool, Option, none,
  some, List, [], ◌∷◌, arith,
}
use never_fox.States.{
  Slot, CryptoStates, CryptoState, key_at, put_initial, initial_at, initial_tx, initial_rx, early,
  handshake_tx, handshake_rx, writes, reads, reads_next,
}
use never_fox.States.Select.{tx_mut, rx, rx-cases}
use never_fox.States.Update.{States}
use never_fox.States.Run
use never_fox.Types.{Error, Version, Epoch}
use never_fox.AppData.{CryptoDxAppData}
use never_fox.Dx.{CryptoDxState, encrypt, decrypt}
use never_fox.Dx.Limits.{Packet}
use never_fox.Nss.{Nss}

-- What is written through the reference to a key that `tx_mut` or `rx` gives.
abbrev put_app : CryptoDxState → Option CryptoDxAppData → Option CryptoDxAppData
put_app dx none = none
put_app dx (some app) = some (record app { dx = dx })

abbrev pub put_key : Slot → CryptoDxState → CryptoStates → CryptoStates
put_key writes dx s = record s { app_write = put_app dx s.app_write }
put_key reads dx s = record s { app_read = put_app dx s.app_read }
put_key reads_next dx s = record s { app_read_next = put_app dx s.app_read_next }
put_key early dx s = record s { zero_rtt = map_option (λ _. dx) s.zero_rtt }
put_key handshake_tx dx s = record s {
  handshake = map_option {A = CryptoState} (λ k. record k { tx = dx }) s.handshake;
}
put_key handshake_rx dx s = record s {
  handshake = map_option {A = CryptoState} (λ k. record k { rx = dx }) s.handshake;
}
put_key (initial_tx v) dx s =
    put_initial v
      (map_option {A = CryptoState} (λ k. record k { tx = dx }) (initial_at v s.initials)) s
put_key (initial_rx v) dx s =
    put_initial v
      (map_option {A = CryptoState} (λ k. record k { rx = dx }) (initial_at v s.initials)) s

-- A method of the key at a place, if there is one.
abbrev use_key :
    {A : Type 0} → Option Slot → Method CryptoDxState Error A → CryptoStates → CryptoStates
use_key none m s = s
use_key (some slot) m s = elim (key_at slot s) [ none ↦ s | some dx ↦ put_key slot (m dx).1 s ]

-- A key update, a packet that is sealed, or a packet of a phase that is tried.
pub data Event : Type 0 where
  updates : Run.Event → Event
  seals : Packet → Event
  opens : Bool → Packet → Event

-- A packet may be refused; the connection goes on.
unfoldable pub step : Nss → Version → Event → States (Unit {0})
step nss version (updates e) s = Run.step nss e s
step nss version (seals p) s =
    (ok tt, use_key (tx_mut version Epoch.application_data s) (encrypt nss p.pn p.hdr p.buf) s)
step nss version (opens phase p) s =
    (ok tt, use_key (rx version Epoch.application_data phase s) (decrypt nss p.pn p.hdr p.buf) s)

unfoldable pub run : Nss → Version → List Event → States (Unit {0})
run nss version [] = pure tt
run nss version (e ∷ es) = step nss version e >>= λ _. run nss version es

-- The states that a packet may leave behind: one key has been used, or none was there.
pub seals_none :
    (nss : Nss) (version : Version) (p : Packet) (s : CryptoStates)
    → s.app_write ≡ none
    → step nss version (seals p) s ≡ (ok tt, s)
unfolding step tx_mut
seals_none nss version p s nothing = ground arith

pub seals_some :
    (nss : Nss) (version : Version) (p : Packet) (s : CryptoStates) (w : CryptoDxAppData)
    → s.app_write ≡ some w
    → step nss version (seals p) s ≡ (ok tt, put_key writes (encrypt nss p.pn p.hdr p.buf w.dx).1 s)
unfolding step tx_mut
seals_some nss version p s w there = rw there refl

pub seals-cases :
    (nss : Nss) (version : Version) (p : Packet) (s : CryptoStates)
    → (step nss version (seals p) s ≡ (ok tt, s))
      ⊎ ((w : CryptoDxAppData) × (s.app_write ≡ some w)
          × (step nss version (seals p) s
              ≡ (ok tt, put_key writes (encrypt nss p.pn p.hdr p.buf w.dx).1 s)))
seals-cases nss version p s = elim (Option-cases s.app_write) [
  | inl nothing ↦ inl (seals_none nss version p s nothing)
  | inr (w, there) ↦ inr (w, there, seals_some nss version p s w there)
]

pub opens-cases :
    (nss : Nss) (version : Version) (phase : Bool) (p : Packet) (s : CryptoStates)
    → (step nss version (opens phase p) s ≡ (ok tt, s))
      ⊎ (((r : CryptoDxAppData) × (s.app_read ≡ some r)
            × (step nss version (opens phase p) s
                ≡ (ok tt, put_key reads (decrypt nss p.pn p.hdr p.buf r.dx).1 s)))
          ⊎ ((n : CryptoDxAppData) × (s.app_read_next ≡ some n)
              × (step nss version (opens phase p) s
                  ≡ (ok tt, put_key reads_next (decrypt nss p.pn p.hdr p.buf n.dx).1 s))))
unfolding step
opens-cases nss version phase p s = elim (rx-cases version phase s) [
  | inl nothing ↦ inl (ground arith)
  | inr (inl (r, there, at)) ↦ inr (inl (r, there, rw at (rw there refl)))
  | inr (inr (n, there, at)) ↦ inr (inr (n, there, rw at (rw there refl)))
]

pub updates_eq :
    (nss : Nss) (version : Version) (e : Run.Event) → step nss version (updates e) ≡ Run.step nss e
unfolding step
updates_eq nss version e = refl
