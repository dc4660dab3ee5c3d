-- ===== src/Crypto/Keys.antt =====
-- Keys and `Crypto`: `discard` and `enable_0rtt`.
use never_fox.Dx.{empty_range}
use never_fox.Crypto.Agent.{Tls}
use never_fox.States.Install.{set_0rtt_keys}
use never_fox.Nss.{Nss, Handle}
use never_fox.Streams.Spaces.{space_eq, discard-get_stream}
use never_fox.States.{initials_is_empty, CryptoStates}
use never_fox.Types.{Space, write, Version, read, Cipher, Epoch, Direction, Role}
use never_fox.States.Initial
use never_fox.Dx
use never_fox.Streams
use never_fox.Crypto.{
  discard, Space, Crypto, CryptoStates, Nss, Tls, write, Version, read, Handle, Cipher, Epoch,
  Direction, Role, set_0rtt_keys,
}
use never_fox.Streams.{get_stream}
use never_fox.Types.{client, server}
use never_fox.Base.{if◌then◌else◌, is_none, ok, ◌≡◌, Bool, true, ◌&&◌, not, none, arith}

-- Whether a space has no keys.
abbrev pub keyless : Space → CryptoStates → Bool
keyless Space.initial s = initials_is_empty s
keyless Space.handshake s = is_none s.handshake
keyless Space.application_data s = is_none s.app_write && is_none s.app_read

states_discard :
    (space : Space) (b : Bool) (s s' : CryptoStates)
    → Initial.discard space s ≡ (ok b, s')
    → (keyless space s' ≡ true) × (b ≡ not (keyless space s))
unfolding Initial.discard initials_is_empty
states_discard space b s s' e = ground arith

module _ {A Tx Rx : Type 0} where
  discard_inv :
      (space : Space) (b : Bool) (c c' : Crypto A Tx Rx)
      → discard space c ≡ (ok b, c')
      → (Streams.discard space c.streams ≡ (ok tt, c'.streams))
        × (Initial.discard space c.states ≡ (ok b, c'.states))
  unfolding discard
  discard_inv space b c c' e = ground arith

  -- Discarding a space that succeeds leaves neither keys nor a stream there, says whether there
  -- were keys, and keeps the streams of the other spaces.
  pub discard-keyless :
      (space other : Space) (b : Bool) (c c' : Crypto A Tx Rx)
      → discard space c ≡ (ok b, c')
      → (keyless space c'.states ≡ true)
        × (b ≡ not (keyless space c.states))
        × (get_stream other c'.streams
            ≡ (if space_eq space other then none else get_stream other c.streams))
  discard-keyless space other b c c' e =
      let (streams, states) = discard_inv space b c c' e in
      let (gone, told) = states_discard space b c.states c'.states states in
      (gone, told, discard-get_stream space other c.streams c'.streams streams)

-- The direction of the 0-RTT keys of a side.
abbrev pub early_direction : Role → Direction
early_direction client = write
early_direction server = read
