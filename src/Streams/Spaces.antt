-- ===== src/Streams/Spaces.antt =====
-- Which spaces have a stream, and what the methods of `CryptoStreams` leave alone.
use never_fox.Base.{if◌then◌else◌, is_some, ok, ◌≡◌, Bool, true, false, ◌&&◌, none, some, arith}
use never_fox.Types.{Space}
use never_fox.Streams.{CryptoStream, CryptoStreams, discard, get_stream, set_stream}

abbrev pub space_eq : Space → Space → Bool
space_eq Space.initial Space.initial = true
space_eq Space.handshake Space.handshake = true
space_eq Space.application_data Space.application_data = true
space_eq _ _ = false

-- Discarding a space that succeeds leaves no stream there, and the streams of all other spaces as
-- they were.
pub discard-get_stream :
    {Tx Rx : Type 0} (space other : Space) (s s' : CryptoStreams Tx Rx)
    → discard space s ≡ (ok tt, s')
    → get_stream other s' ≡ (if space_eq space other then none else get_stream other s)
unfolding discard get_stream
discard-get_stream Space.initial other (CryptoStreams.initial i h a) s' e = ground arith
discard-get_stream space other s s' e = ground arith

-- A stream that is written back is read back, and the other spaces do not change.
pub get_stream-set_stream :
    {Tx Rx : Type 0} (space other : Space) (c : CryptoStream Tx Rx) (s : CryptoStreams Tx Rx)
    → get_stream other (set_stream space c s) ≡ (
        if space_eq space other && is_some (get_stream space s) then some c else get_stream other s)
unfolding get_stream set_stream
get_stream-set_stream space other c s = ground arith
