-- ===== src/Dx/Numbers.antt =====
-- Packet numbers of one key state: `used`, `continuation` and `next` of `CryptoDxState`.
use never_fox.Base.{
  ltb, leb, Bool-cases, Res, is_ok, ok, err, panic, ℕ, ◌+◌, ◌≤◌, ◌<◌, max, ◌≡◌, ◌⊎◌, inl, inr, Bool,
  true, false, ◌&&◌, not, arith,
}
use never_fox.Types.{Cipher, Error, packet_number_overlap}
use never_fox.Types.Words.{u64_max}
use never_fox.Nss.{Nss, Handle}
use never_fox.Dx.{CryptoDxState, next_pn, used, continuation, next, key_phase}

-- The range of numbers seen is in order, and none lies below the least that is allowed.
pub record IsValid (dx : CryptoDxState) : Type 0 where
  pub ordered : dx.used_pn.start ≤ dx.used_pn.end
  pub above_min : dx.min_pn ≤ dx.used_pn.start

-- What one call of `used pn` may do to a valid state.
abbrev pub UsedSpec : ℕ → CryptoDxState → Res Error (Unit {0}) × CryptoDxState → Type 0
UsedSpec pn dx (ok _, dx') =
    IsValid dx'
    × (dx.min_pn ≤ pn)
    × (next_pn dx' ≡ max (pn + 1) (next_pn dx))
    × (dx'.min_pn ≡ dx.min_pn)
UsedSpec pn dx (err e, dx') = (pn < dx.min_pn) × (e ≡ packet_number_overlap) × (dx' ≡ dx)
UsedSpec pn dx (panic, dx') = ⊥

-- With valid keys, a packet number below 2^64 - 1 is refused exactly when it is below the least allowed, and then nothing changes;
-- otherwise the state stays valid and its next number passes that of the packet.
pub used-UsedSpec :
    (pn : ℕ) (dx : CryptoDxState) → IsValid dx → pn < u64_max → UsedSpec pn dx (used pn dx)
unfolding used
used-UsedSpec pn dx v h = ground arith

-- Whether a packet number lies in the range that the keys have seen.
abbrev pub sees : CryptoDxState → ℕ → Bool
sees dx pn = leb dx.used_pn.start pn && ltb pn dx.used_pn.end

-- The outcome of a continuation of valid keys by keys of the same direction. It fails exactly when
-- the newer keys have seen a number below the older keys' next one, and then with an overlap. If it
-- succeeds, they are valid, start at the older keys' next number, and still count as seen each
-- number that they had seen. In both cases they take a number from then on if and only if it is
-- not below the older keys' next one.
pub continuation-sees :
    (prev dx : CryptoDxState) (pn : ℕ)
    → IsValid dx
    → prev.direction ≡ dx.direction
    → let (r, dx') = continuation prev dx in
      (is_ok (used pn dx').0 ≡ leb (next_pn prev) pn)
      × (((r ≡ ok tt)
            × IsValid dx'
            × (dx'.used_pn.start ≡ next_pn prev)
            × ((sees dx pn && ltb pn (next_pn prev)) ≡ false)
            × ((sees dx pn && not (sees dx' pn)) ≡ false))
          ⊎ ((r ≡ err packet_number_overlap)
              × (low : ℕ) × (sees dx low ≡ true)
              × (low < next_pn prev)))
unfolding continuation used
continuation-sees prev dx pn v d = (
  ground arith,
  elim (Bool-cases (ltb dx.used_pn.start dx.used_pn.end)) [
    | inr fresh ↦ inl (
      ground (arith, fresh),
      record { ordered = ground (arith, fresh); above_min = ground (arith, fresh) },
      ground (arith, fresh),
      ground (arith, fresh),
      ground (arith, fresh),
    )
    | inl in_use ↦ elim (Bool-cases (ltb dx.used_pn.start (next_pn prev))) [
      | inl over ↦ inr (
        ground (arith, in_use, over),
        dx.used_pn.start,
        ground (arith, in_use),
        ground (arith, over),
      )
      | inr free ↦ inl (
        ground (arith, in_use, free),
        record { ordered = ground (arith, in_use, free); above_min = ground (arith, in_use, free) },
        ground (arith, in_use, free),
        ground (arith, in_use, free),
        ground (arith, in_use, free),
      )
    ]
  ],
)

-- After a continuation that succeeded, every number that the older keys might have seen is refused.
pub continuation-used :
    (prev dx dx' : CryptoDxState) (pn : ℕ)
    → continuation prev dx ≡ (ok tt, dx')
    → pn < next_pn prev
    → used pn dx' ≡ (err packet_number_overlap, dx')
unfolding continuation used
continuation-used prev dx dx' pn e h = ground arith

-- The keys of the next phase have the other phase bit, have seen no number, go on at the next one
-- of the keys before them, and take a number if and only if it is not below that.
pub next_follows :
    (nss : Nss) (dx dx' : CryptoDxState) (secret : Handle) (cipher : Cipher) (pn : ℕ)
    → next nss dx secret cipher ≡ ok dx'
    → (key_phase dx' ≡ not (key_phase dx))
      × IsValid dx'
      × (sees dx' pn ≡ false)
      × (next_pn dx' ≡ next_pn dx)
      × (is_ok (used pn dx').0 ≡ leb (next_pn dx) pn)
unfolding next key_phase used
next_follows nss dx dx' secret cipher pn e = ground arith

-- With the timer of a key update running, every packet is followed by a continuation of the newer
-- keys. Once they have seen a packet, that lowers their first number to the older keys' next: a
-- delayed packet under the older keys is then an overlap, also where its number is lower than
-- every number that the newer keys have seen.
pub continuation_rejects_delayed :
    (old new new' old' : CryptoDxState) (pn : ℕ)
    → IsValid old
    → IsValid new
    → new.used_pn.start < new.used_pn.end
    → continuation old new ≡ (ok tt, new')
    → next_pn old ≤ pn
    → pn < new.used_pn.start
    → pn < u64_max
    → used pn old ≡ (ok tt, old')
    → (continuation old' new').0 ≡ err packet_number_overlap
unfolding continuation used
continuation_rejects_delayed old new new' old' pn vo vn seen e above below h u = ground arith
