-- ===== src/States/Traffic/Limit.antt =====
-- How many packets each application key may seal, over any history of a connection.
use never_fox.Dx.Same.{encrypt-SameKey}
use never_fox.Dx.Limits.{Packet}
use never_fox.States.Traffic.Each.{Keeps-traffic-step}
use never_fox.States.Each.{Closed, Each}
use never_fox.Base.{
  ltb, ◌==◌, if◌then◌else◌, Option-cases, is_ok, ok-injective, ok, Keeps, ℕ, ◌+◌, ◌-◌, ◌≤◌, ◌≡◌,
  refl, sym, ap, subst, ◌∙◌, inl, inr, Bool, false, ◌&&◌, Option, none, some, List, [], ◌∷◌, arith,
}
use never_fox.States.Traffic
use never_fox.States.Traffic.{put_key, step, updates, seals, opens, seals_none, seals_some}
use never_fox.Dx.{CryptoDxState, encrypt, limit}
use never_fox.AppData
use never_fox.AppData.{CryptoDxAppData}
use never_fox.AppData.Chain.{next_lem, new-Generation}
use never_fox.States.{CryptoStates}
use never_fox.Dx.Uses.{one_if, encrypt-invocations}
use never_fox.States.Install.{set_application_write_key, continue_early}
use never_fox.States.Start.{set_application_write_key_inv, continue_early-invocations}
use never_fox.AppData.Uses.{new-invocations, next_invocations-write}
use never_fox.Nss.{Nss, Handle}
use never_fox.Types.{Version, Cipher, write}
use never_fox.Types.Words.{u64_max}

-- Whether an event seals a packet with the write key of epoch `e`.
abbrev pub seals_at : Nss → ℕ → Traffic.Event → CryptoStates → Bool
seals_at nss e (seals p) s = elim s.app_write [
  | none ↦ false
  | some w ↦ w.dx.epoch == e && is_ok (encrypt nss p.pn p.hdr p.buf w.dx).0
]
seals_at nss e _ s = false

-- The packets that are sealed with the write key of epoch `e`.
unfoldable pub sealed_at : Nss → Version → ℕ → List Traffic.Event → CryptoStates → ℕ
sealed_at nss version e [] s = 0
sealed_at nss version e (x ∷ xs) s =
    let rest = sealed_at nss version e xs (step nss version x s).1 in
    one_if (seals_at nss e x s) + rest

-- The packets that the key of epoch `e` may yet seal, when `dx` is the write key: `m` if it is
-- still to come, none if it has gone.
abbrev left : ℕ → ℕ → CryptoDxState → ℕ
left m e dx = if dx.epoch == e then dx.invocations else if ltb dx.epoch e then m else 0

record Fits (cipher : Cipher) (m e c : ℕ) (w : CryptoDxAppData) : Type 0 where
  same_cipher : w.cipher ≡ cipher
  same_direction : w.dx.direction ≡ write
  small : w.dx.epoch ≤ u64_max
  within : left m e w.dx ≤ c

module _ (nss : Nss) (cipher : Cipher) (m : ℕ) (most : limit write cipher ≡ ok m) (e : ℕ) where
  next-Fits :
      (c : ℕ) (w w' : CryptoDxAppData)
      → AppData.next nss w ≡ ok w'
      → Fits cipher m e c w
      → Fits cipher m e c w'
  next-Fits c w w' made f =
      let made_of = next_lem nss w w' made in
      let fresh : w'.dx.invocations ≡ m = ok-injective (
        sym (next_invocations-write nss w w' made f.same_direction)
        ∙ ap (limit write) f.same_cipher
        ∙ most) in
      let grown : w'.dx.epoch ≡ w.dx.epoch + 1 = ground (arith, made_of.5, made_of.6, f.small) in
      record {
        same_cipher = made_of.2 ∙ f.same_cipher;
        same_direction = made_of.4 ∙ f.same_direction;
        small = ground (arith, made_of.6, f.small);
        within = ground (arith, f.within);
      }

  -- Packets that a key of epoch `e` seals count against what is left for it.
  encrypt-Fits :
      (c : ℕ) (p : Packet) (w : CryptoDxAppData)
      → Fits cipher m e c w
      → let (r, dx') = encrypt nss p.pn p.hdr p.buf w.dx in
        let n = one_if (w.dx.epoch == e && is_ok r) in
        (n ≤ c) × Fits cipher m e (c - n) (record w { dx = dx' })
  encrypt-Fits c p w f =
      let same = encrypt-SameKey nss p.pn p.hdr p.buf w.dx in
      let cost = encrypt-invocations nss p.pn p.hdr p.buf w.dx in
      (
        ground (arith, f.within, cost),
        record {
          same_cipher = f.same_cipher;
          same_direction = same.same_direction ∙ f.same_direction;
          small = ground (arith, same.same_epoch, f.small);
          within = ground (arith, same.same_epoch, f.within, cost);
        },
      )

  more-Fits : (c d : ℕ) (w : CryptoDxAppData) → c ≤ d → Fits cipher m e c w → Fits cipher m e d w
  more-Fits c d w le f = record {
    same_cipher = f.same_cipher;
    same_direction = f.same_direction;
    small = f.small;
    within = omega (arith, f.within, le);
  }

  abbrev Fit : ℕ → CryptoStates → Type 0
  Fit c = Each (Fits cipher m e c) (λ _. Unit {0})

  closed : (c : ℕ) → Closed nss (Fits cipher m e c) (λ _. Unit {0})
  closed c = record {
    write_next = next-Fits c;
    read_next = λ app next made q. tt;
    read_same = λ app dx' same q. tt;
  }

  Keeps-Fit : (version : Version) (c : ℕ) (x : Traffic.Event) → Keeps (Fit c) (step nss version x)
  Keeps-Fit version c =
      Keeps-traffic-step version (closed c)
        λ p w f. let (le, after) = encrypt-Fits c p w f in more-Fits _ c _ (omega arith) after

  uncounted : (c : ℕ) (s : CryptoStates) → Fit c s → (0 ≤ c) × Fit (c - 0) s
  uncounted c s k = (omega arith, subst (λ d. Fit d s) (omega arith) k)

  -- An event that seals a packet at the epoch leaves one less.
  step-Fit :
      (version : Version) (c : ℕ) (x : Traffic.Event) (s : CryptoStates)
      → Fit c s
      → let n = one_if (seals_at nss e x s) in (n ≤ c) × Fit (c - n) (step nss version x s).1
  step-Fit version c (updates u) s k = uncounted c _ ((Keeps-Fit version c (updates u)).kept s k)
  step-Fit version c (opens phase p) s k =
      uncounted c _ ((Keeps-Fit version c (opens phase p)).kept s k)
  step-Fit version c (seals p) s k = elim (Option-cases s.app_write) [
    | inl nothing ↦
        let idle : seals_at nss e (seals p) s ≡ false = rw nothing refl in
        rw idle (rw (seals_none nss version p s nothing) (uncounted c s k))
    | inr (w, there) ↦
        let (le, after) = encrypt-Fits c p w (k.writes w there) in
        let told : seals_at nss e (seals p) s
            ≡ (w.dx.epoch == e && is_ok (encrypt nss p.pn p.hdr p.buf w.dx).0) =
          rw there refl in
        rw told (
          rw (seals_some nss version p s w there) (
            le,
            record {
              writes = λ a h. subst (Fits cipher m e _) (ground arith) after;
              reads = λ _ _. tt;
              reads_next = λ _ _. tt;
            },
          ))
  ]

  Fit-sealed_at :
      (version : Version) (xs : List Traffic.Event) (c : ℕ) (s : CryptoStates)
      → Fit c s
      → sealed_at nss version e xs s ≤ c
  unfolding sealed_at
  Fit-sealed_at version [] c s k = omega arith
  Fit-sealed_at version (x ∷ xs) c s k =
      let (le, after) = step-Fit version c x s k in
      omega (arith, le, Fit-sealed_at version xs _ (step nss version x s).1 after)

-- The first application key to write with has all uses of its cipher suite left.
start-Fits :
    (nss : Nss) (version : Version) (secret : Handle) (cipher : Cipher) (m e : ℕ)
    (early : Option CryptoDxState) (fresh app : CryptoDxAppData)
    → limit write cipher ≡ ok m
    → AppData.new nss version write secret cipher ≡ ok fresh
    → continue_early write early fresh ≡ ok app
    → Fits cipher m e m app
start-Fits nss version secret cipher m e early fresh app most made cont =
    let (ciphers, directions, epochs, uses) =
      continue_early-invocations write early fresh app cont in
    let first = new-Generation nss version write cipher secret fresh made in
    let all : fresh.dx.invocations ≡ m =
      ok-injective (sym (new-invocations nss version secret cipher fresh made) ∙ most) in
    record {
      same_cipher = ciphers ∙ first.same_cipher;
      same_direction = directions ∙ first.same_direction;
      small = omega (arith, epochs, first.counted);
      within = ground (arith, uses, all);
    }

-- From when the application key to write with is set, over any history of packets and of key
-- updates, whether or not they succeed, no application key seals more packets than its cipher suite
-- allows: not the key of any epoch.
pub set_application_write_key-sealed_at :
    (nss : Nss) (version : Version) (secret : Handle) (m e : ℕ) (events : List Traffic.Event)
    (s s' : CryptoStates)
    → limit write s.cipher ≡ ok m
    → set_application_write_key nss version secret s ≡ (ok tt, s')
    → sealed_at nss version e events s' ≤ m
set_application_write_key-sealed_at nss version secret m e events s s' most h =
    let (fresh, app, made, cont, at) = set_application_write_key_inv nss version secret s s' h in
    let fits = start-Fits nss version secret s.cipher m e s.zero_rtt fresh app most made cont in
    Fit-sealed_at nss s.cipher m most e version events m s' (record {
      writes = λ a there. subst (Fits s.cipher m e m) (ground (arith, at)) fits;
      reads = λ _ _. tt;
      reads_next = λ _ _. tt;
    })
