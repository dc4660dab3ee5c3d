-- ===== src/AppData/Chain.antt =====
-- Key updates: `new` and `next` of `CryptoDxAppData`, one after another.
use never_fox.Base.{
  Res, and_then, ok-injective, and_then-eq-ok, ok, ℕ, zero, suc, ◌+◌, ◌≤◌, ◌≡◌, refl, sym, subst,
  ◌∙◌, ◌≢◌, arith,
}
use mathlib.Core.Path.{subst₃}
use never_fox.Types.{Version, Direction, read, write, Mode, mode_of, Cipher, Error}
use never_fox.Types.Words.{u64_max, wrapping_add}
use never_fox.Nss.{Nss, Handle}
use never_fox.Dx
use never_fox.Dx.{CryptoDxState, next_pn, key_phase}
use never_fox.Dx.Numbers.{IsValid}
use never_fox.AppData.{CryptoDxAppData, update_secret, new, next}

-- What a key update takes over, and what it makes anew.
pub next_lem :
    (nss : Nss) (app app' : CryptoDxAppData)
    → next nss app ≡ ok app'
    → (nss.aead_new app.cipher app.next_secret
          (nss.label_prefix app.dx.version)
          (mode_of app.dx.direction)
        ≡ ok app'.dx.aead)
      × (update_secret nss app.cipher app.next_secret ≡ ok app'.next_secret)
      × (app'.cipher ≡ app.cipher)
      × (app'.dx.version ≡ app.dx.version)
      × (app'.dx.direction ≡ app.dx.direction)
      × (app'.dx.epoch ≡ wrapping_add app.dx.epoch 1)
      × (app.dx.epoch ≢ u64_max)
      × (next_pn app'.dx ≡ next_pn app.dx)
      × IsValid app'.dx
unfolding next Dx.next update_secret
next_lem nss app app' e = ground arith

-- The secret of the keys after `n` updates.
pub derived : Nss → Cipher → Handle → ℕ → Res Error Handle
derived nss cipher secret zero = ok secret
derived nss cipher secret (suc n) =
    and_then (derived nss cipher secret n) (update_secret nss cipher)

unfoldable pub update_times : Nss → CryptoDxAppData → ℕ → Res Error CryptoDxAppData
update_times nss app zero = ok app
update_times nss app (suc n) = and_then (update_times nss app n) (next nss)

-- The keys `n` updates after `secret`: made from the secret that `n` derivations give.
pub record Generation (nss : Nss) (version : Version) (dir : Direction) (cipher : Cipher)
    (secret : Handle) (n : ℕ) (app : CryptoDxAppData) : Type 0 where
  pub current : Handle
  pub derives : derived nss cipher secret n ≡ ok current
  pub keyed : nss.aead_new cipher current (nss.label_prefix version) (mode_of dir) ≡ ok app.dx.aead
  pub prepared : update_secret nss cipher current ≡ ok app.next_secret
  pub same_cipher : app.cipher ≡ cipher
  pub same_version : app.dx.version ≡ version
  pub same_direction : app.dx.direction ≡ dir
  pub counted : app.dx.epoch ≡ 3 + n
  pub small : 3 + n ≤ u64_max

pub new-Generation :
    (nss : Nss) (version : Version) (dir : Direction) (cipher : Cipher) (secret : Handle)
    (app : CryptoDxAppData)
    → new nss version dir secret cipher ≡ ok app
    → Generation nss version dir cipher secret 0 app
unfolding new Dx.new derived update_secret
new-Generation nss version dir cipher secret app e = record {
  current = secret;
  derives = refl;
  keyed = ground arith;
  prepared = ground arith;
  same_cipher = ground arith;
  same_version = ground arith;
  same_direction = ground arith;
  counted = ground arith;
  small = omega arith;
}

pub next-Generation :
    (nss : Nss) (version : Version) (dir : Direction) (cipher : Cipher) (secret : Handle) (n : ℕ)
    (app app' : CryptoDxAppData)
    → Generation nss version dir cipher secret n app
    → next nss app ≡ ok app'
    → Generation nss version dir cipher secret (suc n) app'
unfolding derived
next-Generation nss version dir cipher secret n app app' g e =
    let step = next_lem nss app app' e in
    record {
      current = app.next_secret;
      derives = rw g.derives g.prepared;
      keyed =
          subst₃
            (λ c v d.
              nss.aead_new c app.next_secret (nss.label_prefix v) (mode_of d) ≡ ok app'.dx.aead)
            g.same_cipher g.same_version g.same_direction step.0;
      prepared =
          subst (λ c. update_secret nss c app.next_secret ≡ ok app'.next_secret) g.same_cipher
            step.1;
      same_cipher = step.2 ∙ g.same_cipher;
      same_version = step.3 ∙ g.same_version;
      same_direction = step.4 ∙ g.same_direction;
      counted = ground (arith, step.5, step.6, g.counted, g.small);
      small = ground (arith, step.6, g.counted, g.small);
    }

update_times-Generation :
    (nss : Nss) (version : Version) (dir : Direction) (cipher : Cipher) (secret : Handle) (n : ℕ)
    (app app' : CryptoDxAppData)
    → new nss version dir secret cipher ≡ ok app
    → update_times nss app n ≡ ok app'
    → Generation nss version dir cipher secret n app'
unfolding update_times
update_times-Generation nss version dir cipher secret zero app app' e u =
    subst (Generation nss version dir cipher secret 0) (ok-injective u)
      (new-Generation nss version dir cipher secret app e)
update_times-Generation nss version dir cipher secret (suc n) app app' e u =
    let (mid, before, step) = and_then-eq-ok (next nss) (update_times nss app n) u in
    next-Generation nss version dir cipher secret n mid app'
      (update_times-Generation nss version dir cipher secret n app mid e before) step

pub key_phase_epoch : (a b : CryptoDxState) → a.epoch ≡ b.epoch → key_phase a ≡ key_phase b
unfolding key_phase
key_phase_epoch a b e = rw e

-- Two endpoints that hold the same secret, one to write and one to read, agree after any number of
-- key updates that succeed: both ciphers are set up with one secret, the one that as many
-- derivations give, and both have the same epoch and phase.
pub peers_agree :
    (nss : Nss) (version : Version) (cipher : Cipher) (secret : Handle) (n : ℕ)
    (sender sender' receiver receiver' : CryptoDxAppData)
    → new nss version write secret cipher ≡ ok sender
    → new nss version read secret cipher ≡ ok receiver
    → update_times nss sender n ≡ ok sender'
    → update_times nss receiver n ≡ ok receiver'
    → (current : Handle) × (derived nss cipher secret n ≡ ok current)
      × (nss.aead_new cipher current (nss.label_prefix version) Mode.encrypt ≡ ok sender'.dx.aead)
      × (nss.aead_new cipher current (nss.label_prefix version) Mode.decrypt ≡ ok receiver'.dx.aead)
      × (sender'.dx.epoch ≡ 3 + n)
      × (receiver'.dx.epoch ≡ 3 + n)
      × (key_phase sender'.dx ≡ key_phase receiver'.dx)
unfolding mode_of
peers_agree nss version cipher secret n s s' r r' es er us ur =
    let gs = update_times-Generation nss version write cipher secret n s s' es us in
    let gr = update_times-Generation nss version read cipher secret n r r' er ur in
    let same : gr.current ≡ gs.current = ok-injective (sym gr.derives ∙ gs.derives) in
    (
      gs.current,
      gs.derives,
      gs.keyed,
      subst (λ k. nss.aead_new cipher k (nss.label_prefix version) Mode.decrypt ≡ ok r'.dx.aead)
          same gr.keyed,
      gs.counted,
      gr.counted,
      key_phase_epoch s'.dx r'.dx (gs.counted ∙ sym gr.counted),
    )
