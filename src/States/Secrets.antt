-- ===== src/States/Secrets.antt =====
-- The application keys of a connection stem from the secrets of its handshake: each is made from
-- its secret by as many derivations as its epoch says.
use never_fox.States.Each.{Closed, Each}
use never_fox.Dx.Same.{SameKey}
use never_fox.AppData.Header.{HeaderKey, next-HeaderKey}
use never_fox.AppData.Chain.{Generation, next-Generation}
use never_fox.AppData.{CryptoDxAppData}
use never_fox.States.{CryptoStates}
use never_fox.Dx.{CryptoDxState}
use never_fox.Types.{Version, Cipher, Direction, write, read}
use never_fox.Nss.{Nss, Handle}
use never_fox.AppData
use never_fox.Base.{ok, ℕ, suc, ◌≡◌, sym, ap, subst, ◌∙◌}

module _ (nss : Nss) (version : Version) (cipher : Cipher) where
  -- The keys that some number of updates of the secret give, with the header protection of the
  -- first.
  abbrev pub KeyOf : Direction → Handle → CryptoDxAppData → Type 0
  KeyOf dir secret app =
      (n : ℕ) × Generation nss version dir cipher secret n app
      × HeaderKey nss version cipher secret app.dx.hpkey

  abbrev pub Keyed : Handle → Handle → CryptoStates → Type 0
  Keyed ws rs = Each (KeyOf write ws) (KeyOf read rs)

  pub SameKey-KeyOf :
      (dir : Direction) (secret : Handle) (app : CryptoDxAppData) (dx' : CryptoDxState)
      → SameKey app.dx dx'
      → KeyOf dir secret app
      → KeyOf dir secret (record app { dx = dx' })
  SameKey-KeyOf dir secret app dx' same (n, g, hp) = (
    n,
    record {
      current = g.current;
      derives = g.derives;
      keyed = g.keyed ∙ ap (λ a. ok a) (sym same.same_aead);
      prepared = g.prepared;
      same_cipher = g.same_cipher;
      same_version = same.same_version ∙ g.same_version;
      same_direction = same.same_direction ∙ g.same_direction;
      counted = same.same_epoch ∙ g.counted;
      small = g.small;
    },
    subst (HeaderKey nss version cipher secret) (sym same.same_hpkey) hp,
  )

  pub next-KeyOf :
      (dir : Direction) (secret : Handle) (app app' : CryptoDxAppData)
      → AppData.next nss app ≡ ok app'
      → KeyOf dir secret app
      → KeyOf dir secret app'
  next-KeyOf dir secret app app' e (n, g, hp) = (
    suc n,
    next-Generation nss version dir cipher secret n app app' g e,
    next-HeaderKey nss version cipher secret app app' hp e,
  )

  pub KeyOf-Closed : (ws rs : Handle) → Closed nss (KeyOf write ws) (KeyOf read rs)
  KeyOf-Closed ws rs = record {
    write_next = next-KeyOf write ws;
    read_next = next-KeyOf read rs;
    read_same = SameKey-KeyOf read rs;
  }
