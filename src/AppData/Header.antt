-- ===== src/AppData/Header.antt =====
-- Header protection: its key is made of the first secret, and is cloned with each key update.
use never_fox.Types.{Version, Cipher, Direction}
use never_fox.Base.{codes, ok-injective, ok, ◌≡◌, refl, sym, ap, ◌∙◌, ◌++◌, arith}
use never_fox.Nss.{Nss, Handle, Bytes}
use never_fox.Dx
use never_fox.Dx.{CryptoDxState}
use never_fox.AppData.{CryptoDxAppData, new, next, Version, Cipher, Direction}

-- The keys that clones of a key give.
pub data Cloned (nss : Nss) (k : Handle) : Handle → Type 0 where
  original : Cloned nss k k
  cloned : {a b : Handle} → Cloned nss k a → nss.hp_clone a ≡ ok b → Cloned nss k b

pub record HeaderKey (nss : Nss) (version : Version) (cipher : Cipher) (secret key : Handle)
    : Type 0 where
  pub first : Handle
  pub extracted : nss.hp_extract cipher secret (nss.label_prefix version ++ codes "hp") ≡ ok first
  pub clones : Cloned nss first key

pub new-HeaderKey :
    (nss : Nss) (version : Version) (dir : Direction) (cipher : Cipher) (secret : Handle)
    (app : CryptoDxAppData)
    → new nss version dir secret cipher ≡ ok app
    → HeaderKey nss version cipher secret app.dx.hpkey
unfolding new Dx.new
new-HeaderKey nss version dir cipher secret app e = record {
  first = app.dx.hpkey;
  extracted = ground arith;
  clones = original;
}

next_clones :
    (nss : Nss) (app app' : CryptoDxAppData)
    → next nss app ≡ ok app'
    → nss.hp_clone app.dx.hpkey ≡ ok app'.dx.hpkey
unfolding next Dx.next
next_clones nss app app' e = ground arith

pub next-HeaderKey :
    (nss : Nss) (version : Version) (cipher : Cipher) (secret : Handle) (app app' : CryptoDxAppData)
    → HeaderKey nss version cipher secret app.dx.hpkey
    → next nss app ≡ ok app'
    → HeaderKey nss version cipher secret app'.dx.hpkey
next-HeaderKey nss version cipher secret app app' k e = record {
  first = k.first;
  extracted = k.extracted;
  clones = cloned k.clones (next_clones nss app app' e);
}

-- A clone of a header protection key masks as the key does.
pub record HpLaws (nss : Nss) : Type 0 where
  pub masks :
      (k k' : Handle) (sample : Bytes)
      → nss.hp_clone k ≡ ok k'
      → nss.hp_mask k' sample ≡ nss.hp_mask k sample

Cloned-masks :
    (nss : Nss) (laws : HpLaws nss) (k k' : Handle) (sample : Bytes)
    → Cloned nss k k'
    → nss.hp_mask k' sample ≡ nss.hp_mask k sample
Cloned-masks nss laws k k' sample original = refl
Cloned-masks nss laws k k' sample (cloned c e) =
    laws.masks _ k' sample e ∙ Cloned-masks nss laws k _ sample c

-- Two keys of one secret mask alike, whichever updates they have gone through.
pub HeaderKey-masks :
    (nss : Nss) (version : Version) (cipher : Cipher) (secret a b : Handle) (sample : Bytes)
    → HpLaws nss
    → HeaderKey nss version cipher secret a
    → HeaderKey nss version cipher secret b
    → nss.hp_mask a sample ≡ nss.hp_mask b sample
HeaderKey-masks nss version cipher secret a b sample laws ka kb =
    let same : ka.first ≡ kb.first = ok-injective (sym ka.extracted ∙ kb.extracted) in
    Cloned-masks nss laws ka.first a sample ka.clones
    ∙ ap (λ k. nss.hp_mask k sample) same
    ∙ sym (Cloned-masks nss laws kb.first b sample kb.clones)
