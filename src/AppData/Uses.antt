-- ===== src/AppData/Uses.antt =====
-- The uses that an application key to write with starts with.
use never_fox.Base.{ok, ◌≡◌, arith}
use never_fox.AppData
use never_fox.AppData.{CryptoDxAppData}
use never_fox.Dx
use never_fox.Dx.{limit, next_invocations}
use never_fox.Nss.{Nss, Handle}
use never_fox.Types.{Version, Cipher, write}

pub new-invocations :
    (nss : Nss) (version : Version) (secret : Handle) (cipher : Cipher) (fresh : CryptoDxAppData)
    → AppData.new nss version write secret cipher ≡ ok fresh
    → limit write cipher ≡ ok fresh.dx.invocations
unfolding AppData.new Dx.new
new-invocations nss version secret cipher fresh made = ground arith

pub next_invocations-write :
    (nss : Nss) (w w' : CryptoDxAppData)
    → AppData.next nss w ≡ ok w'
    → w.dx.direction ≡ write
    → limit write w.cipher ≡ ok w'.dx.invocations
unfolding AppData.next Dx.next next_invocations
next_invocations-write nss w w' e d = ground arith
