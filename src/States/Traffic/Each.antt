-- ===== src/States/Traffic/Each.antt =====
-- A property of each application key, kept by packets and key updates.
use never_fox.Base.{
  pure, Keeps, ◌then_keeps◌, Keeps-same, ◌≡◌, refl, sym, subst, inl, inr, some, List, [], ◌∷◌,
  arith,
}
use never_fox.States.Each.{Each, Closed, Keeps-step}
use never_fox.States.Traffic
use never_fox.States.Traffic.{
  put_key, step, run, updates, seals, opens, seals-cases, opens-cases, updates_eq,
}
use never_fox.Dx.{CryptoDxState, encrypt}
use never_fox.Dx.Limits.{Packet}
use never_fox.Dx.Same.{SameKey, decrypt-SameKey}
use never_fox.AppData.{CryptoDxAppData}
use never_fox.States.{CryptoStates, writes, reads, reads_next}
use never_fox.Nss.{Nss}
use never_fox.Types.{Version}

module _ {nss : Nss} (version : Version) {Qw Qr : CryptoDxAppData → Type 0}
    (closed : Closed nss Qw Qr)
    (sealed : (p : Packet) (w : CryptoDxAppData)
      → Qw w
      → Qw (record w { dx = (encrypt nss p.pn p.hdr p.buf w.dx).1 })) where
  write-Made :
      (s : CryptoStates) (app : CryptoDxAppData) (dx' : CryptoDxState)
      → Qw (record app { dx = dx' })
      → Each Qw Qr s
      → s.app_write ≡ some app
      → Each Qw Qr (put_key writes dx' s)
  write-Made s app dx' q k there = record {
    writes = λ a e. subst Qw (ground arith) q;
    reads = k.reads;
    reads_next = k.reads_next;
  }

  module _ (s : CryptoStates) (app : CryptoDxAppData) (dx' : CryptoDxState)
      (same : SameKey app.dx dx') (k : Each Qw Qr s) where
    read-Made : s.app_read ≡ some app → Each Qw Qr (put_key reads dx' s)
    read-Made there = record {
      writes = k.writes;
      reads = λ a e. subst (Qr) (ground arith) (closed.read_same app dx' same (k.reads app there));
      reads_next = k.reads_next;
    }

    next-Made : s.app_read_next ≡ some app → Each Qw Qr (put_key reads_next dx' s)
    next-Made there = record {
      writes = k.writes;
      reads = k.reads;
      reads_next =
          λ a e. subst (Qr) (ground arith) (closed.read_same app dx' same (k.reads_next app there));
    }

  pub Keeps-traffic-step : (e : Traffic.Event) → Keeps (Each Qw Qr) (step nss version e)
  Keeps-traffic-step (updates e) =
      subst (Keeps (Each Qw Qr)) (sym (updates_eq nss version e)) (Keeps-step closed e)
  Keeps-traffic-step (seals p) = record {
    kept = λ s k. elim (seals-cases nss version p s) [
      | inl same ↦ subst (λ x. Each Qw Qr x.1) (sym same) k
      | inr (w, there, at) ↦
          subst (λ x. Each Qw Qr x.1) (sym at)
            (write-Made s w _ (sealed p w (k.writes w there)) k there)
    ];
  }
  Keeps-traffic-step (opens phase p) = record {
    kept = λ s k. elim (opens-cases nss version phase p s) [
      | inl same ↦ subst (λ x. Each Qw Qr x.1) (sym same) k
      | inr (inl (r, there, at)) ↦
          subst (λ x. Each Qw Qr x.1) (sym at)
            (read-Made s r _ (decrypt-SameKey nss p.pn p.hdr p.buf r.dx) k there)
      | inr (inr (n, there, at)) ↦
          subst (λ x. Each Qw Qr x.1) (sym at)
            (next-Made s n _ (decrypt-SameKey nss p.pn p.hdr p.buf n.dx) k there)
    ];
  }

  pub Keeps-traffic-run : (es : List Traffic.Event) → Keeps (Each Qw Qr) (run nss version es)
  unfolding run
  Keeps-traffic-run [] = Keeps-same (pure tt) (λ t. refl)
  Keeps-traffic-run (e ∷ es) = Keeps-traffic-step e then_keeps λ _. Keeps-traffic-run es
