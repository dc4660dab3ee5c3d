-- ===== src/States/Each.antt =====
-- A property of each application key, kept by the key updates.
use never_fox.Base.{
  leb, ◌==◌, is_some, is_none, ok_or, Method, pure, raise, branch, ok, Keeps, ◌then_keeps◌,
  Keeps-same, Keeps-branch, Keeps-match_option, Keeps-get, Keeps-lift, Keeps-modify, Keeps-put, ℕ,
  ◌≡◌, refl, subst, Bool, true, false, ◌&&◌, Option, none, some, arith,
}
use never_fox.Dx.Same.{SameKey, continuation-SameKey}
use never_fox.States.Update.{
  rotate_read, key_update_received, initiate_key_update, auto_update, maybe_update_write,
  start_timer, check_pn_overlap, check_key_update, on_read_next,
}
use never_fox.AppData.{CryptoDxAppData}
use never_fox.AppData
use never_fox.States.{CryptoStates, has_0rtt_read}
use never_fox.Dx.{continuation, CryptoDxState, should_update, can_update}
use never_fox.Types.{Error, internal, keys_exhausted, key_update_blocked}
use never_fox.Nss.{Nss}
use never_fox.States.Run.{
  initiates, auto_updates, receives_update, checks, checks_overlap, step, Event,
}

-- The key that is written with, and the two that are read with.
pub record Each (Qw Qr : CryptoDxAppData → Type 0) (s : CryptoStates) : Type 0 where
  pub writes : (app : CryptoDxAppData) → s.app_write ≡ some app → Qw app
  pub reads : (app : CryptoDxAppData) → s.app_read ≡ some app → Qr app
  pub reads_next : (app : CryptoDxAppData) → s.app_read_next ≡ some app → Qr app

-- What holds of a key holds of the one after it; of a key to read with, also while it is used.
pub record Closed (nss : Nss) (Qw Qr : CryptoDxAppData → Type 0) : Type 0 where
  pub write_next : (app next : CryptoDxAppData) → AppData.next nss app ≡ ok next → Qw app → Qw next
  pub read_next : (app next : CryptoDxAppData) → AppData.next nss app ≡ ok next → Qr app → Qr next
  pub read_same :
      (app : CryptoDxAppData) (dx' : CryptoDxState)
      → SameKey app.dx dx'
      → Qr app
      → Qr (record app { dx = dx' })

module _ {nss : Nss} {Qw Qr : CryptoDxAppData → Type 0} (closed : Closed nss Qw Qr) where
  write-Each :
      (app : CryptoDxAppData) (s : CryptoStates)
      → Qw app
      → Each Qw Qr s
      → Each Qw Qr (record s { app_write = some app })
  write-Each app s key k = record {
    writes = λ a e. subst (Qw) (ground arith) key;
    reads = k.reads;
    reads_next = k.reads_next;
  }

  next-Each :
      (app : CryptoDxAppData) (s : CryptoStates)
      → Qr app
      → Each Qw Qr s
      → Each Qw Qr (record s { app_read_next = some app })
  next-Each app s key k = record {
    writes = k.writes;
    reads = k.reads;
    reads_next = λ a e. subst (Qr) (ground arith) key;
  }

  Keeps-maybe_update_write : Keeps (Each Qw Qr) (maybe_update_write nss)
  unfolding maybe_update_write
  Keeps-maybe_update_write = Keeps-get λ s k. Keeps-lift (ok_or s.app_write internal) λ w there.
      Keeps-lift (ok_or s.app_read internal) λ r _.
        Keeps-branch (AppData.epoch w == AppData.epoch r)
          (Keeps-lift (AppData.next nss w) λ next made.
            let key = closed.write_next w next made (k.writes w (ground arith)) in
            Keeps-modify (λ t. record t { app_write = some next }) (λ t. write-Each next t key)
            then_keeps λ _. Keeps-same (pure true) (λ t. refl))
          (Keeps-same (pure false) (λ t. refl))

  Keeps-if_moved : (e : Error) (done : Bool) → Keeps (Each Qw Qr) (branch done (pure tt) (raise e))
  Keeps-if_moved e done =
      Keeps-branch done (Keeps-same (pure tt) (λ t. refl)) (Keeps-same (raise e) (λ t. refl))

  Keeps-initiate_key_update : (la : Option ℕ) → Keeps (Each Qw Qr) (initiate_key_update nss la)
  unfolding initiate_key_update
  Keeps-initiate_key_update la = Keeps-get λ s k. Keeps-lift (ok_or s.app_write internal) λ w there.
      Keeps-branch (can_update la w.dx && is_none s.read_update_time)
        (Keeps-maybe_update_write then_keeps Keeps-if_moved key_update_blocked)
        (Keeps-same (raise key_update_blocked) (λ t. refl))

  Keeps-auto_update : Keeps (Each Qw Qr) (auto_update nss)
  unfolding auto_update
  Keeps-auto_update = Keeps-get λ s k.
      Keeps-match_option s.app_write (Keeps-same (pure tt) (λ t. refl)) λ w.
        Keeps-branch (should_update w.dx)
          (Keeps-maybe_update_write then_keeps Keeps-if_moved keys_exhausted)
          (Keeps-same (pure tt) (λ t. refl))

  Keeps-key_update_received :
      (expiration : ℕ) → Keeps (Each Qw Qr) (key_update_received nss expiration)
  unfolding key_update_received
  Keeps-key_update_received expiration = Keeps-maybe_update_write then_keeps λ _.
      Keeps-modify (start_timer expiration)
        (λ t k. record { writes = k.writes; reads = k.reads; reads_next = k.reads_next })

  Keeps-rotate_read : Keeps (Each Qw Qr) (rotate_read nss)
  unfolding rotate_read
  Keeps-rotate_read = Keeps-get λ s k.
      Keeps-put (record s { app_read = s.app_read_next; app_read_next = s.app_read })
        (record { writes = k.writes; reads = k.reads_next; reads_next = k.reads })
      then_keeps λ _. Keeps-lift (ok_or s.app_read_next internal) λ r there.
        Keeps-lift (AppData.next nss r) λ next made.
          let key = closed.read_next r next made (k.reads_next r (ground arith)) in
          Keeps-modify (λ t. record t { app_read_next = some next }) (λ t. next-Each next t key)

  untimed-Each :
      (s : CryptoStates) (early : Option CryptoDxState) (timer : Option ℕ)
      → Each Qw Qr s
      → Each Qw Qr (record s { zero_rtt = early; read_update_time = timer })
  untimed-Each s early timer k = record {
    writes = k.writes;
    reads = k.reads;
    reads_next = k.reads_next;
  }

  Keeps-check_key_update : (now : ℕ) → Keeps (Each Qw Qr) (check_key_update nss now)
  unfolding check_key_update
  Keeps-check_key_update now = Keeps-get λ s k.
      Keeps-match_option s.read_update_time (Keeps-same (pure tt) (λ t. refl)) λ expiry.
        Keeps-branch (leb expiry now)
          (Keeps-branch (has_0rtt_read s)
              (Keeps-modify (λ t. record t { zero_rtt = none })
                (λ t. untimed-Each t none t.read_update_time))
              Keeps-rotate_read
            then_keeps λ _.
                Keeps-modify (λ t. record t { read_update_time = none })
                  (λ t. untimed-Each t t.zero_rtt none))
          (Keeps-same (pure tt) (λ t. refl))

  Keeps-on_read_next :
      (app : CryptoDxAppData) (m : Method CryptoDxState Error (Unit {0}))
      → SameKey app.dx (m app.dx).1
      → Qr app
      → Keeps (Each Qw Qr) (on_read_next app m)
  Keeps-on_read_next app m same key = record {
    kept = λ t. next-Each _ t (closed.read_same app _ same key);
  }

  Keeps-check_pn_overlap : Keeps (Each Qw Qr) check_pn_overlap
  unfolding check_pn_overlap
  Keeps-check_pn_overlap = Keeps-get λ s k.
      Keeps-branch (is_some s.read_update_time)
        (Keeps-lift (ok_or s.app_read_next internal) λ n there.
          Keeps-lift (ok_or s.app_read internal) λ r _.
            Keeps-on_read_next n (continuation r.dx) (continuation-SameKey r.dx n.dx)
              (k.reads_next n (ground arith)))
        (Keeps-same (pure tt) (λ t. refl))

  pub Keeps-step : (e : Event) → Keeps (Each Qw Qr) (step nss e)
  unfolding step
  Keeps-step (initiates la) = Keeps-initiate_key_update la
  Keeps-step auto_updates = Keeps-auto_update
  Keeps-step (receives_update expiration) = Keeps-key_update_received expiration
  Keeps-step (checks now) = Keeps-check_key_update now
  Keeps-step checks_overlap = Keeps-check_pn_overlap
