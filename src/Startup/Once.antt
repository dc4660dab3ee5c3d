-- ===== src/Startup/Once.antt =====
-- What starting NSS does when it runs already, and when it is started twice.
use never_fox.Types.{NssError}
use never_fox.Nss.{Bytes}
use never_fox.Startup.{
  Starter, init, Bytes, init_db, Process, assert_initialized, NssError, init_once, open_db,
  open_no_db, version_check, drop_loaded, NssLoaded, OnceCell, IsOnceCell,
}
use never_fox.Base.{
  Bool-cases, Res, ok, err, panic, ◌≡◌, refl, ◌⊎◌, inl, inr, true, false, not, Option, none, some,
  arith,
}

module _ {W : Type 0} (nss : Starter W) where
  -- When NSS is running already, `init_once` calls nothing of it that changes it, and dropping what
  -- was loaded leaves it running; else dropping it shuts NSS down.
  pub init_once-drop_loaded :
      (dir : Option Bytes) (w w' : W) (l : NssLoaded)
      → init_once nss dir w ≡ (ok l, w')
      → ((nss.is_initialized (nss.time_init w) ≡ true)
          × (w' ≡ nss.time_init w)
          × (drop_loaded nss l w' ≡ (ok tt, w')))
        ⊎ ((nss.is_initialized (nss.time_init w) ≡ false)
            × ((drop_loaded nss l w').1 ≡ (nss.shutdown w').1))
  unfolding init_once open_db open_no_db version_check drop_loaded
  init_once-drop_loaded dir w w' l e = elim (Bool-cases (nss.is_initialized (nss.time_init w))) [
    | inl running ↦ inl (running, ground (arith, running), ground (arith, running))
    | inr not ↦ inr (not, ground (arith, not))
  ]

  no_db_inv :
      (w w' : W) (l : NssLoaded)
      → init_once nss none w ≡ (ok l, w')
      → ((nss.is_initialized (nss.time_init w) ≡ true) × (w' ≡ nss.time_init w))
        ⊎ ((nss.is_initialized (nss.time_init w) ≡ false)
            × ((nss.no_db_init (nss.time_init w)).0 ≡ ok tt)
            × (w' ≡ (nss.set_domestic_policy (nss.no_db_init (nss.time_init w)).1).1))
  unfolding init_once open_db open_no_db version_check
  no_db_inv w w' l e = elim (Bool-cases (nss.is_initialized (nss.time_init w))) [
    | inl running ↦ inl (running, ground (arith, running))
    | inr fresh ↦ inr (fresh, ground (arith, fresh), ground (arith, fresh))
  ]

module _ {Cell W : Type 0} (nss : Starter W) (once : OnceCell Cell W) where
  init_inv :
      (p p' : Process Cell W)
      → IsOnceCell once
      → once.get p.initialized ≡ none
      → init nss once p ≡ (ok tt, p')
      → (l : NssLoaded) × (init_once nss none p.world ≡ (ok l, p'.world))
        × (once.get p'.initialized ≡ some (ok l))
  unfolding init
  init_inv p p' laws empty e = go (init_once nss none p.world) refl
    where
      go :
          (x : Res NssError NssLoaded × W)
          → init_once nss none p.world ≡ x
          → (l : NssLoaded) × (init_once nss none p.world ≡ (ok l, p'.world))
            × (once.get p'.initialized ≡ some (ok l))
      go (ok l, w) at =
          let (c, full, run) =
            laws.get_or_init_empty (init_once nss none) p (ok l) w empty at (λ h. cc) in
          let same : p' ≡ record { world = w; initialized = c } = ground (arith, run, e) in
          (l, ground (arith, at, same), ground (arith, full, same))
      go (err x, w) at =
          let (c, full, run) =
            laws.get_or_init_empty (init_once nss none) p (err x) w empty at (λ h. cc) in
          ground (arith, run, e)
      go (panic, w) at = ground (arith, laws.get_or_init_panic (init_once nss none) p w empty at, e)

  -- After an `init` that succeeds as the first start of the process, `init_db` answers success for
  -- every path, whether or not it is a directory, and does nothing: no database is opened. NSS is
  -- as `init` left it: with no more than the clock set if it was running before, else as it is
  -- once started without a database and with its policy set. `assert_initialized` passes.
  pub init-init_db :
      (dir : Bytes) (p p' : Process Cell W)
      → IsOnceCell once
      → once.get p.initialized ≡ none
      → init nss once p ≡ (ok tt, p')
      → let w = nss.time_init p.world in
        (init_db nss once dir p' ≡ (ok tt, p'))
        × (assert_initialized once p' ≡ ok tt)
        × (((nss.is_initialized w ≡ true) × (p'.world ≡ w))
            ⊎ ((nss.is_initialized w ≡ false)
                × ((nss.no_db_init w).0 ≡ ok tt)
                × (p'.world ≡ (nss.set_domestic_policy (nss.no_db_init w).1).1)))
  unfolding init_db assert_initialized
  init-init_db dir p p' laws empty e =
      let (l, run, full) = init_inv p p' laws empty e in
      let again = laws.get_or_init_full (init_once nss (some dir)) p' (ok l) full in
      (ground (arith, again), ground (arith, full), no_db_inv nss p.world p'.world l run)
