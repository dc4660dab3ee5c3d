-- ===== src/Tests/Startup.antt =====
-- The theorems on the start of NSS, applied.
use never_fox.Startup.Once.{init_once-drop_loaded, init-init_db}
use never_fox.Types.{other_nss, NssError}
use never_fox.Startup.{
  Starter, Process, drop_loaded, init_db, init_once, init, version_check, db, open_db,
  assert_initialized, IsOnceCell, open_no_db, OnceCell, NssLoaded, no_db,
}
use never_fox.Base.{
  ◌==◌, codes, length, Res, Method, ok, err, panic, ◌≡◌, refl, ap, ◌∙◌, ◌⊎◌, Bool, true, false,
  Option, none, some, [], ◌∷◌,
}

-- NSS is running or not; a database is a text of one byte.
abbrev demo_starter : Starter Bool
demo_starter = record {
  minimum_version = codes "3.99";
  time_init = λ running. running;
  check_version = λ version running. true;
  is_initialized = λ running. running;
  is_dir = λ path running. length path == 1;
  to_str = λ path. some path;
  initialize = λ path running. (ok tt, true);
  config_cache = λ path running. (ok tt, running);
  no_db_init = λ running. (ok tt, true);
  set_domestic_policy = λ running. (ok tt, running);
  shutdown = λ running. (ok tt, false);
  interior_nul = other_nss 7;
}

-- A cell that holds a value or none.
abbrev DemoCell : Type 0
DemoCell = Option (Res NssError NssLoaded)

abbrev keep :
    Process DemoCell Bool
    → Res NssError NssLoaded × Bool
    → Res NssError NssLoaded × Process DemoCell Bool
keep p (panic, w) = (panic, record p { world = w })
keep p (ok l, w) = (ok l, record { world = w; initialized = some (ok l) })
keep p (err e, w) = (err e, record { world = w; initialized = some (err e) })

abbrev fill :
    DemoCell
    → Method Bool NssError NssLoaded
    → Process DemoCell Bool
    → Res NssError NssLoaded × Process DemoCell Bool
fill none f p = keep p (f p.world)
fill (some r) f p = (r, p)

abbrev demo_once : OnceCell DemoCell Bool
demo_once = record { get = λ c. c; get_or_init = λ f p. fill p.initialized f p }

keep_lem :
    (p : Process DemoCell Bool) (r : Res NssError NssLoaded) (w : Bool)
    → (r ≡ panic → ⊥)
    → keep p (r, w) ≡ (r, record { world = w; initialized = some r })
keep_lem p (ok l) w h = refl
keep_lem p (err e) w h = refl
keep_lem p panic w h = absurd (h refl)

demo_once-IsOnceCell : IsOnceCell demo_once
demo_once-IsOnceCell = record {
  get_or_init_full = λ f p r full. ap (λ c. fill c f p) full;
  get_or_init_empty = λ f p r w empty at returned.
      (some r, refl, ap (λ c. fill c f p) empty ∙ ap (keep p) at ∙ keep_lem p r w returned);
  get_or_init_panic = λ f p w empty at. ap (λ c. fill c f p) empty ∙ ap (keep p) at;
}

abbrev stopped : Process DemoCell Bool
stopped = record { world = false; initialized = none }

abbrev started : Process DemoCell Bool
started = record { world = true; initialized = some (ok no_db) }

starting : init demo_starter demo_once stopped ≡ (ok tt, started)
unfolding init init_once version_check open_no_db
starting = refl

init-init_db_example :
    (init_db demo_starter demo_once [] started ≡ (ok tt, started))
    × (assert_initialized demo_once started ≡ ok tt)
    × (((false ≡ true) × (true ≡ false))
        ⊎ ((◌≡◌ {A = Bool} false false)
            × (◌≡◌ {A = Res NssError (Unit {0})} (ok tt) (ok tt))
            × (◌≡◌ {A = Bool} true true)))
init-init_db_example =
    init-init_db demo_starter demo_once [] stopped started demo_once-IsOnceCell refl starting

opening : init_once demo_starter (some (5 ∷ [])) false ≡ (ok (db (5 ∷ [])), true)
unfolding init_once version_check open_db
opening = refl

init_once-drop_loaded_example :
    ((false ≡ true)
      × (true ≡ false)
      × (drop_loaded demo_starter (db (5 ∷ [])) true ≡ (ok tt, true)))
    ⊎ ((◌≡◌ {A = Bool} false false) × ((drop_loaded demo_starter (db (5 ∷ [])) true).1 ≡ false))
init_once-drop_loaded_example =
    init_once-drop_loaded demo_starter (some (5 ∷ [])) false true (db (5 ∷ [])) opening
