-- ===== src/Startup.antt =====
-- How nss-rs/src/lib.rs starts NSS. What it calls of NSS, of the file system and of the crate
-- once_cell are parameters. The build is without the feature `blapi`.
pub mod Once
use never_fox.Types.{NssError}
use never_fox.Nss.{Bytes}
use never_fox.Base.{
  if◌then◌else◌, has_zero, Res, ok_or, Method, ◌>>=◌, ◌>>◌, pure, raise, lift, modify, branch,
  match_option, ok, err, panic, ◌≡◌, Bool, Option, none, some, get,
}

-- `NssLoaded`
pub data NssLoaded : Type 0 where
  external no_db : NssLoaded
  db : Bytes → NssLoaded

-- What `init_once` calls. A `W` is the rest of the process.
pub record Starter (W : Type 0) : Type 0 where
  -- `MINIMUM_NSS_VERSION`, which the build generates
  pub minimum_version : Bytes
  -- `time::init`, `NSS_VersionCheck`, `NSS_IsInitialized`
  pub time_init : W → W
  pub check_version : Bytes → W → Bool
  pub is_initialized : W → Bool
  -- `Path::is_dir`, `Path::to_str`
  pub is_dir : Bytes → W → Bool
  pub to_str : Bytes → Option Bytes
  -- `NSS_Initialize` with `SECMOD_DB` and `NSS_INIT_READONLY`, `SSL_ConfigServerSessionIDCache` with
  -- 1024 entries, `NSS_NoDB_Init`, `NSS_SetDomesticPolicy`, `NSS_Shutdown`
  pub initialize : Bytes → W → Res NssError (Unit {0}) × W
  pub config_cache : Bytes → W → Res NssError (Unit {0}) × W
  pub no_db_init : W → Res NssError (Unit {0}) × W
  pub set_domestic_policy : W → Res NssError (Unit {0}) × W
  pub shutdown : W → Res NssError (Unit {0}) × W
  -- the error of a text with a zero in it
  pub interior_nul : NssError

-- The process, with `INITIALIZED`, which is a `Cell`.
pub record Process (Cell W : Type 0) : Type 0 where
  pub world : W
  pub initialized : Cell

-- `OnceCell` of once_cell, for the results of starting NSS.
pub record OnceCell (Cell W : Type 0) : Type 0 where
  -- `get`
  pub get : Cell → Option (Res NssError NssLoaded)
  -- `get_or_init`, with the function that it may call
  pub get_or_init : Method W NssError NssLoaded → Method (Process Cell W) NssError NssLoaded

-- What the documentation of once_cell says.
pub record IsOnceCell {Cell W : Type 0} (once : OnceCell Cell W) : Type 0 where
  -- A cell that holds a value gives it, and calls nothing.
  pub get_or_init_full :
      (f : Method W NssError NssLoaded) (p : Process Cell W) (r : Res NssError NssLoaded)
      → once.get p.initialized ≡ some r
      → once.get_or_init f p ≡ (r, p)
  -- An empty one calls the function, and holds its value from then on.
  pub get_or_init_empty :
      (f : Method W NssError NssLoaded) (p : Process Cell W) (r : Res NssError NssLoaded) (w : W)
      → once.get p.initialized ≡ none
      → f p.world ≡ (r, w)
      → (r ≡ panic → ⊥)
      → (c : Cell) × (once.get c ≡ some r)
        × (once.get_or_init f p ≡ (r, record { world = w; initialized = c }))
  -- If the function panics, so does the call, and the cell stays empty.
  pub get_or_init_panic :
      (f : Method W NssError NssLoaded) (p : Process Cell W) (w : W)
      → once.get p.initialized ≡ none
      → f p.world ≡ (panic, w)
      → once.get_or_init f p ≡ (panic, record p { world = w })

module _ {W : Type 0} (nss : Starter W) where
  -- `CString::new`
  abbrev c_string : Bytes → Res NssError Bytes
  c_string text = if has_zero text then err nss.interior_nul else ok text

  -- `version_check`
  unfoldable pub version_check : Method W NssError (Unit {0})
  version_check = do
    minimum ← lift (c_string nss.minimum_version)
    w ← get
    branch (nss.check_version minimum w) (pure tt) (raise NssError.unsupported_version)

  -- `init_once`, for a database and without one.
  unfoldable pub open_db : Bytes → Method W NssError NssLoaded
  open_db path = do
    w ← get
    branch (nss.is_dir path w) (pure tt) (raise NssError.internal)
    text ← lift (ok_or (nss.to_str path) NssError.internal)
    directory ← lift (c_string text)
    nss.initialize directory
    nss.config_cache directory
    pure (db path)

  unfoldable pub open_no_db : Method W NssError NssLoaded
  open_no_db = do nss.no_db_init; pure no_db

  -- `init_once`
  unfoldable pub init_once : Option Bytes → Method W NssError NssLoaded
  init_once dir = do
    modify nss.time_init
    version_check
    w ← get
    branch (nss.is_initialized w) (pure external)
        (do state ← match_option dir open_no_db open_db; nss.set_domestic_policy; pure state)

  -- `drop` of `NssLoaded`
  unfoldable pub drop_loaded : NssLoaded → Method W NssError (Unit {0})
  drop_loaded external w = (ok tt, w)
  drop_loaded _ w = let (r, v) = nss.shutdown w in (elim r [ ok _ ↦ ok tt | _ ↦ panic ], v)

module _ {Cell W : Type 0} (nss : Starter W) (once : OnceCell Cell W) where
  -- `init`, `init_db`
  unfoldable pub init : Method (Process Cell W) NssError (Unit {0})
  init = do loaded ← once.get_or_init (init_once nss none); pure tt

  unfoldable pub init_db : Bytes → Method (Process Cell W) NssError (Unit {0})
  init_db dir = do loaded ← once.get_or_init (init_once nss (some dir)); pure tt

-- `assert_initialized`
unfoldable pub assert_initialized :
    {Cell W : Type 0} → OnceCell Cell W → Process Cell W → Res NssError (Unit {0})
assert_initialized once p = elim (once.get p.initialized) [ none ↦ panic | some _ ↦ ok tt ]
