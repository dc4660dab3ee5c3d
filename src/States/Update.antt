-- ===== src/States/Update.antt =====
-- Key updates: the methods of `CryptoStates` that move the application keys to their next phase.
use never_fox.Base.{
  leb, ◌==◌, if◌then◌else◌, is_some, is_none, ok_or, Method, ◌>>=◌, ◌>>◌, pure, raise, lift, get,
  put, modify, branch, match_option, ℕ, Bool, true, false, ◌&&◌, Option, none, some,
}
use never_fox.Types.{Error, internal, key_update_blocked, keys_exhausted}
use never_fox.Nss.{Nss}
use never_fox.Dx.{CryptoDxState, can_update, should_update, continuation}
use never_fox.AppData
use never_fox.AppData.{CryptoDxAppData}
use never_fox.States.{CryptoStates, has_0rtt_read}

abbrev pub States : Type 0 → Type 0
States A = Method CryptoStates Error A

-- `maybe_update_write`: whether the write keys moved on, which they do only from the phase of the
-- read keys.
unfoldable pub maybe_update_write : Nss → States Bool
maybe_update_write nss = do
  s ← get
  write ← lift (ok_or s.app_write internal)
  read ← lift (ok_or s.app_read internal)
  branch (AppData.epoch write == AppData.epoch read)
      (do
        next ← lift (AppData.next nss write)
        modify (λ t. record t { app_write = some next })
        pure true)
      (pure false)

-- `initiate_key_update`
unfoldable pub initiate_key_update : Nss → Option ℕ → States (Unit {0})
initiate_key_update nss largest_acknowledged = do
  s ← get
  write ← lift (ok_or s.app_write internal)
  branch (can_update largest_acknowledged write.dx && is_none s.read_update_time)
      (do done ← maybe_update_write nss; branch done (pure tt) (raise key_update_blocked))
      (raise key_update_blocked)

-- `auto_update`
unfoldable pub auto_update : Nss → States (Unit {0})
auto_update nss = do
  s ← get
  match_option s.app_write (pure tt) λ app_write.
      branch (should_update app_write.dx)
        (do done ← maybe_update_write nss; branch done (pure tt) (raise keys_exhausted)) (pure tt)

abbrev pub start_timer : ℕ → CryptoStates → CryptoStates
start_timer expiration s = record s {
  zero_rtt = if has_0rtt_read s then none else s.zero_rtt;
  read_update_time = some expiration;
}

-- `key_update_received`
unfoldable pub key_update_received : Nss → ℕ → States (Unit {0})
unfolding has_0rtt_read
key_update_received nss expiration = do _ ← maybe_update_write nss; modify (start_timer expiration)

-- The read keys of the next phase become the current ones.
unfoldable pub rotate_read : Nss → States (Unit {0})
rotate_read nss = do
  s ← get
  put (record s { app_read = s.app_read_next; app_read_next = s.app_read })
  read ← lift (ok_or s.app_read_next internal)
  next ← lift (AppData.next nss read)
  modify (λ t. record t { app_read_next = some next })

-- `update_time`
abbrev pub update_time : CryptoStates → Option ℕ
update_time s = s.read_update_time

-- `check_key_update`
unfoldable pub check_key_update : Nss → ℕ → States (Unit {0})
check_key_update nss now = do
  s ← get
  match_option s.read_update_time (pure tt) λ expiry.
      branch (leb expiry now)
        (do
          branch (has_0rtt_read s) (modify (λ t. record t { zero_rtt = none })) (rotate_read nss)
          modify (λ t. record t { read_update_time = none }))
        (pure tt)

-- A method of the key state of `app`, stored back whatever its outcome.
abbrev pub on_read_next :
    CryptoDxAppData → Method CryptoDxState Error (Unit {0}) → States (Unit {0})
on_read_next app m s =
    let (r, dx) = m app.dx in (r, record s { app_read_next = some (record app { dx = dx }) })

-- `check_pn_overlap`
unfoldable pub check_pn_overlap : States (Unit {0})
check_pn_overlap = do
  s ← get
  branch (is_some s.read_update_time)
      (do
        next ← lift (ok_or s.app_read_next internal)
        read ← lift (ok_or s.app_read internal)
        on_read_next next (continuation read.dx))
      (pure tt)
