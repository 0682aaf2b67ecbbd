-- ===== src/Session/Lifecycle.antt =====
-- src/fuser_facade/session.rs with the callbacks `mounted` and `unmounted` (src/dokan_impl/adapter): how
-- a session is unmounted and ends. `answers` are those of `dokan::unmount`, call by call.
use confuse.Common.{
  ℕ, suc, Bool, true, false, not, Option, none, some, if◌then◌else◌, Result, ok, err, ◌>>=◌,
}
use confuse.Common.Text.{Text}
use confuse.Facade.Types.{Config}
use confuse.Adapter.Handlers.Streams.{has_nul}
use confuse.Resolver.State.{PathResolver}
use confuse.Helpers.Codes.{NtStatus, errno_to_ntstatus, unsuccessful}
use confuse.Mount.Options.{ErrorKind, invalid_input, other, DokanOptions, to_dokan_mount_options}
use confuse.Session.Configured.{validate_session_config, configured_path_resolver}

-- The parts of a session that its handles share: `mount_state`, `destroyed`, with the calls of
-- `dokan::unmount` and of `Filesystem::destroy` so far.
pub record Shared : Type 0 where
  pub mounted : Bool
  pub destroyed : Bool
  pub unmount_calls : ℕ
  pub destroy_calls : ℕ

pub record Session : Type 0 where
  pub mountpoint : Text
  pub options : Config
  pub resolver : PathResolver
  pub shared : Shared

-- src/dokan_impl/mountpoint.rs: `U16CString::new` refuses a text with a zero.
unfoldable pub mountpoint_to_u16 : Text → Result Text ErrorKind
unfolding has_nul
mountpoint_to_u16 mountpoint = if has_nul mountpoint then err invalid_input else ok mountpoint

-- `Session::new`, by what `new_simulated_fd` gives, which asks the system for a socket.
unfoldable pub new :
    Text → Result (Unit {0}) ErrorKind → DokanOptions → Config → Result Session ErrorKind
unfolding mountpoint_to_u16 validate_session_config to_dokan_mount_options configured_path_resolver
new mountpoint_path fd default options = do
  mountpoint ← mountpoint_to_u16 mountpoint_path
  _ ← validate_session_config options
  _ ← to_dokan_mount_options default options.mount_options
  _ ← fd
  ok (record {
    mountpoint = mountpoint;
    options = options;
    resolver = configured_path_resolver options;
    shared = record { mounted = true; destroyed = false; unmount_calls = 0; destroy_calls = 0 };
  })

unfoldable pub facade_unmounted_with : Shared → Shared
facade_unmounted_with s = record s { destroyed = true; destroy_calls = suc s.destroy_calls }

-- `Drop for Session`
unfoldable pub drop_session : Shared → Shared
drop_session s =
    if s.destroyed then s else record s { destroyed = true; destroy_calls = suc s.destroy_calls }

-- `facade_mounted_with` by what `Filesystem::init` gives: nothing, or an error with its error number.
unfoldable pub facade_mounted_with : Result (Unit {0}) (Option ℕ) → Result (Unit {0}) NtStatus
facade_mounted_with (ok r) = ok tt
facade_mounted_with (err (some e)) = err (errno_to_ntstatus e)
facade_mounted_with (err none) = err unsuccessful

module _ (answers : ℕ → Bool) where
  unfoldable pub unmount_once : Shared → Result (Unit {0}) ErrorKind × Shared
  unmount_once s =
      let s' : Shared = record s { unmount_calls = suc s.unmount_calls } in
      if not s.mounted
      then (ok tt, s)
      else (if not (answers s.unmount_calls)
          then (err other, s')
          else (ok tt, record s' { mounted = false }))

  -- `Drop for BackgroundMountGuard`
  unfoldable pub drop_guard : Shared → Shared
  unfolding unmount_once
  drop_guard s = (unmount_once s).1

  -- `BackgroundSession::join`, by what the thread returned: nothing where it panicked.
  unfoldable pub join :
      Option (Result (Unit {0}) ErrorKind) → Shared → Result (Unit {0}) ErrorKind × Shared
  unfolding drop_guard
  join (some r) s = (r, drop_guard s)
  join none s = (err other, drop_guard s)

  -- An early return drops the session with its guard.
  unfoldable pub joined :
      Option (Result (Unit {0}) ErrorKind)
      → Result (Unit {0}) ErrorKind × Shared
      → Result (Unit {0}) ErrorKind × Shared
  unfolding drop_guard join
  joined thread (ok r, s) = join thread s
  joined thread (err e, s) = (err e, drop_guard s)

  unfoldable pub umount_and_join :
      Option (Result (Unit {0}) ErrorKind) → Shared → Result (Unit {0}) ErrorKind × Shared
  unfolding unmount_once joined
  umount_and_join thread s = joined thread (unmount_once s)
