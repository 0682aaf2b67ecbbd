-- ===== src/Adapter/Handlers/Locks.antt =====
-- src/dokan_impl/adapter/handler_methods/security_locks_streams.rs: locks, and the free space of
-- handler_methods/metadata_io.rs.
use confuse.Common.{
  ℕ, ◌*◌, min, Bool, false, not, none, some, u64_max, ◌==◌, if◌then◌else◌, Result, ok, err,
}
use confuse.Common.Int.{ℤ, pos, negsuc}
use confuse.Common.Text.{Text}
use confuse.Facade.Errno
use confuse.Facade.Types.{root}
use confuse.Resolver.State.{Env}
use confuse.Helpers.Codes.{NtStatus, errno_to_ntstatus, ntstatus, classify_optional_probe_error}
use confuse.Helpers.Ranges.{checked_lock_range}
use confuse.Adapter.Calls.{
  RequestIds, Reply, Filesystem, LockPayload, StatfsPayload, getlk, setlk, statfs,
}
use confuse.Adapter.World.{AdapterContext}
use confuse.Adapter.Monad.{
  M, ◌>>=◌, ◌>>◌, of_result, reply_result, new_request, ask, drain, resolved,
}
use confuse.Adapter.Handlers.Metadata.{probe_result}

-- `LOCK_TYPE_WRLCK` and `LOCK_TYPE_UNLCK`.
abbrev pub lock_type_wrlck : ℕ
lock_type_wrlck = 1

abbrev pub lock_type_unlck : ℕ
lock_type_unlck = 2

unfoldable pub is_unlck : ℤ → Bool
is_unlck (pos n) = n == lock_type_unlck
is_unlck (negsuc n) = false

-- `lock_owner_from_context(resolved).unwrap_or(lock_owner(0))`
unfoldable pub owner_of : AdapterContext → ℕ
owner_of context = elim context.lock_owner [ some owner ↦ owner | none ↦ 0 ]

-- The match on the reply to `getlk`.
unfoldable pub lock_free : Reply LockPayload → Result (Unit {0}) NtStatus
unfolding is_unlck
lock_free (some (err e)) = err (ntstatus (classify_optional_probe_error e))
lock_free (some (ok lock)) =
    if not (is_unlck lock.typ) then err (errno_to_ntstatus Errno.eagain) else ok tt
lock_free none = ok tt

-- `u64::saturating_mul`
unfoldable pub saturating_mul : ℕ → ℕ → ℕ
saturating_mul a b = min (a * b) u64_max

-- `dokan::DiskSpaceInfo`
pub record DiskSpaceInfo : Type 0 where
  pub byte_count : ℕ
  pub free_byte_count : ℕ
  pub available_byte_count : ℕ

unfoldable pub disk_space : StatfsPayload → DiskSpaceInfo
unfolding saturating_mul
disk_space s = record {
  byte_count = saturating_mul s.blocks s.bsize;
  free_byte_count = saturating_mul s.bfree s.bsize;
  available_byte_count = saturating_mul s.bavail s.bsize;
}

unfoldable pub map_ok : {A B : Type 0} → (A → B) → Result A NtStatus → Result B NtStatus
map_ok f (ok a) = ok (f a)
map_ok f (err e) = err e

module _ {S : Type 0} (F : Filesystem S) (env : Env) where
  unfoldable pub lock_file : Text → ℤ → ℤ → AdapterContext → M S (Unit {0})
  unfolding owner_of lock_free
  lock_file file_name offset length context = do
    req ← new_request context.request_ids
    target ← resolved F env req file_name context
    range ← of_result (checked_lock_range offset length)
    query ←
        ask F env
          (getlk req target.ino target.fh (owner_of target) range.0 range.1 lock_type_wrlck req.pid)
    of_result (lock_free query)
    status ← ask F env (
        setlk req target.ino target.fh (owner_of target) range.0 range.1 lock_type_wrlck req.pid
          false)
    drain F env req
    of_result (probe_result status)

  unfoldable pub unlock_file : Text → ℤ → ℤ → AdapterContext → M S (Unit {0})
  unfolding owner_of
  unlock_file file_name offset length context = do
    req ← new_request context.request_ids
    target ← resolved F env req file_name context
    range ← of_result (checked_lock_range offset length)
    status ← ask F env (
        setlk req target.ino target.fh (owner_of target) range.0 range.1 lock_type_unlck req.pid
          false)
    drain F env req
    of_result (probe_result status)

  unfoldable pub get_disk_free_space : RequestIds → M S DiskSpaceInfo
  unfolding disk_space map_ok
  get_disk_free_space ids = do
    req ← new_request ids
    reply ← ask F env (statfs req root)
    of_result (map_ok disk_space (reply_result reply))
