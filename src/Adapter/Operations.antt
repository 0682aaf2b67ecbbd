-- ===== src/Adapter/Operations.antt =====
-- src/dokan_impl/helpers/operations.rs: prechecks, and plans for what the handlers ask for.
use confuse.Common.{
  ℕ, ◌-◌, min, Bool, true, false, not, ◌&&◌, none, some, any, ◌==◌, leb, if◌then◌else◌, Result, ok,
  err,
}
use confuse.Common.Int.{ℤ, pos, negsuc}
use confuse.Common.Text.{Text, text_eq}
use confuse.Facade.Errno
use confuse.Facade.Types.{ReplyAttrPayload, DirectoryEntryPayload}
use confuse.Resolver.State.{Env}
use confuse.Resolver.Path.{dot, dot_dot}
use confuse.Helpers.Codes.{
  NtStatus, file_is_a_directory, not_a_directory, directory_not_empty, invalid_parameter,
  missing_reply_status, errno_to_ntstatus, is_directory,
}
use confuse.Helpers.Ranges.{nonnegative_i64_to_u64}
use confuse.Adapter.Calls.{
  Request, Reply, Filesystem, getattr, access, readdir, rename, release, releasedir, fsync,
  fsyncdir, fallocate,
}
use confuse.Adapter.World.{AdapterContext}
use confuse.Adapter.Monad.{M, ◌>>=◌, ◌>>◌, pure, fail, of_result, reply_result, ask}

-- The first match of the prechecks: the attribute's kind, `wanted` a directory or not.
unfoldable pub check_kind : Bool → NtStatus → Reply ReplyAttrPayload → Result (Unit {0}) NtStatus
check_kind wanted status (some (ok payload)) =
    if is_directory payload.attr.kind
    then if wanted then ok tt else err status
    else if wanted
    then err status
    else ok tt
check_kind wanted status (some (err e)) = err (errno_to_ntstatus e)
check_kind wanted status none = err missing_reply_status

unfoldable pub check_access : Reply (Unit {0}) → Result (Unit {0}) NtStatus
check_access (some (ok u)) = ok tt
check_access (some (err e)) = if e == Errno.enosys then ok tt else err (errno_to_ntstatus e)
check_access none = err missing_reply_status

unfoldable pub is_child : DirectoryEntryPayload → Bool
is_child entry = not (text_eq entry.name dot) && not (text_eq entry.name dot_dot)

unfoldable pub write_start : Bool → ℕ → ℤ → Result ℕ NtStatus
unfolding nonnegative_i64_to_u64
write_start write_to_eof size offset =
    if write_to_eof then ok size else nonnegative_i64_to_u64 offset

-- The end of `dokan_write_plan`, from the start and the size of the file.
unfoldable pub clip_write : Bool → ℕ → ℕ → ℕ → ℕ × ℕ
clip_write paging_io size len start =
    if paging_io
    then if leb size start then (start, 0) else (start, min len (size - start))
    else (start, len)

unfoldable pub size_of_reply : Reply ReplyAttrPayload → Result ℕ NtStatus
size_of_reply (some (ok payload)) = ok payload.attr.size
size_of_reply (some (err e)) = err (errno_to_ntstatus e)
size_of_reply none = err missing_reply_status

abbrev pub is_negative : ℤ → Bool
is_negative (pos n) = false
is_negative (negsuc n) = true

module _ {S : Type 0} (F : Filesystem S) (env : Env) where
  unfoldable pub precheck_file_delete : Request → ℕ → M S (Unit {0})
  precheck_file_delete req ino = do
    attr ← ask F env (getattr req ino none)
    of_result (check_kind false file_is_a_directory attr)
    reply ← ask F env (access req ino 2)
    of_result (check_access reply)

  unfoldable pub precheck_directory_delete : Request → ℕ → M S (Unit {0})
  precheck_directory_delete req ino = do
    attr ← ask F env (getattr req ino none)
    of_result (check_kind true not_a_directory attr)
    reply ← ask F env (readdir req ino 0 0)
    if any is_child reply.entries
        then fail directory_not_empty
        else of_result (reply_result reply.status)

  unfoldable pub rename_with_replace_policy : Request → ℕ → Text → ℕ → Text → M S (Unit {0})
  rename_with_replace_policy req old_parent old_name new_parent new_name = do
    reply ← ask F env (rename req old_parent old_name new_parent new_name 0)
    of_result (reply_result reply)

  unfoldable pub close_with_context : Request → AdapterContext → M S (Unit {0})
  close_with_context req context =
      if context.is_dir
      then ask F env (releasedir req context.ino context.fh context.flags) >>= (λ reply. pure tt)
      else ask F env (release req context.ino context.fh context.flags context.lock_owner false)
        >>= (λ reply. pure tt)

  unfoldable pub flush_with_context : Request → AdapterContext → M S (Reply (Unit {0}))
  flush_with_context req context =
      if context.is_dir
      then ask F env (fsyncdir req context.ino context.fh false)
      else ask F env (fsync req context.ino context.fh false)

  -- `FALLOC_FL_KEEP_SIZE` is 1.
  unfoldable pub allocation_size_with_context :
      Request → AdapterContext → ℤ → M S (Reply (Unit {0}))
  allocation_size_with_context req context alloc_size = do
    length ← of_result (nonnegative_i64_to_u64 alloc_size)
    ask F env (fallocate req context.ino context.fh 0 length 1)

  unfoldable pub dokan_write_plan : Request → AdapterContext → ℤ → ℕ → Bool → Bool → M S (ℕ × ℕ)
  dokan_write_plan req context offset len write_to_eof paging_io =
      if not write_to_eof && is_negative offset
      then fail invalid_parameter
      else if not write_to_eof && not paging_io
      then of_result (nonnegative_i64_to_u64 offset) >>= (λ start. pure (start, len))
      else do
        attr ← ask F env (getattr req context.ino (some context.fh))
        size ← of_result (size_of_reply attr)
        start ← of_result (write_start write_to_eof size offset)
        pure (clip_write paging_io size len start)
