-- ===== src/Adapter/Handlers/Security.antt =====
-- src/dokan_impl/adapter/handler_methods/security_locks_streams.rs: security descriptors.
use confuse.Common.{
  ℕ, max, Bool, Option, none, some, List, length, ltb, ◌==◌, if◌then◌else◌, Result, ok, err,
}
use confuse.Common.Text.{Text}
use confuse.Facade.Errno
use confuse.Facade.Types.{ReplyAttrPayload}
use confuse.Resolver.State.{Env}
use confuse.Helpers.Codes.{
  NtStatus, errno_to_ntstatus, ntstatus, classify_optional_probe_error, missing_reply_status,
}
use confuse.Helpers.Security.{
  security_descriptor_xattr, synthesized_security_descriptor, Copy, copy_security_descriptor,
  xattr_reported_len, xattr_needs_data_fetch,
}
use confuse.Adapter.Calls.{Request, Reply, Filesystem, getattr, getxattr, setxattr}
use confuse.Adapter.World.{AdapterContext}
use confuse.Adapter.Paths.{invalidate_inode_attr}
use confuse.Adapter.Monad.{
  M, ◌>>=◌, ◌>>◌, pure, fail, of_result, modify, new_request, ask, drain, resolved,
}
use confuse.Adapter.Handlers.Metadata.{probe_result}

-- Dokan's buffer: whether its address is null, and its length.
pub record DokanBuffer : Type 0 where
  pub is_null : Bool
  pub buffer_length : ℕ

-- The match of `synthesized_security_descriptor_from_fs` on the attributes.
unfoldable pub descriptor_of_reply : Reply ReplyAttrPayload → Result (List ℕ) NtStatus
unfolding synthesized_security_descriptor
descriptor_of_reply (some (ok payload)) = ok (synthesized_security_descriptor payload.attr)
descriptor_of_reply (some (err e)) = err (errno_to_ntstatus e)
descriptor_of_reply none = err missing_reply_status

module _ {S : Type 0} (F : Filesystem S) (env : Env) where
  unfoldable pub synthesized_security_descriptor_from_fs : Request → ℕ → ℕ → M S (List ℕ)
  unfolding descriptor_of_reply
  synthesized_security_descriptor_from_fs req ino fh = do
    reply ← ask F env (getattr req ino (some fh))
    of_result (descriptor_of_reply reply)

  -- The match of `fetch_security_descriptor_data` on the second reply.
  unfoldable pub fetched : Request → AdapterContext → Reply (List ℕ) → M S (List ℕ)
  unfolding synthesized_security_descriptor_from_fs
  fetched req target (some (ok bytes)) = pure bytes
  fetched req target (some (err e)) =
      if e == Errno.enodata
      then synthesized_security_descriptor_from_fs req target.ino target.fh
      else fail (ntstatus (classify_optional_probe_error e))
  fetched req target none = fail missing_reply_status

  unfoldable pub fetch_security_descriptor_data :
      Request → AdapterContext → List ℕ → Option ℕ → DokanBuffer → M S (List ℕ)
  unfolding xattr_needs_data_fetch fetched
  fetch_security_descriptor_data req target bytes size_hint buffer =
      elim (xattr_needs_data_fetch bytes size_hint) [
        | none ↦ pure bytes
        | some fetch_size ↦
            (ask F env (
                getxattr req target.ino security_descriptor_xattr
                  (max fetch_size buffer.buffer_length))
              >>= (λ reply. fetched req target reply.status))
      ]

  unfoldable pub copy_existing_or_fetched_security_descriptor :
      Request → AdapterContext → List ℕ → Option ℕ → DokanBuffer → M S Copy
  unfolding xattr_reported_len fetch_security_descriptor_data copy_security_descriptor
  copy_existing_or_fetched_security_descriptor req target bytes size_hint buffer =
      of_result (xattr_reported_len (length bytes) size_hint) >>= (λ needed.
        if ltb buffer.buffer_length needed
        then pure (record { needed = needed; copied = none })
        else (fetch_security_descriptor_data req target bytes size_hint buffer >>= (λ fresh.
            of_result (copy_security_descriptor fresh buffer.is_null buffer.buffer_length)
            >>= (λ copy. pure (record { needed = needed; copied = copy.copied })))))

  -- The match of `get_file_security` on the first reply.
  unfoldable pub use_descriptor :
      Request → AdapterContext → DokanBuffer → Option ℕ → Reply (List ℕ) → M S Copy
  unfolding copy_existing_or_fetched_security_descriptor synthesized_security_descriptor_from_fs
      copy_security_descriptor
  use_descriptor req target buffer size_hint (some (ok bytes)) =
      copy_existing_or_fetched_security_descriptor req target bytes size_hint buffer
  use_descriptor req target buffer size_hint (some (err e)) =
      if e == Errno.enodata
      then (synthesized_security_descriptor_from_fs req target.ino target.fh >>= (λ bytes.
          of_result (copy_security_descriptor bytes buffer.is_null buffer.buffer_length)))
      else fail (ntstatus (classify_optional_probe_error e))
  use_descriptor req target buffer size_hint none = fail missing_reply_status

  unfoldable pub get_file_security : Text → DokanBuffer → AdapterContext → M S Copy
  unfolding use_descriptor
  get_file_security file_name buffer context = do
    req ← new_request context.request_ids
    target ← resolved F env req file_name context
    reply ← ask F env (getxattr req target.ino security_descriptor_xattr 0)
    drain F env req
    use_descriptor req target buffer reply.size_hint reply.status

  -- The descriptor is that of the buffer, and empty where its address is null.
  unfoldable pub set_file_security : Text → List ℕ → AdapterContext → M S (Unit {0})
  set_file_security file_name descriptor context = do
    req ← new_request context.request_ids
    target ← resolved F env req file_name context
    status ← ask F env (setxattr req target.ino security_descriptor_xattr descriptor 0 0)
    drain F env req
    of_result (probe_result status)
    modify (invalidate_inode_attr F env target.ino)
