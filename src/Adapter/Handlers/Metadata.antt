-- ===== src/Adapter/Handlers/Metadata.antt =====
-- src/dokan_impl/adapter/handler_methods/metadata_io.rs: metadata, reading and writing.
use confuse.Common.{ℕ, Bool, Option, none, some, List, length, take, min, Result, ok, err}
use confuse.Common.Int.{ℤ}
use confuse.Common.Text.{Text}
use confuse.Facade.Types.{FileAttr, ReplyAttrPayload}
use confuse.Resolver.State.{Env}
use confuse.Resolver.Attrs.{cached_attr, remember_attr}
use confuse.Helpers.Codes.{
  NtStatus, classify_optional_probe_error, ntstatus, missing_reply_status, filetype_to_windows_attr,
  mode_from_file_attributes,
}
use confuse.Helpers.Ranges.{nonnegative_i64_to_u64, checked_dokan_len}
use confuse.Adapter.Calls.{
  Request, Reply, Filesystem, TimeOrNow, specific_time, SetAttr, setattr, getattr, read, write,
}
use confuse.Adapter.World.{AdapterContext, DokanAdapter}
use confuse.Adapter.Paths.{finish_metadata_mutation}
use confuse.Adapter.Monad.{
  M, ◌>>=◌, ◌>>◌, pure, of_result, modify, reply_result, new_request, ask, drain, resolved,
}
use confuse.Adapter.Operations.{allocation_size_with_context, dokan_write_plan}

-- `dokan::FileTimeOperation`; a time is the `SystemTime` it stands for.
pub data FileTimeOperation : Type 0 where
  set_time : ℕ → FileTimeOperation
  dont_change disable_update resume_update : FileTimeOperation

unfoldable pub filetime_op_to_option : FileTimeOperation → Option ℕ
filetime_op_to_option (set_time t) = some t
filetime_op_to_option dont_change = none
filetime_op_to_option disable_update = none
filetime_op_to_option resume_update = none

-- `.map(TimeOrNow::SpecificTime)`
unfoldable pub specific : Option ℕ → Option TimeOrNow
specific (some t) = some (specific_time t)
specific none = none

abbrev pub no_attributes : SetAttr
no_attributes = record {
  mode = none;
  uid = none;
  gid = none;
  size = none;
  atime = none;
  mtime = none;
  ctime = none;
  fh = none;
  crtime = none;
  chgtime = none;
  bkuptime = none;
  flags = none;
}

-- `dokan::FileInfo`
pub record FileInfo : Type 0 where
  pub attributes : ℕ
  pub creation_time : ℕ
  pub last_access_time : ℕ
  pub last_write_time : ℕ
  pub file_size : ℕ
  pub number_of_links : ℕ
  pub file_index : ℕ

unfoldable pub file_info : FileAttr → FileInfo
file_info attr = record {
  attributes = filetype_to_windows_attr attr.kind attr.perm;
  creation_time = attr.ctime;
  last_access_time = attr.atime;
  last_write_time = attr.mtime;
  file_size = attr.size;
  number_of_links = attr.nlink;
  file_index = attr.ino;
}

-- The reply to an allocation, whose failure counts as that of an optional feature.
unfoldable pub probe_result : {A : Type 0} → Reply A → Result A NtStatus
probe_result (some (ok a)) = ok a
probe_result (some (err e)) = err (ntstatus (classify_optional_probe_error e))
probe_result none = err missing_reply_status

module _ {S : Type 0} (F : Filesystem S) (env : Env) where
  -- The end of the handlers that change metadata: the calls after the file system replied.
  unfoldable pub finish_mutation : {A : Type 0} → Request → Text → ℕ → Result A NtStatus → M S A
  finish_mutation req file_name ino status = do
    drain F env req
    a ← of_result status
    modify (finish_metadata_mutation F env req file_name ino)
    pure a

  -- `setattr` and what follows it, common to three handlers.
  unfoldable pub change_attributes : Request → Text → ℕ → SetAttr → M S (Unit {0})
  unfolding finish_mutation
  change_attributes req file_name ino args = do
    status ← ask F env (setattr req ino args)
    finish_mutation req file_name ino (reply_result status)
    pure tt

  unfoldable pub set_end_of_file : Text → ℤ → AdapterContext → M S (Unit {0})
  unfolding change_attributes
  set_end_of_file file_name offset context = do
    req ← new_request context.request_ids
    target ← resolved F env req file_name context
    size ← of_result (nonnegative_i64_to_u64 offset)
    change_attributes req file_name target.ino (record no_attributes { size = some size })

  unfoldable pub set_allocation_size : Text → ℤ → AdapterContext → M S (Unit {0})
  unfolding finish_mutation
  set_allocation_size file_name alloc_size context = do
    req ← new_request context.request_ids
    target ← resolved F env req file_name context
    status ← allocation_size_with_context F env req target alloc_size
    finish_mutation req file_name target.ino (probe_result status)

  unfoldable pub set_file_attributes : Text → ℕ → AdapterContext → M S (Unit {0})
  unfolding change_attributes
  set_file_attributes file_name file_attributes context = do
    let mode = mode_from_file_attributes file_attributes
    req ← new_request context.request_ids
    target ← resolved F env req file_name context
    change_attributes req file_name target.ino (record no_attributes { mode = some mode })

  unfoldable pub set_file_time :
      Text
      → FileTimeOperation
      → FileTimeOperation
      → FileTimeOperation
      → AdapterContext
      → M S (Unit {0})
  unfolding change_attributes
  set_file_time file_name creation_time last_access_time last_write_time context = do
    req ← new_request context.request_ids
    target ← resolved F env req file_name context
    change_attributes req file_name target.ino (record no_attributes {
      atime = specific (filetime_op_to_option last_access_time);
      mtime = specific (filetime_op_to_option last_write_time);
      ctime = filetime_op_to_option creation_time;
      crtime = filetime_op_to_option creation_time;
    })

  -- `buffer[..n].copy_from_slice(&data[..n])`: the bytes at the front of the buffer.
  unfoldable pub copied : ℕ → List ℕ → List ℕ
  copied buffer_length bytes = take (min (length bytes) buffer_length) bytes

  -- The bytes written to the buffer, whose number the handler returns.
  unfoldable pub read_file : Text → ℤ → ℕ → AdapterContext → M S (List ℕ × ℕ)
  unfolding copied
  read_file file_name offset buffer_length context = do
    req ← new_request context.request_ids
    target ← resolved F env req file_name context
    start ← of_result (nonnegative_i64_to_u64 offset)
    size ← of_result (checked_dokan_len buffer_length)
    reply ← ask F env (read req target.ino target.fh start size target.flags target.lock_owner)
    drain F env req
    bytes ← of_result (reply_result reply)
    n ← of_result (checked_dokan_len (min (length bytes) buffer_length))
    pure (copied buffer_length bytes, n)

  unfoldable pub write_file : Text → ℤ → List ℕ → Bool → Bool → AdapterContext → M S ℕ
  unfolding finish_mutation
  write_file file_name offset buffer write_to_eof paging_io context = do
    req ← new_request context.request_ids
    target ← resolved F env req file_name context
    plan ← dokan_write_plan F env req target offset (length buffer) write_to_eof paging_io
    reply ← ask F env (
        write req target.ino target.fh plan.0 (take plan.1 buffer) 0 target.flags target.lock_owner)
    finish_mutation req file_name target.ino (reply_result reply)

  unfoldable pub remember_reply : ReplyAttrPayload → DokanAdapter S → DokanAdapter S
  remember_reply payload w = record w {
    resolver = remember_attr env payload.attr.ino payload.attr payload.ttl w.resolver;
  }

  -- The match of `get_file_information` on the cached attributes.
  unfoldable pub file_information : Request → AdapterContext → Option FileAttr → M S FileInfo
  unfolding remember_reply
  file_information req target (some attr) = do drain F env req; pure (file_info attr)
  file_information req target none = do
    reply ← ask F env (getattr req target.ino (some target.fh))
    drain F env req
    payload ← of_result (reply_result reply)
    modify (remember_reply payload)
    pure (file_info payload.attr)

  -- `cached_attr` of the resolver, which drops expired attributes.
  unfoldable pub ask_cached_attr : ℕ → M S (Option FileAttr)
  ask_cached_attr ino w =
      let (attr, r) = cached_attr env ino w.resolver in (ok attr, record w { resolver = r })

  unfoldable pub get_file_information : Text → AdapterContext → M S FileInfo
  unfolding file_information ask_cached_attr
  get_file_information file_name context = do
    req ← new_request context.request_ids
    target ← resolved F env req file_name context
    cached ← ask_cached_attr target.ino
    file_information req target cached
