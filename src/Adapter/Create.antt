-- ===== src/Adapter/Create.antt =====
-- src/dokan_impl/adapter/create_routes.rs: the routes of `create_file`.
use confuse.Common.{ℕ, true, false, not, none, some, ◌==◌, if◌then◌else◌, Result, ok, err}
use confuse.Common.Text.{Text, text_eq, is_empty}
use confuse.Facade.Types.{ReplyEntryPayload, ReplyOpenPayload, ReplyCreatePayload, root}
use confuse.Resolver.State.{Env}
use confuse.Resolver.Path.{root_path}
use confuse.Helpers.Codes.{
  errno_to_ntstatus, missing_reply_status, CreateDispositionPlan, create_disposition_plan,
  creates_entry, opens_existing_after_collision, is_directory_open, mode_from_file_attributes,
  access_mask_to_open_flags,
}
use confuse.Helpers.Names.{split_parent_and_name}
use confuse.Adapter.Calls.{
  RequestIds, Request, Reply, Filesystem, mkdir, create, open_file, opendir,
}
use confuse.Adapter.World.{AdapterContext, default_context, DokanAdapter}
use confuse.Adapter.Paths.{
  invalidate_path_cache, invalidate_inode_attr, resolve_path_ino, remember_created_path,
}
use confuse.Adapter.Monad.{
  M, ◌>>=◌, ◌>>◌, pure, fail, of_result, modify, observe, reply_result, new_request, ask, drain,
}
use confuse.Adapter.Requests.{
  CreateFileInfo, CreateEntryRequest, OpenEntryRequest, CreatedEntry, from_create,
  remember_open_context, directory_context, created_entry, file_context,
}

module _ {S : Type 0} (F : Filesystem S) (env : Env) where
  unfoldable pub create_root_context : Text → RequestIds → M S CreateFileInfo
  create_root_context file_name request_ids = do
    let ctx = record default_context { ino = root; is_dir = true; request_ids = request_ids }
    modify (remember_open_context file_name ctx)
    pure (record { context = ctx; is_dir = true; new_file_created = false })

  unfoldable pub finish_created_entry : CreatedEntry → DokanAdapter S → DokanAdapter S
  finish_created_entry created w =
      remember_created_path F env created.req
        (record {
          path = created.file_name;
          parent = created.parent_ino;
          name = created.leaf;
          attr = created.attr;
          generation = created.generation;
          ttl = created.ttl;
        })
        (invalidate_inode_attr F env created.ctx.ino (
          invalidate_inode_attr F env created.parent_ino
            (remember_open_context created.file_name created.ctx w)))

  -- The match of `create_directory_entry` on the reply.
  unfoldable pub finish_created_directory :
      CreateEntryRequest → Reply ReplyEntryPayload → M S CreateFileInfo
  unfolding directory_context created_entry finish_created_entry
  finish_created_directory c (some (ok payload)) = do
    let ctx = directory_context c payload.attr
    modify (finish_created_entry (created_entry c payload.attr payload.generation payload.ttl ctx))
    pure (record { context = ctx; is_dir = true; new_file_created = true })
  finish_created_directory c (some (err e)) = fail (errno_to_ntstatus e)
  finish_created_directory c none = fail missing_reply_status

  unfoldable pub create_directory_entry : CreateEntryRequest → M S CreateFileInfo
  unfolding finish_created_directory
  create_directory_entry c = do
    state ← ask F env (mkdir c.req c.parent_ino c.leaf c.mode 0)
    drain F env c.req
    finish_created_directory c state

  unfoldable pub finish_created_file : CreateEntryRequest → ReplyCreatePayload → M S CreateFileInfo
  unfolding file_context created_entry finish_created_entry
  finish_created_file c payload = do
    let ctx = file_context c payload
    modify (finish_created_entry (created_entry c payload.attr payload.generation payload.ttl ctx))
    pure (record { context = ctx; is_dir = ctx.is_dir; new_file_created = true })

  -- `map_err` of `resolve_open_ino`.
  unfoldable pub or_drain : Request → Result ℕ ℕ → M S ℕ
  or_drain req (ok ino) = pure ino
  or_drain req (err e) = do drain F env req; fail (errno_to_ntstatus e)

  unfoldable pub resolve_open_ino : OpenEntryRequest → M S ℕ
  unfolding or_drain
  resolve_open_ino o =
      if not (o.path_ino == 0)
      then pure o.path_ino
      else observe (resolve_path_ino F env o.req o.file_name) >>= or_drain o.req

  unfoldable pub ask_open : OpenEntryRequest → ℕ → M S (Reply ReplyOpenPayload)
  ask_open o actual_ino =
      if o.is_dir_open
      then ask F env (opendir o.req actual_ino o.open_flags)
      else ask F env (open_file o.req actual_ino o.open_flags)

  unfoldable pub open_resolved_path : OpenEntryRequest → ℕ → M S CreateFileInfo
  unfolding ask_open
  open_resolved_path o actual_ino = do
    opened ← ask_open o actual_ino
    drain F env o.req
    payload ← of_result (reply_result opened)
    let ctx : AdapterContext = record {
      fh = payload.fh;
      flags = payload.flags;
      ino = actual_ino;
      is_dir = o.is_dir_open;
      lock_owner = none;
      request_ids = o.request_ids;
    }
    modify (remember_open_context o.file_name ctx)
    pure (record { context = ctx; is_dir = ctx.is_dir; new_file_created = false })

  unfoldable pub open_existing_entry : OpenEntryRequest → M S CreateFileInfo
  unfolding resolve_open_ino open_resolved_path
  open_existing_entry o = do actual_ino ← resolve_open_ino o; open_resolved_path o actual_ino

  unfoldable pub open_collision_entry : OpenEntryRequest → M S CreateFileInfo
  unfolding open_existing_entry
  open_collision_entry o = do
    if o.path_ino == 0 then modify (invalidate_path_cache F env o.req o.file_name) else pure tt
    open_existing_entry o

  -- The match of `create_file_entry_or_open_existing` on the reply.
  unfoldable pub finish_created_or_collision :
      CreateEntryRequest → CreateDispositionPlan → ℕ → Reply ReplyCreatePayload → M S CreateFileInfo
  unfolding finish_created_file open_collision_entry
  finish_created_or_collision c create_plan open_flags (some (ok payload)) =
      finish_created_file c payload
  finish_created_or_collision c create_plan open_flags (some (err e)) =
      if opens_existing_after_collision create_plan e
      then open_collision_entry (from_create c open_flags)
      else fail (errno_to_ntstatus e)
  finish_created_or_collision c create_plan open_flags none = fail missing_reply_status

  unfoldable pub create_file_entry_or_open_existing :
      CreateEntryRequest → CreateDispositionPlan → ℕ → M S CreateFileInfo
  unfolding finish_created_or_collision
  create_file_entry_or_open_existing c create_plan open_flags = do
    state ← ask F env (create c.req c.parent_ino c.leaf c.mode 0 open_flags)
    drain F env c.req
    finish_created_or_collision c create_plan open_flags state

  -- The part of `create_file_impl` behind the parent's inode.
  unfoldable pub create_in_parent :
      Request → Text → ℕ → ℕ → ℕ → ℕ → RequestIds → ℕ → M S CreateFileInfo
  unfolding open_existing_entry create_directory_entry create_file_entry_or_open_existing
  create_in_parent req file_name desired_access file_attributes disposition create_options
        request_ids parent =
      let leaf = (split_parent_and_name file_name).1 in
      let path_ino = if text_eq file_name root_path then root else 0 in
      let create_plan = create_disposition_plan disposition in
      let is_dir_open = is_directory_open create_options in
      let open_flags = access_mask_to_open_flags desired_access in
      let c : CreateEntryRequest = record {
        req = req;
        file_name = file_name;
        parent_ino = parent;
        leaf = leaf;
        path_ino = path_ino;
        request_ids = request_ids;
        mode = mode_from_file_attributes file_attributes;
        is_dir_open = is_dir_open;
      } in
      if is_empty leaf
      then create_root_context file_name request_ids
      else if not (creates_entry create_plan)
      then open_existing_entry (from_create c open_flags)
      else if is_dir_open
      then create_directory_entry c
      else create_file_entry_or_open_existing c create_plan open_flags

  unfoldable pub create_file_impl : Text → ℕ → ℕ → ℕ → ℕ → RequestIds → M S CreateFileInfo
  unfolding create_in_parent or_drain
  create_file_impl file_name desired_access file_attributes disposition create_options request_ids =
      do
        req ← new_request request_ids
        found ← observe (resolve_path_ino F env req (split_parent_and_name file_name).0)
        parent ← or_drain req found
        create_in_parent req file_name desired_access file_attributes disposition create_options
            request_ids parent
