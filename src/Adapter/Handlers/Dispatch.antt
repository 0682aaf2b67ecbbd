-- ===== src/Adapter/Handlers/Dispatch.antt =====
-- src/dokan_impl/adapter/handler_methods/dispatch.rs and the delete route of
-- src/dokan_impl/adapter/routes.rs: deleting, moving, closing and flushing.
use confuse.Common.{
  ℕ, Bool, true, false, not, Option, none, some, ◌==◌, if◌then◌else◌, Result, ok, err,
}
use confuse.Common.Text.{Text}
use confuse.Common.Assoc.{remove}
use confuse.Facade.Errno
use confuse.Resolver.State.{Env}
use confuse.Helpers.Codes.{object_name_collision, errno_to_ntstatus}
use confuse.Helpers.Names.{split_parent_and_name}
use confuse.Adapter.Calls.{Request, Reply, Filesystem, rmdir, unlink}
use confuse.Adapter.World.{AdapterContext, DokanAdapter}
use confuse.Adapter.Paths.{
  invalidate_path_cache, invalidate_inode_attr, resolve_path_ino, resolve_context_or_path,
}
use confuse.Adapter.Monad.{
  M, ◌>>=◌, ◌>>◌, pure, fail, of_result, attempt, modify, observe, or_status, reply_result,
  new_request, ask, drain, resolved,
}
use confuse.Adapter.Remap.{remap_descendant_keys}
use confuse.Adapter.Operations.{
  precheck_file_delete, precheck_directory_delete, rename_with_replace_policy, close_with_context,
  flush_with_context,
}

unfoldable pub remap_open_state_after_rename :
    {S : Type 0} → Text → Text → DokanAdapter S → DokanAdapter S
unfolding remap_descendant_keys
remap_open_state_after_rename old_key new_key w = record w {
  handles = remap_descendant_keys old_key new_key w.handles;
  dir_offsets = remap_descendant_keys old_key new_key w.dir_offsets;
}

-- `self.handles.remove(..)` and `self.dir_offsets.remove(..)` of `close_file`.
unfoldable pub drop_open_state : {S : Type 0} → Text → DokanAdapter S → DokanAdapter S
drop_open_state key w = record w {
  handles = remove key w.handles;
  dir_offsets = remove key w.dir_offsets;
}

-- `.ok().map(|resolved| resolved.ino)`
unfoldable pub ino_if_ok : Result AdapterContext ℕ → Option ℕ
ino_if_ok (ok context) = some context.ino
ino_if_ok (err e) = none

module _ {S : Type 0} (F : Filesystem S) (env : Env) where
  unfoldable pub delete_file : Text → AdapterContext → M S (Unit {0})
  delete_file file_name context = do
    req ← new_request context.request_ids
    target ← resolved F env req file_name context
    result ← attempt (precheck_file_delete F env req target.ino)
    drain F env req
    of_result result

  unfoldable pub delete_directory : Text → AdapterContext → M S (Unit {0})
  delete_directory file_name context = do
    req ← new_request context.request_ids
    target ← resolved F env req file_name context
    result ← attempt (precheck_directory_delete F env req target.ino)
    drain F env req
    of_result result

  -- The match of `move_file` on the target's path, where a target may not be replaced.
  unfoldable pub refuse_existing : Request → Result ℕ ℕ → M S (Unit {0})
  refuse_existing req (ok ino) = do drain F env req; fail object_name_collision
  refuse_existing req (err e) = do
    drain F env req
    if e == Errno.enoent then pure tt else fail (errno_to_ntstatus e)

  unfoldable pub check_target : Request → Bool → Text → M S (Unit {0})
  unfolding refuse_existing
  check_target req true new_file_name = pure tt
  check_target req false new_file_name = do
    found ← observe (resolve_path_ino F env req new_file_name)
    refuse_existing req found

  unfoldable pub invalidate_moved : Option ℕ → M S (Unit {0})
  invalidate_moved none = pure tt
  invalidate_moved (some ino) = modify (invalidate_inode_attr F env ino)

  unfoldable pub move_file : Text → Text → Bool → AdapterContext → M S (Unit {0})
  unfolding check_target invalidate_moved
  move_file file_name new_file_name replace_if_existing context = do
    let old = split_parent_and_name file_name
    let new = split_parent_and_name new_file_name
    req ← new_request context.request_ids
    old_parent ← or_status (resolve_path_ino F env req old.0)
    new_parent ← or_status (resolve_path_ino F env req new.0)
    moved ← observe (resolve_context_or_path F env req file_name context)
    check_target req replace_if_existing new_file_name
    result ← attempt (rename_with_replace_policy F env req old_parent old.1 new_parent new.1)
    drain F env req
    of_result result
    invalidate_moved (ino_if_ok moved)
    modify (remap_open_state_after_rename file_name new_file_name)
    modify (invalidate_path_cache F env req file_name)
    modify (invalidate_path_cache F env req new_file_name)
    modify (invalidate_inode_attr F env old_parent)
    modify (invalidate_inode_attr F env new_parent)

  -- `fs.rmdir` or `fs.unlink` of `cleanup_delete_on_close`.
  unfoldable pub remove_entry : Request → Bool → ℕ → Text → M S (Reply (Unit {0}))
  remove_entry req true parent leaf = ask F env (rmdir req parent leaf)
  remove_entry req false parent leaf = ask F env (unlink req parent leaf)

  -- What follows a removal that the file system confirmed.
  unfoldable pub forget_removed : Request → Text → ℕ → ℕ → M S (Unit {0})
  forget_removed req file_name ino parent = do
    modify (invalidate_path_cache F env req file_name)
    if not (ino == 0) then modify (invalidate_inode_attr F env ino) else pure tt
    modify (invalidate_inode_attr F env parent)

  unfoldable pub finish_removal : Request → Text → ℕ → ℕ → Reply (Unit {0}) → M S (Unit {0})
  unfolding forget_removed
  finish_removal req file_name ino parent (some (ok u)) = forget_removed req file_name ino parent
  finish_removal req file_name ino parent (some (err e)) = pure tt
  finish_removal req file_name ino parent none = pure tt

  unfoldable pub remove_from_parent : Request → Text → AdapterContext → Result ℕ ℕ → M S (Unit {0})
  unfolding remove_entry finish_removal
  remove_from_parent req file_name context (err e) = drain F env req
  remove_from_parent req file_name context (ok parent) = do
    status ← remove_entry req context.is_dir parent (split_parent_and_name file_name).1
    drain F env req
    finish_removal req file_name context.ino parent status

  unfoldable pub cleanup_delete_on_close : Text → AdapterContext → M S (Unit {0})
  unfolding remove_from_parent
  cleanup_delete_on_close file_name context = do
    req ← new_request context.request_ids
    parent ← observe (resolve_path_ino F env req (split_parent_and_name file_name).0)
    remove_from_parent req file_name context parent

  unfoldable pub cleanup : Bool → Text → AdapterContext → M S (Unit {0})
  unfolding cleanup_delete_on_close
  cleanup delete_on_close file_name context =
      if delete_on_close then cleanup_delete_on_close file_name context else pure tt

  unfoldable pub close_file : Text → AdapterContext → M S (Unit {0})
  close_file file_name context = do
    req ← new_request context.request_ids
    close_with_context F env req context
    modify (drop_open_state file_name)

  unfoldable pub flush_file_buffers : Text → AdapterContext → M S (Unit {0})
  flush_file_buffers file_name context = do
    req ← new_request context.request_ids
    target ← resolved F env req file_name context
    status ← flush_with_context F env req target
    drain F env req
    of_result (reply_result status)
