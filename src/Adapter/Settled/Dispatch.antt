-- ===== src/Adapter/Settled/Dispatch.antt =====
-- src/dokan_impl/adapter/handler_methods/dispatch.rs and routes.rs: the counts of lookups after
-- deleting, moving, closing and flushing.
use confuse.Common.{ℕ, refl, Bool, true, false, Option, none, some, Result, ok, err}
use confuse.Common.Text.{Text}
use confuse.Resolver.State.{Env}
use confuse.Adapter.Calls.{Request, Reply, Filesystem, rmdir, unlink, fsync, fsyncdir}
use confuse.Adapter.World.{AdapterContext}
use confuse.Adapter.Ledger.{Counts}
use confuse.Adapter.Monad
use confuse.Adapter.Keeps.{Keeps, keeps_rules, ask-Keeps, if-Keeps}
use confuse.Adapter.Operations.{
  precheck_file_delete, precheck_directory_delete, rename_with_replace_policy, close_with_context,
  flush_with_context,
}
use confuse.Adapter.Handlers.Dispatch.{
  delete_file, delete_directory, remap_open_state_after_rename, drop_open_state, refuse_existing,
  check_target, invalidate_moved, move_file, remove_entry, forget_removed, finish_removal,
  remove_from_parent, cleanup_delete_on_close, cleanup, close_file, flush_file_buffers,
}

module _ {S : Type 0} {F : Filesystem S} (env : Env) (counts : Counts F) where
  precheck_file_delete-Keeps :
      (req : Request) (ino : ℕ) → Keeps counts (precheck_file_delete F env req ino)
  unfolding precheck_file_delete
  precheck_file_delete-Keeps req ino = search keeps_rules

  precheck_directory_delete-Keeps :
      (req : Request) (ino : ℕ) → Keeps counts (precheck_directory_delete F env req ino)
  unfolding precheck_directory_delete
  precheck_directory_delete-Keeps req ino = search keeps_rules

  pub delete_file-Keeps :
      (file_name : Text) (context : AdapterContext)
      → Keeps counts (delete_file F env file_name context)
  unfolding delete_file
  delete_file-Keeps file_name context = search (keeps_rules, precheck_file_delete-Keeps)

  pub delete_directory-Keeps :
      (file_name : Text) (context : AdapterContext)
      → Keeps counts (delete_directory F env file_name context)
  unfolding delete_directory
  delete_directory-Keeps file_name context = search (keeps_rules, precheck_directory_delete-Keeps)

  rename-Keeps :
      (req : Request) (p : ℕ) (name : Text) (q : ℕ) (new_name : Text)
      → Keeps counts (rename_with_replace_policy F env req p name q new_name)
  unfolding rename_with_replace_policy
  rename-Keeps req p name q new_name = search keeps_rules

  refuse_existing-Keeps :
      (req : Request) (found : Result ℕ ℕ) → Keeps counts (refuse_existing F env req found)
  unfolding refuse_existing
  refuse_existing-Keeps req (ok ino) = search keeps_rules
  refuse_existing-Keeps req (err e) = search keeps_rules

  check_target-Keeps :
      (req : Request) (replace : Bool) (new_file_name : Text)
      → Keeps counts (check_target F env req replace new_file_name)
  unfolding check_target
  check_target-Keeps req true new_file_name = search keeps_rules
  check_target-Keeps req false new_file_name = search (keeps_rules, refuse_existing-Keeps)

  invalidate_moved-Keeps : (known : Option ℕ) → Keeps counts (invalidate_moved F env known)
  unfolding invalidate_moved
  invalidate_moved-Keeps (some ino) = search keeps_rules
  invalidate_moved-Keeps none = search keeps_rules

  remap-Keeps :
      (old_key new_key : Text)
      → Keeps counts (Monad.modify (remap_open_state_after_rename old_key new_key))
  unfolding remap_open_state_after_rename Monad.modify
  remap-Keeps old_key new_key = record {
    settled = λ w h. record { owes = h.owes; accounted = h.accounted };
  }

  pub move_file-Keeps :
      (file_name new_file_name : Text) (replace_if_existing : Bool) (context : AdapterContext)
      → Keeps counts (move_file F env file_name new_file_name replace_if_existing context)
  unfolding move_file
  move_file-Keeps file_name new_file_name replace_if_existing context =
      search (keeps_rules, check_target-Keeps, rename-Keeps, invalidate_moved-Keeps, remap-Keeps)
        depth 16

  remove_entry-Keeps :
      (req : Request) (is_dir : Bool) (parent : ℕ) (leaf : Text)
      → Keeps counts (remove_entry F env req is_dir parent leaf)
  unfolding remove_entry
  remove_entry-Keeps req true parent leaf =
      ask-Keeps env counts (rmdir req parent leaf) (λ i. refl) (λ reply i. refl)
  remove_entry-Keeps req false parent leaf =
      ask-Keeps env counts (unlink req parent leaf) (λ i. refl) (λ reply i. refl)

  finish_removal-Keeps :
      (req : Request) (file_name : Text) (ino parent : ℕ) (reply : Reply (Unit {0}))
      → Keeps counts (finish_removal F env req file_name ino parent reply)
  unfolding finish_removal forget_removed
  finish_removal-Keeps req file_name ino parent (some (ok u)) = search keeps_rules
  finish_removal-Keeps req file_name ino parent (some (err e)) = search keeps_rules
  finish_removal-Keeps req file_name ino parent none = search keeps_rules

  remove_from_parent-Keeps :
      (req : Request) (file_name : Text) (context : AdapterContext) (found : Result ℕ ℕ)
      → Keeps counts (remove_from_parent F env req file_name context found)
  unfolding remove_from_parent
  remove_from_parent-Keeps req file_name context (ok parent) =
      search (keeps_rules, remove_entry-Keeps, finish_removal-Keeps)
  remove_from_parent-Keeps req file_name context (err e) = search keeps_rules

  pub cleanup-Keeps :
      (delete_on_close : Bool) (file_name : Text) (context : AdapterContext)
      → Keeps counts (cleanup F env delete_on_close file_name context)
  unfolding cleanup cleanup_delete_on_close
  cleanup-Keeps delete_on_close file_name context = search (keeps_rules, remove_from_parent-Keeps)

  close_with_context-Keeps :
      (req : Request) (context : AdapterContext)
      → Keeps counts (close_with_context F env req context)
  unfolding close_with_context
  close_with_context-Keeps req context = search keeps_rules

  drop_open_state-Keeps : (key : Text) → Keeps counts (Monad.modify (drop_open_state key))
  unfolding drop_open_state Monad.modify
  drop_open_state-Keeps key = record {
    settled = λ w h. record { owes = h.owes; accounted = h.accounted };
  }

  pub close_file-Keeps :
      (file_name : Text) (context : AdapterContext)
      → Keeps counts (close_file F env file_name context)
  unfolding close_file
  close_file-Keeps file_name context =
      search (keeps_rules, close_with_context-Keeps, drop_open_state-Keeps)

  flush_with_context-Keeps :
      (req : Request) (context : AdapterContext)
      → Keeps counts (flush_with_context F env req context)
  unfolding flush_with_context
  flush_with_context-Keeps req context =
      if-Keeps counts context.is_dir
        (ask-Keeps env counts (fsyncdir req context.ino context.fh false) (λ i. refl)
          (λ reply i. refl))
        (ask-Keeps env counts (fsync req context.ino context.fh false) (λ i. refl)
          (λ reply i. refl))

  pub flush_file_buffers-Keeps :
      (file_name : Text) (context : AdapterContext)
      → Keeps counts (flush_file_buffers F env file_name context)
  unfolding flush_file_buffers
  flush_file_buffers-Keeps file_name context = search (keeps_rules, flush_with_context-Keeps)
