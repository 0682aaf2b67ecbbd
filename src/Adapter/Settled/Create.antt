-- ===== src/Adapter/Settled/Create.antt =====
-- src/dokan_impl/adapter/create_routes.rs: the counts of lookups after creating and opening.
use confuse.Common.{ℕ, refl, none, some, Result, ok, err}
use confuse.Common.Text.{Text}
use confuse.Facade.Types.{ReplyEntryPayload, ReplyCreatePayload}
use confuse.Resolver.State.{Env}
use confuse.Helpers.Codes.{CreateDispositionPlan}
use confuse.Adapter.Calls.{
  RequestIds, Request, Reply, Filesystem, mkdir, create, open_file, opendir,
}
use confuse.Adapter.World.{AdapterContext, DokanAdapter}
use confuse.Adapter.Ledger.{one_if, granted, Counts, Settles, invalidate_inode_attr-Settles}
use confuse.Adapter.Walk.{remember_created_path-IsSettled}
use confuse.Adapter.Monad
use confuse.Adapter.Keeps.{
  Keeps, SettlesAll, keeps_rules, ask-Keeps, ask-then, drain-then, if-Keeps, pure-Keeps, fail-Keeps,
  then-SettlesAll, modify-SettlesAll,
}
use confuse.Adapter.Requests.{
  CreateEntryRequest, OpenEntryRequest, CreatedEntry, remember_open_context,
}
use confuse.Adapter.Create.{
  create_root_context, finish_created_entry, finish_created_directory, create_directory_entry,
  finish_created_file, or_drain, resolve_open_ino, ask_open, open_resolved_path,
  open_existing_entry, open_collision_entry, finish_created_or_collision,
  create_file_entry_or_open_existing, create_in_parent, create_file_impl,
}

module _ {S : Type 0} {F : Filesystem S} (env : Env) (counts : Counts F) where
  remember_open_context-Settles :
      {hand : ℕ → ℕ} (file_name : Text) (ctx : AdapterContext) (w : DokanAdapter S)
      → Settles counts hand w
      → Settles counts hand (remember_open_context file_name ctx w)
  unfolding remember_open_context
  remember_open_context-Settles file_name ctx w h = record {
    owes = h.owes;
    accounted = h.accounted;
  }

  remember_open_context-Keeps :
      (file_name : Text) (ctx : AdapterContext)
      → Keeps counts (Monad.modify (remember_open_context file_name ctx))
  remember_open_context-Keeps file_name ctx =
      modify-SettlesAll counts (remember_open_context-Settles file_name ctx)

  create_root_context-Keeps :
      (file_name : Text) (ids : RequestIds) → Keeps counts (create_root_context F env file_name ids)
  unfolding create_root_context
  create_root_context-Keeps file_name ids = search (keeps_rules, remember_open_context-Keeps)

  finish_created_entry-SettlesAll :
      (created : CreatedEntry)
      → SettlesAll counts
          (one_if created.attr.ino)
          (Monad.modify (finish_created_entry F env created))
  unfolding finish_created_entry
  finish_created_entry-SettlesAll created = modify-SettlesAll counts (λ w h.
      remember_created_path-IsSettled env counts created.req _ _ (
        invalidate_inode_attr-Settles env counts created.ctx.ino _ (
          invalidate_inode_attr-Settles env counts created.parent_ino _
            (remember_open_context-Settles created.file_name created.ctx w h))))

  finish_created_directory-SettlesAll :
      (c : CreateEntryRequest) (reply : Reply ReplyEntryPayload)
      → SettlesAll counts
          (granted (mkdir c.req c.parent_ino c.leaf c.mode 0) reply)
          (finish_created_directory F env c reply)
  unfolding finish_created_directory
  finish_created_directory-SettlesAll c (some (ok payload)) =
      then-SettlesAll counts (finish_created_entry-SettlesAll _) (pure-Keeps counts _)
  finish_created_directory-SettlesAll c (some (err e)) = fail-Keeps counts _
  finish_created_directory-SettlesAll c none = fail-Keeps counts _

  create_directory_entry-Keeps :
      (c : CreateEntryRequest) → Keeps counts (create_directory_entry F env c)
  unfolding create_directory_entry
  create_directory_entry-Keeps c =
      ask-then env counts (mkdir c.req c.parent_ino c.leaf c.mode 0) (λ i. refl)
        (λ reply. drain-then env counts c.req (finish_created_directory-SettlesAll c reply))

  finish_created_file-SettlesAll :
      (c : CreateEntryRequest) (payload : ReplyCreatePayload)
      → SettlesAll counts (one_if payload.attr.ino) (finish_created_file F env c payload)
  unfolding finish_created_file
  finish_created_file-SettlesAll c payload =
      then-SettlesAll counts (finish_created_entry-SettlesAll _) (pure-Keeps counts _)

  or_drain-Keeps : (req : Request) (found : Result ℕ ℕ) → Keeps counts (or_drain F env req found)
  unfolding or_drain
  or_drain-Keeps req (ok ino) = search keeps_rules
  or_drain-Keeps req (err e) = search keeps_rules

  resolve_open_ino-Keeps : (o : OpenEntryRequest) → Keeps counts (resolve_open_ino F env o)
  unfolding resolve_open_ino
  resolve_open_ino-Keeps o = search (keeps_rules, or_drain-Keeps)

  ask_open-Keeps : (o : OpenEntryRequest) (ino : ℕ) → Keeps counts (ask_open F env o ino)
  unfolding ask_open
  ask_open-Keeps o ino =
      if-Keeps counts o.is_dir_open
        (ask-Keeps env counts (opendir o.req ino o.open_flags) (λ i. refl) (λ reply i. refl))
        (ask-Keeps env counts (open_file o.req ino o.open_flags) (λ i. refl) (λ reply i. refl))

  open_resolved_path-Keeps :
      (o : OpenEntryRequest) (ino : ℕ) → Keeps counts (open_resolved_path F env o ino)
  unfolding open_resolved_path
  open_resolved_path-Keeps o ino =
      search (keeps_rules, ask_open-Keeps, remember_open_context-Keeps) depth 8

  open_existing_entry-Keeps : (o : OpenEntryRequest) → Keeps counts (open_existing_entry F env o)
  unfolding open_existing_entry
  open_existing_entry-Keeps o =
      search (keeps_rules, resolve_open_ino-Keeps, open_resolved_path-Keeps)

  open_collision_entry-Keeps : (o : OpenEntryRequest) → Keeps counts (open_collision_entry F env o)
  unfolding open_collision_entry
  open_collision_entry-Keeps o = search (keeps_rules, open_existing_entry-Keeps)

  finish_created_or_collision-SettlesAll :
      (c : CreateEntryRequest) (plan : CreateDispositionPlan) (flags : ℕ)
      (reply : Reply ReplyCreatePayload)
      → SettlesAll counts
          (granted (create c.req c.parent_ino c.leaf c.mode 0 flags) reply)
          (finish_created_or_collision F env c plan flags reply)
  unfolding finish_created_or_collision
  finish_created_or_collision-SettlesAll c plan flags (some (ok payload)) =
      finish_created_file-SettlesAll c payload
  finish_created_or_collision-SettlesAll c plan flags (some (err e)) =
      if-Keeps counts _ (open_collision_entry-Keeps _) (fail-Keeps counts _)
  finish_created_or_collision-SettlesAll c plan flags none = fail-Keeps counts _

  create_file_entry-Keeps :
      (c : CreateEntryRequest) (plan : CreateDispositionPlan) (flags : ℕ)
      → Keeps counts (create_file_entry_or_open_existing F env c plan flags)
  unfolding create_file_entry_or_open_existing
  create_file_entry-Keeps c plan flags =
      ask-then env counts (create c.req c.parent_ino c.leaf c.mode 0 flags) (λ i. refl)
        (λ reply.
          drain-then env counts c.req (finish_created_or_collision-SettlesAll c plan flags reply))

  create_in_parent-Keeps :
      (req : Request) (file_name : Text) (desired_access file_attributes disposition options : ℕ)
      (ids : RequestIds) (parent : ℕ)
      → Keeps counts (
          create_in_parent F env req file_name desired_access file_attributes disposition options
            ids parent)
  unfolding create_in_parent
  create_in_parent-Keeps req file_name desired_access file_attributes disposition options ids
        parent =
      search (
        keeps_rules, create_root_context-Keeps, open_existing_entry-Keeps,
        create_directory_entry-Keeps, create_file_entry-Keeps,
      )

  -- For a file system that counts lookups as the protocol asks: creating or opening, on every route and
  -- with every reply, errors and missing replies included, leaves the file system's counts and the
  -- resolver's equal when they are equal before.
  pub create_file_impl-Keeps :
      (file_name : Text) (desired_access file_attributes disposition options : ℕ) (ids : RequestIds)
      → Keeps counts
          (create_file_impl F env file_name desired_access file_attributes disposition options ids)
  unfolding create_file_impl
  create_file_impl-Keeps file_name desired_access file_attributes disposition options ids =
      search (keeps_rules, or_drain-Keeps, create_in_parent-Keeps)
