-- ===== src/Adapter/Settled/Metadata.antt =====
-- src/dokan_impl/adapter/handler_methods/metadata_io.rs: the counts of lookups after changing metadata,
-- reading and writing.
use confuse.Common.{ℕ, refl, Bool, Option, none, some, List, Result}
use confuse.Common.Int.{ℤ}
use confuse.Common.Text.{Text}
use confuse.Facade.Types.{FileAttr, ReplyAttrPayload}
use confuse.Resolver.State.{Env}
use confuse.Resolver.Invariant.{cached_attr-IsAccounted, remember_attr-IsAccounted}
use confuse.Resolver.Balance.{balance-cached_attr, balance-remember_attr}
use confuse.Helpers.Codes.{NtStatus}
use confuse.Adapter.Calls.{Request, Filesystem, SetAttr, fallocate}
use confuse.Adapter.World.{AdapterContext}
use confuse.Adapter.Ledger.{Counts, resolver_step-Settles}
use confuse.Adapter.Monad
use confuse.Adapter.Keeps.{Keeps, keeps_rules, ask-Keeps, bind-SettlesAll, of_result-Keeps}
use confuse.Adapter.Operations.{allocation_size_with_context, dokan_write_plan}
use confuse.Adapter.Handlers.Metadata.{
  FileTimeOperation, finish_mutation, change_attributes, set_end_of_file, set_allocation_size,
  set_file_attributes, set_file_time, read_file, write_file, remember_reply, file_information,
  ask_cached_attr, get_file_information,
}

module _ {S : Type 0} {F : Filesystem S} (env : Env) (counts : Counts F) where
  finish_mutation-Keeps :
      {A : Type 0} (req : Request) (file_name : Text) (ino : ℕ) (status : Result A NtStatus)
      → Keeps counts (finish_mutation F env req file_name ino status)
  unfolding finish_mutation
  finish_mutation-Keeps req file_name ino status = search keeps_rules

  change_attributes-Keeps :
      (req : Request) (file_name : Text) (ino : ℕ) (args : SetAttr)
      → Keeps counts (change_attributes F env req file_name ino args)
  unfolding change_attributes
  change_attributes-Keeps req file_name ino args = search (keeps_rules, finish_mutation-Keeps)

  pub set_end_of_file-Keeps :
      (file_name : Text) (offset : ℤ) (context : AdapterContext)
      → Keeps counts (set_end_of_file F env file_name offset context)
  unfolding set_end_of_file
  set_end_of_file-Keeps file_name offset context = search (keeps_rules, change_attributes-Keeps)

  allocation_size-Keeps :
      (req : Request) (context : AdapterContext) (alloc_size : ℤ)
      → Keeps counts (allocation_size_with_context F env req context alloc_size)
  unfolding allocation_size_with_context
  allocation_size-Keeps req context alloc_size =
      bind-SettlesAll counts (of_result-Keeps counts _) (λ length.
        ask-Keeps env counts (fallocate req context.ino context.fh 0 length 1) (λ i. refl)
          (λ reply i. refl))

  pub set_allocation_size-Keeps :
      (file_name : Text) (alloc_size : ℤ) (context : AdapterContext)
      → Keeps counts (set_allocation_size F env file_name alloc_size context)
  unfolding set_allocation_size
  set_allocation_size-Keeps file_name alloc_size context =
      search (keeps_rules, allocation_size-Keeps, finish_mutation-Keeps)

  pub set_file_attributes-Keeps :
      (file_name : Text) (file_attributes : ℕ) (context : AdapterContext)
      → Keeps counts (set_file_attributes F env file_name file_attributes context)
  unfolding set_file_attributes
  set_file_attributes-Keeps file_name file_attributes context =
      search (keeps_rules, change_attributes-Keeps)

  pub set_file_time-Keeps :
      (file_name : Text) (created accessed written : FileTimeOperation) (context : AdapterContext)
      → Keeps counts (set_file_time F env file_name created accessed written context)
  unfolding set_file_time
  set_file_time-Keeps file_name created accessed written context =
      search (keeps_rules, change_attributes-Keeps)

  pub read_file-Keeps :
      (file_name : Text) (offset : ℤ) (buffer_length : ℕ) (context : AdapterContext)
      → Keeps counts (read_file F env file_name offset buffer_length context)
  unfolding read_file
  read_file-Keeps file_name offset buffer_length context = search keeps_rules depth 12

  dokan_write_plan-Keeps :
      (req : Request) (context : AdapterContext) (offset : ℤ) (len : ℕ) (to_eof paging : Bool)
      → Keeps counts (dokan_write_plan F env req context offset len to_eof paging)
  unfolding dokan_write_plan
  dokan_write_plan-Keeps req context offset len to_eof paging = search keeps_rules depth 8

  pub write_file-Keeps :
      (file_name : Text) (offset : ℤ) (buffer : List ℕ) (to_eof paging : Bool)
      (context : AdapterContext)
      → Keeps counts (write_file F env file_name offset buffer to_eof paging context)
  unfolding write_file
  write_file-Keeps file_name offset buffer to_eof paging context =
      search (keeps_rules, dokan_write_plan-Keeps, finish_mutation-Keeps) depth 8

  ask_cached_attr-Keeps : (ino : ℕ) → Keeps counts (ask_cached_attr F env ino)
  unfolding ask_cached_attr
  ask_cached_attr-Keeps ino = record {
    settled = λ w h.
        resolver_step-Settles env counts _ w h (balance-cached_attr env ino w.resolver)
          (cached_attr-IsAccounted env ino w.resolver h.accounted);
  }

  remember_reply-Keeps :
      (payload : ReplyAttrPayload) → Keeps counts (Monad.modify (remember_reply F env payload))
  unfolding remember_reply Monad.modify
  remember_reply-Keeps payload = record {
    settled = λ w h.
        resolver_step-Settles env counts _ w h
          (balance-remember_attr env payload.attr.ino payload.attr payload.ttl w.resolver)
          (remember_attr-IsAccounted env payload.attr.ino payload.attr payload.ttl w.resolver
            h.accounted);
  }

  file_information-Keeps :
      (req : Request) (target : AdapterContext) (known : Option FileAttr)
      → Keeps counts (file_information F env req target known)
  unfolding file_information
  file_information-Keeps req target (some attr) = search keeps_rules
  file_information-Keeps req target none = search (keeps_rules, remember_reply-Keeps) depth 8

  pub get_file_information-Keeps :
      (file_name : Text) (context : AdapterContext)
      → Keeps counts (get_file_information F env file_name context)
  unfolding get_file_information
  get_file_information-Keeps file_name context =
      search (keeps_rules, ask_cached_attr-Keeps, file_information-Keeps)
