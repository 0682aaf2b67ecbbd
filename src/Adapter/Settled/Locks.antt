-- ===== src/Adapter/Settled/Locks.antt =====
-- src/dokan_impl/adapter/handler_methods/security_locks_streams.rs: the counts of lookups after locking.
use confuse.Common.Int.{ℤ}
use confuse.Common.Text.{Text}
use confuse.Resolver.State.{Env}
use confuse.Adapter.Calls.{RequestIds, Filesystem}
use confuse.Adapter.World.{AdapterContext}
use confuse.Adapter.Ledger.{Counts}
use confuse.Adapter.Keeps.{Keeps, keeps_rules}
use confuse.Adapter.Handlers.Locks.{lock_file, unlock_file, get_disk_free_space}

module _ {S : Type 0} {F : Filesystem S} (env : Env) (counts : Counts F) where
  pub lock_file-Keeps :
      (file_name : Text) (offset length : ℤ) (context : AdapterContext)
      → Keeps counts (lock_file F env file_name offset length context)
  unfolding lock_file
  lock_file-Keeps file_name offset length context = search keeps_rules depth 12

  pub unlock_file-Keeps :
      (file_name : Text) (offset length : ℤ) (context : AdapterContext)
      → Keeps counts (unlock_file F env file_name offset length context)
  unfolding unlock_file
  unlock_file-Keeps file_name offset length context = search keeps_rules depth 12

  pub get_disk_free_space-Keeps : (ids : RequestIds) → Keeps counts (get_disk_free_space F env ids)
  unfolding get_disk_free_space
  get_disk_free_space-Keeps ids = search keeps_rules
