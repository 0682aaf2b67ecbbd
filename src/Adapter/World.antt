-- ===== src/Adapter/World.antt =====
-- src/dokan_impl/adapter/adapter_state.rs: the state that the adapter's methods share. Each method
-- holds the lock of the file system while it runs; no lock is poisoned.
use confuse.Common.{ℕ, ◌+◌, ◌%◌, ◌^◌, Bool, false, Option, none, List}
use confuse.Common.Int.{ℤ}
use confuse.Common.Text.{Text}
use confuse.Resolver.State.{PathResolver}
use confuse.Adapter.Calls.{RequestIds, Request}

pub record AdapterContext : Type 0 where
  pub fh : ℕ
  pub flags : ℕ
  pub ino : ℕ
  pub is_dir : Bool
  pub lock_owner : Option ℕ
  pub request_ids : RequestIds

-- `INVALID_UID_GID`
abbrev pub invalid_uid_gid : ℕ
invalid_uid_gid = 0xffff_ffff

abbrev pub unavailable : ℕ → RequestIds
unavailable pid = record { uid = invalid_uid_gid; gid = invalid_uid_gid; pid = pid }

abbrev pub default_context : AdapterContext
default_context = record {
  fh = 0;
  flags = 0;
  ino = 0;
  is_dir = false;
  lock_owner = none;
  request_ids = unavailable 0;
}

-- The adapter, with the state of the mounted file system and the counter of requests.
pub record DokanAdapter (S : Type 0) : Type 0 where
  pub fs : S
  pub handles : List (Text × AdapterContext)
  pub resolver : PathResolver
  pub dir_offsets : List (Text × ℤ)
  pub volume_name : Text
  pub fs_name : Text
  pub volume_flags : ℕ
  pub destroyed : Bool
  pub next_unique : ℕ

-- `request_from_ids`: a request with a number of its own.
unfoldable pub request_from_ids :
    {S : Type 0} → RequestIds → DokanAdapter S → Request × DokanAdapter S
request_from_ids ids w = (
  record { unique = w.next_unique; uid = ids.uid; gid = ids.gid; pid = ids.pid },
  record w { next_unique = (w.next_unique + 1) % 2 ^ 64 },
)
