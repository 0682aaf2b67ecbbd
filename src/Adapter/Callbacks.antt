-- ===== src/Adapter/Callbacks.antt =====
-- The adapter of a session (`run` of src/fuser_facade/session.rs), and sequences of the callbacks of
-- src/dokan_impl/adapter/handler_methods on it. Each callback holds the lock of the file system
-- while it runs, so callbacks of several threads follow one another.
use confuse.Common.{ℕ, Bool, false, Option, List, [], ◌∷◌}
use confuse.Common.Int.{ℤ}
use confuse.Common.Text.{Text}
use confuse.Facade.Types.{MountOption}
use confuse.Resolver.State.{Env, default}
use confuse.Helpers.Volume.{derive_volume_names, derive_volume_flags}
use confuse.Adapter.Calls.{RequestIds, Filesystem}
use confuse.Adapter.World.{AdapterContext, DokanAdapter}
use confuse.Adapter.Create.{create_file_impl}
use confuse.Adapter.Handlers.Dispatch.{
  delete_file, delete_directory, move_file, cleanup, close_file, flush_file_buffers,
}
use confuse.Adapter.Handlers.Metadata.{
  FileTimeOperation, set_end_of_file, set_allocation_size, set_file_attributes, set_file_time,
  read_file, write_file, get_file_information,
}
use confuse.Adapter.Handlers.Locks.{lock_file, unlock_file, get_disk_free_space}
use confuse.Adapter.Handlers.Security.{DokanBuffer, get_file_security, set_file_security}
use confuse.Adapter.Handlers.Streams.{FindStreamData, find_streams}
use confuse.Adapter.Handlers.Directory.{FindData, find_files, find_files_with_pattern}

unfoldable pub new_adapter : {S : Type 0} → S → List MountOption → DokanAdapter S
new_adapter fs mount_options = record {
  fs = fs;
  handles = [];
  resolver = default;
  dir_offsets = [];
  volume_name = (derive_volume_names mount_options).0;
  fs_name = (derive_volume_names mount_options).1;
  volume_flags = derive_volume_flags mount_options;
  destroyed = false;
  next_unique = 1;
}

pub data Callback : Type 0 where
  creates : Text → ℕ → ℕ → ℕ → ℕ → RequestIds → Callback
  deletes deletes_directory : Text → AdapterContext → Callback
  moves : Text → Text → Bool → AdapterContext → Callback
  cleans : Bool → Text → AdapterContext → Callback
  closes flushes : Text → AdapterContext → Callback
  sets_end : Text → ℤ → AdapterContext → Callback
  allocates : Text → ℤ → AdapterContext → Callback
  sets_attributes : Text → ℕ → AdapterContext → Callback
  sets_time :
      Text → FileTimeOperation → FileTimeOperation → FileTimeOperation → AdapterContext → Callback
  reads : Text → ℤ → ℕ → AdapterContext → Callback
  writes : Text → ℤ → List ℕ → Bool → Bool → AdapterContext → Callback
  asks_information : Text → AdapterContext → Callback
  locks unlocks : Text → ℤ → ℤ → AdapterContext → Callback
  gets_security : Text → DokanBuffer → AdapterContext → Callback
  sets_security : Text → List ℕ → AdapterContext → Callback
  finds_streams :
      (List ℕ → Option Text) → (List FindStreamData → Bool) → Text → AdapterContext → Callback
  finds_files : (List FindData → Bool) → (Text → Text → Bool) → Text → AdapterContext → Callback
  finds_pattern :
      (List FindData → Bool) → (Text → Text → Bool) → Text → Text → AdapterContext → Callback
  asks_space : RequestIds → Callback

module _ {S : Type 0} (F : Filesystem S) (env : Env) where
  -- The state after a callback, whatever it returns.
  unfoldable pub perform : Callback → DokanAdapter S → DokanAdapter S
  perform (creates name access attributes disposition options ids) w =
      (create_file_impl F env name access attributes disposition options ids w).1
  perform (deletes name context) w = (delete_file F env name context w).1
  perform (deletes_directory name context) w = (delete_directory F env name context w).1
  perform (moves name new_name replace context) w =
      (move_file F env name new_name replace context w).1
  perform (cleans delete_on_close name context) w = (cleanup F env delete_on_close name context w).1
  perform (closes name context) w = (close_file F env name context w).1
  perform (flushes name context) w = (flush_file_buffers F env name context w).1
  perform (sets_end name offset context) w = (set_end_of_file F env name offset context w).1
  perform (allocates name size context) w = (set_allocation_size F env name size context w).1
  perform (sets_attributes name attributes context) w =
      (set_file_attributes F env name attributes context w).1
  perform (sets_time name created accessed written context) w =
      (set_file_time F env name created accessed written context w).1
  perform (reads name offset size context) w = (read_file F env name offset size context w).1
  perform (writes name offset buffer to_eof paging context) w =
      (write_file F env name offset buffer to_eof paging context w).1
  perform (asks_information name context) w = (get_file_information F env name context w).1
  perform (locks name offset length context) w = (lock_file F env name offset length context w).1
  perform (unlocks name offset length context) w =
      (unlock_file F env name offset length context w).1
  perform (gets_security name buffer context) w = (get_file_security F env name buffer context w).1
  perform (sets_security name descriptor context) w =
      (set_file_security F env name descriptor context w).1
  perform (finds_streams from_utf8 refuses name context) w =
      (find_streams F env from_utf8 refuses name context w).1
  perform (finds_files refuses matches name context) w =
      (find_files F env refuses matches name context w).1
  perform (finds_pattern refuses matches name pattern context) w =
      (find_files_with_pattern F env refuses matches name pattern context w).1
  perform (asks_space ids) w = (get_disk_free_space F env ids w).1

  unfoldable pub perform_all : List Callback → DokanAdapter S → DokanAdapter S
  unfolding perform
  perform_all [] w = w
  perform_all (c ∷ cs) w = perform_all cs (perform c w)
