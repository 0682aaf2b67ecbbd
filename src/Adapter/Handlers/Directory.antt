-- ===== src/Adapter/Handlers/Directory.antt =====
-- src/dokan_impl/adapter/directory_routes.rs, and the callbacks that list a directory
-- (handler_methods/dispatch.rs). Dokan's function that takes an entry is `refuses`: whether it refuses
-- the last of those that it has been handed; `matches` is `dokan::is_name_in_expression`.
use confuse.Common.{
  ℕ, Bool, false, Option, none, some, List, [], ◌∷◌, ◌++◌, not, ◌==◌, if◌then◌else◌, Result, ok,
  err,
}
use confuse.Common.Int.{ℤ, pos, as_i64, max_zero}
use confuse.Common.Text.{Text}
use confuse.Common.Assoc.{get, insert}
use confuse.Facade.Errno
use confuse.Facade.Types.{
  FileAttr, ReplyAttrPayload, DirectoryEntryPayload, DirectoryPlusEntryPayload,
}
use confuse.Resolver.State.{Env}
use confuse.Helpers.Codes.{
  NtStatus, not_implemented, filetype_to_windows_attr, find_files_attr_from_kind_and_perm,
}
use confuse.Helpers.Names.{join_child_path}
use confuse.Helpers.Ranges.{advance_offset_on_emitted}
use confuse.Adapter.Calls.{Request, Reply, Filesystem, getattr, readdir, readdirplus}
use confuse.Adapter.World.{AdapterContext, DokanAdapter}
use confuse.Adapter.Paths.{CreatedPath, resolve_path_ino, remember_created_path}
use confuse.Adapter.Monad.{
  M, ◌>>=◌, ◌>>◌, pure, or_status, reply_result, modify, new_request, ask, drain,
}
use confuse.Adapter.Handlers.Streams.{has_nul}

-- `dokan::FindData`; the start of the Unix epoch is time zero.
pub record FindData : Type 0 where
  pub attributes : ℕ
  pub creation_time : ℕ
  pub last_access_time : ℕ
  pub last_write_time : ℕ
  pub file_size : ℕ
  pub file_name : Text

-- What Dokan was handed, and the offset of the last entry that it took.
abbrev pub Emission : Type 0
Emission = List FindData × Result (Option ℤ) NtStatus

unfoldable pub attr_if_ok : Reply ReplyAttrPayload → Option FileAttr
attr_if_ok (some (ok payload)) = some payload.attr
attr_if_ok (some (err e)) = none
attr_if_ok none = none

unfoldable pub plain_data : DirectoryEntryPayload → Option FileAttr → FindData
plain_data entry attr = record {
  attributes =
      find_files_attr_from_kind_and_perm entry.kind
        (elim attr [ none ↦ none | some a ↦ some a.perm ]);
  creation_time = 0;
  last_access_time = 0;
  last_write_time = 0;
  file_size = 0;
  file_name = entry.name;
}

unfoldable pub pattern_data : DirectoryEntryPayload → Option FileAttr → FindData
pattern_data entry none = record {
  attributes = find_files_attr_from_kind_and_perm entry.kind none;
  creation_time = 0;
  last_access_time = 0;
  last_write_time = 0;
  file_size = 0;
  file_name = entry.name;
}
pattern_data entry (some attr) = record {
  attributes = find_files_attr_from_kind_and_perm entry.kind (some attr.perm);
  creation_time = attr.ctime;
  last_access_time = attr.atime;
  last_write_time = attr.mtime;
  file_size = attr.size;
  file_name = entry.name;
}

unfoldable pub plus_data : DirectoryPlusEntryPayload → FindData
plus_data entry = record {
  attributes = filetype_to_windows_attr entry.attr.kind entry.attr.perm;
  creation_time = entry.attr.ctime;
  last_access_time = entry.attr.atime;
  last_write_time = entry.attr.mtime;
  file_size = entry.attr.size;
  file_name = entry.name;
}

unfoldable pub created_path : Text → ℕ → DirectoryPlusEntryPayload → CreatedPath
created_path file_name ino entry = record {
  path = join_child_path file_name entry.name;
  parent = ino;
  name = entry.name;
  attr = entry.attr;
  generation = entry.generation;
  ttl = entry.ttl;
}

unfoldable pub is_enosys : Reply (Unit {0}) → Bool
is_enosys (some (err e)) = e == Errno.enosys
is_enosys _ = false

unfoldable pub directory_offset : {S : Type 0} → Text → DokanAdapter S → ℤ
unfolding get
directory_offset path_key w = elim (get path_key w.dir_offsets) [ some o ↦ o | none ↦ pos 0 ]

unfoldable pub remember_directory_offset :
    {S : Type 0} → Text → ℤ → Option ℤ → DokanAdapter S → DokanAdapter S
unfolding insert
remember_directory_offset path_key req_offset emitted_offset w = record w {
  dir_offsets = insert path_key (advance_offset_on_emitted req_offset emitted_offset) w.dir_offsets;
}

-- A reading of the state.
unfoldable pub inspect : {S A : Type 0} → (DokanAdapter S → A) → M S A
inspect f w = (ok (f w), w)

module _ {S : Type 0} (F : Filesystem S) (env : Env) (refuses : List FindData → Bool)
    (matches : Text → Text → Bool) where
  unfoldable pub directory_ino : Request → Text → AdapterContext → M S ℕ
  directory_ino req path_key context =
      if not (context.ino == 0)
      then pure context.ino
      else or_status (resolve_path_ino F env req path_key)

  unfoldable pub readdir_entry_attr : Request → ℕ → M S (Option FileAttr)
  unfolding attr_if_ok
  readdir_entry_attr req ino =
      ask F env (getattr req ino none) >>= (λ reply. pure (attr_if_ok reply))

  -- The loops, from what Dokan has been handed and the offset of the last entry that it took.
  unfoldable pub emit_readdir_entries :
      Request → List DirectoryEntryPayload → List FindData → Option ℤ → M S Emission
  unfolding readdir_entry_attr plain_data has_nul
  emit_readdir_entries req [] given emitted_offset = pure (given, ok emitted_offset)
  emit_readdir_entries req (entry ∷ entries) given emitted_offset =
      readdir_entry_attr req entry.ino >>= (λ attr.
        let given' = given ++ (plain_data entry attr ∷ []) in
        if has_nul entry.name
        then pure (given, err not_implemented)
        else (if refuses given'
            then pure (given', ok emitted_offset)
            else emit_readdir_entries req entries given' (some (as_i64 entry.offset))))

  unfoldable pub emit_readdir_pattern_entries :
      Request → Text → List DirectoryEntryPayload → List FindData → Option ℤ → M S Emission
  unfolding readdir_entry_attr pattern_data has_nul
  emit_readdir_pattern_entries req pattern [] given emitted_offset = pure (given, ok emitted_offset)
  emit_readdir_pattern_entries req pattern (entry ∷ entries) given emitted_offset =
      if has_nul entry.name
      then pure (given, err not_implemented)
      else (if not (matches pattern entry.name)
          then emit_readdir_pattern_entries req pattern entries given emitted_offset
          else (readdir_entry_attr req entry.ino >>= (λ attr.
              let given' = given ++ (pattern_data entry attr ∷ []) in
              if refuses given'
              then pure (given', ok emitted_offset)
              else emit_readdir_pattern_entries req pattern entries given'
                  (some (as_i64 entry.offset)))))

  unfoldable pub emit_readdirplus_pattern_entries :
      Request
      → Text
      → Text
      → ℕ
      → List DirectoryPlusEntryPayload
      → List FindData
      → Option ℤ
      → M S Emission
  unfolding created_path plus_data has_nul
  emit_readdirplus_pattern_entries req file_name pattern ino [] given emitted_offset =
      pure (given, ok emitted_offset)
  emit_readdirplus_pattern_entries req file_name pattern ino (entry ∷ entries) given
        emitted_offset =
      if has_nul (join_child_path file_name entry.name)
      then pure (given, err not_implemented)
      else (modify (remember_created_path F env req (created_path file_name ino entry))
          >> (if has_nul entry.name
              then pure (given, err not_implemented)
              else (if not (matches pattern entry.name)
                  then emit_readdirplus_pattern_entries req file_name pattern ino entries given
                      emitted_offset
                  else (let given' = given ++ (plus_data entry ∷ []) in
                      if refuses given'
                      then pure (given', ok emitted_offset)
                      else emit_readdirplus_pattern_entries req file_name pattern ino entries given'
                          (some (as_i64 entry.offset))))))

  -- The end of a listing: an error of the loop is returned first, then that of the reply.
  unfoldable pub finish_listing :
      Text → ℤ → Reply (Unit {0}) → Emission → M S (List FindData × Result (Unit {0}) NtStatus)
  unfolding remember_directory_offset
  finish_listing path_key req_offset status (given, err e) = pure (given, err e)
  finish_listing path_key req_offset status (given, ok emitted_offset) = do
    modify (remember_directory_offset path_key req_offset emitted_offset)
    pure (given, reply_result status)

  unfoldable pub find_files :
      Text → AdapterContext → M S (List FindData × Result (Unit {0}) NtStatus)
  unfolding directory_ino directory_offset inspect emit_readdir_entries finish_listing
  find_files file_name context = do
    req ← new_request context.request_ids
    ino ← directory_ino req file_name context
    req_offset ← inspect (directory_offset file_name)
    reply ← ask F env (readdir req ino context.fh (max_zero req_offset))
    drain F env req
    emission ← emit_readdir_entries req reply.entries [] none
    finish_listing file_name req_offset reply.status emission

  -- The listing by `readdir`, where the file system has no `readdirplus`.
  unfoldable pub find_by_readdir :
      Request → Text → Text → ℕ → ℕ → ℤ → M S (List FindData × Result (Unit {0}) NtStatus)
  unfolding emit_readdir_pattern_entries finish_listing
  find_by_readdir req file_name pattern ino fh req_offset = do
    fallback ← ask F env (readdir req ino fh (max_zero req_offset))
    drain F env req
    emission ← emit_readdir_pattern_entries req pattern fallback.entries [] none
    finish_listing file_name req_offset fallback.status emission

  unfoldable pub find_files_with_pattern :
      Text → Text → AdapterContext → M S (List FindData × Result (Unit {0}) NtStatus)
  unfolding directory_ino directory_offset inspect is_enosys find_by_readdir
      emit_readdirplus_pattern_entries finish_listing
  find_files_with_pattern file_name pattern context = do
    req ← new_request context.request_ids
    ino ← directory_ino req file_name context
    req_offset ← inspect (directory_offset file_name)
    reply ← ask F env (readdirplus req ino context.fh (max_zero req_offset))
    drain F env req
    if is_enosys reply.status
        then find_by_readdir req file_name pattern ino context.fh req_offset
        else (emit_readdirplus_pattern_entries req file_name pattern ino reply.entries [] none
            >>= finish_listing file_name req_offset reply.status)
