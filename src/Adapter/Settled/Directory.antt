-- ===== src/Adapter/Settled/Directory.antt =====
-- src/dokan_impl/adapter/directory_routes.rs: the counts of lookups after listing a directory.
use confuse.Common.{ℕ, Bool, Option, List, [], ◌∷◌, ok, err}
use confuse.Common.Int.{ℤ}
use confuse.Common.Text.{Text}
use confuse.Facade.Types.{DirectoryEntryPayload}
use confuse.Resolver.State.{Env}
use confuse.Adapter.Calls.{Request, Reply, Filesystem}
use confuse.Adapter.World.{AdapterContext, DokanAdapter}
use confuse.Adapter.Ledger.{Counts}
use confuse.Adapter.Monad.{modify}
use confuse.Adapter.Keeps.{Keeps, keeps_rules}
use confuse.Adapter.Handlers.Directory.{
  FindData, Emission, remember_directory_offset, inspect, directory_ino, readdir_entry_attr,
  emit_readdir_entries, emit_readdir_pattern_entries, finish_listing, find_files, find_by_readdir,
}

module _ {S : Type 0} {F : Filesystem S} (env : Env) (counts : Counts F)
    (refuses : List FindData → Bool) (matches : Text → Text → Bool) where
  inspect-Keeps : {A : Type 0} (f : DokanAdapter S → A) → Keeps counts (inspect f)
  unfolding inspect
  inspect-Keeps f = record { settled = λ w h. h }

  pub directory_ino-Keeps :
      (req : Request) (path_key : Text) (context : AdapterContext)
      → Keeps counts (directory_ino F env refuses matches req path_key context)
  unfolding directory_ino
  directory_ino-Keeps req path_key context = search keeps_rules

  readdir_entry_attr-Keeps :
      (req : Request) (ino : ℕ) → Keeps counts (readdir_entry_attr F env refuses matches req ino)
  unfolding readdir_entry_attr
  readdir_entry_attr-Keeps req ino = search keeps_rules

  emit_readdir_entries-Keeps :
      (req : Request) (entries : List DirectoryEntryPayload) (given : List FindData)
      (emitted_offset : Option ℤ)
      → Keeps counts (emit_readdir_entries F env refuses matches req entries given emitted_offset)
  unfolding emit_readdir_entries
  emit_readdir_entries-Keeps req [] given emitted_offset = search keeps_rules
  emit_readdir_entries-Keeps req (entry ∷ entries) given emitted_offset =
      let rest = emit_readdir_entries-Keeps req entries in
      search (keeps_rules, readdir_entry_attr-Keeps, rest) depth 8

  emit_readdir_pattern_entries-Keeps :
      (req : Request) (pattern : Text) (entries : List DirectoryEntryPayload)
      (given : List FindData) (emitted_offset : Option ℤ)
      → Keeps counts (
          emit_readdir_pattern_entries F env refuses matches req pattern entries given
            emitted_offset)
  unfolding emit_readdir_pattern_entries
  emit_readdir_pattern_entries-Keeps req pattern [] given emitted_offset = search keeps_rules
  emit_readdir_pattern_entries-Keeps req pattern (entry ∷ entries) given emitted_offset =
      let rest = emit_readdir_pattern_entries-Keeps req pattern entries in
      search (keeps_rules, readdir_entry_attr-Keeps, rest) depth 8

  remember_offset-Keeps :
      (path_key : Text) (req_offset : ℤ) (emitted_offset : Option ℤ)
      → Keeps counts (modify (remember_directory_offset path_key req_offset emitted_offset))
  unfolding modify remember_directory_offset
  remember_offset-Keeps path_key req_offset emitted_offset = record {
    settled = λ w h. record { owes = h.owes; accounted = h.accounted };
  }

  pub finish_listing-Keeps :
      (path_key : Text) (req_offset : ℤ) (status : Reply (Unit {0})) (emission : Emission)
      → Keeps counts (finish_listing F env refuses matches path_key req_offset status emission)
  unfolding finish_listing
  finish_listing-Keeps path_key req_offset status (given, ok emitted_offset) =
      search (keeps_rules, remember_offset-Keeps)
  finish_listing-Keeps path_key req_offset status (given, err e) = search keeps_rules

  pub find_files-Keeps :
      (file_name : Text) (context : AdapterContext)
      → Keeps counts (find_files F env refuses matches file_name context)
  unfolding find_files
  find_files-Keeps file_name context =
      search
        (
          keeps_rules, inspect-Keeps, directory_ino-Keeps, emit_readdir_entries-Keeps,
          finish_listing-Keeps,
        )
        depth 16

  pub find_by_readdir-Keeps :
      (req : Request) (file_name pattern : Text) (ino fh : ℕ) (req_offset : ℤ)
      → Keeps counts (find_by_readdir F env refuses matches req file_name pattern ino fh req_offset)
  unfolding find_by_readdir
  find_by_readdir-Keeps req file_name pattern ino fh req_offset =
      search (keeps_rules, emit_readdir_pattern_entries-Keeps, finish_listing-Keeps) depth 16
