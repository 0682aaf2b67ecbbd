-- ===== src/Tests/AdapterRuns.antt =====
-- Runs of the adapter on the counting file system, and its theorems at concrete states.
use confuse.Common.{
  Bool, none, ℕ, ◌+◌, ◌≤◌, ◌≡◌, refl, ◌⊎◌, true, false, List, [], ◌∷◌, ◌++◌, ok, arith, ltb, length,
}
use confuse.Common.Int.{pos}
use confuse.Common.Text.{Text, text_eq}
use confuse.Facade.Types.{DirectoryPlusEntryPayload}
use confuse.Helpers.Names.{join_child_path}
use confuse.Resolver.State.{balance, refcount, default, count_of}
use confuse.Resolver.Accounts.{default-IsAccounted}
use confuse.Resolver.Path.{dot}
use confuse.Adapter.Handlers.Streams.{has_nul}
use confuse.Adapter.Operations.{clip_write, write_start, size_of_reply, dokan_write_plan}
use confuse.Adapter.Monad.{pure, of_result, ask, ◌>>=◌}
use confuse.Adapter.Paths.{call, resolve_path_ino}
use confuse.Adapter.Ledger.{entries_of, Settles, IsSettled, is_dots, dots_of, counted_of}
use confuse.Adapter.Handlers.Directory.{FindData, emit_readdirplus_pattern_entries}
use confuse.Adapter.Settled.Listing.{unread, emit_readdirplus_pattern_entries-Settles}
use confuse.Adapter.World.{default_context, DokanAdapter}
use confuse.Adapter.Walk.{resolve_path_ino-IsSettled}
use confuse.Adapter.Planning.{reported_size, dokan_write_plan-within}
use confuse.Adapter.Keeps.{Keeps}
use confuse.Adapter.Create.{create_file_impl}
use confuse.Adapter.Settled.Create.{create_file_impl-Keeps}
use confuse.Adapter.Callbacks.{new_adapter, Callback, creates, writes, closes, finds_pattern}
use confuse.Adapter.Balanced.{new_adapter-IsSettled}
use confuse.Tests.Data.{
  entry_a, Tally, test_env, path_a, path_b, ids, request, counting, counting-Counts,
}

abbrev refuses_all : List FindData → Bool
refuses_all given = true

abbrev matches_all : Text → Text → Bool
matches_all pattern name = true

abbrev untouched : Tally
untouched = (0, λ i. 0)

-- Open `\a`, write to it, list it by a pattern, close it, and open `\a\b`.
abbrev session : List Callback
session =
    creates path_a 3 0 1 0 ids
    ∷ writes path_a (pos 8) (1 ∷ 2 ∷ 3 ∷ []) false false
        (record default_context { ino = 7; fh = 5 })
    ∷ finds_pattern refuses_all matches_all path_a path_b
        (record default_context { ino = 7; fh = 5 })
    ∷ closes path_a (record default_context { ino = 7; fh = 5 })
    ∷ creates (path_a ++ path_b) 1 0 1 0 ids
    ∷ []

fresh-IsSettled : IsSettled counting-Counts (new_adapter untouched [])
unfolding counting-Counts
fresh-IsSettled = new_adapter-IsSettled test_env counting-Counts untouched [] (λ i. ground arith)

resolve_path_ino-IsSettled_example :
    IsSettled counting-Counts
      (resolve_path_ino counting test_env request (path_a ++ path_b) (new_adapter untouched [])).1
resolve_path_ino-IsSettled_example =
    resolve_path_ino-IsSettled test_env counting-Counts request (path_a ++ path_b)
      (new_adapter untouched []) fresh-IsSettled

create_file_impl-Keeps_example :
    Keeps counting-Counts (create_file_impl counting test_env path_a 3 0 3 0 ids)
create_file_impl-Keeps_example = create_file_impl-Keeps test_env counting-Counts path_a 3 0 3 0 ids

-- The file has 10 bytes: of 5 bytes at offset 8, the pager writes 2.
dokan_write_plan-within_example :
    (2 ≤ 5)
    × (true ≡ true
        → (size : ℕ) × (reported_size counting test_env request default_context
              (new_adapter untouched [])
            ≡ ok size)
          × ((◌≡◌ {A = ℕ} 2 0) ⊎ (8 + 2 ≤ size)))
    × (false ≡ true
        → reported_size counting test_env request default_context (new_adapter untouched []) ≡ ok 8)
unfolding dokan_write_plan counting ◌>>=◌ ask of_result size_of_reply call write_start pure
    clip_write
dokan_write_plan-within_example =
    dokan_write_plan-within counting test_env request default_context (pos 8) 5 false true
      (new_adapter untouched []) 8 2 refl

-- Two open paths below `\a`, which moves to `\b`.
abbrev open_offsets : List (Text × ℕ)
open_offsets = (path_a, 4) ∷ (path_a ++ path_b, 5) ∷ []

-- The entry "." of the file with inode 7, and two that have a name; Dokan refuses the second.
abbrev entry_dot : DirectoryPlusEntryPayload
entry_dot = record entry_a { name = dot }

abbrev refuses_second : List FindData → Bool
refuses_second given = ltb 1 (length given)

abbrev entries : List DirectoryPlusEntryPayload
entries = entry_dot ∷ entry_a ∷ entry_a ∷ []

abbrev granted_two : DokanAdapter Tally
granted_two = new_adapter (2, λ i. 0) []

granted-Settles : Settles counting-Counts (λ i. counted_of i entries) granted_two
unfolding counting-Counts balance new_adapter default refcount count_of is_dots text_eq
granted-Settles = record { owes = λ i. ground arith; accounted = default-IsAccounted }

emit_readdirplus_pattern_entries-Settles_example :
    let w =
      (emit_readdirplus_pattern_entries counting test_env refuses_second matches_all request path_a
        path_b 1 entries [] none granted_two).1 in
    counting-Counts.given w.fs 7 + dots_of 7 entries
    ≡ counting-Counts.taken w.fs 7
      + balance w.resolver 7
      + entries_of 7 (unread refuses_second matches_all path_a path_b entries [])
unfolding counting-Counts is_dots text_eq
emit_readdirplus_pattern_entries-Settles_example =
    emit_readdirplus_pattern_entries-Settles test_env counting-Counts refuses_second matches_all
      request path_a path_b 1 entries none granted_two (λ s i. ground arith) granted-Settles 7

one_unread : unread refuses_second matches_all path_a path_b entries [] ≡ entry_a ∷ []
unfolding has_nul join_child_path
one_unread = refl
