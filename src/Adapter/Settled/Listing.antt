-- ===== src/Adapter/Settled/Listing.antt =====
-- src/dokan_impl/adapter/directory_routes.rs: the lookups that `readdirplus` grants.
use confuse.Common.{
  ◌+◌, ◌≤◌, ◌≡◌, arith, u64_max, ℕ, inl, inr, Bool, not, Option, some, List, [], ◌∷◌, ◌++◌,
  if◌then◌else◌, Bool-cases,
}
use confuse.Common.Int.{ℤ, as_i64}
use confuse.Common.Text.{Text}
use confuse.Facade.Types.{DirectoryPlusEntryPayload}
use confuse.Resolver.State.{Env, balance}
use confuse.Helpers.Names.{join_child_path}
use confuse.Adapter.Calls.{Request, Filesystem}
use confuse.Adapter.World.{DokanAdapter}
use confuse.Adapter.Paths.{remember_created_path}
use confuse.Adapter.Ledger.{
  entries_of, dots_of, counted_of, dots-counted, Counts, Settles, moved_counts,
}
use confuse.Adapter.Monad.{modify, pure, ◌>>=◌, ◌>>◌, and_then}
use confuse.Adapter.Walk.{remember_created_path-Settles}
use confuse.Adapter.Handlers.Streams.{has_nul}
use confuse.Adapter.Handlers.Directory.{
  FindData, plus_data, created_path, emit_readdirplus_pattern_entries,
}

-- The entries behind the one at which the loop stops; at a path with a zero, that one too.
abbrev pub unread :
    (List FindData → Bool)
    → (Text → Text → Bool)
    → Text
    → Text
    → List DirectoryPlusEntryPayload
    → List FindData
    → List DirectoryPlusEntryPayload
unread refuses matches file_name pattern [] given = []
unread refuses matches file_name pattern (entry ∷ entries) given =
    let given' = given ++ (plus_data entry ∷ []) in
    if has_nul (join_child_path file_name entry.name)
    then entry ∷ entries
    else (if has_nul entry.name
        then entries
        else (if not (matches pattern entry.name)
            then unread refuses matches file_name pattern entries given
            else (if refuses given'
                then entries
                else unread refuses matches file_name pattern entries given')))

module _ {S : Type 0} {F : Filesystem S} (env : Env) (counts : Counts F)
    (refuses : List FindData → Bool) (matches : Text → Text → Bool) where
  -- The loop, from the lookups of all its entries in hand.
  pub emit_readdirplus-Settles :
      (req : Request) (file_name pattern : Text) (ino : ℕ)
      (entries : List DirectoryPlusEntryPayload) (given : List FindData) (emitted_offset : Option ℤ)
      (w : DokanAdapter S)
      → Settles counts (λ i. entries_of i entries) w
      → Settles counts
          (λ i. entries_of i (unread refuses matches file_name pattern entries given))
          (emit_readdirplus_pattern_entries F env refuses matches req file_name pattern ino entries
            given emitted_offset w).1
  unfolding emit_readdirplus_pattern_entries pure modify ◌>>◌ ◌>>=◌ and_then
  emit_readdirplus-Settles req file_name pattern ino [] given emitted_offset w h = h
  emit_readdirplus-Settles req file_name pattern ino (entry ∷ entries) given emitted_offset w h =
      let w' = remember_created_path F env req (created_path file_name ino entry) w in
      let h' : Settles counts (λ i. entries_of i entries) w' =
        remember_created_path-Settles env counts req (created_path file_name ino entry) w h in
      let given' = given ++ (plus_data entry ∷ []) in
      elim (Bool-cases (has_nul (join_child_path file_name entry.name))) [
        | inl a ↦ rw a h
        | inr a ↦ elim (Bool-cases (has_nul entry.name)) [
          | inl b ↦ rw (a, b) h'
          | inr b ↦ elim (Bool-cases (matches pattern entry.name)) [
            | inr c ↦
                rw (a, b, c)
                  (emit_readdirplus-Settles req file_name pattern ino entries given emitted_offset
                    w' h')
            | inl c ↦ elim (Bool-cases (refuses given')) [
              | inl d ↦ rw (a, b, c, d) h'
              | inr d ↦
                  rw (a, b, c, d)
                    (emit_readdirplus-Settles req file_name pattern ino entries given'
                      (some (as_i64 entry.offset)) w' h')
            ]
          ]
        ]
      ]

module _ {S : Type 0} {F : Filesystem S} (env : Env) (counts : Counts F)
    (refuses : List FindData → Bool) (matches : Text → Text → Bool) where
  -- For a file system that holds no more lookups than a `u64` does with one more for each entry "."
  -- and "..", and that has granted lookups for the other entries of a listing only: of each
  -- inode, what was granted and one for each entry "." and ".." is, behind the loop, what was
  -- given back, what the resolver answers for, and one for each entry behind the one at which the
  -- loop stopped. So entries that are not read leak, and for those "." and ".." that are read the
  -- resolver answers for lookups that were never granted.
  pub emit_readdirplus_pattern_entries-Settles :
      (req : Request) (file_name pattern : Text) (ino : ℕ)
      (entries : List DirectoryPlusEntryPayload) (emitted_offset : Option ℤ) (w : DokanAdapter S)
      → ((s : S) (i : ℕ) → counts.given s i + dots_of i entries ≤ counts.taken s i + u64_max)
      → Settles counts (λ i. counted_of i entries) w
      → (i : ℕ)
      → let w' =
          (emit_readdirplus_pattern_entries F env refuses matches req file_name pattern ino entries
            [] emitted_offset w).1 in
        counts.given w'.fs i + dots_of i entries
        ≡ counts.taken w'.fs i
          + balance w'.resolver i
          + entries_of i (unread refuses matches file_name pattern entries [])
  emit_readdirplus_pattern_entries-Settles req file_name pattern ino entries emitted_offset w room h
        i =
      let more =
        moved_counts counts (λ i. dots_of i entries) (λ i. 0) (λ s i. omega (arith, room s i)) in
      let all : Settles more (λ i. entries_of i entries) w = record {
        owes = λ i. omega (arith, h.owes i, dots-counted i entries);
        accounted = h.accounted;
      } in
      let after =
        emit_readdirplus-Settles env more refuses matches req file_name pattern ino entries []
          emitted_offset w all in
      omega (arith, after.owes i)
