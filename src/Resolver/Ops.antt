-- ===== src/Resolver/Ops.antt =====
-- src/dokan_impl/adapter/state.rs: the operations of `PathResolver` on its two tables.
use confuse.Common.{
  ℕ, ◌+◌, ◌&&◌, ◌||◌, not, Option, none, some, List, [], ◌∷◌, ◌++◌, ◌==◌, ltb, if◌then◌else◌,
  Result, ok, err, saturating_add,
}
use confuse.Common.Text.{Text, text_eq}
use confuse.Common.Assoc.{get, remove, insert}
use confuse.Facade.Errno.{enoent}
use confuse.Facade.Types.{ReplyEntryPayload}
use confuse.Resolver.State.{
  Env, PositivePathRecord, ResolvedEntry, PositiveEntry, PathCacheEntry, positive, negative,
  InodeState, PathResolver, update, now, tick,
}
use confuse.Resolver.Path.{root_path, normalize_path}
use confuse.Resolver.Refs.{retain_live_inodes, release_outstanding, increment_outstanding_lookup}

abbrev pub Cached : Type 0
Cached = Option (Result ResolvedEntry ℕ)

-- `self.paths.remove(&key)`, the removed entry dropped.
unfoldable pub drop_path : Text → PathResolver → PathResolver
drop_path key r = record r { paths = remove key r.paths }

-- The release of a removed entry's lookups, where it had any.
unfoldable pub release_entry : Env → Option PathCacheEntry → PathResolver → PathResolver
release_entry env (some (positive e)) r = release_outstanding env e.outstanding r
release_entry env (some (negative e)) r = r
release_entry env none r = r

-- The arms of the match of `cached` on the entry that was found, at the time `t`.
unfoldable pub cached_at :
    Env → Text → ℕ → ℕ → ℕ → Option PathCacheEntry → PathResolver → Cached × PathResolver
unfolding drop_path
cached_at env key parent parent_generation t none r = (none, r)
cached_at env key parent parent_generation t (some (positive e)) r =
    if ltb t e.entry_expires
    then if not (e.parent == parent) || not (e.parent_generation == parent_generation)
      then (none, release_outstanding env e.outstanding (drop_path key r))
      else elim (r.inodes e.ino) [
        | none ↦ (none, r)
        | some s ↦ (some (ok (record { ino = e.ino; generation = e.generation })), r)
      ]
    else (none, release_outstanding env e.outstanding (drop_path key r))
cached_at env key parent parent_generation t (some (negative e)) r =
    if ltb t e.expires && (e.parent == parent) && (e.parent_generation == parent_generation)
    then (some (err enoent), r)
    else (none, drop_path key r)

unfoldable pub cached : Env → Text → ℕ → ℕ → PathResolver → Cached × PathResolver
unfolding cached_at normalize_path
cached env path parent parent_generation r =
    let key = normalize_path env path in
    if text_eq key root_path
    then (none, r)
    else cached_at env key parent parent_generation (now env r) (get key r.paths) (tick r)

-- `take_reusable_outstanding`, with what `paths.remove(key)` returned.
unfoldable pub reusable :
    Env → ℕ → ℕ → Option PathCacheEntry → PathResolver → List (ℕ × ℕ) × PathResolver
reusable env ino ttl none r = ([], r)
reusable env ino ttl (some (negative e)) r = ([], r)
reusable env ino ttl (some (positive e)) r =
    if (e.ino == ino) && not (ttl == 0)
    then (e.outstanding, r)
    else ([], release_outstanding env e.outstanding r)

unfoldable pub take_reusable_outstanding :
    Env → Text → ℕ → ℕ → PathResolver → List (ℕ × ℕ) × PathResolver
unfolding reusable drop_path
take_reusable_outstanding env key ino ttl r =
    reusable env ino ttl (get key r.paths) (drop_path key r)

unfoldable pub store_positive_path_entry :
    Env → Text → PositivePathRecord → List (ℕ × ℕ) → PathResolver → PathResolver
store_positive_path_entry env key rec outstanding r =
    let entry : PositiveEntry = record {
      parent = rec.parent;
      parent_generation = rec.parent_generation;
      name = rec.name;
      ino = rec.attr.ino;
      generation = rec.generation;
      entry_expires = now env r + rec.ttl;
      outstanding = outstanding;
    } in
    tick (record r { paths = insert key (positive entry) r.paths })

-- `and_modify` and `or_insert` of `remember_positive_inode`.
unfoldable pub counted_inode : PositivePathRecord → Option InodeState → InodeState
counted_inode rec none = record {
  attr = rec.attr;
  generation = rec.generation;
  lookup_refcount = 1;
  attr_expires = none;
}
counted_inode rec (some s) = record s {
  attr = elim s.attr_expires [ none ↦ rec.attr | some e ↦ s.attr ];
  generation = rec.generation;
  lookup_refcount = saturating_add s.lookup_refcount 1;
}

unfoldable pub remember_positive_inode : PositivePathRecord → PathResolver → PathResolver
unfolding counted_inode
remember_positive_inode rec r = record r {
  inodes = update r.inodes rec.attr.ino (counted_inode rec (r.inodes rec.attr.ino));
}

-- `self.pending_forgets.push((ino, 1))`
unfoldable pub queue_forget : ℕ → PathResolver → PathResolver
queue_forget ino r = record r { pending_forgets = r.pending_forgets ++ (ino, 1) ∷ [] }

-- The two branches of `remember_positive`, on the lookups taken over from the old entry.
unfoldable pub store_positive :
    Env → Text → PositivePathRecord → List (ℕ × ℕ) × PathResolver → PathResolver
unfolding store_positive_path_entry remember_positive_inode queue_forget
store_positive env key rec (outstanding, r) =
    if not (rec.ttl == 0)
    then remember_positive_inode rec (
        store_positive_path_entry env key rec
          (increment_outstanding_lookup rec.attr.ino outstanding) r)
    else retain_live_inodes env (queue_forget rec.attr.ino (release_outstanding env outstanding r))

unfoldable pub remember_positive :
    Env → PositivePathRecord → PathResolver → ResolvedEntry × PathResolver
unfolding store_positive take_reusable_outstanding
remember_positive env rec r =
    let key = normalize_path env rec.path in
    (
      record { ino = rec.attr.ino; generation = rec.generation },
      store_positive env key rec (take_reusable_outstanding env key rec.attr.ino rec.ttl r),
    )

unfoldable pub remember_lookup :
    Env → Text → ℕ → ℕ → Text → ReplyEntryPayload → PathResolver → ResolvedEntry × PathResolver
unfolding remember_positive
remember_lookup env path parent parent_generation name payload r =
    remember_positive env
      (record {
        path = path;
        parent = parent;
        parent_generation = parent_generation;
        name = name;
        attr = payload.attr;
        generation = payload.generation;
        ttl = payload.ttl;
      })
      r
