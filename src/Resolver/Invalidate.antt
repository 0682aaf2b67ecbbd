-- ===== src/Resolver/Invalidate.antt =====
-- src/dokan_impl/adapter/state.rs: the operations of `PathResolver` that drop cached paths.
use confuse.Common.{
  ℕ, ◌+◌, Bool, ◌&&◌, ◌||◌, Option, none, some, List, [], ◌∷◌, ◌++◌, ◌==◌, leb, if◌then◌else◌,
}
use confuse.Common.Text.{Text, text_eq, starts_with, ends_with}
use confuse.Common.Assoc.{get, insert}
use confuse.Resolver.State.{
  Env, NegativeEntry, PathCacheEntry, positive, negative, PathResolver, now, tick,
  take_pending_forgets,
}
use confuse.Resolver.Path.{backslash, normalize_path}
use confuse.Resolver.Refs.{clear_expiries, retain_live_inodes, release_outstanding}
use confuse.Resolver.Ops.{drop_path, release_entry}

unfoldable pub invalidate_positive_outstanding : Env → List (ℕ × ℕ) → PathResolver → PathResolver
invalidate_positive_outstanding env outstanding r =
    release_outstanding env outstanding (clear_expiries outstanding r)

-- `if let Some(PathCacheEntry::Positive { .. })` on a removed entry: drop the attributes of the
-- inodes that it held, and release them.
unfoldable pub invalidate_removed : Env → Option PathCacheEntry → PathResolver → PathResolver
unfolding invalidate_positive_outstanding
invalidate_removed env (some (positive e)) r = invalidate_positive_outstanding env e.outstanding r
invalidate_removed env (some (negative e)) r = r
invalidate_removed env none r = r

-- `self.paths.remove(&key)` with that.
unfoldable pub invalidate_key : Env → Text → PathResolver → PathResolver
unfolding invalidate_removed drop_path
invalidate_key env key r = invalidate_removed env (get key r.paths) (drop_path key r)

-- The tail of `remember_negative`, behind the removal of the old entry.
unfoldable pub store_negative : Env → Text → ℕ → ℕ → Text → Option ℕ → PathResolver → PathResolver
store_negative env key parent parent_generation name none r = r
store_negative env key parent parent_generation name (some ttl) r =
    let entry : NegativeEntry = record {
      parent = parent;
      parent_generation = parent_generation;
      name = name;
      expires = now env r + ttl;
    } in
    tick (record r { paths = insert key (negative entry) r.paths })

unfoldable pub remember_negative : Env → Text → ℕ → ℕ → Text → PathResolver → PathResolver
unfolding invalidate_key store_negative
remember_negative env path parent parent_generation name r =
    let key = normalize_path env path in
    let dropped = invalidate_key env key r in
    store_negative env key parent parent_generation name dropped.negative_ttl dropped

-- The keys of the entries that pass a test, in the order of iteration.
unfoldable pub matching_keys :
    (Text → PathCacheEntry → Bool) → List (Text × PathCacheEntry) → List Text
matching_keys matches [] = []
matching_keys matches ((k, e) ∷ m) =
    let rest = matching_keys matches m in if matches k e then k ∷ rest else rest

unfoldable pub is_expired : ℕ → Text → PathCacheEntry → Bool
is_expired t key (positive e) = leb e.entry_expires t
is_expired t key (negative e) = leb e.expires t

-- The loop of `reap_expired`.
unfoldable pub reap_each : Env → List Text → PathResolver → PathResolver
unfolding drop_path release_entry
reap_each env [] r = r
reap_each env (key ∷ keys) r =
    reap_each env keys (release_entry env (get key r.paths) (drop_path key r))

unfoldable pub reap_expired : Env → PathResolver → List (ℕ × ℕ) × PathResolver
unfolding reap_each take_pending_forgets matching_keys is_expired
reap_expired env r =
    take_pending_forgets (reap_each env (matching_keys (is_expired (now env r)) r.paths) (tick r))

-- The loop of `invalidate_matching`.
unfoldable pub invalidate_each : Env → List Text → PathResolver → PathResolver
unfolding invalidate_key
invalidate_each env [] r = r
invalidate_each env (key ∷ keys) r = invalidate_each env keys (invalidate_key env key r)

unfoldable pub invalidate_matching :
    Env → (Text → PathCacheEntry → Bool) → PathResolver → List (ℕ × ℕ) × PathResolver
unfolding invalidate_each matching_keys take_pending_forgets
invalidate_matching env matches r =
    let (forgets, r') =
      take_pending_forgets (invalidate_each env (matching_keys matches r.paths) r) in
    (forgets, retain_live_inodes env r')

-- The test of `invalidate_entry` and `invalidate_entry_from_notify`.
unfoldable pub names_child : Env → ℕ → Text → Text → PathCacheEntry → Bool
names_child env parent expected_name key (positive e) =
    (e.parent == parent) && text_eq (env.to_lowercase e.name) expected_name
names_child env parent expected_name key (negative e) =
    (e.parent == parent) && text_eq (env.to_lowercase e.name) expected_name

unfoldable pub invalidate_entry : Env → ℕ → Text → PathResolver → List (ℕ × ℕ) × PathResolver
unfolding invalidate_matching names_child
invalidate_entry env parent name r =
    invalidate_matching env (names_child env parent (env.to_lowercase name)) r

-- The forgets are dropped: `let _ = self.invalidate_matching(..)`.
unfoldable pub invalidate_entry_from_notify : Env → ℕ → Text → PathResolver → PathResolver
unfolding invalidate_matching names_child
invalidate_entry_from_notify env parent name r =
    (invalidate_matching env (names_child env parent (env.to_lowercase name)) r).1

-- The prefix of `invalidate_subtree`, and its test.
unfoldable pub subtree_prefix : Text → Text
unfolding ends_with
subtree_prefix key = if ends_with backslash key then key else key ++ backslash ∷ []

unfoldable pub in_subtree : Text → Text → PathCacheEntry → Bool
unfolding subtree_prefix
in_subtree key candidate entry = text_eq candidate key || starts_with (subtree_prefix key) candidate

unfoldable pub invalidate_subtree : Env → Text → PathResolver → List (ℕ × ℕ) × PathResolver
unfolding invalidate_matching in_subtree
invalidate_subtree env path r = invalidate_matching env (in_subtree (normalize_path env path)) r
