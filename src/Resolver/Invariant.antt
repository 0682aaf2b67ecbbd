-- ===== src/Resolver/Invariant.antt =====
-- src/dokan_impl/adapter/state.rs: the invariant and the operations of `PathResolver` but those that store.
use confuse.Common.{ℕ, ◌≡◌, refl, Bool, Option, none, some, List, [], ◌∷◌, arith}
use confuse.Common.Text.{Text}
use confuse.Common.Assoc.{get}
use confuse.Facade.Types.{FileAttr}
use confuse.Resolver.State.{
  Env, PathCacheEntry, positive, negative, InodeState, PathResolver, tick, now, refcount,
  set_negative_ttl, take_pending_forgets,
}
use confuse.Resolver.Path.{normalize_path}
use confuse.Resolver.Refs.{clear_expiry, clear_expiries}
use confuse.Resolver.Ops.{drop_path, release_entry, cached_at, cached}
use confuse.Resolver.Attrs.{cached_attr_at, cached_attr, invalidate_inode_attr, remember_attr}
use confuse.Resolver.Invalidate.{
  invalidate_removed, invalidate_key, matching_keys, is_expired, reap_each, reap_expired,
  invalidate_each, invalidate_matching,
}
use confuse.Resolver.Accounts.{
  Accounts, IsAccounted, lookups_of, Accounts-frame, drop_path-Accounts, release-IsAccounted,
  retain-Accounts, clear_expiry-Accounts, clear_expiries-Accounts, tick-Accounts, take-Accounts,
}

pub set_negative_ttl-IsAccounted :
    (ttl : ℕ) (r : PathResolver) → IsAccounted r → IsAccounted (set_negative_ttl ttl r)
unfolding set_negative_ttl refcount
set_negative_ttl-IsAccounted ttl r a = Accounts-frame _ a (λ i. refl) refl

module _ (env : Env) where
  release_entry-IsAccounted :
      (o : Option PathCacheEntry) (r : PathResolver)
      → Accounts (lookups_of o) r
      → IsAccounted (release_entry env o r)
  unfolding release_entry
  release_entry-IsAccounted none r a = a
  release_entry-IsAccounted (some (positive e)) r a = release-IsAccounted env e.outstanding r a
  release_entry-IsAccounted (some (negative e)) r a = a

  -- A removed entry, its lookups released.
  drop_entry-IsAccounted :
      (key : Text) (r : PathResolver) (o : Option PathCacheEntry)
      → get key r.paths ≡ o
      → IsAccounted r
      → IsAccounted (release_entry env o (drop_path key r))
  drop_entry-IsAccounted key r o e a =
      release_entry-IsAccounted o (drop_path key r) (rw e at (drop_path-Accounts env key r a))

  -- `cached` leaves the tables alone, or drops the entry that it found and releases its lookups.
  pub cached_at_cases {ℓ} :
      (P : PathResolver → Type ℓ) (key : Text) (p g t : ℕ) (o : Option PathCacheEntry)
      (r : PathResolver)
      → P r
      → P (release_entry env o (drop_path key r))
      → P (cached_at env key p g t o r).1
  unfolding cached_at release_entry
  cached_at_cases P key p g t none r kept dropped = kept
  cached_at_cases P key p g t (some (positive s)) r kept dropped = ground arith
  cached_at_cases P key p g t (some (negative s)) r kept dropped = ground arith

  pub cached-IsAccounted :
      (path : Text) (p g : ℕ) (r : PathResolver)
      → IsAccounted r
      → IsAccounted (cached env path p g r).1
  unfolding cached
  cached-IsAccounted path p g r a =
      let key = normalize_path env path in
      let o = get key r.paths in
      let ticked = tick-Accounts env r a in
      let seen : IsAccounted (cached_at env key p g (now env r) o (tick r)).1 =
        cached_at_cases IsAccounted key p g (now env r) o (tick r) ticked
          (drop_entry-IsAccounted key (tick r) o refl ticked) in
      ground arith

  cached_attr_at-IsAccounted :
      (ino t : ℕ) (o : Option InodeState) (r : PathResolver)
      → IsAccounted r
      → IsAccounted (cached_attr_at env ino t o r).1
  unfolding cached_attr_at
  cached_attr_at-IsAccounted ino t none r a = a
  cached_attr_at-IsAccounted ino t (some s) r a =
      let dropped = retain-Accounts env (clear_expiry ino r) (clear_expiry-Accounts env ino r a) in
      ground arith

  pub cached_attr-IsAccounted :
      (ino : ℕ) (r : PathResolver) → IsAccounted r → IsAccounted (cached_attr env ino r).1
  unfolding cached_attr
  cached_attr-IsAccounted ino r a =
      cached_attr_at-IsAccounted ino (now env r) (r.inodes ino) (tick r) (tick-Accounts env r a)

  pub invalidate_inode_attr-IsAccounted :
      (ino : ℕ) (r : PathResolver) → IsAccounted r → IsAccounted (invalidate_inode_attr env ino r)
  unfolding invalidate_inode_attr
  invalidate_inode_attr-IsAccounted ino r a =
      retain-Accounts env (clear_expiry ino r) (clear_expiry-Accounts env ino r a)

  refcount-remember_attr :
      (ino : ℕ) (attr : FileAttr) (ttl : ℕ) (r : PathResolver) (i : ℕ)
      → refcount (remember_attr env ino attr ttl r) i ≡ refcount r i
  unfolding remember_attr refcount
  refcount-remember_attr ino attr ttl r i = ground arith

  paths-remember_attr :
      (ino : ℕ) (attr : FileAttr) (ttl : ℕ) (r : PathResolver)
      → (remember_attr env ino attr ttl r).paths ≡ r.paths
  unfolding remember_attr
  paths-remember_attr ino attr ttl r = ground arith

  pub remember_attr-IsAccounted :
      (ino : ℕ) (attr : FileAttr) (ttl : ℕ) (r : PathResolver)
      → IsAccounted r
      → IsAccounted (remember_attr env ino attr ttl r)
  remember_attr-IsAccounted ino attr ttl r a =
      Accounts-frame _ a (refcount-remember_attr ino attr ttl r)
        (paths-remember_attr ino attr ttl r)

  invalidate_removed-IsAccounted :
      (o : Option PathCacheEntry) (r : PathResolver)
      → Accounts (lookups_of o) r
      → IsAccounted (invalidate_removed env o r)
  unfolding invalidate_removed
  invalidate_removed-IsAccounted none r a = a
  invalidate_removed-IsAccounted (some (positive e)) r a =
      release-IsAccounted env e.outstanding (clear_expiries e.outstanding r)
        (clear_expiries-Accounts env e.outstanding r a)
  invalidate_removed-IsAccounted (some (negative e)) r a = a

  pub invalidate_key-IsAccounted :
      (key : Text) (r : PathResolver) → IsAccounted r → IsAccounted (invalidate_key env key r)
  unfolding invalidate_key
  invalidate_key-IsAccounted key r a =
      invalidate_removed-IsAccounted (get key r.paths) (drop_path key r)
        (drop_path-Accounts env key r a)

  invalidate_each-IsAccounted :
      (keys : List Text) (r : PathResolver)
      → IsAccounted r
      → IsAccounted (invalidate_each env keys r)
  unfolding invalidate_each
  invalidate_each-IsAccounted [] r a = a
  invalidate_each-IsAccounted (key ∷ keys) r a =
      invalidate_each-IsAccounted keys (invalidate_key env key r)
        (invalidate_key-IsAccounted key r a)

  pub invalidate_matching-IsAccounted :
      (matches : Text → PathCacheEntry → Bool) (r : PathResolver)
      → IsAccounted r
      → IsAccounted (invalidate_matching env matches r).1
  unfolding invalidate_matching
  invalidate_matching-IsAccounted matches r a =
      let dropped = invalidate_each env (matching_keys matches r.paths) r in
      retain-Accounts env (take_pending_forgets dropped).1 (
        take-Accounts env dropped (invalidate_each-IsAccounted (matching_keys matches r.paths) r a))

  reap_each-IsAccounted :
      (keys : List Text) (r : PathResolver) → IsAccounted r → IsAccounted (reap_each env keys r)
  unfolding reap_each
  reap_each-IsAccounted [] r a = a
  reap_each-IsAccounted (key ∷ keys) r a =
      reap_each-IsAccounted keys (release_entry env (get key r.paths) (drop_path key r))
        (drop_entry-IsAccounted key r (get key r.paths) refl a)

  pub reap_expired-IsAccounted :
      (r : PathResolver) → IsAccounted r → IsAccounted (reap_expired env r).1
  unfolding reap_expired
  reap_expired-IsAccounted r a =
      let keys = matching_keys (is_expired (now env r)) r.paths in
      take-Accounts env (reap_each env keys (tick r))
        (reap_each-IsAccounted keys (tick r) (tick-Accounts env r a))
