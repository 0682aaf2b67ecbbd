-- ===== src/Resolver/Balance.antt =====
-- src/dokan_impl/adapter/state.rs: the balance of lookups after each operation of `PathResolver` but
-- `remember_positive`. The lemmas are about every state, also one that no history reaches.
use confuse.Common.{ℕ, ◌+◌, ◌≡◌, refl, ◌∙◌, ap, Bool, Option, none, some, List, [], ◌∷◌, arith}
use confuse.Common.Text.{Text}
use confuse.Common.Assoc.{get}
use confuse.Resolver.State.{
  Env, PathCacheEntry, positive, negative, InodeState, PathResolver, tick, now, count_of, refcount,
  balance, take_pending_forgets,
}
use confuse.Facade.Types.{FileAttr}
use confuse.Resolver.Path.{normalize_path}
use confuse.Resolver.Refs.{
  clear_expiry, clear_expiries, retain_live_inodes, release_outstanding, refcount-retain,
  refcount-release, pending-release, clear_expiry_frame, clear_expiries_frame,
}
use confuse.Resolver.Ops.{drop_path, release_entry, cached_at, cached}
use confuse.Resolver.Attrs.{cached_attr_at, cached_attr, invalidate_inode_attr, remember_attr}
use confuse.Resolver.Invalidate.{
  invalidate_removed, invalidate_key, store_negative, remember_negative, matching_keys, is_expired,
  reap_each, reap_expired, invalidate_each, invalidate_matching,
}

module _ (env : Env) where
  pub balance-retain :
      (r : PathResolver) (i : ℕ) → balance (retain_live_inodes env r) i ≡ balance r i
  unfolding balance retain_live_inodes
  balance-retain r i = omega (arith, refcount-retain env r i)

  pub balance-release :
      (l : List (ℕ × ℕ)) (r : PathResolver) (i : ℕ)
      → balance (release_outstanding env l r) i ≡ balance r i
  unfolding balance
  balance-release l r i = omega (arith, refcount-release env l r i, pending-release env l r i)

  pub balance-drop_path :
      (key : Text) (r : PathResolver) (i : ℕ) → balance (drop_path key r) i ≡ balance r i
  unfolding balance drop_path refcount
  balance-drop_path key r i = refl

  pub refcount-drop_path :
      (key : Text) (r : PathResolver) (i : ℕ) → refcount (drop_path key r) i ≡ refcount r i
  unfolding drop_path refcount
  refcount-drop_path key r i = refl

  balance-tick : (r : PathResolver) (i : ℕ) → balance (tick r) i ≡ balance r i
  unfolding balance refcount
  balance-tick r i = refl

  balance-clear_expiry :
      (ino : ℕ) (r : PathResolver) (i : ℕ) → balance (clear_expiry ino r) i ≡ balance r i
  unfolding balance
  balance-clear_expiry ino r i =
      let (a, b, c) = clear_expiry_frame ino r in omega (arith, a i, ap (count_of i) c)

  balance-clear_expiries :
      (l : List (ℕ × ℕ)) (r : PathResolver) (i : ℕ) → balance (clear_expiries l r) i ≡ balance r i
  unfolding balance
  balance-clear_expiries l r i =
      let (a, b, c) = clear_expiries_frame l r in omega (arith, a i, ap (count_of i) c)

  balance-cached_at :
      (key : Text) (p g t : ℕ) (o : Option PathCacheEntry) (r : PathResolver) (i : ℕ)
      → balance (cached_at env key p g t o r).1 i ≡ balance r i
  unfolding cached_at
  balance-cached_at key p g t none r i = refl
  balance-cached_at key p g t (some (positive e)) r i =
      ground (arith, balance-release e.outstanding (drop_path key r) i, balance-drop_path key r i)
  balance-cached_at key p g t (some (negative e)) r i = ground (arith, balance-drop_path key r i)

  pub balance-cached :
      (path : Text) (p g : ℕ) (r : PathResolver) (i : ℕ)
      → balance (cached env path p g r).1 i ≡ balance r i
  unfolding cached
  balance-cached path p g r i = ground (
    arith,
    balance-cached_at (normalize_path env path) p g (now env r)
        (get (normalize_path env path) r.paths) (tick r) i,
    balance-tick r i,
  )

  balance-cached_attr_at :
      (ino t : ℕ) (o : Option InodeState) (r : PathResolver) (i : ℕ)
      → balance (cached_attr_at env ino t o r).1 i ≡ balance r i
  unfolding cached_attr_at
  balance-cached_attr_at ino t none r i = refl
  balance-cached_attr_at ino t (some s) r i =
      ground (arith, balance-retain (clear_expiry ino r) i, balance-clear_expiry ino r i)

  pub balance-cached_attr :
      (ino : ℕ) (r : PathResolver) (i : ℕ) → balance (cached_attr env ino r).1 i ≡ balance r i
  unfolding cached_attr
  balance-cached_attr ino r i =
      balance-cached_attr_at ino (now env r) (r.inodes ino) (tick r) i ∙ balance-tick r i

  pub balance-invalidate_inode_attr :
      (ino : ℕ) (r : PathResolver) (i : ℕ)
      → balance (invalidate_inode_attr env ino r) i ≡ balance r i
  unfolding invalidate_inode_attr
  balance-invalidate_inode_attr ino r i =
      balance-retain (clear_expiry ino r) i ∙ balance-clear_expiry ino r i

  pub balance-remember_attr :
      (ino : ℕ) (attr : FileAttr) (ttl : ℕ) (r : PathResolver) (i : ℕ)
      → balance (remember_attr env ino attr ttl r) i ≡ balance r i
  unfolding remember_attr balance refcount
  balance-remember_attr ino attr ttl r i = ground (arith, balance-clear_expiry ino r i)

  balance-invalidate_removed :
      (o : Option PathCacheEntry) (r : PathResolver) (i : ℕ)
      → balance (invalidate_removed env o r) i ≡ balance r i
  unfolding invalidate_removed
  balance-invalidate_removed (some (positive e)) r i =
      balance-release e.outstanding (clear_expiries e.outstanding r) i
      ∙ balance-clear_expiries e.outstanding r i
  balance-invalidate_removed (some (negative e)) r i = refl
  balance-invalidate_removed none r i = refl

  pub balance-invalidate_key :
      (key : Text) (r : PathResolver) (i : ℕ) → balance (invalidate_key env key r) i ≡ balance r i
  unfolding invalidate_key
  balance-invalidate_key key r i =
      balance-invalidate_removed (get key r.paths) (drop_path key r) i ∙ balance-drop_path key r i

  balance-store_negative :
      (key : Text) (p g : ℕ) (name : Text) (ttl : Option ℕ) (r : PathResolver) (i : ℕ)
      → balance (store_negative env key p g name ttl r) i ≡ balance r i
  unfolding store_negative balance refcount
  balance-store_negative key p g name none r i = refl
  balance-store_negative key p g name (some ttl) r i = refl

  pub balance-remember_negative :
      (path : Text) (p g : ℕ) (name : Text) (r : PathResolver) (i : ℕ)
      → balance (remember_negative env path p g name r) i ≡ balance r i
  unfolding remember_negative
  balance-remember_negative path p g name r i =
      let key = normalize_path env path in
      let dropped = invalidate_key env key r in
      balance-store_negative key p g name dropped.negative_ttl dropped i
      ∙ balance-invalidate_key key r i

  balance-release_entry :
      (o : Option PathCacheEntry) (r : PathResolver) (i : ℕ)
      → balance (release_entry env o r) i ≡ balance r i
  unfolding release_entry
  balance-release_entry (some (positive e)) r i = balance-release e.outstanding r i
  balance-release_entry (some (negative e)) r i = refl
  balance-release_entry none r i = refl

  balance-reap_each :
      (keys : List Text) (r : PathResolver) (i : ℕ) → balance (reap_each env keys r) i ≡ balance r i
  unfolding reap_each
  balance-reap_each [] r i = refl
  balance-reap_each (key ∷ keys) r i =
      balance-reap_each keys (release_entry env (get key r.paths) (drop_path key r)) i
      ∙ balance-release_entry (get key r.paths) (drop_path key r) i
      ∙ balance-drop_path key r i

  balance-invalidate_each :
      (keys : List Text) (r : PathResolver) (i : ℕ)
      → balance (invalidate_each env keys r) i ≡ balance r i
  unfolding invalidate_each
  balance-invalidate_each [] r i = refl
  balance-invalidate_each (key ∷ keys) r i =
      balance-invalidate_each keys (invalidate_key env key r) i ∙ balance-invalidate_key key r i

  -- What is taken from the queue is what the balance falls by.
  pub balance-take :
      (r : PathResolver) (i : ℕ)
      → count_of i (take_pending_forgets r).0 + balance (take_pending_forgets r).1 i ≡ balance r i
  unfolding take_pending_forgets balance refcount count_of
  balance-take r i = omega arith

  pub balance-reap_expired :
      (r : PathResolver) (i : ℕ)
      → count_of i (reap_expired env r).0 + balance (reap_expired env r).1 i ≡ balance r i
  unfolding reap_expired
  balance-reap_expired r i =
      let keys = matching_keys (is_expired (now env r)) r.paths in
      balance-take (reap_each env keys (tick r)) i
      ∙ balance-reap_each keys (tick r) i
      ∙ balance-tick r i

  pub balance-invalidate_matching :
      (matches : Text → PathCacheEntry → Bool) (r : PathResolver) (i : ℕ)
      → count_of i (invalidate_matching env matches r).0
          + balance (invalidate_matching env matches r).1 i
        ≡ balance r i
  unfolding invalidate_matching
  balance-invalidate_matching matches r i =
      let dropped = invalidate_each env (matching_keys matches r.paths) r in
      omega (
        arith,
        balance-retain (take_pending_forgets dropped).1 i,
        balance-take dropped i,
        balance-invalidate_each (matching_keys matches r.paths) r i,
      )
