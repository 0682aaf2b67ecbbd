-- ===== src/Resolver/Answers.antt =====
-- src/dokan_impl/adapter/state.rs: what is answered after `remember_negative`, and from the cached
-- attributes.
use confuse.Common.{
  ℕ, ◌+◌, ◌<◌, ◌≡◌, refl, ◌∙◌, ◌↔◌, inl, inr, false, Option, none, some, ◌==◌, Option-cases, arith,
  err,
}
use confuse.Common.Text.{Text, text_eq}
use confuse.Common.Assoc.{get, get-insert_self}
use confuse.Facade.Types.{FileAttr}
use confuse.Facade.Errno.{enoent}
use confuse.Resolver.State.{
  Env, PathCacheEntry, positive, negative, InodeState, PathResolver, tick, now,
}
use confuse.Resolver.Path.{normalize_path, root_path}
use confuse.Resolver.Refs.{
  clear_expiry, clear_expiries, retain, is_live, retain_live_inodes, negative_ttl-release,
  negative_ttl-clear_expiries,
}
use confuse.Resolver.Ops.{drop_path, cached_at, cached}
use confuse.Resolver.Attrs.{
  is_some_and, cached_attr_at, cached_attr, invalidate_inode_attr, attr_state, remember_attr,
}
use confuse.Resolver.Invalidate.{
  invalidate_removed, invalidate_key, store_negative, remember_negative,
}
use confuse.Resolver.Accounts.{IsAccounted}
use confuse.Resolver.Hits.{last_reading}
use confuse.Resolver.Stores.{get-invalidate_key}

module _ (env : Env) where
  negative_ttl-invalidate_removed :
      (o : Option PathCacheEntry) (r : PathResolver)
      → (invalidate_removed env o r).negative_ttl ≡ r.negative_ttl
  unfolding invalidate_removed
  negative_ttl-invalidate_removed none r = refl
  negative_ttl-invalidate_removed (some (negative e)) r = refl
  negative_ttl-invalidate_removed (some (positive e)) r =
      negative_ttl-release env e.outstanding (clear_expiries e.outstanding r)
      ∙ negative_ttl-clear_expiries e.outstanding r

  negative_ttl-invalidate_key :
      (key : Text) (r : PathResolver) → (invalidate_key env key r).negative_ttl ≡ r.negative_ttl
  unfolding invalidate_key drop_path
  negative_ttl-invalidate_key key r =
      negative_ttl-invalidate_removed (get key r.paths) (drop_path key r)

  module _ (path : Text) (p g : ℕ) (name : Text) where
    -- Within the negative time to live, a remembered miss answers that there is no such file.
    cached-store_negative :
        (ttl : ℕ) (r : PathResolver)
        → let r' = store_negative env (normalize_path env path) p g name (some ttl) r in
          text_eq (normalize_path env path) root_path ≡ false
          → now env r' < last_reading env r' + ttl
          → (cached env path p g r').0 ≡ some (err enoent)
    unfolding store_negative cached cached_at
    cached-store_negative ttl r nr fresh =
        rw (nr, cached)
          (rw (get-insert_self (normalize_path env path) _ r.paths, cached_at) (ground arith))

    -- A miss of a path other than the root, with negative caching on, is answered with `ENOENT` for the
    -- same parent and generation, as long as the clock is below the reading at which it was stored plus
    -- the negative time to live.
    pub cached-remember_negative :
        (r : PathResolver) (ttl : ℕ)
        → let r' = remember_negative env path p g name r in
          r.negative_ttl ≡ some ttl
          → text_eq (normalize_path env path) root_path ≡ false
          → now env r' < last_reading env r' + ttl
          → (cached env path p g r').0 ≡ some (err enoent)
    unfolding remember_negative
    cached-remember_negative r ttl e nr =
        let key = normalize_path env path in
        let dropped = invalidate_key env key r in
        rw (negative_ttl-invalidate_key key r ∙ e) (cached-store_negative ttl dropped nr)

    -- For a resolver that satisfies its invariant, with negative caching off: after a miss the path has
    -- no cached answer, neither the miss nor what was cached before.
    pub cached-remember_negative_off :
        (r : PathResolver)
        → IsAccounted r
        → r.negative_ttl ≡ none
        → (cached env path p g (remember_negative env path p g name r)).0 ≡ none
    unfolding remember_negative store_negative cached cached_at
    cached-remember_negative_off r a e =
        let key = normalize_path env path in
        rw (negative_ttl-invalidate_key key r ∙ e) (ground (arith, get-invalidate_key env key r a))

module _ (env : Env) (ino : ℕ) where
  -- The attribute that is answered is one that was stored with an expiry that has not come.
  pub cached_attr-eq_some_iff :
      (r : PathResolver) (a : FileAttr)
      → ((cached_attr env ino r).0 ≡ some a) ↔ (
          (s : InodeState) × (e : ℕ) × (r.inodes ino ≡ some s)
          × (s.attr_expires ≡ some e)
          × (now env r < e)
          × (s.attr ≡ a))
  unfolding cached_attr cached_attr_at is_some_and
  cached_attr-eq_some_iff r a =
      (λ h. sound (r.inodes ino) refl h, λ (s, e, f, g, lt, same). ground arith)
    where
      sound :
          (o : Option InodeState)
          → r.inodes ino ≡ o
          → (cached_attr_at env ino (now env r) o (tick r)).0 ≡ some a
          → (s : InodeState) × (e : ℕ) × (r.inodes ino ≡ some s)
            × (s.attr_expires ≡ some e)
            × (now env r < e)
            × (s.attr ≡ a)
      sound none f h = cc
      sound (some s) f h = elim (Option-cases s.attr_expires) [
        | inl off ↦ absurd (ground arith)
        | inr (e, on) ↦ (s, e, f, on, ground arith, ground arith)
      ]

  -- Attributes that are remembered with a time to live that is not zero are answered as long as the
  -- clock is below the reading at which they were stored plus the time to live.
  pub cached_attr-remember_attr :
      (attr : FileAttr) (ttl : ℕ) (r : PathResolver)
      → let r' = remember_attr env ino attr ttl r in
        (ttl == 0) ≡ false
        → now env r' < last_reading env r' + ttl
        → (cached_attr env ino r').0 ≡ some attr
  unfolding remember_attr attr_state cached_attr cached_attr_at is_some_and
  cached_attr-remember_attr attr ttl r nz fresh = ground arith

  -- After the attributes of an inode are invalidated, none are answered for it, whatever the state.
  pub cached_attr-invalidate_inode_attr :
      (r : PathResolver) → (cached_attr env ino (invalidate_inode_attr env ino r)).0 ≡ none
  unfolding invalidate_inode_attr cached_attr cached_attr_at is_some_and retain_live_inodes retain
      is_live clear_expiry
  cached_attr-invalidate_inode_attr r = ground arith
