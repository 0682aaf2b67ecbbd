-- ===== src/Resolver/Attrs.antt =====
-- src/dokan_impl/adapter/state.rs: the operations of `PathResolver` on cached attributes.
use confuse.Common.{ℕ, ◌+◌, Bool, false, Option, none, some, ◌==◌, ltb, if◌then◌else◌}
use confuse.Facade.Types.{FileAttr}
use confuse.Resolver.State.{Env, InodeState, PathResolver, update, now, tick}
use confuse.Resolver.Refs.{clear_expiry, retain_live_inodes}

unfoldable pub is_some_and : Option ℕ → (ℕ → Bool) → Bool
is_some_and none test = false
is_some_and (some e) test = test e

-- The part of `cached_attr` behind the look into the table, at the time `t`.
unfoldable pub cached_attr_at :
    Env → ℕ → ℕ → Option InodeState → PathResolver → Option FileAttr × PathResolver
unfolding is_some_and clear_expiry
cached_attr_at env ino t none r = (none, r)
cached_attr_at env ino t (some s) r =
    if is_some_and s.attr_expires (λ e. ltb t e)
    then (some s.attr, r)
    else (none, retain_live_inodes env (clear_expiry ino r))

unfoldable pub cached_attr : Env → ℕ → PathResolver → Option FileAttr × PathResolver
unfolding cached_attr_at
cached_attr env ino r = cached_attr_at env ino (now env r) (r.inodes ino) (tick r)

unfoldable pub invalidate_inode_attr : Env → ℕ → PathResolver → PathResolver
unfolding clear_expiry
invalidate_inode_attr env ino r = retain_live_inodes env (clear_expiry ino r)

-- `and_modify` and `or_insert` of `remember_attr`.
unfoldable pub attr_state : FileAttr → ℕ → Option InodeState → InodeState
attr_state attr expires none = record {
  attr = attr;
  generation = 0;
  lookup_refcount = 0;
  attr_expires = some expires;
}
attr_state attr expires (some s) = record s { attr = attr; attr_expires = some expires }

unfoldable pub remember_attr : Env → ℕ → FileAttr → ℕ → PathResolver → PathResolver
unfolding clear_expiry attr_state
remember_attr env ino attr ttl r =
    if ttl == 0
    then clear_expiry ino r
    else let expires = now env r + ttl in
      tick (record r { inodes = update r.inodes ino (attr_state attr expires (r.inodes ino)) })
