-- ===== src/Resolver/Notify.antt =====
-- src/dokan_impl/adapter/state.rs: the balance of lookups after `invalidate_entry_from_notify`, which
-- drops the list of forgets that `invalidate_matching` hands it.
use confuse.Common.{
  ℕ, ◌<◌, ◌≤◌, ◌≡◌, ◌∙◌, ap, inl, inr, Bool, true, some, List, [], ◌∷◌, Bool-cases, arith,
}
use confuse.Common.Text.{Text, text_eq, text_eq_iff}
use confuse.Common.Assoc.{get, remove, get-remove_ne}
use confuse.Resolver.State.{
  Env, PositiveEntry, PathCacheEntry, positive, PathResolver, count_of, refcount, balance, owed,
  take_pending_forgets,
}
use confuse.Resolver.Refs.{retain_live_inodes}
use confuse.Resolver.Invalidate.{
  matching_keys, invalidate_matching, names_child, invalidate_entry_from_notify,
}
use confuse.Resolver.Accounts.{Held, IsAccounted, owed-remove, remove-Held}
use confuse.Resolver.Hits.{Held-get}
use confuse.Resolver.Invariant.{invalidate_matching-IsAccounted}
use confuse.Resolver.Removal.{
  Paths, remove_keys, has_key, has_key-matching_keys, passes, paths-invalidate_each,
}

owed-remove_keys-le : (ks : List Text) (m : Paths) (i : ℕ) → owed (remove_keys ks m) i ≤ owed m i
unfolding remove_keys
owed-remove_keys-le [] m i = omega arith
owed-remove_keys-le (j ∷ ks) m i =
    omega (arith, owed-remove_keys-le ks (remove j m) i, owed-remove j m i)

owed-remove_keys-lt :
    (ks : List Text) (k : Text) (m : Paths) (e : PositiveEntry)
    → Held m
    → get k m ≡ some (positive e)
    → has_key k ks ≡ true
    → owed (remove_keys ks m) e.ino < owed m e.ino
unfolding remove_keys has_key
owed-remove_keys-lt [] k m e h f t = cc
owed-remove_keys-lt (j ∷ ks) k m e h f t = elim (Bool-cases (text_eq j k)) [
  | inl same ↦ ground (
    arith,
    text_eq_iff j k,
    owed-remove_keys-le ks (remove j m) e.ino,
    owed-remove j m e.ino,
    Held-get k m e h f,
  )
  | inr other ↦ ground (
    arith,
    owed-remove_keys-lt ks k (remove j m) e (remove-Held j m h) (get-remove_ne j k m other ∙ f),
    owed-remove j m e.ino,
  )
]

module _ (env : Env) where
  -- The queue of forgets is empty after it, so what is owed is what the cached paths hold.
  balance-invalidated :
      (matches : Text → PathCacheEntry → Bool) (r : PathResolver) (i : ℕ)
      → IsAccounted r
      → balance (invalidate_matching env matches r).1 i
        ≡ owed (remove_keys (matching_keys matches r.paths) r.paths) i
  unfolding balance invalidate_matching take_pending_forgets retain_live_inodes count_of
  balance-invalidated matches r i a =
      let after = invalidate_matching-IsAccounted env matches r a in
      omega (
        arith,
        after.counted i,
        ap (λ m. owed m i) (paths-invalidate_each env (matching_keys matches r.paths) r),
      )

  -- For a resolver that satisfies its invariant: a notification that names a cached positive entry, by
  -- its parent and its name, lowers the balance of the entry's inode, although it hands no forget to
  -- the file system.
  pub notify_loses_lookups :
      (p : ℕ) (name k : Text) (r : PathResolver) (e : PositiveEntry)
      → IsAccounted r
      → get k r.paths ≡ some (positive e)
      → e.parent ≡ p
      → e.name ≡ name
      → balance (invalidate_entry_from_notify env p name r) e.ino < balance r e.ino
  unfolding invalidate_entry_from_notify
  notify_loses_lookups p name k r e a f same_parent same_name =
      let matches = names_child env p (env.to_lowercase name) in
      omega (
        arith,
        balance-invalidated matches r e.ino a,
        owed-remove_keys-lt (matching_keys matches r.paths) k r.paths e a.held f
            (has_key-matching_keys matches k r.paths a.distinct ∙ named),
        a.counted e.ino,
        owed_le,
      )
    where
      named : passes (names_child env p (env.to_lowercase name)) k (get k r.paths) ≡ true
      named = rw f (
          unfold names_child in
          ground (arith, text_eq_iff (env.to_lowercase e.name) (env.to_lowercase name)))

      owed_le : refcount r e.ino ≤ balance r e.ino
      owed_le = unfold balance in omega arith
