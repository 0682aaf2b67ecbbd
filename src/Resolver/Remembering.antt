-- ===== src/Resolver/Remembering.antt =====
-- src/dokan_impl/adapter/state.rs: the balance of lookups after `remember_positive`.
use confuse.Common.{
  ℕ, ◌+◌, ◌<◌, ◌≤◌, ◌≡◌, refl, ◌∙◌, ap, inl, inr, Option, none, some, List, [], ◌∷◌, ◌==◌,
  if◌then◌else◌, Bool-cases, arith, u64_max,
}
use confuse.Common.Text.{Text}
use confuse.Common.Assoc.{get}
use confuse.Resolver.State.{
  Env, PositivePathRecord, PathCacheEntry, positive, negative, PathResolver, count_of, refcount,
  balance,
}
use confuse.Resolver.Path.{normalize_path}
use confuse.Resolver.Refs.{
  release_outstanding, increment_outstanding_lookup, count_of-append, refcount-release,
}
use confuse.Resolver.Ops.{
  drop_path, reusable, take_reusable_outstanding, queue_forget, store_positive_path_entry,
  remember_positive_inode, store_positive, remember_positive,
}
use confuse.Resolver.Balance.{
  balance-retain, balance-release, balance-drop_path, refcount-drop_path,
}

module _ (env : Env) where
  balance-reusable :
      (ino ttl : ℕ) (o : Option PathCacheEntry) (r : PathResolver) (i : ℕ)
      → balance (reusable env ino ttl o r).1 i ≡ balance r i
  unfolding reusable
  balance-reusable ino ttl none r i = refl
  balance-reusable ino ttl (some (negative e)) r i = refl
  balance-reusable ino ttl (some (positive e)) r i =
      ground (arith, balance-release env e.outstanding r i)

  -- Taking over an old entry's lookups raises no count.
  pub refcount-reusable-le :
      (ino ttl : ℕ) (o : Option PathCacheEntry) (r : PathResolver) (i : ℕ)
      → refcount (reusable env ino ttl o r).1 i ≤ refcount r i
  unfolding reusable
  refcount-reusable-le ino ttl none r i = omega arith
  refcount-reusable-le ino ttl (some (negative e)) r i = omega arith
  refcount-reusable-le ino ttl (some (positive e)) r i =
      ground (arith, refcount-release env e.outstanding r i)

  balance-queue_forget :
      (ino : ℕ) (r : PathResolver) (i : ℕ)
      → balance (queue_forget ino r) i ≡ balance r i + (if ino == i then 1 else 0)
  unfolding queue_forget balance refcount count_of
  balance-queue_forget ino r i = ground (arith, count_of-append i r.pending_forgets ((ino, 1) ∷ []))

  balance-remember_positive_inode :
      (rec : PositivePathRecord) (r : PathResolver) (i : ℕ)
      → refcount r rec.attr.ino < u64_max
      → balance (remember_positive_inode rec r) i
        ≡ balance r i + (if rec.attr.ino == i then 1 else 0)
  unfolding remember_positive_inode balance refcount
  balance-remember_positive_inode rec r i h = ground arith

  balance-store_positive :
      (key : Text) (rec : PositivePathRecord) (l : List (ℕ × ℕ)) (r : PathResolver) (i : ℕ)
      → refcount r rec.attr.ino < u64_max
      → balance (store_positive env key rec (l, r)) i
        ≡ balance r i + (if rec.attr.ino == i then 1 else 0)
  unfolding store_positive
  balance-store_positive key rec l r i h = elim (Bool-cases (rec.ttl == 0)) [
    | inl e ↦
        rw (e, store_positive)
          (omega (
            arith,
            balance-retain env (queue_forget rec.attr.ino (release_outstanding env l r)) i,
            balance-queue_forget rec.attr.ino (release_outstanding env l r) i,
            balance-release env l r i,
          ))
    | inr e ↦
        rw (e, store_positive)
          (balance-remember_positive_inode rec
              (store_positive_path_entry env key rec (increment_outstanding_lookup rec.attr.ino l)
                r)
              i (refcount_stored h)
            ∙ ap (λ n. n + (if rec.attr.ino == i then 1 else 0)) balance_stored)
  ]
    where
      stored : PathResolver
      stored = store_positive_path_entry env key rec (increment_outstanding_lookup rec.attr.ino l) r

      refcount_stored : refcount r rec.attr.ino < u64_max → refcount stored rec.attr.ino < u64_max
      refcount_stored b = unfold store_positive_path_entry refcount in b

      balance_stored : balance stored i ≡ balance r i
      balance_stored = unfold store_positive_path_entry balance refcount in refl

  -- When the counter of its inode is below the limit of a `u64`: a remembered lookup raises the
  -- balance of its inode by one, and no other balance, whether the path is new, known under the same
  -- inode, or known under another.
  pub balance-remember_positive :
      (rec : PositivePathRecord) (r : PathResolver) (i : ℕ)
      → refcount r rec.attr.ino < u64_max
      → balance (remember_positive env rec r).1 i
        ≡ balance r i + (if rec.attr.ino == i then 1 else 0)
  unfolding remember_positive take_reusable_outstanding
  balance-remember_positive rec r i h =
      let key = normalize_path env rec.path in
      let o = get key r.paths in
      let (l, r') = reusable env rec.attr.ino rec.ttl o (drop_path key r) in
      omega (
        arith,
        balance-store_positive key rec l r' i (
            omega (
              arith,
              refcount-reusable-le rec.attr.ino rec.ttl o (drop_path key r) rec.attr.ino,
              refcount-drop_path env key r rec.attr.ino,
            )),
        balance-reusable rec.attr.ino rec.ttl o (drop_path key r) i,
        balance-drop_path env key r i,
      )
