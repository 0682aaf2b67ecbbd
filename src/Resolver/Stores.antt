-- ===== src/Resolver/Stores.antt =====
-- src/dokan_impl/adapter/state.rs: the invariant, and `remember_positive` and `remember_negative`.
use confuse.Common.{
  ℕ, ◌<◌, ◌≡◌, refl, ◌∙◌, ap, inl, inr, Option, none, some, List, ◌==◌, Bool-cases, arith, u64_max,
}
use confuse.Common.Text.{Text}
use confuse.Common.Assoc.{get, remove, get-remove_self}
use confuse.Resolver.State.{
  Env, PositivePathRecord, PathCacheEntry, positive, negative, PathResolver, refcount,
}
use confuse.Resolver.Path.{normalize_path}
use confuse.Resolver.Refs.{clear_expiries, release_outstanding, paths-release, clear_expiries_frame}
use confuse.Resolver.Ops.{
  drop_path, queue_forget, reusable, take_reusable_outstanding, store_positive, remember_positive,
}
use confuse.Resolver.Invalidate.{invalidate_removed, invalidate_key, remember_negative}
use confuse.Resolver.Accounts.{
  Accounts, IsAccounted, lookups_of, drop_path-Accounts, release-IsAccounted, retain-Accounts,
  queue_forget-Accounts, store-IsAccounted, store_negative-IsAccounted,
}
use confuse.Resolver.Remembering.{refcount-reusable-le}
use confuse.Resolver.Invariant.{invalidate_key-IsAccounted}

module _ (env : Env) where
  paths-invalidate_removed :
      (o : Option PathCacheEntry) (r : PathResolver) → (invalidate_removed env o r).paths ≡ r.paths
  unfolding invalidate_removed
  paths-invalidate_removed none r = refl
  paths-invalidate_removed (some (negative e)) r = refl
  paths-invalidate_removed (some (positive e)) r =
      paths-release env e.outstanding (clear_expiries e.outstanding r)
      ∙ (clear_expiries_frame e.outstanding r).1

  pub paths-invalidate_key :
      (key : Text) (r : PathResolver) → (invalidate_key env key r).paths ≡ remove key r.paths
  unfolding invalidate_key drop_path
  paths-invalidate_key key r = paths-invalidate_removed (get key r.paths) (drop_path key r)

  pub get-invalidate_key :
      (key : Text) (r : PathResolver)
      → IsAccounted r
      → get key (invalidate_key env key r).paths ≡ none
  get-invalidate_key key r a =
      ap (get key) (paths-invalidate_key key r) ∙ get-remove_self key r.paths a.distinct

  pub remember_negative-IsAccounted :
      (path : Text) (p g : ℕ) (name : Text) (r : PathResolver)
      → IsAccounted r
      → IsAccounted (remember_negative env path p g name r)
  unfolding remember_negative
  remember_negative-IsAccounted path p g name r a =
      let key = normalize_path env path in
      let dropped = invalidate_key env key r in
      store_negative-IsAccounted env key p g name dropped.negative_ttl dropped
        (invalidate_key-IsAccounted env key r a) (get-invalidate_key key r a)

  reusable-Accounts :
      (ino ttl : ℕ) (o : Option PathCacheEntry) (r : PathResolver)
      → Accounts (lookups_of o) r
      → Accounts (reusable env ino ttl o r).0 (reusable env ino ttl o r).1
  unfolding reusable
  reusable-Accounts ino ttl none r a = a
  reusable-Accounts ino ttl (some (negative e)) r a = a
  reusable-Accounts ino ttl (some (positive e)) r a =
      let released = release-IsAccounted env e.outstanding r a in ground arith

  pub paths-reusable :
      (ino ttl : ℕ) (o : Option PathCacheEntry) (r : PathResolver)
      → (reusable env ino ttl o r).1.paths ≡ r.paths
  unfolding reusable
  paths-reusable ino ttl none r = refl
  paths-reusable ino ttl (some (negative e)) r = refl
  paths-reusable ino ttl (some (positive e)) r = ground (arith, paths-release env e.outstanding r)

  store_positive-IsAccounted :
      (key : Text) (rec : PositivePathRecord) (hand : List (ℕ × ℕ)) (r : PathResolver)
      → Accounts hand r
      → get key r.paths ≡ none
      → refcount r rec.attr.ino < u64_max
      → IsAccounted (store_positive env key rec (hand, r))
  unfolding store_positive
  store_positive-IsAccounted key rec hand r a absent h = elim (Bool-cases (rec.ttl == 0)) [
    | inl e ↦
        rw (e, store_positive)
          (retain-Accounts env (queue_forget rec.attr.ino (release_outstanding env hand r)) (
            queue_forget-Accounts env rec.attr.ino (release_outstanding env hand r)
              (release-IsAccounted env hand r a)))
    | inr e ↦ rw (e, store_positive) (store-IsAccounted env key rec hand r a absent h)
  ]

  -- Remembering a lookup keeps the resolver's invariant, when the counter of its inode is below the
  -- limit of a `u64`.
  pub remember_positive-IsAccounted :
      (rec : PositivePathRecord) (r : PathResolver)
      → IsAccounted r
      → refcount r rec.attr.ino < u64_max
      → IsAccounted (remember_positive env rec r).1
  unfolding remember_positive take_reusable_outstanding
  remember_positive-IsAccounted rec r a h =
      let key = normalize_path env rec.path in
      let ino = rec.attr.ino in
      let o = get key r.paths in
      let dropped = drop_path key r in
      let after = reusable env ino rec.ttl o dropped in
      store_positive-IsAccounted key rec after.0 after.1
        (reusable-Accounts ino rec.ttl o dropped (drop_path-Accounts env key r a))
        (ap (get key) (paths-reusable ino rec.ttl o dropped) ∙ absent key r a)
        (omega (arith, refcount-reusable-le env ino rec.ttl o dropped ino, same key r ino))
    where
      absent :
          (key : Text) (r : PathResolver) → IsAccounted r → get key (drop_path key r).paths ≡ none
      absent key r a = unfold drop_path in get-remove_self key r.paths a.distinct

      same : (key : Text) (r : PathResolver) (i : ℕ) → refcount (drop_path key r) i ≡ refcount r i
      same key r i = unfold drop_path refcount in refl
