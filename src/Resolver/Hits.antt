-- ===== src/Resolver/Hits.antt =====
-- src/dokan_impl/adapter/state.rs: what `cached` and `cached_attr` answer.
use confuse.Common.{
  ℕ, zero, suc, subst, sym, ◌+◌, ◌<◌, ◌≡◌, refl, ◌↔◌, inl, inr, false, Option, none, some, List, [],
  ◌∷◌, ◌==◌, Bool-cases, Option-cases, arith, ok,
}
use confuse.Common.Text.{Text, text_eq}
use confuse.Common.Assoc.{get, get-insert_self}
use confuse.Resolver.State.{
  Env, PositivePathRecord, ResolvedEntry, PositiveEntry, PathCacheEntry, positive, negative,
  InodeState, PathResolver, tick, now, count_of, refcount, owed, owed_at,
}
use confuse.Resolver.Path.{normalize_path, root_path}
use confuse.Resolver.Refs.{increment_outstanding_lookup}
use confuse.Resolver.Ops.{
  cached_at, cached, take_reusable_outstanding, store_positive, store_positive_path_entry,
  remember_positive_inode, counted_inode, remember_positive,
}
use confuse.Resolver.Accounts.{Held, IsAccounted}

-- The inode of a cached path is held by that path.
pub Held-get :
    (k : Text) (m : List (Text × PathCacheEntry)) (e : PositiveEntry)
    → Held m
    → get k m ≡ some (positive e)
    → (0 < count_of e.ino e.outstanding) × (0 < owed m e.ino)
unfolding get owed owed_at
Held-get k [] e h f = cc
Held-get k ((j, positive s) ∷ m) e h f = ground (arith, Held-get k m e h.1)
Held-get k ((j, negative s) ∷ m) e h f = ground (arith, Held-get k m e h)

-- So it is in the inode table.
pub inode_known :
    (k : Text) (r : PathResolver) (e : PositiveEntry)
    → IsAccounted r
    → get k r.paths ≡ some (positive e)
    → (s : InodeState) × (r.inodes e.ino ≡ some s)
inode_known k r e a f = elim (Option-cases (r.inodes e.ino)) [
  | inl absent ↦
      absurd (omega (arith, (Held-get k r.paths e a.held f).1, a.counted e.ino, zero_of absent))
  | inr known ↦ known
]
  where
    zero_of : r.inodes e.ino ≡ none → refcount r e.ino ≡ 0
    zero_of absent = unfold refcount in ground arith

-- A usable answer for a child of a directory: it is fresh, and was stored for this directory.
pub record IsHit (t p g : ℕ) (e : PositiveEntry) : Type 0 where
  pub fresh : t < e.entry_expires
  pub same_parent : e.parent ≡ p
  pub same_generation : e.parent_generation ≡ g

abbrev pub entry_of : PositiveEntry → ResolvedEntry
entry_of e = record { ino = e.ino; generation = e.generation }

module _ (env : Env) (path : Text) (p g : ℕ) where
  -- A cached entry that is fresh and was stored under the expected parent is found.
  pub cached-IsHit :
      (r : PathResolver) (e : PositiveEntry)
      → IsAccounted r
      → text_eq (normalize_path env path) root_path ≡ false
      → get (normalize_path env path) r.paths ≡ some (positive e)
      → IsHit (now env r) p g e
      → (cached env path p g r).0 ≡ some (ok (entry_of e))
  unfolding cached cached_at
  cached-IsHit r e a nr f h =
      let (s, known) = inode_known (normalize_path env path) r e a f in
      rw (nr, cached) (rw (f, cached_at) (ground arith))

  cached_at_sound :
      (key : Text) (t : ℕ) (o : Option PathCacheEntry) (r : PathResolver) (x : ResolvedEntry)
      → (cached_at env key p g t o r).0 ≡ some (ok x)
      → (e : PositiveEntry) × (o ≡ some (positive e)) × IsHit t p g e × (x ≡ entry_of e)
  unfolding cached_at
  cached_at_sound key t none r x h = cc
  cached_at_sound key t (some (negative e)) r x h = absurd (ground arith)
  cached_at_sound key t (some (positive e)) r x h = (
    e,
    refl,
    record { fresh = ground arith; same_parent = ground arith; same_generation = ground arith },
    ground arith,
  )

  -- An answer comes from an entry under the path's key that is fresh and was stored under the
  -- expected parent.
  pub IsHit-cached :
      (r : PathResolver) (x : ResolvedEntry)
      → (cached env path p g r).0 ≡ some (ok x)
      → (e : PositiveEntry) × (get (normalize_path env path) r.paths ≡ some (positive e))
        × IsHit (now env r) p g e
        × (x ≡ entry_of e)
  unfolding cached
  IsHit-cached r x h =
      let key = normalize_path env path in
      elim (Bool-cases (text_eq key root_path)) [
        | inl e ↦ absurd (ground arith)
        | inr e ↦ cached_at_sound key (now env r) (get key r.paths) (tick r) x (rw (e, cached) at h)
      ]

-- For a resolver that satisfies its invariant and a path other than the root: `cached` answers with
-- an inode exactly when the path's key holds a positive entry that is fresh at the reading of the
-- clock and was stored under the expected parent and generation; the answer is that entry's inode.
pub cached-eq-IsHit_iff :
    (env : Env) (path : Text) (p g : ℕ) (r : PathResolver) (x : ResolvedEntry)
    → IsAccounted r
    → text_eq (normalize_path env path) root_path ≡ false
    → ((cached env path p g r).0 ≡ some (ok x)) ↔ (
        (e : PositiveEntry) × (get (normalize_path env path) r.paths ≡ some (positive e))
        × IsHit (now env r) p g e
        × (x ≡ entry_of e))
cached-eq-IsHit_iff env path p g r x a nr = (
  IsHit-cached env path p g r x,
  λ (e, f, h, same). rw same (cached-IsHit env path p g r e a nr f h),
)

-- The reading of the clock at which an operation stored its entry: its last one.
abbrev pub last_reading : Env → PathResolver → ℕ
last_reading env r = elim r.reads [ zero ↦ env.clock 0 | suc n ↦ env.clock n ]

module _ (env : Env) where
  -- The answer for a path whose entry and inode are known.
  hit :
      (path : Text) (p g : ℕ) (r : PathResolver) (e : PositiveEntry) (s : InodeState)
      → text_eq (normalize_path env path) root_path ≡ false
      → get (normalize_path env path) r.paths ≡ some (positive e)
      → r.inodes e.ino ≡ some s
      → IsHit (now env r) p g e
      → (cached env path p g r).0 ≡ some (ok (entry_of e))
  unfolding cached cached_at
  hit path p g r e s nr f known h = rw (nr, cached) (rw (f, cached_at) (ground arith))

  module _ (rec : PositivePathRecord) where
    stored : List (ℕ × ℕ) → PathResolver → PathResolver
    unfolding remember_positive_inode store_positive_path_entry
    stored l r = remember_positive_inode rec (
        store_positive_path_entry env (normalize_path env rec.path) rec
          (increment_outstanding_lookup rec.attr.ino l) r)

    store_positive-stored :
        (l : List (ℕ × ℕ)) (r : PathResolver)
        → (rec.ttl == 0) ≡ false
        → store_positive env (normalize_path env rec.path) rec (l, r) ≡ stored l r
    unfolding store_positive stored
    store_positive-stored l r nz = rw (nz, store_positive)

    -- The answer for the recorded path within the time to live, in a state after the store.
    Answers : PathResolver → Type 0
    Answers q =
        now env q < last_reading env q + rec.ttl
        → (cached env rec.path rec.parent rec.parent_generation q).0
          ≡ some (ok (record { ino = rec.attr.ino; generation = rec.generation }))

    Answers-stored :
        (l : List (ℕ × ℕ)) (r : PathResolver)
        → text_eq (normalize_path env rec.path) root_path ≡ false
        → Answers (stored l r)
    unfolding Answers stored counted_inode
    Answers-stored l r nr fresh =
        hit rec.path rec.parent rec.parent_generation (stored l r) _
          (counted_inode rec (r.inodes rec.attr.ino)) nr
          (get-insert_self (normalize_path env rec.path) _ r.paths) (ground arith)
          (record { fresh = fresh; same_parent = refl; same_generation = refl })

    -- A lookup of a path other than the root that is remembered with a time to live that is not zero
    -- is answered from the cache, for the same parent and generation, as long as the clock is below the
    -- reading at which it was stored plus the time to live.
    pub cached-remember_positive :
        (r : PathResolver)
        → let r' = (remember_positive env rec r).1 in
          (rec.ttl == 0) ≡ false
          → text_eq (normalize_path env rec.path) root_path ≡ false
          → now env r' < last_reading env r' + rec.ttl
          → (cached env rec.path rec.parent rec.parent_generation r').0
            ≡ some (ok (record { ino = rec.attr.ino; generation = rec.generation }))
    unfolding remember_positive Answers
    cached-remember_positive r nz nr =
        let t =
          take_reusable_outstanding env (normalize_path env rec.path) rec.attr.ino rec.ttl r in
        subst Answers (sym (store_positive-stored t.0 t.1 nz)) (Answers-stored t.0 t.1 nr)
