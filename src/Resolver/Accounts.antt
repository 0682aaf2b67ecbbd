-- ===== src/Resolver/Accounts.antt =====
-- src/dokan_impl/adapter/state.rs: the invariant of `PathResolver`, and the steps that keep it.
use confuse.Common.{
  ℕ, ◌+◌, ◌<◌, ◌≡◌, refl, sym, ◌∙◌, ap, Option, none, some, List, [], ◌∷◌, arith, u64_max,
}
use confuse.Common.Text.{Text}
use confuse.Common.Assoc.{get, remove, insert, Distinct, remove-Distinct, get-remove_self}
use confuse.Resolver.State.{
  Env, PositivePathRecord, PathCacheEntry, positive, negative, PathResolver, tick, count_of,
  refcount, owed_at, owed, default, take_pending_forgets,
}
use confuse.Resolver.Refs.{
  clear_expiry, clear_expiries, retain_live_inodes, release_outstanding,
  increment_outstanding_lookup, refcount-retain, refcount-release, paths-release,
  clear_expiry_frame, clear_expiries_frame, count_of-increment,
}
use confuse.Resolver.Invalidate.{store_negative}
use confuse.Resolver.Ops.{
  drop_path, queue_forget, store_positive_path_entry, remember_positive_inode,
}

-- Every cached path to an inode holds a lookup of it.
abbrev pub Held : List (Text × PathCacheEntry) → Type 0
Held [] = Unit {0}
Held ((k, positive e) ∷ m) = (0 < count_of e.ino e.outstanding) × Held m
Held ((k, negative e) ∷ m) = Held m

-- The inode table counts the lookups that the cached paths hold and those in `hand`, which an
-- operation has taken off a path and not yet released or stored.
pub record Accounts (hand : List (ℕ × ℕ)) (r : PathResolver) : Type 0 where
  pub distinct : Distinct r.paths
  pub counted : (i : ℕ) → refcount r i ≡ owed r.paths i + count_of i hand
  pub held : Held r.paths

abbrev pub IsAccounted : PathResolver → Type 0
IsAccounted = Accounts []

abbrev pub lookups_of : Option PathCacheEntry → List (ℕ × ℕ)
lookups_of none = []
lookups_of (some (positive e)) = e.outstanding
lookups_of (some (negative e)) = []

pub owed-remove :
    (k : Text) (m : List (Text × PathCacheEntry)) (i : ℕ)
    → owed (remove k m) i + count_of i (lookups_of (get k m)) ≡ owed m i
unfolding owed owed_at remove get count_of
owed-remove k [] i = refl
owed-remove k ((j, positive e) ∷ m) i = ground (arith, owed-remove k m i)
owed-remove k ((j, negative e) ∷ m) i = ground (arith, owed-remove k m i)

pub remove-Held : (k : Text) (m : List (Text × PathCacheEntry)) → Held m → Held (remove k m)
unfolding remove
remove-Held k [] h = tt
remove-Held k ((j, positive e) ∷ m) h = ground (arith, remove-Held k m h.1)
remove-Held k ((j, negative e) ∷ m) h = ground (arith, remove-Held k m h)

pub default-IsAccounted : IsAccounted default
unfolding default refcount owed count_of
default-IsAccounted = record { distinct = tt; counted = λ i. refl; held = tt }

-- What leaves the counts and the paths alone keeps the invariant.
pub Accounts-frame :
    {hand : List (ℕ × ℕ)} {r : PathResolver} (r' : PathResolver)
    → Accounts hand r
    → ((i : ℕ) → refcount r' i ≡ refcount r i)
    → r'.paths ≡ r.paths
    → Accounts hand r'
Accounts-frame {hand} r' a c p = record {
  distinct = rw p a.distinct;
  counted = λ i. c i ∙ a.counted i ∙ ap (λ m. owed m i + count_of i hand) (sym p);
  held = rw p a.held;
}

module _ (env : Env) where
  pub drop_path-Accounts :
      (key : Text) (r : PathResolver)
      → IsAccounted r
      → Accounts (lookups_of (get key r.paths)) (drop_path key r)
  unfolding drop_path refcount count_of
  drop_path-Accounts key r a = record {
    distinct = remove-Distinct key r.paths a.distinct;
    counted = λ i. omega (arith, a.counted i, owed-remove key r.paths i);
    held = remove-Held key r.paths a.held;
  }

  pub release-IsAccounted :
      (hand : List (ℕ × ℕ)) (r : PathResolver)
      → Accounts hand r
      → IsAccounted (release_outstanding env hand r)
  unfolding count_of
  release-IsAccounted hand r a = record {
    distinct = rw (paths-release env hand r) a.distinct;
    counted = λ i. omega (
      arith,
      refcount-release env hand r i,
      a.counted i,
      ap (λ m. owed m i) (paths-release env hand r),
    );
    held = rw (paths-release env hand r) a.held;
  }

  pub retain-Accounts :
      {hand : List (ℕ × ℕ)} (r : PathResolver)
      → Accounts hand r
      → Accounts hand (retain_live_inodes env r)
  unfolding retain_live_inodes
  retain-Accounts r a = Accounts-frame _ a (refcount-retain env r) refl

  pub clear_expiry-Accounts :
      {hand : List (ℕ × ℕ)} (ino : ℕ) (r : PathResolver)
      → Accounts hand r
      → Accounts hand (clear_expiry ino r)
  clear_expiry-Accounts ino r a = let (c, p, q) = clear_expiry_frame ino r in Accounts-frame _ a c p

  pub clear_expiries-Accounts :
      {hand : List (ℕ × ℕ)} (l : List (ℕ × ℕ)) (r : PathResolver)
      → Accounts hand r
      → Accounts hand (clear_expiries l r)
  clear_expiries-Accounts l r a = let (c, p, q) = clear_expiries_frame l r in Accounts-frame _ a c p

  pub tick-Accounts :
      {hand : List (ℕ × ℕ)} (r : PathResolver) → Accounts hand r → Accounts hand (tick r)
  unfolding refcount
  tick-Accounts r a = Accounts-frame _ a (λ i. refl) refl

  pub queue_forget-Accounts :
      {hand : List (ℕ × ℕ)} (ino : ℕ) (r : PathResolver)
      → Accounts hand r
      → Accounts hand (queue_forget ino r)
  unfolding queue_forget refcount
  queue_forget-Accounts ino r a = Accounts-frame _ a (λ i. refl) refl

  pub take-Accounts :
      {hand : List (ℕ × ℕ)} (r : PathResolver)
      → Accounts hand r
      → Accounts hand (take_pending_forgets r).1
  unfolding take_pending_forgets refcount
  take-Accounts r a = Accounts-frame _ a (λ i. refl) refl

  owed_absent :
      (k : Text) (m : List (Text × PathCacheEntry)) (i : ℕ)
      → get k m ≡ none
      → owed (remove k m) i ≡ owed m i
  unfolding count_of
  owed_absent k m i e = omega (arith, owed-remove k m i, ap (λ o. count_of i (lookups_of o)) e)

  -- Storing a path with the lookups in hand and one more, and counting that one.
  pub store-IsAccounted :
      (key : Text) (rec : PositivePathRecord) (hand : List (ℕ × ℕ)) (r : PathResolver)
      → Accounts hand r
      → get key r.paths ≡ none
      → refcount r rec.attr.ino < u64_max
      → IsAccounted (
          remember_positive_inode rec (
            store_positive_path_entry env key rec
              (increment_outstanding_lookup rec.attr.ino hand)
              r))
  unfolding store_positive_path_entry remember_positive_inode insert owed owed_at refcount count_of
  store-IsAccounted key rec hand r a absent h = record {
    distinct = (get-remove_self key r.paths a.distinct, remove-Distinct key r.paths a.distinct);
    counted = λ i. ground (
      arith,
      a.counted i,
      a.counted rec.attr.ino,
      owed_absent key r.paths i absent,
      count_of-increment rec.attr.ino hand i,
    );
    held = (
      ground (arith, a.counted rec.attr.ino, count_of-increment rec.attr.ino hand rec.attr.ino),
      remove-Held key r.paths a.held,
    );
  }

  -- The same for an entry that holds no lookup.
  pub store_negative-IsAccounted :
      (key : Text) (p g : ℕ) (name : Text) (ttl : Option ℕ) (r : PathResolver)
      → IsAccounted r
      → get key r.paths ≡ none
      → IsAccounted (store_negative env key p g name ttl r)
  unfolding store_negative insert owed owed_at refcount count_of
  store_negative-IsAccounted key p g name none r a absent = a
  store_negative-IsAccounted key p g name (some ttl) r a absent = record {
    distinct = (get-remove_self key r.paths a.distinct, remove-Distinct key r.paths a.distinct);
    counted = λ i. omega (arith, a.counted i, owed_absent key r.paths i absent);
    held = remove-Held key r.paths a.held;
  }
