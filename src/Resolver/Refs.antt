-- ===== src/Resolver/Refs.antt =====
-- src/dokan_impl/adapter/state.rs: giving back lookups, and what it does to the counts.
use confuse.Common.{
  ℕ, ◌+◌, ◌-◌, ◌<◌, min, ◌≡◌, refl, ◌∙◌, Bool, false, ◌||◌, Option, none, some, List, [], ◌∷◌, ◌++◌,
  ◌==◌, ltb, if◌then◌else◌, arith, saturating_add, u64_max,
}
use confuse.Resolver.State.{Env, InodeState, PathResolver, update, now, tick, count_of, refcount}

pub count_of-append :
    (i : ℕ) (l m : List (ℕ × ℕ)) → count_of i (l ++ m) ≡ count_of i l + count_of i m
unfolding count_of
count_of-append i [] m = omega arith
count_of-append i ((j, n) ∷ l) m = omega (arith, count_of-append i l m)

-- `state.attr_expires = None` for one inode, where it is known.
unfoldable pub clear_expiry : ℕ → PathResolver → PathResolver
clear_expiry ino r = elim (r.inodes ino) [
  | none ↦ r
  | some s ↦ record r { inodes = update r.inodes ino (record s { attr_expires = none }) }
]

unfoldable pub clear_expiries : List (ℕ × ℕ) → PathResolver → PathResolver
clear_expiries [] r = r
clear_expiries ((ino, n) ∷ l) r = clear_expiries l (clear_expiry ino r)

unfoldable pub is_live : ℕ → InodeState → Bool
is_live t s = ltb 0 s.lookup_refcount || elim s.attr_expires [ none ↦ false | some e ↦ ltb t e ]

unfoldable pub retain : ℕ → Option InodeState → Option InodeState
unfolding is_live
retain t none = none
retain t (some s) = if is_live t s then some s else none

unfoldable pub retain_live_inodes : Env → PathResolver → PathResolver
unfolding retain
retain_live_inodes env r = tick (record r { inodes = λ i. retain (now env r) (r.inodes i) })

-- One round of the loop of `release_outstanding`.
unfoldable pub release_one : ℕ → ℕ → PathResolver → PathResolver
release_one ino count r = elim (r.inodes ino) [
  | none ↦ r
  | some s ↦
      let nlookup = min s.lookup_refcount count in
      let s' : InodeState = record s { lookup_refcount = s.lookup_refcount - nlookup } in
      record r {
        inodes = update r.inodes ino s';
        pending_forgets =
            if ltb 0 nlookup then r.pending_forgets ++ (ino, nlookup) ∷ [] else r.pending_forgets;
      }
]

unfoldable pub release_each : List (ℕ × ℕ) → PathResolver → PathResolver
unfolding release_one
release_each [] r = r
release_each ((ino, count) ∷ l) r = release_each l (release_one ino count r)

unfoldable pub release_outstanding : Env → List (ℕ × ℕ) → PathResolver → PathResolver
unfolding release_each retain_live_inodes
release_outstanding env outstanding r = retain_live_inodes env (release_each outstanding r)

unfoldable pub increment_outstanding_lookup : ℕ → List (ℕ × ℕ) → List (ℕ × ℕ)
increment_outstanding_lookup ino [] = (ino, 1) ∷ []
increment_outstanding_lookup ino ((j, n) ∷ l) =
    let rest = increment_outstanding_lookup ino l in
    if j == ino then (j, saturating_add n 1) ∷ l else (j, n) ∷ rest

refcount-release_one :
    (ino count : ℕ) (r : PathResolver) (i : ℕ)
    → refcount (release_one ino count r) i
      ≡ (if ino == i then refcount r i - count else refcount r i)
unfolding refcount release_one
refcount-release_one ino count r i = ground arith

pending-release_one :
    (ino count : ℕ) (r : PathResolver) (i : ℕ)
    → count_of i (release_one ino count r).pending_forgets
      ≡ count_of i r.pending_forgets + (if ino == i then min (refcount r i) count else 0)
unfolding refcount release_one count_of
pending-release_one ino count r i =
    ground (arith, count_of-append i r.pending_forgets ((ino, min (refcount r ino) count) ∷ []))

refcount-release_each :
    (l : List (ℕ × ℕ)) (r : PathResolver) (i : ℕ)
    → refcount (release_each l r) i ≡ refcount r i - count_of i l
unfolding release_each count_of
refcount-release_each [] r i = omega arith
refcount-release_each ((j, n) ∷ l) r i =
    ground (arith, refcount-release_each l (release_one j n r) i, refcount-release_one j n r i)

pending-release_each :
    (l : List (ℕ × ℕ)) (r : PathResolver) (i : ℕ)
    → count_of i (release_each l r).pending_forgets
      ≡ count_of i r.pending_forgets + min (refcount r i) (count_of i l)
unfolding release_each count_of
pending-release_each [] r i = omega arith
pending-release_each ((j, n) ∷ l) r i = ground (
  arith,
  pending-release_each l (release_one j n r) i,
  refcount-release_one j n r i,
  pending-release_one j n r i,
)

paths-release_one : (ino count : ℕ) (r : PathResolver) → (release_one ino count r).paths ≡ r.paths
unfolding release_one
paths-release_one ino count r = ground arith

paths-release_each : (l : List (ℕ × ℕ)) (r : PathResolver) → (release_each l r).paths ≡ r.paths
unfolding release_each
paths-release_each [] r = refl
paths-release_each ((j, n) ∷ l) r =
    paths-release_each l (release_one j n r) ∙ paths-release_one j n r

pub refcount-retain :
    (env : Env) (r : PathResolver) (i : ℕ) → refcount (retain_live_inodes env r) i ≡ refcount r i
unfolding refcount retain_live_inodes
refcount-retain env r i = ground arith

-- Releasing takes the listed lookups off the counts, as far as the counts go.
pub refcount-release :
    (env : Env) (l : List (ℕ × ℕ)) (r : PathResolver) (i : ℕ)
    → refcount (release_outstanding env l r) i ≡ refcount r i - count_of i l
unfolding release_outstanding
refcount-release env l r i = refcount-retain env (release_each l r) i ∙ refcount-release_each l r i

-- What comes off a count goes to the queue of forgets.
pub pending-release :
    (env : Env) (l : List (ℕ × ℕ)) (r : PathResolver) (i : ℕ)
    → count_of i (release_outstanding env l r).pending_forgets
      ≡ count_of i r.pending_forgets + min (refcount r i) (count_of i l)
unfolding release_outstanding
pending-release env l r i = pending-release_each l r i

pub paths-release :
    (env : Env) (l : List (ℕ × ℕ)) (r : PathResolver)
    → (release_outstanding env l r).paths ≡ r.paths
unfolding release_outstanding
paths-release env l r = paths-release_each l r

refcount-clear_expiry :
    (ino : ℕ) (r : PathResolver) (i : ℕ) → refcount (clear_expiry ino r) i ≡ refcount r i
unfolding refcount clear_expiry
refcount-clear_expiry ino r i = ground arith

rest-clear_expiry :
    (ino : ℕ) (r : PathResolver)
    → ((clear_expiry ino r).paths ≡ r.paths)
      × ((clear_expiry ino r).pending_forgets ≡ r.pending_forgets)
unfolding clear_expiry
rest-clear_expiry ino r = ground arith

-- What dropping an attribute leaves alone.
pub clear_expiry_frame :
    (ino : ℕ) (r : PathResolver)
    → ((i : ℕ) → refcount (clear_expiry ino r) i ≡ refcount r i)
      × ((clear_expiry ino r).paths ≡ r.paths)
      × ((clear_expiry ino r).pending_forgets ≡ r.pending_forgets)
clear_expiry_frame ino r =
    (refcount-clear_expiry ino r, (rest-clear_expiry ino r).0, (rest-clear_expiry ino r).1)

pub clear_expiries_frame :
    (l : List (ℕ × ℕ)) (r : PathResolver)
    → ((i : ℕ) → refcount (clear_expiries l r) i ≡ refcount r i)
      × ((clear_expiries l r).paths ≡ r.paths)
      × ((clear_expiries l r).pending_forgets ≡ r.pending_forgets)
unfolding clear_expiries
clear_expiries_frame [] r = (λ i. refl, refl, refl)
clear_expiries_frame ((j, n) ∷ l) r =
    let (a, b, c) = clear_expiries_frame l (clear_expiry j r) in
    let (x, y, z) = clear_expiry_frame j r in (λ i. a i ∙ x i, b ∙ y, c ∙ z)

-- An increment is one more lookup of the inode, and no other.
pub count_of-increment :
    (ino : ℕ) (l : List (ℕ × ℕ)) (i : ℕ)
    → count_of ino l < u64_max
    → count_of i (increment_outstanding_lookup ino l) ≡ count_of i l + (if ino == i then 1 else 0)
unfolding count_of increment_outstanding_lookup
count_of-increment ino [] i h = ground arith
count_of-increment ino ((j, n) ∷ l) i h = ground (arith, count_of-increment ino l i)

negative_ttl-release_each :
    (l : List (ℕ × ℕ)) (r : PathResolver) → (release_each l r).negative_ttl ≡ r.negative_ttl
unfolding release_each
negative_ttl-release_each [] r = refl
negative_ttl-release_each ((j, n) ∷ l) r = negative_ttl-release_each l (release_one j n r) ∙ of_one
  where
    of_one : (release_one j n r).negative_ttl ≡ r.negative_ttl
    of_one = unfold release_one in ground arith

pub negative_ttl-release :
    (env : Env) (l : List (ℕ × ℕ)) (r : PathResolver)
    → (release_outstanding env l r).negative_ttl ≡ r.negative_ttl
unfolding release_outstanding
negative_ttl-release env l r = negative_ttl-release_each l r

pub negative_ttl-clear_expiries :
    (l : List (ℕ × ℕ)) (r : PathResolver) → (clear_expiries l r).negative_ttl ≡ r.negative_ttl
unfolding clear_expiries
negative_ttl-clear_expiries [] r = refl
negative_ttl-clear_expiries ((j, n) ∷ l) r =
    negative_ttl-clear_expiries l (clear_expiry j r) ∙ of_one
  where
    of_one : (clear_expiry j r).negative_ttl ≡ r.negative_ttl
    of_one = unfold clear_expiry in ground arith
