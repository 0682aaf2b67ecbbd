-- ===== src/Resolver/Removal.antt =====
-- src/dokan_impl/adapter/state.rs: which cached paths `reap_expired` and the invalidations drop.
use confuse.Common.{
  ℕ, ◌≡◌, refl, ◌∙◌, ap, Bool, true, false, ◌||◌, Option, none, some, List, [], ◌∷◌, if◌then◌else◌,
  arith, inl, inr, ◌++◌, ltb, Bool-cases,
}
use confuse.Common.Text.{Text, text_eq, text_eq_iff, starts_with, starts_with-append, ends_with}
use mathlib.Core.List.{append_assoc}
use confuse.Common.Assoc.{get, remove, Distinct, get-remove_self, get-remove_ne, remove-Distinct}
use confuse.Resolver.State.{
  Env, PathCacheEntry, positive, negative, PathResolver, tick, now, take_pending_forgets,
}
use confuse.Resolver.Path.{backslash, normalize_path}
use confuse.Resolver.Refs.{retain_live_inodes, paths-release}
use confuse.Resolver.Ops.{drop_path, release_entry}
use confuse.Resolver.Invalidate.{
  invalidate_key, matching_keys, is_expired, reap_each, reap_expired, invalidate_each,
  invalidate_matching, subtree_prefix, in_subtree, invalidate_subtree,
}
use confuse.Resolver.Accounts.{IsAccounted}
use confuse.Resolver.Stores.{paths-invalidate_key}

abbrev pub Paths : Type 0
Paths = List (Text × PathCacheEntry)

unfoldable pub remove_keys : List Text → Paths → Paths
remove_keys [] m = m
remove_keys (k ∷ ks) m = remove_keys ks (remove k m)

unfoldable pub has_key : Text → List Text → Bool
has_key k [] = false
has_key k (j ∷ ks) = text_eq j k || has_key k ks

get-remove_keys :
    (ks : List Text) (k : Text) (m : Paths)
    → Distinct m
    → get k (remove_keys ks m) ≡ (if has_key k ks then none else get k m)
unfolding remove_keys has_key
get-remove_keys [] k m d = refl
get-remove_keys (j ∷ ks) k m d = ground (
  arith,
  get-remove_keys ks k (remove j m) (remove-Distinct j m d),
  get-remove_self j m d,
  get-remove_ne j k m,
  text_eq_iff j k,
)

-- The entries that pass a test, as a test on what is found.
abbrev pub passes : (Text → PathCacheEntry → Bool) → Text → Option PathCacheEntry → Bool
passes matches k none = false
passes matches k (some e) = matches k e

not_has_key :
    (matches : Text → PathCacheEntry → Bool) (k : Text) (m : Paths)
    → get k m ≡ none
    → has_key k (matching_keys matches m) ≡ false
unfolding has_key matching_keys get
not_has_key matches k [] h = refl
not_has_key matches k ((j, e) ∷ m) h = ground (arith, not_has_key matches k m)

pub has_key-matching_keys :
    (matches : Text → PathCacheEntry → Bool) (k : Text) (m : Paths)
    → Distinct m
    → has_key k (matching_keys matches m) ≡ passes matches k (get k m)
unfolding has_key matching_keys get
has_key-matching_keys matches k [] d = refl
has_key-matching_keys matches k ((j, e) ∷ m) d =
    ground
      (arith, has_key-matching_keys matches k m d.1, not_has_key matches j m d.0, text_eq_iff j k)

-- What is left of an entry when those that pass a test are dropped.
abbrev pub unless :
    (Text → PathCacheEntry → Bool) → Text → Option PathCacheEntry → Option PathCacheEntry
unless matches k none = none
unless matches k (some e) = if matches k e then none else some e

get-remove_matching :
    (matches : Text → PathCacheEntry → Bool) (k : Text) (m : Paths)
    → Distinct m
    → get k (remove_keys (matching_keys matches m) m) ≡ unless matches k (get k m)
get-remove_matching matches k m d =
    ground
      (arith, get-remove_keys (matching_keys matches m) k m d, has_key-matching_keys matches k m d)

-- What reaping should keep: an entry that expires behind the given time.
abbrev pub expiry : PathCacheEntry → ℕ
expiry (positive e) = e.entry_expires
expiry (negative e) = e.expires

abbrev pub alive : ℕ → Option PathCacheEntry → Option PathCacheEntry
alive t none = none
alive t (some e) = if ltb t (expiry e) then some e else none

-- A key at another key or below it. Of the keys of paths, that of the root alone ends with a
-- separator.
pub data IsUnder (key k : Text) : Type 0 where
  at_key : k ≡ key → IsUnder key k
  below_separator : (rest : Text) → ends_with backslash key ≡ true → k ≡ key ++ rest → IsUnder key k
  below_key : (rest : Text) → k ≡ key ++ (backslash ∷ rest) → IsUnder key k

starts_with-subtree_prefix :
    (key k : Text) → IsUnder key k → (text_eq k key || starts_with (subtree_prefix key) k) ≡ true
unfolding subtree_prefix
starts_with-subtree_prefix key k (at_key e) = ground (arith, text_eq_iff k key)
starts_with-subtree_prefix key k (below_separator rest ends e) =
    rw e (ground (arith, ends, starts_with-append key rest))
starts_with-subtree_prefix key k (below_key rest e) = rw e (
    ground (
      arith,
      starts_with-append key (backslash ∷ rest),
      starts_with-append (key ++ (backslash ∷ [])) rest,
      append_assoc key (backslash ∷ []) rest,
    ))

rest_of : (p s : Text) → starts_with p s ≡ true → (rest : Text) × (s ≡ p ++ rest)
unfolding starts_with
rest_of [] s h = (s, refl)
rest_of (c ∷ p) [] h = absurd (ground arith)
rest_of (c ∷ p) (d ∷ s) h = let (rest, e) = rest_of p s (ground arith) in (rest, ground (arith, e))

subtree_prefix-IsUnder :
    (key k : Text) → (text_eq k key || starts_with (subtree_prefix key) k) ≡ true → IsUnder key k
unfolding subtree_prefix
subtree_prefix-IsUnder key k h = elim (Bool-cases (text_eq k key)) [
  | inl same ↦ at_key ((text_eq_iff k key).0 same)
  | inr other ↦ elim (Bool-cases (ends_with backslash key)) [
    | inl ends ↦ let (rest, e) = rest_of key k (ground arith) in below_separator rest ends e
    | inr open_end ↦
        let (rest, e) = rest_of (key ++ (backslash ∷ [])) k (ground arith) in
        below_key rest (e ∙ append_assoc key (backslash ∷ []) rest)
  ]
]

module _ (env : Env) where
  pub paths-invalidate_each :
      (ks : List Text) (r : PathResolver)
      → (invalidate_each env ks r).paths ≡ remove_keys ks r.paths
  unfolding invalidate_each remove_keys
  paths-invalidate_each [] r = refl
  paths-invalidate_each (k ∷ ks) r =
      paths-invalidate_each ks (invalidate_key env k r)
      ∙ ap (remove_keys ks) (paths-invalidate_key env k r)

  paths-release_entry :
      (o : Option PathCacheEntry) (r : PathResolver) → (release_entry env o r).paths ≡ r.paths
  unfolding release_entry
  paths-release_entry none r = refl
  paths-release_entry (some (negative e)) r = refl
  paths-release_entry (some (positive e)) r = paths-release env e.outstanding r

  paths-reap_each :
      (ks : List Text) (r : PathResolver) → (reap_each env ks r).paths ≡ remove_keys ks r.paths
  unfolding reap_each remove_keys drop_path
  paths-reap_each [] r = refl
  paths-reap_each (k ∷ ks) r =
      paths-reap_each ks (release_entry env (get k r.paths) (drop_path k r))
      ∙ ap (remove_keys ks) (paths-release_entry (get k r.paths) (drop_path k r))

  -- `invalidate_matching` drops the entries that pass the test, and no other.
  pub get-invalidate_matching :
      (matches : Text → PathCacheEntry → Bool) (r : PathResolver) (k : Text)
      → IsAccounted r
      → get k (invalidate_matching env matches r).1.paths ≡ unless matches k (get k r.paths)
  unfolding invalidate_matching take_pending_forgets retain_live_inodes
  get-invalidate_matching matches r k a =
      ap (get k) (paths-invalidate_each (matching_keys matches r.paths) r)
      ∙ get-remove_matching matches k r.paths a.distinct

  subtree-at :
      (path k : Text) (r : PathResolver)
      → IsAccounted r
      → get k (invalidate_subtree env path r).1.paths ≡ (
          if text_eq k (normalize_path env path)
            || starts_with (subtree_prefix (normalize_path env path)) k
          then none
          else get k r.paths)
  unfolding invalidate_subtree in_subtree
  subtree-at path k r a =
      ground (arith, get-invalidate_matching (in_subtree (normalize_path env path)) r k a)

  -- For a resolver that satisfies its invariant: invalidating a subtree drops each entry whose key is
  -- the key of the path, or that key and a separator with anything behind them (anything behind the
  -- key, where it ends with a separator as that of the root does), and leaves every other entry as it was.
  pub get-invalidate_subtree :
      (path k : Text) (r : PathResolver)
      → IsAccounted r
      → (IsUnder (normalize_path env path) k → get k (invalidate_subtree env path r).1.paths ≡ none)
        × (¬ IsUnder (normalize_path env path) k
            → get k (invalidate_subtree env path r).1.paths ≡ get k r.paths)
  get-invalidate_subtree path k r a = (
    λ under. ground (
      arith,
      subtree-at path k r a,
      starts_with-subtree_prefix (normalize_path env path) k under,
    ),
    λ apart.
        elim (Bool-cases (
          text_eq k (normalize_path env path)
          || starts_with (subtree_prefix (normalize_path env path)) k)) [
            | inl e ↦ absurd (apart (subtree_prefix-IsUnder (normalize_path env path) k e))
            | inr e ↦ ground (arith, subtree-at path k r a)
          ],
  )

  reaped :
      (r : PathResolver) (k : Text)
      → IsAccounted r
      → get k (reap_expired env r).1.paths ≡ unless (is_expired (now env r)) k (get k r.paths)
  unfolding reap_expired take_pending_forgets
  reaped r k a =
      ap (get k) (paths-reap_each (matching_keys (is_expired (now env r)) r.paths) (tick r))
      ∙ get-remove_matching (is_expired (now env r)) k r.paths a.distinct

  alive_lem : (t : ℕ) (k : Text) (o : Option PathCacheEntry) → unless (is_expired t) k o ≡ alive t o
  unfolding is_expired
  alive_lem t k none = refl
  alive_lem t k (some (positive e)) = ground arith
  alive_lem t k (some (negative e)) = ground arith

  -- For a resolver that satisfies its invariant: reaping keeps each entry that expires later than the
  -- reading of the clock, as it was, and drops every other entry.
  pub get-reap_expired :
      (r : PathResolver) (k : Text)
      → IsAccounted r
      → get k (reap_expired env r).1.paths ≡ alive (now env r) (get k r.paths)
  get-reap_expired r k a = reaped r k a ∙ alive_lem (now env r) k (get k r.paths)
