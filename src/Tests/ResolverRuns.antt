-- ===== src/Tests/ResolverRuns.antt =====
-- Runs of the resolver, and its theorems at concrete states.
use confuse.Common.Text.{is_empty, Text, text_eq, ends_with}
use confuse.Common.{
  any, false, ℕ, ◌+◌, ◌<◌, ◌≤◌, ◌≡◌, refl, ◌↔◌, none, some, List, [], ◌∷◌, ◌++◌, map, ◌==◌,
  if◌then◌else◌, ok, err, arith, u64_max,
}
use confuse.Common.Int.{pos, i64_max}
use confuse.Common.Assoc.{get, remove, insert}
use confuse.Facade.Errno.{enoent}
use confuse.Resolver.State.{
  PositiveEntry, positive, ResolvedEntry, default, refcount, balance, count_of, now,
}
use confuse.Resolver.Path.{normalized_components, key_of, normalize_path}
use confuse.Resolver.Ops.{cached, remember_positive}
use confuse.Resolver.Attrs.{cached_attr, invalidate_inode_attr, remember_attr}
use confuse.Resolver.Invalidate.{
  remember_negative, reap_expired, invalidate_entry, invalidate_subtree,
  invalidate_entry_from_notify,
}
use confuse.Resolver.Accounts.{IsAccounted, default-IsAccounted}
use confuse.Resolver.Stores.{remember_positive-IsAccounted}
use confuse.Resolver.Remembering.{balance-remember_positive}
use confuse.Resolver.Refs.{
  release_outstanding, increment_outstanding_lookup, clear_expiries, clear_expiry,
}
use confuse.Resolver.History
use confuse.Resolver.History.{
  granted_by, Call, remembers, looks_up, invalidates_subtree, invalidates_entry_from_notify, run,
  granted, run-balance, lost, lost_by, is_notification,
}
use confuse.Resolver.Hits.{IsHit, entry_of, cached-eq-IsHit_iff, cached-remember_positive}
use confuse.Resolver.Removal.{IsUnder, alive, get-invalidate_subtree, get-reap_expired}
use confuse.Resolver.Answers.{
  cached-remember_negative, cached-remember_negative_off, cached_attr-remember_attr,
  cached_attr-invalidate_inode_attr,
}
use confuse.Resolver.Notify.{notify_loses_lookups}
use confuse.Resolver.Normal.{
  All, IsComponent, IsLowercase, normalized_components-components, normalized_components-key_of,
  normalize_path_twice, normalize_path-eq_iff,
}
use confuse.Helpers.Names.{
  split_parent_and_name, child_path_from_parent, rename_descendant_path_key,
}
use confuse.Helpers.Splitting.{split_parent_and_name-child_path, rename_descendant_path_key-back}
use confuse.Helpers.Ranges.{checked_lock_range, checked_lock_range-eq_ok_iff}
use confuse.Tests.Data.{
  test_env, path_a, path_b, name_a, name_b, file_attr, record_a, stored, stored-IsAccounted,
}

-- The file is looked up twice, read from the cache, and its subtree dropped.
abbrev history : List Call
history =
    remembers record_a ∷ looks_up path_a 1 0 ∷ remembers record_a ∷ invalidates_subtree path_a ∷ []

history_forgets : (run test_env history default).0 ≡ (7, 2) ∷ []
unfolding run default History.step invalidate_subtree remember_positive insert text_eq
    normalize_path remove get cached release_outstanding increment_outstanding_lookup clear_expiries
    clear_expiry
history_forgets = refl

-- The same with a notification in place of the last call.
abbrev notified : List Call
notified =
    remembers record_a
    ∷ looks_up path_a 1 0
    ∷ remembers record_a
    ∷ invalidates_entry_from_notify 1 name_a
    ∷ []

notified-bounded : (j : ℕ) → granted j notified ≤ u64_max
unfolding granted granted_by
notified-bounded j = ground arith

two_lost : lost test_env 7 notified default ≡ 2
unfolding lost lost_by default History.step invalidate_entry remember_positive insert text_eq
    normalize_path remove get cached release_outstanding increment_outstanding_lookup clear_expiries
    clear_expiry count_of
two_lost = refl

run-balance_example :
    ((i : ℕ)
      → count_of i (run test_env notified default).0
          + balance (run test_env notified default).1 i
          + lost test_env i notified default
        ≡ balance default i + granted i notified)
    × IsAccounted (run test_env notified default).1
    × (any is_notification notified ≡ false → (i : ℕ) → lost test_env i notified default ≡ 0)
unfolding balance default refcount count_of
run-balance_example =
    run-balance test_env notified default (λ j. omega (arith, notified-bounded j))
      default-IsAccounted

cached-eq-IsHit_iff_example :
    ((cached test_env path_a 1 0 stored).0 ≡ some (ok (record { ino = 7; generation = 3 }))) ↔ (
      (e : PositiveEntry) × (get (normalize_path test_env path_a) stored.paths ≡ some (positive e))
      × IsHit (now test_env stored) 1 0 e
      × (◌≡◌ {A = ResolvedEntry} (record { ino = 7; generation = 3 }) (entry_of e)))
unfolding text_eq normalize_path
cached-eq-IsHit_iff_example =
    cached-eq-IsHit_iff test_env path_a 1 0 stored (record { ino = 7; generation = 3 })
      stored-IsAccounted refl

cached-remember_positive_example :
    (cached test_env path_a 1 0 stored).0 ≡ some (ok (record { ino = 7; generation = 3 }))
unfolding text_eq normalize_path remember_positive
cached-remember_positive_example =
    cached-remember_positive test_env record_a default refl refl (unfold default in omega arith)

-- `\ab` is not below `\a`.
abbrev path_ab : Text
path_ab = 92 ∷ 97 ∷ 98 ∷ []

get-invalidate_subtree_example :
    (IsUnder (normalize_path test_env path_a) path_ab
      → get path_ab (invalidate_subtree test_env path_a stored).1.paths ≡ none)
    × (¬ IsUnder (normalize_path test_env path_a) path_ab
        → get path_ab (invalidate_subtree test_env path_a stored).1.paths
          ≡ get path_ab stored.paths)
get-invalidate_subtree_example =
    get-invalidate_subtree test_env path_a path_ab stored stored-IsAccounted

get-reap_expired_example :
    get path_a (reap_expired test_env stored).1.paths
    ≡ alive (now test_env stored) (get path_a stored.paths)
get-reap_expired_example = get-reap_expired test_env stored path_a stored-IsAccounted

cached-remember_negative_example :
    (cached test_env path_b 1 0 (remember_negative test_env path_b 1 0 name_b default)).0
    ≡ some (err enoent)
unfolding default text_eq normalize_path remember_negative get
cached-remember_negative_example =
    cached-remember_negative test_env path_b 1 0 name_b default 1_000_000_000 refl refl
      (unfold default in omega arith)

cached-remember_negative_off_example :
    (cached test_env path_a 1 0
      (remember_negative test_env path_a 1 0 name_a (record default { negative_ttl = none }))).0
    ≡ none
unfolding default refcount
cached-remember_negative_off_example =
    cached-remember_negative_off test_env path_a 1 0 name_a (record default { negative_ttl = none })
      (record {
        distinct = default-IsAccounted.distinct;
        counted = default-IsAccounted.counted;
        held = default-IsAccounted.held;
      })
      refl

cached_attr-remember_attr_example :
    (cached_attr test_env 7 (remember_attr test_env 7 file_attr 50 default)).0 ≡ some file_attr
unfolding remember_attr
cached_attr-remember_attr_example =
    cached_attr-remember_attr test_env 7 file_attr 50 default refl (unfold default in omega arith)

cached_attr-invalidate_inode_attr_example :
    (cached_attr test_env 7 (invalidate_inode_attr test_env 7 stored)).0 ≡ none
cached_attr-invalidate_inode_attr_example = cached_attr-invalidate_inode_attr test_env 7 stored

remember_positive-IsAccounted_example : IsAccounted (remember_positive test_env record_a default).1
unfolding refcount default
remember_positive-IsAccounted_example =
    remember_positive-IsAccounted test_env record_a default default-IsAccounted (omega arith)

balance-remember_positive_example :
    balance (remember_positive test_env record_a default).1 7
    ≡ balance default 7 + (if 7 == 7 then 1 else 0)
unfolding refcount default
balance-remember_positive_example =
    balance-remember_positive test_env record_a default 7 (omega arith)

notify_loses_lookups_example :
    balance (invalidate_entry_from_notify test_env 1 name_a stored) 7 < balance stored 7
unfolding get remember_positive insert text_eq normalize_path default increment_outstanding_lookup
notify_loses_lookups_example =
    notify_loses_lookups test_env 1 name_a path_a stored
      (record {
        parent = 1;
        parent_generation = 0;
        name = name_a;
        ino = 7;
        generation = 3;
        entry_expires = 100;
        outstanding = (7, 1) ∷ [];
      })
      stored-IsAccounted refl refl refl

name_a-IsComponent : IsComponent name_a
unfolding is_empty ends_with text_eq
name_a-IsComponent = record {
  piece = (refl, tt);
  full = refl;
  no_drive = refl;
  no_dot = refl;
  no_dot_dot = refl;
}

name_b-IsComponent : IsComponent name_b
unfolding is_empty ends_with text_eq
name_b-IsComponent = record {
  piece = (refl, tt);
  full = refl;
  no_drive = refl;
  no_dot = refl;
  no_dot_dot = refl;
}

components_ab : All IsComponent (name_a ∷ name_b ∷ [])
components_ab = (name_a-IsComponent, (name_b-IsComponent, tt))

same-IsLowercase : IsLowercase test_env.to_lowercase
same-IsLowercase = record { keeps = λ p h. h; twice = λ p. refl }

-- `\..\a\..\..\b`
abbrev climbing : Text
climbing = 92 ∷ 46 ∷ 46 ∷ 92 ∷ 97 ∷ 92 ∷ 46 ∷ 46 ∷ 92 ∷ 46 ∷ 46 ∷ 92 ∷ 98 ∷ []

climbing_components : normalized_components climbing ≡ name_b ∷ []
unfolding normalized_components
climbing_components = refl

normalized_components-components_example : All IsComponent (normalized_components climbing)
normalized_components-components_example = normalized_components-components climbing

normalized_components-key_of_example :
    normalized_components (key_of (name_a ∷ name_b ∷ [])) ≡ name_a ∷ name_b ∷ []
normalized_components-key_of_example =
    normalized_components-key_of (name_a ∷ name_b ∷ []) components_ab

normalize_path_twice_example :
    normalize_path test_env (normalize_path test_env climbing) ≡ normalize_path test_env climbing
normalize_path_twice_example = normalize_path_twice test_env same-IsLowercase climbing

normalize_path-eq_iff_example :
    (normalize_path test_env climbing ≡ normalize_path test_env path_b) ↔ (
      map test_env.to_lowercase (normalized_components climbing)
      ≡ map test_env.to_lowercase (normalized_components path_b))
normalize_path-eq_iff_example = normalize_path-eq_iff test_env same-IsLowercase climbing path_b

split_parent_and_name-child_path_example :
    split_parent_and_name (child_path_from_parent (key_of (name_a ∷ [])) name_b)
    ≡ (key_of (name_a ∷ []), name_b)
split_parent_and_name-child_path_example =
    split_parent_and_name-child_path (name_a ∷ []) name_b (name_a-IsComponent, tt)
      name_b-IsComponent

rename_descendant_path_key-back_example :
    rename_descendant_path_key path_b path_a (path_b ++ path_b) ≡ some (path_a ++ path_b)
unfolding rename_descendant_path_key
rename_descendant_path_key-back_example =
    rename_descendant_path_key-back path_a path_b (path_a ++ path_b) (path_b ++ path_b) refl refl
      refl

checked_lock_range-eq_ok_iff_example :
    (checked_lock_range (pos 4) (pos 6) ≡ ok (4, 10))
    ↔ ((n : ℕ) × (pos 4 ≡ pos 4) × (pos 6 ≡ pos n) × (10 ≡ 4 + n) × (10 ≤ i64_max))
checked_lock_range-eq_ok_iff_example = checked_lock_range-eq_ok_iff (pos 4) (pos 6) 4 10
