-- ===== src/Resolver/History.antt =====
-- src/dokan_impl/adapter/state.rs: histories of calls of `PathResolver`, for every clock. A call
-- that returns forgets hands them to the file system.
use confuse.Common.{
  ℕ, ◌+◌, ◌≤◌, ◌≡◌, refl, List, [], ◌∷◌, ◌++◌, ◌==◌, if◌then◌else◌, arith, u64_max, Bool, true,
  false, any,
}
use confuse.Common.Text.{Text}
use confuse.Facade.Types.{FileAttr}
use confuse.Resolver.State.{
  Env, PositivePathRecord, PathResolver, count_of, refcount, balance, set_negative_ttl,
  take_pending_forgets,
}
use confuse.Resolver.Path.{normalize_path}
use confuse.Resolver.Refs.{count_of-append}
use confuse.Resolver.Ops.{cached, remember_positive}
use confuse.Resolver.Attrs.{cached_attr, invalidate_inode_attr, remember_attr}
use confuse.Resolver.Invalidate.{
  remember_negative, reap_expired, invalidate_entry, invalidate_entry_from_notify,
  invalidate_subtree, names_child, in_subtree,
}
use confuse.Resolver.Accounts.{IsAccounted, take-Accounts}
use confuse.Resolver.Balance.{
  balance-cached, balance-remember_negative, balance-cached_attr, balance-invalidate_inode_attr,
  balance-remember_attr, balance-take, balance-reap_expired, balance-invalidate_matching,
}
use confuse.Resolver.Remembering.{balance-remember_positive}
use confuse.Resolver.Invariant.{
  set_negative_ttl-IsAccounted, cached-IsAccounted, cached_attr-IsAccounted,
  invalidate_inode_attr-IsAccounted, remember_attr-IsAccounted, reap_expired-IsAccounted,
  invalidate_matching-IsAccounted,
}
use confuse.Resolver.Stores.{remember_negative-IsAccounted, remember_positive-IsAccounted}

pub data Call : Type 0 where
  looks_up : Text → ℕ → ℕ → Call
  remembers : PositivePathRecord → Call
  misses : Text → ℕ → ℕ → Text → Call
  reads_attr : ℕ → Call
  invalidates_attr : ℕ → Call
  stores_attr : ℕ → FileAttr → ℕ → Call
  sets_negative_ttl : ℕ → Call
  drains reaps : Call
  invalidates_entry : ℕ → Text → Call
  invalidates_entry_from_notify : ℕ → Text → Call
  invalidates_subtree : Text → Call

-- The forgets that a call hands out, and the state after it.
unfoldable pub step : Env → Call → PathResolver → List (ℕ × ℕ) × PathResolver
step env (looks_up path p g) r = ([], (cached env path p g r).1)
step env (remembers rec) r = ([], (remember_positive env rec r).1)
step env (misses path p g name) r = ([], remember_negative env path p g name r)
step env (reads_attr ino) r = ([], (cached_attr env ino r).1)
step env (invalidates_attr ino) r = ([], invalidate_inode_attr env ino r)
step env (stores_attr ino attr ttl) r = ([], remember_attr env ino attr ttl r)
step env (sets_negative_ttl ttl) r = ([], set_negative_ttl ttl r)
step env drains r = take_pending_forgets r
step env reaps r = reap_expired env r
step env (invalidates_entry p name) r = invalidate_entry env p name r
step env (invalidates_entry_from_notify p name) r = ([], invalidate_entry_from_notify env p name r)
step env (invalidates_subtree path) r = invalidate_subtree env path r

unfoldable pub run : Env → List Call → PathResolver → List (ℕ × ℕ) × PathResolver
run env [] r = ([], r)
run env (c ∷ cs) r =
    let (forgets, r') = step env c r in let (later, r'') = run env cs r' in (forgets ++ later, r'')

-- The lookups of an inode that a call reports as granted by the file system.
unfoldable pub granted_by : ℕ → Call → ℕ
granted_by i (remembers rec) = if rec.attr.ino == i then 1 else 0
granted_by i _ = 0

unfoldable pub granted : ℕ → List Call → ℕ
granted i [] = 0
granted i (c ∷ cs) = granted_by i c + granted i cs

unfoldable pub is_notification : Call → Bool
is_notification (invalidates_entry_from_notify p name) = true
is_notification _ = false

-- The lookups of an inode that a call drops without handing out a forget: a notification drops those
-- that `invalidate_entry` would hand out.
unfoldable pub lost_by : Env → ℕ → Call → PathResolver → ℕ
lost_by env i (invalidates_entry_from_notify p name) r =
    count_of i (invalidate_entry env p name r).0
lost_by env i _ r = 0

unfoldable pub lost : Env → ℕ → List Call → PathResolver → ℕ
lost env i [] r = 0
lost env i (c ∷ cs) r = lost_by env i c r + lost env i cs (step env c r).1

balance-set_negative_ttl :
    (ttl : ℕ) (r : PathResolver) (i : ℕ) → balance (set_negative_ttl ttl r) i ≡ balance r i
unfolding set_negative_ttl balance refcount
balance-set_negative_ttl ttl r i = refl

pub refcount-le-balance : (r : PathResolver) (i : ℕ) → refcount r i ≤ balance r i
unfolding balance
refcount-le-balance r i = omega arith

module _ (env : Env) where
  step-balance :
      (c : Call) (r : PathResolver) (i : ℕ)
      → ((j : ℕ) → balance r j + granted_by j c ≤ u64_max)
      → count_of i (step env c r).0 + balance (step env c r).1 i + lost_by env i c r
        ≡ balance r i + granted_by i c
  unfolding step granted_by count_of lost_by
  step-balance (looks_up path p g) r i h = omega (arith, balance-cached env path p g r i)
  step-balance (remembers rec) r i h = omega (
    arith,
    balance-remember_positive env rec r i
        (ground (arith, h rec.attr.ino, refcount-le-balance r rec.attr.ino)),
  )
  step-balance (misses path p g name) r i h =
      omega (arith, balance-remember_negative env path p g name r i)
  step-balance (reads_attr ino) r i h = omega (arith, balance-cached_attr env ino r i)
  step-balance (invalidates_attr ino) r i h =
      omega (arith, balance-invalidate_inode_attr env ino r i)
  step-balance (stores_attr ino attr ttl) r i h =
      omega (arith, balance-remember_attr env ino attr ttl r i)
  step-balance (sets_negative_ttl ttl) r i h = omega (arith, balance-set_negative_ttl ttl r i)
  step-balance drains r i h = omega (arith, balance-take env r i)
  step-balance reaps r i h = omega (arith, balance-reap_expired env r i)
  step-balance (invalidates_entry p name) r i h =
      unfold invalidate_entry in
      omega (arith, balance-invalidate_matching env (names_child env p (env.to_lowercase name)) r i)
  step-balance (invalidates_entry_from_notify p name) r i h =
      unfold invalidate_entry invalidate_entry_from_notify in
      omega (arith, balance-invalidate_matching env (names_child env p (env.to_lowercase name)) r i)
  step-balance (invalidates_subtree path) r i h =
      unfold invalidate_subtree in
      omega (arith, balance-invalidate_matching env (in_subtree (normalize_path env path)) r i)

  quiet_step :
      (c : Call) (r : PathResolver) (i : ℕ) → is_notification c ≡ false → lost_by env i c r ≡ 0
  unfolding lost_by is_notification
  quiet_step c r i h = ground arith

  step-IsAccounted :
      (c : Call) (r : PathResolver)
      → ((j : ℕ) → balance r j + granted_by j c ≤ u64_max)
      → IsAccounted r
      → IsAccounted (step env c r).1
  unfolding step granted_by
  step-IsAccounted (looks_up path p g) r h a = cached-IsAccounted env path p g r a
  step-IsAccounted (remembers rec) r h a =
      remember_positive-IsAccounted env rec r a
        (ground (arith, h rec.attr.ino, refcount-le-balance r rec.attr.ino))
  step-IsAccounted (misses path p g name) r h a =
      remember_negative-IsAccounted env path p g name r a
  step-IsAccounted (reads_attr ino) r h a = cached_attr-IsAccounted env ino r a
  step-IsAccounted (invalidates_attr ino) r h a = invalidate_inode_attr-IsAccounted env ino r a
  step-IsAccounted (stores_attr ino attr ttl) r h a = remember_attr-IsAccounted env ino attr ttl r a
  step-IsAccounted (sets_negative_ttl ttl) r h a = set_negative_ttl-IsAccounted ttl r a
  step-IsAccounted drains r h a = take-Accounts env r a
  step-IsAccounted reaps r h a = reap_expired-IsAccounted env r a
  step-IsAccounted (invalidates_entry p name) r h a =
      unfold invalidate_entry in
      invalidate_matching-IsAccounted env (names_child env p (env.to_lowercase name)) r a
  step-IsAccounted (invalidates_entry_from_notify p name) r h a =
      unfold invalidate_entry_from_notify in
      invalidate_matching-IsAccounted env (names_child env p (env.to_lowercase name)) r a
  step-IsAccounted (invalidates_subtree path) r h a =
      unfold invalidate_subtree in
      invalidate_matching-IsAccounted env (in_subtree (normalize_path env path)) r a

  -- From any state that satisfies the resolver's invariant, and for every history of the resolver's
  -- operations whose lookups of each inode fit in a `u64` with those owed before: what the history
  -- grants and what was owed before is what it forgets, what notifications lose, and what is owed
  -- after, and the invariant holds again. Without a notification nothing is lost.
  pub run-balance :
      (cs : List Call) (r : PathResolver)
      → ((j : ℕ) → balance r j + granted j cs ≤ u64_max)
      → IsAccounted r
      → ((i : ℕ)
          → count_of i (run env cs r).0 + balance (run env cs r).1 i + lost env i cs r
            ≡ balance r i + granted i cs)
        × IsAccounted (run env cs r).1
        × (any is_notification cs ≡ false → (i : ℕ) → lost env i cs r ≡ 0)
  unfolding run granted count_of lost lost_by is_notification
  run-balance [] r h a = (λ i. omega arith, a, λ quiet i. refl)
  run-balance (c ∷ cs) r h a =
      let (forgets, r') = step env c r in
      let within : (j : ℕ) → balance r j + granted_by j c ≤ u64_max = λ j. omega (arith, h j) in
      let (kept, accounted, nothing) =
        run-balance cs (step env c r).1 (λ j. omega (arith, h j, step-balance c r j within))
          (step-IsAccounted c r within a) in
      (
        λ i. omega (
          arith,
          kept i,
          step-balance c r i within,
          count_of-append i (step env c r).0 (run env cs (step env c r).1).0,
        ),
        accounted,
        λ quiet i.
            let here : is_notification c ≡ false = ground arith in
            let later : any is_notification cs ≡ false = ground arith in
            omega (arith, quiet_step c r i here, nothing later i),
      )
