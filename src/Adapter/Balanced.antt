-- ===== src/Adapter/Balanced.antt =====
-- src/dokan_impl/adapter: the lookups over sequences of callbacks.
use confuse.Common.{ℕ, ◌+◌, ◌≡◌, Bool, false, List, [], ◌∷◌, arith, true}
use confuse.Facade.Types.{MountOption}
use confuse.Resolver.State.{Env, default, refcount, balance, count_of}
use confuse.Resolver.Accounts.{default-IsAccounted}
use confuse.Adapter.Calls.{Filesystem}
use confuse.Adapter.World.{DokanAdapter}
use confuse.Adapter.Ledger.{Counts, IsSettled, entries_of}
use confuse.Adapter.Settled.Pattern.{left_over_of, listed}
use confuse.Adapter.Callbacks.{Callback, finds_pattern, perform, new_adapter}

unfoldable pub finds_by_pattern : Callback → Bool
finds_by_pattern (finds_pattern refuses matches name pattern context) = true
finds_by_pattern _ = false

module _ {S : Type 0} (F : Filesystem S) (env : Env) where
  -- The lookups of an inode that a callback loses: those of the entries of a listing with a pattern
  -- that it does not read.
  unfoldable pub lost_by : ℕ → Callback → DokanAdapter S → ℕ
  lost_by i (finds_pattern refuses matches name pattern context) w =
      entries_of i
        (left_over_of refuses matches name pattern (listed F env refuses matches name context w).0)
  lost_by i _ w = 0

  unfoldable pub lost : ℕ → List Callback → DokanAdapter S → ℕ
  unfolding lost_by
  lost i [] w = 0
  lost i (c ∷ cs) w = lost_by i c w + lost i cs (perform F env c w)

module _ {S : Type 0} {F : Filesystem S} (env : Env) (counts : Counts F) where
  pub new_adapter-IsSettled :
      (fs : S) (mount_options : List MountOption)
      → ((i : ℕ) → counts.given fs i ≡ counts.taken fs i)
      → IsSettled counts (new_adapter fs mount_options)
  unfolding balance new_adapter default refcount count_of
  new_adapter-IsSettled fs mount_options unused = record {
    owes = λ i. omega (arith, unused i);
    accounted = default-IsAccounted;
  }
