-- ===== src/Adapter/Ledger.antt =====
-- src/dokan_impl/adapter: the lookups that a file system counts, against those that the resolver
-- answers for.
use confuse.Common.{
  ℕ, ◌+◌, ◌<◌, ◌≤◌, ◌≡◌, none, some, List, [], ◌∷◌, ◌==◌, if◌then◌else◌, ok, err, arith, u64_max,
  Bool, ◌||◌, refl,
}
use confuse.Common.Text.{Text, text_eq}
use confuse.Facade.Types.{DirectoryPlusEntryPayload}
use confuse.Resolver.State.{
  Env, PathResolver, PositivePathRecord, count_of, balance, refcount, take_pending_forgets,
}
use confuse.Resolver.Path.{dot, dot_dot, normalize_path}
use confuse.Resolver.Ops.{remember_positive}
use confuse.Resolver.Attrs
use confuse.Resolver.Invalidate.{reap_expired, invalidate_subtree, in_subtree}
use confuse.Resolver.Accounts.{IsAccounted, take-Accounts}
use confuse.Resolver.Balance.{
  balance-invalidate_inode_attr, balance-take, balance-reap_expired, balance-invalidate_matching,
}
use confuse.Resolver.Remembering.{balance-remember_positive}
use confuse.Resolver.Invariant.{
  invalidate_inode_attr-IsAccounted, reap_expired-IsAccounted, invalidate_matching-IsAccounted,
}
use confuse.Resolver.Stores.{remember_positive-IsAccounted}
use confuse.Resolver.History.{refcount-le-balance}
use confuse.Adapter.Calls.{
  Request, FsCall, ReplyOf, Filesystem, lookup, forget, create, mkdir, readdirplus,
}
use confuse.Adapter.World.{DokanAdapter}
use confuse.Adapter.Paths.{
  call, forget_all, forget_returned, drain_resolver_forgets, drain_expired_resolver_forgets,
  invalidate_path_cache, invalidate_inode_attr,
}

abbrev pub one_if : ℕ → ℕ → ℕ
one_if ino i = if ino == i then 1 else 0

abbrev pub entries_of : ℕ → List DirectoryPlusEntryPayload → ℕ
entries_of i [] = 0
entries_of i (e ∷ es) = one_if e.attr.ino i + entries_of i es

-- Entries named "." or "..", which `readdirplus` lists without a lookup.
unfoldable pub is_dots : DirectoryPlusEntryPayload → Bool
unfolding text_eq
is_dots e = text_eq e.name dot || text_eq e.name dot_dot

abbrev pub dots_of : ℕ → List DirectoryPlusEntryPayload → ℕ
dots_of i [] = 0
dots_of i (e ∷ es) = (if is_dots e then one_if e.attr.ino i else 0) + dots_of i es

abbrev pub counted_of : ℕ → List DirectoryPlusEntryPayload → ℕ
counted_of i [] = 0
counted_of i (e ∷ es) = (if is_dots e then 0 else one_if e.attr.ino i) + counted_of i es

pub dots-counted :
    (i : ℕ) (es : List DirectoryPlusEntryPayload) → dots_of i es + counted_of i es ≡ entries_of i es
dots-counted i [] = refl
dots-counted i (e ∷ es) = ground (arith, dots-counted i es)

-- The lookups of an inode that a reply grants: one for each entry that it names, but for "." and
-- ".." in a listing.
abbrev pub granted : (c : FsCall) → ReplyOf c → ℕ → ℕ
granted (lookup req parent name) (some (ok payload)) i = one_if payload.attr.ino i
granted (lookup req parent name) (some (err e)) i = 0
granted (lookup req parent name) none i = 0
granted (create req parent name mode umask flags) (some (ok payload)) i = one_if payload.attr.ino i
granted (create req parent name mode umask flags) (some (err e)) i = 0
granted (create req parent name mode umask flags) none i = 0
granted (mkdir req parent name mode umask) (some (ok payload)) i = one_if payload.attr.ino i
granted (mkdir req parent name mode umask) (some (err e)) i = 0
granted (mkdir req parent name mode umask) none i = 0
granted (readdirplus req ino fh offset) reply i = counted_of i reply.entries
granted _ reply i = 0

-- The lookups that a call gives back.
abbrev pub returned : FsCall → ℕ → ℕ
returned (forget req ino nlookup) i = if ino == i then nlookup else 0
returned _ i = 0

-- A file system that counts its lookups as FUSE asks for, by what it granted and what it was given
-- back since it was made: a reply adds what it grants, a forget the number that it gives back,
-- nothing else changes a count, and what is outstanding of an inode is a `u64`. The two counts are a
-- record of the calls so far; that no more is given back than was granted is not assumed.
pub record Counts {S : Type 0} (F : Filesystem S) : Type 0 where
  pub given : S → ℕ → ℕ
  pub taken : S → ℕ → ℕ
  pub gives : (c : FsCall) (s : S) (i : ℕ) → given (F c s).1 i ≡ given s i + granted c (F c s).0 i
  pub takes : (c : FsCall) (s : S) (i : ℕ) → taken (F c s).1 i ≡ taken s i + returned c i
  pub bounded : (s : S) (i : ℕ) → given s i ≤ taken s i + u64_max

-- The same calls on accounts to which something was added before.
abbrev pub moved_counts :
    {S : Type 0} {F : Filesystem S} (counts : Counts F) (over lost : ℕ → ℕ)
    → ((s : S) (i : ℕ) → counts.given s i + over i ≤ counts.taken s i + lost i + u64_max)
    → Counts F
moved_counts counts over lost room = record {
  given = λ s i. counts.given s i + over i;
  taken = λ s i. counts.taken s i + lost i;
  gives = λ c s i. omega (arith, counts.gives c s i);
  takes = λ c s i. omega (arith, counts.takes c s i);
  bounded = room;
}

module _ {S : Type 0} {F : Filesystem S} (counts : Counts F) where
  open counts use {given, taken}

  -- What the file system granted it was given back, or the resolver answers for it, or it is in
  -- `hand`: granted and not yet remembered, or taken from the resolver and not yet given back.
  pub record Settles (hand : ℕ → ℕ) (w : DokanAdapter S) : Type 0 where
    pub owes : (i : ℕ) → given w.fs i ≡ taken w.fs i + balance w.resolver i + hand i
    pub accounted : IsAccounted w.resolver

  abbrev pub IsSettled : DokanAdapter S → Type 0
  IsSettled = Settles (λ i. 0)

module _ {S : Type 0} {F : Filesystem S} (env : Env) (counts : Counts F) where
  open counts use {given, taken, gives, takes, bounded}

  forget_all-Settles :
      {hand : ℕ → ℕ} (req : Request) (l : List (ℕ × ℕ)) (w : DokanAdapter S)
      → Settles counts (λ i. count_of i l + hand i) w
      → Settles counts hand (forget_all F env req l w)
  unfolding forget_all call count_of
  forget_all-Settles req [] w h = record {
    owes = λ i. omega (arith, h.owes i);
    accounted = h.accounted;
  }
  forget_all-Settles req ((ino, n) ∷ l) w h =
      forget_all-Settles req l (call F env (forget req ino n) w).1 (record {
        owes = λ i.
            ground
              (arith, h.owes i, gives (forget req ino n) w.fs i, takes (forget req ino n) w.fs i);
        accounted = h.accounted;
      })

  forget_returned-Settles :
      {hand : ℕ → ℕ} (req : Request) (out : List (ℕ × ℕ) × PathResolver) (w : DokanAdapter S)
      → Settles counts hand w
      → ((i : ℕ) → count_of i out.0 + balance out.1 i ≡ balance w.resolver i)
      → IsAccounted out.1
      → Settles counts hand (forget_returned F env req out w)
  unfolding forget_returned
  forget_returned-Settles req (l, r) w h b a =
      forget_all-Settles req l (record w { resolver = r })
        (record { owes = λ i. omega (arith, h.owes i, b i); accounted = a })

  pub drain-Settles :
      {hand : ℕ → ℕ} (req : Request) (w : DokanAdapter S)
      → Settles counts hand w
      → Settles counts hand (drain_resolver_forgets F env req w)
  unfolding drain_resolver_forgets
  drain-Settles req w h =
      forget_returned-Settles req (take_pending_forgets w.resolver) w h
        (balance-take env w.resolver) (take-Accounts env w.resolver h.accounted)

  pub drain_expired-IsSettled :
      (req : Request) (w : DokanAdapter S)
      → IsSettled counts w
      → IsSettled counts (drain_expired_resolver_forgets F env req w)
  unfolding drain_expired_resolver_forgets
  drain_expired-IsSettled req w h =
      forget_returned-Settles req (reap_expired env w.resolver) w h
        (balance-reap_expired env w.resolver) (reap_expired-IsAccounted env w.resolver h.accounted)

  pub invalidate_path_cache-IsSettled :
      (req : Request) (path : Text) (w : DokanAdapter S)
      → IsSettled counts w
      → IsSettled counts (invalidate_path_cache F env req path w)
  unfolding invalidate_path_cache invalidate_subtree
  invalidate_path_cache-IsSettled req path w h =
      let matches = in_subtree (normalize_path env path) in
      forget_returned-Settles req (invalidate_subtree env path w.resolver) w h
        (balance-invalidate_matching env matches w.resolver)
        (invalidate_matching-IsAccounted env matches w.resolver h.accounted)

  -- A step of the resolver alone that keeps every balance.
  pub resolver_step-Settles :
      {hand : ℕ → ℕ} (r : PathResolver) (w : DokanAdapter S)
      → Settles counts hand w
      → ((i : ℕ) → balance r i ≡ balance w.resolver i)
      → IsAccounted r
      → Settles counts hand (record w { resolver = r })
  resolver_step-Settles {hand} r w h b a = record {
    owes = λ i. omega (arith, h.owes i, b i);
    accounted = a;
  }

  pub invalidate_inode_attr-Settles :
      {hand : ℕ → ℕ} (ino : ℕ) (w : DokanAdapter S)
      → Settles counts hand w
      → Settles counts hand (invalidate_inode_attr F env ino w)
  unfolding invalidate_inode_attr
  invalidate_inode_attr-Settles ino w h =
      resolver_step-Settles (Attrs.invalidate_inode_attr env ino w.resolver) w h
        (balance-invalidate_inode_attr env ino w.resolver)
        (invalidate_inode_attr-IsAccounted env ino w.resolver h.accounted)

  -- A granted lookup that the resolver remembers is answered for.
  pub remember-Settles :
      {hand : ℕ → ℕ} (rec : PositivePathRecord) (w : DokanAdapter S)
      → Settles counts (λ i. one_if rec.attr.ino i + hand i) w
      → Settles counts hand (record w { resolver = (remember_positive env rec w.resolver).1 })
  remember-Settles rec w h =
      let ino = rec.attr.ino in
      let within : refcount w.resolver ino < u64_max =
        ground (arith, h.owes ino, bounded w.fs ino, refcount-le-balance w.resolver ino) in
      record {
        owes = λ i. omega (arith, h.owes i, balance-remember_positive env rec w.resolver i within);
        accounted = remember_positive-IsAccounted env rec w.resolver h.accounted within;
      }

  pub remember-IsSettled :
      (rec : PositivePathRecord) (w : DokanAdapter S)
      → Settles counts (one_if rec.attr.ino) w
      → IsSettled counts (record w { resolver = (remember_positive env rec w.resolver).1 })
  remember-IsSettled rec w h =
      remember-Settles rec w
        (record { owes = λ i. omega (arith, h.owes i); accounted = h.accounted })

  -- A call that gives nothing back leaves what it granted in hand.
  pub call-Settles :
      (c : FsCall) (w : DokanAdapter S)
      → ((i : ℕ) → returned c i ≡ 0)
      → IsSettled counts w
      → Settles counts (granted c (call F env c w).0) (call F env c w).1
  unfolding call
  call-Settles c w none_back h = record {
    owes = λ i. omega (arith, h.owes i, gives c w.fs i, takes c w.fs i, none_back i);
    accounted = h.accounted;
  }

  -- A call that neither grants nor gives back.
  pub plain_call-IsSettled :
      (c : FsCall) (w : DokanAdapter S)
      → ((i : ℕ) → returned c i ≡ 0)
      → ((i : ℕ) → granted c (call F env c w).0 i ≡ 0)
      → IsSettled counts w
      → IsSettled counts (call F env c w).1
  plain_call-IsSettled c w none_back none_granted h =
      let after = call-Settles c w none_back h in
      record {
        owes = λ i. omega (arith, after.owes i, none_granted i);
        accounted = after.accounted;
      }
