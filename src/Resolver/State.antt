-- ===== src/Resolver/State.antt =====
-- src/dokan_impl/adapter/state.rs: the state of `PathResolver`, and what the code takes from the
-- standard library. `inodes` is only read and written by key, and filtered, so it is a function;
-- `paths` is iterated, so it is an association list in the order of iteration. `reads` counts the
-- readings of the clock, so that each `Instant::now()` is a reading of its own.
use confuse.Common.{ℕ, suc, ◌+◌, Option, none, some, List, [], ◌∷◌, ◌==◌, if◌then◌else◌}
use confuse.Common.Text.{Text}
use confuse.Facade.Types.{FileAttr}

-- `str::to_lowercase`, and the value of `Instant::now()` at its n-th reading.
pub record Env : Type 0 where
  pub to_lowercase : Text → Text
  pub clock : ℕ → ℕ

pub record PositivePathRecord : Type 0 where
  pub path : Text
  pub parent : ℕ
  pub parent_generation : ℕ
  pub name : Text
  pub attr : FileAttr
  pub generation : ℕ
  pub ttl : ℕ

pub record ResolvedEntry : Type 0 where
  pub ino : ℕ
  pub generation : ℕ

pub record PositiveEntry : Type 0 where
  pub parent : ℕ
  pub parent_generation : ℕ
  pub name : Text
  pub ino : ℕ
  pub generation : ℕ
  pub entry_expires : ℕ
  pub outstanding : List (ℕ × ℕ)

pub record NegativeEntry : Type 0 where
  pub parent : ℕ
  pub parent_generation : ℕ
  pub name : Text
  pub expires : ℕ

pub data PathCacheEntry : Type 0 where
  positive : PositiveEntry → PathCacheEntry
  negative : NegativeEntry → PathCacheEntry

pub record InodeState : Type 0 where
  pub attr : FileAttr
  pub generation : ℕ
  pub lookup_refcount : ℕ
  pub attr_expires : Option ℕ

abbrev pub Inodes : Type 0
Inodes = ℕ → Option InodeState

pub record PathResolver : Type 0 where
  pub paths : List (Text × PathCacheEntry)
  pub inodes : Inodes
  pub pending_forgets : List (ℕ × ℕ)
  pub negative_ttl : Option ℕ
  pub reads : ℕ

-- `DEFAULT_NEGATIVE_TTL`: one second.
abbrev pub default_negative_ttl : ℕ
default_negative_ttl = 1_000_000_000

unfoldable pub default : PathResolver
default = record {
  paths = [];
  inodes = λ i. none;
  pending_forgets = [];
  negative_ttl = some default_negative_ttl;
  reads = 0;
}

unfoldable pub set_negative_ttl : ℕ → PathResolver → PathResolver
set_negative_ttl ttl r = record r { negative_ttl = if ttl == 0 then none else some ttl }

unfoldable pub take_pending_forgets : PathResolver → List (ℕ × ℕ) × PathResolver
take_pending_forgets r = (r.pending_forgets, record r { pending_forgets = [] })

unfoldable pub generation_for : ℕ → PathResolver → ℕ
generation_for ino r = elim (r.inodes ino) [ none ↦ 0 | some s ↦ s.generation ]

-- A write to the inode table.
abbrev pub update : Inodes → ℕ → InodeState → Inodes
update f k s i = if k == i then some s else f i

-- `Instant::now()`, and the state after the reading.
abbrev pub now : Env → PathResolver → ℕ
now env r = env.clock r.reads

abbrev pub tick : PathResolver → PathResolver
tick r = record r { reads = suc r.reads }

-- What a list of pairs of an inode and a count holds for one inode.
unfoldable pub count_of : ℕ → List (ℕ × ℕ) → ℕ
count_of i [] = 0
count_of i ((j, n) ∷ l) = (if j == i then n else 0) + count_of i l

unfoldable pub refcount : PathResolver → ℕ → ℕ
refcount r i = elim (r.inodes i) [ none ↦ 0 | some s ↦ s.lookup_refcount ]

-- The lookups of an inode that the file system has granted and has not been told to forget: those
-- that the inode table counts, and those in the queue of forgets.
unfoldable pub balance : PathResolver → ℕ → ℕ
balance r i = refcount r i + count_of i r.pending_forgets

-- The lookups that the cached paths hold for an inode.
unfoldable pub owed_at : PathCacheEntry → ℕ → ℕ
owed_at (positive e) i = count_of i e.outstanding
owed_at (negative e) i = 0

unfoldable pub owed : List (Text × PathCacheEntry) → ℕ → ℕ
owed [] i = 0
owed ((k, e) ∷ m) i = owed_at e i + owed m i
