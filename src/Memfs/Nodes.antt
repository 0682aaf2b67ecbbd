-- ===== src/Memfs/Nodes.antt =====
-- examples/memfs/inode.rs and the tables of `MemFs` (examples/memfs/main.rs). The table of inodes is
-- read and written by key and so a function; the table of children is iterated and so a list of its
-- pairs. `SystemTime::now()` is the next of the readings of `clock`. Memory is unbounded.
use confuse.Common.{
  ℕ, ◌+◌, ◌/◌, Bool, true, false, ◌&&◌, ◌||◌, Option, none, some, List, [], ◌∷◌, length, ◌==◌,
  if◌then◌else◌,
}
use confuse.Common.Text.{Text, text_eq}
use confuse.Facade.Types.{FileType, FileAttr, regular_file, directory, root}

pub record INode : Type 0 where
  pub ino : ℕ
  pub parent : ℕ
  pub name : Text
  pub kind : FileType
  pub perm : ℕ
  pub nlink : ℕ
  pub uid : ℕ
  pub gid : ℕ
  pub bytes : List ℕ
  pub atime : ℕ
  pub mtime : ℕ
  pub ctime : ℕ
  pub crtime : ℕ

-- An entry of the table of children: the key (parent, name) and the inode.
pub record Child : Type 0 where
  pub parent : ℕ
  pub name : Text
  pub ino : ℕ

-- `NEXT_INO` is a static of the program, which has one file system; `readings` counts the readings
-- of the clock so far.
pub record MemFs : Type 0 where
  pub inodes : ℕ → Option INode
  pub children : List Child
  pub next_ino : ℕ
  pub readings : ℕ

abbrev pub new_node : FileType → ℕ → ℕ → ℕ → Text → ℕ → ℕ → INode
new_node kind nlink ino parent name perm now = record {
  ino = ino;
  parent = parent;
  name = name;
  kind = kind;
  perm = perm;
  nlink = nlink;
  uid = 0;
  gid = 0;
  bytes = [];
  atime = now;
  mtime = now;
  ctime = now;
  crtime = now;
}

unfoldable pub new_dir : ℕ → ℕ → Text → ℕ → ℕ → INode
new_dir = new_node directory 2

unfoldable pub new_file : ℕ → ℕ → Text → ℕ → ℕ → INode
new_file = new_node regular_file 1

unfoldable pub to_attr : INode → FileAttr
to_attr node = record {
  ino = node.ino;
  size = length node.bytes;
  blocks = (length node.bytes + 511) / 512;
  atime = node.atime;
  mtime = node.mtime;
  ctime = node.ctime;
  crtime = node.crtime;
  kind = node.kind;
  perm = node.perm;
  nlink = node.nlink;
  uid = node.uid;
  gid = node.gid;
  rdev = 0;
  blksize = 4096;
  flags = 0;
}

unfoldable pub is_dir : FileType → Bool
is_dir directory = true
is_dir _ = false

unfoldable pub is_file : FileType → Bool
is_file regular_file = true
is_file _ = false

-- The two tables.
unfoldable pub set_inode : ℕ → Option INode → (ℕ → Option INode) → ℕ → Option INode
set_inode ino node inodes i = if ino == i then node else inodes i

-- `if let Some(node) = inodes.get_mut(&ino)`
unfoldable pub map_node : (INode → INode) → Option INode → Option INode
map_node f none = none
map_node f (some node) = some (f node)

unfoldable pub modify_node : ℕ → (INode → INode) → (ℕ → Option INode) → ℕ → Option INode
unfolding map_node set_inode
modify_node ino f inodes = set_inode ino (map_node f (inodes ino)) inodes

unfoldable pub is_key : ℕ → Text → Child → Bool
is_key parent name c = c.parent == parent && text_eq c.name name

unfoldable pub get_child : ℕ → Text → List Child → Option ℕ
unfolding is_key
get_child parent name [] = none
get_child parent name (c ∷ cs) =
    if is_key parent name c then some c.ino else get_child parent name cs

unfoldable pub remove_child : ℕ → Text → List Child → List Child
unfolding is_key
remove_child parent name [] = []
remove_child parent name (c ∷ cs) =
    let rest = remove_child parent name cs in if is_key parent name c then rest else c ∷ rest

unfoldable pub insert_child : ℕ → Text → ℕ → List Child → List Child
unfolding remove_child
insert_child parent name ino cs =
    record { parent = parent; name = name; ino = ino } ∷ remove_child parent name cs

-- `keys().any(|(p, _)| *p == ino)`
unfoldable pub has_children : ℕ → List Child → Bool
has_children ino [] = false
has_children ino (c ∷ cs) = c.parent == ino || has_children ino cs

-- `MemFs::new`, with the first reading of the clock.
unfoldable pub new : (ℕ → ℕ) → MemFs
unfolding new_dir set_inode
new clock = record {
  inodes = set_inode root (some (new_dir root root [] 0o755 (clock 0))) (λ i. none);
  children = [];
  next_ino = root + 1;
  readings = 1;
}
