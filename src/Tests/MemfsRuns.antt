-- ===== src/Tests/MemfsRuns.antt =====
-- Runs of the file system in memory, and its theorems at concrete states.
use confuse.Common.Text.{text_eq, Text}
use confuse.Memfs.Names.{create, mkdir, rename}
use confuse.Common.{
  ◌≤◌, ℕ, ◌≡◌, ◌≢◌, refl, max, none, some, List, [], ◌∷◌, length, false, if◌then◌else◌, ok, arith,
  map,
}
use confuse.Facade.Types.{directory}
use confuse.Facade.Buffers.{ReplyDirectory, dirent_entry_size}
use confuse.Memfs.Nodes.{
  set_inode, modify_node, map_node, INode, MemFs, new, new_file, is_file, is_dir, get_child,
}
use confuse.Memfs.Methods.{read, write, written}
use confuse.Memfs.Tree.{by_create, by_mkdir, makes, renames, removes_dir, tree, Allowed}
use confuse.Memfs.Allowed.{perform, perform-Allowed}
use confuse.Memfs.Linked.{IsLinked}
use confuse.Memfs.Invariant.{new-IsLinked, new-IsEntered, perform-IsLinked, perform-Agrees}
use confuse.Memfs.Entered.{IsEntered, perform-IsEntered}
use confuse.Memfs.Renaming.{rename_orphans}
use confuse.Memfs.Contents.{byte_at, is_written, byte_at-written, read-write}
use confuse.Memfs.Listing.{readdir, dot, dot_dot}
use mathlib.Core.List.{Perm}
use confuse.Memfs.Described.{described, describes, children_of}
use confuse.Memfs.Collecting.{collect, collect-lists}
use confuse.Tests.Data.{name_a, name_b}
use confuse.Adapter.World.{AdapterContext, default_context}

abbrev ticks : ℕ → ℕ
ticks n = n

abbrev empty_fs : MemFs
empty_fs = new ticks

-- A file and a directory in the root.
abbrev one_file : MemFs
one_file = (perform ticks (makes (by_create 0) 1 name_a 0o644) empty_fs).1

abbrev two_nodes : MemFs
two_nodes = (perform ticks (makes by_mkdir 1 name_b 0o755) one_file).1

one_file-IsLinked : IsLinked one_file
one_file-IsLinked =
    perform-IsLinked ticks (makes (by_create 0) 1 name_a 0o644) empty_fs (unfold new in omega arith)
      (new-IsLinked ticks)

file_found : get_child 1 name_a two_nodes.children ≡ some 2
unfolding get_child mkdir create new text_eq
file_found = refl

directory_found : get_child 1 name_b two_nodes.children ≡ some 3
unfolding get_child mkdir create new text_eq
directory_found = refl

two_nodes-IsLinked : IsLinked two_nodes
unfolding create new
two_nodes-IsLinked =
    perform-IsLinked ticks (makes by_mkdir 1 name_b 0o755) one_file (omega arith) one_file-IsLinked

perform-Allowed_example :
    Allowed two_nodes.next_ino
      (tree two_nodes)
      (renames 1 name_a 1 name_b)
      (perform ticks (renames 1 name_a 1 name_b) two_nodes).0
      (tree (perform ticks (renames 1 name_a 1 name_b) two_nodes).1)
perform-Allowed_example = perform-Allowed ticks (renames 1 name_a 1 name_b) two_nodes

two_nodes-IsEntered : IsEntered two_nodes
two_nodes-IsEntered =
    perform-IsEntered ticks (makes by_mkdir 1 name_b 0o755) one_file tt (
      perform-IsEntered ticks (makes (by_create 0) 1 name_a 0o644) empty_fs tt
        (new-IsEntered ticks))

perform-Agrees_example :
    IsLinked (perform ticks (removes_dir 1 name_b) two_nodes).1
    × IsEntered (perform ticks (removes_dir 1 name_b) two_nodes).1
unfolding mkdir create new text_eq
perform-Agrees_example =
    perform-Agrees ticks (removes_dir 1 name_b) two_nodes (omega arith) tt two_nodes-IsLinked
      two_nodes-IsEntered

rename_orphans_example :
    ((node : INode) × ((rename ticks 1 name_a 1 name_b two_nodes).1.inodes 3 ≡ some node))
    × ((r : ℕ) (k : Text)
        → get_child r k (rename ticks 1 name_a 1 name_b two_nodes).1.children ≢ some 3)
rename_orphans_example =
    rename_orphans ticks 1 name_a 1 name_b 2 3 two_nodes two_nodes-IsLinked file_found
      directory_found (λ e. absurd (omega arith))

abbrev file_node : INode
file_node = new_file 2 1 name_a 0o644 1

file_here : one_file.inodes 2 ≡ some file_node
unfolding create new
file_here = refl

-- Three bytes behind the end of an empty file.
abbrev three : List ℕ
three = 7 ∷ 8 ∷ 9 ∷ []

read-write_example :
    ((write ticks 2 4 three one_file).0 ≡ ok 3)
    × (read 2 4 3 (write ticks 2 4 three one_file).1 ≡ ok three)
unfolding is_file new_file
read-write_example = read-write ticks 2 4 three one_file file_node file_here refl

byte_at-written_example :
    (length (written 4 three file_node).bytes ≡ max 7 (length file_node.bytes))
    × (byte_at 5 (written 4 three file_node).bytes
        ≡ (if is_written 4 3 5 then byte_at 1 three else byte_at 5 file_node.bytes))
byte_at-written_example = byte_at-written 4 three file_node 5

abbrev root_node : INode
root_node = record {
  ino = 1;
  parent = 1;
  name = [];
  kind = directory;
  perm = 0o755;
  nlink = 3;
  uid = 0;
  gid = 0;
  bytes = [];
  atime = 0;
  mtime = 4;
  ctime = 4;
  crtime = 0;
}

root_here : two_nodes.inodes 1 ≡ some root_node
unfolding mkdir create new text_eq
root_here = refl

-- A buffer for two entries.
abbrev small : ReplyDirectory
small = record { status = none; entries = []; full = false; max_size = 64; used_size = 0 }

listed_two : length (readdir 1 1 two_nodes small).entries ≡ 2
unfolding readdir mkdir create new text_eq
listed_two = refl

-- Every name of the two nodes fits into a buffer for one entry.
names_fit :
    (i : ℕ) (child : INode) → two_nodes.inodes i ≡ some child → dirent_entry_size child.name ≤ 32
unfolding mkdir create new text_eq dirent_entry_size set_inode modify_node map_node
names_fit i child e = ground arith

collect-lists_example : Perm (map described (collect two_nodes 1 32 5 0)) (
    describes 1 directory dot
    ∷ describes 1 directory dot_dot
    ∷ children_of two_nodes.inodes 1 two_nodes.children)
unfolding is_dir mkdir create new text_eq
collect-lists_example =
    collect-lists two_nodes 1 32 root_node root_here refl (omega arith) names_fit

-- The context of the open file, with its inode.
abbrev open_file_context : AdapterContext
open_file_context = record default_context { ino = 2; fh = 0 }
