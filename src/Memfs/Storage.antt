-- ===== src/Memfs/Storage.antt =====
-- examples/memfs/storage.rs: the insertion of a node, and the changes of one node that the methods of
-- examples/memfs/main.rs share.
use confuse.Common.{ℕ, ◌+◌, ◌%◌, ◌^◌, none, some, suc, Result, ok, err}
use confuse.Common.Text.{Text}
use confuse.Facade.Errno.{eexist}
use confuse.Facade.Types.{FileAttr}
use confuse.Memfs.Nodes.{
  INode, MemFs, new_dir, new_file, to_attr, set_inode, modify_node, get_child, insert_child,
}

pub data NewNodeKind : Type 0 where
  file dir : NewNodeKind

-- The node's times of change and modification are now.
unfoldable pub stamp : ℕ → INode → INode
stamp now node = record node { mtime = now; ctime = now }

unfoldable pub touch : NewNodeKind → ℕ → INode → INode
unfolding stamp
touch dir now node = stamp now (record node { nlink = (node.nlink + 1) % 2 ^ 32 })
touch file now node = stamp now node

unfoldable pub node_of : NewNodeKind → ℕ → ℕ → Text → ℕ → ℕ → INode
unfolding new_dir new_file
node_of dir = new_dir
node_of file = new_file

module _ (clock : ℕ → ℕ) where
  unfoldable pub touch_parent : ℕ → NewNodeKind → MemFs → MemFs
  unfolding touch modify_node
  touch_parent parent kind fs = record fs {
    inodes = modify_node parent (touch kind (clock fs.readings)) fs.inodes;
    readings = suc fs.readings;
  }

  -- The body behind the check, with the inode that `alloc_ino` gives.
  unfoldable pub insert_new : ℕ → Text → ℕ → NewNodeKind → MemFs → FileAttr × MemFs
  unfolding node_of to_attr set_inode insert_child touch_parent
  insert_new parent name mode kind fs =
      let ino = fs.next_ino in
      let node = node_of kind ino parent name (mode % 2 ^ 16) (clock fs.readings) in
      (
        to_attr node,
        touch_parent parent kind (record {
          inodes = set_inode ino (some node) fs.inodes;
          children = insert_child parent name ino fs.children;
          next_ino = (ino + 1) % 2 ^ 64;
          readings = suc fs.readings;
        }),
      )

  unfoldable pub insert_node : ℕ → Text → ℕ → NewNodeKind → MemFs → Result FileAttr ℕ × MemFs
  unfolding get_child insert_new
  insert_node parent name mode kind fs = elim (get_child parent name fs.children) [
    | some i ↦ (err eexist, fs)
    | none ↦ let (attr, fs') = insert_new parent name mode kind fs in (ok attr, fs')
  ]
