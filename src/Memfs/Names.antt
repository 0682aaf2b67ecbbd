-- ===== src/Memfs/Names.antt =====
-- examples/memfs/main.rs: the methods of `MemFs` that make, remove and move names.
use confuse.Common.{ℕ, suc, ◌-◌, none, some, ◌==◌, if◌then◌else◌, Result, ok, err}
use confuse.Common.Text.{Text}
use confuse.Facade.Errno.{enoent, enotempty}
use confuse.Facade.Types.{FileAttr, ReplyEntryPayload, ReplyCreatePayload}
use confuse.Memfs.Nodes.{
  INode, MemFs, set_inode, modify_node, get_child, remove_child, insert_child, has_children,
}
use confuse.Memfs.Storage.{file, dir, stamp, insert_node}
use confuse.Memfs.Methods.{ttl, entry, fopen_flags}

unfoldable pub created : ℕ → Result FileAttr ℕ → Result ReplyCreatePayload ℕ
unfolding fopen_flags
created flags (ok attr) =
    ok (record { attr = attr; ttl = ttl; generation = 0; fh = attr.ino; flags = fopen_flags flags })
created flags (err e) = err e

unfoldable pub made : Result FileAttr ℕ → Result ReplyEntryPayload ℕ
unfolding entry
made (ok attr) = ok (entry attr)
made (err e) = err e

-- `nlink.saturating_sub(1)`
unfoldable pub unlinked : INode → INode
unlinked node = record node { nlink = node.nlink - 1 }

unfoldable pub renamed : ℕ → Text → ℕ → INode → INode
renamed parent name now node = record node { parent = parent; name = name; ctime = now }

module _ (clock : ℕ → ℕ) where
  unfoldable pub create : ℕ → Text → ℕ → ℕ → MemFs → Result ReplyCreatePayload ℕ × MemFs
  unfolding insert_node created
  create parent name mode flags fs =
      let (r, fs') = insert_node clock parent name mode file fs in (created flags r, fs')

  -- `mkdir`, and `mknod` which makes a file of every kind.
  unfoldable pub mkdir : ℕ → Text → ℕ → MemFs → Result ReplyEntryPayload ℕ × MemFs
  unfolding insert_node made
  mkdir parent name mode fs =
      let (r, fs') = insert_node clock parent name mode dir fs in (made r, fs')

  unfoldable pub mknod : ℕ → Text → ℕ → MemFs → Result ReplyEntryPayload ℕ × MemFs
  unfolding insert_node made
  mknod parent name mode fs =
      let (r, fs') = insert_node clock parent name mode file fs in (made r, fs')

  -- The entry and its inode go, and the parent is stamped.
  unfoldable pub drop_node : ℕ → Text → ℕ → (INode → INode) → MemFs → MemFs
  unfolding set_inode modify_node remove_child stamp
  drop_node parent name ino change fs = record fs {
    inodes =
        modify_node parent (λ node. stamp (clock fs.readings) (change node))
          (set_inode ino none fs.inodes);
    children = remove_child parent name fs.children;
    readings = suc fs.readings;
  }

  unfoldable pub unlink : ℕ → Text → MemFs → Result (Unit {0}) ℕ × MemFs
  unfolding get_child drop_node
  unlink parent name fs = elim (get_child parent name fs.children) [
    | none ↦ (err enoent, record fs { readings = suc fs.readings })
    | some ino ↦ (ok tt, drop_node parent name ino (λ node. node) fs)
  ]

  unfoldable pub rmdir : ℕ → Text → MemFs → Result (Unit {0}) ℕ × MemFs
  unfolding get_child remove_child insert_child has_children drop_node unlinked
  rmdir parent name fs =
      let fs' : MemFs = record fs { readings = suc fs.readings } in
      elim (get_child parent name fs.children) [
        | none ↦ (err enoent, fs')
        | some ino ↦
            let rest = remove_child parent name fs.children in
            if has_children ino rest
            then (err enotempty, record fs' { children = insert_child parent name ino rest })
            else (ok tt, drop_node parent name ino unlinked fs)
      ]

  unfoldable pub rename : ℕ → Text → ℕ → Text → MemFs → Result (Unit {0}) ℕ × MemFs
  unfolding get_child remove_child insert_child modify_node renamed stamp
  rename parent name newparent newname fs =
      let now = clock fs.readings in
      let fs' : MemFs = record fs { readings = suc fs.readings } in
      elim (get_child parent name fs.children) [
        | none ↦ (err enoent, fs')
        | some ino ↦
            let moved = modify_node ino (renamed newparent newname now) fs.inodes in
            let stamped = modify_node parent (stamp now) moved in
            (
              ok tt,
              record fs' {
                inodes =
                    if parent == newparent
                    then stamped
                    else modify_node newparent (stamp now) stamped;
                children =
                    insert_child newparent newname ino
                      (remove_child newparent newname (remove_child parent name fs.children));
              },
            )
      ]
