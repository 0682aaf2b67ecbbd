-- ===== src/Memfs/Methods.antt =====
-- examples/memfs/main.rs: the methods of `MemFs`, each with the error number or the answer that it
-- gives its reply. The listing of a directory is in Listing.
use confuse.Common.{
  ℕ, zero, suc, ◌+◌, ◌-◌, ◌%◌, ◌^◌, min, Option, none, some, List, [], ◌∷◌, length, take, ltb, leb,
  if◌then◌else◌, Result, ok, err,
}
use confuse.Common.Text.{Text}
use confuse.Facade.Errno.{enoent, eisdir, enotdir}
use confuse.Facade.Types.{FileAttr, ReplyEntryPayload, ReplyAttrPayload, ReplyOpenPayload}
use confuse.Adapter.Calls.{TimeOrNow, specific_time, time_now, SetAttr}
use confuse.Memfs.Nodes.{INode, MemFs, to_attr, is_dir, is_file, set_inode, get_child}
use confuse.Memfs.Storage.{stamp}

-- One second, in nanoseconds.
abbrev pub ttl : ℕ
ttl = 10 ^ 9

unfoldable pub entry : FileAttr → ReplyEntryPayload
entry attr = record { attr = attr; ttl = ttl; generation = 0 }

unfoldable pub attributes : INode → ReplyAttrPayload
unfolding to_attr
attributes node = record { attr = to_attr node; ttl = ttl }

unfoldable pub node_entry : Option INode → Result ReplyEntryPayload ℕ
unfolding entry to_attr
node_entry (some node) = ok (entry (to_attr node))
node_entry none = err enoent

unfoldable pub lookup : ℕ → Text → MemFs → Result ReplyEntryPayload ℕ
unfolding get_child node_entry
lookup parent name fs = elim (get_child parent name fs.children) [
  | some ino ↦ node_entry (fs.inodes ino)
  | none ↦ err enoent
]

unfoldable pub getattr : ℕ → MemFs → Result ReplyAttrPayload ℕ
unfolding attributes
getattr ino fs = elim (fs.inodes ino) [ some node ↦ ok (attributes node) | none ↦ err enoent ]

-- `Vec::resize` with zeros, which also truncates.
unfoldable pub resize : ℕ → List ℕ → List ℕ
resize zero bytes = []
resize (suc n) [] = 0 ∷ resize n []
resize (suc n) (b ∷ bytes) = b ∷ resize n bytes

unfoldable pub drop : ℕ → List ℕ → List ℕ
drop zero bytes = bytes
drop (suc n) [] = []
drop (suc n) (b ∷ bytes) = drop n bytes

-- `bytes[offset..offset + new.len()].copy_from_slice(new)`, inside the range.
unfoldable pub copy_at : ℕ → List ℕ → List ℕ → List ℕ
copy_at zero [] bytes = bytes
copy_at zero (d ∷ new) [] = []
copy_at zero (d ∷ new) (b ∷ bytes) = d ∷ copy_at zero new bytes
copy_at (suc offset) new [] = []
copy_at (suc offset) new (b ∷ bytes) = b ∷ copy_at offset new bytes

unfoldable pub time_of : TimeOrNow → ℕ → ℕ
time_of (specific_time t) now = t
time_of time_now now = now

-- The changes of `setattr`, in its order.
unfoldable pub set_mode : Option ℕ → INode → INode
set_mode (some m) node = record node { perm = m % 2 ^ 16 }
set_mode none node = node

unfoldable pub set_uid : Option ℕ → INode → INode
set_uid (some u) node = record node { uid = u }
set_uid none node = node

unfoldable pub set_gid : Option ℕ → INode → INode
set_gid (some g) node = record node { gid = g }
set_gid none node = node

unfoldable pub set_size : Option ℕ → ℕ → INode → INode
unfolding resize stamp
set_size (some s) now node = stamp now (record node {
  bytes = if ltb s (length node.bytes) then take s node.bytes else resize s node.bytes;
})
set_size none now node = node

unfoldable pub set_atime : Option TimeOrNow → ℕ → INode → INode
unfolding time_of
set_atime (some t) now node = record node { atime = time_of t now }
set_atime none now node = node

unfoldable pub set_mtime : Option TimeOrNow → ℕ → INode → INode
unfolding time_of
set_mtime (some t) now node = record node { mtime = time_of t now; ctime = now }
set_mtime none now node = node

unfoldable pub changed : SetAttr → ℕ → INode → INode
unfolding set_mode set_uid set_gid set_size set_atime set_mtime
changed args now node = set_mtime args.mtime now (
    set_atime args.atime now
      (set_size args.size now (set_gid args.gid (set_uid args.uid (set_mode args.mode node)))))

unfoldable pub read : ℕ → ℕ → ℕ → MemFs → Result (List ℕ) ℕ
unfolding is_file drop
read ino offset size fs = elim (fs.inodes ino) [
  | none ↦ err enoent
  | some node ↦
      let end = min (offset + size) (length node.bytes) in
      if is_file node.kind
      then if leb (length node.bytes) offset
        then ok []
        else ok (take (end - offset) (drop offset node.bytes))
      else err eisdir
]

-- The node with the bytes written at the offset.
unfoldable pub written : ℕ → List ℕ → INode → INode
unfolding resize copy_at
written offset new node =
    let end = offset + length new in
    let bytes = if ltb (length node.bytes) end then resize end node.bytes else node.bytes in
    record node { bytes = copy_at offset new bytes }

-- `FopenFlags::from_bits_truncate`: the flags are the eight lowest bits.
unfoldable pub fopen_flags : ℕ → ℕ
fopen_flags bits = bits % 2 ^ 8

unfoldable pub open_file : ℕ → ℕ → MemFs → Result ReplyOpenPayload ℕ
unfolding fopen_flags
open_file ino flags fs = elim (fs.inodes ino) [
  | some node ↦ ok (record { fh = 0; flags = fopen_flags flags })
  | none ↦ err enoent
]

unfoldable pub opendir : ℕ → ℕ → MemFs → Result ReplyOpenPayload ℕ
unfolding is_dir fopen_flags
opendir ino flags fs = elim (fs.inodes ino) [
  | some node ↦
      if is_dir node.kind then ok (record { fh = 0; flags = fopen_flags flags }) else err enotdir
  | none ↦ err enoent
]

module _ (clock : ℕ → ℕ) where
  unfoldable pub setattr : ℕ → SetAttr → MemFs → Result ReplyAttrPayload ℕ × MemFs
  unfolding attributes changed set_inode
  setattr ino args fs = elim (fs.inodes ino) [
    | none ↦ (err enoent, record fs { readings = suc fs.readings })
    | some node ↦
        let node' = changed args (clock fs.readings) node in
        (
          ok (attributes node'),
          record fs { inodes = set_inode ino (some node') fs.inodes; readings = suc fs.readings },
        )
  ]

  unfoldable pub write : ℕ → ℕ → List ℕ → MemFs → Result ℕ ℕ × MemFs
  unfolding is_file written stamp set_inode
  write ino offset new fs =
      let fs' : MemFs = record fs { readings = suc fs.readings } in
      elim (fs.inodes ino) [
        | none ↦ (err enoent, fs')
        | some node ↦
            if is_file node.kind
            then (
              ok (length new % 2 ^ 32),
              record fs' {
                inodes =
                    set_inode ino (some (stamp (clock fs.readings) (written offset new node)))
                      fs.inodes;
              },
            )
            else (err eisdir, fs')
      ]
