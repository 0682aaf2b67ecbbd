-- ===== src/Memfs/Listing.antt =====
-- examples/memfs/main.rs: `readdir`.
use confuse.Common.{
  ℕ, suc, ◌+◌, Bool, true, false, Option, none, some, List, [], ◌∷◌, ◌==◌, leb, if◌then◌else◌,
}
use confuse.Common.Text.{Text}
use confuse.Facade.Errno.{enoent, enotdir}
use confuse.Facade.Types.{FileType, DirectoryEntryPayload, directory}
use confuse.Facade.Buffers.{ReplyDirectory, add, reply_ok, reply_error}
use confuse.Memfs.Nodes.{INode, MemFs, Child, is_dir}

-- "." and "..".
abbrev pub dot : Text
dot = 46 ∷ []

abbrev pub dot_dot : Text
dot_dot = 46 ∷ 46 ∷ []

abbrev pub entry_of : ℕ → ℕ → FileType → Text → DirectoryEntryPayload
entry_of ino offset kind name = record { ino = ino; offset = offset; kind = kind; name = name }

-- The inodes of the children, sorted.
unfoldable pub insert_sorted : ℕ → List ℕ → List ℕ
insert_sorted i [] = i ∷ []
insert_sorted i (j ∷ js) = let rest = insert_sorted i js in if leb i j then i ∷ j ∷ js else j ∷ rest

unfoldable pub sort : List ℕ → List ℕ
unfolding insert_sorted
sort [] = []
sort (i ∷ is) = insert_sorted i (sort is)

unfoldable pub child_inodes : ℕ → List Child → List ℕ
child_inodes ino [] = []
child_inodes ino (c ∷ cs) =
    let rest = child_inodes ino cs in if c.parent == ino then c.ino ∷ rest else rest

-- `offset == 0 && reply.add(...)` and its like: an entry is added where the test holds.
unfoldable pub add_if : Bool → DirectoryEntryPayload → ReplyDirectory → Bool × ReplyDirectory
unfolding add
add_if true entry reply = add entry reply
add_if false entry reply = (false, reply)

-- The loop, from the index and the offset of the next child.
unfoldable pub add_children :
    (ℕ → Option INode) → ℕ → ℕ → ℕ → List ℕ → ReplyDirectory → ReplyDirectory
unfolding add
add_children inodes offset idx entry_offset [] reply = reply
add_children inodes offset idx entry_offset (child_ino ∷ rest) reply =
    if leb entry_offset offset
    then add_children inodes offset (suc idx) (entry_offset + 1) rest reply
    else elim (inodes child_ino) [
      | none ↦ add_children inodes offset (suc idx) (entry_offset + 1) rest reply
      | some child ↦
          let (full, reply') = add (entry_of child.ino (idx + 3) child.kind child.name) reply in
          if full
          then reply'
          else add_children inodes offset (suc idx) (entry_offset + 1) rest reply'
    ]

unfoldable pub list_directory : ℕ → INode → ℕ → MemFs → ReplyDirectory → ReplyDirectory
unfolding add_if add_children child_inodes sort
list_directory ino node offset fs reply =
    let (full, reply1) = add_if (offset == 0) (entry_of ino 1 directory dot) reply in
    if full
    then reply1
    else (let (full', reply2) =
          add_if (leb offset 1) (entry_of node.parent 2 directory dot_dot) reply1 in
        if full'
        then reply2
        else add_children fs.inodes offset 0 3 (sort (child_inodes ino fs.children)) reply2)

unfoldable pub readdir : ℕ → ℕ → MemFs → ReplyDirectory → ReplyDirectory
unfolding is_dir list_directory reply_ok reply_error
readdir ino offset fs reply = elim (fs.inodes ino) [
  | none ↦ reply_error enoent reply
  | some node ↦
      if is_dir node.kind
      then reply_ok (list_directory ino node offset fs reply)
      else reply_error enotdir reply
]
