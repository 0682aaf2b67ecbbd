-- ===== src/Memfs/Contents.antt =====
-- examples/memfs/main.rs: what `read` gives after `write`.
use confuse.Common.{
  ℕ, zero, suc, ◌+◌, ◌-◌, ◌%◌, ◌^◌, ◌≤◌, min, max, ◌≡◌, refl, ◌∙◌, ap, Bool, true, ◌&&◌, some, List,
  [], ◌∷◌, length, take, ltb, leb, if◌then◌else◌, ok, arith,
}
use confuse.Memfs.Nodes.{INode, MemFs, is_file, set_inode}
use confuse.Memfs.Storage.{stamp}
use confuse.Memfs.Methods.{resize, drop, copy_at, written, read, write}

-- The byte at an index, zero behind the end.
abbrev pub byte_at : ℕ → List ℕ → ℕ
byte_at i [] = 0
byte_at zero (b ∷ bytes) = b
byte_at (suc i) (b ∷ bytes) = byte_at i bytes

length-resize : (n : ℕ) (bytes : List ℕ) → length (resize n bytes) ≡ n
unfolding resize
length-resize zero bytes = refl
length-resize (suc n) [] = omega (arith, length-resize n [])
length-resize (suc n) (b ∷ bytes) = omega (arith, length-resize n bytes)

byte_at-resize :
    (n i : ℕ) (bytes : List ℕ) → length bytes ≤ n → byte_at i (resize n bytes) ≡ byte_at i bytes
unfolding resize
byte_at-resize zero i [] h = refl
byte_at-resize zero i (b ∷ bytes) h = absurd (omega arith)
byte_at-resize (suc n) zero [] h = refl
byte_at-resize (suc n) (suc i) [] h = byte_at-resize n i [] (omega arith)
byte_at-resize (suc n) zero (b ∷ bytes) h = refl
byte_at-resize (suc n) (suc i) (b ∷ bytes) h = byte_at-resize n i bytes (omega arith)

length-copy_at :
    (offset : ℕ) (new bytes : List ℕ)
    → offset + length new ≤ length bytes
    → length (copy_at offset new bytes) ≡ length bytes
unfolding copy_at
length-copy_at zero [] bytes h = refl
length-copy_at zero (d ∷ new) [] h = absurd (omega arith)
length-copy_at zero (d ∷ new) (b ∷ bytes) h =
    omega (arith, length-copy_at zero new bytes (omega arith))
length-copy_at (suc offset) new [] h = absurd (omega arith)
length-copy_at (suc offset) new (b ∷ bytes) h =
    omega (arith, length-copy_at offset new bytes (omega arith))

-- The byte is one of those written.
abbrev pub is_written : ℕ → ℕ → ℕ → Bool
is_written offset n i = leb offset i && ltb i (offset + n)

byte_at-copy_at :
    (offset i : ℕ) (new bytes : List ℕ)
    → offset + length new ≤ length bytes
    → byte_at i (copy_at offset new bytes)
      ≡ (if is_written offset (length new) i then byte_at (i - offset) new else byte_at i bytes)
unfolding copy_at
byte_at-copy_at zero i [] bytes h = ground arith
byte_at-copy_at zero i (d ∷ new) [] h = absurd (omega arith)
byte_at-copy_at zero zero (d ∷ new) (b ∷ bytes) h = ground arith
byte_at-copy_at zero (suc i) (d ∷ new) (b ∷ bytes) h =
    ground (arith, byte_at-copy_at zero i new bytes (omega arith))
byte_at-copy_at (suc offset) i new [] h = absurd (omega arith)
byte_at-copy_at (suc offset) zero new (b ∷ bytes) h = ground arith
byte_at-copy_at (suc offset) (suc i) new (b ∷ bytes) h =
    ground (arith, byte_at-copy_at offset i new bytes (omega arith))

take-drop-copy_at :
    (offset : ℕ) (new bytes : List ℕ)
    → offset + length new ≤ length bytes
    → take (length new) (drop offset (copy_at offset new bytes)) ≡ new
unfolding copy_at drop
take-drop-copy_at zero [] bytes h = refl
take-drop-copy_at zero (d ∷ new) [] h = absurd (omega arith)
take-drop-copy_at zero (d ∷ new) (b ∷ bytes) h =
    ap (λ l. d ∷ l) (take-drop-copy_at zero new bytes (omega arith))
take-drop-copy_at (suc offset) new [] h = absurd (omega arith)
take-drop-copy_at (suc offset) new (b ∷ bytes) h = take-drop-copy_at offset new bytes (omega arith)

length-written :
    (offset : ℕ) (new : List ℕ) (node : INode)
    → length (written offset new node).bytes ≡ max (offset + length new) (length node.bytes)
unfolding written
length-written offset new node = ground (
  arith,
  length-copy_at offset new (resize (offset + length new) node.bytes),
  length-copy_at offset new node.bytes,
  length-resize (offset + length new) node.bytes,
)

-- After a write, a file is as long as before or as long as the write reaches, whichever is
-- more; its bytes are the new ones where the write stands, the old ones elsewhere, and zero
-- between the old end and the write.
pub byte_at-written :
    (offset : ℕ) (new : List ℕ) (node : INode) (i : ℕ)
    → (length (written offset new node).bytes ≡ max (offset + length new) (length node.bytes))
      × (byte_at i (written offset new node).bytes ≡ (
          if is_written offset (length new) i
          then byte_at (i - offset) new
          else byte_at i node.bytes))
unfolding written
byte_at-written offset new node i = (
  length-written offset new node,
  ground (
    arith,
    byte_at-copy_at offset i new (resize (offset + length new) node.bytes),
    byte_at-copy_at offset i new node.bytes,
    length-resize (offset + length new) node.bytes,
    byte_at-resize (offset + length new) i node.bytes,
  ),
)

take-drop-written :
    (offset : ℕ) (new : List ℕ) (node : INode)
    → take (length new) (drop offset (written offset new node).bytes) ≡ new
unfolding written
take-drop-written offset new node = ground (
  arith,
  take-drop-copy_at offset new (resize (offset + length new) node.bytes),
  take-drop-copy_at offset new node.bytes,
  length-resize (offset + length new) node.bytes,
)

-- The slice that `read` answers.
abbrev slice : ℕ → ℕ → List ℕ → List ℕ
slice offset size bytes =
    if leb (length bytes) offset
    then []
    else take (min (offset + size) (length bytes) - offset) (drop offset bytes)

read-slice :
    (ino offset size : ℕ) (fs : MemFs) (node : INode)
    → fs.inodes ino ≡ some node
    → is_file node.kind ≡ true
    → read ino offset size fs ≡ ok (slice offset size node.bytes)
unfolding read
read-slice ino offset size fs node e f = ground arith

slice-written :
    (offset : ℕ) (new : List ℕ) (node : INode)
    → slice offset (length new) (written offset new node).bytes ≡ new
slice-written offset [] node = ground (arith, length-written offset [] node)
slice-written offset (d ∷ new) node =
    let long = length-written offset (d ∷ new) node in
    let whole : min (offset + length (d ∷ new)) (length (written offset (d ∷ new) node).bytes)
          - offset
        ≡ length (d ∷ new) =
      omega arith in
    ground (arith, take-drop-written offset (d ∷ new) node)

write-inodes :
    (clock : ℕ → ℕ) (ino offset : ℕ) (new : List ℕ) (fs : MemFs) (node : INode)
    → fs.inodes ino ≡ some node
    → is_file node.kind ≡ true
    → (write clock ino offset new fs).1.inodes ino
      ≡ some (stamp (clock fs.readings) (written offset new node))
unfolding write set_inode
write-inodes clock ino offset new fs node e f = ground arith

-- Writing to a regular file succeeds with the length written, and reading as much at the
-- same offset afterwards gives the bytes that were written.
pub read-write :
    (clock : ℕ → ℕ) (ino offset : ℕ) (new : List ℕ) (fs : MemFs) (node : INode)
    → fs.inodes ino ≡ some node
    → is_file node.kind ≡ true
    → ((write clock ino offset new fs).0 ≡ ok (length new % 2 ^ 32))
      × (read ino offset (length new) (write clock ino offset new fs).1 ≡ ok new)
unfolding write stamp
read-write clock ino offset new fs node e f = (
  ground arith,
  read-slice ino offset (length new) (write clock ino offset new fs).1
        (stamp (clock fs.readings) (written offset new node))
        (write-inodes clock ino offset new fs node e f) f
      ∙ ap ok (slice-written offset new node),
)
