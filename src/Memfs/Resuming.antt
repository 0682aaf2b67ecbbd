-- ===== src/Memfs/Resuming.antt =====
-- examples/memfs/main.rs: `readdir` in several calls.
use confuse.Common.{
  ℕ, zero, suc, ◌+◌, ◌<◌, ◌≡◌, refl, sym, ◌∙◌, ap, subst, inl, inr, true, false, Option, none, some,
  List, [], ◌∷◌, ◌++◌, filter, ltb, Bool-cases, Option-cases, arith,
}
use mathlib.Core.List.{append_assoc}
use confuse.Facade.Types.{DirectoryEntryPayload, directory}
use confuse.Facade.Buffers.{ReplyDirectory, add, reply_ok}
use confuse.Facade.Filling.{add_all, add_all-beginning}
use confuse.Memfs.Nodes.{INode, MemFs, is_dir}
use confuse.Memfs.Listing.{
  dot, dot_dot, entry_of, sort, child_inodes, add_if, add_children, list_directory, readdir,
}

-- The entries of the children, with their offsets, from an index.
abbrev pub numbered : (ℕ → Option INode) → ℕ → List ℕ → List DirectoryEntryPayload
numbered inodes idx [] = []
numbered inodes idx (i ∷ is) =
    let rest = numbered inodes (suc idx) is in
    elim (inodes i) [
      | none ↦ rest
      | some child ↦ entry_of child.ino (idx + 3) child.kind child.name ∷ rest
    ]

-- Everything that a directory lists.
abbrev pub all_entries : ℕ → INode → MemFs → List DirectoryEntryPayload
all_entries ino node fs =
    entry_of ino 1 directory dot
    ∷ entry_of node.parent 2 directory dot_dot
    ∷ numbered fs.inodes 0 (sort (child_inodes ino fs.children))

-- The entries behind an offset.
abbrev pub after : ℕ → List DirectoryEntryPayload → List DirectoryEntryPayload
after offset = filter (λ e. ltb offset e.offset)

add_children-add_all :
    (inodes : ℕ → Option INode) (offset idx : ℕ) (is : List ℕ) (reply : ReplyDirectory)
    → add_children inodes offset idx (idx + 3) is reply
      ≡ add_all (after offset (numbered inodes idx is)) reply
unfolding add_children
add_children-add_all inodes offset idx [] reply = refl
add_children-add_all inodes offset idx (i ∷ is) reply = elim (Option-cases (inodes i)) [
  | inl e ↦ ground (arith, e, add_children-add_all inodes offset (suc idx) is reply)
  | inr (child, e) ↦
      let entry = entry_of child.ino (idx + 3) child.kind child.name in
      ground (
        arith,
        e,
        add_children-add_all inodes offset (suc idx) is reply,
        add_children-add_all inodes offset (suc idx) is (add entry reply).1,
      )
]

list_directory-add_all :
    (ino : ℕ) (node : INode) (offset : ℕ) (fs : MemFs) (reply : ReplyDirectory)
    → list_directory ino node offset fs reply
      ≡ add_all (after offset (all_entries ino node fs)) reply
unfolding list_directory add_if
list_directory-add_all ino node zero fs reply = ground (
  arith,
  add_children-add_all fs.inodes 0 0 (sort (child_inodes ino fs.children))
      (add (entry_of node.parent 2 directory dot_dot)
        (add (entry_of ino 1 directory dot) reply).1).1,
)
list_directory-add_all ino node (suc zero) fs reply = ground (
  arith,
  add_children-add_all fs.inodes 1 0 (sort (child_inodes ino fs.children))
      (add (entry_of node.parent 2 directory dot_dot) reply).1,
)
list_directory-add_all ino node (suc (suc offset)) fs reply = ground (
  arith,
  add_children-add_all fs.inodes (suc (suc offset)) 0 (sort (child_inodes ino fs.children)) reply,
)

-- The offsets rise.
abbrev pub Ascending : ℕ → List DirectoryEntryPayload → Type 0
Ascending b [] = Unit
Ascending b (e ∷ es) = (b < e.offset) × Ascending e.offset es

numbered-Ascending :
    (inodes : ℕ → Option INode) (idx b : ℕ) (is : List ℕ)
    → b < idx + 3
    → Ascending b (numbered inodes idx is)
numbered-Ascending inodes idx b [] lt = tt
numbered-Ascending inodes idx b (i ∷ is) lt = elim (Option-cases (inodes i)) [
  | inl e ↦ rw (numbered, e) (numbered-Ascending inodes (suc idx) b is (omega arith))
  | inr (child, e) ↦
      rw (Ascending, numbered, e)
        (lt, numbered-Ascending inodes (suc idx) (idx + 3) is (omega arith))
]

pub after-all :
    (o b : ℕ) (es : List DirectoryEntryPayload) → Ascending b es → o < suc b → after o es ≡ es
after-all o b [] up lt = refl
after-all o b (e ∷ es) up lt = ground (arith, after-all o e.offset es up.1)

Ascending-lower :
    (b c : ℕ) (es : List DirectoryEntryPayload) → b < suc c → Ascending c es → Ascending b es
Ascending-lower b c [] lt up = tt
Ascending-lower b c (e ∷ es) lt up = (omega (arith, up.0), up.1)

after-Ascending :
    (o b : ℕ) (es : List DirectoryEntryPayload) → Ascending b es → Ascending b (after o es)
after-Ascending o b [] up = tt
after-Ascending o b (e ∷ es) up = elim (Bool-cases (ltb o e.offset)) [
  | inl kept ↦ rw kept (up.0, after-Ascending o e.offset es up.1)
  | inr gone ↦
      rw gone (after-Ascending o b es (Ascending-lower b e.offset es (omega (arith, up.0)) up.1))
]

after-above :
    (o b : ℕ) (es : List DirectoryEntryPayload) → Ascending b es → Ascending o (after o es)
after-above o b [] up = tt
after-above o b (e ∷ es) up = elim (Bool-cases (ltb o e.offset)) [
  | inl kept ↦ rw kept (ground arith, after-Ascending o e.offset es up.1)
  | inr gone ↦ rw gone (after-above o e.offset es up.1)
]

middle-above :
    (b : ℕ) (front : List DirectoryEntryPayload) (e : DirectoryEntryPayload)
    (rest : List DirectoryEntryPayload)
    → Ascending b (front ++ (e ∷ rest))
    → b < e.offset
middle-above b [] e rest up = up.0
middle-above b (f ∷ front) e rest up = omega (arith, middle-above f.offset front e rest up.1, up.0)

after-middle :
    (b : ℕ) (front : List DirectoryEntryPayload) (e : DirectoryEntryPayload)
    (rest : List DirectoryEntryPayload)
    → Ascending b (front ++ (e ∷ rest))
    → after e.offset (front ++ (e ∷ rest)) ≡ rest
after-middle b [] e rest up = ground (arith, after-all e.offset e.offset rest up.1)
after-middle b (f ∷ front) e rest up =
    ground (arith, after-middle f.offset front e rest up.1, middle-above f.offset front e rest up.1)

after-after :
    (o p : ℕ) (es : List DirectoryEntryPayload) → o < p → after p (after o es) ≡ after p es
after-after o p [] lt = refl
after-after o p (e ∷ es) lt = ground (arith, after-after o p es lt)

pub all_entries-Ascending :
    (ino : ℕ) (node : INode) (fs : MemFs) → Ascending 0 (all_entries ino node fs)
all_entries-Ascending ino node fs = (
  omega arith,
  (
    omega arith,
    numbered-Ascending fs.inodes 0 2 (sort (child_inodes ino fs.children)) (omega arith),
  ),
)

offset-in-after :
    (o : ℕ) (es front : List DirectoryEntryPayload) (e : DirectoryEntryPayload)
    (rest : List DirectoryEntryPayload)
    → Ascending 0 es
    → after o es ≡ front ++ (e ∷ rest)
    → after e.offset es ≡ rest
offset-in-after o es front e rest up split =
    let above = subst (Ascending o) split (after-above o 0 es up) in
    sym (after-after o e.offset es (middle-above o front e rest above))
    ∙ (ap (after e.offset) split ∙ after-middle o front e rest above)

pub readdir-add_all :
    (ino offset : ℕ) (fs : MemFs) (node : INode) (reply : ReplyDirectory)
    → fs.inodes ino ≡ some node
    → is_dir node.kind ≡ true
    → readdir ino offset fs reply
      ≡ reply_ok (add_all (after offset (all_entries ino node fs)) reply)
unfolding readdir
readdir-add_all ino offset fs node reply here is_directory =
    ground (arith, list_directory-add_all ino node offset fs reply)

-- Reading a directory into an empty buffer of any size gives a beginning of the entries behind
-- the offset, and all of them unless the buffer is full; where the last entry given is `e`, the
-- entries behind the offset of `e` are exactly those that were not given.
pub readdir_resumes :
    (ino offset : ℕ) (fs : MemFs) (node : INode) (reply : ReplyDirectory)
    → fs.inodes ino ≡ some node
    → is_dir node.kind ≡ true
    → reply.entries ≡ []
    → (rest : List DirectoryEntryPayload) × (after offset (all_entries ino node fs)
        ≡ (readdir ino offset fs reply).entries ++ rest)
      × ((readdir ino offset fs reply).full ≡ false → rest ≡ [])
      × ((front : List DirectoryEntryPayload) (e : DirectoryEntryPayload)
          → (readdir ino offset fs reply).entries ≡ front ++ (e ∷ [])
          → after e.offset (all_entries ino node fs) ≡ rest)
unfolding reply_ok
readdir_resumes ino offset fs node reply here is_directory empty =
    let es = after offset (all_entries ino node fs) in
    let (rest, joined, all) = add_all-beginning es reply in
    let given : es ≡ (add_all es reply).entries ++ rest = sym (ap (λ l. l ++ es) empty) ∙ joined in
    rw (readdir-add_all ino offset fs node reply here is_directory) (
      rest,
      given,
      all,
      λ front e last.
          offset-in-after offset (all_entries ino node fs) front e rest
            (all_entries-Ascending ino node fs)
            (given ∙ (ap (λ l. l ++ rest) last ∙ append_assoc front (e ∷ []) rest)),
    )
