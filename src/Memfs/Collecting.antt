-- ===== src/Memfs/Collecting.antt =====
-- examples/memfs/main.rs: a directory as a reader gets it by calls of `readdir`, each into a buffer of
-- its own and from the offset of the last entry that the call before gave.
use confuse.Common.{
  ℕ, zero, suc, ◌+◌, ◌≤◌, ◌<◌, ◌≡◌, refl, sym, ◌∙◌, ap, subst, inl, inr, ◌⊎◌, true, Option, none,
  some, List, [], ◌∷◌, ◌++◌, map, length, length-append, ltb, Bool-cases, Option-cases, arith,
}
use mathlib.Core.List.{Perm}
use mathlib.Core.List.Perm
use confuse.Facade.Types.{DirectoryEntryPayload, directory}
use confuse.Facade.Buffers.{reply_ok, dirent_entry_size}
use confuse.Facade.Filling.{add_all, empty_reply, add_all-first}
use confuse.Memfs.Nodes.{INode, MemFs, Child, is_dir}
use confuse.Memfs.Listing.{dot, dot_dot, insert_sorted, sort, child_inodes, readdir}
use confuse.Memfs.Resuming.{
  numbered, all_entries, after, readdir-add_all, readdir_resumes, after-all, all_entries-Ascending,
}
use confuse.Memfs.Described.{
  describes, described, children_of, named, described-numbered, named-child_inodes, named-sort,
}

abbrev pub last_offset : List DirectoryEntryPayload → Option ℕ
last_offset [] = none
last_offset (e ∷ []) = some e.offset
last_offset (e ∷ f ∷ es) = last_offset (f ∷ es)

-- The entries that at most so many calls give, with buffers of the given size.
unfoldable pub collect : MemFs → ℕ → ℕ → ℕ → ℕ → List DirectoryEntryPayload
collect fs ino max zero offset = []
collect fs ino max (suc calls) offset =
    let es = (readdir ino offset fs (empty_reply max)).entries in
    es ++ elim (last_offset es) [ none ↦ [] | some o ↦ collect fs ino max calls o ]

-- The lengths, for the number of calls.
length-insert_sorted : (i : ℕ) (is : List ℕ) → length (insert_sorted i is) ≡ suc (length is)
unfolding insert_sorted
length-insert_sorted i [] = refl
length-insert_sorted i (j ∷ is) = ground (arith, length-insert_sorted i is)

length-sort : (is : List ℕ) → length (sort is) ≡ length is
unfolding sort
length-sort [] = refl
length-sort (i ∷ is) = omega (arith, length-insert_sorted i (sort is), length-sort is)

length-child_inodes : (ino : ℕ) (cs : List Child) → length (child_inodes ino cs) ≤ length cs
unfolding child_inodes
length-child_inodes ino [] = omega arith
length-child_inodes ino (c ∷ cs) = ground (arith, length-child_inodes ino cs)

length-numbered :
    (inodes : ℕ → Option INode) (idx : ℕ) (is : List ℕ)
    → length (numbered inodes idx is) ≤ length is
length-numbered inodes idx [] = omega arith
length-numbered inodes idx (i ∷ is) = elim (Option-cases (inodes i)) [
  | inl e ↦ rw (numbered, e) (omega (arith, length-numbered inodes (suc idx) is))
  | inr (child, e) ↦ rw (numbered, e) (omega (arith, length-numbered inodes (suc idx) is))
]

length-all_entries :
    (ino : ℕ) (node : INode) (fs : MemFs)
    → length (all_entries ino node fs) ≤ length fs.children + 2
length-all_entries ino node fs = omega (
  arith,
  length-numbered fs.inodes 0 (sort (child_inodes ino fs.children)),
  length-sort (child_inodes ino fs.children),
  length-child_inodes ino fs.children,
)

-- Every entry fits into a buffer.
abbrev Fits : ℕ → List DirectoryEntryPayload → Type 0
Fits max [] = Unit
Fits max (e ∷ es) = (dirent_entry_size e.name ≤ max) × Fits max es

numbered-Fits :
    (max : ℕ) (inodes : ℕ → Option INode) (idx : ℕ) (is : List ℕ)
    → ((i : ℕ) (child : INode) → inodes i ≡ some child → dirent_entry_size child.name ≤ max)
    → Fits max (numbered inodes idx is)
numbered-Fits max inodes idx [] h = tt
numbered-Fits max inodes idx (i ∷ is) h = elim (Option-cases (inodes i)) [
  | inl e ↦ rw (numbered, e) (numbered-Fits max inodes (suc idx) is h)
  | inr (child, e) ↦ rw (Fits, numbered, e) (h i child e, numbered-Fits max inodes (suc idx) is h)
]

after-Fits : (max o : ℕ) (es : List DirectoryEntryPayload) → Fits max es → Fits max (after o es)
after-Fits max o [] h = tt
after-Fits max o (e ∷ es) h = elim (Bool-cases (ltb o e.offset)) [
  | inl kept ↦ rw kept (h.0, after-Fits max o es h.1)
  | inr gone ↦ rw gone (after-Fits max o es h.1)
]

-- A list from its end.
from_end :
    (es : List DirectoryEntryPayload)
    → (es ≡ [])
      ⊎ ((front : List DirectoryEntryPayload) × (e : DirectoryEntryPayload) × (es
            ≡ front ++ (e ∷ [])))
from_end [] = inl refl
from_end (e ∷ es) = elim (from_end es) [
  | inl none_left ↦ inr ([], e, ap (λ l. e ∷ l) none_left)
  | inr (front, last, split) ↦ inr (e ∷ front, last, ap (λ l. e ∷ l) split)
]

last_offset-append :
    (front : List DirectoryEntryPayload) (e : DirectoryEntryPayload)
    → last_offset (front ++ (e ∷ [])) ≡ some e.offset
last_offset-append [] e = refl
last_offset-append (f ∷ []) e = refl
last_offset-append (f ∷ g ∷ front) e = last_offset-append (g ∷ front) e

-- The last call, and one that another follows.
collected_last :
    (given rest left : List DirectoryEntryPayload) (next : Option ℕ → List DirectoryEntryPayload)
    → given ≡ []
    → ((e : DirectoryEntryPayload) (es : List DirectoryEntryPayload)
        → left ≡ e ∷ es
        → (more : List DirectoryEntryPayload) × (given ≡ e ∷ more))
    → next none ≡ []
    → given ++ next (last_offset given) ≡ left
collected_last given rest [] next nothing progress ends = rw nothing ends
collected_last given rest (e ∷ es) next nothing progress ends =
    let (more, some_more) = progress e es refl in absurd (ground (arith, nothing, some_more))

collected_more :
    (given rest left front : List DirectoryEntryPayload) (e : DirectoryEntryPayload)
    (next : Option ℕ → List DirectoryEntryPayload)
    → left ≡ given ++ rest
    → given ≡ front ++ (e ∷ [])
    → next (some e.offset) ≡ rest
    → given ++ next (last_offset given) ≡ left
collected_more given rest left front e next joined split follows =
    ap (λ o. given ++ next o) (ap last_offset split ∙ last_offset-append front e)
    ∙ (ap (λ l. given ++ l) follows ∙ sym joined)

shorter :
    (given rest left front : List DirectoryEntryPayload) (e : DirectoryEntryPayload) (calls : ℕ)
    → left ≡ given ++ rest
    → given ≡ front ++ (e ∷ [])
    → length left < suc calls
    → length rest < calls
shorter given rest left front e calls joined split enough = omega (
  arith,
  ap length joined,
  length-append given rest,
  ap length split,
  length-append front (e ∷ []),
)

head-Fits :
    (max : ℕ) (left : List DirectoryEntryPayload) (e : DirectoryEntryPayload)
    (es : List DirectoryEntryPayload)
    → Fits max left
    → left ≡ e ∷ es
    → dirent_entry_size e.name ≤ max
head-Fits max left e es fits is = (subst (Fits max) is fits).0

module _ (fs : MemFs) (ino max : ℕ) (node : INode) (here : fs.inodes ino ≡ some node)
    (is_directory : is_dir node.kind ≡ true) where
  -- A call gives an entry where one is left.
  some_given :
      (offset : ℕ) (e : DirectoryEntryPayload) (es : List DirectoryEntryPayload)
      → after offset (all_entries ino node fs) ≡ e ∷ es
      → dirent_entry_size e.name ≤ max
      → (more : List DirectoryEntryPayload) × ((readdir ino offset fs (empty_reply max)).entries
          ≡ e ∷ more)
  unfolding reply_ok
  some_given offset e es left fits =
      let (more, first) = add_all-first e es max fits in
      (
        more,
        ap (λ r. r.entries) (readdir-add_all ino offset fs node (empty_reply max) here is_directory)
            ∙ (ap (λ l. (add_all l (empty_reply max)).entries) left ∙ first),
      )

  collect-after :
      (calls offset : ℕ)
      → length (after offset (all_entries ino node fs)) < calls
      → Fits max (all_entries ino node fs)
      → collect fs ino max calls offset ≡ after offset (all_entries ino node fs)
  unfolding collect
  collect-after zero offset enough fits = absurd (omega (arith, enough))
  collect-after (suc calls) offset enough fits =
      let left = after offset (all_entries ino node fs) in
      let given = (readdir ino offset fs (empty_reply max)).entries in
      let next : Option ℕ → List DirectoryEntryPayload =
        λ last. elim last [ none ↦ [] | some o ↦ collect fs ino max calls o ] in
      let (rest, joined, full, resume) =
        readdir_resumes ino offset fs node (empty_reply max) here is_directory refl in
      elim (from_end given) [
        | inl nothing ↦
            collected_last given rest left next nothing
              (λ e es is.
                some_given offset e es is (
                  head-Fits max left e es (after-Fits max offset (all_entries ino node fs) fits)
                    is))
              refl
        | inr (front, e, split) ↦
            let behind = resume front e split in
            collected_more given rest left front e next joined split (
              collect-after calls e.offset
                (subst (λ l. length l < calls) (sym behind)
                  (shorter given rest left front e calls joined split enough))
                fits
              ∙ behind)
      ]

-- A directory of the example that is read by calls of `readdir`, each into a buffer of one size, which
-- every name in the file system fits, and from the offset of the last entry that the call before
-- gave: three calls more than the tables have children give ".", ".." and each child of the
-- directory, every one of them once, and nothing else.
pub collect-lists :
    (fs : MemFs) (ino max : ℕ) (node : INode)
    → fs.inodes ino ≡ some node
    → is_dir node.kind ≡ true
    → 32 ≤ max
    → ((i : ℕ) (child : INode) → fs.inodes i ≡ some child → dirent_entry_size child.name ≤ max)
    → Perm (map described (collect fs ino max (length fs.children + 3) 0)) (
        describes ino directory dot
        ∷ describes node.parent directory dot_dot
        ∷ children_of fs.inodes ino fs.children)
unfolding dirent_entry_size
collect-lists fs ino max node here is_directory large fit =
    let all = all_entries ino node fs in
    let whole : after 0 all ≡ all =
      after-all 0 0 all (all_entries-Ascending ino node fs) (omega arith) in
    let fits : Fits max all =
      (large, (large, numbered-Fits max fs.inodes 0 (sort (child_inodes ino fs.children)) fit)) in
    let enough : length (after 0 all) < length fs.children + 3 =
      subst (λ l. length l < length fs.children + 3) (sym whole)
        (omega (arith, length-all_entries ino node fs)) in
    let collected : collect fs ino max (length fs.children + 3) 0 ≡ all =
      collect-after fs ino max node here is_directory (length fs.children + 3) 0 enough fits
      ∙ whole in
    let children : map described (numbered fs.inodes 0 (sort (child_inodes ino fs.children)))
        ≡ named fs.inodes (sort (child_inodes ino fs.children)) =
      described-numbered fs.inodes 0 (sort (child_inodes ino fs.children)) in
    subst
      (λ ds. Perm ds (
        describes ino directory dot
        ∷ describes node.parent directory dot_dot
        ∷ children_of fs.inodes ino fs.children))
      (sym (
        ap (map described) collected
        ∙ ap (λ ds. describes ino directory dot ∷ describes node.parent directory dot_dot ∷ ds)
            children))
      (Perm.cons _ (
        Perm.cons _ (
          subst (λ ds. Perm (named fs.inodes (sort (child_inodes ino fs.children))) ds)
            (named-child_inodes fs.inodes ino fs.children)
            (named-sort fs.inodes (child_inodes ino fs.children)))))
