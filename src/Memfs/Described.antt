-- ===== src/Memfs/Described.antt =====
-- examples/memfs/main.rs: what `readdir` lists, but for the offsets and the order, is what the tables
-- have.
use confuse.Common.{
  ℕ, suc, ◌≡◌, refl, ap, inl, inr, Option, none, some, List, [], ◌∷◌, map, ◌==◌, leb, if◌then◌else◌,
  Bool-cases, Option-cases,
}
use mathlib.Core.List.{Perm}
use mathlib.Core.List.Perm
use confuse.Common.Text.{Text}
use confuse.Facade.Types.{FileType, DirectoryEntryPayload}
use confuse.Memfs.Nodes.{INode, Child}
use confuse.Memfs.Listing.{insert_sorted, sort, child_inodes}
use confuse.Memfs.Resuming.{numbered}

-- What an entry says beside its offset.
pub data Description : Type 0 where
  describes : ℕ → FileType → Text → Description

abbrev pub described : DirectoryEntryPayload → Description
described e = describes e.ino e.kind e.name

-- The children that the tables have for a directory.
abbrev pub children_of : (ℕ → Option INode) → ℕ → List Child → List Description
children_of inodes ino [] = []
children_of inodes ino (c ∷ cs) =
    let rest = children_of inodes ino cs in
    if c.parent == ino
    then elim (inodes c.ino) [
      | none ↦ rest
      | some child ↦ describes child.ino child.kind child.name ∷ rest
    ]
    else rest

abbrev pub prepend : Option INode → List Description → List Description
prepend none ds = ds
prepend (some child) ds = describes child.ino child.kind child.name ∷ ds

unfoldable pub named : (ℕ → Option INode) → List ℕ → List Description
named inodes [] = []
named inodes (i ∷ is) = prepend (inodes i) (named inodes is)

prepend-cons :
    (o : Option INode) (ds es : List Description) → Perm ds es → Perm (prepend o ds) (prepend o es)
prepend-cons none ds es p = p
prepend-cons (some a) ds es p = Perm.cons (describes a.ino a.kind a.name) p

prepend-swap :
    (o q : Option INode) (ds : List Description)
    → Perm (prepend q (prepend o ds)) (prepend o (prepend q ds))
prepend-swap none none ds = Perm.refl ds
prepend-swap none (some b) ds = Perm.refl _
prepend-swap (some a) none ds = Perm.refl _
prepend-swap (some a) (some b) ds =
    Perm.swap (describes a.ino a.kind a.name) (describes b.ino b.kind b.name) ds

pub described-numbered :
    (inodes : ℕ → Option INode) (idx : ℕ) (is : List ℕ)
    → map described (numbered inodes idx is) ≡ named inodes is
unfolding named
described-numbered inodes idx [] = refl
described-numbered inodes idx (i ∷ is) = elim (Option-cases (inodes i)) [
  | inl e ↦ rw (numbered, named, e) (described-numbered inodes (suc idx) is)
  | inr (child, e) ↦
      rw (numbered, named, e)
        (ap (λ ds. describes child.ino child.kind child.name ∷ ds)
          (described-numbered inodes (suc idx) is))
]

pub named-child_inodes :
    (inodes : ℕ → Option INode) (ino : ℕ) (cs : List Child)
    → named inodes (child_inodes ino cs) ≡ children_of inodes ino cs
unfolding named child_inodes
named-child_inodes inodes ino [] = refl
named-child_inodes inodes ino (c ∷ cs) = elim (Bool-cases (c.parent == ino)) [
  | inl e ↦ elim (Option-cases (inodes c.ino)) [
    | inl e' ↦ rw (children_of, child_inodes, e, e') (named-child_inodes inodes ino cs)
    | inr (child, e') ↦
        rw (children_of, child_inodes, e, e')
          (ap (λ ds. describes child.ino child.kind child.name ∷ ds)
            (named-child_inodes inodes ino cs))
  ]
  | inr e ↦ rw (children_of, child_inodes, e) (named-child_inodes inodes ino cs)
]

named-insert_sorted :
    (inodes : ℕ → Option INode) (i : ℕ) (is : List ℕ)
    → Perm (named inodes (insert_sorted i is)) (named inodes (i ∷ is))
unfolding insert_sorted named
named-insert_sorted inodes i [] = Perm.refl _
named-insert_sorted inodes i (j ∷ is) = elim (Bool-cases (leb i j)) [
  | inl e ↦ rw (insert_sorted, e) (Perm.refl _)
  | inr e ↦
      rw (insert_sorted, e)
        (Perm.trans
          (prepend-cons (inodes j) (named inodes (insert_sorted i is)) (named inodes (i ∷ is))
            (named-insert_sorted inodes i is))
          (prepend-swap (inodes i) (inodes j) (named inodes is)))
]

pub named-sort :
    (inodes : ℕ → Option INode) (is : List ℕ) → Perm (named inodes (sort is)) (named inodes is)
unfolding sort named
named-sort inodes [] = Perm.refl _
named-sort inodes (i ∷ is) =
    Perm.trans (named-insert_sorted inodes i (sort is))
      (prepend-cons (inodes i) (named inodes (sort is)) (named inodes is) (named-sort inodes is))
