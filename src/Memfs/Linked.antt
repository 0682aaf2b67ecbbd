-- ===== src/Memfs/Linked.antt =====
-- examples/memfs: the entries of the table of children lead to inodes.
use confuse.Common.{
  ℕ, ◌<◌, ◌≡◌, ◌∙◌, inl, inr, true, false, Option, none, some, ◌==◌, Bool-cases, Option-cases,
  arith,
}
use confuse.Common.Text.{Text, text_eq_iff}
use confuse.Memfs.Nodes.{INode, MemFs, set_inode, map_node, modify_node, get_child}
use confuse.Memfs.Tables.{same_key}

-- The inode is in the table and carries the name.
abbrev pub Named : (ℕ → Option INode) → ℕ → Text → ℕ → Type 0
Named inodes p n i = (node : INode) × (inodes i ≡ some node) × (node.parent ≡ p) × (node.name ≡ n)

abbrev pub Below : ℕ → (ℕ → Option INode) → Type 0
Below bound inodes = (i : ℕ) (node : INode) → inodes i ≡ some node → i < bound

-- Every entry of the table of children leads to an inode that carries its name, and every
-- inode has been allocated.
pub record IsLinked (fs : MemFs) : Type 0 where
  pub linked :
      (p : ℕ) (n : Text) (i : ℕ) → get_child p n fs.children ≡ some i → Named fs.inodes p n i
  pub below : Below fs.next_ino fs.inodes

-- A change that leaves the name of a node alone.
abbrev pub KeepsName : (INode → INode) → Type 0
KeepsName f = (node : INode) → ((f node).parent ≡ node.parent) × ((f node).name ≡ node.name)

pub modify_node-Named :
    (j : ℕ) (f : INode → INode) (inodes : ℕ → Option INode) (p : ℕ) (n : Text) (i : ℕ)
    → KeepsName f
    → Named inodes p n i
    → Named (modify_node j f inodes) p n i
unfolding modify_node set_inode map_node
modify_node-Named j f inodes p n i keeps (node, here, parent_is, name_is) =
    elim (Bool-cases (j == i)) [
      | inl e ↦ (f node, ground arith, (keeps node).0 ∙ parent_is, (keeps node).1 ∙ name_is)
      | inr e ↦ (node, ground arith, parent_is, name_is)
    ]

pub modify_node-other :
    (j : ℕ) (f : INode → INode) (inodes : ℕ → Option INode) (p : ℕ) (n : Text) (i : ℕ)
    → (j == i) ≡ false
    → Named inodes p n i
    → Named (modify_node j f inodes) p n i
unfolding modify_node set_inode
modify_node-other j f inodes p n i e (node, here, parent_is, name_is) =
    (node, ground arith, parent_is, name_is)

pub set_inode-other :
    (j : ℕ) (o : Option INode) (inodes : ℕ → Option INode) (p : ℕ) (n : Text) (i : ℕ)
    → (j == i) ≡ false
    → Named inodes p n i
    → Named (set_inode j o inodes) p n i
unfolding set_inode
set_inode-other j o inodes p n i e (node, here, parent_is, name_is) =
    (node, ground arith, parent_is, name_is)

pub modify_node-Below :
    (bound j : ℕ) (f : INode → INode) (inodes : ℕ → Option INode)
    → Below bound inodes
    → Below bound (modify_node j f inodes)
unfolding modify_node set_inode map_node
modify_node-Below bound j f inodes h i node e = elim (Option-cases (inodes i)) [
  | inl e' ↦ absurd (ground arith)
  | inr (node', e') ↦ h i node' e'
]

pub set_inode-Below :
    (bound j : ℕ) (o : Option INode) (inodes : ℕ → Option INode)
    → j < bound
    → Below bound inodes
    → Below bound (set_inode j o inodes)
unfolding set_inode
set_inode-Below bound j o inodes lt h i node e = elim (Bool-cases (j == i)) [
  | inl e' ↦ ground arith
  | inr e' ↦ h i node (ground arith)
]

pub remove_inode-Below :
    (bound j : ℕ) (inodes : ℕ → Option INode)
    → Below bound inodes
    → Below bound (set_inode j none inodes)
unfolding set_inode
remove_inode-Below bound j inodes h i node e = elim (Bool-cases (j == i)) [
  | inl e' ↦ absurd (ground arith)
  | inr e' ↦ h i node (ground arith)
]

-- Two entries for one inode are one entry.
pub one_name :
    (fs : MemFs) (p : ℕ) (n : Text) (q : ℕ) (m : Text) (i : ℕ)
    → IsLinked fs
    → get_child p n fs.children ≡ some i
    → get_child q m fs.children ≡ some i
    → same_key p n q m ≡ true
one_name fs p n q m i good here there =
    let (a, a_is, a_parent, a_name) = good.linked p n i here in
    let (b, b_is, b_parent, b_name) = good.linked q m i there in ground (arith, text_eq_iff n m)
