-- ===== src/Memfs/Tables.antt =====
-- examples/memfs/main.rs: lookups in the two tables after a change.
use confuse.Common.{
  ℕ, ◌≡◌, refl, inl, inr, Bool, true, false, ◌&&◌, Option, none, some, List, [], ◌∷◌, ◌==◌,
  if◌then◌else◌, arith, Bool-cases,
}
use confuse.Common.Text.{Text, text_eq, text_eq_iff}
use confuse.Memfs.Nodes.{
  INode, Child, set_inode, map_node, modify_node, is_key, get_child, remove_child, insert_child,
  has_children,
}

-- The two keys are one.
abbrev pub same_key : ℕ → Text → ℕ → Text → Bool
same_key p n q m = p == q && text_eq n m

pub get_child-remove_child :
    (p : ℕ) (n : Text) (q : ℕ) (m : Text) (cs : List Child)
    → get_child q m (remove_child p n cs) ≡ (if same_key p n q m then none else get_child q m cs)
unfolding get_child remove_child is_key
get_child-remove_child p n q m [] = ground arith
get_child-remove_child p n q m (c ∷ cs) = ground (
  arith,
  get_child-remove_child p n q m cs,
  text_eq_iff c.name n,
  text_eq_iff c.name m,
  text_eq_iff n m,
)

pub get_child-insert_child :
    (p : ℕ) (n : Text) (i q : ℕ) (m : Text) (cs : List Child)
    → get_child q m (insert_child p n i cs)
      ≡ (if same_key p n q m then some i else get_child q m cs)
unfolding get_child insert_child is_key
get_child-insert_child p n i q m cs = ground (arith, get_child-remove_child p n q m cs)

pub modify_node-at :
    (i : ℕ) (f : INode → INode) (inodes : ℕ → Option INode) (j : ℕ)
    → modify_node i f inodes j ≡ (if i == j then map_node f (inodes j) else inodes j)
unfolding modify_node set_inode
modify_node-at i f inodes j = ground arith

pub get_child-no_children :
    (i : ℕ) (m : Text) (cs : List Child) → has_children i cs ≡ false → get_child i m cs ≡ none
unfolding get_child has_children is_key
get_child-no_children i m [] h = refl
get_child-no_children i m (c ∷ cs) h = ground (arith, get_child-no_children i m cs)

pub has_children-witness :
    (i : ℕ) (cs : List Child)
    → has_children i cs ≡ true
    → (m : Text) × (j : ℕ) × (get_child i m cs ≡ some j)
unfolding get_child has_children is_key
has_children-witness i [] h = cc
has_children-witness i (c ∷ cs) h = elim (Bool-cases (c.parent == i)) [
  | inl e ↦ (c.name, c.ino, ground (arith, text_eq_iff c.name c.name))
  | inr e ↦ let (m, j, there) = has_children-witness i cs (ground arith) in (m, j, ground arith)
]
