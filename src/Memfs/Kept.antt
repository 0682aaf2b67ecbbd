-- ===== src/Memfs/Kept.antt =====
-- examples/memfs: the methods and the agreement of the two tables.
use confuse.Common.{
  ℕ, suc, ◌+◌, ◌%◌, ◌^◌, ◌<◌, ◌≡◌, refl, sym, ◌∙◌, ap, inl, inr, false, Option, none, some, ◌==◌,
  Bool-cases, Option-cases, arith,
}
use confuse.Common.Text.{Text, text_eq_iff}
use confuse.Memfs.Nodes.{
  INode, MemFs, set_inode, get_child, remove_child, has_children, new_dir, new_file,
}
use confuse.Memfs.Storage.{NewNodeKind, file, dir, touch, stamp, node_of, insert_new, touch_parent}
use confuse.Memfs.Names.{unlink, rmdir, drop_node, unlinked}
use confuse.Memfs.Tables.{same_key, get_child-remove_child, get_child-insert_child}
use confuse.Memfs.Tree.{unlinks, removes_dir, tree-restored}
use confuse.Memfs.Allowed.{perform}
use confuse.Memfs.Linked.{
  Named, KeepsName, IsLinked, modify_node-Named, set_inode-other, modify_node-Below,
  set_inode-Below, remove_inode-Below, one_name,
}

pub touch-KeepsName : (kind : NewNodeKind) (now : ℕ) → KeepsName (touch kind now)
unfolding touch stamp
touch-KeepsName file now node = (refl, refl)
touch-KeepsName dir now node = (refl, refl)

pub stamp-KeepsName : (now : ℕ) → KeepsName (stamp now)
unfolding stamp
stamp-KeepsName now node = (refl, refl)

pub stamped-KeepsName :
    (now : ℕ) (change : INode → INode)
    → KeepsName change
    → KeepsName (λ node. stamp now (change node))
unfolding stamp
stamped-KeepsName now change keeps node = keeps node

pub other :
    (fs : MemFs) (p : ℕ) (n : Text) (q : ℕ) (m : Text) (i j : ℕ)
    → IsLinked fs
    → get_child p n fs.children ≡ some i
    → get_child q m fs.children ≡ some j
    → same_key p n q m ≡ false
    → (i == j) ≡ false
other fs p n q m i j good here there apart = elim (Bool-cases (i == j)) [
  | inl e ↦ absurd (ground (arith, one_name fs p n q m i good here))
  | inr e ↦ e
]

module _ (clock : ℕ → ℕ) where
  node_of-Named :
      (kind : NewNodeKind) (i p : ℕ) (n : Text) (mode now : ℕ) (inodes : ℕ → Option INode)
      → Named (set_inode i (some (node_of kind i p n mode now)) inodes) p n i
  unfolding node_of new_dir new_file set_inode
  node_of-Named file i p n mode now inodes = (new_file i p n mode now, ground arith, refl, refl)
  node_of-Named dir i p n mode now inodes = (new_dir i p n mode now, ground arith, refl, refl)

  pub insert_new-IsLinked :
      (p : ℕ) (n : Text) (mode : ℕ) (kind : NewNodeKind) (fs : MemFs)
      → fs.next_ino + 1 < 2 ^ 64
      → IsLinked fs
      → IsLinked (insert_new clock p n mode kind fs).1
  unfolding insert_new touch_parent
  insert_new-IsLinked p n mode kind fs room good = record {
    linked = λ q m i there.
        modify_node-Named p (touch kind (clock (suc fs.readings)))
          (set_inode fs.next_ino
            (some (node_of kind fs.next_ino p n (mode % 2 ^ 16) (clock fs.readings))) fs.inodes)
          q m i (touch-KeepsName kind (clock (suc fs.readings)))
          (elim (Bool-cases (same_key p n q m)) [
            | inl e ↦
                let is_new : i ≡ fs.next_ino =
                  ground (arith, get_child-insert_child p n fs.next_ino q m fs.children) in
                let p_is : p ≡ q = ground arith in
                let n_is : n ≡ m = ground (arith, text_eq_iff n m) in
                rw (is_new, ← p_is, ← n_is)
                  (node_of-Named kind fs.next_ino p n (mode % 2 ^ 16) (clock fs.readings) fs.inodes)
            | inr e ↦
                let old : get_child q m fs.children ≡ some i =
                  ground (arith, get_child-insert_child p n fs.next_ino q m fs.children) in
                let (node, here, parent_is, name_is) = good.linked q m i old in
                let lt = good.below i node here in
                set_inode-other fs.next_ino _ fs.inodes q m i (ground arith)
                  (node, here, parent_is, name_is)
          ]);
    below = modify_node-Below _ p _ _ (
        set_inode-Below _ fs.next_ino _ fs.inodes (omega arith)
          (λ i node here. let lt = good.below i node here in omega arith));
  }

  drop_node-IsLinked :
      (p : ℕ) (n : Text) (i : ℕ) (change : INode → INode) (fs : MemFs)
      → KeepsName change
      → get_child p n fs.children ≡ some i
      → IsLinked fs
      → IsLinked (drop_node clock p n i change fs)
  unfolding drop_node
  drop_node-IsLinked p n i change fs keeps here good = record {
    linked = λ q m j there.
        let old : get_child q m fs.children ≡ some j =
          ground (arith, get_child-remove_child p n q m fs.children) in
        let apart : same_key p n q m ≡ false =
          ground (arith, get_child-remove_child p n q m fs.children) in
        modify_node-Named p (λ node. stamp (clock fs.readings) (change node))
          (set_inode i none fs.inodes) q m j (stamped-KeepsName (clock fs.readings) change keeps)
          (set_inode-other i none fs.inodes q m j (other fs p n q m i j good here old apart)
            (good.linked q m j old));
    below = modify_node-Below _ p _ _ (remove_inode-Below _ i fs.inodes good.below);
  }

  pub unlinked-KeepsName : KeepsName unlinked
  unfolding unlinked
  unlinked-KeepsName node = (refl, refl)

  -- The readings of the clock do not matter.
  pub later-IsLinked : (fs : MemFs) (r : ℕ) → IsLinked fs → IsLinked (record fs { readings = r })
  later-IsLinked fs r good = record { linked = good.linked; below = good.below }

  pub unlink-IsLinked :
      (p : ℕ) (n : Text) (fs : MemFs) → IsLinked fs → IsLinked (perform clock (unlinks p n) fs).1
  unfolding unlink
  unlink-IsLinked p n fs good = elim (Option-cases (get_child p n fs.children)) [
    | inl e ↦ rw (unlink, e) (later-IsLinked fs _ good)
    | inr (i, e) ↦
        rw (unlink, e) (drop_node-IsLinked p n i (λ node. node) fs (λ node. (refl, refl)) e good)
  ]

  pub rmdir-IsLinked :
      (p : ℕ) (n : Text) (fs : MemFs)
      → IsLinked fs
      → IsLinked (perform clock (removes_dir p n) fs).1
  unfolding rmdir
  rmdir-IsLinked p n fs good = elim (Option-cases (get_child p n fs.children)) [
    | inl e ↦ rw (rmdir, e) (later-IsLinked fs _ good)
    | inr (i, e) ↦ elim (Bool-cases (has_children i (remove_child p n fs.children))) [
      | inl full ↦
          rw (rmdir, e, full)
            (record {
              linked = λ q m j there.
                  good.linked q m j
                    (sym (ap (λ t. t q m) (tree-restored p n i fs.children e)) ∙ there);
              below = good.below;
            })
      | inr none_left ↦
          rw (rmdir, e, none_left) (drop_node-IsLinked p n i unlinked fs unlinked-KeepsName e good)
    ]
  ]
