-- ===== src/Memfs/Renaming.antt =====
-- examples/memfs: a rename and the two tables.
use confuse.Common.{
  ℕ, ◌≡◌, ◌≢◌, refl, sym, ◌∙◌, ap, inl, inr, false, Option, none, some, ◌==◌, if◌then◌else◌,
  Bool-cases, Option-cases, arith,
}
use confuse.Common.Text.{Text, text_eq_iff}
use confuse.Memfs.Nodes.{INode, MemFs, set_inode, map_node, modify_node, get_child}
use confuse.Memfs.Storage.{stamp}
use confuse.Memfs.Names.{rename, renamed}
use confuse.Memfs.Tables.{same_key}
use confuse.Memfs.Tree.{renames, tree, put, tree-moved}
use confuse.Memfs.Allowed.{perform}
use confuse.Memfs.Linked.{
  Named, Below, IsLinked, modify_node-Named, modify_node-other, modify_node-Below, one_name,
}
use confuse.Memfs.Kept.{other, stamp-KeepsName, later-IsLinked}

module _ (clock : ℕ → ℕ) where
  -- The inodes after a rename.
  abbrev moved_inodes : ℕ → ℕ → ℕ → Text → MemFs → ℕ → Option INode
  moved_inodes i p q m fs =
      let now = clock fs.readings in
      let stamped = modify_node p (stamp now) (modify_node i (renamed q m now) fs.inodes) in
      if p == q then stamped else modify_node q (stamp now) stamped

  moved_inodes-Named :
      (i p q : ℕ) (m : Text) (fs : MemFs) (r : ℕ) (k : Text) (j : ℕ)
      → Named (modify_node i (renamed q m (clock fs.readings)) fs.inodes) r k j
      → Named (moved_inodes i p q m fs) r k j
  moved_inodes-Named i p q m fs r k j h =
      let now = clock fs.readings in
      let stamped =
        modify_node-Named p (stamp now) (modify_node i (renamed q m now) fs.inodes) r k j
          (stamp-KeepsName now) h in
      elim (Bool-cases (p == q)) [
        | inl e ↦ rw e stamped
        | inr e ↦ rw e (
            modify_node-Named q (stamp now)
              (modify_node p (stamp now) (modify_node i (renamed q m now) fs.inodes)) r k j
              (stamp-KeepsName now) stamped)
      ]

  moved_inodes-Below :
      (i p q : ℕ) (m : Text) (fs : MemFs)
      → Below fs.next_ino fs.inodes
      → Below fs.next_ino (moved_inodes i p q m fs)
  moved_inodes-Below i p q m fs h =
      let stamped =
        modify_node-Below _ p (stamp (clock fs.readings)) _
          (modify_node-Below _ i (renamed q m (clock fs.readings)) _ h) in
      elim (Bool-cases (p == q)) [
        | inl e ↦ rw e stamped
        | inr e ↦ rw e (modify_node-Below _ q (stamp (clock fs.readings)) _ stamped)
      ]

  renamed-Named :
      (i q : ℕ) (m : Text) (now : ℕ) (inodes : ℕ → Option INode) (node : INode)
      → inodes i ≡ some node
      → Named (modify_node i (renamed q m now) inodes) q m i
  unfolding modify_node set_inode map_node renamed
  renamed-Named i q m now inodes node e = (renamed q m now node, ground arith, refl, refl)

  moved-Named :
      (i p : ℕ) (n : Text) (q : ℕ) (m : Text) (r : ℕ) (k : Text) (j : ℕ) (fs : MemFs) (node : INode)
      → IsLinked fs
      → get_child p n fs.children ≡ some i
      → fs.inodes i ≡ some node
      → put q m (some i) (put p n none (tree fs)) r k ≡ some j
      → Named (modify_node i (renamed q m (clock fs.readings)) fs.inodes) r k j
  moved-Named i p n q m r k j fs node good e here there = elim (Bool-cases (same_key q m r k)) [
    | inl same ↦
        let is_moved : j ≡ i = ground arith in
        let q_is : q ≡ r = ground arith in
        let m_is : m ≡ k = ground (arith, text_eq_iff m k) in
        rw (is_moved, ← q_is, ← m_is) (renamed-Named i q m (clock fs.readings) fs.inodes node here)
    | inr differs ↦
        let old : get_child r k fs.children ≡ some j = ground arith in
        let apart : same_key p n r k ≡ false = ground arith in
        modify_node-other i (renamed q m (clock fs.readings)) fs.inodes r k j
          (other fs p n r k i j good e old apart) (good.linked r k j old)
  ]

  pub rename-IsLinked :
      (p : ℕ) (n : Text) (q : ℕ) (m : Text) (fs : MemFs)
      → IsLinked fs
      → IsLinked (perform clock (renames p n q m) fs).1
  unfolding rename
  rename-IsLinked p n q m fs good = elim (Option-cases (get_child p n fs.children)) [
    | inl e ↦ rw (rename, e) (later-IsLinked clock fs _ good)
    | inr (i, e) ↦
        let (node, here, parent_is, name_is) = good.linked p n i e in
        rw (rename, e)
          (record {
            linked = λ r k j there. moved_inodes-Named i p q m fs r k j (
                moved-Named i p n q m r k j fs node good e here
                  (sym (ap (λ t. t r k) (tree-moved p n q m i fs.children)) ∙ there));
            below = moved_inodes-Below i p q m fs good.below;
          })
  ]

  -- A rename onto another entry leaves that entry's inode in the table of inodes, where no
  -- entry of the table of children leads to it any more.
  pub rename_orphans :
      (p : ℕ) (n : Text) (q : ℕ) (m : Text) (i j : ℕ) (fs : MemFs)
      → IsLinked fs
      → get_child p n fs.children ≡ some i
      → get_child q m fs.children ≡ some j
      → i ≢ j
      → ((node : INode) × ((rename clock p n q m fs).1.inodes j ≡ some node))
        × ((r : ℕ) (k : Text) → get_child r k (rename clock p n q m fs).1.children ≢ some j)
  unfolding rename
  rename_orphans p n q m i j fs good from to differ =
      let apart : same_key p n q m ≡ false = ground (arith, text_eq_iff n m) in
      let (node, here, parent_is, name_is) = moved_inodes-Named i p q m fs q m j (
        modify_node-other i (renamed q m (clock fs.readings)) fs.inodes q m j
          (other fs p n q m i j good from to apart) (good.linked q m j to)) in
      rw (rename, from)
        (
          (node, here),
          λ r k there.
              unreached r k (sym (ap (λ t. t r k) (tree-moved p n q m i fs.children)) ∙ there),
        )
    where
      unreached : (r : ℕ) (k : Text) → put q m (some i) (put p n none (tree fs)) r k ≢ some j
      unreached r k there = elim (Bool-cases (same_key q m r k)) [
        | inl same ↦ differ (ground arith)
        | inr other_key ↦
            let old : get_child r k fs.children ≡ some j = ground arith in
            absurd (ground (arith, one_name fs q m r k j good to old))
      ]
