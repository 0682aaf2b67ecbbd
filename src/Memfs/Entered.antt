-- ===== src/Memfs/Entered.antt =====
-- examples/memfs: the inodes and the entries that lead to them.
use confuse.Common.{
  ℕ, suc, ◌%◌, ◌^◌, ◌≡◌, refl, sym, ◌∙◌, ap, subst, inl, inr, ◌⊎◌, Bool, true, false, Option, none,
  some, ◌==◌, if◌then◌else◌, Bool-cases, Option-cases, arith,
}
use confuse.Common.Text.{Text, text_eq_iff}
use confuse.Facade.Types.{root}
use confuse.Memfs.Nodes.{
  INode, MemFs, set_inode, map_node, modify_node, get_child, remove_child, insert_child,
  has_children, new_dir, new_file,
}
use confuse.Memfs.Storage.{NewNodeKind, file, dir, touch, node_of, insert_new, touch_parent, stamp}
use confuse.Memfs.Names.{unlink, rmdir, rename, drop_node, unlinked, renamed}
use confuse.Memfs.Tables.{get_child-remove_child, get_child-insert_child}
use confuse.Memfs.Tree.{
  NameCall, Maker, makes, unlinks, removes_dir, renames, Tree, tree, tree_of, put, tree-moved,
  tree-restored,
}
use confuse.Memfs.Allowed.{kind_of, perform, perform-exists, perform-new}
use confuse.Memfs.Linked.{KeepsName}
use confuse.Memfs.Kept.{stamp-KeepsName, stamped-KeepsName, touch-KeepsName, unlinked-KeepsName}

-- Every inode but the root's stands under its parent and name.
abbrev pub Stands : Tree → (ℕ → Option INode) → Type 0
Stands t inodes =
    (i : ℕ) (node : INode)
    → inodes i ≡ some node
    → (i == root) ≡ false
    → t node.parent node.name ≡ some i

pub record IsEntered (fs : MemFs) : Type 0 where
  pub stands : Stands (tree fs) fs.inodes

modify_node-Stands :
    (t : Tree) (j : ℕ) (f : INode → INode) (inodes : ℕ → Option INode)
    → KeepsName f
    → Stands t inodes
    → Stands t (modify_node j f inodes)
unfolding modify_node set_inode map_node
modify_node-Stands t j f inodes keeps h i node here other = elim (Option-cases (inodes i)) [
  | inl e ↦ absurd (ground arith)
  | inr (old, e) ↦ elim (Bool-cases (j == i)) [
    | inl same ↦
        let is_changed : node ≡ f old = ground arith in
        rw (is_changed, (keeps old).0, (keeps old).1) (h i old e other)
    | inr apart ↦ h i node (ground arith) other
  ]
]

either :
    (b : Bool) (t : Tree) (these those : ℕ → Option INode)
    → Stands t these
    → Stands t those
    → Stands t (if b then these else those)
either true t these those h k = h
either false t these those h k = k

module _ (clock : ℕ → ℕ) where
  node_of-name :
      (kind : NewNodeKind) (i p : ℕ) (n : Text) (mode now : ℕ)
      → ((node_of kind i p n mode now).parent ≡ p) × ((node_of kind i p n mode now).name ≡ n)
  unfolding node_of new_dir new_file
  node_of-name file i p n mode now = (refl, refl)
  node_of-name dir i p n mode now = (refl, refl)

  insert_new-IsEntered :
      (p : ℕ) (n : Text) (mode : ℕ) (kind : NewNodeKind) (fs : MemFs)
      → get_child p n fs.children ≡ none
      → IsEntered fs
      → IsEntered (insert_new clock p n mode kind fs).1
  unfolding insert_new touch_parent set_inode
  insert_new-IsEntered p n mode kind fs free good =
      let i = fs.next_ino in
      let node = node_of kind i p n (mode % 2 ^ 16) (clock fs.readings) in
      let (parent_is, name_is) = node_of-name kind i p n (mode % 2 ^ 16) (clock fs.readings) in
      record {
        stands =
            modify_node-Stands (tree_of (insert_child p n i fs.children)) p
              (touch kind (clock (suc fs.readings))) (set_inode i (some node) fs.inodes)
              (touch-KeepsName kind (clock (suc fs.readings)))
              (λ j other here apart. elim (Bool-cases (i == j)) [
                | inl same ↦
                    let is_new : other ≡ node = ground arith in
                    rw (is_new, parent_is, name_is)
                      (ground
                        (arith, get_child-insert_child p n i p n fs.children, text_eq_iff n n))
                | inr old ↦
                    let stood = good.stands j other (ground arith) apart in
                    ground (
                      arith,
                      get_child-insert_child p n i other.parent other.name fs.children,
                      text_eq_iff n other.name,
                      stood,
                      free,
                    )
              ]);
      }

  drop_node-IsEntered :
      (p : ℕ) (n : Text) (i : ℕ) (change : INode → INode) (fs : MemFs)
      → KeepsName change
      → get_child p n fs.children ≡ some i
      → IsEntered fs
      → IsEntered (drop_node clock p n i change fs)
  unfolding drop_node set_inode
  drop_node-IsEntered p n i change fs keeps here good = record {
    stands =
        modify_node-Stands (tree_of (remove_child p n fs.children)) p
          (λ node. stamp (clock fs.readings) (change node)) (set_inode i none fs.inodes)
          (stamped-KeepsName (clock fs.readings) change keeps)
          (λ j node there apart. elim (Bool-cases (i == j)) [
            | inl same ↦ absurd (ground arith)
            | inr differ ↦
                let stood = good.stands j node (ground arith) apart in
                ground (
                  arith,
                  get_child-remove_child p n node.parent node.name fs.children,
                  text_eq_iff n node.name,
                  stood,
                  here,
                )
          ]);
  }

  later-IsEntered : (fs : MemFs) (r : ℕ) → IsEntered fs → IsEntered (record fs { readings = r })
  later-IsEntered fs r good = record { stands = good.stands }

  pub unlink-IsEntered :
      (p : ℕ) (n : Text) (fs : MemFs) → IsEntered fs → IsEntered (perform clock (unlinks p n) fs).1
  unfolding unlink
  unlink-IsEntered p n fs good = elim (Option-cases (get_child p n fs.children)) [
    | inl e ↦ rw (unlink, e) (later-IsEntered fs _ good)
    | inr (i, e) ↦
        rw (unlink, e) (drop_node-IsEntered p n i (λ node. node) fs (λ node. (refl, refl)) e good)
  ]

  pub rmdir-IsEntered :
      (p : ℕ) (n : Text) (fs : MemFs)
      → IsEntered fs
      → IsEntered (perform clock (removes_dir p n) fs).1
  unfolding rmdir
  rmdir-IsEntered p n fs good = elim (Option-cases (get_child p n fs.children)) [
    | inl e ↦ rw (rmdir, e) (later-IsEntered fs _ good)
    | inr (i, e) ↦ elim (Bool-cases (has_children i (remove_child p n fs.children))) [
      | inl full ↦
          rw (rmdir, e, full)
            (record {
              stands = λ j node there apart.
                  ap (λ t. t node.parent node.name) (tree-restored p n i fs.children e)
                  ∙ good.stands j node there apart;
            })
      | inr none_left ↦
          rw (rmdir, e, none_left)
            (drop_node-IsEntered p n i unlinked fs (unlinked-KeepsName clock) e good)
    ]
  ]

  -- A rename whose target is free, or is its source.
  abbrev pub Spares : NameCall → MemFs → Type 0
  Spares (renames p n q m) fs =
      (get_child q m fs.children ≡ none) ⊎ (get_child q m fs.children ≡ get_child p n fs.children)
  Spares _ fs = Unit

  renamed-Stands :
      (p : ℕ) (n : Text) (q : ℕ) (m : Text) (i now : ℕ) (fs : MemFs)
      → get_child p n fs.children ≡ some i
      → Spares (renames p n q m) fs
      → IsEntered fs
      → Stands
          (put q m (some i) (put p n none (tree fs)))
          (modify_node i (renamed q m now) fs.inodes)
  unfolding modify_node set_inode map_node renamed
  renamed-Stands p n q m i now fs here spares good j node there apart =
      elim (Option-cases (fs.inodes j)) [
        | inl e ↦ absurd (ground arith)
        | inr (old, e) ↦ elim (Bool-cases (i == j)) [
          | inl same ↦
              let is_changed : node ≡ renamed q m now old = ground arith in
              rw is_changed (ground (arith, text_eq_iff m m))
          | inr differ ↦
              let kept : node ≡ old = ground arith in
              let stood = good.stands j old e apart in
              rw kept (elim spares [
                | inl free ↦
                    ground
                      (arith, text_eq_iff m old.name, text_eq_iff n old.name, stood, free, here)
                | inr same_entry ↦
                    ground (
                      arith,
                      text_eq_iff m old.name,
                      text_eq_iff n old.name,
                      stood,
                      same_entry,
                      here,
                    )
              ])
        ]
      ]

  pub rename-IsEntered :
      (p : ℕ) (n : Text) (q : ℕ) (m : Text) (fs : MemFs)
      → Spares (renames p n q m) fs
      → IsEntered fs
      → IsEntered (perform clock (renames p n q m) fs).1
  unfolding rename
  rename-IsEntered p n q m fs spares good = elim (Option-cases (get_child p n fs.children)) [
    | inl e ↦ rw (rename, e) (later-IsEntered fs _ good)
    | inr (i, e) ↦
        let now = clock fs.readings in
        let t = put q m (some i) (put p n none (tree fs)) in
        let moved = modify_node i (renamed q m now) fs.inodes in
        let stamped : Stands t (modify_node p (stamp now) moved) =
          modify_node-Stands t p (stamp now) moved (stamp-KeepsName now)
            (renamed-Stands p n q m i now fs e spares good) in
        let after : Stands t (
            if p == q
            then modify_node p (stamp now) moved
            else modify_node q (stamp now) (modify_node p (stamp now) moved)) =
          either (p == q) t (modify_node p (stamp now) moved)
            (modify_node q (stamp now) (modify_node p (stamp now) moved)) stamped
            (modify_node-Stands t q (stamp now) (modify_node p (stamp now) moved)
              (stamp-KeepsName now) stamped) in
        rw (rename, e)
          (record {
            stands = λ j node there apart.
                ap (λ t. t node.parent node.name) (tree-moved p n q m i fs.children)
                ∙ after j node there apart;
          })
  ]

  makes-IsEntered :
      (maker : Maker) (p : ℕ) (n : Text) (mode : ℕ) (fs : MemFs)
      → IsEntered fs
      → IsEntered (perform clock (makes maker p n mode) fs).1
  makes-IsEntered maker p n mode fs good = elim (Option-cases (get_child p n fs.children)) [
    | inl e ↦
        subst IsEntered (sym (perform-new clock maker p n mode fs e))
          (insert_new-IsEntered p n mode (kind_of clock maker) fs e good)
    | inr (i, e) ↦
        subst IsEntered (sym (ap (λ r. r.1) (perform-exists clock maker p n mode i fs e))) good
  ]

  pub perform-IsEntered :
      (c : NameCall) (fs : MemFs) → Spares c fs → IsEntered fs → IsEntered (perform clock c fs).1
  perform-IsEntered (makes maker p n mode) fs spares good = makes-IsEntered maker p n mode fs good
  perform-IsEntered (unlinks p n) fs spares good = unlink-IsEntered p n fs good
  perform-IsEntered (removes_dir p n) fs spares good = rmdir-IsEntered p n fs good
  perform-IsEntered (renames p n q m) fs spares good = rename-IsEntered p n q m fs spares good
