-- ===== src/Memfs/Allowed.antt =====
-- examples/memfs: the methods that change names, against the contract of a directory tree.
use confuse.Common.{
  ℕ, ◌≡◌, ◌∙◌, sym, ap, inl, inr, Option, none, some, Bool-cases, Option-cases, arith,
}
use confuse.Common.Text.{Text}
use confuse.Facade.Errno.{eexist}
use confuse.Memfs.Nodes.{MemFs, get_child, remove_child, insert_child, has_children}
use confuse.Memfs.Storage.{NewNodeKind, file, dir, insert_node, insert_new, touch_parent}
use confuse.Memfs.Names.{create, mkdir, mknod, unlink, rmdir, rename, drop_node, created, made}
use confuse.Memfs.Tables.{get_child-remove_child, get_child-no_children, has_children-witness}
use confuse.Memfs.Tree.{
  Maker, NameCall, by_create, by_mkdir, by_mknod, makes, unlinks, removes_dir, renames, Allowed,
  made_ok, made_exists, unlinked_ok, unlinked_missing, removed_ok, removed_missing, removed_full,
  renamed_ok, renamed_missing, tree_of, tree, answer, conv, tree-insert_child, tree-remove_child,
  tree-moved, tree-restored,
}

module _ (clock : ℕ → ℕ) where
  -- The method behind a call.
  abbrev pub perform : NameCall → MemFs → Option ℕ × MemFs
  perform (makes (by_create flags) p n mode) fs = answer (create clock p n mode flags fs)
  perform (makes by_mkdir p n mode) fs = answer (mkdir clock p n mode fs)
  perform (makes by_mknod p n mode) fs = answer (mknod clock p n mode fs)
  perform (unlinks p n) fs = answer (unlink clock p n fs)
  perform (removes_dir p n) fs = answer (rmdir clock p n fs)
  perform (renames p n q m) fs = answer (rename clock p n q m fs)

  pub perform-exists :
      (maker : Maker) (p : ℕ) (n : Text) (mode i : ℕ) (fs : MemFs)
      → get_child p n fs.children ≡ some i
      → perform (makes maker p n mode) fs ≡ (some eexist, fs)
  unfolding create mkdir mknod insert_node created made
  perform-exists (by_create flags) p n mode i fs e = ground arith
  perform-exists by_mkdir p n mode i fs e = ground arith
  perform-exists by_mknod p n mode i fs e = ground arith

  -- The kind of node that a method makes.
  abbrev pub kind_of : Maker → NewNodeKind
  kind_of (by_create flags) = file
  kind_of by_mkdir = dir
  kind_of by_mknod = file

  pub perform-new :
      (maker : Maker) (p : ℕ) (n : Text) (mode : ℕ) (fs : MemFs)
      → get_child p n fs.children ≡ none
      → (perform (makes maker p n mode) fs).1 ≡ (insert_new clock p n mode (kind_of maker) fs).1
  unfolding create mkdir mknod insert_node created made
  perform-new (by_create flags) p n mode fs e = ground arith
  perform-new by_mkdir p n mode fs e = ground arith
  perform-new by_mknod p n mode fs e = ground arith

  perform-made :
      (maker : Maker) (p : ℕ) (n : Text) (mode : ℕ) (fs : MemFs)
      → get_child p n fs.children ≡ none
      → ((perform (makes maker p n mode) fs).0 ≡ none)
        × ((perform (makes maker p n mode) fs).1.children
            ≡ insert_child p n fs.next_ino fs.children)
  unfolding create mkdir mknod insert_node insert_new touch_parent created made
  perform-made (by_create flags) p n mode fs e = (ground arith, ground arith)
  perform-made by_mkdir p n mode fs e = (ground arith, ground arith)
  perform-made by_mknod p n mode fs e = (ground arith, ground arith)

  makes-Allowed :
      (maker : Maker) (p : ℕ) (n : Text) (mode : ℕ) (fs : MemFs)
      → Allowed fs.next_ino
          (tree fs)
          (makes maker p n mode)
          (perform (makes maker p n mode) fs).0
          (tree (perform (makes maker p n mode) fs).1)
  makes-Allowed maker p n mode fs = elim (Option-cases (get_child p n fs.children)) [
    | inl e ↦
        let (none_left, added) = perform-made maker p n mode fs e in
        conv none_left (tree-insert_child p n _ _ _ added) (made_ok maker p n mode e)
    | inr (i, e) ↦
        let same = perform-exists maker p n mode i fs e in
        conv (ap (λ r. r.0) same) (ap (λ r. tree r.1) same) (made_exists maker p n mode i e)
  ]

  unlinks-Allowed :
      (p : ℕ) (n : Text) (fs : MemFs)
      → Allowed fs.next_ino
          (tree fs)
          (unlinks p n)
          (perform (unlinks p n) fs).0
          (tree (perform (unlinks p n) fs).1)
  unfolding unlink drop_node
  unlinks-Allowed p n fs = elim (Option-cases (get_child p n fs.children)) [
    | inl e ↦ conv (ground arith) (ap tree_of (ground arith)) (unlinked_missing p n e)
    | inr (i, e) ↦
        conv (ground arith) (tree-remove_child p n _ _ (ground arith)) (unlinked_ok p n i e)
  ]

  renames-Allowed :
      (p : ℕ) (n : Text) (q : ℕ) (m : Text) (fs : MemFs)
      → Allowed fs.next_ino
          (tree fs)
          (renames p n q m)
          (perform (renames p n q m) fs).0
          (tree (perform (renames p n q m) fs).1)
  unfolding rename
  renames-Allowed p n q m fs = elim (Option-cases (get_child p n fs.children)) [
    | inl e ↦ conv (ground arith) (ap tree_of (ground arith)) (renamed_missing p n q m e)
    | inr (i, e) ↦
        conv (ground arith)
          (ap tree_of {y = insert_child q m i (remove_child q m (remove_child p n fs.children))}
              (ground arith)
            ∙ tree-moved p n q m i fs.children)
          (renamed_ok p n q m i e)
  ]

  removes_dir-Allowed :
      (p : ℕ) (n : Text) (fs : MemFs)
      → Allowed fs.next_ino
          (tree fs)
          (removes_dir p n)
          (perform (removes_dir p n) fs).0
          (tree (perform (removes_dir p n) fs).1)
  unfolding rmdir drop_node
  removes_dir-Allowed p n fs = elim (Option-cases (get_child p n fs.children)) [
    | inl e ↦ conv (ground arith) (ap tree_of (ground arith)) (removed_missing p n e)
    | inr (i, e) ↦ elim (Bool-cases (has_children i (remove_child p n fs.children))) [
      | inl full ↦
          let (m, j, there) = has_children-witness i (remove_child p n fs.children) full in
          conv (ground arith)
            (ap tree_of {y = insert_child p n i (remove_child p n fs.children)} (ground arith)
              ∙ tree-restored p n i fs.children e)
            (removed_full p n i m j e (sym (get_child-remove_child p n i m fs.children) ∙ there))
      | inr none_left ↦ conv (ground arith) (tree-remove_child p n _ _ (ground arith)) (
          removed_ok p n i e (λ m.
            sym (get_child-remove_child p n i m fs.children)
            ∙ get_child-no_children i m (remove_child p n fs.children) none_left))
    ]
  ]

  -- Every call that changes names answers as the contract of a tree of names allows, and
  -- the tables then show the tree that the contract says.
  pub perform-Allowed :
      (c : NameCall) (fs : MemFs)
      → Allowed fs.next_ino (tree fs) c (perform c fs).0 (tree (perform c fs).1)
  perform-Allowed (makes maker p n mode) fs = makes-Allowed maker p n mode fs
  perform-Allowed (unlinks p n) fs = unlinks-Allowed p n fs
  perform-Allowed (removes_dir p n) fs = removes_dir-Allowed p n fs
  perform-Allowed (renames p n q m) fs = renames-Allowed p n q m fs
