-- ===== src/Memfs/Invariant.antt =====
-- examples/memfs: the two tables over the calls that change names.
use confuse.Common.{ℕ, ◌+◌, ◌^◌, ◌<◌, sym, ap, subst, inl, inr, Option-cases, arith}
use confuse.Common.Text.{Text}
use confuse.Memfs.Nodes.{MemFs, set_inode, get_child, new}
use confuse.Memfs.Tree.{Maker, NameCall, makes, unlinks, removes_dir, renames}
use confuse.Memfs.Allowed.{kind_of, perform, perform-exists, perform-new}
use confuse.Memfs.Linked.{IsLinked}
use confuse.Memfs.Kept.{insert_new-IsLinked, unlink-IsLinked, rmdir-IsLinked}
use confuse.Memfs.Entered.{IsEntered, Spares, perform-IsEntered}
use confuse.Memfs.Renaming.{rename-IsLinked}

module _ (clock : ℕ → ℕ) where
  -- The tables of a new file system.
  pub new-IsLinked : IsLinked (new clock)
  unfolding new set_inode get_child
  new-IsLinked = record {
    linked = λ p n i e. absurd (ground arith);
    below = λ i node e. ground arith;
  }

  makes-IsLinked :
      (maker : Maker) (p : ℕ) (n : Text) (mode : ℕ) (fs : MemFs)
      → fs.next_ino + 1 < 2 ^ 64
      → IsLinked fs
      → IsLinked (perform clock (makes maker p n mode) fs).1
  makes-IsLinked maker p n mode fs room good = elim (Option-cases (get_child p n fs.children)) [
    | inl e ↦
        subst IsLinked (sym (perform-new clock maker p n mode fs e))
          (insert_new-IsLinked clock p n mode (kind_of clock maker) fs room good)
    | inr (i, e) ↦
        subst IsLinked (sym (ap (λ r. r.1) (perform-exists clock maker p n mode i fs e))) good
  ]

  pub new-IsEntered : IsEntered (new clock)
  unfolding new set_inode get_child
  new-IsEntered = record { stands = λ i node e apart. absurd (ground arith) }

  pub perform-IsLinked :
      (c : NameCall) (fs : MemFs)
      → fs.next_ino + 1 < 2 ^ 64
      → IsLinked fs
      → IsLinked (perform clock c fs).1
  perform-IsLinked (makes maker p n mode) fs room good = makes-IsLinked maker p n mode fs room good
  perform-IsLinked (unlinks p n) fs room good = unlink-IsLinked clock p n fs good
  perform-IsLinked (removes_dir p n) fs room good = rmdir-IsLinked clock p n fs good
  perform-IsLinked (renames p n q m) fs room good = rename-IsLinked clock p n q m fs good

  -- While inode numbers are left, every call that changes names, but for a rename onto another entry,
  -- keeps the two tables in agreement: each entry leads to an inode that carries its parent and
  -- name, every inode has been allocated, and each inode but the root's stands in the table of
  -- children under its parent and name.
  pub perform-Agrees :
      (c : NameCall) (fs : MemFs)
      → fs.next_ino + 1 < 2 ^ 64
      → Spares clock c fs
      → IsLinked fs
      → IsEntered fs
      → IsLinked (perform clock c fs).1 × IsEntered (perform clock c fs).1
  perform-Agrees c fs room spares linked entered =
      (perform-IsLinked c fs room linked, perform-IsEntered clock c fs spares entered)
