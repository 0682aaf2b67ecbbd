-- ===== src/Memfs/Tree.antt =====
-- examples/memfs: the contract of the calls that change names, over a directory tree as a function
-- from a parent and a name to an inode, and the tree that the table of children shows.
use confuse.Common.{
  ℕ, ◌≡◌, ◌∙◌, ap, Option, none, some, List, if◌then◌else◌, Result, ok, err, arith,
}
use confuse.Common.Text.{Text, text_eq_iff}
use confuse.Facade.Errno.{eexist, enoent, enotempty}
use confuse.Memfs.Nodes.{MemFs, Child, get_child, remove_child, insert_child}
use confuse.Memfs.Tables.{same_key, get_child-remove_child, get_child-insert_child}

abbrev pub Tree : Type 0
Tree = ℕ → Text → Option ℕ

abbrev pub put : ℕ → Text → Option ℕ → Tree → Tree
put p n v t q m = if same_key p n q m then v else t q m

-- The method that makes a node, with the flags of an opening.
pub data Maker : Type 0 where
  by_create : ℕ → Maker
  by_mkdir by_mknod : Maker

-- A call that changes names.
pub data NameCall : Type 0 where
  makes : Maker → ℕ → Text → ℕ → NameCall
  unlinks : ℕ → Text → NameCall
  removes_dir : ℕ → Text → NameCall
  renames : ℕ → Text → ℕ → Text → NameCall

-- The contract: the error number that a call may answer, or none, and the tree that it then leaves,
-- where `fresh` is the next inode.
pub data Allowed (fresh : ℕ) (t : Tree) : NameCall → Option ℕ → Tree → Type 0 where
  made_ok :
      (maker : Maker) (p : ℕ) (n : Text) (mode : ℕ)
      → t p n ≡ none
      → Allowed fresh t (makes maker p n mode) none (put p n (some fresh) t)
  made_exists :
      (maker : Maker) (p : ℕ) (n : Text) (mode i : ℕ)
      → t p n ≡ some i
      → Allowed fresh t (makes maker p n mode) (some eexist) t
  unlinked_ok :
      (p : ℕ) (n : Text) (i : ℕ)
      → t p n ≡ some i
      → Allowed fresh t (unlinks p n) none (put p n none t)
  unlinked_missing :
      (p : ℕ) (n : Text) → t p n ≡ none → Allowed fresh t (unlinks p n) (some enoent) t
  removed_ok :
      (p : ℕ) (n : Text) (i : ℕ)
      → t p n ≡ some i
      → ((m : Text) → put p n none t i m ≡ none)
      → Allowed fresh t (removes_dir p n) none (put p n none t)
  removed_missing :
      (p : ℕ) (n : Text) → t p n ≡ none → Allowed fresh t (removes_dir p n) (some enoent) t
  removed_full :
      (p : ℕ) (n : Text) (i : ℕ) (m : Text) (j : ℕ)
      → t p n ≡ some i
      → put p n none t i m ≡ some j
      → Allowed fresh t (removes_dir p n) (some enotempty) t
  renamed_ok :
      (p : ℕ) (n : Text) (q : ℕ) (m : Text) (i : ℕ)
      → t p n ≡ some i
      → Allowed fresh t (renames p n q m) none (put q m (some i) (put p n none t))
  renamed_missing :
      (p : ℕ) (n : Text) (q : ℕ) (m : Text)
      → t p n ≡ none
      → Allowed fresh t (renames p n q m) (some enoent) t

-- The tree that the table of children shows.
abbrev pub tree_of : List Child → Tree
tree_of cs p n = get_child p n cs

abbrev pub tree : MemFs → Tree
tree fs = tree_of fs.children

-- What a reply says of success.
abbrev pub error_of : {A : Type 0} → Result A ℕ → Option ℕ
error_of (ok a) = none
error_of (err e) = some e

abbrev pub answer : {A : Type 0} → Result A ℕ × MemFs → Option ℕ × MemFs
answer (r, fs) = (error_of r, fs)

pub conv :
    {fresh : ℕ} {t u u' : Tree} {c : NameCall} {e e' : Option ℕ}
    → e' ≡ e
    → u' ≡ u
    → Allowed fresh t c e u
    → Allowed fresh t c e' u'
conv {fresh = fresh} {t = t} {u' = u'} {c = c} p q a = rw (p, q) a

pub tree-insert_child :
    (p : ℕ) (n : Text) (i : ℕ) (cs cs' : List Child)
    → cs' ≡ insert_child p n i cs
    → tree_of cs' ≡ put p n (some i) (tree_of cs)
tree-insert_child p n i cs cs' e =
    λ k q m. ((ap (get_child q m) e ∙ get_child-insert_child p n i q m cs) k)

pub tree-remove_child :
    (p : ℕ) (n : Text) (cs cs' : List Child)
    → cs' ≡ remove_child p n cs
    → tree_of cs' ≡ put p n none (tree_of cs)
tree-remove_child p n cs cs' e =
    λ k q m. ((ap (get_child q m) e ∙ get_child-remove_child p n q m cs) k)

pub tree-moved :
    (p : ℕ) (n : Text) (q : ℕ) (m : Text) (i : ℕ) (cs : List Child)
    → tree_of (insert_child q m i (remove_child q m (remove_child p n cs)))
      ≡ put q m (some i) (put p n none (tree_of cs))
tree-moved p n q m i cs = λ k q' m'. at q' m' k
  where
    at :
        (q' : ℕ) (m' : Text)
        → get_child q' m' (insert_child q m i (remove_child q m (remove_child p n cs)))
          ≡ put q m (some i) (put p n none (tree_of cs)) q' m'
    at q' m' = ground (
      arith,
      get_child-insert_child q m i q' m' (remove_child q m (remove_child p n cs)),
      get_child-remove_child q m q' m' (remove_child p n cs),
      get_child-remove_child p n q' m' cs,
    )

pub tree-restored :
    (p : ℕ) (n : Text) (i : ℕ) (cs : List Child)
    → get_child p n cs ≡ some i
    → tree_of (insert_child p n i (remove_child p n cs)) ≡ tree_of cs
tree-restored p n i cs e = λ k q m. at q m k
  where
    at :
        (q : ℕ) (m : Text)
        → get_child q m (insert_child p n i (remove_child p n cs)) ≡ get_child q m cs
    at q m = ground (
      arith,
      get_child-insert_child p n i q m (remove_child p n cs),
      get_child-remove_child p n q m cs,
      text_eq_iff n m,
      e,
    )
