-- ===== src/Tests/Data.antt =====
-- Test data: a clock that ticks once at each reading, a file with inode 7, and a file system that
-- counts the lookups of that file.
use confuse.Common.{
  ℕ, suc, ◌+◌, ◌-◌, ◌≤◌, ◌≡◌, max, some, [], ◌∷◌, ◌==◌, ltb, if◌then◌else◌, ok, err, arith, u64_max,
}
use confuse.Common.Text.{Text, text_eq}
use confuse.Facade.Errno
use confuse.Facade.Types.{
  FileAttr, ReplyEntryPayload, DirectoryPlusEntryPayload, regular_file, root,
}
use confuse.Resolver.State.{Env, PositivePathRecord, PathResolver, default, refcount}
use confuse.Resolver.Ops.{remember_positive}
use confuse.Resolver.Accounts.{IsAccounted, default-IsAccounted}
use confuse.Resolver.Stores.{remember_positive-IsAccounted}
use confuse.Adapter.Calls.{
  RequestIds, Request, FsCall, Filesystem, lookup, forget, getattr, setattr, mkdir, unlink, rmdir,
  rename, open_file, read, write, release, fsync, opendir, readdir, readdirplus, releasedir,
  fsyncdir, access, create, fallocate, getxattr, setxattr, listxattr, getlk, setlk, statfs,
  default_reply,
}
use confuse.Adapter.Ledger.{granted, returned, is_dots, Counts}

abbrev pub test_env : Env
test_env = record { to_lowercase = λ t. t; clock = λ n. n }

-- `\a`, `\b` and the name `a`.
abbrev pub path_a : Text
path_a = 92 ∷ 97 ∷ []

abbrev pub path_b : Text
path_b = 92 ∷ 98 ∷ []

abbrev pub name_a : Text
name_a = 97 ∷ []

abbrev pub name_b : Text
name_b = 98 ∷ []

abbrev pub file_attr : FileAttr
file_attr = record {
  ino = 7;
  size = 10;
  blocks = 1;
  atime = 0;
  mtime = 0;
  ctime = 0;
  crtime = 0;
  kind = regular_file;
  perm = 0o644;
  nlink = 1;
  uid = 0;
  gid = 0;
  rdev = 0;
  blksize = 512;
  flags = 0;
}

abbrev pub record_a : PositivePathRecord
record_a = record {
  path = path_a;
  parent = root;
  parent_generation = 0;
  name = name_a;
  attr = file_attr;
  generation = 3;
  ttl = 100;
}

abbrev pub stored : PathResolver
stored = (remember_positive test_env record_a default).1

pub stored-IsAccounted : IsAccounted stored
stored-IsAccounted =
    remember_positive-IsAccounted test_env record_a default default-IsAccounted
      (unfold default refcount in omega arith)

abbrev pub ids : RequestIds
ids = record { uid = 0; gid = 0; pid = 1 }

abbrev pub request : Request
request = record { unique = 1; uid = 0; gid = 0; pid = 1 }

abbrev pub payload : ReplyEntryPayload
payload = record { attr = file_attr; ttl = 100; generation = 3 }

-- An entry for the file with inode 7.
abbrev pub entry_a : DirectoryPlusEntryPayload
entry_a = record { ino = 7; offset = 1; name = name_a; ttl = 100; attr = file_attr; generation = 3 }

-- Every name is the file with inode 7, until its count of lookups is `most`. The state is what was
-- granted of that file and what was given back of each inode.
abbrev pub most : ℕ
most = u64_max - 8

abbrev pub Tally : Type 0
Tally = ℕ × (ℕ → ℕ)

abbrev pub taken_back : Tally → ℕ → ℕ
taken_back s i = if 7 == i then max (s.1 7) (s.0 - most) else s.1 i

unfoldable pub counting : Filesystem Tally
counting (lookup req parent name) s =
    if ltb s.0 (taken_back s 7 + most)
    then (some (ok payload), (suc s.0, s.1))
    else (some (err Errno.enoent), s)
counting (forget req ino n) s = (tt, (s.0, λ i. if ino == i then taken_back s i + n else s.1 i))
counting (getattr req ino fh) s = (some (ok (record { attr = file_attr; ttl = 100 })), s)
counting (open_file req ino flags) s = (some (ok (record { fh = 5; flags = 0 })), s)
counting (write req ino fh offset bytes write_flags flags lock_owner) s = (some (ok 3), s)
counting (readdirplus req ino fh offset) s =
    if ltb s.0 (taken_back s 7 + most)
    then (record { status = some (ok tt); entries = entry_a ∷ [] }, (suc s.0, s.1))
    else (record { status = some (err Errno.eio); entries = [] }, s)
counting c s = (default_reply c, s)

pub counting-gives :
    (c : FsCall) (s : Tally) (i : ℕ)
    → (if 7 == i then (counting c s).1.0 else 0)
      ≡ (if 7 == i then s.0 else 0) + granted c (counting c s).0 i
unfolding counting default_reply is_dots text_eq
counting-gives (lookup req parent name) s i = ground arith
counting-gives (forget req ino n) s i = ground arith
counting-gives (getattr req ino fh) s i = ground arith
counting-gives (setattr req ino args) s i = ground arith
counting-gives (mkdir req parent name mode umask) s i = ground arith
counting-gives (unlink req parent name) s i = ground arith
counting-gives (rmdir req parent name) s i = ground arith
counting-gives (rename req parent name newparent newname flags) s i = ground arith
counting-gives (open_file req ino flags) s i = ground arith
counting-gives (read req ino fh offset size flags lock_owner) s i = ground arith
counting-gives (write req ino fh offset bytes write_flags flags lock_owner) s i = ground arith
counting-gives (release req ino fh flags lock_owner flush) s i = ground arith
counting-gives (fsync req ino fh datasync) s i = ground arith
counting-gives (opendir req ino flags) s i = ground arith
counting-gives (readdir req ino fh offset) s i = ground arith
counting-gives (readdirplus req ino fh offset) s i = ground arith
counting-gives (releasedir req ino fh flags) s i = ground arith
counting-gives (fsyncdir req ino fh datasync) s i = ground arith
counting-gives (access req ino mask) s i = ground arith
counting-gives (create req parent name mode umask flags) s i = ground arith
counting-gives (fallocate req ino fh offset length mode) s i = ground arith
counting-gives (getxattr req ino name size) s i = ground arith
counting-gives (setxattr req ino name bytes flags position) s i = ground arith
counting-gives (listxattr req ino size) s i = ground arith
counting-gives (getlk req ino fh lock_owner start end typ pid) s i = ground arith
counting-gives (setlk req ino fh lock_owner start end typ pid sleep) s i = ground arith
counting-gives (statfs req ino) s i = ground arith

pub counting-takes :
    (c : FsCall) (s : Tally) (i : ℕ) → taken_back (counting c s).1 i ≡ taken_back s i + returned c i
unfolding counting default_reply
counting-takes (lookup req parent name) s i = ground arith
counting-takes (forget req ino n) s i = ground arith
counting-takes (getattr req ino fh) s i = ground arith
counting-takes (setattr req ino args) s i = ground arith
counting-takes (mkdir req parent name mode umask) s i = ground arith
counting-takes (unlink req parent name) s i = ground arith
counting-takes (rmdir req parent name) s i = ground arith
counting-takes (rename req parent name newparent newname flags) s i = ground arith
counting-takes (open_file req ino flags) s i = ground arith
counting-takes (read req ino fh offset size flags lock_owner) s i = ground arith
counting-takes (write req ino fh offset bytes write_flags flags lock_owner) s i = ground arith
counting-takes (release req ino fh flags lock_owner flush) s i = ground arith
counting-takes (fsync req ino fh datasync) s i = ground arith
counting-takes (opendir req ino flags) s i = ground arith
counting-takes (readdir req ino fh offset) s i = ground arith
counting-takes (readdirplus req ino fh offset) s i = ground arith
counting-takes (releasedir req ino fh flags) s i = ground arith
counting-takes (fsyncdir req ino fh datasync) s i = ground arith
counting-takes (access req ino mask) s i = ground arith
counting-takes (create req parent name mode umask flags) s i = ground arith
counting-takes (fallocate req ino fh offset length mode) s i = ground arith
counting-takes (getxattr req ino name size) s i = ground arith
counting-takes (setxattr req ino name bytes flags position) s i = ground arith
counting-takes (listxattr req ino size) s i = ground arith
counting-takes (getlk req ino fh lock_owner start end typ pid) s i = ground arith
counting-takes (setlk req ino fh lock_owner start end typ pid sleep) s i = ground arith
counting-takes (statfs req ino) s i = ground arith

pub counting-bounded : (s : Tally) (i : ℕ) → (if 7 == i then s.0 else 0) ≤ taken_back s i + u64_max
counting-bounded s i = ground arith

unfoldable pub counting-Counts : Counts counting
counting-Counts = record {
  given = λ s i. if 7 == i then s.0 else 0;
  taken = taken_back;
  gives = counting-gives;
  takes = counting-takes;
  bounded = counting-bounded;
}
