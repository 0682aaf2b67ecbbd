-- ===== src/Adapter/Calls.antt =====
-- src/fuser_facade/filesystem/api.rs: the trait `Filesystem`. A method is a constructor of `FsCall`
-- with the method's arguments, and `ReplyOf` is what the method leaves in its reply: nothing where
-- it drops the reply unused. An implementation is a function on a state of its own. The methods
-- are those that the adapter calls.
use confuse.Common.{ℕ, Bool, Option, none, some, List, [], Result, err}
use confuse.Common.Int.{ℤ}
use confuse.Common.Text.{Text}
use confuse.Facade.Errno.{enosys}
use confuse.Facade.Types.{
  ReplyEntryPayload, ReplyAttrPayload, ReplyOpenPayload, ReplyCreatePayload, DirectoryEntryPayload,
  DirectoryPlusEntryPayload,
}

-- src/fuser_facade/request.rs
pub record RequestIds : Type 0 where
  pub uid : ℕ
  pub gid : ℕ
  pub pid : ℕ

pub record Request : Type 0 where
  pub unique : ℕ
  pub uid : ℕ
  pub gid : ℕ
  pub pid : ℕ

pub data TimeOrNow : Type 0 where
  specific_time : ℕ → TimeOrNow
  time_now : TimeOrNow

-- The arguments of `setattr` behind the inode.
pub record SetAttr : Type 0 where
  pub mode : Option ℕ
  pub uid : Option ℕ
  pub gid : Option ℕ
  pub size : Option ℕ
  pub atime : Option TimeOrNow
  pub mtime : Option TimeOrNow
  pub ctime : Option ℕ
  pub fh : Option ℕ
  pub crtime : Option ℕ
  pub chgtime : Option ℕ
  pub bkuptime : Option ℕ
  pub flags : Option ℕ

pub data FsCall : Type 0 where
  lookup : Request → ℕ → Text → FsCall
  forget : Request → ℕ → ℕ → FsCall
  getattr : Request → ℕ → Option ℕ → FsCall
  setattr : Request → ℕ → SetAttr → FsCall
  mkdir : Request → ℕ → Text → ℕ → ℕ → FsCall
  unlink : Request → ℕ → Text → FsCall
  rmdir : Request → ℕ → Text → FsCall
  rename : Request → ℕ → Text → ℕ → Text → ℕ → FsCall
  open_file : Request → ℕ → ℕ → FsCall
  read : Request → ℕ → ℕ → ℕ → ℕ → ℕ → Option ℕ → FsCall
  write : Request → ℕ → ℕ → ℕ → List ℕ → ℕ → ℕ → Option ℕ → FsCall
  release : Request → ℕ → ℕ → ℕ → Option ℕ → Bool → FsCall
  fsync : Request → ℕ → ℕ → Bool → FsCall
  opendir : Request → ℕ → ℕ → FsCall
  readdir : Request → ℕ → ℕ → ℕ → FsCall
  readdirplus : Request → ℕ → ℕ → ℕ → FsCall
  releasedir : Request → ℕ → ℕ → ℕ → FsCall
  fsyncdir : Request → ℕ → ℕ → Bool → FsCall
  access : Request → ℕ → ℕ → FsCall
  create : Request → ℕ → Text → ℕ → ℕ → ℕ → FsCall
  fallocate : Request → ℕ → ℕ → ℕ → ℕ → ℕ → FsCall
  getxattr : Request → ℕ → Text → ℕ → FsCall
  setxattr : Request → ℕ → Text → List ℕ → ℕ → ℕ → FsCall
  listxattr : Request → ℕ → ℕ → FsCall
  getlk : Request → ℕ → ℕ → ℕ → ℕ → ℕ → ℕ → ℕ → FsCall
  setlk : Request → ℕ → ℕ → ℕ → ℕ → ℕ → ℕ → ℕ → Bool → FsCall
  statfs : Request → ℕ → FsCall

-- `ReplyResult`: what the slot of a reply holds when the method has returned.
abbrev pub Reply : Type 0 → Type 0
Reply A = Option (Result A ℕ)

pub record DirectoryReply : Type 0 where
  pub status : Reply (Unit {0})
  pub entries : List DirectoryEntryPayload

pub record DirectoryPlusReply : Type 0 where
  pub status : Reply (Unit {0})
  pub entries : List DirectoryPlusEntryPayload

-- `ReplyXattr`, with the size that the file system told in place of the data.
pub record XattrReply : Type 0 where
  pub status : Reply (List ℕ)
  pub size_hint : Option ℕ

pub record LockPayload : Type 0 where
  pub start : ℕ
  pub end : ℕ
  pub typ : ℤ
  pub pid : ℕ

pub record StatfsPayload : Type 0 where
  pub blocks : ℕ
  pub bfree : ℕ
  pub bavail : ℕ
  pub files : ℕ
  pub ffree : ℕ
  pub bsize : ℕ
  pub namelen : ℕ
  pub frsize : ℕ

abbrev pub ReplyOf : FsCall → Type 0
ReplyOf (lookup req parent name) = Reply ReplyEntryPayload
ReplyOf (forget req ino nlookup) = Unit {0}
ReplyOf (getattr req ino fh) = Reply ReplyAttrPayload
ReplyOf (setattr req ino args) = Reply ReplyAttrPayload
ReplyOf (mkdir req parent name mode umask) = Reply ReplyEntryPayload
ReplyOf (unlink req parent name) = Reply (Unit {0})
ReplyOf (rmdir req parent name) = Reply (Unit {0})
ReplyOf (rename req parent name newparent newname flags) = Reply (Unit {0})
ReplyOf (open_file req ino flags) = Reply ReplyOpenPayload
ReplyOf (read req ino fh offset size flags lock_owner) = Reply (List ℕ)
ReplyOf (write req ino fh offset bytes write_flags flags lock_owner) = Reply ℕ
ReplyOf (release req ino fh flags lock_owner flush) = Reply (Unit {0})
ReplyOf (fsync req ino fh datasync) = Reply (Unit {0})
ReplyOf (opendir req ino flags) = Reply ReplyOpenPayload
ReplyOf (readdir req ino fh offset) = DirectoryReply
ReplyOf (readdirplus req ino fh offset) = DirectoryPlusReply
ReplyOf (releasedir req ino fh flags) = Reply (Unit {0})
ReplyOf (fsyncdir req ino fh datasync) = Reply (Unit {0})
ReplyOf (access req ino mask) = Reply (Unit {0})
ReplyOf (create req parent name mode umask flags) = Reply ReplyCreatePayload
ReplyOf (fallocate req ino fh offset length mode) = Reply (Unit {0})
ReplyOf (getxattr req ino name size) = XattrReply
ReplyOf (setxattr req ino name bytes flags position) = Reply (Unit {0})
ReplyOf (listxattr req ino size) = XattrReply
ReplyOf (getlk req ino fh lock_owner start end typ pid) = Reply LockPayload
ReplyOf (setlk req ino fh lock_owner start end typ pid sleep) = Reply (Unit {0})
ReplyOf (statfs req ino) = Reply StatfsPayload

abbrev pub Filesystem : Type 0 → Type 0
Filesystem S = (c : FsCall) → S → ReplyOf c × S

-- The methods that an implementation leaves out.
unfoldable pub default_reply : (c : FsCall) → ReplyOf c
default_reply (lookup req parent name) = some (err enosys)
default_reply (forget req ino nlookup) = tt
default_reply (getattr req ino fh) = some (err enosys)
default_reply (setattr req ino args) = some (err enosys)
default_reply (mkdir req parent name mode umask) = some (err enosys)
default_reply (unlink req parent name) = some (err enosys)
default_reply (rmdir req parent name) = some (err enosys)
default_reply (rename req parent name newparent newname flags) = some (err enosys)
default_reply (open_file req ino flags) = some (err enosys)
default_reply (read req ino fh offset size flags lock_owner) = some (err enosys)
default_reply (write req ino fh offset bytes write_flags flags lock_owner) = some (err enosys)
default_reply (release req ino fh flags lock_owner flush) = some (err enosys)
default_reply (fsync req ino fh datasync) = some (err enosys)
default_reply (opendir req ino flags) = some (err enosys)
default_reply (readdir req ino fh offset) = record { status = some (err enosys); entries = [] }
default_reply (readdirplus req ino fh offset) = record { status = some (err enosys); entries = [] }
default_reply (releasedir req ino fh flags) = some (err enosys)
default_reply (fsyncdir req ino fh datasync) = some (err enosys)
default_reply (access req ino mask) = some (err enosys)
default_reply (create req parent name mode umask flags) = some (err enosys)
default_reply (fallocate req ino fh offset length mode) = some (err enosys)
default_reply (getxattr req ino name size) = record { status = some (err enosys); size_hint = none }
default_reply (setxattr req ino name bytes flags position) = some (err enosys)
default_reply (listxattr req ino size) = record { status = some (err enosys); size_hint = none }
default_reply (getlk req ino fh lock_owner start end typ pid) = some (err enosys)
default_reply (setlk req ino fh lock_owner start end typ pid sleep) = some (err enosys)
default_reply (statfs req ino) = some (err enosys)

unfoldable pub default_filesystem : Filesystem (Unit {0})
unfolding default_reply
default_filesystem c s = (default_reply c, s)
