-- ===== src/Facade/Types.antt =====
-- src/fuser_facade/types.rs and the reply payloads of src/fuser_facade/reply/api.rs: the data that
-- the facade's parts pass on. An inode number, a generation, a file handle and a lock owner are
-- `u64` values, here numbers; a time and a duration are numbers of nanoseconds.
use confuse.Common.{ℕ, Option, List, Bool}
use confuse.Common.Text.{Text}

pub data FileType : Type 0 where
  named_pipe char_device block_device directory regular_file symlink socket : FileType

pub record FileAttr : Type 0 where
  pub ino : ℕ
  pub size : ℕ
  pub blocks : ℕ
  pub atime : ℕ
  pub mtime : ℕ
  pub ctime : ℕ
  pub crtime : ℕ
  pub kind : FileType
  pub perm : ℕ
  pub nlink : ℕ
  pub uid : ℕ
  pub gid : ℕ
  pub rdev : ℕ
  pub blksize : ℕ
  pub flags : ℕ

-- `INodeNo::ROOT`
abbrev pub root : ℕ
root = 1

pub data MountOption : Type 0 where
  fs_name : Text → MountOption
  subtype : Text → MountOption
  custom : Text → MountOption
  auto_unmount default_permissions dev no_dev suid no_suid ro rw : MountOption
  exec no_exec atime no_atime dir_sync sync async : MountOption

pub data SessionAcl : Type 0 where
  all root_and_owner owner : SessionAcl

pub record Config : Type 0 where
  pub mount_options : List MountOption
  pub acl : SessionAcl
  pub n_threads : Option ℕ
  pub clone_fd : Bool

pub record ReplyEntryPayload : Type 0 where
  pub attr : FileAttr
  pub ttl : ℕ
  pub generation : ℕ

pub record ReplyAttrPayload : Type 0 where
  pub attr : FileAttr
  pub ttl : ℕ

pub record ReplyOpenPayload : Type 0 where
  pub fh : ℕ
  pub flags : ℕ

pub record ReplyCreatePayload : Type 0 where
  pub attr : FileAttr
  pub ttl : ℕ
  pub generation : ℕ
  pub fh : ℕ
  pub flags : ℕ

pub record DirectoryEntryPayload : Type 0 where
  pub ino : ℕ
  pub offset : ℕ
  pub kind : FileType
  pub name : Text

pub record DirectoryPlusEntryPayload : Type 0 where
  pub ino : ℕ
  pub offset : ℕ
  pub name : Text
  pub ttl : ℕ
  pub attr : FileAttr
  pub generation : ℕ
