-- ===== src/Memfs/Service.antt =====
-- examples/memfs/main.rs: `impl Filesystem for MemFs`.
use confuse.Common.{ℕ, ◌*◌, some, ok}
use confuse.Facade.Buffers.{ReplyDirectory, capture}
use confuse.Adapter.Calls.{
  lookup, getattr, setattr, mkdir, unlink, rmdir, rename, open_file, read, write, release, opendir,
  readdir, releasedir, create, statfs, DirectoryReply, StatfsPayload, Filesystem, default_reply,
}
use confuse.Memfs.Nodes.{MemFs}
use confuse.Memfs.Methods
use confuse.Memfs.Names
use confuse.Memfs.Listing

unfoldable pub directory_reply : ReplyDirectory → DirectoryReply
directory_reply reply = record { status = reply.status; entries = reply.entries }

-- The made-up numbers of `statfs`.
abbrev pub volume : StatfsPayload
volume = record {
  blocks = 1024 * 1024;
  bfree = 512 * 1024;
  bavail = 512 * 1024;
  files = 1000000;
  ffree = 999000;
  bsize = 4096;
  namelen = 255;
  frsize = 4096;
}

module _ (clock : ℕ → ℕ) where
  -- The methods that the example leaves out are the trait's.
  unfoldable pub memfs : Filesystem MemFs
  unfolding default_reply directory_reply
  memfs (lookup req parent name) fs = (some (Methods.lookup parent name fs), fs)
  memfs (getattr req ino fh) fs = (some (Methods.getattr ino fs), fs)
  memfs (setattr req ino args) fs =
      let (r, fs') = Methods.setattr clock ino args fs in (some r, fs')
  memfs (readdir req ino fh offset) fs =
      (directory_reply (Listing.readdir ino offset fs capture), fs)
  memfs (read req ino fh offset size flags lock_owner) fs =
      (some (Methods.read ino offset size fs), fs)
  memfs (write req ino fh offset bytes write_flags flags lock_owner) fs =
      let (r, fs') = Methods.write clock ino offset bytes fs in (some r, fs')
  memfs (create req parent name mode umask flags) fs =
      let (r, fs') = Names.create clock parent name mode flags fs in (some r, fs')
  memfs (mkdir req parent name mode umask) fs =
      let (r, fs') = Names.mkdir clock parent name mode fs in (some r, fs')
  memfs (unlink req parent name) fs =
      let (r, fs') = Names.unlink clock parent name fs in (some r, fs')
  memfs (rmdir req parent name) fs =
      let (r, fs') = Names.rmdir clock parent name fs in (some r, fs')
  memfs (rename req parent name newparent newname flags) fs =
      let (r, fs') = Names.rename clock parent name newparent newname fs in (some r, fs')
  memfs (open_file req ino flags) fs = (some (Methods.open_file ino flags fs), fs)
  memfs (release req ino fh flags lock_owner flush) fs = (some (ok tt), fs)
  memfs (opendir req ino flags) fs = (some (Methods.opendir ino flags fs), fs)
  memfs (releasedir req ino fh flags) fs = (some (ok tt), fs)
  memfs (statfs req ino) fs = (some (ok volume), fs)
  memfs c fs = (default_reply c, fs)
