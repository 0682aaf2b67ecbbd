-- ===== src/Facade/Errno.antt =====
-- The error numbers of the `libc` crate on Windows that the code names.
use confuse.Common.{ℕ}

abbrev pub eperm : ℕ
eperm = 1

abbrev pub enoent : ℕ
enoent = 2

abbrev pub eio : ℕ
eio = 5

abbrev pub eagain : ℕ
eagain = 11

abbrev pub eacces : ℕ
eacces = 13

abbrev pub ebusy : ℕ
ebusy = 16

abbrev pub eexist : ℕ
eexist = 17

abbrev pub enotdir : ℕ
enotdir = 20

abbrev pub eisdir : ℕ
eisdir = 21

abbrev pub einval : ℕ
einval = 22

abbrev pub enospc : ℕ
enospc = 28

abbrev pub enosys : ℕ
enosys = 40

abbrev pub enotempty : ℕ
enotempty = 41

abbrev pub enodata : ℕ
enodata = 120
