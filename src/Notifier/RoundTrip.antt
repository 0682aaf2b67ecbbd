-- ===== src/Notifier/RoundTrip.antt =====
-- src/fuser_facade/notifier.rs: every notification is read back from its message.
use confuse.Common.{ℕ, ◌+◌, ◌^◌, ◌<◌, ◌≡◌, some, List, length, ok, Result}
use confuse.Resolver.State.{Env, PathResolver}
use confuse.Mount.Options.{ErrorKind}
use confuse.Common.Text.{Text}
use confuse.Notifier.Wire.{as_u64, utf8}
use confuse.Notifier.Messages.{
  code_num, poll, inval_inode, inval_entry, store, delete, ignore_not_found,
}
use confuse.Notifier.Decoding.{
  Notice, polls, invalidates_inode, invalidates_entry, stores, deletes, code_of, payload_of, packet,
  parse_body,
}

-- The numbers are of the widths of their types, and the message is shorter than 4 GiB.
abbrev pub InRange : Notice → Type 0
InRange (polls kh) = kh < 2 ^ 64
InRange (invalidates_inode ino off len) =
    (ino < 2 ^ 64) × (as_u64 off < 2 ^ 64) × (as_u64 len < 2 ^ 64)
InRange (invalidates_entry parent name) = (parent < 2 ^ 64) × (length (utf8 name) + 33 < 2 ^ 32)
InRange (stores ino offset bytes) =
    (ino < 2 ^ 64) × (offset < 2 ^ 64) × (length bytes + 40 < 2 ^ 32)
InRange (deletes parent child name) =
    (parent < 2 ^ 64) × (child < 2 ^ 64) × (length (utf8 name) + 41 < 2 ^ 32)

-- The payload stands in the message, and its reader finds the packet.
abbrev Readable : Notice → Type 0
Readable n =
    (payload : List ℕ) × (payload_of n ≡ ok payload)
    × (length payload + 16 < 2 ^ 32)
    × (parse_body (code_num (code_of n)) payload ≡ some (packet n))

-- The method that a notification is for.
abbrev pub notify :
    (List ℕ → Result (Unit {0}) ErrorKind)
    → Env
    → Notice
    → PathResolver
    → Result (Unit {0}) ErrorKind
notify sender env (polls kh) resolver = poll sender kh
notify sender env (invalidates_inode ino off len) resolver =
    (inval_inode sender env ino off len resolver).0
notify sender env (invalidates_entry parent name) resolver =
    (inval_entry sender env parent name resolver).0
notify sender env (stores ino offset bytes) resolver = store sender ino offset bytes
notify sender env (deletes parent child name) resolver =
    (delete sender env parent child name resolver).0

-- What a method makes of the sender's answer: all but `poll` take an unknown inode for success.
abbrev pub answered : Notice → Result (Unit {0}) ErrorKind → Result (Unit {0}) ErrorKind
answered (polls kh) r = r
answered _ r = ignore_not_found r
