-- ===== src/Notifier/Messages.antt =====
-- src/fuser_facade/notifier.rs: the methods of `Notifier` and the messages that they send. A notifier
-- has the session's resolver; one without a resolver is made by tests only. `sender` is what its
-- `ChannelSender` does with a message, which in this repository is nothing (`channel_send`).
use confuse.Common.{
  ℕ, ◌+◌, ◌%◌, ◌^◌, List, [], ◌∷◌, ◌++◌, length, ltb, if◌then◌else◌, Result, ok, err, ◌>>=◌,
}
use confuse.Common.Int.{ℤ}
use confuse.Common.Text.{Text}
use confuse.Resolver.State.{Env, PathResolver}
use confuse.Resolver.Attrs.{invalidate_inode_attr}
use confuse.Resolver.Invalidate.{invalidate_entry_from_notify}
use confuse.Mount.Options.{ErrorKind, not_found, other}
use confuse.Notifier.Wire.{to_le_bytes, as_u64, utf8}

pub data NotifyCode : Type 0 where
  poll_code inval_entry_code inval_inode_code store_code delete_code : NotifyCode

-- The module `fuse_notify_code`.
unfoldable pub code_num : NotifyCode → ℕ
code_num poll_code = 1
code_num inval_inode_code = 2
code_num inval_entry_code = 3
code_num store_code = 4
code_num delete_code = 6

-- `u32::try_from` of a length, with `too_big_err`.
unfoldable pub checked_u32 : ℕ → Result ℕ ErrorKind
checked_u32 n = if ltb n (2 ^ 32) then ok n else err other

-- `Notification::with_iovec`: the two slices that the sender is handed, one after the other.
unfoldable pub with_iovec : NotifyCode → List ℕ → Result (List ℕ) ErrorKind
unfolding checked_u32 code_num to_le_bytes
with_iovec code payload = do
  payload_len ← checked_u32 (length payload)
  ok (
      to_le_bytes 4 ((payload_len + 16) % 2 ^ 32)
      ++ (to_le_bytes 4 (code_num code) ++ (to_le_bytes 8 0 ++ payload)))

-- `ChannelSender::send` (src/fuser_facade/reply/support.rs)
unfoldable pub channel_send : List ℕ → Result (Unit {0}) ErrorKind
channel_send iov = ok tt

unfoldable pub ignore_not_found : Result (Unit {0}) ErrorKind → Result (Unit {0}) ErrorKind
ignore_not_found (err not_found) = ok tt
ignore_not_found x = x

-- The payloads.
unfoldable pub poll_payload : ℕ → List ℕ
unfolding to_le_bytes
poll_payload kh = to_le_bytes 8 kh

unfoldable pub inval_inode_payload : ℕ → ℤ → ℤ → List ℕ
unfolding to_le_bytes as_u64
inval_inode_payload ino off len =
    to_le_bytes 8 ino ++ (to_le_bytes 8 (as_u64 off) ++ to_le_bytes 8 (as_u64 len))

-- A name with its length before it and a zero byte behind it.
unfoldable pub name_payload : List ℕ → Text → Result (List ℕ) ErrorKind
unfolding checked_u32 to_le_bytes utf8
name_payload head name = do
  namelen ← checked_u32 (length (utf8 name))
  ok (head ++ (to_le_bytes 4 namelen ++ (to_le_bytes 4 0 ++ (utf8 name ++ (0 ∷ [])))))

unfoldable pub inval_entry_payload : ℕ → Text → Result (List ℕ) ErrorKind
unfolding name_payload to_le_bytes
inval_entry_payload parent name = name_payload (to_le_bytes 8 parent) name

unfoldable pub store_payload : ℕ → ℕ → List ℕ → Result (List ℕ) ErrorKind
unfolding checked_u32 to_le_bytes
store_payload ino offset bytes = do
  size ← checked_u32 (length bytes)
  ok (
      to_le_bytes 8 ino
      ++ (to_le_bytes 8 offset ++ (to_le_bytes 4 size ++ (to_le_bytes 4 0 ++ bytes))))

unfoldable pub delete_payload : ℕ → ℕ → Text → Result (List ℕ) ErrorKind
unfolding name_payload to_le_bytes
delete_payload parent child name = name_payload (to_le_bytes 8 parent ++ to_le_bytes 8 child) name

module _ (sender : List ℕ → Result (Unit {0}) ErrorKind) where
  unfoldable pub send : NotifyCode → List ℕ → Result (Unit {0}) ErrorKind
  unfolding with_iovec
  send code payload = do iov ← with_iovec code payload; sender iov

  unfoldable pub send_inval : NotifyCode → List ℕ → Result (Unit {0}) ErrorKind
  unfolding send ignore_not_found
  send_inval code payload = ignore_not_found (send code payload)

  -- The methods. The resolver changes before anything can fail.
  unfoldable pub poll : ℕ → Result (Unit {0}) ErrorKind
  unfolding send poll_payload
  poll kh = send poll_code (poll_payload kh)

  unfoldable pub store : ℕ → ℕ → List ℕ → Result (Unit {0}) ErrorKind
  unfolding store_payload send_inval
  store ino offset bytes = do
    payload ← store_payload ino offset bytes
    send_inval store_code payload

  unfoldable pub inval_inode :
      Env → ℕ → ℤ → ℤ → PathResolver → Result (Unit {0}) ErrorKind × PathResolver
  unfolding inval_inode_payload send_inval
  inval_inode env ino off len resolver = (
    send_inval inval_inode_code (inval_inode_payload ino off len),
    invalidate_inode_attr env ino resolver,
  )

  unfoldable pub inval_entry :
      Env → ℕ → Text → PathResolver → Result (Unit {0}) ErrorKind × PathResolver
  unfolding inval_entry_payload send_inval
  inval_entry env parent name resolver = (
    inval_entry_payload parent name >>= send_inval inval_entry_code,
    invalidate_entry_from_notify env parent name resolver,
  )

  unfoldable pub delete :
      Env → ℕ → ℕ → Text → PathResolver → Result (Unit {0}) ErrorKind × PathResolver
  unfolding delete_payload send_inval
  delete env parent child name resolver = (
    delete_payload parent child name >>= send_inval delete_code,
    invalidate_inode_attr env child (invalidate_entry_from_notify env parent name resolver),
  )
