-- ===== src/Notifier/Errors.antt =====
-- src/fuser_facade/notifier.rs: the notifications that cannot be sent.
use confuse.Common.{
  ℕ, ◌+◌, ◌^◌, ◌≡◌, List, [], ◌∷◌, ◌++◌, length, length-append, ltb, if◌then◌else◌, ok, err, ◌>>=◌,
  arith,
}
use confuse.Common.Text.{Text}
use confuse.Facade.Buffers.{utf8_len}
use confuse.Resolver.State.{Env, PathResolver}
use confuse.Mount.Options.{other}
use confuse.Notifier.Wire.{to_le_bytes, utf8, length-utf8, length-to_le_bytes}
use confuse.Notifier.Messages.{
  NotifyCode, inval_entry_code, delete_code, store_code, checked_u32, with_iovec, channel_send,
  send, send_inval, ignore_not_found, name_payload, inval_entry_payload, store_payload,
  delete_payload, inval_entry, delete, store,
}

send_inval-length :
    (code : NotifyCode) (payload : List ℕ)
    → send_inval channel_send code payload
      ≡ (if ltb (length payload) (2 ^ 32) then ok tt else err other)
unfolding send_inval send with_iovec checked_u32 channel_send ignore_not_found
send_inval-length code payload = ground arith

name_payload-sent :
    (code : NotifyCode) (head : List ℕ) (name : Text)
    → (name_payload head name >>= send_inval channel_send code)
      ≡ (if ltb (length head + utf8_len name + 9) (2 ^ 32) then ok tt else err other)
unfolding name_payload checked_u32
name_payload-sent code head name =
    let text = utf8 name in
    let tail = text ++ (0 ∷ []) in
    let pad = to_le_bytes 4 0 ++ tail in
    let rest = to_le_bytes 4 (length text) ++ pad in
    let long : length (head ++ rest) ≡ length head + utf8_len name + 9 = omega (
      arith,
      length-append head rest,
      length-append (to_le_bytes 4 (length text)) pad,
      length-append (to_le_bytes 4 0) tail,
      length-append text (0 ∷ []),
      length-to_le_bytes 4 (length text),
      length-to_le_bytes 4 0,
      length-utf8 name,
    ) in
    ground (arith, long, length-utf8 name, send_inval-length code (head ++ rest))

store-sent :
    (ino offset : ℕ) (bytes : List ℕ)
    → store channel_send ino offset bytes
      ≡ (if ltb (length bytes + 24) (2 ^ 32) then ok tt else err other)
unfolding store store_payload checked_u32
store-sent ino offset bytes =
    let pad = to_le_bytes 4 0 ++ bytes in
    let size = to_le_bytes 4 (length bytes) ++ pad in
    let rest = to_le_bytes 8 offset ++ size in
    let payload = to_le_bytes 8 ino ++ rest in
    let long : length payload ≡ length bytes + 24 = omega (
      arith,
      length-append (to_le_bytes 8 ino) rest,
      length-append (to_le_bytes 8 offset) size,
      length-append (to_le_bytes 4 (length bytes)) pad,
      length-append (to_le_bytes 4 0) bytes,
      length-to_le_bytes 8 ino,
      length-to_le_bytes 8 offset,
      length-to_le_bytes 4 (length bytes),
      length-to_le_bytes 4 0,
    ) in
    ground (arith, long, send_inval-length store_code payload)

-- The notifications with a name or with data fail exactly when their payload has 2^32 bytes or
-- more, with an error of no special kind.
pub sent_iff :
    (env : Env) (parent child offset : ℕ) (name : Text) (bytes : List ℕ) (resolver : PathResolver)
    → ((inval_entry channel_send env parent name resolver).0
        ≡ (if ltb (utf8_len name + 17) (2 ^ 32) then ok tt else err other))
      × ((delete channel_send env parent child name resolver).0
          ≡ (if ltb (utf8_len name + 25) (2 ^ 32) then ok tt else err other))
      × (store channel_send child offset bytes
          ≡ (if ltb (length bytes + 24) (2 ^ 32) then ok tt else err other))
unfolding inval_entry inval_entry_payload delete delete_payload
sent_iff env parent child offset name bytes resolver =
    let head = to_le_bytes 8 parent ++ to_le_bytes 8 child in
    let head_long : length head ≡ 16 = omega (
      arith,
      length-append (to_le_bytes 8 parent) (to_le_bytes 8 child),
      length-to_le_bytes 8 parent,
      length-to_le_bytes 8 child,
    ) in
    (
      ground (
        arith,
        name_payload-sent inval_entry_code (to_le_bytes 8 parent) name,
        length-to_le_bytes 8 parent,
      ),
      ground (arith, name_payload-sent delete_code head name, head_long),
      store-sent child offset bytes,
    )
