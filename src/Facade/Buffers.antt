-- ===== src/Facade/Buffers.antt =====
-- src/fuser_facade/reply/api.rs: the buffers of the replies that list a directory. `duplicate` shares a
-- buffer, so what a file system adds is what the adapter reads.
use confuse.Common.{
  ℕ, ◌+◌, ◌-◌, ◌*◌, ◌/◌, ◌%◌, ◌^◌, Bool, true, false, Option, none, some, List, [], ◌∷◌, ◌++◌, ltb,
  saturating_add, if◌then◌else◌, Result, ok, err,
}
use confuse.Common.Text.{Text}
use confuse.Facade.Types.{DirectoryEntryPayload, DirectoryPlusEntryPayload}

-- The bytes of a text in UTF-8.
unfoldable pub utf8_char_len : ℕ → ℕ
utf8_char_len c =
    if ltb c 0x80 then 1 else (if ltb c 0x800 then 2 else (if ltb c 0x10000 then 3 else 4))

unfoldable pub utf8_len : Text → ℕ
unfolding utf8_char_len
utf8_len [] = 0
utf8_len (c ∷ s) = utf8_char_len c + utf8_len s

-- `(size + 7) & !7`
unfoldable pub align_8 : ℕ → ℕ
align_8 size = (size + 7) / 8 * 8

unfoldable pub dirent_entry_size : Text → ℕ
unfolding align_8 utf8_len
dirent_entry_size name = align_8 (24 + utf8_len name)

unfoldable pub direntplus_entry_size : Text → ℕ
unfolding align_8 utf8_len
direntplus_entry_size name = align_8 (144 + utf8_len name)

-- A buffer of entries, the same for both kinds of entry.
pub record Buffer (A : Type 0) : Type 0 where
  pub status : Option (Result (Unit {0}) ℕ)
  pub entries : List A
  pub full : Bool
  pub max_size : ℕ
  pub used_size : ℕ

module _ {A : Type 0} where
  -- `capture`, whose limit is `usize::MAX`.
  abbrev pub capture : Buffer A
  capture = record {
    status = none;
    entries = [];
    full = false;
    max_size = 2 ^ 64 - 1;
    used_size = 0;
  }

  -- The body of `add` for an entry of the given size.
  unfoldable pub add_sized : ℕ → A → Buffer A → Bool × Buffer A
  add_sized next_size entry reply =
      if reply.full
      then (true, reply)
      else (if ltb reply.max_size (saturating_add reply.used_size next_size)
          then (true, record reply { full = true })
          else (
            false,
            record reply {
              entries = reply.entries ++ (entry ∷ []);
              used_size = (reply.used_size + next_size) % 2 ^ 64;
            },
          ))

  unfoldable pub reply_ok : Buffer A → Buffer A
  reply_ok reply = record reply { status = some (ok tt) }

  unfoldable pub reply_error : ℕ → Buffer A → Buffer A
  reply_error e reply = record reply { status = some (err e); full = true }

abbrev pub ReplyDirectory : Type 0
ReplyDirectory = Buffer DirectoryEntryPayload

abbrev pub ReplyDirectoryPlus : Type 0
ReplyDirectoryPlus = Buffer DirectoryPlusEntryPayload

unfoldable pub add : DirectoryEntryPayload → ReplyDirectory → Bool × ReplyDirectory
unfolding add_sized dirent_entry_size
add entry reply = add_sized (dirent_entry_size entry.name) entry reply

unfoldable pub add_plus : DirectoryPlusEntryPayload → ReplyDirectoryPlus → Bool × ReplyDirectoryPlus
unfolding add_sized direntplus_entry_size
add_plus entry reply = add_sized (direntplus_entry_size entry.name) entry reply
