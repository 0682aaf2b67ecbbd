-- ===== src/Helpers/Security.antt =====
-- src/dokan_impl/helpers/security.rs: security descriptors and extended attributes.
use Prim.Native.Nat.{bit_or}
use confuse.Common.{
  ℕ, ◌+◌, ◌/◌, ◌%◌, ◌^◌, Bool, true, false, ◌||◌, Option, none, some, List, [], ◌∷◌, ◌++◌, length,
  ◌==◌, ltb, if◌then◌else◌, Result, ok, ◌>>=◌,
}
use confuse.Common.Text.{Text, text_eq, strip_prefix, is_empty}
use confuse.Facade.Types.{FileAttr}
use confuse.Helpers.Codes.{NtStatus}
use confuse.Helpers.Ranges.{checked_dokan_len}
use confuse.Notifier.Wire.{to_le_bytes}

-- "user.dokan.security_descriptor"
abbrev pub security_descriptor_xattr : Text
security_descriptor_xattr =
    117 ∷ 115 ∷ 101 ∷ 114 ∷ 46 ∷ 100 ∷ 111 ∷ 107 ∷ 97 ∷ 110 ∷ 46 ∷ 115 ∷ 101 ∷ 99 ∷ 117 ∷ 114 ∷ 105
    ∷ 116 ∷ 121 ∷ 95 ∷ 100 ∷ 101 ∷ 115 ∷ 99 ∷ 114 ∷ 105 ∷ 112 ∷ 116 ∷ 111 ∷ 114 ∷ []

-- "user.", "dokan.security_descriptor" and ":$DATA".
abbrev pub user_prefix : Text
user_prefix = 117 ∷ 115 ∷ 101 ∷ 114 ∷ 46 ∷ []

abbrev pub descriptor_stream : Text
descriptor_stream =
    100 ∷ 111 ∷ 107 ∷ 97 ∷ 110 ∷ 46 ∷ 115 ∷ 101 ∷ 99 ∷ 117 ∷ 114 ∷ 105 ∷ 116 ∷ 121 ∷ 95 ∷ 100 ∷ 101
    ∷ 115 ∷ 99 ∷ 114 ∷ 105 ∷ 112 ∷ 116 ∷ 111 ∷ 114 ∷ []

abbrev pub data_suffix : Text
data_suffix = 58 ∷ 36 ∷ 68 ∷ 65 ∷ 84 ∷ 65 ∷ []

unfoldable pub unix_sid : ℕ → ℕ → List ℕ
unfolding to_le_bytes
unix_sid kind id = (1 ∷ 2 ∷ 0 ∷ 0 ∷ 0 ∷ 0 ∷ 0 ∷ 22 ∷ []) ++ (to_le_bytes 4 kind ++ to_le_bytes 4 id)

unfoldable pub world_sid : List ℕ
unfolding to_le_bytes
world_sid = (1 ∷ 1 ∷ 0 ∷ 0 ∷ 0 ∷ 0 ∷ 0 ∷ 1 ∷ []) ++ to_le_bytes 4 0

-- `FILE_GENERIC_READ`, `FILE_GENERIC_WRITE` and `FILE_GENERIC_EXECUTE`.
abbrev pub file_generic_read : ℕ
file_generic_read = 0x120089

abbrev pub file_generic_write : ℕ
file_generic_write = 0x120116

abbrev pub file_generic_execute : ℕ
file_generic_execute = 0x1200A0

unfoldable pub perm_to_file_access : ℕ → ℕ → ℕ
perm_to_file_access perm shift =
    let bits = perm / 2 ^ shift % 8 in
    let access = if bits / 4 % 2 == 1 then file_generic_read else 0 in
    let access' = if bits / 2 % 2 == 1 then bit_or access file_generic_write else access in
    if bits % 2 == 1 then bit_or access' file_generic_execute else access'

-- The entry of `push_allow_ace`, and whether one is added.
unfoldable pub push_allow_ace : ℕ → List ℕ → List ℕ × Bool
unfolding to_le_bytes
push_allow_ace access sid = if access == 0 then ([], false) else (
  0 ∷ 0 ∷ (to_le_bytes 2 ((8 + length sid) % 2 ^ 16) ++ (to_le_bytes 4 access ++ sid)),
  true,
)

abbrev pub count_added : Bool → ℕ
count_added true = 1
count_added false = 0

-- The entries of the list, with their number.
unfoldable pub aces_of : FileAttr → List ℕ × ℕ
unfolding push_allow_ace perm_to_file_access unix_sid world_sid
aces_of attr =
    let (owner, a) = push_allow_ace (perm_to_file_access attr.perm 6) (unix_sid 1 attr.uid) in
    let (group, b) = push_allow_ace (perm_to_file_access attr.perm 3) (unix_sid 2 attr.gid) in
    let (world, c) = push_allow_ace (perm_to_file_access attr.perm 0) world_sid in
    (owner ++ (group ++ world), count_added a + count_added b + count_added c)

-- `SE_SELF_RELATIVE | SE_DACL_PRESENT` is 0x8004, and `ACL_REVISION` is 2.
unfoldable pub synthesized_security_descriptor : FileAttr → List ℕ
unfolding aces_of unix_sid to_le_bytes
synthesized_security_descriptor attr =
    let (aces, ace_count) = aces_of attr in
    let owner_sid = unix_sid 1 attr.uid in
    let group_sid = unix_sid 2 attr.gid in
    let owner_offset : ℕ = 20 in
    let group_offset = owner_offset + length owner_sid in
    let dacl_offset = group_offset + length group_sid in
    let acl_len = 8 + length aces in
    (1 ∷ 0 ∷ to_le_bytes 2 0x8004)
    ++ (to_le_bytes 4 owner_offset
        ++ (to_le_bytes 4 group_offset
            ++ (to_le_bytes 4 0
                ++ (to_le_bytes 4 dacl_offset
                    ++ (owner_sid
                        ++ (group_sid
                            ++ ((2 ∷ 0 ∷ to_le_bytes 2 (acl_len % 2 ^ 16))
                                ++ (to_le_bytes 2 (ace_count % 2 ^ 16)
                                    ++ (to_le_bytes 2 0 ++ aces)))))))))

-- A copy into Dokan's buffer: the size that is told, and what was written, if anything.
pub record Copy : Type 0 where
  pub needed : ℕ
  pub copied : Option (List ℕ)

unfoldable pub copy_security_descriptor : List ℕ → Bool → ℕ → Result Copy NtStatus
unfolding checked_dokan_len
copy_security_descriptor bytes is_null buffer_length = do
  needed ← checked_dokan_len (length bytes)
  ok (record {
    needed = needed;
    copied = if ltb buffer_length needed || is_null then none else some bytes;
  })

unfoldable pub xattr_reported_len : ℕ → Option ℕ → Result ℕ NtStatus
unfolding checked_dokan_len
xattr_reported_len data_len (some size) = ok size
xattr_reported_len data_len none = checked_dokan_len data_len

unfoldable pub xattr_needs_data_fetch : List ℕ → Option ℕ → Option ℕ
xattr_needs_data_fetch [] (some size) = if ltb 0 size then some size else none
xattr_needs_data_fetch [] none = none
xattr_needs_data_fetch (b ∷ bytes) size_hint = none

-- The stream that an attribute's name stands for; `from_utf8` is `std::str::from_utf8`.
unfoldable pub stream_name_from_xattr : (List ℕ → Option Text) → List ℕ → Option Text
unfolding strip_prefix is_empty text_eq
stream_name_from_xattr from_utf8 name = elim (from_utf8 name) [
  | none ↦ none
  | some text ↦ elim (strip_prefix user_prefix text) [
    | none ↦ none
    | some stream ↦
        if is_empty stream || text_eq stream descriptor_stream
        then none
        else some (58 ∷ stream ++ data_suffix)
  ]
]
