-- ===== src/Mount/Parsing.antt =====
-- src/dokan_impl/mount_options.rs: the parsers of mount options, which the repository compiles for its
-- tests. An argument is a text, so none is invalid UTF-8.
use confuse.Common.{
  ℕ, Bool, true, false, ◌&&◌, ◌||◌, not, Option, none, some, List, [], ◌∷◌, ◌++◌, ◌==◌, leb,
  if◌then◌else◌, Result, ok, err, ◌>>=◌,
}
use confuse.Common.Text.{Text, text_eq, strip_prefix, is_empty, split}
use confuse.Facade.Types.{
  MountOption, fs_name, subtype, custom, auto_unmount, default_permissions, dev, no_dev, suid,
  no_suid, ro, rw, exec, no_exec, atime, no_atime, dir_sync, sync, async, SessionAcl, all,
  root_and_owner, owner, Config,
}
use confuse.Mount.Words.{
  ro_text, rw_text, allow_other_text, allow_root_text, auto_unmount_text, default_permissions_text,
  dev_text, nodev_text, suid_text, nosuid_text, exec_text, noexec_text, atime_text, noatime_text,
  dirsync_text, sync_text, async_text, fsname_is_text, subtype_is_text, dash_o_text,
}
use confuse.Mount.Options.{ErrorKind, invalid_input, validate_mount_options}

pub data ParsedMountOption : Type 0 where
  mount_option : MountOption → ParsedMountOption
  acl_option : SessionAcl → ParsedMountOption

-- The words of `parse_single_mount_option` and what they stand for.
abbrev pub words : List (Text × ParsedMountOption)
words =
    (ro_text, mount_option ro)
    ∷ (rw_text, mount_option rw)
    ∷ (allow_other_text, acl_option all)
    ∷ (allow_root_text, acl_option root_and_owner)
    ∷ (auto_unmount_text, mount_option auto_unmount)
    ∷ (default_permissions_text, mount_option default_permissions)
    ∷ (dev_text, mount_option dev)
    ∷ (nodev_text, mount_option no_dev)
    ∷ (suid_text, mount_option suid)
    ∷ (nosuid_text, mount_option no_suid)
    ∷ (exec_text, mount_option exec)
    ∷ (noexec_text, mount_option no_exec)
    ∷ (atime_text, mount_option atime)
    ∷ (noatime_text, mount_option no_atime)
    ∷ (dirsync_text, mount_option dir_sync)
    ∷ (sync_text, mount_option sync)
    ∷ (async_text, mount_option async)
    ∷ []

unfoldable pub word_option : Text → List (Text × ParsedMountOption) → Option ParsedMountOption
word_option s [] = none
word_option s ((word, option) ∷ rest) = if text_eq s word then some option else word_option s rest

unfoldable pub parse_single_mount_option : Text → ParsedMountOption
unfolding word_option strip_prefix
parse_single_mount_option s = elim (word_option s words) [
  | some option ↦ option
  | none ↦ elim (strip_prefix fsname_is_text s) [
    | some rest ↦ mount_option (fs_name rest)
    | none ↦ elim (strip_prefix subtype_is_text s) [
      | some rest ↦ mount_option (subtype rest)
      | none ↦ mount_option (custom s)
    ]
  ]
]

unfoldable pub is_owner : SessionAcl → Bool
is_owner owner = true
is_owner _ = false

unfoldable pub acl_eq : SessionAcl → SessionAcl → Bool
acl_eq all all = true
acl_eq root_and_owner root_and_owner = true
acl_eq owner owner = true
acl_eq _ _ = false

unfoldable pub apply_parsed_mount_option : Config → ParsedMountOption → Result Config ErrorKind
unfolding is_owner acl_eq
apply_parsed_mount_option config (mount_option option) =
    ok (record config { mount_options = config.mount_options ++ (option ∷ []) })
apply_parsed_mount_option config (acl_option acl) =
    if not (is_owner config.acl) && not (acl_eq config.acl acl)
    then err invalid_input
    else ok (record config { acl = acl })

-- `char::is_whitespace`
unfoldable pub is_whitespace : ℕ → Bool
is_whitespace c =
    (leb 9 c && leb c 13)
    || (leb 0x2000 c && leb c 0x200A)
    || c == 32
    || c == 0x85
    || c == 0xA0
    || c == 0x1680
    || c == 0x2028
    || c == 0x2029
    || c == 0x202F
    || c == 0x205F
    || c == 0x3000

unfoldable pub trim_start : Text → Text
unfolding is_whitespace
trim_start [] = []
trim_start (c ∷ s) = let rest = trim_start s in if is_whitespace c then rest else c ∷ s

unfoldable pub trim_end : Text → Text
unfolding is_whitespace is_empty
trim_end [] = []
trim_end (c ∷ s) =
    let rest = trim_end s in if is_whitespace c && is_empty rest then [] else c ∷ rest

unfoldable pub apply_parts : Config → List Text → Result Config ErrorKind
unfolding trim_start trim_end is_empty apply_parsed_mount_option parse_single_mount_option
apply_parts config [] = ok config
apply_parts config (part ∷ parts) =
    let option = trim_end (trim_start part) in
    if is_empty option
    then apply_parts config parts
    else (apply_parsed_mount_option config (parse_single_mount_option option)
        >>= (λ config'. apply_parts config' parts))

unfoldable pub apply_csv_mount_options : Config → Text → Result Config ErrorKind
unfolding split apply_parts
apply_csv_mount_options config csv = apply_parts config (split (λ c. c == 44) csv)

-- The loop of `parse_mount_options_from_args`: `-o` stands before its options or is joined to them.
unfoldable pub apply_args : Config → List Text → Result Config ErrorKind
unfolding text_eq strip_prefix apply_csv_mount_options
apply_args out [] = ok out
apply_args out (x ∷ []) = elim (strip_prefix dash_o_text x) [
  | none ↦ apply_csv_mount_options out x
  | some rest ↦ if is_empty rest then err invalid_input else apply_csv_mount_options out rest
]
apply_args out (x ∷ y ∷ args) = elim (strip_prefix dash_o_text x) [
  | none ↦ (apply_csv_mount_options out x >>= (λ out'. apply_args out' (y ∷ args)))
  | some rest ↦
      if is_empty rest
      then (apply_csv_mount_options out y >>= (λ out'. apply_args out' args))
      else (apply_csv_mount_options out rest >>= (λ out'. apply_args out' (y ∷ args)))
]

-- `Config::default()`
abbrev pub default_config : Config
default_config = record { mount_options = []; acl = owner; n_threads = none; clone_fd = false }

unfoldable pub parse_mount_options_from_args : List Text → Result Config ErrorKind
unfolding apply_args validate_mount_options
parse_mount_options_from_args args = do
  out ← apply_args default_config args
  _ ← validate_mount_options out.mount_options
  ok out

-- The loop of `parse_mount_options`.
unfoldable pub apply_options : Config → List Text → Result Config ErrorKind
unfolding strip_prefix apply_csv_mount_options apply_parsed_mount_option parse_single_mount_option
apply_options out [] = ok out
apply_options out (s ∷ []) = elim (strip_prefix dash_o_text s) [
  | none ↦ apply_parsed_mount_option out (parse_single_mount_option s)
  | some rest ↦
      if is_empty rest
      then ok (record out { mount_options = out.mount_options ++ (custom dash_o_text ∷ []) })
      else apply_csv_mount_options out rest
]
apply_options out (s ∷ t ∷ options) = elim (strip_prefix dash_o_text s) [
  | none ↦
      (apply_parsed_mount_option out (parse_single_mount_option s)
        >>= (λ out'. apply_options out' (t ∷ options)))
  | some rest ↦
      if is_empty rest
      then (apply_csv_mount_options out t >>= (λ out'. apply_options out' options))
      else (apply_csv_mount_options out rest >>= (λ out'. apply_options out' (t ∷ options)))
]

unfoldable pub parse_mount_options : List Text → Result Config ErrorKind
unfolding apply_options validate_mount_options
parse_mount_options options = do
  out ← apply_options default_config options
  _ ← validate_mount_options out.mount_options
  ok out
