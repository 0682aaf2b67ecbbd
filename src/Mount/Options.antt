-- ===== src/Mount/Options.antt =====
-- src/dokan_impl/mount_options.rs: the validation of mount options and their translation for Dokan.
use confuse.Common.{
  ℕ, Bool, true, false, ◌&&◌, ◌||◌, List, [], ◌∷◌, any, ◌==◌, if◌then◌else◌, Result, ok, err, ◌>>=◌,
}
use confuse.Common.Text.{Text, text_eq}
use confuse.Facade.Types.{
  MountOption, fs_name, subtype, custom, auto_unmount, default_permissions, dev, no_dev, suid,
  no_suid, ro, rw, exec, no_exec, atime, no_atime, dir_sync, sync, async,
}
use confuse.Helpers.Volume.{eq_ignore_ascii_case, named_streams, dokan_named_streams}
use confuse.Mount.Words.{single_thread_text, debug_text}

-- `std::io::ErrorKind`, as far as the code tells its errors apart.
pub data ErrorKind : Type 0 where
  invalid_input not_found unsupported other : ErrorKind

-- The derived equality of `MountOption`.
unfoldable pub tag : MountOption → ℕ
tag (fs_name v) = 0
tag (subtype v) = 1
tag (custom v) = 2
tag auto_unmount = 3
tag default_permissions = 4
tag dev = 5
tag no_dev = 6
tag suid = 7
tag no_suid = 8
tag ro = 9
tag rw = 10
tag exec = 11
tag no_exec = 12
tag atime = 13
tag no_atime = 14
tag dir_sync = 15
tag sync = 16
tag async = 17

unfoldable pub option_eq : MountOption → MountOption → Bool
unfolding text_eq tag
option_eq (fs_name v) (fs_name w) = text_eq v w
option_eq (subtype v) (subtype w) = text_eq v w
option_eq (custom v) (custom w) = text_eq v w
option_eq a b = tag a == tag b

unfoldable pub contains : MountOption → List MountOption → Bool
unfolding option_eq
contains option options = any (option_eq option) options

unfoldable pub reject_conflicting_mount_options :
    List MountOption → MountOption → MountOption → Result (Unit {0}) ErrorKind
unfolding contains
reject_conflicting_mount_options options left right =
    if contains left options && contains right options then err invalid_input else ok tt

unfoldable pub validate_mount_options : List MountOption → Result (Unit {0}) ErrorKind
unfolding reject_conflicting_mount_options
validate_mount_options options = do
  _ ← reject_conflicting_mount_options options ro rw
  _ ← reject_conflicting_mount_options options dev no_dev
  _ ← reject_conflicting_mount_options options suid no_suid
  _ ← reject_conflicting_mount_options options exec no_exec
  _ ← reject_conflicting_mount_options options atime no_atime
  reject_conflicting_mount_options options sync async

-- `dokan::MountOptions`, as far as the code sets it; the flags are the members of its set of flags.
pub record DokanOptions : Type 0 where
  pub single_thread : Bool
  pub write_protect : Bool
  pub debug : Bool
  pub alt_stream : Bool

unfoldable pub apply_custom_dokan_mount_option : Text → DokanOptions → DokanOptions
unfolding eq_ignore_ascii_case
apply_custom_dokan_mount_option value out = record {
  single_thread = eq_ignore_ascii_case value single_thread_text || out.single_thread;
  write_protect = out.write_protect;
  debug = eq_ignore_ascii_case value debug_text || out.debug;
  alt_stream =
      (eq_ignore_ascii_case value dokan_named_streams || eq_ignore_ascii_case value named_streams)
      || out.alt_stream;
}

unfoldable pub is_dokan_inexpressible_mount_option : MountOption → Bool
is_dokan_inexpressible_mount_option auto_unmount = true
is_dokan_inexpressible_mount_option default_permissions = true
is_dokan_inexpressible_mount_option dev = true
is_dokan_inexpressible_mount_option no_dev = true
is_dokan_inexpressible_mount_option suid = true
is_dokan_inexpressible_mount_option no_suid = true
is_dokan_inexpressible_mount_option exec = true
is_dokan_inexpressible_mount_option no_exec = true
is_dokan_inexpressible_mount_option atime = true
is_dokan_inexpressible_mount_option no_atime = true
is_dokan_inexpressible_mount_option dir_sync = true
is_dokan_inexpressible_mount_option sync = true
is_dokan_inexpressible_mount_option async = true
is_dokan_inexpressible_mount_option _ = false

unfoldable pub apply_mount_option : MountOption → DokanOptions → DokanOptions
unfolding apply_custom_dokan_mount_option
apply_mount_option ro out = record out { write_protect = true }
apply_mount_option (custom v) out = apply_custom_dokan_mount_option v out
apply_mount_option _ out = out

unfoldable pub apply_mount_options : List MountOption → DokanOptions → DokanOptions
unfolding apply_mount_option
apply_mount_options [] out = out
apply_mount_options (option ∷ options) out =
    apply_mount_options options (apply_mount_option option out)

-- `default` is `dokan::MountOptions::default()`.
unfoldable pub to_dokan_mount_options :
    DokanOptions → List MountOption → Result DokanOptions ErrorKind
unfolding validate_mount_options apply_mount_options
to_dokan_mount_options default options = do
  _ ← validate_mount_options options
  ok (apply_mount_options options default)
