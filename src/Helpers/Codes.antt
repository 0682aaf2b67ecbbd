-- ===== src/Helpers/Codes.antt =====
-- src/dokan_impl/helpers.rs: error codes, attributes, dispositions and open flags. The numbers are
-- those of the `libc`, `winapi` and `dokan-sys` crates on Windows; a status is a name.
use Prim.Native.Nat.{bit_and, bit_or}
use confuse.Common.{ℕ, Bool, true, false, not, ◌||◌, Option, none, some, ◌==◌, if◌then◌else◌}
use confuse.Facade.Errno
use confuse.Facade.Types.{FileType, directory}

pub data NtStatus : Type 0 where
  not_implemented object_name_not_found object_name_collision disk_full access_denied : NtStatus
  invalid_parameter already_committed unsuccessful file_is_a_directory not_a_directory : NtStatus
  directory_not_empty : NtStatus

unfoldable pub errno_to_ntstatus : ℕ → NtStatus
errno_to_ntstatus e =
    if e == Errno.enosys
    then not_implemented
    else if e == Errno.enoent
    then object_name_not_found
    else if e == Errno.eexist
    then object_name_collision
    else if e == Errno.enospc
    then disk_full
    else if e == Errno.eacces || e == Errno.eperm
    then access_denied
    else if e == Errno.einval
    then invalid_parameter
    else if e == Errno.ebusy
    then already_committed
    else unsuccessful

pub data OptionalProbeError : Type 0 where
  unsupported request_error : NtStatus → OptionalProbeError

unfoldable pub ntstatus : OptionalProbeError → NtStatus
ntstatus (unsupported s) = s
ntstatus (request_error s) = s

unfoldable pub classify_optional_probe_error : ℕ → OptionalProbeError
unfolding errno_to_ntstatus
classify_optional_probe_error e =
    if e == Errno.enosys
    then unsupported (errno_to_ntstatus e)
    else request_error (errno_to_ntstatus e)

abbrev pub missing_reply_status : NtStatus
missing_reply_status = unsuccessful

-- `FILE_ATTRIBUTE_READONLY`, `_DIRECTORY` and `_NORMAL`.
abbrev pub attribute_readonly : ℕ
attribute_readonly = 1

abbrev pub attribute_directory : ℕ
attribute_directory = 0x10

abbrev pub attribute_normal : ℕ
attribute_normal = 0x80

abbrev pub is_directory : FileType → Bool
is_directory directory = true
is_directory _ = false

unfoldable pub filetype_to_windows_attr : FileType → ℕ → ℕ
filetype_to_windows_attr kind perm =
    let attr = if is_directory kind then attribute_directory else attribute_normal in
    if bit_and perm 0o222 == 0 then bit_or attr attribute_readonly else attr

unfoldable pub find_files_attr_from_kind_and_perm : FileType → Option ℕ → ℕ
unfolding filetype_to_windows_attr
find_files_attr_from_kind_and_perm kind none = filetype_to_windows_attr kind 0o666
find_files_attr_from_kind_and_perm kind (some perm) = filetype_to_windows_attr kind perm

pub data CreateDispositionPlan : Type 0 where
  create_only supersede open_only create_then_open_on_exists : CreateDispositionPlan

-- `FILE_SUPERSEDE`, `FILE_CREATE`, `FILE_OPEN_IF` and `FILE_OVERWRITE_IF`.
unfoldable pub create_disposition_plan : ℕ → CreateDispositionPlan
create_disposition_plan disposition =
    if disposition == 2
    then create_only
    else if disposition == 0
    then supersede
    else if disposition == 3 || disposition == 5
    then create_then_open_on_exists
    else open_only

unfoldable pub creates_entry : CreateDispositionPlan → Bool
creates_entry create_only = true
creates_entry supersede = true
creates_entry create_then_open_on_exists = true
creates_entry open_only = false

unfoldable pub opens_existing_after_collision : CreateDispositionPlan → ℕ → Bool
opens_existing_after_collision create_then_open_on_exists e = e == Errno.eexist
opens_existing_after_collision supersede e = e == Errno.eexist
opens_existing_after_collision create_only e = false
opens_existing_after_collision open_only e = false

-- `FILE_DIRECTORY_FILE`
unfoldable pub is_directory_open : ℕ → Bool
is_directory_open create_options = not (bit_and create_options 1 == 0)

unfoldable pub mode_from_file_attributes : ℕ → ℕ
mode_from_file_attributes file_attributes =
    if not (bit_and file_attributes attribute_readonly == 0) then 0o444 else 0o644

-- `GENERIC_READ`, `GENERIC_WRITE`, `FILE_READ_DATA`, `FILE_WRITE_DATA` and `FILE_APPEND_DATA`.
unfoldable pub can_read : ℕ → Bool
can_read desired_access =
    not (bit_and desired_access 0x8000_0000 == 0) || not (bit_and desired_access 1 == 0)

unfoldable pub can_write : ℕ → Bool
can_write desired_access =
    not (bit_and desired_access 0x4000_0000 == 0)
    || not (bit_and desired_access 2 == 0)
    || not (bit_and desired_access 4 == 0)

-- `O_RDONLY`, `O_WRONLY` and `O_RDWR` are 0, 1 and 2.
unfoldable pub access_mask_to_open_flags : ℕ → ℕ
unfolding can_read can_write
access_mask_to_open_flags desired_access =
    if can_write desired_access then if can_read desired_access then 2 else 1 else 0
