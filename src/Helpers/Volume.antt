-- ===== src/Helpers/Volume.antt =====
-- src/dokan_impl/helpers/operations.rs: the names and the flags of the volume.
use Prim.Native.Nat.{bit_or}
use confuse.Common.{ℕ, ◌+◌, Bool, ◌&&◌, ◌||◌, List, [], ◌∷◌, map, leb, if◌then◌else◌}
use confuse.Common.Text.{Text, text_eq}
use confuse.Facade.Types.{MountOption, fs_name, subtype, custom}

-- "confuse" and "FUSER".
abbrev pub default_volume_name : Text
default_volume_name = 99 ∷ 111 ∷ 110 ∷ 102 ∷ 117 ∷ 115 ∷ 101 ∷ []

abbrev pub default_fs_name : Text
default_fs_name = 70 ∷ 85 ∷ 83 ∷ 69 ∷ 82 ∷ []

-- "named_streams" and "dokan_named_streams".
abbrev pub named_streams : Text
named_streams = 110 ∷ 97 ∷ 109 ∷ 101 ∷ 100 ∷ 95 ∷ 115 ∷ 116 ∷ 114 ∷ 101 ∷ 97 ∷ 109 ∷ 115 ∷ []

abbrev pub dokan_named_streams : Text
dokan_named_streams = 100 ∷ 111 ∷ 107 ∷ 97 ∷ 110 ∷ 95 ∷ named_streams

-- The loop of `derive_volume_names`, from the names so far.
unfoldable pub volume_names_from : List MountOption → Text × Text → Text × Text
volume_names_from [] names = names
volume_names_from (fs_name v ∷ options) (volume, fs) = volume_names_from options (v, fs)
volume_names_from (subtype v ∷ options) (volume, fs) = volume_names_from options (volume, v)
volume_names_from (_ ∷ options) names = volume_names_from options names

unfoldable pub derive_volume_names : List MountOption → Text × Text
unfolding volume_names_from
derive_volume_names options = volume_names_from options (default_volume_name, default_fs_name)

-- `str::eq_ignore_ascii_case`
unfoldable pub ascii_lowercase : ℕ → ℕ
ascii_lowercase c = if leb 65 c && leb c 90 then c + 32 else c

unfoldable pub eq_ignore_ascii_case : Text → Text → Bool
unfolding ascii_lowercase text_eq
eq_ignore_ascii_case a b = text_eq (map ascii_lowercase a) (map ascii_lowercase b)

-- `FILE_NAMED_STREAMS`
abbrev pub file_named_streams : ℕ
file_named_streams = 0x40000

unfoldable pub flags_of : MountOption → ℕ → ℕ
unfolding eq_ignore_ascii_case
flags_of (custom value) flags =
    if eq_ignore_ascii_case value dokan_named_streams || eq_ignore_ascii_case value named_streams
    then bit_or flags file_named_streams
    else flags
flags_of _ flags = flags

unfoldable pub volume_flags_from : List MountOption → ℕ → ℕ
unfolding flags_of
volume_flags_from [] flags = flags
volume_flags_from (option ∷ options) flags = volume_flags_from options (flags_of option flags)

unfoldable pub derive_volume_flags : List MountOption → ℕ
unfolding volume_flags_from
derive_volume_flags options = volume_flags_from options 0
