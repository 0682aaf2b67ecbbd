-- ===== src/Mount/Words.antt =====
-- The words that src/dokan_impl/mount_options.rs and src/fuser_facade/session.rs know.
use confuse.Common.{[], ◌∷◌}
use confuse.Common.Text.{Text}

-- "ro"
abbrev pub ro_text : Text
ro_text = 114 ∷ 111 ∷ []

-- "rw"
abbrev pub rw_text : Text
rw_text = 114 ∷ 119 ∷ []

-- "allow_other"
abbrev pub allow_other_text : Text
allow_other_text = 97 ∷ 108 ∷ 108 ∷ 111 ∷ 119 ∷ 95 ∷ 111 ∷ 116 ∷ 104 ∷ 101 ∷ 114 ∷ []

-- "allow_root"
abbrev pub allow_root_text : Text
allow_root_text = 97 ∷ 108 ∷ 108 ∷ 111 ∷ 119 ∷ 95 ∷ 114 ∷ 111 ∷ 111 ∷ 116 ∷ []

-- "auto_unmount"
abbrev pub auto_unmount_text : Text
auto_unmount_text = 97 ∷ 117 ∷ 116 ∷ 111 ∷ 95 ∷ 117 ∷ 110 ∷ 109 ∷ 111 ∷ 117 ∷ 110 ∷ 116 ∷ []

-- "default_permissions"
abbrev pub default_permissions_text : Text
default_permissions_text =
    100 ∷ 101 ∷ 102 ∷ 97 ∷ 117 ∷ 108 ∷ 116 ∷ 95 ∷ 112 ∷ 101 ∷ 114 ∷ 109 ∷ 105 ∷ 115 ∷ 115 ∷ 105
    ∷ 111 ∷ 110 ∷ 115 ∷ []

-- "dev"
abbrev pub dev_text : Text
dev_text = 100 ∷ 101 ∷ 118 ∷ []

-- "nodev"
abbrev pub nodev_text : Text
nodev_text = 110 ∷ 111 ∷ 100 ∷ 101 ∷ 118 ∷ []

-- "suid"
abbrev pub suid_text : Text
suid_text = 115 ∷ 117 ∷ 105 ∷ 100 ∷ []

-- "nosuid"
abbrev pub nosuid_text : Text
nosuid_text = 110 ∷ 111 ∷ 115 ∷ 117 ∷ 105 ∷ 100 ∷ []

-- "exec"
abbrev pub exec_text : Text
exec_text = 101 ∷ 120 ∷ 101 ∷ 99 ∷ []

-- "noexec"
abbrev pub noexec_text : Text
noexec_text = 110 ∷ 111 ∷ 101 ∷ 120 ∷ 101 ∷ 99 ∷ []

-- "atime"
abbrev pub atime_text : Text
atime_text = 97 ∷ 116 ∷ 105 ∷ 109 ∷ 101 ∷ []

-- "noatime"
abbrev pub noatime_text : Text
noatime_text = 110 ∷ 111 ∷ 97 ∷ 116 ∷ 105 ∷ 109 ∷ 101 ∷ []

-- "dirsync"
abbrev pub dirsync_text : Text
dirsync_text = 100 ∷ 105 ∷ 114 ∷ 115 ∷ 121 ∷ 110 ∷ 99 ∷ []

-- "sync"
abbrev pub sync_text : Text
sync_text = 115 ∷ 121 ∷ 110 ∷ 99 ∷ []

-- "async"
abbrev pub async_text : Text
async_text = 97 ∷ 115 ∷ 121 ∷ 110 ∷ 99 ∷ []

-- "single_thread"
abbrev pub single_thread_text : Text
single_thread_text = 115 ∷ 105 ∷ 110 ∷ 103 ∷ 108 ∷ 101 ∷ 95 ∷ 116 ∷ 104 ∷ 114 ∷ 101 ∷ 97 ∷ 100 ∷ []

-- "debug"
abbrev pub debug_text : Text
debug_text = 100 ∷ 101 ∷ 98 ∷ 117 ∷ 103 ∷ []

-- "fsname="
abbrev pub fsname_is_text : Text
fsname_is_text = 102 ∷ 115 ∷ 110 ∷ 97 ∷ 109 ∷ 101 ∷ 61 ∷ []

-- "subtype="
abbrev pub subtype_is_text : Text
subtype_is_text = 115 ∷ 117 ∷ 98 ∷ 116 ∷ 121 ∷ 112 ∷ 101 ∷ 61 ∷ []

-- "-o"
abbrev pub dash_o_text : Text
dash_o_text = 45 ∷ 111 ∷ []

-- "negative_ttl=0"
abbrev pub negative_ttl_is_0_text : Text
negative_ttl_is_0_text =
    110 ∷ 101 ∷ 103 ∷ 97 ∷ 116 ∷ 105 ∷ 118 ∷ 101 ∷ 95 ∷ 116 ∷ 116 ∷ 108 ∷ 61 ∷ 48 ∷ []

-- "negative_ttl=off"
abbrev pub negative_ttl_is_off_text : Text
negative_ttl_is_off_text =
    110 ∷ 101 ∷ 103 ∷ 97 ∷ 116 ∷ 105 ∷ 118 ∷ 101 ∷ 95 ∷ 116 ∷ 116 ∷ 108 ∷ 61 ∷ 111 ∷ 102 ∷ 102 ∷ []

-- "negative_ttl_ms="
abbrev pub negative_ttl_ms_is_text : Text
negative_ttl_ms_is_text =
    110 ∷ 101 ∷ 103 ∷ 97 ∷ 116 ∷ 105 ∷ 118 ∷ 101 ∷ 95 ∷ 116 ∷ 116 ∷ 108 ∷ 95 ∷ 109 ∷ 115 ∷ 61 ∷ []

-- "auto_probe"
abbrev pub auto_probe_text : Text
auto_probe_text = 97 ∷ 117 ∷ 116 ∷ 111 ∷ 95 ∷ 112 ∷ 114 ∷ 111 ∷ 98 ∷ 101 ∷ []
