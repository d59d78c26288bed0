-- ===== src/Jail/Mounts.antt =====
-- The mounts of a jail: the calls of libminijail.c that add one, and the path outside of the jail.
use minijail.Base.{
  ℕ, ◌+◌, bit_or, Bool, true, false, not, ◌&&◌, List, [], ◌∷◌, ◌++◌, Option, none, some,
  if◌then◌else◌, ◌==◌, length, drop, Bytes, codes, streq, starts_with,
}
use minijail.Util.Buffer.{path_join, path_is_parent, byte_at}
use minijail.Util.Text.{tokenize_all}
use minijail.Jail.State.{Jail, Mountpoint}
use minijail.Jail.Answer.{Answer, returned, refused, Host}
use minijail.Jail.Errno
use minijail.Jail.MountFlag

-- `*dest == '/'`, where an empty string starts with its NUL.
unfoldable pub is_absolute : Bytes → Bool
is_absolute [] = false
is_absolute (c ∷ path) = c == b'/'

abbrev pub tmpfs_default : Bytes
tmpfs_default = codes "mode=0755,size=10M"

-- `data` behind the defaults of file systems.
unfoldable pub mount_data : Bytes → Option Bytes → Option Bytes
mount_data kind none = if streq kind (codes "tmpfs") then some tmpfs_default else none
mount_data kind (some []) = if streq kind (codes "tmpfs") then some tmpfs_default else some []
mount_data kind (some (c ∷ data')) = some (c ∷ data')

unfoldable pub mount_flags : ℕ → ℕ
mount_flags flags =
    if flags == 0 then bit_or (bit_or MountFlag.nodev MountFlag.noexec) MountFlag.nosuid else flags

unfoldable pub new_mountpoint : Bytes → Bytes → Bytes → ℕ → Option Bytes → Mountpoint
unfolding mount_data mount_flags
new_mountpoint src dest kind flags data' = record {
  src = src;
  dest = dest;
  kind = kind;
  options = mount_data kind data';
  flags = mount_flags flags;
}

unfoldable pub append_mount : Mountpoint → Jail → Jail
append_mount m j = record j {
  mounts = j.mounts ++ (m ∷ []);
  mounts_count = j.mounts_count + 1;
  flags = record j.flags { vfs = if j.flags.enter_vfs then j.flags.vfs else true };
}

unfoldable pub minijail_mount_with_data : Bytes → Bytes → Bytes → ℕ → Option Bytes → Jail → Answer
unfolding is_absolute new_mountpoint append_mount
minijail_mount_with_data src dest kind flags data' j =
    if not (is_absolute dest)
    then refused Errno.einval j
    else returned 0 (append_mount (new_mountpoint src dest kind flags data') j)

unfoldable pub minijail_mount : Bytes → Bytes → Bytes → ℕ → Jail → Answer
unfolding minijail_mount_with_data
minijail_mount src dest kind flags j = minijail_mount_with_data src dest kind flags none j

-- system.c: a single slash at the end is allowed.
unfoldable pub is_canonical_path : Host → Bytes → Bool
unfolding byte_at
is_canonical_path host path = elim (host.realpath path) [
  | none ↦ false
  | some rp ↦
      if streq path rp
      then true
      else length path == length rp + 1 && starts_with rp path && byte_at path (length rp) b'/'
]

-- The loop over the allowed prefixes. `before` is the byte in front of the token, which
-- `path_is_parent` reads for an empty one; behind the first token it is the NUL of the one before.
unfoldable pub any_parent : ℕ → List Bytes → Bytes → Bool
unfolding path_is_parent
any_parent before [] path = false
any_parent before (prefix ∷ prefixes) path =
    let later = any_parent 0 prefixes path in
    if path_is_parent before prefix path then true else later

unfoldable pub is_valid_bind_path : Host → Bytes → Bool
unfolding is_canonical_path any_parent tokenize_all
is_valid_bind_path host path =
    if not host.block_symlinks_in_bindmount_paths
    then true
    else if is_canonical_path host path
    then true
    else any_parent host.byte_before_copy
        (tokenize_all (some host.bindmount_allowed_prefixes) (b',' ∷ [])) path

unfoldable pub minijail_bind : Host → Bytes → Bytes → Bool → Jail → Answer
unfolding is_valid_bind_path minijail_mount
minijail_bind host src dest writeable j =
    if not (is_valid_bind_path host src)
    then refused Errno.eloop j
    else minijail_mount src dest (codes "minijail_bind")
        (if writeable then MountFlag.bind else bit_or MountFlag.bind MountFlag.rdonly) j

unfoldable pub minijail_add_remount : Bytes → ℕ → Jail → Answer
unfolding is_absolute
minijail_add_remount mount_name mode j =
    if not (is_absolute mount_name)
    then refused Errno.einval j
    else returned 0 (record j {
      remounts = j.remounts ++ (record { remount_mode = mode; mount_name = mount_name } ∷ []);
    })

-- The walk over the mounts: the exact destination, or a destination that the path starts with.
unfoldable pub original_of : List Mountpoint → Bytes → Option Bytes
unfolding path_join
original_of [] path = none
original_of (b ∷ mounts) path =
    let later = original_of mounts path in
    if streq b.dest path
    then some b.src
    else if starts_with b.dest path
    then some (path_join b.src (drop (length b.dest) path))
    else later

-- Without a mount: below the directory of the root, if there is one.
abbrev pub below_root : Option Bytes → Bytes → Bytes
below_root none path = path
below_root (some dir) path = path_join dir path

abbrev pub or_else : Bytes → Option Bytes → Bytes
or_else other none = other
or_else other (some original) = original

unfoldable pub minijail_get_original_path : Jail → Bytes → Bytes
minijail_get_original_path j path =
    or_else (below_root j.chrootdir path) (original_of j.mounts path)
