-- ===== src/Jail/FsRules.antt =====
-- The rules for paths that Landlock enforces, of libminijail.c.
pub mod Profile
use minijail.Base.{
  ℕ, ◌+◌, ◌%◌, ◌^◌, bit_and, bit_or, Bool, true, false, not, ◌||◌, List, [], ◌∷◌, ◌++◌, Option,
  none, some, if◌then◌else◌, ◌==◌, ltb, leb, Bytes, codes,
}
use minijail.Jail.State.{Jail, Mountpoint}
use minijail.Jail.Answer.{Host}
use minijail.Jail.Landlock
use minijail.Jail.MountFlag

-- `abi > 0`
unfoldable pub minijail_is_fs_restriction_available : Host → Bool
minijail_is_fs_restriction_available host = elim host.landlock_abi [
  | none ↦ false
  | some abi ↦ ltb 0 abi
]

-- The version that is known after `fs_refer_restriction_supported`, which saves a valid one.
unfoldable pub known_abi : Host → Option ℕ → Option ℕ
known_abi host (some abi) = some abi
known_abi host none = elim host.landlock_abi [
  | none ↦ none
  | some abi ↦ if ltb 0 abi then some abi else none
]

abbrev pub at_least : ℕ → Option ℕ → Bool
at_least n none = false
at_least n (some abi) = leb n abi

unfoldable pub fs_refer_restriction_supported : Host → Jail → Bool × Jail
fs_refer_restriction_supported host j =
    let abi = known_abi host j.fs_rules_landlock_abi in
    (at_least Landlock.abi_fs_refer_supported abi, record j { fs_rules_landlock_abi = abi })

-- A failure leaves the descriptor at -1; the caller does not look at the error.
unfoldable pub setup_fs_rules_fd : Host → Jail → Jail
setup_fs_rules_fd host j =
    let (refer, j') = fs_refer_restriction_supported host j in
    let handled =
      if refer
      then bit_or Landlock.handled_access_types Landlock.refer
      else Landlock.handled_access_types in
    record j' { fs_rules_fd = host.landlock_create_ruleset handled }

-- The jail behind the call, which always gives 0.
unfoldable pub add_fs_restriction_path : Host → Bytes → ℕ → Jail → Jail
add_fs_restriction_path host path landlock_flags j =
    let added = record j {
      fs_rules = j.fs_rules ++ (record { path = path; landlock_flags = landlock_flags } ∷ []);
    } in
    let ready = if j.fs_rules_count == 0 then setup_fs_rules_fd host added else added in
    record ready { fs_rules_count = ready.fs_rules_count + 1 }

-- The calls give `!0`: 1.
unfoldable pub minijail_add_fs_restriction_rx : Host → Bytes → Jail → Jail
minijail_add_fs_restriction_rx host path j =
    add_fs_restriction_path host path Landlock.roughly_read_execute j

unfoldable pub minijail_add_fs_restriction_ro : Host → Bytes → Jail → Jail
minijail_add_fs_restriction_ro host path j =
    add_fs_restriction_path host path Landlock.roughly_read j

unfoldable pub minijail_add_fs_restriction_rw : Host → Bytes → Jail → Jail
minijail_add_fs_restriction_rw host path j =
    add_fs_restriction_path host path (bit_or Landlock.roughly_read Landlock.roughly_basic_write) j

unfoldable pub minijail_add_fs_restriction_advanced_rw : Host → Bytes → Jail → Jail
minijail_add_fs_restriction_advanced_rw host path j =
    let landlock_flags = bit_or Landlock.roughly_read Landlock.roughly_full_write in
    let (refer, j') = fs_refer_restriction_supported host j in
    add_fs_restriction_path host path
      (if refer then bit_or landlock_flags Landlock.refer else landlock_flags) j'

unfoldable pub minijail_add_fs_restriction_edit : Host → Bytes → Jail → Jail
minijail_add_fs_restriction_edit host path j =
    add_fs_restriction_path host path (bit_or Landlock.roughly_read Landlock.roughly_edit) j

-- The rights are a uint16_t.
unfoldable pub minijail_add_fs_restriction_access_rights : Host → Bytes → ℕ → Jail → Jail
minijail_add_fs_restriction_access_rights host path landlock_flags j =
    add_fs_restriction_path host path (landlock_flags % 2 ^ 16) j

unfoldable pub minijail_is_fs_restriction_ruleset_initialized : Jail → Bool
minijail_is_fs_restriction_ruleset_initialized j = elim j.fs_rules_fd [
  | none ↦ false
  | some _ ↦ true
]

unfoldable pub mount_has_bind_flag : Mountpoint → Bool
mount_has_bind_flag m = not (bit_and m.flags MountFlag.bind == 0)

unfoldable pub mount_has_readonly_flag : Mountpoint → Bool
mount_has_readonly_flag m = not (bit_and m.flags MountFlag.rdonly == 0)

unfoldable pub mount_events_allowed : Mountpoint → Bool
mount_events_allowed m =
    not (bit_and m.flags MountFlag.shared == 0) || not (bit_and m.flags MountFlag.slave == 0)

-- A list of paths, each with the rights to read and execute.
unfoldable pub add_rx_paths : Host → List Bytes → Jail → Jail
add_rx_paths host [] j = j
add_rx_paths host (path ∷ paths) j =
    add_rx_paths host paths (minijail_add_fs_restriction_rx host path j)

abbrev pub default_paths : List Bytes
default_paths =
    codes "/lib"
    ∷ codes "/lib64"
    ∷ codes "/usr/lib"
    ∷ codes "/usr/lib64"
    ∷ codes "/bin"
    ∷ codes "/sbin"
    ∷ codes "/usr/sbin"
    ∷ codes "/usr/bin"
    ∷ []

unfoldable pub minijail_enable_default_fs_restrictions : Host → Jail → Jail
minijail_enable_default_fs_restrictions host j = add_rx_paths host default_paths j

-- The loop over the mounts.
unfoldable pub add_mount_rules : Host → List Mountpoint → Jail → Jail
add_mount_rules host [] j = j
add_mount_rules host (m ∷ mounts) j =
    let readable = minijail_add_fs_restriction_rx host m.dest j in
    add_mount_rules host mounts (
      if not (mount_has_readonly_flag m) || mount_events_allowed m
      then minijail_add_fs_restriction_advanced_rw host m.dest readable
      else readable)

-- What follows the loop if there is a mount.
unfoldable pub add_profile_rules : Host → List Mountpoint → Jail → Jail
add_profile_rules host [] j = j
add_profile_rules host (m ∷ mounts) j =
    let defaults = minijail_enable_default_fs_restrictions host j in
    let dev = minijail_add_fs_restriction_edit host (codes "/dev") defaults in
    let proc = minijail_add_fs_restriction_ro host (codes "/proc") dev in
    if proc.flags.vfs then minijail_add_fs_restriction_rw host (codes "/tmp") proc else proc

unfoldable pub minijail_add_minimalistic_mountns_fs_rules : Host → Jail → Jail
minijail_add_minimalistic_mountns_fs_rules host j =
    if not j.flags.using_minimalistic_mountns || not j.flags.enable_profile_fs_restrictions
    then j
    else add_profile_rules host j.mounts (add_mount_rules host j.mounts j)
