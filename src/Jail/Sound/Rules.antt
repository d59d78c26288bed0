-- ===== src/Jail/Sound/Rules.antt =====
-- The calls that add rules for paths keep a jail sound.
use minijail.Base.{
  ℕ, ◌+◌, bit_or, Bool, true, false, not, ◌||◌, List, [], ◌∷◌, ◌++◌, if◌then◌else◌, ◌==◌, Bytes,
  arith, codes,
}
use minijail.Jail.State.{Jail, FsRule, Mountpoint}
use minijail.Jail.Answer.{Host}
use minijail.Jail.Landlock
use minijail.Jail.FsRules.{
  setup_fs_rules_fd, fs_refer_restriction_supported, add_fs_restriction_path,
  minijail_add_fs_restriction_rx, minijail_add_fs_restriction_ro, minijail_add_fs_restriction_rw,
  minijail_add_fs_restriction_advanced_rw, minijail_add_fs_restriction_edit, add_rx_paths,
  default_paths, minijail_enable_default_fs_restrictions, add_mount_rules, add_profile_rules,
  minijail_add_minimalistic_mountns_fs_rules, mount_has_readonly_flag, mount_events_allowed,
}
use minijail.Jail.Sound.{IsSound, Sound, Sound-if, length-snoc}

-- A set of rules that the counter does not count yet, with or without a new descriptor.
counted :
    (b : Bool) (host : Host) (rule : FsRule) (j : Jail)
    → IsSound j
    → let added = record j { fs_rules = j.fs_rules ++ (rule ∷ []) } in
      let ready = if b then setup_fs_rules_fd host added else added in
      IsSound (record ready { fs_rules_count = ready.fs_rules_count + 1 })
unfolding setup_fs_rules_fd fs_refer_restriction_supported
counted true host rule j (l, m, r, f, g, u, i, o, c, p, a) =
    (l, m, omega (arith, r, length-snoc j.fs_rules rule), f, g, u, i, o, c, p, a)
counted false host rule j (l, m, r, f, g, u, i, o, c, p, a) =
    (l, m, omega (arith, r, length-snoc j.fs_rules rule), f, g, u, i, o, c, p, a)

pub add_fs_restriction_path-Sound :
    (host : Host) (path : Bytes) (rights : ℕ) {j : Jail}
    → Sound j
    → Sound (add_fs_restriction_path host path rights j)
unfolding add_fs_restriction_path
add_fs_restriction_path-Sound host path rights {j = j} s = record {
  parts =
      counted (j.fs_rules_count == 0) host (record { path = path; landlock_flags = rights }) j
        s.parts;
}

refer-Sound : (host : Host) {j : Jail} → Sound j → Sound (fs_refer_restriction_supported host j).1
unfolding fs_refer_restriction_supported
refer-Sound host s = record { parts = s.parts }

pub minijail_add_fs_restriction_advanced_rw-Sound :
    (host : Host) (path : Bytes) {j : Jail}
    → Sound j
    → Sound (minijail_add_fs_restriction_advanced_rw host path j)
unfolding minijail_add_fs_restriction_advanced_rw
minijail_add_fs_restriction_advanced_rw-Sound host path s =
    add_fs_restriction_path-Sound host path _ (refer-Sound host s)

add_rx_paths-Sound :
    (host : Host) (paths : List Bytes) {j : Jail} → Sound j → Sound (add_rx_paths host paths j)
unfolding add_rx_paths minijail_add_fs_restriction_rx
add_rx_paths-Sound host [] s = s
add_rx_paths-Sound host (path ∷ paths) s =
    add_rx_paths-Sound host paths (add_fs_restriction_path-Sound host path _ s)

pub minijail_enable_default_fs_restrictions-Sound :
    (host : Host) {j : Jail} → Sound j → Sound (minijail_enable_default_fs_restrictions host j)
unfolding minijail_enable_default_fs_restrictions
minijail_enable_default_fs_restrictions-Sound host s = add_rx_paths-Sound host default_paths s

add_mount_rules-Sound :
    (host : Host) (mounts : List Mountpoint) {j : Jail}
    → Sound j
    → Sound (add_mount_rules host mounts j)
unfolding add_mount_rules minijail_add_fs_restriction_rx
add_mount_rules-Sound host [] s = s
add_mount_rules-Sound host (m ∷ mounts) s =
    let readable = add_fs_restriction_path-Sound host m.dest Landlock.roughly_read_execute s in
    add_mount_rules-Sound host mounts (
      Sound-if (not (mount_has_readonly_flag m) || mount_events_allowed m)
        (minijail_add_fs_restriction_advanced_rw-Sound host m.dest readable) readable)

add_profile_rules-Sound :
    (host : Host) (mounts : List Mountpoint) {j : Jail}
    → Sound j
    → Sound (add_profile_rules host mounts j)
unfolding add_profile_rules minijail_add_fs_restriction_edit minijail_add_fs_restriction_ro
    minijail_add_fs_restriction_rw
add_profile_rules-Sound host [] s = s
add_profile_rules-Sound host (m ∷ mounts) s =
    let proc = add_fs_restriction_path-Sound host (codes "/proc") Landlock.roughly_read (
      add_fs_restriction_path-Sound host (codes "/dev")
        (bit_or Landlock.roughly_read Landlock.roughly_edit)
        (minijail_enable_default_fs_restrictions-Sound host s)) in
    Sound-if _ (add_fs_restriction_path-Sound host (codes "/tmp") _ proc) proc

pub minijail_add_minimalistic_mountns_fs_rules-Sound :
    (host : Host) {j : Jail} → Sound j → Sound (minijail_add_minimalistic_mountns_fs_rules host j)
unfolding minijail_add_minimalistic_mountns_fs_rules
minijail_add_minimalistic_mountns_fs_rules-Sound host {j = j} s =
    Sound-if (not j.flags.using_minimalistic_mountns || not j.flags.enable_profile_fs_restrictions)
      s (add_profile_rules-Sound host j.mounts (add_mount_rules-Sound host j.mounts s))
