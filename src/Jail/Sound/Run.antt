-- ===== src/Jail/Sound/Run.antt =====
-- Every call keeps a jail sound, and so every jail that calls lead to is sound.
use minijail.Base.{ℕ, bit_or, ◌%◌, ◌^◌, ◌≡◌, ◌≢◌, refl, arith}
use mathlib.Core.Path.{subst}
use minijail.Jail.State.{Jail, minijail_new}
use minijail.Jail.Answer.{returned, refused, Host}
use minijail.Jail.Errno
use minijail.Jail.Landlock
use minijail.Jail.Call.{Call, apply, returns, refuses, Reachable, initial, further}
use minijail.Jail.Identity.{
  minijail_keep_supplementary_gids, minijail_inherit_usergroups, minijail_set_ambient_caps,
  minijail_skip_setting_securebits,
}
use minijail.Jail.FsRules.{
  minijail_add_fs_restriction_rx, minijail_add_fs_restriction_ro, minijail_add_fs_restriction_rw,
  minijail_add_fs_restriction_edit, minijail_add_fs_restriction_access_rights,
}
use minijail.Jail.Namespace.{
  minijail_use_seccomp, minijail_no_new_privs, minijail_use_seccomp_filter,
  minijail_set_using_minimalistic_mountns, minijail_set_enable_profile_fs_restrictions,
  minijail_reset_signal_mask, minijail_reset_signal_handlers, minijail_namespace_vfs,
  minijail_new_session_keyring, minijail_namespace_pids, minijail_namespace_pids_rw_proc,
  minijail_namespace_ipc, minijail_namespace_uts, minijail_namespace_net,
  minijail_namespace_cgroups, minijail_close_open_fds, minijail_remount_proc_readonly,
  minijail_namespace_user, minijail_namespace_user_disable_setgroups, minijail_run_as_init,
  minijail_mount_dev, minijail_forward_signals, minijail_create_session,
  minijail_set_enable_default_runtime, minijail_disable_fs_restrictions, minijail_remount_mode,
  minijail_skip_remount_private, minijail_uidmap, minijail_gidmap, minijail_mount_tmp,
  minijail_mount_tmp_size, minijail_write_pid_file, minijail_use_alt_syscall,
}
use minijail.Jail.Sound.Arrays.{
  minijail_add_to_cgroup-Keeps, minijail_rlimit-Keeps, minijail_add_hook-Keeps,
  minijail_preserve_fd-Keeps,
}
use minijail.Jail.Sound.Users.{
  minijail_change_uid-Keeps, minijail_change_gid-Keeps, minijail_set_supplementary_gids-Keeps,
  minijail_change_user-Keeps, minijail_change_group-Keeps, minijail_capbset_drop-Keeps,
  minijail_use_caps-IsSound,
}
use minijail.Jail.Sound.Roots.{
  vfs-IsSound, minijail_namespace_enter_vfs-Keeps, minijail_namespace_enter_net-Keeps,
  minijail_namespace_set_hostname-Keeps, minijail_enter_chroot-Keeps,
  minijail_enter_pivot_root-Keeps, minijail_set_preload_path-Keeps,
}
use minijail.Jail.Sound.Rules.{
  add_fs_restriction_path-Sound, minijail_add_fs_restriction_advanced_rw-Sound,
  minijail_enable_default_fs_restrictions-Sound, minijail_add_minimalistic_mountns_fs_rules-Sound,
}
use minijail.Jail.Sound.MountList.{
  minijail_mount_with_data-Keeps, minijail_mount-Keeps, minijail_bind-Keeps,
  minijail_add_remount-Keeps,
}
use minijail.Jail.Sound.Filters.{
  minijail_set_seccomp_filter_tsync-Keeps, minijail_set_seccomp_filter_allow_speculation-Keeps,
  minijail_log_seccomp_filter_failures-Keeps, minijail_parse_seccomp_filters-Keeps,
  minijail_parse_seccomp_filters_from_fd-Keeps, minijail_set_seccomp_filters-Keeps,
}
use minijail.Jail.Sound.{IsSound, Keeps, kept, named, sound, unchanged, partly}

-- Each call, with any answers of the host, keeps a sound jail sound where it gives a value, and
-- leaves it as it was where it gives an error other than -ENOMEM.
pub apply-Keeps : (host : Host) (c : Call) (j : Jail) → IsSound j → Keeps j (apply host c j)
unfolding apply minijail_use_seccomp minijail_no_new_privs minijail_use_seccomp_filter
    minijail_set_using_minimalistic_mountns minijail_set_enable_profile_fs_restrictions
    minijail_reset_signal_mask minijail_reset_signal_handlers minijail_namespace_vfs
    minijail_new_session_keyring minijail_namespace_pids minijail_namespace_pids_rw_proc
    minijail_namespace_ipc minijail_namespace_uts minijail_namespace_net minijail_namespace_cgroups
    minijail_close_open_fds minijail_remount_proc_readonly minijail_namespace_user
    minijail_namespace_user_disable_setgroups minijail_run_as_init minijail_mount_dev
    minijail_forward_signals minijail_create_session minijail_set_enable_default_runtime
    minijail_disable_fs_restrictions minijail_remount_mode minijail_skip_remount_private
    minijail_uidmap minijail_gidmap minijail_mount_tmp minijail_mount_tmp_size
    minijail_write_pid_file minijail_use_alt_syscall minijail_keep_supplementary_gids
    minijail_inherit_usergroups minijail_set_ambient_caps minijail_skip_setting_securebits
    minijail_add_fs_restriction_rx minijail_add_fs_restriction_ro minijail_add_fs_restriction_rw
    minijail_add_fs_restriction_edit minijail_add_fs_restriction_access_rights
apply-Keeps host Call.use_seccomp j s = sound s
apply-Keeps host Call.no_new_privs j s = sound s
apply-Keeps host Call.use_seccomp_filter j s = sound s
apply-Keeps host Call.set_using_minimalistic_mountns j s = sound s
apply-Keeps host Call.set_enable_profile_fs_restrictions j s = sound s
apply-Keeps host Call.reset_signal_mask j s = sound s
apply-Keeps host Call.reset_signal_handlers j s = sound s
apply-Keeps host Call.namespace_vfs j s = sound (vfs-IsSound j s)
apply-Keeps host Call.new_session_keyring j s = sound s
apply-Keeps host Call.namespace_pids j s = sound (vfs-IsSound j s)
apply-Keeps host Call.namespace_pids_rw_proc j s = sound (vfs-IsSound j s)
apply-Keeps host Call.namespace_ipc j s = sound s
apply-Keeps host Call.namespace_uts j s = sound s
apply-Keeps host Call.namespace_net j s = sound s
apply-Keeps host Call.namespace_cgroups j s = sound s
apply-Keeps host Call.close_open_fds j s = sound s
apply-Keeps host Call.remount_proc_readonly j s = sound (vfs-IsSound j s)
apply-Keeps host Call.namespace_user j s = sound s
apply-Keeps host Call.namespace_user_disable_setgroups j s = sound s
apply-Keeps host Call.run_as_init j s = sound s
apply-Keeps host Call.mount_dev j s = sound s
apply-Keeps host Call.forward_signals j s = sound s
apply-Keeps host Call.create_session j s = sound s
apply-Keeps host (Call.set_enable_default_runtime x) j s = sound s
apply-Keeps host Call.disable_fs_restrictions j s = sound s
apply-Keeps host (Call.namespace_enter_vfs x) j s = minijail_namespace_enter_vfs-Keeps host x j s
apply-Keeps host (Call.namespace_enter_net x) j s = minijail_namespace_enter_net-Keeps host x j s
apply-Keeps host (Call.remount_mode x) j s = sound s
apply-Keeps host Call.skip_remount_private j s = sound s
apply-Keeps host (Call.namespace_set_hostname x) j s =
    minijail_namespace_set_hostname-Keeps host x j s
apply-Keeps host (Call.uidmap x) j s = sound s
apply-Keeps host (Call.gidmap x) j s = sound s
apply-Keeps host (Call.enter_chroot x) j s = minijail_enter_chroot-Keeps x j s
apply-Keeps host (Call.enter_pivot_root x) j s = minijail_enter_pivot_root-Keeps x j s
apply-Keeps host Call.mount_tmp j s = sound s
apply-Keeps host (Call.mount_tmp_size x) j s = sound s
apply-Keeps host (Call.write_pid_file x) j s =
    let (l, m, r, f, g, u, i, o, c, p, a) = s in sound (l, m, r, f, g, u, i, o, c, tt, a)
apply-Keeps host (Call.set_preload_path x) j s = minijail_set_preload_path-Keeps x j s
apply-Keeps host (Call.use_alt_syscall x) j s =
    let (l, m, r, f, g, u, i, o, c, p, a) = s in sound (l, m, r, f, g, u, i, o, c, p, tt)
apply-Keeps host (Call.change_uid x) j s = minijail_change_uid-Keeps x j s
apply-Keeps host (Call.change_gid x) j s = minijail_change_gid-Keeps x j s
apply-Keeps host (Call.set_supplementary_gids x) j s = minijail_set_supplementary_gids-Keeps x j s
apply-Keeps host Call.keep_supplementary_gids j s = sound s
apply-Keeps host (Call.change_user x) j s = minijail_change_user-Keeps host x j s
apply-Keeps host (Call.change_group x) j s = minijail_change_group-Keeps host x j s
apply-Keeps host Call.inherit_usergroups j s = sound s
apply-Keeps host (Call.use_caps x) j s = sound (minijail_use_caps-IsSound x j s)
apply-Keeps host (Call.capbset_drop x) j s = minijail_capbset_drop-Keeps x j s
apply-Keeps host Call.set_ambient_caps j s = sound s
apply-Keeps host (Call.skip_setting_securebits x) j s = sound s
apply-Keeps host (Call.add_to_cgroup x) j s = minijail_add_to_cgroup-Keeps x j s
apply-Keeps host (Call.rlimit x y z) j s = minijail_rlimit-Keeps x y z j s
apply-Keeps host (Call.add_hook x y z) j s = minijail_add_hook-Keeps x y z j s
apply-Keeps host (Call.preserve_fd x y) j s = minijail_preserve_fd-Keeps x y j s
apply-Keeps host (Call.add_fs_restriction_rx x) j s =
    kept (add_fs_restriction_path-Sound host x Landlock.roughly_read_execute (named j s))
apply-Keeps host (Call.add_fs_restriction_ro x) j s =
    kept (add_fs_restriction_path-Sound host x Landlock.roughly_read (named j s))
apply-Keeps host (Call.add_fs_restriction_rw x) j s = kept (
    add_fs_restriction_path-Sound host x (bit_or Landlock.roughly_read Landlock.roughly_basic_write)
      (named j s))
apply-Keeps host (Call.add_fs_restriction_advanced_rw x) j s =
    kept (minijail_add_fs_restriction_advanced_rw-Sound host x (named j s))
apply-Keeps host (Call.add_fs_restriction_edit x) j s = kept (
    add_fs_restriction_path-Sound host x (bit_or Landlock.roughly_read Landlock.roughly_edit)
      (named j s))
apply-Keeps host (Call.add_fs_restriction_access_rights x y) j s =
    kept (add_fs_restriction_path-Sound host x (y % 2 ^ 16) (named j s))
apply-Keeps host Call.enable_default_fs_restrictions j s =
    kept (minijail_enable_default_fs_restrictions-Sound host (named j s))
apply-Keeps host Call.add_minimalistic_mountns_fs_rules j s =
    kept (minijail_add_minimalistic_mountns_fs_rules-Sound host (named j s))
apply-Keeps host (Call.mount_with_data x y z v w) j s = minijail_mount_with_data-Keeps x y z v w j s
apply-Keeps host (Call.mount x y z v) j s = minijail_mount-Keeps x y z v j s
apply-Keeps host (Call.bind x y z) j s = minijail_bind-Keeps host x y z j s
apply-Keeps host (Call.add_remount x y) j s = minijail_add_remount-Keeps x y j s
apply-Keeps host Call.set_seccomp_filter_tsync j s =
    minijail_set_seccomp_filter_tsync-Keeps host j s
apply-Keeps host Call.set_seccomp_filter_allow_speculation j s =
    minijail_set_seccomp_filter_allow_speculation-Keeps j s
apply-Keeps host Call.log_seccomp_filter_failures j s =
    minijail_log_seccomp_filter_failures-Keeps host j s
apply-Keeps host (Call.parse_seccomp_filters x) j s =
    minijail_parse_seccomp_filters-Keeps host x j (named j s)
apply-Keeps host (Call.parse_seccomp_filters_from_fd x) j s =
    minijail_parse_seccomp_filters_from_fd-Keeps host x j (named j s)
apply-Keeps host (Call.set_seccomp_filters x) j s =
    minijail_set_seccomp_filters-Keeps host x j (named j s)

returned-IsSound : {j j' : Jail} {v : ℕ} → Keeps j (returned v j') → IsSound j'
returned-IsSound (sound s) = s

refused-same : {j j' : Jail} {e : ℕ} → Keeps j (refused e j') → e ≢ Errno.enomem → j' ≡ j
refused-same unchanged other = refl
refused-same (partly s) other = absurd (other refl)

refused-IsSound : {j j' : Jail} {e : ℕ} → IsSound j → Keeps j (refused e j') → IsSound j'
refused-IsSound s unchanged = s
refused-IsSound s (partly s') = s'

minijail_new-IsSound : IsSound minijail_new
unfolding minijail_new
minijail_new-IsSound = (
  record {
    cgroups_fit = omega arith;
    rlimits_fit = omega arith;
    rlimits_distinct = tt;
    fds_fit = omega arith;
    fds_valid = tt;
    hooks_valid = tt;
  },
  record { mounts_valid = tt; mounts_counted = refl; mounts_inside = tt; remounts_valid = tt },
  refl,
  refl,
  refl,
  tt,
  tt,
  (refl, refl),
  refl,
  refl,
  refl,
)

-- A call that gives an error other than -ENOMEM leaves a sound jail exactly as it was, whatever the
-- host answers.
pub apply-unchanged :
    (host : Host) (c : Call) (j j' : Jail) (e : ℕ)
    → IsSound j
    → apply host c j ≡ refused e j'
    → e ≢ Errno.enomem
    → j' ≡ j
apply-unchanged host c j j' e s h other =
    refused-same (subst (λ answer. Keeps j answer) h (apply-Keeps host c j s)) other

-- Every jail that calls lead to from a new one, in any order and with any answers of the host, is
-- sound: its arrays are within their bounds and no limit is set twice; mounts are absolute, have
-- flags, are counted, and stay inside a mount namespace; the rules, the program and the groups are
-- counted; a user or group that is switched to is not root; the root is changed in one way at most;
-- the bounding set is not dropped beside runtime capabilities.
pub Reachable-IsSound : (j : Jail) → Reachable j → IsSound j
Reachable-IsSound _ initial = minijail_new-IsSound
Reachable-IsSound _ (further {j = j} (returns host c e) r) =
    returned-IsSound
      (subst (λ answer. Keeps j answer) e (apply-Keeps host c j (Reachable-IsSound j r)))
Reachable-IsSound _ (further {j = j} {j' = j'} (refuses host c e) r) =
    refused-IsSound (Reachable-IsSound j r)
      (subst (λ answer. Keeps j answer) e (apply-Keeps host c j (Reachable-IsSound j r)))
