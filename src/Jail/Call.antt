-- ===== src/Jail/Call.antt =====
-- The calls of libminijail.c on a jail as data, and the jails that they lead to.
use minijail.Base.{ℕ, Bool, List, Option, Bytes, ◌≡◌}
use minijail.Bpf.{Instr}
use minijail.Jail.State.{Jail, minijail_new}
use minijail.Jail.Answer.{Answer, returned, refused, Host}
use minijail.Jail.Identity.{
  minijail_change_uid, minijail_change_gid, minijail_set_supplementary_gids,
  minijail_keep_supplementary_gids, minijail_change_user, minijail_change_group,
  minijail_inherit_usergroups, minijail_use_caps, minijail_capbset_drop, minijail_set_ambient_caps,
  minijail_skip_setting_securebits,
}
use minijail.Jail.Limits.{
  minijail_add_to_cgroup, minijail_rlimit, minijail_add_hook, minijail_preserve_fd,
}
use minijail.Jail.FsRules.{
  minijail_add_fs_restriction_rx, minijail_add_fs_restriction_ro, minijail_add_fs_restriction_rw,
  minijail_add_fs_restriction_advanced_rw, minijail_add_fs_restriction_edit,
  minijail_add_fs_restriction_access_rights, minijail_enable_default_fs_restrictions,
  minijail_add_minimalistic_mountns_fs_rules,
}
use minijail.Jail.Mounts.{
  minijail_mount_with_data, minijail_mount, minijail_bind, minijail_add_remount,
}
use minijail.Jail.Seccomp.{
  minijail_set_seccomp_filter_tsync, minijail_set_seccomp_filter_allow_speculation,
  minijail_log_seccomp_filter_failures, minijail_parse_seccomp_filters,
  minijail_parse_seccomp_filters_from_fd, minijail_set_seccomp_filters,
}
use minijail.Jail.Namespace.{
  minijail_use_seccomp, minijail_no_new_privs, minijail_use_seccomp_filter,
  minijail_set_using_minimalistic_mountns, minijail_set_enable_profile_fs_restrictions,
  minijail_reset_signal_mask, minijail_reset_signal_handlers, minijail_namespace_vfs,
  minijail_new_session_keyring, minijail_namespace_pids, minijail_namespace_pids_rw_proc,
  minijail_namespace_ipc, minijail_namespace_uts, minijail_namespace_net,
  minijail_namespace_cgroups, minijail_close_open_fds, minijail_remount_proc_readonly,
  minijail_namespace_user, minijail_namespace_user_disable_setgroups, minijail_run_as_init,
  minijail_mount_dev, minijail_forward_signals, minijail_create_session,
  minijail_set_enable_default_runtime, minijail_disable_fs_restrictions,
  minijail_namespace_enter_vfs, minijail_namespace_enter_net, minijail_remount_mode,
  minijail_skip_remount_private, minijail_namespace_set_hostname, minijail_uidmap, minijail_gidmap,
  minijail_enter_chroot, minijail_enter_pivot_root, minijail_mount_tmp, minijail_mount_tmp_size,
  minijail_write_pid_file, minijail_set_preload_path, minijail_use_alt_syscall,
}

-- A call of the interface, with its arguments. The call `x` is `minijail_x`.
pub data Call : Type 0 where
  use_seccomp no_new_privs use_seccomp_filter set_using_minimalistic_mountns
        set_enable_profile_fs_restrictions reset_signal_mask reset_signal_handlers namespace_vfs
        new_session_keyring namespace_pids namespace_pids_rw_proc namespace_ipc namespace_uts
        namespace_net namespace_cgroups close_open_fds remount_proc_readonly namespace_user
        namespace_user_disable_setgroups run_as_init mount_dev forward_signals create_session
        disable_fs_restrictions skip_remount_private mount_tmp keep_supplementary_gids
        inherit_usergroups set_ambient_caps enable_default_fs_restrictions
        add_minimalistic_mountns_fs_rules set_seccomp_filter_tsync
        set_seccomp_filter_allow_speculation log_seccomp_filter_failures :
      Call
  set_enable_default_runtime : Bool → Call
  namespace_enter_vfs namespace_enter_net namespace_set_hostname uidmap gidmap enter_chroot
        enter_pivot_root write_pid_file set_preload_path use_alt_syscall change_user change_group
        add_to_cgroup add_fs_restriction_rx add_fs_restriction_ro add_fs_restriction_rw
        add_fs_restriction_advanced_rw add_fs_restriction_edit parse_seccomp_filters :
      Bytes → Call
  remount_mode mount_tmp_size change_uid change_gid use_caps capbset_drop skip_setting_securebits
        parse_seccomp_filters_from_fd :
      ℕ → Call
  set_supplementary_gids : List ℕ → Call
  rlimit add_hook : ℕ → ℕ → ℕ → Call
  preserve_fd : ℕ → ℕ → Call
  add_fs_restriction_access_rights add_remount : Bytes → ℕ → Call
  mount_with_data : Bytes → Bytes → Bytes → ℕ → Option Bytes → Call
  mount : Bytes → Bytes → Bytes → ℕ → Call
  bind : Bytes → Bytes → Bool → Call
  set_seccomp_filters : List Instr → Call

-- The call runs with the answers of the host. A call without a result gives 0.
unfoldable pub apply : Host → Call → Jail → Answer
unfolding minijail_namespace_enter_vfs minijail_namespace_enter_net minijail_namespace_set_hostname
    minijail_enter_chroot minijail_enter_pivot_root minijail_set_preload_path minijail_change_uid
    minijail_change_gid minijail_set_supplementary_gids minijail_change_user minijail_change_group
    minijail_capbset_drop minijail_add_to_cgroup minijail_rlimit minijail_add_hook
    minijail_preserve_fd minijail_mount_with_data minijail_mount minijail_bind minijail_add_remount
    minijail_set_seccomp_filter_tsync minijail_set_seccomp_filter_allow_speculation
    minijail_log_seccomp_filter_failures minijail_parse_seccomp_filters
    minijail_parse_seccomp_filters_from_fd minijail_set_seccomp_filters
apply host use_seccomp j = returned 0 (minijail_use_seccomp j)
apply host no_new_privs j = returned 0 (minijail_no_new_privs j)
apply host use_seccomp_filter j = returned 0 (minijail_use_seccomp_filter j)
apply host set_using_minimalistic_mountns j = returned 0 (minijail_set_using_minimalistic_mountns j)
apply host set_enable_profile_fs_restrictions j =
    returned 0 (minijail_set_enable_profile_fs_restrictions j)
apply host reset_signal_mask j = returned 0 (minijail_reset_signal_mask j)
apply host reset_signal_handlers j = returned 0 (minijail_reset_signal_handlers j)
apply host namespace_vfs j = returned 0 (minijail_namespace_vfs j)
apply host new_session_keyring j = returned 0 (minijail_new_session_keyring j)
apply host namespace_pids j = returned 0 (minijail_namespace_pids j)
apply host namespace_pids_rw_proc j = returned 0 (minijail_namespace_pids_rw_proc j)
apply host namespace_ipc j = returned 0 (minijail_namespace_ipc j)
apply host namespace_uts j = returned 0 (minijail_namespace_uts j)
apply host namespace_net j = returned 0 (minijail_namespace_net j)
apply host namespace_cgroups j = returned 0 (minijail_namespace_cgroups j)
apply host close_open_fds j = returned 0 (minijail_close_open_fds j)
apply host remount_proc_readonly j = returned 0 (minijail_remount_proc_readonly j)
apply host namespace_user j = returned 0 (minijail_namespace_user j)
apply host namespace_user_disable_setgroups j =
    returned 0 (minijail_namespace_user_disable_setgroups j)
apply host run_as_init j = returned 0 (minijail_run_as_init j)
apply host mount_dev j = returned 0 (minijail_mount_dev j)
apply host forward_signals j = returned 0 (minijail_forward_signals j)
apply host create_session j = returned 0 (minijail_create_session j)
apply host (set_enable_default_runtime x) j = returned 0 (minijail_set_enable_default_runtime x j)
apply host disable_fs_restrictions j = returned 0 (minijail_disable_fs_restrictions j)
apply host (namespace_enter_vfs x) j = minijail_namespace_enter_vfs host x j
apply host (namespace_enter_net x) j = minijail_namespace_enter_net host x j
apply host (remount_mode x) j = returned 0 (minijail_remount_mode x j)
apply host skip_remount_private j = returned 0 (minijail_skip_remount_private j)
apply host (namespace_set_hostname x) j = minijail_namespace_set_hostname host x j
apply host (uidmap x) j = returned 0 (minijail_uidmap x j)
apply host (gidmap x) j = returned 0 (minijail_gidmap x j)
apply host (enter_chroot x) j = minijail_enter_chroot x j
apply host (enter_pivot_root x) j = minijail_enter_pivot_root x j
apply host mount_tmp j = returned 0 (minijail_mount_tmp j)
apply host (mount_tmp_size x) j = returned 0 (minijail_mount_tmp_size x j)
apply host (write_pid_file x) j = returned 0 (minijail_write_pid_file x j)
apply host (set_preload_path x) j = minijail_set_preload_path x j
apply host (use_alt_syscall x) j = returned 0 (minijail_use_alt_syscall x j)
apply host (change_uid x) j = minijail_change_uid x j
apply host (change_gid x) j = minijail_change_gid x j
apply host (set_supplementary_gids x) j = minijail_set_supplementary_gids x j
apply host keep_supplementary_gids j = returned 0 (minijail_keep_supplementary_gids j)
apply host (change_user x) j = minijail_change_user host x j
apply host (change_group x) j = minijail_change_group host x j
apply host inherit_usergroups j = returned 0 (minijail_inherit_usergroups j)
apply host (use_caps x) j = returned 0 (minijail_use_caps x j)
apply host (capbset_drop x) j = minijail_capbset_drop x j
apply host set_ambient_caps j = returned 0 (minijail_set_ambient_caps j)
apply host (skip_setting_securebits x) j = returned 0 (minijail_skip_setting_securebits x j)
apply host (add_to_cgroup x) j = minijail_add_to_cgroup x j
apply host (rlimit x y z) j = minijail_rlimit x y z j
apply host (add_hook x y z) j = minijail_add_hook x y z j
apply host (preserve_fd x y) j = minijail_preserve_fd x y j
apply host (add_fs_restriction_rx x) j = returned 1 (minijail_add_fs_restriction_rx host x j)
apply host (add_fs_restriction_ro x) j = returned 1 (minijail_add_fs_restriction_ro host x j)
apply host (add_fs_restriction_rw x) j = returned 1 (minijail_add_fs_restriction_rw host x j)
apply host (add_fs_restriction_advanced_rw x) j =
    returned 1 (minijail_add_fs_restriction_advanced_rw host x j)
apply host (add_fs_restriction_edit x) j = returned 1 (minijail_add_fs_restriction_edit host x j)
apply host (add_fs_restriction_access_rights x y) j =
    returned 1 (minijail_add_fs_restriction_access_rights host x y j)
apply host enable_default_fs_restrictions j =
    returned 0 (minijail_enable_default_fs_restrictions host j)
apply host add_minimalistic_mountns_fs_rules j =
    returned 0 (minijail_add_minimalistic_mountns_fs_rules host j)
apply host (mount_with_data x y z v w) j = minijail_mount_with_data x y z v w j
apply host (mount x y z v) j = minijail_mount x y z v j
apply host (bind x y z) j = minijail_bind host x y z j
apply host (add_remount x y) j = minijail_add_remount x y j
apply host set_seccomp_filter_tsync j = minijail_set_seccomp_filter_tsync host j
apply host set_seccomp_filter_allow_speculation j = minijail_set_seccomp_filter_allow_speculation j
apply host log_seccomp_filter_failures j = minijail_log_seccomp_filter_failures host j
apply host (parse_seccomp_filters x) j = minijail_parse_seccomp_filters host x j
apply host (parse_seccomp_filters_from_fd x) j = minijail_parse_seccomp_filters_from_fd host x j
apply host (set_seccomp_filters x) j = minijail_set_seccomp_filters host x j

-- A call that comes back leads to a jail, whether it gives a value or an error.
pub data Step : Jail → Jail → Type 0 where
  returns :
      (host : Host) (c : Call) {v : ℕ} {j j' : Jail} → apply host c j ≡ returned v j' → Step j j'
  refuses :
      (host : Host) (c : Call) {e : ℕ} {j j' : Jail} → apply host c j ≡ refused e j' → Step j j'

-- The jails that calls lead to from a new one.
pub data Reachable : Jail → Type 0 where
  initial : Reachable minijail_new
  further : {j j' : Jail} → Step j j' → Reachable j → Reachable j'
