-- ===== src/Jail/Namespace.antt =====
-- The calls of libminijail.c that set namespaces, roots and single flags.
use minijail.Base.{ℕ, ◌*◌, Bool, true, false, [], ◌∷◌, none, some, if◌then◌else◌, ◌==◌, Bytes}
use minijail.Jail.State.{Jail}
use minijail.Jail.Answer.{Answer, returned, refused, died, Host}
use minijail.Jail.Errno

unfoldable pub minijail_use_seccomp : Jail → Jail
minijail_use_seccomp j = record j { flags = record j.flags { seccomp = true } }

unfoldable pub minijail_no_new_privs : Jail → Jail
minijail_no_new_privs j = record j { flags = record j.flags { no_new_privs = true } }

unfoldable pub minijail_use_seccomp_filter : Jail → Jail
minijail_use_seccomp_filter j = record j { flags = record j.flags { seccomp_filter = true } }

unfoldable pub minijail_set_using_minimalistic_mountns : Jail → Jail
minijail_set_using_minimalistic_mountns j = record j {
  flags = record j.flags { using_minimalistic_mountns = true };
}

unfoldable pub minijail_set_enable_profile_fs_restrictions : Jail → Jail
minijail_set_enable_profile_fs_restrictions j = record j {
  flags = record j.flags { enable_profile_fs_restrictions = true };
}

unfoldable pub minijail_reset_signal_mask : Jail → Jail
minijail_reset_signal_mask j = record j { flags = record j.flags { reset_signal_mask = true } }

unfoldable pub minijail_reset_signal_handlers : Jail → Jail
minijail_reset_signal_handlers j = record j {
  flags = record j.flags { reset_signal_handlers = true };
}

unfoldable pub minijail_namespace_vfs : Jail → Jail
minijail_namespace_vfs j = record j { flags = record j.flags { vfs = true } }

unfoldable pub minijail_new_session_keyring : Jail → Jail
minijail_new_session_keyring j = record j { flags = record j.flags { new_session_keyring = true } }

unfoldable pub minijail_namespace_pids : Jail → Jail
minijail_namespace_pids j = record j {
  flags = record j.flags { vfs = true; remount_proc_ro = true; pids = true; do_init = true };
}

unfoldable pub minijail_namespace_pids_rw_proc : Jail → Jail
minijail_namespace_pids_rw_proc j = record j {
  flags = record j.flags { vfs = true; pids = true; do_init = true };
}

unfoldable pub minijail_namespace_ipc : Jail → Jail
minijail_namespace_ipc j = record j { flags = record j.flags { ipc = true } }

unfoldable pub minijail_namespace_uts : Jail → Jail
minijail_namespace_uts j = record j { flags = record j.flags { uts = true } }

unfoldable pub minijail_namespace_net : Jail → Jail
minijail_namespace_net j = record j { flags = record j.flags { net = true } }

unfoldable pub minijail_namespace_cgroups : Jail → Jail
minijail_namespace_cgroups j = record j { flags = record j.flags { ns_cgroups = true } }

unfoldable pub minijail_close_open_fds : Jail → Jail
minijail_close_open_fds j = record j { flags = record j.flags { close_open_fds = true } }

unfoldable pub minijail_remount_proc_readonly : Jail → Jail
minijail_remount_proc_readonly j = record j {
  flags = record j.flags { vfs = true; remount_proc_ro = true };
}

unfoldable pub minijail_namespace_user : Jail → Jail
minijail_namespace_user j = record j { flags = record j.flags { userns = true } }

unfoldable pub minijail_namespace_user_disable_setgroups : Jail → Jail
minijail_namespace_user_disable_setgroups j = record j {
  flags = record j.flags { disable_setgroups = true };
}

unfoldable pub minijail_run_as_init : Jail → Jail
minijail_run_as_init j = record j { flags = record j.flags { run_as_init = true } }

unfoldable pub minijail_mount_dev : Jail → Jail
minijail_mount_dev j = record j { flags = record j.flags { mount_dev = true } }

unfoldable pub minijail_forward_signals : Jail → Jail
minijail_forward_signals j = record j { flags = record j.flags { forward_signals = true } }

unfoldable pub minijail_create_session : Jail → Jail
minijail_create_session j = record j { flags = record j.flags { setsid = true } }

unfoldable pub minijail_set_enable_default_runtime : Bool → Jail → Jail
minijail_set_enable_default_runtime enabled j = record j {
  flags = record j.flags { enable_default_runtime = enabled };
}

unfoldable pub minijail_get_enable_default_runtime : Jail → Bool
minijail_get_enable_default_runtime j = j.flags.enable_default_runtime

unfoldable pub minijail_disable_fs_restrictions : Jail → Jail
minijail_disable_fs_restrictions j = record j {
  flags = record j.flags { enable_fs_restrictions = false };
}

unfoldable pub minijail_namespace_enter_vfs : Host → Bytes → Jail → Answer
minijail_namespace_enter_vfs host ns_path j = elim (host.open_path ns_path) [
  | none ↦ died
  | some ns_fd ↦
      returned 0 (record j { mountns_fd = ns_fd; flags = record j.flags { enter_vfs = true } })
]

unfoldable pub minijail_namespace_enter_net : Host → Bytes → Jail → Answer
minijail_namespace_enter_net host ns_path j = elim (host.open_path ns_path) [
  | none ↦ died
  | some ns_fd ↦
      returned 0 (record j { netns_fd = ns_fd; flags = record j.flags { enter_net = true } })
]

unfoldable pub minijail_remount_mode : ℕ → Jail → Jail
minijail_remount_mode mode j = record j { remount_mode = mode }

unfoldable pub minijail_skip_remount_private : Jail → Jail
minijail_skip_remount_private j = record j { remount_mode = 0 }

unfoldable pub minijail_namespace_set_hostname : Host → Bytes → Jail → Answer
unfolding minijail_namespace_uts
minijail_namespace_set_hostname host name j = elim j.hostname [
  | some _ ↦ refused Errno.einval j
  | none ↦
      if host.copies name
      then returned 0 (record (minijail_namespace_uts j) { hostname = some name })
      else refused Errno.enomem (minijail_namespace_uts j)
]

-- Each ',' becomes a newline.
unfoldable pub comma_to_newline : Bytes → Bytes
comma_to_newline [] = []
comma_to_newline (c ∷ s) = (if c == b',' then b'\n' else c) ∷ comma_to_newline s

unfoldable pub minijail_uidmap : Bytes → Jail → Jail
unfolding comma_to_newline
minijail_uidmap uidmap j = record j { uidmap = some (comma_to_newline uidmap) }

unfoldable pub minijail_gidmap : Bytes → Jail → Jail
unfolding comma_to_newline
minijail_gidmap gidmap j = record j { gidmap = some (comma_to_newline gidmap) }

unfoldable pub minijail_enter_chroot : Bytes → Jail → Answer
minijail_enter_chroot dir j = elim j.chrootdir [
  | some _ ↦ refused Errno.einval j
  | none ↦ returned 0 (record j { chrootdir = some dir; flags = record j.flags { chroot = true } })
]

unfoldable pub minijail_enter_pivot_root : Bytes → Jail → Answer
minijail_enter_pivot_root dir j = elim j.chrootdir [
  | some _ ↦ refused Errno.einval j
  | none ↦
      returned 0 (record j { chrootdir = some dir; flags = record j.flags { pivot_root = true } })
]

unfoldable pub minijail_mount_tmp_size : ℕ → Jail → Jail
minijail_mount_tmp_size size j = record j {
  tmpfs_size = size;
  flags = record j.flags { mount_tmp = true };
}

unfoldable pub minijail_mount_tmp : Jail → Jail
unfolding minijail_mount_tmp_size
minijail_mount_tmp j = minijail_mount_tmp_size (64 * 1024 * 1024) j

unfoldable pub minijail_write_pid_file : Bytes → Jail → Jail
minijail_write_pid_file path j = record j {
  pid_file_path = some path;
  flags = record j.flags { pid_file = true };
}

unfoldable pub minijail_set_preload_path : Bytes → Jail → Answer
minijail_set_preload_path preload_path j = elim j.preload_path [
  | some _ ↦ refused Errno.einval j
  | none ↦ returned 0 (record j { preload_path = some preload_path })
]

unfoldable pub minijail_use_alt_syscall : Bytes → Jail → Jail
minijail_use_alt_syscall table j = record j {
  alt_syscall_table = some table;
  flags = record j.flags { alt_syscall = true };
}
