-- ===== src/Jail/State.antt =====
-- The structures of libminijail.c, the state that `minijail_new` starts with, and what
-- `minijail_preenter` and `minijail_preexec` strip from it. A NULL pointer is none, a descriptor or
-- an ABI version of -1 is none, and a linked list with its tail pointer is a list.
use minijail.Base.{ℕ, Bool, true, false, List, [], Option, none, Bytes}
use minijail.Bpf.{Instr}
use minijail.Jail.MountFlag

pub record Rlimit : Type 0 where
  pub kind : ℕ
  pub cur : ℕ
  pub max : ℕ

-- The field `data` of the source is `options`, and `has_data` says that it is not NULL.
pub record Mountpoint : Type 0 where
  pub src : Bytes
  pub dest : Bytes
  pub kind : Bytes
  pub options : Option Bytes
  pub flags : ℕ

pub record Remount : Type 0 where
  pub remount_mode : ℕ
  pub mount_name : Bytes

-- The callback and its payload are addresses.
pub record Hook : Type 0 where
  pub hook : ℕ
  pub payload : ℕ
  pub event : ℕ

pub record FsRule : Type 0 where
  pub path : Bytes
  pub landlock_flags : ℕ

pub record PreservedFd : Type 0 where
  pub parent_fd : ℕ
  pub child_fd : ℕ

pub record Flags : Type 0 where
  pub uid : Bool
  pub gid : Bool
  pub inherit_suppl_gids : Bool
  pub set_suppl_gids : Bool
  pub keep_suppl_gids : Bool
  pub use_caps : Bool
  pub capbset_drop : Bool
  pub set_ambient_caps : Bool
  pub vfs : Bool
  pub enter_vfs : Bool
  pub pids : Bool
  pub ipc : Bool
  pub uts : Bool
  pub net : Bool
  pub enter_net : Bool
  pub ns_cgroups : Bool
  pub userns : Bool
  pub disable_setgroups : Bool
  pub seccomp : Bool
  pub remount_proc_ro : Bool
  pub no_new_privs : Bool
  pub seccomp_filter : Bool
  pub seccomp_filter_tsync : Bool
  pub seccomp_filter_logging : Bool
  pub seccomp_filter_allow_speculation : Bool
  pub chroot : Bool
  pub pivot_root : Bool
  pub mount_dev : Bool
  pub mount_tmp : Bool
  pub do_init : Bool
  pub run_as_init : Bool
  pub pid_file : Bool
  pub cgroups : Bool
  pub alt_syscall : Bool
  pub reset_signal_mask : Bool
  pub reset_signal_handlers : Bool
  pub close_open_fds : Bool
  pub new_session_keyring : Bool
  pub forward_signals : Bool
  pub setsid : Bool
  pub using_minimalistic_mountns : Bool
  pub enable_fs_restrictions : Bool
  pub enable_profile_fs_restrictions : Bool
  pub enable_default_runtime : Bool

-- The arrays `cgroups`, `rlimits` and `preserved_fds` are their entries in use, so that the counts
-- are lengths; the counts of the linked lists are fields, as they are in the source.
pub record Jail : Type 0 where
  pub flags : Flags
  pub uid : ℕ
  pub gid : ℕ
  pub usergid : ℕ
  pub user : Option Bytes
  pub suppl_gid_count : ℕ
  pub suppl_gid_list : Option (List ℕ)
  pub caps : ℕ
  pub cap_bset : ℕ
  pub initpid : ℕ
  pub mountns_fd : ℕ
  pub netns_fd : ℕ
  pub fs_rules_fd : Option ℕ
  pub fs_rules_landlock_abi : Option ℕ
  pub chrootdir : Option Bytes
  pub pid_file_path : Option Bytes
  pub uidmap : Option Bytes
  pub gidmap : Option Bytes
  pub hostname : Option Bytes
  pub preload_path : Option Bytes
  pub filename : Option Bytes
  pub filter_len : ℕ
  pub filter_prog : Option (List Instr)
  pub alt_syscall_table : Option Bytes
  pub mounts : List Mountpoint
  pub mounts_count : ℕ
  pub remount_mode : ℕ
  pub remounts : List Remount
  pub tmpfs_size : ℕ
  pub fs_rules : List FsRule
  pub fs_rules_count : ℕ
  pub cgroups : List Bytes
  pub rlimits : List Rlimit
  pub securebits_skip_mask : ℕ
  pub hooks : List Hook
  pub preserved_fds : List PreservedFd
  pub seccomp_policy_path : Option Bytes

abbrev pub max_cgroups : ℕ
max_cgroups = 10

abbrev pub max_rlimits : ℕ
max_rlimits = 32

abbrev pub max_preserved_fds : ℕ
max_preserved_fds = 128

-- calloc(3)
abbrev pub no_flags : Flags
no_flags = record {
  uid = false;
  gid = false;
  inherit_suppl_gids = false;
  set_suppl_gids = false;
  keep_suppl_gids = false;
  use_caps = false;
  capbset_drop = false;
  set_ambient_caps = false;
  vfs = false;
  enter_vfs = false;
  pids = false;
  ipc = false;
  uts = false;
  net = false;
  enter_net = false;
  ns_cgroups = false;
  userns = false;
  disable_setgroups = false;
  seccomp = false;
  remount_proc_ro = false;
  no_new_privs = false;
  seccomp_filter = false;
  seccomp_filter_tsync = false;
  seccomp_filter_logging = false;
  seccomp_filter_allow_speculation = false;
  chroot = false;
  pivot_root = false;
  mount_dev = false;
  mount_tmp = false;
  do_init = false;
  run_as_init = false;
  pid_file = false;
  cgroups = false;
  alt_syscall = false;
  reset_signal_mask = false;
  reset_signal_handlers = false;
  close_open_fds = false;
  new_session_keyring = false;
  forward_signals = false;
  setsid = false;
  using_minimalistic_mountns = false;
  enable_fs_restrictions = false;
  enable_profile_fs_restrictions = false;
  enable_default_runtime = false;
}

unfoldable pub minijail_new : Jail
minijail_new = record {
  flags = record no_flags {
    using_minimalistic_mountns = false;
    enable_fs_restrictions = true;
    enable_profile_fs_restrictions = true;
    enable_default_runtime = true;
  };
  uid = 0;
  gid = 0;
  usergid = 0;
  user = none;
  suppl_gid_count = 0;
  suppl_gid_list = none;
  caps = 0;
  cap_bset = 0;
  initpid = 0;
  mountns_fd = 0;
  netns_fd = 0;
  fs_rules_fd = none;
  fs_rules_landlock_abi = none;
  chrootdir = none;
  pid_file_path = none;
  uidmap = none;
  gidmap = none;
  hostname = none;
  preload_path = none;
  filename = none;
  filter_len = 0;
  filter_prog = none;
  alt_syscall_table = none;
  mounts = [];
  mounts_count = 0;
  remount_mode = MountFlag.private;
  remounts = [];
  tmpfs_size = 0;
  fs_rules = [];
  fs_rules_count = 0;
  cgroups = [];
  rlimits = [];
  securebits_skip_mask = 0;
  hooks = [];
  preserved_fds = [];
  seccomp_policy_path = none;
}

-- What is meant for the parent is stripped.
unfoldable pub minijail_preenter : Jail → Jail
minijail_preenter j = record j {
  flags = record j.flags {
    vfs = false;
    enter_vfs = false;
    ns_cgroups = false;
    net = false;
    uts = false;
    remount_proc_ro = false;
    pids = false;
    do_init = false;
    run_as_init = false;
    pid_file = false;
    cgroups = false;
    forward_signals = false;
    setsid = false;
    using_minimalistic_mountns = false;
    enable_profile_fs_restrictions = false;
    enable_default_runtime = false;
  };
  remount_mode = 0;
  remounts = [];
}

-- What is meant for the child is stripped. The counts of mounts and of rules stay as they are.
unfoldable pub minijail_preexec : Jail → Jail
minijail_preexec j = record j {
  user = none;
  suppl_gid_list = none;
  preload_path = none;
  mounts = [];
  fs_rules = [];
  flags = record no_flags {
    vfs = j.flags.vfs;
    enter_vfs = j.flags.enter_vfs;
    ns_cgroups = j.flags.ns_cgroups;
    net = j.flags.net;
    uts = j.flags.uts;
    remount_proc_ro = j.flags.remount_proc_ro;
    userns = j.flags.userns;
    using_minimalistic_mountns = j.flags.using_minimalistic_mountns;
    enable_fs_restrictions = j.flags.enable_fs_restrictions;
    enable_profile_fs_restrictions = j.flags.enable_profile_fs_restrictions;
    enable_default_runtime = j.flags.enable_default_runtime;
  };
}
