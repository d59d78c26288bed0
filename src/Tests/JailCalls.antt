-- ===== src/Tests/JailCalls.antt =====
-- The theorems on the calls of a jail at concrete inputs, and runs of the calls.
use minijail.Base.{
  ℕ, true, false, ◌&&◌, [], ◌∷◌, none, some, if◌then◌else◌, leb, Bytes, codes, streq, ◌≡◌, ◌≢◌,
  refl, arith,
}
use minijail.Jail.State.{Jail, Mountpoint, minijail_new}
use minijail.Jail.Answer.{returned, refused, Entry, too_small, missing, entry, Host}
use minijail.Jail.Errno
use minijail.Jail.Lookup.{found, retry, first_size, lookup_user}
use minijail.Jail.Lookup.Answered.{Answered}
use minijail.Jail.Limits.{minijail_rlimit, has_rlimit}
use minijail.Jail.Mounts.{
  minijail_bind, minijail_mount, minijail_mount_with_data, is_valid_bind_path, is_absolute,
  new_mountpoint, append_mount, mount_data, mount_flags,
}
use minijail.Jail.FsRules.{minijail_add_minimalistic_mountns_fs_rules}
use minijail.Jail.FsRules.Profile.{Profiled, minijail_add_minimalistic_mountns_fs_rules-profile}
use minijail.Jail.Call.{Call, apply, returns, Reachable, initial, further}
use minijail.Jail.Sound.{IsSound}
use minijail.Jail.Sound.Run.{apply-unchanged, Reachable-IsSound}

-- A name whose entry needs a buffer of 2048 bytes.
abbrev long_entry : ℕ → Bytes → Entry (ℕ × ℕ)
long_entry size name = if leb 2048 size then entry (1000, 100) else too_small

abbrev pub quiet_host : Host
quiet_host = record {
  open_path = λ path. none;
  realpath = λ path. some path;
  getpw_r_size = some 1024;
  getpwnam_r = long_entry;
  getgr_r_size = none;
  getgrnam_r = λ size name. missing;
  landlock_abi = some 3;
  landlock_create_ruleset = λ rights. some 5;
  prctl_seccomp_errno = none;
  seccomp_tsync_errno = none;
  seccomp_filter_flags_available = λ flags. true;
  seccomp_ret_log_available = true;
  seccomp_ret_kill_process_available = true;
  seccomp_can_softfail = false;
  seccomp_default_ret_log = false;
  debug_logging_allowed = false;
  allow_duplicate_syscalls = false;
  block_symlinks_in_bindmount_paths = false;
  bindmount_allowed_prefixes = codes "/dev,/sys";
  syscall_table = [];
  constant_table = [];
  arch_nr = 3221225534;
  fopen = λ path. none;
  fdopen = λ fd. none;
  copies = λ s. true;
  byte_before_copy = 0;
}

abbrev pub bound : Mountpoint
bound = record {
  src = codes "/a";
  dest = codes "/b";
  kind = codes "minijail_bind";
  options = none;
  flags = 4096;
}

abbrev pub with_bind : Jail
with_bind = record minijail_new {
  mounts = bound ∷ [];
  mounts_count = 1;
  flags = record minijail_new.flags { vfs = true };
}

abbrev limited : Jail
limited = record with_bind { rlimits = record { kind = 7; cur = 1; max = 2 } ∷ [] }

binds :
    apply quiet_host (Call.bind (codes "/a") (codes "/b") true) minijail_new ≡ returned 0 with_bind
unfolding apply minijail_bind minijail_mount minijail_mount_with_data is_valid_bind_path is_absolute
    new_mountpoint append_mount mount_data mount_flags minijail_new streq
binds = refl

limits : apply quiet_host (Call.rlimit 7 1 2) with_bind ≡ returned 0 limited
unfolding apply minijail_rlimit has_rlimit minijail_new
limits = refl

limited-Reachable : Reachable limited
limited-Reachable =
    further (returns quiet_host (Call.rlimit 7 1 2) limits)
      (further (returns quiet_host (Call.bind (codes "/a") (codes "/b") true) binds) initial)

Reachable-IsSound_example : IsSound limited
Reachable-IsSound_example = Reachable-IsSound limited limited-Reachable

limits_again : apply quiet_host (Call.rlimit 7 3 4) limited ≡ refused 17 limited
unfolding apply minijail_rlimit has_rlimit minijail_new
limits_again = refl

limited-IsSound : IsSound limited
limited-IsSound = Reachable-IsSound limited limited-Reachable

pub with_bind-IsSound : IsSound with_bind
with_bind-IsSound =
    Reachable-IsSound with_bind
      (further (returns quiet_host (Call.bind (codes "/a") (codes "/b") true) binds) initial)

not_enomem : 17 ≢ Errno.enomem
not_enomem e = absurd (omega (arith, e))

apply-unchanged_example : limited ≡ limited
apply-unchanged_example =
    apply-unchanged quiet_host (Call.rlimit 7 3 4) limited limited 17 limited-IsSound limits_again
      not_enomem

looks_up : lookup_user quiet_host (codes "jailer") ≡ found (1000, 100)
unfolding lookup_user retry first_size
looks_up = refl

abbrev minimal : Jail
minimal = record with_bind { flags = record with_bind.flags { using_minimalistic_mountns = true } }

minijail_add_minimalistic_mountns_fs_rules-profile_example :
    Profiled quiet_host minimal
      (minimal.flags.using_minimalistic_mountns && minimal.flags.enable_profile_fs_restrictions)
      (minijail_add_minimalistic_mountns_fs_rules quiet_host minimal)
minijail_add_minimalistic_mountns_fs_rules-profile_example =
    minijail_add_minimalistic_mountns_fs_rules-profile quiet_host minimal
