-- ===== src/Jail/Answer.antt =====
-- What a call on a jail gives back, and the answers of the system that the calls use.
use minijail.Base.{ℕ, Bool, List, Option, Bytes}
use minijail.Filter.File.{File}
use minijail.Util.Syscall.{SyscallEntry, ConstantEntry}
use minijail.Jail.State.{Jail}

-- A value, an error code (negated in the source), each with the jail as the call leaves it, or the
-- end of the process by `die`.
pub data Answer : Type 0 where
  returned refused : ℕ → Jail → Answer
  died : Answer

-- getpwnam_r(3) and getgrnam_r(3): the buffer is too small, another error, no entry, an entry.
pub data Entry {ℓ} (A : Type ℓ) : Type ℓ where
  too_small missing : Entry A
  error : ℕ → Entry A
  entry : A → Entry A

-- The answers of the kernel and the C library during one call, and the choices of the build. A
-- result below zero, and NULL, is none. open_path is open(2).
pub record Host : Type 0 where
  pub open_path : Bytes → Option ℕ
  pub realpath : Bytes → Option Bytes
  -- The suggested size of the buffer for an entry, and the entries for the size of a buffer.
  pub getpw_r_size : Option ℕ
  pub getpwnam_r : ℕ → Bytes → Entry (ℕ × ℕ)
  pub getgr_r_size : Option ℕ
  pub getgrnam_r : ℕ → Bytes → Entry ℕ
  -- landlock_create_ruleset with LANDLOCK_CREATE_RULESET_VERSION, and with a set of rights.
  pub landlock_abi : Option ℕ
  pub landlock_create_ruleset : ℕ → Option ℕ
  -- errno of prctl(PR_SET_SECCOMP) and of seccomp(2) with TSYNC where they give -1, and whether a
  -- flag is available.
  pub prctl_seccomp_errno : Option ℕ
  pub seccomp_tsync_errno : Option ℕ
  pub seccomp_filter_flags_available : ℕ → Bool
  pub seccomp_ret_log_available : Bool
  pub seccomp_ret_kill_process_available : Bool
  pub seccomp_can_softfail : Bool
  pub seccomp_default_ret_log : Bool
  pub debug_logging_allowed : Bool
  pub allow_duplicate_syscalls : Bool
  pub block_symlinks_in_bindmount_paths : Bool
  pub bindmount_allowed_prefixes : Bytes
  -- The generated tables, MINIJAIL_ARCH_NR, fopen(3) and fdopen(3).
  pub syscall_table : List SyscallEntry
  pub constant_table : List ConstantEntry
  pub arch_nr : ℕ
  pub fopen : Bytes → Option File
  pub fdopen : ℕ → Option File
  -- Whether there is memory for a copy, where a call has changed the jail before it asks for one.
  pub copies : Bytes → Bool
  -- The byte in front of a copy that strdup(3) makes.
  pub byte_before_copy : ℕ
