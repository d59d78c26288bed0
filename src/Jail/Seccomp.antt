-- ===== src/Jail/Seccomp.antt =====
-- The calls of libminijail.c that choose and compile the seccomp filter.
use minijail.Base.{
  ℕ, Bool, true, false, not, ◌&&◌, ◌||◌, List, ◌++◌, Option, none, some, if◌then◌else◌, ◌==◌, ltb,
  length, Bytes, codes,
}
use minijail.Bpf.{Instr}
use minijail.Filter.File.{FilterOptions, File, compile_filter}
use minijail.Filter.Line.{BlockAction, ret_kill, ret_kill_process, ret_trap, ret_log}
use minijail.Filter.Names.{decimal}
use minijail.Filter.Outcome.{Outcome, done, ◌>>=◌}
use minijail.Jail.State.{Jail}
use minijail.Jail.Answer.{Answer, returned, died, Host}
use minijail.Jail.Errno

abbrev pub is_some {ℓ} : {A : Type ℓ} → Option A → Bool
is_some none = false
is_some (some a) = true

-- `j->filter_len > 0 && j->filter_prog != NULL`
unfoldable pub has_filter : Jail → Bool
has_filter j = ltb 0 j.filter_len && is_some j.filter_prog

unfoldable pub seccomp_is_logging_allowed : Host → Jail → Bool
seccomp_is_logging_allowed host j = host.seccomp_default_ret_log || j.flags.seccomp_filter_logging

unfoldable pub minijail_set_seccomp_filter_tsync : Host → Jail → Answer
unfolding has_filter seccomp_is_logging_allowed
minijail_set_seccomp_filter_tsync host j =
    if has_filter j
    then died
    else if seccomp_is_logging_allowed host j && not host.seccomp_ret_log_available
    then died
    else returned 0 (record j { flags = record j.flags { seccomp_filter_tsync = true } })

unfoldable pub minijail_set_seccomp_filter_allow_speculation : Jail → Answer
unfolding has_filter
minijail_set_seccomp_filter_allow_speculation j =
    if has_filter j
    then died
    else returned 0
        (record j { flags = record j.flags { seccomp_filter_allow_speculation = true } })

unfoldable pub minijail_log_seccomp_filter_failures : Host → Jail → Answer
unfolding has_filter
minijail_log_seccomp_filter_failures host j =
    if has_filter j
    then died
    else if j.flags.seccomp_filter_tsync && not host.seccomp_ret_log_available
    then died
    else returned 0 (
        if host.debug_logging_allowed
        then record j { flags = record j.flags { seccomp_filter_logging = true } }
        else j)

unfoldable pub clear_seccomp_options : Jail → Jail
clear_seccomp_options j = record j {
  flags = record j.flags {
    seccomp_filter = false;
    seccomp_filter_tsync = false;
    seccomp_filter_logging = false;
    seccomp_filter_allow_speculation = false;
    no_new_privs = false;
  };
  filter_len = 0;
  filter_prog = none;
  seccomp_policy_path = none;
}

-- Seccomp is not compiled into the kernel, and the build takes that.
unfoldable pub seccomp_missing : Host → Bool
seccomp_missing host = elim host.prctl_seccomp_errno [
  | none ↦ false
  | some errno ↦ errno == Errno.einval && host.seccomp_can_softfail
]

unfoldable pub tsync_missing : Host → Bool
tsync_missing host = elim host.seccomp_tsync_errno [
  | none ↦ false
  | some errno ↦
      if errno == Errno.enosys && host.seccomp_can_softfail
      then true
      else errno == Errno.einval && host.seccomp_can_softfail
]

-- SECCOMP_FILTER_FLAG_SPEC_ALLOW
abbrev pub flag_spec_allow : ℕ
flag_spec_allow = 4

unfoldable pub seccomp_should_use_filters : Host → Jail → Bool × Jail
unfolding seccomp_missing tsync_missing clear_seccomp_options
seccomp_should_use_filters host j =
    if seccomp_missing host
    then (false, clear_seccomp_options j)
    else if j.flags.seccomp_filter_tsync && tsync_missing host
    then (false, clear_seccomp_options j)
    else if j.flags.seccomp_filter_allow_speculation
        && not (host.seccomp_filter_flags_available flag_spec_allow)
    then (true, record j { flags = record j.flags { seccomp_filter_allow_speculation = false } })
    else (true, j)

-- The old program is freed; allocations succeed.
unfoldable pub set_seccomp_filters_internal : List Instr → Jail → Jail
set_seccomp_filters_internal filter j = record j {
  filter_len = length filter;
  filter_prog = some filter;
}

unfoldable pub blocked_action : Host → Bool → Bool → BlockAction
blocked_action host allow_logging tsync =
    if allow_logging
    then if host.seccomp_ret_log_available then ret_log else ret_trap
    else if tsync
    then if host.seccomp_ret_kill_process_available then ret_kill_process else ret_trap
    else ret_kill

unfoldable pub filter_options : Host → Jail → FilterOptions
unfolding blocked_action seccomp_is_logging_allowed
filter_options host j =
    let allow_logging = host.debug_logging_allowed && seccomp_is_logging_allowed host j in
    record {
      action = blocked_action host allow_logging j.flags.seccomp_filter_tsync;
      allow_logging = allow_logging;
      allow_syscalls_for_logging = allow_logging && not host.seccomp_ret_log_available;
      allow_duplicate_syscalls = host.allow_duplicate_syscalls;
    }

unfoldable pub parse_seccomp_filters : Host → Bytes → File → Jail → Outcome Jail
unfolding compile_filter filter_options set_seccomp_filters_internal
parse_seccomp_filters host filename file j =
    compile_filter host.syscall_table host.constant_table host.fopen (filter_options host j)
      host.arch_nr filename (some file)
    >>= λ prog. done (set_seccomp_filters_internal prog j)

-- A policy that does not compile ends the process.
unfoldable pub with_policy_path : Option Bytes → Outcome Jail → Answer
with_policy_path path (done j) = returned 0 (record j { seccomp_policy_path = path })
with_policy_path path _ = died

unfoldable pub minijail_parse_seccomp_filters : Host → Bytes → Jail → Answer
unfolding seccomp_should_use_filters parse_seccomp_filters with_policy_path
minijail_parse_seccomp_filters host path j =
    let (use_filters, j') = seccomp_should_use_filters host j in
    if not use_filters then returned 0 j' else elim (host.fopen path) [
      | none ↦ died
      | some file ↦ with_policy_path (some path) (parse_seccomp_filters host path file j')
    ]

abbrev pub name_or_fd : Option Bytes → Bytes
name_or_fd none = codes "<fd>"
name_or_fd (some path) = path

unfoldable pub minijail_parse_seccomp_filters_from_fd : Host → ℕ → Jail → Answer
unfolding seccomp_should_use_filters parse_seccomp_filters with_policy_path
minijail_parse_seccomp_filters_from_fd host fd j =
    let (use_filters, j') = seccomp_should_use_filters host j in
    if not use_filters then returned 0 j' else elim (host.fdopen fd) [
      | none ↦ died
      | some file ↦
          let path = host.realpath (codes "/proc/self/fd/" ++ decimal fd) in
          with_policy_path path (parse_seccomp_filters host (name_or_fd path) file j')
    ]

unfoldable pub minijail_set_seccomp_filters : Host → List Instr → Jail → Answer
unfolding seccomp_should_use_filters seccomp_is_logging_allowed set_seccomp_filters_internal
minijail_set_seccomp_filters host filter j =
    let (use_filters, j') = seccomp_should_use_filters host j in
    if not use_filters
    then returned 0 j'
    else if seccomp_is_logging_allowed host j'
    then died
    else returned 0 (set_seccomp_filters_internal filter j')
